-- ===== src/Sxcups/Rules/Qer.antt =====
-- The QoS Enforcement Rule of sxcups/rules.py. Only its id goes over the wire.
use v_epc_cups.Prelude.{
  ℕ, ◌^◌, ◌<◌, ◌≡◌, ap, ◌∙◌, Option, some, [], ◌∷◌, ◌++◌, arith, if◌then◌else◌,
}
use v_epc_cups.Prelude.Results.{Result, ok, type_error, need, ◌>>=◌}
use v_epc_cups.Bytes.{Bytes, u32}
use v_epc_cups.Pfcp.Types.{named}
use v_epc_cups.Pfcp.Types.Ie
use v_epc_cups.Pfcp.Ies.{Ies, nil, cons, encode_ie, encode_grouped, decode_ies_recursive}
use v_epc_cups.Pfcp.Ies.Framing.{decode_ies_recursive-encode_ie}
use v_epc_cups.Pfcp.Values.{ie_qer_id, u32_of}
use v_epc_cups.Pfcp.Values.RoundTrip.{u32_of-u32}

pub record Qer : Type 0 where
  pub qer_id : Option ℕ
  pub qfi : ℕ
  pub mbr_ul : ℕ
  pub mbr_dl : ℕ

-- QER(qer_id), with the defaults for the rest.
unfoldable pub new_qer : Option ℕ → Qer
new_qer qer_id = record { qer_id = qer_id; qfi = 9; mbr_ul = 0; mbr_dl = 0 }

unfoldable pub to_pfcp : Qer → Result Bytes
unfolding encode_grouped
to_pfcp q = do
  qer_id ← need type_error q.qer_id
  ok (encode_grouped Ie.create_qer (ie_qer_id qer_id ∷ []))

-- The loop returns at the first QER ID.
unfoldable pub first_qer : Ies → Qer
unfolding named new_qer
first_qer nil = new_qer (some 0)
first_qer (cons t v _ ies) =
    let rest = first_qer ies in if named t "QER ID" then new_qer (u32_of v) else rest

unfoldable pub from_pfcp : Bytes → Qer
unfolding first_qer
from_pfcp value = first_qer (decode_ies_recursive value)

-- A Create QER that `to_pfcp` wrote is decoded to a QER with the same id and the default policy.
pub qer_round_trip :
    (q : Qer) (i : ℕ)
    → q.qer_id ≡ some i
    → i < 2 ^ 32
    → (v : Bytes) × (to_pfcp q ≡ ok (encode_ie Ie.create_qer v)) × (from_pfcp v ≡ new_qer (some i))
unfolding from_pfcp to_pfcp ie_qer_id
qer_round_trip q i e h = (
  encode_ie Ie.qer_id (u32 i) ++ [],
  rw e,
  ap first_qer (
        decode_ies_recursive-encode_ie Ie.qer_id (u32 i) [] (omega arith)
          (unfold u32 in omega arith))
      ∙ ap new_qer (u32_of-u32 i h),
)
