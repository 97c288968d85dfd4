-- ===== src/Sxcups/Rules/Urr.antt =====
-- The Usage Reporting Rule of sxcups/rules.py.
use v_epc_cups.Prelude.{
  ℕ, ◌^◌, ◌<◌, ◌≡◌, ap, ◌∙◌, String, Option, some, List, [], ◌∷◌, ◌++◌, arith, if◌then◌else◌,
}
use v_epc_cups.Prelude.Results.{Result, ok, type_error, need, ◌>>=◌}
use v_epc_cups.Bytes.{Bytes, u32}
use v_epc_cups.Pfcp.Types.{named}
use v_epc_cups.Pfcp.Types.Ie
use v_epc_cups.Pfcp.Ies.{Ies, encode_ie, encode_grouped, decode_ies_recursive, for_ies}
use v_epc_cups.Pfcp.Ies.Framing.{for_ies-encode_ie, for_ies_end}
use v_epc_cups.Pfcp.Values.{ie_urr_id, u32_of}
use v_epc_cups.Pfcp.Values.RoundTrip.{u32_of-u32}

pub record Urr : Type 0 where
  pub urr_id : Option ℕ
  pub measurement : String
  pub triggers : List String
  pub period : Option ℕ

-- URR(urr_id, period=period), with the defaults for the rest. The default period is 60.
unfoldable pub new_urr : Option ℕ → Option ℕ → Urr
new_urr urr_id period = record {
  urr_id = urr_id;
  measurement = "VOLUME";
  triggers = "PERIODIC" ∷ [];
  period = period;
}

unfoldable pub to_pfcp : Urr → Result Bytes
unfolding encode_grouped
to_pfcp u = do
  urr_id ← need type_error u.urr_id
  period ← need type_error u.period
  ok (
      encode_grouped Ie.create_urr
        (ie_urr_id urr_id ∷ encode_ie Ie.measurement_period (u32 period) ∷ []))

unfoldable pub urr_step : Urr → ℕ → Bytes → Ies → Urr
unfolding named
urr_step urr t v _ =
    if named t "URR ID"
    then record urr { urr_id = u32_of v }
    else if named t "Measurement Period"
    then record urr { period = u32_of v }
    else urr

unfoldable pub from_pfcp : Bytes → Urr
unfolding urr_step for_ies decode_ies_recursive new_urr
from_pfcp value = for_ies urr_step (new_urr (some 0) (some 60)) (decode_ies_recursive value)

-- A Create URR that `to_pfcp` wrote for a 32-bit id and a 32-bit period is decoded to a URR with
-- the same id and period, and the default measurement and triggers.
pub urr_round_trip :
    (u : Urr) (i p : ℕ)
    → u.urr_id ≡ some i
    → u.period ≡ some p
    → i < 2 ^ 32
    → p < 2 ^ 32
    → (v : Bytes) × (to_pfcp u ≡ ok (encode_ie Ie.create_urr v))
      × (from_pfcp v ≡ new_urr (some i) (some p))
unfolding from_pfcp to_pfcp ie_urr_id
urr_round_trip u i p ei ep hi hp = (
  encode_ie Ie.urr_id (u32 i) ++ (encode_ie Ie.measurement_period (u32 p) ++ []),
  rw (ei, ep),
  for_ies-encode_ie urr_step (new_urr (some 0) (some 60)) Ie.urr_id (u32 i)
        (encode_ie Ie.measurement_period (u32 p) ++ []) (omega arith) (unfold u32 in omega arith)
      ∙ ap
          (λ (x : Option ℕ).
            for_ies urr_step (new_urr x (some 60))
              (decode_ies_recursive (encode_ie Ie.measurement_period (u32 p) ++ [])))
          (u32_of-u32 i hi)
      ∙ for_ies-encode_ie urr_step (new_urr (some i) (some 60)) Ie.measurement_period (u32 p) []
          (omega arith) (unfold u32 in omega arith)
      ∙ for_ies_end urr_step _
      ∙ ap (new_urr (some i)) (u32_of-u32 p hp),
)
