-- ===== src/Sxcups/Rules/Far/RoundTrip.antt =====
-- What of a FAR survives the wire: its id and its actions.
use v_epc_cups.Prelude.{
  ℕ, ◌^◌, ◌<◌, ◌≡◌, ap, ◌∙◌, String, Option, none, some, List, [], ◌∷◌, ◌++◌, length, join, ◌≤◌,
  arith, Bool,
}
use v_epc_cups.Prelude.Results.{ok}
use v_epc_cups.Bytes.{Bytes, Ip, u8, u16, u32, inet_aton}
use v_epc_cups.Pfcp.Types.Ie
use v_epc_cups.Pfcp.Ies.{encode_ie, encode_grouped, decode_ies_recursive, for_ies}
use v_epc_cups.Pfcp.Ies.Framing.{for_ies-encode_ie, for_ies_end, length-encode_ie}
use v_epc_cups.Pfcp.Values.{ie_far_id, ie_apply_action, apply_action_bits}
use v_epc_cups.Pfcp.Values.ApplyAction.{named_if, decode_apply_action-bits}
use v_epc_cups.Pfcp.Values.RoundTrip.{u32_of-u32}
use v_epc_cups.Sxcups.Rules.Interfaces.{iface_code}
use v_epc_cups.Sxcups.Rules.Far.{
  Far, contains, outer_children, forwarding, to_pfcp, new_far, far_step, from_pfcp,
}

-- The known actions of a list, each once, in the order of their bits.
abbrev pub known_actions : List String → List String
known_actions actions =
    named_if (contains "DROP" actions) "DROP"
    ++ named_if (contains "FORWARD" actions) "FORWARD"
    ++ named_if (contains "BUFFER" actions) "BUFFER"
    ++ named_if (contains "NOTIFY" actions) "NOTIFY"
    ++ named_if (contains "DUPLICATE" actions) "DUPLICATE"

abbrev read : Far → Bytes → Far
read f bytes = for_ies far_step f (decode_ies_recursive bytes)

abbrev forwarding_value : Far → Bytes
forwarding_value f =
    encode_ie Ie.destination_interface (u8 (iface_code (some f.destination_interface) 1))
    ++ join (outer_children f.outer_header)

length-outer_children : (h : Option (ℕ × Ip)) → length (join (outer_children h)) ≤ 16
unfolding outer_children encode_ie u16 u32 inet_aton
length-outer_children none = omega arith
length-outer_children (some (teid, ip)) = omega arith

length-forwarding_value : (f : Far) → length (forwarding_value f) ≤ 21
unfolding u8
length-forwarding_value f = omega (
  arith,
  length-encode_ie Ie.destination_interface (u8 (iface_code (some f.destination_interface) 1))
      (join (outer_children f.outer_header)),
  length-outer_children f.outer_header,
)

module _ (f : Far) (rest : Bytes) where
  read-far_id :
      (i : ℕ) → i < 2 ^ 32 → read f (ie_far_id i ++ rest) ≡ read (record f { far_id = some i }) rest
  unfolding far_step ie_far_id
  read-far_id i h =
      for_ies-encode_ie far_step f Ie.far_id (u32 i) rest (omega arith) (unfold u32 in omega arith)
      ∙ ap (λ (x : Option ℕ). read (record f { far_id = x }) rest) (u32_of-u32 i h)

  read-apply_action :
      (forward drop buffer notify duplicate : Bool)
      → read f (ie_apply_action forward drop buffer notify duplicate ++ rest)
        ≡ read
            (record f {
              apply_action =
                  named_if drop "DROP"
                  ++ named_if forward "FORWARD"
                  ++ named_if buffer "BUFFER"
                  ++ named_if notify "NOTIFY"
                  ++ named_if duplicate "DUPLICATE";
            })
            rest
  unfolding far_step ie_apply_action
  read-apply_action forward drop buffer notify duplicate =
      for_ies-encode_ie far_step f Ie.apply_action
        (u8 (apply_action_bits forward drop buffer notify duplicate)) rest (omega arith)
        (unfold u8 in omega arith)
      ∙ ap (λ (x : List String). read (record f { apply_action = x }) rest)
          (unfold u8 in decode_apply_action-bits forward drop buffer notify duplicate [])

  read-forwarding : (g : Far) → read f (forwarding g ++ rest) ≡ read f rest
  unfolding far_step forwarding encode_grouped
  read-forwarding g =
      for_ies-encode_ie far_step f Ie.forwarding_parameters (forwarding_value g) rest (omega arith)
        (omega (arith, length-forwarding_value g))

abbrev actions_ie : List String → Bytes
actions_ie actions =
    ie_apply_action (contains "FORWARD" actions) (contains "DROP" actions)
      (contains "BUFFER" actions) (contains "NOTIFY" actions) (contains "DUPLICATE" actions)

abbrev far_value : Far → ℕ → Bytes
far_value f i = ie_far_id i ++ (actions_ie f.apply_action ++ (forwarding f ++ []))

read_value :
    (f : Far) (i : ℕ)
    → i < 2 ^ 32
    → from_pfcp (far_value f i) ≡ new_far i (known_actions f.apply_action) "Core"
unfolding from_pfcp new_far
read_value f i h =
    read-far_id (new_far 0 ("FORWARD" ∷ []) "Core")
      (actions_ie f.apply_action ++ (forwarding f ++ [])) i h
    ∙ read-apply_action (new_far i ("FORWARD" ∷ []) "Core") (forwarding f ++ [])
        (contains "FORWARD" f.apply_action) (contains "DROP" f.apply_action)
        (contains "BUFFER" f.apply_action) (contains "NOTIFY" f.apply_action)
        (contains "DUPLICATE" f.apply_action)
    ∙ read-forwarding (new_far i (known_actions f.apply_action) "Core") [] f
    ∙ for_ies_end far_step _

-- A Create FAR that `to_pfcp` wrote for a 32-bit id is decoded to a FAR with the same id and the
-- known actions. The
-- destination is always Core there and the outer header is gone, since the decoder does not read
-- the Forwarding Parameters.
pub far_round_trip :
    (f : Far) (i : ℕ)
    → f.far_id ≡ some i
    → i < 2 ^ 32
    → (v : Bytes) × (to_pfcp f ≡ ok (encode_ie Ie.create_far v))
      × (from_pfcp v ≡ new_far i (known_actions f.apply_action) "Core")
unfolding from_pfcp to_pfcp encode_grouped
far_round_trip f i e h = (far_value f i, rw e, read_value f i h)
