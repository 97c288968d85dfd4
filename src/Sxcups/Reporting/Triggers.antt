-- ===== src/Sxcups/Reporting/Triggers.antt =====
-- Which triggers a report carries, and how they are named.
use v_epc_cups.Prelude.{
  ℕ, ◌/◌, ◌%◌, ◌^◌, ◌≤◌, ◌<◌, ◌≡◌, refl, ap, ◌∙◌, sym, append-nil, append_assoc, join, Bool, true,
  String, Option, none, some, List, [], ◌∷◌, ◌++◌, length, nat_beq, arith, if◌then◌else◌,
}
use v_epc_cups.Prelude.Bits.{bit_and-pow}
use v_epc_cups.Prelude.Results.{ok}
use v_epc_cups.Bytes.{Bytes, u8, u16, u32, u64}
use v_epc_cups.Pfcp.Types.{session_report_request}
use v_epc_cups.Pfcp.Types.Ie
use v_epc_cups.Pfcp.Ies.{encode_ie, encode_grouped, decode_ies}
use v_epc_cups.Pfcp.Ies.Framing.{decode_ies-encode_ie}
use v_epc_cups.Pfcp.Values.{Volume, names_of_bits, ie_urr_id, ie_volume, ie_pdr_id}
use v_epc_cups.Pfcp.Message.{Message, new_message, add}
use v_epc_cups.Sxcups.Reporting.{describe, build_report_request, add_usage, add_pdr, volume_ie}

-- The binary digit of `n` at `k`.
abbrev pub bit_at : ℕ → ℕ → Bool
bit_at k n = nat_beq (n / 2 ^ k % 2) 1

abbrev pub named_if : Bool → String → List String
named_if flag name = if flag then name ∷ [] else []

one_name :
    (k b : ℕ) (name : String) (table : List (ℕ × String)) (names : List String)
    → 0 < 2 ^ k
    → names_of_bits table b ≡ names
    → names_of_bits ((2 ^ k, name) ∷ table) b ≡ named_if (bit_at k b) name ++ names
unfolding names_of_bits
one_name k b name table names pos e = ground (arith, bit_and-pow k b)

-- `describe` names a trigger just where the binary digit of its value is set, in the order of the
-- values.
pub describe_lem :
    (bits : ℕ)
    → describe bits
      ≡ named_if (bit_at 0 bits) "PERIODIC"
        ++ (named_if (bit_at 1 bits) "VOLUME_THRESHOLD"
            ++ (named_if (bit_at 2 bits) "TIME_THRESHOLD"
                ++ (named_if (bit_at 3 bits) "QUOTA_EXHAUSTED"
                    ++ (named_if (bit_at 4 bits) "START_OF_TRAFFIC"
                        ++ (named_if (bit_at 5 bits) "STOP_OF_TRAFFIC"
                            ++ (named_if (bit_at 6 bits) "FIRST_DOWNLINK_DATA" ++ []))))))
unfolding describe
describe_lem b = one_name 0 b "PERIODIC" _ _ (omega arith) (
    one_name 1 b "VOLUME_THRESHOLD" _ _ (omega arith) (
      one_name 2 b "TIME_THRESHOLD" _ _ (omega arith) (
        one_name 3 b "QUOTA_EXHAUSTED" _ _ (omega arith) (
          one_name 4 b "START_OF_TRAFFIC" _ _ (omega arith) (
            one_name 5 b "STOP_OF_TRAFFIC" _ _ (omega arith) (
              one_name 6 b "FIRST_DOWNLINK_DATA" [] [] (omega arith)
                (unfold names_of_bits in refl)))))))

one_ie :
    (t : ℕ) (v : Bytes) → t < 2 ^ 16 → length v < 2 ^ 16 → decode_ies (encode_ie t v) ≡ (t, v) ∷ []
one_ie t v ht hv =
    ap decode_ies (sym (append-nil (encode_ie t v)))
    ∙ decode_ies-encode_ie t v [] ht hv
    ∙ unfold decode_ies in refl

add-encode_ie :
    (m : Message) (t : ℕ) (v : Bytes)
    → t < 2 ^ 16
    → length v < 2 ^ 16
    → add m (encode_ie t v) ≡ ok (record m { ies = m.ies ++ (t, v) ∷ [] })
unfolding add
add-encode_ie m t v ht hv = rw (one_ie t v ht hv)

length-volume_ie : (volume : Option Volume) → length (join (volume_ie volume)) ≤ 28
unfolding ie_volume u16 u64
length-volume_ie none = omega arith
length-volume_ie (some v) = omega arith

abbrev usage_value : ℕ → Option Volume → Bytes
usage_value urr_id volume = ie_urr_id urr_id ++ join (volume_ie volume)

length-usage_value : (urr_id : ℕ) (volume : Option Volume) → length (usage_value urr_id volume) ≤ 36
unfolding ie_urr_id u16 u32
length-usage_value urr_id volume = omega (arith, length-volume_ie volume)

-- The IEs that follow the first Report Type.
abbrev pub usage_ies : ℕ → Option Volume → Option ℕ → List (ℕ × Bytes)
usage_ies triggers volume none = []
usage_ies triggers volume (some urr_id) =
    (Ie.report_type, u8 (triggers % 256)) ∷ (Ie.create_urr, usage_value urr_id volume) ∷ []

abbrev pub pdr_ies : Option ℕ → List (ℕ × Bytes)
pdr_ies none = []
pdr_ies (some pdr_id) = (Ie.created_pdr, ie_pdr_id pdr_id ++ []) ∷ []

add_usage_lem :
    (m : Message) (triggers : ℕ) (volume : Option Volume) (urr_id : Option ℕ)
    → add_usage triggers volume urr_id m
      ≡ ok (record m { ies = m.ies ++ usage_ies triggers volume urr_id })
unfolding add_usage encode_grouped
add_usage_lem m triggers volume none =
    ap (λ (x : List (ℕ × Bytes)). ok (record m { ies = x })) (sym (append-nil m.ies))
add_usage_lem m triggers volume (some urr_id) = rw (
  add-encode_ie m Ie.report_type (u8 (triggers % 256)) (omega arith) (unfold u8 in omega arith),
  add-encode_ie (record m { ies = m.ies ++ (Ie.report_type, u8 (triggers % 256)) ∷ [] })
      Ie.create_urr (usage_value urr_id volume) (omega arith)
      (omega (arith, length-usage_value urr_id volume)),
  append_assoc,
)

add_pdr_lem :
    (m : Message) (pdr_id : Option ℕ)
    → add_pdr pdr_id m ≡ ok (record m { ies = m.ies ++ pdr_ies pdr_id })
unfolding add_pdr encode_grouped
add_pdr_lem m none =
    ap (λ (x : List (ℕ × Bytes)). ok (record m { ies = x })) (sym (append-nil m.ies))
add_pdr_lem m (some pdr_id) =
    add-encode_ie m Ie.created_pdr (ie_pdr_id pdr_id ++ []) (omega arith)
      (unfold ie_pdr_id u16 in omega arith)

-- A report request is always built. It is a Session Report Request with the given SEID and sequence
-- number, and its first Report Type holds the low eight bits of the triggers; the IEs are those of
-- the usage, if a URR is given, and of the PDR, if one is given.
pub build_report_request_lem :
    (seid seq triggers : ℕ) (urr_id : Option ℕ) (volume : Option Volume) (pdr_id : Option ℕ)
    → build_report_request seid seq triggers urr_id volume pdr_id
      ≡ ok (record {
        msg_type = session_report_request;
        seid = seid;
        seq = seq;
        ies =
            (Ie.report_type, u8 (triggers % 256))
            ∷ (usage_ies triggers volume urr_id ++ pdr_ies pdr_id);
        has_seid = true;
      })
unfolding build_report_request new_message
build_report_request_lem seid seq triggers urr_id volume pdr_id = rw (
  add-encode_ie (new_message session_report_request seid seq [] true) Ie.report_type
      (u8 (triggers % 256)) (omega arith) (unfold u8 in omega arith),
  add_usage_lem,
  add_pdr_lem,
)
