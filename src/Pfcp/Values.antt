-- ===== src/Pfcp/Values.antt =====
-- The value codecs of protocols/pfcp.py.
pub mod RoundTrip
pub mod ApplyAction
use v_epc_cups.Prelude.{
  ℕ, ◌+◌, String, Bool, true, false, not, Option, none, some, List, [], ◌∷◌, ◌++◌, length, take,
  drop, nat_beq, ltb, bit_and, bit_or, if◌then◌else◌,
}
use v_epc_cups.Bytes.{Bytes, Ip, u8, u16, u32, u64, inet_aton, be_value, field}
use v_epc_cups.Pfcp.Types.{cause_request_accepted}
use v_epc_cups.Pfcp.Types.Ie
use v_epc_cups.Pfcp.Ies.{encode_ie}

unfoldable pub ie_cause : ℕ → Bytes
unfolding encode_ie u8
ie_cause value = encode_ie Ie.cause (u8 value)

-- `v4` is true at every call.
unfoldable pub ie_node_id : Ip → Bytes
unfolding encode_ie u8 inet_aton
ie_node_id ip = encode_ie Ie.node_id (u8 0 ++ inet_aton ip)

unfoldable pub decode_node_id : Option Bytes → Option Ip
unfolding field
decode_node_id none = none
decode_node_id (some []) = none
decode_node_id (some (kind ∷ v)) =
    if nat_beq kind 0 then (if ltb (length v) 4 then none else field 4 v) else none

unfoldable pub fseid_value : ℕ → Ip → Bytes
unfolding u8 u64 inet_aton
fseid_value seid ip = u8 0x02 ++ u64 seid ++ inet_aton ip

unfoldable pub ie_fseid : ℕ → Ip → Bytes
unfolding encode_ie fseid_value
ie_fseid seid ip = encode_ie Ie.f_seid (fseid_value seid ip)

-- (None, None) on a short value.
unfoldable pub decode_fseid : Bytes → Option (ℕ × Ip)
unfolding be_value
decode_fseid (flags ∷ s₇ ∷ s₆ ∷ s₅ ∷ s₄ ∷ s₃ ∷ s₂ ∷ s₁ ∷ s₀ ∷ a ∷ b ∷ c ∷ d ∷ rest) =
    some (be_value 0 (s₇ ∷ s₆ ∷ s₅ ∷ s₄ ∷ s₃ ∷ s₂ ∷ s₁ ∷ s₀ ∷ []), be_value 0 (a ∷ b ∷ c ∷ d ∷ []))
decode_fseid _ = none

unfoldable pub ie_recovery_ts : ℕ → Bytes
unfolding encode_ie u32
ie_recovery_ts ts = encode_ie Ie.recovery_time_stamp (u32 ts)

unfoldable pub ie_source_interface : ℕ → Bytes
unfolding encode_ie u8
ie_source_interface value = encode_ie Ie.source_interface (u8 value)

unfoldable pub ft_eid_value : ℕ → Ip → Bytes
unfolding u8 u32 inet_aton
ft_eid_value teid ip = u8 0x02 ++ u32 teid ++ inet_aton ip

unfoldable pub ie_ft_eid : ℕ → Ip → Bytes
unfolding encode_ie ft_eid_value
ie_ft_eid teid ip = encode_ie Ie.f_teid (ft_eid_value teid ip)

-- (None, None) on a short value.
unfoldable pub decode_ft_eid : Bytes → Option (ℕ × Ip)
unfolding be_value
decode_ft_eid (flags ∷ t₃ ∷ t₂ ∷ t₁ ∷ t₀ ∷ a ∷ b ∷ c ∷ d ∷ rest) =
    some (be_value 0 (t₃ ∷ t₂ ∷ t₁ ∷ t₀ ∷ []), be_value 0 (a ∷ b ∷ c ∷ d ∷ []))
decode_ft_eid _ = none

-- `if flag: bits |= bit`
abbrev set_bit : Bool → ℕ → ℕ → ℕ
set_bit flag bit bits = if flag then bit_or bits bit else bits

unfoldable pub apply_action_bits : (forward drop buffer notify duplicate : Bool) → ℕ
apply_action_bits forward drop buffer notify duplicate =
    set_bit duplicate 0x10
      (set_bit notify 0x08 (set_bit buffer 0x04 (set_bit forward 0x02 (set_bit drop 0x01 0))))

unfoldable pub ie_apply_action : (forward drop buffer notify duplicate : Bool) → Bytes
unfolding encode_ie u8 apply_action_bits
ie_apply_action forward drop buffer notify duplicate =
    encode_ie Ie.apply_action (u8 (apply_action_bits forward drop buffer notify duplicate))

abbrev pub apply_action_names : List (ℕ × String)
apply_action_names =
    (0x01, "DROP")
    ∷ (0x02, "FORWARD")
    ∷ (0x04, "BUFFER")
    ∷ (0x08, "NOTIFY")
    ∷ (0x10, "DUPLICATE")
    ∷ []

-- [name for bit, name in table if b & bit]
unfoldable pub names_of_bits : List (ℕ × String) → ℕ → List String
names_of_bits [] b = []
names_of_bits ((bit, name) ∷ table) b =
    let rest = names_of_bits table b in if nat_beq (bit_and b bit) 0 then rest else name ∷ rest

unfoldable pub decode_apply_action : Bytes → List String
unfolding names_of_bits
decode_apply_action [] = names_of_bits apply_action_names 0
decode_apply_action (b ∷ v) = names_of_bits apply_action_names b

unfoldable pub ie_pdr_id : ℕ → Bytes
unfolding encode_ie u16
ie_pdr_id i = encode_ie Ie.pdr_id (u16 i)

unfoldable pub ie_far_id : ℕ → Bytes
unfolding encode_ie u32
ie_far_id i = encode_ie Ie.far_id (u32 i)

unfoldable pub ie_qer_id : ℕ → Bytes
unfolding encode_ie u32
ie_qer_id i = encode_ie Ie.qer_id (u32 i)

unfoldable pub ie_urr_id : ℕ → Bytes
unfolding encode_ie u32
ie_urr_id i = encode_ie Ie.urr_id (u32 i)

unfoldable pub volume_value : (total ul dl : ℕ) → Bytes
unfolding u64
volume_value total ul dl = u64 total ++ u64 ul ++ u64 dl

unfoldable pub ie_volume : (total ul dl : ℕ) → Bytes
unfolding encode_ie volume_value
ie_volume total ul dl = encode_ie Ie.volume_measurement (volume_value total ul dl)

pub record Volume : Type 0 where
  pub total : ℕ
  pub uplink : ℕ
  pub downlink : ℕ

-- `none` for the empty dictionary.
unfoldable pub decode_volume : Bytes → Option Volume
unfolding field be_value
decode_volume v =
    if ltb (length v) 24
    then none
    else some (record {
      total = be_value 0 (take 8 v);
      uplink = be_value 0 (take 8 (drop 8 v));
      downlink = be_value 0 (take 8 (drop 16 v));
    })

unfoldable pub pdr_id_of : Bytes → Option ℕ
unfolding field
pdr_id_of v = field 2 v

unfoldable pub u32_of : Bytes → Option ℕ
unfolding field
u32_of v = field 4 v

unfoldable pub u8_of : Bytes → Option ℕ
u8_of [] = none
u8_of (b ∷ v) = some b
