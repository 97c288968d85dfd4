-- ===== src/GtpC/Bearer.antt =====
-- The F-TEID and the Bearer Context of protocols/gtp_c.py.
use mathlib.Core.Option
use v_epc_cups.Prelude.{
  ℕ, ◌%◌, ◌^◌, Option, none, some, List, [], ◌∷◌, ◌++◌, length, drop, nat_beq, bit_and, bit_or,
  if◌then◌else◌,
}
use v_epc_cups.Prelude.Results.{Result, ok, err, struct_error, index_error, need, ◌>>=◌}
use v_epc_cups.Bytes.{Bytes, Ip, u8, u32, inet_aton, field}
use v_epc_cups.Tlv.{encode_tlvs, decode_tlvs}

abbrev pub ie_cause : ℕ
ie_cause = 2

abbrev pub ie_ebi : ℕ
ie_ebi = 73

abbrev pub ie_f_teid : ℕ
ie_f_teid = 87

abbrev pub ie_charging_id : ℕ
ie_charging_id = 94

-- The value of ie_f_teid(teid, ip, iface): the V4 flag and the interface type, the TEID, the address.
unfoldable pub f_teid_value : ℕ → Ip → ℕ → Bytes
unfolding u8 u32 inet_aton
f_teid_value teid ip iface = u8 (bit_or 0x80 (iface % 2 ^ 6)) ++ u32 teid ++ inet_aton ip

-- The triple that `decode_f_teid` returns: the address is None without the V4 flag.
pub record FTeid : Type 0 where
  pub teid : ℕ
  pub ip : Option Ip
  pub iface : ℕ

unfoldable pub decode_f_teid : Bytes → Result FTeid
unfolding field
decode_f_teid [] = err index_error
decode_f_teid (flags ∷ v) = do
  teid ← need struct_error (field 4 v)
  ok (record {
    teid = teid;
    ip = if nat_beq (bit_and flags 0x80) 0 then none else field 4 (drop 4 v);
    iface = flags % 2 ^ 6;
  })

-- kids.append((ie, value)) for an argument that is given
abbrev pub given : ℕ → Option Bytes → List (ℕ × Bytes) → List (ℕ × Bytes)
given ie none kids = kids
given ie (some value) kids = (ie, value) ∷ kids

-- The children of a Bearer Context, whose F-TEID is given as (teid, ip, iface).
unfoldable pub bearer_kids : ℕ → Option (ℕ × Ip × ℕ) → Option ℕ → Option ℕ → List (ℕ × Bytes)
unfolding f_teid_value u8 u32
bearer_kids ebi fteid cause charging_id =
    (ie_ebi, u8 ebi)
    ∷ given ie_cause (Option.map u8 cause) (
        given ie_f_teid (Option.map (λ (f : ℕ × Ip × ℕ). f_teid_value f.0 f.1 f.2) fteid)
          (given ie_charging_id (Option.map u32 charging_id) []))

-- The value of ie_bearer_context(ebi, fteid, cause, charging_id)
unfoldable pub bearer_context : ℕ → Option (ℕ × Ip × ℕ) → Option ℕ → Option ℕ → Result Bytes
unfolding encode_tlvs bearer_kids
bearer_context ebi fteid cause charging_id = encode_tlvs (bearer_kids ebi fteid cause charging_id)

-- The dictionary that `decode_bearer_context` fills: a key that is missing is `none`.
pub record Bearer : Type 0 where
  pub ebi : Option ℕ
  pub f_teid : Option FTeid
  pub cause : Option ℕ
  pub charging_id : Option ℕ

-- One child; val[0] raises on an empty value.
unfoldable pub bearer_step : Bearer → ℕ → Bytes → Result Bearer
unfolding decode_f_teid field
bearer_step b t v =
    if nat_beq t ie_ebi
    then (do ebi ← need index_error (field 1 v); ok (record b { ebi = some ebi }))
    else if nat_beq t ie_f_teid
    then (do f_teid ← decode_f_teid v; ok (record b { f_teid = some f_teid }))
    else if nat_beq t ie_cause
    then (do cause ← need index_error (field 1 v); ok (record b { cause = some cause }))
    else if nat_beq t ie_charging_id
    then (do
      charging_id ← need struct_error (field 4 v)
      ok (record b { charging_id = some charging_id }))
    else ok b

unfoldable pub read_kids : Bearer → List (ℕ × Bytes) → Result Bearer
unfolding bearer_step
read_kids b [] = ok b
read_kids b ((t, v) ∷ kids) = do b' ← bearer_step b t v; read_kids b' kids

unfoldable pub decode_bearer_context : Bytes → Result Bearer
unfolding read_kids decode_tlvs
decode_bearer_context v =
    read_kids (record { ebi = none; f_teid = none; cause = none; charging_id = none })
      (decode_tlvs (length v) v)
