-- ===== src/Pfcp/Values/RoundTrip.antt =====
-- Each value codec reads back what it wrote.
use v_epc_cups.Prelude.{ℕ, ◌^◌, ◌<◌, ◌≡◌, ap, ap₂, some, [], ◌++◌, arith}
use v_epc_cups.Bytes.{Bytes, Ip, u32, u32-be_value, u64-be_value, u16, u16-field, u32-field}
use v_epc_cups.Pfcp.Values.{
  fseid_value, decode_fseid, ft_eid_value, decode_ft_eid, volume_value, decode_volume, u32_of,
  pdr_id_of,
}

-- An F-SEID is read back: a 64-bit SEID and a 32-bit address, whatever follows them.
pub decode_fseid-fseid_value :
    (seid : ℕ) (ip : Ip) (rest : Bytes)
    → seid < 2 ^ 64
    → ip < 2 ^ 32
    → decode_fseid (fseid_value seid ip ++ rest) ≡ some (seid, ip)
unfolding decode_fseid fseid_value
decode_fseid-fseid_value seid ip rest hs hi =
    ap some (ap₂ (λ (a b : ℕ). (a, b)) (u64-be_value seid hs) (u32-be_value ip hi))

-- An F-TEID is read back: a 32-bit TEID and an address, whatever follows them.
pub decode_ft_eid-ft_eid_value :
    (teid : ℕ) (ip : Ip) (rest : Bytes)
    → teid < 2 ^ 32
    → ip < 2 ^ 32
    → decode_ft_eid (ft_eid_value teid ip ++ rest) ≡ some (teid, ip)
unfolding decode_ft_eid ft_eid_value
decode_ft_eid-ft_eid_value teid ip rest ht hi =
    ground (arith, u32-be_value teid ht, u32-be_value ip hi)

-- A Volume Measurement is read back: three 64-bit counters.
pub decode_volume-volume_value :
    (total ul dl : ℕ)
    → total < 2 ^ 64
    → ul < 2 ^ 64
    → dl < 2 ^ 64
    → decode_volume (volume_value total ul dl)
      ≡ some (record { total = total; uplink = ul; downlink = dl })
unfolding decode_volume volume_value
decode_volume-volume_value total ul dl ht hu hd =
    rw (u64-be_value total ht, u64-be_value ul hu, u64-be_value dl hd)

pub u32_of-u32 : (v : ℕ) → v < 2 ^ 32 → u32_of (u32 v) ≡ some v
unfolding u32_of u32
u32_of-u32 v h = u32-field v [] h

pub pdr_id_of-u16 : (v : ℕ) → v < 2 ^ 16 → pdr_id_of (u16 v) ≡ some v
unfolding pdr_id_of u16
pdr_id_of-u16 v h = u16-field v [] h
