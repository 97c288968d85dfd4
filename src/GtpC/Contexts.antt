-- ===== src/GtpC/Contexts.antt =====
-- What the Bearer Context codec reads back.
use v_epc_cups.Prelude.{ℕ, ◌+◌, ◌%◌, ◌^◌, ◌<◌, ◌≡◌, refl, some, ◌++◌, arith, bit_and, bit_or}
use v_epc_cups.Prelude.Bits.{bit_or-shifted, bit_and-pow}
use v_epc_cups.Prelude.Results.{ok}
use v_epc_cups.Bytes.{Bytes, Ip, u8, u32, u32-field, inet_aton}
use v_epc_cups.GtpC.Bearer.{f_teid_value, decode_f_teid}

-- An F-TEID whose TEID and address have 32 bits is read back, with the low six bits of its interface
-- type, whatever follows it.
pub decode_f_teid-f_teid_value :
    (teid : ℕ) (ip : Ip) (iface : ℕ) (rest : Bytes)
    → teid < 2 ^ 32
    → ip < 2 ^ 32
    → decode_f_teid (f_teid_value teid ip iface ++ rest)
      ≡ ok (record { teid = teid; ip = some ip; iface = iface % 2 ^ 6 })
unfolding decode_f_teid f_teid_value u8 inet_aton
decode_f_teid-f_teid_value teid ip iface rest ht hi =
    let shifted : bit_or 0x80 (iface % 2 ^ 6) ≡ 0x80 + iface % 2 ^ 6 =
      omega (arith, bit_or-shifted 7 1 (iface % 2 ^ 6) (omega arith)) in
    let flag : bit_and ((0x80 + iface % 2 ^ 6) % 256) 0x80 ≡ 0x80 =
      omega (arith, bit_and-pow 7 ((0x80 + iface % 2 ^ 6) % 256)) in
    let low : (0x80 + iface % 2 ^ 6) % 256 % 2 ^ 6 ≡ iface % 2 ^ 6 = omega arith in
    let addr = u32-field ip rest hi in
    rw (shifted, u32-field teid (u32 ip ++ rest) ht, flag, low, addr) refl
