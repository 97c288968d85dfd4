-- ===== src/Bytes.antt =====
-- Byte strings, and the fixed-width big-endian fields that the codecs write by Python's `struct`
-- (`_u8`, `_u16`, `_u32`, `_u64` of protocols/pfcp.py and protocols/gtp_c.py).
-- An IPv4 address, which the source keeps as dotted text between `inet_ntoa` and `inet_aton`, is
-- the 32-bit number that both stand for (`ip_to_int` and `int_to_ip` of utils/utils.py).
use v_epc_cups.Prelude.{
  ℕ, ◌+◌, ◌*◌, ◌/◌, ◌%◌, ◌^◌, ◌<◌, ◌≡◌, Option, none, some, List, [], ◌∷◌, ◌++◌, arith, length,
  take, ltb, if◌then◌else◌,
}

-- `bytes`: a list of numbers below 256.
abbrev pub Bytes : Type 0
Bytes = List ℕ

abbrev pub IsByte : ℕ → Type 0
IsByte b = b < 256

-- An IPv4 address as a number below 2 ^ 32.
abbrev pub Ip : Type 0
Ip = ℕ

-- struct.pack("!B", v & 0xFF) and its wider siblings: what does not fit is masked away.
unfoldable pub u8 : ℕ → Bytes
u8 v = (v % 256) ∷ []

unfoldable pub u16 : ℕ → Bytes
u16 v = (v / 256 % 256) ∷ (v % 256) ∷ []

unfoldable pub u32 : ℕ → Bytes
u32 v = (v / 2 ^ 24 % 256) ∷ (v / 2 ^ 16 % 256) ∷ (v / 2 ^ 8 % 256) ∷ (v % 256) ∷ []

unfoldable pub u64 : ℕ → Bytes
unfolding u32
u64 v = u32 (v / 2 ^ 32) ++ u32 v

-- socket.inet_aton(ip)
unfoldable pub inet_aton : Ip → Bytes
unfolding u32
inet_aton ip = u32 ip

-- The value of a big-endian field, as `struct.unpack` reads it.
unfoldable pub be_value : ℕ → Bytes → ℕ
be_value acc [] = acc
be_value acc (b ∷ bs) = be_value (acc * 256 + b) bs

-- struct.unpack of a field of `w` bytes at the front of `v`: `none` where `v` is too short.
unfoldable pub field : ℕ → Bytes → Option ℕ
unfolding be_value
field w v = if ltb (length v) w then none else some (be_value 0 (take w v))

pub u16-be_value : (v : ℕ) → v < 2 ^ 16 → be_value 0 (u16 v) ≡ v
unfolding u16 be_value
u16-be_value v h = omega arith

pub u32-be_value : (v : ℕ) → v < 2 ^ 32 → be_value 0 (u32 v) ≡ v
unfolding u32 be_value
u32-be_value v h = omega arith

pub u64-be_value : (v : ℕ) → v < 2 ^ 64 → be_value 0 (u64 v) ≡ v
unfolding u64 be_value
u64-be_value v h = omega (arith, u32-be_value (v / 2 ^ 32) (omega arith))

pub u8-field : (v : ℕ) (rest : Bytes) → v < 256 → field 1 (u8 v ++ rest) ≡ some v
unfolding u8 field
u8-field v rest h = ground arith

pub u16-field : (v : ℕ) (rest : Bytes) → v < 2 ^ 16 → field 2 (u16 v ++ rest) ≡ some v
unfolding u16 field
u16-field v rest h = ground arith

pub u32-field : (v : ℕ) (rest : Bytes) → v < 2 ^ 32 → field 4 (u32 v ++ rest) ≡ some v
unfolding u32 field
u32-field v rest h = ground arith

pub u64-field : (v : ℕ) (rest : Bytes) → v < 2 ^ 64 → field 8 (u64 v ++ rest) ≡ some v
unfolding u64 field
u64-field v rest h = ground arith
