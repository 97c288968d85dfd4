-- ===== src/Diameter.antt =====
-- protocols/diameter.py: AVPs, their groups, and the message codec.
pub mod Codes
pub mod Framing
pub mod Loop
pub mod RoundTrip
pub mod Text
pub mod Values
use mathlib.Core.Option
use v_epc_cups.Prelude.{
  ℕ, zero, suc, ◌+◌, ◌-◌, ◌/◌, ◌%◌, ◌^◌, min, Bool, true, false, not, Option, none, some, List, [],
  ◌∷◌, ◌++◌, length, take, drop, ltb, nat_beq, bit_or, bit_and, ◌&&◌, if◌then◌else◌,
}
use v_epc_cups.Prelude.Results.{
  Result, ok, err, value_error, struct_error, index_error, overflow_error, ◌>>=◌, need,
}
use v_epc_cups.Bytes.{Bytes, u32, be_value, field}

pub record Avp : Type 0 where
  pub code : ℕ
  pub «data» : Bytes
  pub vendor : ℕ
  pub mandatory : Bool
  pub protected : Bool

-- struct.pack("!I", v), which raises on a number that does not fit.
unfoldable pub pack_u32 : ℕ → Result Bytes
pack_u32 v = if ltb v (2 ^ 32) then ok (u32 v) else err struct_error

unfoldable pub u24 : ℕ → Bytes
u24 v = (v / 2 ^ 16 % 256) ∷ (v / 2 ^ 8 % 256) ∷ (v % 256) ∷ []

-- n.to_bytes(3, "big")
unfoldable pub pack_u24 : ℕ → Result Bytes
unfolding u24
pack_u24 v = if ltb v (2 ^ 24) then ok (u24 v) else err overflow_error

-- (-n) % 4
unfoldable pub pad : ℕ → ℕ
pad n = (4 - n % 4) % 4

abbrev pub zeros : ℕ → Bytes
zeros zero = []
zeros (suc n) = 0 ∷ zeros n

unfoldable pub payload : Avp → Result Bytes
unfolding pack_u32
payload a =
    if nat_beq a.vendor 0 then ok a.«data» else (pack_u32 a.vendor >>= λ v. ok (v ++ a.«data»))

abbrev pub bit_if : Bool → ℕ → ℕ
bit_if b n = if b then n else 0

unfoldable pub flags_of : Avp → ℕ
flags_of a =
    bit_or (bit_or (bit_if (not (nat_beq a.vendor 0)) 128) (bit_if a.mandatory 64))
      (bit_if a.protected 32)

unfoldable pub encode : Avp → Result Bytes
unfolding payload pack_u32 pack_u24 flags_of pad
encode a = do
  p ← payload a
  code ← pack_u32 a.code
  len ← pack_u24 (8 + length p)
  let raw = code ++ (flags_of a ∷ (len ++ p))
  ok (raw ++ zeros (pad (length raw)))

abbrev pub is_set : ℕ → ℕ → Bool
is_set flags bit = not (nat_beq (bit_and flags bit) 0)

-- The AVP and the distance to the next one, where the data starts at `p`.
unfoldable pub avp_at : Bytes → (code flags len vendor p : ℕ) → Avp × ℕ
unfolding pad
avp_at buf code flags len vendor p = (
  record {
    code = code;
    «data» = take (len - p) (drop p buf);
    vendor = vendor;
    mandatory = is_set flags 64;
    protected = is_set flags 32;
  },
  len + pad len,
)

-- buf[4]
abbrev pub fifth : Bytes → Option ℕ
fifth (a ∷ b ∷ c ∷ d ∷ e ∷ rest) = some e
fifth _ = none

unfoldable pub vendor_of : ℕ → Bytes → Result ℕ
unfolding field
vendor_of flags buf = if is_set flags 128 then need struct_error (field 4 (drop 8 buf)) else ok 0

-- The list is `buf[off:]`, and the number with the AVP is `nxt - off`.
unfoldable pub decode : Bytes → Result (Avp × ℕ)
unfolding field be_value avp_at vendor_of
decode buf = do
  code ← need struct_error (field 4 buf)
  flags ← need index_error (fifth buf)
  let len = be_value 0 (take 3 (drop 5 buf))
  vendor ← vendor_of flags buf
  ok (avp_at buf code flags len vendor (if is_set flags 128 then 12 else 8))

abbrev pub with_first : Avp → Result (List Avp) → Result (List Avp)
with_first a r = r >>= λ avps. ok (a ∷ avps)

-- One round: an error of `Avp.decode` ends the loop, else `next` goes on after that many bytes.
abbrev pub after_avp :
    Result (Avp × ℕ) → (ℕ → Option (Result (List Avp))) → Option (Result (List Avp))
after_avp (err e) next = some (err e)
after_avp (ok (a, n)) next = Option.map (with_first a) (next n)

-- The list is `data[i:]`, and `room` is the distance from `i` to the end. `none` is for fuel used up.
unfoldable pub decode_avps : (fuel room : ℕ) → Bytes → Option (Result (List Avp))
unfolding decode
decode_avps fuel zero buf = some (ok [])
decode_avps zero (suc room) buf = none
decode_avps (suc fuel) (suc room) buf =
    after_avp (decode buf) (λ n. decode_avps fuel (suc room - n) (drop n buf))

pub record Message : Type 0 where
  pub cmd_code : ℕ
  pub app_id : ℕ
  pub avps : List Avp
  pub request : Bool
  pub hop_id : ℕ
  pub end_id : ℕ

unfoldable pub add : Avp → Message → Message
add a m = record m { avps = m.avps ++ a ∷ [] }

unfoldable pub find : ℕ → ℕ → List Avp → Option Avp
find code vendor [] = none
find code vendor (a ∷ avps) =
    if nat_beq a.code code && nat_beq a.vendor vendor then some a else find code vendor avps

unfoldable pub get : Message → ℕ → ℕ → Option Avp
unfolding find
get m code vendor = find code vendor m.avps

-- b"".join(a.encode() for a in avps)
unfoldable pub encode_avps : List Avp → Result Bytes
unfolding encode
encode_avps [] = ok []
encode_avps (a ∷ avps) = do x ← encode a; rest ← encode_avps avps; ok (x ++ rest)

unfoldable pub to_bytes : Message → Result Bytes
unfolding encode_avps pack_u24 pack_u32
to_bytes m = do
  body ← encode_avps m.avps
  len ← pack_u24 (20 + length body)
  cmd ← pack_u24 m.cmd_code
  app ← pack_u32 m.app_id
  hop ← pack_u32 m.hop_id
  last ← pack_u32 m.end_id
  ok (1 ∷ bit_if m.request 128 ∷ (len ++ (cmd ++ (app ++ (hop ++ (last ++ body))))))

-- return ans.to_bytes()
unfoldable pub reply : Message → Result (Option Bytes)
unfolding to_bytes
reply m = to_bytes m >>= λ bytes. ok (some bytes)

-- The loop of a message that has its header, with the bytes after it. `none` is for a loop that
-- never ends.
unfoldable pub from_header : Bytes → Bytes → Option (Result Message)
unfolding be_value decode_avps
from_header «data» rest =
    let room = min (be_value 0 (take 3 (drop 2 «data»))) (length «data») - 20 in
    Option.map
      (λ r. r >>= λ avps. ok (record {
        cmd_code = be_value 0 (take 3 (drop 5 «data»));
        app_id = be_value 0 (take 4 (drop 8 «data»));
        avps = avps;
        request = is_set (be_value 0 (take 1 (drop 1 «data»))) 128;
        hop_id = be_value 0 (take 4 (drop 12 «data»));
        end_id = be_value 0 (take 4 (drop 16 «data»));
      }))
      (decode_avps room room rest)

unfoldable pub from_bytes : Bytes → Option (Result Message)
unfolding from_header
from_bytes «data» =
    if ltb (length «data») 20 then some (err value_error) else from_header «data» (drop 20 «data»)

-- struct.unpack("!I", self.data[:4])[0] if len(self.data) >= 4 else None
unfoldable pub u32_of : Avp → Option ℕ
unfolding field
u32_of a = field 4 a.«data»

-- The helpers that build AVPs; a text is given by its bytes.
unfoldable pub avp : ℕ → Bytes → ℕ → Avp
avp code «data» vendor = record {
  code = code;
  «data» = «data»;
  vendor = vendor;
  mandatory = true;
  protected = false;
}

unfoldable pub avp_u32 : ℕ → ℕ → ℕ → Result Avp
unfolding pack_u32 avp
avp_u32 code value vendor = pack_u32 value >>= λ «data». ok (avp code «data» vendor)

unfoldable pub group : ℕ → List Avp → ℕ → Result Avp
unfolding encode_avps avp
group code kids vendor = encode_avps kids >>= λ «data». ok (avp code «data» vendor)

-- `_iter_offsets` and the decoding at each offset read the same AVPs, with the same errors.
unfoldable pub children : Avp → Option (Result (List Avp))
unfolding decode_avps
children a = decode_avps (length a.«data») (length a.«data») a.«data»
