-- ===== src/Diameter/Loop.antt =====
-- protocols/diameter.py: when the loop over the AVPs of a message or a group ends.
use mathlib.Core.Option
use mathlib.Core.Path.{subst}
use v_epc_cups.Prelude.{
  ℕ, zero, suc, ◌+◌, ◌-◌, ◌*◌, ◌/◌, ◌≤◌, ◌<◌, ◌≡◌, ◌↔◌, refl, ap, ◌∙◌, ◌⊎◌, inl, inr, min, true,
  false, Bool-cases, Option, none, some, [], ◌∷◌, length, length-drop, take, drop, ltb, arith,
  if◌then◌else◌,
}
use v_epc_cups.Prelude.Results.{Result, ok, err, ◌>>=◌}
use v_epc_cups.Bytes.{Bytes, be_value, field}
use v_epc_cups.Diameter.{
  Avp, pad, avp_at, is_set, vendor_of, decode, decode_avps, with_first, after_avp, from_bytes,
  from_header,
}

-- The three bytes of the length field, of which a buffer may hold less, and the flags.
abbrev pub length_field : Bytes → ℕ
length_field buf = be_value 0 (take 3 (drop 5 buf))

abbrev pub flags_field : Bytes → ℕ
flags_field (a ∷ b ∷ c ∷ d ∷ flags ∷ rest) = flags
flags_field _ = 0

-- A buffer with a code and flags, and with a vendor where the flags announce one.
abbrev pub IsReadable : Bytes → Type 0
IsReadable buf = (5 ≤ length buf) × (is_set (flags_field buf) 128 ≡ true → 12 ≤ length buf)

-- The least multiple of four from `n` on.
abbrev pub aligned : ℕ → ℕ
aligned n = (n + 3) / 4 * 4

-- The loop comes to an AVP that can be read and whose length field is 0. Each AVP before it stands as many
-- bytes further as the length field of the one before says, up to the next multiple of four.
pub data Hangs : ℕ → Bytes → Type 0 where
  here : {room : ℕ} {buf : Bytes} → IsReadable buf → length_field buf ≡ 0 → Hangs (suc room) buf
  later :
      {room : ℕ} {buf : Bytes}
      → IsReadable buf
      → 0 < length_field buf
      → Hangs (suc room - aligned (length_field buf)) (drop (aligned (length_field buf)) buf)
      → Hangs (suc room) buf

vendor_of_readable :
    (flags : ℕ) (buf : Bytes)
    → (is_set flags 128 ≡ true → 12 ≤ length buf)
    → (v : ℕ) × (vendor_of flags buf ≡ ok v)
unfolding vendor_of field
vendor_of_readable flags buf h = elim (Bool-cases (is_set flags 128)) [
  | inl t ↦
      let enough : ltb (length (drop 8 buf)) 4 ≡ false = ground (arith, h t, length-drop 8 buf) in
      (be_value 0 (take 4 (drop 8 buf)), rw (t) rw (enough) refl)
  | inr f ↦ (0, rw (f) refl)
]

vendor_of_bound :
    (flags v : ℕ) (buf : Bytes)
    → vendor_of flags buf ≡ ok v
    → is_set flags 128 ≡ true
    → 12 ≤ length buf
unfolding vendor_of field
vendor_of_bound flags v buf h t = ground (arith, length-drop 8 buf)

zero_or_more : (n : ℕ) → (n ≡ 0) ⊎ (0 < n)
zero_or_more zero = inl refl
zero_or_more (suc n) = inr (omega arith)

-- The distance to the next AVP.
pad-aligned : (n : ℕ) → n + pad n ≡ aligned n
unfolding pad
pad-aligned n = omega arith

decode_of_readable :
    (buf : Bytes) → IsReadable buf → (a : Avp) × (decode buf ≡ ok (a, aligned (length_field buf)))
unfolding decode field avp_at
decode_of_readable (a ∷ b ∷ c ∷ d ∷ e ∷ rest) h =
    let buf = a ∷ b ∷ c ∷ d ∷ e ∷ rest in
    let v = vendor_of_readable e buf h.1 in
    let enough : ltb (length buf) 4 ≡ false = ground arith in
    (
      (avp_at buf (be_value 0 (take 4 buf)) e (length_field buf) v.0
          (if is_set e 128 then 12 else 8)).0,
      rw (enough, v.1, pad-aligned (length_field buf)) refl,
    )
decode_of_readable [] h = absurd (omega arith)
decode_of_readable (a ∷ []) h = absurd (omega arith)
decode_of_readable (a ∷ b ∷ []) h = absurd (omega arith)
decode_of_readable (a ∷ b ∷ c ∷ []) h = absurd (omega arith)
decode_of_readable (a ∷ b ∷ c ∷ d ∷ []) h = absurd (omega arith)

-- The distance that a decoded AVP comes with, where the vendor is known.
with_vendor :
    (buf : Bytes) (code e len p n : ℕ) (a : Avp) (r : Result ℕ)
    → (r >>= λ vendor. ok (avp_at buf code e len vendor p)) ≡ ok (a, n)
    → (v : ℕ) × (r ≡ ok v) × (n ≡ aligned len)
unfolding avp_at
with_vendor buf code e len p n a (err x) h = absurd (ground arith)
with_vendor buf code e len p n a (ok v) h = (v, refl, ground (arith, pad-aligned len))

IsReadable-decode :
    (buf : Bytes) (a : Avp) (n : ℕ)
    → decode buf ≡ ok (a, n)
    → IsReadable buf × (n ≡ aligned (length_field buf))
unfolding decode field
IsReadable-decode (a ∷ b ∷ c ∷ d ∷ e ∷ rest) x n h =
    let buf = a ∷ b ∷ c ∷ d ∷ e ∷ rest in
    let enough : ltb (length buf) 4 ≡ false = ground arith in
    let long : 5 ≤ length buf = omega arith in
    let r =
      with_vendor buf (be_value 0 (take 4 buf)) e (length_field buf)
        (if is_set e 128 then 12 else 8) n x (vendor_of e buf) (rw enough at h) in
    ((long, vendor_of_bound e r.0 buf r.1), r.2)
IsReadable-decode [] x n h = absurd (ground arith)
IsReadable-decode (a ∷ []) x n h = absurd (ground arith)
IsReadable-decode (a ∷ b ∷ []) x n h = absurd (ground arith)
IsReadable-decode (a ∷ b ∷ c ∷ []) x n h = absurd (ground arith)
IsReadable-decode (a ∷ b ∷ c ∷ d ∷ []) x n h = absurd (ground arith)

minus_zero : (n : ℕ) → n - 0 ≡ n
minus_zero n = omega arith

Hangs-none :
    {room : ℕ} {buf : Bytes} → Hangs room buf → (fuel : ℕ) → decode_avps fuel room buf ≡ none
unfolding decode_avps
Hangs-none (here h e) zero = refl
Hangs-none (here {room} {buf} h e) (suc fuel) =
    let d = decode_of_readable buf h in
    let still : aligned (length_field buf) ≡ 0 = omega arith in
    rw (d.1, still)
      (ap (λ k. Option.map (with_first d.0) (decode_avps fuel k buf)) (minus_zero (suc room))
        ∙ ap (Option.map (with_first d.0)) (Hangs-none (here {room = room} h e) fuel))
Hangs-none (later h e p) zero = refl
Hangs-none (later {buf} h e p) (suc fuel) =
    let d = decode_of_readable buf h in
    rw (d.1) (ap (Option.map (with_first d.0)) (Hangs-none p fuel))

map-none : {A B : Type 0} (f : A → B) (r : Option A) → Option.map f r ≡ none → r ≡ none
map-none f none h = refl
map-none f (some r) h = absurd (ground arith)

-- One round, where the rounds after it are known.
after_avp-Hangs :
    (fuel room : ℕ) (buf : Bytes) (r : Result (Avp × ℕ))
    → ((n : ℕ)
        → 0 < n
        → decode_avps fuel (suc room - n) (drop n buf) ≡ none
        → Hangs (suc room - n) (drop n buf))
    → decode buf ≡ r
    → after_avp r (λ n. decode_avps fuel (suc room - n) (drop n buf)) ≡ none
    → Hangs (suc room) buf
after_avp-Hangs fuel room buf (err e) ih h p = absurd (ground arith)
after_avp-Hangs fuel room buf (ok (a, n)) ih h p =
    let r = IsReadable-decode buf a n h in
    elim (zero_or_more (length_field buf)) [
      | inl e ↦ here r.0 e
      | inr e ↦
          let go : Hangs (suc room - n) (drop n buf) =
            ih n (omega (arith, r.1)) (map-none (with_first a) _ p) in
          later r.0 e (subst (λ k. Hangs (suc room - k) (drop k buf)) r.1 go)
    ]

none-Hangs :
    (fuel room : ℕ) (buf : Bytes) → room ≤ fuel → decode_avps fuel room buf ≡ none → Hangs room buf
unfolding decode_avps
none-Hangs fuel zero buf h p = absurd (ground arith)
none-Hangs zero (suc room) buf h p = absurd (omega arith)
none-Hangs (suc fuel) (suc room) buf h p =
    after_avp-Hangs fuel room buf (decode buf)
      (λ n pos q. none-Hangs fuel (suc room - n) (drop n buf) (omega arith) q) refl p

-- The bytes of a message's AVPs, as far as the length of the header and the datagram go.
abbrev pub avps_room : Bytes → ℕ
avps_room bytes = min (be_value 0 (take 3 (drop 2 bytes))) (length bytes) - 20

from_bytes-decode_avps :
    (bytes : Bytes)
    → 20 ≤ length bytes
    → (from_bytes bytes ≡ none)
      ↔ (decode_avps (avps_room bytes) (avps_room bytes) (drop 20 bytes) ≡ none)
unfolding from_bytes from_header
from_bytes-decode_avps bytes h =
    let enough : ltb (length bytes) 20 ≡ false = ground arith in
    rw enough (map-none _ _, λ e. rw e refl)

-- Reading a message never ends just where it has a header and its loop, which goes as far as each length
-- field says, up to the next multiple of four, comes to an AVP that can be read and whose length field is
-- 0; and then no number of rounds is enough for the loop.
pub from_bytes-none-Hangs :
    (bytes : Bytes)
    → ((from_bytes bytes ≡ none) ↔ ((20 ≤ length bytes) × Hangs (avps_room bytes) (drop 20 bytes)))
      × (Hangs (avps_room bytes) (drop 20 bytes)
          → (rounds : ℕ) → decode_avps rounds (avps_room bytes) (drop 20 bytes) ≡ none)
unfolding from_bytes
from_bytes-none-Hangs bytes =
    let room = avps_room bytes in
    let rest = drop 20 bytes in
    (
      (
        λ h. elim (Bool-cases (ltb (length bytes) 20)) [
          | inl t ↦ absurd (ground arith)
          | inr f ↦
              let long : 20 ≤ length bytes = ground arith in
              (
                long,
                none-Hangs room room rest (omega arith) ((from_bytes-decode_avps bytes long).0 h),
              )
        ],
        λ h. (from_bytes-decode_avps bytes h.0).1 (Hangs-none h.1 room),
      ),
      Hangs-none,
    )
