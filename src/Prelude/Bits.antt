-- ===== src/Prelude/Bits.antt =====
-- `&` with one bit, and `|` of a shifted number and a smaller one, as arithmetic.
use Prim.Native.Nat.{
  ℕ, zero, suc, ◌+◌, ◌-◌, ◌*◌, ◌/◌, ◌%◌, ◌^◌, ◌≤◌, ◌<◌, min, max, bit_and, bit_or, digits,
  bit_and-bitwise, bit_or-bitwise,
}
use mathlib.Core.Path.{◌≡◌, refl, ap, ◌∙◌, sym}
use native.Mathlib.Nat.{pow-suc, div-div-eq-div-mul}
use native.Mathlib.Omega.{arith}

-- `digits` recurses on its first argument and halves the second, so a count that is at least the
-- number is never used up.
module _ (last : ℕ → ℕ) (digit : ℕ → ℕ → ℕ) where
  one_more : (n a b : ℕ) → a ≤ n → digits last digit (suc n) a b ≡ digits last digit n a b
  one_more zero zero b h = refl
  one_more zero (suc a) b h = absurd (omega arith)
  one_more (suc n) zero b h = refl
  one_more (suc n) (suc a) b h = rw (one_more n (suc a / 2) (b / 2) (omega arith))

  enough : (d a b : ℕ) → digits last digit (d + a) a b ≡ digits last digit a a b
  enough zero a b = ap (λ (d : ℕ). digits last digit d a b) (omega arith)
  enough (suc d) a b =
      ap (λ (c : ℕ). digits last digit c a b) {y = suc (d + a)} (omega arith)
      ∙ one_more (d + a) a b (omega arith)
      ∙ enough d a b

  lowest :
      (a b : ℕ)
      → digits last digit (suc a) (suc a) b
        ≡ digits last digit (suc a / 2) (suc a / 2) (b / 2) * 2 + digit (suc a % 2) (b % 2)
  lowest a b =
      let half = suc a / 2 in
      let split : a - half + half ≡ a = omega arith in
      ap (λ (d : ℕ). digits last digit d half (b / 2) * 2 + digit (suc a % 2) (b % 2)) (sym split)
      ∙ ap (λ (d : ℕ). d * 2 + digit (suc a % 2) (b % 2)) (enough (a - half) half (b / 2))

and_halves : (a b : ℕ) → bit_and a b ≡ bit_and (a / 2) (b / 2) * 2 + min (a % 2) (b % 2)
and_halves zero b = omega (arith, bit_and-bitwise 0 b, bit_and-bitwise 0 (b / 2))
and_halves (suc a) b =
    rw (bit_and-bitwise (suc a) b, bit_and-bitwise (suc a / 2) (b / 2)) (lowest (λ _. 0) min a b)

or_halves : (a b : ℕ) → bit_or a b ≡ bit_or (a / 2) (b / 2) * 2 + max (a % 2) (b % 2)
or_halves zero b = omega (arith, bit_or-bitwise 0 b, bit_or-bitwise 0 (b / 2))
or_halves (suc a) b =
    rw (bit_or-bitwise (suc a) b, bit_or-bitwise (suc a / 2) (b / 2)) (lowest (λ d. d) max a b)

-- Nothing in common with 0, and nothing added by it, by halving below a bound.
no_common : (bound a : ℕ) → a ≤ bound → bit_and a 0 ≡ 0
no_common zero a h = let e : a ≡ 0 = omega arith in rw (e, bit_and-bitwise 0 0) refl
no_common (suc bound) a h = omega (arith, and_halves a 0, no_common bound (a / 2) (omega arith))

none_added : (bound a : ℕ) → a ≤ bound → bit_or a 0 ≡ a
none_added zero a h = let e : a ≡ 0 = omega arith in rw (e, bit_or-bitwise 0 0) refl
none_added (suc bound) a h = omega (arith, or_halves a 0, none_added bound (a / 2) (omega arith))

double_pow : (q k : ℕ) → q * 2 ^ suc k ≡ 2 * (q * 2 ^ k)
double_pow q k = omega (arith, ap (λ (t : ℕ). q * t) (pow-suc 2 k))

div_pow : (a k : ℕ) → a / 2 ^ suc k ≡ a / 2 / 2 ^ k
div_pow a k =
    ap (λ (t : ℕ). a / t) (omega (arith, pow-suc 2 k)) ∙ sym (div-div-eq-div-mul a 2 (2 ^ k))

-- `a & (1 << k)` is the bit of `a` at `k`, in its place.
pub bit_and-pow : (k a : ℕ) → bit_and a (2 ^ k) ≡ a / 2 ^ k % 2 * 2 ^ k
bit_and-pow zero a = omega (arith, and_halves a 1, no_common (a / 2) (a / 2) (omega arith))
bit_and-pow (suc k) a = ground (
  arith,
  and_halves a (2 ^ suc k),
  pow-suc 2 k,
  div_pow a k,
  bit_and-pow k (a / 2),
  double_pow (a / 2 / 2 ^ k % 2) k,
)

-- `(q << k) | r` is a sum when `r` has at most `k` digits.
pub bit_or-shifted : (k q r : ℕ) → r < 2 ^ k → bit_or (q * 2 ^ k) r ≡ q * 2 ^ k + r
bit_or-shifted zero q r h = ground (arith, none_added q q (omega arith))
bit_or-shifted (suc k) q r h = ground (
  arith,
  or_halves (q * 2 ^ suc k) r,
  double_pow q k,
  pow-suc 2 k,
  bit_or-shifted k q (r / 2) (omega (arith, pow-suc 2 k)),
)
