-- ===== src/Prelude/Dict/Numbered.antt =====
-- Dictionaries whose entries carry numbers from a counter.
use Prim.Native.Nat.{ℕ, ◌≤◌, ◌<◌}
use mathlib.Core.Path.{◌≡◌, sym, ap, ◌∙◌}
use mathlib.Core.Logic.{◌≢◌, ◌⊎◌, inl, inr}
use mathlib.Core.Option.{none, some}
use native.Mathlib.Omega.{arith}
use v_epc_cups.Prelude.Tests.{if◌then◌else◌, Bool-cases}
use v_epc_cups.Prelude.Classes.{Key, ◌==◌}
use v_epc_cups.Prelude.Dict.{Dict, get, put, pop, get-put, get-pop}

some_injective {ℓ} : {A : Type ℓ} (a b : A) → some a ≡ some b → a ≡ b
some_injective a b h = cc

module _ {ℓ κ} {K : Type ℓ} {V : Type κ} ⦃e : Key K⦄ where
  -- An entry of a dictionary after an assignment is the assigned one, or was there.
  pub get-put-cases :
      (k j : K) (v w : V) (d : Dict K V)
      → get j (put k v d) ≡ some w
      → ((k ≡ j) × (v ≡ w)) ⊎ (get j d ≡ some w)
  get-put-cases k j v w d h =
      let seen : (if k == j then some v else get j d) ≡ some w = sym (get-put k j v d) ∙ h in
      elim (Bool-cases (k == j)) [
        | inl same ↦ inl (
          (e.same_iff k j).0 same,
          some_injective v w (sym (ap (λ b. if b then some v else get j d) same) ∙ seen),
        )
        | inr other ↦ inr (sym (ap (λ b. if b then some v else get j d) other) ∙ seen)
      ]

  -- What is left by a removal was there.
  pub get-pop-some : (k j : K) (w : V) (d : Dict K V) → get j (pop k d) ≡ some w → get j d ≡ some w
  get-pop-some k j w d h =
      let seen : (if k == j then none else get j d) ≡ some w = sym (get-pop k j d) ∙ h in
      elim (Bool-cases (k == j)) [
        | inl same ↦ cc (ap (λ b. if b then none else get j d) same)
        | inr other ↦ sym (ap (λ b. if b then none else get j d) other) ∙ seen
      ]

-- The entries have different numbers, from `low` on and below `bound`.
pub record IsNumbered {ℓ κ} {K : Type ℓ} {V : Type κ} ⦃e : Key K⦄ (number : V → ℕ) (low bound : ℕ)
    (d : Dict K V) : Type (ℓ ⊔ κ) where
  pub within : (k : K) (v : V) → get k d ≡ some v → (low ≤ number v) × (number v < bound)
  pub distinct :
      (j k : K) (v w : V) → get j d ≡ some v → get k d ≡ some w → number v ≡ number w → j ≡ k

module _ {ℓ κ} {K : Type ℓ} {V : Type κ} ⦃e : Key K⦄ (number : V → ℕ) where
  -- No entry has this number.
  abbrev pub IsFresh : ℕ → Dict K V → Type (ℓ ⊔ κ)
  IsFresh n d = (k : K) (v : V) → get k d ≡ some v → number v ≢ n

  pub bound-IsFresh :
      (low bound : ℕ) (d : Dict K V) → IsNumbered number low bound d → IsFresh bound d
  bound-IsFresh low bound d h k v hv same = absurd (omega (arith, h.within k v hv, same))

  pub later-IsNumbered :
      (low bound bound' : ℕ) (d : Dict K V)
      → bound ≤ bound'
      → IsNumbered number low bound d
      → IsNumbered number low bound' d
  later-IsNumbered low bound bound' d le h = record {
    within = λ k v hv. let w = h.within k v hv in (w.0, omega arith);
    distinct = h.distinct;
  }

  pub pop-IsNumbered :
      (low bound : ℕ) (k : K) (d : Dict K V)
      → IsNumbered number low bound d
      → IsNumbered number low bound (pop k d)
  pop-IsNumbered low bound k d h = record {
    within = λ j v hv. h.within j v (get-pop-some k j v d hv);
    distinct = λ i j v w hv hw same.
        h.distinct i j v w (get-pop-some k i v d hv) (get-pop-some k j w d hw) same;
  }

  -- A new entry with a number that none has.
  pub put-IsNumbered :
      (low bound : ℕ) (k : K) (new : V) (d : Dict K V)
      → IsNumbered number low bound d
      → low ≤ number new
      → number new < bound
      → IsFresh (number new) d
      → IsNumbered number low bound (put k new d)
  put-IsNumbered low bound k new d h hl hb fresh = record {
    within = λ j v hv. elim (get-put-cases k j new v d hv) [
      | inl same ↦ rw (← same.1) (hl, hb)
      | inr old ↦ h.within j v old
    ];
    distinct = λ i j v w hv hw eq. elim (get-put-cases k i new v d hv) [
      | inl newi ↦ elim (get-put-cases k j new w d hw) [
        | inl newj ↦ sym newi.0 ∙ newj.0
        | inr oldj ↦ absurd (fresh j w oldj (sym eq ∙ sym (ap number newi.1)))
      ]
      | inr oldi ↦ elim (get-put-cases k j new w d hw) [
        | inl newj ↦ absurd (fresh i v oldi (eq ∙ sym (ap number newj.1)))
        | inr oldj ↦ h.distinct i j v w oldi oldj eq
      ]
    ];
  }

  -- An entry that is changed and keeps its number.
  pub put-IsNumbered_same :
      (low bound : ℕ) (k : K) (old new : V) (d : Dict K V)
      → IsNumbered number low bound d
      → get k d ≡ some old
      → number new ≡ number old
      → IsNumbered number low bound (put k new d)
  put-IsNumbered_same low bound k old new d h ho hn = record {
    within = λ j v hv. elim (get-put-cases k j new v d hv) [
      | inl same ↦ rw (← same.1, hn) (h.within k old ho)
      | inr there ↦ h.within j v there
    ];
    distinct = λ i j v w hv hw eq. elim (get-put-cases k i new v d hv) [
      | inl newi ↦ elim (get-put-cases k j new w d hw) [
        | inl newj ↦ sym newi.0 ∙ newj.0
        | inr oldj ↦ sym newi.0 ∙ h.distinct k j old w ho oldj (sym hn ∙ (ap number newi.1 ∙ eq))
      ]
      | inr oldi ↦ elim (get-put-cases k j new w d hw) [
        | inl newj ↦ h.distinct i k v old oldi ho (eq ∙ (sym (ap number newj.1) ∙ hn)) ∙ newj.0
        | inr oldj ↦ h.distinct i j v w oldi oldj eq
      ]
    ];
  }
