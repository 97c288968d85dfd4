-- ===== src/Sxcups/Session/Classify.antt =====
-- What `Session.classify` returns, by an independent description of the choice.
use v_epc_cups.Prelude.{
  ℕ, ◌≤◌, ◌<◌, ◌≡◌, refl, ap, ◌∙◌, ◌⊎◌, inl, inr, Bool, true, false, Option, none, some, String,
  List, [], ◌∷◌, ◌++◌, append_assoc, append-nil, All, All-append, All-mono, arith, ltb, Bool-cases,
  if◌then◌else◌,
}
use v_epc_cups.Prelude.Results.{ok}
use v_epc_cups.Prelude.Dict.{values}
use v_epc_cups.Sxcups.Rules.Pdr.{Pdr}
use v_epc_cups.Sxcups.Session.{Session, faces, better, classify_loop, classify}

-- The precedence as a number; `None` raises in `classify`, and has no meaning here.
abbrev pub rank : Pdr → ℕ
rank p = elim p.precedence [ none ↦ 0 | some n ↦ n ]

abbrev pub IsNumbered : Pdr → Type 0
IsNumbered p = (n : ℕ) × (p.precedence ≡ some n)

-- `p` does not compete for the direction, or ranks after `b`, or not before it.
abbrev pub RanksAfter : String → Pdr → Pdr → Type 0
RanksAfter direction b p = (faces direction p ≡ false) ⊎ (rank b < rank p)

abbrev pub NotBefore : String → Pdr → Pdr → Type 0
NotBefore direction b p = (faces direction p ≡ false) ⊎ (rank b ≤ rank p)

-- `b` stands in the list and faces the direction; every rule before it that does has a greater
-- precedence value, and every rule behind it that does has no smaller one.
pub record IsFirstLeast (direction : String) (pdrs : List Pdr) (b : Pdr) : Type 0 where
  pub front : List Pdr
  pub back : List Pdr
  pub place : pdrs ≡ front ++ b ∷ back
  pub matches : faces direction b ≡ true
  pub numbered : IsNumbered b
  pub before : All (RanksAfter direction b) front
  pub behind : All (NotBefore direction b) back

abbrev pub IsChoice : String → List Pdr → Option Pdr → Type 0
IsChoice direction pdrs none = All (λ p. faces direction p ≡ false) pdrs
IsChoice direction pdrs (some b) = IsFirstLeast direction pdrs b

module _ (direction : String) (p : Pdr) (seen : List Pdr) where
  skip-IsChoice :
      (best : Option Pdr)
      → faces direction p ≡ false
      → IsChoice direction seen best
      → IsChoice direction (seen ++ p ∷ []) best
  skip-IsChoice none e c = All-append (λ p. faces direction p ≡ false) seen (p ∷ []) c (e, tt)
  skip-IsChoice (some b) e c = record {
    front = c.front;
    back = c.back ++ p ∷ [];
    place = ap (λ (l : List Pdr). l ++ p ∷ []) c.place ∙ append_assoc c.front (b ∷ c.back) (p ∷ []);
    matches = c.matches;
    numbered = c.numbered;
    before = c.before;
    behind = All-append (NotBefore direction b) c.back (p ∷ []) c.behind (inl e, tt);
  }

  keep-IsChoice :
      (b : Pdr)
      → rank b ≤ rank p
      → IsFirstLeast direction seen b
      → IsFirstLeast direction (seen ++ p ∷ []) b
  keep-IsChoice b le c = record {
    front = c.front;
    back = c.back ++ p ∷ [];
    place = ap (λ (l : List Pdr). l ++ p ∷ []) c.place ∙ append_assoc c.front (b ∷ c.back) (p ∷ []);
    matches = c.matches;
    numbered = c.numbered;
    before = c.before;
    behind = All-append (NotBefore direction b) c.back (p ∷ []) c.behind (inr le, tt);
  }

  newcomer :
      faces direction p ≡ true
      → IsNumbered p
      → All (RanksAfter direction p) seen
      → IsFirstLeast direction (seen ++ p ∷ []) p
  newcomer e n b = record {
    front = seen;
    back = [];
    place = refl;
    matches = e;
    numbered = n;
    before = b;
    behind = tt;
  }

  beaten :
      (b : Pdr)
      → rank p < rank b
      → IsFirstLeast direction seen b
      → All (RanksAfter direction p) seen
  beaten b lt c = rw c.place (
      All-append (RanksAfter direction p) c.front (b ∷ c.back)
        (All-mono (RanksAfter direction b) (RanksAfter direction p) c.front (λ q h. ground arith)
          c.before)
        (
          inr lt,
          All-mono (NotBefore direction b) (RanksAfter direction p) c.back (λ q h. ground arith)
              c.behind,
        ))

rank_of : (p : Pdr) (n : ℕ) → p.precedence ≡ some n → rank p ≡ n
rank_of p n e = rw e

choose :
    (direction : String) (p b : Pdr) (seen : List Pdr) (k m : ℕ)
    → faces direction p ≡ true
    → p.precedence ≡ some k
    → b.precedence ≡ some m
    → IsFirstLeast direction seen b
    → IsFirstLeast direction (seen ++ p ∷ []) (if ltb k m then p else b)
choose direction p b seen k m e ep eb c = elim (Bool-cases (ltb k m)) [
  | inl less ↦ rw less (
      newcomer direction p seen e (k, ep)
        (beaten direction p seen b (ground (arith, rank_of p k ep, rank_of b m eb)) c))
  | inr more ↦
      rw more (keep-IsChoice direction p seen b (ground (arith, rank_of p k ep, rank_of b m eb)) c)
]

if_some : (w : Bool) (p b : Pdr) → (if w then some p else some b) ≡ some (if w then p else b)
if_some true p b = refl
if_some false p b = refl

-- One round of the loop, for either answer of the test on the direction.
round :
    (direction : String) (p : Pdr) (seen : List Pdr) (best : Option Pdr) (f : Bool)
    → faces direction p ≡ f
    → IsNumbered p
    → IsChoice direction seen best
    → (wins : Bool) × ((if f then better p best else ok false) ≡ ok wins)
      × IsChoice direction (seen ++ p ∷ []) (if wins then some p else best)
unfolding better
round direction p seen best false e n c = (false, refl, skip-IsChoice direction p seen best e c)
round direction p seen none true e n c = (
  true,
  refl,
  newcomer direction p seen e n
      (All-mono (λ q. faces direction q ≡ false) (RanksAfter direction p) seen (λ q h. inl h) c),
)
round direction p seen (some b) true e (k, ep) c =
    let (m, eb) = c.numbered in
    (
      ltb k m,
      rw (ep, eb) refl,
      rw (if_some (ltb k m) p b) (choose direction p b seen k m e ep eb c),
    )

classify_loop-IsChoice :
    (direction : String) (seen pdrs : List Pdr) (best : Option Pdr)
    → All IsNumbered pdrs
    → IsChoice direction seen best
    → (r : Option Pdr) × (classify_loop direction best pdrs ≡ ok r)
      × IsChoice direction (seen ++ pdrs) r
unfolding classify_loop
classify_loop-IsChoice direction seen [] best n c = (best, refl, rw (append-nil seen) c)
classify_loop-IsChoice direction seen (p ∷ pdrs) best n c =
    let (wins, e, c') = round direction p seen best (faces direction p) refl n.0 c in
    let (r, e', c'') =
      classify_loop-IsChoice direction (seen ++ p ∷ []) pdrs (if wins then some p else best) n.1
        c' in
    (r, rw e e', rw (append_assoc seen (p ∷ []) pdrs) at c'')

-- Where every precedence is a number, `classify` returns, and its answer is the first of the rules
-- for the direction with the least precedence value, or `None` where no rule is for the direction.
pub classify-IsChoice :
    (s : Session) (direction : String)
    → All IsNumbered (values s.pdrs)
    → (r : Option Pdr) × (classify s direction ≡ ok r) × IsChoice direction (values s.pdrs) r
unfolding classify
classify-IsChoice s direction n = classify_loop-IsChoice direction [] (values s.pdrs) none n tt
