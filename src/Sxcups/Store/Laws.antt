-- ===== src/Sxcups/Store/Laws.antt =====
-- What the operations of the store do to its sessions.
use v_epc_cups.Prelude.{
  ℕ, ◌+◌, ◌*◌, ◌%◌, ◌^◌, ◌≡◌, refl, ap, bit_or, String, Option, none, some, arith, List, [], ◌∷◌,
  All, true, false, Bool-cases, ◌⊎◌, inl, inr, sym, ◌∙◌, ◌↔◌, if◌then◌else◌,
}
use v_epc_cups.Prelude.Classes.{option_eq, opt_beq, ◌==◌, opt_beq_iff}
use v_epc_cups.Prelude.Dict.{pop, get-put, get-pop, keys}
use mathlib.Core.Bool.{false≢true}
use v_epc_cups.Prelude.Bits.{bit_or-shifted}
use v_epc_cups.Bytes.{Ip}
use v_epc_cups.Sxcups.Session.{Session, new_session}
use v_epc_cups.Sxcups.Store.{Store, new_seid, create, find, delete, delete_each}

-- A created session is found under its SEID, and no other one changes.
pub find-create :
    (store : Store) (seid other : Option ℕ) (cp_ip up_ip : Ip) (kind : String)
    → find (create store seid cp_ip up_ip kind).1 other
      ≡ (if seid == other then some (new_session seid cp_ip up_ip kind) else find store other)
unfolding find create
find-create store seid other cp_ip up_ip kind = get-put seid other _ store

-- A deleted session is returned and gone, and no other one changes.
pub find-delete :
    (store : Store) (seid other : Option ℕ)
    → ((delete store seid).0 ≡ find store seid)
      × (find (delete store seid).1 other ≡ (if seid == other then none else find store other))
unfolding find delete
find-delete store seid other = (refl, get-pop seid other store)

-- Popping the first key of a list of keys leaves a dictionary whose keys are among the others.
abbrev HasKeyOf : List (Option ℕ) → Option ℕ × Session → Type 0
HasKeyOf [] entry = ⊥
HasKeyOf (seid ∷ seids) entry = (entry.0 ≡ seid) ⊎ HasKeyOf seids entry

other_key :
    (k seid : Option ℕ) (seids : List (Option ℕ)) (s : Session)
    → ((opt_beq k seid ≡ true) ↔ (k ≡ seid))
    → opt_beq k seid ≡ false
    → (k ≡ seid) ⊎ HasKeyOf seids (k, s)
    → HasKeyOf seids (k, s)
other_key k seid seids s same other (inl e) = absurd (false≢true (sym other ∙ same.1 e))
other_key k seid seids s same other (inr h) = h

pop-HasKeyOf :
    (seid : Option ℕ) (seids : List (Option ℕ)) (store : Store)
    → All (HasKeyOf (seid ∷ seids)) store
    → All (HasKeyOf seids) (pop seid store)
unfolding pop
pop-HasKeyOf seid seids [] h = tt
pop-HasKeyOf seid seids ((k, s) ∷ store) h = elim (Bool-cases (opt_beq k seid)) [
  | inl same ↦ rw same (pop-HasKeyOf seid seids store h.1)
  | inr other ↦
      rw other
        (other_key k seid seids s (opt_beq_iff k seid) other h.0, pop-HasKeyOf seid seids store h.1)
]

delete_each-nil :
    (seids : List (Option ℕ)) (store : Store)
    → All (HasKeyOf seids) store
    → delete_each seids store ≡ []
unfolding delete_each
delete_each-nil [] [] h = refl
delete_each-nil [] (entry ∷ store) h = absurd h.0
delete_each-nil (seid ∷ seids) store h =
    delete_each-nil seids (pop seid store) (pop-HasKeyOf seid seids store h)

HasKeyOf-weaken :
    (seid : Option ℕ) (seids : List (Option ℕ)) (store : Store)
    → All (HasKeyOf seids) store
    → All (HasKeyOf (seid ∷ seids)) store
HasKeyOf-weaken seid seids [] h = tt
HasKeyOf-weaken seid seids (entry ∷ store) h = (inr h.0, HasKeyOf-weaken seid seids store h.1)

keys-HasKeyOf : (store : Store) → All (HasKeyOf (keys store)) store
keys-HasKeyOf [] = tt
keys-HasKeyOf ((k, s) ∷ store) =
    (inl refl, HasKeyOf-weaken k (keys store) store (keys-HasKeyOf store))

-- Deleting every SEID of the store leaves it empty.
pub delete_each-keys : (store : Store) → delete_each (keys store) store ≡ []
delete_each-keys store = delete_each-nil (keys store) store (keys-HasKeyOf store)

-- Two SEIDs of the allocator are equal just where their control planes are, and the low twenty bits of
-- the counter's values are; so 2 ^ 20 sessions later a SEID comes again.
pub new_seid-eq :
    (base other next later : ℕ)
    → (((new_seid base next).0 ≡ (new_seid other later).0)
        ↔ ((base ≡ other) × (next % 2 ^ 20 ≡ later % 2 ^ 20)))
      × ((new_seid base (next + 2 ^ 20)).0 ≡ (new_seid base next).0)
unfolding new_seid
new_seid-eq base other next later =
    let same = bit_or-shifted 20 base (next % 2 ^ 20) in
    let else_where = bit_or-shifted 20 other (later % 2 ^ 20) in
    ((λ e. ground arith, λ h. rw (h.0, h.1) refl), ap (λ k. bit_or (base * 2 ^ 20) k) (omega arith))
