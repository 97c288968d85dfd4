-- ===== src/Sxcups/Store/Kept.antt =====
-- A property of every session of a store, with the key that it stands under.
use v_epc_cups.Prelude.{ℕ, ◌≡◌, Option, some, [], arith}
use v_epc_cups.Prelude.Classes.{option_eq, opt_beq_iff}
use v_epc_cups.Prelude.Dict.{get, put, pop, get-put, get-pop}
use v_epc_cups.Sxcups.Session.{Session}
use v_epc_cups.Sxcups.Store.{Store, find}

pub record Kept (P : Option ℕ → Session → Type 0) (store : Store) : Type 0 where
  pub at_key : (key : Option ℕ) (s : Session) → find store key ≡ some s → P key s

module _ {P : Option ℕ → Session → Type 0} where
  pub put-Kept :
      (store : Store) (key : Option ℕ) (s : Session)
      → Kept P store
      → P key s
      → Kept P (put key s store)
  put-Kept store key s kept own = record {
    at_key = λ k r found.
        unfold find in ground (arith, get-put key k s store, opt_beq_iff key k, kept.at_key k r);
  }

  pub pop-Kept : (store : Store) (key : Option ℕ) → Kept P store → Kept P (pop key store)
  pop-Kept store key kept = record {
    at_key = λ k r found. unfold find in ground (arith, get-pop key k store, kept.at_key k r);
  }

  pub empty-Kept : Kept P []
  empty-Kept = record { at_key = λ k r found. unfold find get in cc }
