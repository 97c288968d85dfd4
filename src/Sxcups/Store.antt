-- ===== src/Sxcups/Store.antt =====
-- `SessionStore` of sxcups/session.py: the sessions by SEID, and the SEID allocator.
pub mod Laws
pub mod Kept
use v_epc_cups.Prelude.{
  ℕ, ◌+◌, ◌*◌, ◌%◌, ◌^◌, ◌≡◌, ◌≢◌, refl, String, Option, none, some, bit_or, arith, List, [], ◌∷◌,
  All, Bool, true, false, Bool-cases, ◌⊎◌, inl, inr, sym, ◌∙◌, ◌↔◌, if◌then◌else◌,
}
use v_epc_cups.Prelude.Classes.{option_eq, opt_beq, ◌==◌, opt_beq_iff}
use v_epc_cups.Prelude.Dict.{Dict, get, put, pop, get-put, get-pop, keys}
use mathlib.Core.Bool.{false≢true}
use v_epc_cups.Bytes.{Ip}
use v_epc_cups.Sxcups.Session.{Session, new_session}

abbrev pub Store : Type 0
Store = Dict (Option ℕ) Session

-- (base << 20) | (next(_session_seq) & 0xFFFFF): `next` is the value that the module's counter
-- gives, and the counter goes on by one.
unfoldable pub new_seid : (base next : ℕ) → ℕ × ℕ
new_seid base next = (bit_or (base * 2 ^ 20) (next % 2 ^ 20), next + 1)

unfoldable pub create : Store → Option ℕ → Ip → Ip → String → Session × Store
unfolding new_session put
create store seid cp_ip up_ip kind =
    let s = new_session seid cp_ip up_ip kind in (s, put seid s store)

unfoldable pub find : Store → Option ℕ → Option Session
unfolding get
find store seid = get seid store

unfoldable pub delete : Store → Option ℕ → Option Session × Store
unfolding get pop
delete store seid = (get seid store, pop seid store)

-- for seid in list(self.sessions): self.delete(seid)
unfoldable pub delete_each : List (Option ℕ) → Store → Store
unfolding delete
delete_each [] store = store
delete_each (seid ∷ seids) store = delete_each seids (delete store seid).1
