-- ===== src/Sxcups/Session.antt =====
-- sxcups/session.py: the context of one Sx session.
pub mod Classify
pub mod Pipeline
use text.Mathlib.Text.{◌==◌ as str_eq}
use v_epc_cups.Prelude.{
  ℕ, ◌+◌, String, Bool, true, false, ◌&&◌, Option, none, some, List, [], ◌∷◌, ◌++◌, length, ltb,
  if◌then◌else◌,
}
use v_epc_cups.Prelude.Results.{Result, ok, err, type_error, ◌>>=◌}
use v_epc_cups.Prelude.Classes.{option_eq}
use v_epc_cups.Prelude.Dict.{Dict, get, put, pop, values}
use v_epc_cups.Bytes.{Bytes, Ip}
use v_epc_cups.Sxcups.Rules.Pdr.{Pdr}
use v_epc_cups.Sxcups.Rules.Far.{Far, contains}
use v_epc_cups.Sxcups.Rules.Qer.{Qer}
use v_epc_cups.Sxcups.Rules.Urr.{Urr}

pub record Usage : Type 0 where
  pub uplink : ℕ
  pub downlink : ℕ

-- An id may be `None`, and then it is a key like any other.
pub record Session : Type 0 where
  pub seid : Option ℕ
  pub cp_fseid : Option ℕ × Ip
  pub up_fseid : Option ℕ × Ip
  pub kind : String
  pub pdrs : Dict (Option ℕ) Pdr
  pub fars : Dict (Option ℕ) Far
  pub qers : Dict (Option ℕ) Qer
  pub urrs : Dict (Option ℕ) Urr
  pub buffered : List Bytes
  pub usage : Usage
  pub state : String

-- Session(seid, cp_ip, up_ip, kind)
unfoldable pub new_session : Option ℕ → Ip → Ip → String → Session
new_session seid cp_ip up_ip kind = record {
  seid = seid;
  cp_fseid = (seid, cp_ip);
  up_fseid = (seid, up_ip);
  kind = kind;
  pdrs = [];
  fars = [];
  qers = [];
  urrs = [];
  buffered = [];
  usage = record { uplink = 0; downlink = 0 };
  state = "ESTABLISHED";
}

-- for r in rules: table[id_of(r)] = r
unfoldable pub put_all :
    {R : Type 0} → (R → Option ℕ) → List R → Dict (Option ℕ) R → Dict (Option ℕ) R
unfolding put
put_all id_of [] table = table
put_all id_of (r ∷ rules) table = put_all id_of rules (put (id_of r) r table)

-- for i in ids: table.pop(i, None)
unfoldable pub pop_all : {R : Type 0} → List (Option ℕ) → Dict (Option ℕ) R → Dict (Option ℕ) R
unfolding pop
pop_all [] table = table
pop_all (i ∷ ids) table = pop_all ids (pop i table)

unfoldable pub add_rules : Session → List Pdr → List Far → List Qer → List Urr → Session
unfolding put_all
add_rules s pdrs fars qers urrs = record s {
  pdrs = put_all (λ r. r.pdr_id) pdrs s.pdrs;
  fars = put_all (λ r. r.far_id) fars s.fars;
  qers = put_all (λ r. r.qer_id) qers s.qers;
  urrs = put_all (λ r. r.urr_id) urrs s.urrs;
}

unfoldable pub remove : Session → (pdr_ids far_ids qer_ids urr_ids : List (Option ℕ)) → Session
unfolding pop_all
remove s pdr_ids far_ids qer_ids urr_ids = record s {
  pdrs = pop_all pdr_ids s.pdrs;
  fars = pop_all far_ids s.fars;
  qers = pop_all qer_ids s.qers;
  urrs = pop_all urr_ids s.urrs;
}

-- pdr.source_interface == direction
abbrev pub faces : String → Pdr → Bool
faces direction pdr = elim pdr.source_interface [ none ↦ false | some name ↦ str_eq name direction ]

-- pdr.precedence < best.precedence
abbrev pub precedes : Option ℕ → Option ℕ → Result Bool
precedes (some a) (some b) = ok (ltb a b)
precedes _ _ = err type_error

-- best is None or pdr.precedence < best.precedence
unfoldable pub better : Pdr → Option Pdr → Result Bool
better pdr none = ok true
better pdr (some best) = precedes pdr.precedence best.precedence

unfoldable pub classify_loop : String → Option Pdr → List Pdr → Result (Option Pdr)
unfolding better
classify_loop direction best [] = ok best
classify_loop direction best (pdr ∷ pdrs) = do
  wins ← if faces direction pdr then better pdr best else ok false
  classify_loop direction (if wins then some pdr else best) pdrs

unfoldable pub classify : Session → String → Result (Option Pdr)
unfolding classify_loop
classify s direction = classify_loop direction none (values s.pdrs)

-- far.apply_action if far else ["DROP"]
abbrev pub action_of : Option Far → List String
action_of none = "DROP" ∷ []
action_of (some far) = far.apply_action

abbrev pub account : String → ℕ → Usage → Usage
account direction n usage =
    if str_eq direction "Access"
    then record usage { uplink = usage.uplink + n }
    else record usage { downlink = usage.downlink + n }

-- A packet that matched `pdr`.
unfoldable pub treat : Session → Bytes → String → Pdr → Session × (List String × ℕ)
unfolding get contains
treat s payload direction pdr =
    let action = action_of (get pdr.far_id s.fars) in
    let n = length payload in
    (
      record s {
        usage = account direction n s.usage;
        buffered =
            if contains "BUFFER" action && str_eq direction "Core"
            then s.buffered ++ payload ∷ []
            else s.buffered;
      },
      (action, n),
    )

abbrev pub treat_match : Session → Bytes → String → Option Pdr → Session × (List String × ℕ)
treat_match s payload direction none = (s, ("DROP" ∷ [], 0))
treat_match s payload direction (some pdr) = treat s payload direction pdr

-- The session after the packet, with the action and the bytes. A raise comes before any change.
unfoldable pub apply : Session → Bytes → String → Result (Session × (List String × ℕ))
unfolding classify treat
apply s payload direction = do pdr ← classify s direction; ok (treat_match s payload direction pdr)
