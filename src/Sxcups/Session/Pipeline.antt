-- ===== src/Sxcups/Session/Pipeline.antt =====
-- What `Session.apply` does to the session and answers, on every branch.
use text.Mathlib.Text.{◌==◌ as str_eq}
use text.Mathlib.TextEquality.{eq_iff}
use v_epc_cups.Prelude.{
  ℕ, ◌+◌, ◌≡◌, ◌⊎◌, true, false, String, Option, none, some, List, [], ◌∷◌, ◌++◌, length, All,
  arith,
}
use v_epc_cups.Prelude.Results.{ok}
use v_epc_cups.Prelude.Dict.{get, values}
use v_epc_cups.Prelude.Classes.{option_eq}
use v_epc_cups.Bytes.{Bytes}
use v_epc_cups.Sxcups.Rules.Pdr.{Pdr}
use v_epc_cups.Sxcups.Rules.Far.{contains}
use v_epc_cups.Sxcups.Session.{Session, action_of, treat, treat_match, apply}
use v_epc_cups.Sxcups.Session.Classify.{IsNumbered, IsChoice, classify-IsChoice}

-- The action that the chosen rule leads to: that of its FAR, and DROP where there is none.
abbrev pub chosen_action : Session → Option Pdr → List String
chosen_action s none = "DROP" ∷ []
chosen_action s (some pdr) = action_of (get pdr.far_id s.fars)

-- The bytes that the packet counts for.
abbrev pub counted : Bytes → Option Pdr → ℕ
counted payload none = 0
counted payload (some pdr) = length payload

-- The outcome of a packet: the action and the bytes of the chosen rule; the bytes are counted once,
-- on the side of the direction; the packet is queued at most once, for BUFFER towards the UE only;
-- the rules stay as they are.
pub record IsTreated (s : Session) (payload : Bytes) (direction : String) (r : Option Pdr)
    (out : Session × (List String × ℕ)) : Type 0 where
  pub action : out.1.0 ≡ chosen_action s r
  pub bytes : out.1.1 ≡ counted payload r
  pub total :
      out.0.usage.uplink + out.0.usage.downlink
      ≡ s.usage.uplink + s.usage.downlink + counted payload r
  pub side :
      ((str_eq direction "Access" ≡ true) × (out.0.usage.downlink ≡ s.usage.downlink))
      ⊎ ((str_eq direction "Access" ≡ false) × (out.0.usage.uplink ≡ s.usage.uplink))
  pub rules : out.0 ≡ record s { usage = out.0.usage; buffered = out.0.buffered }
  pub queue :
      (out.0.buffered ≡ s.buffered)
      ⊎ ((out.0.buffered ≡ s.buffered ++ payload ∷ [])
          × (contains "BUFFER" out.1.0 ≡ true)
          × (direction ≡ "Core"))
  pub queued :
      (contains "BUFFER" out.1.0 ≡ false)
      ⊎ (str_eq direction "Core" ≡ false)
      ⊎ (out.0.buffered ≡ s.buffered ++ payload ∷ [])

treat_match-IsTreated :
    (s : Session) (payload : Bytes) (direction : String) (r : Option Pdr)
    → IsTreated s payload direction r (treat_match s payload direction r)
unfolding treat contains
treat_match-IsTreated s payload direction none = ground arith
treat_match-IsTreated s payload direction (some pdr) =
    ground (arith, eq_iff direction "Access", eq_iff direction "Core")

-- Where every precedence is a number, a packet is treated by the rule that `classify` chooses: it
-- gets the actions of the rule's FAR, or a drop where there is no rule or no FAR; the usage of its
-- direction, and of no other, grows by its bytes if there is a rule; it joins the buffer just where
-- the actions say so and it comes from the core; and the rest of the session stays.
pub apply-IsTreated :
    (s : Session) (payload : Bytes) (direction : String)
    → All IsNumbered (values s.pdrs)
    → (r : Option Pdr) × (out : Session × (List String × ℕ)) × IsChoice direction (values s.pdrs) r
      × (apply s payload direction ≡ ok out)
      × IsTreated s payload direction r out
unfolding apply
apply-IsTreated s payload direction n =
    let (r, e, c) = classify-IsChoice s direction n in
    (r, treat_match s payload direction r, c, rw e, treat_match-IsTreated s payload direction r)
