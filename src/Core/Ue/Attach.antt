-- ===== src/Core/Ue/Attach.antt =====
-- core/ue.py: when the attach state machine is attached.
use v_epc_cups.Prelude.{
  ℕ, ◌≡◌, refl, ◌∙◌, ◌⊎◌, inl, inr, true, some, List, [], ◌∷◌, nat_beq, nat_beq_iff, Bool-cases,
  arith,
}
use v_epc_cups.Prelude.Results.{Result, ok, err}
use v_epc_cups.Bytes.{Bytes}
use v_epc_cups.Nas
use v_epc_cups.Nas.{Message}
use v_epc_cups.Nas.Values.{
  attach_accept, attach_reject, detach_accept, auth_request, security_mode_command,
}
use v_epc_cups.Core.Datagrams.{Address, Datagram}
use v_epc_cups.Core.Ue.{
  Ue, State, attach, detach, receive, on_nas, on_data, accept, send_nas, read_nas, detached_as,
  detach_bytes,
}

-- What happens to the equipment: its two procedures, and what it receives.
pub data Event : Type 0 where
  starts_attach starts_detach : Event
  gets_nas : Bytes → Address → Event
  gets_data : Bytes → Event

unfoldable pub step : (Bytes → Bytes) → Ue → Event → Ue
unfolding attach detach on_nas on_data
step sha256 ue starts_attach = (attach ue).0
step sha256 ue starts_detach = (detach ue).0
step sha256 ue (gets_nas bytes addr) = (on_nas sha256 ue bytes addr).0
step sha256 ue (gets_data bytes) = on_data ue bytes

unfoldable pub run : (Bytes → Bytes) → Ue → List Event → Ue
unfolding step
run sha256 ue [] = ue
run sha256 ue (e ∷ events) = run sha256 (step sha256 ue e) events

-- The event is an Attach Accept.
pub data Accepts : Event → Type 0 where
  accepts :
      {bytes : Bytes} {addr : Address} {m : Message}
      → Nas.from_bytes bytes ≡ ok m
      → m.msg_type ≡ attach_accept
      → Accepts (gets_nas bytes addr)

abbrev pub Any : (Event → Type 0) → List Event → Type 0
Any P [] = ⊥
Any P (e ∷ events) = P e ⊎ Any P events

-- An attached equipment has its event set and a bearer.
abbrev pub IsServed : Ue → Type 0
IsServed ue = (ue.done ≡ true) × ((e : ℕ) × (ue.ebi ≡ some e))

-- From `ue` to `ue'`, attached equipment was so before, with the same bearer, or `P` holds.
abbrev Keeps : Ue → Ue → Type 0 → Type 0
Keeps ue ue' P =
    ue'.state ≡ State.attached
    → ((ue.state ≡ State.attached) × (ue'.done ≡ ue.done) × (ue'.ebi ≡ ue.ebi)) ⊎ (P × IsServed ue')

receive-Keeps :
    (sha256 : Bytes → Bytes) (ue : Ue) (m : Message) (addr : Address)
    → Keeps ue (receive sha256 ue m addr).0 (m.msg_type ≡ attach_accept)
unfolding receive accept send_nas Nas.to_bytes
receive-Keeps sha256 ue m addr = elim (Bool-cases (nat_beq m.msg_type auth_request)) [
  | inl e ↦ rw (e) (λ h. inl (h, refl, refl))
  | inr e₁ ↦ elim (Bool-cases (nat_beq m.msg_type security_mode_command)) [
    | inl e ↦ rw (e₁, e) (λ h. inl (h, refl, refl))
    | inr e₂ ↦ elim (Bool-cases (nat_beq m.msg_type attach_accept)) [
      | inl e ↦
          rw (e₁, e₂, e) (λ h. inr ((nat_beq_iff m.msg_type attach_accept).0 e, (refl, (_, refl))))
      | inr e₃ ↦ elim (Bool-cases (nat_beq m.msg_type attach_reject)) [
        | inl e ↦ rw (e₁, e₂, e₃, e) (λ h. absurd (ground arith))
        | inr e₄ ↦ elim (Bool-cases (nat_beq m.msg_type detach_accept)) [
          | inl e ↦ rw (e₁, e₂, e₃, e₄, e) (λ h. absurd (ground arith))
          | inr e ↦ rw (e₁, e₂, e₃, e₄, e) (λ h. inl (h, refl, refl))
        ]
      ]
    ]
  ]
]

read_nas-Keeps :
    (sha256 : Bytes → Bytes) (ue : Ue) (bytes : Bytes) (addr : Address)
    → Keeps ue (on_nas sha256 ue bytes addr).0 (Accepts (gets_nas bytes addr))
unfolding on_nas
read_nas-Keeps sha256 ue bytes addr = go (Nas.from_bytes bytes) refl
  where
    go :
        (r : Result Message)
        → Nas.from_bytes bytes ≡ r
        → Keeps ue
            (read_nas sha256 (record ue { enb_addr = some addr }) addr r).0
            (Accepts (gets_nas bytes addr))
    go (err e) h = λ k. inl (k, refl, refl)
    go (ok m) h = λ k. elim (receive-Keeps sha256 (record ue { enb_addr = some addr }) m addr k) [
      | inl old ↦ inl old
      | inr new ↦ inr (accepts h new.0, new.1)
    ]

detached_as-Keeps : (ue : Ue) (r : Result Datagram) (P : Type 0) → Keeps ue (detached_as ue r).0 P
detached_as-Keeps ue (err e) P = λ h. inl (h, refl, refl)
detached_as-Keeps ue (ok d) P = λ h. absurd (ground arith)

step-Keeps :
    (sha256 : Bytes → Bytes) (ue : Ue) (e : Event) → Keeps ue (step sha256 ue e) (Accepts e)
unfolding step attach on_data detach
step-Keeps sha256 ue starts_attach = λ h. absurd (ground arith)
step-Keeps sha256 ue starts_detach = detached_as-Keeps ue (detach_bytes ue) (Accepts starts_detach)
step-Keeps sha256 ue (gets_nas bytes addr) = read_nas-Keeps sha256 ue bytes addr
step-Keeps sha256 ue (gets_data bytes) = λ h. inl (h, refl, refl)

-- An equipment that is attached after these events was attached before them, or one of them was an
-- Attach Accept; and an equipment with a bearer and its event set, if it is attached at all, stays so.
pub run-attached :
    (sha256 : Bytes → Bytes) (ue : Ue) (events : List Event)
    → (ue.state ≡ State.attached → IsServed ue)
    → (run sha256 ue events).state ≡ State.attached
    → ((ue.state ≡ State.attached) ⊎ Any Accepts events) × IsServed (run sha256 ue events)
unfolding run
run-attached sha256 ue [] hu h = (inl h, hu h)
run-attached sha256 ue (e ∷ events) hu h =
    let kept = step-Keeps sha256 ue e in
    let served : (step sha256 ue e).state ≡ State.attached → IsServed (step sha256 ue e) = λ k.
      elim (kept k) [
        | inl old ↦ (old.1 ∙ (hu old.0).0, ((hu old.0).1.0, old.2 ∙ (hu old.0).1.1))
        | inr new ↦ new.1
      ] in
    let rest = run-attached sha256 (step sha256 ue e) events served h in
    (
      elim rest.0 [
        | inl k ↦ elim (kept k) [ inl old ↦ inl old.0 | inr new ↦ inr (inl new.0) ]
        | inr any ↦ inr (inr any)
      ],
      rest.1,
    )
