-- ===== src/Core/GtpuNode/Path.antt =====
-- The user plane from end to end: a payload over a chain of relays.
use v_epc_cups.Prelude.{
  ℕ, ◌+◌, ◌^◌, ◌<◌, ◌≡◌, refl, ap, ◌∙◌, Bool, true, false, Option, none, some, List, [], ◌∷◌,
  length, inl, inr, if◌then◌else◌,
}
use v_epc_cups.Prelude.Results.{Result, ok, err}
use v_epc_cups.Prelude.Classes.{nat_eq}
use v_epc_cups.Prelude.Dict.{get}
use v_epc_cups.Bytes.{Bytes}
use v_epc_cups.Gtp.RoundTrip.{gpdu}
use v_epc_cups.Core.GtpuNode.{GtpuNode, Route, Send, handle}
use v_epc_cups.Core.GtpuNode.Relay.{routed, handle-routed}

abbrev sent : Result (Option Send) → Option Send
sent (err e) = none
sent (ok s) = s

abbrev hand_on : (Bytes → Option Send) → Option Send → Option Send
hand_on rest none = none
hand_on rest (some s) = rest s.payload

-- Each node handles what the node before it sent; the answer is what the last node sends.
unfoldable pub deliver : List GtpuNode → Bytes → Option Send
deliver [] bytes = none
deliver (node ∷ []) bytes = sent (handle node bytes).1
deliver (node ∷ next ∷ nodes) bytes = hand_on (deliver (next ∷ nodes)) (sent (handle node bytes).1)

-- `Chain nodes teid last`: the routes lead from `teid` through the nodes, one TEID to the next, and
-- out of the network by the route `last` of the last node.
pub data Chain : List GtpuNode → ℕ → Route → Type 0 where
  exit :
      {node : GtpuNode} {teid : ℕ} {r : Route}
      → teid < 2 ^ 32
      → get teid node.routes ≡ some r
      → r.egress ≡ true
      → Chain (node ∷ []) teid r
  hop :
      {node next : GtpuNode} {nodes : List GtpuNode} {teid out : ℕ} {r last : Route}
      → teid < 2 ^ 32
      → get teid node.routes ≡ some r
      → r.egress ≡ false
      → r.teid ≡ some out
      → Chain (next ∷ nodes) out last
      → Chain (node ∷ next ∷ nodes) teid last

-- Where the routes of a chain of relays lead from a TEID to a last route that leaves the network, the
-- payload of a G-PDU with that TEID, if it fits the length field, leaves the chain as it came in,
-- towards the address of the last route.
pub deliver-payload :
    {nodes : List GtpuNode} {teid : ℕ} {last : Route} (payload : Bytes)
    → Chain nodes teid last
    → 8 + length payload < 2 ^ 16
    → (s : Send) × (deliver nodes (gpdu teid payload) ≡ some s)
      × (s.payload ≡ payload)
      × (s.ip ≡ last.ip)
      × (s.port ≡ last.port)
unfolding deliver
deliver-payload payload (exit {node = node} {teid = teid} {r = r} ht found out) hp = (
  routed node r 0 payload,
  ap sent (handle-routed node teid 0 payload ht hp r 0 found (inl out)).0,
  rw out,
  refl,
  refl,
)
deliver-payload payload
      (hop {node = node} {next = next} {nodes = nodes} {teid = teid} {out = o} {r = r} ht found fwd
        out chain)
      hp =
    let (s, e, same, ip, port) = deliver-payload payload chain hp in
    (
      s,
      ap (λ (x : Result (Option Send)). hand_on (deliver (next ∷ nodes)) (sent x))
            (handle-routed node teid o payload ht hp r 0 found (inr out)).0
          ∙ ap (λ (b : Bool). deliver (next ∷ nodes) (if b then payload else gpdu o payload)) fwd
          ∙ e,
      same,
      ip,
      port,
    )
