-- ===== src/Core/GtpuNode/Relay.antt =====
-- What a relay forwards, what it counts, and that a chain of relays delivers the payload.
use v_epc_cups.Prelude.{
  ℕ, ◌+◌, ◌^◌, ◌<◌, ◌≡◌, refl, true, none, some, length, nat_beq, nat_beq_iff, ◌⊎◌, arith,
  if◌then◌else◌,
}
use v_epc_cups.Prelude.Results.{ok}
use v_epc_cups.Prelude.Classes.{nat_eq}
use v_epc_cups.Prelude.Dict.{get, get-put}
use v_epc_cups.Bytes.{Bytes}
use v_epc_cups.Gtp.{decode}
use v_epc_cups.Gtp.RoundTrip.{gpdu, encode_gpdu_lem, decode-gpdu}
use v_epc_cups.Core.GtpuNode.{
  GtpuNode, Route, Counters, Send, gtpu, sgi, counters_of, count, forward, handle, handle_packet,
}

-- The counters of a TEID.
abbrev pub counters : GtpuNode → ℕ → Counters
counters node teid = counters_of (get teid node.stats)

-- The datagram that a route asks for.
abbrev pub routed : GtpuNode → Route → ℕ → Bytes → Send
routed node r out payload = record {
  socket = if r.egress then (if node.has_sgi then sgi else gtpu) else gtpu;
  payload = if r.egress then payload else gpdu out payload;
  ip = r.ip;
  port = r.port;
}

handle_lem :
    (node : GtpuNode) (bytes : Bytes) → handle node bytes ≡ handle_packet node (decode bytes)
unfolding handle
handle_lem node bytes = refl

-- `out` is the TEID of the route; a route that leaves the network needs none.
abbrev pub LeadsTo : Route → ℕ → Type 0
LeadsTo r out = (r.egress ≡ true) ⊎ (r.teid ≡ some out)

forward-routed :
    (node : GtpuNode) (r : Route) (out : ℕ) (payload : Bytes)
    → 8 + length payload < 2 ^ 16
    → LeadsTo r out
    → forward node payload (some r) ≡ ok (some (routed node r out payload))
unfolding forward
forward-routed node r out payload hp leads = ground (arith, encode_gpdu_lem out payload hp)

counters-count :
    (node : GtpuNode) (teid other : ℕ) (payload : Bytes)
    → counters (count node teid payload) other ≡ (
        if nat_beq teid other
        then (record {
          packets = (counters node other).packets + 1;
          bytes = (counters node other).bytes + length payload;
        })
        else counters node other)
unfolding count
counters-count node teid other payload =
    let st = counters node teid in
    rw
      (get-put teid other (record { packets = st.packets + 1; bytes = st.bytes + length payload })
        node.stats)
      (ground (arith, nat_beq_iff teid other))

module _ (node : GtpuNode) (teid out : ℕ) (payload : Bytes) (ht : teid < 2 ^ 32)
    (hp : 8 + length payload < 2 ^ 16) where
  -- A G-PDU with a route, with a 32-bit TEID and a payload that fits the length field, is sent on to
  -- the next hop: its payload alone where the route leaves the network, else under the TEID of the
  -- route. It is counted once under its TEID, with the bytes of its payload, and no other counter
  -- and no route changes.
  pub handle-routed :
      (r : Route) (other : ℕ)
      → get teid node.routes ≡ some r
      → LeadsTo r out
      → ((handle node (gpdu teid payload)).1 ≡ ok (some (routed node r out payload)))
        × (counters (handle node (gpdu teid payload)).0 other ≡ (
            if nat_beq teid other
            then (record {
              packets = (counters node other).packets + 1;
              bytes = (counters node other).bytes + length payload;
            })
            else counters node other))
        × ((handle node (gpdu teid payload)).0.routes ≡ node.routes)
  unfolding handle_packet
  handle-routed r other found leads =
      rw (handle_lem, decode-gpdu teid payload ht hp, found)
        (
          forward-routed node r out payload hp leads,
          counters-count node teid other payload,
          unfold count in refl,
        )

  -- A G-PDU with no route is counted and dropped.
  pub handle-unrouted : get teid node.routes ≡ none → (handle node (gpdu teid payload)).1 ≡ ok none
  unfolding handle_packet
  handle-unrouted missing =
      rw (handle_lem, decode-gpdu teid payload ht hp, missing) (unfold forward in refl)
