-- ===== src/Core/GtpuNode.antt =====
-- core/gtpu.py: the GTP-U relay of a node, with its routes by TEID.
pub mod Relay
pub mod Path
use v_epc_cups.Prelude.{
  ℕ, ◌+◌, Bool, true, false, Option, none, some, length, nat_beq, if◌then◌else◌, not,
}
use v_epc_cups.Prelude.Results.{Result, ok, err, ◌>>=◌}
use v_epc_cups.Prelude.Classes.{nat_eq}
use v_epc_cups.Prelude.Dict.{Dict, get, put}
use v_epc_cups.Bytes.{Bytes, Ip}
use v_epc_cups.Gtp.{Packet, g_pdu, encode_gpdu, decode}

-- The values of `routes`: `egress` for the kind "egress", else the kind is "fwd".
pub record Route : Type 0 where
  pub egress : Bool
  pub ip : Ip
  pub port : ℕ
  pub teid : Option ℕ

pub record Counters : Type 0 where
  pub packets : ℕ
  pub bytes : ℕ

pub record Uplink : Type 0 where
  pub ip : Ip
  pub port : ℕ
  pub dl_teid : ℕ

-- `has_sgi` tells whether the node has an SGi socket.
pub record GtpuNode : Type 0 where
  pub routes : Dict ℕ Route
  pub stats : Dict ℕ Counters
  pub sgi_uplink : Option Uplink
  pub has_sgi : Bool

-- A datagram that a node sends, and the socket that it leaves by.
pub data Socket : Type 0 where
  gtpu sgi : Socket

pub record Send : Type 0 where
  pub socket : Socket
  pub payload : Bytes
  pub ip : Ip
  pub port : ℕ

unfoldable pub add_route : GtpuNode → ℕ → Ip → ℕ → Option ℕ → Bool → GtpuNode
unfolding put
add_route node in_teid next_ip next_port out_teid egress = record node {
  routes =
      put in_teid (record { egress = egress; ip = next_ip; port = next_port; teid = out_teid })
        node.routes;
}

unfoldable pub set_sgi_uplink : GtpuNode → Ip → ℕ → ℕ → GtpuNode
set_sgi_uplink node next_ip next_port dl_teid = record node {
  sgi_uplink = some (record { ip = next_ip; port = next_port; dl_teid = dl_teid });
}

unfoldable pub send_gtpu : ℕ → Ip → ℕ → Bytes → Result Send
send_gtpu teid dst_ip dst_port payload = do
  bytes ← encode_gpdu (some teid) payload
  ok (record { socket = gtpu; payload = bytes; ip = dst_ip; port = dst_port })

-- stats.setdefault(teid, [0, 0])
abbrev pub counters_of : Option Counters → Counters
counters_of none = record { packets = 0; bytes = 0 }
counters_of (some c) = c

unfoldable pub count : GtpuNode → ℕ → Bytes → GtpuNode
unfolding get put
count node teid payload =
    let st = counters_of (get teid node.stats) in
    record node {
      stats =
          put teid (record { packets = st.packets + 1; bytes = st.bytes + length payload })
            node.stats;
    }

-- The datagram of a G-PDU with this route. `none` is for nothing sent.
unfoldable pub forward : GtpuNode → Bytes → Option Route → Result (Option Send)
forward node payload none = ok none
forward node payload (some r) =
    if r.egress
    then ok (
        some (record {
          socket = if node.has_sgi then sgi else gtpu;
          payload = payload;
          ip = r.ip;
          port = r.port;
        }))
    else do
      bytes ← encode_gpdu r.teid payload
      ok (some (record { socket = gtpu; payload = bytes; ip = r.ip; port = r.port }))

-- After `gtp.decode`, whose errors end the handler.
unfoldable pub handle_packet : GtpuNode → Result Packet → GtpuNode × Result (Option Send)
handle_packet node (err e) = (node, ok none)
handle_packet node (ok g) =
    if not (nat_beq g.type g_pdu)
    then (node, ok none)
    else (count node g.teid g.payload, forward node g.payload (get g.teid node.routes))

-- The node after the datagram, and what it sends. An error comes after the counting.
unfoldable pub handle : GtpuNode → Bytes → GtpuNode × Result (Option Send)
unfolding handle_packet
handle node bytes = handle_packet node (decode bytes)

unfoldable pub handle_sgi : GtpuNode → Bytes → Result (Option Send)
handle_sgi node bytes = elim node.sgi_uplink [
  | none ↦ ok none
  | some u ↦ do
    packet ← encode_gpdu (some u.dl_teid) bytes
    ok (some (record { socket = gtpu; payload = packet; ip = u.ip; port = u.port }))
]
