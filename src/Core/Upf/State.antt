-- ===== src/Core/Upf/State.antt =====
-- The state of `UPF` in core/upf.py, and its plumbing. The name, the timers and the sockets are left
-- out: they are logging and I/O.
use v_epc_cups.Prelude.{
  ℕ, ◌+◌, ◌%◌, ◌^◌, Bool, true, false, String, Option, none, some, List, [], ◌∷◌, map,
}
use v_epc_cups.Prelude.Results.{Result}
use v_epc_cups.Prelude.Classes.{nat_eq}
use v_epc_cups.Prelude.Dict.{Dict, get, put}
use v_epc_cups.Bytes.{Bytes, Ip}
use v_epc_cups.Pfcp.Types.{cause_request_accepted}
use v_epc_cups.Pfcp.Values.{ie_cause, ie_node_id, ie_recovery_ts}
use v_epc_cups.Pfcp.Message.{Message, encoded, new_message, to_bytes}
use v_epc_cups.Sxcups.Store.{Store}

pub record Peer : Type 0 where
  pub ip : Ip
  pub port : ℕ
  pub node_id : Option Ip
  pub associated : Bool
  pub last_seen : ℕ

-- `next_teid` is what the generator `_teid` yields next.
pub record Upf : Type 0 where
  pub ip : Ip
  pub port : ℕ
  pub recovery_ts : ℕ
  pub features : List String
  pub peers : Dict Ip Peer
  pub user_plane_service : String
  pub store : Store
  pub seq : ℕ
  pub next_teid : ℕ

-- UPF(name, ip, port, features=features), at the time that the module took for its recovery stamp.
unfoldable pub new_upf : Ip → ℕ → ℕ → List String → Upf
new_upf ip port recovery_ts features = record {
  ip = ip;
  port = port;
  recovery_ts = recovery_ts;
  features = features;
  peers = [];
  user_plane_service = "UP";
  store = [];
  seq = 0;
  next_teid = 0x00010000;
}

-- The handler's new state, and the bytes that it answers with (`none` for None), or the exception
-- that ends it. A raise leaves what was written before it.
abbrev pub Outcome : Type 0
Outcome = Upf × Result (Option Bytes)

unfoldable pub next_seq : Upf → Upf
next_seq u = record u { seq = (u.seq + 1) % 2 ^ 24 }

-- next(self._teid), where `teid_pool` of utils/utils.py steps by 1 and wraps at 32 bits.
unfoldable pub alloc_fteid : ℕ → ℕ × ℕ
alloc_fteid next = (next, (next + 1) % 2 ^ 32)

unfoldable pub new_peer : Ip → ℕ → Peer
new_peer ip port = record {
  ip = ip;
  port = port;
  node_id = none;
  associated = false;
  last_seen = 0;
}

unfoldable pub add_peer : Upf → Ip → ℕ → Upf
unfolding new_peer put
add_peer u ip port = record u { peers = put ip (new_peer ip port) u.peers }

abbrev pub peer_or_new : Ip → Option Peer → Peer
peer_or_new ip none = new_peer ip 8805
peer_or_new ip (some peer) = peer

-- The peer of the sender, added if it is not there, and seen now.
unfoldable pub seen_peer : Upf → ℕ → Ip → Peer
unfolding new_peer get
seen_peer u now from = record (peer_or_new from (get from u.peers)) { last_seen = now }

-- The peers are objects that the handlers change in place.
unfoldable pub set_peer : Upf → Ip → Peer → Upf
unfolding put
set_peer u from peer = record u { peers = put from peer u.peers }

-- Message(mtype, seid=req.seid, seq=req.seq, ies=ies).to_bytes()
unfoldable pub reply : ℕ → Message → List Bytes → Bytes
reply mtype req ies = to_bytes (new_message mtype req.seid req.seq (map encoded ies) true)

unfoldable pub hb_ies : Upf → List Bytes
hb_ies u = ie_cause cause_request_accepted ∷ ie_node_id u.ip ∷ ie_recovery_ts u.recovery_ts ∷ []
