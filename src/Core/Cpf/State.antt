-- ===== src/Core/Cpf/State.antt =====
-- The state of `CPF` in core/cpf.py, and its plumbing. The name, the periodic timers and the sockets
-- are left out: they are logging and I/O.
use v_epc_cups.Prelude.{
  ℕ, ◌+◌, ◌%◌, ◌^◌, Bool, true, false, Option, none, some, List, [], ◌∷◌, nat_beq, if◌then◌else◌,
  map,
}
use v_epc_cups.Prelude.Classes.{nat_eq, option_eq}
use v_epc_cups.Prelude.Dict.{Dict, get, put}
use v_epc_cups.Bytes.{Bytes, Ip}
use v_epc_cups.Pfcp.Message.{Message, encoded, new_message, to_bytes}
use v_epc_cups.Sxcups.Session.{Session}
use v_epc_cups.Sxcups.Store.{Store, delete}

-- `port` is 8805 whatever the caller asks for. `guard_interval` and `up_features` are never read.
pub record Peer : Type 0 where
  pub ip : Ip
  pub port : ℕ
  pub node_id : Option Ip
  pub associated : Bool
  pub last_seen : ℕ

-- `pending` has the requests without a response yet under `none`. `session_seq` is what the module's
-- counter `_session_seq` gives next. `releases` are the peers whose release a timer has been set
-- for, in order.
pub record Cpf : Type 0 where
  pub ip : Ip
  pub port : ℕ
  pub recovery_ts : ℕ
  pub base_seid : ℕ
  pub peers : Dict Ip Peer
  pub store : Store
  pub seq : ℕ
  pub pending : Dict ℕ (Option Message)
  pub session_seq : ℕ
  pub releases : List Ip

-- CPF(name, ip, port, base_seid=base_seid), at the time that the module took for its recovery stamp.
unfoldable pub new_cpf : Ip → ℕ → ℕ → ℕ → ℕ → Cpf
new_cpf ip port recovery_ts base_seid session_seq = record {
  ip = ip;
  port = port;
  recovery_ts = recovery_ts;
  base_seid = base_seid;
  peers = [];
  store = [];
  seq = 0;
  pending = [];
  session_seq = session_seq;
  releases = [];
}

unfoldable pub next_seq : Cpf → Cpf
next_seq c = record c { seq = (c.seq + 1) % 2 ^ 24 }

unfoldable pub new_peer : Ip → Peer
new_peer ip = record { ip = ip; port = 8805; node_id = none; associated = false; last_seen = 0 }

unfoldable pub add_peer : Cpf → Ip → Cpf
unfolding new_peer put
add_peer c ip = record c { peers = put ip (new_peer ip) c.peers }

-- An assignment to fields of a peer object, which every caller took from `peers`.
abbrev pub changed : (Peer → Peer) → Option Peer → Ip → Dict Ip Peer → Dict Ip Peer
changed f none ip peers = peers
changed f (some peer) ip peers = put ip (f peer) peers

unfoldable pub change_peer : (Peer → Peer) → Ip → Cpf → Cpf
unfolding get put
change_peer f ip c = record c { peers = changed f (get ip c.peers) ip c.peers }

-- The sessions that stay when those on the user plane of `ip` are deleted one by one.
unfoldable pub without_peer : Ip → List (Option ℕ × Session) → Store → Store
unfolding delete
without_peer ip [] store = store
without_peer ip ((seid, s) ∷ entries) store =
    without_peer ip entries (if nat_beq s.up_fseid.1 ip then (delete store seid).1 else store)

-- Message(mtype, seid=seid, seq=seq, ies=ies).to_bytes()
unfoldable pub answer : ℕ → ℕ → ℕ → List Bytes → Bytes
answer mtype seid seq ies = to_bytes (new_message mtype seid seq (map encoded ies) true)
