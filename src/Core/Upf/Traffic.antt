-- ===== src/Core/Upf/Traffic.antt =====
-- The packets and the reports of core/upf.py.
use v_epc_cups.Prelude.{ℕ, String, Option, none, some, List, [], ◌∷◌}
use v_epc_cups.Prelude.Results.{Result, ok, err, attribute_error, ◌>>=◌}
use v_epc_cups.Prelude.Classes.{nat_eq, option_eq}
use v_epc_cups.Prelude.Dict.{Dict, get, put}
use v_epc_cups.Bytes.{Bytes, Ip}
use v_epc_cups.Pfcp.Message.{to_bytes}
use v_epc_cups.Pfcp.Values.{Volume}
use v_epc_cups.Sxcups.Session.{Session, apply}
use v_epc_cups.Sxcups.Store.{find}
use v_epc_cups.Sxcups.Reporting.{build_report_request}
use v_epc_cups.Core.Upf.State.{Peer, Upf, next_seq}
use v_epc_cups.Core.Upf.NodeProcedures.{Send}

-- What `forward` leaves and returns: the actions and the bytes, or a raise of `apply`.
abbrev pub forwarded :
    Upf → Option ℕ → Result (Session × (List String × ℕ)) → Upf × Result (List String × ℕ)
forwarded u key (err e) = (u, err e)
forwarded u key (ok (s, out)) = (record u { store = put key s u.store }, ok out)

abbrev pub forward_in :
    Upf → Option ℕ → Bytes → String → Option Session → Upf × Result (List String × ℕ)
forward_in u key payload direction none = (u, ok ("DROP" ∷ [], 0))
forward_in u key payload direction (some s) = forwarded u key (apply s payload direction)

unfoldable pub forward : Upf → ℕ → Bytes → String → Upf × Result (List String × ℕ)
forward u seid payload direction =
    forward_in u (some seid) payload direction (find u.store (some seid))

-- next(iter(self.peers.values())), if there is one
abbrev pub first_peer : Dict Ip Peer → Option Peer
first_peer [] = none
first_peer ((ip, peer) ∷ peers) = some peer

abbrev pub or_first : Dict Ip Peer → Option Peer → Option Peer
or_first peers none = first_peer peers
or_first peers (some peer) = some peer

-- self.peers.get(s.up_fseid[1] if s else None)
abbrev pub peer_of : Dict Ip Peer → Option Session → Option Peer
peer_of peers none = none
peer_of peers (some s) = get s.up_fseid.1 peers

unfoldable pub report_peer : Upf → ℕ → Option Peer
report_peer u seid = or_first u.peers (peer_of u.peers (find u.store (some seid)))

-- `peer.ip` raises where there is no peer at all.
abbrev pub send_to : Option Peer → Bytes → Result Send
send_to none bytes = err attribute_error
send_to (some peer) bytes = ok (record { payload = bytes; ip = peer.ip; port = peer.port })

unfoldable pub report :
    Upf → (seid triggers : ℕ) → Option ℕ → Option Volume → Option ℕ → Upf × Result Send
report u seid triggers urr_id volume pdr_id = (
  next_seq u,
  (do
    m ← build_report_request seid (next_seq u).seq triggers urr_id volume pdr_id
    send_to (report_peer u seid) (to_bytes m)),
)
