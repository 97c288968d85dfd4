-- ===== src/Core/Epc.antt =====
-- What core/epc_sgw_c.py and core/epc_pgw_c.py share: the reading of requests, the session on the user
-- plane, and the commands to its control socket.
pub mod Challenge
pub mod Tunnels
pub mod Downlink
pub mod Path
pub mod Policy
use v_epc_cups.Prelude.{
  ℕ, zero, suc, ◌+◌, ◌/◌, ◌%◌, ◌^◌, true, Option, none, some, List, [], ◌∷◌, ◌++◌, ltb,
  if◌then◌else◌,
}
use v_epc_cups.Prelude.Results.{Result, ok, err, type_error, attribute_error, ◌>>=◌}
use v_epc_cups.Prelude.Classes.{nat_eq, option_eq}
use v_epc_cups.Prelude.Dict.{get}
use v_epc_cups.Bytes.{Bytes, Ip}
use v_epc_cups.GtpC
use v_epc_cups.GtpC.{Message}
use v_epc_cups.GtpC.Bearer.{FTeid, ie_f_teid, decode_f_teid, decode_bearer_context}
use v_epc_cups.GtpC.Values.{ie_imsi, ie_apn, ie_bearer_context}
use v_epc_cups.Diameter.Text.{literal, decode_ignore}
use v_epc_cups.Sxcups.Session.{Session}
use v_epc_cups.Sxcups.Store.{new_seid}
use v_epc_cups.Core.Hss.{decimal}
use v_epc_cups.Core.Cpf.State.{Peer, Cpf}
use v_epc_cups.Core.Cpf.Requests.{Arrival}
use v_epc_cups.Core.Cpf.SessionProcedures.{Fteid, offering, session_establish}

-- One digit of "%X".
abbrev hex_digit : ℕ → ℕ
hex_digit d = if ltb d 10 then 48 + d else 55 + d

unfoldable pub hex_digits : (fuel n : ℕ) → Bytes → Bytes
hex_digits zero n acc = acc
hex_digits (suc fuel) n acc =
    let more = hex_digits fuel (n / 16) (hex_digit (n % 16) ∷ acc) in
    if ltb n 16 then hex_digit n ∷ acc else more

-- "0x%X" % n: each round takes a digit, and there are at most n + 1.
unfoldable pub hex : ℕ → Bytes
unfolding hex_digits
hex n = literal "0x" ++ hex_digits (suc n) n []

-- The text of an address.
unfoldable pub dotted : Ip → Bytes
unfolding decimal
dotted ip =
    decimal (ip / 2 ^ 24 % 256)
    ++ (literal "."
        ++ (decimal (ip / 2 ^ 16 % 256)
            ++ (literal "."
                ++ (decimal (ip / 2 ^ 8 % 256) ++ (literal "." ++ decimal (ip % 256))))))

-- `out` is the TEID of the next hop, none for "-".
abbrev out_text : Option ℕ → Bytes
out_text none = literal "-"
out_text (some out) = hex out

-- "ROUTE 0x%X %s %d 0x%X", or with "-" at the end.
unfoldable pub route_command : ℕ → Ip → ℕ → Option ℕ → Bytes
unfolding hex dotted decimal
route_command teid ip port out =
    literal "ROUTE "
    ++ (hex teid
        ++ (literal " "
            ++ (dotted ip ++ (literal " " ++ (decimal port ++ (literal " " ++ out_text out))))))

-- "SGI %s %d 0x%X"
unfoldable pub sgi_command : Ip → ℕ → ℕ → Bytes
unfolding hex dotted decimal
sgi_command ip port teid =
    literal "SGI " ++ (dotted ip ++ (literal " " ++ (decimal port ++ (literal " " ++ hex teid))))

-- decode(msg.get(ie)) if msg.get(ie) else default
abbrev pub text_or : Bytes → Option Bytes → Bytes
text_or default none = default
text_or default (some []) = default
text_or default (some (b ∷ v)) = decode_ignore 0 (b ∷ v)

unfoldable pub imsi_in : Message → Bytes
unfolding GtpC.get decode_ignore
imsi_in msg = text_or (literal "-") (GtpC.get msg ie_imsi)

unfoldable pub apn_in : Message → Bytes
unfolding GtpC.get decode_ignore
apn_in msg = text_or (literal "internet") (GtpC.get msg ie_apn)

-- decode_bearer_context(bc).get("ebi", 5)
abbrev pub number_or : ℕ → Option ℕ → ℕ
number_or default none = default
number_or default (some n) = n

abbrev pub ebi_of : Option Bytes → Result ℕ
unfolding decode_bearer_context
ebi_of none = ok 5
ebi_of (some []) = ok 5
ebi_of (some (b ∷ bc)) = do kids ← decode_bearer_context (b ∷ bc); ok (number_or 5 kids.ebi)

unfoldable pub ebi_in : Message → Result ℕ
unfolding GtpC.get decode_bearer_context
ebi_in msg = ebi_of (GtpC.get msg ie_bearer_context)

-- decode_f_teid(msg.get(IE_F_TEID)) if msg.get(IE_F_TEID) else (0, ip, 0)
abbrev pub f_teid_of : Ip → Option Bytes → Result FTeid
unfolding decode_f_teid
f_teid_of ip none = ok (record { teid = 0; ip = some ip; iface = 0 })
f_teid_of ip (some []) = ok (record { teid = 0; ip = some ip; iface = 0 })
f_teid_of ip (some (b ∷ v)) = decode_f_teid (b ∷ v)

unfoldable pub f_teid_in : Ip → Message → Result FTeid
unfolding GtpC.get decode_f_teid
f_teid_in ip msg = f_teid_of ip (GtpC.get msg ie_f_teid)

-- gtp_c.Message(msg_type, seq=seq, ies=ies)
abbrev pub new_message : ℕ → ℕ → List (ℕ × Bytes) → Message
new_message msg_type seq ies = record {
  msg_type = msg_type;
  teid = 0;
  seq = seq;
  has_teid = true;
  ies = ies;
}

-- s.pdrs[1].fteid if s.pdrs.get(1) and s.pdrs[1].fteid, and otherwise (0, ip). A TEID that is None
-- raises where it is formatted.
abbrev pub tunnel_or : Ip → Fteid → Result (ℕ × Ip)
tunnel_or ip none = ok (0, ip)
tunnel_or ip (some none) = err type_error
tunnel_or ip (some (some fteid)) = ok fteid

unfoldable pub uplink_tunnel : Ip → Session → Result (ℕ × Ip)
unfolding get
uplink_tunnel ip s = elim (get (some 1) s.pdrs) [
  | none ↦ ok (0, ip)
  | some pdr ↦ tunnel_or ip pdr.fteid
]

-- self.cpf.session_establish(self.cpf.peers.get(ip), ue_ip=ue_ip): the SEID is taken before the peer is
-- read, and the session is stored before an address that is None raises.
abbrev establish_at : Cpf → Option Peer → Option Ip → List Arrival → Cpf × Result (Option Session)
unfolding new_seid session_establish offering
establish_at c none ue_ip arrivals =
    (record c { session_seq = (new_seid c.base_seid c.session_seq).1 }, err attribute_error)
establish_at c (some peer) none arrivals =
    (offering c peer.ip "PDN" (new_seid c.base_seid c.session_seq).0, err type_error)
establish_at c (some peer) (some ue_ip) arrivals = session_establish c peer.ip "PDN" ue_ip arrivals

unfoldable pub establish : Cpf → Ip → Option Ip → List Arrival → Cpf × Result (Option Session)
unfolding get new_seid session_establish offering
establish c ip ue_ip arrivals = establish_at c (get ip c.peers) ue_ip arrivals
