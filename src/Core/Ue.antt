-- ===== src/Core/Ue.antt =====
-- core/ue.py: the user equipment, with its attach state machine.
pub mod Attach
use v_epc_cups.Prelude.{
  ℕ, ◌+◌, ◌*◌, ◌^◌, Bool, true, false, Option, none, some, List, [], ◌∷◌, ◌++◌, take, nat_beq,
  if◌then◌else◌,
}
use v_epc_cups.Prelude.Results.{Result, ok, err, type_error, ◌>>=◌, need}
use v_epc_cups.Bytes.{Bytes, Ip}
use v_epc_cups.Nas
use v_epc_cups.Nas.{Message}
use v_epc_cups.Nas.Values.{
  attach_request, attach_accept, attach_complete, attach_reject, detach_request, detach_accept,
  auth_request, auth_response, security_mode_command, security_mode_complete, ie_imsi, ie_apn,
  ie_pdn_type, ie_ebi, ie_rand, ie_res, ie_attach_type, ie_ue_ip, imsi_value, byte_value,
  decode_ue_ip,
}
use v_epc_cups.Diameter.Text.{literal}
use v_epc_cups.Core.Datagrams.{Address, Datagram}

-- The texts of `state`.
pub data State : Type 0 where
  idle attach_sent attached rejected detach_sent detached : State

-- `imsi` and `apn` are texts, the IMSI an ASCII one. `done` tells whether the event is set.
pub record Ue : Type 0 where
  pub imsi : Bytes
  pub apn : Bytes
  pub enb_ip : Ip
  pub state : State
  pub assigned_ip : Option Ip
  pub ebi : Option ℕ
  pub enb_addr : Option Address
  pub rx_data : List Bytes
  pub done : Bool

unfoldable pub new_ue : Bytes → Bytes → Ip → Ue
new_ue imsi apn enb_ip = record {
  imsi = imsi;
  apn = apn;
  enb_ip = enb_ip;
  state = State.idle;
  assigned_ip = none;
  ebi = none;
  enb_addr = none;
  rx_data = [];
  done = false;
}

abbrev pub uu_nas : ℕ
uu_nas = 36422

abbrev pub uu_data : ℕ
uu_data = 36423

unfoldable pub send_nas : Message → Address → Result Datagram
unfolding Nas.to_bytes
send_nas m addr = Nas.to_bytes m >>= λ bytes. ok (record { payload = bytes; to = addr })

-- Python evaluates the IEs in this order.
unfoldable pub attach_message : Ue → Result Message
unfolding imsi_value byte_value
attach_message ue = do
  imsi ← imsi_value ue.imsi
  pdn_type ← byte_value 1
  attach_type ← byte_value 1
  ok (record {
    msg_type = attach_request;
    ies =
        (ie_imsi, imsi)
        ∷ (ie_apn, ue.apn)
        ∷ (ie_pdn_type, pdn_type)
        ∷ (ie_attach_type, attach_type)
        ∷ [];
  })

-- The state is set first, whatever becomes of the message.
unfoldable pub attach : Ue → Ue × Result Datagram
unfolding attach_message send_nas
attach ue = (
  record ue { state = State.attach_sent },
  attach_message ue >>= λ m. send_nas m (record { ip = ue.enb_ip; port = uu_nas }),
)

unfoldable pub detach_bytes : Ue → Result Datagram
unfolding imsi_value send_nas
detach_bytes ue = do
  imsi ← imsi_value ue.imsi
  send_nas (record { msg_type = detach_request; ies = (ie_imsi, imsi) ∷ [] })
      (record { ip = ue.enb_ip; port = uu_nas })

abbrev pub detached_as : Ue → Result Datagram → Ue × Result Datagram
detached_as ue (err e) = (ue, err e)
detached_as ue (ok d) = (record ue { state = State.detach_sent }, ok d)

-- The state is set when the message is sent.
unfoldable pub detach : Ue → Ue × Result Datagram
unfolding detach_bytes
detach ue = detached_as ue (detach_bytes ue)

unfoldable pub send_ul : Ue → Bytes → Datagram
send_ul ue payload = record { payload = payload; to = record { ip = ue.enb_ip; port = uu_data } }

-- hashlib.sha256(bytes).digest() is not code of the program.
unfoldable pub res : (Bytes → Bytes) → Bytes → Bytes → Bytes
res sha256 imsi rand =
    let k = take 16 (sha256 (literal "K|" ++ imsi)) in
    take 8 (sha256 (k ++ (rand ++ literal "XRES")))

-- nas.decode_ue_ip(ip) if ip else None, and ebi[0] if ebi else 5
abbrev ip_of : Option Bytes → Option Ip
ip_of none = none
ip_of (some v) = decode_ue_ip v

abbrev ebi_of : Option Bytes → ℕ
ebi_of none = 5
ebi_of (some []) = 5
ebi_of (some (b ∷ v)) = b

-- A message without IEs, as an answer.
abbrev bare : ℕ → Message
bare t = record { msg_type = t; ies = [] }

-- What `on_nas` sends; a log line takes the place of a message.
abbrev sends : Result Datagram → Result (List Datagram)
sends r = r >>= λ d. ok (d ∷ [])

unfoldable pub authenticate : (Bytes → Bytes) → Ue → Message → Address → Result (List Datagram)
unfolding res send_nas
authenticate sha256 ue m addr = do
  rand ← need type_error (Nas.get m ie_rand)
  sends (
      send_nas (record { msg_type = auth_response; ies = (ie_res, res sha256 ue.imsi rand) ∷ [] })
        addr)

unfoldable pub accept : Ue → Message → Ue
unfolding decode_ue_ip
accept ue m = record ue {
  assigned_ip = ip_of (Nas.get m ie_ue_ip);
  ebi = some (ebi_of (Nas.get m ie_ebi));
  state = State.attached;
}

-- `done` is set after the sending.
abbrev set_done : Ue × Result (List Datagram) → Ue × Result (List Datagram)
set_done (ue, err e) = (ue, err e)
set_done (ue, ok ds) = (record ue { done = true }, ok ds)

unfoldable pub receive : (Bytes → Bytes) → Ue → Message → Address → Ue × Result (List Datagram)
unfolding authenticate send_nas accept
receive sha256 ue m addr =
    if nat_beq m.msg_type auth_request
    then (ue, authenticate sha256 ue m addr)
    else if nat_beq m.msg_type security_mode_command
    then (ue, sends (send_nas (bare security_mode_complete) addr))
    else if nat_beq m.msg_type attach_accept
    then set_done (accept ue m, sends (send_nas (bare attach_complete) addr))
    else if nat_beq m.msg_type attach_reject
    then (record ue { state = State.rejected; done = true }, ok [])
    else if nat_beq m.msg_type detach_accept
    then (record ue { state = State.detached }, ok [])
    else (ue, ok [])

abbrev pub read_nas : (Bytes → Bytes) → Ue → Address → Result Message → Ue × Result (List Datagram)
read_nas sha256 ue addr (err e) = (ue, ok [])
read_nas sha256 ue addr (ok m) = receive sha256 ue m addr

-- The equipment after the datagram, and what it sends. An error of the reader is caught.
unfoldable pub on_nas : (Bytes → Bytes) → Ue → Bytes → Address → Ue × Result (List Datagram)
unfolding Nas.from_bytes receive
on_nas sha256 ue bytes addr =
    read_nas sha256 (record ue { enb_addr = some addr }) addr (Nas.from_bytes bytes)

unfoldable pub on_data : Ue → Bytes → Ue
on_data ue bytes = record ue { rx_data = ue.rx_data ++ bytes ∷ [] }
