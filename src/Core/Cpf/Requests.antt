-- ===== src/Core/Cpf/Requests.antt =====
-- `_send` and `_request` of core/cpf.py: a request, the wait, and the response.
use v_epc_cups.Prelude.{ℕ, Bool, Option, none, some, List, [], ◌∷◌}
use v_epc_cups.Prelude.Results.{Result, ok, err, type_error, attribute_error}
use v_epc_cups.Prelude.Classes.{nat_eq}
use v_epc_cups.Prelude.Dict.{get, put, pop}
use v_epc_cups.Bytes.{Bytes, Ip}
use v_epc_cups.Pfcp.Message.{Message, to_bytes}
use v_epc_cups.Core.Cpf.State.{Cpf, next_seq}
use v_epc_cups.Core.Cpf.Dispatch.{handle}

-- The message and the peer that a procedure hands to `_request`: the SEID and the peer may be None.
pub record Request : Type 0 where
  pub msg_type : ℕ
  pub seid : Option ℕ
  pub ies : List (ℕ × Bytes)
  pub has_seid : Bool
  pub peer : Option Ip

-- A datagram that arrives: its time, its sender and its bytes.
pub record Arrival : Type 0 where
  pub now : ℕ
  pub from : Ip
  pub bytes : Bytes

pub record Send : Type 0 where
  pub payload : Bytes
  pub ip : Ip
  pub port : ℕ

-- The receiving thread, over the datagrams that arrive. What `handle` returns, the server sends back.
unfoldable pub arrive : Cpf → List Arrival → Cpf
unfolding handle
arrive c [] = c
arrive c (a ∷ arrivals) = arrive (handle c a.now a.from a.bytes).0 arrivals

-- m.to_bytes(), where a SEID that is None raises if it is to be written.
abbrev pub request_bytes : Request → ℕ → Option ℕ → Result Bytes
request_bytes r seq (some seid) = ok (
    to_bytes (record {
      msg_type = r.msg_type;
      seid = seid;
      seq = seq;
      ies = r.ies;
      has_seid = r.has_seid;
    }))
request_bytes r seq none = err type_error

-- (peer.ip, peer.port), where the peer may be None.
abbrev pub addressed : Option Ip → Result Bytes → Result Send
addressed peer (err e) = err e
addressed none (ok bytes) = err attribute_error
addressed (some ip) (ok bytes) = ok (record { payload = bytes; ip = ip; port = 8805 })

-- The datagram of a request with this sequence number.
unfoldable pub outgoing : Request → ℕ → Result Send
outgoing r seq = addressed r.peer (request_bytes r seq r.seid)

-- _, resp = self.pending.pop(m.seq, [None, None])
abbrev pub response_in : Option (Option Message) → Option Message
response_in none = none
response_in (some slot) = slot

-- The slot is there while the request waits.
unfoldable pub waiting : Cpf → Cpf
unfolding next_seq put
waiting c = let c' = next_seq c in record c' { pending = put c'.seq none c'.pending }

abbrev pub wait : Cpf → ℕ → List Arrival → Result Send → Cpf × Result (Option Message)
wait c seq arrivals (err e) = (c, err e)
wait c seq arrivals (ok s) =
    let c' = arrive c arrivals in
    (record c' { pending = pop seq c'.pending }, ok (response_in (get seq c'.pending)))

-- `arrivals` are the datagrams that the receiving thread handles before the wait ends, by its
-- response or after three seconds. The type that is expected is only compared for the log.
unfoldable pub request : Cpf → Request → List Arrival → Cpf × Result (Option Message)
unfolding waiting outgoing arrive
request c r arrivals = wait (waiting c) (waiting c).seq arrivals (outgoing r (waiting c).seq)
