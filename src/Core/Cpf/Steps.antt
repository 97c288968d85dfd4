-- ===== src/Core/Cpf/Steps.antt =====
-- What can happen to a CPF: the operations of core/cpf.py as steps, and the states they lead to.
use v_epc_cups.Prelude.{ℕ, String, List}
use v_epc_cups.Bytes.{Bytes, Ip}
use v_epc_cups.Sxcups.Rules.Pdr.{Pdr}
use v_epc_cups.Core.Cpf.State.{Cpf, add_peer}
use v_epc_cups.Core.Cpf.Dispatch.{handle}
use v_epc_cups.Core.Cpf.Requests.{Arrival}
use v_epc_cups.Core.Cpf.NodeProcedures.{
  association_setup, association_release, pfd_management, heartbeat_loop,
}
use v_epc_cups.Core.Cpf.SessionProcedures.{session_establish}
use v_epc_cups.Core.Cpf.SessionChanges.{session_modify, session_delete}

-- One operation, whatever it returns or raises.
pub data Step : Cpf → Cpf → Type 0 where
  configured : {c : Cpf} (ip : Ip) → Step c (add_peer c ip)
  received : {c : Cpf} (now : ℕ) (from : Ip) (bytes : Bytes) → Step c (handle c now from bytes).0
  beat : {c : Cpf} → Step c (heartbeat_loop c).0
  set_up :
      {c : Cpf} (peer : Ip) (arrivals : List Arrival) (now : ℕ)
      → Step c (association_setup c peer arrivals now).0
  released :
      {c : Cpf} (peer : Ip) (arrivals : List Arrival)
      → Step c (association_release c peer arrivals).0
  provisioned :
      {c : Cpf} (peer : Ip) (app_id : Bytes) (arrivals : List Arrival)
      → Step c (pfd_management c peer app_id arrivals).0
  established :
      {c : Cpf} (peer : Ip) (kind : String) (ue_ip : Ip) (arrivals : List Arrival)
      → Step c (session_establish c peer kind ue_ip arrivals).0
  modified :
      {c : Cpf} (seid : ℕ) (pdrs : List Pdr) (pids : List ℕ) (arrivals : List Arrival)
      → Step c (session_modify c seid pdrs pids arrivals).0
  deleted :
      {c : Cpf} (seid : ℕ) (arrivals : List Arrival) → Step c (session_delete c seid arrivals).0

pub data Reaches : Cpf → Cpf → Type 0 where
  here : {c : Cpf} → Reaches c c
  later : {c d e : Cpf} → Step c d → Reaches d e → Reaches c e
