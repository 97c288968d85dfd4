-- ===== src/Core/Cpf/SessionProcedures.antt =====
-- The Sx session procedures of core/cpf.py.
use v_epc_cups.Prelude.{
  ℕ, true, String, Option, none, some, List, [], ◌∷◌, ◌++◌, map, nat_beq, if◌then◌else◌,
}
use v_epc_cups.Prelude.Results.{Result, ok, err, type_error, ◌>>=◌}
use v_epc_cups.Prelude.Classes.{nat_eq, option_eq}
use v_epc_cups.Prelude.Dict.{put}
use v_epc_cups.Bytes.{Bytes, Ip, u32, inet_aton}
use v_epc_cups.Pfcp.Types
use v_epc_cups.Pfcp.Types.{named}
use v_epc_cups.Pfcp.Types.Ie
use v_epc_cups.Pfcp.Ies.{Ies, encode_ie, decode_ies_recursive, for_ies}
use v_epc_cups.Pfcp.Values.{ie_node_id, ie_fseid, decode_fseid, decode_ft_eid, pdr_id_of}
use v_epc_cups.Pfcp.Message
use v_epc_cups.Pfcp.Message.{Message, Item, encoded, normalise}
use v_epc_cups.Sxcups.Rules.Pdr
use v_epc_cups.Sxcups.Rules.Pdr.{Pdr}
use v_epc_cups.Sxcups.Rules.Far
use v_epc_cups.Sxcups.Rules.Far.{Far, new_far}
use v_epc_cups.Sxcups.Rules.Qer
use v_epc_cups.Sxcups.Rules.Qer.{new_qer}
use v_epc_cups.Sxcups.Rules.Urr
use v_epc_cups.Sxcups.Rules.Urr.{new_urr}
use v_epc_cups.Sxcups.Session.{Session, new_session, add_rules}
use v_epc_cups.Sxcups.Store.{Store, new_seid, find, delete}
use v_epc_cups.Core.Upf.SessionProcedures.{seid_part, ip_part}
use v_epc_cups.Core.Cpf.State.{Cpf}
use v_epc_cups.Core.Cpf.Requests.{Request, Arrival, request}
use v_epc_cups.Core.Cpf.NodeProcedures.{is_accepted}

-- An F-TEID is `none` while unset, `some none` for (None, None).
abbrev pub Fteid : Type 0
Fteid = Option (Option (ℕ × Ip))

unfoldable pub created_step : Option ℕ × Fteid → ℕ → Bytes → Ies → Option ℕ × Fteid
unfolding named for_ies
created_step (pid, fteid) t v children = (
  if named t "PDR ID" then pdr_id_of v else pid,
  for_ies
      (λ (found : Fteid) (ct : ℕ) (cv : Bytes) (_ : Ies).
        if named ct "F-TEID" then some (decode_ft_eid cv) else found)
      fteid children,
)

-- (pid, fteid) of a Created PDR
unfoldable pub created_pdr_info : Bytes → Option ℕ × Fteid
unfolding created_step for_ies decode_ies_recursive
created_pdr_info value = for_ies created_step (none, none) (decode_ies_recursive value)

-- The F-TEID of a Created PDR, if it is for the uplink rule, which has the id 1.
abbrev pub learned : Fteid → Option ℕ × Fteid → Fteid
learned known (some pid, some fteid) = if nat_beq pid 1 then some fteid else known
learned known _ = known

unfoldable pub learn_fteid : Fteid → List (ℕ × Bytes) → Fteid
unfolding created_pdr_info
learn_fteid known [] = known
learn_fteid known ((t, v) ∷ ies) =
    learn_fteid (if nat_beq t Ie.created_pdr then learned known (created_pdr_info v) else known) ies

-- PDR(id, source_interface=interface, urr_ids=[1], qer_ids=[1], far_id=id)
abbrev pub new_pdr : ℕ → String → Pdr
new_pdr id interface = record {
  pdr_id = some id;
  precedence = some 100;
  source_interface = some interface;
  fteid = none;
  network_instance = [];
  urr_ids = some 1 ∷ [];
  qer_ids = some 1 ∷ [];
  far_id = some id;
}

abbrev pub ul_pdr : Pdr
ul_pdr = new_pdr 1 "Access"

abbrev pub dl_pdr : Pdr
dl_pdr = new_pdr 2 "Core"

abbrev pub ul_far : Far
ul_far = new_far 1 ("FORWARD" ∷ []) "Core"

abbrev pub dl_far : Far
dl_far = new_far 2 ("FORWARD" ∷ []) "Access"

-- The new session with its rules, on the user plane `peer`.
unfoldable pub offered : Cpf → ℕ → Ip → String → Session
unfolding new_session add_rules new_qer new_urr new_far
offered c seid peer kind =
    add_rules (new_session (some seid) c.ip peer kind) (ul_pdr ∷ dl_pdr ∷ []) (ul_far ∷ dl_far ∷ [])
      (new_qer (some 1) ∷ []) (new_urr (some 1) (some 60) ∷ [])

unfoldable pub establishment_ies : Cpf → ℕ → Ip → Result (List Bytes)
unfolding new_far new_qer new_urr
establishment_ies c seid ue_ip = do
  ul_rule ← Pdr.to_pfcp ul_pdr
  ul_action ← Far.to_pfcp ul_far
  dl_rule ← Pdr.to_pfcp dl_pdr
  dl_action ← Far.to_pfcp dl_far
  qer ← Qer.to_pfcp (new_qer (some 1))
  urr ← Urr.to_pfcp (new_urr (some 1) (some 60))
  ok (
      ie_node_id c.ip
      ∷ ie_fseid seid c.ip
      ∷ encode_ie Ie.ue_ip_address (u32 0 ++ inet_aton ue_ip)
      ∷ ul_rule
      ∷ ul_action
      ∷ dl_rule
      ∷ dl_action
      ∷ qer
      ∷ urr
      ∷ [])

unfoldable pub establishment_request : List Bytes → Ip → Request
unfolding normalise
establishment_request ies peer = record {
  msg_type = Types.session_establishment_request;
  seid = some 0;
  ies = normalise (map encoded ies);
  has_seid = true;
  peer = some peer;
}

-- The session is an object: what is written to it is seen in the store as long as it stands there.
abbrev pub rewritten : Option ℕ → Session → Option Session → Store → Store
rewritten key s none store = store
rewritten key s (some old) store = put key s store

unfoldable pub write_session : Option ℕ → Session → Cpf → Cpf
unfolding find put
write_session key s c = record c { store = rewritten key s (find c.store key) c.store }

-- `s` after an answer that accepts it, with the UPF's F-SEID and the TEID of the uplink rule.
unfoldable pub accept : Session → Ip → Option (ℕ × Ip) → Message → Session
unfolding learn_fteid put
accept s peer fseid resp = record s {
  up_fseid = (seid_part fseid, ip_part peer fseid);
  pdrs = put (some 1) (record ul_pdr { fteid = learn_fteid none resp.ies }) s.pdrs;
}

-- The log line formats the SEID and the TEID as numbers, and raises where one is None.
abbrev pub logged : Session → Option ℕ → Fteid → Result (Option Session)
logged s none fteid = err type_error
logged s (some up_seid) (some none) = err type_error
logged s (some up_seid) fteid = ok (some s)

-- An answer that accepts, but has no F-SEID, raises.
abbrev pub finish : Cpf → ℕ → Session → Ip → Message → Option Bytes → Cpf × Result (Option Session)
finish c seid s peer resp none = (c, err type_error)
finish c seid s peer resp (some v) =
    let s' = accept s peer (decode_fseid v) resp in
    (
      write_session (some seid) s' c,
      logged s' (seid_part (decode_fseid v)) (learn_fteid none resp.ies),
    )

-- No answer, or one that does not accept: the session goes.
abbrev pub failed : Cpf → ℕ → Cpf × Result (Option Session)
failed c seid = (record c { store = (delete c.store (some seid)).1 }, ok none)

abbrev pub after_establish :
    ℕ → Session → Ip → Cpf × Result (Option Message) → Cpf × Result (Option Session)
after_establish seid s peer (c, err e) = (c, err e)
after_establish seid s peer (c, ok none) = failed c seid
after_establish seid s peer (c, ok (some resp)) =
    if is_accepted (Message.get resp Ie.cause)
    then finish c seid s peer resp (Message.get resp Ie.f_seid)
    else failed c seid

-- The state with the new session in the store.
unfoldable pub offering : Cpf → Ip → String → ℕ → Cpf
unfolding put offered new_seid
offering c peer kind seid = record c {
  session_seq = (new_seid c.base_seid c.session_seq).1;
  store = put (some seid) (offered c seid peer kind) c.store;
}

abbrev pub establish_with :
    Cpf → ℕ → Ip → String → List Arrival → Result (List Bytes) → Cpf × Result (Option Session)
establish_with c seid peer kind arrivals (err e) = (offering c peer kind seid, err e)
establish_with c seid peer kind arrivals (ok ies) =
    after_establish seid (offered c seid peer kind) peer
      (request (offering c peer kind seid) (establishment_request ies peer) arrivals)

unfoldable pub session_establish :
    Cpf → Ip → String → Ip → List Arrival → Cpf × Result (Option Session)
unfolding establishment_ies offering establishment_request request write_session accept delete
session_establish c peer kind ue_ip arrivals =
    let seid = (new_seid c.base_seid c.session_seq).0 in
    establish_with c seid peer kind arrivals (establishment_ies c seid ue_ip)
