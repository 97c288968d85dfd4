-- ===== src/Core/Epc/Path.antt =====
-- core/enb.py, core/mme.py and core/epc_sgw_c.py: the downlink path of a bearer.
use v_epc_cups.Prelude.{ℕ, ◌<◌, ◌≡◌, ap, ◌∙◌, true, Option, none, some, List, [], ◌∷◌, length}
use v_epc_cups.Prelude.Results.{Result, ok}
use v_epc_cups.Prelude.Classes.{nat_eq, bytes_eq}
use v_epc_cups.Prelude.Dict.{get}
use v_epc_cups.Bytes.{Bytes, u32-be_value}
use v_epc_cups.S1ap
use v_epc_cups.S1ap.{Erab}
use v_epc_cups.S1ap.Values.{
  initial_context_setup_response, ie_enb_ue_s1ap_id, ie_nas_pdu, ie_e_rab_setup_list,
}
use v_epc_cups.Core.Datagrams.{Address, Datagram}
use v_epc_cups.Core.Cpf.Requests.{Arrival}
use v_epc_cups.Core.Enb.{Enb, or_else, on_setup}
use v_epc_cups.Core.Enb.{or_empty as enb_or_empty}
use v_epc_cups.Core.Enb.Setup.{IsReady, served, own_erab, to_the_ue, on_setup-served}
use v_epc_cups.Core.Mme.State.{Mme, Outcome, quiet, then_send, Context as MmeContext}
use v_epc_cups.Core.Mme.S11.{modify_request}
use v_epc_cups.Core.Mme.Handlers.{
  modify, setup_in, on_ctx_setup_resp, enb_id_of, or_empty, sgwc_address, to_address, dispatch,
  received, on_s1ap,
}
use v_epc_cups.Core.Epc.{route_command}
use v_epc_cups.Core.Epc.Downlink.{routed, handle_s11-routed}
use v_epc_cups.Core.Sgwc.State.{Sgwc, Context as SgwContext}
use v_epc_cups.Core.Sgwc.Replies.{IsName}
use v_epc_cups.Core.Sgwc.{ctl, handle_s11}

-- What the MME leaves behind with one request to the SGW-C.
abbrev pub modified : Mme → Address → Bytes → Outcome
modified mme addr req = record {
  mme = record mme { enb_addr = some addr };
  sent = record { payload = req; to = sgwc_address mme } ∷ [];
  ended = some (ok tt);
}

modify-sent :
    (mme : Mme) (imsi : Bytes) (e : Erab) (erabs : List Erab) (req : Bytes)
    → IsName imsi
    → modify_request imsi e.teid ≡ ok req
    → modify mme imsi (e ∷ erabs) ≡ record {
      mme = mme;
      sent = record { payload = req; to = sgwc_address mme } ∷ [];
      ended = some (ok tt);
    }
modify-sent mme [] e erabs req name h = absurd name
modify-sent mme (b ∷ imsi) e erabs req name h =
    ap (λ (r : Result Bytes). then_send (to_address (sgwc_address mme) r) (quiet mme)) h

-- The MME's part: a setup response makes it ask for a modification with the tunnel of the response.
on_s1ap-modified :
    (ask_hss ask_sgw : Bytes → Option Bytes) (mme : Mme) (addr : Address) (bytes req : Bytes)
    (m : S1ap.Message) (n : ℕ) (c : MmeContext) (e : Erab) (erabs : List Erab)
    → S1ap.from_bytes bytes ≡ ok m
    → m.msg_id ≡ initial_context_setup_response
    → enb_id_of (S1ap.get m ie_enb_ue_s1ap_id) ≡ n
    → get n mme.ctx ≡ some c
    → S1ap.decode_erab_list (or_empty (S1ap.get m ie_e_rab_setup_list)) ≡ e ∷ erabs
    → IsName c.imsi
    → modify_request c.imsi e.teid ≡ ok req
    → on_s1ap ask_hss ask_sgw mme bytes addr ≡ modified mme addr req
unfolding on_s1ap dispatch on_ctx_setup_resp S1ap.get
on_s1ap-modified ask_hss ask_sgw mme addr bytes req m n c e erabs hb ht hn hc he name hr =
    let mme' : Mme = record mme { enb_addr = some addr } in
    ap (λ (r : Result S1ap.Message). received ask_hss ask_sgw mme' r) hb
    ∙ rw (ht) (
        ap (λ (i : ℕ). on_ctx_setup_resp mme' i m) hn
        ∙ (ap (λ (o : Option MmeContext). setup_in mme' m o) hc
            ∙ (ap (λ (l : List Erab). modify mme' c.imsi l) he
                ∙ modify-sent mme' c.imsi e erabs req name hr)))

-- A context setup with a bearer and a NAS message at an eNodeB whose numbers fit, where the MME has a
-- context under the eNodeB's number of the UE and the SGW-C one of its IMSI, which is a text of 1 to
-- 64999 bytes: the datagram that the eNodeB sends last goes to the address of the MME and its S1AP port
-- and makes the MME send one request to the SGW-C, and that makes the SGW-C keep the eNodeB's tunnel
-- and tell its relay to send what comes for its tunnel of S5-U into it. The eNodeB has a route from
-- that tunnel to the UE.
pub on_setup-routed :
    (ask_hss ask_sgw ask_pgw : Bytes → Option Bytes) (before during : List Arrival) (enb : Enb)
    (msg : S1ap.Message) (e : Erab) (erabs : List Erab) (b : ℕ) (pdu : Bytes) (mme : Mme)
    (addr : Address) (c : MmeContext) (sgw : Sgwc) (s : SgwContext)
    → S1ap.decode_erab_list (enb_or_empty (S1ap.get msg ie_e_rab_setup_list)) ≡ e ∷ erabs
    → S1ap.get msg ie_nas_pdu ≡ some (b ∷ pdu)
    → IsReady (served enb e)
    → get (or_else 7 enb.enb_ue_id) mme.ctx ≡ some c
    → IsName c.imsi
    → length c.imsi < 65000
    → get c.imsi sgw.ctx ≡ some s
    → (d : Datagram) × (req : Bytes) × (reply : Bytes) × (on_setup enb msg
        ≡ (served enb e, to_the_ue enb (b ∷ pdu) ∷ d ∷ [], ok tt))
      × (on_s1ap ask_hss ask_sgw mme d.payload addr ≡ modified mme addr req)
      × (handle_s11 ask_pgw before during req sgw ≡ (
        routed sgw c.imsi s enb.dl_teid,
        ctl (route_command s.s5u sgw.enb_ip 2152 (some enb.dl_teid)) ∷ [],
        some (ok (some reply)),
      ))
      × (get enb.dl_teid (served enb e).node.routes
          ≡ some (record { egress = true; ip = enb.ue_ip; port = 36423; teid = none }))
      × (d.to ≡ record { ip = enb.mme_ip; port = 36412 })
on_setup-routed ask_hss ask_sgw ask_pgw before during enb msg e erabs b pdu mme addr c sgw s he hp
      hr hm name short hs =
    let o = on_setup-served enb msg e erabs b pdu he hp hr in
    let r = handle_s11-routed ask_pgw before during sgw c.imsi enb.dl_teid s name short hr.0.1 hs in
    (
      o.0,
      r.0,
      r.1,
      o.3,
      on_s1ap-modified ask_hss ask_sgw mme addr o.0.payload r.0 o.1 (or_else 7 enb.enb_ue_id) c
          (own_erab (served enb e)) [] o.5 o.8
          (ap enb_id_of o.9 ∙ u32-be_value (or_else 7 enb.enb_ue_id) hr.1) hm
          (ap (λ (v : Option Bytes). S1ap.decode_erab_list (or_empty v)) o.6 ∙ o.7) name r.3,
      r.4,
      o.4,
      o.10,
    )
