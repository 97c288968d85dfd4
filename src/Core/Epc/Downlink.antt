-- ===== src/Core/Epc/Downlink.antt =====
-- core/mme.py and core/epc_sgw_c.py: the Modify Bearer Request of the MME, and the downlink route that
-- the SGW-C makes of it.
use v_epc_cups.Prelude.{
  ℕ, ◌^◌, ◌<◌, ◌≡◌, refl, ap, ◌∙◌, Option, none, some, List, [], ◌∷◌, length, arith,
}
use v_epc_cups.Prelude.Results.{Result, ok, ◌>>=◌}
use v_epc_cups.Prelude.Classes.{bytes_eq}
use v_epc_cups.Prelude.Dict.{get, put}
use v_epc_cups.Bytes.{Bytes, u8, u16, u32, inet_aton}
use v_epc_cups.Tlv.Framing.{length-tlv_bytes}
use v_epc_cups.GtpC
use v_epc_cups.GtpC.{Message}
use v_epc_cups.GtpC.Bearer.{FTeid, Bearer, ie_cause, ie_f_teid, f_teid_value, decode_bearer_context}
use v_epc_cups.GtpC.BearerRoundTrip.{Arguments, bearer_round_trip, read_tunnel}
use v_epc_cups.GtpC.RoundTrip.{IsWire, sent_message}
use v_epc_cups.GtpC.Values.{
  modify_bearer_request, modify_bearer_response, ie_imsi, ie_bearer_context, iface_s1u_enb,
  iface_s1u_sgw,
}
use v_epc_cups.Core.Cpf.Requests.{Arrival}
use v_epc_cups.Core.Epc.{new_message, imsi_in, route_command}
use v_epc_cups.Core.Mme.S11.{enb_ip, modify_request}
use v_epc_cups.Core.Sgwc.State.{Sgwc, Context}
use v_epc_cups.Core.Sgwc.Messages.{
  context_tunnel, tunnel_or_else, enb_tunnel, modified_answer, s1u_tunnel,
}
use v_epc_cups.Core.Sgwc.Replies.{IsName, text_or-IsName}
use v_epc_cups.Core.Procedures.{◌>>◌, resume, behind, give}
use v_epc_cups.Core.Sgwc.{received, ctl, install, modify_in, answer, modify_bearer, handle_s11}

context_tunnel-kids :
    (v : Bytes) (kids : Bearer)
    → decode_bearer_context v ≡ ok kids
    → context_tunnel (some v) ≡ ok kids.f_teid
unfolding decode_bearer_context
context_tunnel-kids [] kids h = ap (λ (r : Result Bearer). r >>= λ k. ok k.f_teid) h
context_tunnel-kids (b ∷ v) kids h = ap (λ (r : Result Bearer). r >>= λ k. ok k.f_teid) h

module _ (imsi : Bytes) (teid : ℕ) (name : IsName imsi) (short : length imsi < 65000)
    (fits : teid < 2 ^ 32) where
  abbrev arguments : Arguments
  arguments = record {
    ebi = 5;
    f_teid = some (teid, enb_ip, iface_s1u_enb);
    cause = none;
    charging_id = none;
  }

  arguments_fit : (5 < 2 ^ 8) × ((teid < 2 ^ 32) × (enb_ip < 2 ^ 32)) × Unit {0} × Unit {0}
  arguments_fit = (omega arith, (fits, omega arith), tt, tt)

  abbrev context : Bytes
  context = (bearer_round_trip arguments arguments_fit).0

  abbrev request : Message
  request =
      new_message modify_bearer_request 2 ((ie_imsi, imsi) ∷ (ie_bearer_context, context) ∷ [])

  request-IsWire : IsWire request
  request-IsWire =
      let small = (bearer_round_trip arguments arguments_fit).2 in
      record {
        type_fits = omega arith;
        teid_fits = omega arith;
        teid_sent = λ _. refl;
        seq_fits = omega arith;
        ies_fit = omega arith;
        body_fits = omega (arith, length-tlv_bytes request.ies);
      }

  -- The bytes that the MME sends, and what the SGW-C reads of them.
  request-read :
      (bytes : Bytes) × (modify_request imsi teid ≡ ok bytes) × (GtpC.from_bytes bytes ≡ ok request)
  unfolding modify_request
  request-read =
      let r = sent_message request request-IsWire in
      let built = (bearer_round_trip arguments arguments_fit).1 in
      (
        r.0,
        ap
              (λ (x : Result Bytes). x >>= λ context. GtpC.to_bytes (
                new_message modify_bearer_request 2
                  ((ie_imsi, imsi) ∷ (ie_bearer_context, context) ∷ [])))
              built
            ∙ r.1,
        r.2,
      )

  imsi_in-request : imsi_in request ≡ imsi
  unfolding imsi_in GtpC.get
  imsi_in-request = text_or-IsName _ imsi name

  enb_tunnel-request : enb_tunnel request ≡ ok (some (read_tunnel (teid, enb_ip, iface_s1u_enb)))
  unfolding enb_tunnel
  enb_tunnel-request =
      ap (λ (r : Result (Option FTeid)). r >>= tunnel_or_else request)
        (context_tunnel-kids context _ (bearer_round_trip arguments arguments_fit).3)

-- The answer that accepts, with the tunnel of the SGW-U.
abbrev accepted : Sgwc → Context → Message
unfolding s1u_tunnel u8
accepted sgw c = new_message modify_bearer_response 2 ((ie_cause, u8 16) ∷ s1u_tunnel sgw c ∷ [])

accepted-IsWire : (sgw : Sgwc) (c : Context) → IsWire (accepted sgw c)
unfolding accepted s1u_tunnel f_teid_value inet_aton u8 u16 u32
accepted-IsWire sgw c = record {
  type_fits = omega arith;
  teid_fits = omega arith;
  teid_sent = λ _. refl;
  seq_fits = omega arith;
  ies_fit = omega arith;
  body_fits = omega (arith, length-tlv_bytes (accepted sgw c).ies);
}

-- The state with the eNodeB's TEID in the context of the IMSI.
abbrev pub routed : Sgwc → Bytes → Context → ℕ → Sgwc
routed sgw imsi c teid = record sgw { ctx = put imsi (record c { enb_dl = some teid }) sgw.ctx }

modify_bearer-routed :
    (ask_pgw : Bytes → Option Bytes) (before during : List Arrival) (sgw : Sgwc) (msg : Message)
    (c : Context) (f : FTeid) (bytes : Bytes)
    → get (imsi_in msg) sgw.ctx ≡ some c
    → enb_tunnel msg ≡ ok (some f)
    → modified_answer msg.seq (s1u_tunnel sgw c ∷ []) ≡ ok bytes
    → modify_bearer ask_pgw before during msg sgw ≡ (
      routed sgw (imsi_in msg) c f.teid,
      ctl (route_command c.s5u sgw.enb_ip 2152 (some f.teid)) ∷ [],
      some (ok (some bytes)),
    )
unfolding modify_bearer
modify_bearer-routed ask_pgw before during sgw msg c f bytes hc hf hb =
    ap (λ (o : Option Context). modify_in ask_pgw before during msg (imsi_in msg) o sgw) hc
    ∙ (ap
          (λ (r : Result (Option FTeid)).
            resume (sgw, [], some r)
              (λ f.
                install ask_pgw before during (imsi_in msg) c f
                >> (λ s. answer (modified_answer msg.seq (s1u_tunnel s c ∷ [])) s)))
          hf
        ∙ ap
            (λ (r : Result Bytes).
              behind (ctl (route_command c.s5u sgw.enb_ip 2152 (some f.teid)) ∷ [])
                (resume (routed sgw (imsi_in msg) c f.teid, [], some r) (λ b. give (some b))))
            hb)

-- The Modify Bearer Request of the MME with the eNodeB's TEID, which is below 2 ^ 32, for an IMSI that
-- is a text of 1 to 64999 bytes and whose context the SGW-C has: the request is built; the SGW-C keeps
-- the TEID in the context and changes nothing else, it tells the relay to send what comes for its
-- tunnel of S5-U into that of the eNodeB, and it answers that the request is accepted, with its tunnel
-- for S1-U.
pub handle_s11-routed :
    (ask_pgw : Bytes → Option Bytes) (before during : List Arrival) (sgw : Sgwc) (imsi : Bytes)
    (teid : ℕ) (c : Context)
    → IsName imsi
    → length imsi < 65000
    → teid < 2 ^ 32
    → get imsi sgw.ctx ≡ some c
    → (req : Bytes) × (reply : Bytes) × (m : Message) × (modify_request imsi teid ≡ ok req)
      × (handle_s11 ask_pgw before during req sgw ≡ (
        routed sgw imsi c teid,
        ctl (route_command c.s5u sgw.enb_ip 2152 (some teid)) ∷ [],
        some (ok (some reply)),
      ))
      × (GtpC.from_bytes reply ≡ ok m)
      × (m.msg_type ≡ modify_bearer_response)
      × (GtpC.get m ie_cause ≡ some (16 ∷ []))
      × (GtpC.get m ie_f_teid ≡ some (f_teid_value c.s1u sgw.sgw_u_ip iface_s1u_sgw))
unfolding handle_s11 accepted GtpC.get
handle_s11-routed ask_pgw before during sgw imsi teid c name short fits hc =
    let msg = request imsi teid name short fits in
    let r = request-read imsi teid name short fits in
    let same = imsi_in-request imsi teid name short fits in
    let answered = sent_message (accepted sgw c) (accepted-IsWire sgw c) in
    let done =
      modify_bearer-routed ask_pgw before during sgw msg c
        (read_tunnel (teid, enb_ip, iface_s1u_enb)) answered.0
        (ap (λ (i : Bytes). get i sgw.ctx) same ∙ hc) (enb_tunnel-request imsi teid name short fits)
        answered.1 in
    (
      r.0,
      answered.0,
      accepted sgw c,
      r.1,
      ap (λ (x : Result Message). received ask_pgw before during x sgw) r.2
          ∙ (done
              ∙ ap
                  (λ (i : Bytes). (
                    routed sgw i c teid,
                    ctl (route_command c.s5u sgw.enb_ip 2152 (some teid)) ∷ [],
                    some (ok (some answered.0)),
                  ))
                  same),
      answered.2,
      refl,
      refl,
      refl,
    )
