-- ===== src/Core/Sgwc/Replies.antt =====
-- core/epc_sgw_c.py: the messages of the SGW-C, as the PGW-C and the MME read them.
use v_epc_cups.Prelude.{ℕ, ◌+◌, ◌^◌, ◌<◌, ◌≡◌, refl, ap, ◌∙◌, none, some, [], ◌∷◌, length, arith}
use v_epc_cups.Prelude.Results.{Result, ok, ◌>>=◌}
use v_epc_cups.Bytes.{Bytes, Ip, u8, u16, u32, inet_aton, u32-be_value}
use v_epc_cups.Tlv.Framing.{length-tlv_bytes}
use v_epc_cups.GtpC
use v_epc_cups.GtpC.{Message}
use v_epc_cups.GtpC.Bearer.{Bearer as Kids, f_teid_value, decode_bearer_context}
use v_epc_cups.GtpC.BearerRoundTrip.{Arguments, bearer_round_trip}
use v_epc_cups.GtpC.RoundTrip.{IsWire, sent_message}
use v_epc_cups.GtpC.Values.{
  create_session_request, create_session_response, iface_s1u_sgw, iface_s5_s8_sgw, ambr_value,
  paa_value, decode_paa,
}
use v_epc_cups.Diameter.Text.{IsText}
use v_epc_cups.Core.Epc.{new_message, text_or, imsi_in, ebi_in, ebi_of, number_or, f_teid_in}
use v_epc_cups.Core.Mme.State.{Bearer}
use v_epc_cups.Core.Mme.S11.{create_result, read_bearer}
use v_epc_cups.Core.Sgwc.State.{Sgwc}
use v_epc_cups.Core.Sgwc.Messages.{Opened, s5_ies, s5_request, created_ies, created_answer}

-- A text that is not empty.
abbrev pub IsName : Bytes → Type 0
IsName [] = ⊥
IsName (b ∷ v) = IsText (b ∷ v)

pub text_or-IsName : (default v : Bytes) → IsName v → text_or default (some v) ≡ v
text_or-IsName default [] h = absurd h
text_or-IsName default (b ∷ v) h = h

ebi_of-context :
    (v : Bytes) (kids : Kids)
    → decode_bearer_context v ≡ ok kids
    → ebi_of (some v) ≡ ok (number_or 5 kids.ebi)
unfolding decode_bearer_context
ebi_of-context [] kids h = ap (λ (r : Result Kids). r >>= λ k. ok (number_or 5 k.ebi)) h
ebi_of-context (b ∷ v) kids h = ap (λ (r : Result Kids). r >>= λ k. ok (number_or 5 k.ebi)) h

-- The numbers of a request to the PGW-C fit their fields.
pub record FitsRequest (sgw : Sgwc) (seq : ℕ) (imsi apn : Bytes) (ebi : ℕ) : Type 0 where
  pub seq_fits : seq < 2 ^ 24
  pub imsi_name : IsName imsi
  pub names_short : length imsi + length apn < 65000
  pub teid_fits : sgw.s5u < 2 ^ 32
  pub address_fits : sgw.sgw_u_ip < 2 ^ 32
  pub ebi_fits : ebi < 2 ^ 8

module _ (sgw : Sgwc) (seq : ℕ) (imsi apn : Bytes) (ebi : ℕ)
    (h : FitsRequest sgw seq imsi apn ebi) where
  abbrev arguments : Arguments
  arguments = record { ebi = ebi; f_teid = none; cause = none; charging_id = none }

  abbrev context : Bytes
  context = (bearer_round_trip arguments (h.ebi_fits, tt, tt, tt)).0

  abbrev pub request : Message
  unfolding f_teid_value u8
  request = new_message create_session_request seq (s5_ies sgw sgw.s5u imsi apn context)

  request-IsWire : IsWire request
  unfolding request f_teid_value inet_aton u8 u16 u32
  request-IsWire =
      let short = (bearer_round_trip arguments (h.ebi_fits, tt, tt, tt)).2 in
      let long = h.names_short in
      record {
        type_fits = omega arith;
        teid_fits = omega arith;
        teid_sent = λ _. refl;
        seq_fits = h.seq_fits;
        ies_fit = omega arith;
        body_fits = omega (arith, length-tlv_bytes (s5_ies sgw sgw.s5u imsi apn context));
      }

  imsi_in-request : imsi_in request ≡ imsi
  unfolding imsi_in request GtpC.get
  imsi_in-request = text_or-IsName _ imsi h.imsi_name

  f_teid_in-request :
      (from : Ip)
      → f_teid_in from request
        ≡ ok (record { teid = sgw.s5u; ip = some sgw.sgw_u_ip; iface = iface_s5_s8_sgw })
  unfolding f_teid_in request f_teid_value
  f_teid_in-request from =
      rw (u32-be_value sgw.s5u h.teid_fits, u32-be_value sgw.sgw_u_ip h.address_fits) refl

  ebi_in-request : ebi_in request ≡ ok ebi
  unfolding ebi_in request
  ebi_in-request = ebi_of-context context _ (bearer_round_trip arguments (h.ebi_fits, tt, tt, tt)).3

  -- The request is built and read back, with the IMSI, the bearer's number and the tunnel of the SGW-U.
  pub s5_request-read :
      (bytes : Bytes) × (m : Message) × (s5_request sgw seq imsi apn ebi ≡ ok bytes)
      × (GtpC.from_bytes bytes ≡ ok m)
      × (m.msg_type ≡ create_session_request)
      × (m.seq ≡ seq)
      × (imsi_in m ≡ imsi)
      × (ebi_in m ≡ ok ebi)
      × ((from : Ip)
          → f_teid_in from m
            ≡ ok (record { teid = sgw.s5u; ip = some sgw.sgw_u_ip; iface = iface_s5_s8_sgw }))
  unfolding s5_request request
  s5_request-read =
      let r = sent_message request request-IsWire in
      let built = (bearer_round_trip arguments (h.ebi_fits, tt, tt, tt)).1 in
      (
        r.0,
        request,
        ap
              (λ (x : Result Bytes). x >>= λ context.
                GtpC.to_bytes
                  (new_message create_session_request seq (s5_ies sgw sgw.s5u imsi apn context)))
              built
            ∙ r.1,
        r.2,
        refl,
        refl,
        imsi_in-request,
        ebi_in-request,
        f_teid_in-request,
      )

-- The numbers of an answer to the MME fit their fields.
pub record FitsAnswer (sgw : Sgwc) (seq : ℕ) (s : Opened) (ue_ip : Ip) (ambr : ℕ × ℕ) : Type 0 where
  pub seq_fits : seq < 2 ^ 24
  pub imsi_short : length s.imsi < 65000
  pub teid_fits : s.s1u < 2 ^ 32
  pub address_fits : sgw.sgw_u_ip < 2 ^ 32
  pub ue_fits : ue_ip < 2 ^ 32
  pub ebi_fits : s.ebi < 2 ^ 8
  pub rates_fit : (ambr.0 < 2 ^ 32) × (ambr.1 < 2 ^ 32)

module _ (sgw : Sgwc) (seq : ℕ) (s : Opened) (ue_ip : Ip) (ambr : ℕ × ℕ)
    (h : FitsAnswer sgw seq s ue_ip ambr) where
  abbrev given : Arguments
  given = record {
    ebi = s.ebi;
    f_teid = some (s.s1u, sgw.sgw_u_ip, iface_s1u_sgw);
    cause = some 16;
    charging_id = none;
  }

  given_fit :
      (s.ebi < 2 ^ 8) × ((s.s1u < 2 ^ 32) × (sgw.sgw_u_ip < 2 ^ 32)) × (16 < 2 ^ 8) × Unit {0}
  given_fit = (h.ebi_fits, (h.teid_fits, h.address_fits), omega arith, tt)

  abbrev tunnel_context : Bytes
  tunnel_context = (bearer_round_trip given given_fit).0

  abbrev response : Message
  unfolding f_teid_value paa_value ambr_value u8
  response = new_message create_session_response seq (created_ies sgw s ue_ip ambr tunnel_context)

  response-IsWire : IsWire response
  unfolding response f_teid_value paa_value ambr_value inet_aton u8 u16 u32
  response-IsWire =
      let short = (bearer_round_trip given given_fit).2 in
      let long = h.imsi_short in
      record {
        type_fits = omega arith;
        teid_fits = omega arith;
        teid_sent = λ _. refl;
        seq_fits = h.seq_fits;
        ies_fit = omega arith;
        body_fits = omega (arith, length-tlv_bytes (created_ies sgw s ue_ip ambr tunnel_context));
      }

  -- What the MME keeps of it.
  abbrev pub served_bearer : ℕ → Bearer
  served_bearer ebi = record {
    sgw_s1u_teid = some s.s1u;
    sgw_s1u_ip = sgw.sgw_u_ip;
    ue_ip = some ue_ip;
    ambr = ambr;
    ebi = ebi;
  }

  read_bearer-response : (ebi : ℕ) → read_bearer ebi response ≡ ok (served_bearer ebi)
  unfolding read_bearer response paa_value decode_paa f_teid_value ambr_value u8
  read_bearer-response ebi =
      rw
        (
          u32-be_value s.s1u h.teid_fits,
          u32-be_value sgw.sgw_u_ip h.address_fits,
          u32-be_value ue_ip h.ue_fits,
          u32-be_value ambr.0 h.rates_fit.0,
          u32-be_value ambr.1 h.rates_fit.1,
        )
        refl

  -- The answer is built, and the MME reads the tunnel of the SGW-U, the UE's address and the rates.
  pub created_answer-bearer :
      (bytes : Bytes) × (created_answer sgw seq s ue_ip ambr ≡ ok bytes)
      × ((ebi : ℕ) → create_result ebi (some bytes) ≡ ok (some (served_bearer ebi)))
  unfolding created_answer create_result
  created_answer-bearer =
      let r = sent_message response response-IsWire in
      let built = (bearer_round_trip given given_fit).1 in
      (
        r.0,
        ap
              (λ (x : Result Bytes). x >>= λ context.
                GtpC.to_bytes
                  (new_message create_session_response seq (created_ies sgw s ue_ip ambr context)))
              built
            ∙ r.1,
        λ ebi.
            rw (r.2)
              (ap (λ (x : Result Bearer). x >>= λ b. ok (some b)) (read_bearer-response ebi)),
      )
