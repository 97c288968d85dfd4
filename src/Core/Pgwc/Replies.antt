-- ===== src/Core/Pgwc/Replies.antt =====
-- core/epc_pgw_c.py: the answer to a Create Session Request, as the SGW-C reads it.
use v_epc_cups.Prelude.{ℕ, ◌+◌, ◌^◌, ◌<◌, ◌≡◌, refl, ap, ◌∙◌, some, length, arith}
use v_epc_cups.Prelude.Results.{Result, ok, ◌>>=◌}
use v_epc_cups.Prelude.Classes.{bytes_eq}
use v_epc_cups.Bytes.{Bytes, Ip, u8, u16, u32, inet_aton, u32-be_value}
use v_epc_cups.Tlv.Framing.{length-tlv_bytes}
use v_epc_cups.GtpC
use v_epc_cups.GtpC.{Message}
use v_epc_cups.GtpC.Bearer.{f_teid_value}
use v_epc_cups.GtpC.BearerRoundTrip.{Arguments, bearer_round_trip}
use v_epc_cups.GtpC.RoundTrip.{IsWire, sent_message}
use v_epc_cups.GtpC.Values.{
  create_session_response, iface_s5_s8_pgw, ambr_value, paa_value, decode_paa,
}
use v_epc_cups.Core.Pcrf.{Qos}
use v_epc_cups.Core.Epc.{new_message}
use v_epc_cups.Core.Sgwc.Messages.{read_offer, offer_in}
use v_epc_cups.Core.Pgwc.State.{Pgwc}
use v_epc_cups.Core.Pgwc.Messages.{Created, created_ies, created_answer}

-- The numbers of a session's answer fit their fields.
pub record Fits (pgw : Pgwc) (seq : ℕ) (s : Created) (ul dl : ℕ) : Type 0 where
  pub seq_fits : seq < 2 ^ 24
  pub imsi_short : length s.imsi < 65000
  pub teid_fits : s.pgw_teid < 2 ^ 32
  pub address_fits : pgw.pgw_u_ip < 2 ^ 32
  pub ue_fits : s.ue_ip < 2 ^ 32
  pub ebi_fits : s.ebi < 2 ^ 8
  pub rates_fit : (ul < 2 ^ 32) × (dl < 2 ^ 32)
  pub charging_fits : 0x2000 + pgw.ue_n < 2 ^ 32

module _ (pgw : Pgwc) (seq : ℕ) (s : Created) (ul dl : ℕ) (h : Fits pgw seq s ul dl) where
  abbrev arguments : Arguments
  arguments = record {
    ebi = s.ebi;
    f_teid = some (s.pgw_teid, pgw.pgw_u_ip, iface_s5_s8_pgw);
    cause = some 16;
    charging_id = some (0x2000 + pgw.ue_n);
  }

  arguments_fit :
      (s.ebi < 2 ^ 8)
      × ((s.pgw_teid < 2 ^ 32) × (pgw.pgw_u_ip < 2 ^ 32))
      × (16 < 2 ^ 8)
      × (0x2000 + pgw.ue_n < 2 ^ 32)
  arguments_fit = (h.ebi_fits, (h.teid_fits, h.address_fits), omega arith, h.charging_fits)

  abbrev context : Bytes
  context = (bearer_round_trip arguments arguments_fit).0

  abbrev response : Message
  unfolding f_teid_value paa_value ambr_value u8
  response = new_message create_session_response seq (created_ies pgw s ul dl context)

  response-IsWire : IsWire response
  unfolding response f_teid_value paa_value ambr_value inet_aton u8 u16 u32
  response-IsWire =
      let short = (bearer_round_trip arguments arguments_fit).2 in
      let long = h.imsi_short in
      record {
        type_fits = omega arith;
        teid_fits = omega arith;
        teid_sent = λ _. refl;
        seq_fits = h.seq_fits;
        ies_fit = omega arith;
        body_fits = omega (arith, length-tlv_bytes (created_ies pgw s ul dl context));
      }

  -- What the SGW-C reads of it.
  read_offer-response :
      (pgw_c_ip : Ip)
      → read_offer pgw_c_ip response
        ≡ ok (record {
          pgw_teid = s.pgw_teid;
          pgw_ip = some pgw.pgw_u_ip;
          ue_ip = some s.ue_ip;
          ambr = (ul, dl);
        })
  unfolding read_offer response paa_value decode_paa f_teid_value ambr_value u8
  read_offer-response pgw_c_ip =
      rw
        (
          u32-be_value s.pgw_teid h.teid_fits,
          u32-be_value pgw.pgw_u_ip h.address_fits,
          u32-be_value s.ue_ip h.ue_fits,
          u32-be_value ul h.rates_fit.0,
          u32-be_value dl h.rates_fit.1,
        )
        refl

  -- The answer is built, and the SGW-C reads the tunnel of the PGW-U, the UE's address and the rates.
  pub created_answer-offer :
      (qos : Qos)
      → qos.mbr_ul ≡ some ul
      → qos.mbr_dl ≡ some dl
      → (bytes : Bytes) × (created_answer pgw seq s qos ≡ ok bytes)
        × ((pgw_c_ip : Ip)
            → offer_in pgw_c_ip bytes
              ≡ ok (record {
                pgw_teid = s.pgw_teid;
                pgw_ip = some pgw.pgw_u_ip;
                ue_ip = some s.ue_ip;
                ambr = (ul, dl);
              }))
  unfolding created_answer offer_in
  created_answer-offer qos hu hd =
      let r = sent_message response response-IsWire in
      let built = (bearer_round_trip arguments arguments_fit).1 in
      (
        r.0,
        rw (hu, hd)
            (ap
                (λ (x : Result Bytes). x >>= λ context.
                  GtpC.to_bytes
                    (new_message create_session_response seq (created_ies pgw s ul dl context)))
                built
              ∙ r.1),
        λ pgw_c_ip. rw (r.2) (read_offer-response pgw_c_ip),
      )
