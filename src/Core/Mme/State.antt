-- ===== src/Core/Mme/State.antt =====
-- core/mme.py: the state, and what a handler leaves behind.
use v_epc_cups.Prelude.{ℕ, ◌≡◌, refl, Option, none, some, List, [], ◌∷◌}
use v_epc_cups.Prelude.Results.{Result, ok, err}
use v_epc_cups.Prelude.Runs.{Run}
use v_epc_cups.Prelude.Dict.{Dict}
use v_epc_cups.Bytes.{Bytes, Ip}
use v_epc_cups.Core.Datagrams.{Address, Datagram}

-- What `_s11_create` returns.
pub record Bearer : Type 0 where
  pub sgw_s1u_teid : Option ℕ
  pub sgw_s1u_ip : Ip
  pub ue_ip : Option Ip
  pub ambr : ℕ × ℕ
  pub ebi : ℕ

-- The context of a UE; `none` is for a key that is missing, or None.
pub record Context : Type 0 where
  pub imsi : Bytes
  pub apn : Bytes
  pub mme_id : ℕ
  pub rand : Option Bytes
  pub xres : Option Bytes
  pub bearer : Option Bearer

-- `ip_text` is the address in text, as the Session-Id has it; `plmn` is a text.
pub record Mme : Type 0 where
  pub ip : Ip
  pub ip_text : Bytes
  pub sgwc_ip : Ip
  pub hss_ip : Ip
  pub plmn : Bytes
  pub ctx : Dict ℕ Context
  pub enb_addr : Option Address
  pub mme_ue : ℕ
  pub ccn : ℕ

unfoldable pub new_mme : Ip → Bytes → Ip → Ip → Bytes → Mme
new_mme ip ip_text sgwc_ip hss_ip plmn = record {
  ip = ip;
  ip_text = ip_text;
  sgwc_ip = sgwc_ip;
  hss_ip = hss_ip;
  plmn = plmn;
  ctx = [];
  enb_addr = none;
  mme_ue = 0x1000;
  ccn = 0;
}

-- A handler's new state, what it has sent, its requests to the HSS and the SGW-C among it, and how it
-- ends: with None or an exception, or, which is `none`, never.
pub record Outcome : Type 0 where
  pub mme : Mme
  pub sent : List Datagram
  pub ended : Run (Unit {0})

abbrev pub quiet : Mme → Outcome
quiet mme = record { mme = mme; sent = []; ended = some (ok tt) }

-- One more datagram, which may not come to be sent, and then the rest of the handler.
abbrev pub then_send : Result Datagram → Outcome → Outcome
then_send (err e) rest = record rest { sent = []; ended = some (err e) }
then_send (ok d) rest = record rest { sent = d ∷ rest.sent }

-- What was sent before a call that never ends, and the state that it leaves.
abbrev pub stuck : Mme → Outcome
stuck mme = record { mme = mme; sent = []; ended = none }

-- A sending does not change the state.
pub then_send-mme : (d : Result Datagram) (rest : Outcome) → (then_send d rest).mme ≡ rest.mme
then_send-mme (err e) rest = refl
then_send-mme (ok d) rest = refl

-- The handler ends, with None or an exception.
abbrev pub Ends : Outcome → Type 0
Ends o = (r : Result (Unit {0})) × (o.ended ≡ some r)

pub then_send-Ends : (d : Result Datagram) (rest : Outcome) → Ends rest → Ends (then_send d rest)
then_send-Ends (err e) rest h = (err e, refl)
then_send-Ends (ok d) rest h = h
