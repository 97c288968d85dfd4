-- ===== src/Core/Sgwc/State.antt =====
-- core/epc_sgw_c.py: the state of the SGW-C.
use v_epc_cups.Prelude.{ℕ, Option, []}
use v_epc_cups.Prelude.Dict.{Dict}
use v_epc_cups.Bytes.{Bytes, Ip}
use v_epc_cups.Core.Cpf.State.{Cpf, new_cpf, add_peer}

-- An entry of `ctx`. `seid` is a number, as in every session that session_establish returns.
pub record Context : Type 0 where
  pub seid : ℕ
  pub s1u : ℕ
  pub s5u : ℕ
  pub pgw_teid : ℕ
  pub pgw_ip : Option Ip
  pub ue_ip : Option Ip
  pub ebi : ℕ
  pub ambr : ℕ × ℕ
  pub enb_dl : Option ℕ

-- `s5u` is the last TEID that was given for S5-U.
pub record Sgwc : Type 0 where
  pub ip : Ip
  pub sgw_u_ip : Ip
  pub pgw_c_ip : Ip
  pub enb_ip : Ip
  pub cpf : Cpf
  pub ctx : Dict Bytes Context
  pub s5u : ℕ

-- `recovery_ts` and `session_seq` are those of the module of the CPF.
unfoldable pub new_sgwc : (ip sgw_u_ip pgw_c_ip enb_ip base_seid recovery_ts session_seq : ℕ) → Sgwc
unfolding new_cpf add_peer
new_sgwc ip sgw_u_ip pgw_c_ip enb_ip base_seid recovery_ts session_seq = record {
  ip = ip;
  sgw_u_ip = sgw_u_ip;
  pgw_c_ip = pgw_c_ip;
  enb_ip = enb_ip;
  cpf = add_peer (new_cpf ip 8805 recovery_ts base_seid session_seq) sgw_u_ip;
  ctx = [];
  s5u = 0x300000;
}
