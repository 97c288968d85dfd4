-- ===== src/Core/Pgwc/State.antt =====
-- core/epc_pgw_c.py: the state of the PGW-C, and its pool of UE addresses.
use v_epc_cups.Prelude.{ℕ, ◌+◌, ◌^◌, [], ltb, if◌then◌else◌}
use v_epc_cups.Prelude.Results.{Result, ok, err, struct_error}
use v_epc_cups.Prelude.Dict.{Dict}
use v_epc_cups.Bytes.{Bytes, Ip}
use v_epc_cups.Core.Pcrf.{Qos}
use v_epc_cups.Core.Cpf.State.{Cpf, new_cpf, add_peer}

-- An entry of `ctx`. `seid` is a number, as in every session that session_establish returns.
pub record Context : Type 0 where
  pub pgw_teid : ℕ
  pub sgw_teid : ℕ
  pub sgw_ip : Ip
  pub ue_ip : Ip
  pub ebi : ℕ
  pub qos : Qos
  pub seid : ℕ

-- `ip_text` is the address in text, as the Session-Id has it. `ue_n` counts the UE addresses that were
-- given, `ccn` the credit control requests.
pub record Pgwc : Type 0 where
  pub ip : Ip
  pub ip_text : Bytes
  pub pgw_u_ip : Ip
  pub pcrf_ip : Ip
  pub cpf : Cpf
  pub ctx : Dict Bytes Context
  pub ue_n : ℕ
  pub ccn : ℕ

-- `recovery_ts` and `session_seq` are those of the module of the CPF.
unfoldable pub new_pgwc :
    Ip → Bytes → (pgw_u_ip pcrf_ip base_seid recovery_ts session_seq : ℕ) → Pgwc
unfolding new_cpf add_peer
new_pgwc ip ip_text pgw_u_ip pcrf_ip base_seid recovery_ts session_seq = record {
  ip = ip;
  ip_text = ip_text;
  pgw_u_ip = pgw_u_ip;
  pcrf_ip = pcrf_ip;
  cpf = add_peer (new_cpf ip 8805 recovery_ts base_seid session_seq) pgw_u_ip;
  ctx = [];
  ue_n = 0;
  ccn = 0;
}

-- 10.10.0.2
abbrev pub ue_pool_start : Ip
ue_pool_start = 0x0A0A0002

-- struct.pack("!I", v + n) raises beyond 32 bits.
unfoldable pub next_ip : Ip → ℕ → Result Ip
next_ip base_ip n = if ltb (base_ip + n) (2 ^ 32) then ok (base_ip + n) else err struct_error
