-- ===== src/Core/Pgwc/Gx.antt =====
-- core/epc_pgw_c.py: what `_gx_ccr` reads of the PCRF's answer.
use v_epc_cups.Prelude.{Option, none, some}
use v_epc_cups.Prelude.Results.{ok}
use v_epc_cups.Prelude.Runs.{Run, ◌>>=◌}
use v_epc_cups.Bytes.{Bytes}
use v_epc_cups.Diameter.{from_bytes}
use v_epc_cups.Core.Pcrf.{Qos, parse_qos}

abbrev pub default_qos : Qos
default_qos = record { qci = some 9; mbr_ul = some 100000; mbr_dl = some 200000 }

-- What `_gx_ccr` returns for this answer, `none` for none in time.
unfoldable pub qos_in : Option Bytes → Run Qos
unfolding from_bytes parse_qos
qos_in none = some (ok default_qos)
qos_in (some rep) = from_bytes rep >>= parse_qos
