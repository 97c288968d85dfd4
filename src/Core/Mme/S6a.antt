-- ===== src/Core/Mme/S6a.antt =====
-- core/mme.py: what `_air` reads of the answer to an authentication request.
use v_epc_cups.Prelude.{Option, none, some, if◌then◌else◌}
use v_epc_cups.Prelude.Results.{ok, type_error, need}
use v_epc_cups.Prelude.Runs.{Run, ◌>>=◌}
use v_epc_cups.Bytes.{Bytes}
use v_epc_cups.Diameter
use v_epc_cups.Diameter.{Avp, Message, avp, avp_u32, group, from_bytes, to_bytes, u32_of}
use v_epc_cups.Diameter.Codes.{vendor_3gpp, avp_result_code, avp_authentication_info}
use v_epc_cups.Core.Mme.Request.{succeeds}
use v_epc_cups.Core.Hss.Parse.{AuthVector, parse_auth_info}

-- The vector, where the answer has one. The log line raises where its number is None.
unfoldable pub vector_of : Option Avp → Run (Option AuthVector)
unfolding parse_auth_info
vector_of none = some (ok none)
vector_of (some info) = do
  vec ← parse_auth_info info
  number ← some (need type_error vec.n)
  some (ok (some vec))

unfoldable pub read_aia : Message → Run (Option AuthVector)
unfolding succeeds vector_of
read_aia aia = do
  good ← some (succeeds (Diameter.get aia avp_result_code 0))
  if good then vector_of (Diameter.get aia avp_authentication_info vendor_3gpp) else some (ok none)

-- What `_air` returns for this answer, `none` for none in time.
unfoldable pub air_result : Option Bytes → Run (Option AuthVector)
unfolding from_bytes read_aia
air_result none = some (ok none)
air_result (some rep) = from_bytes rep >>= read_aia
