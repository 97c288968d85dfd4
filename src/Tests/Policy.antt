-- ===== src/Tests/Policy.antt =====
-- The theorem on the exchange of the PGW-C and the PCRF at a concrete input.
use v_epc_cups.Prelude.{◌+◌, ◌≡◌, refl, some, [], ◌∷◌, arith}
use v_epc_cups.Prelude.Results.{ok}
use v_epc_cups.Prelude.Classes.{bytes_eq}
use v_epc_cups.Prelude.Dict.{get}
use v_epc_cups.Bytes.{Bytes}
use v_epc_cups.Diameter.Text.{literal}
use v_epc_cups.Core.Mme.Identity.{FitsIdentity}
use v_epc_cups.Core.Pcrf.{Pcrf, policy_for}
use v_epc_cups.Core.Pcrf.Answers.{IsPolicy, authorized}
use v_epc_cups.Core.Pgwc.State.{Pgwc, new_pgwc}
use v_epc_cups.Core.Pgwc.{to_pcrf, gx_ccr}
use v_epc_cups.Core.Epc.Policy.{answered_by, gx_ccr-authorized}

abbrev subscriber : Bytes
subscriber = literal "001010000000001"

abbrev gold : Pcrf
gold =
    (subscriber, record { qci = 5; mbr_ul = 50000; mbr_dl = 500000; charging = literal "OFFLINE" })
    ∷ []

abbrev pgw : Pgwc
pgw = new_pgwc 0x7F000005 (literal "127.0.0.5") 0x7F000003 0x7F00000E 0x2000 1 1

gold-IsPolicy : IsPolicy (policy_for gold subscriber)
unfolding policy_for get
gold-IsPolicy = (omega arith, omega arith, omega arith)

pgw-FitsIdentity : FitsIdentity pgw.ip_text (pgw.ccn + 1) subscriber
unfolding new_pgwc v_epc_cups.Diameter.Text.decode_ignore
pgw-FitsIdentity = (omega arith, omega arith, refl, omega arith)

gx_ccr-authorized_example :
    (req : Bytes) × (gx_ccr (answered_by gold) [] [] subscriber 1 pgw ≡ (
      record pgw { ccn = pgw.ccn + 1 },
      to_pcrf pgw.pcrf_ip req ∷ [],
      some (ok (authorized 1 (policy_for gold subscriber))),
    ))
gx_ccr-authorized_example =
    gx_ccr-authorized gold [] [] subscriber 1 pgw pgw-FitsIdentity (omega arith) gold-IsPolicy
