-- ===== src/Core/Hss/Parse.antt =====
-- core/hss.py: what the MME reads of an answer (`parse_auth_info`, `parse_subscription_data`).
use v_epc_cups.Prelude.{
  ℕ, Option, none, some, Bool, true, false, List, [], ◌∷◌, nat_beq, ◌&&◌, if◌then◌else◌,
}
use v_epc_cups.Prelude.Results.{ok}
use v_epc_cups.Prelude.Runs.{Run, fold_run, ◌>>=◌}
use v_epc_cups.Bytes.{Bytes}
use v_epc_cups.Diameter.{Avp, children, u32_of}
use v_epc_cups.Diameter.Codes.{
  avp_e_utran_vector, avp_number_of_requested_vectors, avp_rand, avp_xres, avp_autn, avp_kasme,
  avp_apn_configuration_profile, avp_apn_configuration, avp_service_selection,
  avp_eps_subscribed_qos_profile, avp_qos_class_identifier, avp_ambr, avp_max_req_bandwidth_ul,
  avp_max_req_bandwidth_dl,
}
use v_epc_cups.Diameter.Text.{text}

-- `vec`; `n` is None where the AVP is too short.
pub record AuthVector : Type 0 where
  pub rand : Option Bytes
  pub xres : Option Bytes
  pub autn : Option Bytes
  pub kasme : Option Bytes
  pub n : Option ℕ

abbrev pub is_none {ℓ} : {A : Type ℓ} → Option A → Bool
is_none none = true
is_none (some a) = false

-- The body of the loop over the children of a vector: four tests, of which one at most holds.
unfoldable pub vector_step : AuthVector → Avp → AuthVector
vector_step vec v =
    if nat_beq v.code avp_rand
    then record vec { rand = some v.«data» }
    else if nat_beq v.code avp_xres
    then record vec { xres = some v.«data» }
    else if nat_beq v.code avp_autn
    then record vec { autn = some v.«data» }
    else if nat_beq v.code avp_kasme
    then record vec { kasme = some v.«data» }
    else vec

abbrev pub read_vector : AuthVector → List Avp → AuthVector
read_vector vec [] = vec
read_vector vec (v ∷ kids) = read_vector (vector_step vec v) kids

unfoldable pub auth_step : AuthVector → Avp → Run AuthVector
unfolding children vector_step u32_of
auth_step vec a =
    if nat_beq a.code avp_number_of_requested_vectors
    then some (ok (record vec { n = u32_of a }))
    else if nat_beq a.code avp_e_utran_vector && is_none vec.rand
    then (children a >>= λ kids. some (ok (read_vector vec kids)))
    else some (ok vec)

unfoldable pub parse_auth_info : Avp → Run AuthVector
unfolding auth_step
parse_auth_info a = do
  kids ← children a
  fold_run auth_step (record { rand = none; xres = none; autn = none; kasme = none; n = some 0 })
      kids

pub record Subscription : Type 0 where
  pub apn : Option Bytes
  pub ambr_ul : Option ℕ
  pub ambr_dl : Option ℕ
  pub qci : Option ℕ

abbrev pub read_qos : Subscription → List Avp → Subscription
read_qos out [] = out
read_qos out (q ∷ kids) =
    read_qos
      (if nat_beq q.code avp_qos_class_identifier then record out { qci = u32_of q } else out) kids

-- Two tests, of which one at most holds.
abbrev pub read_ambr : Subscription → List Avp → Subscription
read_ambr out [] = out
read_ambr out (b ∷ kids) =
    read_ambr
      (if nat_beq b.code avp_max_req_bandwidth_ul
        then record out { ambr_ul = u32_of b }
        else if nat_beq b.code avp_max_req_bandwidth_dl
        then record out { ambr_dl = u32_of b }
        else out)
      kids

-- The bodies of the loops over the children of a configuration, a profile, and the data.
unfoldable pub config_step : Subscription → Avp → Run Subscription
unfolding children text
config_step out k =
    if nat_beq k.code avp_service_selection
    then some (ok (record out { apn = some (text k) }))
    else if nat_beq k.code avp_eps_subscribed_qos_profile
    then (children k >>= λ kids. some (ok (read_qos out kids)))
    else if nat_beq k.code avp_ambr
    then (children k >>= λ kids. some (ok (read_ambr out kids)))
    else some (ok out)

unfoldable pub profile_step : Subscription → Avp → Run Subscription
unfolding config_step
profile_step out p =
    if nat_beq p.code avp_apn_configuration
    then (children p >>= λ kids. fold_run config_step out kids)
    else some (ok out)

unfoldable pub data_step : Subscription → Avp → Run Subscription
unfolding profile_step
data_step out a =
    if nat_beq a.code avp_apn_configuration_profile
    then (children a >>= λ kids. fold_run profile_step out kids)
    else some (ok out)

unfoldable pub parse_subscription_data : Avp → Run Subscription
unfolding data_step
parse_subscription_data a = do
  kids ← children a
  fold_run data_step (record { apn = none; ambr_ul = some 0; ambr_dl = some 0; qci = some 9 }) kids
