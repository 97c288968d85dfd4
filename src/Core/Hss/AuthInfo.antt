-- ===== src/Core/Hss/AuthInfo.antt =====
-- core/hss.py: the Authentication-Info AVP that the server builds, as the MME reads it.
use v_epc_cups.Prelude.{
  ℕ, ◌+◌, ◌*◌, ◌^◌, ◌<◌, ◌≤◌, ◌≡◌, refl, some, List, [], ◌∷◌, length, map, All, arith,
}
use v_epc_cups.Prelude.Results.{ok}
use v_epc_cups.Prelude.Runs.{fold_run}
use v_epc_cups.Bytes.{u32}
use v_epc_cups.Diameter.{Avp, avp, children}
use v_epc_cups.Diameter.Codes.{
  vendor_3gpp, avp_authentication_info, avp_e_utran_vector, avp_number_of_requested_vectors,
  avp_rand, avp_xres, avp_autn, avp_kasme,
}
use v_epc_cups.Diameter.Framing.{IsAvp}
use v_epc_cups.Diameter.RoundTrip.{avps_bytes, children-group}
use v_epc_cups.Diameter.Values.{
  length-avps_bytes, avp-IsAvp, avp_u32-avp, u32_of-avp, total, number_avp,
}
use v_epc_cups.Core.Hss.{Vector, vector_avp, vector_avps, auth_info}
use v_epc_cups.Core.Hss.Parse.{AuthVector, auth_step, vector_step, parse_auth_info}

-- A vector whose parts are as short as digests.
abbrev pub IsShort : Vector → Type 0
IsShort v =
    (length v.rand ≤ 32) × (length v.xres ≤ 32) × (length v.autn ≤ 32) × (length v.kasme ≤ 32)

-- The AVPs of a vector.
abbrev pub vector_kids : Vector → List Avp
vector_kids v =
    avp avp_rand v.rand vendor_3gpp
    ∷ avp avp_xres v.xres vendor_3gpp
    ∷ avp avp_autn v.autn vendor_3gpp
    ∷ avp avp_kasme v.kasme vendor_3gpp
    ∷ []

abbrev vector_group : Vector → Avp
vector_group v = avp avp_e_utran_vector (avps_bytes (vector_kids v)) vendor_3gpp

vector_kids-IsAvp : (v : Vector) → IsShort v → All IsAvp (vector_kids v)
vector_kids-IsAvp v h = (
  avp-IsAvp avp_rand vendor_3gpp v.rand (omega arith) (omega arith) (omega arith),
  (
    avp-IsAvp avp_xres vendor_3gpp v.xres (omega arith) (omega arith) (omega arith),
    (
      avp-IsAvp avp_autn vendor_3gpp v.autn (omega arith) (omega arith) (omega arith),
      (avp-IsAvp avp_kasme vendor_3gpp v.kasme (omega arith) (omega arith) (omega arith), tt),
    ),
  ),
)

length-vector_kids : (v : Vector) → IsShort v → length (avps_bytes (vector_kids v)) ≤ 188
unfolding avp
length-vector_kids v h = omega (arith, length-avps_bytes (vector_kids v), h.0, h.1, h.2, h.3)

vector_group-IsAvp : (v : Vector) → IsShort v → IsAvp (vector_group v)
vector_group-IsAvp v h =
    avp-IsAvp avp_e_utran_vector vendor_3gpp (avps_bytes (vector_kids v)) (omega arith)
      (omega arith) (omega (arith, length-vector_kids v h))

vector_groups :
    (vs : List Vector)
    → All IsShort vs
    → (vector_avps vs ≡ ok (map vector_group vs))
      × All IsAvp (map vector_group vs)
      × (total (map vector_group vs) ≤ 203 * length vs)
unfolding vector_avps vector_avp avp
vector_groups [] h = (refl, tt, omega arith)
vector_groups (v ∷ vs) h =
    let ih = vector_groups vs h.1 in
    (
      rw
          (
            (children-group avp_e_utran_vector vendor_3gpp (vector_kids v)
                (vector_kids-IsAvp v h.0)).0,
            ih.0,
          )
          refl,
      (vector_group-IsAvp v h.0, ih.1),
      omega (arith, length-vector_kids v h.0, ih.2),
    )

-- What the MME keeps of a vector.
abbrev pub first_vector : ℕ → Vector → AuthVector
first_vector n v = record {
  rand = some v.rand;
  xres = some v.xres;
  autn = some v.autn;
  kasme = some v.kasme;
  n = some n;
}

-- The vectors after the first one change nothing.
fold-first :
    (n : ℕ) (v : Vector) (vs : List Vector)
    → fold_run auth_step (first_vector n v) (map vector_group vs) ≡ some (ok (first_vector n v))
unfolding auth_step avp
fold-first n v [] = refl
fold-first n v (w ∷ vs) = fold-first n v vs

abbrev info_kids : ℕ → List Vector → List Avp
info_kids n vs = avp avp_number_of_requested_vectors (u32 n) vendor_3gpp ∷ map vector_group vs

info_kids-IsAvp : (n : ℕ) (vs : List Vector) → All IsShort vs → All IsAvp (info_kids n vs)
unfolding u32
info_kids-IsAvp n vs h = (
  avp-IsAvp avp_number_of_requested_vectors vendor_3gpp (u32 n) (omega arith) (omega arith)
      (omega arith),
  (vector_groups vs h).1,
)

abbrev pub info_avp : ℕ → List Vector → Avp
info_avp n vs = avp avp_authentication_info (avps_bytes (info_kids n vs)) vendor_3gpp

pub auth_info-info_avp :
    (n : ℕ) (vs : List Vector) → n < 2 ^ 32 → All IsShort vs → auth_info n vs ≡ ok (info_avp n vs)
unfolding auth_info
auth_info-info_avp n vs hn h =
    rw ((vector_groups vs h).0, avp_u32-avp avp_number_of_requested_vectors n vendor_3gpp hn)
      (children-group avp_authentication_info vendor_3gpp (info_kids n vs)
        (info_kids-IsAvp n vs h)).0

length-info_avp :
    (n : ℕ) (vs : List Vector)
    → All IsShort vs
    → length (avps_bytes (info_kids n vs)) ≤ 19 + 203 * length vs
unfolding u32 avp
length-info_avp n vs h = omega (arith, length-avps_bytes (info_kids n vs), (vector_groups vs h).2)

pub info_avp-IsAvp :
    (n : ℕ) (vs : List Vector)
    → All IsShort vs
    → length vs ≤ 2 ^ 15
    → IsAvp (info_avp n vs) × (total (info_avp n vs ∷ []) ≤ 2 ^ 23)
unfolding avp
info_avp-IsAvp n vs h hl = (
  avp-IsAvp avp_authentication_info vendor_3gpp (avps_bytes (info_kids n vs)) (omega arith)
      (omega arith) (omega (arith, length-info_avp n vs h)),
  omega (arith, length-info_avp n vs h),
)

-- The MME reads the number and the first vector.
pub parse_auth_info-info_avp :
    (n : ℕ) (v : Vector) (vs : List Vector)
    → n < 2 ^ 32
    → All IsShort (v ∷ vs)
    → parse_auth_info (info_avp n (v ∷ vs)) ≡ some (ok (first_vector n v))
unfolding parse_auth_info auth_step vector_step avp
parse_auth_info-info_avp n v vs hn h =
    rw
      (
        (children-group avp_authentication_info vendor_3gpp (info_kids n (v ∷ vs))
            (info_kids-IsAvp n (v ∷ vs) h)).1,
        u32_of-avp avp_number_of_requested_vectors n vendor_3gpp hn,
        (children-group avp_e_utran_vector vendor_3gpp (vector_kids v) (vector_kids-IsAvp v h.0)).1,
      )
      (fold-first n v vs)

-- These AVPs are vectors' ones, one for each vector and in their order.
abbrev pub Carries : List Avp → List Vector → Type 0
Carries [] [] = Unit
Carries (a ∷ avps) (v ∷ vs) =
    (a.code ≡ avp_e_utran_vector) × (children a ≡ some (ok (vector_kids v))) × Carries avps vs
Carries [] (v ∷ vs) = ⊥
Carries (a ∷ avps) [] = ⊥

groups-Carries : (vs : List Vector) → All IsShort vs → Carries (map vector_group vs) vs
unfolding avp
groups-Carries [] h = tt
groups-Carries (v ∷ vs) h = (
  refl,
  (children-group avp_e_utran_vector vendor_3gpp (vector_kids v) (vector_kids-IsAvp v h.0)).1,
  groups-Carries vs h.1,
)

-- Its children are the number and the vectors.
pub children-info_avp :
    (n : ℕ) (vs : List Vector)
    → All IsShort vs
    → (avps : List Avp) × (children (info_avp n vs)
        ≡ some (ok (number_avp avp_number_of_requested_vectors n vendor_3gpp ∷ avps)))
      × Carries avps vs
children-info_avp n vs h = (
  map vector_group vs,
  (children-group avp_authentication_info vendor_3gpp (info_kids n vs) (info_kids-IsAvp n vs h)).1,
  groups-Carries vs h,
)
