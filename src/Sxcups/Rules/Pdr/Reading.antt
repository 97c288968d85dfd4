-- ===== src/Sxcups/Rules/Pdr/Reading.antt =====
-- One round of the loop of `PDR.from_pfcp` for each kind of child that `to_pfcp` writes.
use v_epc_cups.Prelude.{
  ℕ, ◌^◌, ◌%◌, ◌<◌, ◌≡◌, refl, ap, ◌∙◌, String, Option, some, [], ◌∷◌, ◌++◌, length, arith,
  if◌then◌else◌,
}
use v_epc_cups.Bytes.{Bytes, Ip, u8, u16, u32}
use v_epc_cups.Pfcp.Types.{grouped}
use v_epc_cups.Pfcp.Types.Ie
use v_epc_cups.Pfcp.Ies.{nil, encode_ie, encode_grouped, decode_ies_recursive, for_ies}
use v_epc_cups.Pfcp.Ies.Framing.{for_ies-encode_ie, for_ies_end, length-encode_ie}
use v_epc_cups.Pfcp.Values.{
  ie_pdr_id, ie_source_interface, ie_ft_eid, ft_eid_value, ie_urr_id, ie_qer_id, ie_far_id,
  decode_ft_eid, u8_of,
}
use v_epc_cups.Pfcp.Values.RoundTrip.{decode_ft_eid-ft_eid_value, pdr_id_of-u16, u32_of-u32}
use v_epc_cups.Sxcups.Rules.Interfaces.{
  iface_name, Interface, access, core, sgi_lan, cp_function, name_of, code_of, iface_name-code_of,
}
use v_epc_cups.Sxcups.Rules.Pdr.{Pdr, pdi_step, pdr_step}

-- The loop of `from_pfcp` from the PDR `p` on, over the IEs in `bytes`.
abbrev pub read : Pdr → Bytes → Pdr
read p bytes = for_ies pdr_step p (decode_ies_recursive bytes)

-- One IE in front: its round of the loop.
u8_code : (i : Interface) → iface_name (some (code_of i % 256)) ≡ name_of i
u8_code access = iface_name-code_of access
u8_code core = iface_name-code_of core
u8_code sgi_lan = iface_name-code_of sgi_lan
u8_code cp_function = iface_name-code_of cp_function

fteid_read :
    (teid : ℕ) (ip : Ip)
    → teid < 2 ^ 32
    → ip < 2 ^ 32
    → decode_ft_eid (ft_eid_value teid ip) ≡ some (teid, ip)
unfolding ft_eid_value
fteid_read teid ip ht hi = decode_ft_eid-ft_eid_value teid ip [] ht hi

read-encode_ie :
    (p q : Pdr) (t : ℕ) (v rest : Bytes)
    → t < 2 ^ 16
    → length v < 2 ^ 16
    → pdr_step p t v (if grouped t then decode_ies_recursive v else nil) ≡ q
    → read p (encode_ie t v ++ rest) ≡ read q rest
read-encode_ie p q t v rest ht hv e =
    for_ies-encode_ie pdr_step p t v rest ht hv
    ∙ ap (λ (s : Pdr). for_ies pdr_step s (decode_ies_recursive rest)) e

read-pdi :
    (p q : Pdr) (t : ℕ) (v rest : Bytes)
    → t < 2 ^ 16
    → length v < 2 ^ 15
    → pdi_step p t v (if grouped t then decode_ies_recursive v else nil) ≡ q
    → read p (encode_grouped Ie.pdi (encode_ie t v ∷ []) ++ rest) ≡ read q rest
unfolding encode_grouped grouped
read-pdi p q t v rest ht hv e =
    read-encode_ie p q Ie.pdi (encode_ie t v ++ []) rest (omega arith)
      (omega (arith, length-encode_ie t v []))
      (unfold pdr_step in
        for_ies-encode_ie pdi_step p t v [] ht (omega arith) ∙ for_ies_end pdi_step _ ∙ e)

module _ (p : Pdr) (rest : Bytes) where
  pub read-pdr_id :
      (i : ℕ) → i < 2 ^ 16 → read p (ie_pdr_id i ++ rest) ≡ read (record p { pdr_id = some i }) rest
  unfolding pdr_step ie_pdr_id
  read-pdr_id i h =
      read-encode_ie p _ Ie.pdr_id (u16 i) rest (omega arith) (unfold u16 in omega arith)
        (ap (λ (x : Option ℕ). record p { pdr_id = x }) (pdr_id_of-u16 i h))

  pub read-precedence :
      (i : ℕ)
      → i < 2 ^ 32
      → read p (encode_ie Ie.precedence (u32 i) ++ rest)
        ≡ read (record p { precedence = some i }) rest
  unfolding pdr_step
  read-precedence i h =
      read-encode_ie p _ Ie.precedence (u32 i) rest (omega arith) (unfold u32 in omega arith)
        (ap (λ (x : Option ℕ). record p { precedence = x }) (u32_of-u32 i h))

  pub read-interface :
      (i : Interface)
      → read p (encode_grouped Ie.pdi (ie_source_interface (code_of i) ∷ []) ++ rest)
        ≡ read (record p { source_interface = some (name_of i) }) rest
  unfolding ie_source_interface
  read-interface i =
      read-pdi p _ Ie.source_interface (u8 (code_of i)) rest (omega arith)
        (unfold u8 in omega arith)
        (unfold pdi_step u8 u8_of in
          ap (λ (x : String). record p { source_interface = some x }) (u8_code i))

  pub read-fteid :
      (teid : ℕ) (ip : Ip)
      → teid < 2 ^ 32
      → ip < 2 ^ 32
      → read p (encode_grouped Ie.pdi (ie_ft_eid teid ip ∷ []) ++ rest)
        ≡ read (record p { fteid = some (some (teid, ip)) }) rest
  unfolding ie_ft_eid
  read-fteid teid ip ht hi =
      read-pdi p _ Ie.f_teid (ft_eid_value teid ip) rest (omega arith)
        (unfold ft_eid_value in omega arith)
        (unfold pdi_step in
          ap (λ (x : Option (ℕ × Ip)). record p { fteid = some x }) (fteid_read teid ip ht hi))

  pub read-urr_id :
      (i : ℕ)
      → i < 2 ^ 32
      → read p (ie_urr_id i ++ rest) ≡ read (record p { urr_ids = p.urr_ids ++ some i ∷ [] }) rest
  unfolding pdr_step ie_urr_id
  read-urr_id i h =
      read-encode_ie p _ Ie.urr_id (u32 i) rest (omega arith) (unfold u32 in omega arith)
        (ap (λ (x : Option ℕ). record p { urr_ids = p.urr_ids ++ x ∷ [] }) (u32_of-u32 i h))

  pub read-qer_id :
      (i : ℕ)
      → i < 2 ^ 32
      → read p (ie_qer_id i ++ rest) ≡ read (record p { qer_ids = p.qer_ids ++ some i ∷ [] }) rest
  unfolding pdr_step ie_qer_id
  read-qer_id i h =
      read-encode_ie p _ Ie.qer_id (u32 i) rest (omega arith) (unfold u32 in omega arith)
        (ap (λ (x : Option ℕ). record p { qer_ids = p.qer_ids ++ x ∷ [] }) (u32_of-u32 i h))

  pub read-far_id :
      (i : ℕ) → i < 2 ^ 32 → read p (ie_far_id i ++ rest) ≡ read (record p { far_id = some i }) rest
  unfolding pdr_step ie_far_id
  read-far_id i h =
      read-encode_ie p _ Ie.far_id (u32 i) rest (omega arith) (unfold u32 in omega arith)
        (ap (λ (x : Option ℕ). record p { far_id = x }) (u32_of-u32 i h))

  pub read-network_instance :
      (c : ℕ) (cs : Bytes)
      → length cs < 2 ^ 15
      → read p (encode_ie Ie.network_instance (c ∷ cs) ++ rest) ≡ read p rest
  unfolding pdr_step
  read-network_instance c cs h =
      read-encode_ie p p Ie.network_instance (c ∷ cs) rest (omega arith) (omega arith) refl
