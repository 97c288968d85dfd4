-- ===== src/S1ap.antt =====
-- protocols/s1ap.py: the S1AP message codec and the lists of E-RABs.
pub mod RoundTrip
pub mod Values
use v_epc_cups.Prelude.{ℕ, ◌^◌, Option, none, some, List, [], ◌∷◌, ◌++◌, length, ltb, if◌then◌else◌}
use v_epc_cups.Prelude.Results.{Result, ok, err, value_error, struct_error, ◌>>=◌}
use v_epc_cups.Bytes.{Bytes, Ip, u8, u32, inet_aton, be_value}
use v_epc_cups.Tlv.{pack_head, encode_tlvs, decode_tlvs, first_value}

pub record Message : Type 0 where
  pub msg_id : ℕ
  pub ies : List (ℕ × Bytes)

unfoldable pub get : Message → ℕ → Option Bytes
unfolding first_value
get m ie = first_value ie m.ies

unfoldable pub to_bytes : Message → Result Bytes
unfolding encode_tlvs pack_head
to_bytes m = do body ← encode_tlvs m.ies; head ← pack_head m.msg_id (length body); ok (head ++ body)

-- The length in the header is read and not used: the IEs go on to the end of the data.
unfoldable pub from_bytes : Bytes → Result Message
unfolding decode_tlvs
from_bytes (msg_id ∷ l₁ ∷ l₀ ∷ rest) =
    ok (record { msg_id = msg_id; ies = decode_tlvs (length rest) rest })
from_bytes _ = err value_error

-- EBI, TEID and address of the S1-U transport.
pub record Erab : Type 0 where
  pub ebi : ℕ
  pub teid : ℕ
  pub ip : Ip

-- The value of ie_erab_setup(ebi, teid, ip), which raises on a number that does not fit.
unfoldable pub erab_setup : Erab → Result Bytes
unfolding u8 u32 inet_aton
erab_setup e =
    if ltb e.ebi (2 ^ 8)
    then (if ltb e.teid (2 ^ 32)
        then ok (u8 e.ebi ++ u32 e.teid ++ inet_aton e.ip)
        else err struct_error)
    else err struct_error

-- The value of ie_erab_list(entries)
unfoldable pub erab_list : List Erab → Result Bytes
unfolding erab_setup
erab_list [] = ok []
erab_list (e ∷ erabs) = do one ← erab_setup e; rest ← erab_list erabs; ok (one ++ rest)

-- Nine bytes for each E-RAB; what is left at the end is not read.
unfoldable pub decode_erab_list : Bytes → List Erab
unfolding be_value
decode_erab_list (e ∷ t₃ ∷ t₂ ∷ t₁ ∷ t₀ ∷ a ∷ b ∷ c ∷ d ∷ rest) =
    record {
      ebi = e;
      teid = be_value 0 (t₃ ∷ t₂ ∷ t₁ ∷ t₀ ∷ []);
      ip = be_value 0 (a ∷ b ∷ c ∷ d ∷ []);
    }
    ∷ decode_erab_list rest
decode_erab_list _ = []
