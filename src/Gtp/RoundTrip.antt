-- ===== src/Gtp/RoundTrip.antt =====
-- What `decode` reads from a G-PDU that `encode_gpdu` wrote.
use v_epc_cups.Prelude.{
  ℕ, zero, suc, ◌+◌, ◌-◌, ◌^◌, ◌<◌, ◌≡◌, refl, ap, ◌∙◌, sym, some, [], ◌∷◌, ◌++◌, length, take,
  lt→ltb, arith, append-nil,
}
use v_epc_cups.Prelude.Results.{ok}
use v_epc_cups.Bytes.{Bytes, u8, u16, u32, u16-be_value, u32-be_value}
use v_epc_cups.Gtp.{Packet, g_pdu, encode_gpdu, decode}

-- The packet that a TEID and a payload stand for. The length counts the header too.
abbrev pub packet : ℕ → Bytes → Packet
packet teid payload = record {
  flags = 0x30;
  type = g_pdu;
  length = 8 + length payload;
  teid = teid;
  payload = payload;
}

abbrev pub gpdu : ℕ → Bytes → Bytes
gpdu teid payload = u8 0x30 ++ u8 g_pdu ++ u16 (8 + length payload) ++ u32 teid ++ payload

pub encode_gpdu_lem :
    (teid : ℕ) (payload : Bytes)
    → 8 + length payload < 2 ^ 16
    → encode_gpdu (some teid) payload ≡ ok (gpdu teid payload)
unfolding encode_gpdu
encode_gpdu_lem teid payload h = rw (lt→ltb _ _ h)

take_past :
    (n : ℕ) (payload rest : Bytes)
    → n ≡ length payload + 4
    → take n (payload ++ rest) ≡ payload ++ take 4 rest
take_past n [] rest e = ap (λ (k : ℕ). take k rest) (e ∙ refl)
take_past zero (x ∷ payload) rest e = absurd (omega arith)
take_past (suc n) (x ∷ payload) rest e = ap (◌∷◌ x) (take_past n payload rest (omega arith))

decode-gpdu_rest :
    (teid : ℕ) (payload rest : Bytes)
    → teid < 2 ^ 32
    → 8 + length payload < 2 ^ 16
    → decode (gpdu teid payload ++ rest)
      ≡ ok (record (packet teid payload) { payload = payload ++ take 4 rest })
unfolding decode u8 u16 u32
decode-gpdu_rest teid payload rest ht hp = rw (
  u16-be_value (8 + length payload) hp,
  u32-be_value teid ht,
  take_past (8 + length payload - 4) payload rest (omega arith),
)

-- A G-PDU with a 32-bit TEID and a payload that fits the length field is decoded to its TEID and its
-- payload; of bytes that follow it, up to four are taken for payload.
pub gpdu_round_trip :
    (teid : ℕ) (payload rest : Bytes)
    → teid < 2 ^ 32
    → 8 + length payload < 2 ^ 16
    → (bytes : Bytes) × (encode_gpdu (some teid) payload ≡ ok bytes)
      × (decode (bytes ++ rest)
          ≡ ok (record (packet teid payload) { payload = payload ++ take 4 rest }))
gpdu_round_trip teid payload rest ht hp =
    (gpdu teid payload, encode_gpdu_lem teid payload hp, decode-gpdu_rest teid payload rest ht hp)

-- With nothing behind it, a G-PDU comes back whole.
pub decode-gpdu :
    (teid : ℕ) (payload : Bytes)
    → teid < 2 ^ 32
    → 8 + length payload < 2 ^ 16
    → decode (gpdu teid payload) ≡ ok (packet teid payload)
decode-gpdu teid payload ht hp =
    ap decode (sym (append-nil (gpdu teid payload)))
    ∙ decode-gpdu_rest teid payload [] ht hp
    ∙ ap (λ (x : Bytes). ok (record (packet teid payload) { payload = x })) (append-nil payload)
