-- ===== src/Doip/Header/Accepted.antt =====
-- What the entity knows of a header that it has accepted.
use diagnostic_vehicle_simul.Prelude.{
  ℕ, ◌≤◌, ◌<◌, ◌≡◌, refl, true, Option, none, some, List, [], ◌∷◌, ◌++◌, arith, IsByte, u16_to_be,
  u16_from_be, u32_to_be, u32_from_be, take, All, ok,
}
use diagnostic_vehicle_simul.Doip.Payload.{PayloadType, code, from_code, accepts_payload_length}
use diagnostic_vehicle_simul.Doip.Payload.Codes.{code-from_code}
use diagnostic_vehicle_simul.Doip.Header.{
  GenericHeader, HeaderLimits, is_known_protocol_version, complement, check_payload, read_header,
}

-- What holds of a header that was accepted.
pub record IsAccepted (limits : HeaderLimits) (h : GenericHeader) : Type 0 where
  pub version_known : is_known_protocol_version h.protocol_version ≡ true
  pub length_accepted : accepts_payload_length h.payload_type h.payload_length ≡ true
  pub within_maximum : h.payload_length ≤ limits.max_data_size
  pub within_memory : h.payload_length ≤ limits.available_memory

-- The eight bytes of a header, field by field.
abbrev pub header_bytes : GenericHeader → List ℕ
header_bytes h =
    h.protocol_version
    ∷ complement h.protocol_version
    ∷ (u16_to_be (code h.payload_type) ++ u32_to_be h.payload_length)

check_payload-ok :
    (limits : HeaderLimits) (v c n : ℕ) (o : Option PayloadType) (h : GenericHeader)
    → from_code c ≡ o
    → check_payload limits v c n o ≡ ok h
    → (h.protocol_version ≡ v)
      × (h.payload_length ≡ n)
      × (code h.payload_type ≡ c)
      × (n ≤ limits.max_data_size)
      × (n ≤ limits.available_memory)
      × (accepts_payload_length h.payload_type n ≡ true)
unfolding check_payload
check_payload-ok limits v c n none h f e = ground arith
check_payload-ok limits v c n (some p) h f e = ground (arith, code-from_code c p f)

IsAccepted-eight :
    (limits : HeaderLimits) (h : GenericHeader) (b₀ b₁ b₂ b₃ b₄ b₅ b₆ b₇ : ℕ) (rest : List ℕ)
    → (b₀ < 256) × (b₁ < 256) × (b₂ < 256) × (b₃ < 256)
    → (b₄ < 256) × (b₅ < 256) × (b₆ < 256) × (b₇ < 256)
    → read_header (b₀ ∷ b₁ ∷ b₂ ∷ b₃ ∷ b₄ ∷ b₅ ∷ b₆ ∷ b₇ ∷ rest) limits ≡ ok h
    → IsAccepted limits h × (b₀ ∷ b₁ ∷ b₂ ∷ b₃ ∷ b₄ ∷ b₅ ∷ b₆ ∷ b₇ ∷ [] ≡ header_bytes h)
unfolding read_header
IsAccepted-eight limits h b₀ b₁ b₂ b₃ b₄ b₅ b₆ b₇ rest p q e = ground (
  arith,
  check_payload-ok limits b₀ (u16_from_be b₂ b₃) (u32_from_be b₄ b₅ b₆ b₇)
      (from_code (u16_from_be b₂ b₃)) h refl,
)

-- An accepted header has a known version and a length that its type can carry, within both
-- limits, and the eight bytes that were read are the ones that a message with those fields starts
-- with: no two headers are read from the same bytes and no byte of the eight goes unchecked.
pub read_header-ok :
    (limits : HeaderLimits) (h : GenericHeader) (bytes : List ℕ)
    → All IsByte bytes
    → read_header bytes limits ≡ ok h
    → IsAccepted limits h × (take 8 bytes ≡ header_bytes h)
unfolding read_header
read_header-ok limits h [] b e = ground arith
read_header-ok limits h (b₀ ∷ []) b e = ground arith
read_header-ok limits h (b₀ ∷ b₁ ∷ []) b e = ground arith
read_header-ok limits h (b₀ ∷ b₁ ∷ b₂ ∷ []) b e = ground arith
read_header-ok limits h (b₀ ∷ b₁ ∷ b₂ ∷ b₃ ∷ []) b e = ground arith
read_header-ok limits h (b₀ ∷ b₁ ∷ b₂ ∷ b₃ ∷ b₄ ∷ []) b e = ground arith
read_header-ok limits h (b₀ ∷ b₁ ∷ b₂ ∷ b₃ ∷ b₄ ∷ b₅ ∷ []) b e = ground arith
read_header-ok limits h (b₀ ∷ b₁ ∷ b₂ ∷ b₃ ∷ b₄ ∷ b₅ ∷ b₆ ∷ []) b e = ground arith
read_header-ok limits h (b₀ ∷ b₁ ∷ b₂ ∷ b₃ ∷ b₄ ∷ b₅ ∷ b₆ ∷ b₇ ∷ rest) b e =
    IsAccepted-eight limits h b₀ b₁ b₂ b₃ b₄ b₅ b₆ b₇ rest (b.0, b.1.0, b.1.1.0, b.1.1.1.0)
      (b.1.1.1.1.0, b.1.1.1.1.1.0, b.1.1.1.1.1.1.0, b.1.1.1.1.1.1.1.0) e
