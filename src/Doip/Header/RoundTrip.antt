-- ===== src/Doip/Header/RoundTrip.antt =====
-- Headers written and read back.
use diagnostic_vehicle_simul.Prelude.{
  ℕ, ◌≤◌, ◌≡◌, ◌≢◌, true, some, List, ◌++◌, arith, IsU32, u16_be_back, u32_be_back, length, ok,
}
use diagnostic_vehicle_simul.Doip.Payload.{
  PayloadType, generic_header_nack, code, from_code, accepts_payload_length,
}
use diagnostic_vehicle_simul.Doip.Payload.Codes.{from_code-code, code-IsU16}
use diagnostic_vehicle_simul.Doip.Header.{
  GenericHeader, HeaderNack, HeaderLimits, is_known_protocol_version, check_payload, read_header,
  write_message, reply_version_for, build_header_nack,
}

-- The header of a message with this version, type and length.
abbrev pub header_of : ℕ → PayloadType → ℕ → GenericHeader
header_of version payload_type size = record {
  protocol_version = version;
  payload_type = payload_type;
  payload_length = size;
}

check_payload_written :
    (limits : HeaderLimits) (v n : ℕ) (p : PayloadType)
    → n ≤ limits.max_data_size
    → n ≤ limits.available_memory
    → accepts_payload_length p n ≡ true
    → check_payload limits v (code p) n (some p) ≡ ok (header_of v p n)
unfolding check_payload
check_payload_written limits v n p m a l = ground arith

-- A message with a known version and a payload that its type can carry, no longer than both
-- limits, reads back as the version, the type and the length that it was written with, whatever
-- bytes follow it on the stream.
pub read_header-write_message :
    (limits : HeaderLimits) (v : ℕ) (p : PayloadType) (payload rest : List ℕ)
    → is_known_protocol_version v ≡ true
    → accepts_payload_length p (length payload) ≡ true
    → length payload ≤ limits.max_data_size
    → length payload ≤ limits.available_memory
    → IsU32 limits.max_data_size
    → read_header (write_message v p payload ++ rest) limits ≡ ok (header_of v p (length payload))
unfolding read_header write_message
read_header-write_message limits v p payload rest k l m a u = ground (
  arith,
  u16_be_back (code p) (code-IsU16 p),
  u32_be_back (length payload),
  from_code-code p,
  check_payload_written limits v (length payload) p m a l,
)

-- A refusal that this entity sends reads back, at any receiver that takes a byte, as a header
-- negative acknowledge of one byte in a version that is never the placeholder.
pub read_header-build_header_nack :
    (limits : HeaderLimits) (v : ℕ) (nack : HeaderNack)
    → 1 ≤ limits.max_data_size
    → 1 ≤ limits.available_memory
    → IsU32 limits.max_data_size
    → (read_header (build_header_nack v nack) limits
        ≡ ok (header_of (reply_version_for v) generic_header_nack 1))
      × (reply_version_for v ≢ 0xFF)
unfolding read_header write_message build_header_nack check_payload reply_version_for
    is_known_protocol_version accepts_payload_length code from_code
read_header-build_header_nack limits v nack m a u = ground arith
