-- ===== src/Doip/Header.antt =====
-- The generic header in front of every message (engine/crates/doip/src/header.rs), and the
-- message that refuses one (engine/crates/doip/src/lib.rs).
pub mod RoundTrip
pub mod Accepted
use diagnostic_vehicle_simul.Prelude.{
  ℕ, ◌-◌, ◌*◌, ◌%◌, Bool, true, false, not, ◌||◌, Option, none, some, List, [], ◌∷◌, ◌++◌,
  if◌then◌else◌, ltb, ◌==◌, length, get_or, Result, ok, err, u16_to_be, u16_from_be, u32_to_be,
  u32_from_be,
}
use diagnostic_vehicle_simul.Doip.Payload.{
  PayloadType, generic_header_nack, code, from_code, accepts_payload_length,
}

abbrev pub header_length : ℕ
header_length = 8

abbrev pub protocol_version_2019 : ℕ
protocol_version_2019 = 0x03

abbrev pub protocol_version_2012 : ℕ
protocol_version_2012 = 0x02

abbrev pub protocol_version_2010 : ℕ
protocol_version_2010 = 0x01

abbrev pub protocol_version_default : ℕ
protocol_version_default = 0xFF

pub record GenericHeader : Type 0 where
  pub protocol_version : ℕ  -- u8
  pub payload_type : PayloadType
  pub payload_length : ℕ  -- u32

-- Why a generic header was rejected.
pub data HeaderNack : Type 0 where
  incorrect_pattern_format : (version inverse : ℕ) → HeaderNack
  unknown_payload_type : (payload_type : ℕ) → HeaderNack
  message_too_large : (size max_data_size : ℕ) → HeaderNack
  out_of_memory : (size : ℕ) → HeaderNack
  invalid_payload_length : (payload_type size : ℕ) → HeaderNack

unfoldable pub nack_code : HeaderNack → ℕ
nack_code (incorrect_pattern_format version inverse) = 0x00
nack_code (unknown_payload_type payload_type) = 0x01
nack_code (message_too_large size max_data_size) = 0x02
nack_code (out_of_memory size) = 0x03
nack_code (invalid_payload_length payload_type size) = 0x04

-- Whether the socket must be closed after sending this NACK.
unfoldable pub closes_socket : HeaderNack → Bool
closes_socket (incorrect_pattern_format version inverse) = true
closes_socket (invalid_payload_length payload_type size) = true
closes_socket _ = false

pub record HeaderLimits : Type 0 where
  pub max_data_size : ℕ  -- u32
  pub available_memory : ℕ  -- u32

unfoldable pub default_limits : HeaderLimits
default_limits = record { max_data_size = 4096; available_memory = 4096 }

unfoldable pub is_known_protocol_version : ℕ → Bool
is_known_protocol_version v =
    (v == protocol_version_2010)
    || (v == protocol_version_2012)
    || (v == protocol_version_2019)
    || (v == protocol_version_default)

-- `!b` on a byte.
abbrev pub complement : ℕ → ℕ
complement b = 255 - b

-- The checks on the payload type and the length, once the version pair is known to be good.
unfoldable pub check_payload :
    HeaderLimits → ℕ → ℕ → ℕ → Option PayloadType → Result HeaderNack GenericHeader
check_payload limits version type_code size none = err (unknown_payload_type type_code)
check_payload limits version type_code size (some payload_type) =
    if ltb limits.max_data_size size
    then err (message_too_large size limits.max_data_size)
    else if ltb limits.available_memory size
    then err (out_of_memory size)
    else if not (accepts_payload_length payload_type size)
    then err (invalid_payload_length type_code size)
    else ok
        (record { protocol_version = version; payload_type = payload_type; payload_length = size })

-- Read and validate a generic header.
unfoldable pub read_header : List ℕ → HeaderLimits → Result HeaderNack GenericHeader
read_header bytes limits =
    let version = get_or bytes 0 0 in
    let inverse = get_or bytes 1 0 in
    let type_code = u16_from_be (get_or bytes 2 0) (get_or bytes 3 0) in
    let size =
      u32_from_be (get_or bytes 4 0) (get_or bytes 5 0) (get_or bytes 6 0) (get_or bytes 7 0) in
    if ltb (length bytes) header_length
    then err (incorrect_pattern_format version inverse)
    else if not (inverse == complement version) || not (is_known_protocol_version version)
    then err (incorrect_pattern_format version inverse)
    else check_payload limits version type_code size (from_code type_code)

-- Build a message: the generic header followed by its payload.
unfoldable pub write_message : ℕ → PayloadType → List ℕ → List ℕ
write_message version payload_type payload =
    version
    ∷ complement version
    ∷ (u16_to_be (code payload_type) ++ (u32_to_be (length payload % 4294967296) ++ payload))

-- The version to answer a peer in.
unfoldable pub reply_version_for : ℕ → ℕ
reply_version_for v =
    if (v == protocol_version_2010) || (v == protocol_version_2012) || (v == protocol_version_2019)
    then v
    else protocol_version_2019

-- Build a generic header negative acknowledge message.
unfoldable pub build_header_nack : ℕ → HeaderNack → List ℕ
build_header_nack version nack =
    write_message (reply_version_for version) generic_header_nack (nack_code nack ∷ [])
