-- ===== src/Slcan/Decode/RoundTrip.antt =====
-- That an encoded frame decodes to itself.
use diagnostic_vehicle_simul.Prelude.{
  ℕ, ◌*◌, ◌≡◌, ◌<◌, ◌≤◌, ◌⊎◌, refl, ◌∙◌, ap, Bool, true, false, none, some, List, [], ◌∷◌, ◌++◌,
  All, IsByte, if◌then◌else◌, length, ok, arith,
}
use diagnostic_vehicle_simul.Can.Frame.{CanFrame, data_length_code}
use diagnostic_vehicle_simul.Slcan.Hex.{format_hex}
use diagnostic_vehicle_simul.Slcan.Hex.Back.{digits, sixteen_to, format_hex-digits, from_hex-digits}
use diagnostic_vehicle_simul.Slcan.Encode.{kind_of, encode_bytes, encode_line}
use diagnostic_vehicle_simul.Slcan.Decode.{
  decode_pairs, decode_data_bytes, build_frame, decode_fields, decode_frame_line, frame_event,
  event_of, decode_kind_line, decode_line,
}

-- A classic frame as a line can carry it: an identifier of three or eight digits, and at most eight
-- bytes that a data frame carries and a remote frame asks for.
pub record IsClassic {Time : Type 0} (time : Time) (frame : CanFrame Time) : Type 0 where
  pub stamped : frame.timestamp_sec ≡ time
  pub undirected : frame.is_request ≡ none
  pub classic : frame.is_fd ≡ false
  pub identified : frame.can_id < (if frame.is_extended then sixteen_to 8 else sixteen_to 3)
  pub bounded : length frame.data_bytes ≤ 8
  pub bytes : All IsByte frame.data_bytes
  pub asked : frame.remote_length ≤ 8
  pub either :
      (frame.is_remote ≡ false) × (frame.remote_length ≡ 0)
      ⊎ (frame.is_remote ≡ true) × (frame.data_bytes ≡ [])

pub length-encode_bytes : (bs : List ℕ) → All IsByte bs → length (encode_bytes bs) ≡ length bs * 2
unfolding encode_bytes digits
length-encode_bytes [] h = refl
length-encode_bytes (b ∷ bs) (h, hs) =
    rw (format_hex-digits 2 b h (omega arith)) (omega (arith, length-encode_bytes bs hs))

decode_pairs-encode_bytes :
    (line bs : List ℕ) → All IsByte bs → decode_pairs line (length bs) (encode_bytes bs) ≡ ok bs
unfolding decode_pairs encode_bytes digits
decode_pairs-encode_bytes line [] h = refl
decode_pairs-encode_bytes line (b ∷ bs) (h, hs) =
    rw (format_hex-digits 2 b h (omega arith))
      (ground (arith, from_hex-digits 1 b h, decode_pairs-encode_bytes line bs hs))

decode_data_bytes-encode_bytes :
    (line bs : List ℕ)
    → All IsByte bs
    → decode_data_bytes line (encode_bytes bs) (length bs) ≡ ok bs
unfolding decode_data_bytes
decode_data_bytes-encode_bytes line bs h =
    ground (arith, length-encode_bytes bs h, decode_pairs-encode_bytes line bs h)

-- A line by its parts.
abbrev pub line_of : (is_extended is_remote : Bool) (id n : ℕ) (rest : List ℕ) → List ℕ
line_of is_extended is_remote id n rest =
    kind_of is_extended is_remote
    ∷ (digits (if is_extended then 8 else 3) id [] ++ (digits 1 n [] ++ rest))

module _ {Time : Type 0} (time : Time) where
  -- The header of a line is read as it was written.
  decode_frame_line-header :
      (is_extended is_remote : Bool) (id n : ℕ) (rest : List ℕ)
      → id < (if is_extended then sixteen_to 8 else sixteen_to 3)
      → n < sixteen_to 1
      → decode_frame_line time (line_of is_extended is_remote id n rest)
        ≡ decode_fields time
            (line_of is_extended is_remote id n rest)
            is_extended
            is_remote
            (some id)
            (some n)
            rest
  unfolding decode_frame_line kind_of digits
  decode_frame_line-header false false id n rest h k =
      ground (arith, from_hex-digits 2 id h, from_hex-digits 0 n k)
  decode_frame_line-header false true id n rest h k =
      ground (arith, from_hex-digits 2 id h, from_hex-digits 0 n k)
  decode_frame_line-header true false id n rest h k =
      ground (arith, from_hex-digits 7 id h, from_hex-digits 0 n k)
  decode_frame_line-header true true id n rest h k =
      ground (arith, from_hex-digits 7 id h, from_hex-digits 0 n k)

  -- A line of more than one character that begins with the letter of a frame is a frame.
  decode_line-line_of :
      (is_extended is_remote : Bool) (id n : ℕ) (rest : List ℕ)
      → decode_line time (line_of is_extended is_remote id n rest)
        ≡ event_of (decode_frame_line time (line_of is_extended is_remote id n rest))
  unfolding decode_line decode_kind_line kind_of digits
  decode_line-line_of false false id n rest = refl
  decode_line-line_of false true id n rest = refl
  decode_line-line_of true false id n rest = refl
  decode_line-line_of true true id n rest = refl

  module _ (frame : CanFrame Time) (c : IsClassic time frame) where
    pub length_code-le : data_length_code frame ≤ 8
    unfolding data_length_code
    length_code-le = ground arith

    format_id :
        format_hex (if frame.is_extended then 8 else 3) frame.can_id
        ≡ digits (if frame.is_extended then 8 else 3) frame.can_id []
    format_id = ground (arith, format_hex-digits 8 frame.can_id, format_hex-digits 3 frame.can_id)

    pub encode_line-line_of :
        encode_line frame
        ≡ line_of frame.is_extended frame.is_remote frame.can_id
            (data_length_code frame)
            (encode_bytes frame.data_bytes)
    unfolding encode_line
    encode_line-line_of =
        rw
          (
            format_id,
            format_hex-digits 1 (data_length_code frame) (omega (arith, length_code-le))
                (omega arith),
          )
          refl

    decode_fields-encode_bytes :
        (line : List ℕ)
        → decode_fields time line frame.is_extended frame.is_remote
            (some frame.can_id)
            (some (data_length_code frame))
            (encode_bytes frame.data_bytes)
          ≡ ok frame
    unfolding decode_fields build_frame data_length_code
    decode_fields-encode_bytes line =
        ground (arith, decode_data_bytes-encode_bytes line frame.data_bytes c.bytes)

    decode_frame_line-encode_line : decode_frame_line time (encode_line frame) ≡ ok frame
    decode_frame_line-encode_line = rw encode_line-line_of (
        decode_frame_line-header frame.is_extended frame.is_remote frame.can_id
          (data_length_code frame) (encode_bytes frame.data_bytes) c.identified
          (omega (arith, length_code-le))
        ∙ decode_fields-encode_bytes (
            line_of frame.is_extended frame.is_remote frame.can_id (data_length_code frame)
              (encode_bytes frame.data_bytes)))

    pub decode_line-encode_line : decode_line time (encode_line frame) ≡ frame_event frame
    unfolding event_of
    decode_line-encode_line = rw encode_line-line_of (
        decode_line-line_of frame.is_extended frame.is_remote frame.can_id (data_length_code frame)
          (encode_bytes frame.data_bytes)
        ∙ ap event_of (rw encode_line-line_of at decode_frame_line-encode_line))
