-- ===== src/Slcan/Decode.antt =====
-- The streaming decoder of the lines that an adapter sends
-- (engine/crates/slcan/src/decoder.rs). A timestamp is an `f64` that this code only copies: its
-- type is the parameter `Time`. Logging is left out.
pub mod RoundTrip
pub mod Stream
use diagnostic_vehicle_simul.Prelude.{
  ℕ, zero, suc, ◌+◌, ◌*◌, ◌/◌, Bool, true, false, ◌||◌, Option, none, some, List, [], ◌∷◌, ◌++◌,
  if◌then◌else◌, ltb, leb, ◌==◌, length, take, drop, head_or, Result, ok, err,
}
use diagnostic_vehicle_simul.Can.Frame.{CanFrame}
use diagnostic_vehicle_simul.Slcan.Commands.{terminator, bell, max_line_length}
use diagnostic_vehicle_simul.Slcan.Hex.{from_hex}

-- The texts of a line are kept as their characters.
pub data SlcanDecodeError : Type 0 where
  too_short : (line : List ℕ) (is_extended : Bool) → SlcanDecodeError
  not_hex : (line : List ℕ) → SlcanDecodeError
  bad_length : (line : List ℕ) (declared : ℕ) → SlcanDecodeError
  length_mismatch : (line : List ℕ) (declared present : ℕ) → SlcanDecodeError

pub data SlcanEvent (Time : Type 0) : Type 0 where
  frame_event : CanFrame Time → SlcanEvent Time
  ack nack : SlcanEvent Time
  malformed : SlcanDecodeError → SlcanEvent Time

pub record SlcanDecoder : Type 0 where
  pub partial : List ℕ
  pub discarded_lines : ℕ

unfoldable pub new_decoder : SlcanDecoder
new_decoder = record { partial = []; discarded_lines = 0 }

-- `String::len`: the bytes of UTF-8.
unfoldable pub utf8_length : List ℕ → ℕ
utf8_length [] = 0
utf8_length (c ∷ cs) = (if ltb c 128 then 1 else 2) + utf8_length cs

-- `as_bytes()[0]`: the first byte of UTF-8.
abbrev pub first_byte : List ℕ → ℕ
first_byte line = let c = head_or line 0 in if ltb c 128 then c else 0xC0 + c / 64

-- The loop over the data bytes, two characters each.
unfoldable pub decode_pairs :
    (line : List ℕ) (count : ℕ) (rest : List ℕ) → Result SlcanDecodeError (List ℕ)
decode_pairs line zero rest = ok []
decode_pairs line (suc count) rest =
    let later = decode_pairs line count (drop 2 rest) in
    elim (from_hex (take 2 rest)) [
      | none ↦ err (not_hex line)
      | some b ↦ elim later [ ok bytes ↦ ok (b ∷ bytes) | err e ↦ err e ]
    ]

unfoldable pub decode_data_bytes :
    (line rest : List ℕ) (declared : ℕ) → Result SlcanDecodeError (List ℕ)
decode_data_bytes line rest declared =
    if ltb (length rest) (declared * 2)
    then err (length_mismatch line declared (length rest / 2))
    else decode_pairs line declared rest

-- A line that has grown past the limit is discarded, and so is the character.
unfoldable pub push_character : SlcanDecoder → ℕ → SlcanDecoder
push_character d c =
    if leb max_line_length (utf8_length d.partial)
    then record { partial = []; discarded_lines = d.discarded_lines + 1 }
    else record d { partial = d.partial ++ c ∷ [] }

module _ {Time : Type 0} where
  unfoldable pub build_frame :
      Time → (is_extended is_remote : Bool) (can_id declared : ℕ) → List ℕ → CanFrame Time
  build_frame time is_extended is_remote can_id declared bytes = record {
    timestamp_sec = time;
    can_id = can_id;
    is_extended = is_extended;
    is_fd = false;
    data_bytes = bytes;
    is_remote = is_remote;
    remote_length = if is_remote then declared else 0;
    is_request = none;
  }

  -- The part after the two numbers of the header were read, or not.
  unfoldable pub decode_fields :
      Time
      → (line : List ℕ) (is_extended is_remote : Bool) → Option ℕ
      → Option ℕ
      → (rest : List ℕ) → Result SlcanDecodeError (CanFrame Time)
  decode_fields time line is_extended is_remote none declared rest = err (not_hex line)
  decode_fields time line is_extended is_remote (some id) none rest = err (not_hex line)
  decode_fields time line is_extended is_remote (some id) (some declared) rest =
      if ltb 8 declared
      then err (bad_length line declared)
      else elim (if is_remote then ok [] else decode_data_bytes line rest declared) [
        | ok bytes ↦ ok (build_frame time is_extended is_remote id declared bytes)
        | err e ↦ err e
      ]

  unfoldable pub decode_frame_line : Time → List ℕ → Result SlcanDecodeError (CanFrame Time)
  decode_frame_line time line =
      let kind = first_byte line in
      let is_extended = (kind == b'T') || (kind == b'R') in
      let is_remote = (kind == b'r') || (kind == b'R') in
      let id_length = if is_extended then 8 else 3 in
      let header_length = id_length + 2 in
      if ltb (length line) header_length
      then err (too_short line is_extended)
      else decode_fields time line is_extended is_remote (from_hex (take id_length (drop 1 line)))
          (from_hex (take 1 (drop (id_length + 1) line))) (drop header_length line)

  unfoldable pub event_of : Result SlcanDecodeError (CanFrame Time) → SlcanEvent Time
  event_of (ok frame) = frame_event frame
  event_of (err e) = malformed e

  -- A line by its first byte.
  unfoldable pub decode_kind_line : Time → List ℕ → SlcanEvent Time
  decode_kind_line time line =
      let kind = first_byte line in
      if (kind == b't') || ((kind == b'T') || ((kind == b'r') || (kind == b'R')))
      then event_of (decode_frame_line time line)
      else ack

  -- Every complete line is an event; all that is not a frame counts as an acknowledgement.
  unfoldable pub decode_line : Time → List ℕ → SlcanEvent Time
  decode_line time [] = ack
  decode_line time (c ∷ []) =
      if (c == b'z') || (c == b'Z') then ack else decode_kind_line time (c ∷ [])
  decode_line time (c ∷ d ∷ cs) = decode_kind_line time (c ∷ d ∷ cs)

  -- One byte from the port.
  unfoldable pub feed_byte : Time → SlcanDecoder → ℕ → SlcanDecoder × List (SlcanEvent Time)
  feed_byte time d b =
      if b == terminator
      then (record d { partial = [] }, decode_line time d.partial ∷ [])
      else if b == bell
      then (d, nack ∷ [])
      else (push_character d b, [])

  unfoldable pub feed : Time → SlcanDecoder → List ℕ → SlcanDecoder × List (SlcanEvent Time)
  feed time d [] = (d, [])
  feed time d (b ∷ bs) =
      let (after, events) = feed_byte time d b in
      let (final, later) = feed time after bs in (final, events ++ later)
