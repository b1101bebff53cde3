-- ===== src/Isotp/Params.antt =====
-- ISO-TP link parameters (engine/crates/isotp/src/params.rs): the constants of classic CAN, the
-- separation-time byte and padding. A byte is a natural number, and a duration is a number of
-- microseconds.
pub mod Padding
use diagnostic_vehicle_simul.Prelude.{
  ℕ, zero, suc, ◌+◌, ◌-◌, ◌*◌, Bool, ◌&&◌, Option, none, some, List, [], ◌∷◌, ◌++◌, if◌then◌else◌,
  ltb, leb, length,
}

abbrev pub default_padding_byte : ℕ
default_padding_byte = 0xAA

abbrev pub classic_frame_length : ℕ
classic_frame_length = 8

abbrev pub max_single_frame_length : ℕ
max_single_frame_length = classic_frame_length - 1

abbrev pub first_frame_payload : ℕ
first_frame_payload = classic_frame_length - 2

abbrev pub consecutive_frame_payload : ℕ
consecutive_frame_payload = classic_frame_length - 1

abbrev pub max_classic_pdu_length : ℕ
max_classic_pdu_length = 4095

abbrev pub max_wait_frames : ℕ
max_wait_frames = 10

abbrev pub separation_time_on_reserved : ℕ
separation_time_on_reserved = 0x7F

-- `IsoTpParameters`.
pub record Parameters : Type 0 where
  pub block_size : ℕ  -- u8; zero is "send them all"
  pub separation_time_min : ℕ  -- u8, raw
  pub padding_byte : Option ℕ

abbrev pub default_parameters : Parameters
default_parameters = record {
  block_size = 0;
  separation_time_min = 0;
  padding_byte = some default_padding_byte;
}

-- `DecodeSeparationTime`, in microseconds.
unfoldable pub decode_separation_time : ℕ → ℕ
decode_separation_time separation_time =
    if leb separation_time 0x7F
    then separation_time * 1000
    else if leb 0xF1 separation_time && leb separation_time 0xF9
    then (separation_time - 0xF0) * 100
    else separation_time_on_reserved * 1000

-- The `while` loop of `ApplyPadding`, on fuel: eight rounds are enough, since each adds a byte.
pad_loop : ℕ → List ℕ → ℕ → List ℕ
pad_loop zero frame byte = frame
pad_loop (suc fuel) frame byte =
    let rest = pad_loop fuel (frame ++ byte ∷ []) byte in
    if ltb (length frame) classic_frame_length then rest else frame

unfoldable pub apply_padding : List ℕ → Option ℕ → List ℕ
unfolding pad_loop
apply_padding frame none = frame
apply_padding frame (some byte) = pad_loop classic_frame_length frame byte
