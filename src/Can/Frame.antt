-- ===== src/Can/Frame.antt =====
-- CAN frames (engine/crates/can/src/lib.rs). A timestamp is an `f64` that this code only copies:
-- its type is the parameter `Time`.
use diagnostic_vehicle_simul.Prelude.{
  ℕ, ◌+◌, ◌-◌, ◌*◌, ◌/◌, min, Bool, true, false, Option, none, some, List, [], if◌then◌else◌, ltb,
  length,
}

abbrev pub max_classic_payload : ℕ
max_classic_payload = 8

abbrev pub standard_frame_overhead_bits : ℕ
standard_frame_overhead_bits = 47

abbrev pub extended_frame_overhead_bits : ℕ
extended_frame_overhead_bits = 67

abbrev pub unstuffed_trailer_bits : ℕ
unstuffed_trailer_bits = 13

-- `CanFrame`.
pub record CanFrame (Time : Type 0) : Type 0 where
  pub timestamp_sec : Time
  pub can_id : ℕ  -- u32
  pub is_extended : Bool
  pub is_fd : Bool
  pub data_bytes : List ℕ
  pub is_remote : Bool
  pub remote_length : ℕ
  pub is_request : Option Bool

module _ {Time : Type 0} where
  unfoldable pub new_classic : Time → ℕ → List ℕ → CanFrame Time
  new_classic timestamp can_id bytes = record {
    timestamp_sec = timestamp;
    can_id = can_id;
    is_extended = ltb 0x7FF can_id;
    is_fd = false;
    data_bytes = bytes;
    is_remote = false;
    remote_length = 0;
    is_request = none;
  }

  unfoldable pub new_remote : Time → ℕ → ℕ → CanFrame Time
  unfolding new_classic
  new_remote timestamp can_id requested_length =
      let frame = new_classic timestamp can_id [] in
      record frame { remote_length = min requested_length max_classic_payload; is_remote = true }

  unfoldable pub new_directed : Time → ℕ → List ℕ → Bool → CanFrame Time
  unfolding new_classic
  new_directed timestamp can_id bytes is_request =
      let frame = new_classic timestamp can_id bytes in
      record frame { is_request = some is_request }

  unfoldable pub data_length : CanFrame Time → ℕ
  data_length frame = length frame.data_bytes

  unfoldable pub data_length_code : CanFrame Time → ℕ
  data_length_code frame = if frame.is_remote then frame.remote_length else length frame.data_bytes

  unfoldable pub bits_on_wire : CanFrame Time → ℕ
  bits_on_wire frame =
      let overhead =
        if frame.is_extended then extended_frame_overhead_bits else standard_frame_overhead_bits in
      let payload = if frame.is_remote then 0 else length frame.data_bytes * 8 in overhead + payload

  -- `saturating_sub` is the subtraction of ℕ.
  unfoldable pub max_stuff_bits : CanFrame Time → ℕ
  unfolding bits_on_wire
  max_stuff_bits frame = (bits_on_wire frame - unstuffed_trailer_bits) / 4
