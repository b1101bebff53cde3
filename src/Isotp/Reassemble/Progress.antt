-- ===== src/Isotp/Reassemble/Progress.antt =====
-- What a segment does to an offline reassembly that has seen everything before it.
use diagnostic_vehicle_simul.Prelude.{
  ℕ, ◌+◌, ◌-◌, ◌%◌, ◌≤◌, ◌<◌, ◌≡◌, refl, Option, none, some, List, ◌∷◌, length, take, take_all,
  arith,
}
use diagnostic_vehicle_simul.Can.Frame.{CanFrame}
use diagnostic_vehicle_simul.Isotp.Segments.{
  slice_length, segment, body, segment_lem, count-body, take-body, take-append-slice,
}
use diagnostic_vehicle_simul.Isotp.Reassemble.{Pending, append_consecutive, turn}

module _ {Time : Type 0} where
  -- A message of which the first `k` bytes have been seen.
  abbrev pub seen : List ℕ → ℕ → ℕ → Time → Pending Time
  seen pdu k sequence start = record {
    buffer = take k pdu;
    remaining = length pdu - k;
    started_at = start;
    next_sequence_number = sequence;
  }

  append_consecutive-body :
      (pdu : List ℕ) (k sequence h : ℕ) (start : Time) (byte : Option ℕ)
      → append_consecutive (seen pdu k sequence start) (h ∷ body byte pdu k)
        ≡ seen pdu (k + slice_length (length pdu) k) sequence start
  unfolding append_consecutive
  append_consecutive-body pdu k sequence h start byte =
      let rest : length pdu - k - slice_length (length pdu) k
          ≡ length pdu - (k + slice_length (length pdu) k) =
        omega arith in
      rw (count-body byte pdu k, take-body byte pdu k, take-append-slice pdu k, rest) refl

module _ {Time : Type 0} (frame : CanFrame Time) (byte : Option ℕ) (pdu : List ℕ) (sequence k : ℕ)
    (start : Time) (nibble : sequence < 16) (inside : k < length pdu)
    (carried : frame.data_bytes ≡ segment byte pdu sequence k) where
  pub turn-segment_more :
      k + slice_length (length pdu) k < length pdu
      → turn (some (seen pdu k sequence start)) frame ≡ (
        some (seen pdu (k + slice_length (length pdu) k) ((sequence + 1) % 256 % 16) start),
        none,
      )
  unfolding turn
  turn-segment_more h = ground (
    arith,
    segment_lem byte pdu sequence k,
    append_consecutive-body pdu k ((sequence + 1) % 256 % 16) (0x20 + sequence % 16) start byte,
  )

  pub turn-segment_last :
      length pdu ≤ k + slice_length (length pdu) k
      → turn (some (seen pdu k sequence start)) frame ≡ (
        none,
        some (record { started_at = start; completed_at = frame.timestamp_sec; pdu = pdu }),
      )
  unfolding turn
  turn-segment_last h = ground (
    arith,
    segment_lem byte pdu sequence k,
    append_consecutive-body pdu k ((sequence + 1) % 256 % 16) (0x20 + sequence % 16) start byte,
    take_all (k + slice_length (length pdu) k) pdu h,
  )
