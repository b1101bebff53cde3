-- ===== src/Isotp/Transmit/Progress.antt =====
-- What one call of `NextConsecutiveFrame` and one flow control do to a transfer in progress.
use diagnostic_vehicle_simul.Prelude.{
  ℕ, suc, ◌+◌, ◌%◌, ◌<◌, ◌≡◌, Option, none, some, length, if◌then◌else◌, arith, leb,
}
use diagnostic_vehicle_simul.Isotp.Segments.{slice_length, segment}
use diagnostic_vehicle_simul.Isotp.Transmit.{
  Transmitter, sending_block, complete, next_consecutive_frame,
}

-- The transmitter after a consecutive frame from byte `k` on.
abbrev pub advanced : Transmitter → Option ℕ → Transmitter
advanced t block =
    let k = t.sent_bytes + slice_length (length t.pdu) t.sent_bytes in
    record t {
      sent_bytes = k;
      sequence_number = (t.sequence_number + 1) % 256 % 16;
      remaining_in_block = block;
      frames_sent = t.frames_sent + 1;
      state = if leb (length t.pdu) k then complete else t.state;
    }

pub next_unlimited :
    (t : Transmitter)
    → t.state ≡ sending_block
    → t.sent_bytes < length t.pdu
    → t.remaining_in_block ≡ none
    → next_consecutive_frame t
      ≡ (advanced t none, some (segment t.params.padding_byte t.pdu t.sequence_number t.sent_bytes))
unfolding next_consecutive_frame segment
next_unlimited t s h b = ground arith

pub next_limited :
    (t : Transmitter) (left : ℕ)
    → t.state ≡ sending_block
    → t.sent_bytes < length t.pdu
    → t.remaining_in_block ≡ some (suc left)
    → next_consecutive_frame t ≡ (
      advanced t (some left),
      some (segment t.params.padding_byte t.pdu t.sequence_number t.sent_bytes),
    )
unfolding next_consecutive_frame segment
next_limited t left s h b = ground arith
