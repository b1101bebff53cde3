-- ===== src/Isotp/Receive/Progress.antt =====
-- What a segment does to a receiver that has assembled everything before it.
use diagnostic_vehicle_simul.Prelude.{
  ℕ, ◌+◌, ◌-◌, ◌%◌, ◌≤◌, ◌<◌, ◌≡◌, refl, Option, none, some, List, ◌∷◌, length, take, take_all,
  arith,
}
use diagnostic_vehicle_simul.Isotp.Segments.{
  slice_length, segment, body, segment_lem, count-body, take-body, take-append-slice,
}
use diagnostic_vehicle_simul.Isotp.Receive.{
  Receiver, Pending, completed, on_frame, append_slice, account_block,
}

-- A message of which the first `k` bytes have arrived.
abbrev pub holding : List ℕ → ℕ → ℕ → Option ℕ → Pending
holding pdu k sequence block = record {
  buffer = take k pdu;
  remaining = length pdu - k;
  next_sequence_number = sequence;
  remaining_in_block = block;
}

abbrev pub next_index : List ℕ → ℕ → ℕ
next_index pdu k = k + slice_length (length pdu) k

abbrev pub next_number : ℕ → ℕ
next_number sequence = (sequence + 1) % 256 % 16

append_slice-body :
    (pdu : List ℕ) (k sequence h : ℕ) (block byte : Option ℕ)
    → append_slice (holding pdu k sequence block) (h ∷ body byte pdu k)
      ≡ holding pdu (next_index pdu k) (next_number sequence) block
unfolding append_slice
append_slice-body pdu k sequence h block byte =
    let rest : length pdu - k - slice_length (length pdu) k ≡ length pdu - next_index pdu k =
      omega arith in
    rw (count-body byte pdu k, take-body byte pdu k, take-append-slice pdu k, rest) refl

module _ (r : Receiver) (byte : Option ℕ) (pdu : List ℕ) (sequence k : ℕ) (block : Option ℕ)
    (nibble : sequence < 16) (inside : k < length pdu)
    (held : r.pending ≡ some (holding pdu k sequence block)) where
  -- A segment short of the end is appended, and the block limit decides what is answered.
  pub on_frame-segment_more :
      next_index pdu k < length pdu
      → on_frame r (segment byte pdu sequence k)
        ≡ account_block block
            (record r { pending = none })
            (holding pdu (next_index pdu k) (next_number sequence) block)
  unfolding on_frame
  on_frame-segment_more h =
      rw segment_lem
        (ground (arith, append_slice-body pdu k sequence (0x20 + sequence % 16) block byte))

  -- The last segment completes the message, which is the whole PDU.
  pub on_frame-segment_last :
      length pdu ≤ next_index pdu k
      → on_frame r (segment byte pdu sequence k) ≡ (record r { pending = none }, completed pdu)
  unfolding on_frame
  on_frame-segment_last h = rw segment_lem (
      ground (
        arith,
        append_slice-body pdu k sequence (0x20 + sequence % 16) block byte,
        take_all (next_index pdu k) pdu h,
      ))
