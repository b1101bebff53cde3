-- ===== src/Isotp/Reassemble.antt =====
-- Offline reassembly of one recorded CAN-ID stream (engine/crates/isotp/src/lib.rs). The two
-- `mut` variables of `ReassembleStream` are the pending message, which is threaded through, and
-- the messages found, which are the list that the recursion returns. A timestamp is an `f64` that
-- is only copied.
pub mod Progress
pub mod Sent
use diagnostic_vehicle_simul.Prelude.{
  ℕ, ◌+◌, ◌-◌, ◌*◌, ◌/◌, ◌%◌, min, ◌||◌, Option, none, some, List, [], ◌∷◌, ◌++◌, if◌then◌else◌,
  ltb, ◌==◌, length, get_or, take, drop,
}
use diagnostic_vehicle_simul.Can.Frame.{CanFrame}

-- `IsoTpMessage`.
pub record Message (Time : Type 0) : Type 0 where
  pub started_at : Time
  pub completed_at : Time
  pub pdu : List ℕ

-- `Pending`.
pub record Pending (Time : Type 0) : Type 0 where
  pub buffer : List ℕ
  pub remaining : ℕ
  pub started_at : Time
  pub next_sequence_number : ℕ  -- u8

-- `DecodeSingleFrame`, from where the length and the payload's start are known.
unfoldable pub single_payload : List ℕ → ℕ → ℕ → Option (List ℕ)
single_payload frame count start =
    if count == 0 || ltb (length frame) (start + count)
    then none
    else some (take count (drop start frame))

-- The frame is indexed below only where it is long enough, so the default 0 is never read.
unfoldable pub decode_single_frame : List ℕ → Option (List ℕ)
unfolding single_payload
decode_single_frame frame =
    let low_nibble = get_or frame 0 0 % 16 in
    if low_nibble == 0
    then (if ltb (length frame) 2 then none else single_payload frame (get_or frame 1 0) 2)
    else single_payload frame low_nibble 1

-- What one frame leaves: the pending message, and the message that it completed.
abbrev pub Turn : Type 0 → Type 0
Turn Time = Option (Pending Time) × Option (Message Time)

module _ {Time : Type 0} where
  unfoldable pub start_first_frame : CanFrame Time → Option (Pending Time)
  start_first_frame frame =
      let bytes = frame.data_bytes in
      let total = get_or bytes 0 0 % 16 * 256 + get_or bytes 1 0 in
      let first = drop 2 bytes in
      let taken = min (length first) total in
      if ltb (length bytes) 2
      then none
      else if total == 0
      then none
      else some (record {
        buffer = take taken first;
        remaining = total - taken;
        started_at = frame.timestamp_sec;
        next_sequence_number = 1;
      })

  unfoldable pub append_consecutive : Pending Time → List ℕ → Pending Time
  append_consecutive p bytes =
      let payload = drop 1 bytes in
      let count = min (length payload) p.remaining in
      record p { buffer = p.buffer ++ take count payload; remaining = p.remaining - count }

  -- A consecutive frame that extends a message.
  unfoldable pub extend : Pending Time → CanFrame Time → Turn Time
  unfolding append_consecutive
  extend p frame =
      let q =
        append_consecutive
          (record p { next_sequence_number = (p.next_sequence_number + 1) % 256 % 16 })
          frame.data_bytes in
      if get_or frame.data_bytes 0 0 % 16 == p.next_sequence_number
      then (if q.remaining == 0
          then (
            none,
            some (record {
              started_at = q.started_at;
              completed_at = frame.timestamp_sec;
              pdu = q.buffer;
            }),
          )
          else (some q, none))
      else (none, none)

  unfoldable pub single_message : CanFrame Time → Option (List ℕ) → Option (Message Time)
  single_message frame none = none
  single_message frame (some bytes) =
      some (record {
        started_at = frame.timestamp_sec;
        completed_at = frame.timestamp_sec;
        pdu = bytes;
      })

  -- The final `match` of the loop's body, with no message pending.
  unfoldable pub fresh_frame : ℕ → CanFrame Time → Turn Time
  unfolding single_message decode_single_frame start_first_frame
  fresh_frame pci frame =
      if pci == 0x0
      then (none, single_message frame (decode_single_frame frame.data_bytes))
      else if pci == 0x1
      then (start_first_frame frame, none)
      else (none, none)

  -- The body of the loop, for a frame with a first byte.
  unfoldable pub on_nonempty : ℕ → Option (Pending Time) → CanFrame Time → Turn Time
  unfolding extend fresh_frame
  on_nonempty pci none frame = fresh_frame pci frame
  on_nonempty pci (some p) frame =
      if pci == 0x2
      then extend p frame
      else if pci == 0x3
      then (some p, none)
      else fresh_frame pci frame

  -- The body of the loop on the frame's bytes: an empty frame is skipped.
  unfoldable pub on_bytes : List ℕ → Option (Pending Time) → CanFrame Time → Turn Time
  unfolding on_nonempty
  on_bytes [] pending frame = (pending, none)
  on_bytes (first ∷ rest) pending frame = on_nonempty (first / 16) pending frame

  unfoldable pub turn : Option (Pending Time) → CanFrame Time → Turn Time
  unfolding on_bytes
  turn pending frame = on_bytes frame.data_bytes pending frame

  abbrev pub found : Option (Message Time) → List (Message Time) → List (Message Time)
  found none rest = rest
  found (some message) rest = message ∷ rest

  unfoldable pub reassemble_from :
      Option (Pending Time) → List (CanFrame Time) → List (Message Time)
  reassemble_from pending [] = []
  reassemble_from pending (frame ∷ frames) =
      let (pending', message) = turn pending frame in
      found message (reassemble_from pending' frames)

  unfoldable pub reassemble_stream : List (CanFrame Time) → List (Message Time)
  unfolding reassemble_from
  reassemble_stream frames = reassemble_from none frames
