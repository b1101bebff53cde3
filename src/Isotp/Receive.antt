-- ===== src/Isotp/Receive.antt =====
-- The receiving end of ISO-TP as a bus participant (engine/crates/isotp/src/rx.rs). A method that
-- takes `&mut self` returns the new receiver beside the outcome; `take` on the pending message is
-- a new receiver with none. Only logging is left out.
pub mod Progress
pub mod Sound
pub mod Agree
use diagnostic_vehicle_simul.Prelude.{
  ℕ, zero, suc, ◌+◌, ◌-◌, ◌*◌, ◌/◌, ◌%◌, min, Bool, true, false, not, Option, none, some, List, [],
  ◌∷◌, ◌++◌, if◌then◌else◌, ltb, leb, ◌==◌, length, get_or, take, drop, is_some, ◌||◌,
}
use diagnostic_vehicle_simul.Isotp.Params.{
  Parameters, apply_padding, max_classic_pdu_length, consecutive_frame_payload,
}

abbrev pub flow_status_continue : ℕ
flow_status_continue = 0x30

abbrev pub flow_status_overflow : ℕ
flow_status_overflow = 0x32

-- `IsoTpReceiveError`.
pub data ReceiveError : Type 0 where
  wrong_sequence_number : (expected received missing_frames : ℕ) → ReceiveError
  unexpected_consecutive_frame : ReceiveError

pub data ReceiveOutcome : Type 0 where
  nothing : ReceiveOutcome
  completed : List ℕ → ReceiveOutcome
  send_flow_control : List ℕ → ReceiveOutcome
  refused : List ℕ → ReceiveOutcome
  aborted : ReceiveError → ReceiveOutcome

pub record Pending : Type 0 where
  pub buffer : List ℕ
  pub remaining : ℕ
  pub next_sequence_number : ℕ  -- u8
  pub remaining_in_block : Option ℕ  -- u8

-- `IsoTpReceiver`.
pub record Receiver : Type 0 where
  pub params : Parameters
  pub max_pdu_length : ℕ
  pub is_functional : Bool
  pub pending : Option Pending

unfoldable pub new_physical : Parameters → Receiver
new_physical params = record {
  params = params;
  max_pdu_length = max_classic_pdu_length;
  is_functional = false;
  pending = none;
}

unfoldable pub with_max_pdu_length : Receiver → ℕ → Receiver
with_max_pdu_length r limit = record r { max_pdu_length = min limit max_classic_pdu_length }

unfoldable pub new_functional : Parameters → Receiver
new_functional params = record {
  params = params;
  max_pdu_length = max_classic_pdu_length;
  is_functional = true;
  pending = none;
}

unfoldable pub is_assembling : Receiver → Bool
is_assembling r = is_some r.pending

unfoldable pub reset : Receiver → Receiver
reset r = record r { pending = none }

unfoldable pub block_allowance : Receiver → Option ℕ
block_allowance r = if r.params.block_size == 0 then none else some r.params.block_size

unfoldable pub build_flow_control : Receiver → ℕ → List ℕ
build_flow_control r flow_status =
    apply_padding (flow_status ∷ r.params.block_size ∷ r.params.separation_time_min ∷ [])
      r.params.padding_byte

-- The frame is indexed below only where it is long enough, so the default 0 is never read.
on_single_frame : Receiver → List ℕ → Receiver × ReceiveOutcome
on_single_frame r frame =
    let s = record r { pending = none } in
    let count = get_or frame 0 0 % 16 in
    if count == 0 || ltb (length frame) (count + 1)
    then (s, nothing)
    else (s, completed (take count (drop 1 frame)))

-- The pending message that a first frame opens, and the flow control that answers it.
open_message : Receiver → List ℕ → ℕ → Receiver × ReceiveOutcome
open_message r frame total =
    let first = drop 2 frame in
    let taken = min (length first) total in
    (
      record r {
        pending = some (record {
          buffer = take taken first;
          remaining = total - taken;
          next_sequence_number = 1;
          remaining_in_block = block_allowance r;
        });
      },
      send_flow_control (build_flow_control r flow_status_continue),
    )

on_first_frame : Receiver → List ℕ → Receiver × ReceiveOutcome
unfolding open_message
on_first_frame r frame =
    let total = get_or frame 0 0 % 16 * 256 + get_or frame 1 0 in
    if r.is_functional
    then (r, nothing)
    else if ltb (length frame) 2
    then (r, nothing)
    else if leb total consecutive_frame_payload
    then (r, nothing)
    else if ltb r.max_pdu_length total
    then (record r { pending = none }, refused (build_flow_control r flow_status_overflow))
    else open_message r frame total

-- What follows the copy of the payload: the block limit. `r` has no message pending.
unfoldable pub account_block : Option ℕ → Receiver → Pending → Receiver × ReceiveOutcome
account_block none r p = (record r { pending = some p }, nothing)
account_block (some remaining) r p =
    let left = remaining - 1 in
    if left == 0
    then (
      record r { pending = some (record p { remaining_in_block = block_allowance r }) },
      send_flow_control (build_flow_control r flow_status_continue),
    )
    else (record r { pending = some (record p { remaining_in_block = some left }) }, nothing)

-- The message with one more slice.
append_slice : Pending → List ℕ → Pending
append_slice p frame =
    let payload = drop 1 frame in
    let count = min (length payload) p.remaining in
    record p {
      buffer = p.buffer ++ take count payload;
      remaining = p.remaining - count;
      next_sequence_number = (p.next_sequence_number + 1) % 256 % 16;
    }

-- A nibble less a nibble, as u8, then masked to a nibble.
unfoldable pub missing_frames : ℕ → ℕ → ℕ
missing_frames received expected = (received + 256 - expected) % 256 % 16

continue_message : Receiver → Pending → List ℕ → Receiver × ReceiveOutcome
unfolding account_block append_slice missing_frames
continue_message r p frame =
    let received = get_or frame 0 0 % 16 in
    let q = append_slice p frame in
    if received == p.next_sequence_number
    then (if q.remaining == 0
        then (r, completed q.buffer)
        else account_block q.remaining_in_block r q)
    else (
      r,
      aborted (
          wrong_sequence_number p.next_sequence_number received
            (missing_frames received p.next_sequence_number)),
    )

on_pending : Option Pending → Receiver → List ℕ → Receiver × ReceiveOutcome
unfolding continue_message
on_pending none r frame = (r, nothing)
on_pending (some p) r frame = continue_message r p frame

on_consecutive_frame : Receiver → List ℕ → Receiver × ReceiveOutcome
unfolding on_pending
on_consecutive_frame r frame = on_pending r.pending (record r { pending = none }) frame

-- The `match` on the PCI type, a nibble; a flow control belongs to the transmitting end.
on_pci : ℕ → Receiver → List ℕ → Receiver × ReceiveOutcome
unfolding on_single_frame on_first_frame on_consecutive_frame
on_pci pci r frame =
    if pci == 0x0
    then on_single_frame r frame
    else if pci == 0x1
    then on_first_frame r frame
    else if pci == 0x2
    then on_consecutive_frame r frame
    else (r, nothing)

unfoldable pub on_frame : Receiver → List ℕ → Receiver × ReceiveOutcome
unfolding on_pci
on_frame r [] = (r, nothing)
on_frame r (first ∷ rest) = on_pci (first / 16) r (first ∷ rest)
