-- ===== src/Isotp/Transmit.antt =====
-- The transmitting end of ISO-TP (engine/crates/isotp/src/tx.rs). A method that takes `&mut self`
-- returns the new transmitter beside its result. A slice `&pdu[a..a + n]` is
-- `take n (drop a pdu)`, and the bit patterns `HI | lo` of the PCI bytes, whose halves share no
-- bit, are written as sums. Only logging is left out.
pub mod Progress
pub mod Drain
pub mod Bounds
use diagnostic_vehicle_simul.Prelude.{
  ℕ, zero, suc, ◌+◌, ◌-◌, ◌*◌, ◌/◌, ◌%◌, min, Bool, true, false, Option, none, some, List, [], ◌∷◌,
  ◌++◌, if◌then◌else◌, ltb, leb, ◌==◌, length, is_empty, get_or, take, drop, Result, ok, err,
}
use diagnostic_vehicle_simul.Isotp.Params.{
  Parameters, apply_padding, decode_separation_time, max_classic_pdu_length,
  max_single_frame_length, first_frame_payload, consecutive_frame_payload, max_wait_frames,
}

-- `IsoTpTransportError`.
pub data TransportError : Type 0 where
  pdu_too_long : ℕ → TransportError
  empty_pdu : TransportError
  flow_control_timeout : ℕ → TransportError
  too_many_wait_frames : ℕ → TransportError
  receiver_overflow : TransportError
  invalid_flow_status : ℕ → TransportError

pub data TransmitState : Type 0 where
  idle awaiting_flow_control sending_block complete : TransmitState
  aborted : TransportError → TransmitState

-- `IsoTpTransmitter`.
pub record Transmitter : Type 0 where
  pub params : Parameters
  pub pdu : List ℕ
  pub sent_bytes : ℕ
  pub sequence_number : ℕ  -- u8
  pub remaining_in_block : Option ℕ  -- u8
  pub separation_time : ℕ  -- microseconds
  pub wait_count : ℕ  -- u8
  pub frames_sent : ℕ
  pub state : TransmitState

unfoldable pub new : Parameters → Transmitter
new params = record {
  params = params;
  pdu = [];
  sent_bytes = 0;
  sequence_number = 1;
  remaining_in_block = none;
  separation_time = 0;
  wait_count = 0;
  frames_sent = 0;
  state = idle;
}

abbrev pub is_awaiting : TransmitState → Bool
is_awaiting awaiting_flow_control = true
is_awaiting _ = false

abbrev pub is_sending : TransmitState → Bool
is_sending sending_block = true
is_sending _ = false

-- `Abort`.
abort : Transmitter → TransportError → Transmitter × Result TransportError (Unit {0})
abort t error = (record t { state = aborted error }, err error)

build_single_frame : Transmitter → List ℕ
build_single_frame t = apply_padding ((length t.pdu % 256) ∷ t.pdu) t.params.padding_byte

build_first_frame : Transmitter → Transmitter × List ℕ
build_first_frame t =
    let total = length t.pdu in
    (
      record t { sent_bytes = first_frame_payload },
      (0x10 + total / 256 % 256 % 16) ∷ (total % 256) ∷ take first_frame_payload t.pdu,
    )

build_consecutive_frame : Transmitter → Transmitter × List ℕ
build_consecutive_frame t =
    let count = min (length t.pdu - t.sent_bytes) consecutive_frame_payload in
    (
      record t {
        sent_bytes = t.sent_bytes + count;
        sequence_number = (t.sequence_number + 1) % 256 % 16;
      },
      apply_padding ((0x20 + t.sequence_number % 16) ∷ take count (drop t.sent_bytes t.pdu))
          t.params.padding_byte,
    )

-- The transfer that `Begin` starts, once its two checks have passed.
start : Transmitter → List ℕ → Transmitter
start t pdu = record t {
  pdu = pdu;
  sent_bytes = 0;
  sequence_number = 1;
  wait_count = 0;
  frames_sent = 1;
}

begin_single : Transmitter → Transmitter × Result TransportError (List ℕ)
unfolding build_single_frame
begin_single t =
    let s = record t { state = complete; sent_bytes = length t.pdu } in
    (s, ok (build_single_frame s))

begin_multi : Transmitter → Transmitter × Result TransportError (List ℕ)
unfolding build_first_frame
begin_multi t =
    let (s, frame) = build_first_frame (record t { state = awaiting_flow_control }) in (s, ok frame)

unfoldable pub begin : Transmitter → List ℕ → Transmitter × Result TransportError (List ℕ)
unfolding start begin_single begin_multi
begin t pdu =
    if is_empty pdu
    then (t, err empty_pdu)
    else if ltb max_classic_pdu_length (length pdu)
    then (t, err (pdu_too_long (length pdu)))
    else if leb (length pdu) max_single_frame_length
    then begin_single (start t pdu)
    else begin_multi (start t pdu)

on_continue_to_send : Transmitter → ℕ → ℕ → Transmitter × Result TransportError (Unit {0})
on_continue_to_send t block_size separation_time = (
  record t {
    wait_count = 0;
    remaining_in_block = if block_size == 0 then none else some block_size;
    separation_time = decode_separation_time separation_time;
    state = sending_block;
  },
  ok tt,
)

-- `wait_count` is at most ten before the addition, so the u8 sum does not wrap.
on_wait : Transmitter → Transmitter × Result TransportError (Unit {0})
unfolding abort
on_wait t =
    let s = record t { wait_count = (t.wait_count + 1) % 256 } in
    if ltb max_wait_frames s.wait_count
    then abort s (too_many_wait_frames s.wait_count)
    else (s, ok tt)

-- The `match` on the flow status, a nibble.
on_flow_status : ℕ → Transmitter → List ℕ → Transmitter × Result TransportError (Unit {0})
unfolding on_continue_to_send on_wait abort
on_flow_status status t frame =
    if status == 0x00
    then on_continue_to_send t (get_or frame 1 0) (get_or frame 2 0)
    else if status == 0x01
    then on_wait t
    else if status == 0x02
    then abort t receiver_overflow
    else abort t (invalid_flow_status status)

-- The frame is indexed only where it has three bytes, so the default 0 is never read.
unfoldable pub on_flow_control :
    Transmitter → List ℕ → Transmitter × Result TransportError (Unit {0})
unfolding on_flow_status
on_flow_control t frame =
    if is_awaiting t.state
    then if ltb (length frame) 3 then (t, ok tt) else on_flow_status (get_or frame 0 0 % 16) t frame
    else (t, ok tt)

unfoldable pub on_flow_control_timeout :
    Transmitter → Transmitter × Result TransportError (Unit {0})
unfolding abort
on_flow_control_timeout t = abort t (flow_control_timeout t.frames_sent)

-- The tail of `NextConsecutiveFrame`, once the block has room.
emit : Transmitter → Transmitter × Option (List ℕ)
unfolding build_consecutive_frame
emit t =
    let (s, frame) = build_consecutive_frame t in
    let s' = record s { frames_sent = s.frames_sent + 1 } in
    (if leb (length s'.pdu) s'.sent_bytes then record s' { state = complete } else s', some frame)

-- Its `if let Some(u8Remaining)`.
emit_in_block : Option ℕ → Transmitter → Transmitter × Option (List ℕ)
unfolding emit
emit_in_block none t = emit t
emit_in_block (some remaining) t =
    if remaining == 0
    then (record t { state = awaiting_flow_control }, none)
    else emit (record t { remaining_in_block = some (remaining - 1) })

unfoldable pub next_consecutive_frame : Transmitter → Transmitter × Option (List ℕ)
unfolding emit_in_block
next_consecutive_frame t =
    if is_sending t.state
    then if leb (length t.pdu) t.sent_bytes
      then (record t { state = complete }, none)
      else emit_in_block t.remaining_in_block t
    else (t, none)
