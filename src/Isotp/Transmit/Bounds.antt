-- ===== src/Isotp/Transmit/Bounds.antt =====
-- What holds of a transmitter between two calls.
use diagnostic_vehicle_simul.Prelude.{
  ℕ, ◌≤◌, ◌<◌, ◌≡◌, ◌≢◌, ◌⊎◌, false, ◌||◌, List, [], ◌∷◌, arith, length, err,
}
use diagnostic_vehicle_simul.Isotp.Params.{Parameters, max_wait_frames}
use diagnostic_vehicle_simul.Isotp.Transmit.{
  complete, Transmitter, new, is_awaiting, is_sending, start, begin, begin_single, begin_multi,
  build_first_frame, build_consecutive_frame, on_flow_control, on_flow_status, on_continue_to_send,
  on_wait, abort, on_flow_control_timeout, emit, emit_in_block, next_consecutive_frame,
  TransportError,
}

-- No more than the PDU has been sent, all of it once the transfer is complete and not all of it
-- while it goes on; the sequence number is a nibble, and while it goes on, the transmitter has
-- not been put off more often than it accepts.
pub record IsBounded (t : Transmitter) : Type 0 where
  pub within : t.sent_bytes ≤ length t.pdu
  pub nibble : t.sequence_number < 16
  pub whole : (t.state ≢ complete) ⊎ (t.sent_bytes ≡ length t.pdu)
  pub unfinished :
      ((is_awaiting t.state || is_sending t.state) ≡ false) ⊎ (t.sent_bytes < length t.pdu)
  pub patient :
      ((is_awaiting t.state || is_sending t.state) ≡ false) ⊎ (t.wait_count ≤ max_wait_frames)

-- What the callers of a transmitter do with it.
pub data Action : Type 0 where
  send receive : List ℕ → Action
  expire next : Action

pub act : Action → Transmitter → Transmitter
act (send pdu) t = (begin t pdu).0
act (receive frame) t = (on_flow_control t frame).0
act expire t = (on_flow_control_timeout t).0
act next t = (next_consecutive_frame t).0

pub act_all : List Action → Transmitter → Transmitter
act_all [] t = t
act_all (a ∷ actions) t = act_all actions (act a t)

begin-IsBounded : (t : Transmitter) (pdu : List ℕ) → IsBounded t → IsBounded (begin t pdu).0
unfolding begin begin_single begin_multi build_first_frame start
begin-IsBounded t pdu h = ground arith

on_flow_control-IsBounded :
    (t : Transmitter) (frame : List ℕ) → IsBounded t → IsBounded (on_flow_control t frame).0
unfolding on_flow_control on_flow_status on_continue_to_send on_wait abort
on_flow_control-IsBounded t frame h = ground arith

timeout-IsBounded : (t : Transmitter) → IsBounded t → IsBounded (on_flow_control_timeout t).0
unfolding on_flow_control_timeout abort
timeout-IsBounded t h = ground arith

next-IsBounded : (t : Transmitter) → IsBounded t → IsBounded (next_consecutive_frame t).0
unfolding next_consecutive_frame emit_in_block emit build_consecutive_frame
next-IsBounded t h = ground arith

act-IsBounded : (a : Action) (t : Transmitter) → IsBounded t → IsBounded (act a t)
unfolding act
act-IsBounded (send pdu) t h = begin-IsBounded t pdu h
act-IsBounded (receive frame) t h = on_flow_control-IsBounded t frame h
act-IsBounded expire t h = timeout-IsBounded t h
act-IsBounded next t h = next-IsBounded t h

act_all-keeps-IsBounded :
    (actions : List Action) (t : Transmitter) → IsBounded t → IsBounded (act_all actions t)
unfolding act_all
act_all-keeps-IsBounded [] t h = h
act_all-keeps-IsBounded (a ∷ actions) t h =
    act_all-keeps-IsBounded actions (act a t) (act-IsBounded a t h)

new-IsBounded : (params : Parameters) → IsBounded (new params)
unfolding new
new-IsBounded params = ground arith

-- Whatever a new transmitter is told to send, and whatever flow controls, timeouts and requests for
-- the next frame come in whatever order, it has never sent more than its PDU; when it says that a
-- transfer is complete, all of it has been sent; its sequence number is a nibble; and while a
-- transfer goes on, not all of it has been sent, and at most ten waits have been counted.
pub act_all-IsBounded :
    (params : Parameters) (actions : List Action) → IsBounded (act_all actions (new params))
act_all-IsBounded params actions =
    act_all-keeps-IsBounded actions (new params) (new-IsBounded params)

-- A PDU that is refused is empty or longer than 4095 bytes, and its refusal leaves the transmitter
-- as it was.
pub begin-refused :
    (t : Transmitter) (pdu : List ℕ) (e : TransportError)
    → (begin t pdu).1 ≡ err e
    → ((pdu ≡ []) ⊎ (4095 < length pdu)) × ((begin t pdu).0 ≡ t)
unfolding begin begin_single begin_multi
begin-refused t pdu e h = ground arith
