-- ===== src/Isotp/Link/Delivery.antt =====
-- The transfer of a whole PDU over the link, whatever block size the receiver asks for.
use diagnostic_vehicle_simul.Prelude.{
  ℕ, suc, ◌<◌, ◌≡◌, refl, ◌⊎◌, Option, none, some, List, [], ◌∷◌, length, arith,
}
use diagnostic_vehicle_simul.Isotp.Params.Padding.{apply_padding-append}
use diagnostic_vehicle_simul.Isotp.Transmit.{
  Transmitter, sending_block, awaiting_flow_control, next_consecutive_frame, on_flow_control,
}
use diagnostic_vehicle_simul.Isotp.Transmit.Progress.{next_unlimited, next_limited}
use diagnostic_vehicle_simul.Isotp.Receive.{
  Receiver, account_block, block_allowance, build_flow_control, flow_status_continue,
}
use diagnostic_vehicle_simul.Isotp.Receive.Progress.{
  holding, next_index, next_number, on_frame-segment_more,
}
use diagnostic_vehicle_simul.Isotp.Link.{Link, step}

-- The transmitter is in a block, and both ends agree on where they are in the message.
pub record IsSending (l : Link) (pdu : List ℕ) (k sequence : ℕ) (block : Option ℕ) : Type 0 where
  pub state : l.tx.state ≡ sending_block
  pub sent : l.tx.sent_bytes ≡ k
  pub message : l.tx.pdu ≡ pdu
  pub number : l.tx.sequence_number ≡ sequence
  pub allowed : l.tx.remaining_in_block ≡ block
  pub held : l.rx.pending ≡ some (holding pdu k sequence block)
  pub quiet : l.inbox ≡ []
  pub open_end : l.done ≡ none
  pub inside : k < length pdu
  pub nibble : sequence < 16

pub step_unlimited :
    (l : Link) (pdu : List ℕ) (k sequence : ℕ)
    → IsSending l pdu k sequence none
    → next_index pdu k < length pdu
    → IsSending (step l) pdu (next_index pdu k) (next_number sequence) none
unfolding step account_block
step_unlimited l pdu k sequence s h = ground (
  arith,
  next_unlimited l.tx s.state,
  on_frame-segment_more l.rx l.tx.params.padding_byte pdu sequence k none s.nibble s.inside s.held
      h,
)

pub step_limited :
    (l : Link) (pdu : List ℕ) (k sequence left : ℕ)
    → IsSending l pdu k sequence (some (suc (suc left)))
    → next_index pdu k < length pdu
    → IsSending (step l) pdu (next_index pdu k) (next_number sequence) (some (suc left))
unfolding step account_block
step_limited l pdu k sequence left s h = ground (
  arith,
  next_limited l.tx (suc left) s.state,
  on_frame-segment_more l.rx l.tx.params.padding_byte pdu sequence k (some (suc (suc left)))
      s.nibble s.inside s.held h,
)

-- The transmitter owes nothing more before the flow control in its inbox, and the receiver holds
-- what has been sent.
pub record IsWaiting (l : Link) (pdu : List ℕ) (k sequence : ℕ) : Type 0 where
  pub stopped :
      (l.tx.state ≡ awaiting_flow_control)
      ⊎ (l.tx.state ≡ sending_block) × (l.tx.remaining_in_block ≡ some 0)
  pub sent : l.tx.sent_bytes ≡ k
  pub message : l.tx.pdu ≡ pdu
  pub number : l.tx.sequence_number ≡ sequence
  pub held : l.rx.pending ≡ some (holding pdu k sequence (block_allowance l.rx))
  pub answered : l.inbox ≡ build_flow_control l.rx flow_status_continue ∷ []
  pub open_end : l.done ≡ none
  pub inside : k < length pdu
  pub nibble : sequence < 16

pub step_block_end :
    (l : Link) (pdu : List ℕ) (k sequence : ℕ)
    → IsSending l pdu k sequence (some 1)
    → next_index pdu k < length pdu
    → IsWaiting (step l) pdu (next_index pdu k) (next_number sequence)
unfolding step account_block block_allowance build_flow_control
step_block_end l pdu k sequence s h = ground (
  arith,
  next_limited l.tx 0 s.state,
  on_frame-segment_more l.rx l.tx.params.padding_byte pdu sequence k (some 1) s.nibble s.inside
      s.held h,
)

next_stopped :
    (t : Transmitter)
    → (t.state ≡ awaiting_flow_control)
      ⊎ (t.state ≡ sending_block) × (t.remaining_in_block ≡ some 0)
    → t.sent_bytes < length t.pdu
    → next_consecutive_frame t ≡ (record t { state = awaiting_flow_control }, none)
unfolding next_consecutive_frame
next_stopped t s h = ground arith

-- The flow control of a receiver, and what it makes of a transmitter that waits for one.
on_flow_control-continue :
    (t : Transmitter) (r : Receiver)
    → t.state ≡ awaiting_flow_control
    → let t' = (on_flow_control t (build_flow_control r flow_status_continue)).0 in
      (t'.state ≡ sending_block)
      × (t'.remaining_in_block ≡ block_allowance r)
      × (t'.sent_bytes ≡ t.sent_bytes)
      × (t'.pdu ≡ t.pdu)
      × (t'.sequence_number ≡ t.sequence_number)
unfolding on_flow_control build_flow_control block_allowance
on_flow_control-continue t r s = ground (
  arith,
  apply_padding-append
      (flow_status_continue ∷ r.params.block_size ∷ r.params.separation_time_min ∷ [])
      r.params.padding_byte,
)

pub step_waiting :
    (l : Link) (pdu : List ℕ) (k sequence : ℕ)
    → IsWaiting l pdu k sequence
    → IsSending (step l) pdu k sequence (block_allowance l.rx)
unfolding step
step_waiting l pdu k sequence w = ground (
  arith,
  next_stopped l.tx w.stopped,
  on_flow_control-continue (record l.tx { state = awaiting_flow_control }) l.rx refl,
)
