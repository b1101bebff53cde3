-- ===== src/Isotp/Link/Opening.antt =====
-- The first frame of a transfer, from `Begin` to the receiver's answer.
use diagnostic_vehicle_simul.Prelude.{
  ℕ, suc, ◌+◌, ◌/◌, ◌%◌, ◌≤◌, ◌<◌, ◌≡◌, refl, false, none, some, List, ◌∷◌, ◌++◌, length, take, ok,
  arith, take_all, take-append_length, length-take, length-append,
}
use diagnostic_vehicle_simul.Isotp.Params.{Parameters}
use diagnostic_vehicle_simul.Isotp.Params.Padding.{padding, apply_padding-append}
use diagnostic_vehicle_simul.Isotp.Transmit
use diagnostic_vehicle_simul.Isotp.Transmit.{
  Transmitter, TransmitState, awaiting_flow_control, complete, begin,
}
use diagnostic_vehicle_simul.Isotp.Receive.{
  Receiver, on_frame, block_allowance, build_flow_control, completed, send_flow_control,
  flow_status_continue,
}
use diagnostic_vehicle_simul.Isotp.Receive.Progress.{holding}

-- The transmitter once the first frame of a long PDU is out.
abbrev pub opened_tx : Parameters → List ℕ → Transmitter
opened_tx params pdu = record {
  params = params;
  pdu = pdu;
  sent_bytes = 6;
  sequence_number = 1;
  remaining_in_block = none;
  separation_time = 0;
  wait_count = 0;
  frames_sent = 1;
  state = awaiting_flow_control;
}

abbrev pub first_frame : List ℕ → List ℕ
first_frame pdu = (0x10 + length pdu / 256 % 256 % 16) ∷ (length pdu % 256) ∷ take 6 pdu

pub begin_long :
    (params : Parameters) (pdu : List ℕ)
    → 7 < length pdu
    → length pdu ≤ 4095
    → begin (Transmit.new params) pdu ≡ (opened_tx params pdu, ok (first_frame pdu))
unfolding begin Transmit.new
begin_long params pdu h k = ground arith

pub on_frame_first :
    (r : Receiver) (pdu : List ℕ)
    → r.is_functional ≡ false
    → 7 < length pdu
    → length pdu ≤ 4095
    → length pdu ≤ r.max_pdu_length
    → on_frame r (first_frame pdu) ≡ (
      record r { pending = some (holding pdu 6 1 (block_allowance r)) },
      send_flow_control (build_flow_control r flow_status_continue),
    )
unfolding on_frame
on_frame_first r pdu f h k m = ground (arith, length-take 6 pdu, take_all 6 (take 6 pdu))

-- The only frame of a short PDU.
abbrev pub single_frame : Parameters → List ℕ → List ℕ
single_frame params pdu = (length pdu % 256) ∷ pdu ++ padding params.padding_byte (suc (length pdu))

-- The transmitter once it is out.
abbrev pub finished_tx : Parameters → List ℕ → Transmitter
finished_tx params pdu =
    let t = opened_tx params pdu in record t { sent_bytes = length pdu; state = complete }

pub begin_short :
    (params : Parameters) (pdu : List ℕ)
    → 0 < length pdu
    → length pdu ≤ 7
    → begin (Transmit.new params) pdu ≡ (finished_tx params pdu, ok (single_frame params pdu))
unfolding begin Transmit.new
begin_short params pdu h k =
    ground (arith, apply_padding-append ((length pdu % 256) ∷ pdu) params.padding_byte)

pub on_frame_single :
    (r : Receiver) (params : Parameters) (pdu : List ℕ)
    → 0 < length pdu
    → length pdu ≤ 7
    → on_frame r (single_frame params pdu) ≡ (record r { pending = none }, completed pdu)
unfolding on_frame
on_frame_single r params pdu h k = ground (
  arith,
  take-append_length (length pdu) pdu (padding params.padding_byte (suc (length pdu))) refl,
  length-append pdu (padding params.padding_byte (suc (length pdu))),
)
