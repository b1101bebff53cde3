-- ===== src/Tests/Isotp.antt =====
-- A PDU of twenty bytes, as the answer that reads a vehicle identification number has.
use diagnostic_vehicle_simul.Prelude.{
  ℕ, All, ◌≡◌, refl, true, false, none, some, List, [], ◌∷◌, ◌++◌, arith,
}
use diagnostic_vehicle_simul.Isotp.Params.{Parameters, apply_padding}
use diagnostic_vehicle_simul.Isotp.Transmit.{Transmitter, sending_block, new}
use diagnostic_vehicle_simul.Isotp.Transmit.Bounds.{
  IsBounded, send, receive, next, act_all, act_all-IsBounded,
}
use diagnostic_vehicle_simul.Isotp.Transmit.Drain.{drain, segments, drain-segments}
use diagnostic_vehicle_simul.Isotp.Receive.{Receiver, on_frame}
use diagnostic_vehicle_simul.Isotp.Receive.Sound.{IsSound, IsProper, on_frame-IsSound}
use diagnostic_vehicle_simul.Isotp.Reassemble.{reassemble_stream}
use diagnostic_vehicle_simul.Isotp.Reassemble.Sent.{
  recording, sent_frames, last_frame, reassemble_stream-sent_frames,
}
use diagnostic_vehicle_simul.Can.Frame.{CanFrame, new_classic}
use diagnostic_vehicle_simul.Isotp.Receive.Agree.{IsOrdinary, live, pdus, live-reassemble_stream}
use diagnostic_vehicle_simul.Isotp.Link.{transfer}
use diagnostic_vehicle_simul.Isotp.Link.Transfer.{transfer_delivers}
use diagnostic_vehicle_simul.Isotp.Params.Padding.{padding, apply_padding-append}

abbrev vin : List ℕ
vin =
    0x62 ∷ 0xF1 ∷ 0x90 ∷ 0x31 ∷ 0x48 ∷ 0x47 ∷ 0x43 ∷ 0x4D ∷ 0x38 ∷ 0x32 ∷ 0x36 ∷ 0x33 ∷ 0x33 ∷ 0x41
    ∷ 0x30 ∷ 0x30 ∷ 0x34 ∷ 0x33 ∷ 0x35 ∷ 0x32 ∷ []

abbrev one_at_a_time : Parameters
one_at_a_time = record { block_size = 1; separation_time_min = 0; padding_byte = some 0xAA }

abbrev tester : Receiver
tester = record {
  params = one_at_a_time;
  max_pdu_length = 4095;
  is_functional = false;
  pending = none;
}

abbrev broadcast : Receiver
broadcast = record tester { is_functional = true }

abbrev sending : Transmitter
sending = record {
  params = one_at_a_time;
  pdu = vin;
  sent_bytes = 6;
  sequence_number = 1;
  remaining_in_block = none;
  separation_time = 0;
  wait_count = 0;
  frames_sent = 1;
  state = sending_block;
}

abbrev first_frame : List ℕ
first_frame = 0x10 ∷ 0x14 ∷ 0x62 ∷ 0xF1 ∷ 0x90 ∷ 0x31 ∷ 0x48 ∷ 0x47 ∷ []

abbrev consecutive_frame : List ℕ
consecutive_frame = 0x21 ∷ 0x43 ∷ 0x4D ∷ 0x38 ∷ 0x32 ∷ 0x36 ∷ 0x33 ∷ 0x33 ∷ []

transfer_delivers_example : transfer 40 one_at_a_time tester vin ≡ some vin
transfer_delivers_example =
    transfer_delivers one_at_a_time tester vin 40 refl (ground arith) (ground arith) (ground arith)
      (ground arith)

reassemble_stream-sent_frames_example :
    reassemble_stream (recording (λ (i : ℕ). i) 0x7E8 0 (sent_frames 20 one_at_a_time 0 vin) ++ [])
    ≡ record { started_at = 0; completed_at = last_frame 20; pdu = vin }
      ∷ reassemble_stream {Time = ℕ} []
reassemble_stream-sent_frames_example =
    reassemble_stream-sent_frames (λ (i : ℕ). i) 0x7E8 one_at_a_time 0 vin 20 [] (ground arith)
      (ground arith) (ground arith)

on_frame-IsSound_example :
    IsSound (on_frame tester first_frame).0
    × IsProper tester (on_frame tester first_frame).1
    × ((on_frame tester first_frame).0.max_pdu_length ≡ 4095)
on_frame-IsSound_example = on_frame-IsSound tester first_frame tt (ground arith)

drain-segments_example : drain 5 sending ≡ segments 5 (some 0xAA) vin 1 6
drain-segments_example = drain-segments 5 sending refl refl

apply_padding-append_example :
    apply_padding (0x30 ∷ 0x01 ∷ 0x00 ∷ []) (some 0xAA)
    ≡ (0x30 ∷ 0x01 ∷ 0x00 ∷ []) ++ padding (some 0xAA) 3
apply_padding-append_example = apply_padding-append (0x30 ∷ 0x01 ∷ 0x00 ∷ []) (some 0xAA)

act_all-IsBounded_example :
    IsBounded
      (act_all (send vin ∷ receive (0x30 ∷ 0 ∷ 0 ∷ []) ∷ next ∷ next ∷ []) (new one_at_a_time))
act_all-IsBounded_example =
    act_all-IsBounded one_at_a_time (send vin ∷ receive (0x30 ∷ 0 ∷ 0 ∷ []) ∷ next ∷ next ∷ [])

abbrev heard : List (CanFrame ℕ)
heard =
    new_classic 0 0x7E8 first_frame
    ∷ new_classic 1 0x7E8 consecutive_frame
    ∷ new_classic 2 0x7E8 (0x30 ∷ 0x00 ∷ 0x00 ∷ [])
    ∷ new_classic 3 0x7E8 (0x23 ∷ 0x41 ∷ [])
    ∷ new_classic 4 0x7E8 (0x02 ∷ 0x7E ∷ 0x00 ∷ [])
    ∷ []

heard-IsOrdinary : All (λ (frame : CanFrame ℕ). IsOrdinary 4095 frame.data_bytes) heard
unfolding new_classic
heard-IsOrdinary = ground arith

live-reassemble_stream_example : live tester heard ≡ pdus (reassemble_stream heard)
live-reassemble_stream_example = live-reassemble_stream tester heard refl refl heard-IsOrdinary
