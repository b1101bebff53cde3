-- ===== src/Isotp/Reassemble/Sent.antt =====
-- Offline reassembly of what the transmitter sends.
use diagnostic_vehicle_simul.Prelude.{
  ℕ, zero, suc, ◌+◌, ◌-◌, ◌/◌, ◌%◌, ◌≤◌, ◌<◌, ◌≡◌, refl, ap, ◌∙◌, Bool-cases, ltb, leb, inl, inr,
  Option, none, some, List, [], ◌∷◌, ◌++◌, length, take, take_all, length-take, take-append_length,
  length-append, ltb→lt, ltb-false→le, leb→le, leb-false→lt, arith, if◌then◌else◌, Result, ok, err,
}
use diagnostic_vehicle_simul.Can.Frame.{CanFrame, new_classic}
use diagnostic_vehicle_simul.Isotp.Params.{Parameters}
use diagnostic_vehicle_simul.Isotp.Params.{decode_separation_time}
use diagnostic_vehicle_simul.Isotp.Params.Padding.{padding}
use diagnostic_vehicle_simul.Isotp.Segments.{slice_length, segment}
use diagnostic_vehicle_simul.Isotp.Transmit
use diagnostic_vehicle_simul.Isotp.Transmit.{
  Transmitter, TransportError, sending_block, begin, on_flow_control,
}
use diagnostic_vehicle_simul.Isotp.Transmit.Drain.{
  drain, segments, segments_more, segments_stopped, drain_stopped, drain-segments,
}
use diagnostic_vehicle_simul.Isotp.Link.Opening.{
  opened_tx, first_frame, begin_long, finished_tx, single_frame, begin_short,
}
use diagnostic_vehicle_simul.Isotp.Reassemble.{
  Message, Pending, turn, reassemble_from, reassemble_stream, found, Turn,
}
use diagnostic_vehicle_simul.Isotp.Reassemble.Progress.{seen, turn-segment_more, turn-segment_last}

module _ {Time : Type 0} (clock : ℕ → Time) (can_id : ℕ) where
  -- A recording of frames on one identifier, the first at `clock i`.
  abbrev pub recording : ℕ → List (List ℕ) → List (CanFrame Time)
  recording i [] = []
  recording i (frame ∷ frames) = new_classic (clock i) can_id frame ∷ recording (suc i) frames

  -- How many segments carry the rest of a message: the last index is this one more than `i`.
  abbrev pub last_index : ℕ → ℕ → ℕ → ℕ
  last_index i n k = i + (n - k - 1) / 7

  reassemble_from_step :
      (p q : Option (Pending Time)) (m : Option (Message Time)) (frame : CanFrame Time)
      (frames : List (CanFrame Time))
      → turn p frame ≡ (q, m)
      → reassemble_from p (frame ∷ frames) ≡ found m (reassemble_from q frames)
  unfolding reassemble_from
  reassemble_from_step p q m frame frames e =
      ap (λ (t : Turn Time). found t.1 (reassemble_from t.0 frames)) e

  -- The message that the segments from byte `k` on complete.
  abbrev sent_message : Time → ℕ → List ℕ → ℕ → Message Time
  sent_message start i pdu k = record {
    started_at = start;
    completed_at = clock (last_index i (length pdu) k);
    pdu = pdu;
  }

  reassemble_from-segments :
      (fuel i : ℕ) (byte : Option ℕ) (pdu : List ℕ) (sequence k : ℕ) (start : Time)
      (rest : List (CanFrame Time))
      → sequence < 16
      → k < length pdu
      → length pdu ≤ k + fuel
      → reassemble_from
          (some (seen pdu k sequence start))
          (recording i (segments fuel byte pdu sequence k) ++ rest)
        ≡ sent_message start i pdu k ∷ reassemble_from none rest
  unfolding new_classic
  reassemble_from-segments zero i byte pdu sequence k start rest q h e = absurd (omega arith)
  reassemble_from-segments (suc fuel) i byte pdu sequence k start rest q h e =
      rw (segments_more fuel byte pdu sequence k h) (elim (Bool-cases (ltb k' (length pdu))) [
        | inl more ↦
            let g = ltb→lt k' (length pdu) more in
            let same : last_index (suc i) (length pdu) k' ≡ last_index i (length pdu) k =
              omega arith in
            reassemble_from_step _ _ _ frame _
              (turn-segment_more frame byte pdu sequence k start q h refl g)
            ∙ reassemble_from-segments fuel (suc i) byte pdu ((sequence + 1) % 256 % 16) k' start
                rest (omega arith) g (omega arith)
            ∙ ap
                (λ (j : ℕ).
                  record { started_at = start; completed_at = clock j; pdu = pdu }
                  ∷ reassemble_from none rest)
                same
        | inr end ↦
            let g = ltb-false→le k' (length pdu) end in
            let last : i ≡ last_index i (length pdu) k = omega arith in
            reassemble_from_step _ _ _ frame _
              (turn-segment_last frame byte pdu sequence k start q h refl g)
            ∙ rw (segments_stopped fuel byte pdu ((sequence + 1) % 256 % 16) k' g, ← last) refl
      ])
    where
      k' : ℕ
      k' = k + slice_length (length pdu) k

      frame : CanFrame Time
      frame = new_classic (clock i) can_id (segment byte pdu sequence k)

  turn_first :
      (pdu : List ℕ)
      → 7 < length pdu
      → length pdu ≤ 4095
      → turn none (new_classic (clock 0) can_id (first_frame pdu))
        ≡ (some (seen pdu 6 1 (clock 0)), none)
  unfolding turn new_classic
  turn_first pdu h k = ground (arith, length-take 6 pdu, take_all 6 (take 6 pdu))

  turn_single :
      (params : Parameters) (pdu : List ℕ)
      → 0 < length pdu
      → length pdu ≤ 7
      → turn none (new_classic (clock 0) can_id (single_frame params pdu))
        ≡ (none, some (record { started_at = clock 0; completed_at = clock 0; pdu = pdu }))
  unfolding turn new_classic
  turn_single params pdu h k = ground (
    arith,
    take-append_length (length pdu) pdu (padding params.padding_byte (suc (length pdu))) refl,
    length-append pdu (padding params.padding_byte (suc (length pdu))),
  )

-- The frames of a transfer that the peer clears at once, with no block limit.
frames_after : ℕ → ℕ → Transmitter → Result TransportError (List ℕ) → List (List ℕ)
frames_after fuel separation_time t (err error) = []
frames_after fuel separation_time t (ok frame) =
    frame ∷ drain fuel (on_flow_control t (0x30 ∷ 0 ∷ separation_time ∷ [])).0

pub sent_frames : ℕ → Parameters → ℕ → List ℕ → List (List ℕ)
unfolding frames_after
sent_frames fuel params separation_time pdu =
    let (t, first) = begin (Transmit.new params) pdu in frames_after fuel separation_time t first

abbrev cleared_tx : Parameters → List ℕ → ℕ → Transmitter
cleared_tx params pdu separation_time =
    let t = opened_tx params pdu in
    record t { separation_time = decode_separation_time separation_time; state = sending_block }

cleared :
    (params : Parameters) (pdu : List ℕ) (separation_time : ℕ)
    → (on_flow_control (opened_tx params pdu) (0x30 ∷ 0 ∷ separation_time ∷ [])).0
      ≡ cleared_tx params pdu separation_time
unfolding on_flow_control
cleared params pdu separation_time = refl

sent_long :
    (fuel : ℕ) (params : Parameters) (separation_time : ℕ) (pdu : List ℕ)
    → 7 < length pdu
    → length pdu ≤ 4095
    → sent_frames fuel params separation_time pdu
      ≡ first_frame pdu ∷ segments fuel params.padding_byte pdu 1 6
unfolding sent_frames
sent_long fuel params separation_time pdu h k = rw (begin_long params pdu h k) (
    ap (◌∷◌ (first_frame pdu)) (
      rw (cleared params pdu separation_time)
        (drain-segments fuel (cleared_tx params pdu separation_time) refl refl)))

sent_short :
    (fuel : ℕ) (params : Parameters) (separation_time : ℕ) (pdu : List ℕ)
    → 0 < length pdu
    → length pdu ≤ 7
    → sent_frames fuel params separation_time pdu ≡ single_frame params pdu ∷ []
unfolding sent_frames on_flow_control
sent_short fuel params separation_time pdu h k =
    rw (begin_short params pdu h k) (
      ap (◌∷◌ (single_frame params pdu))
        (drain_stopped fuel (finished_tx params pdu) (omega arith)))

-- Where the last frame of a PDU of this many bytes stands among its frames.
abbrev pub last_frame : ℕ → ℕ
last_frame n = if leb n 7 then 0 else n / 7

-- Offline reassembly of a recording that begins with the frames of one transfer, of 1 to 4095
-- bytes, padded or not, finds that PDU first, started at the time of its first frame and
-- completed at the time of its last, and then what the rest of the recording holds.
pub reassemble_stream-sent_frames :
    {Time : Type 0} (clock : ℕ → Time) (can_id : ℕ) (params : Parameters) (separation_time : ℕ)
    (pdu : List ℕ) (fuel : ℕ) (rest : List (CanFrame Time))
    → 0 < length pdu
    → length pdu ≤ 4095
    → length pdu ≤ fuel
    → reassemble_stream
        (recording clock can_id 0 (sent_frames fuel params separation_time pdu) ++ rest)
      ≡ record { started_at = clock 0; completed_at = clock (last_frame (length pdu)); pdu = pdu }
        ∷ reassemble_stream rest
unfolding reassemble_stream
reassemble_stream-sent_frames clock can_id params separation_time pdu fuel rest h k e =
    elim (Bool-cases (leb (length pdu) 7)) [
      | inl short ↦
          rw (short, sent_short fuel params separation_time pdu h (leb→le _ _ short))
            (reassemble_from_step clock can_id _ _ _ _ _
              (turn_single clock can_id params pdu h (leb→le _ _ short)))
      | inr long ↦
          let g : 7 < length pdu = leb-false→lt (length pdu) 7 long in
          let last : last_index clock can_id 1 (length pdu) 6 ≡ length pdu / 7 = omega arith in
          rw (long, sent_long fuel params separation_time pdu g k, ← last)
            (reassemble_from_step clock can_id _ _ _ _ _ (turn_first clock can_id pdu g k)
              ∙ reassemble_from-segments clock can_id fuel 1 params.padding_byte pdu 1 6 (clock 0)
                  rest (omega arith) (omega arith) (omega arith))
    ]
