-- ===== src/Isotp/Transmit/Drain.antt =====
-- The frames that the transmitter puts on the wire when nothing holds it back: the loop
-- `while let Some(frame) = NextConsecutiveFrame()` that its callers run in each block
-- (engine/crates/bridge/src/lib.rs, `TransmitPdu`), on fuel, against the list of segments.
use diagnostic_vehicle_simul.Prelude.{
  ℕ, zero, suc, ◌+◌, ◌%◌, ◌≤◌, ◌<◌, ◌≡◌, refl, sym, ap, ◌∙◌, Bool-cases, ltb, inl, inr, Option,
  none, some, List, [], ◌∷◌, length, if◌then◌else◌, ltb→lt, ltb-false→le, arith,
}
use diagnostic_vehicle_simul.Isotp.Segments.{slice_length, segment}
use diagnostic_vehicle_simul.Isotp.Transmit.{Transmitter, sending_block, next_consecutive_frame}
use diagnostic_vehicle_simul.Isotp.Transmit.Progress.{advanced, next_unlimited}

unfoldable pub drain : ℕ → Transmitter → List (List ℕ)
drain zero t = []
drain (suc fuel) t = elim (next_consecutive_frame t).1 [
  | none ↦ []
  | some frame ↦ frame ∷ drain fuel (next_consecutive_frame t).0
]

-- The consecutive frames of a PDU from byte `k` on, at most `fuel` of them.
unfoldable pub segments : ℕ → Option ℕ → List ℕ → ℕ → ℕ → List (List ℕ)
segments zero byte pdu sequence k = []
segments (suc fuel) byte pdu sequence k =
    let k' = k + slice_length (length pdu) k in
    let rest = segments fuel byte pdu ((sequence + 1) % 256 % 16) k' in
    if ltb k (length pdu) then segment byte pdu sequence k ∷ rest else []

pub drain_stopped : (fuel : ℕ) (t : Transmitter) → length t.pdu ≤ t.sent_bytes → drain fuel t ≡ []
unfolding drain next_consecutive_frame
drain_stopped zero t h = refl
drain_stopped (suc fuel) t h = ground arith

pub segments_stopped :
    (fuel : ℕ) (byte : Option ℕ) (pdu : List ℕ) (sequence k : ℕ)
    → length pdu ≤ k
    → segments fuel byte pdu sequence k ≡ []
unfolding segments
segments_stopped zero byte pdu sequence k h = refl
segments_stopped (suc fuel) byte pdu sequence k h = ground arith

drain_more :
    (fuel : ℕ) (t s : Transmitter) (frame : List ℕ)
    → next_consecutive_frame t ≡ (s, some frame)
    → drain (suc fuel) t ≡ frame ∷ drain fuel s
unfolding drain
drain_more fuel t s frame e = ground arith

pub segments_more :
    (fuel : ℕ) (byte : Option ℕ) (pdu : List ℕ) (sequence k : ℕ)
    → k < length pdu
    → segments (suc fuel) byte pdu sequence k
      ≡ segment byte pdu sequence k
        ∷ segments fuel byte pdu ((sequence + 1) % 256 % 16) (k + slice_length (length pdu) k)
unfolding segments
segments_more fuel byte pdu sequence k h = ground arith

advanced_state :
    (t : Transmitter)
    → t.state ≡ sending_block
    → t.sent_bytes + slice_length (length t.pdu) t.sent_bytes < length t.pdu
    → (advanced t none).state ≡ sending_block
advanced_state t s h = ground arith

-- A transmitter that is cleared to send with no block limit emits the segments of the rest of its
-- PDU, numbered from its own sequence number, and nothing else.
pub drain-segments :
    (fuel : ℕ) (t : Transmitter)
    → t.state ≡ sending_block
    → t.remaining_in_block ≡ none
    → drain fuel t ≡ segments fuel t.params.padding_byte t.pdu t.sequence_number t.sent_bytes
unfolding drain segments
drain-segments zero t s b = refl
drain-segments (suc fuel) t s b = elim (Bool-cases (ltb t.sent_bytes (length t.pdu))) [
  | inr end ↦
      let h = ltb-false→le t.sent_bytes (length t.pdu) end in
      drain_stopped (suc fuel) t h
      ∙ sym (segments_stopped (suc fuel) byte t.pdu t.sequence_number t.sent_bytes h)
  | inl more ↦
      let h = ltb→lt t.sent_bytes (length t.pdu) more in
      drain_more fuel t (advanced t none) frame (next_unlimited t s h b)
      ∙ ap (◌∷◌ frame) (elim (Bool-cases (ltb k (length t.pdu))) [
        | inl again ↦
            drain-segments fuel (advanced t none)
              (advanced_state t s (ltb→lt k (length t.pdu) again)) refl
        | inr over ↦
            let g = ltb-false→le k (length t.pdu) over in
            drain_stopped fuel (advanced t none) g
            ∙ sym (segments_stopped fuel byte t.pdu ((t.sequence_number + 1) % 256 % 16) k g)
      ])
      ∙ sym (segments_more fuel byte t.pdu t.sequence_number t.sent_bytes h)
]
  where
    byte : Option ℕ
    byte = t.params.padding_byte

    k : ℕ
    k = t.sent_bytes + slice_length (length t.pdu) t.sent_bytes

    frame : List ℕ
    frame = segment byte t.pdu t.sequence_number t.sent_bytes
