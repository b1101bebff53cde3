-- ===== src/Isotp/Receive/Agree.antt =====
-- Live reception against offline reassembly of the same frames.
use diagnostic_vehicle_simul.Prelude.{
  ℕ, zero, suc, ◌+◌, ◌*◌, ◌/◌, ◌%◌, ◌≤◌, ◌<◌, ◌≡◌, refl, ◌≢◌, ◌⊎◌, ◌∙◌, false, Option, none, some,
  List, [], ◌∷◌, All, length, get_or, arith,
}
use diagnostic_vehicle_simul.Can.Frame.{CanFrame}
use diagnostic_vehicle_simul.Isotp.Reassemble
use diagnostic_vehicle_simul.Isotp.Reassemble.{
  Message, Turn, turn, single_message, decode_single_frame, single_payload, start_first_frame,
  append_consecutive, on_bytes, on_nonempty, fresh_frame, extend, reassemble_from,
  reassemble_stream, found,
}
use diagnostic_vehicle_simul.Isotp.Receive.{
  Receiver, Pending, ReceiveOutcome, nothing, completed, send_flow_control, refused, aborted,
  on_frame, on_pci, on_single_frame, on_first_frame, on_consecutive_frame, on_pending,
  account_block, continue_message, append_slice, open_message,
}

-- The PDUs that a receiver delivers while it is given a stream of frames.
abbrev pub keep : ReceiveOutcome → List (List ℕ) → List (List ℕ)
keep (completed pdu) rest = pdu ∷ rest
keep nothing rest = rest
keep (send_flow_control frame) rest = rest
keep (refused frame) rest = rest
keep (aborted error) rest = rest

module _ {Time : Type 0} where
  unfoldable pub live : Receiver → List (CanFrame Time) → List (List ℕ)
  live r [] = []
  live r (frame ∷ frames) =
      let (s, outcome) = on_frame r frame.data_bytes in keep outcome (live s frames)

  abbrev pub pdus : List (Message Time) → List (List ℕ)
  pdus [] = []
  pdus (m ∷ ms) = m.pdu ∷ pdus ms

  -- The same message in progress.
  abbrev pub Same : Option Pending → Option (Reassemble.Pending Time) → Type 0
  Same none none = Unit {0}
  Same none (some q) = ⊥
  Same (some p) none = ⊥
  Same (some p) (some q) =
      (p.buffer ≡ q.buffer)
      × (p.remaining ≡ q.remaining)
      × (p.next_sequence_number ≡ q.next_sequence_number)

  -- The same message found.
  abbrev Found : ReceiveOutcome → Option (Message Time) → Type 0
  Found (completed pdu) none = ⊥
  Found (completed pdu) (some m) = pdu ≡ m.pdu
  Found nothing none = Unit {0}
  Found nothing (some m) = ⊥
  Found (send_flow_control frame) none = Unit {0}
  Found (send_flow_control frame) (some m) = ⊥
  Found (refused frame) none = Unit {0}
  Found (refused frame) (some m) = ⊥
  Found (aborted error) none = Unit {0}
  Found (aborted error) (some m) = ⊥

  -- One frame moves both ends alike, and leaves the receiver's configuration alone.
  abbrev Alike : Receiver → Receiver × ReceiveOutcome → Turn Time → Type 0
  Alike r (s, outcome) (pending, message) =
      Same s.pending pending
      × Found outcome message
      × (s.is_functional ≡ r.is_functional)
      × (s.max_pdu_length ≡ r.max_pdu_length)

-- The length that a first frame announces.
abbrev pub announced : List ℕ → ℕ
announced frame = get_or frame 0 0 % 16 * 256 + get_or frame 1 0

-- A classic frame of a kind that ISO-TP defines: a single frame that states its length in the
-- nibble, or a first frame that announces more than a single frame holds and no more than
-- the limit.
abbrev pub IsOrdinary : ℕ → List ℕ → Type 0
IsOrdinary limit [] = Unit {0}
IsOrdinary limit (first ∷ rest) =
    (first / 16 ≤ 3)
    × ((first / 16 ≢ 0) ⊎ (first % 16 ≢ 0))
    × ((first / 16 ≢ 1)
        ⊎ ((1 ≤ length rest) × (7 < announced (first ∷ rest)) × (announced (first ∷ rest) ≤ limit)))

module _ {Time : Type 0} (r : Receiver) (frame : CanFrame Time) (first : ℕ) (rest : List ℕ)
    (bytes : frame.data_bytes ≡ first ∷ rest) where
  single-Alike : first % 16 ≢ 0 → Alike r (on_single_frame r (first ∷ rest)) (fresh_frame 0 frame)
  unfolding on_single_frame fresh_frame single_message decode_single_frame single_payload
  single-Alike h = ground arith

  first-Alike :
      r.is_functional ≡ false
      → 1 ≤ length rest
      → 7 < announced (first ∷ rest)
      → announced (first ∷ rest) ≤ r.max_pdu_length
      → Alike r (on_first_frame r (first ∷ rest)) (fresh_frame 1 frame)
  unfolding on_first_frame fresh_frame open_message start_first_frame
  first-Alike f l h k = ground arith

  fresh-on_nonempty :
      (pci : ℕ) (q : Option (Reassemble.Pending Time))
      → pci < 2
      → on_nonempty pci q frame ≡ fresh_frame pci frame
  unfolding on_nonempty
  fresh-on_nonempty pci none h = refl
  fresh-on_nonempty pci (some q) h = ground arith

  consecutive-Alike :
      (p : Option Pending) (q : Option (Reassemble.Pending Time))
      → Same p q
      → Alike r (on_pending p (record r { pending = none }) (first ∷ rest)) (on_nonempty 2 q frame)
  unfolding on_pending continue_message account_block append_slice on_nonempty extend
      append_consecutive fresh_frame
  consecutive-Alike none none s = ground arith
  consecutive-Alike none (some q) s = absurd s
  consecutive-Alike (some p) none s = absurd s
  consecutive-Alike (some p) (some q) s = ground arith

  other-Alike :
      (q : Option (Reassemble.Pending Time))
      → Same r.pending q
      → Alike r (r, nothing) (on_nonempty 3 q frame)
  unfolding on_nonempty fresh_frame
  other-Alike none s = (s, tt, refl, refl)
  other-Alike (some q) s = (s, tt, refl, refl)

  step-Alike :
      (pci : ℕ) (q : Option (Reassemble.Pending Time))
      → pci ≤ 3
      → ((pci ≢ 0) ⊎ (first % 16 ≢ 0))
      → (pci ≢ 1)
        ⊎ ((1 ≤ length rest)
            × (7 < announced (first ∷ rest))
            × (announced (first ∷ rest) ≤ r.max_pdu_length))
      → Same r.pending q
      → r.is_functional ≡ false
      → Alike r (on_pci pci r (first ∷ rest)) (on_nonempty pci q frame)
  unfolding on_pci on_consecutive_frame
  step-Alike zero q low single multi s f =
      rw (fresh-on_nonempty 0 q (ground arith)) (single-Alike (ground arith))
  step-Alike (suc zero) q low single multi s f =
      rw (fresh-on_nonempty 1 q (ground arith))
        (first-Alike f (ground arith) (ground arith) (ground arith))
  step-Alike (suc (suc zero)) q low single multi s f = consecutive-Alike r.pending q s
  step-Alike (suc (suc (suc zero))) q low single multi s f = other-Alike q s
  step-Alike (suc (suc (suc (suc n)))) q low single multi s f = ground arith

on_frame-Alike :
    {Time : Type 0} (r : Receiver) (frame : CanFrame Time) (bytes : List ℕ)
    (q : Option (Reassemble.Pending Time))
    → frame.data_bytes ≡ bytes
    → Same r.pending q
    → r.is_functional ≡ false
    → IsOrdinary r.max_pdu_length bytes
    → Alike r (on_frame r bytes) (on_bytes bytes q frame)
unfolding on_frame on_bytes
on_frame-Alike r frame [] q e s f o = (s, tt, refl, refl)
on_frame-Alike r frame (first ∷ rest) q e s f (low, single, multi) =
    step-Alike r frame first rest e (first / 16) q low single multi s f

-- What one frame leaves is kept.
pdus-found :
    {Time : Type 0} (outcome : ReceiveOutcome) (m : Option (Message Time))
    (live_rest : List (List ℕ)) (rest : List (Message Time))
    → Found outcome m
    → live_rest ≡ pdus rest
    → keep outcome live_rest ≡ pdus (found m rest)
pdus-found outcome m live_rest rest h e = ground arith

live-reassemble_from :
    {Time : Type 0} (limit : ℕ) (frames : List (CanFrame Time)) (r : Receiver)
    (q : Option (Reassemble.Pending Time))
    → Same r.pending q
    → r.is_functional ≡ false
    → r.max_pdu_length ≡ limit
    → All (λ (frame : CanFrame Time). IsOrdinary limit frame.data_bytes) frames
    → live r frames ≡ pdus (reassemble_from q frames)
unfolding live reassemble_from turn
live-reassemble_from limit [] r q s f l o = refl
live-reassemble_from limit (frame ∷ frames) r q s f l o =
    let (same, found, functional, maximum) =
      on_frame-Alike r frame frame.data_bytes q refl s f (rw l o.0) in
    pdus-found _ _ _ _ found
      (live-reassemble_from limit frames _ _ same (functional ∙ f) (maximum ∙ l) o.1)

-- A receiver of physical requests with no message in progress, given a stream of ordinary frames,
-- delivers live the PDUs that offline reassembly finds in a recording of the stream, in the same
-- order, sequence errors and abandoned messages included. A frame is ordinary when it is empty, or
-- it is of one of the four kinds of ISO-TP, states its length in the nibble when it is a single
-- frame, and announces more than 7 bytes and no more than the receiver's limit when it is a first
-- frame.
pub live-reassemble_stream :
    {Time : Type 0} (r : Receiver) (frames : List (CanFrame Time))
    → r.pending ≡ none
    → r.is_functional ≡ false
    → All (λ (frame : CanFrame Time). IsOrdinary r.max_pdu_length frame.data_bytes) frames
    → live r frames ≡ pdus (reassemble_stream frames)
unfolding reassemble_stream
live-reassemble_stream r frames n f o =
    live-reassemble_from r.max_pdu_length frames r none (rw n tt) f refl o
