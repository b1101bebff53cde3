-- ===== src/Isotp/Receive/Sound.antt =====
-- What holds of a receiver between two classic frames, and of its answers.
pub mod Runs
use diagnostic_vehicle_simul.Prelude.{
  ℕ, ◌+◌, ◌-◌, ◌*◌, ◌/◌, ◌%◌, ◌≤◌, ◌<◌, min, max, ◌≡◌, refl, ◌≢◌, true, false, Option, none, some,
  List, [], ◌∷◌, All, length, drop, take, length-append, length-take, length-drop, arith, ◌==◌,
  get_or, Bool-cases, inl, inr,
}
use diagnostic_vehicle_simul.Isotp.Params.{Parameters}
use diagnostic_vehicle_simul.Isotp.Params.Padding.{length-apply_padding_le}
use diagnostic_vehicle_simul.Isotp.Receive.{
  Receiver, Pending, ReceiveOutcome, nothing, completed, send_flow_control, refused, aborted,
  new_physical, with_max_pdu_length, wrong_sequence_number, unexpected_consecutive_frame, on_frame,
  on_single_frame, on_first_frame, on_consecutive_frame, build_flow_control, block_allowance,
  missing_frames, continue_message, on_pending, on_pci, account_block, append_slice,
  flow_status_continue, flow_status_overflow,
}

-- What is left of a block is what the parameters allow.
abbrev pub IsAllowance : ℕ → Option ℕ → Type 0
IsAllowance block_size none = block_size ≡ 0
IsAllowance block_size (some left) = (0 < left) × (left ≤ block_size)

pub record IsAssembly (r : Receiver) (p : Pending) : Type 0 where
  pub physical : r.is_functional ≡ false
  pub unfinished : 0 < p.remaining
  pub fits : length p.buffer + p.remaining ≤ r.max_pdu_length
  pub nibble : p.next_sequence_number < 16
  pub block : IsAllowance r.params.block_size p.remaining_in_block

abbrev pub IsPending : Receiver → Option Pending → Type 0
IsPending r none = Unit {0}
IsPending r (some p) = IsAssembly r p

abbrev pub IsSound : Receiver → Type 0
IsSound r = IsPending r r.pending

-- What a receiver may answer.
abbrev pub IsProper : Receiver → ReceiveOutcome → Type 0
IsProper r nothing = Unit {0}
IsProper r (completed pdu) = (0 < length pdu) × (length pdu ≤ max 7 r.max_pdu_length)
IsProper r (send_flow_control frame) = (r.is_functional ≡ false) × (length frame ≤ 8)
IsProper r (refused frame) = (r.is_functional ≡ false) × (length frame ≤ 8)
IsProper r (aborted (wrong_sequence_number expected received missing)) =
    (0 < missing) × (missing < 16) × ((expected + missing) % 16 ≡ received)
IsProper r (aborted unexpected_consecutive_frame) = ⊥

abbrev Good : Receiver → Receiver × ReceiveOutcome → Type 0
Good r (s, outcome) = IsSound s × IsProper r outcome × (s.max_pdu_length ≡ r.max_pdu_length)

length-build_flow_control : (r : Receiver) (status : ℕ) → length (build_flow_control r status) ≤ 8
unfolding build_flow_control
length-build_flow_control r status = omega (
  arith,
  length-apply_padding_le (status ∷ r.params.block_size ∷ r.params.separation_time_min ∷ [])
      r.params.padding_byte,
)

on_single_frame-Good :
    (r : Receiver) (frame : List ℕ) → length frame ≤ 8 → Good r (on_single_frame r frame)
unfolding on_single_frame
on_single_frame-Good r frame h =
    ground (arith, length-take (get_or frame 0 0 % 16) (drop 1 frame), length-drop 1 frame)

block_allowance-IsAllowance : (r : Receiver) → IsAllowance r.params.block_size (block_allowance r)
unfolding block_allowance
block_allowance-IsAllowance r = ground arith

on_first_frame-Good :
    (r : Receiver) (frame : List ℕ) → IsSound r → length frame ≤ 8 → Good r (on_first_frame r frame)
unfolding on_first_frame
on_first_frame-Good r frame v h = ground (
  arith,
  length-build_flow_control r flow_status_continue,
  length-build_flow_control r flow_status_overflow,
  block_allowance-IsAllowance r,
  length-take (min (length (drop 2 frame)) (get_or frame 0 0 % 16 * 256 + get_or frame 1 0))
      (drop 2 frame),
  length-drop 2 frame,
)

account_block-Good :
    (r : Receiver) (p : Pending) (block : Option ℕ)
    → IsAssembly r p
    → IsAllowance r.params.block_size block
    → Good r (account_block block (record r { pending = none }) p)
unfolding account_block
account_block-Good r p none v b = (
  record {
    physical = v.physical;
    unfinished = v.unfinished;
    fits = v.fits;
    nibble = v.nibble;
    block = v.block;
  },
  tt,
  refl,
)
account_block-Good r p (some left) v b = elim (Bool-cases (left - 1 == 0)) [
  | inl used ↦ rw used (
    record {
      physical = v.physical;
      unfinished = v.unfinished;
      fits = v.fits;
      nibble = v.nibble;
      block = block_allowance-IsAllowance (record r { pending = none });
    },
    (v.physical, length-build_flow_control (record r { pending = none }) flow_status_continue),
    refl,
  )
  | inr more ↦ rw more (
    record {
      physical = v.physical;
      unfinished = v.unfinished;
      fits = v.fits;
      nibble = v.nibble;
      block = ground arith;
    },
    tt,
    refl,
  )
]

append_slice-IsAssembly :
    (r : Receiver) (p : Pending) (frame : List ℕ)
    → IsAssembly r p
    → (append_slice p frame).remaining ≢ 0
    → IsAssembly r (append_slice p frame)
unfolding append_slice
append_slice-IsAssembly r p frame v h = ground (
  arith,
  length-append p.buffer (take (min (length (drop 1 frame)) p.remaining) (drop 1 frame)),
  length-take (min (length (drop 1 frame)) p.remaining) (drop 1 frame),
)

append_slice-finished :
    (r : Receiver) (p : Pending) (frame : List ℕ)
    → IsAssembly r p
    → (append_slice p frame).remaining ≡ 0
    → (0 < length (append_slice p frame).buffer)
      × (length (append_slice p frame).buffer ≤ r.max_pdu_length)
unfolding append_slice
append_slice-finished r p frame v h = ground (
  arith,
  length-append p.buffer (take (min (length (drop 1 frame)) p.remaining) (drop 1 frame)),
  length-take (min (length (drop 1 frame)) p.remaining) (drop 1 frame),
)

missing_frames-lem :
    (received expected : ℕ)
    → received < 16
    → expected < 16
    → received ≢ expected
    → (0 < missing_frames received expected)
      × (missing_frames received expected < 16)
      × ((expected + missing_frames received expected) % 16 ≡ received)
unfolding missing_frames
missing_frames-lem received expected h k ne = omega arith

continue_message-Good :
    (r : Receiver) (p : Pending) (frame : List ℕ)
    → IsAssembly r p
    → Good r (continue_message (record r { pending = none }) p frame)
unfolding continue_message
continue_message-Good r p frame v =
    elim (Bool-cases (get_or frame 0 0 % 16 == p.next_sequence_number)) [
      | inr wrong ↦
          ground (arith, missing_frames-lem (get_or frame 0 0 % 16) p.next_sequence_number)
      | inl right ↦ elim (Bool-cases ((append_slice p frame).remaining == 0)) [
        | inl finished ↦ ground (arith, append_slice-finished r p frame v)
        | inr more ↦
            let q : (append_slice p frame).remaining ≢ 0 = ground arith in
            rw (right, more)
              (account_block-Good r (append_slice p frame) (append_slice p frame).remaining_in_block
                (append_slice-IsAssembly r p frame v q)
                (append_slice-IsAssembly r p frame v q).block)
      ]
    ]

on_pending-Good :
    (r : Receiver) (pending : Option Pending) (frame : List ℕ)
    → IsPending r pending
    → Good r (on_pending pending (record r { pending = none }) frame)
unfolding on_pending
on_pending-Good r none frame v = (tt, tt, refl)
on_pending-Good r (some p) frame v = continue_message-Good r p frame v

on_pci-Good :
    (pci : ℕ) (r : Receiver) (frame : List ℕ)
    → IsSound r
    → length frame ≤ 8
    → Good r (on_pci pci r frame)
unfolding on_pci on_consecutive_frame
on_pci-Good pci r frame v h = elim (Bool-cases (pci == 0)) [
  | inl single ↦ rw single (on_single_frame-Good r frame h)
  | inr other ↦ elim (Bool-cases (pci == 1)) [
    | inl first ↦ rw (other, first) (on_first_frame-Good r frame v h)
    | inr others ↦ elim (Bool-cases (pci == 2)) [
      | inl next ↦ rw (other, others, next) (on_pending-Good r r.pending frame v)
      | inr rest ↦ rw (other, others, rest) (v, tt, refl)
    ]
  ]
]

-- A receiver that is sound, given any frame of at most eight bytes, is sound afterwards, with the
-- same limit. If it delivers a PDU, that has a byte and is no longer than the limit, or than 7.
-- Only a receiver of physical requests answers with a flow control, of at most eight bytes. If it
-- gives up a message for its sequence number, the reported number of missing frames is 1 to 15,
-- and counted on from the expected number, modulo 16, it leads to the received one.
pub on_frame-IsSound :
    (r : Receiver) (frame : List ℕ)
    → IsSound r
    → length frame ≤ 8
    → IsSound (on_frame r frame).0
      × IsProper r (on_frame r frame).1
      × ((on_frame r frame).0.max_pdu_length ≡ r.max_pdu_length)
unfolding on_frame
on_frame-IsSound r [] v h = (v, tt, refl)
on_frame-IsSound r (first ∷ rest) v h = on_pci-Good (first / 16) r (first ∷ rest) v h
