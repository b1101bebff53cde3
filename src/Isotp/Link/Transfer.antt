-- ===== src/Isotp/Link/Transfer.antt =====
-- The whole transfer: whatever the receiver's block size, the PDU arrives, within the fuel.
use diagnostic_vehicle_simul.Prelude.{
  ℕ, zero, suc, ◌-◌, ◌*◌, ◌≤◌, ◌<◌, ◌≡◌, refl, ◌∙◌, inl, inr, false, Option, none, some, List, [],
  ◌∷◌, length, arith, ltb, ◌==◌, if◌then◌else◌, Bool-cases, ltb→lt, ltb-false→le,
}
use diagnostic_vehicle_simul.Isotp.Params.{Parameters}
use diagnostic_vehicle_simul.Isotp.Transmit.Progress.{next_unlimited, next_limited}
use diagnostic_vehicle_simul.Isotp.Receive.{
  Receiver, block_allowance, build_flow_control, flow_status_continue,
}
use diagnostic_vehicle_simul.Isotp.Receive.Progress.{
  holding, next_index, next_number, on_frame-segment_last,
}
use diagnostic_vehicle_simul.Isotp.Link.{Link, step, run, put, transfer}
use diagnostic_vehicle_simul.Isotp.Link.Opening.{
  opened_tx, begin_long, on_frame_first, begin_short, on_frame_single,
}
use diagnostic_vehicle_simul.Isotp.Link.Delivery.{
  IsSending, IsWaiting, step_unlimited, step_limited, step_block_end, step_waiting,
}

-- A block in which at least one frame may still be sent.
data IsOpen : Option ℕ → Type 0 where
  unlimited : IsOpen none
  limited : (left : ℕ) → IsOpen (some (suc left))

IsOpen-allowance : (b : ℕ) → IsOpen (if b == 0 then none else some b)
IsOpen-allowance zero = unlimited
IsOpen-allowance (suc b) = let e : (suc b == 0) ≡ false = ground arith in rw e (limited b)

block_allowance-IsOpen : (r : Receiver) → IsOpen (block_allowance r)
unfolding block_allowance
block_allowance-IsOpen r = IsOpen-allowance r.params.block_size

-- The last segment delivers the PDU.
step_last :
    (l : Link) (pdu : List ℕ) (k sequence : ℕ) {block : Option ℕ}
    → IsOpen block
    → IsSending l pdu k sequence block
    → length pdu ≤ next_index pdu k
    → (step l).done ≡ some pdu
unfolding step
step_last l pdu k sequence unlimited s h = ground (
  arith,
  next_unlimited l.tx s.state,
  on_frame-segment_last l.rx l.tx.params.padding_byte pdu sequence k none s.nibble s.inside s.held
      h,
)
step_last l pdu k sequence (limited left) s h = ground (
  arith,
  next_limited l.tx left s.state,
  on_frame-segment_last l.rx l.tx.params.padding_byte pdu sequence k (some (suc left)) s.nibble
      s.inside s.held h,
)

run_open : (fuel : ℕ) (l : Link) → l.done ≡ none → run (suc fuel) l ≡ run fuel (step l)
unfolding run
run_open fuel l h = ground arith

run_done : (fuel : ℕ) (l : Link) {pdu : List ℕ} → l.done ≡ some pdu → run fuel l ≡ some pdu
unfolding run
run_done zero l h = h
run_done (suc fuel) l h = ground arith

-- Two steps for each byte that is left are enough.
run_sending :
    (fuel : ℕ) (l : Link) (pdu : List ℕ) (k sequence : ℕ) {block : Option ℕ}
    → IsOpen block
    → IsSending l pdu k sequence block
    → 2 * (length pdu - k) ≤ fuel
    → run fuel l ≡ some pdu
run_sending zero l pdu k sequence b s h = absurd (omega (arith, s.inside))
run_sending (suc zero) l pdu k sequence b s h = absurd (omega (arith, s.inside))
run_sending (suc (suc fuel)) l pdu k sequence unlimited s h =
    run_open (suc fuel) l s.open_end ∙ elim (Bool-cases (ltb (next_index pdu k) (length pdu))) [
      | inr end ↦
          run_done (suc fuel) (step l)
            (step_last l pdu k sequence unlimited s (ltb-false→le _ _ end))
      | inl more ↦
          run_sending (suc fuel) (step l) pdu (next_index pdu k) (next_number sequence) unlimited
            (step_unlimited l pdu k sequence s (ltb→lt _ _ more)) (omega (arith, s.inside))
    ]
run_sending (suc (suc fuel)) l pdu k sequence (limited zero) s h =
    run_open (suc fuel) l s.open_end ∙ elim (Bool-cases (ltb (next_index pdu k) (length pdu))) [
      | inr end ↦
          run_done (suc fuel) (step l)
            (step_last l pdu k sequence (limited zero) s (ltb-false→le _ _ end))
      | inl more ↦
          let w = step_block_end l pdu k sequence s (ltb→lt _ _ more) in
          run_open fuel (step l) w.open_end
          ∙ run_sending fuel (step (step l)) pdu (next_index pdu k) (next_number sequence)
              (block_allowance-IsOpen (step l).rx)
              (step_waiting (step l) pdu (next_index pdu k) (next_number sequence) w)
              (omega (arith, s.inside))
    ]
run_sending (suc (suc fuel)) l pdu k sequence (limited (suc left)) s h =
    run_open (suc fuel) l s.open_end ∙ elim (Bool-cases (ltb (next_index pdu k) (length pdu))) [
      | inr end ↦
          run_done (suc fuel) (step l)
            (step_last l pdu k sequence (limited (suc left)) s (ltb-false→le _ _ end))
      | inl more ↦
          run_sending (suc fuel) (step l) pdu (next_index pdu k) (next_number sequence)
            (limited left) (step_limited l pdu k sequence left s (ltb→lt _ _ more))
            (omega (arith, s.inside))
    ]

transfer_short :
    (fuel : ℕ) (params : Parameters) (r : Receiver) (pdu : List ℕ)
    → 0 < length pdu
    → length pdu ≤ 7
    → transfer fuel params r pdu ≡ some pdu
unfolding transfer put
transfer_short fuel params r pdu h k =
    rw (begin_short params pdu h k, on_frame_single r params pdu h k) (run_done fuel _ refl)

-- Where the first frame of a long PDU leaves the link.
abbrev opened_link : Parameters → Receiver → List ℕ → Link
opened_link params r pdu = record {
  tx = opened_tx params pdu;
  rx = record r { pending = some (holding pdu 6 1 (block_allowance r)) };
  inbox = build_flow_control r flow_status_continue ∷ [];
  done = none;
}

opened_link-IsWaiting :
    (params : Parameters) (r : Receiver) (pdu : List ℕ)
    → 7 < length pdu
    → IsWaiting (opened_link params r pdu) pdu 6 1
unfolding block_allowance build_flow_control
opened_link-IsWaiting params r pdu h = record {
  stopped = inl refl;
  sent = refl;
  message = refl;
  number = refl;
  held = refl;
  answered = refl;
  open_end = refl;
  inside = omega arith;
  nibble = omega arith;
}

transfer_long :
    (fuel : ℕ) (params : Parameters) (r : Receiver) (pdu : List ℕ)
    → r.is_functional ≡ false
    → 7 < length pdu
    → length pdu ≤ 4095
    → length pdu ≤ r.max_pdu_length
    → 2 * length pdu ≤ fuel
    → transfer fuel params r pdu ≡ some pdu
unfolding transfer put
transfer_long zero params r pdu f h k m e = absurd (omega arith)
transfer_long (suc fuel) params r pdu f h k m e =
    rw (begin_long params pdu h k, on_frame_first r pdu f h k m)
      (run_open fuel (opened_link params r pdu) refl
        ∙ run_sending fuel (step (opened_link params r pdu)) pdu 6 1
            (block_allowance-IsOpen (opened_link params r pdu).rx)
            (step_waiting (opened_link params r pdu) pdu 6 1 (opened_link-IsWaiting params r pdu h))
            (omega arith))

-- A PDU of 1 to 4095 bytes, no longer than the receiver's limit, sent by a new transmitter to a
-- receiver of physical requests, arrives whole and in order, whatever both sides' padding, block
-- size and separation time are and whatever the receiver was assembling before; two steps for
-- each byte are enough.
pub transfer_delivers :
    (params : Parameters) (r : Receiver) (pdu : List ℕ) (fuel : ℕ)
    → r.is_functional ≡ false
    → 0 < length pdu
    → length pdu ≤ 4095
    → length pdu ≤ r.max_pdu_length
    → 2 * length pdu ≤ fuel
    → transfer fuel params r pdu ≡ some pdu
transfer_delivers params r pdu fuel f h k m e = elim (Bool-cases (ltb 7 (length pdu))) [
  | inl long ↦ transfer_long fuel params r pdu f (ltb→lt _ _ long) k m e
  | inr short ↦ transfer_short fuel params r pdu h (ltb-false→le _ _ short)
]
