-- ===== src/Isotp/Link.antt =====
-- A transmitter and a receiver joined: every frame that the transmitter puts on the wire reaches
-- the receiver, and every flow control that the receiver answers waits in the transmitter's
-- inbox. As in the loops of engine/crates/bridge/src/lib.rs (`TransmitPdu`, `AwaitFlowControl`),
-- consecutive frames are taken until there is none, and only then a flow control is read.
pub mod Opening
pub mod Delivery
pub mod Transfer
use diagnostic_vehicle_simul.Prelude.{
  ℕ, zero, suc, Option, none, some, List, [], ◌∷◌, ◌++◌, Result, ok, err,
}
use diagnostic_vehicle_simul.Isotp.Params.{Parameters}
use diagnostic_vehicle_simul.Isotp.Transmit
use diagnostic_vehicle_simul.Isotp.Transmit.{
  Transmitter, TransportError, begin, next_consecutive_frame, on_flow_control,
}
use diagnostic_vehicle_simul.Isotp.Receive
use diagnostic_vehicle_simul.Isotp.Receive.{
  Receiver, ReceiveOutcome, nothing, completed, send_flow_control, refused, aborted, on_frame,
}

pub record Link : Type 0 where
  pub tx : Transmitter
  pub rx : Receiver
  pub inbox : List (List ℕ)
  pub done : Option (List ℕ)

deliver : ReceiveOutcome → Link → Link
deliver (completed pdu) l = record l { done = some pdu }
deliver (send_flow_control frame) l = record l { inbox = l.inbox ++ frame ∷ [] }
deliver (refused frame) l = record l { inbox = l.inbox ++ frame ∷ [] }
deliver nothing l = l
deliver (aborted error) l = l

pub put : List ℕ → Link → Link
unfolding deliver
put frame l = let (rx, outcome) = on_frame l.rx frame in deliver outcome (record l { rx = rx })

read : List (List ℕ) → Link → Link
read [] l = l
read (frame ∷ frames) l = record l { tx = (on_flow_control l.tx frame).0; inbox = frames }

act : Option (List ℕ) → Link → Link
unfolding put read
act none l = read l.inbox l
act (some frame) l = put frame l

pub step : Link → Link
unfolding act
step l = let (tx, frame) = next_consecutive_frame l.tx in act frame (record l { tx = tx })

-- Until something is delivered, or the fuel is used up.
pub run : ℕ → Link → Option (List ℕ)
run zero l = l.done
run (suc fuel) l = elim l.done [ some pdu ↦ some pdu | none ↦ run fuel (step l) ]

-- After `Begin`.
pub opened : ℕ → Transmitter → Receiver → Result TransportError (List ℕ) → Option (List ℕ)
unfolding run put
opened fuel t r (err error) = none
opened fuel t r (ok frame) =
    run fuel (put frame (record { tx = t; rx = r; inbox = []; done = none }))

-- Send one PDU from a new transmitter: what the receiver delivers first.
pub transfer : ℕ → Parameters → Receiver → List ℕ → Option (List ℕ)
unfolding opened
transfer fuel params r pdu =
    let (t, first) = begin (Transmit.new params) pdu in opened fuel t r first
