-- ===== src/Isotp/Receive/Sound/Runs.antt =====
-- Receivers that are given frame after frame.
use diagnostic_vehicle_simul.Prelude.{ℕ, ◌≤◌, ◌≡◌, true, none, List, [], ◌∷◌, All, length, arith}
use diagnostic_vehicle_simul.Isotp.Params.{Parameters}
use diagnostic_vehicle_simul.Isotp.Receive.{Receiver, new_physical, with_max_pdu_length, on_frame}
use diagnostic_vehicle_simul.Isotp.Receive.Sound.{IsSound, on_frame-IsSound}

on_frame_functional :
    (r : Receiver) (frame : List ℕ)
    → r.is_functional ≡ true
    → r.pending ≡ none
    → ((on_frame r frame).0.is_functional ≡ true) × ((on_frame r frame).0.pending ≡ none)
unfolding on_frame
on_frame_functional r [] f h = (f, h)
on_frame_functional r (first ∷ rest) f h = ground arith

pub receive_all : Receiver → List (List ℕ) → Receiver
receive_all r [] = r
receive_all r (frame ∷ frames) = receive_all (on_frame r frame).0 frames

receive_all-keeps-IsSound :
    (r : Receiver) (frames : List (List ℕ))
    → IsSound r
    → All (λ frame. length frame ≤ 8) frames
    → IsSound (receive_all r frames)
unfolding receive_all
receive_all-keeps-IsSound r [] v h = v
receive_all-keeps-IsSound r (frame ∷ frames) v h =
    receive_all-keeps-IsSound (on_frame r frame).0 frames (on_frame-IsSound r frame v h.0).0 h.1

-- Whatever classic frames a new receiver of physical requests is given, with any limit, it is
-- sound: what it holds and what it still expects fit in the limit together.
pub receive_all-IsSound :
    (params : Parameters) (limit : ℕ) (frames : List (List ℕ))
    → All (λ frame. length frame ≤ 8) frames
    → IsSound (receive_all (with_max_pdu_length (new_physical params) limit) frames)
unfolding with_max_pdu_length new_physical
receive_all-IsSound params limit frames h =
    receive_all-keeps-IsSound (with_max_pdu_length (new_physical params) limit) frames tt h

-- A functional receiver drops every first frame: whatever frames it is given, it never has a
-- message in progress if it had none.
pub receive_all-functional :
    (r : Receiver) (frames : List (List ℕ))
    → r.is_functional ≡ true
    → r.pending ≡ none
    → ((receive_all r frames).pending ≡ none) × ((receive_all r frames).is_functional ≡ true)
unfolding receive_all
receive_all-functional r [] f h = (h, f)
receive_all-functional r (frame ∷ frames) f h =
    let next = on_frame_functional r frame f h in
    receive_all-functional (on_frame r frame).0 frames next.0 next.1
