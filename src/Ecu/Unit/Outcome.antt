-- ===== src/Ecu/Unit/Outcome.antt =====
-- The two outcomes of a request: the refusal of the session check, or the answer.
use diagnostic_vehicle_simul.Prelude.{◌≡◌, refl, ℕ, Option, none, some, List, ◌∷◌}
use diagnostic_vehicle_simul.Ecu.Schedule.{ResponsePlan}
use diagnostic_vehicle_simul.Ecu.Unit.{
  VirtualEcu, Protocol, refused_or, refuse_if_session_forbids, answer, process_request_with_timing,
}

refused_or-elim :
    (P : VirtualEcu × Option ResponsePlan → Type 0) (refusal : Option ResponsePlan) (u : VirtualEcu)
    (answered : VirtualEcu × Option ResponsePlan)
    → ((plan : ResponsePlan) → refusal ≡ some plan → P (u, some plan))
    → (refusal ≡ none → P answered)
    → P (refused_or refusal u answered)
unfolding refused_or
refused_or-elim P none u answered f g = g refl
refused_or-elim P (some plan) u answered f g = f plan refl

-- What holds of every refusal and of every answer holds of every outcome.
pub process_request_with_timing-elim :
    (P : VirtualEcu × Option ResponsePlan → Type 0) (protocol : Protocol) (u : VirtualEcu) (sid : ℕ)
    (rest : List ℕ)
    → ((plan : ResponsePlan)
        → refuse_if_session_forbids u sid (sid ∷ rest) ≡ some plan
        → P (u, some plan))
    → (refuse_if_session_forbids u sid (sid ∷ rest) ≡ none → P (answer protocol u sid (sid ∷ rest)))
    → P (process_request_with_timing protocol u (sid ∷ rest))
unfolding process_request_with_timing
process_request_with_timing-elim P protocol u sid rest f g =
    refused_or-elim P (refuse_if_session_forbids u sid (sid ∷ rest)) u
      (answer protocol u sid (sid ∷ rest)) f g
