-- ===== src/Ecu/Schedule/Final.antt =====
-- The final response of a plan.
use diagnostic_vehicle_simul.Prelude.{
  ℕ, ◌≡◌, refl, Option, none, some, Bool, true, false, not, ◌&&◌, List, [], ◌∷◌, ◌++◌, map,
  if◌then◌else◌, is_empty, ap, ◌∙◌,
}
use diagnostic_vehicle_simul.Ecu.Timing.{EcuTiming}
use diagnostic_vehicle_simul.Ecu.Schedule.{
  ScheduledResponse, ResponsePlan, find_final, final_response, pending_step, pending_offsets_ms,
  final_instant_ms, build_response_plan,
}

find_final-append :
    (sid : ℕ) (offsets : List ℕ) (rest : List ScheduledResponse)
    → find_final (map (pending_step sid) offsets ++ rest) ≡ find_final rest
unfolding find_final pending_step
find_final-append sid [] rest = refl
find_final-append sid (at ∷ offsets) rest = find_final-append sid offsets rest

final_step : ℕ → List ℕ → Bool → List ScheduledResponse
final_step at response is_dropped =
    if not (is_empty response) && not is_dropped
    then record { at_ms = at; bytes = response; is_response_pending = false } ∷ []
    else []

bytes_of : Option ScheduledResponse → List ℕ
bytes_of step = elim step [ none ↦ [] | some s ↦ s.bytes ]

bytes_of-final_step :
    (at : ℕ) (response : List ℕ) (is_dropped : Bool)
    → bytes_of (find_final (final_step at response is_dropped))
      ≡ (if is_dropped then [] else response)
unfolding bytes_of final_step find_final
bytes_of-final_step at [] true = refl
bytes_of-final_step at [] false = refl
bytes_of-final_step at (b ∷ bs) true = refl
bytes_of-final_step at (b ∷ bs) false = refl

-- The final response of a plan is the response that it was built for, unless the final response is
-- dropped.
pub final_response-build_response_plan :
    (t : EcuTiming) (sid : ℕ) (response : List ℕ) (pending_count : ℕ)
    → final_response (build_response_plan t sid response pending_count)
      ≡ (if t.drop_final_response then [] else response)
unfolding final_response build_response_plan bytes_of final_step
final_response-build_response_plan t sid response pending_count =
    let at = final_instant_ms t pending_count in
    ap bytes_of (
      find_final-append sid (pending_offsets_ms t pending_count at)
        (final_step at response t.drop_final_response))
    ∙ bytes_of-final_step at response t.drop_final_response

pub final_response-overridden :
    (plan : ResponsePlan)
    → final_response (record plan { is_overridden = true }) ≡ final_response plan
unfolding final_response
final_response-overridden plan = refl
