-- ===== src/Doip/Server/Permitted/Outcome.antt =====
-- The messages that answer what came of a request to the simulation.
use diagnostic_vehicle_simul.Prelude.{
  ℕ, ◌≡◌, refl, false, List, [], ◌∷◌, ◌++◌, All, map, is_empty, Option-cases, Bool-cases, inl, inr,
  arith,
}
use diagnostic_vehicle_simul.Doip.Payload.{
  diagnostic_message, diagnostic_message_ack, accepts_payload_length,
}
use diagnostic_vehicle_simul.Doip.Messages.{
  DiagnosticMessage, message_to_bytes, build_diagnostic_ack, ack_routing_confirmation,
  unknown_target_address, message_too_large, target_unreachable,
}
use diagnostic_vehicle_simul.Ecu.Schedule.{ScheduledResponse}
use diagnostic_vehicle_simul.Doip.Server.{
  TimedReply, now, reply_with, RoutedResponse, RoutingOutcome, stopped, no_target, silenced,
  handled, too_large_for_subnetwork,
}
use diagnostic_vehicle_simul.Doip.Server.Tcp.{
  step_reply, response_replies, all_replies, build_ack, package_outcome,
}
use diagnostic_vehicle_simul.Doip.Server.Permitted.{
  IsPermitted, ArePermitted, diagnostic_nack_reaction-ArePermitted,
}

-- Each step of the plans that the simulation answers with has bytes to send.
abbrev pub AreSpoken : RoutingOutcome → Type 0
AreSpoken (handled responses) =
    All
      (λ (r : RoutedResponse).
        All (λ (s : ScheduledResponse). is_empty s.bytes ≡ false) r.plan_steps)
      responses
AreSpoken _ = Unit {0}

append-IsPermitted :
    (xs ys : List TimedReply) → All IsPermitted xs → All IsPermitted ys → All IsPermitted (xs ++ ys)
append-IsPermitted [] ys p q = q
append-IsPermitted (x ∷ xs) ys (p, ps) q = (p, append-IsPermitted xs ys ps q)

step_reply-IsPermitted :
    (version from to_tester : ℕ) (s : ScheduledResponse)
    → is_empty s.bytes ≡ false
    → IsPermitted (step_reply version from to_tester s)
unfolding step_reply message_to_bytes accepts_payload_length
step_reply-IsPermitted version from to_tester s h = (
  version,
  diagnostic_message,
  message_to_bytes
      (record { source_address = from; target_address = to_tester; user_data = s.bytes }),
  refl,
  ground arith,
)

steps-IsPermitted :
    (version from to_tester : ℕ) (steps : List ScheduledResponse)
    → All (λ (s : ScheduledResponse). is_empty s.bytes ≡ false) steps
    → All IsPermitted (map (step_reply version from to_tester) steps)
steps-IsPermitted version from to_tester [] h = tt
steps-IsPermitted version from to_tester (s ∷ ss) (h, hs) = (
  step_reply-IsPermitted version from to_tester s h,
  steps-IsPermitted version from to_tester ss hs,
)

response_replies-IsPermitted :
    (version to_tester : ℕ) (r : RoutedResponse)
    → All (λ (s : ScheduledResponse). is_empty s.bytes ≡ false) r.plan_steps
    → All IsPermitted (response_replies version to_tester r)
unfolding response_replies
response_replies-IsPermitted version to_tester r h = elim (Bool-cases (is_empty r.final_bytes)) [
  | inl e ↦ rw (e, response_replies) tt
  | inr e ↦ elim (Option-cases r.answer_address) [
    | inl a ↦ rw (e, a, response_replies) tt
    | inr (from, a) ↦
        rw (e, a, response_replies) (steps-IsPermitted version from to_tester r.plan_steps h)
  ]
]

all_replies-IsPermitted :
    (version to_tester : ℕ) (rs : List RoutedResponse)
    → All
        (λ (r : RoutedResponse).
          All (λ (s : ScheduledResponse). is_empty s.bytes ≡ false) r.plan_steps)
        rs
    → All IsPermitted (all_replies version to_tester rs)
unfolding all_replies
all_replies-IsPermitted version to_tester [] h = tt
all_replies-IsPermitted version to_tester (r ∷ rs) (h, hs) =
    append-IsPermitted (response_replies version to_tester r) (all_replies version to_tester rs)
      (response_replies-IsPermitted version to_tester r h)
      (all_replies-IsPermitted version to_tester rs hs)

build_ack-IsPermitted :
    (version : ℕ) (m : DiagnosticMessage) → IsPermitted (now (build_ack version m))
unfolding build_ack now build_diagnostic_ack accepts_payload_length
build_ack-IsPermitted version m = (
  version,
  diagnostic_message_ack,
  build_diagnostic_ack m ack_routing_confirmation,
  refl,
  ground arith,
)

pub package_outcome-ArePermitted :
    (version : ℕ) (m : DiagnosticMessage) (outcome : RoutingOutcome)
    → AreSpoken outcome
    → ArePermitted (package_outcome version m outcome)
unfolding package_outcome reply_with
package_outcome-ArePermitted version m no_target h =
    diagnostic_nack_reaction-ArePermitted version m unknown_target_address
package_outcome-ArePermitted version m stopped h =
    diagnostic_nack_reaction-ArePermitted version m target_unreachable
package_outcome-ArePermitted version m (too_large_for_subnetwork a b) h =
    diagnostic_nack_reaction-ArePermitted version m message_too_large
package_outcome-ArePermitted version m silenced h = (build_ack-IsPermitted version m, tt)
package_outcome-ArePermitted version m (handled rs) h =
    (build_ack-IsPermitted version m, all_replies-IsPermitted version m.source_address rs h)
