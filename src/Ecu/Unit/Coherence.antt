-- ===== src/Ecu/Unit/Coherence.antt =====
-- That a unit's state agrees with what it says, when an override turns an answer into a refusal.
use diagnostic_vehicle_simul.Prelude.{
  ℕ, ◌%◌, Bool-cases, ◌≡◌, ◌≢◌, ◌⊎◌, inl, inr, refl, ◌∙◌, true, false, some, List, [], ◌∷◌, head_or,
  is_empty, arith,
}
use diagnostic_vehicle_simul.Uds.Handler.{Reply, contains}
use diagnostic_vehicle_simul.Uds.Dispatch.{handle_request}
use diagnostic_vehicle_simul.Uds.Dispatch.Form.{IsReplyTo, handle_request-IsReplyTo}
use diagnostic_vehicle_simul.Uds.Session.{LiveState, build_snapshot, apply_changes, serve}
use diagnostic_vehicle_simul.Uds.Session.Guard.{IsGuarded, serve-IsGuarded}
use diagnostic_vehicle_simul.Ecu.Timing.{EcuTiming}
use diagnostic_vehicle_simul.Ecu.Schedule.{ResponsePlan, build_response_plan, final_response}
use diagnostic_vehicle_simul.Ecu.Schedule.Final.{
  final_response-build_response_plan, final_response-overridden,
}
use diagnostic_vehicle_simul.Ecu.Unit.Promise.{is_empty-apply_session_timing_record}
use diagnostic_vehicle_simul.Ecu.Unit.Outcome.{process_request_with_timing-elim}
use diagnostic_vehicle_simul.Ecu.Unit.{
  VirtualEcu, process_request_with_timing, answer, conclude, ask, apply_reply, note_state,
  clear_suppress_bit_if_pending, apply_session_timing_record, resolve_pending_count_for,
  apply_response_override, discard_state_changes_on_refusal, state_changing_services, is_refusal,
  is_positive_response, Overridden, kept, aborted, replaced,
}

-- The guard of the state before a request and after its changes is the guard of the outcome.
conclude-IsGuarded :
    (u : VirtualEcu) (sid pending_count : ℕ) (response : List ℕ) (overridden : Overridden)
    → IsGuarded u.live
    → (u.session_before_request ≢ 0x01)
      ⊎ ((u.security_level_before_request ≡ 0) × (u.seed_level_before_request ≡ 0))
    → IsGuarded (conclude u sid pending_count response overridden).0.live
unfolding conclude discard_state_changes_on_refusal
conclude-IsGuarded u sid n response kept g before = g
conclude-IsGuarded u sid n response aborted g before = g
conclude-IsGuarded u sid n response (replaced o) g before = ground arith

answer-IsGuarded :
    (u : VirtualEcu) (sid : ℕ) (request : List ℕ)
    → IsGuarded u.live
    → IsGuarded (answer handle_request u sid request).0.live
unfolding answer note_state apply_reply ask serve
answer-IsGuarded u sid request g =
    let effective = clear_suppress_bit_if_pending request (resolve_pending_count_for u sid) in
    let reply = handle_request effective (build_snapshot u.config u.live) in
    let response = apply_session_timing_record u.timing reply.response in
    let changed = apply_reply (note_state u) reply in
    conclude-IsGuarded changed sid (resolve_pending_count_for u sid) response
      (apply_response_override changed request (is_empty response))
      (serve-IsGuarded u.config u.live effective g).0 g

-- A whole request to a running unit, with its session check, its overrides and their rollback,
-- leaves nothing unlocked and no seed outstanding in the default session.
pub process_request_with_timing-IsGuarded :
    (u : VirtualEcu) (request : List ℕ)
    → IsGuarded u.live
    → IsGuarded (process_request_with_timing handle_request u request).0.live
unfolding process_request_with_timing
process_request_with_timing-IsGuarded u [] g = g
process_request_with_timing-IsGuarded u (sid ∷ rest) g =
    process_request_with_timing-elim (λ r. IsGuarded r.0.live) handle_request u sid rest
      (λ plan e. g) (λ e. answer-IsGuarded u sid (sid ∷ rest) g)

-- The session, the unlocked level and the outstanding seed are those of another state.
abbrev pub IsUnmoved : LiveState → LiveState → Type 0
IsUnmoved s s' =
    (s'.session ≡ s.session)
    × (s'.unlocked_level ≡ s.unlocked_level)
    × (s'.seed_level ≡ s.seed_level)

is_refusal-apply_session_timing_record :
    (t : EcuTiming) (response : List ℕ)
    → (is_refusal (apply_session_timing_record t response) ≡ is_refusal response)
      × (is_positive_response (apply_session_timing_record t response)
          ≡ is_positive_response response)
unfolding apply_session_timing_record
is_refusal-apply_session_timing_record t [] = (refl, refl)
is_refusal-apply_session_timing_record t (a ∷ []) = (ground arith, ground arith)
is_refusal-apply_session_timing_record t (a ∷ b ∷ rest) = (ground arith, ground arith)

is_refusal-head : (response : List ℕ) → is_refusal response ≡ true → head_or response 0 ≡ 0x7F
is_refusal-head [] h = absurd (ground arith)
is_refusal-head (b ∷ bs) h = ground arith

-- A refusal by the bundled protocol changes nothing.
refusal-changes :
    (sid : ℕ) (reply : Reply)
    → contains state_changing_services sid ≡ true
    → IsReplyTo sid reply
    → is_refusal reply.response ≡ true
    → reply.changes ≡ []
refusal-changes sid reply h (inl e) k = absurd (ground arith)
refusal-changes sid reply h (inr (inl e)) k =
    absurd (ground (arith, is_refusal-head reply.response))
refusal-changes sid reply h (inr (inr (_, _, _, e))) k = e

-- The unit's noted state is its live one.
abbrev IsNoted : VirtualEcu → LiveState → Type 0
IsNoted u s =
    (s.session ≡ u.session_before_request)
    × (s.unlocked_level ≡ u.security_level_before_request)
    × (s.seed_level ≡ u.seed_level_before_request)

conclude-IsNoted :
    (u : VirtualEcu) (sid pending_count : ℕ) (response : List ℕ) (overridden : Overridden)
    → contains state_changing_services sid ≡ true
    → is_empty response ≡ false
    → (is_refusal response ≡ false) ⊎ IsNoted u u.live
    → (plan : ResponsePlan) → (conclude u sid pending_count response overridden).1 ≡ some plan
    → is_refusal (final_response plan) ≡ true
    → IsNoted u (conclude u sid pending_count response overridden).0.live
unfolding conclude discard_state_changes_on_refusal
conclude-IsNoted u sid n response kept h full before plan e refused =
    let same : build_response_plan u.timing sid response n ≡ plan = cc e in
    ground (arith, same, final_response-build_response_plan u.timing sid response n)
conclude-IsNoted u sid n response aborted h full before plan e refused = absurd (cc)
conclude-IsNoted u sid n [] (replaced o) h full before plan e refused = absurd (ground arith)
conclude-IsNoted u sid n (b ∷ bs) (replaced o) h full before plan e refused =
    let made = build_response_plan u.timing sid o n in
    let same : record made { is_overridden = true } ≡ plan = cc e in
    ground (
      arith,
      same,
      final_response-build_response_plan u.timing sid o n,
      final_response-overridden made,
    )

ask-IsReplyTo :
    (u : VirtualEcu) (sid : ℕ) (rest : List ℕ)
    → IsReplyTo sid (ask handle_request u sid (sid ∷ rest))
unfolding ask clear_suppress_bit_if_pending
ask-IsReplyTo u sid [] = handle_request-IsReplyTo sid [] (build_snapshot u.config u.live)
ask-IsReplyTo u sid (sub ∷ rest) = ground (
  arith,
  handle_request-IsReplyTo sid (sub ∷ rest) (build_snapshot u.config u.live),
  handle_request-IsReplyTo sid ((sub % 128) ∷ rest) (build_snapshot u.config u.live),
)

apply_reply-IsNoted :
    (u : VirtualEcu) (reply : Reply)
    → reply.changes ≡ []
    → IsNoted (apply_reply (note_state u) reply) (apply_reply (note_state u) reply).live
unfolding apply_reply note_state apply_changes
apply_reply-IsNoted u reply e = ground arith

answer-IsUnmoved :
    (u : VirtualEcu) (sid : ℕ) (rest : List ℕ)
    → contains state_changing_services sid ≡ true
    → is_empty (ask handle_request u sid (sid ∷ rest)).response ≡ false
    → (plan : ResponsePlan) → (answer handle_request u sid (sid ∷ rest)).1 ≡ some plan
    → is_refusal (final_response plan) ≡ true
    → IsUnmoved u.live (answer handle_request u sid (sid ∷ rest)).0.live
unfolding answer
answer-IsUnmoved u sid rest h full plan e refused =
    let reply = ask handle_request u sid (sid ∷ rest) in
    let response = apply_session_timing_record u.timing reply.response in
    let changed = apply_reply (note_state u) reply in
    let noted =
      conclude-IsNoted changed sid (resolve_pending_count_for u sid) response
        (apply_response_override changed (sid ∷ rest) (is_empty response)) h
        (is_empty-apply_session_timing_record u.timing reply.response ∙ full)
        (elim (Bool-cases (is_refusal reply.response)) [
          | inl r ↦ inr (
              apply_reply-IsNoted u reply
                (refusal-changes sid reply h (ask-IsReplyTo u sid rest) r))
          | inr r ↦ inl ((is_refusal-apply_session_timing_record u.timing reply.response).0 ∙ r)
        ])
        plan e refused in
    unfold apply_reply note_state in noted

-- When the plan for DiagnosticSessionControl, ECUReset or SecurityAccess ends in a refusal on the
-- wire, whether it is the protocol's own, the session check's or an override's, the session, the
-- unlocked level and the outstanding seed are those before the request, provided that the protocol
-- itself gave a response: one that it suppressed is not covered.
pub process_request_with_timing-IsUnmoved :
    (u : VirtualEcu) (sid : ℕ) (rest : List ℕ) {plan : ResponsePlan}
    → contains state_changing_services sid ≡ true
    → is_empty (ask handle_request u sid (sid ∷ rest)).response ≡ false
    → (process_request_with_timing handle_request u (sid ∷ rest)).1 ≡ some plan
    → is_refusal (final_response plan) ≡ true
    → IsUnmoved u.live (process_request_with_timing handle_request u (sid ∷ rest)).0.live
process_request_with_timing-IsUnmoved u sid rest {plan} h full =
    process_request_with_timing-elim
      (λ r. r.1 ≡ some plan → is_refusal (final_response plan) ≡ true → IsUnmoved u.live r.0.live)
      handle_request u sid rest (λ p e k refused. (refl, refl, refl))
      (λ e k refused. answer-IsUnmoved u sid rest h full plan k refused)
