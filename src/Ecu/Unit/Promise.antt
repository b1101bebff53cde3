-- ===== src/Ecu/Unit/Promise.antt =====
-- A ResponsePending message is a promise of a final response.
use diagnostic_vehicle_simul.Prelude.{
  ℕ, ◌%◌, ◌≡◌, ◌≢◌, ◌<◌, ◌⊎◌, inl, inr, refl, get_or, true, false, Option, some, List, [], ◌∷◌,
  ◌++◌, is_empty, arith, ◌∙◌, Bool-cases,
}
use diagnostic_vehicle_simul.Uds.Contract.{EcuSnapshot, Dtc}
use diagnostic_vehicle_simul.Uds.Handler.{
  response_only, negative, contains, split_sub_function, handle_diagnostic_session_control,
  handle_ecu_reset, handle_read_data_by_identifier, report_did,
}
use diagnostic_vehicle_simul.Uds.Security.{
  issue_seed, unlock, judge_key, receive_key, handle_security_access, handle_security_request_seed,
  handle_security_send_key,
}
use diagnostic_vehicle_simul.Uds.Dtcs.{
  handle_read_dtc_information, expect_length, report_dtc_count, report_dtcs_by_status_mask,
  report_supported_dtcs, intersects, append_matching, append_all, append_dtc,
}
use diagnostic_vehicle_simul.Uds.Dispatch.{
  handle_routine_control, handle_tester_present, route, handle_request,
}
use diagnostic_vehicle_simul.Ecu.Timing.{EcuTiming}
use diagnostic_vehicle_simul.Ecu.Schedule.{ResponsePlan, final_response, build_response_plan}
use diagnostic_vehicle_simul.Uds.Session.{build_snapshot}
use diagnostic_vehicle_simul.Ecu.Schedule.Final.{final_response-build_response_plan}
use diagnostic_vehicle_simul.Ecu.Unit.Outcome.{process_request_with_timing-elim}
use diagnostic_vehicle_simul.Ecu.Unit.{
  VirtualEcu, process_request_with_timing, answer, conclude, ask, apply_reply, note_state,
  clear_suppress_bit_if_pending, apply_session_timing_record, resolve_pending_count_for,
  suppress_capable_services, refuse_if_session_forbids, apply_response_override,
  implemented_services, Overridden, kept, aborted, replaced,
}

-- An answer to a request that does not ask for silence: bit 7 of its second byte is clear, or the
-- service is not one of those in which it suppresses.
abbrev IsAsking : ℕ → List ℕ → Type 0
IsAsking sid request =
    ((split_sub_function (get_or request 1 0)).0 ≡ false)
    ⊎ (contains suppress_capable_services sid ≡ false)

module _ (request : List ℕ) (snapshot : EcuSnapshot) where
  control-responds :
      (split_sub_function (get_or request 1 0)).0 ≡ false
      → is_empty (handle_diagnostic_session_control request snapshot).response ≡ false
  unfolding handle_diagnostic_session_control negative response_only
  control-responds h = ground arith

  reset-responds :
      (split_sub_function (get_or request 1 0)).0 ≡ false
      → is_empty (handle_ecu_reset request).response ≡ false
  unfolding handle_ecu_reset negative response_only
  reset-responds h = ground arith

  routine-responds :
      (split_sub_function (get_or request 1 0)).0 ≡ false
      → is_empty (handle_routine_control request).response ≡ false
  unfolding handle_routine_control negative response_only
  routine-responds h = ground arith

  present-responds :
      (split_sub_function (get_or request 1 0)).0 ≡ false
      → is_empty (handle_tester_present request).response ≡ false
  unfolding handle_tester_present negative response_only
  present-responds h = ground arith

  read-responds : is_empty (handle_read_data_by_identifier request snapshot).response ≡ false
  unfolding handle_read_data_by_identifier report_did negative response_only
  read-responds = ground arith

  security-responds : is_empty (handle_security_access request snapshot).response ≡ false
  unfolding handle_security_access handle_security_request_seed handle_security_send_key issue_seed
      receive_key judge_key unlock negative response_only
  security-responds = ground arith

append_matching-responds :
    (mask a : ℕ) (dtcs : List Dtc) (rest : List ℕ)
    → is_empty (append_matching mask dtcs (a ∷ rest)) ≡ false
unfolding append_matching append_dtc
append_matching-responds mask a [] rest = refl
append_matching-responds mask a (d ∷ ds) rest = elim (Bool-cases (intersects mask d)) [
  | inl h ↦ rw h (append_matching-responds mask a ds (rest ++ _))
  | inr h ↦ rw h (append_matching-responds mask a ds rest)
]

append_all-responds :
    (a : ℕ) (dtcs : List Dtc) (rest : List ℕ) → is_empty (append_all dtcs (a ∷ rest)) ≡ false
unfolding append_all append_dtc
append_all-responds a [] rest = refl
append_all-responds a (d ∷ ds) rest = append_all-responds a ds (rest ++ _)

dtcs-responds :
    (request : List ℕ) (snapshot : EcuSnapshot)
    → is_empty (handle_read_dtc_information request snapshot).response ≡ false
unfolding handle_read_dtc_information expect_length report_dtc_count report_dtcs_by_status_mask
    report_supported_dtcs negative response_only
dtcs-responds request snapshot = ground (
  arith,
  append_matching-responds (get_or request 2 0) 0x59 snapshot.dtcs (0x02 ∷ 0xFF ∷ []),
  append_all-responds 0x59 snapshot.dtcs (0x0A ∷ 0xFF ∷ []),
)

-- Every implemented service responds to a request that asks for a response.
handle_request-responds :
    (sid : ℕ) (rest : List ℕ) (snapshot : EcuSnapshot)
    → contains implemented_services sid ≡ true
    → IsAsking sid (sid ∷ rest)
    → is_empty (handle_request (sid ∷ rest) snapshot).response ≡ false
unfolding handle_request route negative response_only
handle_request-responds sid rest snapshot h k = ground (
  arith,
  control-responds (sid ∷ rest) snapshot,
  reset-responds (sid ∷ rest) snapshot,
  routine-responds (sid ∷ rest) snapshot,
  present-responds (sid ∷ rest) snapshot,
  read-responds (sid ∷ rest) snapshot,
  security-responds (sid ∷ rest) snapshot,
  dtcs-responds (sid ∷ rest) snapshot,
)

resolve_pending_count_for-implemented :
    (u : VirtualEcu) (sid : ℕ)
    → 0 < resolve_pending_count_for u sid
    → contains implemented_services sid ≡ true
unfolding resolve_pending_count_for
resolve_pending_count_for-implemented u sid h = ground arith

-- With a ResponsePending message planned, the protocol is asked for a response and gives one.
ask-responds :
    (u : VirtualEcu) (sid : ℕ) (rest : List ℕ)
    → 0 < resolve_pending_count_for u sid
    → is_empty (ask handle_request u sid (sid ∷ rest)).response ≡ false
unfolding ask clear_suppress_bit_if_pending split_sub_function
ask-responds u sid [] h =
    handle_request-responds sid [] (build_snapshot u.config u.live)
      (resolve_pending_count_for-implemented u sid h) (inl refl)
ask-responds u sid (sub ∷ rest) h = ground (
  arith,
  resolve_pending_count_for-implemented u sid h,
  handle_request-responds sid (sub ∷ rest) (build_snapshot u.config u.live),
  handle_request-responds sid ((sub % 128) ∷ rest) (build_snapshot u.config u.live),
)

pub is_empty-apply_session_timing_record :
    (t : EcuTiming) (response : List ℕ)
    → is_empty (apply_session_timing_record t response) ≡ is_empty response
unfolding apply_session_timing_record
is_empty-apply_session_timing_record t [] = refl
is_empty-apply_session_timing_record t (a ∷ []) = ground arith
is_empty-apply_session_timing_record t (a ∷ b ∷ rest) = ground arith

refuse_if_session_forbids-count :
    (u : VirtualEcu) (sid : ℕ) (request : List ℕ) (plan : ResponsePlan)
    → refuse_if_session_forbids u sid request ≡ some plan
    → plan.response_pending_count ≡ 0
unfolding refuse_if_session_forbids build_response_plan
refuse_if_session_forbids-count u sid request plan e = ground arith

conclude-promise :
    (u : VirtualEcu) (sid pending_count : ℕ) (response : List ℕ) (overridden : Overridden)
    (plan : ResponsePlan)
    → u.timing.drop_final_response ≡ false
    → is_empty response ≡ false
    → (conclude u sid pending_count response overridden).1 ≡ some plan
    → plan.is_overridden ≡ false
    → final_response plan ≢ []
unfolding conclude
conclude-promise u sid n response kept plan sent full e plain =
    let same : build_response_plan u.timing sid response n ≡ plan = cc e in
    ground (arith, same, final_response-build_response_plan u.timing sid response n)
conclude-promise u sid n response aborted plan sent full e plain = absurd (cc)
conclude-promise u sid n response (replaced o) plan sent full e plain =
    let made = build_response_plan u.timing sid o n in
    let same : record made { is_overridden = true } ≡ plan = cc e in absurd (ground (arith, same))

conclude-count :
    (u : VirtualEcu) (sid pending_count : ℕ) (response : List ℕ) (overridden : Overridden)
    (plan : ResponsePlan)
    → (conclude u sid pending_count response overridden).1 ≡ some plan
    → plan.response_pending_count ≡ pending_count
unfolding conclude build_response_plan
conclude-count u sid n response kept plan e = ground arith
conclude-count u sid n response aborted plan e = absurd (cc)
conclude-count u sid n response (replaced o) plan e = ground arith

-- Where a response is promised, there is one, unless an override answers.
abbrev IsKept : VirtualEcu × Option ResponsePlan → Type 0
IsKept r =
    (plan : ResponsePlan)
    → r.1 ≡ some plan
    → 0 < plan.response_pending_count
    → plan.is_overridden ≡ false
    → final_response plan ≢ []

answer-IsKept :
    (u : VirtualEcu) (sid : ℕ) (rest : List ℕ)
    → u.timing.drop_final_response ≡ false
    → IsKept (answer handle_request u sid (sid ∷ rest))
unfolding answer note_state apply_reply
answer-IsKept u sid rest sent plan e promised plain =
    let n = resolve_pending_count_for u sid in
    let reply = ask handle_request u sid (sid ∷ rest) in
    let response = apply_session_timing_record u.timing reply.response in
    let changed = apply_reply (note_state u) reply in
    let o = apply_response_override changed (sid ∷ rest) (is_empty response) in
    conclude-promise changed sid n response o plan sent
      (is_empty-apply_session_timing_record u.timing reply.response
        ∙ ask-responds u sid rest (rw (← conclude-count changed sid n response o plan e) promised))
      e plain

-- On a unit that does not drop its final response, every plan of the bundled protocol that has a
-- ResponsePending message and is not the answer of an override has a final response, even if the
-- tester asked for silence.
pub process_request_with_timing-promise :
    (u : VirtualEcu) (request : List ℕ) {plan : ResponsePlan}
    → u.timing.drop_final_response ≡ false
    → (process_request_with_timing handle_request u request).1 ≡ some plan
    → 0 < plan.response_pending_count
    → plan.is_overridden ≡ false
    → final_response plan ≢ []
unfolding process_request_with_timing build_response_plan
process_request_with_timing-promise u [] sent e promised plain = absurd (ground arith)
process_request_with_timing-promise u (sid ∷ rest) {plan} sent e promised plain =
    process_request_with_timing-elim IsKept handle_request u sid rest
      (λ p e' q k promised.
        let same : p ≡ q = cc k in
        absurd (omega (arith, refuse_if_session_forbids-count u sid (sid ∷ rest) q (e' ∙ k))))
      (λ e. answer-IsKept u sid rest sent) plan e promised plain
