-- ===== src/Ecu/Unit/Rollback.antt =====
-- What the rollback of an overridden answer leaves out.
use diagnostic_vehicle_simul.Prelude.{ℕ, ◌<◌, ◌≡◌, true, none, some, List, [], ◌∷◌, arith}
use diagnostic_vehicle_simul.Uds.Contract.{
  StateChange, reset_to_default_session, unlock_security, set_active_seed_level,
}
use diagnostic_vehicle_simul.Uds.Handler.{
  contains, handle_ecu_reset, make_state_change, split_sub_function,
}
use diagnostic_vehicle_simul.Uds.Dispatch.{handle_request, route}
use diagnostic_vehicle_simul.Uds.Session.{
  LiveState, build_snapshot, apply_changes, apply_state_change, abandon_transfer, lock_security,
}
use diagnostic_vehicle_simul.Ecu.Overrides.{
  ResponseOverride, substitute, find_matching_override, build_response, apply_echo_spans,
}
use diagnostic_vehicle_simul.Ecu.Unit.{
  VirtualEcu, answer, conclude, ask, apply_reply, note_state, clear_suppress_bit_if_pending,
  apply_session_timing_record, apply_response_override, override_bytes,
  discard_state_changes_on_refusal,
}

reset_changes : List StateChange
reset_changes =
    make_state_change reset_to_default_session 0x00
    ∷ make_state_change unlock_security 0x00
    ∷ make_state_change set_active_seed_level 0x00
    ∷ []

ask-reset :
    (u : VirtualEcu) (reset_type : ℕ)
    → contains u.config.services 0x11 ≡ true
    → reset_type < 128
    → ask handle_request u 0x11 (0x11 ∷ reset_type ∷ [])
      ≡ record { response = 0x51 ∷ reset_type ∷ []; changes = reset_changes }
unfolding ask clear_suppress_bit_if_pending handle_request route handle_ecu_reset split_sub_function
    build_snapshot reset_changes
ask-reset u reset_type h lt = ground arith

apply_changes-reset :
    (s : LiveState)
    → apply_changes s reset_changes
      ≡ record s { session = 0x01; unlocked_level = 0; seed_level = 0; expected_counter = none }
unfolding apply_changes apply_state_change abandon_transfer lock_security reset_changes
    make_state_change
apply_changes-reset s = ground arith

-- What the rollback leaves out: where an override refuses an ECUReset that the protocol carried
-- out, a transfer that was in progress is lost.
pub answer-reset_refused :
    (u : VirtualEcu) (reset_type nrc : ℕ) {rule : ResponseOverride}
    → contains u.config.services 0x11 ≡ true
    → reset_type < 128
    → find_matching_override u.overrides (0x11 ∷ reset_type ∷ []) ≡ some rule
    → rule.action ≡ substitute (0x7F ∷ 0x11 ∷ nrc ∷ []) []
    → (answer handle_request u 0x11 (0x11 ∷ reset_type ∷ [])).0.live
      ≡ record u.live { expected_counter = none }
unfolding answer apply_reply note_state conclude discard_state_changes_on_refusal
    apply_response_override override_bytes build_response apply_echo_spans
    apply_session_timing_record
answer-reset_refused u reset_type nrc {rule} h lt found act =
    let at = ask-reset u reset_type h lt in
    rw (at, found, apply_changes-reset u.live) (ground arith)
