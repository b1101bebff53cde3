-- ===== src/Uds/Session/Guard.antt =====
-- What unlocks a control unit, and what locks it again.
use diagnostic_vehicle_simul.Prelude.{
  ℕ, ◌≡◌, ◌≢◌, ◌⊎◌, Bool, true, false, ◌||◌, List, [], ◌∷◌, arith, if◌then◌else◌, ◌==◌,
}
use diagnostic_vehicle_simul.Uds.Handler.{
  Reply, response_only, negative, make_state_change, handle_request_transfer, handle_transfer_data,
  handle_request_transfer_exit, handle_diagnostic_session_control, handle_ecu_reset,
  handle_read_data_by_identifier, report_did,
}
use diagnostic_vehicle_simul.Uds.Security.{
  session_default, issue_seed, unlock, judge_key, receive_key, handle_security_access,
  handle_security_request_seed, handle_security_send_key,
}
use diagnostic_vehicle_simul.Uds.Dtcs.{
  handle_read_dtc_information, expect_length, report_dtc_count, report_dtcs_by_status_mask,
  report_supported_dtcs,
}
use diagnostic_vehicle_simul.Uds.Dispatch.{
  handle_routine_control, handle_tester_present, route, handle_request,
}
use diagnostic_vehicle_simul.Uds.Session.{
  Config, LiveState, build_snapshot, lock_security, abandon_transfer, enter_session,
  apply_state_change, apply_changes, serve,
}

-- In the default session nothing is unlocked and no seed is outstanding.
abbrev pub IsGuarded : LiveState → Type 0
IsGuarded s = (s.session ≢ session_default) ⊎ ((s.unlocked_level ≡ 0) × (s.seed_level ≡ 0))

-- What a reply may change: it keeps the guard, and it unlocks a level only outside the default
-- session and on an outstanding seed of that level, which it uses up.
abbrev pub IsSafe : LiveState → Reply → Type 0
IsSafe s reply =
    IsGuarded (apply_changes s reply.changes)
    × (((apply_changes s reply.changes).unlocked_level ≡ s.unlocked_level)
        ⊎ ((apply_changes s reply.changes).unlocked_level ≡ 0)
        ⊎ ((s.seed_level ≡ (apply_changes s reply.changes).unlocked_level)
            × (s.session ≢ session_default)
            × ((apply_changes s reply.changes).seed_level ≡ 0)))

module _ (config : Config) (s : LiveState) (guarded : IsGuarded s) (request : List ℕ) where
  transfer-IsSafe : IsSafe s (handle_request_transfer request)
  unfolding handle_request_transfer negative response_only make_state_change apply_changes
      apply_state_change
  transfer-IsSafe = ground arith

  data-IsSafe : IsSafe s (handle_transfer_data request (build_snapshot config s))
  unfolding handle_transfer_data negative response_only make_state_change apply_changes
      apply_state_change
  data-IsSafe = ground arith

  exit-IsSafe : IsSafe s handle_request_transfer_exit
  unfolding handle_request_transfer_exit make_state_change apply_changes apply_state_change
  exit-IsSafe = ground arith

  control-IsSafe : IsSafe s (handle_diagnostic_session_control request (build_snapshot config s))
  unfolding handle_diagnostic_session_control negative response_only make_state_change apply_changes
      apply_state_change enter_session lock_security
  control-IsSafe = ground arith

  reset-IsSafe : IsSafe s (handle_ecu_reset request)
  unfolding handle_ecu_reset negative response_only make_state_change apply_changes
      apply_state_change abandon_transfer lock_security
  reset-IsSafe = ground arith

  security-IsSafe : IsSafe s (handle_security_access request (build_snapshot config s))
  unfolding handle_security_access handle_security_request_seed handle_security_send_key issue_seed
      receive_key judge_key unlock negative response_only make_state_change apply_changes
      apply_state_change build_snapshot
  security-IsSafe = ground arith

  read-IsSafe : IsSafe s (handle_read_data_by_identifier request (build_snapshot config s))
  unfolding handle_read_data_by_identifier report_did negative response_only apply_changes
  read-IsSafe = ground arith

  dtcs-IsSafe : IsSafe s (handle_read_dtc_information request (build_snapshot config s))
  unfolding handle_read_dtc_information expect_length report_dtc_count report_dtcs_by_status_mask
      report_supported_dtcs negative response_only apply_changes
  dtcs-IsSafe = ground arith

  routine-IsSafe : IsSafe s (handle_routine_control request)
  unfolding handle_routine_control negative response_only apply_changes
  routine-IsSafe = ground arith

  present-IsSafe : IsSafe s (handle_tester_present request)
  unfolding handle_tester_present negative response_only apply_changes
  present-IsSafe = ground arith

  refused-IsSafe : (sid nrc : ℕ) → IsSafe s (negative sid nrc)
  unfolding negative response_only apply_changes
  refused-IsSafe sid nrc = ground arith

  either-IsSafe : (b : Bool) (x y : Reply) → IsSafe s x → IsSafe s y → IsSafe s (if b then x else y)
  either-IsSafe true x y p q = p
  either-IsSafe false x y p q = q

  route-IsSafe : (sid : ℕ) → IsSafe s (route sid request (build_snapshot config s))
  unfolding route
  route-IsSafe sid = either-IsSafe (sid == 0x10) _ _ control-IsSafe (
      either-IsSafe (sid == 0x11) _ _ reset-IsSafe (
        either-IsSafe (sid == 0x22) _ _ read-IsSafe (
          either-IsSafe (sid == 0x27) _ _ security-IsSafe (
            either-IsSafe (sid == 0x19) _ _ dtcs-IsSafe (
              either-IsSafe (sid == 0x31) _ _ routine-IsSafe (
                either-IsSafe (sid == 0x3E) _ _ present-IsSafe (
                  either-IsSafe ((sid == 0x34) || (sid == 0x35)) _ _ transfer-IsSafe (
                    either-IsSafe (sid == 0x36) _ _ data-IsSafe (
                      either-IsSafe (sid == 0x37) _ _ exit-IsSafe (refused-IsSafe sid 0x11))))))))))

-- One request, whatever its bytes and however the unit is configured, leaves nothing unlocked in
-- the default session, and it unlocks a level only when a seed of that very level is outstanding
-- and the session is not the default one, using up the seed.
pub serve-IsGuarded :
    (config : Config) (s : LiveState) (request : List ℕ)
    → IsGuarded s
    → IsGuarded (serve config s request).0
      × (((serve config s request).0.unlocked_level ≡ s.unlocked_level)
          ⊎ ((serve config s request).0.unlocked_level ≡ 0)
          ⊎ ((s.seed_level ≡ (serve config s request).0.unlocked_level)
              × (s.session ≢ session_default)
              × ((serve config s request).0.seed_level ≡ 0)))
unfolding serve handle_request
serve-IsGuarded config s [] g = refused-IsSafe config s g [] 0x00 0x13
serve-IsGuarded config s (sid ∷ rest) g = ground (
  arith,
  route-IsSafe config s g (sid ∷ rest) sid,
  refused-IsSafe config s g (sid ∷ rest) sid 0x11,
)

-- The requests of a whole diagnostic session.
unfoldable pub serve_all : Config → LiveState → List (List ℕ) → LiveState
serve_all config s [] = s
serve_all config s (request ∷ requests) = serve_all config (serve config s request).0 requests

-- However a tester drives a unit, it never has a level unlocked, or a seed outstanding, in the
-- default session.
pub serve_all-IsGuarded :
    (config : Config) (requests : List (List ℕ)) (s : LiveState)
    → IsGuarded s
    → IsGuarded (serve_all config s requests)
unfolding serve_all
serve_all-IsGuarded config [] s g = g
serve_all-IsGuarded config (request ∷ requests) s g =
    serve_all-IsGuarded config requests (serve config s request).0
      (serve-IsGuarded config s request g).0
