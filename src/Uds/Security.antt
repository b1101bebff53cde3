-- ===== src/Uds/Security.antt =====
-- SecurityAccess (engine/plugins/protocols/l7-application/uds/src/handler.rs).
use diagnostic_vehicle_simul.Prelude.{
  ℕ, ◌+◌, ◌%◌, Bool, true, false, not, ◌&&◌, Option, none, some, List, [], ◌∷◌, if◌then◌else◌, ltb,
  ◌==◌, length, get_or, drop, replicate,
}
use diagnostic_vehicle_simul.Uds.Contract.{
  KeyPolicy, compare_with_expected_key, accept_any_key, refuse_with, SecurityLevel, EcuSnapshot,
  set_active_seed_level, unlock_security,
}
use diagnostic_vehicle_simul.Uds.Handler.{
  Reply, response_only, negative, make_state_change, positive, sid_security_access,
  nrc_sub_function_not_supported, nrc_incorrect_message_length, nrc_request_sequence_error,
  nrc_invalid_key, nrc_service_not_supported_in_active_session,
}

abbrev pub session_default : ℕ
session_default = 0x01

-- Whether two slices of bytes are equal.
abbrev pub same_bytes : List ℕ → List ℕ → Bool
same_bytes [] [] = true
same_bytes [] (y ∷ ys) = false
same_bytes (x ∷ xs) [] = false
same_bytes (x ∷ xs) (y ∷ ys) = (x == y) && same_bytes xs ys

-- The level whose seed this sub-function requests.
unfoldable pub find_seed_level : List SecurityLevel → ℕ → Option SecurityLevel
find_seed_level [] sub_function = none
find_seed_level (l ∷ ls) sub_function =
    if l.request_seed_sub_function == sub_function then some l else find_seed_level ls sub_function

-- The level whose key this sub-function sends: `wrapping_add(1)` on u8.
unfoldable pub find_key_level : List SecurityLevel → ℕ → Option SecurityLevel
find_key_level [] sub_function = none
find_key_level (l ∷ ls) sub_function =
    if (l.request_seed_sub_function + 1) % 256 == sub_function
    then some l
    else find_key_level ls sub_function

unfoldable pub issue_seed : ℕ → EcuSnapshot → Option SecurityLevel → Reply
issue_seed sub_function snapshot none = negative sid_security_access nrc_sub_function_not_supported
issue_seed sub_function snapshot (some level) =
    if snapshot.security_unlocked_level == sub_function
    then response_only
        (positive sid_security_access ∷ sub_function ∷ replicate (length level.seed) 0x00)
    else record {
      response = positive sid_security_access ∷ sub_function ∷ level.seed;
      changes = make_state_change set_active_seed_level sub_function ∷ [];
    }

unfoldable pub handle_security_request_seed : ℕ → EcuSnapshot → Reply
handle_security_request_seed sub_function snapshot =
    issue_seed sub_function snapshot (find_seed_level snapshot.security_levels sub_function)

-- The reply to a key that was accepted.
unfoldable pub unlock : ℕ → SecurityLevel → Reply
unlock sub_function level = record {
  response = positive sid_security_access ∷ sub_function ∷ [];
  changes =
      make_state_change unlock_security level.request_seed_sub_function
      ∷ make_state_change set_active_seed_level 0x00
      ∷ [];
}

-- What the level's policy does with a key.
unfoldable pub judge_key : List ℕ → ℕ → SecurityLevel → KeyPolicy → Reply
judge_key key sub_function level accept_any_key = unlock sub_function level
judge_key key sub_function level refuse_with = negative sid_security_access level.refusal_nrc
judge_key key sub_function level compare_with_expected_key =
    if not (same_bytes key level.expected_key)
    then negative sid_security_access nrc_invalid_key
    else unlock sub_function level

unfoldable pub receive_key : List ℕ → ℕ → EcuSnapshot → Option SecurityLevel → Reply
receive_key key sub_function snapshot none =
    negative sid_security_access nrc_sub_function_not_supported
receive_key key sub_function snapshot (some level) =
    if not (snapshot.active_seed_level == level.request_seed_sub_function)
    then negative sid_security_access nrc_request_sequence_error
    else judge_key key sub_function level level.key_policy

unfoldable pub handle_security_send_key : List ℕ → ℕ → EcuSnapshot → Reply
handle_security_send_key request sub_function snapshot =
    receive_key (drop 2 request) sub_function snapshot
      (find_key_level snapshot.security_levels sub_function)

unfoldable pub handle_security_access : List ℕ → EcuSnapshot → Reply
handle_security_access request snapshot =
    let sub_function = get_or request 1 0 in
    if ltb (length request) 2
    then negative sid_security_access nrc_incorrect_message_length
    else if snapshot.current_session == session_default
    then negative sid_security_access nrc_service_not_supported_in_active_session
    else if sub_function % 2 == 1
    then handle_security_request_seed sub_function snapshot
    else handle_security_send_key request sub_function snapshot
