-- ===== src/Ecu/Overrides/Validation.antt =====
-- The check that an override could be a real exchange (engine/crates/core-domain/src/model.rs).
-- The messages of the errors are left out, their numbers kept.
use diagnostic_vehicle_simul.Prelude.{
  ℕ, ◌+◌, ◌%◌, Bool, true, not, ◌&&◌, ◌||◌, List, [], ◌∷◌, if◌then◌else◌, ltb, leb, ◌==◌, length,
  get_or, head_or, is_empty, Result, ok, err,
}
use diagnostic_vehicle_simul.Ecu.Overrides.{
  EchoSpan, OverrideAction, substitute, suppress, ResponseOverride, usize_add,
}

abbrev pub positive_response_offset : ℕ
positive_response_offset = 0x40

abbrev pub negative_response_sid : ℕ
negative_response_sid = 0x7F

abbrev pub nrc_response_pending : ℕ
nrc_response_pending = 0x78

pub data OverrideValidationError : Type 0 where
  empty_request_pattern : OverrideValidationError
  mask_length_mismatch : (pattern_length mask_length : ℕ) → OverrideValidationError
  everything_wildcarded : OverrideValidationError
  service_id_wildcarded : OverrideValidationError
  not_a_request_service_id : (service_id : ℕ) → OverrideValidationError
  empty_substitute_response : OverrideValidationError
  response_sid_mismatch : (response_sid request_sid expected : ℕ) → OverrideValidationError
  malformed_negative_response : (response_length : ℕ) → OverrideValidationError
  negative_response_sid_mismatch : (echoed_sid request_sid : ℕ) → OverrideValidationError
  response_pending_as_override : OverrideValidationError
  echo_span_outside_request : (request_offset request_end : ℕ) → OverrideValidationError
  echo_span_outside_response :
      (response_offset response_end response_length : ℕ) → OverrideValidationError

-- `Result<(), OverrideValidationError>`.
abbrev pub OverrideVerdict : Type 0
OverrideVerdict = Result OverrideValidationError (Unit {0})

-- The `?` operator between two checks.
abbrev pub then_check : OverrideVerdict → OverrideVerdict → OverrideVerdict
then_check (ok u) next = next
then_check (err e) next = err e

unfoldable pub is_request_service_id : ℕ → Bool
is_request_service_id sid = (leb 0x10 sid && leb sid 0x3E) || (leb 0x83 sid && leb sid 0x88)

unfoldable pub validate_negative_response : List ℕ → ℕ → OverrideVerdict
validate_negative_response response request_sid =
    if not (length response == 3)
    then err (malformed_negative_response (length response))
    else if not (get_or response 1 0 == request_sid)
    then err (negative_response_sid_mismatch (get_or response 1 0) request_sid)
    else if get_or response 2 0 == nrc_response_pending
    then err response_pending_as_override
    else ok tt

unfoldable pub validate_echo_span : EchoSpan → (pattern response : List ℕ) → OverrideVerdict
validate_echo_span span pattern response =
    let request_end = usize_add span.request_offset span.span_length in
    let response_end = usize_add span.response_offset span.span_length in
    if ltb (length pattern) request_end
    then err (echo_span_outside_request span.request_offset request_end)
    else if ltb (length response) response_end
    then err (echo_span_outside_response span.response_offset response_end (length response))
    else ok tt

unfoldable pub validate_echo_spans : List EchoSpan → (pattern response : List ℕ) → OverrideVerdict
validate_echo_spans [] pattern response = ok tt
validate_echo_spans (span ∷ spans) pattern response =
    then_check (validate_echo_span span pattern response)
      (validate_echo_spans spans pattern response)

-- The first byte of a response against the service that it answers.
unfoldable pub validate_response_sid : List ℕ → ℕ → OverrideVerdict
validate_response_sid response request_sid =
    let expected = (request_sid + positive_response_offset) % 256 in
    if head_or response 0 == negative_response_sid
    then validate_negative_response response request_sid
    else if not (head_or response 0 == expected)
    then err (response_sid_mismatch (head_or response 0) request_sid expected)
    else ok tt

unfoldable pub validate_action : List ℕ → OverrideAction → ℕ → OverrideVerdict
validate_action pattern suppress request_sid = ok tt
validate_action pattern (substitute template spans) request_sid =
    if is_empty template
    then err empty_substitute_response
    else then_check (validate_response_sid template request_sid)
        (validate_echo_spans spans pattern template)

-- Whether a mask fixes nothing.
unfoldable pub is_all_wildcards : List ℕ → Bool
is_all_wildcards [] = true
is_all_wildcards (m ∷ ms) = (m == 0x00) && is_all_wildcards ms

unfoldable pub validate_override : ResponseOverride → OverrideVerdict
validate_override r =
    let request_sid = head_or r.request_pattern 0 in
    if is_empty r.request_pattern
    then err empty_request_pattern
    else if not (length r.request_mask == length r.request_pattern)
    then err (mask_length_mismatch (length r.request_pattern) (length r.request_mask))
    else if is_all_wildcards r.request_mask
    then err everything_wildcarded
    else if not (head_or r.request_mask 0 == 0xFF)
    then err service_id_wildcarded
    else if not (is_request_service_id request_sid)
    then err (not_a_request_service_id request_sid)
    else validate_action r.request_pattern r.action request_sid
