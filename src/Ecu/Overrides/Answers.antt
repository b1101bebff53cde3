-- ===== src/Ecu/Overrides/Answers.antt =====
-- What a validated override answers.
use diagnostic_vehicle_simul.Prelude.{
  ℕ, ◌+◌, ◌≡◌, ap, ◌≤◌, ◌<◌, ◌≢◌, ◌⊎◌, true, List, [], ◌∷◌, All, IsByte, length, get_or, head_or,
  ok, arith,
}
use diagnostic_vehicle_simul.Uds.Dtcs.{and_bits}
use diagnostic_vehicle_simul.Ecu.Overrides.{
  EchoSpan, substitute, ResponseOverride, matches, bytes_match, build_response, built, usize_limit,
}
use diagnostic_vehicle_simul.Ecu.Overrides.Validation.{
  is_request_service_id, validate_negative_response, validate_echo_span, validate_echo_spans,
  validate_response_sid, validate_action, validate_override,
}
use diagnostic_vehicle_simul.Ecu.Overrides.Echo.{
  FitsUsize, echo, echo_all, build_response-echo_all, length-echo_all, get_or-echo_all, head-echo,
}

leaves :
    (i : ℕ) (spans : List EchoSpan)
    → i ≤ 2
    → All (λ span. 2 < span.response_offset) spans
    → All (λ span. i < span.response_offset) spans
leaves i [] h a = tt
leaves i (span ∷ spans) h (a, as_) = (omega arith, leaves i spans h as_)

-- A response that answers a service: the positive response identifier first, or a refusal of three
-- bytes that names the service and does not ask to wait.
abbrev pub IsAnswerTo : ℕ → List ℕ → Type 0
IsAnswerTo sid response =
    (get_or response 0 0 ≡ sid + 0x40)
    ⊎ ((length response ≡ 3)
        × (get_or response 0 0 ≡ 0x7F)
        × (get_or response 1 0 ≡ sid)
        × (get_or response 2 0 ≢ 0x78))

validate_response_sid-IsAnswerTo :
    (response : List ℕ) (sid : ℕ)
    → is_request_service_id sid ≡ true
    → validate_response_sid response sid ≡ ok tt
    → IsAnswerTo sid response
unfolding validate_response_sid validate_negative_response is_request_service_id
validate_response_sid-IsAnswerTo [] sid s v = absurd (ground arith)
validate_response_sid-IsAnswerTo (b ∷ bs) sid s v = ground arith

-- What validation has shown of a substituting override: the service is one of requests, the mask
-- fixes it, and the template answers it.
validate_override-IsAnswerTo :
    (r : ResponseOverride) {template : List ℕ} {spans : List EchoSpan}
    → validate_override r ≡ ok tt
    → r.action ≡ substitute template spans
    → IsAnswerTo (head_or r.request_pattern 0) template
      × (validate_echo_spans spans r.request_pattern template ≡ ok tt)
      × (is_request_service_id (head_or r.request_pattern 0) ≡ true)
      × (head_or r.request_mask 0 ≡ 0xFF)
unfolding validate_override validate_action
validate_override-IsAnswerTo r {template} {spans} v e =
    ground (arith, validate_response_sid-IsAnswerTo template (head_or r.request_pattern 0))

and_bits-byte : (b p : ℕ) → IsByte b → IsByte p → and_bits 8 b 0xFF ≡ and_bits 8 p 0xFF → b ≡ p
unfolding and_bits
and_bits-byte b p h k e = omega arith

bytes_match-head :
    (pattern mask request : List ℕ)
    → length mask ≡ length pattern
    → head_or mask 0 ≡ 0xFF
    → length pattern ≤ length request
    → IsByte (head_or pattern 0)
    → IsByte (head_or request 0)
    → bytes_match pattern mask request ≡ true
    → head_or request 0 ≡ head_or pattern 0
unfolding bytes_match
bytes_match-head [] [] request l f n p b h = absurd (omega arith)
bytes_match-head [] (m ∷ ms) request l f n p b h = absurd (omega arith)
bytes_match-head (q ∷ qs) [] request l f n p b h = absurd (omega arith)
bytes_match-head (q ∷ qs) (m ∷ ms) [] l f n p b h = absurd (omega arith)
bytes_match-head (q ∷ qs) (m ∷ ms) (x ∷ xs) l f n p b h =
    ground
      (arith, and_bits-byte x q, ap (λ (k : ℕ). and_bits 8 x k) f, ap (λ (k : ℕ). and_bits 8 q k) f)

-- Under a mask that fixes the service, a matching request asks for the service of the pattern, and
-- it is as long as the pattern.
matches-service :
    (r : ResponseOverride) (request : List ℕ)
    → head_or r.request_mask 0 ≡ 0xFF
    → matches r request ≡ true
    → IsByte (head_or r.request_pattern 0)
    → IsByte (head_or request 0)
    → (head_or request 0 ≡ head_or r.request_pattern 0)
      × (length r.request_pattern ≤ length request)
unfolding matches
matches-service r request m h bp br =
    ground (arith, bytes_match-head r.request_pattern r.request_mask request)

-- A matching request is answered as validation promises, if every echo span leaves the first three
-- bytes of the template alone and has sums that fit `usize`: the response has the template's length,
-- and it is the positive response to the service that was asked for, or a refusal of that service
-- that is not ResponsePending.
pub build_response-IsAnswerTo :
    (r : ResponseOverride) (request : List ℕ) {template : List ℕ} {spans : List EchoSpan}
    → validate_override r ≡ ok tt
    → r.action ≡ substitute template spans
    → matches r request ≡ true
    → IsByte (head_or r.request_pattern 0)
    → IsByte (head_or request 0)
    → All (λ span. 2 < span.response_offset) spans
    → All FitsUsize spans
    → (response : List ℕ) × (build_response r.action request ≡ built response)
      × (length response ≡ length template)
      × IsAnswerTo (head_or request 0) response
unfolding build_response
build_response-IsAnswerTo r request {template} {spans} v e m bp br before fits =
    let (answer, _, _, fixed) = validate_override-IsAnswerTo r v e in
    let (same, _) = matches-service r request fixed m bp br in
    (
      echo_all spans request template,
      rw e (build_response-echo_all template spans request fits),
      length-echo_all spans request template,
      ground (
        arith,
        length-echo_all spans request template,
        get_or-echo_all 0 spans request template (leaves 0 spans (omega arith) before),
        get_or-echo_all 1 spans request template (leaves 1 spans (omega arith) before),
        get_or-echo_all 2 spans request template (leaves 2 spans (omega arith) before),
      ),
    )

-- Validation accepts an echo span that overwrites the service identifier of the response: where the
-- only span copies the start of the request, at least one byte and as many as fit `usize`, to the
-- start of the response, a matching request gets a response that begins with the identifier of the
-- request, and answers nothing.
pub build_response-echoed_service :
    (r : ResponseOverride) (request : List ℕ) {template : List ℕ} (span : EchoSpan)
    → validate_override r ≡ ok tt
    → r.action ≡ substitute template (span ∷ [])
    → matches r request ≡ true
    → IsByte (head_or r.request_pattern 0)
    → IsByte (head_or request 0)
    → span.request_offset ≡ 0
    → span.response_offset ≡ 0
    → 0 < span.span_length
    → span.span_length < usize_limit
    → (response : List ℕ) × (build_response r.action request ≡ built response)
      × (get_or response 0 0 ≡ head_or request 0)
      × ¬ IsAnswerTo (head_or request 0) response
unfolding build_response echo_all validate_echo_spans validate_echo_span is_request_service_id
build_response-echoed_service r request {template} span v e m bp br a b c d =
    let (_, fits, is_sid, fixed) = validate_override-IsAnswerTo r v e in
    let (same, longer) = matches-service r request fixed m bp br in
    let low : FitsUsize span = (omega arith, omega arith) in
    let starts : get_or (echo span request template) 0 0 ≡ head_or request 0 =
      head-echo span request template b a c (ground arith) (ground arith) in
    (
      echo span request template,
      rw e (build_response-echo_all template (span ∷ []) request (low, tt)),
      starts,
      λ answers. ground arith,
    )
