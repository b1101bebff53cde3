-- ===== src/Ecu/Overrides.antt =====
-- The user-defined answers of a control unit and the choice between them
-- (engine/crates/core-domain/src/model.rs). An override's note is left out: it is only logged.
pub mod Choice
pub mod Validation
pub mod Echo
pub mod Answers
use diagnostic_vehicle_simul.Prelude.{
  ℕ, ◌+◌, ◌-◌, ◌%◌, Bool, true, false, not, ◌&&◌, ◌||◌, Option, none, some, List, [], ◌∷◌, ◌++◌,
  if◌then◌else◌, ltb, leb, ◌==◌, length, take, drop, replicate, is_empty,
}
use diagnostic_vehicle_simul.Uds.Dtcs.{and_bits}

-- A run of request bytes to copy into the response.
pub record EchoSpan : Type 0 where
  pub request_offset : ℕ
  pub span_length : ℕ
  pub response_offset : ℕ

pub data OverrideAction : Type 0 where
  substitute : (template : List ℕ) (echo_spans : List EchoSpan) → OverrideAction
  suppress : OverrideAction

pub record ResponseOverride : Type 0 where
  pub request_pattern : List ℕ
  pub request_mask : List ℕ
  pub match_trailing_bytes : Bool
  pub action : OverrideAction
  pub is_rule_enabled : Bool
  pub respond_even_if_suppressed : Bool

unfoldable pub new_exact : List ℕ → OverrideAction → ResponseOverride
new_exact request action = record {
  request_pattern = request;
  request_mask = replicate (length request) 0xFF;
  match_trailing_bytes = false;
  action = action;
  is_rule_enabled = true;
  respond_even_if_suppressed = false;
}

-- The walk over pattern, mask and request together, which stops at the shortest.
unfoldable pub bytes_match : (pattern mask request : List ℕ) → Bool
bytes_match [] mask request = true
bytes_match (p ∷ ps) [] request = true
bytes_match (p ∷ ps) (m ∷ ms) [] = true
bytes_match (p ∷ ps) (m ∷ ms) (b ∷ bs) = (and_bits 8 b m == and_bits 8 p m) && bytes_match ps ms bs

unfoldable pub matches : ResponseOverride → List ℕ → Bool
matches r request =
    let expected = length r.request_pattern in
    let is_length_acceptable =
      if r.match_trailing_bytes
      then leb expected (length request)
      else length request == expected in
    if not r.is_rule_enabled || is_empty r.request_pattern
    then false
    else if not (length r.request_mask == length r.request_pattern)
    then false
    else if not is_length_acceptable
    then false
    else bytes_match r.request_pattern r.request_mask request

-- How many mask bytes fix anything.
unfoldable pub count_fixed : List ℕ → ℕ
count_fixed [] = 0
count_fixed (m ∷ ms) = (if m == 0x00 then 0 else 1) + count_fixed ms

unfoldable pub specificity : ResponseOverride → ℕ × ℕ × Bool
specificity r = (count_fixed r.request_mask, length r.request_pattern, not r.match_trailing_bytes)

-- The strict order of such triples, lexicographic.
unfoldable pub precedes : ℕ × ℕ × Bool → ℕ × ℕ × Bool → Bool
precedes (a, b, c) (a', b', c') =
    ltb a a' || ((a == a') && (ltb b b' || ((b == b') && (not c && c'))))

-- `filter` by the match, then `max_by_key` of the specificity, which keeps the last of several
-- greatest elements. `best` is the choice among the rules before.
unfoldable pub prefer :
    List ℕ → Option ResponseOverride → ResponseOverride → Option ResponseOverride
prefer request none r = if matches r request then some r else none
prefer request (some best) r =
    if matches r request && not (precedes (specificity r) (specificity best))
    then some r
    else some best

unfoldable pub choose :
    List ℕ → Option ResponseOverride → List ResponseOverride → Option ResponseOverride
choose request best [] = best
choose request best (r ∷ rs) = choose request (prefer request best r) rs

unfoldable pub find_matching_override : List ResponseOverride → List ℕ → Option ResponseOverride
find_matching_override rules request = choose request none rules

-- `a + b` on `usize`, which wraps in a release build.
abbrev pub usize_limit : ℕ
usize_limit = 18446744073709551616

abbrev pub usize_add : ℕ → ℕ → ℕ
usize_add a b = (a + b) % usize_limit

-- A span that does not fit is ignored; `none` is the panic on a slice that starts after its end,
-- which a span with a wrapped sum gives.
unfoldable pub apply_echo_span : EchoSpan → (request response : List ℕ) → Option (List ℕ)
apply_echo_span span request response =
    let request_end = usize_add span.request_offset span.span_length in
    let response_end = usize_add span.response_offset span.span_length in
    let copied = take span.span_length (drop span.request_offset request) in
    if ltb (length request) request_end || ltb (length response) response_end
    then some response
    else if ltb request_end span.request_offset || ltb response_end span.response_offset
    then none
    else some (take span.response_offset response ++ (copied ++ drop response_end response))

unfoldable pub apply_echo_spans : List EchoSpan → (request response : List ℕ) → Option (List ℕ)
apply_echo_spans [] request response = some response
apply_echo_spans (span ∷ spans) request response = elim (apply_echo_span span request response) [
  | none ↦ none
  | some echoed ↦ apply_echo_spans spans request echoed
]

-- What building a response comes to: `None`, `Some` or a panic.
pub data BuiltResponse : Type 0 where
  suppressed panicked : BuiltResponse
  built : (bytes : List ℕ) → BuiltResponse

unfoldable pub build_response : OverrideAction → List ℕ → BuiltResponse
build_response suppress request = suppressed
build_response (substitute template spans) request =
    elim (apply_echo_spans spans request template) [ none ↦ panicked | some bytes ↦ built bytes ]

-- The service identifier of a pattern and mask that fix it.
unfoldable pub fixed_service_id : (pattern mask : List ℕ) → Option ℕ
fixed_service_id pattern [] = none
fixed_service_id [] (m ∷ ms) = none
fixed_service_id (p ∷ ps) (m ∷ ms) = if not (m == 0xFF) then none else some p

unfoldable pub request_service_id : ResponseOverride → Option ℕ
request_service_id r = fixed_service_id r.request_pattern r.request_mask
