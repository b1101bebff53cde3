-- ===== src/Ecu/Overrides/Echo.antt =====
-- What the echo spans of an override write where their sums fit `usize`.
use diagnostic_vehicle_simul.Prelude.{
  ℕ, zero, ltb, ◌||◌, if◌then◌else◌, suc, ◌+◌, ◌≡◌, ◌≤◌, ◌<◌, refl, some, List, [], ◌∷◌, ◌++◌, All,
  length, take, drop, get_or, head_or, length-append, length-take, length-drop, arith,
}
use diagnostic_vehicle_simul.Ecu.Overrides.{
  substitute, build_response, built, EchoSpan, apply_echo_span, apply_echo_spans, usize_limit,
  usize_add,
}

-- The sums of a span stay below the limit of `usize`.
abbrev pub FitsUsize : EchoSpan → Type 0
FitsUsize span =
    (span.request_offset + span.span_length < usize_limit)
    × (span.response_offset + span.span_length < usize_limit)

-- What a span that fits `usize` writes, without wrapping sums.
unfoldable pub echo : EchoSpan → (request response : List ℕ) → List ℕ
echo span request response =
    let copied = take span.span_length (drop span.request_offset request) in
    let after = drop (span.response_offset + span.span_length) response in
    if ltb (length request) (span.request_offset + span.span_length)
      || ltb (length response) (span.response_offset + span.span_length)
    then response
    else take span.response_offset response ++ (copied ++ after)

unfoldable pub echo_all : List EchoSpan → (request response : List ℕ) → List ℕ
echo_all [] request response = response
echo_all (span ∷ spans) request response = echo_all spans request (echo span request response)

usize_add-lt : (a b : ℕ) → a + b < usize_limit → usize_add a b ≡ a + b
usize_add-lt a b h = ground arith

apply_echo_span-echo :
    (span : EchoSpan) (request response : List ℕ)
    → FitsUsize span
    → apply_echo_span span request response ≡ some (echo span request response)
unfolding apply_echo_span echo
apply_echo_span-echo span request response (f, g) =
    rw
      (
        usize_add-lt span.request_offset span.span_length f,
        usize_add-lt span.response_offset span.span_length g,
      )
      (ground arith)

-- Spans that fit `usize` never panic.
apply_echo_spans-echo_all :
    (spans : List EchoSpan) (request response : List ℕ)
    → All FitsUsize spans
    → apply_echo_spans spans request response ≡ some (echo_all spans request response)
unfolding apply_echo_spans echo_all
apply_echo_spans-echo_all [] request response f = refl
apply_echo_spans-echo_all (span ∷ spans) request response (f, fs) =
    rw (apply_echo_span-echo span request response f, apply_echo_spans)
      (apply_echo_spans-echo_all spans request (echo span request response) fs)

pub build_response-echo_all :
    (template : List ℕ) (spans : List EchoSpan) (request : List ℕ)
    → All FitsUsize spans
    → build_response (substitute template spans) request ≡ built (echo_all spans request template)
unfolding build_response
build_response-echo_all template spans request fits =
    rw (apply_echo_spans-echo_all spans request template fits, build_response) refl

length-echo :
    (span : EchoSpan) (request response : List ℕ)
    → length (echo span request response) ≡ length response
unfolding echo
length-echo span request response = ground (
  arith,
  length-append (take span.response_offset response) (
      take span.span_length (drop span.request_offset request)
      ++ drop (span.response_offset + span.span_length) response),
  length-append (take span.span_length (drop span.request_offset request))
      (drop (span.response_offset + span.span_length) response),
  length-take span.response_offset response,
  length-take span.span_length (drop span.request_offset request),
  length-drop span.request_offset request,
  length-drop (span.response_offset + span.span_length) response,
)

pub length-echo_all :
    (spans : List EchoSpan) (request response : List ℕ)
    → length (echo_all spans request response) ≡ length response
unfolding echo_all
length-echo_all [] request response = refl
length-echo_all (span ∷ spans) request response = ground (
  arith,
  length-echo_all spans request (echo span request response),
  length-echo span request response,
)

get_or-append_take :
    (i n : ℕ) (xs ys : List ℕ)
    → i < n
    → n ≤ length xs
    → get_or (take n xs ++ ys) i 0 ≡ get_or xs i 0
get_or-append_take i zero xs ys h k = absurd (omega arith)
get_or-append_take i (suc n) [] ys h k = absurd (omega arith)
get_or-append_take zero (suc n) (x ∷ xs) ys h k = refl
get_or-append_take (suc i) (suc n) (x ∷ xs) ys h k =
    get_or-append_take i n xs ys (omega arith) (omega arith)

-- What stands before a span is left as it is.
get_or-echo :
    (i : ℕ) (span : EchoSpan) (request response : List ℕ)
    → i < span.response_offset
    → get_or (echo span request response) i 0 ≡ get_or response i 0
unfolding echo
get_or-echo i span request response h = ground (
  arith,
  get_or-append_take i span.response_offset response (
      take span.span_length (drop span.request_offset request)
      ++ drop (span.response_offset + span.span_length) response),
)

pub get_or-echo_all :
    (i : ℕ) (spans : List EchoSpan) (request response : List ℕ)
    → All (λ span. i < span.response_offset) spans
    → get_or (echo_all spans request response) i 0 ≡ get_or response i 0
unfolding echo_all
get_or-echo_all i [] request response h = refl
get_or-echo_all i (span ∷ spans) request response (h, hs) = ground (
  arith,
  get_or-echo_all i spans request (echo span request response),
  get_or-echo i span request response,
)

head_of_copy :
    (o q l : ℕ) (request response rest : List ℕ)
    → o ≡ 0
    → q ≡ 0
    → 0 < l
    → l ≤ length request
    → get_or (take o response ++ (take l (drop q request) ++ rest)) 0 0 ≡ head_or request 0
head_of_copy (suc o) q l request response rest a b c d = absurd (omega arith)
head_of_copy zero (suc q) l request response rest a b c d = absurd (omega arith)
head_of_copy zero zero zero request response rest a b c d = absurd (omega arith)
head_of_copy zero zero (suc l) [] response rest a b c d = absurd (omega arith)
head_of_copy zero zero (suc l) (x ∷ xs) response rest a b c d = refl

pub head-echo :
    (span : EchoSpan) (request response : List ℕ)
    → span.response_offset ≡ 0
    → span.request_offset ≡ 0
    → 0 < span.span_length
    → span.span_length ≤ length request
    → span.span_length ≤ length response
    → get_or (echo span request response) 0 0 ≡ head_or request 0
unfolding echo
head-echo span request response a b c d e = ground (
  arith,
  head_of_copy span.response_offset span.request_offset span.span_length request response
      (drop (span.response_offset + span.span_length) response),
)
