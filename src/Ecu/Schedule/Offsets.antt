-- ===== src/Ecu/Schedule/Offsets.antt =====
-- When the messages of a plan go out.
use diagnostic_vehicle_simul.Prelude.{
  ℕ, zero, suc, ◌+◌, ◌-◌, ◌*◌, ◌/◌, ◌≤◌, ◌<◌, ◌≡◌, refl, min, Bool, true, false, not, ◌&&◌, List,
  [], ◌∷◌, ◌++◌, map, All, arith, if◌then◌else◌, ◌==◌, length, is_empty, some, take, ap, ◌∙◌, ◌⊎◌,
}
use native.Mathlib.Nat.{le-div_iff_mul-le, div-mul-le_self}
use diagnostic_vehicle_simul.Ecu.Timing.{EcuTiming}
use diagnostic_vehicle_simul.Ecu.Schedule.{
  ScheduledResponse, final_instant_ms, offsets, pending_offsets_ms, build_response_plan, find_final,
  final_response, final_at_ms, pending_step,
}

-- Each number is greater than the one before.
abbrev pub IsAscending : List ℕ → Type 0
IsAscending [] = Unit {0}
IsAscending (x ∷ []) = Unit {0}
IsAscending (x ∷ y ∷ rest) = (x < y) × IsAscending (y ∷ rest)

offsets-IsAscending :
    (first step final index count : ℕ)
    → 0 < step
    → first + (index + count) * step ≤ final
    → IsAscending (offsets first step index count ++ (final ∷ []))
unfolding offsets
offsets-IsAscending first step final index zero p h = tt
offsets-IsAscending first step final index (suc zero) p h = (ground arith, tt)
offsets-IsAscending first step final index (suc (suc count)) p h =
    (ground arith, offsets-IsAscending first step final (suc index) (suc count) p (ground arith))

length-offsets : (first step index count : ℕ) → length (offsets first step index count) ≡ count
unfolding offsets
length-offsets first step index zero = refl
length-offsets first step index (suc count) =
    ground (arith, length-offsets first step (suc index) count)

one_each : (q c : ℕ) → 0 < q → q + c ≤ q * (c + 1)
one_each zero c p = ground arith
one_each (suc q) c p = ground arith

room : (p2 final c : ℕ) → c + 1 ≤ final → min p2 (final / (c + 1)) + c ≤ final
room p2 final c l = ground (
  arith,
  one_each (final / (c + 1)) c,
  div-mul-le_self final (c + 1),
  le-div_iff_mul-le {k = c + 1} {x = 1} {y = final},
)

-- A spread leaves room for every message before the final one, and each step takes time.
spread :
    (p2 final c : ℕ)
    → 0 < c
    → c + 1 ≤ final
    → (0 < (final - min p2 (final / (c + 1))) / c)
      × (min p2 (final / (c + 1)) + (0 + c) * ((final - min p2 (final / (c + 1))) / c) ≤ final)
spread p2 final c h l = ground (
  arith,
  room p2 final c l,
  le-div_iff_mul-le {k = c} {x = 1} {y = final - min p2 (final / (c + 1))} h,
  div-mul-le_self (final - min p2 (final / (c + 1))) c,
)

positive : (c : ℕ) → (suc c == 0) ≡ false
positive c = ground arith

pending_offsets-IsAscending :
    (t : EcuTiming) (c final : ℕ)
    → c ≡ 0 ⊎ (c + 1 ≤ final)
    → IsAscending (pending_offsets_ms t c final ++ (final ∷ []))
      × (length (pending_offsets_ms t c final) ≡ c)
      × All (λ (at : ℕ). at ≤ t.p2_server_max_ms) (take 1 (pending_offsets_ms t c final))
unfolding pending_offsets_ms offsets
pending_offsets-IsAscending t zero final h = (tt, refl, tt)
pending_offsets-IsAscending t (suc c) final h = rw (positive c) (
  offsets-IsAscending first step final 0 (suc c)
      (spread p2 final (suc c) (ground arith) room_left).0
      (spread p2 final (suc c) (ground arith) room_left).1,
  length-offsets first step 0 (suc c),
  (ground arith, tt),
)
  where
    p2 : ℕ
    p2 = t.p2_server_max_ms

    first : ℕ
    first = min p2 (final / (suc c + 1))

    step : ℕ
    step = (final - first) / suc c

    room_left : suc c + 1 ≤ final
    room_left = ground arith

-- When the steps of a plan go out.
abbrev pub times : List ScheduledResponse → List ℕ
times [] = []
times (s ∷ ss) = s.at_ms ∷ times ss

times-pending_step :
    (sid : ℕ) (at : List ℕ) (last : ScheduledResponse)
    → times (map (pending_step sid) at ++ (last ∷ [])) ≡ at ++ (last.at_ms ∷ [])
unfolding pending_step
times-pending_step sid [] last = refl
times-pending_step sid (a ∷ at) last = ground (arith, times-pending_step sid at last)

find_final-pending_step :
    (sid : ℕ) (at : List ℕ) (last : ScheduledResponse)
    → last.is_response_pending ≡ false
    → find_final (map (pending_step sid) at ++ (last ∷ [])) ≡ some last
unfolding pending_step find_final
find_final-pending_step sid [] last h = ground arith
find_final-pending_step sid (a ∷ at) last h = ground (arith, find_final-pending_step sid at last h)

final_instant_late : (t : EcuTiming) (c : ℕ) → t.response_delay_ms ≤ final_instant_ms t c
unfolding final_instant_ms
final_instant_late t c = ground arith

final_instant_room : (t : EcuTiming) (c : ℕ) → (c ≡ 0) ⊎ (c + 1 ≤ final_instant_ms t c)
unfolding final_instant_ms
final_instant_room t c = ground arith

steps_answered :
    (t : EcuTiming) (sid : ℕ) (response : List ℕ) (c : ℕ)
    → is_empty response ≡ false
    → t.drop_final_response ≡ false
    → (build_response_plan t sid response c).steps
      ≡ map (pending_step sid) (pending_offsets_ms t c (final_instant_ms t c))
        ++ (record { at_ms = final_instant_ms t c; bytes = response; is_response_pending = false }
            ∷ [])
unfolding build_response_plan
steps_answered t sid response c h d =
    ap
      (λ (b : Bool).
        map (pending_step sid) (pending_offsets_ms t c (final_instant_ms t c))
        ++ (if b
            then record {
              at_ms = final_instant_ms t c;
              bytes = response;
              is_response_pending = false;
            }
              ∷ []
            else []))
      both
  where
    both : (not (is_empty response) && not t.drop_final_response) ≡ true
    both = ground arith

-- A step that says to wait: the refusal 7F sid 78, marked as ResponsePending.
abbrev pub IsPendingFor : ℕ → ScheduledResponse → Type 0
IsPendingFor sid s = (s.is_response_pending ≡ true) × (s.bytes ≡ 0x7F ∷ sid ∷ 0x78 ∷ [])

All-pending_step : (sid : ℕ) (at : List ℕ) → All (IsPendingFor sid) (map (pending_step sid) at)
unfolding pending_step
All-pending_step sid [] = tt
All-pending_step sid (a ∷ at) = ((refl, refl), All-pending_step sid at)

length-pending_step : (sid : ℕ) (at : List ℕ) → length (map (pending_step sid) at) ≡ length at
length-pending_step sid [] = refl
length-pending_step sid (a ∷ at) = ground (arith, length-pending_step sid at)

-- A request that is answered, with any number of ResponsePending messages, has a plan of exactly
-- that many steps that say 7F sid 78, followed by the answer as the last step, unchanged, at the
-- final instant, which is never before the configured delay. The steps go out in strictly ascending
-- order of time, and the answer is what the plan names as its final response.
pub build_response_plan-answered :
    (t : EcuTiming) (sid : ℕ) (response : List ℕ) (c : ℕ)
    → is_empty response ≡ false
    → t.drop_final_response ≡ false
    → (pending : List ScheduledResponse) × ((build_response_plan t sid response c).steps
        ≡ pending
          ++ (record { at_ms = final_instant_ms t c; bytes = response; is_response_pending = false }
              ∷ []))
      × (length pending ≡ c)
      × All (IsPendingFor sid) pending
      × IsAscending (times (build_response_plan t sid response c).steps)
      × (final_response (build_response_plan t sid response c) ≡ response)
      × (final_at_ms (build_response_plan t sid response c) ≡ some (final_instant_ms t c))
      × (t.response_delay_ms ≤ final_instant_ms t c)
unfolding final_response final_at_ms
build_response_plan-answered t sid response c h d = (
  map (pending_step sid) at,
  steps_answered t sid response c h d,
  length-pending_step sid at ∙ (pending_offsets-IsAscending t c final room).1,
  All-pending_step sid at,
  rw (steps_answered t sid response c h d)
      (rw (times-pending_step sid at last) (pending_offsets-IsAscending t c final room).0),
  rw (steps_answered t sid response c h d, final_response)
      (rw (find_final-pending_step sid at last refl, final_response) refl),
  rw (steps_answered t sid response c h d, final_at_ms)
      (rw (find_final-pending_step sid at last refl, final_at_ms) refl),
  final_instant_late t c,
)
  where
    final : ℕ
    final = final_instant_ms t c

    at : List ℕ
    at = pending_offsets_ms t c final

    last : ScheduledResponse
    last = record { at_ms = final; bytes = response; is_response_pending = false }

    room : (c ≡ 0) ⊎ (c + 1 ≤ final)
    room = final_instant_room t c
