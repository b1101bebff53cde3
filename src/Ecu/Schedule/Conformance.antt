-- ===== src/Ecu/Schedule/Conformance.antt =====
-- What a plan without warnings respects.
use diagnostic_vehicle_simul.Prelude.{
  ℕ, ◌-◌, ◌*◌, ◌/◌, ◌%◌, ◌≤◌, ◌≡◌, ◌↔◌, Bool, true, false, List, [], ◌∷◌, ◌++◌, arith,
  if◌then◌else◌, ltb,
}
use diagnostic_vehicle_simul.Ecu.Timing.{EcuTiming}
use diagnostic_vehicle_simul.Ecu.Schedule.{
  Warning, first_pending_late, beyond_p4, check_flood, check_budget, check_pending_gaps,
  check_schedule, collect_conformance_warnings,
}

-- Each number is at least `low` after the one before, and at most `high`.
abbrev pub AtLeast : (low previous : ℕ) → List ℕ → Type 0
AtLeast low previous [] = Unit {0}
AtLeast low previous (x ∷ rest) = (low ≤ x - previous) × AtLeast low x rest

abbrev pub AtMost : (high previous : ℕ) → List ℕ → Type 0
AtMost high previous [] = Unit {0}
AtMost high previous (x ∷ rest) = (x - previous ≤ high) × AtMost high x rest

-- The timing rules of the standard, for the offsets of the ResponsePending messages and of the
-- final response.
abbrev pub IsConformant : EcuTiming → List ℕ → ℕ → Type 0
IsConformant t [] final = final ≤ t.p2_server_max_ms
IsConformant t (first ∷ rest) final =
    (first ≤ t.p2_server_max_ms)
    × AtLeast (t.p2_star_server_max_ms * 3 / 10) first rest
    × AtMost t.p2_star_server_max_ms first (rest ++ (final ∷ []))

check_flood-AtLeast :
    (low previous : ℕ) (rest : List ℕ)
    → (check_flood low previous rest ≡ []) ↔ AtLeast low previous rest
unfolding check_flood
check_flood-AtLeast low previous [] = ground arith
check_flood-AtLeast low previous (x ∷ rest) = ground (arith, check_flood-AtLeast low x rest)

check_budget-AtMost :
    (high previous : ℕ) (rest : List ℕ)
    → (check_budget high previous rest ≡ []) ↔ AtMost high previous rest
unfolding check_budget
check_budget-AtMost high previous [] = ground arith
check_budget-AtMost high previous (x ∷ rest) = ground (arith, check_budget-AtMost high x rest)

append_empty : (xs ys : List Warning) → (xs ++ ys ≡ []) ↔ ((xs ≡ []) × (ys ≡ []))
append_empty [] ys = ground arith
append_empty (x ∷ xs) ys = ground arith

check_schedule-IsConformant :
    (t : EcuTiming) (pending : List ℕ) (final : ℕ)
    → t.p2_star_server_max_ms ≤ 655350
    → (check_schedule t pending final ≡ []) ↔ IsConformant t pending final
unfolding check_schedule check_pending_gaps
check_schedule-IsConformant t [] final h = ground arith
check_schedule-IsConformant t (first ∷ rest) final h = ground (
  arith,
  flood,
  check_flood-AtLeast (t.p2_star_server_max_ms * 3 / 10) first rest,
  check_budget-AtMost t.p2_star_server_max_ms first (rest ++ (final ∷ [])),
  append_empty (check_flood (t.p2_star_server_max_ms * 3 % 4294967296 / 10) first rest)
      (check_budget t.p2_star_server_max_ms first (rest ++ (final ∷ [])) ++ late),
  append_empty (check_budget t.p2_star_server_max_ms first (rest ++ (final ∷ []))) late,
)
  where
    late : List Warning
    late =
        if ltb t.p2_server_max_ms first
        then first_pending_late first t.p2_server_max_ms ∷ []
        else []

    flood : t.p2_star_server_max_ms * 3 % 4294967296 ≡ t.p2_star_server_max_ms * 3
    flood = omega (arith, h)

-- With timing parameters that can be advertised, a schedule draws no warning exactly when a final
-- response follows its ResponsePending messages, its first message starts within P2, every gap
-- after a ResponsePending is within P2*, the gaps between them are not below the floor of the
-- standard, and the final response starts within P4.
pub collect_conformance_warnings-IsConformant :
    (t : EcuTiming) (pending : List ℕ) (final : ℕ) (is_missing_final : Bool)
    → t.p2_star_server_max_ms ≤ 655350
    → (collect_conformance_warnings t pending final is_missing_final ≡ [])
      ↔ ((is_missing_final ≡ false) × IsConformant t pending final × (final ≤ t.p4_server_max_ms))
unfolding collect_conformance_warnings
collect_conformance_warnings-IsConformant t pending final true h = ground arith
collect_conformance_warnings-IsConformant t pending final false h = ground (
  arith,
  check_schedule-IsConformant t pending final h,
  append_empty (check_schedule t pending final) late,
)
  where
    late : List Warning
    late = if ltb t.p4_server_max_ms final then beyond_p4 final t.p4_server_max_ms ∷ [] else []
