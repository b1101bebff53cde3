-- ===== src/Ecu/Overrides/Choice.antt =====
-- Which of several matching overrides answers.
use diagnostic_vehicle_simul.Prelude.{
  ℕ, ◌≡◌, ◌⊎◌, inl, inr, refl, Bool, true, false, not, Option, none, some, List, [], ◌∷◌, ◌++◌, All,
  Bool-cases, arith,
}
use diagnostic_vehicle_simul.Ecu.Overrides.{
  ResponseOverride, matches, specificity, precedes, prefer, choose, find_matching_override,
}
use mathlib.Core.Path.{subst}
use mathlib.Core.List.{Memᴰ}

-- Whether the choice is at least as specific as a rank.
covers : Option ResponseOverride → ℕ × ℕ × Bool → Bool
covers none rank = false
covers (some r) rank = not (precedes (specificity r) rank)

precedes_trans :
    (a b c : ℕ × ℕ × Bool) → precedes b a ≡ false → precedes c b ≡ false → precedes c a ≡ false
unfolding precedes
precedes_trans (a, a', a'') (b, b', b'') (c, c', c'') h k = ground arith

precedes_irrefl : (a : ℕ × ℕ × Bool) → precedes a a ≡ false
unfolding precedes
precedes_irrefl (a, b, true) = ground arith
precedes_irrefl (a, b, false) = ground arith

precedes_asymm : (a b : ℕ × ℕ × Bool) → precedes a b ≡ true → precedes b a ≡ false
unfolding precedes
precedes_asymm (a, a', a'') (b, b', b'') h = ground arith

module _ (request : List ℕ) where
  -- The choice matches the request.
  abbrev IsMatch : Option ResponseOverride → Type 0
  IsMatch none = Unit {0}
  IsMatch (some r) = matches r request ≡ true

  prefer-IsMatch :
      (best : Option ResponseOverride) (r : ResponseOverride)
      → IsMatch best
      → IsMatch (prefer request best r)
  unfolding prefer
  prefer-IsMatch none r m = ground arith
  prefer-IsMatch (some b) r m = ground arith

  prefer-covers :
      (best : Option ResponseOverride) (r : ResponseOverride) (rank : ℕ × ℕ × Bool)
      → covers best rank ≡ true
      → covers (prefer request best r) rank ≡ true
  unfolding prefer covers
  prefer-covers none r rank h = absurd (ground arith)
  prefer-covers (some b) r rank h =
      ground (arith, precedes_trans rank (specificity b) (specificity r))

  prefer-covers_new :
      (best : Option ResponseOverride) (r : ResponseOverride)
      → matches r request ≡ true
      → covers (prefer request best r) (specificity r) ≡ true
  unfolding prefer covers
  prefer-covers_new none r h = ground (arith, precedes_irrefl (specificity r))
  prefer-covers_new (some b) r h =
      ground
        (arith, precedes_irrefl (specificity r), precedes_asymm (specificity r) (specificity b))

  prefer-eq :
      (best : Option ResponseOverride) (r : ResponseOverride) {choice : ResponseOverride}
      → prefer request best r ≡ some choice
      → (choice ≡ r) ⊎ (best ≡ some choice)
  unfolding prefer
  prefer-eq none r e = ground arith
  prefer-eq (some b) r e = ground arith

  choose-IsMatch :
      (rs : List ResponseOverride) (best : Option ResponseOverride)
      → IsMatch best
      → IsMatch (choose request best rs)
  unfolding choose
  choose-IsMatch [] best m = m
  choose-IsMatch (r ∷ rs) best m =
      choose-IsMatch rs (prefer request best r) (prefer-IsMatch best r m)

  choose-covers :
      (rs : List ResponseOverride) (best : Option ResponseOverride) (rank : ℕ × ℕ × Bool)
      → covers best rank ≡ true
      → covers (choose request best rs) rank ≡ true
  unfolding choose
  choose-covers [] best rank h = h
  choose-covers (r ∷ rs) best rank h =
      choose-covers rs (prefer request best r) rank (prefer-covers best r rank h)

  -- A rule that matches is covered by the choice.
  abbrev IsCovered : Option ResponseOverride → ResponseOverride → Type 0
  IsCovered choice r = (matches r request ≡ false) ⊎ (covers choice (specificity r) ≡ true)

  choose-IsCovered :
      (rs : List ResponseOverride) (best : Option ResponseOverride)
      → All (IsCovered (choose request best rs)) rs
  unfolding choose
  choose-IsCovered [] best = tt
  choose-IsCovered (r ∷ rs) best = (
    elim (Bool-cases (matches r request)) [
      | inl m ↦
          inr
            (choose-covers rs (prefer request best r) (specificity r) (prefer-covers_new best r m))
      | inr m ↦ inl m
    ],
    choose-IsCovered rs (prefer request best r),
  )

  -- The choice is one of the rules, or the one before them.
  choose-Memᴰ :
      (rs : List ResponseOverride) (best : Option ResponseOverride) {r : ResponseOverride}
      → choose request best rs ≡ some r
      → Memᴰ r rs ⊎ (best ≡ some r)
  unfolding choose
  choose-Memᴰ [] best e = inr e
  choose-Memᴰ (x ∷ xs) best e = elim (choose-Memᴰ xs (prefer request best x) e) [
    | inl m ↦ inl (Memᴰ.tail m)
    | inr e' ↦ elim (prefer-eq best x e') [ inl h ↦ inl (Memᴰ.head h) | inr h ↦ inr h ]
  ]

-- The choice for a request among rules: none of them matches; or one of them, which matches, and
-- no other matching rule is more specific.
abbrev pub IsBest : List ResponseOverride → List ℕ → Option ResponseOverride → Type 0
IsBest rules request none = All (λ c. matches c request ≡ false) rules
IsBest rules request (some r) =
    Memᴰ r rules
    × (matches r request ≡ true)
    × All (λ c. (matches c request ≡ false) ⊎ (precedes (specificity r) (specificity c) ≡ false))
        rules

uncovered :
    (request : List ℕ) (rs : List ResponseOverride)
    → All (IsCovered request none) rs
    → All (λ c. matches c request ≡ false) rs
unfolding covers
uncovered request [] c = tt
uncovered request (r ∷ rs) (c, cs) = (ground arith, uncovered request rs cs)

covered :
    (request : List ℕ) (b : ResponseOverride) (rs : List ResponseOverride)
    → All (IsCovered request (some b)) rs
    → All (λ c. (matches c request ≡ false) ⊎ (precedes (specificity b) (specificity c) ≡ false)) rs
unfolding covers
covered request b [] c = tt
covered request b (r ∷ rs) (c, cs) = (ground arith, covered request b rs cs)

-- The override that answers a request is one of the unit's, it matches the request, and no matching
-- one is more specific; when there is none, no override matches.
pub find_matching_override-IsBest :
    (rules : List ResponseOverride) (request : List ℕ)
    → IsBest rules request (find_matching_override rules request)
unfolding find_matching_override
find_matching_override-IsBest rules request = is_best (choose request none rules) refl
  where
    is_best :
        (choice : Option ResponseOverride)
        → choose request none rules ≡ choice
        → IsBest rules request choice
    is_best none e = uncovered request rules (rw (← e) (choose-IsCovered request rules none))
    is_best (some r) e = (
      elim (choose-Memᴰ request rules none e) [ inl m ↦ m | inr h ↦ absurd (cc) ],
      subst (IsMatch request) e (choose-IsMatch request rules none tt),
      covered request r rules
          (subst (λ o. All (IsCovered request o) rules) e (choose-IsCovered request rules none)),
    )

choose-none :
    (request : List ℕ) (rs : List ResponseOverride)
    → All (λ c. matches c request ≡ false) rs
    → choose request none rs ≡ none
unfolding choose prefer
choose-none request [] all = refl
choose-none request (r ∷ rs) (h, hs) = rw h (choose-none request rs hs)

pub find_matching_override-none :
    (request : List ℕ) (rules : List ResponseOverride)
    → All (λ c. matches c request ≡ false) rules
    → find_matching_override rules request ≡ none
unfolding find_matching_override
find_matching_override-none request rules all = choose-none request rules all

choose-append :
    (request : List ℕ) (rs : List ResponseOverride) (best : Option ResponseOverride)
    (r : ResponseOverride)
    → choose request best (rs ++ r ∷ []) ≡ prefer request (choose request best rs) r
unfolding choose
choose-append request [] best r = refl
choose-append request (x ∷ xs) best r = choose-append request xs (prefer request best x) r

-- Of two matching overrides with the same specificity the one that stands last answers: where `best`
-- answers, an override appended to the list takes over if it matches and is as specific.
pub find_matching_override-append :
    (rules : List ResponseOverride) (request : List ℕ) {best : ResponseOverride}
    (r : ResponseOverride)
    → find_matching_override rules request ≡ some best
    → matches r request ≡ true
    → specificity r ≡ specificity best
    → find_matching_override (rules ++ r ∷ []) request ≡ some r
unfolding find_matching_override prefer
find_matching_override-append rules request {best} r e m s =
    rw (choose-append request rules none r, e)
      (rw s (ground (arith, precedes_irrefl (specificity best))))
