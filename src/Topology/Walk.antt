-- ===== src/Topology/Walk.antt =====
-- The measure of a walk up the gateways: how many units sit on a network that it has not met.
use Prim.Native.String.{String}
use text.Mathlib.TextEquality.{eq_iff}
use diagnostic_vehicle_simul.Prelude.{
  ℕ, zero, suc, ◌+◌, ◌≡◌, ◌<◌, ◌≤◌, inl, inr, refl, true, false, ◌||◌, Option, none, some, List, [],
  ◌∷◌, ◌++◌, if◌then◌else◌, is_some, Option-cases, Bool-cases, length, arith,
}
use diagnostic_vehicle_simul.Topology.{PlacedEcu, contains_id, find_gateway_for_network, walk_up}

pub contains_id-append :
    (xs ys : List String) (id : String)
    → contains_id (xs ++ ys) id ≡ (contains_id xs id || contains_id ys id)
unfolding contains_id
contains_id-append [] ys id = refl
contains_id-append (x ∷ xs) ys id = ground (arith, contains_id-append xs ys id)

-- One for a network that the walk has not met.
abbrev pub is_unmet : List String → Option String → ℕ
is_unmet walked none = 0
is_unmet walked (some id) = if contains_id walked id then 0 else 1

unfoldable pub unmet_units : List PlacedEcu → List String → ℕ
unmet_units [] walked = 0
unmet_units (e ∷ es) walked = is_unmet walked e.on_network + unmet_units es walked

is_unmet-append :
    (walked : List String) (x : String) (o : Option String)
    → is_unmet (walked ++ x ∷ []) o ≤ is_unmet walked o
is_unmet-append walked x none = omega arith
is_unmet-append walked x (some id) = ground (arith, contains_id-append walked (x ∷ []) id)

is_unmet-append_self :
    (walked : List String) (x : String) (o : Option String)
    → o ≡ some x
    → contains_id walked x ≡ false
    → is_unmet (walked ++ x ∷ []) o < is_unmet walked o
unfolding contains_id
is_unmet-append_self walked x none e h = absurd (ground arith)
is_unmet-append_self walked x (some id) e h =
    ground (arith, contains_id-append walked (x ∷ []) id, eq_iff x id)

unmet_units-append :
    (es : List PlacedEcu) (walked : List String) (x : String)
    → unmet_units es (walked ++ x ∷ []) ≤ unmet_units es walked
unfolding unmet_units
unmet_units-append [] walked x = omega arith
unmet_units-append (e ∷ es) walked x =
    omega (arith, is_unmet-append walked x e.on_network, unmet_units-append es walked x)

pub unmet_units-le :
    (es : List PlacedEcu) (walked : List String) → unmet_units es walked ≤ length es
unfolding unmet_units
unmet_units-le [] walked = omega arith
unmet_units-le (e ∷ es) walked = ground (arith, unmet_units-le es walked)

-- A step to the network of a gateway brings the walk closer to its end.
unmet_units-gateway :
    (es : List PlacedEcu) (walked : List String) (current x : String) (g : PlacedEcu)
    → find_gateway_for_network es current ≡ some g
    → g.on_network ≡ some x
    → contains_id walked x ≡ false
    → unmet_units es (walked ++ x ∷ []) < unmet_units es walked
unfolding unmet_units find_gateway_for_network
unmet_units-gateway [] walked current x g f n h = absurd (ground arith)
unmet_units-gateway (e ∷ es) walked current x g f n h =
    elim (Bool-cases (contains_id e.gateway_for current)) [
      | inl c ↦
          ground (arith, is_unmet-append_self walked x e.on_network, unmet_units-append es walked x)
      | inr c ↦
          ground (
            arith,
            is_unmet-append walked x e.on_network,
            unmet_units-gateway es walked current x g,
          )
    ]

-- Enough fuel for the units that the walk has not met is enough for the walk.
pub walk_up-is_some :
    (es : List PlacedEcu) (fuel : ℕ) (walked : List String) (current : String)
    → unmet_units es walked < fuel
    → is_some (walk_up es fuel walked current) ≡ true
unfolding walk_up
walk_up-is_some es zero walked current h = absurd (omega arith)
walk_up-is_some es (suc fuel) walked current h =
    elim (Option-cases (find_gateway_for_network es current)) [
      | inl f ↦ rw (f, walk_up) refl
      | inr (g, f) ↦ elim (Option-cases g.on_network) [
        | inl n ↦ rw (f, walk_up) (rw n refl)
        | inr (x, n) ↦
            rw (f, walk_up)
              (rw n (elim (Bool-cases (contains_id walked x)) [
                | inl c ↦ rw c refl
                | inr c ↦ rw c (
                    walk_up-is_some es fuel (walked ++ x ∷ []) x
                      (omega (arith, unmet_units-gateway es walked current x g f n c)))
              ]))
      ]
    ]
