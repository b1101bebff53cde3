-- ===== src/Topology/Paths.antt =====
-- In a vehicle whose wiring was validated, a walk to the tester never meets the hop limit.
use Prim.Native.String.{String}
use mathlib.Core.Path.{subst}
use mathlib.Core.List.{Memᴰ}
use text.Mathlib.Text.{◌==◌}
use text.Mathlib.TextEquality.{eq_iff}
use diagnostic_vehicle_simul.Prelude.{
  ℕ, zero, suc, ◌+◌, ◌≡◌, ◌<◌, ◌≤◌, inl, inr, refl, true, false, not, some, List, [], ◌∷◌, ◌++◌,
  if◌then◌else◌, Option-cases, Bool-cases, length, ok, arith,
}
use diagnostic_vehicle_simul.Topology.{
  Network, PlacedEcu, Vehicle, contains_id, find_network, is_defined, find_gateway_for_network,
  check_own_network, check_ecus, check_wiring, walk_up, reject_gateway_cycles, validate_topology,
  climb, diagnostic_path_to, path_from,
}
use diagnostic_vehicle_simul.Topology.Walk.{contains_id-append}

-- How many networks a walk has not met.
unfoldable pub unmet_networks : List Network → List String → ℕ
unmet_networks [] walked = 0
unmet_networks (n ∷ ns) walked =
    (if contains_id walked n.network_id then 0 else 1) + unmet_networks ns walked

pub unmet_networks-le :
    (ns : List Network) (walked : List String) → unmet_networks ns walked ≤ length ns
unfolding unmet_networks
unmet_networks-le [] walked = omega arith
unmet_networks-le (n ∷ ns) walked = ground (arith, unmet_networks-le ns walked)

unmet_networks-append :
    (ns : List Network) (walked : List String) (x : String)
    → unmet_networks ns (walked ++ x ∷ []) ≤ unmet_networks ns walked
unfolding unmet_networks
unmet_networks-append [] walked x = omega arith
unmet_networks-append (n ∷ ns) walked x =
    ground
      (arith, contains_id-append walked (x ∷ []) n.network_id, unmet_networks-append ns walked x)

pub unmet_networks-defined :
    (ns : List Network) (walked : List String) (x : String)
    → is_defined ns x ≡ true
    → contains_id walked x ≡ false
    → unmet_networks ns (walked ++ x ∷ []) < unmet_networks ns walked
unfolding unmet_networks find_network contains_id
unmet_networks-defined [] walked x d h = absurd (ground arith)
unmet_networks-defined (n ∷ ns) walked x d h = ground (
  arith,
  contains_id-append walked (x ∷ []) n.network_id,
  eq_iff n.network_id x,
  eq_iff x n.network_id,
  unmet_networks-append ns walked x,
  unmet_networks-defined ns walked x,
)

-- The units of a checked list sit on defined networks, gateways too.
pub check_ecus-gateway :
    (ns : List Network) (es : List PlacedEcu) (current x : String) (g : PlacedEcu)
    → check_ecus ns es ≡ ok tt
    → find_gateway_for_network es current ≡ some g
    → g.on_network ≡ some x
    → is_defined ns x ≡ true
unfolding check_ecus check_own_network find_gateway_for_network
check_ecus-gateway ns [] current x g c f n = absurd (ground arith)
check_ecus-gateway ns (e ∷ es) current x g c f n =
    ground (arith, check_ecus-gateway ns es current x g)

pub reject_gateway_cycles-walk_up :
    (es : List PlacedEcu) (ns : List Network) (id : String)
    → reject_gateway_cycles es ns ≡ some (ok tt)
    → is_defined ns id ≡ true
    → walk_up es (suc (length es)) (id ∷ []) id ≡ some (ok tt)
unfolding reject_gateway_cycles find_network
reject_gateway_cycles-walk_up es [] id r d = absurd (ground arith)
reject_gateway_cycles-walk_up es (n ∷ ns) id r d = elim (Bool-cases (n.network_id == id)) [
  | inl h ↦
      subst (λ x. walk_up es (suc (length es)) (x ∷ []) x ≡ some (ok tt))
        ((eq_iff n.network_id id).0 h) (ground arith)
  | inr h ↦ ground (arith, reject_gateway_cycles-walk_up es ns id)
]

-- A walk that ends well goes on to a network that it has not met.
pub walk_up-step :
    (es : List PlacedEcu) (fuel : ℕ) (walked : List String) (current x : String) (g : PlacedEcu)
    → walk_up es (suc fuel) walked current ≡ some (ok tt)
    → find_gateway_for_network es current ≡ some g
    → g.on_network ≡ some x
    → (contains_id walked x ≡ false) × (walk_up es fuel (walked ++ x ∷ []) x ≡ some (ok tt))
unfolding walk_up
walk_up-step es fuel walked current x g w f n = ground arith

module _ (v : Vehicle) (checked : check_ecus v.networks v.ecus ≡ ok tt) where
  -- Any two limits above what a walk has not met give the same path.
  climb-climb :
      (fuel : ℕ) (walked : List String) (current : String) (k l : ℕ) (names disabled : List String)
      → walk_up v.ecus fuel walked current ≡ some (ok tt)
      → unmet_networks v.networks walked < k
      → unmet_networks v.networks walked < l
      → climb v k names disabled current ≡ climb v l names disabled current
  unfolding climb walk_up
  climb-climb zero walked current k l names disabled w a b = absurd (cc)
  climb-climb (suc fuel) walked current zero l names disabled w a b = absurd (omega arith)
  climb-climb (suc fuel) walked current (suc k) zero names disabled w a b = absurd (omega arith)
  climb-climb (suc fuel) walked current (suc k) (suc l) names disabled w a b =
      elim (Option-cases (find_gateway_for_network v.ecus current)) [
        | inl f ↦ ground arith
        | inr (g, f) ↦ elim (Option-cases g.on_network) [
          | inl n ↦ ground arith
          | inr (x, n) ↦
              let (fresh, rest) = walk_up-step v.ecus fuel walked current x g w f n in
              ground (
                arith,
                climb-climb fuel (walked ++ x ∷ []) x k l (names ++ g.ecu_name ∷ [])
                    (if not g.is_on then disabled ++ g.ecu_name ∷ [] else disabled) rest,
                unmet_networks-defined v.networks walked x,
                check_ecus-gateway v.networks v.ecus current x g checked f n,
              )
        ]
      ]

pub check_ecus-defined :
    (ns : List Network) (es : List PlacedEcu) (e : PlacedEcu) (x : String)
    → Memᴰ e es
    → check_ecus ns es ≡ ok tt
    → e.on_network ≡ some x
    → is_defined ns x ≡ true
unfolding check_ecus check_own_network
check_ecus-defined ns [] e x m c n = elim m [ ]
check_ecus-defined ns (e' ∷ es) e x (Memᴰ.head p) c n = ground arith
check_ecus-defined ns (e' ∷ es) e x (Memᴰ.tail m) c n =
    ground (arith, check_ecus-defined ns es e x m)

-- What a validated wiring has passed.
pub validate_topology-ok :
    (v : Vehicle)
    → validate_topology v ≡ some (ok tt)
    → (check_ecus v.networks v.ecus ≡ ok tt)
      × (reject_gateway_cycles v.ecus v.networks ≡ some (ok tt))
unfolding validate_topology check_wiring
validate_topology-ok v h = ground arith

pub unmet_networks-first :
    (ns : List Network) (id : String)
    → is_defined ns id ≡ true
    → unmet_networks ns (id ∷ []) < length ns
unfolding contains_id
unmet_networks-first ns id d =
    omega (arith, unmet_networks-defined ns [] id d refl, unmet_networks-le ns [])

-- In a vehicle whose wiring was validated, the hop limit cuts no path short: the path to a unit is
-- the one that is found with any limit of at least as many hops as there are networks.
pub diagnostic_path_to-climb :
    (v : Vehicle) (ecu : PlacedEcu) (id : String) (limit : ℕ)
    → validate_topology v ≡ some (ok tt)
    → Memᴰ ecu v.ecus
    → ecu.on_network ≡ some id
    → length v.networks ≤ limit
    → diagnostic_path_to v ecu ≡ climb v limit [] [] id
unfolding diagnostic_path_to path_from
diagnostic_path_to-climb v ecu id limit valid m n l =
    let (checked, acyclic) = validate_topology-ok v valid in
    let defined = check_ecus-defined v.networks v.ecus ecu id m checked n in
    let enough = unmet_networks-first v.networks id defined in
    rw n (
      climb-climb v checked (suc (length v.ecus)) (id ∷ []) id (length v.networks + 1) limit [] []
        (reject_gateway_cycles-walk_up v.ecus v.networks id acyclic defined) (omega arith)
        (omega arith))
