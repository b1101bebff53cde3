-- ===== src/Topology/Reach.antt =====
-- Entry points that were chosen by the wiring itself leave nothing out of reach.
use Prim.Native.String.{String}
use mathlib.Core.Path.{subst}
use mathlib.Core.List.{Memᴰ}
use text.Mathlib.TextEquality.{eq_iff}
use diagnostic_vehicle_simul.Prelude.{
  ℕ, zero, suc, ◌+◌, ◌≡◌, ◌<◌, ◌⊎◌, refl, true, false, not, Option, none, some, List, [], ◌∷◌, ◌++◌,
  All, if◌then◌else◌, is_some, Option-cases, inl, inr, length, ok, arith,
}
use diagnostic_vehicle_simul.Topology.{
  Network, PlacedEcu, Vehicle, contains_id, find_network, is_defined, is_entry,
  find_gateway_for_network, check_ecus, walk_up, validate_topology, gatewayed_ids, entry_ids,
  mark_entry_points, has_entry_point, normalize_entry_points, climb, reached, diagnostic_path_to,
  path_from,
}
use diagnostic_vehicle_simul.Topology.Walk.{contains_id-append}
use diagnostic_vehicle_simul.Topology.Paths.{
  unmet_networks, unmet_networks-defined, unmet_networks-first, check_ecus-gateway,
  check_ecus-defined, reject_gateway_cycles-walk_up, walk_up-step, validate_topology-ok,
}

-- Some unit forwards onto a network exactly when it is among the gatewayed ones.
contains_id-gatewayed_ids :
    (es : List PlacedEcu) (id : String)
    → contains_id (gatewayed_ids es) id ≡ is_some (find_gateway_for_network es id)
unfolding gatewayed_ids find_gateway_for_network contains_id
contains_id-gatewayed_ids [] id = refl
contains_id-gatewayed_ids (e ∷ es) id =
    ground (
      arith,
      contains_id-append e.gateway_for (gatewayed_ids es) id,
      contains_id-gatewayed_ids es id,
    )

-- A defined network is an entry point exactly when nothing forwards onto it.
entry_ids-gatewayed :
    (gatewayed : List String) (ns : List Network) (id : String)
    → contains_id gatewayed id ≡ true
    → contains_id (entry_ids gatewayed ns) id ≡ false
unfolding entry_ids contains_id
entry_ids-gatewayed gatewayed [] id g = refl
entry_ids-gatewayed gatewayed (n ∷ ns) id g =
    ground (arith, eq_iff n.network_id id, entry_ids-gatewayed gatewayed ns id)

contains_id-entry_ids :
    (gatewayed : List String) (ns : List Network) (id : String)
    → is_defined ns id ≡ true
    → contains_id gatewayed id ≡ false
    → contains_id (entry_ids gatewayed ns) id ≡ true
unfolding entry_ids contains_id find_network
contains_id-entry_ids gatewayed [] id d g = absurd (ground arith)
contains_id-entry_ids gatewayed (n ∷ ns) id d g =
    ground (arith, eq_iff n.network_id id, contains_id-entry_ids gatewayed ns id)

is_entry-mark_entry_points :
    (ids : List String) (ns : List Network) (id : String)
    → is_defined ns id ≡ true
    → is_entry (mark_entry_points ids ns) id ≡ contains_id ids id
unfolding mark_entry_points find_network
is_entry-mark_entry_points ids [] id d = absurd (ground arith)
is_entry-mark_entry_points ids (n ∷ ns) id d =
    ground (arith, eq_iff n.network_id id, is_entry-mark_entry_points ids ns id)

-- Marking changes no identifier.
is_defined-mark_entry_points :
    (ids : List String) (ns : List Network) (id : String)
    → is_defined (mark_entry_points ids ns) id ≡ is_defined ns id
unfolding mark_entry_points find_network
is_defined-mark_entry_points ids [] id = refl
is_defined-mark_entry_points ids (n ∷ ns) id =
    ground (arith, is_defined-mark_entry_points ids ns id)

-- Every defined network is an entry point, or some unit forwards onto it.
abbrev IsFed : Vehicle → Type 0
IsFed v =
    (id : String)
    → is_defined v.networks id ≡ true
    → is_entry v.networks id ≡ false
    → is_some (find_gateway_for_network v.ecus id) ≡ true

-- What normalization makes of a vehicle without entry points.
abbrev marked : Vehicle → Vehicle
marked v = record v {
  networks = mark_entry_points (entry_ids (gatewayed_ids v.ecus) v.networks) v.networks;
}

normalize_entry_points-marked :
    (v : Vehicle) → has_entry_point v.networks ≡ false → normalize_entry_points v ≡ marked v
unfolding normalize_entry_points
normalize_entry_points-marked v h = rw h refl

marked-IsFed : (v : Vehicle) → IsFed (marked v)
marked-IsFed v id d e =
    let ids = entry_ids (gatewayed_ids v.ecus) v.networks in
    ground (
      arith,
      is_defined-mark_entry_points ids v.networks id,
      is_entry-mark_entry_points ids v.networks id,
      contains_id-gatewayed_ids v.ecus id,
      contains_id-entry_ids (gatewayed_ids v.ecus) v.networks id,
    )

-- Every unit that forwards is itself on a network.
abbrev pub IsPlaced : List PlacedEcu → Type 0
IsPlaced es = All (λ e. (is_some e.on_network ≡ true) ⊎ (e.gateway_for ≡ [])) es

gateway-IsPlaced :
    (es : List PlacedEcu) (id : String) (g : PlacedEcu)
    → IsPlaced es
    → find_gateway_for_network es id ≡ some g
    → is_some g.on_network ≡ true
unfolding find_gateway_for_network contains_id
gateway-IsPlaced [] id g p f = absurd (ground arith)
gateway-IsPlaced (e ∷ es) id g (p, ps) f = ground (arith, gateway-IsPlaced es id g)

module _ (v : Vehicle) (checked : check_ecus v.networks v.ecus ≡ ok tt) (fed : IsFed v)
    (placed : IsPlaced v.ecus) where
  climb-reaches :
      (fuel : ℕ) (walked : List String) (current : String) (k : ℕ) (names disabled : List String)
      → is_defined v.networks current ≡ true
      → walk_up v.ecus fuel walked current ≡ some (ok tt)
      → unmet_networks v.networks walked < k
      → (climb v k names disabled current).is_reachable ≡ true
  unfolding climb walk_up reached
  climb-reaches zero walked current k names disabled d w a = absurd (cc)
  climb-reaches (suc fuel) walked current zero names disabled d w a = absurd (omega arith)
  climb-reaches (suc fuel) walked current (suc k) names disabled d w a =
      elim (Option-cases (find_gateway_for_network v.ecus current)) [
        | inl f ↦ ground (arith, fed current)
        | inr (g, f) ↦ elim (Option-cases g.on_network) [
          | inl n ↦ absurd (ground (arith, gateway-IsPlaced v.ecus current g placed f))
          | inr (x, n) ↦
              let (fresh, rest) = walk_up-step v.ecus fuel walked current x g w f n in
              let onward = check_ecus-gateway v.networks v.ecus current x g checked f n in
              ground (
                arith,
                climb-reaches fuel (walked ++ x ∷ []) x k (names ++ g.ecu_name ∷ [])
                    (if not g.is_on then disabled ++ g.ecu_name ∷ [] else disabled) onward rest,
                unmet_networks-defined v.networks walked x onward fresh,
              )
        ]
      ]

path_from-reaches :
    (v : Vehicle)
    → IsFed v
    → validate_topology v ≡ some (ok tt)
    → IsPlaced v.ecus
    → (o : Option String) → ((id : String) → o ≡ some id → is_defined v.networks id ≡ true)
    → (path_from v o).is_reachable ≡ true
unfolding path_from reached
path_from-reaches v fed valid placed none defined = refl
path_from-reaches v fed valid placed (some id) defined =
    let (checked, acyclic) = validate_topology-ok v valid in
    let d = defined id refl in
    climb-reaches v checked fed placed (suc (length v.ecus)) (id ∷ []) id (length v.networks + 1) []
      [] d (reject_gateway_cycles-walk_up v.ecus v.networks id acyclic d)
      (omega (arith, unmet_networks-first v.networks id d))

-- Where nobody has marked an entry point, and the wiring as normalized is valid, every unit can be
-- reached, provided that each unit that forwards is itself on a network.
pub normalize_entry_points-reachable :
    (v : Vehicle) (ecu : PlacedEcu)
    → has_entry_point v.networks ≡ false
    → validate_topology (normalize_entry_points v) ≡ some (ok tt)
    → IsPlaced v.ecus
    → Memᴰ ecu v.ecus
    → (diagnostic_path_to (normalize_entry_points v) ecu).is_reachable ≡ true
unfolding diagnostic_path_to
normalize_entry_points-reachable v ecu h valid placed m =
    let same = normalize_entry_points-marked v h in
    let fine = subst (λ u. validate_topology u ≡ some (ok tt)) same valid in
    let (checked, _) = validate_topology-ok (marked v) fine in
    rw same (
      path_from-reaches (marked v) (marked-IsFed v) fine placed ecu.on_network
        (λ id e. check_ecus-defined (marked v).networks v.ecus ecu id m checked e))
