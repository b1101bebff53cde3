-- ===== src/Topology/Depths.antt =====
-- How many gateways a tester crosses to each network: `NetworkDepths`, breadth first
-- (engine/crates/core-domain/src/model.rs).
pub mod Search
pub mod Closed
pub mod Sound
pub mod Reached
use Prim.Native.String.{String}
use text.Mathlib.Text.{◌==◌}
use diagnostic_vehicle_simul.Prelude.{
  ℕ, zero, suc, ◌+◌, Bool, true, false, ◌||◌, Option, none, some, List, [], ◌∷◌, ◌++◌,
  if◌then◌else◌, length,
}
use diagnostic_vehicle_simul.Topology.{Network, PlacedEcu, Vehicle, is_own, gatewayed_ids}

-- The networks that have a depth, and the frontier of those that are still to be looked behind.
pub record DepthSearch : Type 0 where
  pub depths : List (String × ℕ)
  pub frontier : List (String × ℕ)

unfoldable pub has_depth : List (String × ℕ) → String → Bool
has_depth [] id = false
has_depth ((i, depth) ∷ rest) id = (i == id) || has_depth rest id

unfoldable pub discover : DepthSearch → String → ℕ → DepthSearch
discover s id depth = record {
  depths = (id, depth) ∷ s.depths;
  frontier = s.frontier ++ (id, depth) ∷ [];
}

unfoldable pub seed_entry_points : DepthSearch → List Network → DepthSearch
seed_entry_points s [] = s
seed_entry_points s (n ∷ ns) =
    seed_entry_points (if n.is_entry_point then discover s n.network_id 0 else s) ns

unfoldable pub visit_behind : DepthSearch → ℕ → List String → DepthSearch
visit_behind s depth [] = s
visit_behind s depth (id ∷ ids) =
    visit_behind (if has_depth s.depths id then s else discover s id depth) depth ids

unfoldable pub visit_ecus : DepthSearch → String → ℕ → List PlacedEcu → DepthSearch
visit_ecus s id depth [] = s
visit_ecus s id depth (e ∷ es) =
    visit_ecus (if is_own e.on_network id then visit_behind s depth e.gateway_for else s) id depth
      es

-- The `while let` loop over the frontier, on fuel: `none` means that the fuel ran out.
unfoldable pub search :
    List PlacedEcu → (fuel : ℕ) (depths frontier : List (String × ℕ)) → Option (List (String × ℕ))
search ecus fuel depths [] = some depths
search ecus zero depths (p ∷ frontier) = none
search ecus (suc fuel) depths ((id, depth) ∷ frontier) =
    let s = visit_ecus (record { depths = depths; frontier = frontier }) id (suc depth) ecus in
    search ecus fuel s.depths s.frontier

unfoldable pub network_depths : Vehicle → Option (List (String × ℕ))
network_depths v =
    let s = seed_entry_points (record { depths = []; frontier = [] }) v.networks in
    search v.ecus (length v.networks + length (gatewayed_ids v.ecus)) s.depths s.frontier
