-- ===== src/Topology/Depths/Reached.antt =====
-- The networks that get a depth are those that a chain of gateways connects to an entry point.
use Prim.Native.String.{String}
use mathlib.Core.List.{Memᴰ}
use diagnostic_vehicle_simul.Prelude.{ℕ, ◌+◌, ◌≡◌, ◌↔◌, refl, true, some, List, [], length}
use diagnostic_vehicle_simul.Topology.{Network, Vehicle, gatewayed_ids}
use diagnostic_vehicle_simul.Topology.Depths.{has_depth, seed_entry_points, network_depths}
use diagnostic_vehicle_simul.Topology.Depths.Closed.{
  IsClosed, search-IsClosed, seed_entry_points-covers, empty, seed_entry_points-IsClosed,
}
use diagnostic_vehicle_simul.Topology.Depths.Sound.{
  IsConnected, entry, behind, search-IsSound, seed_entry_points-IsSound, empty-IsSound,
}

IsConnected-has_depth :
    (v : Vehicle) (depths : List (String × ℕ))
    → ((n : Network)
        → Memᴰ n v.networks
        → n.is_entry_point ≡ true
        → has_depth depths n.network_id ≡ true)
    → IsClosed v.ecus depths []
    → (id : String) → IsConnected v id
    → has_depth depths id ≡ true
unfolding has_depth
IsConnected-has_depth v depths entries closed id (entry n m h) = entries n m h
IsConnected-has_depth v depths entries closed id (behind a b e x m o c) =
    closed a b e (IsConnected-has_depth v depths entries closed a x) refl m o c

-- The networks that get a depth are exactly those that a chain of gateways connects to an entry
-- point.
pub network_depths_iff :
    (v : Vehicle) (depths : List (String × ℕ)) (id : String)
    → network_depths v ≡ some depths
    → (has_depth depths id ≡ true) ↔ IsConnected v id
unfolding network_depths
network_depths_iff v depths id e =
    let s = seed_entry_points empty v.networks in
    let fuel = length v.networks + length (gatewayed_ids v.ecus) in
    let (closed, keeps) =
      search-IsClosed v.ecus fuel s.depths s.frontier depths e
        (seed_entry_points-IsClosed v.ecus v.networks) in
    (
      search-IsSound v fuel s.depths s.frontier depths e
          (seed_entry_points-IsSound (IsConnected v) empty v.networks (λ n m h. entry n m h)
            (empty-IsSound (IsConnected v)))
          id,
      IsConnected-has_depth v depths
          (λ n m h. keeps n.network_id (seed_entry_points-covers empty v.networks n m h)) closed id,
    )
