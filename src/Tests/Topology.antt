-- ===== src/Tests/Topology.antt =====
-- A vehicle with a gateway between two networks.
use diagnostic_vehicle_simul.Prelude.{
  ◌≡◌, ◌↔◌, refl, false, true, none, some, inl, List, [], ◌∷◌, arith,
}
use mathlib.Core.List.{Memᴰ}
use diagnostic_vehicle_simul.Topology.{
  Network, can_classic, PlacedEcu, Vehicle, TopologyVerdict, contains_id, find_network,
  find_gateway_for_network, check_own_network, check_gatewayed, check_ecus, find_claim, claim_all,
  reject_shared_gateways, walk_up, reject_gateway_cycles, check_wiring, validate_topology,
  gatewayed_ids, entry_ids, mark_entry_points, has_entry_point, normalize_entry_points, climb,
  diagnostic_path_to,
}
use Prim.Native.String.{String}
use diagnostic_vehicle_simul.Topology.Depths.{
  has_depth, discover, seed_entry_points, visit_behind, visit_ecus, search, network_depths,
}
use diagnostic_vehicle_simul.Topology.Depths.Sound.{IsConnected}
use diagnostic_vehicle_simul.Topology.Depths.Reached.{network_depths_iff}
use diagnostic_vehicle_simul.Topology.Termination.{validate_topology_total}
use diagnostic_vehicle_simul.Topology.Paths.{diagnostic_path_to-climb}
use diagnostic_vehicle_simul.Topology.Reach.{normalize_entry_points-reachable}

abbrev backbone : Network
backbone = record {
  network_id = "backbone";
  network_name = "Backbone";
  kind = can_classic;
  bitrate_bps = some 500000;
  data_bitrate_bps = none;
  is_entry_point = false;
}

abbrev body : Network
body = record backbone { network_id = "body"; network_name = "Body" }

abbrev gateway : PlacedEcu
gateway = record {
  ecu_name = "Gateway";
  on_network = some "backbone";
  gateway_for = "body" ∷ [];
  is_on = true;
}

abbrev door : PlacedEcu
door = record { ecu_name = "Door"; on_network = some "body"; gateway_for = []; is_on = true }

abbrev vehicle : Vehicle
vehicle = record { ecus = gateway ∷ door ∷ []; networks = backbone ∷ body ∷ [] }

validate_topology_total_example :
    (verdict : TopologyVerdict) × (validate_topology vehicle ≡ some verdict)
validate_topology_total_example = validate_topology_total vehicle

diagnostic_path_to-climb_example : diagnostic_path_to vehicle door ≡ climb vehicle 2 [] [] "body"
unfolding validate_topology check_wiring check_ecus check_own_network check_gatewayed find_network
    reject_shared_gateways claim_all find_claim reject_gateway_cycles walk_up
    find_gateway_for_network contains_id
diagnostic_path_to-climb_example =
    diagnostic_path_to-climb vehicle door "body" 2 refl (Memᴰ.tail (Memᴰ.head refl)) refl
      (omega arith)

normalize_entry_points-reachable_example :
    (diagnostic_path_to (normalize_entry_points vehicle) door).is_reachable ≡ true
unfolding normalize_entry_points has_entry_point mark_entry_points entry_ids gatewayed_ids
    validate_topology check_wiring check_ecus check_own_network check_gatewayed find_network
    reject_shared_gateways claim_all find_claim reject_gateway_cycles walk_up
    find_gateway_for_network contains_id
normalize_entry_points-reachable_example =
    normalize_entry_points-reachable vehicle door refl refl (inl refl, (inl refl, tt))
      (Memᴰ.tail (Memᴰ.head refl))

abbrev attached : Vehicle
attached = record vehicle { networks = record backbone { is_entry_point = true } ∷ body ∷ [] }

network_depths_iff_example :
    (has_depth (("body", 1) ∷ ("backbone", 0) ∷ []) "body" ≡ true) ↔ IsConnected attached "body"
unfolding network_depths seed_entry_points search visit_ecus visit_behind discover has_depth
    gatewayed_ids
network_depths_iff_example =
    network_depths_iff attached (("body", 1) ∷ ("backbone", 0) ∷ []) "body" refl
