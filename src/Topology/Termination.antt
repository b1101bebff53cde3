-- ===== src/Topology/Termination.antt =====
-- The loops of the topology check end.
use diagnostic_vehicle_simul.Prelude.{
  suc, ◌≡◌, refl, true, some, List, [], ◌∷◌, is_some, Option-cases, inl, inr, length, arith,
}
use diagnostic_vehicle_simul.Topology.{
  PlacedEcu, Network, Vehicle, TopologyVerdict, reject_gateway_cycles, validate_topology,
}
use diagnostic_vehicle_simul.Topology.Walk.{unmet_units-le, walk_up-is_some}

reject_gateway_cycles-is_some :
    (es : List PlacedEcu) (ns : List Network) → is_some (reject_gateway_cycles es ns) ≡ true
unfolding reject_gateway_cycles
reject_gateway_cycles-is_some es [] = refl
reject_gateway_cycles-is_some es (n ∷ ns) = ground (
  arith,
  walk_up-is_some es (suc (length es)) (n.network_id ∷ []) n.network_id,
  unmet_units-le es (n.network_id ∷ []),
  reject_gateway_cycles-is_some es ns,
)

validate_topology-is_some : (v : Vehicle) → is_some (validate_topology v) ≡ true
unfolding validate_topology
validate_topology-is_some v = ground (arith, reject_gateway_cycles-is_some v.ecus v.networks)

-- The check of a vehicle's wiring ends with a verdict, whatever the wiring: each walk up the
-- gateways takes at most one step more than there are units.
pub validate_topology_total :
    (v : Vehicle) → (verdict : TopologyVerdict) × (validate_topology v ≡ some verdict)
validate_topology_total v = elim (Option-cases (validate_topology v)) [
  | inl e ↦ absurd (ground (arith, validate_topology-is_some v))
  | inr r ↦ r
]
