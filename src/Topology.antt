-- ===== src/Topology.antt =====
-- The wiring of a vehicle: which unit sits behind which gateway, and on what
-- (engine/crates/core-domain/src/model.rs). A unit shows only its place here; the texts of errors
-- are left out, the names in them kept.
pub mod Walk
pub mod Termination
pub mod Paths
pub mod Reach
pub mod Depths
use Prim.Native.String.{String}
use text.Mathlib.Text.{◌==◌}
use diagnostic_vehicle_simul.Prelude.{
  ℕ, zero, suc, ◌+◌, Bool, true, false, not, ◌||◌, Option, none, some, List, [], ◌∷◌, ◌++◌,
  if◌then◌else◌, length, Result, ok, err,
}
use mathlib.Core.List.{reverse}

pub data NetworkKind : Type 0 where
  can_classic can_fd ethernet_doip unknown_kind : NetworkKind

-- How certain the wiring is, is shown to the user only, and left out.
pub record Network : Type 0 where
  pub network_id : String
  pub network_name : String
  pub kind : NetworkKind
  pub bitrate_bps : Option ℕ
  pub data_bitrate_bps : Option ℕ
  pub is_entry_point : Bool

-- The place of an `Ecu`.
pub record PlacedEcu : Type 0 where
  pub ecu_name : String
  pub on_network : Option String
  pub gateway_for : List String
  pub is_on : Bool

pub record Vehicle : Type 0 where
  pub ecus : List PlacedEcu
  pub networks : List Network

pub data TopologyError : Type 0 where
  unknown_network : (ecu_name network_id : String) → TopologyError
  gateway_onto_own_network : (ecu_name network_id : String) → TopologyError
  network_has_two_gateways : (network_id first_ecu second_ecu : String) → TopologyError
  gateway_cycle : (walked : List String) → TopologyError

abbrev pub TopologyVerdict : Type 0
TopologyVerdict = Result TopologyError (Unit {0})

-- The `?` operator between two checks.
abbrev pub and_check : TopologyVerdict → TopologyVerdict → TopologyVerdict
and_check (ok u) next = next
and_check (err e) next = err e

unfoldable pub contains_id : List String → String → Bool
contains_id [] id = false
contains_id (x ∷ xs) id = (x == id) || contains_id xs id

unfoldable pub find_network : List Network → String → Option Network
find_network [] id = none
find_network (n ∷ ns) id = if n.network_id == id then some n else find_network ns id

unfoldable pub find_gateway_for_network : List PlacedEcu → String → Option PlacedEcu
find_gateway_for_network [] id = none
find_gateway_for_network (e ∷ es) id =
    if contains_id e.gateway_for id then some e else find_gateway_for_network es id

unfoldable pub entry_point_networks : List Network → List Network
entry_point_networks [] = []
entry_point_networks (n ∷ ns) =
    let rest = entry_point_networks ns in if n.is_entry_point then n ∷ rest else rest

-- Whether a network is defined.
abbrev pub is_defined : List Network → String → Bool
is_defined networks id = elim (find_network networks id) [ none ↦ false | some n ↦ true ]

unfoldable pub check_own_network : List Network → PlacedEcu → Option String → TopologyVerdict
check_own_network networks ecu none = ok tt
check_own_network networks ecu (some id) =
    if is_defined networks id then ok tt else err (unknown_network ecu.ecu_name id)

-- Whether a unit's own network is this one.
abbrev pub is_own : Option String → String → Bool
is_own none id = false
is_own (some own) id = own == id

unfoldable pub check_gatewayed : List Network → PlacedEcu → List String → TopologyVerdict
check_gatewayed networks ecu [] = ok tt
check_gatewayed networks ecu (id ∷ ids) =
    if not (is_defined networks id)
    then err (unknown_network ecu.ecu_name id)
    else if is_own ecu.on_network id
    then err (gateway_onto_own_network ecu.ecu_name id)
    else check_gatewayed networks ecu ids

-- The loop over the units.
unfoldable pub check_ecus : List Network → List PlacedEcu → TopologyVerdict
check_ecus networks [] = ok tt
check_ecus networks (e ∷ es) =
    and_check (check_own_network networks e e.on_network)
      (and_check (check_gatewayed networks e e.gateway_for) (check_ecus networks es))

-- Who has claimed a network: a map, as an association list of network and unit.
unfoldable pub find_claim : List (String × String) → String → Option String
find_claim [] id = none
find_claim ((key, ecu) ∷ rest) id = if key == id then some ecu else find_claim rest id

-- One unit's claims, added to those before.
unfoldable pub claim_all :
    List (String × String)
    → (ecu_name : String) → List String
    → Result TopologyError (List (String × String))
claim_all claims ecu_name [] = ok claims
claim_all claims ecu_name (id ∷ ids) = elim (find_claim claims id) [
  | some first_ecu ↦ err (network_has_two_gateways id first_ecu ecu_name)
  | none ↦ claim_all ((id, ecu_name) ∷ claims) ecu_name ids
]

unfoldable pub reject_shared_gateways : List (String × String) → List PlacedEcu → TopologyVerdict
reject_shared_gateways claims [] = ok tt
reject_shared_gateways claims (e ∷ es) = elim (claim_all claims e.ecu_name e.gateway_for) [
  | ok more ↦ reject_shared_gateways more es
  | err error ↦ err error
]

-- The `while let` loop up from one network, on fuel: `none` means that the fuel ran out.
unfoldable pub walk_up :
    List PlacedEcu → (fuel : ℕ) (walked : List String) (current : String) → Option TopologyVerdict
walk_up ecus zero walked current = none
walk_up ecus (suc fuel) walked current = elim (find_gateway_for_network ecus current) [
  | none ↦ some (ok tt)
  | some gateway ↦ elim gateway.on_network [
    | none ↦ some (ok tt)
    | some upstream ↦
        let rest = walk_up ecus fuel (walked ++ upstream ∷ []) upstream in
        if contains_id walked upstream
        then some (err (gateway_cycle (walked ++ upstream ∷ [])))
        else rest
  ]
]

-- One more than the units suffices for each walk.
unfoldable pub reject_gateway_cycles : List PlacedEcu → List Network → Option TopologyVerdict
reject_gateway_cycles ecus [] = some (ok tt)
reject_gateway_cycles ecus (n ∷ ns) =
    elim (walk_up ecus (suc (length ecus)) (n.network_id ∷ []) n.network_id) [
      | none ↦ none
      | some (err e) ↦ some (err e)
      | some (ok u) ↦ reject_gateway_cycles ecus ns
    ]

-- The checks that come before the walks.
unfoldable pub check_wiring : Vehicle → TopologyVerdict
check_wiring v = and_check (check_ecus v.networks v.ecus) (reject_shared_gateways [] v.ecus)

unfoldable pub validate_topology : Vehicle → Option TopologyVerdict
validate_topology v = elim (check_wiring v) [
  | ok u ↦ reject_gateway_cycles v.ecus v.networks
  | err e ↦ some (err e)
]

-- Every network that some unit forwards onto.
unfoldable pub gatewayed_ids : List PlacedEcu → List String
gatewayed_ids [] = []
gatewayed_ids (e ∷ es) = e.gateway_for ++ gatewayed_ids es

unfoldable pub entry_ids : List String → List Network → List String
entry_ids gatewayed [] = []
entry_ids gatewayed (n ∷ ns) =
    let rest = entry_ids gatewayed ns in
    if not (contains_id gatewayed n.network_id) then n.network_id ∷ rest else rest

unfoldable pub mark_entry_points : List String → List Network → List Network
mark_entry_points ids [] = []
mark_entry_points ids (n ∷ ns) =
    record n { is_entry_point = contains_id ids n.network_id } ∷ mark_entry_points ids ns

unfoldable pub has_entry_point : List Network → Bool
has_entry_point [] = false
has_entry_point (n ∷ ns) = n.is_entry_point || has_entry_point ns

unfoldable pub normalize_entry_points : Vehicle → Vehicle
normalize_entry_points v = if has_entry_point v.networks then v else record v {
  networks = mark_entry_points (entry_ids (gatewayed_ids v.ecus) v.networks) v.networks;
}

pub record DiagnosticPath : Type 0 where
  pub gateway_names : List String
  pub hop_count : ℕ
  pub is_reachable : Bool
  pub disabled_gateway : Option String

-- `is_diagnostic_entry_point` of a network that may not be defined.
abbrev pub is_entry : List Network → String → Bool
is_entry networks id = elim (find_network networks id) [ none ↦ false | some n ↦ n.is_entry_point ]

abbrev pub first : List String → Option String
first [] = none
first (x ∷ xs) = some x

unfoldable pub reached : (names disabled : List String) → DiagnosticPath
reached names disabled = record {
  gateway_names = reverse names;
  hop_count = length (reverse names);
  is_reachable = true;
  disabled_gateway = first (reverse disabled);
}

unfoldable pub unreachable : (names : List String) → DiagnosticPath
unreachable names = record {
  gateway_names = [];
  hop_count = length names;
  is_reachable = false;
  disabled_gateway = none;
}

-- The walk from a network towards the tester, at most `limit` networks long.
unfoldable pub climb :
    Vehicle → (limit : ℕ) (names disabled : List String) (current : String) → DiagnosticPath
climb v zero names disabled current = unreachable names
climb v (suc limit) names disabled current = elim (is_entry v.networks current) [
  | true ↦ reached names disabled
  | false ↦ elim (find_gateway_for_network v.ecus current) [
    | none ↦ unreachable names
    | some gateway ↦ elim gateway.on_network [
      | none ↦ unreachable (names ++ gateway.ecu_name ∷ [])
      | some upstream ↦
          climb v limit (names ++ gateway.ecu_name ∷ [])
            (if not gateway.is_on then disabled ++ gateway.ecu_name ∷ [] else disabled) upstream
    ]
  ]
]

unfoldable pub path_from : Vehicle → Option String → DiagnosticPath
path_from v none = reached [] []
path_from v (some id) = climb v (length v.networks + 1) [] [] id

unfoldable pub diagnostic_path_to : Vehicle → PlacedEcu → DiagnosticPath
diagnostic_path_to v ecu = path_from v ecu.on_network
