-- ===== src/Topology/Depths/Search.antt =====
-- The search for the depths of networks ends.
use Prim.Native.String.{String}
use diagnostic_vehicle_simul.Prelude.{ℕ, ◌+◌, List, [], ◌∷◌, if◌then◌else◌, length}
use diagnostic_vehicle_simul.Topology.Depths.{DepthSearch, has_depth}

-- How many of these networks have no depth yet.
unfoldable undiscovered : List String → List (String × ℕ) → ℕ
undiscovered [] depths = 0
undiscovered (x ∷ xs) depths = (if has_depth depths x then 0 else 1) + undiscovered xs depths

-- What is left to do: the frontier, and what may still join it.
abbrev work : List String → DepthSearch → ℕ
work all s = length s.frontier + undiscovered all s.depths
