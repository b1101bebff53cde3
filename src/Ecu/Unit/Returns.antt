-- ===== src/Ecu/Unit/Returns.antt =====
-- When a request returns, and when it panics.
use diagnostic_vehicle_simul.Prelude.{Option, none, some, All}
use diagnostic_vehicle_simul.Ecu.Overrides.{OverrideAction, suppress, substitute, ResponseOverride}
use diagnostic_vehicle_simul.Ecu.Overrides.Echo.{FitsUsize}

-- The sums of all spans of an override fit `usize`.
abbrev pub FitsAction : OverrideAction → Type 0
FitsAction suppress = Unit {0}
FitsAction (substitute template spans) = All FitsUsize spans

abbrev FitsBest : Option ResponseOverride → Type 0
FitsBest none = Unit {0}
FitsBest (some r) = FitsAction r.action
