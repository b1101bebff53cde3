-- ===== src/Tests/Can.antt =====
-- A node that has met twenty transmit errors.
use diagnostic_vehicle_simul.Prelude.{true, false, [], ◌∷◌, arith}
use diagnostic_vehicle_simul.Can.Confinement.{FaultConfinement}
use diagnostic_vehicle_simul.Can.Confinement.Inv.{
  IsConfined, transmit_error, receive_error, recovery, apply_all, apply_all-IsConfined,
}

abbrev troubled : FaultConfinement
troubled = record { transmit_error_count = 160; receive_error_count = 3; is_bus_off = false }

abbrev lost : FaultConfinement
lost = record { transmit_error_count = 256; receive_error_count = 3; is_bus_off = true }

troubled-IsConfined : IsConfined troubled
troubled-IsConfined = ground arith

apply_all-IsConfined_example :
    IsConfined (apply_all (transmit_error ∷ recovery ∷ receive_error ∷ []) troubled)
apply_all-IsConfined_example =
    apply_all-IsConfined (transmit_error ∷ recovery ∷ receive_error ∷ []) troubled
      troubled-IsConfined
