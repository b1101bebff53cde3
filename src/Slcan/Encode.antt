-- ===== src/Slcan/Encode.antt =====
-- Writing a frame as a line (engine/crates/slcan/src/lib.rs).
use diagnostic_vehicle_simul.Prelude.{ℕ, Bool, true, false, List, [], ◌∷◌, ◌++◌, if◌then◌else◌}
use diagnostic_vehicle_simul.Can.Frame.{CanFrame, data_length_code}
use diagnostic_vehicle_simul.Slcan.Commands.{terminator}
use diagnostic_vehicle_simul.Slcan.Hex.{format_hex}

-- One kind of line for each combination of identifier and remote flag.
unfoldable pub kind_of : (is_extended is_remote : Bool) → ℕ
kind_of false false = b't'
kind_of true false = b'T'
kind_of false true = b'r'
kind_of true true = b'R'

unfoldable pub encode_bytes : List ℕ → List ℕ
encode_bytes [] = []
encode_bytes (b ∷ bs) = format_hex 2 b ++ encode_bytes bs

-- The line without its terminator.
unfoldable pub encode_line : {Time : Type 0} → CanFrame Time → List ℕ
encode_line frame =
    kind_of frame.is_extended frame.is_remote
    ∷ (format_hex (if frame.is_extended then 8 else 3) frame.can_id
        ++ (format_hex 1 (data_length_code frame) ++ encode_bytes frame.data_bytes))

unfoldable pub encode_frame : {Time : Type 0} → CanFrame Time → List ℕ
encode_frame frame = encode_line frame ++ terminator ∷ []
