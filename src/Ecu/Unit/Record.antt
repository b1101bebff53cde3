-- ===== src/Ecu/Unit/Record.antt =====
-- What the sessionParameterRecord tells a tester.
use diagnostic_vehicle_simul.Prelude.{
  ℕ, ◌*◌, ◌≡◌, ◌≤◌, List, [], ◌∷◌, ok, length, drop, take, get_or, head_or, u16_from_be, arith,
}
use diagnostic_vehicle_simul.Ecu.Timing.{EcuTiming, validate}
use diagnostic_vehicle_simul.Ecu.Unit.{session_parameter_record, apply_session_timing_record}

-- The timing that a tester reads from a response: P2 in milliseconds and P2* in units of ten.
abbrev pub advertised : List ℕ → ℕ × ℕ
advertised response = (
  u16_from_be (get_or response 2 0) (get_or response 3 0),
  u16_from_be (get_or response 4 0) (get_or response 5 0) * 10,
)

-- With timing that was validated, a DiagnosticSessionControl response of at least six bytes leaves
-- the unit with the P2 and P2* that are configured, exactly, and with all its other bytes as the
-- protocol wrote them.
pub apply_session_timing_record-advertised :
    (t : EcuTiming) (response : List ℕ)
    → validate t ≡ ok tt
    → head_or response 0 ≡ 0x50
    → 6 ≤ length response
    → (advertised (apply_session_timing_record t response)
        ≡ (t.p2_server_max_ms, t.p2_star_server_max_ms))
      × (take 2 (apply_session_timing_record t response) ≡ take 2 response)
      × (drop 6 (apply_session_timing_record t response) ≡ drop 6 response)
unfolding apply_session_timing_record session_parameter_record validate
apply_session_timing_record-advertised t (a ∷ b ∷ c ∷ d ∷ e ∷ f ∷ rest) v h l =
    (ground arith, ground arith, ground arith)
apply_session_timing_record-advertised t [] v h l = absurd (omega arith)
apply_session_timing_record-advertised t (a ∷ []) v h l = absurd (omega arith)
apply_session_timing_record-advertised t (a ∷ b ∷ []) v h l = absurd (omega arith)
apply_session_timing_record-advertised t (a ∷ b ∷ c ∷ []) v h l = absurd (omega arith)
apply_session_timing_record-advertised t (a ∷ b ∷ c ∷ d ∷ []) v h l = absurd (omega arith)
apply_session_timing_record-advertised t (a ∷ b ∷ c ∷ d ∷ e ∷ []) v h l = absurd (omega arith)
