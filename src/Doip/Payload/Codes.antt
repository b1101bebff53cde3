-- ===== src/Doip/Payload/Codes.antt =====
-- The two directions of the wire value agree.
use diagnostic_vehicle_simul.Prelude.{ℕ, ◌≡◌, sym, ◌∙◌, ◌↔◌, some, arith, IsU16, ap}
use diagnostic_vehicle_simul.Doip.Payload.{PayloadType, code, from_code}

pub from_code-code : (p : PayloadType) → from_code (code p) ≡ some p
unfolding from_code code
from_code-code p = ground arith

pub code-from_code : (n : ℕ) (p : PayloadType) → from_code n ≡ some p → code p ≡ n
unfolding from_code code
code-from_code n p h = ground arith

pub code-IsU16 : (p : PayloadType) → IsU16 (code p)
unfolding code
code-IsU16 p = ground arith

-- A wire value decodes to a payload type exactly when it is that type's value, and each value is
-- that of at most one type.
pub from_code_iff : (n : ℕ) (p : PayloadType) → (from_code n ≡ some p) ↔ (code p ≡ n)
from_code_iff n p =
    (code-from_code n p, λ (h : code p ≡ n). ap from_code (sym h) ∙ from_code-code p)
