-- ===== src/Prelude/Words.antt =====
-- Bytes as numbers below 256, and big-endian words: `to_be_bytes` and `from_be_bytes`.
use Prim.Native.Nat.{ℕ, ◌+◌, ◌*◌, ◌/◌, ◌%◌, ◌<◌}
use mathlib.Core.Path.{◌≡◌}
use mathlib.Core.List.{List, [], ◌∷◌}
use native.Mathlib.Omega.{arith}

abbrev pub IsByte : ℕ → Type 0
IsByte b = b < 256

abbrev pub IsU16 : ℕ → Type 0
IsU16 n = n < 65536

abbrev pub IsU32 : ℕ → Type 0
IsU32 n = n < 4294967296

-- `u16::to_be_bytes`.
abbrev pub u16_to_be : ℕ → List ℕ
u16_to_be n = (n / 256 % 256) ∷ (n % 256) ∷ []

-- `u16::from_be_bytes` of two bytes.
abbrev pub u16_from_be : ℕ → ℕ → ℕ
u16_from_be a b = a * 256 + b

-- `u32::to_be_bytes`.
abbrev pub u32_to_be : ℕ → List ℕ
u32_to_be n = (n / 16777216 % 256) ∷ (n / 65536 % 256) ∷ (n / 256 % 256) ∷ (n % 256) ∷ []

-- `u32::from_be_bytes` of four bytes.
abbrev pub u32_from_be : ℕ → ℕ → ℕ → ℕ → ℕ
u32_from_be a b c d = a * 16777216 + b * 65536 + c * 256 + d

pub u16_be_back : (n : ℕ) → IsU16 n → u16_from_be (n / 256 % 256) (n % 256) ≡ n
u16_be_back n h = omega arith

pub u32_be_back :
    (n : ℕ)
    → IsU32 n
    → u32_from_be (n / 16777216 % 256) (n / 65536 % 256) (n / 256 % 256) (n % 256) ≡ n
u32_be_back n h = omega arith
