-- ===== src/Slcan/Hex.antt =====
-- Hexadecimal numbers as the standard library writes and reads them: `{:0wX}` and
-- `from_str_radix(_, 16)`, which takes either case and a leading `+`.
pub mod Back
use diagnostic_vehicle_simul.Prelude.{
  ℕ, zero, suc, ◌+◌, ◌-◌, ◌*◌, ◌/◌, ◌%◌, ◌&&◌, Option, none, some, List, [], ◌∷◌, if◌then◌else◌,
  ltb, leb, ◌==◌,
}

-- An upper-case digit.
unfoldable pub hex_digit : ℕ → ℕ
hex_digit d = if ltb d 10 then b'0' + d else b'A' + (d - 10)

-- The digits of a number, at least `width` of them, before the digits `written`. Fuel bounds their
-- number: eight are all that a u32 has.
unfoldable pub write_hex : (fuel width n : ℕ) (written : List ℕ) → List ℕ
write_hex zero width n written = written
write_hex (suc fuel) width n written =
    let rest = write_hex fuel (width - 1) (n / 16) (hex_digit (n % 16) ∷ written) in
    if (n == 0) && (width == 0) then written else rest

unfoldable pub format_hex : (width n : ℕ) → List ℕ
format_hex width n = write_hex 8 width n []

-- `char::to_digit(16)`.
unfoldable pub hex_value : ℕ → Option ℕ
hex_value c =
    if leb b'0' c && leb c b'9'
    then some (c - b'0')
    else if leb b'A' c && leb c b'F'
    then some (c - b'A' + 10)
    else if leb b'a' c && leb c b'f'
    then some (c - b'a' + 10)
    else none

-- The loop over the digits. A number of at most eight digits does not overflow a u32, nor one of at
-- most two a u8.
unfoldable pub parse_digits : (acc : ℕ) → List ℕ → Option ℕ
parse_digits acc [] = some acc
parse_digits acc (c ∷ cs) = elim (hex_value c) [
  | none ↦ none
  | some d ↦ parse_digits (acc * 16 + d) cs
]

unfoldable pub from_hex : List ℕ → Option ℕ
from_hex [] = none
from_hex (c ∷ []) = hex_value c
from_hex (c ∷ d ∷ cs) = if c == b'+' then parse_digits 0 (d ∷ cs) else parse_digits 0 (c ∷ d ∷ cs)
