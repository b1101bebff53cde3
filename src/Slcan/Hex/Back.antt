-- ===== src/Slcan/Hex/Back.antt =====
-- That a number written with leading zeros reads back.
use diagnostic_vehicle_simul.Prelude.{
  ℕ, zero, suc, ◌+◌, ◌*◌, ◌/◌, ◌%◌, ◌≡◌, ◌<◌, ◌≤◌, refl, ◌∙◌, ap, false, some, List, [], ◌∷◌, ◌++◌,
  ◌==◌, All, length, head_or, arith,
}
use diagnostic_vehicle_simul.Slcan.Hex.{
  hex_digit, write_hex, format_hex, hex_value, parse_digits, from_hex,
}

hex_value-hex_digit : (d : ℕ) → d < 16 → hex_value (hex_digit d) ≡ some d
unfolding hex_value hex_digit
hex_value-hex_digit d h = ground arith

hex_digit-plus : (d : ℕ) → (hex_digit d == b'+') ≡ false
unfolding hex_digit
hex_digit-plus d = ground arith

-- A character that neither ends a line nor is a bell, and that one byte of UTF-8 holds.
abbrev pub IsPlain : ℕ → Type 0
IsPlain c = (13 < c) × (c < 128)

hex_digit-IsPlain : (d : ℕ) → d < 16 → IsPlain (hex_digit d)
unfolding hex_digit
hex_digit-IsPlain d h = ground arith

abbrev pub sixteen_to : ℕ → ℕ
sixteen_to zero = 1
sixteen_to (suc w) = 16 * sixteen_to w

-- The last `width` digits of a number, most significant first, before `rest`.
unfoldable pub digits : (width n : ℕ) (rest : List ℕ) → List ℕ
digits zero n rest = rest
digits (suc width) n rest = digits width (n / 16) (hex_digit (n % 16) ∷ rest)

write_hex-digits :
    (width fuel n : ℕ) (written : List ℕ)
    → n < sixteen_to width
    → width ≤ fuel
    → write_hex fuel width n written ≡ digits width n written
unfolding write_hex digits
write_hex-digits zero zero n written h k = refl
write_hex-digits zero (suc fuel) n written h k = ground arith
write_hex-digits (suc width) zero n written h k = absurd (omega arith)
write_hex-digits (suc width) (suc fuel) n written h k =
    ground (arith, write_hex-digits width fuel (n / 16) (hex_digit (n % 16) ∷ written))

pub format_hex-digits :
    (width n : ℕ) → n < sixteen_to width → width ≤ 8 → format_hex width n ≡ digits width n []
unfolding format_hex
format_hex-digits width n h k = write_hex-digits width 8 n [] h k

parse_digits-hex_digit :
    (acc d : ℕ) (rest : List ℕ)
    → d < 16
    → parse_digits acc (hex_digit d ∷ rest) ≡ parse_digits (acc * 16 + d) rest
unfolding parse_digits
parse_digits-hex_digit acc d rest h = ground (arith, hex_value-hex_digit d)

regroup : (a p n : ℕ) → (a * p + n / 16) * 16 + n % 16 ≡ a * (16 * p) + n
regroup a p n = grind arith

parse_digits-digits :
    (width acc n : ℕ) (rest : List ℕ)
    → n < sixteen_to width
    → parse_digits acc (digits width n rest) ≡ parse_digits (acc * sixteen_to width + n) rest
unfolding digits
parse_digits-digits zero acc n rest h = ap (λ (k : ℕ). parse_digits k rest) (omega arith)
parse_digits-digits (suc width) acc n rest h =
    parse_digits-digits width acc (n / 16) (hex_digit (n % 16) ∷ rest) (omega arith)
    ∙ (parse_digits-hex_digit (acc * sixteen_to width + n / 16) (n % 16) rest (omega arith)
        ∙ ap (λ (k : ℕ). parse_digits k rest) (regroup acc (sixteen_to width) n))

pub length-digits :
    (width n : ℕ) (rest : List ℕ) → length (digits width n rest) ≡ width + length rest
unfolding digits
length-digits zero n rest = omega arith
length-digits (suc width) n rest =
    omega (arith, length-digits width (n / 16) (hex_digit (n % 16) ∷ rest))

pub digits-append :
    (width n : ℕ) (rest more : List ℕ) → digits width n rest ++ more ≡ digits width n (rest ++ more)
unfolding digits
digits-append zero n rest more = refl
digits-append (suc width) n rest more =
    digits-append width (n / 16) (hex_digit (n % 16) ∷ rest) more

pub digits-IsPlain :
    (width n : ℕ) (rest : List ℕ) → All IsPlain rest → All IsPlain (digits width n rest)
unfolding digits
digits-IsPlain zero n rest h = h
digits-IsPlain (suc width) n rest h =
    digits-IsPlain width (n / 16) (hex_digit (n % 16) ∷ rest)
      (hex_digit-IsPlain (n % 16) (omega arith), h)

head-digits :
    (width n : ℕ) (c : ℕ) (rest : List ℕ)
    → (c == b'+') ≡ false
    → (head_or (digits width n (c ∷ rest)) 0 == b'+') ≡ false
unfolding digits
head-digits zero n c rest h = h
head-digits (suc width) n c rest h =
    head-digits width (n / 16) (hex_digit (n % 16)) (c ∷ rest) (hex_digit-plus (n % 16))

from_hex-parse_digits :
    (cs : List ℕ) → 0 < length cs → (head_or cs 0 == b'+') ≡ false → from_hex cs ≡ parse_digits 0 cs
unfolding from_hex parse_digits
from_hex-parse_digits [] l h = absurd (omega arith)
from_hex-parse_digits (c ∷ []) l h = ground arith
from_hex-parse_digits (c ∷ d ∷ cs) l h = rw h refl

-- A number that fits into one digit or more reads back.
pub from_hex-digits :
    (width n : ℕ) → n < sixteen_to (suc width) → from_hex (digits (suc width) n []) ≡ some n
unfolding parse_digits digits
from_hex-digits width n h =
    from_hex-parse_digits (digits (suc width) n []) (omega (arith, length-digits (suc width) n []))
      (head-digits width (n / 16) (hex_digit (n % 16)) [] (hex_digit-plus (n % 16)))
    ∙ (parse_digits-digits (suc width) 0 n [] h ∙ ap some (omega arith))
