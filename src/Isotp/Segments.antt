-- ===== src/Isotp/Segments.antt =====
-- The consecutive frame that carries a PDU's bytes from an index on, and what the receiving side
-- takes from it. Both receivers and the transmitter are related to it.
use diagnostic_vehicle_simul.Prelude.{
  ℕ, suc, ◌+◌, ◌-◌, ◌%◌, min, ◌≡◌, refl, Option, List, ◌∷◌, ◌++◌, length, take, drop, length-append,
  length-take, length-drop, take-append_length, take-add, arith,
}
use diagnostic_vehicle_simul.Isotp.Params.{apply_padding}
use diagnostic_vehicle_simul.Isotp.Params.Padding.{padding, apply_padding-append, length-padding_le}

-- How many bytes the frame carries, from index `k` of a PDU of `n` bytes.
abbrev pub slice_length : ℕ → ℕ → ℕ
slice_length n k = min (n - k) 7

abbrev pub slice : List ℕ → ℕ → List ℕ
slice pdu k = take (slice_length (length pdu) k) (drop k pdu)

unfoldable pub segment : Option ℕ → List ℕ → ℕ → ℕ → List ℕ
segment byte pdu sequence k = apply_padding ((0x20 + sequence % 16) ∷ slice pdu k) byte

length-slice : (pdu : List ℕ) (k : ℕ) → length (slice pdu k) ≡ slice_length (length pdu) k
length-slice pdu k =
    omega (arith, length-take (slice_length (length pdu) k) (drop k pdu), length-drop k pdu)

-- The bytes behind the PCI byte of a segment: the slice and the padding.
abbrev pub body : Option ℕ → List ℕ → ℕ → List ℕ
body byte pdu k = slice pdu k ++ padding byte (suc (length (slice pdu k)))

pub segment_lem :
    (byte : Option ℕ) (pdu : List ℕ) (sequence k : ℕ)
    → segment byte pdu sequence k ≡ (0x20 + sequence % 16) ∷ body byte pdu k
unfolding segment
segment_lem byte pdu sequence k = apply_padding-append ((0x20 + sequence % 16) ∷ slice pdu k) byte

pub count-body :
    (byte : Option ℕ) (pdu : List ℕ) (k : ℕ)
    → min (length (body byte pdu k)) (length pdu - k) ≡ slice_length (length pdu) k
count-body byte pdu k = omega (
  arith,
  length-slice pdu k,
  length-append (slice pdu k) (padding byte (suc (length (slice pdu k)))),
  length-padding_le byte (suc (length (slice pdu k))),
)

pub take-body :
    (byte : Option ℕ) (pdu : List ℕ) (k : ℕ)
    → take (slice_length (length pdu) k) (body byte pdu k) ≡ slice pdu k
take-body byte pdu k =
    take-append_length (slice_length (length pdu) k) (slice pdu k)
      (padding byte (suc (length (slice pdu k)))) (length-slice pdu k)

-- A prefix of the PDU and the slice at its end are a longer prefix.
pub take-append-slice :
    (pdu : List ℕ) (k : ℕ) → take k pdu ++ slice pdu k ≡ take (k + slice_length (length pdu) k) pdu
take-append-slice pdu k = take-add k _ _ pdu refl
