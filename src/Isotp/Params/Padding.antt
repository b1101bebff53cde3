-- ===== src/Isotp/Params/Padding.antt =====
-- What `ApplyPadding` does, loop included.
use diagnostic_vehicle_simul.Prelude.{
  ℕ, zero, suc, ◌+◌, ◌-◌, ◌≤◌, ◌<◌, ◌≡◌, refl, sym, Bool-cases, ltb, inl, inr, Option, none, some,
  List, [], ◌∷◌, ◌++◌, length, replicate, append-nil, append_assoc, length-append, length-replicate,
  max, arith, ltb→lt, ltb-false→le,
}
use diagnostic_vehicle_simul.Isotp.Params.{apply_padding, pad_loop}

-- The bytes that are put behind a frame of the given length.
unfoldable pub padding : Option ℕ → ℕ → List ℕ
padding none count = []
padding (some byte) count = replicate (8 - count) byte

pad_loop-append :
    (fuel : ℕ) (frame : List ℕ) (byte : ℕ)
    → 8 - length frame ≤ fuel
    → pad_loop fuel frame byte ≡ frame ++ replicate (8 - length frame) byte
unfolding pad_loop
pad_loop-append zero frame byte h =
    let e : 8 - length frame ≡ 0 = omega arith in rw (e, append-nil) refl
pad_loop-append (suc fuel) frame byte h = elim (Bool-cases (ltb (length frame) 8)) [
  | inl short ↦
      let p : length (frame ++ byte ∷ []) ≡ length frame + 1 =
        omega (arith, length-append frame (byte ∷ [])) in
      let q : length frame < 8 = ltb→lt (length frame) 8 short in
      let e : 8 - length frame ≡ suc (8 - length (frame ++ byte ∷ [])) = omega arith in
      rw (short, e, pad_loop-append fuel (frame ++ byte ∷ []) byte (omega arith), append_assoc) refl
  | inr full ↦
      let q : 8 ≤ length frame = ltb-false→le (length frame) 8 full in
      let e : 8 - length frame ≡ 0 = omega arith in rw (full, e, append-nil) refl
]

-- Padding a frame appends the padding byte until the frame has eight bytes, and changes nothing
-- where no byte is configured or the frame has eight already.
pub apply_padding-append :
    (frame : List ℕ) (byte : Option ℕ)
    → apply_padding frame byte ≡ frame ++ padding byte (length frame)
unfolding apply_padding padding
apply_padding-append frame none = sym (append-nil frame)
apply_padding-append frame (some byte) = pad_loop-append 8 frame byte (omega arith)

pub length-padding_le : (byte : Option ℕ) (count : ℕ) → length (padding byte count) ≤ 8 - count
unfolding padding
length-padding_le none count = omega arith
length-padding_le (some byte) count = omega (arith, length-replicate (8 - count) byte)

-- A padded frame is never longer than the frame was, or than eight bytes.
pub length-apply_padding_le :
    (frame : List ℕ) (byte : Option ℕ) → length (apply_padding frame byte) ≤ max (length frame) 8
length-apply_padding_le frame byte = rw apply_padding-append (
    omega (
      arith,
      length-append frame (padding byte (length frame)),
      length-padding_le byte (length frame),
    ))
