-- ===== src/Prelude/Results.antt =====
-- Rust's `Result`: an answer, or the error that it ended with.
pub data Result {ℓ} (E A : Type ℓ) : Type ℓ where
  ok : A → Result E A
  err : E → Result E A
