-- ===== src/Result.antt =====
-- A value and an error, of which Go functions return one.

pub data Result {ℓ} (E A : Type ℓ) : Type ℓ where
  ok : A → Result E A
  err : E → Result E A
