-- ===== src/Prelude/Results.antt =====
-- A value, or an error that is returned in its place.
pub data Result {ℓ κ} (E : Type ℓ) (A : Type κ) : Type (ℓ ⊔ κ) where
  ok : A → Result E A
  err : E → Result E A
