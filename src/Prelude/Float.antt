-- ===== src/Prelude/Float.antt =====
-- Go's `float64` as a type with the operations that the program uses: there are no floats in the
-- language of the proofs. No law is assumed here; a theorem that needs one has it as a hypothesis.
use laya_go.Prelude.{ℕ, Bool, not, ◌&&◌}

pub record FloatOps (F : Type 0) : Type 0 where
  pub is_nan : F → Bool
  pub is_inf : F → Bool
  -- `a < b` and `a == b`, false where either is NaN.
  pub lt : F → F → Bool
  pub eq : F → F → Bool
  pub of_ℕ : ℕ → F
  pub neg : F → F
  pub add : F → F → F
  pub sub : F → F → F
  pub mul : F → F → F
  pub div : F → F → F
  pub exp : F → F
  pub log : F → F
  -- `math.Round`, and `math.MaxFloat64`.
  pub round : F → F
  pub max_float : F
  -- The constant `1e-12`.
  pub tiny : F
  -- The builtin `min` and `max`.
  pub fmin : F → F → F
  pub fmax : F → F → F

module _ {F : Type 0} ⦃ops : FloatOps F⦄ where
  -- `isFinite` of calibration.go.
  abbrev pub is_finite : F → Bool
  is_finite x = not (ops.is_nan x) && not (ops.is_inf x)
