-- ===== src/Microbatches/Arithmetic.antt =====
-- Python's float division, as far as microbatches.py uses it.
use megatron_lm.Prelude.{ℕ, ◌≤◌, ◌<◌, Bool, ◌≡◌, ◌==◌}

-- `div_int a b` is `a / b` of two ints, `div_float a f` is `a / f` of an int and a float, and
-- `trunc` is `int` of a non-negative float.
pub record Floats : Type 1 where
  pub F : Type 0
  pub div_int : ℕ → ℕ → F
  pub div_float : ℕ → F → F
  pub is_zero : F → Bool
  pub trunc : F → ℕ

-- What IEEE arithmetic gives for numbers that doubles hold exactly: a quotient is zero only if its
-- dividend is, rounding is monotone, and dividing n by the rounded n / k gives k up to rounding, so
-- that its integer part is not above k.
pub record IsRounding (floats : Floats) : Type 0 where
  pub is_zero-div_int : (n k : ℕ) → 0 < k → floats.is_zero (floats.div_int n k) ≡ (n == 0)
  pub div_float_mono :
      (a b : ℕ) (f : floats.F)
      → a ≤ b
      → floats.trunc (floats.div_float a f) ≤ floats.trunc (floats.div_float b f)
  pub div_float-div_int_le :
      (n k : ℕ) → 0 < n → 0 < k → floats.trunc (floats.div_float n (floats.div_int n k)) ≤ k
