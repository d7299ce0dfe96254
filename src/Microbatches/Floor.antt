-- ===== src/Microbatches/Floor.antt =====
-- Exact fractions, rounded down only by `trunc`: an arithmetic that meets `IsRounding`.
use megatron_lm.Prelude.{ℕ, zero, suc, ◌*◌, ◌/◌, ◌≤◌, refl, ◌==◌, arith}
use native.Mathlib.Nat.{
  le-div_iff_mul-le, div-mul-le_self, mul-le-mul_right, le_trans, le_of_eq, mul-div_cancel_left,
}
use megatron_lm.Microbatches.Arithmetic.{Floats, IsRounding}

abbrev pub fractions : Floats
fractions = record {
  F = ℕ × ℕ;
  div_int = λ a b. (a, b);
  div_float = λ a f. (a * f.1, f.0);
  is_zero = λ f. f.0 == 0;
  trunc = λ f. f.0 / f.1;
}

pub div_mono : (a b d : ℕ) → a ≤ b → a / d ≤ b / d
div_mono a b zero h = omega arith
div_mono a b (suc d) h =
    (le-div_iff_mul-le {k = suc d} {x = a / suc d} (omega arith)).1
      (le_trans (div-mul-le_self a (suc d)) h)

pub fractions-IsRounding : IsRounding fractions
fractions-IsRounding = record {
  is_zero-div_int = λ n k h. refl;
  div_float_mono = λ a b f h. div_mono (a * f.1) (b * f.1) f.0 (mul-le-mul_right f.1 h);
  div_float-div_int_le = λ n k hn hk. le_of_eq (mul-div_cancel_left k hn);
}
