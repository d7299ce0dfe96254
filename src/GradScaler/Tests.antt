-- ===== src/GradScaler/Tests.antt =====
-- Runs of the gradient scaler, and the theorems at concrete inputs.
use megatron_lm.Prelude.{
  ℕ, ◌*◌, ◌/◌, ◌≤◌, ◌<◌, ◌≡◌, refl, true, false, max, ltb, leb, ltb→lt, [], ◌∷◌, ok, raise,
  assertion_error, arith,
}
use native.Mathlib.Nat.{le-div_iff_mul-le, mul-le-mul_left}
use megatron_lm.GradScaler.{
  state_dict, load_state_dict, pos, negsuc, Scales, DynamicGradScaler, init_grad_scaler, update_inf,
  update_clean, update_scale, updates,
}
use megatron_lm.GradScaler.Trackers.{load-state_dict, IsValid, IsOrder, updates-IsValid}

-- Numbers of halves: 4 is 2.0.
abbrev halves : Scales
halves = record {
  F = ℕ;
  mul = λ a b. a * b / 2;
  maximum = max;
  le_float = leb;
  lt_float = ltb;
  zero_float = 0;
  one_float = 2;
}

abbrev scaler : DynamicGradScaler halves
scaler = record {
  scale = 64;
  min_scale = 2;
  growth_factor = 4;
  backoff_factor = 1;
  growth_interval = 3;
  hysteresis = 2;
  growth_tracker = 0;
  hysteresis_tracker = pos 2;
}

program : Unit {0}
unfolding init_grad_scaler update_inf update_clean update_scale updates
program = tt

scaler-built : init_grad_scaler halves 64 2 4 1 3 2 ≡ ok scaler
unfolding program
scaler-built = refl

scaler_no_interval : init_grad_scaler halves 64 2 4 1 0 2 ≡ raise assertion_error
unfolding program
scaler_no_interval = refl

-- Once the hysteresis is used up, each overflow halves the scale, until it is restored.
updates-scaler :
    updates halves scaler (true ∷ true ∷ true ∷ false ∷ [])
    ≡ record scaler { scale = 16; growth_tracker = 1; hysteresis_tracker = negsuc 0 }
unfolding program
updates-scaler = refl

mul_grows : (x g : ℕ) → 2 < g → x ≤ x * g / 2
mul_grows x g h =
    (le-div_iff_mul-le {k = 2} {x = x} (omega arith)).1 (mul-le-mul_left x (omega arith))

halves-IsOrder : IsOrder halves ◌≤◌
halves-IsOrder = record {
  max_le = λ x y. omega arith;
  grow_le = λ m x g positive grows h. omega (arith, mul_grows x g (ltb→lt 2 g grows));
}

updates-IsValid_example : IsValid halves ◌≤◌ (updates halves scaler (true ∷ true ∷ false ∷ []))
updates-IsValid_example =
    updates-IsValid halves ◌≤◌ halves-IsOrder scaler (true ∷ true ∷ false ∷ [])
      (record { within = omega arith; bounded = omega arith; positive = refl; grows = refl })

-- A scaler that is built anew, with another initial scale.
abbrev restarted : DynamicGradScaler halves
restarted = record scaler { scale = 128 }

load-state_dict_example :
    updates halves (load_state_dict halves restarted (state_dict halves scaler)) (true ∷ false ∷ [])
    ≡ updates halves scaler (true ∷ false ∷ [])
load-state_dict_example =
    load-state_dict halves scaler restarted (true ∷ false ∷ []) refl refl refl refl refl
