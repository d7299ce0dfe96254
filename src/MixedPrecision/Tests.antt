-- ===== src/MixedPrecision/Tests.antt =====
-- Two parameters whose values in float16 are tenths of those in float32, and whose step subtracts
-- the gradient.
use mathlib.Core.Option.{Option}
use mathlib.Core.Option
use megatron_lm.Prelude.{
  ◌==◌, Option, if◌then◌else◌, ℕ, ◌+◌, ◌-◌, ◌*◌, ◌/◌, true, false, not, ltb, leb, max, List, [],
  ◌∷◌, none, some, ok, ◌≡◌, refl, map,
}
use megatron_lm.GradScaler.{
  Scales, DynamicGradScaler, pos, update_scale, update_inf, update_clean, updates,
}
use megatron_lm.MixedPrecision.{
  Tensors, Optimizer, Outcome, zero_grad, dropped, step, take_grads, copy_grads, main_grad_of,
  found_inf, collect, all_finite, step_scaled, unscale, on_grad, finish, clip, clip_grad_norm,
  grads_for_norm, update_params, operand, put_values, copy_params, count_zeros, local_zeros,
}
use megatron_lm.MixedPrecision.Parts.{InSync}
use megatron_lm.MixedPrecision.Step.{Stepped, step-Stepped}
use megatron_lm.MixedPrecision.Runs.{Backward, train_steps, backward, set_grads, train_steps-InSync}

abbrev scales : Scales
scales = record {
  F = ℕ;
  mul = λ a b. a * b;
  maximum = max;
  le_float = leb;
  lt_float = ltb;
  zero_float = 0;
  one_float = 1;
}

abbrev subtract : List (ℕ × Option ℕ) → List ℕ
subtract [] = []
subtract ((v, none) ∷ ps) = v ∷ subtract ps
subtract ((v, some g) ∷ ps) = (v - g) ∷ subtract ps

abbrev sum : List ℕ → ℕ
sum [] = 0
sum (x ∷ xs) = x + sum xs

abbrev tensors : Tensors
tensors = record {
  Half = ℕ;
  Full = ℕ;
  MainGrad = ℕ;
  Norm = ℕ;
  BaseState = ℕ;
  to_full = λ h. h * 10;
  main_to_full = λ g. g;
  to_half = λ f. f / 10;
  is_finite = λ f. ltb f 1000;
  group_max = λ b. b;
  norm_is_nan = λ gs. false;
  group_norm = sum;
  exceeds = λ n. ltb 50 n;
  clipped = λ n g. g * 50 / n;
  zeros = λ g. if g == 0 then 1 else 0;
  group_sum = λ n. n;
  base_step = λ s ps. (s + 1, subtract ps);
}

-- Dividing by the scale, which is a power of two.
abbrev divided : ℕ → ℕ → ℕ
divided s g = g / s

abbrev scaler : DynamicGradScaler scales
scaler = record {
  scale = 4;
  min_scale = 1;
  growth_factor = 2;
  backoff_factor = 1;
  growth_interval = 3;
  hysteresis = 1;
  growth_tracker = 0;
  hysteresis_tracker = pos 1;
}

abbrev start : Optimizer scales tensors divided
start = record {
  float16 =
      record { value = 50; grad = none; main_grad = none }
      ∷ record { value = 20; grad = none; main_grad = none }
      ∷ [];
  fp32_from_float16 =
      record { value = 503; grad = none; counts = true }
      ∷ record { value = 207; grad = none; counts = true }
      ∷ [];
  grad_scaler = some scaler;
  base = 0;
  params_have_main_grad = true;
  clips = true;
  check_for_nan_in_grad = true;
  log_num_zeros_in_grad = true;
}

abbrev small : Backward scales tensors divided
small o i = (none, some (if i == 0 then 80 else 40))

-- The first parameter overflows.
abbrev large : Backward scales tensors divided
large o i = (none, some (if i == 0 then 4000 else 40))

program : Unit {0}
unfolding step take_grads copy_grads main_grad_of dropped found_inf collect all_finite step_scaled
    unscale on_grad finish clip clip_grad_norm grads_for_norm update_params operand put_values
    copy_params count_zeros local_zeros update_scale update_inf update_clean backward zero_grad
    set_grads train_steps
program = tt

run_two :
    train_steps scales tensors divided (large ∷ small ∷ []) start
    ≡ ok (
      false ∷ true ∷ [],
      record start {
        float16 =
            record { value = 48; grad = none; main_grad = some 80 }
            ∷ record { value = 19; grad = none; main_grad = some 40 }
            ∷ [];
        fp32_from_float16 =
            record { value = 483; grad = some 20; counts = true }
            ∷ record { value = 197; grad = some 10; counts = true }
            ∷ [];
        grad_scaler = some (record scaler { growth_tracker = 1; hysteresis_tracker = pos 0 });
        base = 1;
      },
    )
unfolding program
run_two = refl

-- What the second step starts from, had there been no first one.
abbrev ready : Optimizer scales tensors divided
ready = record start {
  float16 =
      record { value = 50; grad = none; main_grad = some 80 }
      ∷ record { value = 20; grad = none; main_grad = some 40 }
      ∷ [];
}

abbrev success : Outcome scales tensors divided
success = record { update_successful = true; grad_norm = some 30; num_zeros_in_grad = some 0 }

abbrev stepped : Optimizer scales tensors divided
stepped = record start {
  float16 =
      record { value = 48; grad = none; main_grad = some 80 }
      ∷ record { value = 19; grad = none; main_grad = some 40 }
      ∷ [];
  fp32_from_float16 =
      record { value = 483; grad = some 20; counts = true }
      ∷ record { value = 197; grad = some 10; counts = true }
      ∷ [];
  grad_scaler = some (record scaler { growth_tracker = 1 });
  base = 1;
}

step_ready : step scales tensors divided ready ≡ ok (success, stepped)
unfolding program
step_ready = refl

step-Stepped_example : Stepped scales tensors divided ready success stepped
step-Stepped_example = step-Stepped scales tensors divided ready refl step_ready

abbrev ended : Optimizer scales tensors divided
ended = record stepped {
  grad_scaler = some (record scaler { growth_tracker = 1; hysteresis_tracker = pos 0 });
}

train_steps-InSync_example :
    InSync scales tensors divided ended
    × (ended.grad_scaler
        ≡ Option.map (λ s. updates scales s (map not (false ∷ true ∷ []))) start.grad_scaler)
train_steps-InSync_example =
    train_steps-InSync scales tensors divided (large ∷ small ∷ []) start refl refl run_two
