-- ===== src/ParamScheduler/Tests.antt =====
-- Runs of the scheduler, and the theorems at concrete inputs.
use Prim.Native.Nat.{◌+◌, ◌-◌, ◌*◌, ◌/◌, ℕ}
use native.Mathlib.Nat.{div-le_of_le-mul}
use megatron_lm.Prelude.{
  true, false, none, some, [], ◌∷◌, ok, raise, exception, assertion_error, if◌then◌else◌, ltb, leb,
  ◌==◌, refl, ◌≡◌, ◌>>=◌, arith, eq→==, le→leb,
}
use megatron_lm.ParamScheduler.{
  Arithmetic, constant, linear, other, OptimizerParamScheduler, get_lr, get_wd, set_group, step,
  init_scheduler, state_dict, load_lr, load_wd, load_state_dict, first_of, entry, check_and_set,
  same_style, warmup_lr, inverse_root_lr, decaying_lr, increasing_wd, ratio_of, in_unit, lr_coeff,
  wd_coeff, half_cosine, multiplier,
}
use megatron_lm.ParamScheduler.Steps.{mults, steps, forget}
use megatron_lm.ParamScheduler.Loaded.{load_state_dict-state_dict, resumed_by_checkpoint}
use megatron_lm.ParamScheduler.Total.{IsUnit, IsLrStyle, IsWdStyle, total, steps-total}

-- Numbers of hundredths, with a cosine of one step; the root is linear.
abbrev hundredths : Arithmetic
hundredths = record {
  F = ℕ;
  of_int = λ n. n * 100;
  half = 50;
  add = ◌+◌;
  sub = ◌-◌;
  mul = λ a b. a * b / 100;
  div = λ a b. a * 100 / b;
  lt = ltb;
  le = leb;
  same = λ a b. a == b;
  root = λ n. n * 100;
  pi = 314;
  cos = λ x. if leb x 157 then 100 else 0;
}

-- From 0 to 10.00 in 4 steps, and down to 2.00 at 12 steps; the weight decay grows to 1.00.
abbrev args : OptimizerParamScheduler hundredths
args = record {
  param_groups =
      record { lr = 0; weight_decay = 0; lr_mult = none; wd_mult = some 0 }
      ∷ record { lr = 0; weight_decay = 0; lr_mult = some 200; wd_mult = none }
      ∷ [];
  init_lr = 0;
  max_lr = 1000;
  min_lr = 200;
  lr_warmup_steps = 4;
  num_steps = 0;
  lr_decay_steps = 12;
  lr_decay_style = linear;
  start_wd = 0;
  end_wd = 100;
  wd_incr_steps = 10;
  wd_incr_style = linear;
  override_opt_param_scheduler = false;
  use_checkpoint_opt_param_scheduler = false;
}

-- After eight steps: the rate is 6.00 and the weight decay 0.80.
abbrev at_eight : OptimizerParamScheduler hundredths
at_eight = record args {
  num_steps = 8;
  param_groups =
      record { lr = 600; weight_decay = 0; lr_mult = none; wd_mult = some 0 }
      ∷ record { lr = 1200; weight_decay = 80; lr_mult = some 200; wd_mult = none }
      ∷ [];
}

program : Unit {0}
unfolding get_lr get_wd set_group step init_scheduler state_dict load_lr load_wd load_state_dict
    first_of entry check_and_set same_style warmup_lr inverse_root_lr decaying_lr increasing_wd
    ratio_of in_unit lr_coeff wd_coeff half_cosine multiplier steps forget total
program = tt

init-args : init_scheduler hundredths args ≡ ok args
unfolding program
init-args = refl

steps-args : steps hundredths (2 ∷ 6 ∷ []) args ≡ ok at_eight
unfolding program
steps-args = refl

step-unknown : step hundredths 8 (record args { lr_decay_style = other 0 }) ≡ raise exception
unfolding program
step-unknown = refl

-- Without `use_checkpoint_opt_param_scheduler`, the values have to be the same.
load-other :
    load_state_dict hundredths (record args { max_lr = 900 }) (state_dict hundredths at_eight)
    ≡ raise assertion_error
unfolding program
load-other = refl

load_state_dict-state_dict_example :
    load_state_dict hundredths args (state_dict hundredths at_eight) ≡ ok at_eight
load_state_dict-state_dict_example =
    load_state_dict-state_dict hundredths (λ x. eq→== x x refl) args args at_eight (2 ∷ 6 ∷ [])
      init-args steps-args

-- A scheduler with a constant weight decay of 0.50, which takes its values from the checkpoint.
abbrev restarted : OptimizerParamScheduler hundredths
restarted = record args {
  max_lr = 900;
  start_wd = 50;
  end_wd = 50;
  wd_incr_style = constant;
  use_checkpoint_opt_param_scheduler = true;
}

-- The groups have the weight decay of the old values until the next step.
abbrev loaded : OptimizerParamScheduler hundredths
loaded = record at_eight {
  param_groups =
      record { lr = 600; weight_decay = 0; lr_mult = none; wd_mult = some 0 }
      ∷ record { lr = 1200; weight_decay = 50; lr_mult = some 200; wd_mult = none }
      ∷ [];
  use_checkpoint_opt_param_scheduler = true;
}

load-restarted : load_state_dict hundredths restarted (state_dict hundredths at_eight) ≡ ok loaded
unfolding program
load-restarted = refl

resumed_by_checkpoint_example :
    (steps hundredths (1 ∷ 1 ∷ []) loaded >>= (λ v. ok (forget hundredths v)))
    ≡ (steps hundredths (1 ∷ 1 ∷ []) at_eight >>= (λ v. ok (forget hundredths v)))
unfolding mults
resumed_by_checkpoint_example =
    resumed_by_checkpoint hundredths at_eight restarted loaded 1 (1 ∷ []) refl refl refl refl refl
      load-restarted

hundredths-IsUnit : IsUnit hundredths
unfolding IsUnit
hundredths-IsUnit n d below positive = (
  le→leb 0 (n * 100 * 100 / (d * 100)) (omega arith),
  le→leb (n * 100 * 100 / (d * 100)) 100 (div-le_of_le-mul (d * 100) (omega (arith, below))),
)

steps-total_example :
    (t : OptimizerParamScheduler hundredths) × (steps hundredths (5 ∷ 20 ∷ []) args ≡ ok t)
    × (t.num_steps ≡ 0 + total (5 ∷ 20 ∷ []))
unfolding IsLrStyle IsWdStyle
steps-total_example =
    steps-total hundredths hundredths-IsUnit (5 ∷ 20 ∷ []) args
      (record { lr_style = tt; wd_style = omega arith; warmup = omega arith })
