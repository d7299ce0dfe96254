-- ===== src/Training.antt =====
-- megatron/training.py and megatron/global_vars.py: the loop of `pretrain` and `train`, with the
-- calculator of micro-batches. `Events` says what the environment does at each iteration: whether
-- the optimizer's update succeeds, whether the autoresume library requests the termination, whether
-- a signal has arrived, and whether the time is up on any rank. An interval that is None is 0, which
-- the code treats alike, except that an autoresume interval of 0 raises ZeroDivisionError, and is
-- here never due. Logging, profiling, the garbage collector and the dataset of the retro models,
-- with the number of iterations that it sets, are left out.
pub mod Counts
pub mod Saved
pub mod Agreement
pub mod Went
pub mod Resumed
mod Tests
use mathlib.Core.Option
use megatron_lm.Prelude.{
  ℕ, zero, suc, ◌+◌, ◌-◌, ◌*◌, ◌/◌, ◌%◌, Bool, true, false, not, ◌&&◌, ltb, leb, ◌==◌,
  if◌then◌else◌, Option, none, some, List, [], ◌∷◌, Result, ok, raise, ◌>>=◌, ◌>>◌, floor_div,
}
use megatron_lm.Microbatches.{
  Floats, Calculator, constant, rampup, update, update_constant, Rampup, Constant,
}

pub record Settings : Type 0 where
  pub train_iters : ℕ
  pub micro_batch_size : ℕ
  pub data_parallel_size : ℕ
  pub skip_train : Bool
  pub do_train : Bool
  pub save : Bool
  pub no_save_optim : Bool
  pub save_interval : ℕ
  pub adlr_autoresume : Bool
  pub adlr_autoresume_interval : ℕ
  pub exit_signal_handler : Bool
  pub exit_duration : Bool
  pub exit_interval : ℕ

-- By the number of iterations that are complete.
pub record Events : Type 0 where
  pub update_successful : ℕ → Bool
  pub termination_requested : ℕ → Bool
  pub signal : ℕ → Bool
  pub out_of_time : ℕ → Bool

-- What `save_checkpoint` writes of the state: the iteration, the consumed samples, and the steps of
-- the scheduler of the learning rate, unless the optimizer is not saved.
pub record Checkpoint : Type 0 where
  pub iteration : ℕ
  pub consumed_train_samples : ℕ
  pub num_steps : Option ℕ

-- `interval and iteration % interval == 0`
pub is_due : ℕ → ℕ → Bool
is_due interval iteration = not (interval == 0) && iteration % interval == 0

module _ (floats : Floats) where
  -- The last checkpoint comes first in `saved`.
  pub record Run : Type 0 where
    pub iteration : ℕ
    pub consumed_train_samples : ℕ
    pub num_steps : ℕ
    pub calculator : Calculator floats
    pub saved : List Checkpoint

  pub get_num_microbatches : Calculator floats → ℕ
  get_num_microbatches (constant c) = c.num_micro_batches
  get_num_microbatches (rampup c) = c.num_micro_batches

  pub get_current_global_batch_size : Calculator floats → ℕ
  get_current_global_batch_size (constant c) = c.current_global_batch_size
  get_current_global_batch_size (rampup c) = c.current_global_batch_size

  pub update_num_microbatches : Calculator floats → ℕ → Bool → Result (Calculator floats)
  update_num_microbatches (constant c) consumed_samples consistency_check =
      update_constant c consumed_samples consistency_check >>= (λ c'. ok (constant c'))
  update_num_microbatches (rampup c) consumed_samples consistency_check =
      update floats c consumed_samples consistency_check >>= (λ c'. ok (rampup c'))

  pub checkpoint : Bool → Run → Checkpoint
  checkpoint no_save_optim r = record {
    iteration = r.iteration;
    consumed_train_samples = r.consumed_train_samples;
    num_steps = (if no_save_optim then none else some r.num_steps);
  }

  module _ (settings : Settings) (events : Events) where
    pub save_checkpoint : Run → Run
    unfolding checkpoint
    save_checkpoint r = record r { saved = checkpoint settings.no_save_optim r ∷ r.saved }

    -- The samples of a step, as `train_step` and `train` count them.
    pub samples_of : Calculator floats → ℕ
    unfolding get_num_microbatches
    samples_of c = settings.data_parallel_size * settings.micro_batch_size * get_num_microbatches c

    -- One iteration up to the logging: `train_step` moves the scheduler if the update succeeds.
    pub iterate : Run → Result Run
    unfolding samples_of update_num_microbatches
    iterate r = do
      c ← update_num_microbatches r.calculator r.consumed_train_samples true
      let iteration = r.iteration + 1
      ok (record r {
        iteration = iteration;
        consumed_train_samples = r.consumed_train_samples + samples_of c;
        num_steps =
            (if events.update_successful iteration
              then r.num_steps + samples_of c
              else r.num_steps);
        calculator = c;
      })

    -- The rest of the iteration: the state, and whether the loop is left by `break`.
    pub after_duration : Bool → Run → Run × Bool
    unfolding is_due save_checkpoint
    after_duration saved_checkpoint r =
        if is_due settings.exit_interval r.iteration
        then (if settings.save && not saved_checkpoint then save_checkpoint r else r, true)
        else (r, false)

    pub after_saving : Bool → Run → Run × Bool
    unfolding after_duration save_checkpoint
    after_saving saved_checkpoint r =
        if settings.exit_duration && events.out_of_time r.iteration
        then (if saved_checkpoint then r else save_checkpoint r, true)
        else after_duration saved_checkpoint r

    pub after_autoresume : Run → Run × Bool
    unfolding after_saving is_due save_checkpoint
    after_autoresume r =
        if settings.exit_signal_handler && events.signal r.iteration
        then (save_checkpoint r, true)
        else (if settings.save && is_due settings.save_interval r.iteration
            then after_saving true (save_checkpoint r)
            else after_saving false r)

    -- `check_adlr_autoresume_termination` ends the process, as the other ways out do.
    pub after_step : Run → Run × Bool
    unfolding after_autoresume is_due save_checkpoint
    after_step r =
        if settings.adlr_autoresume
          && is_due settings.adlr_autoresume_interval r.iteration
          && events.termination_requested r.iteration
        then (if settings.save then save_checkpoint r else r, true)
        else after_autoresume r

    -- `while iteration < args.train_iters`, by the iterations that are left.
    pub train_loop : ℕ → Run → Result (Run × Bool)
    unfolding iterate after_step
    train_loop zero r = ok (r, false)
    train_loop (suc rounds) r = iterate r >>= (λ stepped. elim (after_step stepped).1 [
      | true ↦ ok ((after_step stepped).0, true)
      | false ↦ train_loop rounds (after_step stepped).0
    ])

    pub train : Run → Result (Run × Bool)
    unfolding train_loop
    train r = train_loop (settings.train_iters - r.iteration) r

    -- The end of `pretrain`; an early exit ends the process in `train`.
    pub save_last : Run × Bool → Run × Bool
    unfolding save_checkpoint
    save_last (r, true) = (r, true)
    save_last (r, false) =
        if settings.save && not (r.iteration == 0) then (save_checkpoint r, false) else (r, false)

    -- With `skip_train` nothing is trained or saved; without `do_train` or without iterations,
    -- `pretrain` takes 0 for the iteration, and saves nothing either.
    pub pretrain : Run → Result (Run × Bool)
    unfolding train save_last
    pretrain r =
        if not settings.skip_train && settings.do_train && ltb 0 settings.train_iters
        then train r >>= (λ end. ok (save_last end))
        else ok (r, false)

  -- The ramp-up loop of `update_train_iters`: the consumed samples and the iterations. It has fuel.
  pub ramp_iterations : ℕ → ℕ → Calculator floats → ℕ → ℕ → Option (Result (ℕ × ℕ))
  unfolding update_num_microbatches get_current_global_batch_size
  ramp_iterations zero ramp c consumed iterations = none
  ramp_iterations (suc fuel) ramp c consumed iterations = elim (leb consumed ramp) [
    | true ↦ elim (update_num_microbatches c consumed false) [
      | raise e ↦ some (raise e)
      | ok c' ↦
          ramp_iterations fuel ramp c' (consumed + get_current_global_batch_size c')
            (iterations + 1)
    ]
    | false ↦ some (ok (consumed, iterations))
  ]

  -- `iterations + (train_samples - consumed_samples) // global_batch_size`. A quotient below zero
  -- is rounded down, and a sum below zero is 0 here: no iteration is run for either.
  pub constant_phase : ℕ → ℕ → ℕ × ℕ → Result ℕ
  constant_phase train_samples global_batch_size (consumed, iterations) =
      if leb consumed train_samples
      then floor_div (train_samples - consumed) global_batch_size >>= (λ n. ok (iterations + n))
      else (floor_div (consumed - train_samples + (global_batch_size - 1)) global_batch_size
          >>= (λ n. ok (iterations - n)))

  -- `args.train_iters` afterwards, for the `rampup_batch_size[2]` given, if any.
  pub update_train_iters : ℕ → ℕ → ℕ → Option ℕ → Calculator floats → Option (Result ℕ)
  unfolding ramp_iterations constant_phase
  update_train_iters (suc iters) train_samples global_batch_size ramp c = some (ok (suc iters))
  update_train_iters zero train_samples global_batch_size none c =
      some (floor_div train_samples global_batch_size)
  update_train_iters zero train_samples global_batch_size (some ramp) c =
      Option.map (λ r. r >>= constant_phase train_samples global_batch_size)
        (ramp_iterations (ramp + 1) ramp c 0 0)
