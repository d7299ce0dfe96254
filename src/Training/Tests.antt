-- ===== src/Training/Tests.antt =====
-- Batches of 8 samples: two micro-batches of 2 samples on each of 2 ranks.
use megatron_lm.Prelude.{
  ◌+◌, ◌<◌, ◌≤◌, ◌==◌, false, some, ok, refl, ◌∷◌, none, Bool, true, [], not, arith, ◌≡◌, ℕ,
}
use megatron_lm.Microbatches.{
  constant, rampup, Rampup, Constant, init_constant, update, update_constant, ramp_batch_size,
  ramp_steps,
}
use megatron_lm.Microbatches.Floor.{fractions}
use megatron_lm.Training.{
  Settings, Events, Run, Checkpoint, iterate, after_step, after_autoresume, after_saving,
  after_duration, train_loop, train, save_checkpoint, is_due, samples_of, get_num_microbatches,
  checkpoint, update_num_microbatches, pretrain, save_last, update_train_iters, ramp_iterations,
  constant_phase, get_current_global_batch_size,
}
use megatron_lm.Training.Counts.{train_constant}
use megatron_lm.Training.Saved.{pretrain-IsSaved, IsSaved}
use megatron_lm.Training.Resumed.{train_resumed, SameEnd, uninterrupted}

abbrev settings : Settings
settings = record {
  train_iters = 3;
  micro_batch_size = 2;
  data_parallel_size = 2;
  skip_train = false;
  do_train = true;
  save = true;
  no_save_optim = false;
  save_interval = 2;
  adlr_autoresume = true;
  adlr_autoresume_interval = 2;
  exit_signal_handler = true;
  exit_duration = false;
  exit_interval = 0;
}

-- The second update is skipped, and a signal arrives in that iteration.
abbrev events : Events
events = record {
  update_successful = λ i. not (i == 2);
  termination_requested = λ i. false;
  signal = λ i. i == 2;
  out_of_time = λ i. false;
}

abbrev calm : Events
calm = record {
  update_successful = λ i. not (i == 2);
  termination_requested = λ i. false;
  signal = λ i. false;
  out_of_time = λ i. false;
}

abbrev batches : Constant
batches = record { num_micro_batches = 2; current_global_batch_size = 8 }

abbrev start : Run fractions
start = record {
  iteration = 0;
  consumed_train_samples = 0;
  num_steps = 0;
  calculator = constant batches;
  saved = [];
}

abbrev after : ℕ → ℕ → ℕ → Checkpoint
after i c n = record { iteration = i; consumed_train_samples = c; num_steps = some n }

abbrev stopped : Run fractions
stopped = record {
  iteration = 2;
  consumed_train_samples = 16;
  num_steps = 8;
  calculator = constant batches;
  saved = after 2 16 8 ∷ [];
}

program : Unit {0}
unfolding pretrain train train_loop iterate update_num_microbatches update_constant samples_of
    get_num_microbatches after_step after_autoresume after_saving after_duration is_due
    save_checkpoint checkpoint save_last
program = tt

-- With `skip_train` nothing is saved.
pretrain-skipped :
    pretrain fractions (record settings { skip_train = true }) events start ≡ ok (start, false)
unfolding program
pretrain-skipped = refl

-- A request to terminate in the second iteration, without the optimizer in the checkpoint.
pretrain-terminated :
    pretrain fractions
      (record settings { no_save_optim = true })
      (record events { termination_requested = λ i. i == 2 })
      start
    ≡ ok (
      record stopped {
        saved = record { iteration = 2; consumed_train_samples = 16; num_steps = none } ∷ [];
      },
      true,
    )
unfolding program
pretrain-terminated = refl

pretrain-stopped : pretrain fractions settings events start ≡ ok (stopped, true)
unfolding program
pretrain-stopped = refl

pretrain-calm :
    pretrain fractions settings calm start
    ≡ ok (
      record {
        iteration = 3;
        consumed_train_samples = 24;
        num_steps = 16;
        calculator = constant batches;
        saved = after 3 24 16 ∷ after 2 16 8 ∷ [];
      },
      false,
    )
unfolding program
pretrain-calm = refl

train-stopped : train fractions settings events start ≡ ok (stopped, true)
unfolding program
train-stopped = refl

-- From 4 to 8 samples in one increment over 16 samples: four batches of 4, then one of 8.
abbrev ramp : Rampup fractions
ramp = record {
  micro_batch_times_data_parallel_size = 4;
  start_batch_size = 4;
  global_batch_size = 8;
  batch_size_increment = 4;
  ramup_samples = 16;
  rampup_samples_per_increment = (16, 1);
  num_micro_batches = 1;
  current_global_batch_size = 4;
}

iters_ramp : update_train_iters fractions 0 40 8 (some 16) (rampup ramp) ≡ some (ok 7)
unfolding update_train_iters ramp_iterations constant_phase update_num_microbatches update
    ramp_batch_size ramp_steps get_current_global_batch_size
iters_ramp = refl

iters_constant : update_train_iters fractions 0 30 8 none (constant batches) ≡ some (ok 3)
unfolding update_train_iters
iters_constant = refl

built : init_constant 8 2 2 ≡ ok batches
unfolding init_constant
built = refl

train_constant_example :
    (t : Run fractions) × (exit : Bool) × (train fractions settings calm start ≡ ok (t, exit))
    × (t.consumed_train_samples ≤ 30)
    × (exit ≡ false → 30 < t.consumed_train_samples + 8)
train_constant_example =
    train_constant fractions settings calm 8 30 batches 3 start built iters_constant refl refl refl
      refl

pretrain-IsSaved_example : IsSaved fractions settings events stopped
pretrain-IsSaved_example =
    pretrain-IsSaved fractions settings events refl start pretrain-stopped refl refl (omega arith)
      (omega arith)

-- After a restart, with a calculator that is built again.
train_resumed_example :
    SameEnd fractions
      (train fractions (uninterrupted settings) events stopped)
      (train fractions (uninterrupted settings) events start)
train_resumed_example =
    train_resumed fractions settings events start stopped stopped train-stopped refl (λ x b. refl)
