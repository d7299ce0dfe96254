-- ===== src/Microbatches/Tests.antt =====
-- Runs of the calculators, and the theorems at concrete inputs.
use megatron_lm.Prelude.{◌≤◌, ◌≡◌, refl, ok, false, arith}
use megatron_lm.Microbatches.{Rampup, ramp_steps, ramp_batch_size, update, init_rampup}
use megatron_lm.Microbatches.Floor.{fractions, fractions-IsRounding}
use megatron_lm.Microbatches.Ramp.{IsValid, update-total, init_rampup-IsValid}

-- From 16 to 64 in steps of 8 over 300 samples, 2 by 4 samples in a step of the run.
abbrev ramp : Rampup fractions
ramp = record {
  micro_batch_times_data_parallel_size = 8;
  start_batch_size = 16;
  global_batch_size = 64;
  batch_size_increment = 8;
  ramup_samples = 300;
  rampup_samples_per_increment = (300, 6);
  num_micro_batches = 2;
  current_global_batch_size = 16;
}

ramp-built : init_rampup fractions 16 8 300 64 2 4 ≡ ok ramp
unfolding init_rampup update ramp_batch_size ramp_steps
ramp-built = refl

ramp-IsValid : IsValid fractions ramp
ramp-IsValid = record {
  step_pos = omega arith;
  start_le = omega arith;
  increments = 6;
  increments_pos = omega arith;
  reached = refl;
  samples_pos = omega arith;
  per_increment = refl;
}

ramp-steps : ramp_batch_size fractions ramp 120 ≡ ok 32
unfolding ramp_batch_size ramp_steps
ramp-steps = refl

update-total_example :
    (c' : Rampup fractions) × (update fractions ramp 120 false ≡ ok c')
    × (16 ≤ c'.current_global_batch_size)
    × (c'.current_global_batch_size ≤ 64)
    × IsValid fractions c'
update-total_example = update-total fractions fractions-IsRounding ramp ramp-IsValid 120

init_rampup-IsValid_example :
    (c : Rampup fractions) × (init_rampup fractions 16 8 300 64 2 4 ≡ ok c) × IsValid fractions c
init_rampup-IsValid_example =
    init_rampup-IsValid fractions fractions-IsRounding 16 8 300 64 2 4 (omega arith) (omega arith)
      (omega arith) refl (omega arith) (omega arith)
