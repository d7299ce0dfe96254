-- ===== src/Microbatches.antt =====
-- megatron/microbatches.py: the calculators of the number of micro-batches. Sizes and sample counts
-- are naturals. An exception ends the run, so the object after one is not modelled.
mod Arithmetic
pub mod Floor
pub mod Ramp
mod Tests
use Prim.Native.String.{String}
use megatron_lm.Prelude.{
  ℕ, ◌+◌, ◌-◌, ◌*◌, ◌/◌, ◌%◌, Bool, true, false, not, ◌&&◌, ltb, leb, ◌==◌, if◌then◌else◌, Option,
  none, some, List, [], ◌∷◌, Result, ok, raise, assertion_error, zero_division_error, ◌>>=◌, ◌>>◌,
  assert, floor_div, modulo,
}
pub use Arithmetic.{Floats, IsRounding}

-- `ConstantNumMicroBatches`
pub record Constant : Type 0 where
  pub num_micro_batches : ℕ
  pub current_global_batch_size : ℕ

unfoldable pub init_constant : ℕ → ℕ → ℕ → Result Constant
init_constant global_batch_size micro_batch_size data_parallel_size = do
  let micro_batch_times_data_parallel = micro_batch_size * data_parallel_size
  rest ← modulo global_batch_size micro_batch_times_data_parallel
  assert (rest == 0)
  num ← floor_div global_batch_size micro_batch_times_data_parallel
  assert (leb 1 num)
  ok (record { num_micro_batches = num; current_global_batch_size = global_batch_size })

-- Its `update` is `pass`.
unfoldable pub update_constant : Constant → ℕ → Bool → Result Constant
update_constant c consumed_samples consistency_check = ok c

module _ (floats : Floats) where
  open floats use {F, div_int, div_float, is_zero, trunc}

  -- `RampupBatchsizeNumMicroBatches`
  pub record Rampup : Type 0 where
    pub micro_batch_times_data_parallel_size : ℕ
    pub start_batch_size : ℕ
    pub global_batch_size : ℕ
    pub batch_size_increment : ℕ
    pub ramup_samples : ℕ
    pub rampup_samples_per_increment : F
    pub num_micro_batches : ℕ
    pub current_global_batch_size : ℕ

  -- `int(consumed_samples / self.rampup_samples_per_increment)`; dividing by 0.0 raises.
  unfoldable pub ramp_steps : ℕ → F → Result ℕ
  ramp_steps consumed per =
      if is_zero per then raise zero_division_error else ok (trunc (div_float consumed per))

  -- The batch size that `update` assigns first.
  unfoldable pub ramp_batch_size : Rampup → ℕ → Result ℕ
  ramp_batch_size c consumed_samples =
      if ltb c.ramup_samples consumed_samples then ok c.global_batch_size else (do
        steps ← ramp_steps consumed_samples c.rampup_samples_per_increment
        let current = c.start_batch_size + steps * c.batch_size_increment
        assert (leb current c.global_batch_size)
        ok current)

  unfoldable pub update : Rampup → ℕ → Bool → Result Rampup
  update c consumed_samples consistency_check = do
    current ← ramp_batch_size c consumed_samples
    assert (not (consistency_check && not (current % c.micro_batch_times_data_parallel_size == 0)))
    ok (record c {
      current_global_batch_size = current;
      num_micro_batches = current / c.micro_batch_times_data_parallel_size;
    })

  pub init_rampup : ℕ → ℕ → ℕ → ℕ → ℕ → ℕ → Result Rampup
  init_rampup start increment ramup_samples global_batch_size micro_batch_size dp_size = do
    assert (ltb 0 (micro_batch_size * dp_size))
    assert (ltb 0 start)
    assert (ltb 0 global_batch_size)
    assert (leb start global_batch_size)
    assert (ltb 0 increment)
    assert ((global_batch_size - start) % increment == 0)
    let num_increments = (global_batch_size - start) / increment
    per ←
        (if num_increments == 0
          then raise zero_division_error
          else ok (div_int ramup_samples num_increments))
    update
        (record {
          micro_batch_times_data_parallel_size = micro_batch_size * dp_size;
          start_batch_size = start;
          global_batch_size = global_batch_size;
          batch_size_increment = increment;
          ramup_samples = ramup_samples;
          rampup_samples_per_increment = per;
          num_micro_batches = 0;
          current_global_batch_size = 0;
        })
        0 false

  -- The two concrete classes of `NumMicroBatchesCalculator`.
  pub data Calculator : Type 0 where
    constant : Constant → Calculator
    rampup : Rampup → Calculator

  -- The fields of `args` that the builder reads; `rampup_batch_size` holds the words of the option.
  pub record Args : Type 0 where
    pub rampup_batch_size : Option (List String)
    pub global_batch_size : ℕ
    pub micro_batch_size : ℕ
    pub data_parallel_size : ℕ

  -- `int` is Python's conversion of a word.
  module _ (int : String → Result ℕ) where
    pub build_rampup : Args → List String → Result Calculator
    build_rampup args (a ∷ b ∷ c ∷ []) = do
      start ← int a
      increment ← int b
      ramup ← int c
      r ←
          init_rampup start increment ramup args.global_batch_size args.micro_batch_size
            args.data_parallel_size
      ok (rampup r)
    build_rampup args _ = raise assertion_error

    pub build_num_microbatches_calculator : Args → Result Calculator
    build_num_microbatches_calculator args = elim args.rampup_batch_size [
      | none ↦
          init_constant args.global_batch_size args.micro_batch_size args.data_parallel_size
          >>= λ c. ok (constant c)
      | some words ↦ build_rampup args words
    ]
