-- ===== src/Interleaving.antt =====
-- megatron/core/pipeline_parallel/schedules.py: the chunks of the model in
-- `forward_backward_pipelining_with_interleaving`. Iteration `microbatch_id` of the schedule runs
-- one microbatch through one chunk; the helpers say through which, and whether it is the first or
-- the last iteration for it. The schedule itself is not modelled.
pub mod Chunks
pub mod Last
mod Tests
use megatron_lm.Prelude.{ℕ, ◌+◌, ◌-◌, ◌*◌, ◌/◌, ◌%◌, ◌==◌, Bool, true, false, if◌then◌else◌}

module _ (pipeline_parallel_size num_model_chunks : ℕ) where
  abbrev pub microbatch_group_size : ℕ
  microbatch_group_size = pipeline_parallel_size * num_model_chunks

  pub get_model_chunk_id : ℕ → Bool → ℕ
  get_model_chunk_id microbatch_id forward =
      let model_chunk_id = (microbatch_id % microbatch_group_size) / pipeline_parallel_size in
      if forward then model_chunk_id else num_model_chunks - model_chunk_id - 1

  pub is_first_microbatch_for_model_chunk : ℕ → Bool
  is_first_microbatch_for_model_chunk microbatch_id =
      if microbatch_id / microbatch_group_size == 0
      then (microbatch_id % microbatch_group_size) % pipeline_parallel_size == 0
      else false

  -- The group is compared with `num_microbatch_groups - 1`, which may be negative.
  pub is_last_microbatch_for_model_chunk : ℕ → ℕ → Bool
  is_last_microbatch_for_model_chunk total_num_microbatches microbatch_id =
      if microbatch_id / microbatch_group_size + 1 == total_num_microbatches / microbatch_group_size
      then ((microbatch_id % microbatch_group_size) % pipeline_parallel_size + 1)
        == pipeline_parallel_size
      else false
