-- ===== src/ParallelState/Tests.antt =====
-- The groups of a small run, and the theorems at concrete inputs.
use megatron_lm.ParallelState.Stages.{IsSized, init_data_parallel-exact}
use megatron_lm.ParallelState.Striped.{stripe_of}
use megatron_lm.Prelude.{arith, ◌*◌, ◌≡◌, refl, ok, raise, some, none, [], ◌∷◌, runtime_error}
use megatron_lm.Bucket.{contains}
use megatron_lm.ParallelState.{
  Sizes, Globals, join, check_sizes, data_parallel_groups, data_parallel_groups_with_cp,
  context_parallel_groups, tensor_model_parallel_groups, pipeline_model_parallel_groups,
  tensor_and_data_parallel_groups_with_cp, tensor_and_data_parallel_groups,
  tensor_and_expert_parallel_groups, data_modulo_expert_parallel_groups, column, columns,
  embedding_ranks_of, pipeline_loop, init_data_parallel, init_model_parallel,
  init_pipeline_parallel, init_tensor_and_data_parallel, init_expert_parallel, set_sizes,
  initialize_model_parallel, uninitialized,
}

-- The example of the function's comment: 16 ranks, 2 tensor-parallel and 4 pipeline stages.
abbrev sizes : Sizes
sizes = record {
  tensor_model_parallel_size = 2;
  pipeline_model_parallel_size = 4;
  virtual_pipeline_model_parallel_size = none;
  pipeline_model_parallel_split_rank = none;
  context_parallel_size = 1;
  expert_model_parallel_size = 1;
  world_size = 16;
  rank = 5;
}

abbrev initialized : Globals
initialized = record uninitialized {
  data_parallel_group = some (5 ∷ 7 ∷ []);
  data_parallel_group_with_cp = some (5 ∷ 7 ∷ []);
  context_parallel_group = some (5 ∷ []);
  model_parallel_group = some (0 ∷ 1 ∷ 4 ∷ 5 ∷ 8 ∷ 9 ∷ 12 ∷ 13 ∷ []);
  tensor_model_parallel_group = some (4 ∷ 5 ∷ []);
  pipeline_model_parallel_group = some (1 ∷ 5 ∷ 9 ∷ 13 ∷ []);
  embedding_global_ranks = some (1 ∷ 13 ∷ []);
  position_embedding_global_ranks = some (1 ∷ []);
  tensor_and_data_parallel_group = some (4 ∷ 5 ∷ 6 ∷ 7 ∷ []);
  tensor_and_data_parallel_group_with_cp = some (4 ∷ 5 ∷ 6 ∷ 7 ∷ []);
  tensor_and_expert_parallel_group = some (4 ∷ 5 ∷ []);
  data_modulo_expert_parallel_group = some (5 ∷ 7 ∷ []);
}

program : Unit {0}
unfolding contains join check_sizes data_parallel_groups data_parallel_groups_with_cp
    context_parallel_groups tensor_model_parallel_groups pipeline_model_parallel_groups
    tensor_and_data_parallel_groups_with_cp tensor_and_data_parallel_groups
    tensor_and_expert_parallel_groups data_modulo_expert_parallel_groups column columns
    embedding_ranks_of pipeline_loop init_data_parallel init_model_parallel init_pipeline_parallel
    init_tensor_and_data_parallel init_expert_parallel set_sizes initialize_model_parallel
program = tt

initialize-sizes : initialize_model_parallel sizes uninitialized ≡ ok initialized
unfolding program
initialize-sizes = refl

initialize_indivisible :
    initialize_model_parallel (record sizes { world_size = 12 }) uninitialized ≡ raise runtime_error
unfolding program
initialize_indivisible = refl

sizes-IsSized : IsSized sizes
sizes-IsSized = record {
  tp_pos = omega arith;
  pp_pos = omega arith;
  cp_pos = omega arith;
  divides = refl;
  rank_lt = omega arith;
}

init_data_parallel-exact_example :
    (g' : Globals) × (init_data_parallel sizes uninitialized ≡ ok g')
    × (g'.data_parallel_group ≡ some (stripe_of (2 * (1 * 2)) (1 * 2) 5))
    × (g'.data_parallel_group_with_cp ≡ some (stripe_of (2 * 1 * 2) 2 5))
init_data_parallel-exact_example = init_data_parallel-exact sizes sizes-IsSized uninitialized refl

stripe : stripe_of 4 2 5 ≡ 5 ∷ 7 ∷ []
stripe = refl
