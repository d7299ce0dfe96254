-- ===== src/ParallelState/Lifetime.antt =====
-- The state of the process groups after `initialize_model_parallel`: the queries for the groups, and
-- `destroy_model_parallel`, which keeps the split rank and the ranks of the embedding groups.
use megatron_lm.Prelude.{
  true, ◌>>=◌, ap, false, ℕ, ◌*◌, ◌≡◌, Bool, not, ◌&&◌, Option, none, some, List, Result, ok, raise,
  assertion_error, refl,
}
use megatron_lm.ParallelState.{Sizes, Globals, is_none, init_data_parallel, data_parallel_size}
use megatron_lm.ParallelState.Striped.{stripe_of}
use megatron_lm.ParallelState.Stages.{IsSized, init_data_parallel-exact}

abbrev pub is_unitialized : Globals → Bool
is_unitialized g = is_none g.data_parallel_group

abbrev pub model_parallel_is_initialized : Globals → Bool
model_parallel_is_initialized g =
    not (is_none g.tensor_model_parallel_group)
    && not (is_none g.pipeline_model_parallel_group)
    && not (is_none g.data_parallel_group)

-- `assert GROUP is not None` and `return GROUP`
abbrev pub initialized_group : Option (List ℕ) → Result (List ℕ)
initialized_group none = raise assertion_error
initialized_group (some group) = ok group

abbrev pub get_model_parallel_group : Globals → Result (List ℕ)
get_model_parallel_group g = initialized_group g.model_parallel_group

-- With `check_initialized` off, the group is returned even if it is `None`.
abbrev pub get_tensor_model_parallel_group : Globals → Bool → Result (Option (List ℕ))
get_tensor_model_parallel_group g false = ok g.tensor_model_parallel_group
get_tensor_model_parallel_group g true =
    initialized_group g.tensor_model_parallel_group >>= λ group. ok (some group)

abbrev pub get_pipeline_model_parallel_group : Globals → Result (List ℕ)
get_pipeline_model_parallel_group g = initialized_group g.pipeline_model_parallel_group

abbrev pub destroy_model_parallel : Globals → Globals
destroy_model_parallel g = record g {
  virtual_pipeline_model_parallel_rank = none;
  virtual_pipeline_model_parallel_world_size = none;
  data_parallel_group = none;
  data_parallel_group_with_cp = none;
  context_parallel_group = none;
  model_parallel_group = none;
  tensor_model_parallel_group = none;
  pipeline_model_parallel_group = none;
  embedding_group = none;
  position_embedding_group = none;
  tensor_and_data_parallel_group = none;
  tensor_and_data_parallel_group_with_cp = none;
  tensor_and_expert_parallel_group = none;
  data_modulo_expert_parallel_group = none;
}

-- After `destroy_model_parallel`, whatever the globals were, the section of the data-parallel
-- groups succeeds for sizes that fit the number of ranks: the process counts as initialized, and
-- its data-parallel group is the stripe that the rank is on.
pub initialize_again :
    (s : Sizes)
    → IsSized s
    → (g : Globals)
    → (g' : Globals) × (init_data_parallel s (destroy_model_parallel g) ≡ ok g')
      × (is_unitialized g' ≡ false)
      × (g'.data_parallel_group
          ≡ some (
              stripe_of
                (data_parallel_size s * (s.context_parallel_size * s.tensor_model_parallel_size))
                (s.context_parallel_size * s.tensor_model_parallel_size)
                s.rank))
initialize_again s sized g =
    let (g', e, group, _) = init_data_parallel-exact s sized (destroy_model_parallel g) refl in
    (g', e, ap is_none group, group)
