-- ===== src/ParallelState.antt =====
-- megatron/core/parallel_state.py: `initialize_model_parallel`. A process group is the list of its
-- ranks, so a group and the variable of its global ranks are one; the loops give the groups in the
-- order in which `torch.distributed.new_group` is called. The backends and options of the groups,
-- the barrier for SHARP and the memory buffer are left out.
pub mod Striped
pub mod Joined
pub mod Stages
pub mod Lifetime
mod Tests
use megatron_lm.Prelude.{
  ◌>>=◌, assert, floor_div, length, ◌-◌, if◌then◌else◌, ℕ, zero, suc, ◌+◌, ◌*◌, ◌/◌, ◌%◌, Bool,
  true, false, not, ◌&&◌, ltb, ◌==◌, Option, none, some, List, [], ◌∷◌, ◌++◌, map, get_elem?,
  range_from, Result, ok, raise, runtime_error, assertion_error, ◌>>◌, raise_if, index_error,
  modulo,
}
use megatron_lm.Bucket.{contains, index}

abbrev pub strided : ℕ → ℕ → ℕ → List ℕ
strided start step zero = []
strided start step (suc n) = start ∷ strided (start + step) step n

-- `range(start, end, step)`, for a positive step
abbrev pub range_step : ℕ → ℕ → ℕ → List ℕ
range_step start end step = strided start step ((end - start + (step - 1)) / step)

-- The groups of `for i in range(n): ...`, in order, from round `i` on.
abbrev pub rounds {ℓ} : {A : Type ℓ} → ℕ → ℕ → (ℕ → List A) → List A
rounds i zero f = []
rounds i (suc n) f = f i ++ rounds (i + 1) n f

abbrev pub each {ℓ} : {A : Type ℓ} → ℕ → (ℕ → List A) → List A
each n f = rounds 0 n f

-- `if rank in ranks: GROUP = ...` in a loop
pub join : ℕ → List (List ℕ) → Option (List ℕ) → Option (List ℕ)
join rank [] group = group
join rank (ranks ∷ others) group =
    join rank others (if contains rank ranks then some ranks else group)

pub record Sizes : Type 0 where
  pub tensor_model_parallel_size : ℕ
  pub pipeline_model_parallel_size : ℕ
  pub virtual_pipeline_model_parallel_size : Option ℕ
  pub pipeline_model_parallel_split_rank : Option ℕ
  pub context_parallel_size : ℕ
  pub expert_model_parallel_size : ℕ
  -- What `torch.distributed` says.
  pub world_size : ℕ
  pub rank : ℕ

-- The global variables.
pub record Globals : Type 0 where
  pub virtual_pipeline_model_parallel_rank : Option ℕ
  pub virtual_pipeline_model_parallel_world_size : Option ℕ
  pub pipeline_model_parallel_split_rank : Option ℕ
  pub data_parallel_group : Option (List ℕ)
  pub data_parallel_group_with_cp : Option (List ℕ)
  pub context_parallel_group : Option (List ℕ)
  pub model_parallel_group : Option (List ℕ)
  pub tensor_model_parallel_group : Option (List ℕ)
  pub pipeline_model_parallel_group : Option (List ℕ)
  pub embedding_group : Option (List ℕ)
  pub embedding_global_ranks : Option (List ℕ)
  pub position_embedding_group : Option (List ℕ)
  pub position_embedding_global_ranks : Option (List ℕ)
  pub tensor_and_data_parallel_group : Option (List ℕ)
  pub tensor_and_data_parallel_group_with_cp : Option (List ℕ)
  pub tensor_and_expert_parallel_group : Option (List ℕ)
  pub data_modulo_expert_parallel_group : Option (List ℕ)

abbrev pub is_none {ℓ} : {A : Type ℓ} → Option A → Bool
is_none none = true
is_none (some _) = false

module _ (s : Sizes) where
  abbrev tp : ℕ
  tp = s.tensor_model_parallel_size

  abbrev pp : ℕ
  pp = s.pipeline_model_parallel_size

  abbrev cp : ℕ
  cp = s.context_parallel_size

  abbrev pub data_parallel_size : ℕ
  data_parallel_size = s.world_size / (tp * pp * cp)

  abbrev pub num_pipeline_model_parallel_groups : ℕ
  num_pipeline_model_parallel_groups = s.world_size / pp

  abbrev pub num_tensor_model_parallel_groups : ℕ
  num_tensor_model_parallel_groups = s.world_size / tp

  abbrev pub tensor_and_expert_group_size : ℕ
  tensor_and_expert_group_size = tp * s.expert_model_parallel_size

  -- The checks on the sizes.
  pub check_sizes : Result (Unit {0})
  check_sizes = do
    rest ← modulo s.world_size (tp * pp * cp)
    raise_if (not (rest == 0)) runtime_error
    rest_expert ← modulo data_parallel_size s.expert_model_parallel_size
    raise_if (not (rest_expert == 0)) runtime_error
    raise_if (ltb 1 s.expert_model_parallel_size && ltb 1 cp) runtime_error
    raise_if (not (is_none s.virtual_pipeline_model_parallel_size) && not (ltb 2 pp)) runtime_error

  pub data_parallel_groups : List (List ℕ)
  data_parallel_groups = each pp λ i.
      let start_rank = i * num_pipeline_model_parallel_groups in
      let end_rank = (i + 1) * num_pipeline_model_parallel_groups in
      map (λ j. range_step (start_rank + j) end_rank (cp * tp)) (range_from 0 (cp * tp))

  pub data_parallel_groups_with_cp : List (List ℕ)
  data_parallel_groups_with_cp = each pp λ i.
      let start_rank = i * num_pipeline_model_parallel_groups in
      let end_rank = (i + 1) * num_pipeline_model_parallel_groups in
      map (λ j. range_step (start_rank + j) end_rank tp) (range_from 0 tp)

  pub context_parallel_groups : List (List ℕ)
  context_parallel_groups = each pp λ i. each data_parallel_size λ j.
      let start_rank = i * num_pipeline_model_parallel_groups + j * tp * cp in
      let end_rank = i * num_pipeline_model_parallel_groups + (j + 1) * tp * cp in
      map (λ k. range_step (start_rank + k) end_rank tp) (range_from 0 tp)

  pub tensor_model_parallel_groups : List (List ℕ)
  tensor_model_parallel_groups =
      map (λ i. range_step (i * tp) ((i + 1) * tp) 1)
        (range_from 0 num_tensor_model_parallel_groups)

  pub pipeline_model_parallel_groups : List (List ℕ)
  pipeline_model_parallel_groups =
      map (λ i. range_step i s.world_size num_pipeline_model_parallel_groups)
        (range_from 0 num_pipeline_model_parallel_groups)

  pub tensor_and_data_parallel_groups_with_cp : ℕ → List (List ℕ)
  tensor_and_data_parallel_groups_with_cp n =
      let size = tp * data_parallel_size * cp in
      map (λ i. range_step (i * size) (i * size + size) 1) (range_from 0 n)

  pub tensor_and_data_parallel_groups : ℕ → List (List ℕ)
  tensor_and_data_parallel_groups n = each n λ i.
      map
        (λ j. each data_parallel_size λ k.
          let start_rank = i * (tp * data_parallel_size * cp) + j * tp + k * tp * cp in
          range_step start_rank (start_rank + tp) 1)
        (range_from 0 cp)

  pub tensor_and_expert_parallel_groups : ℕ → ℕ → List (List ℕ)
  tensor_and_expert_parallel_groups n num_expert_groups = each n λ i.
      map
        (λ j.
          let base = i * (tp * data_parallel_size) in
          range_step (base + j * tensor_and_expert_group_size)
            (base + (j + 1) * tensor_and_expert_group_size) 1)
        (range_from 0 num_expert_groups)

  pub data_modulo_expert_parallel_groups : ℕ → List (List ℕ)
  data_modulo_expert_parallel_groups n = each n λ i.
      let start_rank = i * (tp * data_parallel_size) in
      let end_rank = (i + 1) * (tp * data_parallel_size) in
      map (λ j. range_step (start_rank + j) end_rank tensor_and_expert_group_size)
        (range_from 0 tensor_and_expert_group_size)

-- `[group[i] for group in groups]`
pub column : ℕ → List (List ℕ) → Result (List ℕ)
column i [] = ok []
column i (group ∷ groups) = do first ← index group i; others ← column i groups; ok (first ∷ others)

-- The model-parallel groups from round `i` on, `n` of them.
pub columns : ℕ → ℕ → List (List ℕ) → Result (List (List ℕ))
columns i zero groups = ok []
columns i (suc n) groups = do
  first ← column i groups
  others ← columns (i + 1) n groups
  ok (first ∷ others)

-- `embedding_ranks` and `position_embedding_ranks` of a pipeline group
pub embedding_ranks_of : Option ℕ → List ℕ → Result (List ℕ × List ℕ)
embedding_ranks_of split_rank ranks =
    if ltb 1 (length ranks)
    then (do
      first ← index ranks 0
      last ← index ranks (length ranks - 1)
      elim split_rank [
        | none ↦ ok (first ∷ last ∷ [], first ∷ [])
        | some k ↦ index ranks k >>= λ middle. ok (
          (if contains middle (first ∷ last ∷ [])
              then first ∷ last ∷ []
              else first ∷ middle ∷ last ∷ []),
          (if contains middle (first ∷ []) then first ∷ [] else first ∷ middle ∷ []),
        )
      ])
    else ok (ranks, ranks)

abbrev pub join_one : ℕ → List ℕ → List ℕ → Option (List ℕ) → Option (List ℕ)
join_one rank members value old = if contains rank members then some value else old

-- The loop that builds the pipeline, embedding and position embedding groups.
pub pipeline_loop : Option ℕ → ℕ → List (List ℕ) → Globals → Result Globals
pipeline_loop split_rank rank [] g = ok g
pipeline_loop split_rank rank (ranks ∷ others) g = do
  both ← embedding_ranks_of split_rank ranks
  pipeline_loop split_rank rank others (record g {
    pipeline_model_parallel_group = join_one rank ranks ranks g.pipeline_model_parallel_group;
    embedding_group = join_one rank both.0 both.0 g.embedding_group;
    embedding_global_ranks = join_one rank ranks both.0 g.embedding_global_ranks;
    position_embedding_group = join_one rank both.1 both.1 g.position_embedding_group;
    position_embedding_global_ranks = join_one rank ranks both.1 g.position_embedding_global_ranks;
  })

abbrev pub set_virtual : Option ℕ → Globals → Globals
set_virtual none g = g
set_virtual (some v) g = record g {
  virtual_pipeline_model_parallel_rank = some 0;
  virtual_pipeline_model_parallel_world_size = some v;
}

abbrev pub set_split_rank : Option ℕ → Globals → Globals
set_split_rank none g = g
set_split_rank (some k) g = record g { pipeline_model_parallel_split_rank = some k }

module _ (s : Sizes) where
  pub init_data_parallel : Globals → Result Globals
  init_data_parallel g = do
    assert (is_none g.data_parallel_group)
    ok (record g {
      data_parallel_group = join s.rank (data_parallel_groups s) g.data_parallel_group;
      data_parallel_group_with_cp =
          join s.rank (data_parallel_groups_with_cp s) g.data_parallel_group_with_cp;
    })

  pub init_model_parallel : Globals → Result Globals
  init_model_parallel g = do
    assert (is_none g.context_parallel_group)
    assert (is_none g.model_parallel_group)
    groups ← columns 0 (data_parallel_size s * cp s) (data_parallel_groups_with_cp s)
    assert (is_none g.tensor_model_parallel_group)
    ok (record g {
      context_parallel_group = join s.rank (context_parallel_groups s) g.context_parallel_group;
      model_parallel_group = join s.rank groups g.model_parallel_group;
      tensor_model_parallel_group =
          join s.rank (tensor_model_parallel_groups s) g.tensor_model_parallel_group;
    })

  pub init_pipeline_parallel : Globals → Result Globals
  init_pipeline_parallel g = do
    assert (is_none g.pipeline_model_parallel_group)
    assert (is_none g.embedding_group)
    assert (is_none g.position_embedding_group)
    pipeline_loop s.pipeline_model_parallel_split_rank s.rank (pipeline_model_parallel_groups s) g

  pub init_tensor_and_data_parallel : Globals → Result Globals
  init_tensor_and_data_parallel g = do
    assert (is_none g.tensor_and_data_parallel_group)
    n ← floor_div s.world_size (tp s * data_parallel_size s * cp s)
    ok (record g {
      tensor_and_data_parallel_group_with_cp =
          join s.rank (tensor_and_data_parallel_groups_with_cp s n)
            g.tensor_and_data_parallel_group_with_cp;
      tensor_and_data_parallel_group =
          join s.rank (tensor_and_data_parallel_groups s n) g.tensor_and_data_parallel_group;
    })

  pub init_expert_parallel : Globals → Result Globals
  init_expert_parallel g = do
    assert (is_none g.tensor_and_expert_parallel_group)
    assert (is_none g.data_modulo_expert_parallel_group)
    n ← floor_div s.world_size (tp s * data_parallel_size s)
    num_expert_groups ← floor_div (data_parallel_size s) s.expert_model_parallel_size
    ok (record g {
      tensor_and_expert_parallel_group =
          join s.rank (tensor_and_expert_parallel_groups s n num_expert_groups)
            g.tensor_and_expert_parallel_group;
      data_modulo_expert_parallel_group =
          join s.rank (data_modulo_expert_parallel_groups s n) g.data_modulo_expert_parallel_group;
    })

  -- The sizes that are kept in global variables.
  pub set_sizes : Globals → Globals
  set_sizes g =
      set_split_rank s.pipeline_model_parallel_split_rank
        (set_virtual s.virtual_pipeline_model_parallel_size g)

  pub initialize_model_parallel : Globals → Result Globals
  initialize_model_parallel g = do
    check_sizes s
    with_data ← init_data_parallel (set_sizes g)
    with_model ← init_model_parallel with_data
    with_pipeline ← init_pipeline_parallel with_model
    with_tensor_data ← init_tensor_and_data_parallel with_pipeline
    init_expert_parallel with_tensor_data

abbrev pub uninitialized : Globals
uninitialized = record {
  virtual_pipeline_model_parallel_rank = none;
  virtual_pipeline_model_parallel_world_size = none;
  pipeline_model_parallel_split_rank = none;
  data_parallel_group = none;
  data_parallel_group_with_cp = none;
  context_parallel_group = none;
  model_parallel_group = none;
  tensor_model_parallel_group = none;
  pipeline_model_parallel_group = none;
  embedding_group = none;
  embedding_global_ranks = none;
  position_embedding_group = none;
  position_embedding_global_ranks = none;
  tensor_and_data_parallel_group = none;
  tensor_and_data_parallel_group_with_cp = none;
  tensor_and_expert_parallel_group = none;
  data_modulo_expert_parallel_group = none;
}
