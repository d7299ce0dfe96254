-- ===== src/Layers.antt =====
-- megatron/model/transformer.py, megatron/core/transformer/transformer_block.py and
-- megatron/core/transformer/transformer_layer.py: which transformer layers a pipeline stage builds,
-- and how the layers are run with activation checkpointing. A layer is a function on the hidden
-- states. Differences of ranks are those of the source where 0 < split rank < pipeline size.
pub mod Numbers
pub mod Stages
pub mod Legacy
pub mod Checkpointed
mod Tests
use megatron_lm.Prelude.{
  not, assertion_error, ℕ, zero, suc, ◌+◌, ◌-◌, ◌*◌, ◌/◌, ◌%◌, Bool, true, false, ◌&&◌, ltb, ◌==◌,
  if◌then◌else◌, Option, none, some, List, [], ◌∷◌, map, length, get_elem?, range_from, Result, ok,
  raise, value_error, index_error, ◌>>=◌, ◌>>◌, assert, floor_div, modulo,
}

pub data ModelType : Type 0 where
  encoder_or_decoder encoder_and_decoder retro_encoder retro_decoder : ModelType

pub is_encoder_and_decoder : ModelType → Bool
is_encoder_and_decoder encoder_and_decoder = true
is_encoder_and_decoder _ = false

pub is_retro_encoder : ModelType → Bool
is_retro_encoder retro_encoder = true
is_retro_encoder _ = false

-- The arguments that are read. `config.num_layers` is `args.num_layers`.
pub record Args : Type 0 where
  pub num_layers : ℕ
  pub encoder_num_layers : ℕ
  pub decoder_num_layers : ℕ
  pub retro_encoder_layers : ℕ
  pub standalone_embedding_stage : Bool
  pub pipeline_model_parallel_split_rank : Option ℕ
  pub transformer_pipeline_model_parallel_size : ℕ
  pub virtual_pipeline_model_parallel_size : Option ℕ

-- What `mpu` says on this rank.
pub record Place : Type 0 where
  pub pipeline_size : ℕ
  pub pipeline_rank : ℕ
  pub virtual_rank : ℕ

pub is_pipeline_stage_before_split : Place → Option ℕ → Bool
is_pipeline_stage_before_split here none = true
is_pipeline_stage_before_split here (some split) =
    if here.pipeline_size == 1 then true else ltb here.pipeline_rank split

-- `0 if args.standalone_embedding_stage and pipeline_rank == 0 else share`
pub unless_embedding_stage : Args → Place → ℕ → ℕ
unless_embedding_stage args here share =
    if args.standalone_embedding_stage && here.pipeline_rank == 0 then 0 else share

-- `_get_num_layers` of a model that has an encoder and a decoder, on several stages.
pub split_num_layers : Args → Place → Option ℕ → Result ℕ
split_num_layers args here none = raise assertion_error
split_num_layers args here (some split) = do
  let num_ranks_in_encoder = (if args.standalone_embedding_stage then split - 1 else split)
  let num_ranks_in_decoder = args.transformer_pipeline_model_parallel_size - num_ranks_in_encoder
  rest ← modulo args.encoder_num_layers num_ranks_in_encoder
  assert (rest == 0)
  rest' ← modulo args.decoder_num_layers num_ranks_in_decoder
  assert (rest' == 0)
  if is_pipeline_stage_before_split here (some split)
      then ok (unless_embedding_stage args here (args.encoder_num_layers / num_ranks_in_encoder))
      else ok (args.decoder_num_layers / num_ranks_in_decoder)

-- The same of any other model.
pub even_num_layers : Args → Place → Result ℕ
even_num_layers args here = do
  assert (args.num_layers == args.encoder_num_layers)
  rest ← modulo args.num_layers args.transformer_pipeline_model_parallel_size
  assert (rest == 0)
  ok (
      unless_embedding_stage args here
        (args.num_layers / args.transformer_pipeline_model_parallel_size))

pub get_num_layers : Args → Place → ModelType → Bool → Result ℕ
get_num_layers args here model_type is_decoder =
    if is_retro_encoder model_type
    then ok args.retro_encoder_layers
    else if ltb 1 here.pipeline_size
    then (if is_encoder_and_decoder model_type
        then split_num_layers args here args.pipeline_model_parallel_split_rank
        else even_num_layers args here)
    else ok (if is_decoder then args.decoder_num_layers else args.encoder_num_layers)

-- `config.num_layers` of `drop_path_rates` are computed, and each layer reads its own.
pub build_layer : Args → ℕ → Result ℕ
build_layer args layer_number =
    if ltb (layer_number - 1) args.num_layers then ok layer_number else raise index_error

pub build_layers : Args → List ℕ → Result (List ℕ)
build_layers args [] = ok []
build_layers args (n ∷ ns) =
    build_layer args n >>= (λ layer. build_layers args ns >>= (λ layers. ok (layer ∷ layers)))

-- The offset without virtual stages, with `num_layers` layers on this rank.
pub stage_offset : Args → Place → ModelType → Bool → ℕ → ℕ
stage_offset args here model_type is_decoder num_layers =
    if is_encoder_and_decoder model_type && ltb 1 here.pipeline_size
    then elim args.pipeline_model_parallel_split_rank [
      | none ↦ here.pipeline_rank * num_layers
      | some split ↦
          if is_decoder
          then (here.pipeline_rank - split) * num_layers
          else here.pipeline_rank * num_layers
    ]
    else here.pipeline_rank * num_layers

-- The number of layers and their offset, from the number that `_get_num_layers` gives.
pub layer_span : Args → Place → ModelType → Bool → ℕ → Option ℕ → Result (ℕ × ℕ)
layer_span args here model_type is_decoder num_layers none =
    ok (num_layers, stage_offset args here model_type is_decoder num_layers)
layer_span args here model_type is_decoder num_layers (some vp_size) = do
  rest ← modulo args.num_layers vp_size
  assert (rest == 0)
  assert (not (is_encoder_and_decoder model_type))
  let share = num_layers / vp_size
  ok (share, here.virtual_rank * (args.num_layers / vp_size) + here.pipeline_rank * share)

-- The numbers of the layers that `ParallelTransformer.__init__` builds; none stands for the single
-- `NoopTransformerLayer`.
pub init_layers : Args → Place → ModelType → Bool → Result (List ℕ)
init_layers args here model_type is_decoder = do
  num_layers ← get_num_layers args here model_type is_decoder
  span ←
      layer_span args here model_type is_decoder num_layers
        args.virtual_pipeline_model_parallel_size
  if span.0 == 0 then ok [] else build_layers args (map (λ i. i + 1 + span.1) (range_from 0 span.0))

-- `get_num_layers_to_build` of the core library, with the size of the virtual pipeline.
pub get_num_layers_to_build : ℕ → ℕ → Option ℕ → Result ℕ
get_num_layers_to_build num_layers pipeline_size vpp = do
  per_rank ← floor_div num_layers pipeline_size
  elim vpp [ none ↦ ok per_rank | some vp_size ↦ floor_div per_rank vp_size ]

-- `TransformerLayer._get_layer_offset`
pub get_layer_offset : ℕ → Place → Option ℕ → Result ℕ
get_layer_offset num_layers here vpp = do
  per_rank ← floor_div num_layers here.pipeline_size
  elim vpp [
    | none ↦ ok (if ltb 1 here.pipeline_size then here.pipeline_rank * per_rank else 0)
    | some vp_size ↦ do
      per_virtual_rank ← floor_div per_rank vp_size
      chunks ← floor_div num_layers vp_size
      ok (here.virtual_rank * chunks + here.pipeline_rank * per_virtual_rank)
  ]

-- The numbers of the layers that `TransformerBlock` builds: `layer_number + offset`, from one on.
pub core_layers : ℕ → Place → Option ℕ → Result (List ℕ)
core_layers num_layers here vpp = do
  n ← get_num_layers_to_build num_layers here.pipeline_size vpp
  offset ← get_layer_offset num_layers here vpp
  ok (map (λ i. i + 1 + offset) (range_from 0 n))

pub data RecomputeMethod : Type 0 where
  uniform block other_method : RecomputeMethod

-- `for layer in self.layers`, without checkpointing.
pub run_all : {X : Type 0} → List (X → X) → X → X
run_all [] x = x
run_all (layer ∷ others) x = run_all others (layer x)

-- The layers run on hidden states `X`. Checkpointing runs its function as it is.
module _ {X : Type 0} (layers : List (X → X)) where
  -- `custom(start, start + count)`
  pub custom : ℕ → ℕ → X → Result X
  custom start zero x = ok x
  custom start (suc count) x = elim (get_elem? layers start) [
    | none ↦ raise index_error
    | some layer ↦ custom (start + 1) count (layer x)
  ]

  -- `while l < self.num_layers`. It has fuel, since with no layers in a chunk it does not end.
  pub uniform_loop : ℕ → ℕ → ℕ → X → Option (Result X)
  uniform_loop zero recompute_num_layers l x = none
  uniform_loop (suc fuel) recompute_num_layers l x =
      if ltb l (length layers)
      then elim (custom l recompute_num_layers x) [
        | raise e ↦ some (raise e)
        | ok y ↦ uniform_loop fuel recompute_num_layers (l + recompute_num_layers) y
      ]
      else some (ok x)

  -- `for l in range(self.num_layers)`: both branches run the layer.
  pub block_loop : ℕ → ℕ → ℕ → X → Result X
  block_loop recompute_num_layers l zero x = ok x
  block_loop recompute_num_layers l (suc rounds) x =
      (if ltb l recompute_num_layers then custom l 1 x else custom l 1 x)
      >>= (λ y. block_loop recompute_num_layers (l + 1) rounds y)

  pub checkpointed_forward : RecomputeMethod → ℕ → X → Option (Result X)
  unfolding uniform_loop
  checkpointed_forward uniform recompute_num_layers x =
      uniform_loop (length layers + 1) recompute_num_layers 0 x
  checkpointed_forward block recompute_num_layers x =
      some (block_loop recompute_num_layers 0 (length layers) x)
  checkpointed_forward other_method recompute_num_layers x = some (raise value_error)
