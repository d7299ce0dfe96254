-- ===== src/Layers/Tests.antt =====
-- Eight layers on two stages, with two chunks each and without.
use megatron_lm.Prelude.{
  ◌==◌, ◌%◌, ◌*◌, [], index_error, length, range_from, ◌∷◌, ◌<◌, if◌then◌else◌, none, ok, refl,
  raise, ◌+◌, some, List, true, false, ◌≡◌, ℕ, arith,
}
use megatron_lm.Layers.{
  [], index_error, length, range_from, none, ok, raise, ◌+◌, some, List, true, false, ℕ, Args,
  init_layers, get_num_layers, core_layers, get_num_layers_to_build, get_layer_offset,
  encoder_or_decoder, encoder_and_decoder, build_layers, build_layer, layer_span, stage_offset,
  even_num_layers, split_num_layers, unless_embedding_stage, is_encoder_and_decoder,
  is_retro_encoder, is_pipeline_stage_before_split, checkpointed_forward, custom, uniform_loop,
  block_loop, uniform, block, run_all,
}
use megatron_lm.Layers.Numbers.{joined}
use megatron_lm.Layers.Stages.{at, core_layers-exact_virtual}
use megatron_lm.Layers.Legacy.{IsPlain, init_layers-eq-core_layers_virtual, standalone_raises}
use megatron_lm.Layers.Checkpointed.{uniform_lem}

abbrev args : Args
args = record {
  num_layers = 8;
  encoder_num_layers = 8;
  decoder_num_layers = 4;
  retro_encoder_layers = 0;
  standalone_embedding_stage = false;
  pipeline_model_parallel_split_rank = some 2;
  transformer_pipeline_model_parallel_size = 2;
  virtual_pipeline_model_parallel_size = none;
}

abbrev interleaved : Args
interleaved = record args { virtual_pipeline_model_parallel_size = some 2 }

abbrev standalone : Args
standalone = record args { standalone_embedding_stage = true }

abbrev plain : IsPlain args 2
plain = record {
  stages = omega arith;
  encoder = refl;
  transformer_stages = refl;
  standalone = refl;
}

abbrev plain_interleaved : IsPlain interleaved 2
plain_interleaved = record {
  stages = omega arith;
  encoder = refl;
  transformer_stages = refl;
  standalone = refl;
}

layers_of_stage : init_layers args (at 2 1 0) encoder_or_decoder false ≡ ok (5 ∷ 6 ∷ 7 ∷ 8 ∷ [])
unfolding init_layers get_num_layers even_num_layers unless_embedding_stage layer_span stage_offset
    is_encoder_and_decoder is_retro_encoder build_layers build_layer
layers_of_stage = refl

layers_of_chunk : core_layers 8 (at 2 1 1) (some 2) ≡ ok (7 ∷ 8 ∷ [])
unfolding core_layers get_num_layers_to_build get_layer_offset
layers_of_chunk = refl

-- A third stage of four, in the decoder.
layers_of_decoder :
    init_layers
      (record args { transformer_pipeline_model_parallel_size = 4 })
      (at 4 3 0)
      encoder_and_decoder
      true
    ≡ ok (3 ∷ 4 ∷ [])
unfolding init_layers get_num_layers split_num_layers unless_embedding_stage layer_span stage_offset
    is_encoder_and_decoder is_retro_encoder build_layers build_layer is_pipeline_stage_before_split
layers_of_decoder = refl

-- With the standalone stage the first stage that has layers starts at the fifth.
layers_behind_embedding :
    init_layers standalone (at 3 1 0) encoder_or_decoder false ≡ ok (5 ∷ 6 ∷ 7 ∷ 8 ∷ [])
unfolding init_layers get_num_layers even_num_layers unless_embedding_stage layer_span stage_offset
    is_encoder_and_decoder is_retro_encoder build_layers build_layer
layers_behind_embedding = refl

abbrev three : List (ℕ → ℕ)
three = (λ x. x + 1) ∷ (λ x. x * 10) ∷ (λ x. x + 2) ∷ []

run_uniform : checkpointed_forward three uniform 2 4 ≡ some (raise index_error)
unfolding checkpointed_forward uniform_loop custom
run_uniform = refl

run_block : checkpointed_forward three block 2 4 ≡ some (ok 52)
unfolding checkpointed_forward block_loop custom
run_block = refl

core_layers-exact_virtual_example :
    (on : ℕ → ℕ → List ℕ) × ((r v : ℕ)
      → r < 2
      → v < 2
      → core_layers 8 (at 2 r v) (some 2) ≡ ok (on v r))
    × (joined (λ v. joined (on v) 2) 2 ≡ range_from 1 8)
core_layers-exact_virtual_example =
    core_layers-exact_virtual 8 2 2 (omega arith) (omega arith) (omega arith)

init_layers-eq-core_layers_virtual_example :
    init_layers interleaved (at 2 1 1) encoder_or_decoder false ≡ core_layers 8 (at 2 1 1) (some 2)
init_layers-eq-core_layers_virtual_example =
    init_layers-eq-core_layers_virtual interleaved 2 1 1 plain_interleaved (omega arith) 2
      (omega arith) (omega arith) (omega arith) (omega arith) refl

standalone_raises_example :
    init_layers standalone (at (2 + 1) 2 0) encoder_or_decoder false ≡ raise index_error
standalone_raises_example =
    standalone_raises standalone 2 (omega arith) (omega arith) (omega arith) refl refl refl refl 0

uniform_lem_example :
    checkpointed_forward three uniform 3 4
    ≡ some (if length three % 3 == 0 then ok (run_all three 4) else raise index_error)
uniform_lem_example = uniform_lem three 3 4 (omega arith)
