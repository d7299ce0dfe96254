-- ===== src/Interleaving/Tests.antt =====
-- Two stages with two chunks each, and the theorem at a concrete input.
use megatron_lm.Interleaving.Last.{last_iteration}
use megatron_lm.Interleaving.Chunks.{first_iteration}
use megatron_lm.Prelude.{arith, ◌≢◌, range_from, ◌<◌, ◌≡◌, map, ℕ, refl, true, false, ◌∷◌, []}
use megatron_lm.Interleaving.{
  is_last_microbatch_for_model_chunk, is_first_microbatch_for_model_chunk, get_model_chunk_id,
}

program : Unit {0}
unfolding get_model_chunk_id is_first_microbatch_for_model_chunk is_last_microbatch_for_model_chunk
program = tt

chunks_forward :
    map (λ m. get_model_chunk_id 2 2 m true) (range_from 0 8) ≡ 0 ∷ 0 ∷ 1 ∷ 1 ∷ 0 ∷ 0 ∷ 1 ∷ 1 ∷ []
unfolding program
chunks_forward = refl

chunks_backward : map (λ m. get_model_chunk_id 2 2 m false) (range_from 0 4) ≡ 1 ∷ 1 ∷ 0 ∷ 0 ∷ []
unfolding program
chunks_backward = refl

last_iterations :
    map (is_last_microbatch_for_model_chunk 2 2 8) (range_from 3 5)
    ≡ false ∷ false ∷ true ∷ false ∷ true ∷ []
unfolding program
last_iterations = refl

first_iteration_example :
    (true ≡ true → (k : ℕ) → k < 2 → get_model_chunk_id 2 2 k true ≢ 1)
    × (((k : ℕ) → k < 2 → get_model_chunk_id 2 2 k true ≢ 1) → true ≡ true)
unfolding program
first_iteration_example = first_iteration 2 2 (omega arith) (omega arith) 2

last_iteration_example :
    (true ≡ true → (k : ℕ) → 5 < k → k < 8 → get_model_chunk_id 2 2 k true ≢ 0)
    × (((k : ℕ) → 5 < k → k < 8 → get_model_chunk_id 2 2 k true ≢ 0) → true ≡ true)
unfolding program
last_iteration_example = last_iteration 2 2 (omega arith) (omega arith) 2 5 (omega arith)
