-- ===== src/Rng/Seeds.antt =====
-- Seeding the generators of a rank.
use megatron_lm.Bucket.{contains}
use megatron_lm.Prelude.{ne→==, ◌*◌, ◌+◌, refl, none, ◌∷◌, [], arith, ◌≡◌, ℕ}
use megatron_lm.Rng.{
  expert_parallel_rng, model_parallel_rng, data_parallel_rng, contains, assign, lookup, reset, add,
  next_add, tensor_model_parallel_seed, model_parallel_cuda_manual_seed, expert_parallel_seed,
  Tracker,
}

module _ {S : Type 0} (manual_seed : ℕ → S) where
  -- Whatever the tracker was, `model_parallel_cuda_manual_seed` does not raise: the three seeds are
  -- different, and it leaves the device in the state of the given seed and the tracker with the
  -- state of its own seed for each of the three names.
  pub model_parallel_cuda_manual_seed-total :
      (seed tensor_rank expert_rank : ℕ) (t : Tracker S)
      → model_parallel_cuda_manual_seed manual_seed seed tensor_rank expert_rank t ≡ (
        record {
          states_ =
              (data_parallel_rng, manual_seed seed)
              ∷ (
                model_parallel_rng,
                manual_seed (tensor_model_parallel_seed manual_seed seed tensor_rank),
              )
              ∷ (
                expert_parallel_rng,
                manual_seed (expert_parallel_seed manual_seed seed tensor_rank expert_rank),
              )
              ∷ [];
          seeds_ =
              expert_parallel_seed manual_seed seed tensor_rank expert_rank
              ∷ tensor_model_parallel_seed manual_seed seed tensor_rank
              ∷ seed
              ∷ [];
          cuda = manual_seed seed;
        },
        none,
      )
  unfolding model_parallel_cuda_manual_seed next_add add reset lookup assign expert_parallel_seed
      tensor_model_parallel_seed contains
  model_parallel_cuda_manual_seed-total seed place expert t =
      rw
        (
          ne→== (seed + 2718 + place) seed (omega arith),
          ne→== (seed + 1024 + 100 * expert + place) (seed + 2718 + place) (omega arith),
          ne→== (seed + 1024 + 100 * expert + place) seed (omega arith),
        )
        refl
