-- ===== src/Samplers/Tests.antt =====
-- Runs of the samplers, and the theorems at concrete inputs.
use megatron_lm.Samplers.Random
use megatron_lm.Prelude.{
  ℕ, ◌+◌, ◌<◌, ◌≡◌, refl, ok, some, none, false, true, List, [], ◌∷◌, All, range_from, get_elem?,
  arith, zero, suc, subst,
}
use megatron_lm.Samplers.{
  PretrainingSampler, init_sampler, get_start_end_idx, rank_slice, collect, iter, RandomSampler,
  init_random, stride, emit, idx_range, iter_random, Dataset, Epoch,
}
use megatron_lm.Samplers.Sequential.{IsValid}
use megatron_lm.Samplers.Sequential.Partition.{iter_disjoint, iter_covers, at_rank}

-- 18 samples are left, in four full rounds of 4 samples and a part of 2.
abbrev sampler : PretrainingSampler
sampler = record {
  total_samples = 20;
  consumed_samples = 2;
  micro_batch_size = 2;
  data_parallel_rank = 1;
  micro_batch_times_data_parallel_size = 4;
  drop_last = true;
}

sampler-built : init_sampler 20 2 2 1 2 true ≡ ok sampler
unfolding init_sampler
sampler-built = refl

sampler-IsValid : IsValid sampler 2
sampler-IsValid = record { step = refl; micro_pos = omega arith; rank_lt = omega arith }

first-IsValid : IsValid (at_rank sampler 0) 2
first-IsValid = record { step = refl; micro_pos = omega arith; rank_lt = omega arith }

iter-sampler : iter sampler ≡ (4 ∷ 5 ∷ []) ∷ (8 ∷ 9 ∷ []) ∷ (12 ∷ 13 ∷ []) ∷ (16 ∷ 17 ∷ []) ∷ []
unfolding iter collect rank_slice get_start_end_idx
iter-sampler = refl

-- Without `drop_last` a rank may yield an empty batch.
iter-kept : iter (record sampler { total_samples = 8; drop_last = false }) ≡ (4 ∷ 5 ∷ []) ∷ [] ∷ []
unfolding iter collect rank_slice get_start_end_idx
iter-kept = refl

iter_disjoint_example : (◌≡◌ {A = ℕ} 1 1) × (◌≡◌ {A = ℕ} 2 2) × (◌≡◌ {A = ℕ} 1 1)
unfolding iter collect rank_slice get_start_end_idx
iter_disjoint_example =
    iter_disjoint sampler 2 1 1 sampler-IsValid sampler-IsValid 2 1 2 1 {b = 12 ∷ 13 ∷ []}
      {b' = 12 ∷ 13 ∷ []} {i = 13} refl refl refl refl

iter_covers_example :
    (r k j : ℕ) × (b : List ℕ) × (r < 2)
    × (get_elem? (iter (at_rank sampler r)) k ≡ some b)
    × (get_elem? b j ≡ some 7)
iter_covers_example = iter_covers sampler 2 sampler-IsValid 7 (omega arith) (omega arith)

abbrev dataset : Dataset
dataset = record { size = 10; seeds = none }

-- The identity stands in for `torch.randperm`.
abbrev randperm : ℕ → ℕ → List ℕ
randperm n seed = range_from 0 n

range_from-below : (start n : ℕ) → All (λ x. x < start + n) (range_from start n)
range_from-below start zero = tt
range_from-below start (suc n) = (
  omega arith,
  subst (λ k. All (λ x. x < k) (range_from (start + 1) n)) shift (range_from-below (start + 1) n),
)
  where
    shift : start + 1 + n ≡ start + suc n
    shift = omega arith

randperm-below : (n seed : ℕ) → All (λ x. x < n) (randperm n seed)
randperm-below n seed = subst (λ k. All (λ x. x < k) (range_from 0 n)) shift (range_from-below 0 n)
  where
    shift : 0 + n ≡ n
    shift = omega arith

abbrev random : RandomSampler
random = record {
  dataset = dataset;
  total_samples = 10;
  consumed_samples = 4;
  micro_batch_size = 2;
  data_parallel_rank = 1;
  data_parallel_size = 2;
  data_sharding = true;
  micro_batch_times_data_parallel_size = 4;
  last_batch_size = 2;
}

random-built : init_random dataset 10 4 2 1 2 true ≡ ok random
unfolding init_random
random-built = refl

random-IsValid : Random.IsValid random
random-IsValid = record { step = refl; last = refl; micro_pos = omega arith; rank_lt = omega arith }

abbrev ran : Epoch
ran = record { epoch = 0; dataset = dataset; yields = (6 ∷ 7 ∷ [], 8) ∷ [] }

iter_random-random : iter_random randperm random ≡ ok ran
unfolding iter_random idx_range emit
iter_random-random = refl

iter_random-strided :
    iter_random randperm (record random { data_sharding = false })
    ≡ ok (record { epoch = 0; dataset = dataset; yields = (5 ∷ 7 ∷ [], 8) ∷ [] })
unfolding iter_random idx_range emit stride
iter_random-strided = refl
