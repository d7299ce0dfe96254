-- ===== src/Samplers.antt =====
-- megatron/data/data_samplers.py: the batch samplers of the pretraining data loader, and the data
-- set that reseeds the random generators for each sample. Counts, ranks and seeds are naturals. A
-- generator is the list of what it yields. `torch.randperm` under `manual_seed` is a parameter.
pub mod Sequential
pub mod Random
mod Tests
use megatron_lm.Prelude.{
  ℕ, zero, suc, ◌+◌, ◌-◌, ◌*◌, ◌/◌, ◌%◌, Bool, true, false, not, ◌&&◌, ltb, ◌==◌, if◌then◌else◌,
  Option, none, some, List, [], ◌∷◌, ◌++◌, map, length, drop, slice, range_from, Result, ok, raise,
  exception, ◌>>=◌, ◌>>◌, assert, modulo, floor_div,
}

-- `MegatronPretrainingSampler`
pub record PretrainingSampler : Type 0 where
  pub total_samples : ℕ
  pub consumed_samples : ℕ
  pub micro_batch_size : ℕ
  pub data_parallel_rank : ℕ
  pub micro_batch_times_data_parallel_size : ℕ
  pub drop_last : Bool

pub init_sampler : ℕ → ℕ → ℕ → ℕ → ℕ → Bool → Result PretrainingSampler
init_sampler total consumed micro_batch_size rank data_parallel_size drop_last = do
  assert (ltb 0 total)
  assert (ltb consumed total)
  assert (ltb 0 micro_batch_size)
  assert (ltb 0 data_parallel_size)
  assert (ltb rank data_parallel_size)
  ok (record {
    total_samples = total;
    consumed_samples = consumed;
    micro_batch_size = micro_batch_size;
    data_parallel_rank = rank;
    micro_batch_times_data_parallel_size = micro_batch_size * data_parallel_size;
    drop_last = drop_last;
  })

pub get_start_end_idx : PretrainingSampler → ℕ × ℕ
get_start_end_idx s =
    let start_idx = s.data_parallel_rank * s.micro_batch_size in
    (start_idx, start_idx + s.micro_batch_size)

pub rank_slice : PretrainingSampler → List ℕ → List ℕ
rank_slice s batch = let (start_idx, end_idx) = get_start_end_idx s in slice start_idx end_idx batch

-- The loop of `__iter__` over the indices, with the batch collected so far.
pub collect : PretrainingSampler → List ℕ → List ℕ → List (List ℕ)
collect s batch [] = if ltb 0 (length batch) && not s.drop_last then rank_slice s batch ∷ [] else []
collect s batch (idx ∷ indices) =
    let batch' = batch ++ idx ∷ [] in
    let full = rank_slice s batch' ∷ collect s [] indices in
    let more = collect s batch' indices in
    if length batch' == s.micro_batch_times_data_parallel_size then full else more

pub iter : PretrainingSampler → List (List ℕ)
iter s = collect s [] (range_from s.consumed_samples (s.total_samples - s.consumed_samples))

-- `RandomSeedDataset`, but for the samples themselves: `__getitem__` returns the seed that it sets
-- in the three generators, and the index that it reads.
pub record RandomSeedDataset : Type 0 where
  pub base_seed : ℕ
  pub curr_seed : ℕ

pub init_seeds : ℕ → RandomSeedDataset
init_seeds seed = record { base_seed = seed; curr_seed = seed }

pub set_epoch : ℕ → RandomSeedDataset → RandomSeedDataset
set_epoch epoch d = record d { curr_seed = d.base_seed + epoch }

pub getitem : RandomSeedDataset → ℕ → ℕ × ℕ
getitem d idx = (idx + d.curr_seed, idx)

-- A data set: its length, and its seeds if it is a `RandomSeedDataset`.
pub record Dataset : Type 0 where
  pub size : ℕ
  pub seeds : Option RandomSeedDataset

-- `MegatronPretrainingRandomSampler`
pub record RandomSampler : Type 0 where
  pub dataset : Dataset
  pub total_samples : ℕ
  pub consumed_samples : ℕ
  pub micro_batch_size : ℕ
  pub data_parallel_rank : ℕ
  pub data_parallel_size : ℕ
  pub data_sharding : Bool
  pub micro_batch_times_data_parallel_size : ℕ
  pub last_batch_size : ℕ

pub init_random : Dataset → ℕ → ℕ → ℕ → ℕ → ℕ → Bool → Result RandomSampler
init_random dataset total consumed micro_batch_size rank data_parallel_size data_sharding = do
  last_batch_size ← modulo total (micro_batch_size * data_parallel_size)
  assert (ltb 0 total)
  assert (ltb 0 micro_batch_size)
  assert (ltb 0 data_parallel_size)
  assert (ltb rank data_parallel_size)
  ok (record {
    dataset = dataset;
    total_samples = total;
    consumed_samples = consumed;
    micro_batch_size = micro_batch_size;
    data_parallel_rank = rank;
    data_parallel_size = data_parallel_size;
    data_sharding = data_sharding;
    micro_batch_times_data_parallel_size = micro_batch_size * data_parallel_size;
    last_batch_size = last_batch_size;
  })

-- `xs[start::step]` for a positive step: `skip` elements are passed over first.
pub stride : ℕ → ℕ → List ℕ → List ℕ
stride skip step [] = []
stride zero step (x ∷ xs) = x ∷ stride (step - 1) step xs
stride (suc skip) step (x ∷ xs) = stride skip step xs

-- The final loop: each batch that is yielded, with `self.consumed_samples` at that moment.
pub emit : RandomSampler → ℕ → List ℕ → List ℕ → List (List ℕ × ℕ)
emit s consumed batch [] = []
emit s consumed batch (idx ∷ indices) =
    let batch' = batch ++ idx ∷ [] in
    let consumed' = consumed + s.micro_batch_times_data_parallel_size in
    let full = (batch', consumed') ∷ emit s consumed' [] indices in
    let more = emit s consumed batch' indices in
    if length batch' == s.micro_batch_size then full else more

-- What a full run of the generator leaves: the epoch, the data set, and the yields.
pub record Epoch : Type 0 where
  pub epoch : ℕ
  pub dataset : Dataset
  pub yields : List (List ℕ × ℕ)

-- `randperm n seed` is `torch.randperm(n, generator=g).tolist()` for a generator seeded by `seed`.
module _ (randperm : ℕ → ℕ → List ℕ) where
  -- The indices that this rank may draw from in an epoch.
  pub idx_range : RandomSampler → ℕ → ℕ → List ℕ
  idx_range s epoch current_epoch_samples =
      if s.data_sharding
      then (let bucket_size =
            (s.total_samples / s.micro_batch_times_data_parallel_size) * s.micro_batch_size in
          let bucket_offset = current_epoch_samples / s.data_parallel_size in
          let start_idx = s.data_parallel_rank * bucket_size in
          map (λ x. start_idx + x) (drop bucket_offset (randperm bucket_size epoch)))
      else (let full_bucket_size = (s.total_samples / s.micro_batch_size) * s.micro_batch_size in
          stride s.data_parallel_rank s.data_parallel_size
            (drop current_epoch_samples (randperm full_bucket_size epoch)))

  pub iter_random : RandomSampler → Result Epoch
  iter_random s = do
    let active_total_samples = s.total_samples - s.last_batch_size
    epoch ← floor_div s.consumed_samples active_total_samples
    current_epoch_samples ← modulo s.consumed_samples active_total_samples
    assert (current_epoch_samples % s.micro_batch_times_data_parallel_size == 0)
    ok (record {
      epoch = epoch;
      dataset = record (s.dataset) {
        seeds = elim s.dataset.seeds [ none ↦ none | some d ↦ some (set_epoch epoch d) ];
      };
      yields = emit s s.consumed_samples [] (idx_range s epoch current_epoch_samples);
    })

-- `args.dataloader_type`
pub data LoaderType : Type 0 where
  single cyclic other_type : LoaderType

pub data BatchSampler : Type 0 where
  sequential : PretrainingSampler → BatchSampler
  random : RandomSampler → BatchSampler

-- The arguments and the ranks that the builder reads.
pub record LoaderArgs : Type 0 where
  pub dataloader_type : LoaderType
  pub micro_batch_size : ℕ
  pub data_sharding : Bool
  pub data_parallel_rank : ℕ
  pub data_parallel_world_size : ℕ

-- `none` is the loader of no data set; else the batch sampler that is handed to the `DataLoader`.
pub build_pretraining_data_loader : LoaderArgs → Option Dataset → ℕ → Result (Option BatchSampler)
build_pretraining_data_loader args none consumed = ok none
build_pretraining_data_loader args (some dataset) consumed = elim args.dataloader_type [
  | single ↦
      init_sampler dataset.size consumed args.micro_batch_size args.data_parallel_rank
        args.data_parallel_world_size true
      >>= λ s. ok (some (sequential s))
  | cyclic ↦
      init_random dataset dataset.size consumed args.micro_batch_size args.data_parallel_rank
        args.data_parallel_world_size args.data_sharding
      >>= λ s. ok (some (random s))
  | other_type ↦ raise exception
]
