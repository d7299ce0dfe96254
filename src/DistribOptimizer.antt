-- ===== src/DistribOptimizer.antt =====
-- megatron/optimizer/distrib_optimizer.py: `Range`, and the class methods of `DistributedOptimizer`
-- that map parameters to the shards of the gradient buffers. Differences that Python clips by
-- `max(0, ...)` or compares with a number that is not negative are truncated differences here, and
-- those that it does not clip are never negative. A parameter is its number; a dict is the list of
-- its entries in the order of insertion.
pub mod Shares
pub mod Owners
mod Tests
use megatron_lm.Prelude.{
  ℕ, zero, suc, ◌+◌, ◌-◌, ◌*◌, ◌/◌, ◌%◌, max, min, Bool, true, false, not, ltb, ◌==◌, if◌then◌else◌,
  Option, none, some, List, [], ◌∷◌, ◌++◌, map, length, get_elem?, range_from, Result, ok, raise,
  key_error, ◌>>=◌, ◌>>◌, assert, modulo,
}
use megatron_lm.Bucket.{index}
use megatron_lm.GradBuffer.{Place}

pub record Range : Type 0 where
  pub start : ℕ
  pub end : ℕ

-- `self.size`
abbrev pub size : Range → ℕ
size r = r.end - r.start

abbrev pub normalize : Range → ℕ → Range
normalize r start = record { start = start; end = start + size r }

-- The four ranges of a parameter that a rank keeps.
pub record ParamRanges : Type 0 where
  pub gbuf_world : Range
  pub gbuf_world_in_bucket : Range
  pub gbuf_local : Range
  pub param : Range

-- One round of the loop over the parameters: `none` if no part of it is in the rank's range.
pub param_ranges : Range → ℕ → Place → Option ParamRanges
param_ranges gbuf bucket_offset p =
    let local_start = p.start - gbuf.start in
    let local_end = min (size gbuf) (p.end - gbuf.start) in
    let local : Range = record { start = local_start; end = local_end } in
    let world = normalize local (local_start + gbuf.start) in
    if ltb local_start local_end
    then some (record {
      gbuf_world = world;
      gbuf_world_in_bucket = record {
        start = world.start - bucket_offset;
        end = world.end - bucket_offset;
      };
      gbuf_local = local;
      param = normalize local (gbuf.start - p.start);
    })
    else none

pub build_model_gbuf_param_range_map : List (ℕ × Place) → Range → ℕ → List (ℕ × ParamRanges)
build_model_gbuf_param_range_map [] gbuf bucket_offset = []
build_model_gbuf_param_range_map ((param, p) ∷ places) gbuf bucket_offset =
    let rest = build_model_gbuf_param_range_map places gbuf bucket_offset in
    elim (param_ranges gbuf bucket_offset p) [ none ↦ rest | some ranges ↦ (param, ranges) ∷ rest ]

-- The range of rank `r` in a bucket of `gbuf_size` elements.
pub world_range : ℕ → ℕ → ℕ → ℕ → Range
world_range gbuf_size max_size offset r = record {
  start = r * max_size + offset;
  end = min gbuf_size (r * max_size + max_size) + offset;
}

-- What the method reads of the model and of the process group.
pub record Shard : Type 0 where
  pub data_parallel_rank : ℕ
  pub data_parallel_world_size : ℕ
  pub param_index_map : List (ℕ × Place)
  -- The number of elements and the offset of each bucket.
  pub buckets : List (ℕ × ℕ)

pub gbuf_range_of : Shard → ℕ → ℕ → Result (List (ℕ × ParamRanges))
gbuf_range_of s gbuf_size offset = do
  rest ← modulo gbuf_size s.data_parallel_world_size
  assert (rest == 0)
  let max_size = gbuf_size / s.data_parallel_world_size
  let all = map (world_range gbuf_size max_size offset) (range_from 0 s.data_parallel_world_size)
  gbuf ← index all s.data_parallel_rank
  ok (build_model_gbuf_param_range_map s.param_index_map gbuf offset)

pub build_model_gbuf_range : Shard → ℕ → Result (List (ℕ × ParamRanges))
build_model_gbuf_range s bucket_index = do
  bucket ← index s.buckets bucket_index
  gbuf_range_of s bucket.0 bucket.1

-- The list comprehension over the buckets of one data type.
pub gbuf_ranges_from : Shard → List (ℕ × ℕ) → Result (List (List (ℕ × ParamRanges)))
gbuf_ranges_from s [] = ok []
gbuf_ranges_from s ((n, offset) ∷ buckets) = do
  first ← gbuf_range_of s n offset
  others ← gbuf_ranges_from s buckets
  ok (first ∷ others)

-- For each data type of the model, the ranges in each bucket.
pub build_model_gbuf_range_map :
    List (ℕ × Shard) → Result (List (ℕ × List (List (ℕ × ParamRanges))))
build_model_gbuf_range_map [] = ok []
build_model_gbuf_range_map ((dtype, s) ∷ types) = do
  first ← gbuf_ranges_from s s.buckets
  others ← build_model_gbuf_range_map types
  ok ((dtype, first) ∷ others)
