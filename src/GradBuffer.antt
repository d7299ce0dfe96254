-- ===== src/GradBuffer.antt =====
-- megatron/core/distributed/grad_buffer.py: the layout that `GradBuffer` computes. A parameter is
-- its number, its number of elements and whether it requires a gradient. `math.ceil` of a float
-- quotient is taken as the exact ceiling, which it is below 2 ^ 53 elements. `is_some size` stands
-- for `bucket_size`. The logging is left out.
pub mod Plan
mod Tests
use megatron_lm.Prelude.{
  ℕ, zero, suc, ◌+◌, ◌-◌, ◌*◌, ◌/◌, ◌%◌, Bool, true, false, not, ◌&&◌, ltb, leb, ◌==◌,
  if◌then◌else◌, Option, none, some, List, [], ◌∷◌, ◌++◌, map, length, get_elem?, slice, Result, ok,
  raise, index_error, key_error, unbound_local_error, ◌>>=◌, ◌>>◌, assert,
}
use mathlib.Core.List.{reverse}
use megatron_lm.Bucket.{Bucket, contains, index, init_bucket}

pub record Param : Type 0 where
  pub ident : ℕ
  pub numel : ℕ
  pub requires_grad : Bool

-- `assert param not in unique_params`, for each parameter in turn.
pub check_unique : List ℕ → List Param → Result (Unit {0})
check_unique seen [] = ok tt
check_unique seen (p ∷ ps) = do
  assert (not (contains p.ident seen))
  check_unique (p.ident ∷ seen) ps

-- `self.param_index_map[param]`
pub record Place : Type 0 where
  pub start : ℕ
  pub end : ℕ
  pub bucket_id : ℕ

-- What `_pad_if_needed` and the loops read.
pub record Config : Type 0 where
  pub bucket_size : Option ℕ
  pub data_parallel_world_size : ℕ
  pub data_parallel_rank : ℕ
  pub overlap_grad_reduce : Bool
  pub use_distributed_optimizer : Bool

pub pad_if_needed : Config → ℕ → ℕ
pad_if_needed c data_index =
    if c.use_distributed_optimizer
    then ((data_index + (c.data_parallel_world_size - 1)) / c.data_parallel_world_size)
      * c.data_parallel_world_size
    else data_index

-- The variables of the first loop. `data_end_index` is unbound before the first round.
pub record Layout : Type 0 where
  pub data_start_index : ℕ
  pub data_end_index : Option ℕ
  pub bucket_data_start_index : ℕ
  pub bucket_params : List ℕ
  pub bucket_indices : List (ℕ × ℕ)
  pub bucket_id : ℕ
  pub param_index_map : List (ℕ × Place)

pub initial : Layout
initial = record {
  data_start_index = 0;
  data_end_index = none;
  bucket_data_start_index = 0;
  bucket_params = [];
  bucket_indices = [];
  bucket_id = 0;
  param_index_map = [];
}

-- `bucket_size is not None and ...`: whether the bucket is closed behind this parameter.
pub closes : Config → Layout → ℕ → ℕ → Bool
closes c l data_end_index count = elim c.bucket_size [
  | none ↦ false
  | some size ↦ leb size (data_end_index - l.bucket_data_start_index) && ltb 1 count
]

-- One round of the first loop, for a parameter that requires a gradient.
pub place : Config → Layout → Param → Layout
place c l p =
    let data_end = l.data_start_index + p.numel in
    let members = p.ident ∷ l.bucket_params in
    let placed =
      l.param_index_map
      ++ (p.ident, record { start = l.data_start_index; end = data_end; bucket_id = l.bucket_id })
        ∷ [] in
    if closes c l data_end (length members)
    then record {
      data_start_index = pad_if_needed c data_end;
      data_end_index = some (pad_if_needed c data_end);
      bucket_data_start_index = pad_if_needed c data_end;
      bucket_params = [];
      bucket_indices =
          l.bucket_indices ++ (l.bucket_data_start_index, pad_if_needed c data_end) ∷ [];
      bucket_id = l.bucket_id + 1;
      param_index_map = placed;
    }
    else record {
      data_start_index = data_end;
      data_end_index = some data_end;
      bucket_data_start_index = l.bucket_data_start_index;
      bucket_params = members;
      bucket_indices = l.bucket_indices;
      bucket_id = l.bucket_id;
      param_index_map = placed;
    }

pub place_all : Config → Layout → List Param → Layout
place_all c l [] = l
place_all c l (p ∷ ps) = place_all c (if p.requires_grad then place c l p else l) ps

-- The layout with the last bucket closed, and `self.numel`, from the last `data_end_index`.
pub close_at : Config → Layout → Option ℕ → Result (Layout × ℕ)
close_at c l none = raise unbound_local_error
close_at c l (some data_end) =
    if ltb 0 (length l.bucket_params)
    then ok (
      record l {
        bucket_indices =
            l.bucket_indices ++ (l.bucket_data_start_index, pad_if_needed c data_end) ∷ [];
      },
      pad_if_needed c data_end,
    )
    else ok (l, data_end)

pub close_last : Config → Layout → Result (Layout × ℕ)
unfolding close_at
close_last c l = close_at c l l.data_end_index

-- The first half of `__init__`: the places and the buckets' bounds, for the parameters in order.
pub lay_out : Config → List Param → Result (Layout × ℕ)
lay_out c params = do
  check_unique [] params
  result ← close_last c (place_all c initial (reverse params))
  assert (not (c.use_distributed_optimizer && not (result.1 % c.data_parallel_world_size == 0)))
  ok result
