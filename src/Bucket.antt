-- ===== src/Bucket.antt =====
-- megatron/core/distributed/grad_buffer.py: `shard_buffer` and the class `Bucket`. A parameter is
-- named by a number, and a set of parameters is the list of its members. A buffer is the list of
-- its elements. The element type, its division and the collectives of the process group are
-- parameters. The input of a collective is read when it is called, and its output is written when
-- it is waited for; until then the contents of a bucket are not to be read.
pub mod Shards
pub mod Sync
pub mod Collectives
pub mod Scatter
pub mod Buffer
mod Tests
use megatron_lm.Prelude.{
  ℕ, zero, suc, ◌+◌, ◌*◌, ◌/◌, ◌%◌, Bool, true, false, not, ◌&&◌, ◌==◌, if◌then◌else◌, List, [],
  ◌∷◌, ◌++◌, map, length, get_elem?, take, drop, slice, range_from, Option, none, some, Result, ok,
  raise, index_error, ◌>>=◌, ◌>>◌, assert, modulo,
}

-- `param in params`
unfoldable pub contains : ℕ → List ℕ → Bool
contains p [] = false
contains p (q ∷ ps) = if p == q then true else contains p ps

-- `shards[i]`
abbrev pub index : {A : Type 0} → List A → ℕ → Result A
index xs i = elim (get_elem? xs i) [ none ↦ raise index_error | some x ↦ ok x ]

-- A slice of a buffer shares its storage: it is the positions from `start` up to `stop`.
pub record Slice : Type 0 where
  pub start : ℕ
  pub stop : ℕ

pub shard_slice : ℕ → ℕ → Slice
shard_slice shard_size r = record { start = r * shard_size; stop = (r + 1) * shard_size }

module _ {A : Type 0} where
  -- What a view shows, and a write through it.
  pub elements : Slice → List A → List A
  elements v buffer = slice v.start v.stop buffer

  pub write_slice : Slice → List A → List A → List A
  write_slice v values buffer = take v.start buffer ++ (values ++ drop v.stop buffer)

  pub shard_buffer : List A → ℕ → Result (List Slice)
  unfolding shard_slice
  shard_buffer buffer data_parallel_world_size = do
    rest ← modulo (length buffer) data_parallel_world_size
    assert (rest == 0)
    ok (
        map (shard_slice (length buffer / data_parallel_world_size))
          (range_from 0 data_parallel_world_size))

-- A collective call: where its output goes, what it delivers there, and whether that is still to
-- come. An asynchronous call delivers when it is waited for.
pub record Work (A : Type 0) : Type 0 where
  pub view : Slice
  pub output : List A
  pub in_flight : Bool

-- `params_list` is left out, since nothing reads it.
pub record Bucket (A : Type 0) : Type 0 where
  pub params : List ℕ
  pub params_with_grad : List ℕ
  pub contents : List A
  pub offset : ℕ
  pub data_parallel_world_size : ℕ
  pub data_parallel_rank : ℕ
  pub overlap_grad_reduce : Bool
  pub use_distributed_optimizer : Bool
  pub communication_handle : Option (Work A)
  pub communication_issued : Bool

-- `self.communication_handle is not None`
pub has_handle : {X : Type 0} → Option X → Bool
has_handle none = false
has_handle (some x) = true

module _ {A : Type 0} where
  pub reset : Bucket A → Bucket A
  reset b = record b {
    params_with_grad = [];
    communication_handle = none;
    communication_issued = false;
  }

  pub init_bucket : List ℕ → List A → ℕ → ℕ → ℕ → Bool → Bool → Bucket A
  unfolding reset
  init_bucket params contents offset world_size rank overlap distributed = reset (record {
    params = params;
    params_with_grad = [];
    contents = contents;
    offset = offset;
    data_parallel_world_size = world_size;
    data_parallel_rank = rank;
    overlap_grad_reduce = overlap;
    use_distributed_optimizer = distributed;
    communication_handle = none;
    communication_issued = false;
  })

-- `divide x n` is `x / n` of one element. The collectives: `group_sum xs` is the sum, element by
-- element, of `xs` and of what the other ranks of the group contribute, and `scatter_sum xs` what
-- `_reduce_scatter_base` delivers to this rank for the input `xs`.
module _ {A : Type 0} (divide : A → ℕ → A) (group_sum scatter_sum : List A → List A) where
  -- `self.data /= self.data_parallel_world_size`
  pub average_input : Bucket A → List A
  average_input b = map (λ x. divide x b.data_parallel_world_size) b.contents

  -- The collective call on `self.data`, which holds `input`.
  pub issue : Bucket A → List A → Result (Work A)
  issue b input =
      if b.use_distributed_optimizer
      then (do
        shards ← shard_buffer input b.data_parallel_world_size
        local_data_view ← index shards b.data_parallel_rank
        ok (record { view = local_data_view; output = scatter_sum input; in_flight = true }))
      else ok (record {
        view = record { start = 0; stop = length input };
        output = group_sum input;
        in_flight = true;
      })

  -- The output arrives, once.
  pub deliver : Work A → List A → List A
  unfolding write_slice
  deliver work input = if work.in_flight then write_slice work.view work.output input else input

  pub start_grad_sync : Bucket A → Result (Bucket A)
  unfolding average_input issue deliver has_handle
  start_grad_sync b = do
    assert (not (has_handle b.communication_handle) && not b.communication_issued)
    let input = average_input b
    work ← issue b input
    ok (record b {
      contents = (if b.overlap_grad_reduce then input else deliver work input);
      communication_handle = (if b.overlap_grad_reduce then some work else none);
      communication_issued = true;
    })

  -- `self.communication_handle.wait()`
  pub wait_for : Bucket A → Bucket A
  unfolding deliver
  wait_for b = elim b.communication_handle [
    | none ↦ b
    | some work ↦ record b {
      contents = deliver work b.contents;
      communication_handle = some (record work { in_flight = false });
    }
  ]

  pub finish_grad_sync : Bucket A → Result (Bucket A)
  unfolding start_grad_sync wait_for has_handle
  finish_grad_sync b = if not b.overlap_grad_reduce then start_grad_sync b else (do
    assert (has_handle b.communication_handle && b.communication_issued)
    ok (wait_for b))

  pub register_grad_ready : Bucket A → ℕ → Result (Bucket A)
  unfolding start_grad_sync
  register_grad_ready b param = do
    assert (contains param b.params)
    assert (not (contains param b.params_with_grad))
    assert b.overlap_grad_reduce
    let b' = record b { params_with_grad = param ∷ b.params_with_grad }
    if length b'.params_with_grad == length b'.params then start_grad_sync b' else ok b'
