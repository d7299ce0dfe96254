-- ===== src/Vocab.antt =====
-- The vocabulary on the ranks of a tensor-parallel group: megatron/core/utils.py (`divide`),
-- megatron/core/tensor_parallel/utils.py (`VocabUtility`), megatron/tokenizer/tokenizer.py
-- (`_vocab_size_with_padding`) and the forward pass of `VocabParallelEmbedding` in
-- megatron/core/tensor_parallel/layers.py. A row of the table is an element of the parameter `E`,
-- with its `zero` and `add`. A token is a natural number, so `input_ < 0` is left out; the initial
-- values of the weights are left out.
pub mod Padding
pub mod Lookup
pub mod Shares
pub mod Embedding
mod Tests
use megatron_lm.Prelude.{
  map, range_from, ◌&&◌, ℕ, zero, suc, ◌+◌, ◌-◌, ◌*◌, ◌/◌, ◌%◌, ◌==◌, Bool, true, false, not, ◌||◌,
  ltb, leb, if◌then◌else◌, Option, none, some, List, [], ◌∷◌, length, Result, ok, raise,
  zero_division_error, assert, modulo, floor_div, ◌>>=◌, ◌>>◌, raise_if, slice,
}
use megatron_lm.Bucket.{index}

pub ensure_divisibility : ℕ → ℕ → Result (Unit {0})
ensure_divisibility numerator denominator =
    modulo numerator denominator >>= λ rest. assert (rest == 0)

pub divide : ℕ → ℕ → Result ℕ
divide numerator denominator =
    ensure_divisibility numerator denominator >> floor_div numerator denominator

-- The `while` loop, with the rounds that it may take; `none` if they run out.
pub pad_loop : ℕ → ℕ → ℕ → Option ℕ
pad_loop zero multiple after = none
pad_loop (suc fuel) multiple after =
    let rest = pad_loop fuel multiple (after + 1) in
    if after % multiple == 0 then some after else rest

-- `multiple` rounds are given. A `multiple` of 0 fails in the first test of the loop.
pub vocab_size_with_padding : ℕ → ℕ → ℕ → Result (Option ℕ)
vocab_size_with_padding orig_vocab_size make_vocab_size_divisible_by tensor_model_parallel_size =
    let multiple = make_vocab_size_divisible_by * tensor_model_parallel_size in
    raise_if (multiple == 0) zero_division_error >> ok (pad_loop multiple multiple orig_vocab_size)

pub vocab_range_from_per_partition_vocab_size : ℕ → ℕ → ℕ × ℕ
vocab_range_from_per_partition_vocab_size per_partition_vocab_size rank =
    (rank * per_partition_vocab_size, rank * per_partition_vocab_size + per_partition_vocab_size)

pub vocab_range_from_global_vocab_size : ℕ → ℕ → ℕ → Result (ℕ × ℕ)
vocab_range_from_global_vocab_size global_vocab_size rank world_size =
    divide global_vocab_size world_size >>= λ size.
    ok (vocab_range_from_per_partition_vocab_size size rank)

-- `not torch.any(input_ >= self.num_embeddings)`
pub all_below : ℕ → List ℕ → Bool
all_below n [] = true
all_below n (token ∷ input) = ltb token n && all_below n input

module _ {E : Type 0} (nothing : E) where
  -- The embedding of one token on the rank that keeps the rows of `range`.
  pub row_on : ℕ → ℕ × ℕ → List E → ℕ → Result E
  row_on world_size range weight token =
      if ltb 1 world_size
      then (let masked = ltb token range.0 || leb range.1 token in
          index weight (if masked then 0 else token - range.0) >>= λ row.
          ok (if masked then nothing else row))
      else index weight token

  pub rows_on : ℕ → ℕ × ℕ → List E → List ℕ → Result (List E)
  rows_on world_size range weight [] = ok []
  rows_on world_size range weight (token ∷ input) = do
    row ← row_on world_size range weight token
    rows ← rows_on world_size range weight input
    ok (row ∷ rows)

  -- `output_parallel` of a rank, whose weight is its part of the table.
  pub forward : ℕ → ℕ → List E → List ℕ → Result (List E)
  forward world_size rank table input = do
    range ← vocab_range_from_global_vocab_size (length table) rank world_size
    assert (all_below (length table) input)
    rows_on world_size range (slice range.0 range.1 table) input

-- `reduce_from_tensor_model_parallel_region`: the sum over the ranks below `w`, row by row.
module _ {E : Type 0} (nothing : E) (plus : E → E → E) where
  pub add_rows : List E → List E → List E
  add_rows [] ys = []
  add_rows (x ∷ xs) [] = []
  add_rows (x ∷ xs) (y ∷ ys) = plus x y ∷ add_rows xs ys

  -- For that many rows.
  pub all_reduce : ℕ → ℕ → (ℕ → List E) → List E
  all_reduce count zero outputs = map (λ _. nothing) (range_from 0 count)
  all_reduce count (suc w) outputs = add_rows (all_reduce count w outputs) (outputs w)
