-- ===== src/Vocab/Tests.antt =====
-- Two ranks with two rows each, where a row is a number, and the theorems at concrete inputs.
use megatron_lm.Vocab.Embedding.{vocab_parallel}
use megatron_lm.Vocab.Lookup.{embed}
use megatron_lm.Prelude.{
  arith, assertion_error, zero_division_error, ◌<◌, raise, ◌≡◌, List, ℕ, refl, ◌∷◌, [], ok, ◌+◌,
}
use megatron_lm.Vocab.{
  add_rows, rows_on, row_on, all_below, vocab_range_from_global_vocab_size, all_reduce,
  vocab_range_from_per_partition_vocab_size, pad_loop, ensure_divisibility, vocab_size_with_padding,
  forward, divide,
}

program : Unit {0}
unfolding ensure_divisibility divide pad_loop vocab_size_with_padding
    vocab_range_from_per_partition_vocab_size vocab_range_from_global_vocab_size all_below row_on
    rows_on forward add_rows all_reduce
program = tt

abbrev table : List ℕ
table = 10 ∷ 20 ∷ 30 ∷ 40 ∷ []

forward-table : forward 0 2 1 table (2 ∷ 0 ∷ 3 ∷ []) ≡ ok (30 ∷ 0 ∷ 40 ∷ [])
unfolding program
forward-table = refl

out_of_bounds : forward 0 2 1 table (4 ∷ []) ≡ raise assertion_error
unfolding program
out_of_bounds = refl

no_multiple : vocab_size_with_padding 10 0 2 ≡ raise zero_division_error
unfolding program
no_multiple = refl

vocab_parallel_example :
    (rows : List ℕ) × (outputs : ℕ → List ℕ) × (embed table (2 ∷ 0 ∷ 3 ∷ []) ≡ ok rows)
    × ((rank : ℕ) → rank < 2 → forward 0 2 rank table (2 ∷ 0 ∷ 3 ∷ []) ≡ ok (outputs rank))
    × (all_reduce 0 ◌+◌ 3 2 outputs ≡ rows)
unfolding program
vocab_parallel_example =
    vocab_parallel 0 ◌+◌ (λ x. omega arith) (λ x. omega arith) table 2 (2 ∷ 0 ∷ 3 ∷ [])
      (omega arith) refl refl
