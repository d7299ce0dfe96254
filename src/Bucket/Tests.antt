-- ===== src/Bucket/Tests.antt =====
-- A bucket of two parameters on rank 1 of 2, and the theorems on it. Elements are numbers, division
-- rounds down, and the other rank contributes the same values.
use megatron_lm.Prelude.{
  ℕ, ◌+◌, ◌/◌, ◌≡◌, refl, true, false, List, [], ◌∷◌, map, ok, raise, assertion_error, arith,
  length-map, length, none, some, ◌>>=◌,
}
use megatron_lm.Bucket.{
  Bucket, contains, init_bucket, reset, shard_slice, shard_buffer, average_input, issue, deliver,
  write_slice, wait_for, has_handle, register_grad_ready, start_grad_sync, finish_grad_sync,
}
use megatron_lm.Bucket.Shards.{part}
use megatron_lm.Bucket.Sync.{register_all, iteration}
use megatron_lm.Bucket.Collectives.{IsCollective, CanReduce, IsReduced}
use megatron_lm.Bucket.Scatter.{sync, sync-IsReduced}

abbrev contents : List ℕ
contents = 8 ∷ 6 ∷ 4 ∷ 2 ∷ []

abbrev bucket : Bucket ℕ
bucket = record {
  params = 7 ∷ 9 ∷ [];
  params_with_grad = [];
  contents = contents;
  offset = 0;
  data_parallel_world_size = 2;
  data_parallel_rank = 1;
  overlap_grad_reduce = true;
  use_distributed_optimizer = true;
  communication_handle = none;
  communication_issued = false;
}

bucket-built : init_bucket (7 ∷ 9 ∷ []) contents 0 2 1 true true ≡ bucket
unfolding init_bucket reset
bucket-built = refl

abbrev double : List ℕ → List ℕ
double = map (λ x. x + x)

-- What rank 1 gets of the sum.
abbrev second_half : List ℕ → List ℕ
second_half xs = part (double xs) (length xs / 2) 1

doubled : IsCollective double second_half 2 1
doubled = record { keeps = λ xs. length-map (λ x. x + x) xs; scatters = λ xs even. refl }

shard_buffer-runs :
    shard_buffer contents 2
    ≡ ok (record { start = 0; stop = 2 } ∷ record { start = 2; stop = 4 } ∷ [])
unfolding shard_buffer shard_slice
shard_buffer-runs = refl

program : Unit {0}
unfolding reset average_input issue deliver write_slice shard_slice shard_buffer start_grad_sync
    finish_grad_sync wait_for has_handle register_grad_ready register_all contains CanReduce
    IsReduced
program = tt

-- The call is made with the last gradient, and its output arrives with `finish_grad_sync`.
abbrev in_progress : Bucket ℕ
in_progress = record bucket {
  params_with_grad = 7 ∷ 9 ∷ [];
  contents = 4 ∷ 3 ∷ 2 ∷ 1 ∷ [];
  communication_handle =
      some
        (record { view = record { start = 2; stop = 4 }; output = 4 ∷ 2 ∷ []; in_flight = true });
  communication_issued = true;
}

register_all-bucket : register_all ◌/◌ double second_half bucket (9 ∷ 7 ∷ []) ≡ ok in_progress
unfolding program
register_all-bucket = refl

finish-in_progress :
    (finish_grad_sync ◌/◌ double second_half in_progress >>= (λ b. ok b.contents))
    ≡ ok (4 ∷ 3 ∷ 4 ∷ 2 ∷ [])
unfolding program
finish-in_progress = refl

iteration_example :
    (b' : Bucket ℕ) × (b'' : Bucket ℕ) × (register_all ◌/◌ double second_half
        (reset bucket)
        (9 ∷ 7 ∷ [])
      ≡ ok b')
    × (start_grad_sync ◌/◌ double second_half b' ≡ raise assertion_error)
    × (finish_grad_sync ◌/◌ double second_half b' ≡ ok b'')
    × IsReduced double true 2 1 (average_input ◌/◌ double second_half bucket) b''.contents
    × (finish_grad_sync ◌/◌ double second_half b'' ≡ ok b'')
    × (start_grad_sync ◌/◌ double second_half b'' ≡ raise assertion_error)
unfolding contains CanReduce
iteration_example =
    iteration ◌/◌ double second_half bucket 9 (7 ∷ []) refl (refl, refl, (refl, refl, tt)) refl
      doubled (omega arith, refl)

abbrev plain : Bucket ℕ
plain = record bucket { overlap_grad_reduce = false }

sync-IsReduced_example :
    (b' : Bucket ℕ) × (sync ◌/◌ double second_half plain ≡ ok b')
    × IsReduced double true 2 1 (average_input ◌/◌ double second_half plain) b'.contents
    × (start_grad_sync ◌/◌ double second_half b' ≡ raise assertion_error)
unfolding CanReduce
sync-IsReduced_example =
    sync-IsReduced ◌/◌ double second_half plain doubled (omega arith, refl) refl refl
