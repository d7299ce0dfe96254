-- ===== src/Bucket/Buffer/Tests.antt =====
-- Runs of a buffer of two buckets on rank 1 of 2. Elements are numbers, division rounds down, and
-- the other rank contributes the same values.
use megatron_lm.Prelude.{
  ℕ, ◌+◌, ◌/◌, ◌≡◌, refl, true, false, List, [], ◌∷◌, map, ok, raise, assertion_error, key_error,
  length, none, get_elem?, subst, zero, suc, some,
}
use megatron_lm.Bucket.{
  Bucket, contains, reset, shard_slice, shard_buffer, average_input, issue, deliver, write_slice,
  wait_for, has_handle, start_grad_sync, finish_grad_sync, register_grad_ready,
}
use megatron_lm.Bucket.Shards.{part}
use megatron_lm.Bucket.Sync.{register_all}
use megatron_lm.Bucket.Buffer.{
  GradBuffer, bucket_of, put_at, zero_contents, reset_buffer, for_buckets, start_all, finish_all,
  register_in, register, register_each,
}
use megatron_lm.Bucket.Buffer.Apart.{only_in, AreKnown, buckets_apart, some_inj}

abbrev contents : List ℕ
contents = 8 ∷ 6 ∷ 4 ∷ 2 ∷ []

abbrev bucket : Bucket ℕ
bucket = record {
  params = 7 ∷ 9 ∷ [];
  params_with_grad = [];
  contents = contents;
  offset = 0;
  data_parallel_world_size = 2;
  data_parallel_rank = 1;
  overlap_grad_reduce = true;
  use_distributed_optimizer = true;
  communication_handle = none;
  communication_issued = false;
}

abbrev double : List ℕ → List ℕ
double = map (λ x. x + x)

-- What rank 1 gets of the sum.
abbrev second_half : List ℕ → List ℕ
second_half xs = part (double xs) (length xs / 2) 1

-- A buffer whose gradients get ready by turns.
abbrev second : Bucket ℕ
second = record bucket { params = 5 ∷ []; contents = 10 ∷ 20 ∷ []; offset = 4 }

abbrev buffer : GradBuffer ℕ
buffer = record {
  buckets = bucket ∷ second ∷ [];
  param_to_bucket = (7, 0) ∷ (9, 0) ∷ (5, 1) ∷ [];
  overlap_grad_reduce = true;
  is_last_microbatch = true;
}

program : Unit {0}
unfolding reset_buffer zero_contents reset register_each register register_in bucket_of put_at
    only_in register_all register_grad_ready contains start_grad_sync issue deliver write_slice
    wait_for has_handle average_input shard_buffer shard_slice start_all finish_all for_buckets
    finish_grad_sync AreKnown
program = tt

reset-buffer : reset_buffer 0 false buffer ≡ buffer
unfolding program
reset-buffer = refl

abbrev called_bucket : Bucket ℕ
called_bucket = record bucket {
  params_with_grad = 7 ∷ 9 ∷ [];
  contents = 4 ∷ 3 ∷ 2 ∷ 1 ∷ [];
  communication_handle =
      some
        (record { view = record { start = 2; stop = 4 }; output = 4 ∷ 2 ∷ []; in_flight = true });
  communication_issued = true;
}

abbrev reduced_bucket : Bucket ℕ
reduced_bucket = record bucket {
  params_with_grad = 7 ∷ 9 ∷ [];
  contents = 4 ∷ 3 ∷ 4 ∷ 2 ∷ [];
  communication_handle =
      some
        (record { view = record { start = 2; stop = 4 }; output = 4 ∷ 2 ∷ []; in_flight = false });
  communication_issued = true;
}

abbrev called_second : Bucket ℕ
called_second = record second {
  params_with_grad = 5 ∷ [];
  contents = 5 ∷ 10 ∷ [];
  communication_handle =
      some (record { view = record { start = 1; stop = 2 }; output = 20 ∷ []; in_flight = true });
  communication_issued = true;
}

abbrev reduced_second : Bucket ℕ
reduced_second = record second {
  params_with_grad = 5 ∷ [];
  contents = 5 ∷ 20 ∷ [];
  communication_handle =
      some (record { view = record { start = 1; stop = 2 }; output = 20 ∷ []; in_flight = false });
  communication_issued = true;
}

abbrev called_buffer : GradBuffer ℕ
called_buffer = record buffer { buckets = called_bucket ∷ called_second ∷ [] }

register_each-buffer :
    register_each ◌/◌ double second_half buffer (9 ∷ 5 ∷ 7 ∷ []) ≡ ok called_buffer
unfolding program
register_each-buffer = refl

finish-buffer :
    finish_all ◌/◌ double second_half called_buffer
    ≡ ok (record buffer { buckets = reduced_bucket ∷ reduced_second ∷ [] })
unfolding program
finish-buffer = refl

start-buffer : start_all ◌/◌ double second_half called_buffer ≡ raise assertion_error
unfolding program
start-buffer = refl

register-unknown : register ◌/◌ double second_half buffer 6 ≡ raise key_error
unfolding program
register-unknown = refl

buffer-ready :
    (i : ℕ) (b : Bucket ℕ)
    → get_elem? buffer.buckets i ≡ some b
    → (b' : Bucket ℕ) × (register_all ◌/◌ double second_half b
          (only_in buffer.param_to_bucket i (9 ∷ 5 ∷ 7 ∷ []))
        ≡ ok b')
unfolding program
buffer-ready zero b h =
    subst
      (λ x.
        (b' : Bucket ℕ) × (register_all ◌/◌ double second_half x
            (only_in buffer.param_to_bucket 0 (9 ∷ 5 ∷ 7 ∷ []))
          ≡ ok b'))
      (some_inj h) (called_bucket, refl)
buffer-ready (suc zero) b h =
    subst
      (λ x.
        (b' : Bucket ℕ) × (register_all ◌/◌ double second_half x
            (only_in buffer.param_to_bucket 1 (9 ∷ 5 ∷ 7 ∷ []))
          ≡ ok b'))
      (some_inj h) (called_second, refl)
buffer-ready (suc (suc i)) b h = cc

buckets_apart_example :
    (g : GradBuffer ℕ) × (register_each ◌/◌ double second_half buffer (9 ∷ 5 ∷ 7 ∷ []) ≡ ok g)
    × ((i : ℕ) (b b' : Bucket ℕ)
        → get_elem? buffer.buckets i ≡ some b
        → register_all ◌/◌ double second_half b (only_in buffer.param_to_bucket i (9 ∷ 5 ∷ 7 ∷ []))
          ≡ ok b'
        → get_elem? g.buckets i ≡ some b')
unfolding program
buckets_apart_example =
    buckets_apart ◌/◌ double second_half buffer (9 ∷ 5 ∷ 7 ∷ []) refl refl
      ((0, refl, bucket, refl), ((1, refl, second, refl), ((0, refl, bucket, refl), tt)))
      buffer-ready
