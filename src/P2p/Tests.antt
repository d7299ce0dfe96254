-- ===== src/P2p/Tests.antt =====
-- Two and three stages, and the theorems at concrete inputs. A tensor is its size.
use megatron_lm.P2p.Pairs.{both, neighbours-Dual, toward, Dual}
use megatron_lm.P2p.Outcomes.{communicate-total}
use megatron_lm.P2p.Waits.{Kept}
use megatron_lm.Prelude.{refl, arith, inr, ok, true, [], some, false, ◌≡◌, none, ℕ, ◌∷◌, List}
use megatron_lm.P2p.{
  global_rank, finish, post, allocate, communicate_shapes, ring_exchange_wrapper, p2p_ops,
  batched_p2p_ops, batched_ops, in_order, three_numbers, recv, tensor, send, p2p_requests,
  get_pipeline_model_parallel_prev_rank, Op, Stage, is_pipeline_last_stage,
  get_pipeline_model_parallel_next_rank, Side, is_pipeline_first_stage, Config, communicate,
  Communicated, Shape,
}

abbrev stage : ℕ → Stage
stage rank = record { rank = rank; world_size = 3; virtual = none; global_ranks = 0 ∷ 4 ∷ 8 ∷ [] }

abbrev half : ℕ → Stage
half rank = record { rank = rank; world_size = 2; virtual = none; global_ranks = 5 ∷ 7 ∷ [] }

abbrev config : Config
config = record {
  variable_seq_lengths = false;
  use_ring_exchange_p2p = false;
  batch_p2p_comm = true;
  batch_p2p_sync = true;
  pipeline_dtype = some 16;
}

abbrev shape : Shape
shape = 8 ∷ 2 ∷ []

abbrev size : Shape → Shape
size t = t

abbrev received : Side → Shape
received side = shape

program : Unit {0}
unfolding global_rank is_pipeline_first_stage is_pipeline_last_stage
    get_pipeline_model_parallel_next_rank get_pipeline_model_parallel_prev_rank send recv in_order
    batched_ops batched_p2p_ops p2p_requests p2p_ops ring_exchange_wrapper communicate_shapes
    allocate post finish communicate
program = tt

next_rank : get_pipeline_model_parallel_next_rank (stage 1) ≡ ok 8
unfolding program
next_rank = refl

last_wraps : get_pipeline_model_parallel_next_rank (stage 2) ≡ ok 0
unfolding program
last_wraps = refl

communicate-total_example :
    (r : Communicated Shape) × (communicate size received
        (stage 1)
        config
        (some shape)
        none
        true
        false
        (some shape)
        true
      ≡ ok r)
    × (r.tensor_recv_prev ≡ some (record { shape = shape; dtype = 16 }))
    × (r.tensor_recv_next ≡ none)
    × Kept true r
unfolding program
communicate-total_example =
    communicate-total size received (stage 1) config 0 8 refl refl (some shape) none true false
      shape 16 true refl refl (inr (inr refl))

-- The stages exchange an activation and a gradient.
neighbours-Dual_example :
    (xs ys : List (Op Shape)) × (p2p_requests
        (stage 0)
        none
        none
        (some (tensor shape))
        (some three_numbers)
      ≡ ok xs)
    × (p2p_requests (stage 1) (some (tensor shape)) (some three_numbers) none none ≡ ok ys)
    × Dual (toward 4 xs) (toward 0 ys)
unfolding program
neighbours-Dual_example =
    neighbours-Dual (stage 0) (stage 1) 0 4 8 8 none (some (tensor shape)) (some (tensor shape))
      none none (some three_numbers) (some three_numbers) none refl refl refl refl
      (λ h. absurd (omega arith)) (λ h. absurd (omega arith)) both both
