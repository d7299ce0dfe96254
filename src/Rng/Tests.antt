-- ===== src/Rng/Tests.antt =====
-- Runs of the generators, and the theorems at concrete inputs. A state is a number, and a draw adds one.
use megatron_lm.Rng.Checkpoint.Replay.{backward_again, backward_replays}
use megatron_lm.Rng.Seeds.{model_parallel_cuda_manual_seed-total}
use megatron_lm.Rng.Forks.{draws_outside, uses, run_restores}
use megatron_lm.Rng.Checkpoint.{
  set_back, run_on, set_states, get_states, put_view, Pass, write, view_of, forward, Machine,
  backward,
}
use megatron_lm.Prelude.{arith, ◌≡◌, ℕ, refl, ◌∷◌, [], none, true, ◌+◌}
use megatron_lm.Rng.{
  expert_parallel_seed, tensor_model_parallel_seed, next_add, add, reset, sequence, draw_cuda,
  expert_parallel_rng, fork, then_run, data_parallel_rng, assign, forked, Program, run,
  model_parallel_cuda_manual_seed, lookup, model_parallel_rng, View,
}

abbrev advance : ℕ → ℕ
advance state = state + 1

-- A dropout inside the tensor-parallel region, and one outside it.
abbrev layer : Program
layer = then_run (forked model_parallel_rng (then_run draw_cuda draw_cuda)) draw_cuda

abbrev machine : Machine ℕ
machine = record {
  cpu = 1;
  cuda = 100;
  store = λ i. (model_parallel_rng, 500) ∷ [];
  allocated = 1;
  states_ = 0;
}

program : Unit {0}
unfolding lookup assign fork sequence run reset add next_add tensor_model_parallel_seed
    expert_parallel_seed model_parallel_cuda_manual_seed uses draws_outside write put_view
    get_states set_states run_on forward set_back backward
program = tt

run-layer :
    run advance layer (record { cpu = 1; cuda = 100; states = (model_parallel_rng, 500) ∷ [] })
    ≡ record {
      view = record { cpu = 1; cuda = 101; states = (model_parallel_rng, 502) ∷ [] };
      drawn = 500 ∷ 501 ∷ 100 ∷ [];
      error = none;
    }
unfolding program
run-layer = refl

model_parallel_cuda_manual_seed-total_example :
    model_parallel_cuda_manual_seed advance 1234 3 2
      (record { states_ = (0, 5) ∷ []; seeds_ = 4 ∷ []; cuda = 7 })
    ≡ (
      record {
        states_ =
            (data_parallel_rng, 1235)
            ∷ (model_parallel_rng, 3956)
            ∷ (expert_parallel_rng, 2462)
            ∷ [];
        seeds_ = 2461 ∷ 3955 ∷ 1234 ∷ [];
        cuda = 1235;
      },
      none,
    )
unfolding program
model_parallel_cuda_manual_seed-total_example =
    model_parallel_cuda_manual_seed-total advance 1234 3 2
      (record { states_ = (0, 5) ∷ []; seeds_ = 4 ∷ []; cuda = 7 })

abbrev start : View ℕ
start = record {
  cpu = 1;
  cuda = 100;
  states = (model_parallel_rng, 500) ∷ (data_parallel_rng, 9) ∷ [];
}

run_restores_example : (run advance (forked model_parallel_rng draw_cuda) start).view.cuda ≡ 100
unfolding program
run_restores_example = run_restores advance (forked model_parallel_rng draw_cuda) start refl

-- The pass, and the two backward passes after it.
abbrev first : Machine ℕ
first = (forward advance layer machine).1.machine

abbrev second : Pass ℕ
second = backward advance layer true (forward advance layer machine).0 first

backward_replays_example :
    (second.drawn ≡ 500 ∷ 501 ∷ 100 ∷ [])
    × (second.error ≡ none)
    × (second.error ≡ none
        → view_of second.machine
          ≡ record { cpu = 1; cuda = 101; states = (model_parallel_rng, 502) ∷ [] })
unfolding program
backward_replays_example =
    backward_replays advance layer machine (omega arith) first refl (omega arith)

backward_again_example :
    (backward advance layer true (forward advance layer machine).0 second.machine).drawn
    ≡ 502 ∷ 503 ∷ 100 ∷ []
unfolding program
backward_again_example =
    backward_again advance layer machine (omega arith) first second.machine refl (omega arith) refl
      (omega arith)
