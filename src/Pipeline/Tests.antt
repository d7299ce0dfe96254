-- ===== src/Pipeline/Tests.antt =====
-- A pipeline of two ranks.
use megatron_lm.Schedules.{
  send_forward, recv_backward, recv_forward, send_backward_recv_forward, send_forward_recv_backward,
  forward_backward_pipelining_without_interleaving, finalize, launch_remaining, checkpoint,
  cooldown, steady, warmup, cooldown_step, steady_step, warmup_step, pop, send_backward, Config,
}
use megatron_lm.Prelude.{some, ◌⊎◌, ◌≤◌, ◌∷◌, [], none, arith, ◌≡◌, false, refl}
use megatron_lm.Pipeline.{
  forward_backward_pipelining_without_interleaving, call_returns, stay, then_step, Returned, bump,
  remaining, posted, log_of, communications, calls, Config, Steps, Step,
}
use megatron_lm.Pipeline.Progress.{AllDone, all_calls, no_deadlock}

-- Two stages, with two microbatches.
abbrev config : Config
config = record {
  pipeline_model_parallel_world_size = 2;
  rank = 0;
  num_microbatches = 2;
  overlap_p2p_comm = false;
  forward_only = false;
  num_microbatches_with_partial_activation_checkpoints = none;
  grad_sync_func = false;
  finalize_model_grads_func = false;
}

program : Unit {0}
unfolding checkpoint calls communications log_of posted remaining bump pop warmup_step steady_step
    cooldown_step warmup steady cooldown launch_remaining finalize
    forward_backward_pipelining_without_interleaving
program = tt

calls_first :
    calls config 0
    ≡ send_backward (some 1)
      ∷ recv_backward 1
      ∷ send_backward (some 0)
      ∷ send_forward_recv_backward 1 0
      ∷ recv_forward 1
      ∷ send_forward 0
      ∷ recv_forward 0
      ∷ []
unfolding program
calls_first = refl

calls_last :
    calls config 1
    ≡ send_backward (some 1)
      ∷ send_forward_recv_backward 1 1
      ∷ send_backward_recv_forward (some 0) 1
      ∷ send_forward_recv_backward 0 0
      ∷ recv_forward 0
      ∷ []
unfolding program
calls_last = refl

all_calls-config : all_calls config refl refl (omega arith) ≡ 12
unfolding program
all_calls-config = refl

-- The first rank's first call exchanges nothing.
first_returns : Steps config 1 (λ r. 0) (bump 0 (λ r. 0))
unfolding program
first_returns = then_step stay (
    call_returns 0 (omega arith) (omega arith) (record {
      to_next = λ _. omega arith;
      from_next = λ _. omega arith;
      to_previous = λ q e. absurd (omega arith);
      from_previous = λ q e. absurd (omega arith);
    }))

no_deadlock_example :
    (1 ≤ all_calls config refl refl (omega arith))
    × (AllDone config refl refl (omega arith) (bump 0 (λ r. 0))
        ⊎ ((end : Returned) × Step config (bump 0 (λ r. 0)) end))
no_deadlock_example = no_deadlock config refl refl (omega arith) first_returns
