-- ===== src/Schedules/Tests.antt =====
-- Runs of the 1F1B schedule, and the theorems at concrete inputs.
use megatron_lm.Prelude.{◌≡◌, refl, ok, raise, value_error, true, false, some, [], ◌∷◌, arith}
use megatron_lm.Schedules.{
  Config, State, recv_forward, send_forward, recv_backward, send_backward,
  send_forward_recv_backward, send_backward_recv_forward, forward, backward,
  run_finalize_model_grads_func, pop, warmup_step, steady_step, cooldown_step, warmup, steady,
  cooldown, checkpoint, launch_remaining, finalize,
  forward_backward_pipelining_without_interleaving,
}
use megatron_lm.Schedules.Rounds.{TotalStep}
use megatron_lm.Schedules.Run.{IsComplete, training_run}

-- The second of three ranks, with three microbatches.
abbrev config : Config
config = record {
  pipeline_model_parallel_world_size = 3;
  rank = 1;
  num_microbatches = 3;
  overlap_p2p_comm = false;
  forward_only = false;
  num_microbatches_with_partial_activation_checkpoints = some 1;
  grad_sync_func = false;
  finalize_model_grads_func = true;
}

abbrev finished : State
finished = record {
  input_tensor = some 2;
  output_tensor = 2;
  output_tensor_grad = 2;
  input_tensor_grad = some 2;
  input_tensors = [];
  output_tensors = [];
  received = 3;
  forwarded = 3;
  received_grads = 3;
  grad_sync = true;
  log =
      run_finalize_model_grads_func
      ∷ send_backward (some 2)
      ∷ backward (some 2) 2 2 true
      ∷ recv_backward 2
      ∷ send_backward (some 1)
      ∷ backward (some 1) 1 1 false
      ∷ send_forward_recv_backward 2 1
      ∷ forward 2 (some 2) (some false)
      ∷ send_backward_recv_forward (some 0) 2
      ∷ backward (some 0) 0 0 false
      ∷ send_forward_recv_backward 1 0
      ∷ forward 1 (some 1) (some true)
      ∷ recv_forward 1
      ∷ send_forward 0
      ∷ forward 0 (some 0) (some false)
      ∷ recv_forward 0
      ∷ [];
}

program : Unit {0}
unfolding pop warmup_step steady_step cooldown_step warmup steady cooldown checkpoint
    launch_remaining finalize forward_backward_pipelining_without_interleaving
program = tt

run-config : forward_backward_pipelining_without_interleaving config ≡ ok finished
unfolding program
run-config = refl

run_overlapping :
    forward_backward_pipelining_without_interleaving (record config { overlap_p2p_comm = true })
    ≡ raise value_error
unfolding program
run_overlapping = refl

training_run_example :
    TotalStep config
      (forward_backward_pipelining_without_interleaving config)
      (IsComplete config refl)
training_run_example = training_run config refl refl (omega arith)
