-- ===== src/Schedules.antt =====
-- megatron/core/pipeline_parallel/schedules.py: one rank's run of the 1F1B schedule,
-- `forward_backward_pipelining_without_interleaving`. A tensor is the number of the call that made
-- it: the input tensor of the third `recv_forward` is 2, the output tensor of the third
-- `forward_step` is 2, and a gradient that is received likewise. Events are logged with the newest
-- first. A send or receive goes through the tensor shapes one by one; here it is one event, for any
-- number of shapes, and a receive is numbered on the first stage too, where the tensor is None.
-- Lists that are `None` in a run without backward passes are empty and are not used.
pub mod Messages
pub mod Steps
pub mod Retire
pub mod Rounds
pub mod Flow
pub mod Run
mod Tests
use megatron_lm.Prelude.{
  ℕ, zero, suc, ◌+◌, ◌-◌, ◌%◌, min, Bool, true, false, not, ◌&&◌, ◌||◌, ltb, leb, ◌==◌,
  if◌then◌else◌, Option, none, some, List, [], ◌∷◌, ◌++◌, Result, ok, raise, index_error,
  value_error, ◌>>=◌, ◌>>◌, raise_if,
}

pub record Config : Type 0 where
  pub pipeline_model_parallel_world_size : ℕ
  pub rank : ℕ
  pub num_microbatches : ℕ
  pub overlap_p2p_comm : Bool
  pub forward_only : Bool
  pub num_microbatches_with_partial_activation_checkpoints : Option ℕ
  -- Whether `grad_sync_func` and `finalize_model_grads_func` are given.
  pub grad_sync_func : Bool
  pub finalize_model_grads_func : Bool

pub data Event : Type 0 where
  recv_forward send_forward recv_backward : ℕ → Event
  send_backward : Option ℕ → Event
  -- The two calls that exchange tensors with a neighbour: what is sent, and what is received.
  send_forward_recv_backward : ℕ → ℕ → Event
  send_backward_recv_forward : Option ℕ → ℕ → Event
  -- The microbatch, its input tensor and whether it checkpoints its activations.
  forward : ℕ → Option ℕ → Option Bool → Event
  -- The input tensor, the output tensor, its gradient, and whether gradients are synchronised.
  backward : Option ℕ → ℕ → ℕ → Bool → Event
  run_grad_sync_func run_finalize_model_grads_func : Event

pub record State : Type 0 where
  -- The local variables of the same names.
  pub input_tensor : Option ℕ
  pub output_tensor : ℕ
  pub output_tensor_grad : ℕ
  pub input_tensor_grad : Option ℕ
  pub input_tensors : List (Option ℕ)
  pub output_tensors : List ℕ
  -- The numbers of calls so far of `recv_forward`, `forward_step` and `recv_backward`.
  pub received : ℕ
  pub forwarded : ℕ
  pub received_grads : ℕ
  -- Whether `no_sync_context` is `None`.
  pub grad_sync : Bool
  pub log : List Event

abbrev pub do_log : Event → State → State
do_log e s = record s { log = e ∷ s.log }

abbrev pub do_recv_forward : State → State
do_recv_forward s = record s {
  input_tensor = some s.received;
  received = s.received + 1;
  log = recv_forward s.received ∷ s.log;
}

abbrev pub do_recv_backward : State → State
do_recv_backward s = record s {
  output_tensor_grad = s.received_grads;
  received_grads = s.received_grads + 1;
  log = recv_backward s.received_grads ∷ s.log;
}

abbrev pub do_send_forward : State → State
do_send_forward s = do_log (send_forward s.output_tensor) s

abbrev pub do_send_backward : State → State
do_send_backward s = do_log (send_backward s.input_tensor_grad) s

abbrev pub do_send_forward_recv_backward : State → State
do_send_forward_recv_backward s = record s {
  output_tensor_grad = s.received_grads;
  received_grads = s.received_grads + 1;
  log = send_forward_recv_backward s.output_tensor s.received_grads ∷ s.log;
}

abbrev pub do_send_backward_recv_forward : State → State
do_send_backward_recv_forward s = record s {
  input_tensor = some s.received;
  received = s.received + 1;
  log = send_backward_recv_forward s.input_tensor_grad s.received ∷ s.log;
}

abbrev pub forward_step : Option Bool → State → State
forward_step checkpoint s = record s {
  output_tensor = s.forwarded;
  forwarded = s.forwarded + 1;
  log = forward s.forwarded s.input_tensor checkpoint ∷ s.log;
}

abbrev pub backward_step : State → State
backward_step s = record s {
  input_tensor_grad = s.input_tensor;
  log = backward s.input_tensor s.output_tensor s.output_tensor_grad s.grad_sync ∷ s.log;
}

-- The two calls of `append`, and the two of `pop(0)`.
abbrev pub save : State → State
save s = record s {
  input_tensors = s.input_tensors ++ s.input_tensor ∷ [];
  output_tensors = s.output_tensors ++ s.output_tensor ∷ [];
}

unfoldable pub pop : State → Result State
pop s = elim s.input_tensors [
  | [] ↦ raise index_error
  | x ∷ xs ↦ elim s.output_tensors [
    | [] ↦ raise index_error
    | y ∷ ys ↦
        ok (record s {
          input_tensor = x;
          input_tensors = xs;
          output_tensor = y;
          output_tensors = ys;
        })
  ]
]

module _ (c : Config) where
  -- The rank is below the world size; beyond it the difference would be negative.
  abbrev pub num_warmup_microbatches : ℕ
  num_warmup_microbatches =
      min (c.pipeline_model_parallel_world_size - c.rank - 1) c.num_microbatches

  abbrev pub num_microbatches_remaining : ℕ
  num_microbatches_remaining = c.num_microbatches - num_warmup_microbatches

  -- `checkpoint_activations_microbatch` of a microbatch
  unfoldable pub checkpoint : ℕ → Option Bool
  checkpoint m = elim c.num_microbatches_with_partial_activation_checkpoints [
    | none ↦ none
    | some k ↦ some (leb k (m % (num_warmup_microbatches + 1)))
  ]

  -- `enable_grad_sync()` behind the test on the configuration
  abbrev pub may_sync : Bool → State → State
  may_sync at_end s = record s {
    grad_sync = s.grad_sync || at_end && (not c.grad_sync_func || c.rank == 0);
  }

  -- One round of each loop.
  unfoldable pub warmup_step : ℕ → State → State
  warmup_step i s =
      let sent = do_send_forward (forward_step (checkpoint i) (do_recv_forward s)) in
      if c.forward_only then sent else save sent

  unfoldable pub steady_step : ℕ → State → Result State
  steady_step i s =
      let last_iteration = i == (num_microbatches_remaining - 1) in
      let stepped = forward_step (checkpoint (i + num_warmup_microbatches)) s in
      if c.forward_only
      then ok (
          let sent = do_send_forward stepped in
          if last_iteration then sent else do_recv_forward sent)
      else pop (save (do_send_forward_recv_backward stepped)) >>= λ popped. ok (
          let back =
            backward_step (may_sync (num_warmup_microbatches == 0 && last_iteration) popped) in
          if last_iteration
          then do_send_backward (record back { input_tensor = none })
          else do_send_backward_recv_forward back)

  unfoldable pub cooldown_step : ℕ → State → Result State
  cooldown_step i s = pop (may_sync (i == (num_warmup_microbatches - 1)) s) >>= λ popped.
      ok (do_send_backward (backward_step (do_recv_backward popped)))

  -- The loops, with the number of rounds left and the number of the round.
  unfoldable pub warmup : ℕ → ℕ → State → State
  warmup zero i s = s
  warmup (suc k) i s = warmup k (i + 1) (warmup_step i s)

  unfoldable pub steady : ℕ → ℕ → State → Result State
  steady zero i s = ok s
  steady (suc k) i s = steady_step i s >>= steady k (i + 1)

  unfoldable pub cooldown : ℕ → ℕ → State → Result State
  cooldown zero i s = ok s
  cooldown (suc k) i s = cooldown_step i s >>= cooldown k (i + 1)

  -- The lines after the cooldown loop, under `if not forward_only`.
  unfoldable pub launch_remaining : State → State
  launch_remaining s =
      if s.grad_sync
      then s
      else (let synced = record s { grad_sync = true } in
          if c.grad_sync_func then do_log run_grad_sync_func synced else synced)

  unfoldable pub finalize : State → State
  finalize s =
      if c.finalize_model_grads_func && not c.forward_only
      then do_log run_finalize_model_grads_func s
      else s

abbrev pub initial : State
initial = record {
  input_tensor = none;
  output_tensor = 0;
  output_tensor_grad = 0;
  input_tensor_grad = none;
  input_tensors = [];
  output_tensors = [];
  received = 0;
  forwarded = 0;
  received_grads = 0;
  grad_sync = false;
  log = [];
}

unfoldable pub forward_backward_pipelining_without_interleaving : Config → Result State
forward_backward_pipelining_without_interleaving c = do
  raise_if c.overlap_p2p_comm value_error
  let warm = warmup c (num_warmup_microbatches c) 0 initial
  let ready = if ltb 0 (num_microbatches_remaining c) then do_recv_forward warm else warm
  steadied ← steady c (num_microbatches_remaining c) 0 ready
  cooled ← if c.forward_only then ok steadied else cooldown c (num_warmup_microbatches c) 0 steadied
  ok (finalize c (if c.forward_only then cooled else launch_remaining c cooled))
