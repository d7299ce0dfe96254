-- ===== src/Schedules/Retire.antt =====
-- The end of a round: the backward pass, and the messages after it.
use megatron_lm.Schedules.Messages.{descending}
use megatron_lm.Schedules.Steps.{
  add-one, IsRunning, IsPopped, IsRetired, backward_of, descending-step,
}
use megatron_lm.Prelude.{◌<◌, ◌*◌, refl, ap, ◌∙◌, arith, ℕ, suc, ◌+◌, ◌-◌, ◌≤◌, ◌≡◌, Option, some}
use megatron_lm.Schedules.{
  do_send_backward_recv_forward, do_send_backward, backward_step, Config, State,
  num_warmup_microbatches,
}

module _ (c : Config) where
  abbrev pub retire : Option ℕ → State → State
  retire t p = record (backward_step p) { input_tensor = t }

  pub retire-IsRetired :
      (p : State) (t : Option ℕ) (b k r : ℕ)
      → k ≤ num_warmup_microbatches c
      → IsPopped c p b k r
      → IsRetired c (retire t p) b k r
  retire-IsRetired p t b k r low h = record {
    inputs = rw (← add-one b) h.inputs;
    outputs = rw (← add-one b) h.outputs;
    received_eq = h.received_eq;
    forwarded_eq = omega (arith, h.forwarded_eq);
    grads_eq = omega (arith, h.grads_eq);
    sync_eq = rw (← add-one b) h.sync_eq;
    forwards_eq =
        h.forwards_eq
        ∙ ap (descending (λ m. (m, some m))) {x = suc (b + k)} {y = suc b + k} (omega arith);
    backwards_eq =
        descending-step (backward_of c) b h.backwards_eq
          (rw (h.input, h.output, h.grad, h.sync_eq) refl) refl;
    in_flight_eq = omega (arith, h.in_flight_eq);
    bounded = (omega (arith, h.in_flight_eq), h.bounded);
    sent_forward_eq = omega (arith, h.sent_forward_eq);
    received_forward_eq = h.received_forward_eq;
    sent_backward_eq = h.sent_backward_eq;
    received_backward_eq = omega (arith, h.received_backward_eq);
    timed = h.timed;
  }

  -- Sending the gradient alone, once every microbatch has run forward.
  pub send-IsRunning :
      (s : State) (b k : ℕ)
      → k ≤ num_warmup_microbatches c
      → suc (b + k) ≡ c.num_microbatches
      → IsRetired c s b k c.num_microbatches
      → IsRunning c (do_send_backward s) (suc b) k c.num_microbatches
  send-IsRunning s b k low all h = record {
    inputs = h.inputs;
    outputs = h.outputs;
    received_eq = h.received_eq;
    forwarded_eq = h.forwarded_eq;
    grads_eq = h.grads_eq;
    sync_eq = h.sync_eq;
    forwards_eq = h.forwards_eq;
    backwards_eq = h.backwards_eq;
    in_flight_eq = h.in_flight_eq;
    bounded = (omega (arith, h.in_flight_eq), h.bounded);
    sent_forward_eq = h.sent_forward_eq;
    received_forward_eq = h.received_forward_eq;
    sent_backward_eq = omega (arith, h.sent_backward_eq);
    received_backward_eq = h.received_backward_eq;
    timed = λ placed. (
      (
        2 * c.pipeline_model_parallel_world_size - c.rank + 2 * b,
        omega (
          arith, h.sent_forward_eq, h.received_forward_eq, h.sent_backward_eq,
          h.received_backward_eq,
        ),
      ),
      h.timed placed,
    );
  }

  -- The next input tensor has been received for the round.
  pub record IsReady (s : State) (b k : ℕ) : Type 0 where
    pub running : IsRunning c s b k (suc (b + k))
    pub input : s.input_tensor ≡ some (b + k)

  -- Sending the gradient and receiving the next input tensor in one call.
  pub exchange-IsReady :
      (s : State) (b : ℕ)
      → suc (b + num_warmup_microbatches c) < c.num_microbatches
      → IsRetired c s b (num_warmup_microbatches c) (suc (b + num_warmup_microbatches c))
      → IsReady (do_send_backward_recv_forward s) (suc b) (num_warmup_microbatches c)
  exchange-IsReady s b more h = record {
    running = record {
      inputs = h.inputs;
      outputs = h.outputs;
      received_eq = omega (arith, h.received_eq);
      forwarded_eq = h.forwarded_eq;
      grads_eq = h.grads_eq;
      sync_eq = h.sync_eq;
      forwards_eq = h.forwards_eq;
      backwards_eq = h.backwards_eq;
      in_flight_eq = h.in_flight_eq;
      bounded = (omega (arith, h.in_flight_eq), h.bounded);
      sent_forward_eq = h.sent_forward_eq;
      received_forward_eq = omega (arith, h.received_forward_eq);
      sent_backward_eq = omega (arith, h.sent_backward_eq);
      received_backward_eq = h.received_backward_eq;
      timed = λ placed. (
        (
          2 * c.pipeline_model_parallel_world_size - c.rank + 2 * b,
          omega (
            arith, h.sent_forward_eq, h.received_forward_eq, h.sent_backward_eq,
            h.received_backward_eq,
          ),
        ),
        h.timed placed,
      );
    };
    input = ap some (omega (arith, h.received_eq));
  }
