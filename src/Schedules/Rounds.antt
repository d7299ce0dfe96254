-- ===== src/Schedules/Rounds.antt =====
-- The steady and the cooldown rounds up to their backward passes, and the rounds as a whole.
use mathlib.Core.Path.{ap₂}
use megatron_lm.Prelude.{
  ◌*◌, subst, true, ◌∙◌, eq→==, ne→==, ◌&&◌, ◌-◌, false, none, Result, refl, ap, arith, ◌<◌, ℕ, suc,
  ◌+◌, ◌≡◌, Bool, ◌==◌, some, map, range_from, ok,
}
use megatron_lm.Schedules.{
  do_send_forward_recv_backward, do_send_backward_recv_forward, do_send_backward, cooldown_step,
  num_microbatches_remaining, steady_step, checkpoint, save, forward_step, do_recv_forward,
  do_recv_backward, may_sync, Config, State, pop, num_warmup_microbatches,
}
use megatron_lm.Schedules.Messages.{descending}
use megatron_lm.Schedules.Retire.{
  retire-IsRetired, send-IsRunning, exchange-IsReady, IsReady, retire,
}
use megatron_lm.Schedules.Steps.{
  IsRetired, IsRunning, IsPopped, sync-step, queue-snoc, outputs-snoc, descending-step, back,
  steady_step-training, pop-cons,
}

module _ (c : Config) where
  abbrev exchanged : ℕ → State → State
  exchanged m s = do_send_forward_recv_backward (forward_step (checkpoint c m) s)

  -- A steady round up to its backward pass.
  steady-IsPopped :
      (b m : ℕ) (at_end : Bool) (s : State)
      → b + num_warmup_microbatches c < c.num_microbatches
      → at_end ≡ (b + 1 == c.num_microbatches)
      → IsReady c s b (num_warmup_microbatches c)
      → (p : State) × (pop (save (exchanged m s)) ≡ ok p)
        × IsPopped c
            (may_sync c at_end p)
            b
            (num_warmup_microbatches c)
            (suc (b + num_warmup_microbatches c))
  steady-IsPopped b m at_end s low last h =
      let k = num_warmup_microbatches c in
      let r = h.running in
      let inputs = queue-snoc b k r.inputs h.input in
      let outputs = outputs-snoc b k r.outputs r.forwarded_eq in
      (
        record (save (exchanged m s)) {
          input_tensor = some b;
          input_tensors = map some (range_from (b + 1) k);
          output_tensor = b;
          output_tensors = range_from (b + 1) k;
        },
        pop-cons (save (exchanged m s)) inputs outputs,
        record {
          input = refl;
          output = refl;
          grad = r.grads_eq;
          inputs = refl;
          outputs = refl;
          received_eq = r.received_eq;
          forwarded_eq = omega (arith, r.forwarded_eq);
          grads_eq = omega (arith, r.grads_eq);
          sync_eq = sync-step c b at_end s.grad_sync (omega arith) last r.sync_eq;
          forwards_eq =
              descending-step (λ m. (m, some m)) (b + k) r.forwards_eq
                (ap₂ (λ x y. (x, y)) r.forwarded_eq h.input) refl;
          backwards_eq = r.backwards_eq;
          in_flight_eq = omega (arith, r.in_flight_eq);
          bounded = (omega (arith, r.in_flight_eq), (omega (arith, r.in_flight_eq), r.bounded));
          sent_forward_eq = omega (arith, r.sent_forward_eq);
          received_forward_eq = r.received_forward_eq;
          sent_backward_eq = r.sent_backward_eq;
          received_backward_eq = omega (arith, r.received_backward_eq);
          timed = λ placed. (
            (
              c.rank + 1 + 2 * (b + k),
              omega (
                arith, r.sent_forward_eq, r.received_forward_eq, r.sent_backward_eq,
                r.received_backward_eq,
              ),
            ),
            r.timed placed,
          );
        },
      )

  -- A cooldown round up to its backward pass.
  cooldown-IsPopped :
      (b k : ℕ) (at_end : Bool) (s : State)
      → b + suc k ≡ c.num_microbatches
      → k < num_warmup_microbatches c
      → at_end ≡ (b + 1 == c.num_microbatches)
      → IsRunning c s b (suc k) c.num_microbatches
      → (p : State) × (pop (may_sync c at_end s) ≡ ok p)
        × IsPopped c (do_recv_backward p) b k c.num_microbatches
  cooldown-IsPopped b k at_end s low small last h = (
    record (may_sync c at_end s) {
      input_tensor = some b;
      input_tensors = map some (range_from (b + 1) k);
      output_tensor = b;
      output_tensors = range_from (b + 1) k;
    },
    pop-cons (may_sync c at_end s) h.inputs h.outputs,
    record {
      input = refl;
      output = refl;
      grad = h.grads_eq;
      inputs = refl;
      outputs = refl;
      received_eq = h.received_eq;
      forwarded_eq = omega (arith, h.forwarded_eq);
      grads_eq = omega (arith, h.grads_eq);
      sync_eq = sync-step c b at_end s.grad_sync (omega arith) last h.sync_eq;
      forwards_eq =
          h.forwards_eq
          ∙ ap (descending (λ m. (m, some m))) {x = b + suc k} {y = suc (b + k)} (omega arith);
      backwards_eq = h.backwards_eq;
      in_flight_eq = h.in_flight_eq;
      bounded = (omega (arith, h.in_flight_eq), h.bounded);
      sent_forward_eq = omega (arith, h.sent_forward_eq);
      received_forward_eq = h.received_forward_eq;
      sent_backward_eq = h.sent_backward_eq;
      received_backward_eq = omega (arith, h.received_backward_eq);
      timed = λ placed. (
        (
          2 * c.pipeline_model_parallel_world_size - c.rank - 1 + 2 * b,
          omega (
            arith, h.sent_forward_eq, h.received_forward_eq, h.sent_backward_eq,
            h.received_backward_eq,
          ),
        ),
        h.timed placed,
      );
    },
  )

  pub recv-IsReady :
      (s : State)
      → num_warmup_microbatches c < c.num_microbatches
      → IsRunning c s 0 (num_warmup_microbatches c) (0 + num_warmup_microbatches c)
      → IsReady c (do_recv_forward s) 0 (num_warmup_microbatches c)
  recv-IsReady s more h = record {
    running = record {
      inputs = h.inputs;
      outputs = h.outputs;
      received_eq = omega (arith, h.received_eq);
      forwarded_eq = h.forwarded_eq;
      grads_eq = h.grads_eq;
      sync_eq = h.sync_eq;
      forwards_eq = h.forwards_eq;
      backwards_eq = h.backwards_eq;
      in_flight_eq = h.in_flight_eq;
      bounded = (omega (arith, h.in_flight_eq), h.bounded);
      sent_forward_eq = h.sent_forward_eq;
      received_forward_eq = omega (arith, h.received_forward_eq);
      sent_backward_eq = h.sent_backward_eq;
      received_backward_eq = h.received_backward_eq;
      timed = λ placed. (
        (
          c.rank + 2 * num_warmup_microbatches c,
          omega (
            arith, h.sent_forward_eq, h.received_forward_eq, h.sent_backward_eq,
            h.received_backward_eq,
          ),
        ),
        h.timed placed,
      );
    };
    input = ap some h.received_eq;
  }

  abbrev w : ℕ
  w = num_warmup_microbatches c

  abbrev pub TotalStep : Result State → (State → Type 0) → Type 0
  TotalStep r P = (s : State) × (r ≡ ok s) × P s

  -- A steady round ends the backward passes exactly if it is the last and nothing is in flight.
  abbrev pub steady_end : ℕ → Bool
  steady_end b = w == 0 && (b == (num_microbatches_remaining c - 1))

  steady_end-eq :
      (b : ℕ) → b < num_microbatches_remaining c → steady_end b ≡ (b + 1 == c.num_microbatches)
  steady_end-eq b low = ground arith

  cooldown_end-eq :
      (i : ℕ)
      → i < w
      → (i == (w - 1)) ≡ (num_microbatches_remaining c + i + 1 == c.num_microbatches)
  cooldown_end-eq i low = ground arith

  back-false :
      (last : Bool) (p : State)
      → last ≡ false
      → back c last p
        ≡ do_send_backward_recv_forward (retire c p.input_tensor (may_sync c (w == 0 && last) p))
  back-false true p h = cc
  back-false false p h = refl

  back-true :
      (last : Bool) (p : State)
      → last ≡ true
      → back c last p
        ≡ do_send_backward (record (retire c none (may_sync c (w == 0 && last) p)) {
          input_tensor_grad = p.input_tensor;
        })
  back-true true p h = refl
  back-true false p h = cc

  module _ (training : c.forward_only ≡ false) where
    steady_round :
        (b : ℕ) (s : State)
        → b < num_microbatches_remaining c
        → IsReady c s b w
        → (p : State) × (steady_step c b s
            ≡ ok (back c (b == (num_microbatches_remaining c - 1)) p))
          × IsPopped c (may_sync c (steady_end b) p) b w (suc (b + w))
    steady_round b s low h =
        let (p, popped, done) =
          steady-IsPopped b (b + w) (steady_end b) s (omega arith) (steady_end-eq b low) h in
        (p, steady_step-training c training b s p popped, done)

    pub steady_step-IsReady :
        (b : ℕ) (s : State)
        → suc b < num_microbatches_remaining c
        → IsReady c s b w
        → TotalStep (steady_step c b s) (λ s'. IsReady c s' (suc b) w)
    steady_step-IsReady b s low h =
        let test = ne→== b (num_microbatches_remaining c - 1) (omega arith) in
        let (p, returned, done) = steady_round b s (omega arith) h in
        let q = may_sync c (steady_end b) p in
        let retired = retire-IsRetired c q p.input_tensor b w (suc (b + w)) (omega arith) done in
        (
          do_send_backward_recv_forward (retire c p.input_tensor q),
          returned ∙ ap ok (back-false (b == (num_microbatches_remaining c - 1)) p test),
          exchange-IsReady c (retire c p.input_tensor q) b (omega arith) retired,
        )

    pub steady_step-IsRunning :
        (b : ℕ) (s : State)
        → suc b ≡ num_microbatches_remaining c
        → IsReady c s b w
        → TotalStep (steady_step c b s) (λ s'. IsRunning c s' (suc b) w c.num_microbatches)
    steady_step-IsRunning b s low h =
        let test = eq→== b (num_microbatches_remaining c - 1) (omega arith) in
        let (p, returned, done) = steady_round b s (omega arith) h in
        let q = may_sync c (steady_end b) p in
        let all : suc (b + w) ≡ c.num_microbatches = omega arith in
        let retired = retire-IsRetired c q none b w (suc (b + w)) (omega arith) done in
        (
          do_send_backward (retire c none q),
          returned ∙ ap ok (back-true (b == (num_microbatches_remaining c - 1)) p test),
          send-IsRunning c (retire c none q) b w (omega arith) all
              (subst (IsRetired c (retire c none q) b w) all retired),
        )

    pub cooldown_step-IsRunning :
        (i k : ℕ) (s : State)
        → i + suc k ≡ w
        → IsRunning c s (num_microbatches_remaining c + i) (suc k) c.num_microbatches
        → TotalStep
            (cooldown_step c i s)
            (λ s'. IsRunning c s' (suc (num_microbatches_remaining c + i)) k c.num_microbatches)
    unfolding cooldown_step
    cooldown_step-IsRunning i k s low h =
        let b = num_microbatches_remaining c + i in
        let (p, popped, done) =
          cooldown-IsPopped b k (i == (w - 1)) s (omega arith) (omega arith)
            (cooldown_end-eq i (omega arith)) h in
        let q = retire c p.input_tensor (do_recv_backward p) in
        (
          do_send_backward q,
          rw popped refl,
          send-IsRunning c q b k (omega arith) (omega arith) (
              retire-IsRetired c (do_recv_backward p) p.input_tensor b k c.num_microbatches
                (omega arith) done),
        )
