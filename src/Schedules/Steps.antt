-- ===== src/Schedules/Steps.antt =====
-- The state of a rank after each round of the loops, in a run with backward passes.
use megatron_lm.Schedules.Messages.{
  forwards, backwards, in_flight, Bounded, sent_forward, received_forward, sent_backward,
  received_backward, descending, Timed,
}
use mathlib.Core.Path.{ap₂}
use mathlib.Core.List.{map-append}
use megatron_lm.Prelude.{
  ◌<◌, ◌*◌, ne→==, refl, ◌++◌, sym, ap, ◌∙◌, arith, false, none, range_from-snoc, subst,
  if◌then◌else◌, ◌>>=◌, ℕ, suc, ◌+◌, ◌-◌, ◌≡◌, Bool, not, ◌&&◌, ◌||◌, ◌==◌, Option, some, List, [],
  ◌∷◌, map, range_from, ok,
}
use megatron_lm.Schedules.{
  do_send_forward_recv_backward, do_send_backward_recv_forward, num_microbatches_remaining,
  checkpoint, warmup_step, steady_step, save, do_send_forward, forward_step, do_recv_forward,
  do_send_backward, backward_step, may_sync, Config, State, pop, num_warmup_microbatches,
}

pub pop-cons :
    (s : State) {x : Option ℕ} {xs : List (Option ℕ)} {y : ℕ} {ys : List ℕ}
    → s.input_tensors ≡ x ∷ xs
    → s.output_tensors ≡ y ∷ ys
    → pop s
      ≡ ok (record s {
        input_tensor = x;
        input_tensors = xs;
        output_tensor = y;
        output_tensors = ys;
      })
unfolding pop
pop-cons s hx hy = simp (hx, hy, pop)

zero+ : (k : ℕ) → k ≡ 0 + k
zero+ k = omega arith

pub add-one : (b : ℕ) → b + 1 ≡ suc b
add-one b = omega arith

pub queue-snoc :
    (b k : ℕ) {xs : List (Option ℕ)} {x : Option ℕ}
    → xs ≡ map some (range_from b k)
    → x ≡ some (b + k)
    → xs ++ x ∷ [] ≡ map some (range_from b (suc k))
queue-snoc b k hx h =
    rw (hx, h)
      (sym (map-append some (range_from b k) ((b + k) ∷ [])) ∙ ap (map some) (range_from-snoc b k))

pub outputs-snoc :
    (b k : ℕ) {xs : List ℕ} {x : ℕ}
    → xs ≡ range_from b k
    → x ≡ b + k
    → xs ++ x ∷ [] ≡ range_from b (suc k)
outputs-snoc b k hx h = rw (hx, h) (range_from-snoc b k)

pub descending-step {ℓ} :
    {A : Type ℓ} (f : ℕ → A) (n : ℕ) {m : ℕ} {xs : List A} {x : A}
    → xs ≡ descending f n
    → x ≡ f n
    → m ≡ suc n
    → x ∷ xs ≡ descending f m
descending-step f n hx h e = rw (hx, h, e) refl

module _ (c : Config) where
  -- Whether gradients are synchronised once `b` microbatches have begun their backward pass.
  abbrev pub synced : ℕ → Bool
  synced b = (b == c.num_microbatches) && (not c.grad_sync_func || c.rank == 0)

  abbrev pub backward_of : ℕ → Option ℕ × ℕ × ℕ × Bool
  backward_of m = (some m, m, m, synced (m + 1))

  -- `b` microbatches are done, the next `k` are in flight, `r` input tensors have been received.
  pub record IsRunning (s : State) (b k r : ℕ) : Type 0 where
    pub inputs : s.input_tensors ≡ map some (range_from b k)
    pub outputs : s.output_tensors ≡ range_from b k
    pub received_eq : s.received ≡ r
    pub forwarded_eq : s.forwarded ≡ b + k
    pub grads_eq : s.received_grads ≡ b
    pub sync_eq : s.grad_sync ≡ synced b
    pub forwards_eq : forwards s.log ≡ descending (λ m. (m, some m)) (b + k)
    pub backwards_eq : backwards s.log ≡ descending backward_of b
    pub in_flight_eq : in_flight s.log ≡ k
    pub bounded : Bounded (num_warmup_microbatches c + 1) s.log
    pub sent_forward_eq : sent_forward s.log ≡ b + k
    pub received_forward_eq : received_forward s.log ≡ r
    pub sent_backward_eq : sent_backward s.log ≡ b
    pub received_backward_eq : received_backward s.log ≡ b
    pub timed : c.rank < c.pipeline_model_parallel_world_size → Timed c s.log

  -- The rest of a steady round, on the state after the two `pop(0)`.
  abbrev pub back : Bool → State → State
  back last_iteration popped =
      let after =
        backward_step (may_sync c (num_warmup_microbatches c == 0 && last_iteration) popped) in
      if last_iteration
      then do_send_backward (record after { input_tensor = none })
      else do_send_backward_recv_forward after

  pub sync-step :
      (b : ℕ) (at_end g : Bool)
      → b < c.num_microbatches
      → at_end ≡ (b + 1 == c.num_microbatches)
      → g ≡ synced b
      → (g || at_end && (not c.grad_sync_func || c.rank == 0)) ≡ synced (b + 1)
  sync-step b at_end g low h e = rw (e, h, ne→== b c.num_microbatches (omega arith)) refl

  warmup_step-training :
      c.forward_only ≡ false
      → (i : ℕ) (s : State)
      → warmup_step c i s
        ≡ save (do_send_forward (forward_step (checkpoint c i) (do_recv_forward s)))
  unfolding warmup_step
  warmup_step-training training i s = simp training

  pub steady_step-training :
      c.forward_only ≡ false
      → (i : ℕ) (s p : State)
      → pop (
          save (
            do_send_forward_recv_backward
              (forward_step (checkpoint c (i + num_warmup_microbatches c)) s)))
        ≡ ok p
      → steady_step c i s ≡ ok (back (i == (num_microbatches_remaining c - 1)) p)
  unfolding steady_step
  steady_step-training training i s p h = simp (training, h, ◌>>=◌)

  pub warmup_step-IsRunning :
      c.forward_only ≡ false
      → (i k : ℕ) (s : State) → k < num_warmup_microbatches c
      → IsRunning s 0 k k
      → IsRunning (warmup_step c i s) 0 (suc k) (suc k)
  warmup_step-IsRunning training i k s low h =
      subst (λ s. IsRunning s 0 (suc k) (suc k)) (sym (warmup_step-training training i s))
        (record {
          inputs = queue-snoc 0 k h.inputs (ap some (omega (arith, h.received_eq)));
          outputs = outputs-snoc 0 k h.outputs (omega (arith, h.forwarded_eq));
          received_eq = omega (arith, h.received_eq);
          forwarded_eq = omega (arith, h.forwarded_eq);
          grads_eq = h.grads_eq;
          sync_eq = h.sync_eq;
          forwards_eq =
              descending-step (λ m. (m, some m)) (0 + k) h.forwards_eq
                (ap₂ (λ x y. (x, some y)) h.forwarded_eq (h.received_eq ∙ zero+ k)) (omega arith);
          backwards_eq = h.backwards_eq;
          in_flight_eq = omega (arith, h.in_flight_eq);
          bounded = (
            omega (arith, h.in_flight_eq),
            (omega (arith, h.in_flight_eq), (omega (arith, h.in_flight_eq), h.bounded)),
          );
          sent_forward_eq = omega (arith, h.sent_forward_eq);
          received_forward_eq = omega (arith, h.received_forward_eq);
          sent_backward_eq = h.sent_backward_eq;
          received_backward_eq = h.received_backward_eq;
          timed = λ placed. (
            (
              c.rank + 1 + 2 * k,
              omega (
                arith, h.sent_forward_eq, h.received_forward_eq, h.sent_backward_eq,
                h.received_backward_eq,
              ),
            ),
            (
              (
                c.rank + 2 * k,
                omega (
                  arith, h.sent_forward_eq, h.received_forward_eq, h.sent_backward_eq,
                  h.received_backward_eq,
                ),
              ),
              h.timed placed,
            ),
          );
        })

  -- The oldest microbatch has been taken from the lists, and its gradient has been received.
  pub record IsPopped (p : State) (b k r : ℕ) : Type 0 where
    pub input : p.input_tensor ≡ some b
    pub output : p.output_tensor ≡ b
    pub grad : p.output_tensor_grad ≡ b
    pub inputs : p.input_tensors ≡ map some (range_from (b + 1) k)
    pub outputs : p.output_tensors ≡ range_from (b + 1) k
    pub received_eq : p.received ≡ r
    pub forwarded_eq : p.forwarded ≡ suc (b + k)
    pub grads_eq : p.received_grads ≡ b + 1
    pub sync_eq : p.grad_sync ≡ synced (b + 1)
    pub forwards_eq : forwards p.log ≡ descending (λ m. (m, some m)) (suc (b + k))
    pub backwards_eq : backwards p.log ≡ descending backward_of b
    pub in_flight_eq : in_flight p.log ≡ suc k
    pub bounded : Bounded (num_warmup_microbatches c + 1) p.log
    pub sent_forward_eq : sent_forward p.log ≡ suc (b + k)
    pub received_forward_eq : received_forward p.log ≡ r
    pub sent_backward_eq : sent_backward p.log ≡ b
    pub received_backward_eq : received_backward p.log ≡ b + 1
    pub timed : c.rank < c.pipeline_model_parallel_world_size → Timed c p.log

  -- The microbatch has run backward, and its gradient has not been sent yet.
  pub record IsRetired (s : State) (b k r : ℕ) : Type 0 where
    pub inputs : s.input_tensors ≡ map some (range_from (suc b) k)
    pub outputs : s.output_tensors ≡ range_from (suc b) k
    pub received_eq : s.received ≡ r
    pub forwarded_eq : s.forwarded ≡ suc b + k
    pub grads_eq : s.received_grads ≡ suc b
    pub sync_eq : s.grad_sync ≡ synced (suc b)
    pub forwards_eq : forwards s.log ≡ descending (λ m. (m, some m)) (suc b + k)
    pub backwards_eq : backwards s.log ≡ descending backward_of (suc b)
    pub in_flight_eq : in_flight s.log ≡ k
    pub bounded : Bounded (num_warmup_microbatches c + 1) s.log
    pub sent_forward_eq : sent_forward s.log ≡ suc b + k
    pub received_forward_eq : received_forward s.log ≡ r
    pub sent_backward_eq : sent_backward s.log ≡ b
    pub received_backward_eq : received_backward s.log ≡ suc b
    pub timed : c.rank < c.pipeline_model_parallel_world_size → Timed c s.log
