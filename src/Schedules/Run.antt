-- ===== src/Schedules/Run.antt =====
-- The schedule as a whole, in a run with backward passes.
use megatron_lm.Prelude.{
  Bool, sym, raise_if, inl, inr, Bool-cases, ◌>>=◌, true, [], ℕ, ◌+◌, ◌<◌, ◌≡◌, refl, ap, ◌∙◌,
  subst, false, some, ok, arith, ltb, if◌then◌else◌,
}
use megatron_lm.Schedules.{
  do_log, launch_remaining, finalize, run_grad_sync_func, run_finalize_model_grads_func, Config,
  State, warmup, steady, cooldown, initial, num_warmup_microbatches, num_microbatches_remaining,
  do_recv_forward, forward_backward_pipelining_without_interleaving,
}
use megatron_lm.Schedules.Messages.{
  sent_forward, sent_backward, received_forward, received_backward, Timed, in_flight, forwards,
  backwards, descending, Bounded,
}
use megatron_lm.Schedules.Steps.{IsRunning, backward_of}
use megatron_lm.Schedules.Rounds.{TotalStep}
use megatron_lm.Schedules.Flow.{warmup-IsRunning, cooldown-IsRunning, initial-IsRunning, middle}

if-true : {A : Type 0} (b : Bool) (x y : A) → b ≡ true → x ≡ (if b then x else y)
if-true true x y h = refl
if-true false x y h = cc

module _ (c : Config) (training : c.forward_only ≡ false) where
  abbrev w : ℕ
  w = num_warmup_microbatches c

  abbrev remaining : ℕ
  remaining = num_microbatches_remaining c

  launch-done :
      (s : State) → s.grad_sync ≡ true → record s { grad_sync = true } ≡ launch_remaining c s
  unfolding launch_remaining
  launch-done s h =
      let synced = record s { grad_sync = true } in
      ap (λ g. record s { grad_sync = g }) (sym h)
      ∙ if-true s.grad_sync s
          (if c.grad_sync_func then do_log run_grad_sync_func synced else synced) h

  launch-given :
      (s : State)
      → s.grad_sync ≡ false
      → c.grad_sync_func ≡ true
      → do_log run_grad_sync_func (record s { grad_sync = true }) ≡ launch_remaining c s
  unfolding launch_remaining
  launch-given s h given = simp (h, given)

  launch-absent :
      (s : State)
      → s.grad_sync ≡ false
      → c.grad_sync_func ≡ false
      → record s { grad_sync = true } ≡ launch_remaining c s
  unfolding launch_remaining
  launch-absent s h absent = simp (h, absent)

  finalize-given :
      (s : State)
      → c.finalize_model_grads_func ≡ true
      → do_log run_finalize_model_grads_func s ≡ finalize c s
  unfolding finalize
  finalize-given s given = simp (given, training)

  finalize-absent : (s : State) → c.finalize_model_grads_func ≡ false → s ≡ finalize c s
  unfolding finalize
  finalize-absent s absent = simp absent

  run-eq :
      {s s' : State}
      → c.overlap_p2p_comm ≡ false
      → steady c remaining 0
          (if ltb 0 remaining then do_recv_forward (warmup c w 0 initial) else warmup c w 0 initial)
        ≡ ok s
      → cooldown c w 0 s ≡ ok s'
      → forward_backward_pipelining_without_interleaving c ≡ ok (finalize c (launch_remaining c s'))
  unfolding forward_backward_pipelining_without_interleaving
  run-eq off e e' = simp (off, e, e', training, raise_if, ◌>>=◌)

  -- The run has gone through all microbatches.
  pub record IsComplete (s : State) : Type 0 where
    pub inputs : s.input_tensors ≡ []
    pub outputs : s.output_tensors ≡ []
    pub forwards_eq : forwards s.log ≡ descending (λ m. (m, some m)) c.num_microbatches
    pub backwards_eq : backwards s.log ≡ descending (backward_of c) c.num_microbatches
    pub bounded : Bounded (w + 1) s.log
    pub in_flight_eq : in_flight s.log ≡ 0
    pub sync_eq : s.grad_sync ≡ true
    pub sent_forward_eq : sent_forward s.log ≡ c.num_microbatches
    pub received_forward_eq : received_forward s.log ≡ c.num_microbatches
    pub sent_backward_eq : sent_backward s.log ≡ c.num_microbatches
    pub received_backward_eq : received_backward s.log ≡ c.num_microbatches
    pub timed : c.rank < c.pipeline_model_parallel_world_size → Timed c s.log

  grad_sync_func-IsComplete : (s : State) → IsComplete s → IsComplete (do_log run_grad_sync_func s)
  grad_sync_func-IsComplete s all = record {
    inputs = all.inputs;
    outputs = all.outputs;
    forwards_eq = all.forwards_eq;
    backwards_eq = all.backwards_eq;
    bounded = (omega (arith, all.in_flight_eq), all.bounded);
    in_flight_eq = all.in_flight_eq;
    sync_eq = all.sync_eq;
    sent_forward_eq = all.sent_forward_eq;
    received_forward_eq = all.received_forward_eq;
    sent_backward_eq = all.sent_backward_eq;
    received_backward_eq = all.received_backward_eq;
    timed = all.timed;
  }

  finalize_func-IsComplete :
      (s : State) → IsComplete s → IsComplete (do_log run_finalize_model_grads_func s)
  finalize_func-IsComplete s all = record {
    inputs = all.inputs;
    outputs = all.outputs;
    forwards_eq = all.forwards_eq;
    backwards_eq = all.backwards_eq;
    bounded = (omega (arith, all.in_flight_eq), all.bounded);
    in_flight_eq = all.in_flight_eq;
    sync_eq = all.sync_eq;
    sent_forward_eq = all.sent_forward_eq;
    received_forward_eq = all.received_forward_eq;
    sent_backward_eq = all.sent_backward_eq;
    received_backward_eq = all.received_backward_eq;
    timed = all.timed;
  }

  enabled-IsComplete :
      (s : State)
      → IsRunning c s c.num_microbatches 0 c.num_microbatches
      → IsComplete (record s { grad_sync = true })
  enabled-IsComplete s h = record {
    inputs = h.inputs;
    outputs = h.outputs;
    forwards_eq =
        h.forwards_eq
        ∙ ap (descending (λ m. (m, some m))) {x = c.num_microbatches + 0} {y = c.num_microbatches}
            (omega arith);
    backwards_eq = h.backwards_eq;
    bounded = h.bounded;
    in_flight_eq = h.in_flight_eq;
    sync_eq = refl;
    sent_forward_eq = omega (arith, h.sent_forward_eq);
    received_forward_eq = h.received_forward_eq;
    sent_backward_eq = h.sent_backward_eq;
    received_backward_eq = h.received_backward_eq;
    timed = h.timed;
  }

  launch_remaining-IsComplete :
      (s : State)
      → IsRunning c s c.num_microbatches 0 c.num_microbatches
      → IsComplete (launch_remaining c s)
  launch_remaining-IsComplete s h =
      let on : State = record s { grad_sync = true } in
      let all = enabled-IsComplete s h in
      elim (Bool-cases s.grad_sync) [
        | inl yet ↦ subst IsComplete (launch-done s yet) all
        | inr off ↦ elim (Bool-cases c.grad_sync_func) [
          | inl given ↦
              subst IsComplete (launch-given s off given) (grad_sync_func-IsComplete on all)
          | inr absent ↦ subst IsComplete (launch-absent s off absent) all
        ]
      ]

  finalize-IsComplete : (s : State) → IsComplete s → IsComplete (finalize c s)
  finalize-IsComplete s all = elim (Bool-cases c.finalize_model_grads_func) [
    | inl given ↦ subst IsComplete (finalize-given s given) (finalize_func-IsComplete s all)
    | inr absent ↦ subst IsComplete (finalize-absent s absent) all
  ]

  -- With `forward_only` and `overlap_p2p_comm` off and at least one microbatch, the 1F1B schedule
  -- returns, and its run is complete: the lists of kept tensors are empty again; every microbatch
  -- has run forward once, in order, on the input tensor of its number; every microbatch has run
  -- backward once, in order, on its own input tensor, output tensor and gradient; no backward pass
  -- but the last synchronises gradients, and that one does exactly if `grad_sync_func` is not given
  -- or the rank is 0; synchronisation is on at the end; at every moment at most
  -- `num_warmup_microbatches + 1` microbatches are in flight; each kind of message has been sent
  -- and received `num_microbatches` times; and on a rank below the number of stages, each call that
  -- exchanges messages falls on a time of the timetable `ByTime`.
  pub training_run :
      c.overlap_p2p_comm ≡ false
      → 0 < c.num_microbatches
      → TotalStep c (forward_backward_pipelining_without_interleaving c) IsComplete
  training_run off pos =
      let warm = warmup c w 0 initial in
      let (s, e, h) = middle c training remaining warm refl (
        warmup-IsRunning c training w 0 initial (omega arith) (initial-IsRunning c training pos)) in
      let (s', e', h') =
        cooldown-IsRunning c training w 0 s (omega arith)
          (subst (λ b. IsRunning c s b w c.num_microbatches) (omega arith) h) in
      let complete = launch_remaining-IsComplete s' h' in
      (
        finalize c (launch_remaining c s'),
        run-eq off e e',
        finalize-IsComplete (launch_remaining c s') complete,
      )
