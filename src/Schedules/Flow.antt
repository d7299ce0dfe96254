-- ===== src/Schedules/Flow.antt =====
-- The state of a rank after each loop, in a run with backward passes.
use megatron_lm.Prelude.{
  ◌>>=◌, ne→==, ℕ, zero, suc, ◌+◌, ◌<◌, ◌≡◌, refl, ap, ◌∙◌, subst, false, Result, ok, arith, ltb,
  lt→ltb, if◌then◌else◌,
}
use megatron_lm.Schedules.{
  Config, State, warmup_step, steady_step, cooldown_step, warmup, steady, cooldown, initial,
  num_warmup_microbatches, num_microbatches_remaining, do_recv_forward,
}
use megatron_lm.Schedules.Retire.{IsReady}
use megatron_lm.Schedules.Steps.{IsRunning, warmup_step-IsRunning}
use megatron_lm.Schedules.Rounds.{
  TotalStep, recv-IsReady, steady_step-IsReady, steady_step-IsRunning, cooldown_step-IsRunning,
}

module _ (c : Config) (training : c.forward_only ≡ false) where
  abbrev w : ℕ
  w = num_warmup_microbatches c

  abbrev remaining : ℕ
  remaining = num_microbatches_remaining c

  then_loop :
      (P Q : State → Type 0) (r : Result State) (f : State → Result State)
      → TotalStep c r P
      → ((s : State) → P s → TotalStep c (f s) Q)
      → TotalStep c (r >>= f) Q
  then_loop P Q r f (s, e, p) next = let (t, e', q) = next s p in (t, ap (λ r. r >>= f) e ∙ e', q)

  pub warmup-IsRunning :
      (k i : ℕ) (s : State) → i + k ≡ w → IsRunning c s 0 i i → IsRunning c (warmup c k i s) 0 w w
  unfolding warmup
  warmup-IsRunning zero i s e h = subst (λ i. IsRunning c s 0 i i) (omega arith) h
  warmup-IsRunning (suc k) i s e h = warmup-IsRunning k (i + 1) (warmup_step c i s) (omega arith) (
      subst (λ j. IsRunning c (warmup_step c i s) 0 j j) (omega arith)
        (warmup_step-IsRunning c training i i s (omega arith) h))

  steady-IsRunning :
      (k b : ℕ) (s : State)
      → b + suc k ≡ remaining
      → IsReady c s b w
      → TotalStep c (steady c (suc k) b s) (λ s'. IsRunning c s' remaining w c.num_microbatches)
  unfolding steady
  steady-IsRunning zero b s e h =
      let (s', e', r) = steady_step-IsRunning c training b s (omega arith) h in
      (
        s',
        ap (λ r. r >>= ok) e',
        subst (λ b. IsRunning c s' b w c.num_microbatches) (omega arith) r,
      )
  steady-IsRunning (suc k) b s e h =
      then_loop (λ s'. IsReady c s' (b + 1) w) (λ s'. IsRunning c s' remaining w c.num_microbatches)
        (steady_step c b s) (steady c (suc k) (b + 1))
        (let (s', e', r) = steady_step-IsReady c training b s (omega arith) h in
          (s', e', subst (λ b. IsReady c s' b w) (omega arith) r))
        (λ s' h'. steady-IsRunning k (b + 1) s' (omega arith) h')

  pub cooldown-IsRunning :
      (k i : ℕ) (s : State)
      → i + k ≡ w
      → IsRunning c s (remaining + i) k c.num_microbatches
      → TotalStep c
          (cooldown c k i s)
          (λ s'. IsRunning c s' c.num_microbatches 0 c.num_microbatches)
  unfolding cooldown
  cooldown-IsRunning zero i s e h =
      (s, refl, subst (λ b. IsRunning c s b 0 c.num_microbatches) (omega arith) h)
  cooldown-IsRunning (suc k) i s e h =
      then_loop (λ s'. IsRunning c s' (remaining + (i + 1)) k c.num_microbatches)
        (λ s'. IsRunning c s' c.num_microbatches 0 c.num_microbatches) (cooldown_step c i s)
        (cooldown c k (i + 1))
        (let (s', e', h') = cooldown_step-IsRunning c training i k s e h in
          (s', e', subst (λ b. IsRunning c s' b k c.num_microbatches) (omega arith) h'))
        (λ s' h'. cooldown-IsRunning k (i + 1) s' (omega arith) h')

  pub initial-IsRunning : 0 < c.num_microbatches → IsRunning c initial 0 0 0
  initial-IsRunning pos = record {
    inputs = refl;
    outputs = refl;
    received_eq = refl;
    forwarded_eq = refl;
    grads_eq = refl;
    sync_eq = rw (ne→== 0 c.num_microbatches (omega arith)) refl;
    forwards_eq = refl;
    backwards_eq = refl;
    in_flight_eq = refl;
    bounded = tt;
    sent_forward_eq = refl;
    received_forward_eq = refl;
    sent_backward_eq = refl;
    received_backward_eq = refl;
    timed = λ _. tt;
  }

  -- From the end of the warmup to the start of the cooldown.
  pub middle :
      (m : ℕ) (s : State)
      → m ≡ remaining
      → IsRunning c s 0 w w
      → TotalStep c
          (steady c m 0 (if ltb 0 m then do_recv_forward s else s))
          (λ s'. IsRunning c s' remaining w c.num_microbatches)
  unfolding steady
  middle zero s e h = (s, refl, rw (← e) (subst (IsRunning c s 0 w) (omega arith) h))
  middle (suc m) s e h =
      let ready = recv-IsReady c s (omega arith) (subst (IsRunning c s 0 w) (omega arith) h) in
      let (s', e', h') = steady-IsRunning m 0 (do_recv_forward s) (omega arith) ready in
      (s', rw (lt→ltb 0 (suc m) (omega arith)) e', h')
