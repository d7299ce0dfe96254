-- ===== src/Training/Agreement.antt =====
-- States of a training that go on alike, whatever their checkpoints.
use megatron_lm.Prelude.{
  arith, ◌/◌, >>=-eq-ok, ap, ok_inj, subst, ◌+◌, true, zero, Bool, ◌>>=◌, refl, suc, ◌∙◌, ℕ, sym,
  ◌≡◌, Result, ok, raise,
}
use megatron_lm.Microbatches.{
  Rampup, ramp_batch_size, Floats, Calculator, constant, rampup, update, update_constant,
}
use megatron_lm.Training.{Settings, Events, Run, iterate, samples_of, update_num_microbatches}
use megatron_lm.Training.Counts.{Keeps}
use native.Mathlib.Nat.{zero-add, suc-add}

module _ (floats : Floats) where
  -- Two calculators that any update makes the same.
  abbrev pub SamePlan : Calculator floats → Calculator floats → Type 0
  SamePlan c d =
      (consumed : ℕ) (consistency_check : Bool)
      → update_num_microbatches floats c consumed consistency_check
        ≡ update_num_microbatches floats d consumed consistency_check

  -- Two states that go on alike; the checkpoints may differ.
  pub record Agree (r t : Run floats) : Type 0 where
    pub iteration : r.iteration ≡ t.iteration
    pub consumed : r.consumed_train_samples ≡ t.consumed_train_samples
    pub steps : r.num_steps ≡ t.num_steps
    pub plan : SamePlan r.calculator t.calculator

  pub Agree-trans : {r s t : Run floats} → Agree r s → Agree s t → Agree r t
  Agree-trans h k = record {
    iteration = h.iteration ∙ k.iteration;
    consumed = h.consumed ∙ k.consumed;
    steps = h.steps ∙ k.steps;
    plan = λ x b. h.plan x b ∙ k.plan x b;
  }

  pub Agree-sym : {r s : Run floats} → Agree r s → Agree s r
  Agree-sym h = record {
    iteration = sym h.iteration;
    consumed = sym h.consumed;
    steps = sym h.steps;
    plan = λ x b. sym (h.plan x b);
  }

  -- Both calls return states that agree, or raise the same.
  abbrev pub Close : Result (Run floats) → Result (Run floats) → Type 0
  Close (ok r) (ok t) = Agree r t
  Close (ok r) (raise e) = ⊥
  Close (raise e) (ok t) = ⊥
  Close (raise e) (raise e') = e ≡ e'

  pub Close-refl : (x : Result (Run floats)) → Close x x
  Close-refl (ok r) = record { iteration = refl; consumed = refl; steps = refl; plan = λ x b. refl }
  Close-refl (raise e) = refl

  pub Close-trans : (x y z : Result (Run floats)) → Close x y → Close y z → Close x z
  Close-trans (ok r) (ok s) (ok t) h k = Agree-trans h k
  Close-trans (raise e) (raise f) (raise g) h k = h ∙ k
  Close-trans (ok r) (ok s) (raise g) h k = k
  Close-trans (ok r) (raise f) z h k = absurd h
  Close-trans (raise e) (ok s) z h k = absurd h
  Close-trans (raise e) (raise f) (ok t) h k = k

  pub Close-bind :
      (x y : Result (Run floats)) (f g : Run floats → Result (Run floats))
      → Close x y
      → ((r t : Run floats) → Agree r t → Close (f r) (g t))
      → Close (x >>= f) (y >>= g)
  Close-bind (ok r) (ok t) f g h k = k r t h
  Close-bind (raise e) (raise e') f g h k = h
  Close-bind (ok r) (raise e') f g h k = absurd h
  Close-bind (raise e) (ok t) f g h k = absurd h

  pub bind-Close :
      {C : Type 0} (x y : Result C) (f g : C → Result (Run floats))
      → x ≡ y
      → ((c : C) → Close (f c) (g c))
      → Close (x >>= f) (y >>= g)
  bind-Close (ok c) y f g e k = subst (λ z. Close (f c) (z >>= g)) e (k c)
  bind-Close (raise e') y f g e k = subst (λ z. Close (raise e') (z >>= g)) e refl

  pub ramp-SamePlan :
      (c d : Rampup floats) (consumed : ℕ) (b : Bool)
      → update floats c consumed b ≡ ok d
      → SamePlan (rampup d) (rampup c)
  unfolding update_num_microbatches update ramp_batch_size
  ramp-SamePlan c d consumed b h =
      let (current, sized, rest) = >>=-eq-ok (ramp_batch_size floats c consumed) _ h in
      let new : Rampup floats = record c {
        current_global_batch_size = current;
        num_micro_batches = current / c.micro_batch_times_data_parallel_size;
      } in
      let same : new ≡ d = ground arith in
      subst (λ (e : Rampup floats). SamePlan (rampup e) (rampup c)) same (λ x b'. refl)

  -- An update changes only what the next one overwrites.
  pub update-SamePlan :
      (c d : Calculator floats) (consumed : ℕ) (b : Bool)
      → update_num_microbatches floats c consumed b ≡ ok d
      → SamePlan d c
  unfolding update_num_microbatches update_constant
  update-SamePlan (constant c) d consumed b h =
      subst (λ e. SamePlan e (constant c)) (ok_inj h) (λ x b'. refl)
  update-SamePlan (rampup c) d consumed b h =
      let (c', updated, same) = >>=-eq-ok (update floats c consumed b) _ h in
      subst (λ e. SamePlan e (rampup c)) (ok_inj same) (ramp-SamePlan c c' consumed b updated)

  module _ (settings : Settings) (events : Events) where
    -- `n` iterations, with nothing behind them.
    unfoldable pub steps : ℕ → Run floats → Result (Run floats)
    steps zero r = ok r
    steps (suc n) r = iterate floats settings events r >>= steps n

    pub iterate-Close :
        (r t : Run floats)
        → Agree r t
        → Close (iterate floats settings events r) (iterate floats settings events t)
    unfolding iterate
    iterate-Close r t h =
        bind-Close (update_num_microbatches floats r.calculator r.consumed_train_samples true)
          (update_num_microbatches floats t.calculator t.consumed_train_samples true) _ _
          (h.plan r.consumed_train_samples true
            ∙ ap (λ x. update_num_microbatches floats t.calculator x true) h.consumed)
          (λ c. record {
            iteration = ap (λ i. i + 1) h.iteration;
            consumed = ap (λ x. x + samples_of floats settings events c) h.consumed;
            steps = rw (h.iteration, h.steps) refl;
            plan = λ x b. refl;
          })

    pub steps-Close : (n : ℕ) (r t : Run floats) → Agree r t → Close (steps n r) (steps n t)
    unfolding steps
    steps-Close zero r t h = h
    steps-Close (suc n) r t h =
        Close-bind (iterate floats settings events r) (iterate floats settings events t) (steps n)
          (steps n) (iterate-Close r t h) (steps-Close n)

    pub steps-add : (k m : ℕ) (r s : Run floats) → steps k r ≡ ok s → steps (k + m) r ≡ steps m s
    unfolding steps
    steps-add zero m r s h = rw zero-add (ap (steps m) (ok_inj h))
    steps-add (suc k) m r s h =
        let (next, stepped, rest) = >>=-eq-ok (iterate floats settings events r) (steps k) h in
        rw (suc-add, stepped) (steps-add k m next s rest)

    -- After a step the state goes on as the one that was reached by the step.
    pub kept-Agree : (s t : Run floats) → Keeps floats settings events s t → Agree t s
    kept-Agree s t h = record {
      iteration = h.iteration;
      consumed = h.consumed;
      steps = h.steps;
      plan = λ x b. rw h.calculator refl;
    }
