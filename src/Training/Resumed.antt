-- ===== src/Training/Resumed.antt =====
-- A training that is left and resumed goes on as if it had not been left.
use megatron_lm.Prelude.{
  some_inj, ◌-◌, arith, ap, subst, ◌+◌, zero, Bool, ◌>>=◌, refl, suc, ◌∙◌, ℕ, sym, ◌≡◌, false,
  Result, ok, raise,
}
use megatron_lm.Microbatches.{Floats}
use megatron_lm.Training.{
  Checkpoint, checkpoint, train, is_due, after_duration, after_saving, after_step, train_loop,
  Settings, Events, Run, iterate,
}
use megatron_lm.Training.Counts.{train_loop-next, after_step-Keeps}
use mathlib.Core.Path.{fun_ext}
use megatron_lm.Training.Agreement.{
  SamePlan, Agree, Agree-trans, Agree-sym, Close, Close-refl, Close-trans, steps, steps-Close,
  steps-add, kept-Agree,
}
use megatron_lm.Training.Went.{train_loop-Went}

-- The same settings with no reason to leave the loop early.
abbrev pub uninterrupted : Settings → Settings
uninterrupted settings = record settings {
  adlr_autoresume = false;
  exit_signal_handler = false;
  exit_duration = false;
  exit_interval = 0;
}

module _ (floats : Floats) where
  -- Both calls return states that agree, or raise the same.
  abbrev pub SameEnd : Result (Run floats × Bool) → Result (Run floats × Bool) → Type 0
  SameEnd (ok (r, left)) (ok (t, left')) = (Agree floats) r t
  SameEnd (ok r) (raise e) = ⊥
  SameEnd (raise e) (ok t) = ⊥
  SameEnd (raise e) (raise e') = e ≡ e'

  module _ (settings : Settings) (events : Events) where
    abbrev quiet : Settings
    quiet = uninterrupted settings

    after_step-stays : (r : Run floats) → (after_step floats quiet events r).1 ≡ false
    unfolding after_step after_saving after_duration is_due
    after_step-stays r = ground arith

    -- The last state of a run, without the checkpoints.
    abbrev state_of : Result (Run floats × Bool) → Result (Run floats)
    state_of x = x >>= (λ p. ok p.0)

    train_loop-Close_step :
        (n : ℕ) (r : Run floats) (x : Result (Run floats))
        → iterate floats quiet events r ≡ x
        → ((s : Run floats)
            → (Close floats)
                (state_of (train_loop floats quiet events n s))
                (steps floats quiet events n s))
        → (Close floats)
            (state_of (train_loop floats quiet events (suc n) r))
            (steps floats quiet events (suc n) r)
    unfolding train_loop steps
    train_loop-Close_step n r (raise e) stepped rest = rw stepped refl
    train_loop-Close_step n r (ok s) stepped rest =
        let next = (after_step floats quiet events s).0 in
        let agree =
          kept-Agree floats quiet events s next (after_step-Keeps floats quiet events s) in
        subst (λ x. (Close floats) x (steps floats quiet events (suc n) r))
          (ap state_of
            (sym (train_loop-next floats quiet events n r s stepped (after_step-stays s))))
          (rw stepped (
            (Close-trans floats) (state_of (train_loop floats quiet events n next))
              (steps floats quiet events n next) (steps floats quiet events n s) (rest next)
              (steps-Close floats quiet events n next s agree)))

    train_loop-Close :
        (n : ℕ) (r : Run floats)
        → (Close floats)
            (state_of (train_loop floats quiet events n r))
            (steps floats quiet events n r)
    unfolding train_loop steps
    train_loop-Close zero r = (Close-refl floats) (ok r)
    train_loop-Close (suc n) r =
        train_loop-Close_step n r (iterate floats quiet events r) refl (train_loop-Close n)

    steps-quiet :
        (n : ℕ) (r : Run floats) → steps floats settings events n r ≡ steps floats quiet events n r
    unfolding steps iterate
    steps-quiet zero r = refl
    steps-quiet (suc n) r =
        ap (λ (f : Run floats → Result (Run floats)). iterate floats settings events r >>= f)
          (fun_ext (steps-quiet n))

    Close-SameEnd :
        (x y : Result (Run floats × Bool)) (z : Result (Run floats))
        → (Close floats) (state_of x) z
        → (Close floats) (state_of y) z
        → SameEnd x y
    Close-SameEnd (ok r) (ok t) (ok s) h k = (Agree-trans floats) h ((Agree-sym floats) k)
    Close-SameEnd (raise e) (raise e') (raise e'') h k = h ∙ sym k
    Close-SameEnd (ok r) y (raise e) h k = absurd h
    Close-SameEnd (raise e) y (ok s) h k = absurd h
    Close-SameEnd (ok r) (raise e') (ok s) h k = absurd k
    Close-SameEnd (raise e) (ok t) (raise e'') h k = absurd k

    -- If `train` returns, also when it was left early by an autoresume request, by a signal, by the
    -- time or by the exit interval, then a run from what a checkpoint of its state, with the
    -- optimizer, holds, with a calculator that any update makes the same as the first one, and with
    -- no further reason to leave, ends like a run from the first state with no reason to leave: in
    -- the same iteration, with the same consumed samples, scheduler steps and plan of the
    -- calculator, or by the same exception.
    pub train_resumed :
        (r t u : Run floats) {exit : Bool}
        → train floats settings events r ≡ ok (t, exit)
        → checkpoint floats false u ≡ checkpoint floats false t
        → (SamePlan floats) u.calculator r.calculator
        → SameEnd (train floats quiet events u) (train floats quiet events r)
    unfolding train checkpoint
    train_resumed r t u {exit} left loaded plan =
        let n = settings.train_iters - r.iteration in
        let went = train_loop-Went floats settings events n r t exit left in
        let agree : (Agree floats) u t = record {
          iteration = ap (λ (c : Checkpoint). c.iteration) loaded;
          consumed = ap (λ (c : Checkpoint). c.consumed_train_samples) loaded;
          steps = some_inj (ap (λ (c : Checkpoint). c.num_steps) loaded);
          plan = λ x b. plan x b ∙ sym (went.plan x b);
        } in
        let m = settings.train_iters - u.iteration in
        let split : went.rounds + m ≡ n =
          omega (arith, went.within, went.counted, agree.iteration) in
        let on : steps floats quiet events n r ≡ steps floats quiet events m went.arrived =
          sym (steps-quiet n r)
          ∙ ap (λ k. steps floats settings events k r) (sym split)
          ∙ steps-add floats settings events went.rounds m r went.arrived went.ran
          ∙ steps-quiet m went.arrived in
        Close-SameEnd (train_loop floats quiet events m u) (train_loop floats quiet events n r)
          (steps floats quiet events m went.arrived)
          ((Close-trans floats) (state_of (train_loop floats quiet events m u))
            (steps floats quiet events m u) (steps floats quiet events m went.arrived)
            (train_loop-Close m u)
            (steps-Close floats quiet events m u went.arrived
              ((Agree-trans floats) agree went.agree)))
          (subst ((Close floats) (state_of (train_loop floats quiet events n r))) on
            (train_loop-Close n r))
