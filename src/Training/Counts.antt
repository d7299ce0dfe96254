-- ===== src/Training/Counts.antt =====
-- How many samples a training with a constant batch size consumes.
use megatron_lm.Microbatches.Ramp.{init_constant_exact}
use megatron_lm.Prelude.{
  zero, inr, refl, inl, Bool-cases, if◌then◌else◌, ◌-◌, ◌/◌, ◌<◌, ◌∙◌, some, ap, suc, ◌+◌, ◌≤◌,
  none, ok, ◌*◌, ℕ, false, true, Bool, ◌≡◌, arith,
}
use megatron_lm.Microbatches.{update_constant, constant, init_constant, Constant, Floats}
use megatron_lm.Training.{
  get_num_microbatches, samples_of, update_num_microbatches, update_train_iters, iterate,
  train_loop, train, Bool, Settings, Events, Run, after_step, after_autoresume, after_saving,
  after_duration, save_checkpoint,
}
use native.Mathlib.Nat.{
  mul_comm, suc-mul, zero-mul, div-mul-le_self, mul-le-mul_right, div-add-mod', mod-lt,
}

module _ (floats : Floats) (settings : Settings) (events : Events) where
  -- What follows a step changes only the checkpoints.
  pub record Keeps (r t : Run floats) : Type 0 where
    pub iteration : t.iteration ≡ r.iteration
    pub consumed : t.consumed_train_samples ≡ r.consumed_train_samples
    pub steps : t.num_steps ≡ r.num_steps
    pub calculator : t.calculator ≡ r.calculator

  after_duration-Keeps :
      (b : Bool) (r : Run floats) → Keeps r (after_duration floats settings events b r).0
  unfolding after_duration save_checkpoint
  after_duration-Keeps b r = ground arith

  after_saving-Keeps :
      (b : Bool) (r : Run floats) → Keeps r (after_saving floats settings events b r).0
  unfolding after_saving save_checkpoint
  after_saving-Keeps b r = ground (arith, after_duration-Keeps b r)

  after_autoresume-Keeps : (r : Run floats) → Keeps r (after_autoresume floats settings events r).0
  unfolding after_autoresume save_checkpoint
  after_autoresume-Keeps r = ground (
    arith,
    after_saving-Keeps true (save_checkpoint floats settings events r),
    after_saving-Keeps false r,
  )

  pub after_step-Keeps : (r : Run floats) → Keeps r (after_step floats settings events r).0
  unfolding after_step save_checkpoint
  after_step-Keeps r = ground (arith, after_autoresume-Keeps r)

  pub train_loop-next :
      (n : ℕ) (r s : Run floats)
      → iterate floats settings events r ≡ ok s
      → (after_step floats settings events s).1 ≡ false
      → train_loop floats settings events (suc n) r
        ≡ train_loop floats settings events n (after_step floats settings events s).0
  unfolding train_loop
  train_loop-next n r s stepped stays = ground arith

  pub train_loop-exit :
      (n : ℕ) (r s : Run floats)
      → iterate floats settings events r ≡ ok s
      → (after_step floats settings events s).1 ≡ true
      → train_loop floats settings events (suc n) r
        ≡ ok ((after_step floats settings events s).0, true)
  unfolding train_loop
  train_loop-exit n r s stepped exits = ground arith

  module _ (g : ℕ) (c : Constant)
      (exact : c.num_micro_batches * (settings.micro_batch_size * settings.data_parallel_size)
        ≡ g) where
    samples_of-constant : samples_of floats settings events (constant c) ≡ g
    unfolding samples_of get_num_microbatches
    samples_of-constant =
        mul_comm (settings.data_parallel_size * settings.micro_batch_size) c.num_micro_batches
        ∙ ap (λ t. c.num_micro_batches * t)
            (mul_comm settings.data_parallel_size settings.micro_batch_size)
        ∙ exact

    iterate-constant :
        (r : Run floats)
        → r.calculator ≡ constant c
        → (s : Run floats) × (iterate floats settings events r ≡ ok s)
          × (s.iteration ≡ r.iteration + 1)
          × (s.consumed_train_samples ≡ r.consumed_train_samples + g)
          × (s.calculator ≡ constant c)
    unfolding iterate update_num_microbatches update_constant
    iterate-constant r e = (
      record r {
        iteration = r.iteration + 1;
        consumed_train_samples =
            r.consumed_train_samples + samples_of floats settings events (constant c);
        num_steps =
            (if events.update_successful (r.iteration + 1)
              then r.num_steps + samples_of floats settings events (constant c)
              else r.num_steps);
        calculator = constant c;
      },
      rw e refl,
      refl,
      rw samples_of-constant refl,
      refl,
    )

    -- `k` iterations of `n` have been run from `r` to `t`, all of them unless the loop was left.
    pub record Ran (n : ℕ) (r t : Run floats) (exit : Bool) : Type 0 where
      pub rounds : ℕ
      pub within : rounds ≤ n
      pub all_run : exit ≡ false → rounds ≡ n
      pub counted : t.iteration ≡ r.iteration + rounds
      pub consumed : t.consumed_train_samples ≡ r.consumed_train_samples + rounds * g

    Ran-exit :
        (n : ℕ) (r s t : Run floats)
        → s.iteration ≡ r.iteration + 1
        → s.consumed_train_samples ≡ r.consumed_train_samples + g
        → Keeps s t
        → Ran (suc n) r t true
    Ran-exit n r s t counted consumed kept = record {
      rounds = 1;
      within = omega arith;
      all_run = λ h. cc;
      counted = kept.iteration ∙ counted;
      consumed = omega (arith, kept.consumed, consumed);
    }

    Ran-next :
        (n : ℕ) (r s t u : Run floats) (exit : Bool)
        → s.iteration ≡ r.iteration + 1
        → s.consumed_train_samples ≡ r.consumed_train_samples + g
        → Keeps s t
        → Ran n t u exit
        → Ran (suc n) r u exit
    Ran-next n r s t u exit counted consumed kept ran = record {
      rounds = suc ran.rounds;
      within = omega (arith, ran.within);
      all_run = λ h. ap suc (ran.all_run h);
      counted = omega (arith, ran.counted, kept.iteration);
      consumed = omega (arith, ran.consumed, kept.consumed, suc-mul ran.rounds g);
    }

    -- With a constant calculator the loop returns, after some number of rounds that count the samples
    -- of one global batch each.
    pub train_loop-Ran :
        (n : ℕ) (r : Run floats)
        → r.calculator ≡ constant c
        → (t : Run floats) × (exit : Bool) × (train_loop floats settings events n r ≡ ok (t, exit))
          × Ran n r t exit
    train_loop-Ran zero r e = (
      r,
      false,
      (unfold train_loop in refl),
      record {
        rounds = 0;
        within = omega arith;
        all_run = λ h. refl;
        counted = omega arith;
        consumed = omega (arith, zero-mul g);
      },
    )
    train_loop-Ran (suc n) r e =
        let (s, stepped, counted, consumed, same) = iterate-constant r e in
        let kept = after_step-Keeps s in
        let next = (after_step floats settings events s).0 in
        elim (Bool-cases (after_step floats settings events s).1) [
          | inl exits ↦ (
            next,
            true,
            train_loop-exit n r s stepped exits,
            Ran-exit n r s next counted consumed kept,
          )
          | inr stays ↦
              let (t, exit, ended, ran) = train_loop-Ran n next (kept.calculator ∙ same) in
              (
                t,
                exit,
                train_loop-next n r s stepped stays ∙ ended,
                Ran-next n r s next t exit counted consumed kept ran,
              )
        ]

  -- With a constant calculator that is built for the sizes of the settings, and with as many
  -- iterations as `update_train_iters` computes for a number of samples, `train` from the start
  -- returns, and consumes at most that number of samples; unless it is left early, less than one
  -- global batch of them is left over.
  pub train_constant :
      (g samples : ℕ) (c : Constant) (iters : ℕ) (r : Run floats)
      → init_constant g settings.micro_batch_size settings.data_parallel_size ≡ ok c
      → update_train_iters floats 0 samples g none (constant c) ≡ some (ok iters)
      → settings.train_iters ≡ iters
      → r.calculator ≡ constant c
      → r.iteration ≡ 0
      → r.consumed_train_samples ≡ 0
      → (t : Run floats) × (exit : Bool) × (train floats settings events r ≡ ok (t, exit))
        × (t.consumed_train_samples ≤ samples)
        × (exit ≡ false → samples < t.consumed_train_samples + g)
  unfolding train update_train_iters
  train_constant g samples c iters r built planned same e start fresh =
      let (some_batch, exact) =
        init_constant_exact g settings.micro_batch_size settings.data_parallel_size built in
      let pos : 0 < g = ground arith in
      let q : iters ≡ samples / g = ground arith in
      let n = settings.train_iters - r.iteration in
      let (t, exit, ended, ran) = train_loop-Ran g c exact n r e in
      let all : n ≡ samples / g = omega arith in
      let few : ran.rounds * g ≤ samples / g * g = mul-le-mul_right g (omega (arith, ran.within)) in
      (
        t,
        exit,
        ended,
        omega (arith, ran.consumed, div-mul-le_self samples g),
        λ h.
            let full : ran.rounds * g ≡ samples / g * g = ap (λ k. k * g) (ran.all_run h ∙ all) in
            omega (arith, ran.consumed, div-add-mod' samples g, mod-lt samples pos),
      )
