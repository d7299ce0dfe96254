-- ===== src/Training/Saved.antt =====
-- No way out of a training loses what has been trained.
use megatron_lm.Prelude.{
  ◌>>=◌, ◌-◌, zero, inr, inl, inr, ok_inj, ap, subst, ◌∙◌, sym, inl, Bool-cases, >>=-eq-ok, suc,
  ◌<◌, false, ok, arith, ℕ, refl, Bool, some, true, ◌≡◌, get_elem?,
}
use megatron_lm.Microbatches.{Floats}
use megatron_lm.Training.{
  Settings, Events, Run, iterate, after_step, after_autoresume, after_saving, after_duration,
  train_loop, train, save_checkpoint, checkpoint, pretrain, save_last,
}
use megatron_lm.Training.Counts.{train_loop-next, train_loop-exit}

module _ (floats : Floats) (settings : Settings) (events : Events) where
  -- The last checkpoint holds the state.
  abbrev pub IsSaved : Run floats → Type 0
  IsSaved r = get_elem? r.saved 0 ≡ some (checkpoint floats settings.no_save_optim r)

  save_checkpoint-IsSaved : (r : Run floats) → IsSaved (save_checkpoint floats settings events r)
  unfolding save_checkpoint checkpoint
  save_checkpoint-IsSaved r = refl

  module _ (saving : settings.save ≡ true) where
    after_duration-IsSaved :
        (b : Bool) (r : Run floats)
        → (b ≡ true → IsSaved r)
        → (after_duration floats settings events b r).1 ≡ true
        → IsSaved (after_duration floats settings events b r).0
    unfolding after_duration
    after_duration-IsSaved true r held exits = ground (arith, held refl, save_checkpoint-IsSaved r)
    after_duration-IsSaved false r held exits = ground (arith, save_checkpoint-IsSaved r)

    after_saving-IsSaved :
        (b : Bool) (r : Run floats)
        → (b ≡ true → IsSaved r)
        → (after_saving floats settings events b r).1 ≡ true
        → IsSaved (after_saving floats settings events b r).0
    unfolding after_saving
    after_saving-IsSaved true r held exits =
        ground (arith, held refl, after_duration-IsSaved true r held)
    after_saving-IsSaved false r held exits =
        ground (arith, save_checkpoint-IsSaved r, after_duration-IsSaved false r held)

    after_autoresume-IsSaved :
        (r : Run floats)
        → (after_autoresume floats settings events r).1 ≡ true
        → IsSaved (after_autoresume floats settings events r).0
    unfolding after_autoresume
    after_autoresume-IsSaved r exits = ground (
      arith,
      save_checkpoint-IsSaved r,
      after_saving-IsSaved true (save_checkpoint floats settings events r)
          (λ h. save_checkpoint-IsSaved r),
      after_saving-IsSaved false r (λ h. cc),
    )

    after_step-IsSaved :
        (r : Run floats)
        → (after_step floats settings events r).1 ≡ true
        → IsSaved (after_step floats settings events r).0
    unfolding after_step
    after_step-IsSaved r exits =
        ground (arith, save_checkpoint-IsSaved r, after_autoresume-IsSaved r)

    train_loop-IsSaved :
        (n : ℕ) (r t : Run floats)
        → train_loop floats settings events n r ≡ ok (t, true)
        → IsSaved t
    unfolding train_loop
    train_loop-IsSaved zero r t ended = cc
    train_loop-IsSaved (suc n) r t ended =
        let (s, stepped, rest) = >>=-eq-ok (iterate floats settings events r) _ ended in
        elim (Bool-cases (after_step floats settings events s).1) [
          | inl exits ↦
              let e : ok ((after_step floats settings events s).0, true) ≡ ok (t, true) =
                sym (train_loop-exit floats settings events n r s stepped exits) ∙ ended in
              subst IsSaved (ap (λ (p : Run floats × Bool). p.0) (ok_inj e))
                (after_step-IsSaved s exits)
          | inr stays ↦
              train_loop-IsSaved n (after_step floats settings events s).0 t
                (sym (train_loop-next floats settings events n r s stepped stays) ∙ ended)
        ]

    save_last-IsSaved :
        (r : Run floats) (exit : Bool)
        → (exit ≡ true → IsSaved r)
        → 0 < (save_last floats settings events (r, exit)).0.iteration
        → IsSaved (save_last floats settings events (r, exit)).0
    unfolding save_last
    save_last-IsSaved r true held some_done = held refl
    save_last-IsSaved r false held some_done = ground (arith, save_checkpoint-IsSaved r)

    -- With `save` and `do_train` on, `skip_train` off and a positive number of iterations asked
    -- for, if `pretrain` returns or leaves `train` early with at least one iteration complete, the
    -- last checkpoint holds the iteration and the consumed samples of the final state, and its
    -- scheduler steps unless `no_save_optim` is on.
    pub pretrain-IsSaved :
        (r : Run floats) {t : Run floats} {exit : Bool}
        → pretrain floats settings events r ≡ ok (t, exit)
        → settings.skip_train ≡ false
        → settings.do_train ≡ true
        → 0 < settings.train_iters
        → 0 < t.iteration
        → IsSaved t
    unfolding pretrain train
    pretrain-IsSaved r {t} {exit} ended training doing some_iters some_done =
        let h : (train floats settings events r
              >>= (λ end. ok (save_last floats settings events end)))
            ≡ ok (t, exit) =
          ground arith in
        let ((u, left), trained, last) = >>=-eq-ok (train floats settings events r) _ h in
        let same : (save_last floats settings events (u, left)).0 ≡ t =
          ap (λ (p : Run floats × Bool). p.0) (ok_inj last) in
        subst IsSaved same
          (save_last-IsSaved u left (λ e. leaves left u e trained) (rw same some_done))
      where
        leaves :
            (left : Bool) (u : Run floats)
            → left ≡ true
            → train_loop floats settings events (settings.train_iters - r.iteration) r
              ≡ ok (u, left)
            → IsSaved u
        leaves true u e trained =
            train_loop-IsSaved (settings.train_iters - r.iteration) r u trained
        leaves false u e trained = cc
