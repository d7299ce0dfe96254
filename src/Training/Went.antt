-- ===== src/Training/Went.antt =====
-- What a run of the training loop amounts to, left early or not: a number of iterations.
use megatron_lm.Prelude.{
  inr, inl, Bool-cases, arith, ◌≤◌, >>=-eq-ok, ap, ok_inj, subst, ◌+◌, true, zero, Bool, refl, suc,
  ◌∙◌, ℕ, sym, ◌≡◌, false, Result, ok, raise,
}
use megatron_lm.Microbatches.{Floats}
use megatron_lm.Training.{
  after_step, train_loop, Settings, Events, Run, iterate, update_num_microbatches,
}
use megatron_lm.Training.Counts.{train_loop-exit, train_loop-next, after_step-Keeps, Keeps}
use megatron_lm.Training.Agreement.{
  SamePlan, Agree, Agree-trans, Close, update-SamePlan, steps, steps-Close, kept-Agree,
}

module _ (floats : Floats) where
  module _ (settings : Settings) (events : Events) where
    -- What a run of the loop amounts to, left early or not.
    pub record Went (n : ℕ) (r t : Run floats) (exit : Bool) : Type 0 where
      pub rounds : ℕ
      pub within : rounds ≤ n
      pub all_run : exit ≡ false → rounds ≡ n
      pub counted : t.iteration ≡ r.iteration + rounds
      pub arrived : Run floats
      pub ran : steps floats settings events rounds r ≡ ok arrived
      pub agree : (Agree floats) t arrived
      pub plan : (SamePlan floats) t.calculator r.calculator

    pub iterate-counts :
        (r s : Run floats)
        → iterate floats settings events r ≡ ok s
        → (s.iteration ≡ r.iteration + 1) × (SamePlan floats) s.calculator r.calculator
    unfolding iterate
    iterate-counts r s h =
        let (c, updated, rest) =
          >>=-eq-ok (update_num_microbatches floats r.calculator r.consumed_train_samples true) _
            h in
        let counted : s.iteration ≡ r.iteration + 1 = ground arith in
        let same : c ≡ s.calculator = ground arith in
        (
          counted,
          subst (λ e. (SamePlan floats) e r.calculator) same
              ((update-SamePlan floats) r.calculator c r.consumed_train_samples true updated),
        )

    pub Close-inv :
        (x y : Result (Run floats)) (a : Run floats)
        → (Close floats) x y
        → x ≡ ok a
        → (b : Run floats) × (y ≡ ok b) × (Agree floats) a b
    Close-inv (ok r) (ok t) a h e = (t, refl, subst (λ r. (Agree floats) r t) (ok_inj e) h)
    Close-inv (ok r) (raise e') a h e = absurd h
    Close-inv (raise e') y a h e = cc

    pub Went-here : (r : Run floats) → Went 0 r r false
    unfolding steps
    Went-here r = record {
      rounds = 0;
      within = omega arith;
      all_run = λ h. refl;
      counted = omega arith;
      arrived = r;
      ran = refl;
      agree = record { iteration = refl; consumed = refl; steps = refl; plan = λ x b. refl };
      plan = λ x b. refl;
    }

    pub Went-exit :
        (n : ℕ) (r s t : Run floats)
        → iterate floats settings events r ≡ ok s
        → Keeps floats settings events s t
        → Went (suc n) r t true
    unfolding steps
    Went-exit n r s t stepped kept =
        let (counted, planned) = iterate-counts r s stepped in
        record {
          rounds = 1;
          within = omega arith;
          all_run = λ h. cc;
          counted = kept.iteration ∙ counted;
          arrived = s;
          ran = rw stepped refl;
          agree = kept-Agree floats settings events s t kept;
          plan = λ x b. rw kept.calculator (planned x b);
        }

    pub Went-next :
        (n : ℕ) (r s next t : Run floats) (exit : Bool)
        → iterate floats settings events r ≡ ok s
        → Keeps floats settings events s next
        → Went n next t exit
        → Went (suc n) r t exit
    unfolding steps
    Went-next n r s next t exit stepped kept went =
        let (counted, planned) = iterate-counts r s stepped in
        let k = went.rounds in
        let (b, ran, agree) =
          Close-inv (steps floats settings events k next) (steps floats settings events k s)
            went.arrived
            (steps-Close floats settings events k next s
              (kept-Agree floats settings events s next kept))
            went.ran in
        record {
          rounds = suc k;
          within = omega (arith, went.within);
          all_run = λ h. ap suc (went.all_run h);
          counted = omega (arith, went.counted, kept.iteration);
          arrived = b;
          ran = rw stepped ran;
          agree = (Agree-trans floats) went.agree agree;
          plan = λ x c. went.plan x c ∙ rw kept.calculator (planned x c);
        }

    pub train_loop-Went :
        (n : ℕ) (r t : Run floats) (exit : Bool)
        → train_loop floats settings events n r ≡ ok (t, exit)
        → Went n r t exit
    unfolding train_loop
    train_loop-Went zero r t exit ended =
        subst (λ (p : Run floats × Bool). Went 0 r p.0 p.1) (ok_inj ended) (Went-here r)
    train_loop-Went (suc n) r t exit ended =
        let (s, stepped, rest) = >>=-eq-ok (iterate floats settings events r) _ ended in
        let next = (after_step floats settings events s).0 in
        let kept = after_step-Keeps floats settings events s in
        elim (Bool-cases (after_step floats settings events s).1) [
          | inl exits ↦
              let e : ok (next, true) ≡ ok (t, exit) =
                sym (train_loop-exit floats settings events n r s stepped exits) ∙ ended in
              subst (λ (p : Run floats × Bool). Went (suc n) r p.0 p.1) (ok_inj e)
                (Went-exit n r s next stepped kept)
          | inr stays ↦ Went-next n r s next t exit stepped kept (
              train_loop-Went n next t exit
                (sym (train_loop-next floats settings events n r s stepped stays) ∙ ended))
        ]
