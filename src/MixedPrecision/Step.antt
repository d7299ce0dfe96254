-- ===== src/MixedPrecision/Step.antt =====
-- What one step of the optimizer does to the parameters and to the scaler.
use mathlib.Core.Option
use megatron_lm.Prelude.{
  not, Option-cases, subst, ok_inj, >>=-eq-ok, none, false, arith, sym, true, some, refl, ◌∙◌, Bool,
  ap, ◌≡◌, inl, inr, ok,
}
use megatron_lm.GradScaler.{Scales, DynamicGradScaler, update_scale}
use megatron_lm.MixedPrecision.{
  not, none, false, true, some, Bool, Tensors, Optimizer, Outcome, take_grads, found_inf, clip,
  update_params, finish, unscale, step_scaled, step,
}
use megatron_lm.MixedPrecision.Parts.{
  SameValues-trans, take_grads-SameValues, unscale-SameValues, update_params-InSync,
  update_params-IsPaired, take_grads-IsPaired, unscale-IsPaired, clipped_IsPaired, InSync, IsPaired,
  SameValues,
}

module _ (scales : Scales) (tensors : Tensors)
    (unscaled : scales.F → tensors.Full → tensors.Full) where
  abbrev O : Type 0
  O = Optimizer scales tensors unscaled

  finish_lem :
      (o : O) {r : Outcome scales tensors unscaled} {o' : O}
      → IsPaired scales tensors unscaled o
      → finish scales tensors unscaled o ≡ ok (r, o')
      → (r.update_successful ≡ true)
        × InSync scales tensors unscaled o'
        × IsPaired scales tensors unscaled o'
        × (o'.grad_scaler ≡ o.grad_scaler)
  unfolding finish
  finish_lem o {r} {o'} paired h =
      let ((n, c), done, last) = >>=-eq-ok (clip scales tensors unscaled o) _ h in
      let (even, scaler) = clipped_IsPaired scales tensors unscaled o n c paired done in
      let e = ok_inj last in
      let r' = ap (λ (p : Outcome scales tensors unscaled × O). p.0) e in
      let new : update_params scales tensors unscaled c ≡ o' =
        ap (λ (p : Outcome scales tensors unscaled × O). p.1) e in
      (
        sym (ap (λ (p : Outcome scales tensors unscaled). p.update_successful) r'),
        subst (InSync scales tensors unscaled) new
            (update_params-InSync scales tensors unscaled c even),
        subst (IsPaired scales tensors unscaled) new
            (update_params-IsPaired scales tensors unscaled c even),
        subst (λ (p : O). p.grad_scaler ≡ o.grad_scaler) new (unfold update_params in scaler),
      )

  step-bare :
      (o : O)
      → o.grad_scaler ≡ none
      → step scales tensors unscaled o
        ≡ finish scales tensors unscaled (take_grads scales tensors unscaled o)
  unfolding step
  step-bare o bare = ground arith

  step-scaled :
      (o : O) (s : DynamicGradScaler scales)
      → o.grad_scaler ≡ some s
      → step scales tensors unscaled o
        ≡ step_scaled scales tensors unscaled s
            (found_inf scales tensors unscaled
              (take_grads scales tensors unscaled o).fp32_from_float16)
            (take_grads scales tensors unscaled o)
  unfolding step
  step-scaled o s scaler = ground arith

  -- What a step does, whether it updates the parameters or skips them.
  pub record Stepped (o : O) (r : Outcome scales tensors unscaled) (o' : O) : Type 0 where
    pub paired : IsPaired scales tensors unscaled o'
    pub scaler :
        o'.grad_scaler
        ≡ Option.map (λ s. update_scale scales s (not r.update_successful)) o.grad_scaler
    pub synced : r.update_successful ≡ true → InSync scales tensors unscaled o'
    pub skipped :
        r.update_successful ≡ false → SameValues scales tensors unscaled o o' × (o'.base ≡ o.base)

  finished_Stepped :
      (o p : O) {r : Outcome scales tensors unscaled} {o' : O}
      → IsPaired scales tensors unscaled p
      → p.grad_scaler ≡ Option.map (λ s. update_scale scales s false) o.grad_scaler
      → finish scales tensors unscaled p ≡ ok (r, o')
      → Stepped o r o'
  finished_Stepped o p {r} {o'} paired scaler h =
      let (success, sync, paired', scaler') = finish_lem p paired h in
      record {
        paired = paired';
        scaler = rw success (scaler' ∙ scaler);
        synced = λ e. sync;
        skipped = λ e. cc;
      }

  step_scaled-Stepped :
      (o : O) (s : DynamicGradScaler scales) (inf : Bool) {r : Outcome scales tensors unscaled}
      {o' : O}
      → IsPaired scales tensors unscaled o
      → o.grad_scaler ≡ some s
      → step_scaled scales tensors unscaled s inf (take_grads scales tensors unscaled o)
        ≡ ok (r, o')
      → Stepped o r o'
  unfolding step_scaled
  step_scaled-Stepped o s false {r} {o'} paired scaler h =
      let t = take_grads scales tensors unscaled o in
      finished_Stepped o (unscale scales tensors unscaled s false t)
        (unscale-IsPaired scales tensors unscaled s false t
          (take_grads-IsPaired scales tensors unscaled o paired))
        (unfold unscale in rw scaler refl) h
  step_scaled-Stepped o s true {r} {o'} paired scaler h =
      let t = take_grads scales tensors unscaled o in
      subst (λ (p : Outcome scales tensors unscaled × O). Stepped o p.0 p.1) (ok_inj h)
        (record {
          paired =
              unscale-IsPaired scales tensors unscaled s true t
                (take_grads-IsPaired scales tensors unscaled o paired);
          scaler = (unfold unscale in rw scaler refl);
          synced = λ e. cc;
          skipped = λ e. (
            SameValues-trans scales tensors unscaled
                (take_grads-SameValues scales tensors unscaled o)
                (unscale-SameValues scales tensors unscaled s true t),
            (unfold unscale take_grads in refl),
          );
        })

  -- A step of an optimizer with as many copies as parameters, if it does not raise, keeps that; it
  -- updates the scaler, if there is one, with an overflow exactly if it is not successful; if it is
  -- successful each parameter is afterwards the rounded copy, and if not, all values and the state
  -- of the base optimizer are as before.
  pub step-Stepped :
      (o : O) {r : Outcome scales tensors unscaled} {o' : O}
      → IsPaired scales tensors unscaled o
      → step scales tensors unscaled o ≡ ok (r, o')
      → Stepped o r o'
  step-Stepped o {r} {o'} paired h = elim (Option-cases o.grad_scaler) [
    | inl bare ↦
        finished_Stepped o (take_grads scales tensors unscaled o)
          (take_grads-IsPaired scales tensors unscaled o paired) (unfold take_grads in rw bare refl)
          (sym (step-bare o bare) ∙ h)
    | inr (s, scaler) ↦
        step_scaled-Stepped o s
          (found_inf scales tensors unscaled
            (take_grads scales tensors unscaled o).fp32_from_float16)
          paired scaler (sym (step-scaled o s scaler) ∙ h)
  ]
