-- ===== src/MixedPrecision/Parts.antt =====
-- What the parts of a step do to the values of the parameters and to the numbers of them.
use megatron_lm.Prelude.{
  ◌>>=◌, Bool-cases, subst, ok_inj, >>=-eq-ok, Option, length-map, arith, sym, suc, [], some, refl,
  ◌∙◌, List, map, length, Bool, ap, ◌≡◌, inl, inr, ok,
}
use megatron_lm.GradScaler.{Scales, DynamicGradScaler}
use megatron_lm.MixedPrecision.{
  Option, suc, some, ◌∷◌, map, Bool, List, Tensors, ModelParam, MainParam, Optimizer, take_grads,
  copy_grads, dropped, on_grad, clip, clip_grad_norm, update_params, unscale, put_values,
  copy_params, grads_for_norm,
}

module _ (scales : Scales) (tensors : Tensors)
    (unscaled : scales.F → tensors.Full → tensors.Full) where
  abbrev O : Type 0
  O = Optimizer scales tensors unscaled

  -- The values of the parameters, in the model and in the copies.
  abbrev pub model_values : O → List tensors.Half
  model_values o = map (λ (p : ModelParam scales tensors unscaled). p.value) o.float16

  abbrev pub main_values : O → List tensors.Full
  main_values o = map (λ (m : MainParam scales tensors unscaled). m.value) o.fp32_from_float16

  -- Each parameter of the model is the rounded copy.
  abbrev pub InSync : O → Type 0
  InSync o = map tensors.to_half (main_values o) ≡ model_values o

  -- The two states hold the same values.
  pub record SameValues (o o' : O) : Type 0 where
    pub model : model_values o' ≡ model_values o
    pub main : main_values o' ≡ main_values o

  values-copy_grads :
      (b : Bool) (ps : List (ModelParam scales tensors unscaled))
      (mains : List (MainParam scales tensors unscaled))
      → map
          (λ (m : MainParam scales tensors unscaled). m.value)
          (copy_grads scales tensors unscaled b ps mains)
        ≡ map (λ (m : MainParam scales tensors unscaled). m.value) mains
  unfolding copy_grads
  values-copy_grads b [] mains = refl
  values-copy_grads b (p ∷ ps) [] = refl
  values-copy_grads b (p ∷ ps) (m ∷ mains) = ap (λ vs. m.value ∷ vs) (values-copy_grads b ps mains)

  values-dropped :
      (ps : List (ModelParam scales tensors unscaled))
      → map
          (λ (p : ModelParam scales tensors unscaled). p.value)
          (map (dropped scales tensors unscaled) ps)
        ≡ map (λ (p : ModelParam scales tensors unscaled). p.value) ps
  unfolding dropped
  values-dropped [] = refl
  values-dropped (p ∷ ps) = ap (λ vs. p.value ∷ vs) (values-dropped ps)

  values-on_grad :
      (f : tensors.Full → tensors.Full) (mains : List (MainParam scales tensors unscaled))
      → map
          (λ (m : MainParam scales tensors unscaled). m.value)
          (map (on_grad scales tensors unscaled f) mains)
        ≡ map (λ (m : MainParam scales tensors unscaled). m.value) mains
  unfolding on_grad
  values-on_grad f [] = refl
  values-on_grad f (m ∷ mains) = ap (λ vs. m.value ∷ vs) (values-on_grad f mains)

  pub take_grads-SameValues : (o : O) → SameValues o (take_grads scales tensors unscaled o)
  unfolding take_grads
  take_grads-SameValues o = record {
    model = values-dropped o.float16;
    main = values-copy_grads o.params_have_main_grad o.float16 o.fp32_from_float16;
  }

  pub unscale-SameValues :
      (s : DynamicGradScaler scales) (inf : Bool) (o : O)
      → SameValues o (unscale scales tensors unscaled s inf o)
  unfolding unscale
  unscale-SameValues s inf o = record {
    model = refl;
    main = values-on_grad (unscaled s.scale) o.fp32_from_float16;
  }

  pub SameValues-InSync : {o o' : O} → SameValues o o' → InSync o → InSync o'
  SameValues-InSync h sync = ap (map tensors.to_half) h.main ∙ sync ∙ sym h.model

  pub SameValues-trans : {o p q : O} → SameValues o p → SameValues p q → SameValues o q
  SameValues-trans h k = record { model = k.model ∙ h.model; main = k.main ∙ h.main }

  -- A copy that has as many parameters as the model brings it in step.
  copy_params-values :
      (mains : List (MainParam scales tensors unscaled))
      (ps : List (ModelParam scales tensors unscaled))
      → length mains ≡ length ps
      → map tensors.to_half (map (λ (m : MainParam scales tensors unscaled). m.value) mains)
        ≡ map
            (λ (p : ModelParam scales tensors unscaled). p.value)
            (copy_params scales tensors unscaled mains ps)
  unfolding copy_params
  copy_params-values [] [] h = refl
  copy_params-values [] (p ∷ ps) h = absurd (omega arith)
  copy_params-values (m ∷ mains) [] h = absurd (omega arith)
  copy_params-values (m ∷ mains) (p ∷ ps) h =
      ap (λ vs. tensors.to_half m.value ∷ vs) (copy_params-values mains ps (omega arith))

  length-put_values :
      (mains : List (MainParam scales tensors unscaled)) (values : List tensors.Full)
      → length (put_values scales tensors unscaled mains values) ≡ length mains
  unfolding put_values
  length-put_values [] values = refl
  length-put_values (m ∷ mains) [] = refl
  length-put_values (m ∷ mains) (v ∷ values) = ap suc (length-put_values mains values)

  pub update_params-InSync :
      (o : O)
      → length o.fp32_from_float16 ≡ length o.float16
      → InSync (update_params scales tensors unscaled o)
  unfolding update_params
  update_params-InSync o h =
      copy_params-values (put_values scales tensors unscaled o.fp32_from_float16 _) o.float16
        (length-put_values o.fp32_from_float16 _ ∙ h)

  -- There are as many copies as parameters.
  abbrev pub IsPaired : O → Type 0
  IsPaired o = length o.fp32_from_float16 ≡ length o.float16

  length-copy_params :
      (mains : List (MainParam scales tensors unscaled))
      (ps : List (ModelParam scales tensors unscaled))
      → length mains ≡ length ps
      → length (copy_params scales tensors unscaled mains ps) ≡ length ps
  unfolding copy_params
  length-copy_params [] ps h = refl
  length-copy_params (m ∷ mains) [] h = refl
  length-copy_params (m ∷ mains) (p ∷ ps) h = ap suc (length-copy_params mains ps (omega arith))

  pub update_params-IsPaired :
      (o : O) → IsPaired o → IsPaired (update_params scales tensors unscaled o)
  unfolding update_params
  update_params-IsPaired o h =
      let e = length-put_values o.fp32_from_float16 _ ∙ h in
      e
      ∙ sym (
          length-copy_params (put_values scales tensors unscaled o.fp32_from_float16 _) o.float16 e)

  length-copy_grads :
      (b : Bool) (ps : List (ModelParam scales tensors unscaled))
      (mains : List (MainParam scales tensors unscaled))
      → length (copy_grads scales tensors unscaled b ps mains) ≡ length mains
  unfolding copy_grads
  length-copy_grads b [] mains = refl
  length-copy_grads b (p ∷ ps) [] = refl
  length-copy_grads b (p ∷ ps) (m ∷ mains) = ap suc (length-copy_grads b ps mains)

  pub take_grads-IsPaired : (o : O) → IsPaired o → IsPaired (take_grads scales tensors unscaled o)
  unfolding take_grads
  take_grads-IsPaired o h =
      length-copy_grads o.params_have_main_grad o.float16 o.fp32_from_float16
      ∙ h
      ∙ sym (length-map (dropped scales tensors unscaled) o.float16)

  pub unscale-IsPaired :
      (s : DynamicGradScaler scales) (inf : Bool) (o : O)
      → IsPaired o
      → IsPaired (unscale scales tensors unscaled s inf o)
  unfolding unscale
  unscale-IsPaired s inf o h =
      length-map (on_grad scales tensors unscaled (unscaled s.scale)) o.fp32_from_float16 ∙ h

  length-clip_grad_norm :
      (b : Bool) (mains : List (MainParam scales tensors unscaled))
      {r : tensors.Norm × List (MainParam scales tensors unscaled)}
      → clip_grad_norm scales tensors unscaled b mains ≡ ok r
      → length r.1 ≡ length mains
  unfolding clip_grad_norm
  length-clip_grad_norm b mains {r} h =
      let total = tensors.group_norm (grads_for_norm scales tensors unscaled mains) in
      ground (arith, length-map (on_grad scales tensors unscaled (tensors.clipped total)) mains)

  pub clipped_IsPaired :
      (o : O) (n : Option tensors.Norm) (o' : O)
      → IsPaired o
      → clip scales tensors unscaled o ≡ ok (n, o')
      → IsPaired o' × (o'.grad_scaler ≡ o.grad_scaler)
  unfolding clip
  clipped_IsPaired o n o' paired h = elim (Bool-cases o.clips) [
    | inl clips ↦
        let h' : (clip_grad_norm scales tensors unscaled o.check_for_nan_in_grad o.fp32_from_float16
              >>= (λ r. ok (some r.0, record o { fp32_from_float16 = r.1 })))
            ≡ ok (n, o') =
          ground arith in
        let (r, done, last) =
          >>=-eq-ok
            (clip_grad_norm scales tensors unscaled o.check_for_nan_in_grad o.fp32_from_float16) _
            h' in
        let same : record o { fp32_from_float16 = r.1 } ≡ o' =
          ap (λ (p : Option tensors.Norm × O). p.1) (ok_inj last) in
        let even = length-clip_grad_norm o.check_for_nan_in_grad o.fp32_from_float16 done in
        subst (λ (p : O). IsPaired p × (p.grad_scaler ≡ o.grad_scaler)) same (even ∙ paired, refl)
    | inr plain ↦
        let same : o ≡ o' = ground arith in
        subst (λ (p : O). IsPaired p × (p.grad_scaler ≡ o.grad_scaler)) same (paired, refl)
  ]
