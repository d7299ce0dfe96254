-- ===== src/MixedPrecision/Runs.antt =====
-- Runs of many steps, each behind a backward pass.
use mathlib.Core.Option.{some, none}
use mathlib.Core.Option
use megatron_lm.Prelude.{
  ◌>>=◌, >>=-eq-ok, ok_inj, suc, [], ap, subst, ◌+◌, refl, length, not, sym, Bool, ◌∙◌, ◌≡◌,
  Bool-cases, ℕ, Result, none, length-map, Option, map, List, inl, inr, ok,
}
use megatron_lm.GradScaler.{Scales, DynamicGradScaler, update_scale, updates}
use megatron_lm.MixedPrecision.{
  suc, not, ◌∷◌, Bool, ℕ, Result, Tensors, ModelParam, MainParam, Optimizer, Outcome, zero_grad,
  dropped, step,
}
use megatron_lm.MixedPrecision.Parts.{InSync, IsPaired, SameValues, SameValues-InSync}
use megatron_lm.MixedPrecision.Step.{Stepped, step-Stepped}

module _ (scales : Scales) (tensors : Tensors)
    (unscaled : scales.F → tensors.Full → tensors.Full) where
  abbrev O : Type 0
  O = Optimizer scales tensors unscaled

  abbrev P : Type 0
  P = ModelParam scales tensors unscaled

  -- A backward pass sets gradients of the model, and nothing else: here those of each parameter, by
  -- its place, from the whole state.
  abbrev pub Backward : Type 0
  Backward = O → ℕ → Option tensors.Half × Option tensors.MainGrad

  unfoldable pub set_grads :
      (ℕ → Option tensors.Half × Option tensors.MainGrad) → ℕ → List P → List P
  set_grads grads i [] = []
  set_grads grads i (p ∷ ps) =
      record p { grad = (grads i).0; main_grad = (grads i).1 } ∷ set_grads grads (i + 1) ps

  unfoldable pub backward : Backward → O → O
  unfolding set_grads
  backward b o = record o { float16 = set_grads (b o) 0 o.float16 }

  -- `train_step` again and again: whether each step was successful, and the last state.
  unfoldable pub train_steps : List Backward → O → Result (List Bool × O)
  unfolding backward
  train_steps [] o = ok ([], o)
  train_steps (b ∷ bs) o = do
    stepped ← step scales tensors unscaled (backward b (zero_grad scales tensors unscaled o))
    rest ← train_steps bs stepped.1
    ok (stepped.0.update_successful ∷ rest.0, rest.1)

  values-set_grads :
      (grads : ℕ → Option tensors.Half × Option tensors.MainGrad) (i : ℕ) (ps : List P)
      → map (λ (p : P). p.value) (set_grads grads i ps) ≡ map (λ (p : P). p.value) ps
  unfolding set_grads
  values-set_grads grads i [] = refl
  values-set_grads grads i (p ∷ ps) = ap (λ vs. p.value ∷ vs) (values-set_grads grads (i + 1) ps)

  length-set_grads :
      (grads : ℕ → Option tensors.Half × Option tensors.MainGrad) (i : ℕ) (ps : List P)
      → length (set_grads grads i ps) ≡ length ps
  unfolding set_grads
  length-set_grads grads i [] = refl
  length-set_grads grads i (p ∷ ps) = ap suc (length-set_grads grads (i + 1) ps)

  values-dropped :
      (ps : List P)
      → map (λ (p : P). p.value) (map (dropped scales tensors unscaled) ps)
        ≡ map (λ (p : P). p.value) ps
  unfolding dropped
  values-dropped [] = refl
  values-dropped (p ∷ ps) = ap (λ vs. p.value ∷ vs) (values-dropped ps)

  abbrev M : Type 0
  M = MainParam scales tensors unscaled

  values-cleared :
      (mains : List M)
      → map (λ (m : M). m.value) (map (λ (m : M). record m { grad = none }) mains)
        ≡ map (λ (m : M). m.value) mains
  values-cleared [] = refl
  values-cleared (m ∷ mains) = ap (λ vs. m.value ∷ vs) (values-cleared mains)

  -- The state that a step starts from.
  abbrev prepared : Backward → O → O
  prepared b o = backward b (zero_grad scales tensors unscaled o)

  prepared-SameValues : (b : Backward) (o : O) → SameValues scales tensors unscaled o (prepared b o)
  unfolding backward zero_grad
  prepared-SameValues b o = record {
    model =
        values-set_grads _ 0 (map (dropped scales tensors unscaled) o.float16)
        ∙ values-dropped o.float16;
    main = values-cleared o.fp32_from_float16;
  }

  prepared-IsPaired :
      (b : Backward) (o : O)
      → IsPaired scales tensors unscaled o
      → IsPaired scales tensors unscaled (prepared b o)
  unfolding backward zero_grad
  prepared-IsPaired b o h =
      length-map (λ (m : M). record m { grad = none }) o.fp32_from_float16
      ∙ h
      ∙ sym (length-map (dropped scales tensors unscaled) o.float16)
      ∙ sym (length-set_grads _ 0 (map (dropped scales tensors unscaled) o.float16))

  prepared-scaler : (b : Backward) (o : O) → (prepared b o).grad_scaler ≡ o.grad_scaler
  unfolding backward zero_grad
  prepared-scaler b o = refl

  Stepped-InSync :
      (o p : O) (r : Outcome scales tensors unscaled)
      → Stepped scales tensors unscaled o r p
      → InSync scales tensors unscaled o
      → InSync scales tensors unscaled p
  Stepped-InSync o p r stepped sync = elim (Bool-cases r.update_successful) [
    | inl success ↦ stepped.synced success
    | inr skip ↦ SameValues-InSync scales tensors unscaled (stepped.skipped skip).0 sync
  ]

  -- The scaler after a step and after further updates.
  scaler_on :
      (b : Bool) (bs : List Bool) (o : Option (DynamicGradScaler scales))
      → Option.map
          (λ s. updates scales s (map not bs))
          (Option.map (λ s. update_scale scales s (not b)) o)
        ≡ Option.map (λ s. updates scales s (map not (b ∷ bs))) o
  unfolding updates
  scaler_on b bs none = refl
  scaler_on b bs (some s) = refl

  scaler_off : (o : Option (DynamicGradScaler scales)) → o ≡ Option.map (λ s. updates scales s []) o
  unfolding updates
  scaler_off none = refl
  scaler_off (some s) = refl

  -- In a run of training steps, each of which clears the gradients, sets those of the model and
  -- steps the optimizer, from a state with as many copies as parameters in which each parameter is
  -- the rounded copy: if the steps do not raise, each parameter is the rounded copy at the end,
  -- whatever was skipped, and the scaler has been updated once for each step, with an overflow
  -- exactly for the steps that were not successful.
  pub train_steps-InSync :
      (bs : List Backward) (o : O) {flags : List Bool} {o' : O}
      → IsPaired scales tensors unscaled o
      → InSync scales tensors unscaled o
      → train_steps bs o ≡ ok (flags, o')
      → InSync scales tensors unscaled o'
        × (o'.grad_scaler ≡ Option.map (λ s. updates scales s (map not flags)) o.grad_scaler)
  unfolding train_steps
  train_steps-InSync [] o {flags} {o'} paired sync h =
      subst
        (λ (p : List Bool × O).
          InSync scales tensors unscaled p.1
          × (p.1.grad_scaler ≡ Option.map (λ s. updates scales s (map not p.0)) o.grad_scaler))
        (ok_inj h) (sync, scaler_off o.grad_scaler)
  train_steps-InSync (b ∷ bs) o {flags} {o'} paired sync h =
      let q = prepared b o in
      let ((r, p), done, more) = >>=-eq-ok (step scales tensors unscaled q) _ h in
      let ((fs, t), others, last) = >>=-eq-ok (train_steps bs p) _ more in
      let stepped = step-Stepped scales tensors unscaled q (prepared-IsPaired b o paired) done in
      let (sync', scaler) =
        train_steps-InSync bs p stepped.paired
          (Stepped-InSync q p r stepped
            (SameValues-InSync scales tensors unscaled (prepared-SameValues b o) sync))
          others in
      subst
        (λ (x : List Bool × O).
          InSync scales tensors unscaled x.1
          × (x.1.grad_scaler ≡ Option.map (λ s. updates scales s (map not x.0)) o.grad_scaler))
        (ok_inj last)
        (
          sync',
          scaler
              ∙ ap (Option.map (λ s. updates scales s (map not fs)))
                  (stepped.scaler ∙ ap (Option.map _) (prepared-scaler b o))
              ∙ scaler_on r.update_successful fs o.grad_scaler,
        )
