-- ===== src/MixedPrecision.antt =====
-- megatron/optimizer/optimizer.py and megatron/optimizer/clip_grads.py: one step of
-- `Float16OptimizerWithFloat16Params`, with the dynamic scaler or with none. The parameter groups are
-- one list each, whose order the loops over groups and parameters follow; the lists of the float16
-- parameters and of their copies in float32 go together. The arithmetic on tensors, the reductions
-- over the model-parallel group and the base optimizer are parameters. Parameters that
-- are in float32 in the model, which the source keeps in a third list, are left out.
pub mod Parts
pub mod Step
pub mod Runs
mod Tests
use megatron_lm.Prelude.{
  ℕ, zero, suc, ◌+◌, Bool, true, false, not, ◌&&◌, ◌||◌, if◌then◌else◌, Option, none, some, List,
  [], ◌∷◌, ◌++◌, map, Result, ok, raise, ◌>>=◌, ◌>>◌, assert,
}
use megatron_lm.GradScaler.{Scales, DynamicGradScaler, update_scale}

pub record Tensors : Type 1 where
  -- Values in float16 and in float32, main gradients, norms, and states of the base optimizer.
  pub Half : Type 0
  pub Full : Type 0
  pub MainGrad : Type 0
  pub Norm : Type 0
  pub BaseState : Type 0
  -- `.float()` and `copy_` into float16.
  pub to_full : Half → Full
  pub main_to_full : MainGrad → Full
  pub to_half : Full → Half
  pub is_finite : Full → Bool
  -- `all_reduce` with MAX, of the flag.
  pub group_max : Bool → Bool
  -- Of the gradients that count: whether the local norm is a NaN, and the norm over the group.
  pub norm_is_nan : List Full → Bool
  pub group_norm : List Full → Norm
  -- Whether the norm asks for clipping, and one gradient clipped.
  pub exceeds : Norm → Bool
  pub clipped : Norm → Full → Full
  pub zeros : Full → ℕ
  pub group_sum : ℕ → ℕ
  -- `self.optimizer.step()` on values and gradients.
  pub base_step : BaseState → List (Full × Option Full) → BaseState × List Full

module _ (scales : Scales) (tensors : Tensors)
    (unscaled : scales.F → tensors.Full → tensors.Full) where
  open tensors use {Half, Full, MainGrad, Norm, BaseState}

  -- A parameter of the model in float16.
  pub record ModelParam : Type 0 where
    pub value : Half
    pub grad : Option Half
    pub main_grad : Option MainGrad

  -- A parameter of the base optimizer: a copy of one in float16. `counts` says that it is neither
  -- shared nor a tensor-parallel duplicate.
  pub record MainParam : Type 0 where
    pub value : Full
    pub grad : Option Full
    pub counts : Bool

  pub record Optimizer : Type 0 where
    pub float16 : List ModelParam
    pub fp32_from_float16 : List MainParam
    pub grad_scaler : Option (DynamicGradScaler scales)
    pub base : BaseState
    pub params_have_main_grad : Bool
    pub clips : Bool
    pub check_for_nan_in_grad : Bool
    pub log_num_zeros_in_grad : Bool

  -- The gradient that one parameter's copy gets; without one it keeps what it has.
  pub main_grad_of : Bool → ModelParam → Option Full → Option Full
  main_grad_of params_have_main_grad p old =
      elim (if params_have_main_grad then p.main_grad else none) [
        | some g ↦ some (tensors.main_to_full g)
        | none ↦ elim p.grad [ some g ↦ some (tensors.to_full g) | none ↦ old ]
      ]

  -- `_copy_model_grads_to_main_grads`, a `zip` of both lists.
  pub copy_grads : Bool → List ModelParam → List MainParam → List MainParam
  unfolding main_grad_of
  copy_grads b [] mains = mains
  copy_grads b (p ∷ ps) [] = []
  copy_grads b (p ∷ ps) (m ∷ mains) =
      record m { grad = main_grad_of b p m.grad } ∷ copy_grads b ps mains

  pub dropped : ModelParam → ModelParam
  dropped p = record p { grad = none }

  -- `_collect_main_grad_data_for_unscaling`
  pub collect : List MainParam → List Full
  collect [] = []
  collect (m ∷ mains) = elim m.grad [ none ↦ collect mains | some g ↦ g ∷ collect mains ]

  pub on_grad : (Full → Full) → MainParam → MainParam
  on_grad f m = record m { grad = elim m.grad [ none ↦ none | some g ↦ some (f g) ] }

  pub all_finite : List Full → Bool
  all_finite [] = true
  all_finite (g ∷ gs) = tensors.is_finite g && all_finite gs

  -- `_unscale_main_grads_and_check_for_nan`, with the inverse of the scale.
  pub found_inf : List MainParam → Bool
  unfolding collect all_finite
  found_inf mains = tensors.group_max (not (all_finite (collect mains)))

  -- `get_main_grads_for_grad_norm`
  pub grads_for_norm : List MainParam → List Full
  grads_for_norm [] = []
  grads_for_norm (m ∷ mains) = elim m.grad [
    | none ↦ grads_for_norm mains
    | some g ↦ if m.counts then g ∷ grads_for_norm mains else grads_for_norm mains
  ]

  -- `clip_grad_norm_fp32`
  pub clip_grad_norm : Bool → List MainParam → Result (Norm × List MainParam)
  unfolding grads_for_norm on_grad
  clip_grad_norm check_for_nan_in_grad mains = do
    let grads = grads_for_norm mains
    assert (not (check_for_nan_in_grad && tensors.norm_is_nan grads))
    let total_norm = tensors.group_norm grads
    ok (
      total_norm,
      if tensors.exceeds total_norm
          then map (on_grad (tensors.clipped total_norm)) mains
          else mains,
    )

  -- `count_zeros_fp32`
  pub local_zeros : List Full → ℕ
  local_zeros [] = 0
  local_zeros (g ∷ gs) = tensors.zeros g + local_zeros gs

  pub count_zeros : List MainParam → ℕ
  unfolding grads_for_norm local_zeros
  count_zeros mains = tensors.group_sum (local_zeros (grads_for_norm mains))

  pub operand : MainParam → Full × Option Full
  operand m = (m.value, m.grad)

  pub put_values : List MainParam → List Full → List MainParam
  put_values [] values = []
  put_values (m ∷ mains) [] = m ∷ mains
  put_values (m ∷ mains) (v ∷ values) = record m { value = v } ∷ put_values mains values

  -- `_copy_main_params_to_model_params`, a `zip`.
  pub copy_params : List MainParam → List ModelParam → List ModelParam
  copy_params [] ps = ps
  copy_params (m ∷ mains) [] = []
  copy_params (m ∷ mains) (p ∷ ps) =
      record p { value = tensors.to_half m.value } ∷ copy_params mains ps

  -- What `step` returns beside the state.
  pub record Outcome : Type 0 where
    pub update_successful : Bool
    pub grad_norm : Option Norm
    pub num_zeros_in_grad : Option ℕ

  -- The clipping, which is made if `clip_grad > 0`.
  pub clip : Optimizer → Result (Option Norm × Optimizer)
  unfolding clip_grad_norm
  clip o =
      if o.clips
      then clip_grad_norm o.check_for_nan_in_grad o.fp32_from_float16
        >>= (λ r. ok (some r.0, record o { fp32_from_float16 = r.1 }))
      else ok (none, o)

  -- `self.optimizer.step()` and the copy of the new values into the model.
  pub update_params : Optimizer → Optimizer
  unfolding operand put_values copy_params
  update_params o =
      let (base, values) = tensors.base_step o.base (map operand o.fp32_from_float16) in
      let mains = put_values o.fp32_from_float16 values in
      record o { base = base; fp32_from_float16 = mains; float16 = copy_params mains o.float16 }

  pub finish : Optimizer → Result (Outcome × Optimizer)
  unfolding clip update_params count_zeros
  finish o = clip o >>= (λ r. ok (
    record {
      update_successful = true;
      grad_norm = r.0;
      num_zeros_in_grad =
          (if o.log_num_zeros_in_grad then some (count_zeros r.1.fp32_from_float16) else none);
    },
    update_params r.1,
  ))

  pub take_grads : Optimizer → Optimizer
  unfolding copy_grads dropped
  take_grads o = record o {
    fp32_from_float16 = copy_grads o.params_have_main_grad o.float16 o.fp32_from_float16;
    float16 = map dropped o.float16;
  }

  -- With the scaler: the gradients are unscaled in place, and the scaler is updated.
  pub unscale : DynamicGradScaler scales → Bool → Optimizer → Optimizer
  unfolding on_grad
  unscale s inf o = record o {
    fp32_from_float16 = map (on_grad (unscaled s.scale)) o.fp32_from_float16;
    grad_scaler = some (update_scale scales s inf);
  }

  pub step_scaled : DynamicGradScaler scales → Bool → Optimizer → Result (Outcome × Optimizer)
  unfolding unscale finish
  step_scaled s true o = ok (
    record { update_successful = false; grad_norm = none; num_zeros_in_grad = none },
    unscale s true o,
  )
  step_scaled s false o = finish (unscale s false o)

  pub step : Optimizer → Result (Outcome × Optimizer)
  unfolding take_grads found_inf step_scaled finish
  step o =
      let taken = take_grads o in
      elim o.grad_scaler [
        | none ↦ finish taken
        | some s ↦ step_scaled s (found_inf taken.fp32_from_float16) taken
      ]

  pub zero_grad : Optimizer → Optimizer
  unfolding dropped
  zero_grad o = record o {
    float16 = map dropped o.float16;
    fp32_from_float16 = map (λ (m : MainParam). record m { grad = none }) o.fp32_from_float16;
  }

  -- `_copy_model_params_to_main_params`, behind `reload_model_params`.
  pub reload_params : List ModelParam → List MainParam → List MainParam
  reload_params [] mains = mains
  reload_params (p ∷ ps) [] = []
  reload_params (p ∷ ps) (m ∷ mains) =
      record m { value = tensors.to_full p.value } ∷ reload_params ps mains
