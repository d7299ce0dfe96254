-- ===== src/ParamScheduler/Loaded.antt =====
-- `load_state_dict` on what `state_dict` saved.
use native.Mathlib.Nat.{zero-add}
use megatron_lm.Prelude.{
  ℕ, ◌+◌, ◌==◌, Bool, not, ◌&&◌, ltb, true, false, List, [], ◌∷◌, map, ok, ◌>>=◌, ◌>>◌, >>=-eq-ok,
  ok_inj, assert, ◌≡◌, refl, sym, ap, ◌∙◌, subst, eq→==, if◌then◌else◌,
}
use megatron_lm.ParamScheduler.{
  Arithmetic, OptimizerParamScheduler, Group, set_group, same_style, step, state_dict, entry,
  first_of, check_and_set, load_lr, load_wd, load_state_dict, init_scheduler,
}
use megatron_lm.ParamScheduler.Steps.{
  behind_asserts, same_style_refl, mults, map-mults-set_group, forget, with_groups,
  step-with_groups, steps, steps-forget, stepped_by, step-split, step-eq, step-Later, steps-Later,
}

settled :
    {A : Type 0} (o u : Bool) (x : A)
    → (if o then ok x else (assert (if u then true else true) >> ok x)) ≡ ok x
settled true u x = refl
settled false true x = refl
settled false false x = refl

module _ (floats : Arithmetic) where
  open floats use {F, of_int, le, same}

  check_and_set-same :
      {A : Type 0} (equal : A → A → Bool) (s : OptimizerParamScheduler floats) (x : A)
      → equal x x ≡ true
      → check_and_set floats equal s x x ≡ ok x
  unfolding check_and_set
  check_and_set-same equal s x h =
      rw h (settled s.override_opt_param_scheduler s.use_checkpoint_opt_param_scheduler x)

  -- The value of the checkpoint is used, if the flags say so.
  check_and_set-used :
      {A : Type 0} (equal : A → A → Bool) (s : OptimizerParamScheduler floats) (x y : A)
      → s.override_opt_param_scheduler ≡ false
      → s.use_checkpoint_opt_param_scheduler ≡ true
      → check_and_set floats equal s x y ≡ ok y
  unfolding check_and_set
  check_and_set-used equal s x y h k = rw (h, k) refl

  module _ (same_refl : (x : F) → same x x ≡ true) where
    load_lr-own :
        (t : OptimizerParamScheduler floats) (n : ℕ) (gs : List (Group floats))
        → load_lr floats (state_dict floats (record t { num_steps = n; param_groups = gs })) t
          ≡ ok t
    unfolding load_lr state_dict first_of entry
    load_lr-own t n gs =
        rw
          (
            check_and_set-same same t t.max_lr (same_refl t.max_lr),
            check_and_set-same same t t.min_lr (same_refl t.min_lr),
            check_and_set-same (λ a b. a == b) t t.lr_warmup_steps
                (eq→== t.lr_warmup_steps t.lr_warmup_steps refl),
            check_and_set-same (λ a b. a == b) t t.lr_decay_steps
                (eq→== t.lr_decay_steps t.lr_decay_steps refl),
            check_and_set-same same_style t t.lr_decay_style (same_style_refl t.lr_decay_style),
          )
          refl

    load_wd-own :
        (s : OptimizerParamScheduler floats) → load_wd floats (state_dict floats s) s ≡ ok s
    unfolding load_wd state_dict entry
    load_wd-own s =
        rw
          (
            check_and_set-same same s s.start_wd (same_refl s.start_wd),
            check_and_set-same same s s.end_wd (same_refl s.end_wd),
            check_and_set-same (λ a b. a == b) s s.wd_incr_steps
                (eq→== s.wd_incr_steps s.wd_incr_steps refl),
            check_and_set-same same_style s s.wd_incr_style (same_style_refl s.wd_incr_style),
          )
          refl

    load-later :
        (t : OptimizerParamScheduler floats) (n : ℕ) (gs : List (Group floats))
        → t.num_steps ≡ 0
        → map (mults floats) gs ≡ map (mults floats) t.param_groups
        → step floats 0 (record t { num_steps = n; param_groups = gs })
          ≡ ok (record t { num_steps = n; param_groups = gs })
        → load_state_dict floats t
            (state_dict floats (record t { num_steps = n; param_groups = gs }))
          ≡ ok (record t { num_steps = n; param_groups = gs })
    unfolding load_state_dict state_dict first_of entry stepped_by
    load-later t n gs start kept just_set =
        let s : OptimizerParamScheduler floats = record t { num_steps = n; param_groups = gs } in
        let stepped : step floats n t ≡ ok s =
          sym (step-split floats n t)
          ∙ ap (λ m. step floats 0 (record t { num_steps = m }))
              (ap (λ m. m + n) start ∙ zero-add n)
          ∙ sym (step-with_groups floats 0 gs (record t { num_steps = n }) kept)
          ∙ just_set in
        ap
          (λ x. x >>= (λ loaded.
            step floats n loaded >>= (λ next. load_wd floats (state_dict floats s) next)))
          (load_lr-own t n gs)
        ∙ ap (λ x. x >>= (λ next. load_wd floats (state_dict floats s) next)) stepped
        ∙ load_wd-own s

    init-step :
        (args t : OptimizerParamScheduler floats)
        → init_scheduler floats args ≡ ok t
        → step floats 0 (record args { num_steps = 0 }) ≡ ok t
    unfolding init_scheduler
    init-step args t h =
        behind_asserts
          (le (of_int 0) args.min_lr
            ∷ le args.min_lr args.max_lr
            ∷ le args.init_lr args.max_lr
            ∷ ltb 0 args.lr_decay_steps
            ∷ ltb args.lr_warmup_steps args.lr_decay_steps
            ∷ le (of_int 0) args.start_wd
            ∷ le args.start_wd args.end_wd
            ∷ not (args.override_opt_param_scheduler && args.use_checkpoint_opt_param_scheduler)
            ∷ [])
          (step floats 0 (record args { num_steps = 0 })) h

    init-num_steps :
        (args t : OptimizerParamScheduler floats)
        → init_scheduler floats args ≡ ok t
        → t.num_steps ≡ 0
    unfolding stepped_by
    init-num_steps args t h =
        let (lr, wd, built) =
          step-eq floats 0 (record args { num_steps = 0 }) t (init-step args t h) in
        sym (ap (λ (x : OptimizerParamScheduler floats). x.num_steps) built)

    -- If the constructor and then any steps return, loading the state dictionary of the end into
    -- the scheduler that the constructor made gives the scheduler of the end, groups included,
    -- whatever the two flags are.
    pub load_state_dict-state_dict :
        (args t s : OptimizerParamScheduler floats) (increments : List ℕ)
        → init_scheduler floats args ≡ ok t
        → steps floats increments t ≡ ok s
        → load_state_dict floats t (state_dict floats s) ≡ ok s
    load_state_dict-state_dict args t s increments built ran =
        let first =
          step-Later floats 0 (record args { num_steps = 0 }) t (init-step args t built) in
        let later = steps-Later floats increments t s first.just_set ran in
        let same = later.same_values in
        subst (λ x. load_state_dict floats t (state_dict floats x) ≡ ok x) (sym same)
          (load-later t s.num_steps s.param_groups (init-num_steps args t built) later.same_mults
            (subst (λ x. step floats 0 x ≡ ok x) same later.just_set))

  load_lr-used :
      (s t : OptimizerParamScheduler floats)
      → t.override_opt_param_scheduler ≡ false
      → t.use_checkpoint_opt_param_scheduler ≡ true
      → load_lr floats (state_dict floats s) t
        ≡ ok (record t {
          max_lr = s.max_lr;
          min_lr = s.min_lr;
          lr_warmup_steps = s.lr_warmup_steps;
          lr_decay_steps = s.lr_decay_steps;
          lr_decay_style = s.lr_decay_style;
        })
  unfolding load_lr state_dict first_of entry
  load_lr-used s t o use_it =
      rw
        (
          check_and_set-used same t t.max_lr s.max_lr o use_it,
          check_and_set-used same t t.min_lr s.min_lr o use_it,
          check_and_set-used (λ a b. a == b) t t.lr_warmup_steps s.lr_warmup_steps o use_it,
          check_and_set-used (λ a b. a == b) t t.lr_decay_steps s.lr_decay_steps o use_it,
          check_and_set-used same_style t t.lr_decay_style s.lr_decay_style o use_it,
        )
        refl

  load_wd-used :
      (s t : OptimizerParamScheduler floats)
      → t.override_opt_param_scheduler ≡ false
      → t.use_checkpoint_opt_param_scheduler ≡ true
      → load_wd floats (state_dict floats s) t
        ≡ ok (record t {
          start_wd = s.start_wd;
          end_wd = s.end_wd;
          wd_incr_steps = s.wd_incr_steps;
          wd_incr_style = s.wd_incr_style;
        })
  unfolding load_wd state_dict entry
  load_wd-used s t o use_it =
      rw
        (
          check_and_set-used same t t.start_wd s.start_wd o use_it,
          check_and_set-used same t t.end_wd s.end_wd o use_it,
          check_and_set-used (λ a b. a == b) t t.wd_incr_steps s.wd_incr_steps o use_it,
          check_and_set-used same_style t t.wd_incr_style s.wd_incr_style o use_it,
        )
        refl

  -- What is loaded is what was saved, but for the flags and the values in the groups.
  loaded-forget :
      (s t u : OptimizerParamScheduler floats)
      → t.override_opt_param_scheduler ≡ false
      → t.use_checkpoint_opt_param_scheduler ≡ true
      → t.num_steps ≡ 0
      → t.init_lr ≡ s.init_lr
      → load_state_dict floats t (state_dict floats s) ≡ ok u
      → (gs : List (Group floats)) × (map (mults floats) gs ≡ map (mults floats) t.param_groups)
        × (forget floats u ≡ forget floats (with_groups floats gs s))
  unfolding load_state_dict first_of entry stepped_by forget state_dict
  loaded-forget s t u o use_it start same_init loaded =
      let sd = state_dict floats s in
      let t1 : OptimizerParamScheduler floats = record t {
        max_lr = s.max_lr;
        min_lr = s.min_lr;
        lr_warmup_steps = s.lr_warmup_steps;
        lr_decay_steps = s.lr_decay_steps;
        lr_decay_style = s.lr_decay_style;
      } in
      let (v, stepped, rest) = >>=-eq-ok (step floats s.num_steps t1) (load_wd floats sd) (
        sym (
          ap (λ x. x >>= (λ next. step floats s.num_steps next >>= load_wd floats sd))
            (load_lr-used s t o use_it))
        ∙ loaded) in
      let (lr, wd, built) = step-eq floats s.num_steps t1 v stepped in
      let gs = map (set_group floats lr wd) t.param_groups in
      let v0 = with_groups floats gs (stepped_by floats s.num_steps t1) in
      let ended = ok_inj (sym (load_wd-used s v0 o use_it) ∙ ap (load_wd floats sd) built ∙ rest) in
      (
        gs,
        map-mults-set_group floats lr wd t.param_groups,
        ap (forget floats) (sym ended)
            ∙ ap
                (λ x. forget floats (record s {
                  param_groups = gs;
                  init_lr = x;
                  num_steps = t.num_steps + s.num_steps;
                }))
                same_init
            ∙ ap (λ x. forget floats (record s { param_groups = gs; num_steps = x }))
                (ap (λ m. m + s.num_steps) start ∙ zero-add s.num_steps),
      )

  -- Let a scheduler that has made no step, with `use_checkpoint_opt_param_scheduler` on and the
  -- override off, with the same `init_lr` and the same multipliers in its groups as another one,
  -- load the state dictionary of the other. If the loading returns, then whatever its own settings
  -- were, any steps afterwards, at least one, have the same outcome as the same steps of the other
  -- scheduler, up to the two flags.
  pub resumed_by_checkpoint :
      (s t u : OptimizerParamScheduler floats) (k : ℕ) (ks : List ℕ)
      → t.override_opt_param_scheduler ≡ false
      → t.use_checkpoint_opt_param_scheduler ≡ true
      → t.num_steps ≡ 0
      → t.init_lr ≡ s.init_lr
      → map (mults floats) t.param_groups ≡ map (mults floats) s.param_groups
      → load_state_dict floats t (state_dict floats s) ≡ ok u
      → (steps floats (k ∷ ks) u >>= (λ v. ok (forget floats v)))
        ≡ (steps floats (k ∷ ks) s >>= (λ v. ok (forget floats v)))
  unfolding steps
  resumed_by_checkpoint s t u k ks o use_it start same_init same_mults loaded =
      let (gs, kept, alike) = loaded-forget s t u o use_it start same_init loaded in
      sym (steps-forget floats (k ∷ ks) u)
      ∙ ap (steps floats (k ∷ ks)) alike
      ∙ steps-forget floats (k ∷ ks) (with_groups floats gs s)
      ∙ ap (λ x. x >>= steps floats ks >>= (λ v. ok (forget floats v)))
          (step-with_groups floats k gs s (kept ∙ same_mults))
