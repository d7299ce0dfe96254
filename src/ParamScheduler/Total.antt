-- ===== src/ParamScheduler/Total.antt =====
-- When a step of the scheduler returns.
use native.Mathlib.Nat.{add-zero}
use megatron_lm.Prelude.{
  ℕ, ◌+◌, ◌-◌, ◌<◌, ◌≤◌, Bool, true, false, List, [], ◌∷◌, Result, ok, raise, ◌>>=◌, ◌>>◌,
  if◌then◌else◌, ◌==◌, ltb, leb, ◌&&◌, ◌≡◌, ltb→le, refl, sym, ap, ◌∙◌, subst, arith,
}
use megatron_lm.ParamScheduler.{
  Arithmetic, Style, constant, linear, cosine, inverse_square_root, other, same_style,
  OptimizerParamScheduler, get_lr, get_wd, step, warmup_lr, inverse_root_lr, decaying_lr,
  increasing_wd, ratio_of, in_unit, lr_coeff, wd_coeff,
}
use megatron_lm.ParamScheduler.Steps.{steps, step-eq, stepped_by}

-- The sum of the increments.
unfoldable pub total : List ℕ → ℕ
total [] = 0
total (k ∷ ks) = k + total ks

-- A call returns a value.
abbrev pub Returns : {A : Type 0} → Result A → Type 0
Returns {A} r = (a : A) × (r ≡ ok a)

Returns-bind :
    {A B : Type 0} (r : Result A) (f : A → Result B)
    → Returns r
    → ((a : A) → r ≡ ok a → Returns (f a))
    → Returns (r >>= f)
Returns-bind (ok a) f h k = k a refl
Returns-bind (raise e) f h k = cc

Returns-if :
    {A : Type 0} (b : Bool) (x y : Result A)
    → (b ≡ true → Returns x)
    → (b ≡ false → Returns y)
    → Returns (if b then x else y)
Returns-if true x y h k = h refl
Returns-if false x y h k = k refl

module _ (floats : Arithmetic) where
  open floats use {F, of_int, div, le, same}

  -- The quotient of n by a positive d, with n at most d, is between 0 and 1, as it is when IEEE
  -- division rounds it.
  unfoldable pub IsUnit : Type 0
  IsUnit =
      (n d : ℕ)
      → n ≤ d
      → 0 < d
      → (le (of_int 0) (div (of_int n) (of_int d)) ≡ true)
        × (le (div (of_int n) (of_int d)) (of_int 1) ≡ true)

  -- The settings that no exception comes from.
  unfoldable pub IsLrStyle : Style → Type 0
  IsLrStyle (other n) = ⊥
  IsLrStyle style = Unit

  unfoldable pub IsWdStyle : F → F → ℕ → Style → Type 0
  IsWdStyle start_wd end_wd wd_incr_steps constant = same start_wd end_wd ≡ true
  IsWdStyle start_wd end_wd wd_incr_steps linear = 0 < wd_incr_steps
  IsWdStyle start_wd end_wd wd_incr_steps cosine = 0 < wd_incr_steps
  IsWdStyle start_wd end_wd wd_incr_steps style = ⊥

  pub record IsSupported (s : OptimizerParamScheduler floats) : Type 0 where
    pub lr_style : IsLrStyle s.lr_decay_style
    pub wd_style : IsWdStyle s.start_wd s.end_wd s.wd_incr_steps s.wd_incr_style
    pub warmup : s.lr_warmup_steps < s.lr_decay_steps

  module _ (unit : IsUnit) where
    unit_ratio :
        {B : Type 0} (n d : ℕ) (f : F → Result B)
        → n ≤ d
        → 0 < d
        → ((a : F) → Returns (f a))
        → Returns (ratio_of floats n d >>= (λ a. in_unit floats a >> f a))
    unfolding ratio_of in_unit IsUnit
    unit_ratio n d f below positive h =
        let (low, high) = unit n d below positive in
        let nonzero : (d == 0) ≡ false = ground arith in
        rw (nonzero, low, high) (h (div (of_int n) (of_int d)))

    lr_coeff-Returns :
        (style : Style)
        → IsLrStyle style
        → same_style style constant ≡ false
        → same_style style inverse_square_root ≡ false
        → (a : F) → Returns (lr_coeff floats style a)
    unfolding IsLrStyle same_style lr_coeff
    lr_coeff-Returns constant known h k a = cc
    lr_coeff-Returns linear known h k a = (_, refl)
    lr_coeff-Returns cosine known h k a = (_, refl)
    lr_coeff-Returns inverse_square_root known h k a = cc
    lr_coeff-Returns (other n) known h k a = absurd known

    wd_coeff-Returns :
        (s : OptimizerParamScheduler floats) (style : Style)
        → IsWdStyle s.start_wd s.end_wd s.wd_incr_steps style
        → same_style style constant ≡ false
        → (0 < s.wd_incr_steps) × ((a : F) → Returns (wd_coeff floats style a))
    unfolding IsWdStyle same_style wd_coeff
    wd_coeff-Returns s constant known h = cc
    wd_coeff-Returns s linear known h = (known, λ a. (_, refl))
    wd_coeff-Returns s cosine known h = (known, λ a. (_, refl))
    wd_coeff-Returns s inverse_square_root known h = absurd known
    wd_coeff-Returns s (other n) known h = absurd known

    get_lr-Returns :
        (s : OptimizerParamScheduler floats) → IsSupported s → Returns (get_lr floats s)
    unfolding get_lr decaying_lr
    get_lr-Returns s supported =
        Returns-if (ltb 0 s.lr_warmup_steps && leb s.num_steps s.lr_warmup_steps) _ _
          (λ h. (warmup_lr floats s, refl))
          (λ h.
            Returns-if (same_style s.lr_decay_style constant) _ _ (λ k. (s.max_lr, refl))
              (λ k.
                Returns-if (ltb s.lr_decay_steps s.num_steps) _ _ (λ l. (s.min_lr, refl))
                  (λ l.
                    Returns-if (same_style s.lr_decay_style inverse_square_root) _ _
                      (λ m. (inverse_root_lr floats s, refl))
                      (λ m.
                        unit_ratio (s.num_steps - s.lr_warmup_steps)
                          (s.lr_decay_steps - s.lr_warmup_steps)
                          (λ a. lr_coeff floats s.lr_decay_style a >>= (λ c.
                            ok (floats.add s.min_lr (floats.mul c (floats.sub s.max_lr s.min_lr)))))
                          (omega (arith, ltb→le s.lr_decay_steps s.num_steps l))
                          (omega (arith, supported.warmup))
                          (λ a.
                            Returns-bind _ _
                              (lr_coeff-Returns s.lr_decay_style supported.lr_style k m a)
                              (λ c e. (_, refl)))))))

    wd_constant :
        (s : OptimizerParamScheduler floats) (style : Style)
        → IsWdStyle s.start_wd s.end_wd s.wd_incr_steps style
        → same_style style constant ≡ true
        → same s.start_wd s.end_wd ≡ true
    unfolding IsWdStyle same_style
    wd_constant s constant known h = known
    wd_constant s linear known h = cc
    wd_constant s cosine known h = cc
    wd_constant s inverse_square_root known h = cc
    wd_constant s (other n) known h = cc

    get_wd-Returns :
        (s : OptimizerParamScheduler floats) → IsSupported s → Returns (get_wd floats s)
    unfolding get_wd increasing_wd
    get_wd-Returns s supported =
        Returns-if (ltb s.wd_incr_steps s.num_steps) _ _ (λ h. (s.end_wd, refl))
          (λ h.
            Returns-if (same_style s.wd_incr_style constant) _ _
              (λ k. (s.end_wd, rw (wd_constant s s.wd_incr_style supported.wd_style k) refl))
              (λ k.
                let (positive, coeff) = wd_coeff-Returns s s.wd_incr_style supported.wd_style k in
                unit_ratio s.num_steps s.wd_incr_steps
                  (λ a. wd_coeff floats s.wd_incr_style a >>= (λ c.
                    ok (floats.add s.start_wd (floats.mul c (floats.sub s.end_wd s.start_wd)))))
                  (ltb→le s.wd_incr_steps s.num_steps h) positive
                  (λ a. Returns-bind _ _ (coeff a) (λ c e. (_, refl)))))

    step-Returns :
        (k : ℕ) (s : OptimizerParamScheduler floats) → IsSupported s → Returns (step floats k s)
    unfolding step
    step-Returns k s supported =
        let st : OptimizerParamScheduler floats = record s { num_steps = s.num_steps + k } in
        let known : IsSupported st = record {
          lr_style = supported.lr_style;
          wd_style = supported.wd_style;
          warmup = supported.warmup;
        } in
        Returns-bind (get_lr floats st) _ (get_lr-Returns st known)
          (λ lr h. Returns-bind (get_wd floats st) _ (get_wd-Returns st known) (λ wd k'. (_, refl)))

    -- If quotients of n by a positive d, with n at most d, are rounded to between 0 and 1, then no
    -- step of a scheduler raises whose decay style is known and longer than its warmup, and whose
    -- weight decay is constant with equal ends or grows, by a known style, over a positive number
    -- of steps; the number of steps afterwards is increased by all increments.
    pub steps-total :
        (ks : List ℕ) (s : OptimizerParamScheduler floats)
        → IsSupported s
        → (t : OptimizerParamScheduler floats) × (steps floats ks s ≡ ok t)
          × (t.num_steps ≡ s.num_steps + total ks)
    unfolding steps total stepped_by
    steps-total [] s supported = (s, refl, sym (add-zero s.num_steps))
    steps-total (k ∷ ks) s supported =
        let (next, stepped) = step-Returns k s supported in
        let (lr, wd, built) = step-eq floats k s next stepped in
        let known : IsSupported next = subst IsSupported built (record {
          lr_style = supported.lr_style;
          wd_style = supported.wd_style;
          warmup = supported.warmup;
        }) in
        let count = ap (λ (x : OptimizerParamScheduler floats). x.num_steps) built in
        let (t, ran, counted) = steps-total ks next known in
        (t, ap (λ x. x >>= steps floats ks) stepped ∙ ran, omega (arith, counted, count))
