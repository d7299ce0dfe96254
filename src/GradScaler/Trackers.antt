-- ===== src/GradScaler/Trackers.antt =====
-- When the scale changes.
use megatron_lm.Prelude.{
  ◌∙◌, refl, eq→==, sym, List, ==→ne, Bool-cases, subst, inl, inr, ℕ, zero, suc, ◌+◌, ◌<◌, ◌≡◌, ap,
  Bool, true, false, ◌==◌, if◌then◌else◌, [], ◌∷◌, arith, ne→==,
}
use megatron_lm.GradScaler.{
  state_dict, load_state_dict, pred, le_zero, update_inf, pos, Scales, DynamicGradScaler,
  update_clean, update_scale, updates,
}

abbrev pub repeat {ℓ} : {A : Type ℓ} → ℕ → A → List A
repeat zero x = []
repeat (suc n) x = x ∷ repeat n x

module _ (scales : Scales) where
  open scales use {F, mul, maximum, lt_float, zero_float, one_float}

  update_clean-more :
      (s : DynamicGradScaler scales)
      → (s.growth_tracker + 1 == s.growth_interval) ≡ false
      → update_clean scales s ≡ record s { growth_tracker = s.growth_tracker + 1 }
  unfolding update_clean
  update_clean-more s h = simp h

  update_clean-last :
      (s : DynamicGradScaler scales)
      → (s.growth_tracker + 1 == s.growth_interval) ≡ true
      → update_clean scales s ≡ record s {
        growth_tracker = 0;
        hysteresis_tracker = pos s.hysteresis;
        scale = mul s.scale s.growth_factor;
      }
  unfolding update_clean
  update_clean-last s h = simp h

  -- `n + 1` clean updates that complete the interval.
  clean_run :
      (n : ℕ) (s : DynamicGradScaler scales)
      → s.growth_tracker + suc n ≡ s.growth_interval
      → updates scales s (repeat (suc n) false) ≡ record s {
        growth_tracker = 0;
        hysteresis_tracker = pos s.hysteresis;
        scale = mul s.scale s.growth_factor;
      }
  unfolding updates update_scale
  clean_run zero s h = update_clean-last s (eq→== (s.growth_tracker + 1) s.growth_interval h)
  clean_run (suc n) s h =
      let next : DynamicGradScaler scales = record s { growth_tracker = s.growth_tracker + 1 } in
      let more =
        update_clean-more s (ne→== (s.growth_tracker + 1) s.growth_interval (omega arith)) in
      ap (λ t. updates scales t (repeat (suc n) false)) more ∙ clean_run n next (omega arith)

  -- After an update with an overflow, exactly `growth_interval` updates without one (a positive
  -- number) multiply the scale by the growth factor once, and reset both trackers.
  pub grow_after_interval :
      (s : DynamicGradScaler scales) (n : ℕ)
      → suc n ≡ s.growth_interval
      → updates scales s (true ∷ repeat (suc n) false) ≡ record (update_inf scales s) {
        growth_tracker = 0;
        hysteresis_tracker = pos s.hysteresis;
        scale = mul (update_inf scales s).scale s.growth_factor;
      }
  unfolding updates update_scale update_inf
  grow_after_interval s n h = clean_run n (update_inf scales s) (omega (arith, h))

  update_inf-keep :
      (s : DynamicGradScaler scales) {k : ℕ}
      → s.hysteresis_tracker ≡ pos (suc (suc k))
      → update_inf scales s ≡ record s { growth_tracker = 0; hysteresis_tracker = pos (suc k) }
  unfolding update_inf
  update_inf-keep s h =
      ap
        (λ z. record s {
          growth_tracker = 0;
          hysteresis_tracker = pred z;
          scale =
              if le_zero (pred z)
              then maximum (mul s.scale s.backoff_factor) s.min_scale
              else s.scale;
        })
        h

  -- With a hysteresis tracker of n + 1, n overflows in a row leave the scale as it is, and the next
  -- one multiplies it by the backoff factor, but not below `min_scale`.
  pub back_off_after_hysteresis :
      (n : ℕ) (s : DynamicGradScaler scales)
      → s.hysteresis_tracker ≡ pos (suc n)
      → ((updates scales s (repeat n true)).scale ≡ s.scale)
        × ((updates scales s (repeat (suc n) true)).scale
            ≡ maximum (mul s.scale s.backoff_factor) s.min_scale)
  unfolding updates update_scale update_inf
  back_off_after_hysteresis zero s h = (
    refl,
    ap
        (λ z.
          if le_zero (pred z) then maximum (mul s.scale s.backoff_factor) s.min_scale else s.scale)
        h,
  )
  back_off_after_hysteresis (suc n) s h =
      let next : DynamicGradScaler scales = record s {
        growth_tracker = 0;
        hysteresis_tracker = pos (suc n);
      } in
      let (kept, backed) = back_off_after_hysteresis n next refl in
      let step = update_inf-keep s h in
      (
        ap (λ t. (updates scales t (repeat n true)).scale) step ∙ kept,
        ap (λ t. (updates scales t (repeat (suc n) true)).scale) step ∙ backed,
      )

  -- What the constructor establishes, with an order `le` on the scales.
  pub record IsValid (le : F → F → Type 0) (s : DynamicGradScaler scales) : Type 0 where
    pub within : s.growth_tracker < s.growth_interval
    pub bounded : le s.min_scale s.scale
    pub positive : lt_float zero_float s.min_scale ≡ true
    pub grows : lt_float one_float s.growth_factor ≡ true

  -- The laws of the order: `torch.max` is not below its second argument, and a factor above one
  -- keeps a scale above a positive bound.
  pub record IsOrder (le : F → F → Type 0) : Type 0 where
    pub max_le : (x y : F) → le y (maximum x y)
    pub grow_le :
        (m x g : F)
        → lt_float zero_float m ≡ true
        → lt_float one_float g ≡ true
        → le m x
        → le m (mul x g)

  module _ (le : F → F → Type 0) (order : IsOrder le) where
    update_inf-IsValid :
        (s : DynamicGradScaler scales) → IsValid le s → IsValid le (update_inf scales s)
    unfolding update_inf
    update_inf-IsValid s v = record {
      within = omega (arith, v.within);
      bounded = backed (le_zero (pred s.hysteresis_tracker));
      positive = v.positive;
      grows = v.grows;
    }
      where
        backed :
            (b : Bool)
            → le s.min_scale
                (if b then maximum (mul s.scale s.backoff_factor) s.min_scale else s.scale)
        backed true = order.max_le (mul s.scale s.backoff_factor) s.min_scale
        backed false = v.bounded

    update_clean-IsValid :
        (s : DynamicGradScaler scales) → IsValid le s → IsValid le (update_clean scales s)
    update_clean-IsValid s v = elim (Bool-cases (s.growth_tracker + 1 == s.growth_interval)) [
      | inl last ↦ subst (IsValid le) (sym (update_clean-last s last)) (record {
        within = omega (arith, v.within);
        bounded = order.grow_le s.min_scale s.scale s.growth_factor v.positive v.grows v.bounded;
        positive = v.positive;
        grows = v.grows;
      })
      | inr more ↦
          let other = ==→ne (s.growth_tracker + 1) s.growth_interval more in
          subst (IsValid le) (sym (update_clean-more s more)) (record {
            within = omega (arith, v.within);
            bounded = v.bounded;
            positive = v.positive;
            grows = v.grows;
          })
    ]

    -- With an order on the scales in which `torch.max` is not below its second argument and a
    -- factor above one keeps a scale above a positive bound, every sequence of updates of a valid
    -- scaler leaves it valid: the growth tracker stays below the interval and the scale does not
    -- fall below `min_scale`.
    pub updates-IsValid :
        (s : DynamicGradScaler scales) (found : List Bool)
        → IsValid le s
        → IsValid le (updates scales s found)
    unfolding updates update_scale
    updates-IsValid s [] v = v
    updates-IsValid s (true ∷ found) v =
        updates-IsValid (update_inf scales s) found (update_inf-IsValid s v)
    updates-IsValid s (false ∷ found) v =
        updates-IsValid (update_clean scales s) found (update_clean-IsValid s v)

  -- A scaler with the same constants that loads the state of another goes on through any sequence
  -- of updates as the other does.
  pub load-state_dict :
      (s t : DynamicGradScaler scales) (found : List Bool)
      → t.min_scale ≡ s.min_scale
      → t.growth_factor ≡ s.growth_factor
      → t.backoff_factor ≡ s.backoff_factor
      → t.growth_interval ≡ s.growth_interval
      → t.hysteresis ≡ s.hysteresis
      → updates scales (load_state_dict scales t (state_dict scales s)) found
        ≡ updates scales s found
  unfolding load_state_dict state_dict
  load-state_dict s t found m g b i h =
      ap (λ r. updates scales r found)
        (λ j. record s {
          min_scale = m j;
          growth_factor = g j;
          backoff_factor = b j;
          growth_interval = i j;
          hysteresis = h j;
        })
