-- ===== src/GradScaler.antt =====
-- megatron/optimizer/grad_scaler.py: `DynamicGradScaler`. The scale is a float on the device, so its
-- arithmetic is a parameter; the trackers are Python integers, of which that of the hysteresis may
-- fall below zero.
pub mod Trackers
mod Tests
use megatron_lm.Prelude.{
  ℕ, zero, suc, ◌+◌, Bool, true, false, not, ltb, ◌==◌, if◌then◌else◌, List, [], ◌∷◌, Result, ok,
  ◌>>=◌, ◌>>◌, assert,
}

pub data ℤ : Type 0 where
  pos negsuc : ℕ → ℤ

abbrev pub pred : ℤ → ℤ
pred (pos zero) = negsuc zero
pred (pos (suc n)) = pos n
pred (negsuc n) = negsuc (suc n)

-- `z <= 0`
abbrev pub le_zero : ℤ → Bool
le_zero (pos zero) = true
le_zero (pos (suc n)) = false
le_zero (negsuc n) = true

-- The operations on floats: `a * b`, `torch.max(a, b)` and `a <= b`, `a < b`.
pub record Scales : Type 1 where
  pub F : Type 0
  pub mul : F → F → F
  pub maximum : F → F → F
  pub le_float : F → F → Bool
  pub lt_float : F → F → Bool
  pub zero_float : F
  pub one_float : F

module _ (scales : Scales) where
  open scales use {F, mul, maximum, le_float, lt_float, zero_float, one_float}

  pub record DynamicGradScaler : Type 0 where
    pub scale : F
    pub min_scale : F
    pub growth_factor : F
    pub backoff_factor : F
    pub growth_interval : ℕ
    pub hysteresis : ℕ
    pub growth_tracker : ℕ
    pub hysteresis_tracker : ℤ

  pub init_grad_scaler : F → F → F → F → ℕ → ℕ → Result DynamicGradScaler
  init_grad_scaler initial_scale min_scale growth backoff interval hysteresis = do
    assert (lt_float zero_float initial_scale)
    assert (lt_float zero_float min_scale)
    assert (le_float min_scale initial_scale)
    assert (lt_float one_float growth)
    assert (lt_float backoff one_float)
    assert (lt_float zero_float backoff)
    assert (ltb 0 interval)
    assert (ltb 0 hysteresis)
    ok (record {
      scale = initial_scale;
      min_scale = min_scale;
      growth_factor = growth;
      backoff_factor = backoff;
      growth_interval = interval;
      hysteresis = hysteresis;
      growth_tracker = 0;
      hysteresis_tracker = pos hysteresis;
    })

  -- `update` with `found_inf`, and without it.
  unfoldable pub update_inf : DynamicGradScaler → DynamicGradScaler
  update_inf s =
      let tracker = pred s.hysteresis_tracker in
      record s {
        growth_tracker = 0;
        hysteresis_tracker = tracker;
        scale =
            if le_zero tracker then maximum (mul s.scale s.backoff_factor) s.min_scale else s.scale;
      }

  unfoldable pub update_clean : DynamicGradScaler → DynamicGradScaler
  update_clean s =
      let tracker = s.growth_tracker + 1 in
      if tracker == s.growth_interval
      then record s {
        growth_tracker = 0;
        hysteresis_tracker = pos s.hysteresis;
        scale = mul s.scale s.growth_factor;
      }
      else record s { growth_tracker = tracker }

  unfoldable pub update_scale : DynamicGradScaler → Bool → DynamicGradScaler
  update_scale s true = update_inf s
  update_scale s false = update_clean s

  -- A sequence of updates.
  unfoldable pub updates : DynamicGradScaler → List Bool → DynamicGradScaler
  updates s [] = s
  updates s (found_inf ∷ others) = updates (update_scale s found_inf) others

  -- `state_dict` and `load_state_dict`
  pub record StateDict : Type 0 where
    pub scale : F
    pub growth_tracker : ℕ
    pub hysteresis_tracker : ℤ

  pub state_dict : DynamicGradScaler → StateDict
  state_dict s = record {
    scale = s.scale;
    growth_tracker = s.growth_tracker;
    hysteresis_tracker = s.hysteresis_tracker;
  }

  pub load_state_dict : DynamicGradScaler → StateDict → DynamicGradScaler
  load_state_dict s d = record s {
    scale = d.scale;
    growth_tracker = d.growth_tracker;
    hysteresis_tracker = d.hysteresis_tracker;
  }
