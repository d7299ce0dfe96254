-- ===== src/Pipeline/Counting.antt =====
-- The number of calls that have not returned, along the steps.
use megatron_lm.Prelude.{
  ==→ne, inr, sym, subst, ==→eq, inl, ◌==◌, zero, Bool-cases, refl, eq→==, ne→==, arith, ◌≤◌, ◌+◌,
  ◌≡◌, ◌<◌, ◌≢◌, ℕ, suc, length,
}
use megatron_lm.Schedules.{Config}
use megatron_lm.Pipeline.{
  remaining, bump, Returned, calls, Step, Steps, call_returns, stay, then_step,
}

pub bump_same : (r : ℕ) (returned : Returned) → bump r returned r ≡ suc (returned r)
unfolding bump
bump_same r returned = rw (eq→== r r refl) refl

pub bump_other : (r q : ℕ) (returned : Returned) → q ≢ r → bump r returned q ≡ returned q
unfolding bump
bump_other r q returned h = rw (ne→== q r h) refl

module _ (c : Config) where
  remaining-bump_above :
      (r m : ℕ) (returned : Returned)
      → m ≤ r
      → remaining c (bump r returned) m ≡ remaining c returned m
  unfolding remaining
  remaining-bump_above r zero returned low = refl
  remaining-bump_above r (suc m) returned low = omega (
    arith,
    bump_other r m returned (omega arith),
    remaining-bump_above r m returned (omega arith),
  )

  pub remaining-bump :
      (r m : ℕ) (returned : Returned)
      → r < m
      → returned r < length (calls c r)
      → suc (remaining c (bump r returned) m) ≡ remaining c returned m
  unfolding remaining
  remaining-bump r zero returned low left = absurd (omega arith)
  remaining-bump r (suc m) returned low left = elim (Bool-cases (m == r)) [
    | inl here ↦
        let e : m ≡ r = ==→eq m r here in
        subst (λ k. suc (remaining c (bump k returned) (suc m)) ≡ remaining c returned (suc m)) e
          (omega (
            arith,
            bump_same m returned,
            remaining-bump_above m m returned (omega arith),
            subst (λ k. returned k < length (calls c k)) (sym e) left,
          ))
    | inr elsewhere ↦
        let n : m ≢ r = ==→ne m r elsewhere in
        omega (arith, bump_other r m returned n, remaining-bump r m returned (omega arith) left)
  ]

  pub remaining-Step :
      {start end : Returned}
      → Step c start end
      → suc (remaining c end c.pipeline_model_parallel_world_size)
        ≡ remaining c start c.pipeline_model_parallel_world_size
  remaining-Step {start} (call_returns r low left matched) =
      remaining-bump r c.pipeline_model_parallel_world_size start low left

  pub remaining-Steps :
      {k : ℕ} {start end : Returned}
      → Steps c k start end
      → remaining c end c.pipeline_model_parallel_world_size + k
        ≡ remaining c start c.pipeline_model_parallel_world_size
  remaining-Steps stay = omega arith
  remaining-Steps (then_step steps last) = omega (arith, remaining-Steps steps, remaining-Step last)

  pub prepend_one :
      {k : ℕ} {start middle end : Returned}
      → Step c start middle
      → Steps c k middle end
      → Steps c (suc k) start end
  prepend_one step stay = then_step stay step
  prepend_one step (then_step steps last) = then_step (prepend_one step steps) last
