-- ===== src/Samplers/Random.antt =====
-- The random sampler: when a run starts, what a yield leaves for a resumed run, and that sharded
-- ranks draw from disjoint buckets.
use megatron_lm.Prelude.{
  All-drop, All-imp, All-map, ◌≢◌, ℕ, zero, suc, ◌+◌, ◌-◌, ◌*◌, ◌/◌, ◌%◌, ◌≤◌, ◌<◌, ◌≡◌, ap, sym,
  subst, refl, true, some, List, [], ◌∷◌, ◌++◌, length, get_elem?, All, All-append, ok, raise,
  zero_division_error, assertion_error, ◌==◌, Bool-cases, inl, inr, arith, eq→==, ne→==,
}
use Prim.Native.Nat.{◌∣◌}
use native.Mathlib.Nat.{
  div-mul-le_self, mul-le-mul_right, mul-pos, mod-le, mod-lt, mod-mod_of_dvd, dvd-mul_left,
  mod-eq_of_lt, div-add-mod',
}
use megatron_lm.Samplers.{RandomSampler, emit, idx_range, iter_random, Epoch}

-- What the constructor sets and checks.
pub record IsValid (s : RandomSampler) : Type 0 where
  pub step : s.micro_batch_times_data_parallel_size ≡ s.micro_batch_size * s.data_parallel_size
  pub last : s.last_batch_size ≡ s.total_samples % s.micro_batch_times_data_parallel_size
  pub micro_pos : 0 < s.micro_batch_size
  pub rank_lt : s.data_parallel_rank < s.data_parallel_size

module _ (randperm : ℕ → ℕ → List ℕ) (s : RandomSampler) (v : IsValid s) where
  abbrev p : ℕ
  p = s.micro_batch_times_data_parallel_size

  active-eq : s.total_samples - s.last_batch_size ≡ s.total_samples / p * p
  active-eq = omega (arith, v.last, div-add-mod' s.total_samples p)

  p_pos : 0 < p
  p_pos = rw v.step (mul-pos v.micro_pos (omega (arith, v.rank_lt)))

  epoch_rest :
      s.consumed_samples % (s.total_samples - s.last_batch_size) % p ≡ s.consumed_samples % p
  epoch_rest =
      mod-mod_of_dvd p s.consumed_samples
        (subst (λ n. p ∣ n) (sym active-eq) (dvd-mul_left p (s.total_samples / p)))

  -- On a valid sampler with fewer samples than one step, a run raises a ZeroDivisionError.
  pub iter_random_too_few : s.total_samples < p → iter_random randperm s ≡ raise zero_division_error
  unfolding iter_random
  iter_random_too_few h =
      rw (eq→== (s.total_samples - s.last_batch_size) 0 (omega (arith, v.last, mod-eq_of_lt h)))

  -- On a valid sampler with one step of samples or more, a run starts if the consumed samples are
  -- whole steps, and else raises an AssertionError.
  pub iter_random_starts :
      p ≤ s.total_samples
      → (s.consumed_samples % p ≡ 0 → (e : Epoch) × (iter_random randperm s ≡ ok e))
        × (s.consumed_samples % p ≢ 0 → iter_random randperm s ≡ raise assertion_error)
  unfolding iter_random
  iter_random_starts h =
      let some_active : s.total_samples - s.last_batch_size ≢ 0 =
        λ z. omega (arith, v.last, mod-le s.total_samples p, mod-lt s.total_samples p_pos) in
      (
        (λ e.
            rw (ne→== (s.total_samples - s.last_batch_size) 0 some_active, epoch_rest, e)
              (_, refl)),
        (λ ne. rw (
          ne→== (s.total_samples - s.last_batch_size) 0 some_active,
          epoch_rest,
          ne→== (s.consumed_samples % p) 0 ne,
        )),
      )

-- At the k-th yield of the loop over the indices, the batch has `micro_batch_size` indices, and
-- `consumed_samples` has grown by k + 1 steps.
pub emit_at :
    (s : RandomSampler) (indices batch : List ℕ) (consumed k : ℕ) {b : List ℕ} {c : ℕ}
    → get_elem? (emit s consumed batch indices) k ≡ some (b, c)
    → (length b ≡ s.micro_batch_size)
      × (c ≡ consumed + suc k * s.micro_batch_times_data_parallel_size)
unfolding emit
emit_at s [] batch consumed k h = cc
emit_at s (i ∷ is) batch consumed zero {b} {c} h =
    ground (arith, emit_at s is (batch ++ i ∷ []) consumed zero {b = b} {c = c})
emit_at s (i ∷ is) batch consumed (suc k) {b} {c} h = ground (
  arith,
  emit_at s is [] (consumed + s.micro_batch_times_data_parallel_size) k {b = b} {c = c},
  emit_at s is (batch ++ i ∷ []) consumed (suc k) {b = b} {c = c},
)

emit-All :
    (P : ℕ → Type 0) (s : RandomSampler) (indices batch : List ℕ) (consumed : ℕ)
    → All P indices
    → All P batch
    → All (λ y. All P y.0) (emit s consumed batch indices)
unfolding emit
emit-All P s [] batch consumed h hb = tt
emit-All P s (i ∷ is) batch consumed h hb =
    let hb' : All P (batch ++ i ∷ []) = All-append P batch (i ∷ []) hb (h.0, tt) in
    elim (Bool-cases (length (batch ++ i ∷ []) == s.micro_batch_size)) [
      | inl full ↦ rw full (hb', emit-All P s is [] _ h.1 tt)
      | inr more ↦ rw more (emit-All P s is _ consumed h.1 hb')
    ]

module _ (randperm : ℕ → ℕ → List ℕ) (s : RandomSampler) (v : IsValid s) where
  -- The length of a rank's bucket.
  abbrev pub bucket : ℕ
  bucket = s.total_samples / s.micro_batch_times_data_parallel_size * s.micro_batch_size

  buckets_fit : s.data_parallel_rank * bucket + bucket ≤ s.total_samples
  buckets_fit =
      let q = s.total_samples / s.micro_batch_times_data_parallel_size in
      omega (
        arith,
        mul-le-mul_right bucket v.rank_lt,
        div-mul-le_self s.total_samples s.micro_batch_times_data_parallel_size,
        ap (λ t. q * t) v.step,
      )

  iter_random-yields :
      {e : Epoch}
      → iter_random randperm s ≡ ok e
      → (a c : ℕ) × (e.yields ≡ emit s s.consumed_samples [] (idx_range randperm s a c))
  unfolding iter_random
  iter_random-yields h =
      let active = s.total_samples - s.last_batch_size in
      (s.consumed_samples / active, s.consumed_samples % active, ground arith)

  -- An index of this rank's bucket, which is one of the data set.
  abbrev pub InBucket : ℕ → Type 0
  InBucket i =
      (s.data_parallel_rank * bucket ≤ i)
      × (i < s.data_parallel_rank * bucket + bucket)
      × (i < s.total_samples)

  idx_range-InBucket :
      s.data_sharding ≡ true
      → ((n seed : ℕ) → All (λ x. x < n) (randperm n seed))
      → (a c : ℕ) → All InBucket (idx_range randperm s a c)
  unfolding idx_range
  idx_range-InBucket sharded below a c =
      let perm = randperm bucket a in
      let place = λ (x : ℕ). s.data_parallel_rank * bucket + x in
      let kept = All-drop (λ x. x < bucket) (c / s.data_parallel_size) perm (below bucket a) in
      simp sharded (
        All-map InBucket place _ (
          All-imp (λ x. x < bucket) (λ x. InBucket (place x))
            (λ x lt. (omega arith, omega arith, omega (arith, buckets_fit))) _ kept))

  -- With data sharding on a valid sampler, and if `randperm n` gives numbers below `n`, every index
  -- that a run yields lies in the bucket of this rank and in the data set.
  pub iter_random_sharded :
      s.data_sharding ≡ true
      → ((n seed : ℕ) → All (λ x. x < n) (randperm n seed))
      → {e : Epoch} → iter_random randperm s ≡ ok e
      → All (λ y. All InBucket y.0) e.yields
  iter_random_sharded sharded below {e} h =
      let (a, c, yields) = iter_random-yields h in
      subst (All (λ y. All InBucket y.0)) (sym yields) (
        emit-All InBucket s (idx_range randperm s a c) [] s.consumed_samples
          (idx_range-InBucket sharded below a c) tt)
