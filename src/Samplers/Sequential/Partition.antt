-- ===== src/Samplers/Sequential/Partition.antt =====
-- The ranks share the samples out: each sample of a full round goes to exactly one of them.
use megatron_lm.Prelude.{
  get_elem?-append, get_elem?-range_from, get_elem?-lt, length-range_from, some_inj, none_ne_some,
  ℕ, zero, suc, ◌+◌, ◌-◌, ◌*◌, ◌/◌, ◌%◌, ◌≤◌, ◌<◌, ◌≡◌, sym, ap, subst, not, ◌&&◌, ◌∙◌, min, ltb,
  none, some, List, ◌++◌, get_elem?, range_from, drop-range_from, take-range_from, Bool-cases, inl,
  inr, arith,
}
use native.Mathlib.Nat.{
  mod-lt, mul_comm, lt_of_mul-lt-mul_right, div-lt_iff_lt-mul, div-add-mod', add-mul-div_right,
  zero-mul, suc-mul, add-zero, add-mul-mod_self_right, div-eq_of_lt, mod-eq_of_lt,
}
use megatron_lm.Samplers.{iter, PretrainingSampler, get_start_end_idx, rank_slice}
use megatron_lm.Samplers.Sequential.{step_pos, rank_fits, iter-rounds, IsValid, blocks, last}

-- Quotient and remainder are unique.
pub euclid : (p a b x y : ℕ) → x < p → y < p → a * p + x ≡ b * p + y → (a ≡ b) × (x ≡ y)
euclid p a b x y hx hy e = (
  omega (
    arith,
    ap (λ t. t / p) e',
    add-mul-div_right x a pos,
    add-mul-div_right y b pos,
    div-eq_of_lt hx,
    div-eq_of_lt hy,
  ),
  omega (
    arith,
    ap (λ t. t % p) e',
    add-mul-mod_self_right x a p,
    add-mul-mod_self_right y b p,
    mod-eq_of_lt hx,
    mod-eq_of_lt hy,
  ),
)
  where
    pos : 0 < p
    pos = omega arith

    e' : x + a * p ≡ y + b * p
    e' = omega arith

module _ (s : PretrainingSampler) where
  get_elem?-blocks :
      (k i start : ℕ)
      → i < k
      → get_elem? (blocks s start k) i
        ≡ some (
            range_from
              (start
                + i * s.micro_batch_times_data_parallel_size
                + s.data_parallel_rank * s.micro_batch_size)
              s.micro_batch_size)
  unfolding blocks
  get_elem?-blocks zero i start h = absurd (omega arith)
  get_elem?-blocks (suc k) zero start h =
      ap (λ k. some (range_from k s.micro_batch_size)) (rw (zero-mul, add-zero))
  get_elem?-blocks (suc k) (suc i) start h =
      get_elem?-blocks k i (start + s.micro_batch_times_data_parallel_size) (omega arith)
      ∙ ap
          (λ k.
            some (range_from (k + s.data_parallel_rank * s.micro_batch_size) s.micro_batch_size))
          (rw suc-mul (omega arith))

  abbrev offset : ℕ
  offset = s.data_parallel_rank * s.micro_batch_size

  last_batch :
      (z left : ℕ) {b : List ℕ}
      → get_elem? (last s z left) 0 ≡ some b
      → b ≡ range_from (z + offset) (min s.micro_batch_size (left - offset))
  unfolding last rank_slice get_start_end_idx
  last_batch z left h = elim (Bool-cases (ltb 0 left && not s.drop_last)) [
    | inl kept ↦
        sym (some_inj (rw kept at h))
        ∙ (rw (drop-range_from, take-range_from)
            (ap (λ k. range_from (z + offset) (min k (left - offset))) (omega arith)))
    | inr dropped ↦ absurd (none_ne_some (rw dropped at h))
  ]

  last_none : (z left i : ℕ) → get_elem? (last s z left) (suc i) ≡ none
  unfolding last
  last_none z left i = ground arith

  -- Every batch is a run of at most `micro_batch_size` indices at this rank's place in a round.
  batch_at :
      (k left i start : ℕ) {b : List ℕ}
      → get_elem?
          (blocks s start k ++ last s (start + k * s.micro_batch_times_data_parallel_size) left)
          i
        ≡ some b
      → (m : ℕ) × (b
          ≡ range_from
              (start
                + i * s.micro_batch_times_data_parallel_size
                + s.data_parallel_rank * s.micro_batch_size)
              m)
        × (m ≤ s.micro_batch_size)
  unfolding blocks
  batch_at zero left zero start h = (
    min s.micro_batch_size (left - offset),
    last_batch (start + zero * s.micro_batch_times_data_parallel_size) left h,
    omega arith,
  )
  batch_at zero left (suc i) start h = absurd (
      none_ne_some
        (sym (last_none (start + zero * s.micro_batch_times_data_parallel_size) left i) ∙ h))
  batch_at (suc k) left zero start h = (
    s.micro_batch_size,
    sym (some_inj h)
        ∙ ap (λ k. range_from (k + offset) s.micro_batch_size) (rw (zero-mul, add-zero)),
    omega arith,
  )
  batch_at (suc k) left (suc i) start {b} h =
      let step = s.micro_batch_times_data_parallel_size in
      let shift : start + suc k * step ≡ start + step + k * step = rw suc-mul (omega arith) in
      let h' : get_elem? (blocks s (start + step) k ++ last s (start + step + k * step) left) i
          ≡ some b =
        subst (λ z. get_elem? (blocks s (start + step) k ++ last s z left) i ≡ some b) shift h in
      let (m, e, low) = batch_at k left i (start + step) h' in
      (m, e ∙ ap (λ z. range_from (z + offset) m) (rw suc-mul (omega arith)), low)

  -- Index `j` of the batch that is yielded in round `k`.
  pub iter_index :
      (size : ℕ)
      → IsValid s size
      → (k j : ℕ) {b : List ℕ} {i : ℕ} → get_elem? (iter s) k ≡ some b
      → get_elem? b j ≡ some i
      → (i
          ≡ s.consumed_samples
            + k * s.micro_batch_times_data_parallel_size
            + s.data_parallel_rank * s.micro_batch_size
            + j)
        × (j < s.micro_batch_size)
  iter_index size v k j {b} {i} hb hi =
      let (m, e, low) =
        batch_at _ _ k s.consumed_samples
          (subst (λ l. get_elem? l k ≡ some b) (iter-rounds s size v) hb) in
      let start =
        s.consumed_samples
        + k * s.micro_batch_times_data_parallel_size
        + s.data_parallel_rank * s.micro_batch_size in
      let hi' : get_elem? (range_from start m) j ≡ some i =
        subst (λ l. get_elem? l j ≡ some i) e hi in
      let below : j < m =
        subst (λ n. j < n) (length-range_from start m) (get_elem?-lt (range_from start m) j hi') in
      (some_inj (sym hi' ∙ get_elem?-range_from start m j below), omega arith)

-- The same sampler on another rank.
abbrev pub at_rank : PretrainingSampler → ℕ → PretrainingSampler
at_rank s r = record s { data_parallel_rank = r }

module _ (s : PretrainingSampler) (size : ℕ) where
  -- On two ranks on which the sampler is valid, an index is yielded at most once: two places at
  -- which it stands are the same rank, the same batch and the same place in the batch.
  pub iter_disjoint :
      (r r' : ℕ)
      → IsValid (at_rank s r) size
      → IsValid (at_rank s r') size
      → (k j k' j' : ℕ) {b b' : List ℕ} {i : ℕ} → get_elem? (iter (at_rank s r)) k ≡ some b
      → get_elem? b j ≡ some i
      → get_elem? (iter (at_rank s r')) k' ≡ some b'
      → get_elem? b' j' ≡ some i
      → (r ≡ r') × (k ≡ k') × (j ≡ j')
  iter_disjoint r r' v v' k j k' j' hb hi hb' hi' =
      let m = s.micro_batch_size in
      let p = s.micro_batch_times_data_parallel_size in
      let (e, low) = iter_index (at_rank s r) size v k j hb hi in
      let (e', low') = iter_index (at_rank s r') size v' k' j' hb' hi' in
      let rounds_same : (k ≡ k') × (r * m + j ≡ r' * m + j') =
        euclid p k k' (r * m + j) (r' * m + j') (omega (arith, rank_fits (at_rank s r) size v))
          (omega (arith, rank_fits (at_rank s r') size v')) (omega arith) in
      let place_same : (r ≡ r') × (j ≡ j') = euclid m r r' j j' low low' rounds_same.1 in
      (place_same.0, rounds_same.0, place_same.1)

  -- If the sampler is valid, every sample of the full rounds from `consumed_samples` on is yielded
  -- on some rank below the data-parallel size.
  pub iter_covers :
      IsValid s size
      → (i : ℕ) → s.consumed_samples ≤ i
      → i
        < s.consumed_samples
          + (s.total_samples - s.consumed_samples)
            / s.micro_batch_times_data_parallel_size
            * s.micro_batch_times_data_parallel_size
      → (r k j : ℕ) × (b : List ℕ) × (r < size)
        × (get_elem? (iter (at_rank s r)) k ≡ some b)
        × (get_elem? b j ≡ some i)
  iter_covers v i low high =
      let m = s.micro_batch_size in
      let p = s.micro_batch_times_data_parallel_size in
      let n = s.total_samples - s.consumed_samples in
      let o = i - s.consumed_samples in
      let k = o / p in
      let x = o % p in
      let r = x / m in
      let j = x % m in
      let split_o : k * p + x ≡ o = div-add-mod' o p in
      let split_x : r * m + j ≡ x = div-add-mod' x m in
      let x_lt : x < size * m =
        subst (λ t. x < t) (v.step ∙ mul_comm m size) (mod-lt o (step_pos s size v)) in
      let r_lt : r < size = (div-lt_iff_lt-mul v.micro_pos).1 x_lt in
      let k_lt : k < n / p = lt_of_mul-lt-mul_right p (omega arith) in
      let v' : IsValid (at_rank s r) size = record {
        step = v.step;
        micro_pos = v.micro_pos;
        rank_lt = r_lt;
      } in
      (
        r,
        k,
        j,
        range_from (s.consumed_samples + k * p + r * m) m,
        r_lt,
        subst (λ l. get_elem? l k ≡ some (range_from (s.consumed_samples + k * p + r * m) m))
            (sym (iter-rounds (at_rank s r) size v'))
            (get_elem?-append _ _ k
              (get_elem?-blocks (at_rank s r) (n / p) k s.consumed_samples k_lt)),
        get_elem?-range_from (s.consumed_samples + k * p + r * m) m j (mod-lt x v.micro_pos)
            ∙ ap some (omega arith),
      )
