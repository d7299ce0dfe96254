-- ===== src/Samplers/Sequential.antt =====
-- The sequential sampler: which rank reads which sample.
pub mod Partition
use megatron_lm.Prelude.{
  ℕ, zero, suc, ◌+◌, ◌-◌, ◌*◌, ◌/◌, ◌%◌, ◌≤◌, ◌<◌, ◌≡◌, sym, ap, subst, ◌∙◌, not, ◌&&◌, ltb, ◌==◌,
  if◌then◌else◌, List, [], ◌∷◌, ◌++◌, range_from, length-range_from, range_from-snoc,
  drop-range_from, take-range_from, Bool-cases, inl, inr, ==→eq, ==→ne, arith,
}
use native.Mathlib.Nat.{
  div-eq_of_lt, mod-eq_of_lt, add-div_left, add-mod_left, add-zero, zero-mul, zero-add, suc-mul,
}
use native.Mathlib.Numerals.{add-one}
use megatron_lm.Samplers.{PretrainingSampler, get_start_end_idx, rank_slice, iter, collect}

-- What the constructor's checks give.
pub record IsValid (s : PretrainingSampler) (data_parallel_size : ℕ) : Type 0 where
  pub step : s.micro_batch_times_data_parallel_size ≡ s.micro_batch_size * data_parallel_size
  pub micro_pos : 0 < s.micro_batch_size
  pub rank_lt : s.data_parallel_rank < data_parallel_size

-- The batches of this rank in `k` full rounds from sample `start` on.
pub blocks : PretrainingSampler → ℕ → ℕ → List (List ℕ)
blocks s start zero = []
blocks s start (suc k) =
    range_from (start + s.data_parallel_rank * s.micro_batch_size) s.micro_batch_size
    ∷ blocks s (start + s.micro_batch_times_data_parallel_size) k

-- The share of this rank in a last round of `left` samples, which is dropped or handed out.
pub last : PretrainingSampler → ℕ → ℕ → List (List ℕ)
last s start left =
    if ltb 0 left && not s.drop_last then rank_slice s (range_from start left) ∷ [] else []

module _ (s : PretrainingSampler) (size : ℕ) (v : IsValid s size) where
  abbrev pub step : ℕ
  step = s.micro_batch_times_data_parallel_size

  pub rank_fits : s.data_parallel_rank * s.micro_batch_size + s.micro_batch_size ≤ step
  rank_fits = rw v.step (grind (arith, v.rank_lt))

  pub step_pos : 0 < step
  step_pos = omega (arith, rank_fits, v.micro_pos)

  rank_slice-full :
      (start : ℕ)
      → rank_slice s (range_from start step)
        ≡ range_from (start + s.data_parallel_rank * s.micro_batch_size) s.micro_batch_size
  unfolding rank_slice get_start_end_idx
  rank_slice-full start =
      rw (drop-range_from, take-range_from) (ap (range_from _) (omega (arith, rank_fits)))

  -- What the sampler yields of `n` samples from `start` on.
  abbrev pub rounds : ℕ → ℕ → List (List ℕ)
  rounds start n = blocks s start (n / step) ++ last s (start + n / step * step) (n % step)

  rounds_short : (start n : ℕ) → n < step → rounds start n ≡ last s start n
  unfolding blocks
  rounds_short start n h = rw (div-eq_of_lt h, mod-eq_of_lt h, zero-mul, add-zero)

  rounds_full :
      (start n : ℕ)
      → rounds start (step + n)
        ≡ range_from (start + s.data_parallel_rank * s.micro_batch_size) s.micro_batch_size
          ∷ rounds (start + step) n
  unfolding blocks
  rounds_full start n =
      let shift : start + suc (n / step) * step ≡ start + step + n / step * step =
        rw suc-mul (omega arith) in
      rw (add-div_left n step_pos, add-one, add-mod_left, shift)

  collect_step :
      (n len start : ℕ)
      → collect s (range_from start len) (range_from (start + len) (suc n)) ≡ (
          if suc len == step
          then rank_slice s (range_from start (suc len))
            ∷ collect s [] (range_from (start + suc len) n)
          else collect s (range_from start (suc len)) (range_from (start + suc len) n))
  unfolding collect
  collect_step n len start =
      let e : start + len + 1 ≡ start + suc len = omega arith in
      rw (e, range_from-snoc start len, length-range_from)

  collect_lem :
      (n len start : ℕ)
      → len < step
      → collect s (range_from start len) (range_from (start + len) n) ≡ rounds start (len + n)
  collect_lem zero len start h = collect_end ∙ sym (rw add-zero (rounds_short start len h))
    where
      collect_end : collect s (range_from start len) (range_from (start + len) 0) ≡ last s start len
      collect_end = unfold collect last in rw length-range_from
  collect_lem (suc n) len start h = collect_step n len start ∙ elim (Bool-cases (suc len == step)) [
    | inl full ↦
        let e : suc len ≡ step = ==→eq _ _ full in
        let r : len + suc n ≡ step + n = omega arith in
        let next : collect s [] (range_from (start + step) n) ≡ rounds (start + step) n =
          subst (λ k. collect s [] (range_from k n) ≡ rounds (start + step) n)
            (add-zero (start + step))
            (subst (λ k. collect s [] (range_from (start + step + 0) n) ≡ rounds (start + step) k)
              (zero-add n) (collect_lem n 0 (start + step) step_pos)) in
        rw (
          full,
          r,
          rounds_full start n,
          ap (λ k. rank_slice s (range_from start k)) e,
          rank_slice-full start,
          e,
          next,
        )
    | inr more ↦
        let r : len + suc n ≡ suc len + n = omega arith in
        rw (more, r) (collect_lem n (suc len) start (omega (arith, ==→ne _ _ more)))
  ]

  -- On a valid sampler, a run of the generator yields, in order, this rank's contiguous share of
  -- every full round, and then its share of the samples that are left, unless these are dropped or
  -- there are none.
  pub iter-rounds :
      iter s
      ≡ blocks s s.consumed_samples ((s.total_samples - s.consumed_samples) / step)
        ++ last s
            (s.consumed_samples + (s.total_samples - s.consumed_samples) / step * step)
            ((s.total_samples - s.consumed_samples) % step)
  unfolding iter
  iter-rounds =
      subst
        (λ k.
          collect s [] (range_from k (s.total_samples - s.consumed_samples))
          ≡ rounds s.consumed_samples (s.total_samples - s.consumed_samples))
        (add-zero s.consumed_samples)
        (subst
          (λ k.
            collect s []
              (range_from (s.consumed_samples + 0) (s.total_samples - s.consumed_samples))
            ≡ rounds s.consumed_samples k)
          (zero-add (s.total_samples - s.consumed_samples))
          (collect_lem (s.total_samples - s.consumed_samples) 0 s.consumed_samples step_pos))
