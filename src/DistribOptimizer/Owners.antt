-- ===== src/DistribOptimizer/Owners.antt =====
-- The ranks together: every element of a parameter has one owner.
use native.Mathlib.Nat.{div-add-mod', mul-le-mul_right, suc-mul, mul_comm}
use megatron_lm.Prelude.{
  refl, ap, get_elem?-map, get_elem?-range_from, range_from, Bool-cases, ne→==, ◌==◌, if◌then◌else◌,
  assertion_error, ◌↔◌, inl, inr, ℕ, ◌+◌, ◌/◌, ◌%◌, ◌≤◌, ◌<◌, ◌≡◌, some, Option-cases, arith, ok,
  raise,
}
use megatron_lm.Bucket.{index}
use megatron_lm.GradBuffer.{Place}
use megatron_lm.DistribOptimizer.{
  Range, ParamRanges, param_ranges, world_range, Shard, gbuf_range_of,
  build_model_gbuf_param_range_map,
}
use megatron_lm.DistribOptimizer.Shares.{
  InRange, param_ranges_exact, param_ranges-none, owner_unique,
}

-- A rank's range lies in the bucket.
world_range-IsOrdered :
    (n w offset r : ℕ)
    → n % w ≡ 0
    → r < w
    → ((world_range n (n / w) offset r).start ≤ (world_range n (n / w) offset r).end)
      × (offset ≤ (world_range n (n / w) offset r).start)
unfolding world_range
world_range-IsOrdered n w offset r even below = (
  omega (
    arith,
    div-add-mod' n w,
    mul_comm w (n / w),
    mul-le-mul_right (n / w) below,
    suc-mul r (n / w),
  ),
  omega arith,
)

-- What a rank keeps of a parameter is what it has of the parameter's elements.
kept_iff :
    (gbuf : Range) (offset : ℕ) (p : Place) (x : ℕ)
    → gbuf.start ≤ gbuf.end
    → offset ≤ gbuf.start
    → (k : ParamRanges) → param_ranges gbuf offset p ≡ some k
    → InRange x k.gbuf_world ↔ InRange x gbuf × (p.start ≤ x) × (x < p.end)
kept_iff gbuf offset p x ordered low k h =
    let (start, end, _, _, _, _, _, _) = param_ranges_exact gbuf offset p ordered low h in
    (
      (λ (a, b). ((omega arith, omega arith), omega arith, omega arith)),
      (λ ((a, b), c, d). (omega arith, omega arith)),
    )

-- In a bucket of `n` elements at `offset` that `w > 0` ranks divide evenly, each element of the
-- bucket that belongs to a parameter is in the range that one of the ranks keeps of the parameter,
-- and no other rank keeps it.
pub element_owned :
    (n w offset : ℕ) (p : Place) (x : ℕ)
    → 0 < w
    → n % w ≡ 0
    → offset ≤ x
    → x < offset + n
    → p.start ≤ x
    → x < p.end
    → (r : ℕ) × (r < w)
      × ((k : ParamRanges) × (param_ranges (world_range n (n / w) offset r) offset p ≡ some k)
          × InRange x k.gbuf_world)
      × ((r' : ℕ) (k' : ParamRanges)
          → r' < w
          → param_ranges (world_range n (n / w) offset r') offset p ≡ some k'
          → InRange x k'.gbuf_world
          → r' ≡ r)
element_owned n w offset p x pos even low high pl ph =
    let (r, below, owned, unique) = owner_unique n w offset x pos even low high in
    let range = world_range n (n / w) offset in
    let alone =
      λ (r' : ℕ) (k' : ParamRanges) (b : r' < w) (h : param_ranges (range r') offset p ≡ some k')
          (inside : InRange x k'.gbuf_world).
        let (ordered, above) = world_range-IsOrdered n w offset r' even b in
        unique r' ((kept_iff (range r') offset p x ordered above k' h).0 inside).0 in
    let (ordered, above) = world_range-IsOrdered n w offset r even below in
    elim (Option-cases (param_ranges (range r) offset p)) [
      | inl off ↦ absurd ((param_ranges-none (range r) offset p).0 off x owned pl ph)
      | inr (k, kept) ↦ (
        r,
        below,
        (k, kept, (kept_iff (range r) offset p x ordered above k kept).1 (owned, pl, ph)),
        alone,
      )
    ]

-- On a process group of `w > 0` ranks, a rank below `w` gets its ranges in a bucket from the w-th
-- part of the bucket that is its own if `w` divides the size of the bucket, and else an
-- AssertionError.
pub gbuf_range_of-ok :
    (s : Shard) (n offset : ℕ)
    → 0 < s.data_parallel_world_size
    → s.data_parallel_rank < s.data_parallel_world_size
    → gbuf_range_of s n offset ≡ (
        if n % s.data_parallel_world_size == 0
        then ok (
            build_model_gbuf_param_range_map s.param_index_map
              (world_range n (n / s.data_parallel_world_size) offset s.data_parallel_rank)
              offset)
        else raise assertion_error)
unfolding gbuf_range_of
gbuf_range_of-ok s n offset pos below =
    let w = s.data_parallel_world_size in
    let r = s.data_parallel_rank in
    let found =
      get_elem?-map (world_range n (n / w) offset) (range_from 0 w) r
        (get_elem?-range_from 0 w r below) in
    elim (Bool-cases (n % w == 0)) [
      | inl even ↦
          rw (ne→== w 0 (omega arith), even, found, index)
            (ap
              (λ k. ok (
                build_model_gbuf_param_range_map s.param_index_map (world_range n (n / w) offset k)
                  offset))
              (omega arith))
      | inr odd ↦ rw (ne→== w 0 (omega arith), odd) refl
    ]
