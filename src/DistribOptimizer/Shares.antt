-- ===== src/DistribOptimizer/Shares.antt =====
-- Which elements of a parameter a rank owns.
use megatron_lm.Prelude.{
  ltb→lt, ℕ, zero, suc, ◌+◌, ◌-◌, ◌*◌, ◌/◌, ◌%◌, ◌≤◌, ◌<◌, ◌≡◌, ◌↔◌, refl, inl, inr, max, min, ltb,
  none, some, arith, Bool-cases,
}
use native.Mathlib.Nat.{
  mul-le-mul_right, div-add-mod', mod-lt, mul_comm, lt_of_mul-lt-mul_right, zero-mul, suc-mul,
}
use megatron_lm.GradBuffer.{Place}
use megatron_lm.Samplers.Sequential.Partition.{euclid}
use megatron_lm.DistribOptimizer.{Range, size, ParamRanges, param_ranges, world_range}

abbrev pub InRange : ℕ → Range → Type 0
InRange x r = (r.start ≤ x) × (x < r.end)

-- If a rank's range is ordered and starts at the bucket's offset or later, the ranges that it keeps
-- of a parameter are the intersection with the parameter, seen from the buffer, from the bucket,
-- from the rank's range and from the parameter.
pub param_ranges_exact :
    (gbuf : Range) (offset : ℕ) (p : Place) {k : ParamRanges}
    → gbuf.start ≤ gbuf.end
    → offset ≤ gbuf.start
    → param_ranges gbuf offset p ≡ some k
    → (k.gbuf_world.start ≡ max p.start gbuf.start)
      × (k.gbuf_world.end ≡ min p.end gbuf.end)
      × (k.gbuf_world_in_bucket.start + offset ≡ k.gbuf_world.start)
      × (k.gbuf_world_in_bucket.end + offset ≡ k.gbuf_world.end)
      × (k.gbuf_local.start + gbuf.start ≡ k.gbuf_world.start)
      × (k.gbuf_local.end + gbuf.start ≡ k.gbuf_world.end)
      × (k.param.start + p.start ≡ k.gbuf_world.start)
      × (k.param.end + p.start ≡ k.gbuf_world.end)
unfolding param_ranges
param_ranges_exact gbuf offset p {k} ordered low h = ground arith

-- A rank keeps nothing of a parameter exactly if no element of its range belongs to the parameter.
pub param_ranges-none :
    (gbuf : Range) (offset : ℕ) (p : Place)
    → (param_ranges gbuf offset p ≡ none) ↔ ((x : ℕ) → InRange x gbuf → p.start ≤ x → ¬ (x < p.end))
unfolding param_ranges
param_ranges-none gbuf offset p = (
  (λ h x low high. ground arith),
  (λ h. elim (Bool-cases (ltb (p.start - gbuf.start) (min (size gbuf) (p.end - gbuf.start)))) [
    | inl meet ↦
        let lt = ltb→lt (p.start - gbuf.start) (min (size gbuf) (p.end - gbuf.start)) meet in
        let far = h (max p.start gbuf.start) (omega arith, omega arith) (omega arith) in
        absurd (far (omega arith))
    | inr apart ↦ rw apart refl
  ]),
)

positive : (k w : ℕ) → 0 < k * w → 0 < k
positive zero w h = absurd (omega (arith, zero-mul w))
positive (suc k) w h = omega arith

-- The shard of each element of a bucket.
pub owner_unique :
    (n w offset x : ℕ)
    → 0 < w
    → n % w ≡ 0
    → offset ≤ x
    → x < offset + n
    → (r : ℕ) × (r < w)
      × InRange x (world_range n (n / w) offset r)
      × ((r' : ℕ) → InRange x (world_range n (n / w) offset r') → r' ≡ r)
unfolding world_range
owner_unique n w offset x pos even low high =
    let k = n / w in
    let r = (x - offset) / k in
    let exact : k * w ≡ n = omega (arith, div-add-mod' n w) in
    let pos' : 0 < k = positive k w (omega (arith, exact)) in
    let split = div-add-mod' (x - offset) k in
    let small = mod-lt (x - offset) pos' in
    let below : r < w =
      lt_of_mul-lt-mul_right k (omega (arith, split, exact, mul_comm r k, mul_comm k w)) in
    (
      r,
      below,
      (
        omega (arith, split),
        omega (arith, split, exact, mul_comm w k, mul-le-mul_right k below, suc-mul r k),
      ),
      λ r' (low', high').
          (euclid k r' r (x - offset - r' * k) ((x - offset) % k) (omega arith) small
            (omega (arith, split))).0,
    )
