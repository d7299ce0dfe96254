-- ===== src/Bucket/Shards.antt =====
-- The shards of a buffer.
use megatron_lm.Prelude.{
  refl, ℕ, zero, suc, ◌+◌, ◌*◌, ◌/◌, ◌%◌, ◌≤◌, ◌<◌, ◌≡◌, ap, ◌∙◌, List, map, length, take, drop,
  range_from, length-take, length-drop, ok, arith, All, ne→==, All-imp, subst, take-append-take,
  drop-drop, take_all, length-map, length-range_from,
}
use mathlib.Core.List.{flatten}
use native.Mathlib.Nat.{zero-mul, one-mul, add-mul, suc-mul, mul_comm, div-add-mod', zero-add}
use megatron_lm.Bucket.{Slice, elements, shard_slice, shard_buffer}

-- The r-th part of `k` elements.
abbrev pub part : {A : Type 0} → List A → ℕ → ℕ → List A
part xs k r = take k (drop (r * k) xs)

-- If a positive world size divides the buffer, it is cut into that many slices.
pub shard_buffer-slices :
    {A : Type 0} (buffer : List A) (w : ℕ)
    → 0 < w
    → length buffer % w ≡ 0
    → shard_buffer buffer w ≡ ok (map (shard_slice (length buffer / w)) (range_from 0 w))
unfolding shard_buffer
shard_buffer-slices buffer w pos h = rw (ne→== w 0 (λ e. omega arith), h) refl

module _ {A : Type 0} where
  pub elements-shard_slice :
      (buffer : List A) (k r : ℕ) → elements (shard_slice k r) buffer ≡ part buffer k r
  unfolding elements shard_slice
  elements-shard_slice buffer k r =
      ap (λ n. take n (drop (r * k) buffer)) (omega (arith, add-mul r 1 k))

  -- `n` shards of size `k`, from shard `r` on.
  flatten-shards :
      (buffer : List A) (k n r : ℕ)
      → flatten (map (λ v. elements v buffer) (map (shard_slice k) (range_from r n)))
        ≡ take (n * k) (drop (r * k) buffer)
  unfolding flatten
  flatten-shards buffer k zero r = rw zero-mul
  flatten-shards buffer k (suc n) r =
      rw (elements-shard_slice buffer k r, flatten-shards buffer k n (r + 1), add-mul, one-mul)
        (rw (← drop-drop k (r * k) buffer, take-append-take)
          (ap (λ m. take m (drop (r * k) buffer)) (rw suc-mul (omega arith))))

  shards_even :
      (buffer : List A) (k n r : ℕ)
      → (r + n) * k ≤ length buffer
      → All
          (λ s. length s ≡ k)
          (map (λ v. elements v buffer) (map (shard_slice k) (range_from r n)))
  shards_even buffer k zero r h = tt
  shards_even buffer k (suc n) r h =
      let here : length (elements (shard_slice k r) buffer) ≡ k =
        rw (elements-shard_slice buffer k r, length-take, length-drop)
          (omega (arith, add-mul r (suc n) k, suc-mul n k)) in
      (here, shards_even buffer k n (r + 1) (subst (λ m. m * k ≤ length buffer) (shift r n) h))
    where
      shift : (r n : ℕ) → r + suc n ≡ r + 1 + n
      shift r n = omega arith

  -- A buffer whose length a positive world size divides is cut into that many slices, which show
  -- equal parts that make up the buffer in order.
  pub shard_buffer_lem :
      (buffer : List A) (w : ℕ)
      → 0 < w
      → length buffer % w ≡ 0
      → (shards : List Slice) × (shard_buffer buffer w ≡ ok shards)
        × (flatten (map (λ v. elements v buffer) shards) ≡ buffer)
        × (length shards ≡ w)
        × All (λ s. length s * w ≡ length buffer) (map (λ v. elements v buffer) shards)
  shard_buffer_lem buffer w pos h =
      let k = length buffer / w in
      let exact : k * w ≡ length buffer = omega (arith, div-add-mod' (length buffer) w) in
      (
        map (shard_slice k) (range_from 0 w),
        shard_buffer-slices buffer w pos h,
        flatten-shards buffer k w 0
            ∙ rw zero-mul (take_all (w * k) buffer (omega (arith, mul_comm w k))),
        length-map (shard_slice k) (range_from 0 w) ∙ length-range_from 0 w,
        All-imp (λ s. length s ≡ k) _ (λ s e. rw e exact) _
            (shards_even buffer k w 0 (omega (arith, mul_comm w k, zero-add w))),
      )
