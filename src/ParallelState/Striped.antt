-- ===== src/ParallelState/Striped.antt =====
-- Groups that stripe blocks of consecutive ranks: which ranks are in a group.
use megatron_lm.Samplers.Sequential.Partition.{euclid}
use native.Mathlib.Nat.{
  suc-mul, mul-le-mul_right, mod-lt, div-add-mod', lt_of_mul-lt-mul_right, zero-mul,
  add-mul-div_right, div-eq_of_lt,
}
use megatron_lm.Prelude.{
  ◌≤◌, ℕ, zero, suc, ◌+◌, ◌-◌, ◌*◌, ◌/◌, ◌%◌, ◌<◌, ◌≡◌, refl, ap, ◌∙◌, true, List, Bool-cases, inl,
  inr, arith, ==→eq, eq→==, ◌==◌,
}
use megatron_lm.Bucket.{contains}
use megatron_lm.ParallelState.{strided, range_step}

-- A member of a stride is a number of steps away from its start.
pub contains-strided :
    (x a step n : ℕ) → contains x (strided a step n) ≡ true → (k : ℕ) × (k < n) × (x ≡ a + k * step)
unfolding contains
contains-strided x a step zero h = cc
contains-strided x a step (suc n) h = elim (Bool-cases (x == a)) [
  | inl same ↦ (zero, omega arith, omega (arith, ==→eq x a same, zero-mul step))
  | inr other ↦
      let (k, low, e) = contains-strided x (a + step) step n (rw other at h) in
      (suc k, omega arith, omega (arith, suc-mul k step))
]

pub strided-contains :
    (x a step n k : ℕ) → k < n → x ≡ a + k * step → contains x (strided a step n) ≡ true
unfolding contains
strided-contains x a step zero k low e = absurd (omega arith)
strided-contains x a step (suc n) zero low e = rw (eq→== x a (omega (arith, zero-mul step))) refl
strided-contains x a step (suc n) (suc k) low e = elim (Bool-cases (x == a)) [
  | inl same ↦ rw same refl
  | inr other ↦
      rw other
        (strided-contains x (a + step) step n k (omega arith) (omega (arith, suc-mul k step)))
]

add-one : (i b : ℕ) → (i + 1) * b ≡ suc i * b
add-one i b = ap (λ i. i * b) (omega arith)

pub wide : (q step : ℕ) → 0 < q → step ≤ q * step
wide zero step h = absurd (omega arith)
wide (suc q) step h = omega (arith, suc-mul q step)

-- The number of ranks in a stripe.
stripe_length :
    (i j q step : ℕ)
    → 0 < q
    → j < step
    → ((i + 1) * (q * step) - (i * (q * step) + j) + (step - 1)) / step ≡ q
stripe_length i j q step pos low =
    let shift : (i + 1) * (q * step) - (i * (q * step) + j) + (step - 1)
        ≡ (step - 1 - j) + q * step =
      omega (arith, suc-mul i (q * step), add-one i (q * step), wide q step pos) in
    ap (λ x. x / step) shift
    ∙ add-mul-div_right (step - 1 - j) q (omega arith)
    ∙ ap (λ x. x + q) (div-eq_of_lt (omega arith))
    ∙ omega arith

-- The stripe of a rank.
abbrev pub stripe_of : ℕ → ℕ → ℕ → List ℕ
stripe_of block step r =
    range_step (r / block * block + r % block % step) ((r / block + 1) * block) step

-- A rank is in a stripe exactly if it is its own.
pub contains-stripe :
    (i j q step r : ℕ)
    → 0 < q
    → j < step
    → contains r (range_step (i * (q * step) + j) ((i + 1) * (q * step)) step) ≡ true
    → (i ≡ r / (q * step)) × (j ≡ r % (q * step) % step)
contains-stripe i j q step r pos low h =
    let (k, short, e) = contains-strided r (i * (q * step) + j) step _ h in
    let short' : k < q = omega (arith, stripe_length i j q step pos low) in
    let inner = mul-le-mul_right step short' in
    let (same_i, same_x) =
      euclid (q * step) i (r / (q * step)) (j + k * step) (r % (q * step))
        (omega (arith, inner, suc-mul k step)) (mod-lt r (omega (arith, wide q step pos)))
        (omega (arith, div-add-mod' r (q * step))) in
    let (_, same_j) =
      euclid step k (r % (q * step) / step) j (r % (q * step) % step) low
        (mod-lt (r % (q * step)) (omega arith))
        (omega (arith, div-add-mod' (r % (q * step)) step)) in
    (same_i, same_j)

pub stripe_of-contains :
    (q step r : ℕ) → 0 < q → 0 < step → contains r (stripe_of (q * step) step r) ≡ true
stripe_of-contains q step r pos_q pos =
    let x = r % (q * step) in
    let inside = mod-lt r {m = q * step} (omega (arith, wide q step pos_q)) in
    let low = mod-lt x {m = step} pos in
    let k_low : x / step < q = lt_of_mul-lt-mul_right step (omega (arith, div-add-mod' x step)) in
    strided-contains r (r / (q * step) * (q * step) + x % step) step _ (x / step)
      (omega (arith, stripe_length (r / (q * step)) (x % step) q step pos_q low))
      (omega (arith, div-add-mod' x step, div-add-mod' r (q * step)))
