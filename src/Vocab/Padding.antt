-- ===== src/Vocab/Padding.antt =====
-- The padded size of the vocabulary.
use megatron_lm.Prelude.{
  ◌-◌, ◌/◌, ==→ne, ◌≢◌, ne→==, inr, ==→eq, inl, ◌==◌, Bool-cases, eq→==, subst, arith, ◌≤◌, ◌*◌,
  ◌≡◌, ◌<◌, ◌%◌, ◌+◌, ℕ, zero, suc, refl, some, ok,
}
use native.Mathlib.Nat.{suc-mul, div-add-mod', mod-lt, mul-mod_left}
use megatron_lm.Vocab.{pad_loop, vocab_size_with_padding}

-- The size is padded up to a multiple.
pub record IsPadded (multiple orig size : ℕ) : Type 0 where
  pub divisible : size % multiple ≡ 0
  pub above : orig ≤ size
  pub close : size < orig + multiple

-- The loop stops at the next multiple, `gap` away, or before.
pad_loop-total :
    (gap fuel multiple after : ℕ)
    → (after + gap) % multiple ≡ 0
    → gap < fuel
    → (size : ℕ) × (pad_loop fuel multiple after ≡ some size)
      × (size % multiple ≡ 0)
      × (after ≤ size)
      × (size ≤ after + gap)
unfolding pad_loop
pad_loop-total gap zero multiple after h low = absurd (omega arith)
pad_loop-total zero (suc fuel) multiple after h low =
    let here : after % multiple ≡ 0 = subst (λ n. n % multiple ≡ 0) (omega arith) h in
    (after, rw (eq→== (after % multiple) 0 here) refl, here, omega arith, omega arith)
pad_loop-total (suc gap) (suc fuel) multiple after h low =
    elim (Bool-cases (after % multiple == 0)) [
      | inl here ↦ (after, rw here refl, ==→eq (after % multiple) 0 here, omega arith, omega arith)
      | inr go ↦
          let (size, e, divisible, above, close) =
            pad_loop-total gap fuel multiple (after + 1)
              (subst (λ n. n % multiple ≡ 0) (omega arith) h) (omega arith) in
          (size, rw go e, divisible, omega arith, omega arith)
    ]

next_multiple : (n m : ℕ) → 0 < m → (gap : ℕ) × ((n + gap) % m ≡ 0) × (gap < m)
next_multiple n m pos = elim (Bool-cases (n % m == 0)) [
  | inl here ↦ (0, subst (λ k. k % m ≡ 0) (omega arith) (==→eq (n % m) 0 here), pos)
  | inr above ↦
      let rest : n % m ≢ 0 = ==→ne (n % m) 0 above in
      let e : suc (n / m) * m ≡ n + (m - n % m) =
        omega (arith, suc-mul (n / m) m, div-add-mod' n m, mod-lt n pos) in
      (
        m - n % m,
        subst (λ k. k % m ≡ 0) e (mul-mod_left (suc (n / m)) m),
        omega (arith, mod-lt n pos),
      )
]

-- With a positive divisor times tensor-parallel size, the loop of `_vocab_size_with_padding` ends
-- within as many rounds as that product: the padded size is its least multiple that is not below
-- the original size.
pub vocab_size_with_padding-total :
    (orig_vocab_size by tensor_size : ℕ)
    → 0 < by * tensor_size
    → (size : ℕ) × (vocab_size_with_padding orig_vocab_size by tensor_size ≡ ok (some size))
      × IsPadded (by * tensor_size) orig_vocab_size size
unfolding vocab_size_with_padding
vocab_size_with_padding-total n by w pos =
    let m = by * w in
    let (gap, multiple, low) = next_multiple n m pos in
    let (size, e, divisible, above, close) = pad_loop-total gap m m n multiple low in
    (
      size,
      rw (ne→== m 0 (λ e. omega arith), e) refl,
      record { divisible = divisible; above = above; close = omega arith },
    )
