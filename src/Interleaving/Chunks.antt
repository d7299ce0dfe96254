-- ===== src/Interleaving/Chunks.antt =====
-- The first iteration for a chunk, and the chunks of the backward passes.
use megatron_lm.Prelude.{
  eq→==, ltb→le, sym, ltb→lt, ==→eq, ◌==◌, ◌∙◌, ltb, ap, Bool-cases, ◌≤◌, arith, ◌≢◌, ◌≡◌, ◌/◌, ◌%◌,
  if◌then◌else◌, ◌*◌, ◌<◌, Bool, ℕ, refl, true, false, inl, inr,
}
use native.Mathlib.Nat.{
  zero-mul, div-add-mod', mod-lt, mod-le, mod-eq_of_lt, div-eq_of_lt, mul-div_cancel,
}
use megatron_lm.Interleaving.{get_model_chunk_id, is_first_microbatch_for_model_chunk}

first_start : (a b : Bool) → (if a then b else false) ≡ true → a ≡ true → b ≡ true
first_start true b h e = h
first_start false b h e = absurd (cc)

first_later : (a b : Bool) → (if a then b else false) ≡ true → a ≡ false → ⊥
first_later true b h e = cc
first_later false b h e = cc

module _ (P V : ℕ) (stages : 0 < P) (grouped : 0 < P * V) where
  abbrev M : ℕ
  M = P * V

  abbrev chunk : ℕ → ℕ
  chunk m = (m % M) / P

  small : (m : ℕ) → m / M ≡ 0 → m < M
  small m e = omega (arith, div-add-mod' m M, mod-lt m grouped, ap (λ q. q * M) e, zero-mul M)

  -- The first iteration of its group for the same chunk.
  earliest_in_group : (m : ℕ) → chunk (m % M / P * P) ≡ chunk m
  earliest_in_group m =
      let low : m % M / P * P < M = omega (arith, div-add-mod' (m % M) P, mod-lt m grouped) in
      ap (λ r. r / P) (mod-eq_of_lt low) ∙ mul-div_cancel (m % M / P) stages

  first→earlier :
      (m : ℕ)
      → is_first_microbatch_for_model_chunk P V m ≡ true
      → (k : ℕ) → k < m
      → chunk k ≢ chunk m
  unfolding is_first_microbatch_for_model_chunk
  first→earlier m h k low same = elim (Bool-cases (m / M == 0)) [
    | inr later ↦ absurd (first_later (m / M == 0) (m % M % P == 0) h later)
    | inl first ↦
        let below = small m (==→eq (m / M) 0 first) in
        let m_eq = mod-eq_of_lt below in
        let k_eq : k % M ≡ k = mod-eq_of_lt {n = k} {m = M} (omega arith) in
        let start = ==→eq (m % M % P) 0 (first_start (m / M == 0) (m % M % P == 0) h first) in
        let e : k / P * P ≡ m / P * P =
          ap (λ q. q * P) (ap (λ r. r / P) (sym k_eq) ∙ same ∙ ap (λ r. r / P) m_eq) in
        omega (arith, e, div-add-mod' k P, div-add-mod' m P, ap (λ r. r % P) m_eq, start)
  ]

  earlier→first :
      (m : ℕ)
      → ((k : ℕ) → k < m → chunk k ≢ chunk m)
      → is_first_microbatch_for_model_chunk P V m ≡ true
  unfolding is_first_microbatch_for_model_chunk
  earlier→first m none_before =
      let k = m % M / P * P in
      let k_le : k ≤ m % M = omega (arith, div-add-mod' (m % M) P) in
      elim (Bool-cases (ltb k m)) [
        | inl before ↦ absurd (none_before k (ltb→lt k m before) (earliest_in_group m))
        | inr same ↦
            let all : m % M ≡ m = omega (arith, k_le, mod-le m M, ltb→le k m same) in
            let below : m < M = omega (arith, all, mod-lt m grouped) in
            let start : m % M % P ≡ 0 =
              omega (arith, all, div-add-mod' (m % M) P, ltb→le k m same, k_le) in
            rw (eq→== (m / M) 0 (div-eq_of_lt below), eq→== (m % M % P) 0 start) refl
      ]

  -- With positive numbers of stages and of model chunks, `is_first_microbatch_for_model_chunk`
  -- holds for an iteration of the interleaved schedule exactly if no earlier iteration runs forward
  -- through the same chunk.
  pub first_iteration :
      (m : ℕ)
      → (is_first_microbatch_for_model_chunk P V m ≡ true
          → (k : ℕ) → k < m
          → get_model_chunk_id P V k true ≢ get_model_chunk_id P V m true)
        × (((k : ℕ) → k < m → get_model_chunk_id P V k true ≢ get_model_chunk_id P V m true)
            → is_first_microbatch_for_model_chunk P V m ≡ true)
  unfolding get_model_chunk_id
  first_iteration m = (first→earlier m, earlier→first m)
