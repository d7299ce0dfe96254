-- ===== src/Interleaving/Last.antt =====
-- The last iteration for a chunk.
use megatron_lm.Prelude.{
  eq→==, ◌∙◌, ◌+◌, ap, ltb→le, ==→eq, arith, ltb→lt, ◌==◌, ltb, ◌≢◌, Bool-cases, ◌≡◌, suc, ◌%◌, ◌/◌,
  ◌*◌, if◌then◌else◌, Bool, ◌<◌, ℕ, refl, true, false, inl, inr,
}
use native.Mathlib.Nat.{
  div-add-mod', mod-lt, mod-eq_of_lt, div-eq_of_lt, mul-div_cancel, div-lt_iff_lt-mul, suc-mul,
  mul-le-mul_right, mul_comm, add-mul-div_right, add-mod_right, add-mul-mod_self_right,
}
use megatron_lm.Interleaving.{get_model_chunk_id, is_last_microbatch_for_model_chunk}

both : (a b : Bool) → (if a then b else false) ≡ true → (a ≡ true) × (b ≡ true)
both true b h = (refl, h)
both false b h = absurd (cc)

module _ (P V : ℕ) (stages : 0 < P) (grouped : 0 < P * V) (groups : ℕ) where
  abbrev M : ℕ
  M = P * V

  abbrev N : ℕ
  N = groups * M

  abbrev chunk : ℕ → ℕ
  chunk m = (m % M) / P

  group-lt : (m : ℕ) → m < N → m / M < groups
  group-lt m h = (div-lt_iff_lt-mul grouped).1 h

  -- A later iteration of the last group is further on in the group.
  further :
      (m k : ℕ) → suc (m / M) ≡ groups → m < k → k < N → (k / M * M ≡ m / M * M) × (m % M < k % M)
  further m k last above below =
      let upper = group-lt k below in
      elim (Bool-cases (ltb (k / M) (m / M))) [
        | inl less ↦
            let low =
              (div-lt_iff_lt-mul {x = k} {y = m / M} grouped).0 (ltb→lt (k / M) (m / M) less) in
            absurd (omega (arith, low, div-add-mod' m M))
        | inr more ↦
            let e : k / M ≡ m / M = omega (arith, upper, last, ltb→le (k / M) (m / M) more) in
            let same = ap (λ q. q * M) e in
            (same, omega (arith, same, div-add-mod' m M, div-add-mod' k M))
      ]

  last→later :
      (m : ℕ)
      → is_last_microbatch_for_model_chunk P V N m ≡ true
      → (k : ℕ) → m < k
      → k < N
      → chunk k ≢ chunk m
  unfolding is_last_microbatch_for_model_chunk
  last→later m h k above below same =
      let (last, end) = both (m / M + 1 == N / M) (m % M % P + 1 == P) h in
      let group = ==→eq (m / M + 1) (N / M) last in
      let (_, after) =
        further m k (omega (arith, group, mul-div_cancel groups grouped)) above below in
      let e = ap (λ q. q * P) same in
      omega (
        arith,
        after,
        e,
        div-add-mod' (k % M) P,
        div-add-mod' (m % M) P,
        mod-lt (k % M) stages,
        ==→eq (m % M % P + 1) P end,
      )

  -- The same place in the next group runs the same chunk.
  next_group : (m : ℕ) → suc (m / M) < groups → (m + M < N) × (chunk (m + M) ≡ chunk m)
  next_group m low = (
    omega (
      arith,
      mul-le-mul_right {m = suc (suc (m / M))} {n = groups} M (omega arith),
      suc-mul (suc (m / M)) M,
      suc-mul (m / M) M,
      div-add-mod' m M,
      mod-lt m grouped,
    ),
    ap (λ r. r / P) (add-mod_right m M),
  )

  -- So does the next iteration, if the chunk has more of its stages to go.
  next_iteration : (m : ℕ) → suc (m % M % P) < P → (suc (m % M) < M) × (chunk (suc m) ≡ chunk m)
  next_iteration m low =
      let r = m % M in
      let inside : r / P < V =
        (div-lt_iff_lt-mul {x = r} {y = V} stages).1
          (omega (arith, mod-lt m grouped, mul_comm P V)) in
      let room = mul-le-mul_right {m = suc (r / P)} {n = V} P inside in
      let below : suc r < M =
        omega (arith, room, suc-mul (r / P) P, div-add-mod' r P, mul_comm P V) in
      let here : suc m % M ≡ suc r =
        ap (λ n. n % M) {x = suc m} {y = suc r + m / M * M} (omega (arith, div-add-mod' m M))
        ∙ add-mul-mod_self_right (suc r) (m / M) M
        ∙ mod-eq_of_lt below in
      (
        below,
        ap (λ n. n / P) here
            ∙ ap (λ n. n / P) {x = suc r} {y = suc (r % P) + r / P * P}
                (omega (arith, div-add-mod' r P))
            ∙ add-mul-div_right (suc (r % P)) (r / P) stages
            ∙ ap (λ q. q + r / P) (div-eq_of_lt low)
            ∙ omega arith,
      )

  later→last :
      (m : ℕ)
      → m < N
      → ((k : ℕ) → m < k → k < N → chunk k ≢ chunk m)
      → is_last_microbatch_for_model_chunk P V N m ≡ true
  unfolding is_last_microbatch_for_model_chunk
  later→last m below none_after =
      let upper = group-lt m below in
      let all = mul-div_cancel groups grouped in
      elim (Bool-cases (ltb (suc (m / M)) groups)) [
        | inl another ↦
            let (low, same) = next_group m (ltb→lt (suc (m / M)) groups another) in
            absurd (none_after (m + M) (omega arith) low same)
        | inr no_other ↦
            let group : suc (m / M) ≡ groups =
              omega (arith, upper, ltb→le (suc (m / M)) groups no_other) in
            elim (Bool-cases (ltb (suc (m % M % P)) P)) [
              | inl more ↦
                  let (low, same) = next_iteration m (ltb→lt (suc (m % M % P)) P more) in
                  absurd (
                    none_after (suc m) (omega arith)
                      (omega
                        (arith, low, div-add-mod' m M, suc-mul (m / M) M, ap (λ g. g * M) group))
                      same)
              | inr end ↦
                  rw
                    (
                      eq→== (m / M + 1) (N / M) (omega (arith, group, all)),
                      eq→== (m % M % P + 1) P
                          (omega (arith, mod-lt (m % M) stages, ltb→le (suc (m % M % P)) P end)),
                    )
                    refl
            ]
      ]

  -- With positive numbers of stages and of model chunks, and a total of whole groups,
  -- `is_last_microbatch_for_model_chunk` holds for an iteration of the interleaved schedule exactly
  -- if no later one runs forward through the same chunk.
  pub last_iteration :
      (m : ℕ)
      → m < N
      → (is_last_microbatch_for_model_chunk P V N m ≡ true
          → (k : ℕ) → m < k
          → k < N
          → get_model_chunk_id P V k true ≢ get_model_chunk_id P V m true)
        × (((k : ℕ) → m < k → k < N → get_model_chunk_id P V k true ≢ get_model_chunk_id P V m true)
            → is_last_microbatch_for_model_chunk P V N m ≡ true)
  unfolding get_model_chunk_id
  last_iteration m below = (last→later m, later→last m below)
