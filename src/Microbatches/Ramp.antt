-- ===== src/Microbatches/Ramp.antt =====
-- What the ramp of the batch size promises.
use megatron_lm.Prelude.{
  ℕ, ◌+◌, ◌-◌, ◌*◌, ◌/◌, ◌%◌, ◌≤◌, ◌<◌, ◌≡◌, refl, true, false, ok, >>=-eq-ok, raise,
  zero_division_error, arith, ltb, Bool-cases, inl, inr, ltb→le, ◌∙◌, le→leb, ne→==, lt→ltb, zero,
  suc,
}
use native.Mathlib.Nat.{div-add-mod', zero-mod, zero-div, mul-le-mul_right, le_trans}
use megatron_lm.Microbatches.{
  Floats, IsRounding, Constant, init_constant, Rampup, ramp_steps, ramp_batch_size, update,
  init_rampup,
}

pos_of_mul : (k p n : ℕ) → k * p ≡ n → 0 < n → 0 < k
pos_of_mul zero p n e h = absurd (omega arith)
pos_of_mul (suc k) p n e h = omega arith

sub_self : (n : ℕ) → n - n ≡ 0
sub_self n = omega arith

mul_quotient : (g p n : ℕ) → g % p ≡ 0 → n ≡ g / p → n * p ≡ g
mul_quotient g p n e q = rw q (omega (arith, div-add-mod' g p))

-- A constant calculator that is built has at least one micro-batch, and the micro-batches of all
-- ranks make up the global batch exactly.
pub init_constant_exact :
    (g m d : ℕ) {c : Constant}
    → init_constant g m d ≡ ok c
    → (1 ≤ c.num_micro_batches) × (c.num_micro_batches * (m * d) ≡ g)
unfolding init_constant
init_constant_exact g m d {c} h = ground (arith, mul_quotient g (m * d) c.num_micro_batches)

module _ (floats : Floats) where
  open floats use {F, div_int, div_float, is_zero, trunc}

  -- What `init_rampup` establishes and `update` keeps.
  pub record IsValid (c : Rampup floats) : Type 0 where
    pub step_pos : 0 < c.micro_batch_times_data_parallel_size
    pub start_le : c.start_batch_size ≤ c.global_batch_size
    pub increments : ℕ
    pub increments_pos : 0 < increments
    pub reached : c.start_batch_size + increments * c.batch_size_increment ≡ c.global_batch_size
    pub samples_pos : 0 < c.ramup_samples
    pub per_increment : c.rampup_samples_per_increment ≡ div_int c.ramup_samples increments

  -- If `update` with the consistency check succeeds, the micro-batches that it counts make up the
  -- current global batch exactly.
  pub update_consistent :
      (c : Rampup floats) (consumed : ℕ) {c' : Rampup floats}
      → update floats c consumed true ≡ ok c'
      → c'.num_micro_batches * c.micro_batch_times_data_parallel_size ≡ c'.current_global_batch_size
  unfolding update
  update_consistent c consumed {c'} h =
      let (b, e, rest) = >>=-eq-ok (ramp_batch_size floats c consumed) _ h in
      ground (arith, mul_quotient b c.micro_batch_times_data_parallel_size c'.num_micro_batches)

  module _ (laws : IsRounding floats) where
    -- An increment of samples never overshoots the number of increments.
    trunc_le :
        (c : Rampup floats) (v : IsValid c) (consumed : ℕ)
        → consumed ≤ c.ramup_samples
        → trunc (div_float consumed c.rampup_samples_per_increment) ≤ v.increments
    trunc_le c v consumed h = rw v.per_increment (
        le_trans
          (laws.div_float_mono consumed c.ramup_samples (div_int c.ramup_samples v.increments) h)
          (laws.div_float-div_int_le c.ramup_samples v.increments v.samples_pos v.increments_pos))

    ramp_steps_lem :
        (c : Rampup floats)
        → IsValid c
        → (consumed : ℕ)
        → ramp_steps floats consumed c.rampup_samples_per_increment
          ≡ ok (trunc (div_float consumed c.rampup_samples_per_increment))
    unfolding ramp_steps
    ramp_steps_lem c v consumed = rw nonzero
      where
        nonzero : is_zero c.rampup_samples_per_increment ≡ false
        nonzero =
            rw (v.per_increment, laws.is_zero-div_int c.ramup_samples v.increments v.increments_pos)
              (ne→== _ 0 (λ e. omega arith))

    pub ramp_batch_size-total :
        (c : Rampup floats)
        → IsValid c
        → (consumed : ℕ)
        → (b : ℕ) × (ramp_batch_size floats c consumed ≡ ok b)
          × (c.start_batch_size ≤ b)
          × (b ≤ c.global_batch_size)
    unfolding ramp_batch_size
    ramp_batch_size-total c v consumed = elim (Bool-cases (ltb c.ramup_samples consumed)) [
      | inl after ↦ (c.global_batch_size, rw after, v.start_le, omega arith)
      | inr within ↦
          let steps = trunc (div_float consumed c.rampup_samples_per_increment) in
          let below : steps * c.batch_size_increment ≤ v.increments * c.batch_size_increment =
            mul-le-mul_right c.batch_size_increment (trunc_le c v consumed (ltb→le _ _ within)) in
          (
            c.start_batch_size + steps * c.batch_size_increment,
            rw (
              within,
              ramp_steps_lem c v consumed,
              le→leb (c.start_batch_size + steps * c.batch_size_increment) c.global_batch_size
                  (omega (arith, v.reached)),
            ),
            omega arith,
            omega (arith, v.reached),
          )
    ]

    -- If the float operations round as `IsRounding` says, `update` without the consistency check
    -- never raises on a valid ramp-up calculator: the batch size stays between the starting one and
    -- the global one, and the calculator stays valid.
    pub update-total :
        (c : Rampup floats)
        → IsValid c
        → (consumed : ℕ)
        → (c' : Rampup floats) × (update floats c consumed false ≡ ok c')
          × (c.start_batch_size ≤ c'.current_global_batch_size)
          × (c'.current_global_batch_size ≤ c.global_batch_size)
          × IsValid c'
    unfolding update
    update-total c v consumed =
        let (b, e, low, high) = ramp_batch_size-total c v consumed in
        (
          record c {
            current_global_batch_size = b;
            num_micro_batches = b / c.micro_batch_times_data_parallel_size;
          },
          rw e,
          low,
          high,
          record {
            step_pos = v.step_pos;
            start_le = v.start_le;
            increments = v.increments;
            increments_pos = v.increments_pos;
            reached = v.reached;
            samples_pos = v.samples_pos;
            per_increment = v.per_increment;
          },
        )

    -- If the float operations round as `IsRounding` says, the batch size of a valid ramp-up
    -- calculator never shrinks as samples are consumed.
    pub ramp_batch_size_mono :
        (c : Rampup floats)
        → IsValid c
        → (a b : ℕ) {x y : ℕ} → a ≤ b
        → ramp_batch_size floats c a ≡ ok x
        → ramp_batch_size floats c b ≡ ok y
        → x ≤ y
    unfolding ramp_batch_size
    ramp_batch_size_mono c v a b {x} {y} h ha hb = ground (
      arith,
      ramp_steps_lem c v a,
      ramp_steps_lem c v b,
      mul-le-mul_right c.batch_size_increment
          (laws.div_float_mono a b c.rampup_samples_per_increment h),
    )

    -- The object on which the constructor calls `update`.
    abbrev fresh : ℕ → ℕ → ℕ → ℕ → ℕ → ℕ → Rampup floats
    fresh start inc ramup g m d = record {
      micro_batch_times_data_parallel_size = m * d;
      start_batch_size = start;
      global_batch_size = g;
      batch_size_increment = inc;
      ramup_samples = ramup;
      rampup_samples_per_increment = div_int ramup ((g - start) / inc);
      num_micro_batches = 0;
      current_global_batch_size = 0;
    }

    init_rampup-eq :
        (start inc ramup g m d : ℕ)
        → 0 < start
        → start < g
        → 0 < inc
        → (g - start) % inc ≡ 0
        → 0 < (g - start) / inc
        → 0 < m * d
        → init_rampup floats start inc ramup g m d
          ≡ update floats (fresh start inc ramup g m d) 0 false
    unfolding init_rampup
    init_rampup-eq start inc ramup g m d hs hg hi hr hk hm = rw (
      lt→ltb 0 (m * d) hm,
      lt→ltb 0 start hs,
      lt→ltb 0 g (omega arith),
      le→leb start g (omega arith),
      lt→ltb 0 inc hi,
      hr,
      ne→== ((g - start) / inc) 0 (λ z. omega arith),
    )

    -- If the float operations round as `IsRounding` says, a ramp from a positive start to a larger
    -- global batch size, in positive increments that divide the difference, over at least one
    -- sample and with a positive micro-batch size times data-parallel size, is built, and the
    -- calculator is valid.
    pub init_rampup-IsValid :
        (start inc ramup g m d : ℕ)
        → 0 < start
        → start < g
        → 0 < inc
        → (g - start) % inc ≡ 0
        → 0 < ramup
        → 0 < m * d
        → (c : Rampup floats) × (init_rampup floats start inc ramup g m d ≡ ok c) × IsValid c
    init_rampup-IsValid start inc ramup g m d hs hg hi hr hn hm =
        let k = (g - start) / inc in
        let exact : k * inc + (g - start) % inc ≡ g - start = div-add-mod' (g - start) inc in
        let some_increment : 0 < k = pos_of_mul k inc (g - start) (omega arith) (omega arith) in
        let c0 = fresh start inc ramup g m d in
        let v0 : IsValid c0 = record {
          step_pos = hm;
          start_le = omega arith;
          increments = k;
          increments_pos = some_increment;
          reached = omega arith;
          samples_pos = hn;
          per_increment = refl;
        } in
        let (c, e, low, high, v) = update-total c0 v0 0 in
        (c, init_rampup-eq start inc ramup g m d hs hg hi hr some_increment hm ∙ e, v)

  -- A ramp whose two batch sizes are equal, with positive sizes and a positive increment, passes
  -- the assertions and raises a ZeroDivisionError.
  pub init_rampup_no_increment :
      (start inc ramup m d : ℕ)
      → 0 < start
      → 0 < inc
      → 0 < m * d
      → init_rampup floats start inc ramup start m d ≡ raise zero_division_error
  unfolding init_rampup
  init_rampup_no_increment start inc ramup m d hs hi hm = rw (
    lt→ltb 0 (m * d) hm,
    lt→ltb 0 start hs,
    le→leb start start (omega arith),
    lt→ltb 0 inc hi,
    sub_self start,
    zero-mod inc,
    zero-div inc,
  )
