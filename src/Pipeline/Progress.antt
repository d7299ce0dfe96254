-- ===== src/Pipeline/Progress.antt =====
-- Runs of the whole pipeline: the rank whose call has the earliest time, and what follows for the
-- runs.
use megatron_lm.Pipeline.Counting.{remaining-Steps}
use megatron_lm.Schedules.Run.{training_run, IsComplete}
use megatron_lm.Schedules.Messages.{
  received_backward, sent_backward, received_forward, sent_forward, ByTime,
}
use megatron_lm.Pipeline.Timing.{
  communications-AllTimed, communications-IsWhole, drop-ByTime, IsWhole, AllTimed,
}
use megatron_lm.Pipeline.{
  received_backward, sent_backward, received_forward, sent_forward, call_returns, bump, remaining,
  Steps, Step, IsMatched, communications, on_rank, forward_backward_pipelining_without_interleaving,
  State, IsDone, calls, Returned, log_of, posted,
}
use megatron_lm.Prelude.{
  drop, length, ◌*◌, ◌/◌, ◌+◌, min, ==→ne, ltb→le, ◌≢◌, leb→le, ◌-◌, ==→eq, leb, sym, arith, ◌⊎◌,
  ltb→lt, inr, subst, ◌≤◌, ltb, inl, ◌==◌, Bool-cases, false, ◌≡◌, ◌<◌, ℕ, zero, suc, refl,
}
use megatron_lm.Schedules.{forward_backward_pipelining_without_interleaving, State, Config}

extend {ℓ} : (Q : ℕ → Type ℓ) (m : ℕ) → ((q : ℕ) → q < m → Q q) → Q m → (q : ℕ) → q < suc m → Q q
extend Q m all last q low = elim (Bool-cases (q == m)) [
  | inl here ↦ subst Q (sym (==→eq q m here)) last
  | inr elsewhere ↦ all q (let n : q ≢ m = ==→ne q m elsewhere in omega arith)
]

module _ (c : Config) (training : c.forward_only ≡ false) (off : c.overlap_p2p_comm ≡ false)
    (pos : 0 < c.num_microbatches) where
  abbrev P : ℕ
  P = c.pipeline_model_parallel_world_size

  log_of-IsComplete :
      (r : ℕ)
      → (s : State) × (log_of (forward_backward_pipelining_without_interleaving (on_rank c r))
          ≡ s.log)
        × IsComplete (on_rank c r) training s
  unfolding log_of
  log_of-IsComplete r =
      let (s, e, h) = training_run (on_rank c r) training off pos in (s, rw e refl, h)

  calls-AllTimed : (r : ℕ) → r < P → AllTimed (on_rank c r) (calls c r)
  unfolding calls
  calls-AllTimed r low =
      let (s, e, h) = log_of-IsComplete r in
      subst (λ es. AllTimed (on_rank c r) (communications es)) (sym e)
        (communications-AllTimed (on_rank c r) s.log (h.timed low))

  calls-IsWhole : (r : ℕ) → IsWhole (on_rank c r) (calls c r)
  unfolding calls
  calls-IsWhole r =
      let (s, e, h) = log_of-IsComplete r in
      subst (λ es. IsWhole (on_rank c r) (communications es)) (sym e)
        (communications-IsWhole (on_rank c r) s.log (record {
          sent_forward_eq = h.sent_forward_eq;
          received_forward_eq = h.received_forward_eq;
          sent_backward_eq = h.sent_backward_eq;
          received_backward_eq = h.received_backward_eq;
        }))

  -- The call that rank `r` waits in has time `t`.
  record AtTime (returned : Returned) (r t : ℕ) : Type 0 where
    waiting : returned r < length (calls c r)
    counts : ByTime (on_rank c r) t (posted c returned r)

  -- Rank `r` is at time `t` or later, if it has not finished.
  abbrev From : Returned → ℕ → ℕ → Type 0
  From returned r t = IsDone c returned r ⊎ ((u : ℕ) × AtTime returned r u × (t ≤ u))

  status : (returned : Returned) (r : ℕ) → r < P → From returned r 0
  unfolding posted
  status returned r low = elim (Bool-cases (ltb (returned r) (length (calls c r)))) [
    | inl below ↦
        let waiting = ltb→lt (returned r) (length (calls c r)) below in
        let (t, counts) =
          drop-ByTime (on_rank c r) (length (calls c r) - suc (returned r)) (calls c r)
            (omega arith) (calls-AllTimed r low) in
        inr (t, record { waiting = waiting; counts = counts }, omega arith)
    | inr past ↦ inl (ltb→le (returned r) (length (calls c r)) past)
  ]

  -- Some rank below `m` waits in a call of the earliest time.
  Earliest : Returned → ℕ → Type 0
  Earliest returned m =
      (r : ℕ) × (t : ℕ) × (r < m) × AtTime returned r t × ((q : ℕ) → q < m → From returned q t)

  weaken : (returned : Returned) (q : ℕ) {t u : ℕ} → u ≤ t → From returned q t → From returned q u
  weaken returned q low (inl done) = inl done
  weaken returned q low (inr (v, at, h)) = inr (v, at, omega arith)

  earlier :
      (returned : Returned) (m : ℕ)
      → ((q : ℕ) → q < m → IsDone c returned q) ⊎ Earliest returned m
      → From returned m 0
      → ((q : ℕ) → q < suc m → IsDone c returned q) ⊎ Earliest returned (suc m)
  unfolding Earliest
  earlier returned m (inl all) (inl done) = inl (extend (λ q. IsDone c returned q) m all done)
  earlier returned m (inl all) (inr (t, at, h)) = inr (
    m,
    t,
    omega arith,
    at,
    extend (λ q. From returned q t) m (λ q h. inl (all q h)) (inr (t, at, omega arith)),
  )
  earlier returned m (inr (r, t, low, at, all)) (inl done) =
      inr (r, t, omega arith, at, extend (λ q. From returned q t) m all (inl done))
  earlier returned m (inr (r, t, low, at, all)) (inr (u, at', h)) = elim (Bool-cases (leb t u)) [
    | inl first ↦ inr (
      r,
      t,
      omega arith,
      at,
      extend (λ q. From returned q t) m all (inr (u, at', leb→le t u first)),
    )
    | inr later ↦
        let le : u ≤ t = ground arith in
        inr (
          m,
          u,
          omega arith,
          at',
          extend (λ q. From returned q u) m (λ q h. weaken returned q le (all q h))
              (inr (u, at', omega arith)),
        )
  ]

  earliest :
      (returned : Returned) (m : ℕ)
      → m ≤ P
      → ((q : ℕ) → q < m → IsDone c returned q) ⊎ Earliest returned m
  earliest returned zero low = inl (λ q h. absurd (omega arith))
  earliest returned (suc m) low =
      earlier returned m (earliest returned m (omega arith)) (status returned m (omega arith))

  done-IsWhole :
      (returned : Returned) (r : ℕ)
      → IsDone c returned r
      → IsWhole (on_rank c r) (posted c returned r)
  unfolding posted
  done-IsWhole returned r done =
      let e : 0 ≡ length (calls c r) - suc (returned r) = omega arith in
      subst (λ k. IsWhole (on_rank c r) (drop k (calls c r))) e (calls-IsWhole r)

  -- At time `t`, rank `q` has posted at least the messages with a time up to `t`.
  record AtLeast (returned : Returned) (q t : ℕ) : Type 0 where
    sent_forward_le : min c.num_microbatches ((t + 1 - q) / 2) ≤ sent_forward (posted c returned q)
    received_forward_le :
        min c.num_microbatches ((t + 2 - q) / 2) ≤ received_forward (posted c returned q)
    sent_backward_le :
        min c.num_microbatches ((t + 2 - (2 * P - q)) / 2) ≤ sent_backward (posted c returned q)
    received_backward_le :
        min c.num_microbatches ((t + 3 - (2 * P - q)) / 2) ≤ received_backward (posted c returned q)

  From-AtLeast : (returned : Returned) (q t : ℕ) → From returned q t → AtLeast returned q t
  From-AtLeast returned q t (inl done) =
      let h = done-IsWhole returned q done in
      record {
        sent_forward_le = omega (arith, h.sent_forward_eq);
        received_forward_le = omega (arith, h.received_forward_eq);
        sent_backward_le = omega (arith, h.sent_backward_eq);
        received_backward_le = omega (arith, h.received_backward_eq);
      }
  From-AtLeast returned q t (inr (u, at, later)) =
      let h = at.counts in
      record {
        sent_forward_le = omega (arith, h.sent_forward_eq);
        received_forward_le = omega (arith, h.received_forward_eq);
        sent_backward_le = omega (arith, h.sent_backward_eq);
        received_backward_le = omega (arith, h.received_backward_eq);
      }

  earliest-IsMatched :
      (returned : Returned) (r t : ℕ)
      → r < P
      → AtTime returned r t
      → ((q : ℕ) → q < P → From returned q t)
      → IsMatched c returned r
  earliest-IsMatched returned r t low at all =
      let h = at.counts in
      record {
        to_next = λ next.
            let side = From-AtLeast returned (suc r) t (all (suc r) next) in
            omega (arith, h.sent_forward_eq, side.received_forward_le);
        from_next = λ next.
            let side = From-AtLeast returned (suc r) t (all (suc r) next) in
            omega (arith, h.received_backward_eq, side.sent_backward_le);
        to_previous = λ q e.
            let side = From-AtLeast returned q t (all q (omega arith)) in
            omega (arith, h.sent_backward_eq, side.received_backward_le);
        from_previous = λ q e.
            let side = From-AtLeast returned q t (all q (omega arith)) in
            omega (arith, h.received_forward_eq, side.sent_forward_le);
      }

  -- Every call of every rank has returned.
  abbrev pub AllDone : Returned → Type 0
  AllDone returned = (q : ℕ) → q < P → IsDone c returned q

  progress : (returned : Returned) → AllDone returned ⊎ ((end : Returned) × Step c returned end)
  unfolding Earliest
  progress returned = elim (earliest returned P (omega arith)) [
    | inl all ↦ inl all
    | inr (r, t, low, at, all) ↦ inr (
      bump r returned,
      call_returns r low at.waiting (earliest-IsMatched returned r t low at all),
    )
  ]

  -- The number of calls of all ranks.
  abbrev pub all_calls : ℕ
  all_calls = remaining c (λ r. 0) P

  -- With `forward_only` and `overlap_p2p_comm` off and at least one microbatch, ranks that all run
  -- the 1F1B schedule never wait for each other for ever, although every send waits for its
  -- receive: after any k returns of calls, in any order, k is at most the number of calls of all
  -- ranks, and either every call has returned or another one can return.
  pub no_deadlock :
      {k : ℕ} {returned : Returned}
      → Steps c k (λ r. 0) returned
      → (k ≤ all_calls) × (AllDone returned ⊎ ((end : Returned) × Step c returned end))
  no_deadlock {returned} steps = (omega (arith, remaining-Steps c steps), progress returned)
