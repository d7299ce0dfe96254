-- ===== src/Rng/Forks.antt =====
-- The tracked states and the state of the device, before and after code that forks.
use megatron_lm.Prelude.{
  Option-cases, ==→eq, sym, subst, Bool-cases, ◌∷◌, [], refl, inl, inr, ◌≡◌, ◌∙◌, ◌||◌, true, false,
  ◌==◌, Bool, List, ℕ,
}
use megatron_lm.Rng.{
  Outcome, sequence, fork, draw_cuda, draw_cpu, done, forked, then_run, fails, View, assign,
  Program, run, lookup,
}

-- Whether the code forks the name.
unfoldable pub uses : ℕ → Program → Bool
uses name done = false
uses name draw_cpu = false
uses name draw_cuda = false
uses name (fails e) = false
uses name (then_run p q) = uses name p || uses name q
uses name (forked other p) = other == name || uses name p

-- Whether the code draws from the device outside every fork.
unfoldable pub draws_outside : Program → Bool
draws_outside done = false
draws_outside draw_cpu = false
draws_outside draw_cuda = true
draws_outside (fails e) = false
draws_outside (then_run p q) = draws_outside p || draws_outside q
draws_outside (forked other p) = false

pub lookup-assign_other :
    {S : Type 0} (name other : ℕ) (state : S) (states : List (ℕ × S))
    → (other == name) ≡ false
    → lookup name (assign other state states) ≡ lookup name states
unfolding lookup assign
lookup-assign_other name other state [] h = rw h refl
lookup-assign_other name other state ((n, s) ∷ states) h = elim (Bool-cases (n == other)) [
  | inl here ↦ rw (here, subst (λ n. (n == name) ≡ false) (sym (==→eq n other here)) h) refl
  | inr elsewhere ↦ elim (Bool-cases (n == name)) [
    | inl found ↦ rw (elsewhere, found) refl
    | inr not_found ↦ rw (elsewhere, not_found) (lookup-assign_other name other state states h)
  ]
]

or_false : (a b : Bool) → a || b ≡ false → (a ≡ false) × (b ≡ false)
or_false false false h = (refl, refl)
or_false true b h = absurd (cc)
or_false false true h = absurd (cc)

module _ {S : Type 0} (advance : S → S) where
  -- What holds after the first piece and is kept by the second holds after both.
  pub sequence-view {ℓ} :
      (P : View S → Type ℓ) (first : Outcome S) (rest : View S → Outcome S)
      → P first.view
      → (P first.view → P (rest first.view).view)
      → P (sequence advance first rest).view
  unfolding sequence
  sequence-view P first rest h next = elim (Option-cases first.error) [
    | inl e ↦ rw e (next h)
    | inr (error, e) ↦ rw e h
  ]

  -- What holds if the name is not tracked, and for each state that it can have.
  pub fork-view {ℓ} :
      (P : View S → Type ℓ) (name : ℕ) (body : View S → Outcome S) (v : View S)
      → P v
      → ((state : S)
          → P (record (body (record v { cuda = state })).view {
            cuda = v.cuda;
            states =
                assign name
                  (body (record v { cuda = state })).view.cuda
                  (body (record v { cuda = state })).view.states;
          }))
      → P (fork advance name body v).view
  unfolding fork
  fork-view P name body v untracked tracked = elim (Option-cases (lookup name v.states)) [
    | inl e ↦ rw (fork, e) untracked
    | inr (state, e) ↦ rw (fork, e) (tracked state)
  ]

  -- Code that does not fork a name leaves its tracked state as it is, also if the code raises.
  pub run_apart :
      (name : ℕ) (p : Program) (v : View S)
      → uses name p ≡ false
      → lookup name (run advance p v).view.states ≡ lookup name v.states
  unfolding run uses
  run_apart name done v h = refl
  run_apart name draw_cpu v h = refl
  run_apart name draw_cuda v h = refl
  run_apart name (fails e) v h = refl
  run_apart name (then_run p q) v h =
      let (not_p, not_q) = or_false (uses name p) (uses name q) h in
      sequence-view (λ w. lookup name w.states ≡ lookup name v.states) (run advance p v)
        (run advance q) (run_apart name p v not_p)
        (λ same. run_apart name q (run advance p v).view not_q ∙ same)
  run_apart name (forked other p) v h =
      let (differ, not_p) = or_false (other == name) (uses name p) h in
      fork-view (λ w. lookup name w.states ≡ lookup name v.states) other (run advance p) v refl
        (λ state.
          lookup-assign_other name other (run advance p (record v { cuda = state })).view.cuda
            (run advance p (record v { cuda = state })).view.states differ
          ∙ run_apart name p (record v { cuda = state }) not_p)

  -- Code that draws from the device only inside forks leaves the state of the device as it is, also
  -- if the code raises inside a fork.
  pub run_restores :
      (p : Program) (v : View S) → draws_outside p ≡ false → (run advance p v).view.cuda ≡ v.cuda
  unfolding run draws_outside
  run_restores done v h = refl
  run_restores draw_cpu v h = refl
  run_restores draw_cuda v h = absurd (cc)
  run_restores (fails e) v h = refl
  run_restores (then_run p q) v h =
      let (not_p, not_q) = or_false (draws_outside p) (draws_outside q) h in
      sequence-view (λ w. w.cuda ≡ v.cuda) (run advance p v) (run advance q)
        (run_restores p v not_p) (λ same. run_restores q (run advance p v).view not_q ∙ same)
  run_restores (forked other p) v h =
      fork-view (λ w. w.cuda ≡ v.cuda) other (run advance p) v refl (λ state. refl)
