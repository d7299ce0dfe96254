-- ===== src/Rng/Checkpoint/Replay.antt =====
-- What the recomputation in the backward pass draws.
use megatron_lm.Prelude.{
  sym, arith, ◌∙◌, ap, inr, inl, ◌<◌, Option-cases, eq→==, ne→==, ◌≢◌, ◌≡◌, List, ℕ, refl, none,
  true,
}
use megatron_lm.Rng.{run, Outcome, Program, View}
use megatron_lm.Rng.Checkpoint.{
  forward, put_view, run_on, get_states, backward, view_of, set_states, Pass, Machine, Context,
  set_back, write,
}

module _ {S : Type 0} where
  write_same :
      (at : ℕ) (states : List (ℕ × S)) (store : ℕ → List (ℕ × S))
      → write at states store at ≡ states
  unfolding write
  write_same at states store = rw (eq→== at at refl) refl

  write_other :
      (at i : ℕ) (states : List (ℕ × S)) (store : ℕ → List (ℕ × S))
      → i ≢ at
      → write at states store i ≡ store i
  unfolding write
  write_other at i states store h = rw (ne→== i at h) refl

module _ {S : Type 0} (advance : S → S) (run_function : Program) where
  -- The states that a recomputation starts from.
  abbrev pub start : Context S → List (ℕ × S) → View S
  start ctx states = record {
    cpu = ctx.fwd_cpu_rng_state;
    cuda = ctx.fwd_cuda_rng_state;
    states = states;
  }

  abbrev recomputed : Context S → List (ℕ × S) → Outcome S
  recomputed ctx states = run advance run_function (start ctx states)

  set_back-drawn :
      (cpu cuda : S) (states : ℕ) (pass : Pass S)
      → (set_back advance run_function cpu cuda states pass).drawn ≡ pass.drawn
  unfolding set_back
  set_back-drawn cpu cuda states pass = elim (Option-cases pass.error) [
    | inl e ↦ rw e refl
    | inr (error, e) ↦ rw e refl
  ]

  set_back-error :
      (cpu cuda : S) (states : ℕ) (pass : Pass S)
      → (set_back advance run_function cpu cuda states pass).error ≡ pass.error
  unfolding set_back
  set_back-error cpu cuda states pass = elim (Option-cases pass.error) [
    | inl e ↦ rw e refl
    | inr (error, e) ↦ rw e refl
  ]

  set_back-store :
      (cpu cuda : S) (states : ℕ) (pass : Pass S)
      → (set_back advance run_function cpu cuda states pass).machine.store ≡ pass.machine.store
  unfolding set_back set_states
  set_back-store cpu cuda states pass = elim (Option-cases pass.error) [
    | inl e ↦ rw e refl
    | inr (error, e) ↦ rw e refl
  ]

  set_back-view :
      (cpu cuda : S) (states : ℕ) (pass : Pass S)
      → pass.error ≡ none
      → view_of (set_back advance run_function cpu cuda states pass).machine
        ≡ record { cpu = cpu; cuda = cuda; states = pass.machine.store states }
  unfolding set_back set_states
  set_back-view cpu cuda states pass e = rw e refl

  -- The context's dictionary holds `states`, and is older than the others that matter.
  module _ (ctx : Context S) (m : Machine S) (states : List (ℕ × S))
      (held : m.store ctx.fwd_cuda_rng_state_tracker ≡ states)
      (old : ctx.fwd_cuda_rng_state_tracker < m.allocated) where
    abbrev again : Machine S
    again = record (set_states ctx.fwd_cuda_rng_state_tracker (get_states m).0) {
      cpu = ctx.fwd_cpu_rng_state;
      cuda = ctx.fwd_cuda_rng_state;
    }

    again-start : view_of again ≡ start ctx states
    unfolding set_states get_states
    again-start = ap (start ctx) (
        write_other m.allocated ctx.fwd_cuda_rng_state_tracker (m.store m.states_) m.store
          (λ e. absurd (omega arith))
        ∙ held)

    backward-drawn :
        (backward advance run_function true ctx m).drawn ≡ (recomputed ctx states).drawn
    unfolding backward run_on
    backward-drawn =
        set_back-drawn m.cpu m.cuda (get_states m).1 (run_on advance run_function again)
        ∙ ap (λ v. (run advance run_function v).drawn) again-start

    backward-error :
        (backward advance run_function true ctx m).error ≡ (recomputed ctx states).error
    unfolding backward run_on
    backward-error =
        set_back-error m.cpu m.cuda (get_states m).1 (run_on advance run_function again)
        ∙ ap (λ v. (run advance run_function v).error) again-start

    backward-held :
        (backward advance run_function true ctx m).machine.store ctx.fwd_cuda_rng_state_tracker
        ≡ (recomputed ctx states).view.states
    unfolding backward run_on put_view set_states
    backward-held =
        ap (λ store. store ctx.fwd_cuda_rng_state_tracker)
          (set_back-store m.cpu m.cuda (get_states m).1 (run_on advance run_function again))
        ∙ write_same ctx.fwd_cuda_rng_state_tracker
            (run advance run_function (view_of again)).view.states again.store
        ∙ ap (λ v. (run advance run_function v).view.states) again-start

    backward-view :
        (recomputed ctx states).error ≡ none
        → view_of (backward advance run_function true ctx m).machine ≡ view_of m
    unfolding backward run_on put_view set_states get_states
    backward-view e =
        set_back-view m.cpu m.cuda m.allocated (run_on advance run_function again)
          (ap (λ v. (run advance run_function v).error) again-start ∙ e)
        ∙ ap (λ d. record { cpu = m.cpu; cuda = m.cuda; states = d })
            (write_other ctx.fwd_cuda_rng_state_tracker m.allocated
                (run advance run_function (view_of again)).view.states again.store
                (λ e. absurd (omega arith))
              ∙ write_same m.allocated (m.store m.states_) m.store)

  module _ (m : Machine S) (in_store : m.states_ < m.allocated) where
    abbrev ctx : Context S
    ctx = (forward advance run_function m).0

    abbrev pass : Pass S
    pass = (forward advance run_function m).1

    abbrev original : Outcome S
    original = run advance run_function (view_of m)

    copied-view : view_of (get_states m).0 ≡ view_of m
    unfolding get_states
    copied-view =
        ap (λ d. record { cpu = m.cpu; cuda = m.cuda; states = d })
          (write_other m.allocated m.states_ (m.store m.states_) m.store
            (λ e. absurd (omega arith)))

    forward-drawn : pass.drawn ≡ original.drawn
    unfolding forward run_on
    forward-drawn = ap (λ v. (run advance run_function v).drawn) copied-view

    forward-error : pass.error ≡ original.error
    unfolding forward run_on
    forward-error = ap (λ v. (run advance run_function v).error) copied-view

    forward-held : pass.machine.store ctx.fwd_cuda_rng_state_tracker ≡ m.store m.states_
    unfolding forward run_on put_view get_states
    forward-held =
        write_other m.states_ m.allocated
          (run advance run_function (view_of (get_states m).0)).view.states (get_states m).0.store
          (λ e. absurd (omega arith))
        ∙ write_same m.allocated (m.store m.states_) m.store

    recomputed-original : recomputed ctx (m.store m.states_) ≡ original
    unfolding forward
    recomputed-original = refl

    start-ctx : (d : List (ℕ × S)) → start ctx d ≡ record (view_of m) { states = d }
    unfolding forward
    start-ctx d = refl

    -- If the tracker's dictionary is in the store, and nothing has written to the one that the
    -- context holds since the forward pass of a checkpointed function, the recomputation in the
    -- backward pass draws from the same states in the same order as the forward pass did, and
    -- raises what it raised; if that is nothing, the generators are then as they were before the
    -- backward pass.
    pub backward_replays :
        (later : Machine S)
        → later.store ctx.fwd_cuda_rng_state_tracker
          ≡ pass.machine.store ctx.fwd_cuda_rng_state_tracker
        → ctx.fwd_cuda_rng_state_tracker < later.allocated
        → ((backward advance run_function true ctx later).drawn ≡ pass.drawn)
          × ((backward advance run_function true ctx later).error ≡ pass.error)
          × (pass.error ≡ none
              → view_of (backward advance run_function true ctx later).machine ≡ view_of later)
    backward_replays later held old =
        let h = held ∙ forward-held in
        (
          backward-drawn ctx later (m.store m.states_) h old
              ∙ ap (λ o. o.drawn) recomputed-original
              ∙ sym forward-drawn,
          backward-error ctx later (m.store m.states_) h old
              ∙ ap (λ o. o.error) recomputed-original
              ∙ sym forward-error,
          λ e.
              backward-view ctx later (m.store m.states_) h old
                (ap (λ o. o.error) recomputed-original ∙ sym forward-error ∙ e),
        )

    -- Under the conditions of a faithful recomputation, a second backward pass over the same
    -- context starts from the tracker's states that the first recomputation left in the context's
    -- dictionary, and not from those of the forward pass.
    pub backward_again :
        (later last : Machine S)
        → later.store ctx.fwd_cuda_rng_state_tracker
          ≡ pass.machine.store ctx.fwd_cuda_rng_state_tracker
        → ctx.fwd_cuda_rng_state_tracker < later.allocated
        → last.store ctx.fwd_cuda_rng_state_tracker
          ≡ (backward advance run_function true ctx later).machine.store
              ctx.fwd_cuda_rng_state_tracker
        → ctx.fwd_cuda_rng_state_tracker < last.allocated
        → (backward advance run_function true ctx last).drawn
          ≡ (run advance run_function (record (view_of m) { states = original.view.states })).drawn
    backward_again later last held old held' old' =
        let h = held ∙ forward-held in
        backward-drawn ctx last original.view.states
          (held'
            ∙ backward-held ctx later (m.store m.states_) h old
            ∙ ap (λ o. o.view.states) recomputed-original)
          old'
        ∙ ap (λ v. (run advance run_function v).drawn) (start-ctx original.view.states)
