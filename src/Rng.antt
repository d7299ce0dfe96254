-- ===== src/Rng.antt =====
-- megatron/core/tensor_parallel/random.py: the states of the random-number generators. A state is an
-- element of the parameter `S`; `manual_seed` gives the state of a seed and `advance` the one after a
-- draw. The name of a tracked state is a number. A call that raises keeps the changes that it made.
pub mod Seeds
pub mod Forks
pub mod Checkpoint
mod Tests
use megatron_lm.Prelude.{
  ◌==◌, exception, if◌then◌else◌, Error, ℕ, ◌+◌, ◌*◌, Option, none, some, List, [], ◌∷◌, ◌++◌,
}
use megatron_lm.Bucket.{contains}

abbrev pub model_parallel_rng : ℕ
model_parallel_rng = 0

abbrev pub expert_parallel_rng : ℕ
expert_parallel_rng = 1

abbrev pub data_parallel_rng : ℕ
data_parallel_rng = 2

-- `states[name]`
pub lookup : {S : Type 0} → ℕ → List (ℕ × S) → Option S
lookup name [] = none
lookup name ((other, state) ∷ states) =
    let rest = lookup name states in if other == name then some state else rest

-- `states[name] = state`
pub assign : {S : Type 0} → ℕ → S → List (ℕ × S) → List (ℕ × S)
assign name state [] = (name, state) ∷ []
assign name state ((other, old) ∷ states) =
    let rest = assign name state states in
    if other == name then (other, state) ∷ states else (other, old) ∷ rest

-- The generators of a rank, with `states_` of the tracker.
pub record View (S : Type 0) : Type 0 where
  pub cpu : S
  pub cuda : S
  pub states : List (ℕ × S)

-- What a piece of code leaves, the states that it drew from, and what it raises.
pub record Outcome (S : Type 0) : Type 0 where
  pub view : View S
  pub drawn : List S
  pub error : Option Error

-- Code, as far as it uses the generators.
pub data Program : Type 0 where
  done : Program
  draw_cpu draw_cuda : Program
  fails : Error → Program
  then_run : Program → Program → Program
  -- `with get_cuda_rng_tracker().fork(name): ...`
  forked : ℕ → Program → Program

module _ {S : Type 0} (advance : S → S) where
  -- The body runs between `yield` and `finally`.
  pub fork : ℕ → (View S → Outcome S) → View S → Outcome S
  fork name body v = elim (lookup name v.states) [
    | none ↦ record { view = v; drawn = []; error = some exception }
    | some state ↦
        let inner = body (record v { cuda = state }) in
        record inner {
          view = record inner.view {
            cuda = v.cuda;
            states = assign name inner.view.cuda inner.view.states;
          };
        }
  ]

  pub sequence : Outcome S → (View S → Outcome S) → Outcome S
  sequence first rest = elim first.error [
    | some e ↦ first
    | none ↦ let second = rest first.view in record second { drawn = first.drawn ++ second.drawn }
  ]

  pub run : Program → View S → Outcome S
  run done v = record { view = v; drawn = []; error = none }
  run draw_cpu v = record {
    view = record v { cpu = advance v.cpu };
    drawn = v.cpu ∷ [];
    error = none;
  }
  run draw_cuda v = record {
    view = record v { cuda = advance v.cuda };
    drawn = v.cuda ∷ [];
    error = none;
  }
  run (fails e) v = record { view = v; drawn = []; error = some e }
  run (then_run p q) v = sequence (run p v) (run q)
  run (forked name p) v = fork name (run p) v

-- The tracker, with the state of the device.
pub record Tracker (S : Type 0) : Type 0 where
  pub states_ : List (ℕ × S)
  pub seeds_ : List ℕ
  pub cuda : S

module _ {S : Type 0} (manual_seed : ℕ → S) where
  pub reset : Tracker S → Tracker S
  reset t = record t { states_ = []; seeds_ = [] }

  -- The tracker, and whether the call raises.
  pub add : ℕ → ℕ → Tracker S → Tracker S × Option Error
  add name seed t =
      if contains seed t.seeds_
      then (t, some exception)
      else (let seeded = record t { seeds_ = seed ∷ t.seeds_ } in
          elim (lookup name t.states_) [
            | some _ ↦ (seeded, some exception)
            | none ↦ (
              record seeded { states_ = assign name (manual_seed seed) t.states_; cuda = t.cuda },
              none,
            )
          ])

  next_add : ℕ → ℕ → Tracker S × Option Error → Tracker S × Option Error
  next_add name seed (t, some e) = (t, some e)
  next_add name seed (t, none) = add name seed t

  pub tensor_model_parallel_seed : ℕ → ℕ → ℕ
  tensor_model_parallel_seed seed tensor_rank = seed + 2718 + tensor_rank

  pub expert_parallel_seed : ℕ → ℕ → ℕ → ℕ
  expert_parallel_seed seed tensor_rank expert_rank = seed + 1024 + 100 * expert_rank + tensor_rank

  -- The ranks are those in the tensor-parallel and in the expert-parallel group.
  pub model_parallel_cuda_manual_seed : ℕ → ℕ → ℕ → Tracker S → Tracker S × Option Error
  model_parallel_cuda_manual_seed seed tensor_rank expert_rank t =
      next_add expert_parallel_rng (expert_parallel_seed seed tensor_rank expert_rank) (
        next_add model_parallel_rng (tensor_model_parallel_seed seed tensor_rank)
          (add data_parallel_rng seed (record (reset t) { cuda = manual_seed seed })))
