-- ===== src/Rng/Checkpoint.antt =====
-- `CheckpointFunction` of the same file. The dictionaries of the tracker live in a store, since
-- `set_states` keeps the dictionary that it is given: the one that the context holds. The arguments,
-- the outputs and their gradients are left out.
pub mod Replay
use megatron_lm.Prelude.{
  none, true, false, runtime_error, [], Error, ◌==◌, if◌then◌else◌, Option, some, Bool, ◌+◌, List,
  ℕ,
}
use megatron_lm.Rng.{run, Program, View}

pub record Machine (S : Type 0) : Type 0 where
  pub cpu : S
  pub cuda : S
  pub store : ℕ → List (ℕ × S)
  -- The number of dictionaries in the store.
  pub allocated : ℕ
  -- Which of them `states_` is.
  pub states_ : ℕ

-- `ctx`
pub record Context (S : Type 0) : Type 0 where
  pub fwd_cpu_rng_state : S
  pub fwd_cuda_rng_state : S
  pub fwd_cuda_rng_state_tracker : ℕ

-- What a pass leaves, the states that the run function drew from, and what the pass raises.
pub record Pass (S : Type 0) : Type 0 where
  pub machine : Machine S
  pub drawn : List S
  pub error : Option Error

module _ {S : Type 0} where
  abbrev pub view_of : Machine S → View S
  view_of m = record { cpu = m.cpu; cuda = m.cuda; states = m.store m.states_ }

  unfoldable pub write : ℕ → List (ℕ × S) → (ℕ → List (ℕ × S)) → ℕ → List (ℕ × S)
  write at states store i = if i == at then states else store i

  -- A run that writes to the dictionary that `states_` is.
  unfoldable pub put_view : View S → Machine S → Machine S
  put_view v m = record m { cpu = v.cpu; cuda = v.cuda; store = write m.states_ v.states m.store }

  -- The copy is a new dictionary.
  unfoldable pub get_states : Machine S → Machine S × ℕ
  get_states m = (
    record m { store = write m.allocated (m.store m.states_) m.store; allocated = m.allocated + 1 },
    m.allocated,
  )

  unfoldable pub set_states : ℕ → Machine S → Machine S
  set_states states m = record m { states_ = states }

module _ {S : Type 0} (advance : S → S) (run_function : Program) where
  unfoldable pub run_on : Machine S → Pass S
  run_on m =
      let outcome = run advance run_function (view_of m) in
      record { machine = put_view outcome.view m; drawn = outcome.drawn; error = outcome.error }

  -- The context, and the pass.
  unfoldable pub forward : Machine S → Context S × Pass S
  forward m =
      let (copied, saved) = get_states m in
      (
        record {
          fwd_cpu_rng_state = m.cpu;
          fwd_cuda_rng_state = m.cuda;
          fwd_cuda_rng_state_tracker = saved;
        },
        run_on copied,
      )

  -- The states are set back only if the run function does not raise.
  unfoldable pub set_back : S → S → ℕ → Pass S → Pass S
  set_back cpu cuda states pass = elim pass.error [
    | some e ↦ pass
    | none ↦ record pass {
      machine = set_states states (record pass.machine { cpu = cpu; cuda = cuda });
    }
  ]

  -- `valid` is what `torch.autograd._is_checkpoint_valid()` says.
  unfoldable pub backward : Bool → Context S → Machine S → Pass S
  backward false ctx m = record { machine = m; drawn = []; error = some runtime_error }
  backward true ctx m =
      let (copied, bwd_states) = get_states m in
      let again = record (set_states ctx.fwd_cuda_rng_state_tracker copied) {
        cpu = ctx.fwd_cpu_rng_state;
        cuda = ctx.fwd_cuda_rng_state;
      } in
      set_back m.cpu m.cuda bwd_states (run_on again)
