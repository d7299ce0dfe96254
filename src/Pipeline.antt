-- ===== src/Pipeline.antt =====
-- megatron/core/pipeline_parallel: all the ranks of a pipeline, each at its own call of
-- p2p_communication.py. Every rank makes the communication calls of its run of
-- `forward_backward_pipelining_without_interleaving` one after the other; a call posts its sends
-- and receives and returns when all of them are matched, a send by the receive of the same number
-- on the other side. A send does not return before that, which is the most that a rank may have to
-- wait. The first stage exchanges nothing with a previous rank, and the last nothing with a next.
pub mod Timing
pub mod Counting
pub mod Progress
mod Tests
use megatron_lm.Prelude.{
  ◌≡◌, ℕ, zero, suc, ◌+◌, ◌-◌, ◌≤◌, ◌<◌, ◌==◌, if◌then◌else◌, List, [], ◌∷◌, length, drop, Result,
  ok, raise,
}
use megatron_lm.Schedules.{
  Config, State, Event, forward, backward, run_grad_sync_func, run_finalize_model_grads_func,
  forward_backward_pipelining_without_interleaving,
}
use megatron_lm.Schedules.Messages.{
  sent_forward, received_forward, sent_backward, received_backward,
}

-- The communication calls of a log.
pub communications : List Event → List Event
communications [] = []
communications (forward _ _ _ ∷ es) = communications es
communications (backward _ _ _ _ ∷ es) = communications es
communications (run_grad_sync_func ∷ es) = communications es
communications (run_finalize_model_grads_func ∷ es) = communications es
communications (e ∷ es) = e ∷ communications es

pub log_of : Result State → List Event
log_of (ok s) = s.log
log_of (raise e) = []

-- How many calls have returned, on each rank.
abbrev pub Returned : Type 0
Returned = ℕ → ℕ

pub bump : ℕ → Returned → Returned
bump r returned q = if q == r then suc (returned r) else returned q

-- The configuration is the same on all ranks but for the rank.
module _ (c : Config) where
  abbrev pub on_rank : ℕ → Config
  on_rank r = record c { rank = r }

  -- The calls that rank `r` makes, the last first.
  pub calls : ℕ → List Event
  calls r = communications (log_of (forward_backward_pipelining_without_interleaving (on_rank r)))

  -- The calls that rank `r` has made: those that have returned, and the one it waits in.
  pub posted : Returned → ℕ → List Event
  posted returned r = drop (length (calls r) - suc (returned r)) (calls r)

  -- Every message of the calls that rank `r` has made is posted on the other side.
  pub record IsMatched (returned : Returned) (r : ℕ) : Type 0 where
    pub to_next :
        suc r < c.pipeline_model_parallel_world_size
        → sent_forward (posted returned r) ≤ received_forward (posted returned (suc r))
    pub from_next :
        suc r < c.pipeline_model_parallel_world_size
        → received_backward (posted returned r) ≤ sent_backward (posted returned (suc r))
    pub to_previous :
        (q : ℕ)
        → r ≡ suc q
        → sent_backward (posted returned r) ≤ received_backward (posted returned q)
    pub from_previous :
        (q : ℕ)
        → r ≡ suc q
        → received_forward (posted returned r) ≤ sent_forward (posted returned q)

  abbrev pub IsDone : Returned → ℕ → Type 0
  IsDone returned r = length (calls r) ≤ returned r

  -- One call returns.
  pub data Step : Returned → Returned → Type 0 where
    call_returns :
        {returned : Returned} (r : ℕ)
        → r < c.pipeline_model_parallel_world_size
        → returned r < length (calls r)
        → IsMatched returned r
        → Step returned (bump r returned)

  -- So many calls return, one after the other, on whichever ranks.
  pub data Steps : ℕ → Returned → Returned → Type 0 where
    stay : {returned : Returned} → Steps 0 returned returned
    then_step :
        {k : ℕ} {start middle end : Returned}
        → Steps k start middle
        → Step middle end
        → Steps (suc k) start end

  -- The number of calls that have not returned, on the ranks below `m`.
  pub remaining : Returned → ℕ → ℕ
  remaining returned zero = 0
  remaining returned (suc m) = length (calls m) - returned m + remaining returned m
