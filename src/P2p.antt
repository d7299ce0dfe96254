-- ===== src/P2p.antt =====
-- megatron/core/pipeline_parallel/p2p_communication.py: what one stage of a pipeline posts to its
-- neighbours, and what the calls return. A tensor is an element of the parameter `T`, with the
-- parameter `size`; a tensor that is received is the empty one that the code allocates for it.
-- `torch.distributed` is seen through the requests that reach it, in order. The timers are left out.
pub mod Calls
pub mod Requests
pub mod Pairs
pub mod Waits
pub mod Outcomes
mod Tests
use mathlib.Core.Option
use megatron_lm.Prelude.{
  ltb, map, ℕ, ◌+◌, ◌-◌, ◌%◌, ◌==◌, Bool, true, false, not, ◌&&◌, Option, none, some, List, [], ◌∷◌,
  ◌++◌, if◌then◌else◌, Result, ok, raise, assert, raise_if, runtime_error, assertion_error,
  index_error, ◌>>=◌, ◌>>◌, get_elem?, length,
}

abbrev pub Shape : Type 0
Shape = List ℕ

pub data Side : Type 0 where
  previous next : Side

-- `torch.empty(shape, requires_grad=True, ..., dtype=config.pipeline_dtype)`
pub record Empty : Type 0 where
  pub shape : Shape
  pub dtype : ℕ

-- The fields of `ModelParallelConfig` that are read; a type of elements is a number.
pub record Config : Type 0 where
  pub variable_seq_lengths : Bool
  pub use_ring_exchange_p2p : Bool
  pub batch_p2p_comm : Bool
  pub batch_p2p_sync : Bool
  pub pipeline_dtype : Option ℕ

-- The stage: its rank in the pipeline, the number of stages, the rank and the number of the virtual
-- stages, if there are any.
pub record Stage : Type 0 where
  pub rank : ℕ
  pub world_size : ℕ
  pub virtual : Option (ℕ × ℕ)
  -- `_PIPELINE_GLOBAL_RANKS`
  pub global_ranks : List ℕ

-- What is sent: a tensor, or its size.
pub data Message (T : Type 0) : Type 0 where
  tensor : T → Message T
  size_of : Shape → Message T

-- What is received into: an empty tensor, or one of three numbers for a size.
pub data Buffer : Type 0 where
  placeholder : Empty → Buffer
  three_numbers : Buffer

pub data Op (T : Type 0) : Type 0 where
  isend : Message T → ℕ → Op T
  irecv : Buffer → ℕ → Op T

-- The calls of `torch.distributed` and of `torch.cuda.synchronize`.
pub data Call (T : Type 0) : Type 0 where
  -- `tensor_send_prev`, `tensor_recv_prev`, `tensor_send_next`, `tensor_recv_next`
  ring_exchange : Option (Message T) → Option Buffer → Option (Message T) → Option Buffer → Call T
  batch_isend_irecv : List (Op T) → Call T
  request : Op T → Call T
  wait : Op T → Call T
  synchronize : Call T

module _ (stage : Stage) where
  pub is_pipeline_first_stage : Bool
  is_pipeline_first_stage = elim stage.virtual [
    | none ↦ stage.rank == 0
    | some (virtual_rank, _) ↦ virtual_rank == 0 && (stage.rank == 0)
  ]

  -- The virtual world size is positive.
  pub is_pipeline_last_stage : Bool
  is_pipeline_last_stage = elim stage.virtual [
    | none ↦ stage.rank == (stage.world_size - 1)
    | some (virtual_rank, virtual_world_size) ↦
        virtual_rank == (virtual_world_size - 1) && (stage.rank == (stage.world_size - 1))
  ]

  pub global_rank : ℕ → Result ℕ
  global_rank i = elim (get_elem? stage.global_ranks i) [
    | none ↦ raise index_error
    | some rank ↦ ok rank
  ]

  pub get_pipeline_model_parallel_next_rank : Result ℕ
  get_pipeline_model_parallel_next_rank = global_rank ((stage.rank + 1) % stage.world_size)

  -- `(rank - 1) % world_size`, which Python does not let go below 0.
  pub get_pipeline_model_parallel_prev_rank : Result ℕ
  get_pipeline_model_parallel_prev_rank =
      global_rank ((stage.rank + stage.world_size - 1) % stage.world_size)

module _ {T : Type 0} where
  -- The request for a tensor that is not `None`.
  pub send : Option (Message T) → Result ℕ → Result (List (Op T))
  send none peer = ok []
  send (some message) peer = peer >>= λ rank. ok (isend message rank ∷ [])

  pub recv : Option Buffer → Result ℕ → Result (List (Op T))
  recv none peer = ok []
  recv (some buffer) peer = peer >>= λ rank. ok (irecv buffer rank ∷ [])

  -- Four pieces of code, one after the other.
  pub in_order :
      Result (List (Op T))
      → Result (List (Op T))
      → Result (List (Op T))
      → Result (List (Op T))
      → Result (List (Op T))
  in_order first second third fourth = do
    a ← first
    b ← second
    c ← third
    d ← fourth
    ok (a ++ (b ++ (c ++ d)))

  pub ring_exchange_wrapper :
      Option (Message T)
      → Option Buffer
      → Option (Message T)
      → Option Buffer
      → Result (List (Op T) × List (Call T))
  ring_exchange_wrapper tensor_send_prev tensor_recv_prev tensor_send_next tensor_recv_next =
      ok
        ([], ring_exchange tensor_send_prev tensor_recv_prev tensor_send_next tensor_recv_next ∷ [])

  module _ (stage : Stage) (tensor_send_prev : Option (Message T))
      (tensor_recv_prev : Option Buffer) (tensor_send_next : Option (Message T))
      (tensor_recv_next : Option Buffer) where
    abbrev previous_rank : Result ℕ
    previous_rank = get_pipeline_model_parallel_prev_rank stage

    abbrev next_rank : Result ℕ
    next_rank = get_pipeline_model_parallel_next_rank stage

    -- The list `ops` of `_batched_p2p_ops` and of `_communicate_shapes`.
    pub batched_ops : Result (List (Op T))
    batched_ops =
        in_order (send tensor_send_prev previous_rank) (recv tensor_recv_prev previous_rank)
          (send tensor_send_next next_rank) (recv tensor_recv_next next_rank)

    -- The requests, and the calls that made them.
    pub batched_p2p_ops : Result (List (Op T) × List (Call T))
    batched_p2p_ops = batched_ops >>= λ ops.
        ok (ops, if ltb 0 (length ops) then batch_isend_irecv ops ∷ [] else [])

    -- The requests in the order in which `_p2p_ops` makes them.
    pub p2p_requests : Result (List (Op T))
    p2p_requests =
        if (stage.rank % 2) == 0
        then in_order (send tensor_send_next next_rank) (recv tensor_recv_prev previous_rank)
            (send tensor_send_prev previous_rank) (recv tensor_recv_next next_rank)
        else in_order (recv tensor_recv_prev previous_rank) (send tensor_send_next next_rank)
            (recv tensor_recv_next next_rank) (send tensor_send_prev previous_rank)

    pub p2p_ops : Result (List (Op T) × List (Call T))
    p2p_ops = p2p_requests >>= λ reqs. ok (reqs, map request reqs)

-- The results of `_communicate`, with the calls that it made, the first one first.
pub record Communicated (T : Type 0) : Type 0 where
  pub tensor_recv_prev : Option Empty
  pub tensor_recv_next : Option Empty
  pub reqs : Option (List (Op T))
  pub log : List (Call T)

-- `received` is the size that a neighbour has sent.
module _ {T : Type 0} (size : T → Shape) (received : Side → Shape) (stage : Stage)
    (config : Config) where
  shape_of : Option T → Option (Message T)
  shape_of t = Option.map (λ t. size_of (size t)) t

  shape_buffer : Bool → Option Buffer
  shape_buffer wanted = if wanted then some three_numbers else none

  received_shape : Bool → Side → Shape
  received_shape wanted side = if wanted then received side else 0 ∷ 0 ∷ 0 ∷ []

  pub communicate_shapes :
      Option T → Option T → Bool → Bool → Result (Shape × Shape × List (Call T))
  communicate_shapes tensor_send_next tensor_send_prev recv_prev recv_next = do
    let send_prev = shape_of tensor_send_prev
    let send_next = shape_of tensor_send_next
    log ←
        if config.use_ring_exchange_p2p
        then ok (
            ring_exchange send_prev (shape_buffer recv_prev) send_next (shape_buffer recv_next)
            ∷ [])
        else (batched_ops stage send_prev (shape_buffer recv_prev) send_next
              (shape_buffer recv_next)
            >>= λ ops. ok (
                (if ltb 0 (length ops) then batch_isend_irecv ops ∷ map wait ops else [])
                ++ synchronize ∷ []))
    ok (received_shape recv_prev previous, received_shape recv_next next, log)

  -- The empty tensor for a receive, if there is one.
  pub allocate : Bool → Option Shape → Option Shape → Result (Option Empty)
  allocate false shape tensor_shape = ok none
  allocate true shape tensor_shape = elim config.pipeline_dtype [
    | none ↦ raise runtime_error
    | some dtype ↦ elim tensor_shape [
      | none ↦ raise runtime_error
      | some _ ↦ ok (Option.map (λ shape. record { shape = shape; dtype = dtype }) shape)
    ]
  ]

  -- The requests of the function that the configuration chooses, and the calls that made them.
  pub post :
      Option (Message T)
      → Option Buffer
      → Option (Message T)
      → Option Buffer
      → Bool
      → Result (List (Op T) × List (Call T))
  post send_prev into_prev send_next into_next wait_on_reqs =
      if config.use_ring_exchange_p2p
      then ring_exchange_wrapper send_prev into_prev send_next into_next
      else if config.batch_p2p_comm
      then (assert wait_on_reqs >> batched_p2p_ops stage send_prev into_prev send_next into_next)
      else p2p_ops stage send_prev into_prev send_next into_next

  -- The waits, and the results.
  pub finish :
      Option Empty
      → Option Empty
      → Bool
      → List (Call T)
      → List (Op T) × List (Call T)
      → Communicated T
  finish prev after wait_on_reqs shape_log (reqs, log) =
      let waits = wait_on_reqs && ltb 0 (length reqs) in
      record {
        tensor_recv_prev = prev;
        tensor_recv_next = after;
        reqs = if waits then none else some reqs;
        log =
            shape_log
            ++ (log
                ++ ((if waits then map wait reqs else [])
                    ++ (if config.batch_p2p_comm && config.batch_p2p_sync
                        then synchronize ∷ []
                        else [])));
      }

  pub communicate :
      Option T → Option T → Bool → Bool → Option Shape → Bool → Result (Communicated T)
  communicate tensor_send_next tensor_send_prev recv_prev recv_next tensor_shape wait_on_reqs = do
    (prev_shape, next_shape, shape_log) ←
        if config.variable_seq_lengths
        then (communicate_shapes tensor_send_next tensor_send_prev recv_prev recv_next >>= λ shapes.
            ok (some shapes.0, some shapes.1, shapes.2))
        else ok (tensor_shape, tensor_shape, [])
    prev ← allocate recv_prev prev_shape tensor_shape
    after ← allocate recv_next next_shape tensor_shape
    posted ←
        post (Option.map tensor tensor_send_prev) (Option.map placeholder prev)
          (Option.map tensor tensor_send_next) (Option.map placeholder after) wait_on_reqs
    ok (finish prev after wait_on_reqs shape_log posted)
