-- ===== src/P2p/Outcomes.antt =====
-- What `_communicate` returns, and what becomes of its requests.
use megatron_lm.P2p.Waits.{
  batch_call, waits_of-request, requests_of-request, batch_call-Started, ring_exchange-Started,
  last_calls, Started, none_left, waits_of-last_calls, waits_of-append, requests_of-last_calls,
  requests_of-append, waits_of, Kept, requests_of,
}
use mathlib.Core.Option
use mathlib.Core.Path.{ap₂}
use mathlib.Core.List.{append-nil}
use megatron_lm.P2p.Requests.{batched_ops-ok, recvs, requests-total, sends}
use megatron_lm.Prelude.{
  ◌>>=◌, Option-cases, runtime_error, raise, none, ◌&&◌, some, inr, subst, inl, Bool-cases, false,
  ◌⊎◌, true, Bool, Option, sym, ◌∙◌, refl, length, [], ap, ℕ, ok, ltb, map, if◌then◌else◌, ◌≡◌,
  ◌++◌, List,
}
use megatron_lm.P2p.{
  placeholder, tensor, allocate, communicate, Empty, finish, Communicated, p2p_ops, batched_p2p_ops,
  post, Buffer, Message, get_pipeline_model_parallel_next_rank,
  get_pipeline_model_parallel_prev_rank, request, Config, Stage, Op, Call, Side, Shape,
}

module _ {T : Type 0} (size : T → Shape) (received : Side → Shape) (stage : Stage) (config : Config)
    (p q : ℕ) (before : get_pipeline_model_parallel_prev_rank stage ≡ ok p)
    (after : get_pipeline_model_parallel_next_rank stage ≡ ok q) where
  p2p_ops-Started :
      (sp : Option (Message T)) (rp : Option Buffer) (sn : Option (Message T)) (rn : Option Buffer)
      → Started (p2p_ops stage sp rp sn rn)
  unfolding p2p_ops
  p2p_ops-Started sp rp sn rn =
      let (ops, e, shape) = requests-total stage p q before after sp rp sn rn in
      (ops, map request ops, rw e refl, requests_of-request ops, waits_of-request ops)

  batched_p2p_ops-Started :
      (sp : Option (Message T)) (rp : Option Buffer) (sn : Option (Message T)) (rn : Option Buffer)
      → Started (batched_p2p_ops stage sp rp sn rn)
  unfolding batched_p2p_ops
  batched_p2p_ops-Started sp rp sn rn =
      let ops : List (Op T) = sends sp p ++ (recvs rp p ++ (sends sn q ++ recvs rn q)) in
      let (made, waited) = batch_call-Started (ltb 0 (length ops)) ops refl in
      (
        ops,
        batch_call (ltb 0 (length ops)) ops,
        rw (batched_ops-ok stage p q before after sp rp sn rn) refl,
        made,
        waited,
      )

  must_wait :
      (w : Bool)
      → config.use_ring_exchange_p2p ≡ false
      → config.batch_p2p_comm ≡ true
      → (config.use_ring_exchange_p2p ≡ true) ⊎ (config.batch_p2p_comm ≡ false) ⊎ (w ≡ true)
      → w ≡ true
  must_wait w no_ring batch (inl ring) = absurd (cc)
  must_wait w no_ring batch (inr (inl single)) = absurd (cc)
  must_wait w no_ring batch (inr (inr h)) = h

  post-Started :
      (sp : Option (Message T)) (rp : Option Buffer) (sn : Option (Message T)) (rn : Option Buffer)
      (wait_on_reqs : Bool)
      → (config.use_ring_exchange_p2p ≡ true)
        ⊎ (config.batch_p2p_comm ≡ false)
        ⊎ (wait_on_reqs ≡ true)
      → Started (post size received stage config sp rp sn rn wait_on_reqs)
  unfolding post
  post-Started sp rp sn rn w allowed = elim (Bool-cases config.use_ring_exchange_p2p) [
    | inl ring ↦ subst Started (rw ring refl) (ring_exchange-Started sp rp sn rn)
    | inr no_ring ↦ elim (Bool-cases config.batch_p2p_comm) [
      | inl batch ↦
          subst Started (rw (no_ring, batch, must_wait w no_ring batch allowed) refl)
            (batched_p2p_ops-Started sp rp sn rn)
      | inr single ↦ subst Started (rw (no_ring, single) refl) (p2p_ops-Started sp rp sn rn)
    ]
  ]

  finish-Kept :
      (prev next : Option Empty) (w : Bool) (reqs : List (Op T)) (log : List (Call T))
      → requests_of log ≡ reqs
      → waits_of log ≡ []
      → Kept w (finish size received stage config prev next w [] (reqs, log))
  unfolding finish
  finish-Kept prev next w reqs log made waited =
      let waits = w && ltb 0 (length reqs) in
      let sync = config.batch_p2p_comm && config.batch_p2p_sync in
      let end = last_calls waits sync reqs in
      let all : requests_of (log ++ end) ≡ reqs =
        requests_of-append log end
        ∙ ap₂ (λ x y. x ++ y) made (requests_of-last_calls waits sync reqs)
        ∙ append-nil reqs in
      record {
        waited = λ e.
            waits_of-append log end
            ∙ ap₂ (λ x y. x ++ y) waited (waits_of-last_calls waits sync reqs)
            ∙ (rw e (none_left reqs))
            ∙ sym all;
        returned = λ e.
            ap (λ b. if b && ltb 0 (length reqs) then none else some reqs) e ∙ ap some (sym all);
      }

  abbrev pub asked : Bool → Shape → ℕ → Option Empty
  asked wanted shape dtype = if wanted then some (record { shape = shape; dtype = dtype }) else none

  allocate-ok :
      (wanted : Bool) (shape : Shape) (dtype : ℕ)
      → config.pipeline_dtype ≡ some dtype
      → allocate size received stage config wanted (some shape) (some shape)
        ≡ ok (asked wanted shape dtype)
  unfolding allocate
  allocate-ok false shape dtype h = refl
  allocate-ok true shape dtype h = rw h refl

  -- On a stage whose neighbours' ranks are known, with `variable_seq_lengths` off, `pipeline_dtype`
  -- and a shape given, and `wait_on_reqs` unless the requests are made by a ring exchange or one by
  -- one, `_communicate` returns: it has a tensor of the shape and type for each receive that is
  -- asked for and none for the others, and no request is lost: with `wait_on_reqs` each is waited
  -- for, in order, and else they are returned.
  pub communicate-total :
      (sn sp : Option T) (recv_prev recv_next : Bool) (shape : Shape) (dtype : ℕ)
      (wait_on_reqs : Bool)
      → config.variable_seq_lengths ≡ false
      → config.pipeline_dtype ≡ some dtype
      → (config.use_ring_exchange_p2p ≡ true)
        ⊎ (config.batch_p2p_comm ≡ false)
        ⊎ (wait_on_reqs ≡ true)
      → (r : Communicated T) × (communicate size received stage config sn sp recv_prev recv_next
            (some shape)
            wait_on_reqs
          ≡ ok r)
        × (r.tensor_recv_prev ≡ asked recv_prev shape dtype)
        × (r.tensor_recv_next ≡ asked recv_next shape dtype)
        × Kept wait_on_reqs r
  unfolding communicate finish
  communicate-total sn sp rp rn shape dtype w fixed given allowed =
      let prev = asked rp shape dtype in
      let next = asked rn shape dtype in
      let (reqs, log, e, made, waited) =
        post-Started (Option.map tensor sp) (Option.map placeholder prev) (Option.map tensor sn)
          (Option.map placeholder next) w allowed in
      (
        finish size received stage config prev next w [] (reqs, log),
        simp (fixed, allocate-ok rp shape dtype given, allocate-ok rn shape dtype given, e, ◌>>=◌),
        refl,
        refl,
        finish-Kept prev next w reqs log made waited,
      )

  allocate-raises :
      (tensor_shape : Option Shape)
      → (config.pipeline_dtype ≡ none) ⊎ (tensor_shape ≡ none)
      → allocate size received stage config true tensor_shape tensor_shape ≡ raise runtime_error
  unfolding allocate
  allocate-raises tensor_shape (inl h) = rw h refl
  allocate-raises tensor_shape (inr h) = elim (Option-cases config.pipeline_dtype) [
    | inl absent ↦ rw absent refl
    | inr (dtype, given) ↦ rw (given, h) refl
  ]

  allocate_nothing :
      (tensor_shape : Option Shape)
      → allocate size received stage config false tensor_shape tensor_shape ≡ ok none
  unfolding allocate
  allocate_nothing tensor_shape = refl

  neither_wanted : (false ≡ true) ⊎ (false ≡ true) → ⊥
  neither_wanted (inl h) = cc
  neither_wanted (inr h) = cc

  -- With `variable_seq_lengths` off, on a stage whose neighbours' ranks are known, a `_communicate`
  -- that is to receive on one side at least, and has no `pipeline_dtype` or no shape, raises a
  -- RuntimeError.
  pub communicate-raises :
      (sn sp : Option T) (recv_prev recv_next : Bool) (tensor_shape : Option Shape)
      (wait_on_reqs : Bool)
      → config.variable_seq_lengths ≡ false
      → (recv_prev ≡ true) ⊎ (recv_next ≡ true)
      → (config.pipeline_dtype ≡ none) ⊎ (tensor_shape ≡ none)
      → communicate size received stage config sn sp recv_prev recv_next tensor_shape wait_on_reqs
        ≡ raise runtime_error
  unfolding communicate
  communicate-raises sn sp true rn tensor_shape w fixed some_recv lacking =
      simp (fixed, allocate-raises tensor_shape lacking, ◌>>=◌)
  communicate-raises sn sp false true tensor_shape w fixed some_recv lacking =
      simp (fixed, allocate_nothing tensor_shape, allocate-raises tensor_shape lacking, ◌>>=◌)
  communicate-raises sn sp false false tensor_shape w fixed some_recv lacking =
      absurd (neither_wanted some_recv)
