-- ===== src/P2p/Requests.antt =====
-- The requests of `_p2p_ops` and `_batched_p2p_ops`, when the ranks of the neighbours are known.
use megatron_lm.Prelude.{
  inr, inl, refl, Bool-cases, ◌⊎◌, false, true, ◌%◌, ◌==◌, ◌++◌, some, ◌≡◌, ok, none, [], List, ℕ,
  Option, ◌∷◌,
}
use megatron_lm.P2p.{
  in_order, batched_ops, irecv, p2p_requests, get_pipeline_model_parallel_next_rank, isend, Buffer,
  Message, get_pipeline_model_parallel_prev_rank, Op, Stage, send, recv,
}

module _ {T : Type 0} where
  abbrev pub sends : Option (Message T) → ℕ → List (Op T)
  sends none rank = []
  sends (some message) rank = isend message rank ∷ []

  abbrev pub recvs : Option Buffer → ℕ → List (Op T)
  recvs none rank = []
  recvs (some buffer) rank = irecv buffer rank ∷ []

  pub send-ok : (m : Option (Message T)) (rank : ℕ) → send m (ok rank) ≡ ok (sends m rank)
  unfolding send
  send-ok none rank = refl
  send-ok (some m) rank = refl

  pub recv-ok : (b : Option Buffer) (rank : ℕ) → recv b (ok rank) ≡ ok (recvs b rank)
  unfolding recv
  recv-ok none rank = refl
  recv-ok (some m) rank = refl

  module _ (stage : Stage) (p q : ℕ) (before : get_pipeline_model_parallel_prev_rank stage ≡ ok p)
      (after : get_pipeline_model_parallel_next_rank stage ≡ ok q) (send_prev : Option (Message T))
      (recv_prev : Option Buffer) (send_next : Option (Message T)) (recv_next : Option Buffer) where
    pub batched_ops-ok :
        batched_ops stage send_prev recv_prev send_next recv_next
        ≡ ok (sends send_prev p ++ (recvs recv_prev p ++ (sends send_next q ++ recvs recv_next q)))
    unfolding batched_ops in_order
    batched_ops-ok =
        rw
          (
            before,
            after,
            send-ok send_prev p,
            recv-ok recv_prev p,
            send-ok send_next q,
            recv-ok recv_next q,
          )
          refl

    pub p2p_requests-even :
        (stage.rank % 2 == 0) ≡ true
        → p2p_requests stage send_prev recv_prev send_next recv_next
          ≡ ok
              (sends send_next q ++ (recvs recv_prev p ++ (sends send_prev p ++ recvs recv_next q)))
    unfolding p2p_requests in_order
    p2p_requests-even even =
        rw
          (
            even,
            before,
            after,
            send-ok send_prev p,
            recv-ok recv_prev p,
            send-ok send_next q,
            recv-ok recv_next q,
          )
          refl

    pub p2p_requests-odd :
        (stage.rank % 2 == 0) ≡ false
        → p2p_requests stage send_prev recv_prev send_next recv_next
          ≡ ok
              (recvs recv_prev p ++ (sends send_next q ++ (recvs recv_next q ++ sends send_prev p)))
    unfolding p2p_requests in_order
    p2p_requests-odd odd =
        rw
          (
            odd,
            before,
            after,
            send-ok send_prev p,
            recv-ok recv_prev p,
            send-ok send_next q,
            recv-ok recv_next q,
          )
          refl

    pub requests-total :
        (ops : List (Op T)) × (p2p_requests stage send_prev recv_prev send_next recv_next ≡ ok ops)
        × ((ops
              ≡ sends send_next q
                ++ (recvs recv_prev p ++ (sends send_prev p ++ recvs recv_next q)))
            ⊎ (ops
                ≡ recvs recv_prev p
                  ++ (sends send_next q ++ (recvs recv_next q ++ sends send_prev p))))
    requests-total = elim (Bool-cases (stage.rank % 2 == 0)) [
      | inl even ↦ (
        sends send_next q ++ (recvs recv_prev p ++ (sends send_prev p ++ recvs recv_next q)),
        p2p_requests-even even,
        inl refl,
      )
      | inr odd ↦ (
        recvs recv_prev p ++ (sends send_next q ++ (recvs recv_next q ++ sends send_prev p)),
        p2p_requests-odd odd,
        inr refl,
      )
    ]
