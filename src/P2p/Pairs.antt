-- ===== src/P2p/Pairs.antt =====
-- The unbatched requests of two neighbours, side by side.
use megatron_lm.P2p.Requests.{p2p_requests-odd, p2p_requests-even, recvs, requests-total, sends}
use mathlib.Core.List.{append-nil}
use megatron_lm.Prelude.{
  inr, inl, refl, Bool-cases, ◌⊎◌, ne→==, eq→==, ◌==◌, ◌++◌, ◌≢◌, if◌then◌else◌, some, ◌≡◌, ok,
  none, [], List, ℕ, Option, ◌∷◌,
}
use megatron_lm.P2p.{
  irecv, p2p_requests, get_pipeline_model_parallel_next_rank, isend, Buffer, Message,
  get_pipeline_model_parallel_prev_rank, Op, Stage,
}

-- The ops of one side are answered by those of the other, one by one.
abbrev pub Dual : {T : Type 0} → List (Op T) → List (Op T) → Type 0
Dual [] [] = Unit
Dual (isend _ _ ∷ xs) (irecv _ _ ∷ ys) = Dual xs ys
Dual (irecv _ _ ∷ xs) (isend _ _ ∷ ys) = Dual xs ys
Dual _ _ = ⊥

-- What one side sends the other receives, or neither does anything.
pub data Agree {T : Type 0} : Option (Message T) → Option Buffer → Type 0 where
  neither : Agree none none
  both : {message : Message T} {buffer : Buffer} → Agree (some message) (some buffer)

-- The ops with one peer, in order.
pub toward : {T : Type 0} → ℕ → List (Op T) → List (Op T)
toward peer [] = []
toward peer (isend message rank ∷ ops) =
    let rest = toward peer ops in if rank == peer then isend message rank ∷ rest else rest
toward peer (irecv buffer rank ∷ ops) =
    let rest = toward peer ops in if rank == peer then irecv buffer rank ∷ rest else rest

module _ {T : Type 0} where
  toward-append :
      (peer : ℕ) (xs ys : List (Op T)) → toward peer (xs ++ ys) ≡ toward peer xs ++ toward peer ys
  unfolding toward
  toward-append peer [] ys = refl
  toward-append peer (isend m rank ∷ xs) ys = elim (Bool-cases (rank == peer)) [
    | inl here ↦ rw (here, toward-append peer xs ys) refl
    | inr elsewhere ↦ rw (elsewhere, toward-append peer xs ys) refl
  ]
  toward-append peer (irecv b rank ∷ xs) ys = elim (Bool-cases (rank == peer)) [
    | inl here ↦ rw (here, toward-append peer xs ys) refl
    | inr elsewhere ↦ rw (elsewhere, toward-append peer xs ys) refl
  ]

  sends-here : (m : Option (Message T)) (p : ℕ) → toward p (sends m p) ≡ sends m p
  unfolding toward
  sends-here none p = refl
  sends-here (some m) p = rw (eq→== p p refl) refl

  recvs-here : (b : Option Buffer) (p : ℕ) → toward p (recvs {T = T} b p) ≡ recvs b p
  unfolding toward
  recvs-here none p = refl
  recvs-here (some b) p = rw (eq→== p p refl) refl

  sends-elsewhere : (m : Option (Message T)) (p q : ℕ) → p ≢ q → toward q (sends m p) ≡ []
  unfolding toward
  sends-elsewhere none p q h = refl
  sends-elsewhere (some m) p q h = rw (ne→== p q h) refl

  recvs-elsewhere : (b : Option Buffer) (p q : ℕ) → p ≢ q → toward q (recvs {T = T} b p) ≡ []
  unfolding toward
  recvs-elsewhere none p q h = refl
  recvs-elsewhere (some b) p q h = rw (ne→== p q h) refl

  toward_next :
      (p q : ℕ) (sp : Option (Message T)) (rp : Option Buffer) (sn : Option (Message T))
      (rn : Option Buffer) (ops : List (Op T))
      → p ≢ q
      → (ops ≡ sends sn q ++ (recvs rp p ++ (sends sp p ++ recvs rn q)))
        ⊎ (ops ≡ recvs rp p ++ (sends sn q ++ (recvs rn q ++ sends sp p)))
      → toward q ops ≡ sends sn q ++ recvs rn q
  toward_next p q sp rp sn rn ops differ (inl e) = simp (
    e,
    toward-append,
    sends-here,
    recvs-here,
    sends-elsewhere sp p q differ,
    recvs-elsewhere rp p q differ,
  )
  toward_next p q sp rp sn rn ops differ (inr e) = simp (
    e,
    toward-append,
    sends-here,
    recvs-here,
    sends-elsewhere sp p q differ,
    recvs-elsewhere rp p q differ,
    append-nil,
  )

  toward_previous :
      (p q : ℕ) (sp : Option (Message T)) (rp : Option Buffer) (sn : Option (Message T))
      (rn : Option Buffer) (ops : List (Op T))
      → q ≢ p
      → (ops ≡ sends sn q ++ (recvs rp p ++ (sends sp p ++ recvs rn q)))
        ⊎ (ops ≡ recvs rp p ++ (sends sn q ++ (recvs rn q ++ sends sp p)))
      → toward p ops ≡ recvs rp p ++ sends sp p
  toward_previous p q sp rp sn rn ops differ (inl e) = simp (
    e,
    toward-append,
    sends-here,
    recvs-here,
    sends-elsewhere sn q p differ,
    recvs-elsewhere rn q p differ,
    append-nil,
  )
  toward_previous p q sp rp sn rn ops differ (inr e) = simp (
    e,
    toward-append,
    sends-here,
    recvs-here,
    sends-elsewhere sn q p differ,
    recvs-elsewhere rn q p differ,
  )

  Agree-Dual :
      {m : Option (Message T)} {b : Option Buffer} (p q : ℕ) (xs ys : List (Op T))
      → Agree m b
      → Dual xs ys
      → Dual (sends m p ++ xs) (recvs b q ++ ys)
  Agree-Dual p q xs ys neither h = h
  Agree-Dual p q xs ys both h = h

  Agree-Dual_swap :
      {m : Option (Message T)} {b : Option Buffer} (p q : ℕ) (xs ys : List (Op T))
      → Agree m b
      → Dual xs ys
      → Dual (recvs b q ++ xs) (sends m p ++ ys)
  Agree-Dual_swap p q xs ys neither h = h
  Agree-Dual_swap p q xs ys both h = h

  Agree-Dual_last :
      {m : Option (Message T)} {b : Option Buffer} (p q : ℕ)
      → Agree m b
      → Dual (recvs b q) (sends m p)
  Agree-Dual_last p q neither = tt
  Agree-Dual_last p q both = tt

  module _ (a b : Stage) (here there before beyond : ℕ) (sp sn sp' sn' : Option (Message T))
      (rp rn rp' rn' : Option Buffer) where
    -- On two neighbours of a pipeline, each with its two neighbours on different ranks, if what one
    -- sends to the other is what that one receives, `_p2p_ops` makes the requests of the pair on
    -- both sides in an order in which the i-th request of one is a send where the i-th of the other
    -- is a receive, whatever the parities of their ranks.
    pub neighbours-Dual :
        get_pipeline_model_parallel_next_rank a ≡ ok there
        → get_pipeline_model_parallel_prev_rank a ≡ ok before
        → get_pipeline_model_parallel_prev_rank b ≡ ok here
        → get_pipeline_model_parallel_next_rank b ≡ ok beyond
        → before ≢ there
        → beyond ≢ here
        → Agree sn rp'
        → Agree sp' rn
        → (xs ys : List (Op T)) × (p2p_requests a sp rp sn rn ≡ ok xs)
          × (p2p_requests b sp' rp' sn' rn' ≡ ok ys)
          × Dual (toward there xs) (toward here ys)
    neighbours-Dual na pa pb nb differ differ' forward_agrees backward_agrees =
        let (xs, e, shape) = requests-total a before there pa na sp rp sn rn in
        let (ys, e', shape') = requests-total b here beyond pb nb sp' rp' sn' rn' in
        (
          xs,
          ys,
          e,
          e',
          rw
              (
                toward_next before there sp rp sn rn xs differ shape,
                toward_previous here beyond sp' rp' sn' rn' ys differ' shape',
              )
              (Agree-Dual there here (recvs rn there) (sends sp' here) forward_agrees
                (Agree-Dual_last here there backward_agrees)),
        )

    -- In a pipeline of two stages, where each is the previous and the next neighbour of the other,
    -- if what one sends on each side is what the other receives there, all the requests of
    -- `_p2p_ops` on the two stages meet in order, each send with a receive.
    pub two_stages-Dual :
        get_pipeline_model_parallel_next_rank a ≡ ok there
        → get_pipeline_model_parallel_prev_rank a ≡ ok there
        → get_pipeline_model_parallel_prev_rank b ≡ ok here
        → get_pipeline_model_parallel_next_rank b ≡ ok here
        → a.rank ≡ 0
        → b.rank ≡ 1
        → Agree sn rp'
        → Agree sn' rp
        → Agree sp rn'
        → Agree sp' rn
        → (xs ys : List (Op T)) × (p2p_requests a sp rp sn rn ≡ ok xs)
          × (p2p_requests b sp' rp' sn' rn' ≡ ok ys)
          × Dual xs ys
    two_stages-Dual na pa pb nb first second h1 h2 h3 h4 = (
      sends sn there ++ (recvs rp there ++ (sends sp there ++ recvs rn there)),
      recvs rp' here ++ (sends sn' here ++ (recvs rn' here ++ sends sp' here)),
      p2p_requests-even a there there pa na sp rp sn rn (rw first refl),
      p2p_requests-odd b here here pb nb sp' rp' sn' rn' (rw second refl),
      Agree-Dual there here (recvs rp there ++ (sends sp there ++ recvs rn there))
          (sends sn' here ++ (recvs rn' here ++ sends sp' here)) h1
          (Agree-Dual_swap here there (sends sp there ++ recvs rn there)
            (recvs rn' here ++ sends sp' here) h2
            (Agree-Dual there here (recvs rn there) (sends sp' here) h3
              (Agree-Dual_last here there h4))),
    )
