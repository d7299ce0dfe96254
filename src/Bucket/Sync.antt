-- ===== src/Bucket/Sync.antt =====
-- When a bucket communicates: once per iteration, with the last gradient that gets ready.
use megatron_lm.Prelude.{
  ℕ, suc, ◌+◌, ◌<◌, ◌≡◌, refl, true, false, List, [], ◌∷◌, length, Result, ok, raise, ap, ◌∙◌, some,
  assertion_error, ◌>>=◌, arith, ne→==, eq→==,
}
use megatron_lm.Bucket.Collectives.{IsCollective, CanReduce, IsReduced}
use megatron_lm.Bucket.Scatter.{
  start-Delivers, called-overlap, with_call, finish-with_call, start-with_call,
}
use megatron_lm.Bucket.{
  Work, Bucket, contains, reset, average_input, deliver, start_grad_sync, finish_grad_sync,
  register_grad_ready,
}

-- The parameters `ps` are distinct members of `params`, and none is in `seen`.
abbrev pub AreNew : List ℕ → List ℕ → List ℕ → Type 0
AreNew params seen [] = Unit
AreNew params seen (p ∷ ps) =
    (contains p params ≡ true) × (contains p seen ≡ false) × AreNew params (p ∷ seen) ps

-- The set after the members of `ps` are added one by one.
abbrev pub add_all : List ℕ → List ℕ → List ℕ
add_all seen [] = seen
add_all seen (p ∷ ps) = add_all (p ∷ seen) ps

module _ {A : Type 0} (divide : A → ℕ → A) (group_sum scatter_sum : List A → List A) where
  -- The backward pass: gradients get ready one after the other.
  unfoldable pub register_all : Bucket A → List ℕ → Result (Bucket A)
  register_all b [] = ok b
  register_all b (p ∷ ps) =
      register_grad_ready divide group_sum scatter_sum b p >>= λ b'. register_all b' ps

  abbrev pub mark : Bucket A → List ℕ → Bucket A
  mark b ps = record b { params_with_grad = add_all b.params_with_grad ps }

  register_more :
      (b : Bucket A) (p : ℕ)
      → b.overlap_grad_reduce ≡ true
      → contains p b.params ≡ true
      → contains p b.params_with_grad ≡ false
      → suc (length b.params_with_grad) < length b.params
      → register_grad_ready divide group_sum scatter_sum b p ≡ ok (mark b (p ∷ []))
  unfolding register_grad_ready
  register_more b p over known new short = simp (
    known,
    new,
    over,
    ne→== (suc (length b.params_with_grad)) (length b.params) (λ e. omega arith),
  )

  register_last :
      (b : Bucket A) (p : ℕ)
      → b.overlap_grad_reduce ≡ true
      → contains p b.params ≡ true
      → contains p b.params_with_grad ≡ false
      → suc (length b.params_with_grad) ≡ length b.params
      → register_grad_ready divide group_sum scatter_sum b p
        ≡ start_grad_sync divide group_sum scatter_sum (mark b (p ∷ []))
  unfolding register_grad_ready
  register_last b p over known new full =
      simp (known, new, over, eq→== (suc (length b.params_with_grad)) (length b.params) full)

  -- While gradients are missing, registering the others only marks them.
  pub register_partial :
      (b : Bucket A) (ps : List ℕ)
      → b.overlap_grad_reduce ≡ true
      → AreNew b.params b.params_with_grad ps
      → length b.params_with_grad + length ps < length b.params
      → register_all b ps ≡ ok (mark b ps)
  unfolding register_all
  register_partial b [] over new short = refl
  register_partial b (p ∷ ps) over new short =
      rw (register_more b p over new.0 new.1 (omega arith))
        (register_partial (mark b (p ∷ [])) ps over new.2 (omega arith))

  -- In whatever order the gradients get ready, the last one starts the communication, and it alone.
  pub register_complete :
      (b : Bucket A) (p : ℕ) (ps : List ℕ)
      → b.overlap_grad_reduce ≡ true
      → AreNew b.params b.params_with_grad (p ∷ ps)
      → length b.params_with_grad + length (p ∷ ps) ≡ length b.params
      → register_all b (p ∷ ps) ≡ start_grad_sync divide group_sum scatter_sum (mark b (p ∷ ps))
  unfolding register_all
  register_complete b p [] over new full =
      rw (register_last b p over new.0 new.1 (omega arith))
        (bind_ok (start_grad_sync divide group_sum scatter_sum (mark b (p ∷ []))))
    where
      bind_ok : (r : Result (Bucket A)) → (r >>= λ b'. ok b') ≡ r
      bind_ok (ok b') = refl
      bind_ok (raise e) = refl
  register_complete b p (q ∷ ps) over new full =
      rw (register_more b p over new.0 new.1 (omega arith))
        (register_complete (mark b (p ∷ [])) q ps over new.2 (omega arith))

  -- A bucket that overlaps communication and is reset, and whose distinct gradients then all get
  -- ready, starts to communicate when the last of them does, if the collectives of its group meet
  -- their contract and, with the distributed optimizer, its rank is below the world size, which
  -- divides its elements. `finish_grad_sync` then returns a bucket in which the averaged gradients
  -- are summed over the group, everywhere or, with the distributed optimizer, in the part of this
  -- rank, and are as they were elsewhere. A second `finish_grad_sync` changes nothing, and
  -- `start_grad_sync` is refused before and after the first.
  pub iteration :
      (b : Bucket A) (p : ℕ) (ps : List ℕ)
      → b.overlap_grad_reduce ≡ true
      → AreNew b.params [] (p ∷ ps)
      → length (p ∷ ps) ≡ length b.params
      → IsCollective group_sum scatter_sum b.data_parallel_world_size b.data_parallel_rank
      → CanReduce b.use_distributed_optimizer b.data_parallel_world_size b.data_parallel_rank
          (length b.contents)
      → (b' : Bucket A) × (b'' : Bucket A) × (register_all (reset b) (p ∷ ps) ≡ ok b')
        × (start_grad_sync divide group_sum scatter_sum b' ≡ raise assertion_error)
        × (finish_grad_sync divide group_sum scatter_sum b' ≡ ok b'')
        × IsReduced group_sum b.use_distributed_optimizer b.data_parallel_world_size
            b.data_parallel_rank
            (average_input divide group_sum scatter_sum b)
            b''.contents
        × (finish_grad_sync divide group_sum scatter_sum b'' ≡ ok b'')
        × (start_grad_sync divide group_sum scatter_sum b'' ≡ raise assertion_error)
  unfolding reset average_input deliver
  iteration b p ps over new full law fits =
      let all : Bucket A = mark (reset b) (p ∷ ps) in
      let (work, started, flying, due) =
        start-Delivers divide group_sum scatter_sum all law fits refl refl in
      let xs = average_input divide group_sum scatter_sum all in
      let out = deliver divide group_sum scatter_sum work xs in
      let landed : Work A = record work { in_flight = false } in
      let with = with_call divide group_sum scatter_sum all in
      (
        with xs (some work),
        with out (some landed),
        register_complete (reset b) p ps over new (omega (arith, full))
            ∙ started
            ∙ ap ok (called-overlap divide group_sum scatter_sum all work over),
        start-with_call divide group_sum scatter_sum all xs (some work),
        finish-with_call divide group_sum scatter_sum all xs work over,
        due,
        finish-with_call divide group_sum scatter_sum all out landed over,
        start-with_call divide group_sum scatter_sum all out (some landed),
      )

  -- After a `register_grad_ready` that succeeds, registering the same parameter again raises an
  -- AssertionError.
  pub register_twice :
      (b : Bucket A) (p : ℕ) {b' : Bucket A}
      → register_grad_ready divide group_sum scatter_sum b p ≡ ok b'
      → register_grad_ready divide group_sum scatter_sum b' p ≡ raise assertion_error
  unfolding register_grad_ready start_grad_sync contains
  register_twice b p {b'} h = ground arith
