-- ===== src/Bucket/Scatter.antt =====
-- A bucket that makes its call, and what is in it once the output is there.
use megatron_lm.Prelude.{
  ℕ, ◌≡◌, ap, sym, refl, ◌∙◌, true, false, not, ◌&&◌, List, length, ok, none, ◌>>=◌, ◌>>◌, assert,
  length-map, some, Result, Option, raise, assertion_error, if◌then◌else◌, Bool-cases, inl, inr,
  subst,
}
use megatron_lm.Bucket.{
  Bucket, Work, average_input, issue, deliver, start_grad_sync, finish_grad_sync, has_handle,
  wait_for,
}
use megatron_lm.Bucket.Collectives.{IsCollective, CanReduce, IsReduced, Delivers, issue-Delivers}

module _ {A : Type 0} (divide : A → ℕ → A) (group_sum scatter_sum : List A → List A) where
  -- A bucket whose call has been made.
  abbrev pub called : Bucket A → Work A → Bucket A
  called b work = record b {
    contents =
        (if b.overlap_grad_reduce
          then average_input divide group_sum scatter_sum b
          else deliver divide group_sum scatter_sum work
              (average_input divide group_sum scatter_sum b));
    communication_handle = (if b.overlap_grad_reduce then some work else none);
    communication_issued = true;
  }

  start-called :
      (b : Bucket A) (work : Work A)
      → b.communication_handle ≡ none
      → b.communication_issued ≡ false
      → issue divide group_sum scatter_sum b (average_input divide group_sum scatter_sum b)
        ≡ ok work
      → start_grad_sync divide group_sum scatter_sum b ≡ ok (called b work)
  unfolding start_grad_sync has_handle
  start-called b work free idle e =
      let rest : Work A → Result (Bucket A) = λ work. ok (called b work) in
      let call =
        issue divide group_sum scatter_sum b (average_input divide group_sum scatter_sum b)
        >>= rest in
      ap (λ h. assert (not (has_handle h) && not b.communication_issued) >> call) free
      ∙ ap (λ i. assert (not i) >> call) idle
      ∙ ap (λ x. x >>= rest) e

  -- A bucket with a handle, and with none.
  abbrev pub with_call : Bucket A → List A → Option (Work A) → Bucket A
  with_call b xs handle = record b {
    contents = xs;
    communication_handle = handle;
    communication_issued = true;
  }

  abbrev pub average : Bucket A → List A
  average = average_input divide group_sum scatter_sum

  abbrev pub delivered : Bucket A → Work A → List A
  delivered b work = deliver divide group_sum scatter_sum work (average b)

  -- A bucket that is not communicating starts: the work that it does, and what that will leave.
  pub start-Delivers :
      (b : Bucket A)
      → IsCollective group_sum scatter_sum b.data_parallel_world_size b.data_parallel_rank
      → CanReduce b.use_distributed_optimizer b.data_parallel_world_size b.data_parallel_rank
          (length b.contents)
      → b.communication_handle ≡ none
      → b.communication_issued ≡ false
      → (work : Work A) × (start_grad_sync divide group_sum scatter_sum b ≡ ok (called b work))
        × (work.in_flight ≡ true)
        × Delivers divide group_sum scatter_sum b (average b) work
  unfolding average_input
  start-Delivers b law fits free idle =
      let same : length b.contents ≡ length (average b) =
        sym (length-map (λ x. divide x b.data_parallel_world_size) b.contents) in
      let (work, e, flying, due) = issue-Delivers divide group_sum scatter_sum b (average b) law (
        subst
          (CanReduce b.use_distributed_optimizer b.data_parallel_world_size b.data_parallel_rank)
          same fits) in
      (work, start-called b work free idle e, flying, due)

  pub called-overlap :
      (b : Bucket A) (work : Work A)
      → b.overlap_grad_reduce ≡ true
      → called b work ≡ with_call b (average b) (some work)
  called-overlap b work over =
      ap
        (λ o.
          with_call b (if o then average b else delivered b work) (if o then some work else none))
        over

  called-plain :
      (b : Bucket A) (work : Work A)
      → b.overlap_grad_reduce ≡ false
      → called b work ≡ with_call b (delivered b work) none
  called-plain b work plain =
      ap
        (λ o.
          with_call b (if o then average b else delivered b work) (if o then some work else none))
        plain

  -- `finish_grad_sync` of a call with a handle.
  pub finish-with_call :
      (b : Bucket A) (xs : List A) (work : Work A)
      → b.overlap_grad_reduce ≡ true
      → finish_grad_sync divide group_sum scatter_sum (with_call b xs (some work))
        ≡ ok (
            with_call b
              (deliver divide group_sum scatter_sum work xs)
              (some (record work { in_flight = false })))
  unfolding finish_grad_sync has_handle wait_for
  finish-with_call b xs work over =
      let c = with_call b xs (some work) in
      ap
        (λ o.
          if not o
          then start_grad_sync divide group_sum scatter_sum c
          else ok (wait_for divide group_sum scatter_sum c))
        over

  -- With overlap, `finish_grad_sync` waits for the call; without it, it makes the call.
  abbrev pub sync : Bucket A → Result (Bucket A)
  sync b =
      if b.overlap_grad_reduce
      then start_grad_sync divide group_sum scatter_sum b
        >>= finish_grad_sync divide group_sum scatter_sum
      else finish_grad_sync divide group_sum scatter_sum b

  sync-overlap :
      (b : Bucket A) (work : Work A)
      → b.overlap_grad_reduce ≡ true
      → start_grad_sync divide group_sum scatter_sum b ≡ ok (called b work)
      → sync b ≡ ok (with_call b (delivered b work) (some (record work { in_flight = false })))
  sync-overlap b work over started =
      let finish = finish_grad_sync divide group_sum scatter_sum in
      ap (λ o. if o then start_grad_sync divide group_sum scatter_sum b >>= finish else finish b)
        over
      ∙ ap (λ x. x >>= finish) started
      ∙ ap finish (called-overlap b work over)
      ∙ finish-with_call b (average b) work over

  sync-plain :
      (b : Bucket A) (work : Work A)
      → b.overlap_grad_reduce ≡ false
      → start_grad_sync divide group_sum scatter_sum b ≡ ok (called b work)
      → sync b ≡ ok (with_call b (delivered b work) none)
  unfolding finish_grad_sync
  sync-plain b work plain started =
      let start = start_grad_sync divide group_sum scatter_sum in
      let finish = finish_grad_sync divide group_sum scatter_sum in
      ap (λ o. if o then start b >>= finish else finish b) plain
      ∙ ap
          (λ o.
            if not o
            then start b
            else (assert (has_handle b.communication_handle && b.communication_issued)
                >> ok (wait_for divide group_sum scatter_sum b)))
          plain
      ∙ started
      ∙ ap ok (called-plain b work plain)

  -- What has been called once is not called again.
  pub start-with_call :
      (b : Bucket A) (xs : List A) (handle : Option (Work A))
      → start_grad_sync divide group_sum scatter_sum (with_call b xs handle) ≡ raise assertion_error
  unfolding start_grad_sync has_handle
  start-with_call b xs none = refl
  start-with_call b xs (some work) = refl

  -- Whether a bucket that is not communicating makes its call and waits for it (with overlap) or
  -- lets `finish_grad_sync` do both, if the collectives of its group meet their contract and, with
  -- the distributed optimizer, its rank is below the world size, which divides its elements, then
  -- this returns, and afterwards the averaged gradients are summed over the group: an all-reduce
  -- sums all of them; the reduce-scatter of the distributed optimizer sums those of this rank's
  -- part, and leaves the others as they were. A further `start_grad_sync` is refused.
  pub sync-IsReduced :
      (b : Bucket A)
      → IsCollective group_sum scatter_sum b.data_parallel_world_size b.data_parallel_rank
      → CanReduce b.use_distributed_optimizer b.data_parallel_world_size b.data_parallel_rank
          (length b.contents)
      → b.communication_handle ≡ none
      → b.communication_issued ≡ false
      → (b' : Bucket A) × (sync b ≡ ok b')
        × IsReduced group_sum b.use_distributed_optimizer b.data_parallel_world_size
            b.data_parallel_rank
            (average b)
            b'.contents
        × (start_grad_sync divide group_sum scatter_sum b' ≡ raise assertion_error)
  sync-IsReduced b law fits free idle =
      let (work, started, flying, due) = start-Delivers b law fits free idle in
      elim (Bool-cases b.overlap_grad_reduce) [
        | inl over ↦ (
          with_call b (delivered b work) (some (record work { in_flight = false })),
          sync-overlap b work over started,
          due,
          start-with_call b (delivered b work) (some (record work { in_flight = false })),
        )
        | inr plain ↦ (
          with_call b (delivered b work) none,
          sync-plain b work plain started,
          due,
          start-with_call b (delivered b work) none,
        )
      ]
