-- ===== src/Bucket/Collectives.antt =====
-- What a collective call leaves in the contents of a bucket, once its output is there.
use megatron_lm.Prelude.{
  ℕ, ◌+◌, ◌*◌, ◌/◌, ◌%◌, ◌≤◌, ◌<◌, ◌≡◌, ap, sym, refl, ◌∙◌, Bool, true, false, List, [], ◌∷◌, ◌++◌,
  length, take, drop, ok, none, ◌>>=◌, arith, length-take, length-drop, take-append_left,
  drop-append_left, drop-drop, some, Result, raise, index_error, if◌then◌else◌, get_elem?-map,
  get_elem?-range_from, range_from, Bool-cases, inl, inr, subst,
}
use mathlib.Core.List.{append-nil}
use native.Mathlib.Nat.{div-mul-le_self, mul-le-mul_right, add-mul, one-mul}
use megatron_lm.Bucket.{
  Bucket, Work, Slice, shard_slice, write_slice, shard_buffer, index, issue, deliver,
}
use megatron_lm.Bucket.Shards.{part, shard_buffer-slices}

drop_all : {A : Type 0} (xs : List A) → drop (length xs) xs ≡ []
drop_all [] = refl
drop_all (x ∷ xs) = drop_all xs

-- What the bucket can be reduced by: an all-reduce always, a reduce-scatter if the world size
-- divides it.
unfoldable pub CanReduce : Bool → ℕ → ℕ → ℕ → Type 0
CanReduce false w r count = Unit
CanReduce true w r count = (r < w) × (count % w ≡ 0)

module _ {A : Type 0} where
  -- A list put together from what stands before part r, a new part, and what stands behind.
  abbrev pub splice : List A → List A → ℕ → ℕ → List A
  splice input shard n r = take (r * n) input ++ (shard ++ drop ((r + 1) * n) input)

  splice_parts :
      (input shard : List A) (n r : ℕ)
      → length shard ≡ n
      → (r + 1) * n ≤ length input
      → (take (r * n) (splice input shard n r) ≡ take (r * n) input)
        × (take n (drop (r * n) (splice input shard n r)) ≡ shard)
        × (drop ((r + 1) * n) (splice input shard n r) ≡ drop ((r + 1) * n) input)
  splice_parts input shard n r e fits =
      let before : r * n ≡ length (take (r * n) input) =
        omega (arith, length-take (r * n) input, add-mul r 1 n) in
      let next : drop ((r + 1) * n) (splice input shard n r)
          ≡ drop n (drop (r * n) (splice input shard n r)) =
        rw (drop-drop, add-mul, one-mul) in
      (
        take-append_left (r * n) (take (r * n) input) _ before,
        rw
            (drop-append_left (r * n) (take (r * n) input) (shard ++ drop ((r + 1) * n) input)
              before)
            (take-append_left n shard _ (sym e)),
        next
            ∙ ap (drop n) (
                drop-append_left (r * n) (take (r * n) input) (shard ++ drop ((r + 1) * n) input)
                  before)
            ∙ drop-append_left n shard _ (sym e),
      )

  -- Once the slices are cut, this rank's exists.
  local_slice :
      (input : List A) (w r : ℕ) {B : Type 0} (rest : Slice → Result B)
      → r < w
      → length input % w ≡ 0
      → (shard_buffer input w >>= λ shards. index shards r >>= rest)
        ≡ rest (shard_slice (length input / w) r)
  local_slice input w r rest rank even =
      let k = length input / w in
      ap (λ x. x >>= (λ shards. index shards r >>= rest))
        (shard_buffer-slices input w (omega arith) even)
      ∙ ap (λ o. elim o [ none ↦ raise index_error | some x ↦ ok x ] >>= rest)
          (get_elem?-map (shard_slice k) (range_from 0 w) r
            (get_elem?-range_from 0 w r rank ∙ ap some (omega arith)))

module _ {A : Type 0} (group_sum scatter_sum : List A → List A) where
  -- The collectives work on tensors of one size, and a reduce-scatter over `w` ranks delivers to
  -- rank `r` its part of the sum.
  pub record IsCollective (w r : ℕ) : Type 0 where
    pub keeps : (xs : List A) → length (group_sum xs) ≡ length xs
    pub scatters :
        (xs : List A) → length xs % w ≡ 0 → scatter_sum xs ≡ part (group_sum xs) (length xs / w) r

module _ {A : Type 0} (group_sum : List A → List A) where
  -- The contents `out` that are due: the sum, or, with the distributed optimizer, the sum in the
  -- part of this rank, and the input elsewhere.
  unfoldable pub IsReduced : Bool → ℕ → ℕ → List A → List A → Type 0
  IsReduced false w r input out = out ≡ group_sum input
  IsReduced true w r input out =
      let n = length input / w in
      (part out n r ≡ part (group_sum input) n r)
      × (take (r * n) out ≡ take (r * n) input)
      × (drop ((r + 1) * n) out ≡ drop ((r + 1) * n) input)

module _ {A : Type 0} (divide : A → ℕ → A) (group_sum scatter_sum : List A → List A) where
  -- What a call owes.
  abbrev pub Delivers : Bucket A → List A → Work A → Type 0
  Delivers b input work =
      IsReduced group_sum b.use_distributed_optimizer b.data_parallel_world_size
        b.data_parallel_rank input (deliver divide group_sum scatter_sum work input)

  issue-all :
      (b : Bucket A) (input : List A)
      → b.use_distributed_optimizer ≡ false
      → (work : Work A) × (issue divide group_sum scatter_sum b input ≡ ok work)
        × (work.in_flight ≡ true)
        × Delivers b input work
  unfolding issue deliver write_slice IsReduced
  issue-all b input all =
      let whole : Slice = record { start = 0; stop = length input } in
      (
        record { view = whole; output = group_sum input; in_flight = true },
        ap
            (λ d.
              if d
              then (shard_buffer input b.data_parallel_world_size >>= (λ shards.
                  index shards b.data_parallel_rank >>= (λ v.
                    ok (record { view = v; output = scatter_sum input; in_flight = true }))))
              else ok (record { view = whole; output = group_sum input; in_flight = true }))
            all,
        refl,
        rw (all, drop_all input, append-nil (group_sum input)) refl,
      )

  issue-scatter :
      (b : Bucket A) (input : List A)
      → IsCollective group_sum scatter_sum b.data_parallel_world_size b.data_parallel_rank
      → b.use_distributed_optimizer ≡ true
      → b.data_parallel_rank < b.data_parallel_world_size
      → length input % b.data_parallel_world_size ≡ 0
      → (work : Work A) × (issue divide group_sum scatter_sum b input ≡ ok work)
        × (work.in_flight ≡ true)
        × Delivers b input work
  unfolding issue deliver write_slice shard_slice IsReduced
  issue-scatter b input law dist rank even =
      let w = b.data_parallel_world_size in
      let r = b.data_parallel_rank in
      let n = length input / w in
      let fits : (r + 1) * n ≤ length input =
        omega (arith, mul-le-mul_right n rank, div-mul-le_self (length input) w) in
      let local : Slice → Result (Work A) =
        λ v. ok (record { view = v; output = scatter_sum input; in_flight = true }) in
      let size : length (scatter_sum input) ≡ n =
        rw (law.scatters input even, length-take, length-drop, law.keeps)
          (omega (arith, add-mul r 1 n)) in
      let (before, here, after) = splice_parts input (scatter_sum input) n r size fits in
      (
        record { view = shard_slice n r; output = scatter_sum input; in_flight = true },
        ap
              (λ d.
                if d
                then (shard_buffer input w >>= (λ shards. index shards r >>= local))
                else ok (record {
                  view = record { start = 0; stop = length input };
                  output = group_sum input;
                  in_flight = true;
                }))
              dist
            ∙ local_slice input w r local rank even,
        refl,
        rw dist (here ∙ law.scatters input even, before, after),
      )

  pub issue-Delivers :
      (b : Bucket A) (input : List A)
      → IsCollective group_sum scatter_sum b.data_parallel_world_size b.data_parallel_rank
      → CanReduce b.use_distributed_optimizer b.data_parallel_world_size b.data_parallel_rank
          (length input)
      → (work : Work A) × (issue divide group_sum scatter_sum b input ≡ ok work)
        × (work.in_flight ≡ true)
        × Delivers b input work
  unfolding CanReduce
  issue-Delivers b input law fits = elim (Bool-cases b.use_distributed_optimizer) [
    | inl dist ↦
        let (rank, even) =
          subst (λ d. CanReduce d b.data_parallel_world_size b.data_parallel_rank (length input))
            dist fits in
        issue-scatter b input law dist rank even
    | inr all ↦ issue-all b input all
  ]
