-- ===== src/Vocab/Embedding.antt =====
-- The ranks' outputs and the embedding with the whole table.
use megatron_lm.Vocab.Lookup.{
  both_true, neither, leb_false→lt, lt→leb, get_elem?-slice, index-ok, length-slice, embed,
}
use megatron_lm.Vocab.Shares.{share, share_rows, all_reduce-share, sum_rows-eq}
use megatron_lm.Bucket.{index}
use megatron_lm.Prelude.{
  ne→==, subst, ◌/◌, ◌%◌, sym, get_elem?-lt, get_elem?-some, ◌≤◌, ltb→le, ltb→lt, slice, Bool-cases,
  ◌-◌, arith, length, get_elem?, ap, List, ◌<◌, le→ltb, [], ◌∷◌, true, inl, inr, ◌∙◌, ◌+◌, leb,
  ◌||◌, ◌*◌, ltb, ◌≡◌, ℕ, suc, refl, some, ok,
}
use mathlib.Core.Path.{subst, sym, ap}
use native.Mathlib.Nat.{mul-le-mul_right, suc-mul, mul_comm, div-add-mod', zero-mul, mul-zero}
use megatron_lm.Vocab.{
  vocab_range_from_per_partition_vocab_size, ensure_divisibility,
  vocab_range_from_global_vocab_size, rows_on, divide, forward, index, all_below, all_reduce,
  row_on,
}

module _ {E : Type 0} (nothing : E) (plus : E → E → E) (left : (x : E) → plus nothing x ≡ x)
    (right : (x : E) → plus x nothing ≡ x) where
  module _ (table : List E) (size w rank : ℕ) (low : rank < w)
      (whole : w * size ≡ length table) where
    abbrev range : ℕ × ℕ
    range = (rank * size, rank * size + size)

    abbrev weight : List E
    weight = slice (rank * size) (rank * size + size) table

    part_le : rank * size + size ≤ length table
    part_le = omega (arith, suc-mul rank size, mul-le-mul_right size low, whole)

    size_pos : (token : ℕ) → token < length table → 0 < size
    size_pos token h = elim (Bool-cases (ltb 0 size)) [
      | inl pos ↦ ltb→lt 0 size pos
      | inr none_each ↦
          let e : size ≡ 0 = omega (arith, ltb→le 0 size none_each) in
          absurd (omega (arith, ap (λ s. w * s) e, mul-zero w))
    ]

    -- The token's row stands in the rank's part.
    inside :
        (token : ℕ) {x : E}
        → get_elem? table token ≡ some x
        → rank * size ≤ token
        → token < rank * size + size
        → index weight (token - rank * size) ≡ ok x
    inside token found above below = index-ok weight (token - rank * size) (
        get_elem?-slice (rank * size) (rank * size + size) (token - rank * size) table (omega arith)
        ∙ ap (get_elem? table) {x = rank * size + (token - rank * size)} {y = token} (omega arith)
        ∙ found)

    row_on-ok :
        (token : ℕ) (x : E)
        → get_elem? table token ≡ some x
        → row_on nothing w range weight token ≡ ok (share nothing plus left right size token x rank)
    unfolding row_on share
    row_on-ok token x found = elim (Bool-cases (ltb 1 w)) [
      | inl many ↦ elim (Bool-cases (ltb token (rank * size) || leb (rank * size + size) token)) [
        | inl masked ↦
            let (y, first) = get_elem?-some weight 0 (
              omega (
                arith,
                length-slice (rank * size) size table part_le,
                size_pos token (get_elem?-lt table token found),
              )) in
            rw (many, masked, index-ok weight 0 first) refl
        | inr mine ↦
            let (above, below) =
              neither (ltb token (rank * size)) (leb (rank * size + size) token) mine in
            let here =
              inside token found (ltb→le token (rank * size) above)
                (leb_false→lt (rank * size + size) token below) in
            rw (many, mine, here) refl
      ]
      | inr one ↦
          let only : w ≡ 1 = omega (arith, ltb→le 1 w one) in
          let first : rank ≡ 0 = omega arith in
          let start : rank * size ≡ 0 = ap (λ r. r * size) first ∙ zero-mul size in
          let all : w * size ≡ size =
            omega (arith, ap (λ w. w * size) only, suc-mul 0 size, zero-mul size) in
          let below : token < rank * size + size = omega (arith, get_elem?-lt table token found) in
          let here = inside token found (omega arith) below in
          let same : token - rank * size ≡ token = omega arith in
          rw
            (one, le→ltb token (rank * size) (omega arith), lt→leb (rank * size + size) token below)
            (ap (index weight) (sym same) ∙ here)
    ]

  rows_on-ok :
      (table : List E) (size w : ℕ)
      → w * size ≡ length table
      → (input : List ℕ) → all_below (length table) input ≡ true
      → (rows : List E) × (embed table input ≡ ok rows)
        × (length rows ≡ length input)
        × ((rank : ℕ)
            → rank < w
            → rows_on nothing w
                (rank * size, rank * size + size)
                (slice (rank * size) (rank * size + size) table)
                input
              ≡ ok (share_rows nothing plus left right size input rows rank))
  unfolding embed rows_on share_rows all_below
  rows_on-ok table size w whole [] h = ([], refl, refl, λ rank low. refl)
  rows_on-ok table size w whole (token ∷ input) h =
      let (below, others) =
        both_true (ltb token (length table)) (all_below (length table) input) h in
      let (x, found) = get_elem?-some table token (ltb→lt token (length table) below) in
      let (rows, e, same, each) = rows_on-ok table size w whole input others in
      (
        x ∷ rows,
        rw (index-ok table token found, e) refl,
        ap suc same,
        λ rank low. rw (row_on-ok table size w rank low whole token x found, each rank low) refl,
      )

  divide-ok : (n w : ℕ) → 0 < w → n % w ≡ 0 → divide n w ≡ ok (n / w)
  unfolding divide ensure_divisibility
  divide-ok n w pos h = rw (ne→== w 0 (λ e. omega arith), h) refl

  -- If zero is neutral for the addition of rows, and a positive number of ranks divides the table,
  -- then for tokens in the table the forward pass of `VocabParallelEmbedding` succeeds on every
  -- rank, and the sum of the ranks' outputs is the embedding of the tokens in the whole table.
  pub vocab_parallel :
      (table : List E) (w : ℕ) (input : List ℕ)
      → 0 < w
      → length table % w ≡ 0
      → all_below (length table) input ≡ true
      → (rows : List E) × (outputs : ℕ → List E) × (embed table input ≡ ok rows)
        × ((rank : ℕ) → rank < w → forward nothing w rank table input ≡ ok (outputs rank))
        × (all_reduce nothing plus (length input) w outputs ≡ rows)
  unfolding forward vocab_range_from_global_vocab_size vocab_range_from_per_partition_vocab_size
  vocab_parallel table w input pos h below =
      let size = length table / w in
      let whole : w * size ≡ length table =
        omega (arith, mul_comm w size, div-add-mod' (length table) w, h) in
      let (rows, e, same, each) = rows_on-ok table size w whole input below in
      (
        rows,
        share_rows nothing plus left right size input rows,
        e,
        λ rank low. rw (divide-ok (length table) w pos h, below) (each rank low),
        all_reduce-share nothing plus left right size input rows w same
            ∙ sum_rows-eq nothing plus left right size w input rows same
                (subst (λ n. all_below n input ≡ true) (sym whole) below),
      )
