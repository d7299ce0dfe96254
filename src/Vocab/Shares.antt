-- ===== src/Vocab/Shares.antt =====
-- What the ranks contribute to the rows, and its sum.
use megatron_lm.Vocab.Lookup.{both_true, lt→leb}
use megatron_lm.Prelude.{
  le→leb, ltb→le, ltb→lt, lt→ltb, range_from, map, Bool-cases, arith, length, ap, List, le→ltb, [],
  ◌∷◌, true, inl, inr, ◌∙◌, ◌+◌, leb, ◌||◌, ◌*◌, ltb, if◌then◌else◌, ◌≡◌, ℕ, zero, suc, refl,
}
use mathlib.Core.Path.{ap, ap₂}
use native.Mathlib.Nat.{suc-mul, zero-mul}
use megatron_lm.Vocab.{all_below, add_rows, all_reduce}

module _ {E : Type 0} (nothing : E) (plus : E → E → E) (left : (x : E) → plus nothing x ≡ x)
    (right : (x : E) → plus x nothing ≡ x) where
  -- What a rank contributes to the row `x` of a token.
  unfoldable pub share : ℕ → ℕ → E → ℕ → E
  share size token x rank =
      if ltb token (rank * size) || leb (rank * size + size) token then nothing else x

  pub sum_below : (ℕ → E) → ℕ → E
  sum_below f zero = nothing
  sum_below f (suc w) = plus (sum_below f w) (f w)

  -- The ranks below `w` hold the tokens below `w * size`, each one of them once.
  pub share_sum :
      (size token : ℕ) (x : E) (w : ℕ)
      → sum_below (share size token x) w ≡ (if ltb token (w * size) then x else nothing)
  unfolding share sum_below
  share_sum size token x zero = rw (le→ltb token (0 * size) (omega (arith, zero-mul size))) refl
  share_sum size token x (suc w) = elim (Bool-cases (ltb token (w * size))) [
    | inl below ↦
        let next =
          lt→ltb token (suc w * size)
            (omega (arith, suc-mul w size, ltb→lt token (w * size) below)) in
        rw (share_sum size token x w, below, next) (right x)
    | inr above ↦ elim (Bool-cases (ltb token (w * size + size))) [
      | inl inside ↦
          let next =
            lt→ltb token (suc w * size)
              (omega (arith, suc-mul w size, ltb→lt token (w * size + size) inside)) in
          let kept = lt→leb (w * size + size) token (ltb→lt token (w * size + size) inside) in
          rw (share_sum size token x w, above, kept, next) (left x)
      | inr beyond ↦
          let out = ltb→le token (w * size + size) beyond in
          let next = le→ltb token (suc w * size) (omega (arith, suc-mul w size, out)) in
          rw (share_sum size token x w, above, le→leb (w * size + size) token out, next)
            (left nothing)
    ]
  ]

  unfoldable pub share_rows : ℕ → List ℕ → List E → ℕ → List E
  share_rows size [] rows rank = []
  share_rows size (token ∷ input) [] rank = []
  share_rows size (token ∷ input) (row ∷ rows) rank =
      share size token row rank ∷ share_rows size input rows rank

  pub sum_rows : ℕ → List ℕ → List E → ℕ → List E
  sum_rows size [] rows w = []
  sum_rows size (token ∷ input) [] w = []
  sum_rows size (token ∷ input) (row ∷ rows) w =
      sum_below (share size token row) w ∷ sum_rows size input rows w

  add_rows-share :
      (size : ℕ) (input : List ℕ) (rows : List E) (w : ℕ)
      → add_rows nothing plus (sum_rows size input rows w) (share_rows size input rows w)
        ≡ sum_rows size input rows (suc w)
  unfolding add_rows sum_rows share_rows sum_below
  add_rows-share size [] rows w = refl
  add_rows-share size (token ∷ input) [] w = refl
  add_rows-share size (token ∷ input) (row ∷ rows) w =
      ap (λ r. sum_below (share size token row) (suc w) ∷ r) (add_rows-share size input rows w)

  no_rows :
      (k size : ℕ) (input : List ℕ) (rows : List E)
      → length rows ≡ length input
      → map (λ _. nothing) (range_from k (length input)) ≡ sum_rows size input rows 0
  unfolding sum_rows sum_below
  no_rows k size [] rows e = refl
  no_rows k size (token ∷ input) [] e = absurd (omega arith)
  no_rows k size (token ∷ input) (row ∷ rows) e =
      ap (λ r. nothing ∷ r) (no_rows (k + 1) size input rows (omega arith))

  pub all_reduce-share :
      (size : ℕ) (input : List ℕ) (rows : List E) (w : ℕ)
      → length rows ≡ length input
      → all_reduce nothing plus (length input) w (share_rows size input rows)
        ≡ sum_rows size input rows w
  unfolding all_reduce
  all_reduce-share size input rows zero e = no_rows 0 size input rows e
  all_reduce-share size input rows (suc w) e =
      ap (λ r. add_rows nothing plus r (share_rows size input rows w))
        (all_reduce-share size input rows w e)
      ∙ add_rows-share size input rows w

  pub sum_rows-eq :
      (size w : ℕ) (input : List ℕ) (rows : List E)
      → length rows ≡ length input
      → all_below (w * size) input ≡ true
      → sum_rows size input rows w ≡ rows
  unfolding sum_rows all_below
  sum_rows-eq size w [] [] e h = refl
  sum_rows-eq size w [] (row ∷ rows) e h = absurd (omega arith)
  sum_rows-eq size w (token ∷ input) [] e h = absurd (omega arith)
  sum_rows-eq size w (token ∷ input) (row ∷ rows) e h =
      let (below, others) = both_true (ltb token (w * size)) (all_below (w * size) input) h in
      ap₂ (λ r rs. r ∷ rs) (share_sum size token row w ∙ rw below refl)
        (sum_rows-eq size w input rows (omega arith) others)
