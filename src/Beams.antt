-- ===== src/Beams.antt =====
-- megatron/text_generation/beam_utils.py: `BeamHypotheses`. A score is an element of the parameter
-- `X` with its order `lt`; `score_of` stands for `sum_logprobs / length ** length_penalty`.
pub mod Sorting
pub mod Drops
pub mod Added
pub mod Best
mod Tests
use megatron_lm.Prelude.{
  ◌>>=◌, length, if◌then◌else◌, ℕ, zero, suc, ◌+◌, Bool, true, false, not, ◌&&◌, ◌||◌, ltb, List,
  [], ◌∷◌, ◌++◌, Result, ok, raise, index_error,
}

pub record Hypotheses (X H : Type 0) : Type 0 where
  pub num_beams : ℕ
  pub early_stopping : Bool
  pub beams : List (X × H)
  pub worst_score : X

-- `[(s, idx) for idx, (s, _) in enumerate(beams)]`, from an index on
pub scores_from : {X H : Type 0} → ℕ → List (X × H) → List (X × ℕ)
scores_from i [] = []
scores_from i ((s, h) ∷ beams) = (s, i) ∷ scores_from (i + 1) beams

-- `del xs[i]`
pub delete_at : {A : Type 0} → ℕ → List A → List A
delete_at i [] = []
delete_at zero (x ∷ xs) = xs
delete_at (suc i) (x ∷ xs) = x ∷ delete_at i xs

module _ {X : Type 0} (lt : X → X → Bool) where
  -- The order of pairs.
  pub before : X × ℕ → X × ℕ → Bool
  before (s, i) (t, j) = lt s t || not (lt t s) && ltb i j

  pub insert : X × ℕ → List (X × ℕ) → List (X × ℕ)
  insert x [] = x ∷ []
  insert x (y ∷ ys) = let rest = insert x ys in if before y x then y ∷ rest else x ∷ y ∷ ys

  -- `sorted(xs)`
  pub sorted : List (X × ℕ) → List (X × ℕ)
  sorted [] = []
  sorted (x ∷ xs) = insert x (sorted xs)

  module _ {H : Type 0} where
    -- `highest` is `1e9`.
    pub init_hypotheses : X → ℕ → Bool → Hypotheses X H
    init_hypotheses highest num_beams early_stopping = record {
      num_beams = num_beams;
      early_stopping = early_stopping;
      beams = [];
      worst_score = highest;
    }

    -- The worst beam is deleted, and the next one is the worst.
    pub drop_worst : Hypotheses X H → List (X × ℕ) → Result (Hypotheses X H)
    drop_worst b [] = raise index_error
    drop_worst b (x ∷ []) = raise index_error
    drop_worst b ((s, i) ∷ (t, j) ∷ _) =
        ok (record b { beams = delete_at i b.beams; worst_score = t })

    pub add_scored : X → H → Hypotheses X H → Result (Hypotheses X H)
    add_scored score hyp b =
        if ltb (length b.beams) b.num_beams || lt b.worst_score score
        then (let more = record b { beams = b.beams ++ (score, hyp) ∷ [] } in
            if ltb b.num_beams (length more.beams)
            then drop_worst more (sorted (scores_from 0 more.beams))
            else ok (record more {
              worst_score = if lt b.worst_score score then b.worst_score else score;
            }))
        else ok b

    -- Several hypotheses, with their scores, one after the other.
    pub adds : List (X × H) → Hypotheses X H → Result (Hypotheses X H)
    adds [] b = ok b
    adds ((score, hyp) ∷ others) b = add_scored score hyp b >>= λ b'. adds others b'

    module _ {L : Type 0} (score_of : L → ℕ → X) where
      pub add : H → L → ℕ → Hypotheses X H → Result (Hypotheses X H)
      add hyp sum_logprobs count b = add_scored (score_of sum_logprobs count) hyp b

      pub is_done : L → ℕ → Hypotheses X H → Bool
      is_done best_sum_logprobs cur_len b =
          if ltb (length b.beams) b.num_beams
          then false
          else if b.early_stopping
          then true
          else not (lt b.worst_score (score_of best_sum_logprobs cur_len))
