-- ===== src/Beams/Tests.antt =====
-- Beams of two hypotheses, with numbers for scores, and the theorems at concrete inputs.
use megatron_lm.Beams.Sorting.{IsOrder}
use megatron_lm.Beams.Best.{adds-Kept, Kept}
use megatron_lm.Prelude.{index_error, raise, ◌≡◌, arith, List, ℕ, refl, false, ◌∷◌, [], ok, ltb}
use megatron_lm.Beams.{
  adds, is_done, drop_worst, sorted, insert, before, init_hypotheses, delete_at, add, add_scored,
  scores_from, Hypotheses,
}

ltb-IsOrder : IsOrder ltb
ltb-IsOrder = record { trans = λ a b c h h'. ground arith; asym = λ a b h. ground arith }

program : Unit {0}
unfolding scores_from delete_at before insert sorted init_hypotheses drop_worst add_scored add
    is_done adds
program = tt

abbrev all : List (ℕ × ℕ)
all = (5, 1) ∷ (9, 2) ∷ (3, 3) ∷ (7, 4) ∷ []

abbrev kept : Hypotheses ℕ ℕ
kept = record {
  num_beams = 2;
  early_stopping = false;
  beams = (9, 2) ∷ (7, 4) ∷ [];
  worst_score = 7;
}

adds-all : adds ltb all (init_hypotheses ltb 1000 2 false) ≡ ok kept
unfolding program
adds-all = refl

no_beams : add_scored ltb {H = ℕ} 2000 1 (init_hypotheses ltb 1000 0 false) ≡ raise index_error
unfolding program
no_beams = refl

adds-Kept_example : Kept ltb ltb-IsOrder 2 all (adds ltb all (init_hypotheses ltb 1000 2 false))
adds-Kept_example = adds-Kept ltb ltb-IsOrder 1000 2 false all (omega arith)
