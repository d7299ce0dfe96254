-- ===== src/Beams/Best.antt =====
-- Which hypotheses are kept after all of them were added, and `is_done`.
use mathlib.Core.List.{Perm, append_assoc, append-nil}
use mathlib.Core.List.Perm
use megatron_lm.Beams.Drops.{IsBest}
use megatron_lm.Beams.Added.{add_one}
use megatron_lm.Beams.Sorting.{le, IsOrder}
use megatron_lm.Prelude.{
  not, ltb→le, ltb→lt, ltb, min, Bool-cases, if◌then◌else◌, ◌∙◌, ap, ◌+◌, arith, Result, ◌<◌, ◌≡◌,
  length, ◌++◌, sym, List, Bool, ℕ, refl, ◌∷◌, [], true, false, inl, inr, ok,
}
use megatron_lm.Beams.{adds, add, is_done, init_hypotheses, add_scored, Hypotheses}

decided :
    (p e q : Bool)
    → (if p then false else if e then true else not q) ≡ true
    → e ≡ false
    → (p ≡ false) × (q ≡ false)
decided true e q h late = absurd (cc)
decided false true q h late = absurd (cc)
decided false false true h late = absurd (cc)
decided false false false h late = (refl, refl)

module _ {X H : Type 0} (lt : X → X → Bool) (order : IsOrder lt) where
  -- What is kept after all of them: as many as there is room for, and the best.
  pub record Kept (n : ℕ) (all : List (X × H)) (r : Result (Hypotheses X H)) : Type 0 where
    pub kept : Hypotheses X H
    pub dropped : List (X × H)
    pub returns : r ≡ ok kept
    pub best : IsBest lt order kept dropped
    pub count : length kept.beams ≡ min n (length all)
    -- What is kept or dropped is what was added, each as often.
    pub accounts : Perm (kept.beams ++ dropped) all

  -- What came before, and the others.
  record KeptMore (b : Hypotheses X H) (dropped_before others : List (X × H))
      (r : Result (Hypotheses X H)) : Type 0 where
    kept : Hypotheses X H
    dropped : List (X × H)
    returns : r ≡ ok kept
    best : IsBest lt order kept dropped
    same : kept.num_beams ≡ b.num_beams
    total :
        length kept.beams + length dropped ≡ length b.beams + length dropped_before + length others
    accounts : Perm (kept.beams ++ dropped) ((b.beams ++ dropped_before) ++ others)

  adds-KeptMore :
      (others : List (X × H)) (b : Hypotheses X H) (dropped : List (X × H))
      → 0 < b.num_beams
      → IsBest lt order b dropped
      → KeptMore b dropped others (adds lt others b)
  unfolding adds
  adds-KeptMore [] b dropped pos h = record {
    kept = b;
    dropped = dropped;
    returns = refl;
    best = h;
    same = refl;
    total = omega arith;
    accounts = rw (append-nil (b.beams ++ dropped)) (Perm.refl (b.beams ++ dropped));
  }
  adds-KeptMore ((score, hyp) ∷ others) b dropped pos h =
      let one = add_one lt order b dropped score hyp h pos in
      let rest =
        adds-KeptMore others one.new one.new_dropped (omega (arith, one.same, pos)) one.best in
      record {
        kept = rest.kept;
        dropped = rest.dropped;
        returns = rw one.returns rest.returns;
        best = rest.best;
        same = rest.same ∙ one.same;
        total = omega (arith, rest.total, one.total);
        accounts = Perm.trans rest.accounts (
            rw (sym (append_assoc (b.beams ++ dropped) ((score, hyp) ∷ []) others))
              (Perm.append_right others one.accounts));
      }

  -- If the scores are linearly ordered, adding any hypotheses to an empty list for n > 0 beams
  -- succeeds, and keeps the n best: as many are kept as were added, or n if that is fewer; the kept
  -- and the dropped ones together are those that were added, each as often; a dropped one is at
  -- most every kept one and at most the recorded worst score, which is at most every kept one.
  pub adds-Kept :
      (highest : X) (n : ℕ) (early_stopping : Bool) (all : List (X × H))
      → 0 < n
      → Kept n all (adds lt all (init_hypotheses lt highest n early_stopping))
  unfolding init_hypotheses
  adds-Kept highest n early_stopping all pos =
      let h : IsBest lt order (init_hypotheses lt highest n early_stopping) [] = record {
        low = tt;
        dropped_le = tt;
        worst_le = tt;
        room = λ r. refl;
        size = omega arith;
      } in
      let k = adds-KeptMore all (init_hypotheses lt highest n early_stopping) [] pos h in
      record {
        kept = k.kept;
        dropped = k.dropped;
        returns = k.returns;
        best = k.best;
        count = elim (Bool-cases (ltb (length k.kept.beams) k.kept.num_beams)) [
          | inl some_room ↦
              let none_dropped =
                k.best.room (ltb→lt (length k.kept.beams) k.kept.num_beams some_room) in
              omega (
                arith,
                ltb→lt (length k.kept.beams) k.kept.num_beams some_room,
                k.same,
                k.total,
                ap length none_dropped,
              )
          | inr no_room ↦ omega (
            arith,
            ltb→le (length k.kept.beams) k.kept.num_beams no_room,
            k.same,
            k.total,
            k.best.size,
          )
        ];
        accounts = k.accounts;
      }

  module _ {L : Type 0} (score_of : L → ℕ → X) where
    -- If the scores are linearly ordered and early stopping is off, once `is_done` says yes for the
    -- best sum and the length of a round, adding a hypothesis whose score is at most theirs changes
    -- nothing.
    pub is_done_final :
        (b : Hypotheses X H) (best : L) (cur_len : ℕ) (hyp : H) (sum_logprobs : L) (count : ℕ)
        → b.early_stopping ≡ false
        → is_done lt score_of best cur_len b ≡ true
        → le lt order (score_of sum_logprobs count) (score_of best cur_len)
        → add lt score_of hyp sum_logprobs count b ≡ ok b
    unfolding is_done add add_scored
    is_done_final b best cur_len hyp sum_logprobs count late is_done no_better =
        let (full, below) =
          decided (ltb (length b.beams) b.num_beams) b.early_stopping
            (lt b.worst_score (score_of best cur_len)) is_done late in
        simp (
          full,
          order.trans (score_of sum_logprobs count) (score_of best cur_len) b.worst_score no_better
              below,
        )
