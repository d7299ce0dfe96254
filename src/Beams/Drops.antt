-- ===== src/Beams/Drops.antt =====
-- Deleting the worst beam, and when the beams are the best.
use mathlib.Core.List.{Perm}
use megatron_lm.Beams.Sorting.{
  scores_from-kept, delete_at-All, scores_from-All, delete_at-keeps, le_refl, sorted_back,
  scores_from-found, sorted-All, sorted-IsSorted, IsSorted, le, IsOrder,
}
use megatron_lm.Prelude.{
  ◌++◌, ◌∙◌, ap, All-imp, ◌⊎◌, sym, ◌+◌, subst, arith, Result, get_elem?, ◌≤◌, ◌<◌, ◌≡◌, length,
  All, List, Bool, ℕ, refl, ◌∷◌, [], some, inl, inr, ok,
}
use megatron_lm.Beams.{delete_at, scores_from, sorted, drop_worst, Hypotheses}

module _ {X H : Type 0} (lt : X → X → Bool) (order : IsOrder lt) where
  -- `dropped` are the hypotheses that were added and are not kept.
  pub record IsBest (b : Hypotheses X H) (dropped : List (X × H)) : Type 0 where
    -- Each is at most every kept one, and at most the recorded worst.
    pub low : All (λ d. All (λ x. le lt order d.0 x.0) b.beams) dropped
    pub dropped_le : All (λ d. le lt order d.0 b.worst_score) dropped
    pub worst_le : All (λ x. le lt order b.worst_score x.0) b.beams
    -- Nothing is dropped while there is room.
    pub room : length b.beams < b.num_beams → dropped ≡ []
    pub size : length b.beams ≤ b.num_beams

  -- The hypotheses there were, and one more, are now kept or dropped, each as often as there.
  abbrev pub Accounts : List (X × H) → List (X × H) → List (X × H) → List (X × H) → X × H → Type 0
  Accounts old old_dropped new new_dropped x =
      Perm (new ++ new_dropped) ((old ++ old_dropped) ++ x ∷ [])

  -- What `drop_worst` does to the beams.
  pub record Drops (more : Hypotheses X H) (r : Result (Hypotheses X H)) : Type 0 where
    pub worst : X
    pub at : ℕ
    pub dropped : X × H
    pub returns : r ≡ ok (record more { beams = delete_at at more.beams; worst_score = worst })
    pub found : get_elem? more.beams at ≡ some dropped
    pub low : All (λ x. le lt order dropped.0 x.0) (delete_at at more.beams)
    pub worst_le : All (λ x. le lt order worst x.0) (delete_at at more.beams)
    pub dropped_le : le lt order dropped.0 worst
    -- What is at most every beam is at most the new worst.
    pub above : (x : X) → All (λ k. le lt order x k.0) more.beams → le lt order x worst

  pub drop_worst-Drops :
      (more : Hypotheses X H) (ys : List (X × ℕ))
      → sorted lt (scores_from 0 more.beams) ≡ ys
      → 1 < length ys
      → Drops more (drop_worst lt more ys)
  unfolding drop_worst
  drop_worst-Drops more [] e two = absurd (omega arith)
  drop_worst-Drops more (x ∷ []) e two = absurd (omega arith)
  drop_worst-Drops more ((s, i) ∷ (t, j) ∷ ys) e two =
      let scores = scores_from 0 more.beams in
      let in_order = subst (IsSorted lt order) e (sorted-IsSorted lt order scores) in
      let F = λ (y : X × ℕ).
        (h : H) × (k : ℕ) × (y.1 ≡ 0 + k) × (get_elem? more.beams k ≡ some (y.0, h)) in
      let (hyp, k, place, here) =
        (subst (All F) e (sorted-All lt order F scores (scores_from-found 0 more.beams))).0 in
      let first = λ (y : X × ℕ). le lt order s y.0 in
      let all_first : All first scores =
        sorted_back lt order first scores
          (subst (All first) (sym e) (le_refl lt order s, in_order.0)) in
      let G = λ (y : X × ℕ). (y.1 ≡ 0 + i) ⊎ le lt order t y.0 in
      let all_next : All G scores = sorted_back lt order G scores (
        subst (All G) (sym e) (
          inl (omega arith),
          (
            inr (le_refl lt order t),
            All-imp (λ y. le lt order t y.0) G (λ y h. inr h) ys in_order.1.0,
          ),
        )) in
      record {
        worst = t;
        at = i;
        dropped = (s, hyp);
        returns = refl;
        found = ap (get_elem? more.beams) {x = i} {y = k} (omega (arith, place)) ∙ here;
        low =
            delete_at-keeps (λ x. le lt order s x.0) i more.beams
              (scores_from-All (le lt order s) 0 more.beams (
                All-imp first (λ y. (y.1 < 0) ⊎ le lt order s y.0) (λ y h. inr h) scores
                  all_first));
        worst_le = delete_at-All (λ x. le lt order t x) i 0 more.beams all_next;
        dropped_le = in_order.0.0;
        above = λ x h.
            (subst (All (λ y. le lt order x y.0)) e (
              sorted-All lt order (λ y. le lt order x y.0) scores
                (scores_from-kept (λ y. le lt order x y) 0 more.beams h))).1.0;
      }

  pub All-both :
      (Q R S : X × H → Type 0)
      → ((x : X × H) → Q x → R x → S x)
      → (xs : List (X × H)) → All Q xs
      → All R xs
      → All S xs
  All-both Q R S f [] q r = tt
  All-both Q R S f (x ∷ xs) q r = (f x q.0 r.0, All-both Q R S f xs q.1 r.1)
