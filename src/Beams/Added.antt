-- ===== src/Beams/Added.antt =====
-- One hypothesis more.
use mathlib.Core.List.{Perm, perm_append_singleton, append_assoc, append-nil}
use mathlib.Core.List.Perm
use megatron_lm.Beams.Drops.{IsBest, Accounts, drop_worst-Drops, All-both}
use megatron_lm.Beams.Sorting.{
  delete_at-Perm, length-delete_at, length-scores_from, length-sorted, delete_at-keeps, le_refl, le,
  IsOrder,
}
use megatron_lm.Prelude.{
  ltb→le, ltb→lt, ltb, get_elem?-lt, lt→ltb, le→ltb, length-append, All-append, Bool-cases,
  if◌then◌else◌, ◌++◌, ap, All-imp, sym, ◌+◌, subst, arith, Result, ◌<◌, ◌≡◌, length, All, List,
  Bool, suc, refl, ◌∷◌, [], true, false, inl, inr, ok,
}
use megatron_lm.Beams.{add_scored, delete_at, scores_from, sorted, Hypotheses}

module _ {X H : Type 0} (lt : X → X → Bool) (order : IsOrder lt) where
  -- The state after one hypothesis more.
  pub record Added (b : Hypotheses X H) (dropped : List (X × H)) (x : X × H)
      (r : Result (Hypotheses X H)) : Type 0 where
    pub new : Hypotheses X H
    pub new_dropped : List (X × H)
    pub returns : r ≡ ok new
    pub best : IsBest lt order new new_dropped
    pub same : new.num_beams ≡ b.num_beams
    pub accounts : Accounts lt order b.beams dropped new.beams new_dropped x
    pub total : length new.beams + length new_dropped ≡ suc (length b.beams + length dropped)

  last_to_end :
      (xs ys : List (X × H)) (x : X × H) → Perm ((xs ++ x ∷ []) ++ ys) ((xs ++ ys) ++ x ∷ [])
  last_to_end xs ys x =
      rw (append_assoc xs (x ∷ []) ys, append_assoc xs ys (x ∷ []))
        (Perm.append_left xs (Perm.symm (perm_append_singleton x ys)))

  module _ (b : Hypotheses X H) (dropped : List (X × H)) (score : X) (hyp : H)
      (h : IsBest lt order b dropped) where
    abbrev more : List (X × H)
    more = b.beams ++ (score, hyp) ∷ []

    abbrev lower : X
    lower = if lt b.worst_score score then b.worst_score else score

    lower-le : (le lt order lower score) × All (λ x. le lt order lower x.0) b.beams
    lower-le = elim (Bool-cases (lt b.worst_score score)) [
      | inl above ↦ rw above (order.asym b.worst_score score above, h.worst_le)
      | inr below ↦ rw below (
        le_refl lt order score,
        All-imp (λ x. le lt order b.worst_score x.0) (λ x. le lt order score x.0)
            (λ x low. order.trans score b.worst_score x.0 below low) b.beams h.worst_le,
      )
    ]

    add_more :
        length b.beams < b.num_beams → Added b dropped (score, hyp) (add_scored lt score hyp b)
    unfolding add_scored
    add_more room =
        let none_dropped = h.room room in
        record {
          new = record b { beams = more; worst_score = lower };
          new_dropped = [];
          returns = simp (
            lt→ltb (length b.beams) b.num_beams room,
            le→ltb b.num_beams (length more)
                (omega (arith, length-append b.beams ((score, hyp) ∷ []))),
          );
          best = record {
            low = tt;
            dropped_le = tt;
            worst_le =
                All-append (λ x. le lt order lower x.0) b.beams ((score, hyp) ∷ []) lower-le.1
                  (lower-le.0, tt);
            room = λ r. refl;
            size = omega (arith, length-append b.beams ((score, hyp) ∷ []));
          };
          same = refl;
          accounts =
              subst (λ gone. Perm (more ++ []) ((b.beams ++ gone) ++ (score, hyp) ∷ []))
                (sym none_dropped) (rw (append-nil more, append-nil b.beams) (Perm.refl more));
          total = omega (arith, length-append b.beams ((score, hyp) ∷ []), ap length none_dropped);
        }

    -- The list is full, and the score is above the worst.
    add_better :
        length b.beams ≡ b.num_beams
        → 0 < b.num_beams
        → lt b.worst_score score ≡ true
        → Added b dropped (score, hyp) (add_scored lt score hyp b)
    unfolding add_scored
    add_better full pos better =
        let grown : Hypotheses X H = record b { beams = more } in
        let count : length more ≡ suc b.num_beams =
          omega (arith, length-append b.beams ((score, hyp) ∷ []), full) in
        let scores = scores_from 0 more in
        let d =
          drop_worst-Drops lt order grown (sorted lt scores) refl
            (omega (arith, length-sorted lt order scores, length-scores_from 0 more, count, pos)) in
        let all_above : All (λ o. All (λ x. le lt order o.0 x.0) more) dropped =
          All-both lt order (λ o. All (λ x. le lt order o.0 x.0) b.beams)
            (λ o. le lt order o.0 b.worst_score) (λ o. All (λ x. le lt order o.0 x.0) more)
            (λ o low below.
              All-append (λ x. le lt order o.0 x.0) b.beams ((score, hyp) ∷ []) low
                (
                  order.trans o.0 b.worst_score score below (order.asym b.worst_score score better),
                  tt,
                ))
            dropped h.low h.dropped_le in
        let kept = length-delete_at d.at more (get_elem?-lt more d.at d.found) in
        record {
          new = record grown { beams = delete_at d.at more; worst_score = d.worst };
          new_dropped = d.dropped ∷ dropped;
          returns =
              simp
                (
                  le→ltb (length b.beams) b.num_beams (omega (arith, full)),
                  better,
                  lt→ltb b.num_beams (length more) (omega (arith, count)),
                )
                d.returns;
          best = record {
            low = (
              d.low,
              All-imp (λ o. All (λ x. le lt order o.0 x.0) more)
                  (λ o. All (λ x. le lt order o.0 x.0) (delete_at d.at more))
                  (λ o h. delete_at-keeps (λ x. le lt order o.0 x.0) d.at more h) dropped all_above,
            );
            dropped_le = (
              d.dropped_le,
              All-imp (λ o. All (λ x. le lt order o.0 x.0) more) (λ o. le lt order o.0 d.worst)
                  (λ o h. d.above o.0 h) dropped all_above,
            );
            worst_le = d.worst_le;
            room = λ r. absurd (omega (arith, kept, count));
            size = omega (arith, kept, count);
          };
          same = refl;
          accounts = rw (sym (append_assoc (delete_at d.at more) (d.dropped ∷ []) dropped)) (
              Perm.trans (Perm.append_right dropped (delete_at-Perm d.at more d.dropped d.found))
                (last_to_end b.beams dropped (score, hyp)));
          total = omega (arith, kept, count, full);
        }

    -- The list is full, and the score is not above the worst.
    add_worse :
        length b.beams ≡ b.num_beams
        → lt b.worst_score score ≡ false
        → Added b dropped (score, hyp) (add_scored lt score hyp b)
    unfolding add_scored
    add_worse full worse = record {
      new = b;
      new_dropped = (score, hyp) ∷ dropped;
      returns = simp (le→ltb (length b.beams) b.num_beams (omega (arith, full)), worse);
      best = record {
        low = (
          All-imp (λ x. le lt order b.worst_score x.0) (λ x. le lt order score x.0)
              (λ x low. order.trans score b.worst_score x.0 worse low) b.beams h.worst_le,
          h.low,
        );
        dropped_le = (worse, h.dropped_le);
        worst_le = h.worst_le;
        room = λ r. absurd (omega (arith, full));
        size = h.size;
      };
      same = refl;
      accounts =
          rw (append_assoc b.beams dropped ((score, hyp) ∷ []))
            (Perm.append_left b.beams (Perm.symm (perm_append_singleton (score, hyp) dropped)));
      total = omega arith;
    }

    pub add_one : 0 < b.num_beams → Added b dropped (score, hyp) (add_scored lt score hyp b)
    add_one pos = elim (Bool-cases (ltb (length b.beams) b.num_beams)) [
      | inl room ↦ add_more (ltb→lt (length b.beams) b.num_beams room)
      | inr no_room ↦
          let full : length b.beams ≡ b.num_beams =
            omega (arith, ltb→le (length b.beams) b.num_beams no_room, h.size) in
          elim (Bool-cases (lt b.worst_score score)) [
            | inl better ↦ add_better full pos better
            | inr worse ↦ add_worse full worse
          ]
    ]
