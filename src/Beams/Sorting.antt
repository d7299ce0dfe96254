-- ===== src/Beams/Sorting.antt =====
-- The order of the scores, and what `sorted` and `del` keep.
use megatron_lm.Prelude.{
  ◌++◌, ◌∙◌, ap, some_inj, arith, ◌&&◌, length, subst, ◌⊎◌, ◌<◌, ◌+◌, not, get_elem?, ◌||◌, ltb,
  All-imp, All, Bool-cases, ◌≡◌, List, Bool, ℕ, zero, suc, refl, ◌∷◌, [], true, false, some, inl,
  inr,
}
use mathlib.Core.List.{Perm, perm_append_singleton}
use mathlib.Core.List.Perm
use megatron_lm.Beams.{scores_from, delete_at, sorted, before, insert}

-- A linear order, as numbers without NaN have it.
pub record IsOrder {X : Type 0} (lt : X → X → Bool) : Type 0 where
  pub trans : (a b c : X) → lt b a ≡ false → lt c b ≡ false → lt c a ≡ false
  pub asym : (a b : X) → lt a b ≡ true → lt b a ≡ false

first_least : (p q r : Bool) → (p ≡ true → q ≡ false) → (p || not q && r) ≡ true → q ≡ false
first_least true q r f h = f refl
first_least false true r f h = absurd (cc)
first_least false false r f h = refl

last_least : (p q r : Bool) → (p || not q && r) ≡ false → p ≡ false
last_least true q r h = absurd (cc)
last_least false q r h = refl

module _ {X : Type 0} (lt : X → X → Bool) (order : IsOrder lt) where
  -- `a` is at most `b`.
  abbrev pub le : X → X → Type 0
  le a b = lt b a ≡ false

  -- Each score is at most those that follow.
  abbrev pub IsSorted : List (X × ℕ) → Type 0
  IsSorted [] = Unit
  IsSorted (x ∷ xs) = All (λ y. le x.0 y.0) xs × IsSorted xs

  pub insert-All :
      (Q : X × ℕ → Type 0) (x : X × ℕ) (xs : List (X × ℕ)) → Q x → All Q xs → All Q (insert lt x xs)
  unfolding insert
  insert-All Q x [] h hs = (h, tt)
  insert-All Q x (y ∷ ys) h hs = elim (Bool-cases (before lt y x)) [
    | inl b ↦ rw b (hs.0, insert-All Q x ys h hs.1)
    | inr b ↦ rw b (h, hs)
  ]

  pub sorted-All : (Q : X × ℕ → Type 0) (xs : List (X × ℕ)) → All Q xs → All Q (sorted lt xs)
  unfolding sorted
  sorted-All Q [] hs = tt
  sorted-All Q (x ∷ xs) hs = insert-All Q x (sorted lt xs) hs.0 (sorted-All Q xs hs.1)

  insert_back :
      (Q : X × ℕ → Type 0) (x : X × ℕ) (xs : List (X × ℕ))
      → (All Q (insert lt x xs) → Q x × All Q xs)
  unfolding insert
  insert_back Q x [] = λ hs. (hs.0, tt)
  insert_back Q x (y ∷ ys) = elim (Bool-cases (before lt y x)) [
    | inl b ↦ rw b (λ hs. let (h, others) = insert_back Q x ys hs.1 in (h, (hs.0, others)))
    | inr b ↦ rw b (λ hs. (hs.0, hs.1))
  ]

  pub sorted_back : (Q : X × ℕ → Type 0) (xs : List (X × ℕ)) → All Q (sorted lt xs) → All Q xs
  unfolding sorted
  sorted_back Q [] hs = tt
  sorted_back Q (x ∷ xs) hs =
      let (h, others) = insert_back Q x (sorted lt xs) hs in (h, sorted_back Q xs others)

  before-le : (y x : X × ℕ) → before lt y x ≡ true → le y.0 x.0
  unfolding before
  before-le (t, j) (s, i) h = first_least (lt t s) (lt s t) (ltb j i) (order.asym t s) h

  not_before-le : (y x : X × ℕ) → before lt y x ≡ false → le x.0 y.0
  unfolding before
  not_before-le (t, j) (s, i) h = last_least (lt t s) (lt s t) (ltb j i) h

  insert-IsSorted : (x : X × ℕ) (xs : List (X × ℕ)) → IsSorted xs → IsSorted (insert lt x xs)
  unfolding insert
  insert-IsSorted x [] h = (tt, tt)
  insert-IsSorted x (y ∷ ys) h = elim (Bool-cases (before lt y x)) [
    | inl b ↦
        rw b (insert-All (λ z. le y.0 z.0) x ys (before-le y x b) h.0, insert-IsSorted x ys h.1)
    | inr b ↦
        let first = not_before-le y x b in
        rw b (
          (
            first,
            All-imp (λ z. le y.0 z.0) (λ z. le x.0 z.0)
                (λ z later. order.trans x.0 y.0 z.0 first later) ys h.0,
          ),
          h,
        )
  ]

  pub sorted-IsSorted : (xs : List (X × ℕ)) → IsSorted (sorted lt xs)
  unfolding sorted
  sorted-IsSorted [] = tt
  sorted-IsSorted (x ∷ xs) = insert-IsSorted x (sorted lt xs) (sorted-IsSorted xs)

  length-insert : (x : X × ℕ) (xs : List (X × ℕ)) → length (insert lt x xs) ≡ suc (length xs)
  unfolding insert
  length-insert x [] = refl
  length-insert x (y ∷ ys) = elim (Bool-cases (before lt y x)) [
    | inl b ↦ rw b (ap suc (length-insert x ys))
    | inr b ↦ rw b refl
  ]

  pub length-sorted : (xs : List (X × ℕ)) → length (sorted lt xs) ≡ length xs
  unfolding sorted
  length-sorted [] = refl
  length-sorted (x ∷ xs) = length-insert x (sorted lt xs) ∙ ap suc (length-sorted xs)

  pub le_refl : (a : X) → le a a
  le_refl a = elim (Bool-cases (lt a a)) [ inl h ↦ order.asym a a h | inr h ↦ h ]

surely : {A B : Type 0} → A ⊎ B → (A → ⊥) → B
surely (inl a) no_a = absurd (no_a a)
surely (inr b) no_a = b

left_imp : {A B C : Type 0} → A ⊎ B → (A → C) → C ⊎ B
left_imp (inl a) f = inl (f a)
left_imp (inr b) f = inr b

module _ {X H : Type 0} where
  -- What holds of the scores and their places holds of the scores from there on.
  pub scores_from-All :
      (R : X → Type 0) (k : ℕ) (xs : List (X × H))
      → All (λ y. (y.1 < k) ⊎ R y.0) (scores_from k xs)
      → All (λ x. R x.0) xs
  unfolding scores_from
  scores_from-All R k [] h = tt
  scores_from-All R k ((s, hyp) ∷ xs) h = (
    surely h.0 (λ low. omega arith),
    scores_from-All R (k + 1) xs (
        All-imp (λ y. (y.1 < k) ⊎ R y.0) (λ y. (y.1 < k + 1) ⊎ R y.0)
          (λ y e. left_imp e (λ low. omega arith)) (scores_from (k + 1) xs) h.1),
  )

  -- Each score stands at its place.
  pub scores_from-found :
      (k : ℕ) (xs : List (X × H))
      → All
          (λ y. (h : H) × (i : ℕ) × (y.1 ≡ k + i) × (get_elem? xs i ≡ some (y.0, h)))
          (scores_from k xs)
  unfolding scores_from
  scores_from-found k [] = tt
  scores_from-found k ((s, hyp) ∷ xs) = (
    (hyp, 0, omega arith, refl),
    All-imp (λ y. (h : H) × (i : ℕ) × (y.1 ≡ k + 1 + i) × (get_elem? xs i ≡ some (y.0, h)))
        (λ y. (h : H) × (i : ℕ) × (y.1 ≡ k + i) × (get_elem? ((s, hyp) ∷ xs) i ≡ some (y.0, h)))
        (λ y e. (e.0, suc e.1, omega (arith, e.2), e.3)) (scores_from (k + 1) xs)
        (scores_from-found (k + 1) xs),
  )

  -- All scores but the one at place `i` meet `R`, so those that are left do when it is deleted.
  pub delete_at-All :
      (R : X → Type 0) (i k : ℕ) (xs : List (X × H))
      → All (λ y. (y.1 ≡ k + i) ⊎ R y.0) (scores_from k xs)
      → All (λ x. R x.0) (delete_at i xs)
  unfolding scores_from delete_at
  delete_at-All R i k [] h = tt
  delete_at-All R zero k ((s, hyp) ∷ xs) h = scores_from-All R (k + 1) xs (
      All-imp (λ y. (y.1 ≡ k + 0) ⊎ R y.0) (λ y. (y.1 < k + 1) ⊎ R y.0)
        (λ y e. left_imp e (λ same. omega arith)) (scores_from (k + 1) xs) h.1)
  delete_at-All R (suc i) k ((s, hyp) ∷ xs) h = (
    surely h.0 (λ same. omega arith),
    delete_at-All R i (k + 1) xs (
        All-imp (λ y. (y.1 ≡ k + suc i) ⊎ R y.0) (λ y. (y.1 ≡ k + 1 + i) ⊎ R y.0)
          (λ y e. left_imp e (λ same. omega arith)) (scores_from (k + 1) xs) h.1),
  )

  pub delete_at-keeps :
      (Q : X × H → Type 0) (i : ℕ) (xs : List (X × H)) → All Q xs → All Q (delete_at i xs)
  unfolding delete_at
  delete_at-keeps Q i [] h = tt
  delete_at-keeps Q zero (x ∷ xs) h = h.1
  delete_at-keeps Q (suc i) (x ∷ xs) h = (h.0, delete_at-keeps Q i xs h.1)

  -- Nothing is lost but the element that is deleted.
  pub delete_at-Perm :
      (i : ℕ) (xs : List (X × H)) (d : X × H)
      → get_elem? xs i ≡ some d
      → Perm (delete_at i xs ++ d ∷ []) xs
  unfolding delete_at
  delete_at-Perm i [] d e = cc
  delete_at-Perm zero (x ∷ xs) d e =
      subst (λ y. Perm (xs ++ y ∷ []) (x ∷ xs)) (some_inj e) (perm_append_singleton x xs)
  delete_at-Perm (suc i) (x ∷ xs) d e = Perm.cons x (delete_at-Perm i xs d e)

  pub length-delete_at :
      (i : ℕ) (xs : List (X × H)) → i < length xs → suc (length (delete_at i xs)) ≡ length xs
  unfolding delete_at
  length-delete_at i [] h = absurd (omega arith)
  length-delete_at zero (x ∷ xs) h = refl
  length-delete_at (suc i) (x ∷ xs) h = ap suc (length-delete_at i xs (omega arith))

  pub length-scores_from : (k : ℕ) (xs : List (X × H)) → length (scores_from k xs) ≡ length xs
  unfolding scores_from
  length-scores_from k [] = refl
  length-scores_from k (x ∷ xs) = ap suc (length-scores_from (k + 1) xs)

  pub scores_from-kept :
      (R : X → Type 0) (k : ℕ) (xs : List (X × H))
      → All (λ x. R x.0) xs
      → All (λ y. R y.0) (scores_from k xs)
  unfolding scores_from
  scores_from-kept R k [] h = tt
  scores_from-kept R k (x ∷ xs) h = (h.0, scores_from-kept R (k + 1) xs h.1)
