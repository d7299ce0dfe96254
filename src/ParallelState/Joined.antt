-- ===== src/ParallelState/Joined.antt =====
-- The group that a rank joins when the groups stripe blocks of consecutive ranks.
use mathlib.Core.Path.{ap₂}
use megatron_lm.Prelude.{
  ◌/◌, ◌%◌, some, ◌==◌, ==→eq, ==→ne, ℕ, zero, suc, ◌+◌, ◌*◌, ◌≤◌, ◌<◌, ◌≡◌, refl, sym, subst, true,
  Option, List, [], ◌∷◌, ◌++◌, map, range_from, All, All-append, ◌⊎◌, inl, inr, Bool-cases, arith,
}
use native.Mathlib.Nat.{mod-lt, div-lt_iff_lt-mul}
use megatron_lm.Bucket.{contains}
use megatron_lm.ParallelState.{range_step, rounds, each, join}
use megatron_lm.ParallelState.Striped.{wide, stripe_of, contains-stripe, stripe_of-contains}

module _ (r : ℕ) where
  -- A group of the rank is the group `g`.
  abbrev IsOnly : List ℕ → List ℕ → Type 0
  IsOnly g h = contains r h ≡ true → h ≡ g

  -- One of the groups has the rank.
  abbrev Holds : List (List ℕ) → Type 0
  Holds [] = ⊥
  Holds (g ∷ gs) = (contains r g ≡ true) ⊎ Holds gs

  join-kept : (g : List ℕ) (gs : List (List ℕ)) → All (IsOnly g) gs → join r gs (some g) ≡ some g
  unfolding join
  join-kept g [] all = refl
  join-kept g (h ∷ gs) all = elim (Bool-cases (contains r h)) [
    | inl member ↦ rw (member, all.0 member) (join-kept g gs all.1)
    | inr other ↦ rw other (join-kept g gs all.1)
  ]

  join-found :
      (g : List ℕ) (gs : List (List ℕ)) (o : Option (List ℕ))
      → All (IsOnly g) gs
      → Holds gs
      → join r gs o ≡ some g
  unfolding join
  join-found g [] o all h = absurd h
  join-found g (h ∷ gs) o all (inl member) = rw (member, all.0 member) (join-kept g gs all.1)
  join-found g (h ∷ gs) o all (inr later) = join-found g gs _ all.1 later

  Holds-left : (gs hs : List (List ℕ)) → Holds gs → Holds (gs ++ hs)
  Holds-left [] hs h = absurd h
  Holds-left (g ∷ gs) hs (inl h) = inl h
  Holds-left (g ∷ gs) hs (inr h) = inr (Holds-left gs hs h)

  Holds-right : (gs hs : List (List ℕ)) → Holds hs → Holds (gs ++ hs)
  Holds-right [] hs h = h
  Holds-right (g ∷ gs) hs h = inr (Holds-right gs hs h)

  Holds-rounds :
      (i n k : ℕ) (f : ℕ → List (List ℕ)) → i ≤ k → k < i + n → Holds (f k) → Holds (rounds i n f)
  Holds-rounds i zero k f low high h = absurd (omega arith)
  Holds-rounds i (suc n) k f low high h = elim (Bool-cases (i == k)) [
    | inl same ↦ Holds-left (f i) _ (subst (λ k. Holds (f k)) (sym (==→eq i k same)) h)
    | inr other ↦
        let differ = ==→ne i k other in
        Holds-right (f i) _ (Holds-rounds (i + 1) n k f (omega arith) (omega arith) h)
  ]

  Holds-map :
      (i n k : ℕ) (f : ℕ → List ℕ)
      → i ≤ k
      → k < i + n
      → contains r (f k) ≡ true
      → Holds (map f (range_from i n))
  Holds-map i zero k f low high h = absurd (omega arith)
  Holds-map i (suc n) k f low high h = elim (Bool-cases (i == k)) [
    | inl same ↦ inl (subst (λ k. contains r (f k) ≡ true) (sym (==→eq i k same)) h)
    | inr other ↦
        let differ = ==→ne i k other in inr (Holds-map (i + 1) n k f (omega arith) (omega arith) h)
  ]

All-rounds :
    (P : List ℕ → Type 0) (i n : ℕ) (f : ℕ → List (List ℕ))
    → ((k : ℕ) → All P (f k))
    → All P (rounds i n f)
All-rounds P i zero f h = tt
All-rounds P i (suc n) f h = All-append P (f i) _ (h i) (All-rounds P (i + 1) n f h)

All-map-range :
    (P : List ℕ → Type 0) (i n b : ℕ) (f : ℕ → List ℕ)
    → i + n ≤ b
    → ((k : ℕ) → k < b → P (f k))
    → All P (map f (range_from i n))
All-map-range P i zero b f low h = tt
All-map-range P i (suc n) b f low h =
    (h i (omega arith), All-map-range P (i + 1) n b f (omega arith) h)

-- `p` blocks of `q * step` ranks, each in `step` stripes.
abbrev pub striped : ℕ → ℕ → ℕ → List (List ℕ)
striped p block step =
    each p λ i. map (λ j. range_step (i * block + j) ((i + 1) * block) step) (range_from 0 step)

pub join-striped :
    (p q step r : ℕ) (o : Option (List ℕ))
    → 0 < q
    → 0 < step
    → r < p * (q * step)
    → join r (striped p (q * step) step) o ≡ some (stripe_of (q * step) step r)
join-striped p q step r o pos_q pos low =
    let block = q * step in
    let big : 0 < block = omega (arith, wide q step pos_q) in
    join-found r (stripe_of block step r) (striped p block step) o
      (All-rounds _ 0 p _ (λ i. All-map-range _ 0 step step _ (omega arith) (λ j j_low member.
        let (same_i, same_j) = contains-stripe i j q step r pos_q j_low member in
        ap₂ (λ i j. range_step (i * block + j) ((i + 1) * block) step) same_i same_j)))
      (Holds-rounds r 0 p (r / block) _ (omega arith)
        (omega (arith, (div-lt_iff_lt-mul {k = q * step} {x = r} {y = p} big).1 low))
        (Holds-map r 0 step (r % block % step) _ (omega arith)
          (omega (arith, mod-lt (r % block) pos)) (stripe_of-contains q step r pos_q pos)))
