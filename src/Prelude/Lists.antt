-- ===== src/Prelude/Lists.antt =====
-- Lists measured and indexed by native numbers, under the library's names.
use Prim.Native.Nat.{◌≤◌, ℕ, zero, suc, ◌+◌, ◌-◌, ◌<◌, min}
use mathlib.Core.Path.{◌≡◌, refl, ap, ap₂, ◌∙◌}
use mathlib.Core.List.{map, List, [], ◌∷◌, ◌++◌}
use mathlib.Core.Option.{Option, none, some}
use native.Mathlib.Nat.{
  zero-add, suc-add, add-zero, sub-zero, zero-sub, zero-min, min-zero, suc-min-suc,
}
use native.Mathlib.Omega.{arith}

module _ {ℓ} {A : Type ℓ} where
  abbrev pub length : List A → ℕ
  length [] = 0
  length (x ∷ xs) = suc (length xs)

  abbrev pub get_elem? : List A → ℕ → Option A
  get_elem? [] i = none
  get_elem? (x ∷ xs) zero = some x
  get_elem? (x ∷ xs) (suc i) = get_elem? xs i

  abbrev pub take : ℕ → List A → List A
  take zero xs = []
  take (suc n) [] = []
  take (suc n) (x ∷ xs) = x ∷ take n xs

  abbrev pub drop : ℕ → List A → List A
  drop zero xs = xs
  drop (suc n) [] = []
  drop (suc n) (x ∷ xs) = drop n xs

  -- A predicate on every element, by recursion.
  abbrev pub All {κ} : (A → Type κ) → List A → Type κ
  All P [] = Unit
  All P (first ∷ others) = P first × All P others

  pub length-append : (xs ys : List A) → length (xs ++ ys) ≡ length xs + length ys
  length-append [] ys = omega arith
  length-append (x ∷ xs) ys = omega (arith, length-append xs ys)

  pub length-drop : (n : ℕ) (xs : List A) → length (drop n xs) ≡ length xs - n
  length-drop zero xs = omega arith
  length-drop (suc n) [] = omega arith
  length-drop (suc n) (x ∷ xs) = omega (arith, length-drop n xs)

  pub length-take : (n : ℕ) (xs : List A) → length (take n xs) ≡ min n (length xs)
  length-take zero xs = omega arith
  length-take (suc n) [] = omega arith
  length-take (suc n) (x ∷ xs) = omega (arith, length-take n xs)

  pub All-append {κ} : (P : A → Type κ) (xs ys : List A) → All P xs → All P ys → All P (xs ++ ys)
  All-append P [] ys left right = right
  All-append P (x ∷ xs) ys (head, left) right = (head, All-append P xs ys left right)

-- `list(range(start, start + n))`
abbrev pub range_from : ℕ → ℕ → List ℕ
range_from start zero = []
range_from start (suc n) = start ∷ range_from (start + 1) n

pub length-range_from : (start n : ℕ) → length (range_from start n) ≡ n
length-range_from start zero = refl
length-range_from start (suc n) = ap suc (length-range_from (start + 1) n)

pub range_from-snoc :
    (start n : ℕ) → range_from start n ++ (start + n) ∷ [] ≡ range_from start (suc n)
range_from-snoc start zero = rw add-zero
range_from-snoc start (suc n) =
    ap (λ l. start ∷ l) (rw (← range_from-snoc (start + 1) n) (rw (regroup start n)))
  where
    regroup : (a b : ℕ) → a + suc b ≡ a + 1 + b
    regroup a b = omega arith

pub drop-range_from : (k start n : ℕ) → drop k (range_from start n) ≡ range_from (start + k) (n - k)
drop-range_from zero start n = rw (add-zero, sub-zero)
drop-range_from (suc k) start zero = rw zero-sub
drop-range_from (suc k) start (suc n) = drop-range_from k (start + 1) n ∙ shift
  where
    shift : range_from (start + 1 + k) (n - k) ≡ range_from (start + suc k) (suc n - suc k)
    shift = ap₂ range_from (omega arith) (omega arith)

pub take-range_from : (k start n : ℕ) → take k (range_from start n) ≡ range_from start (min k n)
take-range_from zero start n = rw zero-min
take-range_from (suc k) start zero = rw min-zero
take-range_from (suc k) start (suc n) = rw (suc-min-suc, take-range_from k (start + 1) n)

pub get_elem?-range_from :
    (start n k : ℕ) → k < n → get_elem? (range_from start n) k ≡ some (start + k)
get_elem?-range_from start zero k h = absurd (omega arith)
get_elem?-range_from start (suc n) zero h = rw add-zero
get_elem?-range_from start (suc n) (suc k) h =
    get_elem?-range_from (start + 1) n k (omega arith) ∙ ap some (omega arith)

module _ {ℓ} {A : Type ℓ} where
  pub get_elem?-lt : (xs : List A) (k : ℕ) {x : A} → get_elem? xs k ≡ some x → k < length xs
  get_elem?-lt [] k h = cc
  get_elem?-lt (x ∷ xs) zero h = omega arith
  get_elem?-lt (x ∷ xs) (suc k) h = omega (arith, get_elem?-lt xs k h)

  -- `xs[start:end]`
  abbrev pub slice : ℕ → ℕ → List A → List A
  slice start end xs = take (end - start) (drop start xs)

module _ {ℓ} {A : Type ℓ} where
  pub get_elem?-append :
      (xs ys : List A) (k : ℕ) {x : A} → get_elem? xs k ≡ some x → get_elem? (xs ++ ys) k ≡ some x
  get_elem?-append [] ys k h = cc
  get_elem?-append (x ∷ xs) ys zero h = h
  get_elem?-append (x ∷ xs) ys (suc k) h = get_elem?-append xs ys k h

module _ {ℓ κ} {A : Type ℓ} (P : A → Type κ) where
  pub All-drop : (k : ℕ) (xs : List A) → All P xs → All P (drop k xs)
  All-drop zero xs h = h
  All-drop (suc k) [] h = tt
  All-drop (suc k) (x ∷ xs) h = All-drop k xs h.1

  pub All-imp {μ} : (Q : A → Type μ) → ((x : A) → P x → Q x) → (xs : List A) → All P xs → All Q xs
  All-imp Q f [] h = tt
  All-imp Q f (x ∷ xs) h = (f x h.0, All-imp Q f xs h.1)

  pub All-map {μ} :
      {B : Type μ} (f : B → A) (xs : List B) → All (λ x. P (f x)) xs → All P (map f xs)
  All-map f [] h = tt
  All-map f (x ∷ xs) h = (h.0, All-map f xs h.1)

module _ {ℓ} {A : Type ℓ} where
  pub take-append-take : (a b : ℕ) (xs : List A) → take a xs ++ take b (drop a xs) ≡ take (a + b) xs
  take-append-take zero b xs = rw zero-add
  take-append-take (suc a) zero [] = rw add-zero
  take-append-take (suc a) (suc b) [] = rw suc-add
  take-append-take (suc a) b (x ∷ xs) = rw (suc-add, take-append-take a b xs)

  pub drop-drop : (a b : ℕ) (xs : List A) → drop a (drop b xs) ≡ drop (b + a) xs
  drop-drop a zero xs = rw zero-add
  drop-drop zero (suc b) [] = rw add-zero
  drop-drop (suc a) (suc b) [] = rw suc-add
  drop-drop a (suc b) (x ∷ xs) = rw (suc-add, drop-drop a b xs)

  pub take_all : (n : ℕ) (xs : List A) → length xs ≤ n → take n xs ≡ xs
  take_all zero [] h = refl
  take_all (suc n) [] h = refl
  take_all zero (x ∷ xs) h = absurd (omega arith)
  take_all (suc n) (x ∷ xs) h = rw (take_all n xs (omega arith))

  pub take-append_left : (n : ℕ) (xs ys : List A) → n ≡ length xs → take n (xs ++ ys) ≡ xs
  take-append_left zero [] ys h = refl
  take-append_left (suc n) [] ys h = absurd (omega arith)
  take-append_left zero (x ∷ xs) ys h = absurd (omega arith)
  take-append_left (suc n) (x ∷ xs) ys h = rw (take-append_left n xs ys (omega arith))

  pub drop-append_left : (n : ℕ) (xs ys : List A) → n ≡ length xs → drop n (xs ++ ys) ≡ ys
  drop-append_left zero [] ys h = refl
  drop-append_left (suc n) [] ys h = absurd (omega arith)
  drop-append_left zero (x ∷ xs) ys h = absurd (omega arith)
  drop-append_left (suc n) (x ∷ xs) ys h = drop-append_left n xs ys (omega arith)

  pub length-map {κ} : {B : Type κ} (f : A → B) (xs : List A) → length (map f xs) ≡ length xs
  length-map f [] = refl
  length-map f (x ∷ xs) = ap suc (length-map f xs)

  pub get_elem?-map {κ} :
      {B : Type κ} (f : A → B) (xs : List A) (k : ℕ) {x : A}
      → get_elem? xs k ≡ some x
      → get_elem? (map f xs) k ≡ some (f x)
  get_elem?-map f [] k h = cc
  get_elem?-map f (x ∷ xs) zero h = cc
  get_elem?-map f (x ∷ xs) (suc k) h = get_elem?-map f xs k h

  pub get_elem?-some : (xs : List A) (k : ℕ) → k < length xs → (x : A) × (get_elem? xs k ≡ some x)
  get_elem?-some [] k h = absurd (omega arith)
  get_elem?-some (x ∷ xs) zero h = (x, refl)
  get_elem?-some (x ∷ xs) (suc k) h = get_elem?-some xs k (omega arith)

  pub get_elem?-snoc : (xs : List A) (x : A) → get_elem? (xs ++ x ∷ []) (length xs) ≡ some x
  get_elem?-snoc [] x = refl
  get_elem?-snoc (y ∷ xs) x = get_elem?-snoc xs x
