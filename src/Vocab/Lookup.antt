-- ===== src/Vocab/Lookup.antt =====
-- Looking rows up, in the table and in a part of it.
use megatron_lm.Bucket.{index}
use megatron_lm.Prelude.{
  length-drop, length-take, ◌≤◌, ◌>>=◌, drop, slice, take, ◌-◌, Result, arith, length, get_elem?,
  ap, ◌&&◌, List, ◌<◌, Bool, [], ◌∷◌, true, false, ◌∙◌, ◌+◌, leb, ◌||◌, ◌≡◌, ℕ, zero, suc, refl,
  some, ok,
}
use mathlib.Core.Path.{ap}
use megatron_lm.Vocab.{index}

pub both_true : (a b : Bool) → (a && b) ≡ true → (a ≡ true) × (b ≡ true)
both_true true b h = (refl, h)
both_true false b h = absurd (cc)

pub neither : (a b : Bool) → a || b ≡ false → (a ≡ false) × (b ≡ false)
neither false b h = (refl, h)
neither true b h = absurd (cc)

pub leb_false→lt : (a b : ℕ) → leb a b ≡ false → b < a
leb_false→lt a b h = ground arith

pub lt→leb : (a b : ℕ) → b < a → leb a b ≡ false
lt→leb a b h = ground arith

module _ {A : Type 0} where
  get_elem?-drop : (k i : ℕ) (xs : List A) → get_elem? (drop k xs) i ≡ get_elem? xs (k + i)
  get_elem?-drop zero i xs = ap (get_elem? xs) (omega arith)
  get_elem?-drop (suc k) i [] = refl
  get_elem?-drop (suc k) i (x ∷ xs) =
      get_elem?-drop k i xs
      ∙ ap (get_elem? (x ∷ xs)) {x = suc (k + i)} {y = suc k + i} (omega arith)

  get_elem?-take : (k i : ℕ) (xs : List A) → i < k → get_elem? (take k xs) i ≡ get_elem? xs i
  get_elem?-take zero i xs h = absurd (omega arith)
  get_elem?-take (suc k) i [] h = refl
  get_elem?-take (suc k) zero (x ∷ xs) h = refl
  get_elem?-take (suc k) (suc i) (x ∷ xs) h = get_elem?-take k i xs (omega arith)

  pub get_elem?-slice :
      (start end i : ℕ) (xs : List A)
      → i < end - start
      → get_elem? (slice start end xs) i ≡ get_elem? xs (start + i)
  get_elem?-slice start end i xs h =
      get_elem?-take (end - start) i (drop start xs) h ∙ get_elem?-drop start i xs

  -- The embedding with the whole table.
  unfoldable pub embed : List A → List ℕ → Result (List A)
  embed table [] = ok []
  embed table (token ∷ input) = do
    row ← index table token
    rows ← embed table input
    ok (row ∷ rows)

pub index-ok :
    {A : Type 0} (xs : List A) (i : ℕ) {x : A} → get_elem? xs i ≡ some x → index xs i ≡ ok x
index-ok xs i h = rw (index, h) refl

pub length-slice :
    {A : Type 0} (start size : ℕ) (xs : List A)
    → start + size ≤ length xs
    → length (slice start (start + size) xs) ≡ size
length-slice start size xs h =
    omega (arith, length-take (start + size - start) (drop start xs), length-drop start xs)
