-- ===== src/Layers/Numbers.antt =====
-- Ranges of layer numbers, cut into equal parts.
use megatron_lm.Prelude.{
  ◌∙◌, arith, ◌∷◌, ap, ℕ, zero, suc, ◌+◌, ◌*◌, ◌≡◌, refl, List, [], ◌++◌, map, range_from,
}
use mathlib.Core.Path.{ap, ap₂}
use native.Mathlib.Nat.{add-zero, zero-add, suc-add, zero-mul}

-- `f 0 + f 1 + ...`, for `n` lists.
abbrev pub joined : (ℕ → List ℕ) → ℕ → List ℕ
joined f zero = []
joined f (suc n) = joined f n ++ f n

pub range_from-append : (a n k : ℕ) → range_from a n ++ range_from (a + n) k ≡ range_from a (n + k)
range_from-append a zero k = rw (add-zero, zero-add) refl
range_from-append a (suc n) k = rw suc-add (
    ap (λ l. a ∷ l)
      (ap (λ t. range_from (a + 1) n ++ range_from t k) (omega arith)
        ∙ range_from-append (a + 1) n k))

-- Equal parts that follow one another make up a range.
pub joined-range_from :
    (f : ℕ → List ℕ) (a m n : ℕ)
    → ((i : ℕ) → f i ≡ range_from (a + i * m) m)
    → joined f n ≡ range_from a (n * m)
joined-range_from f a m zero h = rw zero-mul refl
joined-range_from f a m (suc n) h =
    rw (joined-range_from f a m n h, h n, range_from-append a (n * m) m)
      (ap (range_from a) (grind arith))

pub map-range_from : (k a n : ℕ) → map (λ i. i + 1 + k) (range_from a n) ≡ range_from (a + k + 1) n
map-range_from k a zero = refl
map-range_from k a (suc n) =
    ap₂ (λ (x : ℕ) l. x ∷ l) (omega arith)
      (map-range_from k (a + 1) n ∙ ap (λ t. range_from t n) (omega arith))
