-- ===== src/Layers/Checkpointed.antt =====
-- Running the layers with and without activation checkpointing.
use megatron_lm.Prelude.{
  ne→==, drop-drop, leb→le, inr, false, inl, leb, true, lt→ltb, Bool-cases, Bool, ltb, le→ltb, ap,
  ◌∙◌, length-drop, refl, sym, none, zero, ◌-◌, ◌+◌, get_elem?, arith, ◌==◌, index_error, some, ◌%◌,
  [], ◌∷◌, raise, ◌≡◌, if◌then◌else◌, ok, drop, ◌<◌, ◌≤◌, Result, length, ℕ, List,
}
use megatron_lm.Layers.{
  ltb, Bool, none, index_error, get_elem?, suc, some, [], raise, ok, Result, length, ℕ, List,
  custom, uniform_loop, block_loop, checkpointed_forward, run_all, uniform, block,
}
use native.Mathlib.Nat.{add-zero, zero-mod, mod-eq-sub-mod, mod-eq_of_lt}

module _ {X : Type 0} where
  -- The first layers of a list, that many.
  run_part : ℕ → List (X → X) → X → Result X
  run_part zero ys x = ok x
  run_part (suc count) [] x = raise index_error
  run_part (suc count) (y ∷ ys) x = run_part count ys (y x)

  run_part-ok :
      (k : ℕ) (ys : List (X → X)) (x : X)
      → k ≤ length ys
      → (y : X) × (run_part k ys x ≡ ok y) × (run_all (drop k ys) y ≡ run_all ys x)
  unfolding run_part run_all
  run_part-ok zero ys x h = (x, refl, refl)
  run_part-ok (suc k) [] x h = absurd (omega arith)
  run_part-ok (suc k) (y ∷ ys) x h = run_part-ok k ys (y x) (omega arith)

  run_part-raise :
      (k : ℕ) (ys : List (X → X)) (x : X) → length ys < k → run_part k ys x ≡ raise index_error
  unfolding run_part
  run_part-raise zero ys x h = absurd (omega arith)
  run_part-raise (suc k) [] x h = refl
  run_part-raise (suc k) (y ∷ ys) x h = run_part-raise k ys (y x) (omega arith)

  drop-nil : (layers : List (X → X)) (l : ℕ) → drop l layers ≡ [] → get_elem? layers l ≡ none
  drop-nil [] l h = refl
  drop-nil (y ∷ ys) zero h = cc
  drop-nil (y ∷ ys) (suc l) h = drop-nil ys l h

  drop-cons :
      (layers : List (X → X)) (l : ℕ) (y : X → X) (ys : List (X → X))
      → drop l layers ≡ y ∷ ys
      → (get_elem? layers l ≡ some y) × (drop (l + 1) layers ≡ ys)
  drop-cons [] zero y ys h = cc
  drop-cons [] (suc l) y ys h = cc
  drop-cons (z ∷ zs) zero y ys h = (cc, cc)
  drop-cons (z ∷ zs) (suc l) y ys h =
      let (found, next) = drop-cons zs l y ys h in
      let shift : suc l + 1 ≡ suc (l + 1) = omega arith in
      (found, ap (λ t. drop t (z ∷ zs)) shift ∙ next)

module _ {X : Type 0} (layers : List (X → X)) where
  custom-eq-run_part :
      (l count : ℕ) (x : X) (ys : List (X → X))
      → drop l layers ≡ ys
      → custom layers l count x ≡ run_part count ys x
  unfolding custom run_part
  custom-eq-run_part l zero x ys h = refl
  custom-eq-run_part l (suc count) x [] h = ground (arith, drop-nil layers l h)
  custom-eq-run_part l (suc count) x (y ∷ ys) h =
      let (found, next) = drop-cons layers l y ys h in
      ground (arith, custom-eq-run_part (l + 1) count (y x) ys next)

  custom_one :
      (l : ℕ) (x : X) (y : X → X) → get_elem? layers l ≡ some y → custom layers l 1 x ≡ ok (y x)
  unfolding custom
  custom_one l x y found = ground arith

  same_branch : (b : Bool) (r : Result X) → (if b then r else r) ≡ r
  same_branch true r = refl
  same_branch false r = refl

  uniform_loop-next :
      (fuel k l : ℕ) (x y : X)
      → l < length layers
      → custom layers l k x ≡ ok y
      → uniform_loop layers (suc fuel) k l x ≡ uniform_loop layers fuel k (l + k) y
  unfolding uniform_loop
  uniform_loop-next fuel k l x y more ran = ground arith

  uniform_loop-raise :
      (fuel k l : ℕ) (x : X)
      → l < length layers
      → custom layers l k x ≡ raise index_error
      → uniform_loop layers (suc fuel) k l x ≡ some (raise index_error)
  unfolding uniform_loop
  uniform_loop-raise fuel k l x more ran = ground arith

  -- What chunks of `k` layers make of the layers `ys` that are left.
  abbrev pub in_chunks : ℕ → List (X → X) → X → Result X
  in_chunks k ys x = if length ys % k == 0 then ok (run_all ys x) else raise index_error

  uniform_loop-eq :
      (fuel k l : ℕ) (x : X) (ys : List (X → X))
      → 0 < k
      → drop l layers ≡ ys
      → length ys < fuel
      → uniform_loop layers fuel k l x ≡ some (in_chunks k ys x)
  unfolding uniform_loop run_all
  uniform_loop-eq zero k l x ys pos h enough = absurd (omega arith)
  uniform_loop-eq (suc fuel) k l x [] pos h enough =
      let left : length layers - l ≡ 0 = sym (length-drop l layers) ∙ ap length h in
      rw (le→ltb l (length layers) (omega arith), zero-mod k) refl
  uniform_loop-eq (suc fuel) k l x (y ∷ ys) pos h enough =
      let left : length layers - l ≡ suc (length ys) = sym (length-drop l layers) ∙ ap length h in
      let more : l < length layers = omega arith in
      elim (Bool-cases (leb k (suc (length ys)))) [
        | inl fits ↦
            let le : k ≤ suc (length ys) = leb→le k (suc (length ys)) fits in
            let (z, ran, same) = run_part-ok k (y ∷ ys) x le in
            let next : drop (l + k) layers ≡ drop k (y ∷ ys) =
              sym (drop-drop k l layers) ∙ ap (drop k) h in
            uniform_loop-next fuel k l x z more (custom-eq-run_part l k x (y ∷ ys) h ∙ ran)
            ∙ uniform_loop-eq fuel k (l + k) z (drop k (y ∷ ys)) pos next
                (omega (arith, length-drop k (y ∷ ys)))
            ∙ rw (length-drop k (y ∷ ys), ← mod-eq-sub-mod le, same) refl
        | inr short ↦
            let lt : suc (length ys) < k = ground arith in
            uniform_loop-raise fuel k l x more
              (custom-eq-run_part l k x (y ∷ ys) h ∙ run_part-raise k (y ∷ ys) x lt)
            ∙ rw (mod-eq_of_lt lt, ne→== (suc (length ys)) 0 (omega arith)) refl
      ]

  -- With a positive number of layers in a chunk, the forward pass with uniform recomputation
  -- terminates; it gives what the layers give one after the other, if the chunks divide the layers,
  -- and else raises an IndexError.
  pub uniform_lem :
      (k : ℕ) (x : X)
      → 0 < k
      → checkpointed_forward layers uniform k x
        ≡ some (if length layers % k == 0 then ok (run_all layers x) else raise index_error)
  unfolding checkpointed_forward
  uniform_lem k x pos = uniform_loop-eq (length layers + 1) k 0 x layers pos refl (omega arith)

  block_loop-eq :
      (k l : ℕ) (x : X) (ys : List (X → X))
      → drop l layers ≡ ys
      → block_loop layers k l (length ys) x ≡ ok (run_all ys x)
  unfolding block_loop run_all
  block_loop-eq k l x [] h = refl
  block_loop-eq k l x (y ∷ ys) h =
      let (found, next) = drop-cons layers l y ys h in
      rw (same_branch (ltb l k) (custom layers l 1 x), custom_one l x y found)
        (block_loop-eq k (l + 1) (y x) ys next)

  -- Recomputing the first layers gives what the layers give one after the other.
  pub block_lem :
      (k : ℕ) (x : X) → checkpointed_forward layers block k x ≡ some (ok (run_all layers x))
  unfolding checkpointed_forward
  block_lem k x = ap some (block_loop-eq k 0 x layers refl)

  -- With no layers in a chunk, the loop of uniform recomputation does not end on any fuel.
  pub uniform_zero :
      (fuel l : ℕ) (x : X) → l < length layers → uniform_loop layers fuel 0 l x ≡ none
  unfolding uniform_loop custom
  uniform_zero zero l x h = refl
  uniform_zero (suc fuel) l x h =
      rw (lt→ltb l (length layers) h, add-zero) (uniform_zero fuel l x h)
