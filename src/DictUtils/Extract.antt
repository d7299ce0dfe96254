-- ===== src/DictUtils/Extract.antt =====
-- What `extract_matching_values` keeps.
use megatron_lm.Prelude.{
  if◌then◌else◌, inr, [], arith, ◌++◌, inl, ◌∙◌, ◌∷◌, ◌||◌, List, false, true, Bool-cases, ok, not,
  refl, ◌≡◌, Bool, ℕ, ◌+◌,
}
use megatron_lm.DictUtils.{
  ◌∷◌, [], not, List, false, true, ok, Bool, Value, Items, Fields, leaf, list, dict, nil, cons, end,
  field, nested_values, values_of_items, values_of_fields, items_of, no_items, no_fields, put_if,
  gathered, keep_leaf, keep_parts, extract_fields, extract_items, extract_matching_values,
}

not-false : (b : Bool) → not b ≡ false → b ≡ true
not-false b h = ground arith

or_false : (a b : Bool) → a || b ≡ false → a ≡ false
or_false a b h = ground arith

module _ {A : Type 0} where
  -- The elements that pass a test, in order.
  abbrev pub keep : (A → Bool) → List A → List A
  keep test [] = []
  keep test (x ∷ xs) = if test x then x ∷ keep test xs else keep test xs

  pub keep-append :
      (test : A → Bool) (xs ys : List A) → keep test (xs ++ ys) ≡ keep test xs ++ keep test ys
  keep-append test [] ys = refl
  keep-append test (x ∷ xs) ys = elim (Bool-cases (test x)) [
    | inl h ↦ rw (h, keep-append test xs ys) refl
    | inr h ↦ rw (h, keep-append test xs ys) refl
  ]

module _ {K A : Type 0} where
  pub values_of_items-items_of :
      (fs : Fields K A) → values_of_items (items_of fs) ≡ values_of_fields fs
  unfolding items_of nested_values
  values_of_items-items_of end = refl
  values_of_items-items_of (field k v fs) = rw (values_of_items-items_of fs) refl

  no_fields-values : (fs : Fields K A) → no_fields fs ≡ true → values_of_fields fs ≡ []
  unfolding no_fields nested_values
  no_fields-values end h = refl
  no_fields-values (field k v fs) h = cc

  no_items-values : (xs : Items K A) → no_items xs ≡ true → values_of_items xs ≡ []
  unfolding no_items nested_values
  no_items-values nil h = refl
  no_items-values (cons x xs) h = cc

  -- An element that is left out holds no values.
  put_if-values :
      (b : Bool) (k : K) (v : Value K A) (fs : Fields K A)
      → (b ≡ false → nested_values v ≡ [])
      → values_of_fields (put_if b k v fs) ≡ nested_values v ++ values_of_fields fs
  unfolding put_if nested_values
  put_if-values true k v fs h = refl
  put_if-values false k v fs h = rw (h refl) refl

module _ {K A : Type 0} (index : ℕ → K) (predicate : Value K A → Bool)
    (return_lists_as_dicts : Bool) where
  abbrev pub matches : A → Bool
  matches a = predicate (leaf a)

  abbrev pub fails : A → Bool
  fails a = not (predicate (leaf a))

  -- The first part holds the values that match, and the second one those that do not.
  abbrev pub Splits : Fields K A × Fields K A → List A → Type 0
  Splits (m, n) xs = (values_of_fields m ≡ keep matches xs) × (values_of_fields n ≡ keep fails xs)

  pub gathered-values :
      (fs : Fields K A)
      → nested_values (gathered index predicate return_lists_as_dicts fs) ≡ values_of_fields fs
  unfolding gathered nested_values
  gathered-values fs = elim (Bool-cases return_lists_as_dicts) [
    | inl h ↦ rw h refl
    | inr h ↦ rw h (unfold nested_values in values_of_items-items_of fs)
  ]

  keep_leaf-Splits :
      (k : K) (a : A) (rest : Fields K A × Fields K A) (xs : List A)
      → Splits rest xs
      → Splits (keep_leaf index predicate return_lists_as_dicts k (leaf a) rest) (a ∷ xs)
  unfolding keep_leaf put_if nested_values
  keep_leaf-Splits k a (m, n) xs (hm, hn) = elim (Bool-cases (predicate (leaf a))) [
    | inl h ↦ (rw (h, hm) refl, rw (h, hn) refl)
    | inr h ↦ (rw (h, hm) refl, rw (h, hn) refl)
  ]

  keep_blank-Splits :
      (k : K) (v : Value K A) (rest : Fields K A × Fields K A) (xs : List A)
      → nested_values v ≡ []
      → Splits rest xs
      → Splits (keep_leaf index predicate return_lists_as_dicts k v rest) xs
  unfolding keep_leaf
  keep_blank-Splits k v (m, n) xs blank (hm, hn) = (
    put_if-values (predicate v) k v m (λ h. blank) ∙ rw (blank, hm) refl,
    put_if-values (not (predicate v)) k v n (λ h. blank) ∙ rw (blank, hn) refl,
  )

  -- An element that holds `ys`, in front of others that hold `xs`.
  keep_parts-Splits :
      (wrap : Fields K A → Value K A) (blank : Bool) (k : K) (parts rest : Fields K A × Fields K A)
      (ys xs : List A)
      → ((fs : Fields K A) → nested_values (wrap fs) ≡ values_of_fields fs)
      → Splits parts ys
      → Splits rest xs
      → Splits (keep_parts index predicate return_lists_as_dicts wrap blank k parts rest) (ys ++ xs)
  unfolding keep_parts
  keep_parts-Splits wrap blank k (m, n) (ms, ns) ys xs wrapped (hm, hn) (hms, hns) = (
    put_if-values (not (no_fields m)) k (wrap m) ms
          (λ h. wrapped m ∙ no_fields-values m (not-false _ h))
        ∙ rw (wrapped m, hm, hms, keep-append matches ys xs) refl,
    put_if-values (not (no_fields n) || blank) k (wrap n) ns
          (λ h. wrapped n ∙ no_fields-values n (not-false _ (or_false _ _ h)))
        ∙ rw (wrapped n, hn, hns, keep-append fails ys xs) refl,
  )

  abbrev of_fields : Fields K A → Fields K A × Fields K A
  of_fields = extract_fields index predicate return_lists_as_dicts

  abbrev of_items : ℕ → Items K A → Fields K A × Fields K A
  of_items = extract_items index predicate return_lists_as_dicts

  abbrev wrapped : Fields K A → Value K A
  wrapped = gathered index predicate return_lists_as_dicts

  mutual
    unfolding extract_fields nested_values

    extract_fields-Splits : (fs : Fields K A) → Splits (of_fields fs) (values_of_fields fs)
    extract_fields-Splits end = (refl, refl)
    extract_fields-Splits (field k (leaf a) fs) =
        keep_leaf-Splits k a (of_fields fs) (values_of_fields fs) (extract_fields-Splits fs)
    extract_fields-Splits (field k (list xs) fs) =
        keep_parts-Splits wrapped (no_items xs) k (of_items 0 xs) (of_fields fs)
          (values_of_items xs) (values_of_fields fs) gathered-values (extract_items-Splits 0 xs)
          (extract_fields-Splits fs)
    extract_fields-Splits (field k (dict gs) fs) =
        keep_parts-Splits dict (no_fields gs) k (of_fields gs) (of_fields fs) (values_of_fields gs)
          (values_of_fields fs) (λ hs. refl) (extract_fields-Splits gs) (extract_fields-Splits fs)

    extract_items-Splits : (i : ℕ) (xs : Items K A) → Splits (of_items i xs) (values_of_items xs)
    extract_items-Splits i nil = (refl, refl)
    extract_items-Splits i (cons (leaf a) xs) =
        keep_leaf-Splits (index i) a (of_items (i + 1) xs) (values_of_items xs)
          (extract_items-Splits (i + 1) xs)
    extract_items-Splits i (cons (list ys) xs) =
        let rest = extract_items-Splits (i + 1) xs in
        let inner = extract_items-Splits 0 ys in
        elim (Bool-cases (no_items ys)) [
          | inl h ↦
              rw (h, no_items-values ys h)
                (keep_blank-Splits (index i) (list ys) (of_items (i + 1) xs) (values_of_items xs)
                  (no_items-values ys h) rest)
          | inr h ↦ rw h (
              keep_parts-Splits wrapped false (index i) (of_items 0 ys) (of_items (i + 1) xs)
                (values_of_items ys) (values_of_items xs) gathered-values inner rest)
        ]
    extract_items-Splits i (cons (dict gs) xs) =
        let rest = extract_items-Splits (i + 1) xs in
        let inner = extract_fields-Splits gs in
        elim (Bool-cases (no_fields gs)) [
          | inl h ↦
              rw (h, no_fields-values gs h)
                (keep_blank-Splits (index i) (dict gs) (of_items (i + 1) xs) (values_of_items xs)
                  (no_fields-values gs h) rest)
          | inr h ↦ rw h (
              keep_parts-Splits dict false (index i) (of_fields gs) (of_items (i + 1) xs)
                (values_of_fields gs) (values_of_items xs) (λ hs. refl) inner rest)
        ]

  -- The value is a dictionary or a list.
  abbrev pub IsContainer : Value K A → Type 0
  IsContainer (leaf a) = ⊥
  IsContainer v = Unit

  -- On a dictionary or a list, whatever the shape of the result, `extract_matching_values` returns
  -- two containers, of which the first holds the leaves that match the predicate, and the second
  -- those that do not, each in the order in which they were.
  pub extract_matching_values-Splits :
      (x : Value K A)
      → IsContainer x
      → (parts : Value K A × Value K A) × (extract_matching_values index predicate
            return_lists_as_dicts x
          ≡ ok parts)
        × (nested_values parts.0 ≡ keep matches (nested_values x))
        × (nested_values parts.1 ≡ keep fails (nested_values x))
  unfolding extract_matching_values nested_values
  extract_matching_values-Splits (leaf a) h = absurd h
  extract_matching_values-Splits (list xs) h =
      let (hm, hn) = extract_items-Splits 0 xs in
      (_, refl, gathered-values (of_items 0 xs).0 ∙ hm, gathered-values (of_items 0 xs).1 ∙ hn)
  extract_matching_values-Splits (dict fs) h =
      let (hm, hn) = extract_fields-Splits fs in (_, refl, hm, hn)
