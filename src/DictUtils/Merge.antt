-- ===== src/DictUtils/Merge.antt =====
-- What `merge` keeps of its two arguments.
use megatron_lm.Prelude.{
  arith, sym, refl, some_inj, inr, inl, subst, Option-cases, none, ◌++◌, some, [], Result, List,
  Bool, ◌>>=◌, ok, raise, ◌≡◌, Bool-cases,
}
use mathlib.Core.List.{[], List, Perm, perm_append_comm, append_assoc, append-nil}
use mathlib.Core.List.Perm
use megatron_lm.DictUtils.{
  none, Result, some, Bool, Value, Items, Fields, leaf, list, dict, nil, cons, end, field,
  nested_values, values_of_items, values_of_fields, find, assign, merge, merge_items, merge_fields,
}

module _ {A : Type 0} where
  -- Two lists side by side, regrouped.
  interleave : (xs ys us vs : List A) → Perm ((xs ++ ys) ++ (us ++ vs)) ((xs ++ us) ++ (ys ++ vs))
  interleave xs ys us vs =
      rw (append_assoc xs ys (us ++ vs), append_assoc xs us (ys ++ vs))
        (Perm.append_left xs (
          rw (← append_assoc ys us vs, ← append_assoc us ys vs)
            (Perm.append_right vs (perm_append_comm ys us))))

  -- What is added to the first of two lists goes to the end.
  slide : (xs vs ys : List A) → Perm ((xs ++ vs) ++ ys) ((xs ++ ys) ++ vs)
  slide xs vs ys =
      rw (append_assoc xs vs ys, append_assoc xs ys vs)
        (Perm.append_left xs (perm_append_comm vs ys))

module _ {K A : Type 0} (same : K → K → Bool) where
  -- A write exchanges the values of the entry that `find` sees.
  assign-values :
      (k : K) (u w : Value K A) (vs : List A) (fs : Fields K A)
      → find same k fs ≡ some u
      → Perm (nested_values w) (nested_values u ++ vs)
      → Perm (values_of_fields (assign same k w fs)) (values_of_fields fs ++ vs)
  unfolding find assign nested_values
  assign-values k u w vs end found h = cc
  assign-values k u w vs (field j v fs) found h = elim (Bool-cases (same j k)) [
    | inl here ↦
        let e : some v ≡ some u = rw (← found, here) refl in
        rw here (
          Perm.trans (Perm.append_right (values_of_fields fs) h)
            (rw (some_inj e) (slide (nested_values u) vs (values_of_fields fs))))
    | inr elsewhere ↦
        let rest : find same k fs ≡ some u = rw (← found, elsewhere) refl in
        rw (elsewhere, append_assoc (nested_values v) (values_of_fields fs) vs)
          (Perm.append_left (nested_values v) (assign-values k u w vs fs rest h))
  ]

  assign_new-values :
      (k : K) (w : Value K A) (fs : Fields K A)
      → find same k fs ≡ none
      → values_of_fields (assign same k w fs) ≡ values_of_fields fs ++ nested_values w
  unfolding find assign nested_values
  assign_new-values k w end absent = append-nil (nested_values w)
  assign_new-values k w (field j v fs) absent = elim (Bool-cases (same j k)) [
    | inl here ↦ let e : some v ≡ none = rw (← absent, here) refl in cc
    | inr elsewhere ↦
        let rest : find same k fs ≡ none = rw (← absent, elsewhere) refl in
        rw
          (
            elsewhere,
            append_assoc (nested_values v) (values_of_fields fs) (nested_values w),
            assign_new-values k w fs rest,
          )
          refl
  ]

  -- The values of `r`, if it returns, are those of `xs` and of `ys`, in some order.
  abbrev pub Joins : {X : Type 0} → (X → List A) → Result X → List A → List A → Type 0
  Joins values (raise e) xs ys = Unit
  Joins values (ok z) xs ys = Perm (values z) (xs ++ ys)

  Joins-wrap :
      {X : Type 0} (values : X → List A) (wrap : X → Value K A) (r : Result X) (xs ys : List A)
      → ((x : X) → nested_values (wrap x) ≡ values x)
      → Joins values r xs ys
      → Joins nested_values (r >>= (λ z. ok (wrap z))) xs ys
  Joins-wrap values wrap (raise e) xs ys same_values h = tt
  Joins-wrap values wrap (ok z) xs ys same_values h = rw (same_values z) h

  Joins-cons :
      (r : Result (Value K A)) (s : Result (Items K A)) (xs ys us vs : List A)
      → Joins nested_values r xs ys
      → Joins values_of_items s us vs
      → Joins values_of_items (r >>= (λ z. s >>= (λ zs. ok (cons z zs)))) (xs ++ us) (ys ++ vs)
  unfolding nested_values
  Joins-cons (raise e) s xs ys us vs h k = tt
  Joins-cons (ok z) (raise e) xs ys us vs h k = tt
  Joins-cons (ok z) (ok zs) xs ys us vs h k = Perm.trans (Perm.append h k) (interleave xs ys us vs)

  -- One item of the second dictionary, and then the others.
  Joins-step :
      (r : Result (Fields K A)) (new_values xs ys vs : List A)
      → Joins values_of_fields r new_values ys
      → Perm new_values (xs ++ vs)
      → Joins values_of_fields r xs (vs ++ ys)
  Joins-step (raise e) new_values xs ys vs h k = tt
  Joins-step (ok z) new_values xs ys vs h k =
      Perm.trans h (Perm.trans (Perm.append_right ys k) (rw (append_assoc xs vs ys) (Perm.refl _)))

  Joins-found :
      (k : K) (u v : Value K A) (r : Result (Value K A)) (fs gs : Fields K A)
      → find same k fs ≡ some u
      → Joins nested_values r (nested_values u) (nested_values v)
      → ((gs' : Fields K A)
          → Joins values_of_fields
              (merge_fields same gs' gs)
              (values_of_fields gs')
              (values_of_fields gs))
      → Joins values_of_fields
          (r >>= (λ w. merge_fields same (assign same k w fs) gs))
          (values_of_fields fs)
          (nested_values v ++ values_of_fields gs)
  Joins-found k u v (raise e) fs gs found h rest = tt
  Joins-found k u v (ok w) fs gs found h rest =
      Joins-step (merge_fields same (assign same k w fs) gs) _ _ _ _ (rest (assign same k w fs))
        (assign-values k u w (nested_values v) fs found h)

  abbrev Joined : Fields K A → Fields K A → Result (Fields K A) → Type 0
  Joined fs gs r = Joins values_of_fields r (values_of_fields fs) (values_of_fields gs)

  merge_fields-found :
      (k : K) (u v : Value K A) (fs gs : Fields K A)
      → find same k fs ≡ some u
      → merge_fields same fs (field k v gs)
        ≡ (merge same u v >>= (λ w. merge_fields same (assign same k w fs) gs))
  unfolding merge
  merge_fields-found k u v fs gs found = ground arith

  merge_fields-absent :
      (k : K) (v : Value K A) (fs gs : Fields K A)
      → find same k fs ≡ none
      → merge_fields same fs (field k v gs) ≡ merge_fields same (assign same k v fs) gs
  unfolding merge
  merge_fields-absent k v fs gs absent = ground arith

  mutual
    unfolding merge nested_values

    merge-values :
        (x y : Value K A) → Joins nested_values (merge same x y) (nested_values x) (nested_values y)
    merge-values (leaf a) y = tt
    merge-values (list xs) (leaf b) = tt
    merge-values (list xs) (list ys) =
        Joins-wrap values_of_items list (merge_items same xs ys) _ _ (λ x. refl)
          (merge_items-values xs ys)
    merge-values (list xs) (dict gs) = tt
    merge-values (dict fs) (leaf b) = tt
    merge-values (dict fs) (list ys) = tt
    merge-values (dict fs) (dict gs) =
        Joins-wrap values_of_fields dict (merge_fields same fs gs) _ _ (λ x. refl)
          (merge_fields-values gs fs)

    merge_items-values :
        (xs ys : Items K A)
        → Joins values_of_items (merge_items same xs ys) (values_of_items xs) (values_of_items ys)
    merge_items-values nil nil = Perm.refl []
    merge_items-values nil (cons y ys) = tt
    merge_items-values (cons x xs) nil = tt
    merge_items-values (cons x xs) (cons y ys) =
        Joins-cons (merge same x y) (merge_items same xs ys) _ _ _ _ (merge-values x y)
          (merge_items-values xs ys)

    merge_fields-values :
        (gs fs : Fields K A)
        → Joins values_of_fields
            (merge_fields same fs gs)
            (values_of_fields fs)
            (values_of_fields gs)
    merge_fields-values end fs = rw append-nil (Perm.refl (values_of_fields fs))
    merge_fields-values (field k v gs) fs = elim (Option-cases (find same k fs)) [
      | inl absent ↦ subst (Joined fs (field k v gs)) (sym (merge_fields-absent k v fs gs absent)) (
          Joins-step (merge_fields same (assign same k v fs) gs) _ _ _ _
            (merge_fields-values gs (assign same k v fs))
            (rw (assign_new-values k v fs absent) (Perm.refl _)))
      | inr (u, found) ↦
          subst (Joined fs (field k v gs)) (sym (merge_fields-found k u v fs gs found)) (
            Joins-found k u v (merge same u v) fs gs found (merge-values u v)
              (merge_fields-values gs))
    ]

  -- If `merge` returns, the result holds the leaves of both arguments, each as often as they do
  -- together.
  pub merge-Perm :
      (x y : Value K A) {z : Value K A}
      → merge same x y ≡ ok z
      → Perm (nested_values z) (nested_values x ++ nested_values y)
  merge-Perm x y {z} returned =
      subst (λ r. Joins nested_values r (nested_values x) (nested_values y)) returned
        (merge-values x y)
