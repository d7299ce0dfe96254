-- ===== src/DictUtils.antt =====
-- megatron/core/dist_checkpointing/dict_utils.py: nested dictionaries and lists. A dictionary is the
-- list of its items in the order of insertion; a leaf is any other value. The parameters: `index`,
-- an index of a list as a key, and `same`, the equality of keys. What `merge` has already written
-- when it raises is not kept.
pub mod Extract
pub mod Merge
mod Tests
use megatron_lm.Prelude.{
  ℕ, suc, ◌+◌, Bool, true, false, not, ◌||◌, ◌==◌, if◌then◌else◌, Option, none, some, List, [], ◌∷◌,
  ◌++◌, map, Result, ok, raise, value_error, ◌>>=◌, ◌>>◌, raise_if,
}

mutual
  pub data Value (K A : Type 0) : Type 0 where
    leaf : A → Value K A
    list : Items K A → Value K A
    dict : Fields K A → Value K A

  pub data Items (K A : Type 0) : Type 0 where
    nil : Items K A
    cons : Value K A → Items K A → Items K A

  pub data Fields (K A : Type 0) : Type 0 where
    end : Fields K A
    field : K → Value K A → Fields K A → Fields K A

module _ {K A : Type 0} where
  mutual
    pub nested_values : Value K A → List A
    nested_values (leaf a) = a ∷ []
    nested_values (list xs) = values_of_items xs
    nested_values (dict fs) = values_of_fields fs

    pub values_of_items : Items K A → List A
    values_of_items nil = []
    values_of_items (cons x xs) = nested_values x ++ values_of_items xs

    pub values_of_fields : Fields K A → List A
    values_of_fields end = []
    values_of_fields (field k v fs) = nested_values v ++ values_of_fields fs

  -- `d.values()`
  pub items_of : Fields K A → Items K A
  items_of end = nil
  items_of (field k v fs) = cons v (items_of fs)

  -- `not x` of a list and of a dictionary.
  pub no_items : Items K A → Bool
  no_items nil = true
  no_items (cons x xs) = false

  pub no_fields : Fields K A → Bool
  no_fields end = true
  no_fields (field k v fs) = false

  -- `target[k] = v` behind an `if`, for a new key.
  pub put_if : Bool → K → Value K A → Fields K A → Fields K A
  put_if true k v fs = field k v fs
  put_if false k v fs = fs

module _ {K A : Type 0} (index : ℕ → K) (predicate : Value K A → Bool)
    (return_lists_as_dicts : Bool) where
  -- The container that `_set_elem` has filled.
  pub gathered : Fields K A → Value K A
  unfolding items_of
  gathered fs = if return_lists_as_dicts then dict fs else list (items_of fs)

  -- One element, with what was extracted of the others.
  pub keep_leaf : K → Value K A → Fields K A × Fields K A → Fields K A × Fields K A
  unfolding put_if
  keep_leaf k v (matching, nonmatching) =
      (put_if (predicate v) k v matching, put_if (not (predicate v)) k v nonmatching)

  -- The two parts of an element, each kept unless it is empty; `blank` is `not v`.
  pub keep_parts :
      (Fields K A → Value K A)
      → Bool
      → K
      → Fields K A × Fields K A
      → Fields K A × Fields K A
      → Fields K A × Fields K A
  unfolding put_if no_fields
  keep_parts wrap blank k (match, nonmatch) (matching, nonmatching) = (
    put_if (not (no_fields match)) k (wrap match) matching,
    put_if (not (no_fields nonmatch) || blank) k (wrap nonmatch) nonmatching,
  )

  mutual
    unfolding gathered keep_leaf keep_parts no_fields no_items

    pub extract_fields : Fields K A → Fields K A × Fields K A
    extract_fields end = (end, end)
    extract_fields (field k (leaf a) fs) = keep_leaf k (leaf a) (extract_fields fs)
    extract_fields (field k (list xs) fs) =
        keep_parts gathered (no_items xs) k (extract_items 0 xs) (extract_fields fs)
    extract_fields (field k (dict gs) fs) =
        keep_parts dict (no_fields gs) k (extract_fields gs) (extract_fields fs)

    -- `enumerate` from an index on. An empty container counts as a leaf.
    pub extract_items : ℕ → Items K A → Fields K A × Fields K A
    extract_items i nil = (end, end)
    extract_items i (cons (leaf a) xs) = keep_leaf (index i) (leaf a) (extract_items (i + 1) xs)
    extract_items i (cons (list ys) xs) =
        if no_items ys
        then keep_leaf (index i) (list ys) (extract_items (i + 1) xs)
        else keep_parts gathered false (index i) (extract_items 0 ys) (extract_items (i + 1) xs)
    extract_items i (cons (dict gs) xs) =
        if no_fields gs
        then keep_leaf (index i) (dict gs) (extract_items (i + 1) xs)
        else keep_parts dict false (index i) (extract_fields gs) (extract_items (i + 1) xs)

  pub extract_matching_values : Value K A → Result (Value K A × Value K A)
  unfolding extract_fields gathered
  extract_matching_values (leaf a) = raise value_error
  extract_matching_values (list xs) =
      let (match, nonmatch) = extract_items 0 xs in ok (gathered match, gathered nonmatch)
  extract_matching_values (dict fs) =
      let (match, nonmatch) = extract_fields fs in ok (dict match, dict nonmatch)

-- `return {k: f(v) ...}`, and so on.
module _ {K A B : Type 0} (f : A → B) where
  mutual
    pub dict_list_map_outplace : Value K A → Value K B
    dict_list_map_outplace (leaf a) = leaf (f a)
    dict_list_map_outplace (list xs) = list (map_items xs)
    dict_list_map_outplace (dict fs) = dict (map_fields fs)

    pub map_items : Items K A → Items K B
    map_items nil = nil
    map_items (cons x xs) = cons (dict_list_map_outplace x) (map_items xs)

    pub map_fields : Fields K A → Fields K B
    map_fields end = end
    map_fields (field k v fs) = field k (dict_list_map_outplace v) (map_fields fs)

module _ {K A : Type 0} (same : K → K → Bool) where
  -- `x1[k]`, if `k in x1`.
  pub find : K → Fields K A → Option (Value K A)
  find k end = none
  find k (field j v fs) = if same j k then some v else find k fs

  -- `x1[k] = v`
  pub assign : K → Value K A → Fields K A → Fields K A
  assign k v end = field k v end
  assign k v (field j w fs) = if same j k then field j v fs else field j w (assign k v fs)

  mutual
    unfolding find assign

    pub merge : Value K A → Value K A → Result (Value K A)
    merge (leaf a) y = raise value_error
    merge (list xs) (leaf b) = raise value_error
    merge (list xs) (list ys) = merge_items xs ys >>= (λ zs. ok (list zs))
    merge (list xs) (dict gs) = raise value_error
    merge (dict fs) (leaf b) = raise value_error
    merge (dict fs) (list ys) = raise value_error
    merge (dict fs) (dict gs) = merge_fields fs gs >>= (λ hs. ok (dict hs))

    -- Lists of different lengths raise.
    pub merge_items : Items K A → Items K A → Result (Items K A)
    merge_items nil nil = ok nil
    merge_items nil (cons y ys) = raise value_error
    merge_items (cons x xs) nil = raise value_error
    merge_items (cons x xs) (cons y ys) =
        merge x y >>= (λ z. merge_items xs ys >>= (λ zs. ok (cons z zs)))

    pub merge_fields : Fields K A → Fields K A → Result (Fields K A)
    merge_fields fs end = ok fs
    merge_fields fs (field k v gs) = elim (find k fs) [
      | none ↦ merge_fields (assign k v fs) gs
      | some u ↦ merge u v >>= (λ w. merge_fields (assign k w fs) gs)
    ]
