-- ===== src/DictUtils/Tests.antt =====
-- Small state dictionaries: keys are numbers, and so are leaves.
use mathlib.Core.List.{Perm}
use megatron_lm.Prelude.{
  not, ℕ, ◌+◌, ◌==◌, ltb, Bool, true, false, ◌≡◌, refl, ◌++◌, ok, raise, value_error,
}
use megatron_lm.DictUtils.{
  not, Value, leaf, list, dict, nil, cons, end, field, nested_values, find, assign, merge, items_of,
  no_items, no_fields, put_if, gathered, keep_leaf, keep_parts, extract_fields,
  extract_matching_values, dict_list_map_outplace,
}
use megatron_lm.DictUtils.Extract.{extract_matching_values-Splits, keep}
use megatron_lm.DictUtils.Merge.{merge-Perm}

-- `{1: 7, 2: [3, 9, {}], 3: {}}`
abbrev state : Value ℕ ℕ
state = dict (
    field 1 (leaf 7) (
      field 2 (list (cons (leaf 3) (cons (leaf 9) (cons (dict end) nil))))
        (field 3 (dict end) end)))

abbrev big : Value ℕ ℕ → Bool
big (leaf a) = ltb 5 a
big v = false

extract_state :
    extract_matching_values (λ i. i) big true state
    ≡ ok (
      dict (field 1 (leaf 7) (field 2 (dict (field 1 (leaf 9) end)) end)),
      dict (field 2 (dict (field 0 (leaf 3) (field 2 (dict end) end))) (field 3 (dict end) end)),
    )
unfolding extract_matching_values extract_fields gathered keep_leaf keep_parts no_fields no_items
    put_if items_of
extract_state = refl

abbrev left : Value ℕ ℕ
left = dict (field 1 (leaf 7) (field 2 (dict (field 1 (leaf 9) end)) end))

abbrev right : Value ℕ ℕ
right = dict (field 2 (dict (field 0 (leaf 3) end)) (field 4 (leaf 2) end))

abbrev both : Value ℕ ℕ
both = dict (
    field 1 (leaf 7)
      (field 2 (dict (field 1 (leaf 9) (field 0 (leaf 3) end))) (field 4 (leaf 2) end)))

merge-both : merge (λ a b. a == b) left right ≡ ok both
unfolding merge find assign
merge-both = refl

merge_clash : merge (λ a b. a == b) left left ≡ raise value_error
unfolding merge find assign
merge_clash = refl

map_left :
    dict_list_map_outplace (λ a. a + 1) left
    ≡ dict (field 1 (leaf 8) (field 2 (dict (field 1 (leaf 10) end)) end))
unfolding dict_list_map_outplace
map_left = refl

extract_matching_values-Splits_example :
    (parts : Value ℕ ℕ × Value ℕ ℕ) × (extract_matching_values (λ i. i) big false state ≡ ok parts)
    × (nested_values parts.0 ≡ keep (λ a. big (leaf a)) (nested_values state))
    × (nested_values parts.1 ≡ keep (λ a. not (big (leaf a))) (nested_values state))
extract_matching_values-Splits_example = extract_matching_values-Splits (λ i. i) big false state tt

merge-Perm_example : Perm (nested_values both) (nested_values left ++ nested_values right)
merge-Perm_example = merge-Perm (λ a b. a == b) left right merge-both
