-- ===== src/Tests/Ranges.antt =====
-- fuzzy_log_util/src/range_tree.rs at concrete inputs.
use delos_rust.Prelude.{ℕ, ◌≡◌, refl, true, [], ◌∷◌, arith, ◌==◌, u64_max, ok, Returns}
use delos_rust.Util.Range
use delos_rust.Util.Range.{range, new, spans, merge_with, trim_out, split_at, cmp, contains, point}
use delos_rust.Util.RangeMap.{Tree, find_entry, insert, remove_entry}
use delos_rust.Util.RangeTree.{
  Mergeable, default_mergeable, set_point_as, set_range_as, remove_from_map_if, remove_from_map,
  with_default_val, tree_invariant, place, merge_both, try_merge_with_next, try_merge_with_prior,
  range_loop, replace_range, absorb,
}
use delos_rust.Util.RangeTree.Tiling.{IsTiling}
use delos_rust.Util.RangeTree.Merge.{IsLawful}
use delos_rust.Util.RangeTree.Point.{PointSet, set_point_as_lem}
use delos_rust.Util.RangeTree.Span.{SpanSet, set_range_as_lem}

abbrev numbers : Mergeable ℕ
numbers = default_mergeable ◌==◌

numbers-IsLawful : IsLawful numbers
numbers-IsLawful = record {
  beq_iff = λ a b. ground arith;
  merge_next = λ a b. refl;
  merge_prior = λ a b. refl;
}

abbrev pierced : Tree ℕ
pierced = (range 0 199, 0) ∷ (range 200 200, 1) ∷ (range 201 u64_max, 0) ∷ []

pierced-IsTiling : IsTiling ◌==◌ pierced
unfolding find_entry cmp
pierced-IsTiling = record {
  sorted = omega arith;
  bounded = λ p r v e. ground arith;
  hole = λ p e. cc;
  full = λ p b e. ground arith;
  distinct = λ p r v s w e f. ground arith;
}

pierced_is_set : set_point_as numbers (with_default_val 0) 200 1 ≡ ok (true, pierced)
unfolding set_point_as with_default_val remove_from_map_if place find_entry insert remove_entry cmp
    split_at
pierced_is_set = refl

set_range_test :
    set_range_as numbers pierced 100 300 1
    ≡ ok ((range 0 99, 0) ∷ (range 100 300, 1) ∷ (range 301 u64_max, 0) ∷ [])
unfolding set_range_as remove_from_map_if remove_from_map place find_entry insert remove_entry cmp
    tree_invariant replace_range range_loop new spans Range.remove trim_out merge_with absorb
    merge_both try_merge_with_next try_merge_with_prior
set_range_test = refl

set_point_as_lem_example :
    Returns (PointSet numbers pierced 200 5) (set_point_as numbers pierced 200 5)
set_point_as_lem_example =
    set_point_as_lem numbers pierced 200 5 numbers-IsLawful pierced-IsTiling (omega arith)

set_range_as_lem_example :
    Returns (SpanSet numbers pierced 100 300 1) (set_range_as numbers pierced 100 300 1)
set_range_as_lem_example =
    set_range_as_lem numbers numbers-IsLawful pierced 100 300 1 pierced-IsTiling (omega arith)
      (omega arith)
