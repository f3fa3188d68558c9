-- ===== src/Tests/Colours.antt =====
-- fuzzy_log_client/src/fuzzy_log/range_tree.rs at concrete inputs.
use delos_rust.Prelude.{◌≡◌, refl, true, [], ◌∷◌, arith, ok, Returns, subst, u64_max}
use delos_rust.Util.Range
use delos_rust.Util.Range.{Range, range, cmp}
use delos_rust.Util.RangeMap.{find_entry, remove_entry, insert}
use delos_rust.Util.RangeTree.{remove_from_map}
use delos_rust.Client.RangeTree.{
  unread, sent_to_server, returned_to_client, RangeTree, new, set_range_as_sent, set_point_as_recvd,
  set_point_as_skip, set_point_as_returned, tree_invariant, min_range_to_fetch, place,
  try_merge_with_next, try_merge_with_prior, next_found, check_all, check_from, checked,
}
use delos_rust.Client.RangeTree.State.{WellFormed}
use delos_rust.Client.RangeTree.Reads.{
  Arrived, PassedOver, HandedOver, set_point_as_skip_lem, set_point_as_recvd_lem,
  set_point_as_returned_lem,
}
use delos_rust.Client.RangeTree.Sent.{RangeSent, set_range_as_sent_lem}
use delos_rust.Client.RangeTree.Fetch.{fetch_next, new-WellFormed}

first_request : Returns (RangeSent new 1 10) (set_range_as_sent new 1 10)
unfolding new find_entry cmp
first_request =
    set_range_as_sent_lem new 1 10 (range 1 u64_max) new-WellFormed (omega arith) (omega arith) refl

fetch_next_example :
    Returns
      (RangeSent new (min_range_to_fetch new).0 (min_range_to_fetch new).1)
      (set_range_as_sent new (min_range_to_fetch new).0 (min_range_to_fetch new).1)
unfolding new find_entry cmp
fetch_next_example = fetch_next new new-WellFormed 5 refl

-- Ten entries that were asked for.
abbrev asked : RangeTree
asked = record {
  inner =
      (range 0 0, returned_to_client)
      ∷ (range 1 10, sent_to_server)
      ∷ (range 11 u64_max, unread)
      ∷ [];
  num_outstanding = 10;
  num_buffered = 0;
}

asked_test : set_range_as_sent new 1 10 ≡ ok (true, asked)
unfolding new find_entry cmp set_range_as_sent checked tree_invariant check_all check_from place
    try_merge_with_next try_merge_with_prior next_found remove_from_map remove_entry insert
    Range.new Range.spans Range.len Range.remove
asked_test = refl

asked-WellFormed : WellFormed asked
asked-WellFormed = (subst (Returns (RangeSent new 1 10)) asked_test first_request).1

set_point_as_recvd_lem_example :
    Returns (Arrived asked 4 sent_to_server) (set_point_as_recvd asked 4)
unfolding find_entry cmp
set_point_as_recvd_lem_example =
    set_point_as_recvd_lem asked 4 sent_to_server asked-WellFormed (omega arith) refl

set_point_as_skip_lem_example :
    Returns (PassedOver asked 4 sent_to_server) (set_point_as_skip asked 4)
unfolding find_entry cmp
set_point_as_skip_lem_example =
    set_point_as_skip_lem asked 4 sent_to_server asked-WellFormed (omega arith) refl

set_point_as_returned_lem_example : Returns (HandedOver asked 4) (set_point_as_returned asked 4)
unfolding find_entry cmp
set_point_as_returned_lem_example =
    set_point_as_returned_lem asked 4 sent_to_server asked-WellFormed (omega arith) refl (λ e. cc)
      (λ e. cc)
