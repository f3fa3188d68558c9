-- ===== src/Tests/Reads.antt =====
-- fuzzy_log_client/src/fuzzy_log/per_color.rs at concrete inputs.
use delos_rust.Prelude.{ℕ, ◌≡◌, refl, true, [], ◌∷◌, arith, ok, Returns, some, none, u64_max}
use delos_rust.Util.Range.{range, cmp, split_at}
use delos_rust.Util.RangeMap.{find_entry, remove_entry, insert}
use delos_rust.Util.RangeTree.{remove_from_map}
use delos_rust.Client.RangeTree
use delos_rust.Client.RangeTree.{RangeTree, unread, returned_to_client, gotten_from_server}
use delos_rust.Client.RangeTree.Fetch.{new-WellFormed}
use delos_rust.Client.Colour.{
  PerColor, Buffers, ReadState, next_range_to_fetch, fetching_range, set_returned, can_return,
  next_return_is, is_within_snapshot, got_read, decrement_outstanding_snapshots, entry_is_unblocked,
  give_new_snapshot, block_on_snapshot, update_horizon, location_of, below_horizon,
}
use delos_rust.Client.Colour.Window.{
  NextWindow, Fetched, next_range_to_fetch_lem, fetching_range_lem,
}
use delos_rust.Client.Colour.InOrder.{ReturnedTo, set_returned_lem}
use delos_rust.Client.Colour.Advances.{Advances}
use delos_rust.Client.Colour.Run.{read, snapshot, Steps, done, next, Steps-Advances}
use delos_rust.Client.Colour.Horizon.{block_on_snapshot_lem}
use delos_rust.Client.Colour.Snapshot.{Snapshot, give_new_snapshot_lem}

-- The number of an entry of the colour 5 stands for its buffer.
abbrev numbers : Buffers ℕ
numbers = record { locs = λ v. (5, v) ∷ []; id = λ v. v }

-- A colour with a hundred entries, of which none was read, and one snapshot to come.
abbrev one_snapshot : ReadState
one_snapshot = record { outstanding_snapshots = 1; num_multiappends_searching_for = 0 }

abbrev reading : PerColor ℕ
reading = record {
  chain = 5;
  last_snapshot = 100;
  read_status = RangeTree.new;
  blocked_on_new_snapshot = none;
  found_but_unused_multiappends = [];
  required_no_remotes = [];
  is_being_read = some one_snapshot;
  is_interesting = true;
}

next_range_to_fetch_lem_example : Returns (NextWindow reading) (next_range_to_fetch reading)
unfolding RangeTree.new find_entry cmp
next_range_to_fetch_lem_example =
    next_range_to_fetch_lem reading 7 new-WellFormed refl (omega arith)

first_hundred : NextWindow reading (below_horizon 1 100)
unfolding RangeTree.new find_entry cmp
first_hundred = (
  range 1 u64_max,
  refl,
  omega arith,
  omega arith,
  omega arith,
  omega arith,
  omega arith,
  λ q h e. absurd (ground arith),
)

fetching_range_lem_example : Returns (Fetched reading 1 100) (fetching_range reading 1 100)
fetching_range_lem_example = fetching_range_lem reading 1 100 new-WellFormed first_hundred

set_returned_lem_example : Returns (ReturnedTo reading 1) (set_returned reading 1)
unfolding RangeTree.new find_entry cmp can_return next_return_is is_within_snapshot
    RangeTree.next_return_is
set_returned_lem_example = set_returned_lem reading 1 new-WellFormed (omega arith) refl

give_new_snapshot_lem_example :
    Returns (Snapshot numbers reading one_snapshot 120) (give_new_snapshot numbers reading 120)
give_new_snapshot_lem_example =
    give_new_snapshot_lem numbers reading one_snapshot 120 new-WellFormed refl (omega arith)

block_on_snapshot_lem_example :
    update_horizon numbers (record reading { blocked_on_new_snapshot = some 101 }) 110
    ≡ (some 101, record reading { last_snapshot = 110; blocked_on_new_snapshot = none })
unfolding block_on_snapshot location_of
block_on_snapshot_lem_example =
    block_on_snapshot_lem numbers reading (record reading { blocked_on_new_snapshot = some 101 })
      101 110 refl (omega arith)

-- The snapshot came, and then the first entry did.
abbrev asked_for : PerColor ℕ
asked_for = record reading {
  last_snapshot = 120;
  is_being_read = some (record one_snapshot { outstanding_snapshots = 0 });
}

abbrev one_read : PerColor ℕ
one_read = record asked_for {
  read_status = record {
    inner =
        (range 0 0, returned_to_client)
        ∷ (range 1 1, gotten_from_server)
        ∷ (range 2 u64_max, unread)
        ∷ [];
    num_outstanding = 0;
    num_buffered = 1;
  };
}

snapshot_test : give_new_snapshot numbers reading 120 ≡ ok (none, asked_for)
unfolding give_new_snapshot decrement_outstanding_snapshots update_horizon entry_is_unblocked
snapshot_test = refl

read_test : got_read asked_for 1 ≡ ok (true, one_read)
unfolding got_read RangeTree.set_point_as_recvd RangeTree.checked RangeTree.tree_invariant
    RangeTree.check_all RangeTree.new RangeTree.check_from RangeTree.set_point_as remove_from_map
    find_entry cmp RangeTree.is_prior RangeTree.uncount RangeTree.recount RangeTree.place split_at
    RangeTree.try_merge_with_prior RangeTree.prior_found remove_entry insert
read_test = refl

two-Steps : Steps numbers reading one_read
two-Steps =
    next (next done (snapshot one_snapshot 120 none refl (omega arith) snapshot_test))
      (read 1 true (omega arith) read_test)

Steps-Advances_example : Advances reading one_read
Steps-Advances_example = Steps-Advances numbers reading one_read new-WellFormed two-Steps
