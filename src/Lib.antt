-- ===== src/Lib.antt =====
-- FuzzyLog (delos-rust): a verification library.
--
-- FuzzyLog is a partially ordered shared log. Clients append entries to one or several colours of the
-- log; servers order them, and an append to colours on several servers is ordered by Skeens' protocol,
-- in which each server proposes a timestamp and the greatest proposal is final. This library models the
-- code that decides which positions of the log are in which state and in which order a server
-- delivers appends.
--
-- The parts, the files that model them and the code:
--   * Util.Range and Util.RangeMap: `Range` of fuzzy_log_util/src/range_tree.rs and the `BTreeMap` with
--     such keys. The map is its list of entries in order of the keys; a key is found by the code's
--     `Ord for Range`, for which ranges that overlap are equal.
--   * Util.RangeTree: `RangeTree<V>` of the same file, from `u64` to values, with `set_point_as` and
--     `set_range_as`. Tiling says which lists of entries stand for a function on all of `u64`; Merge,
--     Fill and Place are about the merging with neighbours, Absorb about one round of the loop of
--     `set_range_as`, Span about the loop, Invariant about the code's own check.
--   * Util.DequeMap and Util.TreeDequeMap: the queues of fuzzy_log_util/src/hash_deque_map.rs (which the
--     crate exports as `vec_deque_map`) and tree_deque_map.rs. The maps inside are association lists.
--   * Server.Waiting, Server.GotMax and Server.Skeens: fuzzy_log_server/src/skeens.rs, one server's
--     state of Skeens' protocol. Waiting is `WaitingForMax`, an entry of the first queue; GotMax is the
--     heap's element with its order and the heap; Skeens is `SkeensState` with `add_single_append`,
--     `need_single_at`, `add_multi_append`, `add_snapshot`, `set_max_timestamp` and
--     `flush_got_max_timestamp`. Its queue is the one of Util.DequeMap. Invariant is what holds between the
--     operations of a primary, Clock, Append and Added are about adding appends, Drain, Raised and
--     SetMax about final timestamps, Origin about which append an element of the heap is, Flush about deliveries. Replica is the replica's half,
--     `replicate_single_append_round1`, `replicate_multi_append_round1`, `replicate_snapshot_round1` and
--     `replicate_round2`, with Emission for its loop; Recovery is `tas_recoverer` and
--     `replicate_recoverer`. Singles, Delivery and Stop are about the
--     state after a flush.
--   * Server.Chain: `Chain` of fuzzy_log_server/src/ordering_thread.rs and lib.rs, one colour of the log on
--     a server, with the trie as an interface of its length and its appends, which Log fills with Server.Trie. Single is about single
--     appends, which wait only if they must, Finish about the places of delivered appends in the log,
--     Deliver about `finish_multi`, Run about runs of operations.
--   * Server.Edge and Server.Trie: fuzzy_log_server/src/trie.rs, the log of one colour. Edge has the edges
--     with the walks along them, and the shortcuts; a `u64` key is the path of its indices, ten bits at a level. Trie has `get`,
--     `prep_append`, `prep_append_at` and the locks; Storage has the appends that take room from the allocator, whose
--     operations are an interface. Keys is about indices, Levels, Stage, Start and Entry about one append from its first
--     step at the root to the entry, Runs about many, Slots and Insert about stores in slots, Lock says
--     which lock is held, Stale about an append after one at an index. A pointer to a slot is the slot's key: no array that
--     a pointer leads into is replaced, since a new array comes only where the shortcuts below it are used up.
--   * Server.Locks: `handle_old_multiappend` and `ensure_chain` of fuzzy_log_server/src/ordering_thread.rs, multiappends under
--     locks over the chains that a server stores; the storage that the worker reserved and the assertions on it are left out. View is about a store where chains are made when needed, Number, Emplace, Loop and
--     Unlock about the loops, Handler about the handler, First about a new chain.
--   * Server.Rounds: `new_multiappend_round1` and `new_multiappend_round2` of the same file, the two rounds over the chains of
--     a server. First is about one chain's timestamp, Chains about the loop of the first round, Second about the second.
--   * Client.RangeTree: fuzzy_log_client/src/fuzzy_log/range_tree.rs, what the client has done with each
--     entry of a colour. Forget takes `Skip` and `ReturnedToClient` as one kind, which makes the tree
--     one of Util.RangeTree; Returned is about what the merging of the two keeps, Count about the
--     counters, State about well-formed trees, Check about `tree_invariant`, Point, Marks and Sent about
--     the setters, Skipped about a skipped entry among returned ones, Reads about the kinds that the tree
--     shows after three of them, Fetch about the searches.
--   * Client.Colour: fuzzy_log_client/src/fuzzy_log/per_color.rs, the reading of one colour. Window is
--     about what is asked for next, InOrder about the return of entries in their order, Horizon and Snapshot about
--     snapshots and the entry that waits for one, Advances about what each operation keeps, Run about runs of all operations
--     but `rewind_to`.
--
-- How the code is read. Numbers are natural numbers below 2 ^ 64 where the code has `u64`, with checked
-- addition and subtraction. The build is one with debug assertions: a failed `assert!` or
-- `debug_assert!`, an overflow, `unwrap` of `None` and `unreachable!()` are the outcome `panic` of
-- Prelude.Outcomes, and a statement with `Returns` says that the code does not panic. A `Uuid` is a
-- number with the same order. `BinaryHeap` is the list of its elements, the greatest first. A callback is
-- the list of its calls.
--
-- Fuel: the loop of `set_range_as` has fuel for one round for each point of the new range, and each round moves on
-- by a point at least; running out is a panic, which the theorem excludes. `drain` in `set_max_timestamp`
-- has fuel for one round for each index of the queue, and `flush_got_max_timestamp` for one round for
-- each element of the heap. The loop of `replicate_round2` has fuel for one round for each index of its
-- queue, and the loop of `set_above_as_none` for one round for each `u64`. A trie holds up to 2 ^ 62 entries: there
-- the assertion on the root's index in `prep_append` ends it.
--
-- Not modelled: the rest of the client (the handle and the store), which waits on channels and sockets;
-- the rest of the ordering thread (the dispatch, the fast path of a single server, replication, garbage collection);
-- the bytes of the values and the allocator byte_trie; the packets, which are laid out in raw memory; the storage,
-- the sockets and the C bindings. In the client's colour the reference count `IsRead` is left
-- out, and what is read from a buffer is a parameter.
pub mod Prelude
pub mod Util
pub mod Server
pub mod Client
mod Tests
