-- ===== src/Client/Colour.antt =====
-- fuzzy_log_client/src/fuzzy_log/per_color.rs: what the client knows of one colour. A buffer is a parameter, with the locations and
-- the id that `bytes_as_entry` reads from it; the reference count `IsRead` is left out.
pub mod Window
pub mod Horizon
pub mod Snapshot
pub mod InOrder
pub mod Advances
pub mod Run
use delos_rust.Prelude.{
  ℕ, ◌+◌, ◌-◌, ◌%◌, ◌^◌, min, Bool, true, false, not, ◌&&◌, ◌||◌, Option, none, some, List, [], ◌∷◌,
  Outcome, ok, panic, ◌>>=◌, ◌>>◌, assert, unwrap, add64, sub64, ltb, leb, ◌==◌, if◌then◌else◌,
  lookup, insert, remove, is_some, length,
}
use delos_rust.Client.RangeTree
use delos_rust.Client.RangeTree.{RangeTree}

pub record ReadState : Type 0 where
  pub outstanding_snapshots : ℕ
  pub num_multiappends_searching_for : ℕ

abbrev pub no_reads : ReadState
no_reads = record { outstanding_snapshots = 0; num_multiappends_searching_for = 0 }

abbrev pub is_finished_state : ReadState → Bool
is_finished_state r = r.outstanding_snapshots == 0 && r.num_multiappends_searching_for == 0

pub data NextToFetch : Type 0 where
  nothing : NextToFetch
  below_horizon : ℕ → ℕ → NextToFetch
  above_horizon : ℕ → ℕ → NextToFetch

-- What the code reads from a buffer.
pub record Buffers (V : Type 0) : Type 0 where
  pub locs : V → List (ℕ × ℕ)
  pub id : V → ℕ

pub record PerColor (V : Type 0) : Type 0 where
  pub chain : ℕ
  pub last_snapshot : ℕ
  pub read_status : RangeTree
  pub blocked_on_new_snapshot : Option V
  pub found_but_unused_multiappends : List (ℕ × ℕ)
  pub required_no_remotes : List (ℕ × Unit {0})
  pub is_being_read : Option ReadState
  pub is_interesting : Bool

-- `a + b` and `a - b` on `u32`
abbrev pub add32 : ℕ → ℕ → Outcome ℕ
add32 a b = if ltb (a + b) (2 ^ 32) then ok (a + b) else panic

abbrev pub sub32 : ℕ → ℕ → Outcome ℕ
sub32 a b = if leb b a then ok (a - b) else panic

abbrev pub max_pipelined : ℕ
max_pipelined = 20000

abbrev pub map_or : {A B : Type 0} → Option A → B → (A → B) → B
map_or none b f = b
map_or (some a) b f = f a

module _ {V : Type 0} where
  unfoldable pub new : ℕ → PerColor V
  new chain = record {
    chain = chain;
    last_snapshot = 0;
    read_status = RangeTree.new;
    blocked_on_new_snapshot = none;
    found_but_unused_multiappends = [];
    required_no_remotes = [];
    is_being_read = none;
    is_interesting = false;
  }

  unfoldable pub interesting : ℕ → PerColor V
  interesting chain = record (new chain) { is_interesting = true }

  -- The tests.
  unfoldable pub next_return_is : PerColor V → ℕ → Outcome Bool
  next_return_is c index = RangeTree.next_return_is c.read_status index

  unfoldable pub is_within_snapshot : PerColor V → ℕ → Bool
  is_within_snapshot c index = leb index c.last_snapshot

  unfoldable pub can_return : PerColor V → ℕ → Outcome Bool
  can_return c index = do next ← next_return_is c index; ok (next && is_within_snapshot c index)

  unfoldable pub has_returned : PerColor V → ℕ → Bool
  has_returned c index = RangeTree.is_returned c.read_status index

  unfoldable pub is_searching_for_multi : PerColor V → Bool
  is_searching_for_multi c =
      map_or c.is_being_read false (λ r. ltb 0 r.num_multiappends_searching_for)

  unfoldable pub has_outstanding_snapshots : PerColor V → Bool
  has_outstanding_snapshots c = map_or c.is_being_read false (λ r. ltb 0 r.outstanding_snapshots)

  unfoldable pub finished_until_snapshot : PerColor V → Bool
  finished_until_snapshot c =
      RangeTree.is_returned c.read_status c.last_snapshot && not (has_outstanding_snapshots c)

  unfoldable pub is_finished : PerColor V → Bool
  is_finished c =
      finished_until_snapshot c && not (is_searching_for_multi c || has_outstanding_snapshots c)

  unfoldable pub has_pending_reads_reqs : PerColor V → Bool
  has_pending_reads_reqs c =
      map_or (RangeTree.first_outstanding c.read_status) false (λ p. ltb p c.last_snapshot)

  unfoldable pub has_more_multi_search_than_outstanding_reads : PerColor V → Outcome Bool
  has_more_multi_search_than_outstanding_reads c = elim c.is_being_read [
    | none ↦ ok (ltb 0 (length c.required_no_remotes))
    | some r ↦ do
      next ← add64 c.read_status.num_outstanding 1
      assert (leb r.num_multiappends_searching_for (next % 2 ^ 32))
      needed ← add64 r.num_multiappends_searching_for (length c.required_no_remotes)
      ok (ltb c.read_status.num_outstanding needed)
  ]

  -- No entry up to the snapshot is outstanding.
  unfoldable pub none_pending : PerColor V → Bool
  none_pending c =
      map_or (RangeTree.first_outstanding c.read_status) true (λ o. ltb c.last_snapshot o)

  -- The end of a read.
  unfoldable pub set_finished_reading : PerColor V → Outcome (PerColor V)
  set_finished_reading c = do
    assert (map_or c.is_being_read true is_finished_state)
    assert (none_pending c)
    ok (record c { is_being_read = none })

  unfoldable pub finish : PerColor V → PerColor V
  finish c = if is_finished c then record c { is_being_read = none } else c

  unfoldable pub set_returned : PerColor V → ℕ → Outcome (PerColor V)
  set_returned c index = do
    next ← next_return_is c index
    assert next
    assert (leb index c.last_snapshot)
    (worked, t) ← RangeTree.set_point_as_returned c.read_status index
    ok (finish (record c { read_status = t }))

  unfoldable pub overread_at : PerColor V → ℕ → Outcome (PerColor V)
  overread_at c index = do
    (worked, t) ← RangeTree.set_point_as_none c.read_status index
    ok (record c { read_status = t })

  unfoldable pub got_read : PerColor V → ℕ → Outcome (Bool × PerColor V)
  got_read c index = do
    (fresh, t) ← RangeTree.set_point_as_recvd c.read_status index
    ok (fresh, record c { read_status = t })

  unfoldable pub mark_as_already_fetched : PerColor V → ℕ → Outcome (PerColor V)
  mark_as_already_fetched c index = do
    (worked, t) ← RangeTree.set_point_as_recvd c.read_status index
    ok (record c { read_status = t })

  unfoldable pub mark_as_skippable : PerColor V → ℕ → Outcome (PerColor V)
  mark_as_skippable c index = do
    (worked, t) ← RangeTree.set_point_as_skip c.read_status index
    ok (record c { read_status = t })

  unfoldable pub rewind_to : PerColor V → ℕ → Outcome (PerColor V)
  rewind_to c index = do
    (worked, t) ← RangeTree.set_above_as_none c.read_status index
    ok (record c { read_status = t })

  -- The counters of a read.
  abbrev pub current_state : PerColor V → ReadState
  current_state c = map_or c.is_being_read no_reads (λ r. r)

  unfoldable pub increment_outstanding_snapshots : PerColor V → Outcome (ℕ × PerColor V)
  increment_outstanding_snapshots c = do
    let r = current_state c
    n ← add32 r.outstanding_snapshots 1
    ok (n, record c { is_being_read = some (record r { outstanding_snapshots = n }) })

  unfoldable pub decrement_outstanding_snapshots : PerColor V → Outcome (ℕ × PerColor V)
  decrement_outstanding_snapshots c = do
    r ← unwrap c.is_being_read
    n ← sub32 r.outstanding_snapshots 1
    ok (n, record c { is_being_read = some (record r { outstanding_snapshots = n }) })

  unfoldable pub increment_multi_search : PerColor V → Outcome (PerColor V)
  increment_multi_search c = do
    let r = current_state c
    n ← add32 r.num_multiappends_searching_for 1
    ok (record c { is_being_read = some (record r { num_multiappends_searching_for = n }) })

  unfoldable pub decrement_multi_search : PerColor V → Outcome (PerColor V)
  decrement_multi_search c = do
    r ← unwrap c.is_being_read
    assert (ltb 0 r.num_multiappends_searching_for)
    n ← sub32 r.num_multiappends_searching_for 1
    ok (
        finish
          (record c { is_being_read = some (record r { num_multiappends_searching_for = n }) }))

  unfoldable pub got_no_remote : PerColor V → ℕ → Bool × PerColor V
  got_no_remote c id = (
    not (is_some (lookup id c.required_no_remotes)),
    record c { required_no_remotes = remove id c.required_no_remotes },
  )

  unfoldable pub add_no_remote : PerColor V → ℕ → PerColor V
  add_no_remote c id = record c { required_no_remotes = insert id tt c.required_no_remotes }

  unfoldable pub add_early_sentinel : PerColor V → ℕ → ℕ → Outcome (PerColor V)
  add_early_sentinel c id index = do
    assert (not (index == 0))
    mark_as_skippable
        (record c {
          found_but_unused_multiappends = insert id index c.found_but_unused_multiappends;
        })
        index

  unfoldable pub take_early_sentinel : PerColor V → ℕ → Option ℕ × PerColor V
  take_early_sentinel c id = (
    lookup id c.found_but_unused_multiappends,
    record c { found_but_unused_multiappends = remove id c.found_but_unused_multiappends },
  )

  -- What to ask the store for.
  unfoldable pub next_range_to_fetch : PerColor V → Outcome NextToFetch
  next_range_to_fetch c =
      let outstanding_reads = c.read_status.num_outstanding in
      let (first_needed, last_needed) = RangeTree.min_range_to_fetch c.read_status in
      let bounded = (do
        most ← sub64 max_pipelined outstanding_reads
        last ← add64 first_needed most
        ok (below_horizon first_needed (min (min last_needed c.last_snapshot) last))) in
      if leb max_pipelined outstanding_reads
      then ok nothing
      else if ltb c.last_snapshot first_needed
      then ok (above_horizon first_needed last_needed)
      else bounded

  unfoldable pub fetching_range : PerColor V → ℕ → ℕ → Outcome (PerColor V)
  fetching_range c low high = do
    assert (leb low high)
    (worked, t) ← RangeTree.set_range_as_sent c.read_status low high
    ok (record c { read_status = t; is_being_read = some (current_state c) })

-- Some location of the chain is within the horizon.
unfoldable pub reaches : ℕ → ℕ → List (ℕ × ℕ) → Bool
reaches chain new_horizon [] = false
reaches chain new_horizon ((o, i) ∷ locs) =
    (o == chain && leb i new_horizon) || reaches chain new_horizon locs

-- The index of the first location of the chain.
unfoldable pub location_of : ℕ → List (ℕ × ℕ) → Option ℕ
location_of chain [] = none
location_of chain ((o, i) ∷ locs) = if o == chain then some i else location_of chain locs

module _ {V : Type 0} (buffers : Buffers V) where
  unfoldable pub entry_is_unblocked : Option V → ℕ → ℕ → Bool
  entry_is_unblocked val chain new_horizon =
      map_or val false (λ v. reaches chain new_horizon (buffers.locs v))

  -- The entry that was blocked, if the new horizon reaches it.
  unfoldable pub update_horizon : PerColor V → ℕ → Option V × PerColor V
  update_horizon c new_horizon =
      if ltb c.last_snapshot new_horizon
      then (if entry_is_unblocked c.blocked_on_new_snapshot c.chain new_horizon
          then (
            c.blocked_on_new_snapshot,
            record c { last_snapshot = new_horizon; blocked_on_new_snapshot = none },
          )
          else (none, record c { last_snapshot = new_horizon }))
      else (none, c)

  unfoldable pub increment_horizon : PerColor V → Outcome (Option V × PerColor V)
  increment_horizon c = do new_horizon ← add64 c.last_snapshot 1; ok (update_horizon c new_horizon)

  unfoldable pub give_new_snapshot : PerColor V → ℕ → Outcome (Option V × PerColor V)
  give_new_snapshot c new_horizon = do
    (n, c₁) ← decrement_outstanding_snapshots c
    let idle = map_or c₁.is_being_read false is_finished_state && none_pending c₁
    ok (
        if leb new_horizon c₁.last_snapshot
        then (none, if idle then record c₁ { is_being_read = none } else c₁)
        else update_horizon c₁ new_horizon)

  unfoldable pub block_on_snapshot : PerColor V → V → Outcome (PerColor V)
  block_on_snapshot c val = do
    index ← unwrap (location_of c.chain (buffers.locs val))
    next ← add64 c.last_snapshot 1
    assert (index == next)
    assert (map_or c.blocked_on_new_snapshot true (λ b. buffers.id b == buffers.id val))
    ok (record c { blocked_on_new_snapshot = some val })
