-- ===== src/Client/Colour/Run.antt =====
-- A colour over any run of its operations, `rewind_to` apart.
use delos_rust.Prelude.{
  ℕ, ◌≤◌, ◌≡◌, refl, ◌∙◌, ap, subst, Bool, true, Option, some, arith, ok, >>=-eq-ok, ok_injective,
  add64, u64_max,
}
use delos_rust.Util.Range.{Range}
use delos_rust.Util.RangeMap.{at}
use delos_rust.Client.RangeTree.{unread, gotten_from_server, kind_at}
use delos_rust.Client.RangeTree.State.{WellFormed}
use delos_rust.Client.RangeTree.Marks.{set_point_as_recvd-PointSet, set_point_as_none-PointSet}
use delos_rust.Client.Colour.{
  PerColor, ReadState, Buffers, can_return, got_read, mark_as_already_fetched, mark_as_skippable,
  overread_at, set_returned, fetching_range, give_new_snapshot, update_horizon, increment_horizon,
  block_on_snapshot, increment_outstanding_snapshots, increment_multi_search,
  decrement_multi_search, add_no_remote, got_no_remote, add_early_sentinel, take_early_sentinel,
  set_finished_reading,
}
use delos_rust.Client.Colour.Horizon.{
  Updated, update_horizon-Updated, give_new_snapshot-Updated, block_on_snapshot-inv,
}
use delos_rust.Client.Colour.InOrder.{ReturnedTo, set_returned_lem}
use delos_rust.Client.Colour.Advances.{
  Returns-ok, known, Advances, got_read-Advances, mark_as_skippable-Advances, Marked-Advances,
  Same-Advances, fetching_range-Advances, Updated-Advances, ReturnedTo-Advances,
  snapshot_asked-Same, multi_searched-Same, multi_found-Same, no_remote-Same, no_remote_came-Same,
  sentinel_taken-Same, finished-Same, early_sentinel-Advances,
}

-- What may happen to a colour: every operation that changes it but `rewind_to`. An entry is returned when its turn has come, a range is asked for
-- inside a range of unread entries, an entry that is read too far is not unread, and a snapshot comes that was asked for.
pub data Step {V : Type 0} (buffers : Buffers V) (c : PerColor V) : PerColor V → Type 0 where
  read :
      {c' : PerColor V} (p : ℕ) (fresh : Bool)
      → p ≤ u64_max
      → got_read c p ≡ ok (fresh, c')
      → Step buffers c c'
  fetched_before :
      {c' : PerColor V} (p : ℕ)
      → p ≤ u64_max
      → mark_as_already_fetched c p ≡ ok c'
      → Step buffers c c'
  skipped :
      {c' : PerColor V} (p : ℕ) → p ≤ u64_max → mark_as_skippable c p ≡ ok c' → Step buffers c c'
  overread :
      {c' : PerColor V} (p : ℕ)
      → p ≤ u64_max
      → ¬ (kind_at c.read_status p ≡ some unread)
      → overread_at c p ≡ ok c'
      → Step buffers c c'
  returned :
      {c' : PerColor V} (p : ℕ)
      → p ≤ u64_max
      → can_return c p ≡ ok true
      → set_returned c p ≡ ok c'
      → Step buffers c c'
  fetched :
      {c' : PerColor V} (low high : ℕ) (r : Range)
      → low ≤ high
      → high ≤ r.last
      → at c.read_status.inner low ≡ some (r, unread)
      → fetching_range c low high ≡ ok c'
      → Step buffers c c'
  snapshot :
      {c' : PerColor V} (r : ReadState) (h : ℕ) (released : Option V)
      → c.is_being_read ≡ some r
      → 1 ≤ r.outstanding_snapshots
      → give_new_snapshot buffers c h ≡ ok (released, c')
      → Step buffers c c'
  horizon :
      {c' : PerColor V} (h : ℕ) (released : Option V)
      → update_horizon buffers c h ≡ (released, c')
      → Step buffers c c'
  next_horizon :
      {c' : PerColor V} (released : Option V)
      → increment_horizon buffers c ≡ ok (released, c')
      → Step buffers c c'
  blocked : {c' : PerColor V} (v : V) → block_on_snapshot buffers c v ≡ ok c' → Step buffers c c'
  snapshot_asked :
      {c' : PerColor V} (n : ℕ) → increment_outstanding_snapshots c ≡ ok (n, c') → Step buffers c c'
  multi_searched : {c' : PerColor V} → increment_multi_search c ≡ ok c' → Step buffers c c'
  multi_found : {c' : PerColor V} → decrement_multi_search c ≡ ok c' → Step buffers c c'
  no_remote : {c' : PerColor V} (id : ℕ) → add_no_remote c id ≡ c' → Step buffers c c'
  no_remote_came :
      {c' : PerColor V} (id : ℕ) (needed : Bool)
      → got_no_remote c id ≡ (needed, c')
      → Step buffers c c'
  early_sentinel :
      {c' : PerColor V} (id p : ℕ)
      → p ≤ u64_max
      → add_early_sentinel c id p ≡ ok c'
      → Step buffers c c'
  sentinel_taken :
      {c' : PerColor V} (id : ℕ) (p : Option ℕ)
      → take_early_sentinel c id ≡ (p, c')
      → Step buffers c c'
  finished : {c' : PerColor V} → set_finished_reading c ≡ ok c' → Step buffers c c'

pub data Steps {V : Type 0} (buffers : Buffers V) (c : PerColor V) : PerColor V → Type 0 where
  done : Steps buffers c c
  next : {c₁ c₂ : PerColor V} → Steps buffers c c₁ → Step buffers c₁ c₂ → Steps buffers c c₂

module _ {V : Type 0} where
  Step-Advances :
      (buffers : Buffers V) (c c' : PerColor V)
      → WellFormed c.read_status
      → Step buffers c c'
      → Advances c c'
  unfolding mark_as_already_fetched mark_as_skippable overread_at increment_horizon
  Step-Advances buffers c c' i (read p fresh b e) =
      Returns-ok (λ (fresh, c'). Advances c c') (got_read c p) (fresh, c')
        (got_read-Advances c p i b) e
  Step-Advances buffers c c' i (fetched_before p b e) =
      let (k, f) = known c.read_status p i b in
      Marked-Advances c c' p k gotten_from_server _
        (set_point_as_recvd-PointSet c.read_status p k i b f) e
  Step-Advances buffers c c' i (skipped p b e) =
      Returns-ok (Advances c) (mark_as_skippable c p) c' (mark_as_skippable-Advances c p i b) e
  Step-Advances buffers c c' i (overread p b d e) =
      let (k, f) = known c.read_status p i b in
      Marked-Advances c c' p k unread _
        (set_point_as_none-PointSet c.read_status p k i b f (λ g. d (f ∙ ap some g))) e
  Step-Advances buffers c c' i (returned p b may e) =
      ReturnedTo-Advances c p c'
        (Returns-ok (ReturnedTo c p) (set_returned c p) c' (set_returned_lem c p i b may) e)
  Step-Advances buffers c c' i (fetched low high r o end f e) =
      Returns-ok (Advances c) (fetching_range c low high) c'
        (fetching_range-Advances c low high r i o end f) e
  Step-Advances buffers c c' i (snapshot r h o reading some_left e) =
      Updated-Advances buffers c h o c' i (
        Returns-ok (Updated buffers c h) (give_new_snapshot buffers c h) (o, c')
          (give_new_snapshot-Updated buffers c r h reading some_left) e)
  Step-Advances buffers c c' i (horizon h o e) =
      Updated-Advances buffers c h o c' i
        (subst (Updated buffers c h) e (update_horizon-Updated buffers c h))
  Step-Advances buffers c c' i (next_horizon o e) =
      let (h, f, g) = >>=-eq-ok (add64 c.last_snapshot 1) _ e in
      Updated-Advances buffers c h o c' i
        (subst (Updated buffers c h) (ok_injective _ _ g) (update_horizon-Updated buffers c h))
  Step-Advances buffers c c' i (blocked v e) =
      let same = block_on_snapshot-inv buffers c c' v e in
      subst (Advances c) same.1 (Same-Advances c _ i refl refl)
  Step-Advances buffers c c' i (snapshot_asked n e) =
      let (same, low) = snapshot_asked-Same c c' n e in Same-Advances c c' i same low
  Step-Advances buffers c c' i (multi_searched e) =
      let (same, low) = multi_searched-Same c c' e in Same-Advances c c' i same low
  Step-Advances buffers c c' i (multi_found e) =
      let (same, low) = multi_found-Same c c' e in Same-Advances c c' i same low
  Step-Advances buffers c c' i (no_remote id e) =
      subst (Advances c) e
        (Same-Advances c (add_no_remote c id) i (no_remote-Same c id).0 (no_remote-Same c id).1)
  Step-Advances buffers c c' i (no_remote_came id needed e) =
      let (same, low) = no_remote_came-Same c c' id needed e in Same-Advances c c' i same low
  Step-Advances buffers c c' i (early_sentinel id p b e) = early_sentinel-Advances c c' id p i b e
  Step-Advances buffers c c' i (sentinel_taken id p e) =
      let (same, low) = sentinel_taken-Same c c' id p e in Same-Advances c c' i same low
  Step-Advances buffers c c' i (finished e) =
      let (same, low) = finished-Same c c' e in Same-Advances c c' i same low

  -- Along every run of operations but `rewind_to`, from a colour whose tree is well formed, where the client returns an entry only when its turn has
  -- come, asks for ranges of unread entries, reads too far only at entries that are not unread, and gets the snapshots it asked for, at indices
  -- that fit: the tree stays well formed, what was returned stays returned, and the snapshot does not fall.
  pub Steps-Advances :
      (buffers : Buffers V) (c c' : PerColor V)
      → WellFormed c.read_status
      → Steps buffers c c'
      → Advances c c'
  Steps-Advances buffers c c' i done = (i, λ q e. e, omega arith)
  Steps-Advances buffers c c' i (next {c₁ = c₁} run step) =
      let (j, kept, low) = Steps-Advances buffers c c₁ i run in
      let (k, kept', low') = Step-Advances buffers c₁ c' j step in
      (k, λ q e. kept' q (kept q e), omega (arith, low, low'))
