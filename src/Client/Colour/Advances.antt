-- ===== src/Client/Colour/Advances.antt =====
-- What the operations of a colour leave as it was or move forward.
use delos_rust.Prelude.{
  ℕ, ◌≤◌, ◌≡◌, refl, sym, subst, inl, inr, Bool, true, not, Option, none, some, arith, Outcome, ok,
  ◌>>=◌, >>=-eq-ok, assert, leb, ◌==◌, insert, Returns, Returns->>=, u64_max, Option-cases,
}
use delos_rust.Util.Range.{Range, point}
use delos_rust.Util.RangeMap.{at}
use delos_rust.Client.RangeTree
use delos_rust.Client.RangeTree.{
  RangeTree, Kind, unread, skip, gotten_from_server, kind_at, is_returned,
}
use delos_rust.Client.RangeTree.Forget.{find_entry-forget}
use delos_rust.Client.RangeTree.State.{WellFormed}
use delos_rust.Client.RangeTree.Returned.{Keeps}
use delos_rust.Client.RangeTree.Point.{PointSet}
use delos_rust.Client.RangeTree.Marks.{set_point_as_recvd-PointSet, set_point_as_skip-PointSet}
use delos_rust.Client.Colour.{
  PerColor, Buffers, has_returned, got_read, mark_as_skippable, fetching_range,
  increment_outstanding_snapshots, increment_multi_search, decrement_multi_search, finish,
  add_no_remote, got_no_remote, add_early_sentinel, take_early_sentinel, set_finished_reading,
}
use delos_rust.Client.RangeTree.Sent.{RangeSent, set_range_as_sent_lem}
use delos_rust.Client.Colour.Horizon.{Updated}
use delos_rust.Client.Colour.InOrder.{ReturnedTo, is_returned-of, of-is_returned}

pub Returns-ok :
    {A : Type 0} (P : A → Type 0) (o : Outcome A) (x : A) → Returns P o → o ≡ ok x → P x
Returns-ok P o x h e = subst (Returns P) e h

pub known :
    (s : RangeTree) (p : ℕ) → WellFormed s → p ≤ u64_max → (k : Kind) × (kind_at s p ≡ some k)
known s p i b = elim (Option-cases (at s.inner p)) [
  | inl f ↦ absurd (missing f)
  | inr ((r, k), f) ↦ (k, rw f refl)
]
  where
    missing : ¬ (at s.inner p ≡ none)
    missing f = ground (arith, i.tiling.full p b refl, find_entry-forget (point p) s.inner, f)

module _ {V : Type 0} where
  -- The tree stays well formed, nothing that was returned is forgotten, and the snapshot does not fall.
  abbrev pub Advances : PerColor V → PerColor V → Type 0
  Advances c c' =
      WellFormed c'.read_status
      × ((q : ℕ) → has_returned c q ≡ true → has_returned c' q ≡ true)
      × (c.last_snapshot ≤ c'.last_snapshot)

  Advances-Keeps :
      (c : PerColor V) (t : RangeTree)
      → WellFormed t
      → Keeps c.read_status.inner t.inner
      → Advances c (record c { read_status = t })
  unfolding has_returned
  Advances-Keeps c t i k =
      (i, λ q e. is_returned-of t q (k q (of-is_returned c.read_status q e)), omega arith)

  pub got_read-Advances :
      (c : PerColor V) (p : ℕ)
      → WellFormed c.read_status
      → p ≤ u64_max
      → Returns (λ (fresh, c'). Advances c c') (got_read c p)
  unfolding got_read
  got_read-Advances c p i b =
      let (k, e) = known c.read_status p i b in
      Returns->>= (PointSet c.read_status p k gotten_from_server) (λ (fresh, c'). Advances c c')
        (RangeTree.set_point_as_recvd c.read_status p) _
        (set_point_as_recvd-PointSet c.read_status p k i b e)
        (λ (d, t) h. Advances-Keeps c t h.1 h.3)

  pub mark_as_skippable-Advances :
      (c : PerColor V) (p : ℕ)
      → WellFormed c.read_status
      → p ≤ u64_max
      → Returns (Advances c) (mark_as_skippable c p)
  unfolding mark_as_skippable
  mark_as_skippable-Advances c p i b =
      let (k, e) = known c.read_status p i b in
      Returns->>= (PointSet c.read_status p k skip) (Advances c)
        (RangeTree.set_point_as_skip c.read_status p) _
        (set_point_as_skip-PointSet c.read_status p k i b e)
        (λ (d, t) h. Advances-Keeps c t h.1 h.3)

  pub Marked-Advances :
      (c c' : PerColor V) (p : ℕ) (k nk : Kind) (m : Outcome (Bool × RangeTree))
      → Returns (PointSet c.read_status p k nk) m
      → (m >>= λ x. ok (record c { read_status = x.1 })) ≡ ok c'
      → Advances c c'
  Marked-Advances c c' p k nk m r e =
      Returns-ok (Advances c) (m >>= λ x. ok (record c { read_status = x.1 })) c'
        (Returns->>= (PointSet c.read_status p k nk) (Advances c) m _ r
          (λ (d, t) h. Advances-Keeps c t h.1 h.3))
        e

  -- What leaves the tree and the horizon alone
  pub Same-Advances :
      (c c' : PerColor V)
      → WellFormed c.read_status
      → c'.read_status ≡ c.read_status
      → c'.last_snapshot ≡ c.last_snapshot
      → Advances c c'
  unfolding has_returned
  Same-Advances c c' i e f = (
    subst WellFormed (sym e) i,
    λ q g. subst (λ t. is_returned t q ≡ true) (sym e) g,
    omega (arith, f),
  )

  pub fetching_range-Advances :
      (c : PerColor V) (low high : ℕ) (r : Range)
      → WellFormed c.read_status
      → low ≤ high
      → high ≤ r.last
      → at c.read_status.inner low ≡ some (r, unread)
      → Returns (Advances c) (fetching_range c low high)
  unfolding fetching_range has_returned
  fetching_range-Advances c low high r i o end e =
      let ordered : leb low high ≡ true = ground arith in
      rw ordered (
        Returns->>= (RangeSent c.read_status low high) (Advances c)
          (RangeTree.set_range_as_sent c.read_status low high) _
          (set_range_as_sent_lem c.read_status low high r i o end e)
          (λ (worked, t) x. (
            x.1,
            (λ q f. is_returned-of t q (x.3 q (of-is_returned c.read_status q f))),
            omega arith,
          )))

  pub Updated-Advances :
      (buffers : Buffers V) (c : PerColor V) (h : ℕ) (o : Option V) (c' : PerColor V)
      → WellFormed c.read_status
      → Updated buffers c h (o, c')
      → Advances c c'
  unfolding has_returned
  Updated-Advances buffers c h o c' i (high, kept, released) = (
    subst WellFormed (sym kept) i,
    λ q e. subst (λ t. is_returned t q ≡ true) (sym kept) e,
    omega (arith, high),
  )

  pub ReturnedTo-Advances :
      (c : PerColor V) (p : ℕ) (c' : PerColor V) → ReturnedTo c p c' → Advances c c'
  ReturnedTo-Advances c p c' (i, e, kept, same, over) = (i, kept, omega (arith, same))

  -- The operations on the counters and the tables
  abbrev Same : PerColor V → PerColor V → Type 0
  Same c c' = (c'.read_status ≡ c.read_status) × (c'.last_snapshot ≡ c.last_snapshot)

  pub snapshot_asked-Same :
      (c c' : PerColor V) (n : ℕ) → increment_outstanding_snapshots c ≡ ok (n, c') → Same c c'
  unfolding increment_outstanding_snapshots
  snapshot_asked-Same c c' n e = ground arith

  pub multi_searched-Same : (c c' : PerColor V) → increment_multi_search c ≡ ok c' → Same c c'
  unfolding increment_multi_search
  multi_searched-Same c c' e = ground arith

  pub multi_found-Same : (c c' : PerColor V) → decrement_multi_search c ≡ ok c' → Same c c'
  unfolding decrement_multi_search finish
  multi_found-Same c c' e = ground arith

  pub no_remote-Same : (c : PerColor V) (id : ℕ) → Same c (add_no_remote c id)
  unfolding add_no_remote
  no_remote-Same c id = (refl, refl)

  pub no_remote_came-Same :
      (c c' : PerColor V) (id : ℕ) (needed : Bool) → got_no_remote c id ≡ (needed, c') → Same c c'
  unfolding got_no_remote
  no_remote_came-Same c c' id needed e = ground arith

  pub sentinel_taken-Same :
      (c c' : PerColor V) (id : ℕ) (p : Option ℕ) → take_early_sentinel c id ≡ (p, c') → Same c c'
  unfolding take_early_sentinel
  sentinel_taken-Same c c' id p e = ground arith

  pub finished-Same : (c c' : PerColor V) → set_finished_reading c ≡ ok c' → Same c c'
  unfolding set_finished_reading
  finished-Same c c' e = ground arith

  -- An early sentinel is noted, and then its place is skipped.
  pub early_sentinel-Advances :
      (c c' : PerColor V) (id p : ℕ)
      → WellFormed c.read_status
      → p ≤ u64_max
      → add_early_sentinel c id p ≡ ok c'
      → Advances c c'
  unfolding add_early_sentinel has_returned
  early_sentinel-Advances c c' id p i b e =
      let noted : PerColor V = record c {
        found_but_unused_multiappends = insert id p c.found_but_unused_multiappends;
      } in
      let (u, f, g) = >>=-eq-ok (assert (not (p == 0))) _ e in
      Returns-ok (Advances noted) (mark_as_skippable noted p) c'
        (mark_as_skippable-Advances noted p i b) g
