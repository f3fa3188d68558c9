-- ===== src/Client/Colour/Window.antt =====
-- What the client asks for next: `next_range_to_fetch` and `fetching_range`.
use delos_rust.Prelude.{
  ℕ, ◌+◌, ◌-◌, ◌<◌, ◌≤◌, ◌≡◌, min, refl, inl, inr, true, some, arith, ok, ◌>>=◌, Returns,
  Returns->>=, add64, sub64, ltb, leb, u64_max, Bool-cases,
}
use delos_rust.Util.Range.{Range, range}
use delos_rust.Util.RangeMap.{at, at_holds}
use delos_rust.Client.RangeTree
use delos_rust.Client.RangeTree.{RangeTree, unread, kind_at}
use delos_rust.Client.RangeTree.State.{WellFormed}
use delos_rust.Client.RangeTree.Sent.{RangeSent, set_range_as_sent_lem}
use delos_rust.Client.RangeTree.Fetch.{min_range_to_fetch_lem}
use delos_rust.Client.Colour.{
  PerColor, NextToFetch, nothing, below_horizon, above_horizon, max_pipelined, next_range_to_fetch,
  fetching_range, current_state,
}

sub64-ok : (a b : ℕ) → b ≤ a → sub64 a b ≡ ok (a - b)
sub64-ok a b h = ground arith

add64-ok : (a b : ℕ) → a + b ≤ u64_max → add64 a b ≡ ok (a + b)
add64-ok a b h = ground arith

module _ {V : Type 0} where
  -- The first entry that nobody asked for is `low`.
  abbrev pub FirstUnread : PerColor V → ℕ → Type 0
  FirstUnread c low = (q : ℕ) → q < low → ¬ (kind_at c.read_status q ≡ some unread)

  abbrev pub NextWindow : PerColor V → NextToFetch → Type 0
  NextWindow c nothing = max_pipelined ≤ c.read_status.num_outstanding
  NextWindow c (above_horizon low high) =
      (c.read_status.num_outstanding < max_pipelined)
      × (c.last_snapshot < low)
      × (at c.read_status.inner low ≡ some (range low high, unread))
      × FirstUnread c low
  NextWindow c (below_horizon low high) =
      (r : Range) × (at c.read_status.inner low ≡ some (r, unread))
      × (high ≤ r.last)
      × (low ≤ high)
      × (high ≤ c.last_snapshot)
      × (c.read_status.num_outstanding < max_pipelined)
      × (c.read_status.num_outstanding + (high - low) ≤ max_pipelined)
      × FirstUnread c low

  bounded_lem :
      (c : PerColor V) (low high : ℕ)
      → at c.read_status.inner low ≡ some (range low high, unread)
      → FirstUnread c low
      → c.read_status.num_outstanding < max_pipelined
      → low ≤ c.last_snapshot
      → c.last_snapshot + max_pipelined ≤ u64_max
      → Returns (NextWindow c) (
          sub64 max_pipelined c.read_status.num_outstanding >>= λ most.
          add64 low most >>= λ last. ok (below_horizon low (min (min high c.last_snapshot) last)))
  bounded_lem c low high e first free below room =
      let inside = at_holds low c.read_status.inner (range low high) unread e in
      rw (sub64-ok max_pipelined c.read_status.num_outstanding (omega arith)) (
        rw (add64-ok low (max_pipelined - c.read_status.num_outstanding) (omega arith)) (
          range low high,
          e,
          omega arith,
          omega (arith, inside),
          omega arith,
          free,
          omega arith,
          first,
        ))

  -- The window to ask for next, while some entry was not asked for and the snapshot is not near the greatest index. Nothing is asked
  -- for exactly if the pipeline is full. Otherwise the window starts at the first entry that was not asked for and holds only such
  -- entries; below the horizon it ends at the snapshot at the latest, and with it at most one entry more than the limit is outstanding.
  pub next_range_to_fetch_lem :
      (c : PerColor V) (q : ℕ)
      → WellFormed c.read_status
      → kind_at c.read_status q ≡ some unread
      → c.last_snapshot + max_pipelined ≤ u64_max
      → Returns (NextWindow c) (next_range_to_fetch c)
  unfolding next_range_to_fetch
  next_range_to_fetch_lem c q i h room = elim (min_range_to_fetch_lem c.read_status i) [
    | inl (none_left, e, e') ↦ absurd (none_left q h)
    | inr (e, first) ↦ elim (Bool-cases (leb max_pipelined c.read_status.num_outstanding)) [
      | inl full ↦ rw full (ground arith)
      | inr free ↦
          elim (Bool-cases (ltb c.last_snapshot (RangeTree.min_range_to_fetch c.read_status).0)) [
            | inl above ↦ rw free (rw above (ground arith, ground arith, e, first))
            | inr below ↦
                rw free (rw below (bounded_lem c _ _ e first (ground arith) (ground arith) room))
          ]
    ]
  ]

  -- The state after the window has been asked for.
  abbrev pub Fetched : PerColor V → ℕ → ℕ → PerColor V → Type 0
  Fetched c low high c' =
      RangeSent c.read_status low high (true, c'.read_status)
      × (c'.read_status.num_outstanding ≤ max_pipelined + 1)
      × (c'.last_snapshot ≡ c.last_snapshot)
      × (c'.is_being_read ≡ some (current_state c))

  -- Asking for the window below the horizon that `next_range_to_fetch` gave does not panic. Its entries are outstanding afterwards and
  -- the others as before; never more than one entry above the limit is outstanding, and the colour is being read.
  pub fetching_range_lem :
      (c : PerColor V) (low high : ℕ)
      → WellFormed c.read_status
      → NextWindow c (below_horizon low high)
      → Returns (Fetched c low high) (fetching_range c low high)
  unfolding fetching_range
  fetching_range_lem c low high i (r, e, end, ordered, within, room, few, first) =
      let ordered_test : leb low high ≡ true = ground arith in
      rw ordered_test (
        Returns->>= (RangeSent c.read_status low high) (Fetched c low high)
          (RangeTree.set_range_as_sent c.read_status low high) _
          (set_range_as_sent_lem c.read_status low high r i ordered end e)
          (λ (done, t) x.
            ((refl, x.1, x.2, x.3, x.4, x.5), omega (arith, x.4, few, ordered), refl, refl)))
