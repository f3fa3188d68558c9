-- ===== src/Client/Colour/Horizon.antt =====
-- The horizon of a colour, up to which the client may read: `update_horizon`, `give_new_snapshot` and `block_on_snapshot`.
use delos_rust.Prelude.{
  ℕ, ◌+◌, ◌-◌, ◌<◌, ◌≤◌, ◌≡◌, max, refl, sym, ◌⊎◌, inl, inr, Bool, true, false, Option, none, some,
  List, [], ◌∷◌, arith, ok, ltb, leb, if◌then◌else◌, Returns, Bool-cases,
}
use delos_rust.Client.Colour.{
  PerColor, ReadState, Buffers, update_horizon, give_new_snapshot, block_on_snapshot,
  decrement_outstanding_snapshots, entry_is_unblocked, reaches, location_of, sub32,
}

location_of-reaches :
    (chain index new_horizon : ℕ) (locs : List (ℕ × ℕ))
    → location_of chain locs ≡ some index
    → index ≤ new_horizon
    → reaches chain new_horizon locs ≡ true
unfolding location_of reaches
location_of-reaches chain index h [] e b = absurd (ground arith)
location_of-reaches chain index h ((o, i) ∷ locs) e b =
    ground (arith, location_of-reaches chain index h locs)

pub sub32-ok : (a b : ℕ) → b ≤ a → sub32 a b ≡ ok (a - b)
sub32-ok a b h = ground arith

module _ {V : Type 0} (buffers : Buffers V) where
  -- The horizon after an update, and the entry that it releases.
  abbrev pub Updated : PerColor V → ℕ → Option V × PerColor V → Type 0
  Updated c new_horizon (released, c') =
      (c'.last_snapshot ≡ max c.last_snapshot new_horizon)
      × (c'.read_status ≡ c.read_status)
      × (((released ≡ none) × (c'.blocked_on_new_snapshot ≡ c.blocked_on_new_snapshot))
          ⊎ ((c.last_snapshot < new_horizon)
              × (entry_is_unblocked buffers c.blocked_on_new_snapshot c.chain new_horizon ≡ true)
              × (released ≡ c.blocked_on_new_snapshot)
              × (c'.blocked_on_new_snapshot ≡ none)))

  pub update_horizon-Updated :
      (c : PerColor V) (new_horizon : ℕ)
      → Updated c new_horizon (update_horizon buffers c new_horizon)
  unfolding update_horizon
  update_horizon-Updated c h = elim (Bool-cases (ltb c.last_snapshot h)) [
    | inl a ↦ elim (Bool-cases (entry_is_unblocked buffers c.blocked_on_new_snapshot c.chain h)) [
      | inl b ↦ rw a (rw b (ground arith, refl, inr (ground arith, refl, refl, refl)))
      | inr b ↦ rw a (rw b (ground arith, refl, inl (refl, refl)))
    ]
    | inr a ↦ rw a (ground arith, refl, inl (refl, refl))
  ]

  -- A stale horizon changes nothing but the state of the read.
  Updated-stale :
      (c : PerColor V) (r : Option ReadState) (h : ℕ)
      → h ≤ c.last_snapshot
      → Updated c h (none, record c { is_being_read = r })
  Updated-stale c r h b = (omega arith, refl, inl (refl, refl))

  counted_down : PerColor V → ReadState → PerColor V
  counted_down c r = record c {
    is_being_read = some (record r { outstanding_snapshots = r.outstanding_snapshots - 1 });
  }

  snapshot_cases :
      (c : PerColor V) (r : ReadState) (h : ℕ) (stale idle : Bool)
      → stale ≡ leb h c.last_snapshot
      → Updated c h (
          if stale
          then (
            none,
            if idle then record (counted_down c r) { is_being_read = none } else counted_down c r,
          )
          else update_horizon buffers (counted_down c r) h)
  unfolding counted_down
  snapshot_cases c r h true true e = Updated-stale c none h (ground arith)
  snapshot_cases c r h true false e =
      Updated-stale c (counted_down c r).is_being_read h (ground arith)
  snapshot_cases c r h false idle e = update_horizon-Updated (counted_down c r) h

  -- The horizon after the answer to a snapshot
  pub give_new_snapshot-Updated :
      (c : PerColor V) (r : ReadState) (new_horizon : ℕ)
      → c.is_being_read ≡ some r
      → 1 ≤ r.outstanding_snapshots
      → Returns (Updated c new_horizon) (give_new_snapshot buffers c new_horizon)
  unfolding give_new_snapshot decrement_outstanding_snapshots counted_down
  give_new_snapshot-Updated c r h e b = rw e (
      rw (sub32-ok r.outstanding_snapshots 1 b)
        (snapshot_cases c r h (leb h c.last_snapshot) _ refl))

  pub block_on_snapshot-inv :
      (c c' : PerColor V) (val : V)
      → block_on_snapshot buffers c val ≡ ok c'
      → (location_of c.chain (buffers.locs val) ≡ some (c.last_snapshot + 1))
        × (record c { blocked_on_new_snapshot = some val } ≡ c')
  unfolding block_on_snapshot
  block_on_snapshot-inv c c' val e = ground arith

  -- An entry that was blocked until the next snapshot is released by every horizon beyond the old one.
  pub block_on_snapshot_lem :
      (c c' : PerColor V) (val : V) (new_horizon : ℕ)
      → block_on_snapshot buffers c val ≡ ok c'
      → c.last_snapshot < new_horizon
      → update_horizon buffers c' new_horizon
        ≡ (some val, record c { last_snapshot = new_horizon; blocked_on_new_snapshot = none })
  unfolding update_horizon entry_is_unblocked
  block_on_snapshot_lem c c' val h e b =
      let (found, same) = block_on_snapshot-inv c c' val e in
      let rises : ltb c.last_snapshot h ≡ true = ground arith in
      let reached =
        location_of-reaches c.chain (c.last_snapshot + 1) h (buffers.locs val) found
          (omega arith) in
      rw (sym same) (rw rises (rw reached refl))
