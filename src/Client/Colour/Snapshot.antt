-- ===== src/Client/Colour/Snapshot.antt =====
-- The answer to a snapshot: `give_new_snapshot`.
use delos_rust.Prelude.{
  ℕ, ◌-◌, ◌<◌, ◌≤◌, ◌≡◌, max, refl, sym, subst, ◌⊎◌, inl, inr, Bool, true, false, Option, none,
  some, List, [], ◌∷◌, ◌↔◌, arith, ltb, leb, ◌&&◌, if◌then◌else◌, Returns, Bool-cases, Option-cases,
}
use delos_rust.Client.RangeTree
use delos_rust.Client.RangeTree.{RangeTree, sent_to_server, kind_at}
use delos_rust.Client.RangeTree.State.{WellFormed}
use delos_rust.Client.RangeTree.Fetch.{Lowest, first_outstanding_lem}
use delos_rust.Client.Colour.{
  PerColor, ReadState, Buffers, update_horizon, give_new_snapshot, decrement_outstanding_snapshots,
  entry_is_unblocked, reaches, none_pending, is_finished_state, map_or,
}
use delos_rust.Client.Colour.Horizon.{sub32-ok}

-- An entry has a location in a chain.
abbrev pub Names : ℕ → ℕ → List (ℕ × ℕ) → Type 0
Names chain index [] = ⊥
Names chain index ((o, i) ∷ locs) = ((o ≡ chain) × (i ≡ index)) ⊎ Names chain index locs

abbrev pub Within : ℕ → ℕ → List (ℕ × ℕ) → Type 0
Within chain new_horizon locs = (index : ℕ) × Names chain index locs × (index ≤ new_horizon)

reaches-Within :
    (chain h : ℕ) (locs : List (ℕ × ℕ)) → reaches chain h locs ≡ true → Within chain h locs
unfolding reaches
reaches-Within chain h [] e = absurd (ground arith)
reaches-Within chain h ((o, i) ∷ locs) e = elim (Bool-cases (reaches chain h locs)) [
  | inl f ↦ let (index, n, l) = reaches-Within chain h locs f in (index, inr n, l)
  | inr f ↦ (i, inl (ground (arith, f), refl), ground (arith, f))
]

Within-reaches :
    (chain h index : ℕ) (locs : List (ℕ × ℕ))
    → Names chain index locs
    → index ≤ h
    → reaches chain h locs ≡ true
unfolding reaches
Within-reaches chain h index [] n l = absurd n
Within-reaches chain h index ((o, i) ∷ locs) (inl (a, b)) l = ground arith
Within-reaches chain h index ((o, i) ∷ locs) (inr n) l =
    ground (arith, Within-reaches chain h index locs n l)

module _ {V : Type 0} (buffers : Buffers V) where
  -- What becomes of the entry that waits for the next snapshot
  abbrev pub Released : PerColor V → ℕ → Option V → Option V → Type 0
  Released c h released blocked =
      ((v : V) × (c.blocked_on_new_snapshot ≡ some v)
        × (c.last_snapshot < h)
        × Within c.chain h (buffers.locs v)
        × (released ≡ some v)
        × (blocked ≡ none))
      ⊎ (((v : V)
            → c.blocked_on_new_snapshot ≡ some v
            → c.last_snapshot < h
            → ¬ Within c.chain h (buffers.locs v))
          × (released ≡ none)
          × (blocked ≡ c.blocked_on_new_snapshot))

  -- No entry up to the snapshot was asked for and did not arrive.
  abbrev pub NonePending : PerColor V → Type 0
  NonePending c = (q : ℕ) → q ≤ c.last_snapshot → ¬ (kind_at c.read_status q ≡ some sent_to_server)

  -- The read ends with a stale snapshot that was the last one, if it waits for nothing else.
  abbrev pub Ends : PerColor V → ReadState → ℕ → Type 0
  Ends c r h =
      (h ≤ c.last_snapshot)
      × (r.outstanding_snapshots ≡ 1)
      × (r.num_multiappends_searching_for ≡ 0)
      × NonePending c

  abbrev pub CountedDown : PerColor V → ReadState → ℕ → Option ReadState → Type 0
  CountedDown c r h reading =
      (Ends c r h × (reading ≡ none))
      ⊎ ((¬ Ends c r h)
          × (reading ≡ some (record r { outstanding_snapshots = r.outstanding_snapshots - 1 })))

  abbrev pub Snapshot : PerColor V → ReadState → ℕ → Option V × PerColor V → Type 0
  Snapshot c r h (released, c') =
      (c'.last_snapshot ≡ max c.last_snapshot h)
      × Released c h released c'.blocked_on_new_snapshot
      × CountedDown c r h c'.is_being_read
      × (c' ≡ record c {
        last_snapshot = c'.last_snapshot;
        blocked_on_new_snapshot = c'.blocked_on_new_snapshot;
        is_being_read = c'.is_being_read;
      })

  none_pending_lem :
      (c : PerColor V) → WellFormed c.read_status → (none_pending c ≡ true) ↔ NonePending c
  unfolding none_pending
  none_pending_lem c i =
      pending_cases (RangeTree.first_outstanding c.read_status)
        (first_outstanding_lem c.read_status i)
    where
      pending_cases :
          (o : Option ℕ)
          → Lowest c.read_status sent_to_server o
          → (map_or o true (λ q. ltb c.last_snapshot q) ≡ true) ↔ NonePending c
      pending_cases none l = ((λ e q b. l q), λ n. refl)
      pending_cases (some q) (here, below) = (
        (λ e p b. below p (ground arith)),
        λ n. elim (Bool-cases (ltb c.last_snapshot q)) [
          | inl e ↦ e
          | inr e ↦ absurd (n q (ground arith) here)
        ],
      )

  module _ (c : PerColor V) (r : ReadState) (h : ℕ) where
    abbrev counted_down : PerColor V
    counted_down = record c {
      is_being_read = some (record r { outstanding_snapshots = r.outstanding_snapshots - 1 });
    }

    rising_lem : c.last_snapshot < h → Snapshot c r h (update_horizon buffers counted_down h)
    unfolding update_horizon entry_is_unblocked
    rising_lem l =
        let rises : ltb c.last_snapshot h ≡ true = ground arith in
        let goes_on : ¬ Ends c r h = λ e. absurd (omega (arith, e.0, l)) in
        elim (Option-cases c.blocked_on_new_snapshot) [
          | inl e ↦ rw rises (
              rw e (
                omega arith,
                inr ((λ v f. absurd (ground arith)), refl, refl),
                inr (goes_on, refl),
                refl,
              ))
          | inr (v, e) ↦ elim (Bool-cases (reaches c.chain h (buffers.locs v))) [
            | inl f ↦ rw rises (
                rw e (
                  rw f (
                    omega arith,
                    inl (v, refl, l, reaches-Within c.chain h (buffers.locs v) f, refl, refl),
                    inr (goes_on, refl),
                    refl,
                  )))
            | inr f ↦
                let out : (w : V)
                    → some v ≡ some w
                    → c.last_snapshot < h
                    → ¬ Within c.chain h (buffers.locs w) =
                  λ w g _ (index, n, b).
                    let same : v ≡ w = ground arith in
                    absurd (
                      ground (
                        arith,
                        f,
                        Within-reaches c.chain h index (buffers.locs v)
                            (subst (λ x. Names c.chain index (buffers.locs x)) (sym same) n) b,
                      )) in
                rw rises
                  (rw e (rw f (omega arith, inr (out, refl, refl), inr (goes_on, refl), refl)))
          ]
        ]

    stale_lem :
        (idle : Bool)
        → h ≤ c.last_snapshot
        → (idle ≡ true) ↔ Ends c r h
        → Snapshot c r h
            (none, if idle then record counted_down { is_being_read = none } else counted_down)
    stale_lem true l e = (
      omega arith,
      inr ((λ v f m. absurd (omega (arith, l, m))), refl, refl),
      inl (e.0 refl, refl),
      refl,
    )
    stale_lem false l e = (
      omega arith,
      inr ((λ v f m. absurd (omega (arith, l, m))), refl, refl),
      inr ((λ x. absurd (ground (arith, e.1 x))), refl),
      refl,
    )

    idle_iff :
        WellFormed c.read_status
        → h ≤ c.last_snapshot
        → 1 ≤ r.outstanding_snapshots
        → ((is_finished_state (record r { outstanding_snapshots = r.outstanding_snapshots - 1 })
              && none_pending counted_down)
            ≡ true)
          ↔ Ends c r h
    idle_iff i l b =
        let (from, to) = none_pending_lem counted_down i in
        (
          (λ e. (l, ground arith, ground arith, from (ground arith))),
          λ (_, one, zero, n). ground (arith, to n),
        )

    -- The answer to a snapshot that was asked for reaches a colour whose tree is well formed: nothing panics. The horizon becomes the
    -- greater one of the old and the given one. An entry that waits for it is released exactly if the horizon rises and the entry has a
    -- location in the chain that is not beyond it, and waits on otherwise. One snapshot less is outstanding; the read ends exactly if the
    -- horizon does not rise, this was the last snapshot, no multiappend is searched for and no entry up to
    -- the horizon is outstanding. Nothing else changes.
    pub give_new_snapshot_lem :
        WellFormed c.read_status
        → c.is_being_read ≡ some r
        → 1 ≤ r.outstanding_snapshots
        → Returns (Snapshot c r h) (give_new_snapshot buffers c h)
    unfolding give_new_snapshot decrement_outstanding_snapshots
    give_new_snapshot_lem i e b = rw e (
        rw (sub32-ok r.outstanding_snapshots 1 b) (elim (Bool-cases (leb h c.last_snapshot)) [
          | inl s ↦ rw s (stale_lem _ (ground arith) (idle_iff i (ground arith) b))
          | inr s ↦ rw s (rising_lem (ground arith))
        ]))
