-- ===== src/Server/Skeens/Raised.antt =====
-- The state after an append in the queue has got its final timestamp, and that it keeps the invariant.
use delos_rust.Prelude.{
  ℕ, ◌<◌, ◌≤◌, ◌≡◌, ◌≢◌, refl, sym, ◌∙◌, subst, ◌⊎◌, inl, inr, true, false, some, arith, ok, leb,
  lookup, insert, lookup-insert, List, All, All-map,
}
use delos_rust.Server.Waiting
use delos_rust.Server.Waiting.{
  WaitingForMax, has_max, multi_timestamp, get_id, multi, senti, snap, time_of,
}
use delos_rust.Server.GotMax
use delos_rust.Server.GotMax.{GotMax, happens_before}
use delos_rust.Server.Skeens.{SkeensState, AppendStatus, phase1, singleton}
use delos_rust.Server.Skeens.Origin.{
  Comes, Origin, All-Origin, Origin-before, raised_multi, raised_senti, raised_snap,
}
use delos_rust.Server.Skeens.Invariant.{
  time, is_primary, is_lifted, status_of, Waits, Entry, Element, Inv, SinglesQueued, SinglesKnown,
}

module _ {S E T : Type 0} where
  -- An entry with its final timestamp: the same append, final now.
  abbrev pub Lifted : WaitingForMax S E T → ℕ → WaitingForMax S E T → Type 0
  Lifted w max_timestamp w' =
      (Waiting.set_max_timestamp w max_timestamp ≡ ok (inl w'))
      × (get_id w' ≡ get_id w)
      × (time w' ≡ max_timestamp)
      × (is_lifted w' ≡ true)
      × (is_primary w' ≡ true)
      × ((k : ℕ) → status_of w' k ≡ AppendStatus.phase2 max_timestamp)
      × ((g : GotMax S E T)
          → Comes (get_id w) max_timestamp w' g
          → Comes (get_id w) max_timestamp w g)

  pub lifted_lem :
      (w : WaitingForMax S E T) (m : ℕ)
      → has_max w ≡ false
      → time w ≤ m
      → (w' : WaitingForMax S E T) × Lifted w m w'
  unfolding has_max Waiting.set_max_timestamp get_id multi_timestamp
  lifted_lem (multi s) m h l =
      let low : leb s.timestamp m ≡ true = ground arith in
      (
        WaitingForMax.got_max_multi (record s { timestamp = m }),
        (rw low refl, refl, refl, refl, refl, (λ k. refl), raised_multi s m),
      )
  lifted_lem (senti s) m h l =
      let low : leb s.timestamp m ≡ true = ground arith in
      (
        WaitingForMax.got_max_senti (record s { timestamp = m }),
        (rw low refl, refl, refl, refl, refl, (λ k. refl), raised_senti s m),
      )
  lifted_lem (snap s) m h l =
      let low : leb s.timestamp m ≡ true = ground arith in
      (
        WaitingForMax.got_max_snap (record s { timestamp = m }),
        (rw low refl, refl, refl, refl, refl, (λ k. refl), raised_snap s m),
      )
  lifted_lem _ m h l = cc

  abbrev pub raised : SkeensState S E T → ℕ → ℕ → WaitingForMax S E T → ℕ → SkeensState S E T
  raised s id i w' m = record s {
    phase1_queue = record s.phase1_queue { entries = insert i w' s.phase1_queue.entries };
    append_status = insert id (AppendStatus.phase2 m) s.append_status;
  }

  module _ (s : SkeensState S E T) (inv : Inv s) (id i m : ℕ) (w w' : WaitingForMax S E T)
      (e : Waits s i w) (named : get_id w ≡ id) (l : time w ≤ m) (past : m < s.next_timestamp)
      (f : Lifted w m w') where
    Waits-raised :
        (k : ℕ) (v : WaitingForMax S E T)
        → Waits (raised s id i w' m) k v
        → ((k ≡ i) × (v ≡ w')) ⊎ (Waits s k v × (k ≢ i))
    Waits-raised k v a = ground (arith, lookup-insert i k w' s.phase1_queue.entries)

    -- The append that waited there, under the same id and with a time that was no later.
    before :
        (k : ℕ) (v : WaitingForMax S E T)
        → Waits (raised s id i w' m) k v
        → (u : WaitingForMax S E T) × Waits s k u
          × (get_id v ≡ get_id u)
          × (time u ≤ time v)
          × ((is_lifted v ≡ false) → u ≡ v)
    before k v a = elim (Waits-raised k v a) [
      | inl (b, c) ↦
          (w, rw b e, rw c f.1, rw c (omega (arith, f.2)), λ d. absurd (ground (arith, f.3)))
      | inr (b, c) ↦ (v, b, refl, omega arith, λ d. refl)
    ]

    -- The heap of a later state comes from here, with the final timestamp.
    pub Origin-raised :
        (heap : List (GotMax S E T))
        → All (Origin id m (raised s id i w' m)) heap
        → All (Origin id m s) heap
    Origin-raised heap =
        Origin-before id m id m s (raised s id i w' m) heap (All-Origin id m s) (λ k v g a c.
          elim (Waits-raised k v a) [
            | inl (b, d) ↦ inr (
              i,
              w,
              e,
              subst (λ n. Comes n m w g) named
                  (f.6 g
                    (subst (λ n. Comes n m w' g) (sym named) (subst (λ x. Comes id m x g) d c))),
            )
            | inr (b, d) ↦ inr (k, v, b, c)
          ])

    Entry-raised :
        (k : ℕ) (v : WaitingForMax S E T)
        → Waits (raised s id i w' m) k v
        → Entry (raised s id i w' m) k v
    Entry-raised k v a = elim (Waits-raised k v a) [
      | inl (b, c) ↦
          rw (b, c)
            (record {
              primary = f.4;
              low = omega (arith, (inv.entry i w e).low, f.2);
              high = omega (arith, f.2);
              status = ground (
                arith,
                lookup-insert id (get_id w') (AppendStatus.phase2 m) s.append_status,
                f.1,
                f.5 i,
              );
            })
      | inr (b, c) ↦
          let o = inv.entry k v b in
          let other : id ≢ get_id v = λ x. c (inv.ids k i v w b e (sym x ∙ sym named)) in
          record {
            primary = o.primary;
            low = o.low;
            high = o.high;
            status = ground (
              arith,
              lookup-insert id (get_id v) (AppendStatus.phase2 m) s.append_status,
              o.status,
            );
          }
    ]

    Element-raised : (g : GotMax S E T) → Element s g → Element (raised s id i w' m) g
    Element-raised g o = record {
      regular = o.regular;
      low = o.low;
      high = o.high;
      status = ground (
        arith,
        lookup-insert id (GotMax.get_id g) (AppendStatus.phase2 m) s.append_status,
        o.status,
      );
      apart = λ k v a b. let (u, c, d, x, y) = before k v a in o.apart k u c (b ∙ d);
      before = λ n k v a. let (u, c, d, x, y) = before k v a in omega (arith, o.before n k u c);
    }

    -- A known single append stays where it is.
    pub SinglesKnown-raised : SinglesQueued s → SinglesKnown (raised s id i w' m)
    SinglesKnown-raised q j k a =
        let other : (j ≢ id) × (lookup j s.append_status ≡ some (singleton k)) =
          ground (arith, lookup-insert id j (AppendStatus.phase2 m) s.append_status) in
        let (v, b, c) = q j k other.1 in
        inl (v, ground (arith, lookup-insert i k w' s.phase1_queue.entries, named), c)

    pub Inv-raised : Inv (raised s id i w' m)
    Inv-raised = record {
      window = record {
        min_start = inv.window.min_start;
        start_next = inv.window.start_next;
        keys = λ k v a. inv.window.keys k (before k v a).0 (before k v a).1;
      };
      dense = λ k a b. ground (arith, lookup-insert i k w' s.phase1_queue.entries, inv.dense k);
      clock = inv.clock;
      entry = Entry-raised;
      order = λ a b v x c d g h.
          let (u, p, q, r, y) = before a v d in
          let (u', p', q', r', y') = before b x g in
          let same : u ≡ v = y h in
          omega (arith, inv.order a b v u' c (subst (Waits s a) same p) p' h);
      ids = λ a b v x c d h.
          let (u, p, q, r, y) = before a v c in
          let (u', p', q', r', y') = before b x d in inv.ids a b u u' p p' (sym q ∙ h ∙ q');
      heap = All-map s.got_max_timestamp Element-raised inv.heap;
      ascending = inv.ascending;
      waiting = λ j k a.
          let other : (j ≢ id) × (lookup j s.append_status ≡ some (phase1 k)) =
            ground (arith, lookup-insert id j (AppendStatus.phase2 m) s.append_status) in
          let (v, b, c, d) = inv.waiting j k other.1 in
          (v, ground (arith, lookup-insert i k w' s.phase1_queue.entries, named), c, d);
    }
