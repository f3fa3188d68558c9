-- ===== src/Server/Skeens/Append.antt =====
-- The state after an append with a new id, and that it keeps the invariant.
use delos_rust.Prelude.{
  ℕ, ◌+◌, ◌<◌, ◌≡◌, sym, ◌∙◌, ◌⊎◌, inl, inr, true, false, none, some, arith, lookup, insert,
  All-map, lookup-insert, ◌==◌, if◌then◌else◌,
}
use delos_rust.Util.DequeMap.Laws.{push-IsValid}
use delos_rust.Server.Waiting.{WaitingForMax, has_max, get_id}
use delos_rust.Server.GotMax
use delos_rust.Server.GotMax.{GotMax}
use delos_rust.Server.Skeens.{SkeensState, AppendStatus, phase1, singleton}
use delos_rust.Server.Skeens.Invariant.{
  time, is_primary, is_lifted, status_of, Waits, Entry, Element, Inv, IsSettled,
}

module _ {S E T : Type 0} where
  status_of-phase1 :
      (w : WaitingForMax S E T) (k i : ℕ) → status_of w k ≡ phase1 i → (k ≡ i) × (has_max w ≡ false)
  unfolding has_max
  status_of-phase1 w k i e = ground arith

  status_of-singleton : (w : WaitingForMax S E T) (k i : ℕ) → status_of w k ≡ singleton i → k ≡ i
  status_of-singleton w k i e = ground arith

  -- The state after an append with a new id.
  abbrev pub enqueued : SkeensState S E T → ℕ → WaitingForMax S E T → SkeensState S E T
  enqueued s id w = record s {
    next_timestamp = s.next_timestamp + 1;
    phase1_queue = record s.phase1_queue {
      entries = insert s.phase1_queue.next w s.phase1_queue.entries;
      next = s.phase1_queue.next + 1;
    };
    append_status = insert id (status_of w s.phase1_queue.next) s.append_status;
  }

  module _ (s : SkeensState S E T) (id : ℕ) (w : WaitingForMax S E T) (i : IsSettled s)
      (fresh : lookup id s.append_status ≡ none) (primary : is_primary w ≡ true)
      (named : get_id w ≡ id) (timed : time w ≡ s.next_timestamp) where
    in_queue :
        (k : ℕ)
        → lookup k (enqueued s id w).phase1_queue.entries
          ≡ (if s.phase1_queue.next == k then some w else lookup k s.phase1_queue.entries)
    in_queue k = lookup-insert s.phase1_queue.next k w s.phase1_queue.entries

    status_at :
        (j : ℕ)
        → lookup j (enqueued s id w).append_status
          ≡ (if id == j then some (status_of w s.phase1_queue.next) else lookup j s.append_status)
    status_at j = lookup-insert id j (status_of w s.phase1_queue.next) s.append_status

    Waits-enqueued :
        (k : ℕ) (v : WaitingForMax S E T)
        → Waits (enqueued s id w) k v
        → ((k ≡ s.phase1_queue.next) × (v ≡ w)) ⊎ (Waits s k v × (k < s.phase1_queue.next))
    Waits-enqueued k v e = ground (arith, in_queue k, i.inv.window.keys k v)

    Entry-enqueued :
        (k : ℕ) (v : WaitingForMax S E T)
        → Waits (enqueued s id w) k v
        → Entry (enqueued s id w) k v
    Entry-enqueued k v e = elim (Waits-enqueued k v e) [
      | inl (a, b) ↦
          rw (a, b)
            (record {
              primary = primary;
              low = omega (arith, i.inv.clock);
              high = omega arith;
              status = ground (arith, status_at (get_id w));
            })
      | inr (a, b) ↦
          let o = i.inv.entry k v a in
          record {
            primary = o.primary;
            low = o.low;
            high = omega (arith, o.high);
            status = ground (arith, status_at (get_id v), o.status);
          }
    ]

    Element-enqueued : (g : GotMax S E T) → Element s g → Element (enqueued s id w) g
    Element-enqueued g o = record {
      regular = o.regular;
      low = o.low;
      high = omega (arith, o.high);
      status = ground (arith, status_at (GotMax.get_id g), o.status);
      apart = λ k v e f. elim (Waits-enqueued k v e) [
        | inl (a, b) ↦ ground (arith, o.status)
        | inr (a, b) ↦ o.apart k v a f
      ];
      before = λ m k v e. elim (Waits-enqueued k v e) [
        | inl (a, b) ↦ rw b (omega (arith, o.high))
        | inr (a, b) ↦ o.before m k v a
      ];
    }

    order-enqueued :
        (a b : ℕ) (v x : WaitingForMax S E T)
        → a < b
        → Waits (enqueued s id w) a v
        → Waits (enqueued s id w) b x
        → is_lifted v ≡ false
        → time v < time x
    order-enqueued a b v x l e f h = elim (Waits-enqueued a v e) [
      | inl (c, d) ↦ absurd (ground (arith, Waits-enqueued b x f))
      | inr (c, d) ↦ elim (Waits-enqueued b x f) [
        | inl (m, n) ↦ rw n (omega (arith, (i.inv.entry a v c).high))
        | inr (m, n) ↦ i.inv.order a b v x l c m h
      ]
    ]

    ids-enqueued :
        (a b : ℕ) (v x : WaitingForMax S E T)
        → Waits (enqueued s id w) a v
        → Waits (enqueued s id w) b x
        → get_id v ≡ get_id x
        → a ≡ b
    ids-enqueued a b v x e f h = elim (Waits-enqueued a v e) [
      | inl (c, d) ↦ elim (Waits-enqueued b x f) [
        | inl (m, n) ↦ ground arith
        | inr (m, n) ↦ absurd (ground (arith, (i.inv.entry b x m).status))
      ]
      | inr (c, d) ↦ elim (Waits-enqueued b x f) [
        | inl (m, n) ↦ absurd (ground (arith, (i.inv.entry a v c).status))
        | inr (m, n) ↦ i.inv.ids a b v x c m h
      ]
    ]

    status-enqueued :
        (j : ℕ) (st : AppendStatus)
        → lookup j (enqueued s id w).append_status ≡ some st
        → ((j ≡ id) × (status_of w s.phase1_queue.next ≡ st)) ⊎ (lookup j s.append_status ≡ some st)
    status-enqueued j st e = ground (arith, status_at j)

    Waits-kept : (k : ℕ) (v : WaitingForMax S E T) → Waits s k v → Waits (enqueued s id w) k v
    Waits-kept k v e = ground (arith, in_queue k, i.inv.window.keys k v e)

    Waits-new : (k : ℕ) → s.phase1_queue.next ≡ k → Waits (enqueued s id w) k w
    Waits-new k e = ground (arith, in_queue k)

    Inv-enqueued : Inv (enqueued s id w)
    Inv-enqueued = record {
      window = push-IsValid s.phase1_queue w i.inv.window;
      dense = λ k a b. ground (arith, in_queue k, i.inv.dense k);
      clock = omega (arith, i.inv.clock);
      entry = Entry-enqueued;
      order = order-enqueued;
      ids = ids-enqueued;
      heap = All-map s.got_max_timestamp Element-enqueued i.inv.heap;
      ascending = i.inv.ascending;
      waiting = λ j k e. elim (status-enqueued j (phase1 k) e) [
        | inl (a, b) ↦
            let (c, d) = status_of-phase1 w s.phase1_queue.next k b in
            (w, Waits-new k c, named ∙ sym a, d)
        | inr a ↦ let (v, b, c, d) = i.inv.waiting j k a in (v, Waits-kept k v b, c, d)
      ];
    }

    -- The new append stands behind another one, or waits for its final time.
    pub enqueued-IsSettled :
        (s.phase1_queue.start < s.phase1_queue.next) ⊎ (has_max w ≡ false)
        → IsSettled (enqueued s id w)
    enqueued-IsSettled h = record {
      inv = Inv-enqueued;
      front = λ v e. elim (Waits-enqueued s.phase1_queue.start v e) [
        | inl (a, b) ↦ elim h [ inl c ↦ absurd (omega arith) | inr c ↦ rw b c ]
        | inr (a, b) ↦ i.front v a
      ];
      singles = λ j k e. elim (status-enqueued j (singleton k) e) [
        | inl (a, b) ↦
            (w, Waits-new k (status_of-singleton w s.phase1_queue.next k b), named ∙ sym a)
        | inr a ↦ let (v, b, c) = i.singles j k a in (v, Waits-kept k v b, c)
      ];
      queue = λ e. absurd (omega (arith, i.inv.window.start_next));
    }
