-- ===== src/Server/Skeens/Delivery.antt =====
-- One round of `flush_got_max_timestamp`: the first element of the heap goes to the callback.
use delos_rust.Prelude.{
  ℕ, ◌≤◌, ◌≡◌, ◌≢◌, refl, sym, ◌∙◌, subst, max, inl, inr, true, List, [], ◌∷◌, arith, ok, ltb,
  lookup, remove, lookup-remove, Option-cases, Bool-cases, All, some,
}
use delos_rust.Server.Waiting.{WaitingForMax, multi_timestamp, get_id}
use delos_rust.Server.GotMax
use delos_rust.Server.GotMax.{GotMax, happens_before}
use delos_rust.Server.GotMax.Order.{Ascending}
use delos_rust.Server.Skeens.{SkeensState, singleton, can_flush, flush_one}
use delos_rust.Server.Skeens.Invariant.{
  time, Waits, Entry, Element, Inv, FrontWaits, SinglesKnown, Held, not_lifted,
}
use delos_rust.Server.Skeens.SetMax.{can_flush-queued}

module _ {S E T : Type 0} where
  -- What comes before the front has a time that is no later.
  happens_before-times :
      (g : GotMax S E T) (w : WaitingForMax S E T)
      → happens_before g w ≡ ok true
      → GotMax.timestamp g ≤ time w
  unfolding happens_before GotMax.timestamp multi_timestamp
  happens_before-times g w h = ground arith

  -- The state after the first element has gone to the callback.
  abbrev pub delivered : SkeensState S E T → GotMax S E T → List (GotMax S E T) → SkeensState S E T
  delivered s g heap = record s {
    got_max_timestamp = heap;
    append_status = remove (GotMax.get_id g) s.append_status;
    last_flush = max (GotMax.timestamp g) s.last_flush;
  }

  module _ (s : SkeensState S E T) (i : Inv s) (f : FrontWaits s) (g : GotMax S E T)
      (heap : List (GotMax S E T)) (e : s.got_max_timestamp ≡ g ∷ heap)
      (go : can_flush s ≡ ok true) where
    pub first : Element s g
    first = (subst (All (Element s)) e i.heap).0

    -- Nothing in the queue has an earlier time.
    earliest : (k : ℕ) (w : WaitingForMax S E T) → Waits s k w → GotMax.timestamp g ≤ time w
    earliest k w a =
        let (low, high) = i.window.keys k w a in
        elim (Option-cases (lookup s.phase1_queue.start s.phase1_queue.entries)) [
          | inl n ↦ absurd (ground (arith, i.dense s.phase1_queue.start))
          | inr (v, n) ↦
              let h = happens_before-times g v (sym (can_flush-queued s g heap v e n) ∙ go) in
              elim (Bool-cases (ltb s.phase1_queue.start k)) [
                | inl l ↦ omega (
                  arith,
                  i.order s.phase1_queue.start k v w (ground arith) n a (not_lifted v (f v n)),
                )
                | inr l ↦ let same : v ≡ w = ground arith in rw (sym same) h
              ]
        ]

    Entry-delivered :
        (k : ℕ) (w : WaitingForMax S E T) → Waits s k w → Entry (delivered s g heap) k w
    Entry-delivered k w a =
        let o = i.entry k w a in
        record {
          primary = o.primary;
          low = omega (arith, o.low, earliest k w a);
          high = o.high;
          status = ground (
            arith,
            lookup-remove (GotMax.get_id g) (get_id w) s.append_status,
            o.status,
            first.apart k w a,
          );
        }

    Element-delivered :
        (h : GotMax S E T)
        → (GotMax.timestamp g ≤ GotMax.timestamp h) × (GotMax.get_id g ≢ GotMax.get_id h)
        → Element s h
        → Element (delivered s g heap) h
    Element-delivered h a o = record {
      regular = o.regular;
      low = omega (arith, o.low, a.0);
      high = o.high;
      status =
          ground (
            arith,
            lookup-remove (GotMax.get_id g) (GotMax.get_id h) s.append_status,
            o.status,
            a.1,
          );
      apart = o.apart;
      before = o.before;
    }

    Elements-delivered :
        (hs : List (GotMax S E T))
        → All
            (λ h. (GotMax.timestamp g ≤ GotMax.timestamp h) × (GotMax.get_id g ≢ GotMax.get_id h))
            hs
        → All (Element s) hs
        → All (Element (delivered s g heap)) hs
    Elements-delivered [] a b = tt
    Elements-delivered (h ∷ hs) a b = (Element-delivered h a.0 b.0, Elements-delivered hs a.1 b.1)

    pub Inv-delivered : Inv (delivered s g heap)
    Inv-delivered =
        let asc = subst Ascending e i.ascending in
        let all = subst (All (Element s)) e i.heap in
        record {
          window = i.window;
          dense = i.dense;
          clock = omega (arith, i.clock, first.high);
          entry = Entry-delivered;
          order = i.order;
          ids = i.ids;
          heap = Elements-delivered heap asc.0 all.1;
          ascending = asc.1;
          waiting = λ id k a.
              i.waiting id k (ground (arith, lookup-remove (GotMax.get_id g) id s.append_status));
        }

    pub SinglesKnown-delivered : SinglesKnown s → SinglesKnown (delivered s g heap)
    SinglesKnown-delivered q id k a =
        let other : (GotMax.get_id g ≢ id) × (lookup id s.append_status ≡ some (singleton k)) =
          ground (arith, lookup-remove (GotMax.get_id g) id s.append_status) in
        elim (q id k other.1) [
          | inl b ↦ inl b
          | inr b ↦ elim (subst (Held id) e b) [ inl c ↦ absurd (other.0 c.0) | inr c ↦ inr c ]
        ]

    pub flush_one_lem : flush_one s ≡ ok (g, delivered s g heap)
    unfolding flush_one
    flush_one_lem = rw (e, flush_one) (rw first.status refl)
