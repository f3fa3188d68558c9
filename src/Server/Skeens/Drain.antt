-- ===== src/Server/Skeens/Drain.antt =====
-- The loop of `set_max_timestamp`: entries at the front of the queue that have their final timestamp move to the heap.
use delos_rust.Prelude.{
  ℕ, zero, suc, ◌+◌, ◌-◌, ◌^◌, ◌<◌, ◌≤◌, ◌≡◌, ◌≢◌, refl, sym, ◌∙◌, subst, inl, inr, true, false,
  ◌==◌, none, List, arith, ok, ltb, is_empty, lookup, remove, lookup-remove, lookup_of_is_empty,
  Returns, Returns-map, length, u64_max, Option-cases, Bool-cases, All, All-map,
}
use delos_rust.Util.DequeMap
use delos_rust.Util.DequeMap.{DequeMap}
use delos_rust.Util.DequeMap.Laws.{pop-IsValid}
use delos_rust.Server.Waiting.{
  WaitingForMax, has_max, multi_timestamp, get_id, simple_single, got_max_multi, got_max_senti,
  got_max_snap,
}
use delos_rust.Server.GotMax
use delos_rust.Server.GotMax.{GotMax, into_got_max, push}
use delos_rust.Server.GotMax.Order.{Ascending, is_regular, push_lem, IsNew}
use delos_rust.Server.Skeens.{SkeensState, drain, singleton}
use delos_rust.Server.Skeens.Invariant.{
  time, is_primary, is_lifted, Waits, Element, Inv, FrontWaits, SinglesKnown, pending, status_of,
}
use delos_rust.Server.Skeens.Origin.{Comes, Origin, All-Origin, Origin-before}
use delos_rust.Server.Skeens.Singles.{Held-push}

module _ {S E T : Type 0} where
  abbrev Final : WaitingForMax S E T → GotMax S E T → Type 0
  Final w g =
      (into_got_max w ≡ ok g)
      × (is_regular g ≡ true)
      × (GotMax.timestamp g ≡ time w)
      × (GotMax.get_id g ≡ get_id w)
      × (GotMax.is_multi g ≡ false → is_lifted w ≡ false)
      × ((k j : ℕ) → status_of w k ≡ singleton j → GotMax.is_multi g ≡ false)
      × ((id m : ℕ) → Comes id m w g)

  into_got_max_lem :
      (w : WaitingForMax S E T)
      → is_primary w ≡ true
      → has_max w ≡ true
      → (g : GotMax S E T) × Final w g
  unfolding has_max into_got_max GotMax.is_multi GotMax.timestamp GotMax.get_id get_id
      multi_timestamp
  into_got_max_lem (simple_single s) p h = (
    _,
    (
      refl,
      refl,
      refl,
      refl,
      (λ m. ground arith),
      (λ k j m. ground arith),
      λ id m. ((refl, refl, refl), refl),
    ),
  )
  into_got_max_lem (got_max_multi s) p h = (
    _,
    (
      refl,
      refl,
      refl,
      refl,
      (λ m. ground arith),
      (λ k j m. ground arith),
      λ id m. ((refl, refl, refl), refl),
    ),
  )
  into_got_max_lem (got_max_senti s) p h = (
    _,
    (
      refl,
      refl,
      refl,
      refl,
      (λ m. ground arith),
      (λ k j m. ground arith),
      λ id m. ((refl, refl, refl), refl),
    ),
  )
  into_got_max_lem (got_max_snap s) p h = (
    _,
    (
      refl,
      refl,
      refl,
      refl,
      (λ m. ground arith),
      (λ k j m. ground arith),
      λ id m. ((refl, refl, refl), refl),
    ),
  )
  into_got_max_lem _ p h = cc

  -- The state after the first entry has moved.
  abbrev moved : SkeensState S E T → List (GotMax S E T) → SkeensState S E T
  moved s heap = record s {
    phase1_queue = record s.phase1_queue {
      entries = remove s.phase1_queue.start s.phase1_queue.entries;
      start = s.phase1_queue.start + 1;
      min = s.phase1_queue.start + 1;
    };
    got_max_timestamp = heap;
  }

  module _ (s : SkeensState S E T) (i : Inv s) (w : WaitingForMax S E T)
      (e : Waits s s.phase1_queue.start w) (h : has_max w ≡ true) (g : GotMax S E T)
      (f : Final w g) where
    Waits-moved :
        (heap : List (GotMax S E T)) (k : ℕ) (v : WaitingForMax S E T)
        → Waits (moved s heap) k v
        → Waits s k v × (s.phase1_queue.start ≢ k)
    Waits-moved heap k v a = (
      ground (arith, lookup-remove s.phase1_queue.start k s.phase1_queue.entries),
      λ b. absurd (ground (arith, lookup-remove s.phase1_queue.start k s.phase1_queue.entries)),
    )

    All-IsNew : (heap : List (GotMax S E T)) → All (Element s) heap → All (IsNew g) heap
    All-IsNew heap a =
        All-map heap (λ x o. (o.regular, λ b. o.apart s.phase1_queue.start w e (sym b ∙ f.3))) a

    Element-moved :
        (heap : List (GotMax S E T)) (x : GotMax S E T) → Element s x → Element (moved s heap) x
    Element-moved heap x o = record {
      regular = o.regular;
      low = o.low;
      high = o.high;
      status = o.status;
      apart = λ k v a. o.apart k v (Waits-moved heap k v a).0;
      before = λ m k v a. o.before m k v (Waits-moved heap k v a).0;
    }

    Element-first : (heap : List (GotMax S E T)) → Element (moved s heap) g
    Element-first heap =
        let o = i.entry s.phase1_queue.start w e in
        record {
          regular = f.1;
          low = omega (arith, o.low, f.2);
          high = omega (arith, o.high, f.2);
          status = rw f.3 (rw o.status refl);
          apart = λ k v a b.
              let (c, d) = Waits-moved heap k v a in
              d (i.ids s.phase1_queue.start k w v e c (sym f.3 ∙ b));
          before = λ m k v a.
              let (c, d) = Waits-moved heap k v a in
              let behind : s.phase1_queue.start < k = ground (arith, i.window.keys k v c, d) in
              omega (arith, i.order s.phase1_queue.start k w v behind e c (f.4 m), f.2);
        }

    Inv-moved :
        (heap : List (GotMax S E T))
        → Ascending heap
        → All (Element (moved s heap)) heap
        → Inv (moved s heap)
    Inv-moved heap a b = record {
      window = pop-IsValid s.phase1_queue i.window (i.window.keys s.phase1_queue.start w e).1;
      dense = λ k x y.
          ground (arith, lookup-remove s.phase1_queue.start k s.phase1_queue.entries, i.dense k);
      clock = i.clock;
      entry = λ k v x.
          let o = i.entry k v (Waits-moved heap k v x).0 in
          record { primary = o.primary; low = o.low; high = o.high; status = o.status };
      order =
          λ k j v x l y z. i.order k j v x l (Waits-moved heap k v y).0 (Waits-moved heap j x z).0;
      ids = λ k j v x y z. i.ids k j v x (Waits-moved heap k v y).0 (Waits-moved heap j x z).0;
      heap = b;
      ascending = a;
      waiting = λ id k x.
          let (v, y, z, o) = i.waiting id k x in
          (v, ground (arith, lookup-remove s.phase1_queue.start k s.phase1_queue.entries), z, o);
    }

    -- The first entry takes its place in the heap, if it is a single append.
    SinglesKnown-moved :
        (heap : List (GotMax S E T))
        → push g s.got_max_timestamp ≡ ok heap
        → SinglesKnown s
        → SinglesKnown (moved s heap)
    SinglesKnown-moved heap p q id k a = elim (q id k a) [
      | inl (v, b, c) ↦ elim (Bool-cases (k == s.phase1_queue.start)) [
        | inl d ↦ inr (
            Held-push id g s.got_max_timestamp heap p
              (inl (f.3 ∙ ground arith, f.5 k k (ground (arith, (i.entry k v b).status)))))
        | inr d ↦
            inl (v, ground (arith, lookup-remove s.phase1_queue.start k s.phase1_queue.entries), c)
      ]
      | inr b ↦ inr (Held-push id g s.got_max_timestamp heap p (inr b))
    ]

    moved_lem :
        (heap : List (GotMax S E T)) × (push g s.got_max_timestamp ≡ ok heap)
        × (length heap ≡ suc (length s.got_max_timestamp))
        × Inv (moved s heap)
        × ((id m : ℕ) → All (Origin id m s) heap)
    moved_lem =
        let (heap, a, (b, c, d)) =
          push_lem g s.got_max_timestamp f.1 (All-IsNew s.got_max_timestamp i.heap) i.ascending in
        (
          heap,
          a,
          c,
          Inv-moved heap b (
              d (Element (moved s heap)) (Element-first heap)
                (All-map s.got_max_timestamp (Element-moved heap) i.heap)),
          λ id m.
              d (Origin id m s) (inr (s.phase1_queue.start, w, e, f.6 id m)) (All-Origin id m s),
        )

  abbrev pub Drained :
      SkeensState S E T → DequeMap (WaitingForMax S E T) × List (GotMax S E T) → Type 0
  Drained s (queue, heap) =
      let s' = record s { phase1_queue = queue; got_max_timestamp = heap } in
      Inv s'
      × FrontWaits s'
      × SinglesKnown s'
      × (pending s' ≡ pending s)
      × ((id m : ℕ) → All (Origin id m s) heap)

  drain-none :
      (fuel : ℕ) (s : SkeensState S E T)
      → lookup s.phase1_queue.start s.phase1_queue.entries ≡ none
      → drain (suc fuel) s.phase1_queue s.got_max_timestamp
        ≡ ok (s.phase1_queue, s.got_max_timestamp)
  unfolding drain
  drain-none fuel s e = rw (e, drain) refl

  drain-waits :
      (fuel : ℕ) (s : SkeensState S E T) (w : WaitingForMax S E T)
      → Waits s s.phase1_queue.start w
      → has_max w ≡ false
      → drain (suc fuel) s.phase1_queue s.got_max_timestamp
        ≡ ok (s.phase1_queue, s.got_max_timestamp)
  unfolding drain
  drain-waits fuel s w e h = rw (e, drain) (rw h refl)

  drain-next :
      (fuel : ℕ) (s : SkeensState S E T) (w : WaitingForMax S E T) (g : GotMax S E T)
      (heap : List (GotMax S E T))
      → Inv s
      → s.phase1_queue.next ≤ u64_max
      → Waits s s.phase1_queue.start w
      → has_max w ≡ true
      → into_got_max w ≡ ok g
      → push g s.got_max_timestamp ≡ ok heap
      → drain (suc fuel) s.phase1_queue s.got_max_timestamp
        ≡ drain fuel ((moved s heap).phase1_queue) ((moved s heap).got_max_timestamp)
  unfolding drain DequeMap.pop_front
  drain-next fuel s w g heap i b e h f p =
      let inside = i.window.keys s.phase1_queue.start w e in
      let sum : ltb (s.phase1_queue.start + 1) (2 ^ 64) ≡ true = ground (arith, inside) in
      let full : is_empty s.phase1_queue.entries ≡ false =
        ground (arith, lookup_of_is_empty s.phase1_queue.start s.phase1_queue.entries) in
      rw (e, drain) (rw (h, full, sum) (rw (e, f) (rw p refl)))

  -- With enough fuel the loop ends without a panic, keeps the invariant, and leaves an entry in front that waits.
  pub drain_lem :
      (fuel : ℕ) (s : SkeensState S E T)
      → Inv s
      → SinglesKnown s
      → s.phase1_queue.next ≤ u64_max
      → s.phase1_queue.next - s.phase1_queue.start < fuel
      → Returns (Drained s) (drain fuel s.phase1_queue s.got_max_timestamp)
  drain_lem zero s i q b l = absurd (omega arith)
  drain_lem (suc fuel) s i q b l =
      elim (Option-cases (lookup s.phase1_queue.start s.phase1_queue.entries)) [
        | inl e ↦
            subst (Returns (Drained s)) (sym (drain-none fuel s e))
              (i, (λ w f. absurd (ground arith)), q, refl, λ id m. All-Origin id m s)
        | inr (w, e) ↦ elim (Bool-cases (has_max w)) [
          | inl h ↦
              let (g, f) = into_got_max_lem w (i.entry s.phase1_queue.start w e).primary h in
              let (heap, p, more, j, org) = moved_lem s i w e h g f in
              let inside = i.window.keys s.phase1_queue.start w e in
              subst (Returns (Drained s)) (sym (drain-next fuel s w g heap i b e h f.0 p)) (
                Returns-map {P = Drained (moved s heap)} {Q = Drained s} _
                  (drain_lem fuel (moved s heap) j (SinglesKnown-moved s i w e h g f heap p q) b
                    (omega arith))
                  (λ x (o, a, c, d, y). (
                    o,
                    a,
                    c,
                    omega (arith, d, more),
                    λ id m.
                        Origin-before id m id m s (moved s heap) x.1 (org id m)
                          (λ k v z b t. inr (k, v, (Waits-moved s i w e h g f heap k v b).0, t))
                          (y id m),
                  )))
          | inr h ↦
              subst (Returns (Drained s)) (sym (drain-waits fuel s w e h))
                (i, (λ v f. ground arith), q, refl, λ id m. All-Origin id m s)
        ]
      ]
