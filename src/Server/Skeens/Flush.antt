-- ===== src/Server/Skeens/Flush.antt =====
-- `flush_got_max_timestamp`: the heap goes to the callback as long as its first element comes before the front of the
-- queue.
use delos_rust.Prelude.{
  ℕ, zero, suc, ◌<◌, ◌≤◌, ◌≡◌, refl, sym, ◌∙◌, subst, max, inl, inr, true, false, List, [], ◌∷◌,
  arith, ok, ◌>>=◌, ap, ◌++◌, length, Returns, Returns->>=, Bool-cases,
}
use delos_rust.Server.GotMax
use delos_rust.Server.GotMax.{GotMax, happens_before}
use delos_rust.Server.Skeens.{
  SkeensState, can_flush, flush_one, flush_loop, flush_got_max_timestamp,
}
use delos_rust.Server.Skeens.Invariant.{Inv, FrontWaits, SinglesKnown, IsSettled}
use delos_rust.Server.Skeens.SetMax.{can_flush_lem, heap_cases}
use delos_rust.Server.Skeens.Delivery.{
  delivered, first, Inv-delivered, SinglesKnown-delivered, flush_one_lem,
}
use delos_rust.Server.Skeens.Stop.{stopped-IsSettled}

module _ {S E T : Type 0} where
  -- Times that do not fall, from the last delivery before to the last one after.
  abbrev pub Paced : ℕ → List (GotMax S E T) → ℕ → Type 0
  Paced low [] high = low ≡ high
  Paced low (g ∷ gs) high = (low ≤ GotMax.timestamp g) × Paced (GotMax.timestamp g) gs high

  pub record Delivered (s : SkeensState S E T) (x : List (GotMax S E T) × SkeensState S E T)
      : Type 0 where
    pub inv : Inv x.1
    pub front : FrontWaits x.1
    pub settled : IsSettled x.1
    pub queue : x.1.phase1_queue ≡ s.phase1_queue
    pub prefix : x.0 ++ x.1.got_max_timestamp ≡ s.got_max_timestamp
    pub paced : Paced s.last_flush x.0 x.1.last_flush
    pub stopped : can_flush x.1 ≡ ok false

  Delivered-next :
      (s : SkeensState S E T) (g : GotMax S E T) (heap : List (GotMax S E T))
      (x : List (GotMax S E T) × SkeensState S E T)
      → s.got_max_timestamp ≡ g ∷ heap
      → s.last_flush ≤ GotMax.timestamp g
      → Delivered (delivered s g heap) x
      → Delivered s (g ∷ x.0, x.1)
  Delivered-next s g heap x e l d = record {
    inv = d.inv;
    front = d.front;
    settled = d.settled;
    queue = d.queue;
    prefix = ap (λ h. g ∷ h) d.prefix ∙ sym e;
    paced =
        let same : max (GotMax.timestamp g) s.last_flush ≡ GotMax.timestamp g = omega arith in
        (l, subst (λ low. Paced low x.0 x.1.last_flush) same d.paced);
    stopped = d.stopped;
  }

  flush_loop-stop :
      (fuel : ℕ) (s : SkeensState S E T)
      → can_flush s ≡ ok false
      → flush_loop (suc fuel) s ≡ ok ([], s)
  unfolding flush_loop
  flush_loop-stop fuel s c = rw (c, flush_loop) refl

  flush_loop-next :
      (fuel : ℕ) (s s₁ : SkeensState S E T) (g : GotMax S E T)
      → can_flush s ≡ ok true
      → flush_one s ≡ ok (g, s₁)
      → flush_loop (suc fuel) s ≡ (flush_loop fuel s₁ >>= λ x. ok (g ∷ x.0, x.1))
  unfolding flush_loop
  flush_loop-next fuel s s₁ g c o = rw (c, flush_loop) (rw o refl)

  flush_loop-end :
      (fuel : ℕ) (s : SkeensState S E T)
      → Inv s
      → FrontWaits s
      → SinglesKnown s
      → can_flush s ≡ ok false
      → Returns (Delivered s) (flush_loop (suc fuel) s)
  flush_loop-end fuel s i f q c =
      subst (Returns (Delivered s)) (sym (flush_loop-stop fuel s c)) (record {
        inv = i;
        front = f;
        settled = stopped-IsSettled s i f q c;
        queue = refl;
        prefix = refl;
        paced = refl;
        stopped = c;
      })

  no_flush : (s : SkeensState S E T) → s.got_max_timestamp ≡ [] → can_flush s ≡ ok false
  unfolding can_flush
  no_flush s e = rw (e, can_flush) refl

  flush_loop_lem :
      (fuel : ℕ) (s : SkeensState S E T)
      → Inv s
      → FrontWaits s
      → SinglesKnown s
      → length s.got_max_timestamp < fuel
      → Returns (Delivered s) (flush_loop fuel s)
  flush_loop_lem zero s i f q l = absurd (omega arith)
  flush_loop_lem (suc fuel) s i f q l = elim (heap_cases s.got_max_timestamp) [
    | inl e ↦ flush_loop-end fuel s i f q (no_flush s e)
    | inr (g, heap, e) ↦
        let (go, c) = can_flush_lem s i f in
        elim (Bool-cases go) [
          | inl y ↦
              let now = c ∙ ap ok y in
              let shorter : length heap < fuel = omega (arith, ap length e) in
              subst (Returns (Delivered s))
                (sym (
                  flush_loop-next fuel s (delivered s g heap) g now
                    (flush_one_lem s i f g heap e now)))
                (Returns->>= (Delivered (delivered s g heap)) (Delivered s)
                  (flush_loop fuel (delivered s g heap)) (λ x. ok (g ∷ x.0, x.1))
                  (flush_loop_lem fuel (delivered s g heap) (Inv-delivered s i f g heap e now) f
                    (SinglesKnown-delivered s i f g heap e now q) shorter)
                  (λ x d. Delivered-next s g heap x e ((first s i f g heap e now).low) d))
          | inr y ↦ flush_loop-end fuel s i f q (c ∙ ap ok y)
        ]
  ]

  -- From any state with the invariant whose queue is empty or has a waiting entry in front, and whose single appends
  -- are all in the queue or the heap, the flush ends and does not panic. It delivers a first part of the heap, in order of the final timestamps and none earlier than
  -- the last delivery before; the queue stays as it was, nothing more can be flushed, and the
  -- next operation may start.
  pub flush_got_max_timestamp_lem :
      (s : SkeensState S E T)
      → Inv s
      → FrontWaits s
      → SinglesKnown s
      → Returns (Delivered s) (flush_got_max_timestamp s)
  unfolding flush_got_max_timestamp
  flush_got_max_timestamp_lem s i f q =
      flush_loop_lem (suc (length s.got_max_timestamp)) s i f q (omega arith)
