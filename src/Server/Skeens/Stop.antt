-- ===== src/Server/Skeens/Stop.antt =====
-- The state in which nothing more can be flushed.
use delos_rust.Prelude.{
  ℕ, ◌≤◌, ◌≡◌, refl, sym, ◌∙◌, subst, inl, inr, true, false, List, ◌∷◌, arith, ok, lookup,
  Option-cases, All, All-map, none,
}
use delos_rust.Server.Waiting.{WaitingForMax, multi_timestamp}
use delos_rust.Server.GotMax
use delos_rust.Server.GotMax.{GotMax, happens_before}
use delos_rust.Server.GotMax.Order.{Ascending}
use delos_rust.Server.Skeens.{SkeensState, can_flush}
use delos_rust.Server.Skeens.Invariant.{
  time, Element, Inv, FrontWaits, SinglesKnown, Held, IsSettled,
}
use delos_rust.Server.Skeens.Singles.{none-Held}
use delos_rust.Server.Skeens.SetMax.{can_flush-queued, heap_cases}

module _ {S E T : Type 0} where
  -- What does not come before the front has a time that is no earlier.
  waits-times :
      (g : GotMax S E T) (w : WaitingForMax S E T)
      → happens_before g w ≡ ok false
      → time w ≤ GotMax.timestamp g
  unfolding happens_before GotMax.timestamp multi_timestamp
  waits-times g w h = ground arith

  later :
      (low : ℕ) (g : GotMax S E T) (heap : List (GotMax S E T))
      → low ≤ GotMax.timestamp g
      → Ascending (g ∷ heap)
      → All (λ h. low ≤ GotMax.timestamp h) (g ∷ heap)
  later low g heap l a = (l, All-map heap (λ h b. omega (arith, b.0)) a.0)

  can_flush-alone :
      (s : SkeensState S E T) (g : GotMax S E T) (heap : List (GotMax S E T))
      → s.got_max_timestamp ≡ g ∷ heap
      → lookup s.phase1_queue.start s.phase1_queue.entries ≡ none
      → can_flush s ≡ ok true
  unfolding can_flush
  can_flush-alone s g heap e n = rw (e, can_flush) (rw n refl)

  -- A state in which nothing can be flushed is one that operations start from.
  pub stopped-IsSettled :
      (s : SkeensState S E T)
      → Inv s
      → FrontWaits s
      → SinglesKnown s
      → can_flush s ≡ ok false
      → IsSettled s
  unfolding can_flush
  stopped-IsSettled s i f q c = elim (heap_cases s.got_max_timestamp) [
    | inl e ↦ record {
      inv = i;
      front = f;
      singles = λ id k a. elim (q id k a) [ inl b ↦ b | inr b ↦ absurd (subst (Held id) e b) ];
      queue = λ x. e;
    }
    | inr (g, heap, e) ↦ elim (Option-cases (lookup s.phase1_queue.start s.phase1_queue.entries)) [
      | inl n ↦ absurd (ground (arith, c, can_flush-alone s g heap e n))
      | inr (w, n) ↦
          let queued : ¬ (s.phase1_queue.start ≡ s.phase1_queue.next) =
            (λ x. ground (arith, i.window.keys s.phase1_queue.start w n)) in
          let l = waits-times g w (sym (can_flush-queued s g heap w e n) ∙ c) in
          let late = later (time w) g heap l (subst Ascending e i.ascending) in
          let early =
            All-map (g ∷ heap) (λ h o m. o.before m s.phase1_queue.start w n)
              (subst (All (Element s)) e i.heap) in
          record {
            inv = i;
            front = f;
            singles = λ id k a. elim (q id k a) [
              | inl b ↦ b
              | inr b ↦ absurd (none-Held id (time w) (g ∷ heap) early late (subst (Held id) e b))
            ];
            queue = λ x. absurd (queued x);
          }
    ]
  ]
