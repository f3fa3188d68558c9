-- ===== src/Util/RangeTree/Place.antt =====
-- `place`: putting a range with a new value, and what is left of the old range, into the map.
use delos_rust.Prelude.{
  ℕ, ◌+◌, ◌-◌, ◌≤◌, ◌≡◌, inl, inr, not, ◌&&◌, Option, none, some, false, arith, if◌then◌else◌, ltb,
  Bool-cases, Returns, Returns->>=, Returns-map,
}
use delos_rust.Util.Range.{Range, range, contains}
use delos_rust.Util.RangeMap.{Tree, at, insert, at_holds, at_same, at-insert}
use delos_rust.Util.RangeTree.{Mergeable, value_of, merge_both, place}
use delos_rust.Util.RangeTree.Tiling.{Partial, IsTiling, Partial-ext, insert-Partial}
use delos_rust.Util.RangeTree.Merge.{
  IsLawful, NextDone, PriorDone, try_merge_with_next_lem, try_merge_with_prior_lem,
}
use delos_rust.Util.RangeTree.Fill.{Filled, Hole, insert-Filled, merge_both_lem}

-- The parts of `old` before and after `new`.
abbrev pub pieces : Range → Range → Option Range × Option Range
pieces old new = (
  (if ltb old.first new.first then some (range old.first (new.first - 1)) else none),
  (if ltb new.last old.last then some (range (new.last + 1) old.last) else none),
)

-- The map shows the new value on the new range, the old value on the rest of the hole, and what
-- `t` shows elsewhere.
pub record Placed {V : Type 0} (m : Mergeable V) (t : Tree V) (old : Range) (k : V) (new : Range)
    (nk : V) (t' : Tree V) : Type 0 where
  pub tiling : IsTiling m.beq t'
  pub values :
      (q : ℕ)
      → value_of (at t' q)
        ≡ (if contains new q then some nk else if contains old q then some k else value_of (at t q))

module _ {V : Type 0} (m : Mergeable V) (laws : IsLawful m) where
  -- A piece of the old value at an end of the hole makes the hole smaller.
  pub insert_pre-Hole :
      (t : Tree V) (old : Range) (k : V) (a : ℕ)
      → Hole m t old k
      → old.first + 1 ≤ a
      → a ≤ old.last
      → Partial m.beq (contains (range a old.last)) (insert (range old.first (a - 1)) k t)
  insert_pre-Hole t old k a h b c =
      Partial-ext m.beq _ _ _ (λ q. ground arith)
        (insert-Partial m.beq _ t (range old.first (a - 1)) k h.rest (omega arith)
          (omega (arith, h.small)) (λ q x y. ground arith)
          (λ s w e. ground (arith, h.rest.hole (a - 1 + 1))) (λ q s w e g. h.prior q s w e g))

  insert_post-Hole :
      (t : Tree V) (old : Range) (k : V) (b : ℕ)
      → Hole m t old k
      → old.first ≤ b
      → b + 1 ≤ old.last
      → Partial m.beq (contains (range old.first b)) (insert (range (b + 1) old.last) k t)
  insert_post-Hole t old k b h lo hi =
      Partial-ext m.beq _ _ _ (λ q. ground arith)
        (insert-Partial m.beq _ t (range (b + 1) old.last) k h.rest (omega arith) h.small
          (λ q x y. ground arith) (λ s w e. h.next s w e)
          (λ q s w e g.
            ground (arith, h.rest.hole b, at_holds q t s w e, at_same 0 q b t s w h.rest.sorted e)))

  at-insert-Hole :
      (t : Tree V) (old : Range) (k : V) (r : Range) (w : V)
      → Hole m t old k
      → r.first ≤ r.last
      → old.first ≤ r.first
      → r.last ≤ old.last
      → (q : ℕ) → at (insert r w t) q ≡ (if contains r q then some (r, w) else at t q)
  at-insert-Hole t old k r w h a b c q =
      at-insert 0 q t r w h.rest.sorted a (λ p x y. h.rest.hole p (ground arith))

  module _ (t : Tree V) (old : Range) (k : V) (new : Range) (nk : V) (h : Hole m t old k)
      (o : new.first ≤ new.last) (fresh : m.beq k nk ≡ false) where
    place_pre :
        old.first + 1 ≤ new.first
        → new.last ≡ old.last
        → Returns
            (Placed m t old k new nk)
            (place m (some (range old.first (new.first - 1)), none) t k new nk)
    unfolding place
    place_pre b e =
        let pre : Range = range old.first (new.first - 1) in
        let t₁ : Tree V = insert pre k t in
        let i : Partial m.beq (contains new) t₁ =
          Partial-ext m.beq _ _ _ (λ q. ground arith)
            (insert_pre-Hole t old k new.first h b (omega arith)) in
        let a : ((q : ℕ) → at t₁ q ≡ (if contains pre q then some (pre, k) else at t q)) =
          at-insert-Hole t old k pre k h (omega arith) (omega arith) (omega arith) in
        Returns->>= (NextDone m (contains new) t₁ new nk) _ _ _
          (try_merge_with_next_lem m laws (contains new) t₁ new nk i o (omega (arith, h.small))
            (λ q x. x))
          λ (r, k', t₂) (g, l, n).
            let f : Filled m t₁ new nk (insert r k' t₂) =
              insert-Filled m laws t₁ new nk r k' t₂ g o n (λ q s w x y. ground (
                arith,
                a (new.first - 1),
                g.kept q,
                g.rest.hole q,
                at_same 0 q (new.first - 1) t₁ s w i.sorted,
                at_holds q t₁ s w,
              )) in
            record { tiling = f.tiling; values = λ q. ground (arith, f.values q, a q) }

    place_post :
        new.first ≡ old.first
        → new.last + 1 ≤ old.last
        → Returns
            (Placed m t old k new nk)
            (place m (none, some (range (new.last + 1) old.last)) t k new nk)
    unfolding place
    place_post e b =
        let post : Range = range (new.last + 1) old.last in
        let t₁ : Tree V = insert post k t in
        let i : Partial m.beq (contains new) t₁ =
          Partial-ext m.beq _ _ _ (λ q. ground arith)
            (insert_post-Hole t old k new.last h (omega arith) b) in
        let a : ((q : ℕ) → at t₁ q ≡ (if contains post q then some (post, k) else at t q)) =
          at-insert-Hole t old k post k h (omega arith) (omega arith) (omega arith) in
        Returns->>= (PriorDone m (contains new) t₁ new nk) _ _ _
          (try_merge_with_prior_lem m laws (contains new) t₁ new nk i o (omega (arith, h.small))
            (λ q x. x))
          λ (r, k', t₂) (g, l, p).
            let f : Filled m t₁ new nk (insert r k' t₂) =
              insert-Filled m laws t₁ new nk r k' t₂ g o
                (λ s w x. ground (
                  arith,
                  a (new.last + 1),
                  g.kept (r.last + 1),
                  laws.beq_iff k nk,
                  laws.beq_iff nk k,
                ))
                p in
            record { tiling = f.tiling; values = λ q. ground (arith, f.values q, a q) }

    place_whole :
        new.first ≡ old.first
        → new.last ≡ old.last
        → Returns (Placed m t old k new nk) (place m (none, none) t k new nk)
    unfolding place
    place_whole e b =
        Returns-map (merge_both m t new nk)
          (merge_both_lem m laws t new nk (Partial-ext m.beq _ _ _ (λ q. ground arith) h.rest) o
            (omega (arith, h.small)))
          λ t' f. record { tiling = f.tiling; values = λ q. ground (arith, f.values q) }

    place_middle :
        old.first + 1 ≤ new.first
        → new.last + 1 ≤ old.last
        → Placed m t old k new nk (
            insert
              (range (new.last + 1) old.last)
              k
              (insert (range old.first (new.first - 1)) k (insert new nk t)))
    place_middle b c = record {
      tiling = Partial-ext m.beq _ _ _ (λ q. ground arith) i₃;
      values = λ q. ground (arith, a₁ q, a₂ q, a₃ q);
    }
      where
        pre : Range
        pre = range old.first (new.first - 1)

        post : Range
        post = range (new.last + 1) old.last

        t₁ : Tree V
        t₁ = insert new nk t

        t₂ : Tree V
        t₂ = insert pre k t₁

        a₁ : (q : ℕ) → at t₁ q ≡ (if contains new q then some (new, nk) else at t q)
        a₁ = at-insert-Hole t old k new nk h o (omega arith) (omega arith)

        i₁ : Partial m.beq (λ q. contains old q && not (contains new q)) t₁
        i₁ =
            insert-Partial m.beq _ t new nk h.rest o (omega (arith, h.small))
              (λ q x y. ground arith) (λ s w e. ground (arith, h.rest.hole (new.last + 1)))
              (λ q s w e g. ground (
                arith,
                h.rest.hole (new.first - 1),
                at_holds q t s w e,
                at_same 0 q (new.first - 1) t s w h.rest.sorted e,
              ))

        a₂ : (q : ℕ) → at t₂ q ≡ (if contains pre q then some (pre, k) else at t₁ q)
        a₂ q = at-insert 0 q t₁ pre k i₁.sorted (omega arith) (λ p x y. i₁.hole p (ground arith))

        i₂ :
            Partial m.beq (λ q. (contains old q && not (contains new q)) && not (contains pre q)) t₂
        i₂ =
            insert-Partial m.beq _ t₁ pre k i₁ (omega arith) (omega (arith, h.small))
              (λ q x y. ground arith) (λ s w e. ground (arith, a₁ (new.first - 1 + 1)))
              (λ q s w e g. ground (arith, a₁ q, h.prior q s w))

        a₃ :
            (q : ℕ)
            → at (insert post k t₂) q ≡ (if contains post q then some (post, k) else at t₂ q)
        a₃ q = at-insert 0 q t₂ post k i₂.sorted (omega arith) (λ p x y. i₂.hole p (ground arith))

        i₃ :
            Partial m.beq
              (λ q.
                ((contains old q && not (contains new q)) && not (contains pre q))
                && not (contains post q))
              (insert post k t₂)
        i₃ =
            insert-Partial m.beq _ t₂ post k i₂ (omega arith) h.small (λ q x y. ground arith)
              (λ s w e. ground (arith, a₂ (old.last + 1), a₁ (old.last + 1), h.next s w))
              (λ q s w e g. ground (
                arith,
                a₂ q,
                a₁ q,
                a₁ new.last,
                a₂ new.last,
                at_holds q t₂ s w e,
                at_same 0 q new.last t₂ s w i₂.sorted e,
                laws.beq_iff k nk,
                laws.beq_iff nk k,
              ))

    -- Whatever is left of the old range, `place` returns and puts every part where it belongs.
    pub place_lem :
        old.first ≤ new.first
        → new.last ≤ old.last
        → Returns (Placed m t old k new nk) (place m (pieces old new) t k new nk)
    unfolding place
    place_lem a b = elim (Bool-cases (ltb old.first new.first)) [
      | inl c ↦ elim (Bool-cases (ltb new.last old.last)) [
        | inl d ↦ rw (c, d) (place_middle (ground arith) (ground arith))
        | inr d ↦ rw (c, d) (place_pre (ground arith) (ground arith))
      ]
      | inr c ↦ elim (Bool-cases (ltb new.last old.last)) [
        | inl d ↦ rw (c, d) (place_post (ground arith) (ground arith))
        | inr d ↦ rw (c, d) (place_whole (ground arith) (ground arith))
      ]
    ]
