-- ===== src/Util/RangeTree/Span.antt =====
-- `set_range_as`: the loop ends within its fuel, and every point of the range reads as the new value.
use delos_rust.Prelude.{
  ℕ, zero, suc, ◌+◌, ◌-◌, ◌≤◌, ◌<◌, ◌≡◌, refl, inl, inr, Bool, true, false, not, ◌&&◌, ◌||◌, Option,
  some, none, arith, if◌then◌else◌, leb, u64_max, Bool-cases, Option-cases, ok, Returns,
  Returns->>=, Returns-map, ◌>>=◌, add64,
}
use delos_rust.Util.Range
use delos_rust.Util.Range.{Range, range, contains, spans, point}
use delos_rust.Util.RangeMap.{
  Tree, at, find_entry, remove_entry, at_holds, at_same, at-remove_entry,
}
use delos_rust.Util.RangeTree.{
  Mergeable, value_of, get, range_loop, replace_range, set_range_as, remove_from_map,
}
use delos_rust.Util.RangeTree.Tiling.{Partial, IsTiling, Partial-ext, remove_entry-Partial}
use delos_rust.Util.RangeTree.Merge.{IsLawful}
use delos_rust.Util.RangeTree.Fill.{Filled, remove_entry-Hole, merge_both_lem}
use delos_rust.Util.RangeTree.Place.{pieces, place_lem}
use delos_rust.Util.RangeTree.Point.{remove_from_map_if-found}
use delos_rust.Util.RangeTree.Invariant.{tree_invariant_lem}
use delos_rust.Util.RangeTree.Absorb.{Round, Absorbed, absorb_lem}

pub remove_from_map-found :
    {V : Type 0} (t : Tree V) (key : Range) (r : Range) (v : V)
    → find_entry key t ≡ some (r, v)
    → remove_from_map t key ≡ ok (r, v, remove_entry key t)
unfolding remove_from_map
remove_from_map-found t key r v e = rw (e, remove_from_map)

module _ {V : Type 0} (m : Mergeable V) (laws : IsLawful m) (whole : Tree V) (low high : ℕ) (nk : V)
    (small : high ≤ u64_max) where
  -- When the loop ends the accumulator holds the whole new range.
  record Ended (acc : Range) (t : Tree V) : Type 0 where
    first : acc.first ≤ low
    last : high ≤ acc.last
    bound : acc.last ≤ u64_max
    rest : Partial m.beq (contains acc) t
    outside : (q : ℕ) → contains acc q ≡ false → value_of (at t q) ≡ value_of (at whole q)
    extra :
        (q : ℕ)
        → contains acc q ≡ true
        → contains (range low high) q ≡ false
        → value_of (at whole q) ≡ some nk

  next-Round :
      (old acc : Range) (t : Tree V) (stop : Bool) (r : Range) (k : V)
      → Absorbed m whole low high nk old acc t stop
      → acc.last < high
      → at t (acc.last + 1) ≡ some (r, k)
      → Round m whole low high nk acc r k (remove_entry (point (acc.last + 1)) t)
  next-Round old acc t stop r k a b e =
      let first : r.first ≡ acc.last + 1 = ground (
        arith,
        at_holds (acc.last + 1) t r k e,
        at_same 0 (acc.last + 1) acc.last t r k a.rest.sorted e,
        a.rest.hole acc.last,
        a.acc_first,
        a.acc_mid,
      ) in
      let holds = at_holds (acc.last + 1) t r k e in
      record {
        proper = (omega arith, a.rest.bounded (acc.last + 1) r k e);
        acc_first = a.acc_first;
        acc_mid = a.acc_mid;
        acc_last = b;
        old_last = omega arith;
        inner = λ x. absurd (omega (arith, a.acc_mid));
        shape = inl first;
        rest =
            Partial-ext m.beq _ _ _ (λ q. refl)
              (remove_entry-Partial m.beq _ t (acc.last + 1) r k a.rest e);
        next = λ s w x. ground (
          arith,
          at-remove_entry 0 (acc.last + 1) (r.last + 1) t r k a.rest.sorted e,
          a.rest.distinct (acc.last + 1) r k s w e,
        );
        prior = λ q s w x y. ground (
          arith,
          at-remove_entry 0 (acc.last + 1) q t r k a.rest.sorted e,
          at_same 0 q acc.last t s w a.rest.sorted,
          at_holds q t s w,
          a.rest.hole acc.last,
          a.acc_first,
          a.acc_mid,
        );
        outside = λ q x y.
            ground (arith, at-remove_entry 0 (acc.last + 1) q t r k a.rest.sorted e, a.outside q);
        removed =
            λ q x. ground (arith, at_same 0 (acc.last + 1) q t r k a.rest.sorted e, a.outside q);
        extra = a.extra;
      }

  -- The rest of the loop after a round that does not end it.
  more :
      (fuel : ℕ) (acc old : Range) (t : Tree V) (stop : Bool)
      → Absorbed m whole low high nk old acc t stop
      → acc.last < high
      → high + 1 ≤ old.last + suc fuel
      → ((acc old : Range) (k : V) (t : Tree V)
          → Round m whole low high nk acc old k t
          → high + 1 ≤ old.last + fuel
          → 1 ≤ fuel
          → Returns
              (λ (acc', t'). Ended acc' t')
              (range_loop m fuel (range low high) nk acc old k t))
      → Returns
          (λ (acc', t'). Ended acc' t')
          (add64 acc.last 1 >>= λ n. remove_from_map t (point n) >>= λ (r, k, t').
            range_loop m fuel (range low high) nk acc r k t')
  more fuel acc old t stop a b f rec =
      let sum : add64 acc.last 1 ≡ ok (acc.last + 1) = ground arith in
      elim (Option-cases (at t (acc.last + 1))) [
        | inl e ↦ absurd (ground (arith, a.rest.full (acc.last + 1)))
        | inr ((r, k), e) ↦ rw sum (
            rw (remove_from_map-found t (point (acc.last + 1)) r k e) (
              rec acc r k _ (next-Round old acc t stop r k a b e)
                (ground (arith, a.reached, at_holds (acc.last + 1) t r k e))
                (ground (arith, a.reached))))
      ]

  range_loop_lem :
      (fuel : ℕ) (acc old : Range) (k : V) (t : Tree V)
      → Round m whole low high nk acc old k t
      → high + 1 ≤ old.last + fuel
      → 1 ≤ fuel
      → Returns (λ (acc', t'). Ended acc' t') (range_loop m fuel (range low high) nk acc old k t)
  unfolding range_loop
  range_loop_lem zero acc old k t i f g = absurd (omega arith)
  range_loop_lem (suc fuel) acc old k t i f g =
      Returns->>= (λ (acc', t', stop). Absorbed m whole low high nk old acc' t' stop)
        (λ (acc', t'). Ended acc' t') _
        (λ (acc', t', stop).
          if stop || leb high acc'.last
          then ok (acc', t')
          else (add64 acc'.last 1 >>= λ n. remove_from_map t' (point n) >>= λ (r, k, t'').
              range_loop m fuel (range low high) nk acc' r k t''))
        (absorb_lem m whole low high nk laws small acc old k t i)
        λ (acc', t', stop) a. elim (Bool-cases (stop || leb high acc'.last)) [
          | inl e ↦ rw e (record {
            first = a.acc_first;
            last = ground (arith, a.stopped);
            bound = a.acc_last;
            rest = a.rest;
            outside = a.outside;
            extra = a.extra;
          })
          | inr e ↦ rw e (
              more fuel acc' old t' stop a (ground arith) (omega (arith, i.old_last))
                (range_loop_lem fuel))
        ]

module _ {V : Type 0} (m : Mergeable V) where
  -- Whether the value at the first point of the range may be replaced.
  abbrev pub may_replace : Option V → V → Bool
  may_replace none nk = false
  may_replace (some k) nk = m.can_be_replaced_with k nk

  abbrev pub SpanSet : Tree V → ℕ → ℕ → V → Tree V → Type 0
  SpanSet t low high nk t' =
      IsTiling m.beq t'
      × ((q : ℕ)
          → get t' q ≡ (
              if may_replace (value_of (at t low)) nk && contains (range low high) q
              then ok nk
              else get t q))

-- What is left of a range that spans another.
pub remove-pieces :
    (a b : Range) → b.first ≤ b.last → spans a b ≡ true → Range.remove a b ≡ ok (pieces a b)
unfolding Range.remove spans
remove-pieces a b h e = ground arith

spans-le : (a b : Range) → spans a b ≡ true → (a.first ≤ b.first) × (b.last ≤ a.last)
unfolding spans
spans-le a b e = ground arith

not-spans-lt : (a b : Range) → a.first ≤ b.first → spans a b ≡ false → a.last < b.last
unfolding spans
not-spans-lt a b h e = ground arith

module _ {V : Type 0} (m : Mergeable V) (laws : IsLawful m) where
  -- The loop starts from the first point of the new range, with the range that holds it removed.
  first-Round :
      (t : Tree V) (low high : ℕ) (nk : V) (r : Range) (k : V)
      → IsTiling m.beq t
      → high ≤ u64_max
      → at t low ≡ some (r, k)
      → spans r (range low high) ≡ false
      → Round m t low high nk (point low) r k (remove_entry (point low) t)
  first-Round t low high nk r k i b e s =
      let hole = remove_entry-Hole m laws t low r k i e in
      let holds = at_holds low t r k e in
      let last : r.last < high = not-spans-lt r (range low high) holds.0 s in
      record {
        proper = (hole.ordered, hole.small);
        acc_first = omega arith;
        acc_mid = omega arith;
        acc_last = omega arith;
        old_last = holds.1;
        inner = λ x. last;
        shape = inr (refl, refl, holds.0);
        rest = Partial-ext m.beq _ _ _ (λ q. ground arith) hole.rest;
        next = hole.next;
        prior = hole.prior;
        outside = λ q x y. ground (arith, at-remove_entry 0 low q t r k i.sorted e);
        removed = λ q x. ground (arith, at_same 0 low q t r k i.sorted e);
        extra = λ q x y. absurd (ground arith);
      }

  -- The tree reads as the new value on the range and as before elsewhere.
  record Replaced (t : Tree V) (low high : ℕ) (nk : V) (t' : Tree V) : Type 0 where
    tiling : IsTiling m.beq t'
    values :
        (q : ℕ)
        → value_of (at t' q) ≡ (if contains (range low high) q then some nk else value_of (at t q))

  replace_range_lem :
      (t : Tree V) (low high : ℕ) (nk : V) (r : Range) (k : V)
      → IsTiling m.beq t
      → low ≤ high
      → high ≤ u64_max
      → at t low ≡ some (r, k)
      → ((spans r (range low high) ≡ true) → m.beq k nk ≡ false)
      → Returns
          (Replaced t low high nk)
          (replace_range m (range low high) nk r k (remove_entry (point low) t))
  unfolding replace_range
  replace_range_lem t low high nk r k i a b e f =
      let hole = remove_entry-Hole m laws t low r k i e in
      let gone = λ (q : ℕ). at-remove_entry 0 low q t r k i.sorted e in
      let same = λ (q : ℕ). at_same 0 low q t r k i.sorted e in
      let holds = at_holds low t r k e in
      elim (Bool-cases (spans r (range low high))) [
        | inl s ↦ rw s (
            rw (remove-pieces r (range low high) a s) (
              Returns-map {Q = Replaced t low high nk} _
                (place_lem m laws (remove_entry (point low) t) r k (range low high) nk hole a (f s)
                  (spans-le r (range low high) s).0 (spans-le r (range low high) s).1)
                λ t' p. record {
                  tiling = p.tiling;
                  values = λ q. ground (arith, p.values q, gone q, same q);
                }))
        | inr s ↦ rw s (
            Returns->>= (λ (acc, t'). Ended m laws t low high nk b acc t') (Replaced t low high nk)
              _ _
              (range_loop_lem m laws t low high nk b (suc (high - low)) (point low) r k
                (remove_entry (point low) t) (first-Round t low high nk r k i b e s) (omega arith)
                (omega arith))
              λ (acc, t') x.
                Returns-map {P = Filled m t' acc nk} {Q = Replaced t low high nk} _
                  (merge_both_lem m laws t' acc nk x.rest (omega (arith, x.first, x.last)) x.bound)
                  λ t'' y. record {
                    tiling = y.tiling;
                    values =
                        λ q. ground (arith, y.values q, x.outside q, x.extra q, x.first, x.last);
                  })
      ]

  -- On a tiling and an interval of `u64`, `set_range_as` returns, its two checks of the invariant included. If the
  -- value at the first point may be replaced by the new one, every point of the interval reads as the new
  -- value; every other point reads as before, and so does all if it may not. The ranges are a tiling again.
  pub set_range_as_lem :
      (t : Tree V) (low high : ℕ) (nk : V)
      → IsTiling m.beq t
      → low ≤ high
      → high ≤ u64_max
      → Returns (SpanSet m t low high nk) (set_range_as m t low high nk)
  unfolding set_range_as get Range.new
  set_range_as_lem t low high nk i a b = elim (Option-cases (at t low)) [
    | inl e ↦ absurd (ground (arith, i.full low))
    | inr ((r, k), e) ↦
        let ordered : leb low high ≡ true = ground arith in
        rw (tree_invariant_lem m laws t i) (
          rw ordered (
            rw (remove_from_map_if-found t (point low) _ r k e)
              (elim (Bool-cases
                (not (spans r (range low high) && m.beq k nk) && m.can_be_replaced_with k nk)) [
                  | inl f ↦ rw f (
                      Returns->>= (Replaced t low high nk) (SpanSet m t low high nk) _ _
                        (replace_range_lem t low high nk r k i a b e (λ s. ground (arith, f, s)))
                        λ t' x.
                          rw (tree_invariant_lem m laws t' x.tiling)
                            (x.tiling, λ q. ground (arith, f, e, x.values q)))
                  | inr f ↦ rw f (
                    i,
                    λ q. ground (
                      arith,
                      f,
                      e,
                      laws.beq_iff k nk,
                      spans-le r (range low high),
                      at_same 0 low q t r k i.sorted e,
                    ),
                  )
                ])))
  ]
