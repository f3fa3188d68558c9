-- ===== src/Util/RangeTree/Absorb.antt =====
-- One round of the loop of `set_range_as`.
use delos_rust.Prelude.{
  ℕ, ◌+◌, ◌-◌, ◌≤◌, ◌<◌, ◌≡◌, refl, ◌⊎◌, inl, inr, Bool, true, false, ◌||◌, some, none, arith,
  if◌then◌else◌, ltb, u64_max, Bool-cases, ok, Returns, min, max,
}
use delos_rust.Util.Range.{Range, range, contains, merge_with, trim_out}
use delos_rust.Util.Range.Hull.{IsProper, merge_with_lem}
use delos_rust.Util.RangeMap.{Tree, at, insert, at_holds, at_same, at-insert}
use delos_rust.Util.RangeTree.{Mergeable, value_of, absorb}
use delos_rust.Util.RangeTree.Tiling.{Partial, Partial-ext, insert-Partial}
use delos_rust.Util.RangeTree.Merge.{IsLawful, DiffersNext, DiffersPrior}
use delos_rust.Util.RangeTree.Fill.{Hole}
use delos_rust.Util.RangeTree.Place.{insert_pre-Hole}

abbrev pub hull : Range → Range → Range
hull a b = range (min a.first b.first) (max a.last b.last)

module _ {V : Type 0} (m : Mergeable V) (whole : Tree V) (low high : ℕ) (nk : V) where
  -- At the head of the loop: `whole` is the tree before the call, the accumulator and the removed
  -- range are the hole, and what the accumulator holds outside the new range has the new value.
  pub record Round (acc old : Range) (k : V) (t : Tree V) : Type 0 where
    pub proper : IsProper old
    pub acc_first : acc.first ≤ low
    pub acc_mid : low ≤ acc.last
    pub acc_last : acc.last < high
    pub old_last : acc.last ≤ old.last
    pub inner : old.first ≤ low → old.last < high
    pub shape :
        (old.first ≡ acc.last + 1) ⊎ ((acc.first ≡ low) × (acc.last ≡ low) × (old.first ≤ low))
    pub rest : Partial m.beq (λ q. contains acc q || contains old q) t
    pub next : DiffersNext m t old k
    pub prior : DiffersPrior m t old k
    pub outside :
        (q : ℕ)
        → contains acc q ≡ false
        → contains old q ≡ false
        → value_of (at t q) ≡ value_of (at whole q)
    pub removed : (q : ℕ) → contains old q ≡ true → value_of (at whole q) ≡ some k
    pub extra :
        (q : ℕ)
        → contains acc q ≡ true
        → contains (range low high) q ≡ false
        → value_of (at whole q) ≡ some nk

  -- After a round.
  pub record Absorbed (old acc : Range) (t : Tree V) (stop : Bool) : Type 0 where
    pub acc_first : acc.first ≤ low
    pub acc_mid : low ≤ acc.last
    pub acc_last : acc.last ≤ u64_max
    pub rest : Partial m.beq (contains acc) t
    pub outside : (q : ℕ) → contains acc q ≡ false → value_of (at t q) ≡ value_of (at whole q)
    pub extra :
        (q : ℕ)
        → contains acc q ≡ true
        → contains (range low high) q ≡ false
        → value_of (at whole q) ≡ some nk
    pub stopped : stop ≡ true → high ≤ acc.last
    pub reached : (acc.last ≡ old.last) ⊎ (high ≤ acc.last)

  module _ (laws : IsLawful m) (small : high ≤ u64_max) (acc old : Range) (k : V) (t : Tree V)
      (i : Round acc old k t) where
    merge-hull : merge_with acc old ≡ ok (hull acc old)
    merge-hull =
        merge_with_lem acc old (omega (arith, i.acc_first, i.acc_mid, i.acc_last)) i.proper
          (ground (arith, i.shape, i.acc_mid, i.old_last, i.acc_first))

    hull-Absorbed :
        ((q : ℕ)
          → contains old q ≡ true
          → contains (range low high) q ≡ false
          → value_of (at whole q) ≡ some nk)
        → Absorbed old (hull acc old) t false
    hull-Absorbed h = record {
      acc_first = omega (arith, i.acc_first);
      acc_mid = omega (arith, i.acc_mid);
      acc_last = omega (arith, i.proper, i.acc_last);
      rest =
          Partial-ext m.beq _ _ _ (λ q. ground (arith, i.shape, i.acc_mid, i.old_last, i.acc_first))
            i.rest;
      outside = λ q e.
          i.outside q (ground (arith, i.shape, i.acc_mid, i.old_last, i.acc_first))
            (ground (arith, i.shape, i.acc_mid, i.old_last, i.acc_first));
      extra = λ q a b. ground (arith, h q, i.extra q, i.shape, i.acc_mid, i.old_last, i.acc_first);
      stopped = λ e. cc;
      reached = inl (omega (arith, i.old_last));
    }

    absorb_same :
        m.beq k nk ≡ true
        → k ≡ nk
        → Returns
            (λ (acc', t', stop). Absorbed old acc' t' stop)
            (absorb m (range low high) nk acc old k t)
    unfolding absorb
    absorb_same e f = rw e (rw merge-hull (hull-Absorbed (λ q a b. ground (arith, i.removed q))))

    absorb_inside :
        m.beq k nk ≡ false
        → low ≤ old.first
        → old.last ≤ high
        → Returns
            (λ (acc', t', stop). Absorbed old acc' t' stop)
            (absorb m (range low high) nk acc old k t)
    unfolding absorb
    absorb_inside e a b =
        let cut : trim_out old (range low high) ≡ ok (none, old, none) =
          unfold trim_out in ground (arith, i.proper) in
        rw e (rw cut (rw merge-hull (hull-Absorbed (λ q x y. ground arith))))

    -- The old range begins before the new one: its first part goes back.
    absorb_before :
        m.beq k nk ≡ false
        → old.first < low
        → Returns
            (λ (acc', t', stop). Absorbed old acc' t' stop)
            (absorb m (range low high) nk acc old k t)
    unfolding absorb
    absorb_before e a =
        let here : (acc.first ≡ low) × (acc.last ≡ low) × (old.first ≤ low) =
          ground (arith, i.shape, i.acc_mid) in
        let last : old.last < high = i.inner here.2 in
        let mid : Range = range low old.last in
        let pre : Range = range old.first (low - 1) in
        let cut : trim_out old (range low high) ≡ ok (some pre, mid, none) =
          unfold trim_out in ground (arith, i.proper, i.old_last) in
        let merge : merge_with acc mid ≡ ok mid = unfold merge_with in ground (arith, i.old_last) in
        let hole : Hole m t old k = record {
          rest = Partial-ext m.beq _ _ _ (λ q. ground (arith, i.old_last)) i.rest;
          ordered = omega (arith, i.proper);
          small = omega (arith, i.proper);
          next = i.next;
          prior = i.prior;
        } in
        let new : ((q : ℕ)
            → at (insert pre k t) q ≡ (if contains pre q then some (pre, k) else at t q)) =
          λ q.
            at-insert 0 q t pre k i.rest.sorted (omega arith)
              (λ p x y. hole.rest.hole p (ground (arith, i.old_last))) in
        rw e (
          rw cut (
            rw merge (record {
              acc_first = omega arith;
              acc_mid = omega (arith, i.old_last);
              acc_last = omega (arith, i.proper);
              rest =
                  insert_pre-Hole m laws t old k low hole (omega arith) (omega (arith, i.old_last));
              outside = λ q x. ground (arith, new q, i.removed q, i.outside q, i.old_last);
              extra = λ q x y. ground arith;
              stopped = λ x. cc;
              reached = inl refl;
            })))

    -- The old range ends after the new one: its last part goes back, and the loop stops.
    absorb_after :
        m.beq k nk ≡ false
        → low ≤ old.first
        → high < old.last
        → Returns
            (λ (acc', t', stop). Absorbed old acc' t' stop)
            (absorb m (range low high) nk acc old k t)
    unfolding absorb
    absorb_after e a b =
        let here : old.first ≡ acc.last + 1 = ground (arith, i.shape, i.inner, i.acc_mid) in
        let mid : Range = range old.first high in
        let post : Range = range (high + 1) old.last in
        let cut : trim_out old (range low high) ≡ ok (none, mid, some post) =
          unfold trim_out in ground (arith, i.proper, i.acc_last, i.acc_mid) in
        let merge : merge_with acc mid ≡ ok (range acc.first high) =
          unfold merge_with in ground (arith, i.acc_first, i.acc_mid, i.acc_last) in
        let new : ((q : ℕ)
            → at (insert post k t) q ≡ (if contains post q then some (post, k) else at t q)) =
          λ q.
            at-insert 0 q t post k i.rest.sorted (omega arith)
              (λ p x y. i.rest.hole p (ground (arith, i.acc_last))) in
        rw e (
          rw cut (
            rw merge (record {
              acc_first = i.acc_first;
              acc_mid = omega (arith, i.acc_last, i.acc_mid);
              acc_last = small;
              rest =
                  Partial-ext m.beq _ _ _ (λ q. ground (arith, i.acc_last, i.acc_first, i.acc_mid))
                    (insert-Partial m.beq _ t post k i.rest (omega arith) (omega (arith, i.proper))
                      (λ q x y. ground (arith, i.acc_last)) i.next
                      (λ q s w x y. ground (
                        arith,
                        i.rest.hole high,
                        i.acc_last,
                        at_holds q t s w x,
                        at_same 0 q high t s w i.rest.sorted x,
                      )));
              outside = λ q x.
                  ground
                    (arith, new q, i.removed q, i.outside q, i.acc_last, i.acc_first, i.acc_mid);
              extra = λ q x y. ground (arith, i.extra q, i.acc_first, i.acc_mid, i.acc_last);
              stopped = λ x. omega arith;
              reached = inr (omega arith);
            })))

    -- Each round returns, and the accumulator reaches the end of the removed range or of the new one.
    pub absorb_lem :
        Returns
          (λ (acc', t', stop). Absorbed old acc' t' stop)
          (absorb m (range low high) nk acc old k t)
    absorb_lem = elim (Bool-cases (m.beq k nk)) [
      | inl e ↦ absorb_same e ((laws.beq_iff k nk).0 e)
      | inr e ↦ elim (Bool-cases (ltb old.first low)) [
        | inl a ↦ absorb_before e (ground arith)
        | inr a ↦ elim (Bool-cases (ltb high old.last)) [
          | inl b ↦ absorb_after e (ground arith) (ground arith)
          | inr b ↦ absorb_inside e (ground arith) (ground arith)
        ]
      ]
    ]
