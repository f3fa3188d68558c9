-- ===== src/Util/RangeTree/Invariant.antt =====
-- `tree_invariant`, the check that `set_range_as` makes before and after, holds of every tiling.
use delos_rust.Prelude.{ℕ, ◌+◌, ◌≤◌, ◌≡◌, refl, true, false, [], ◌∷◌, some, arith, is_some, u64_max}
use delos_rust.Util.Range.{Range, cmp}
use delos_rust.Util.RangeMap.{Tree, at, Sorted, find_entry, at_lo, at_holds}
use delos_rust.Util.RangeTree.{Mergeable, tree_invariant, invariant_from}
use delos_rust.Util.RangeTree.Tiling.{IsTiling}
use delos_rust.Util.RangeTree.Merge.{IsLawful}

module _ {V : Type 0} (m : Mergeable V) (laws : IsLawful m) where
  -- What the rest of a tiling after a range that ends at `prev` satisfies.
  pub record Follows (prev : ℕ) (kind : V) (t : Tree V) : Type 0 where
    pub sorted : Sorted (prev + 1) t
    pub bounded : (p : ℕ) (r : Range) (v : V) → at t p ≡ some (r, v) → r.last ≤ u64_max
    pub full : (p : ℕ) → prev + 1 ≤ p → p ≤ u64_max → is_some (at t p) ≡ true
    pub distinct :
        (p : ℕ) (r : Range) (v : V) (s : Range) (w : V)
        → at t p ≡ some (r, v)
        → at t (r.last + 1) ≡ some (s, w)
        → m.beq v w ≡ false
    pub differs : (s : Range) (w : V) → at t (prev + 1) ≡ some (s, w) → m.beq kind w ≡ false

  pub at_tail :
      (lo p : ℕ) (r : Range) (v : V) (t : Tree V)
      → Sorted lo ((r, v) ∷ t)
      → r.last + 1 ≤ p
      → at ((r, v) ∷ t) p ≡ at t p
  unfolding find_entry cmp
  at_tail lo p r v t s h = ground arith

  pub at_head :
      (lo : ℕ) (r : Range) (v : V) (t : Tree V)
      → Sorted lo ((r, v) ∷ t)
      → at ((r, v) ∷ t) r.first ≡ some (r, v)
  unfolding find_entry cmp
  at_head lo r v t s = ground arith

  pub tail-Follows :
      (lo : ℕ) (r : Range) (v : V) (t : Tree V)
      → Sorted lo ((r, v) ∷ t)
      → ((p : ℕ) (r' : Range) (v' : V) → at ((r, v) ∷ t) p ≡ some (r', v') → r'.last ≤ u64_max)
      → ((p : ℕ) → lo ≤ p → p ≤ u64_max → is_some (at ((r, v) ∷ t) p) ≡ true)
      → ((p : ℕ) (r' : Range) (v' : V) (s : Range) (w : V)
          → at ((r, v) ∷ t) p ≡ some (r', v')
          → at ((r, v) ∷ t) (r'.last + 1) ≡ some (s, w)
          → m.beq v' w ≡ false)
      → Follows r.last v t
  tail-Follows lo r v t s bounded full distinct = record {
    sorted = s.2;
    bounded =
        λ p r' v' e. bounded p r' v' (ground (arith, tail p, at_lo (r.last + 1) p t r' v' s.2));
    full = λ p a b. ground (arith, tail p, full p);
    distinct = λ p r' v' x w e f.
        distinct p r' v' x w (ground (arith, tail p, at_lo (r.last + 1) p t r' v' s.2)) (
          ground
            (arith, tail (r'.last + 1), at_lo (r.last + 1) p t r' v' s.2, at_holds p t r' v' e));
    differs =
        λ x w e. distinct r.first r v x w (at_head lo r v t s) (ground (arith, tail (r.last + 1)));
  }
    where
      tail : (p : ℕ) → r.last + 1 ≤ p → at ((r, v) ∷ t) p ≡ at t p
      tail p h = at_tail lo p r v t s h

  pub head_first :
      (lo : ℕ) (r : Range) (v : V) (t : Tree V)
      → Sorted lo ((r, v) ∷ t)
      → is_some (at ((r, v) ∷ t) lo) ≡ true
      → r.first ≡ lo
  unfolding find_entry cmp
  head_first lo r v t s e = ground arith

  invariant_from_lem :
      (prev : ℕ) (kind : V) (t : Tree V)
      → Follows prev kind t
      → invariant_from m prev kind true t ≡ true
  unfolding invariant_from
  invariant_from_lem prev kind [] f = refl
  invariant_from_lem prev kind ((r, v) ∷ t) f =
      let first : r.first ≡ prev + 1 = head_first (prev + 1) r v t f.sorted (
        f.full (prev + 1) (omega arith)
          (omega (arith, f.sorted, f.bounded r.first r v (at_head (prev + 1) r v t f.sorted)))) in
      ground (
        arith,
        first,
        f.differs r v,
        at_head (prev + 1) r v t f.sorted,
        laws.beq_iff kind v,
        laws.beq_iff v kind,
        invariant_from_lem r.last v t
            (tail-Follows (prev + 1) r v t f.sorted f.bounded f.full f.distinct),
      )

  -- Every tree that tiles the whole range with distinct neighbours passes the check of `tree_invariant`.
  pub tree_invariant_lem : (t : Tree V) → IsTiling m.beq t → tree_invariant m t ≡ true
  unfolding tree_invariant
  tree_invariant_lem [] i = refl
  tree_invariant_lem ((r, v) ∷ t) i = ground (
    arith,
    head_first 0 r v t i.sorted (i.full 0 (omega arith) refl),
    invariant_from_lem r.last v t
        (tail-Follows 0 r v t i.sorted i.bounded (λ p a b. i.full p b refl) i.distinct),
  )
