-- ===== src/Util/RangeTree/Fill.antt =====
-- A map with one hole, and how the merges fill it: `merge_both`.
use delos_rust.Prelude.{
  ℕ, ◌+◌, ◌≤◌, ◌≡◌, refl, ◌∙◌, ◌||◌, some, arith, if◌then◌else◌, u64_max, Returns, Returns->>=,
}
use delos_rust.Util.Range.{Range, point, contains}
use delos_rust.Util.RangeMap.{
  Tree, at, remove_entry, insert, at_holds, at_same, at-insert, at-remove_entry,
}
use delos_rust.Util.RangeTree.{Mergeable, value_of, merge_both}
use delos_rust.Util.RangeTree.Tiling.{
  Partial, IsTiling, Partial-ext, remove_entry-Partial, insert-Partial,
}
use delos_rust.Util.RangeTree.Merge.{
  IsLawful, Grown, DiffersNext, DiffersPrior, NextDone, PriorDone, try_merge_with_next_lem,
  try_merge_with_prior_lem,
}

-- The map shows `k` on the range and what `t` shows elsewhere, and it is a tiling.
pub record Filled {V : Type 0} (m : Mergeable V) (t : Tree V) (cur : Range) (k : V) (t' : Tree V)
    : Type 0 where
  pub tiling : IsTiling m.beq t'
  pub values : (q : ℕ) → value_of (at t' q) ≡ (if contains cur q then some k else value_of (at t q))

-- A map whose only hole is a range, with the value that stood there unlike the neighbours'.
pub record Hole {V : Type 0} (m : Mergeable V) (t : Tree V) (old : Range) (k : V) : Type 0 where
  pub rest : Partial m.beq (contains old) t
  pub ordered : old.first ≤ old.last
  pub small : old.last ≤ u64_max
  pub next : DiffersNext m t old k
  pub prior : DiffersPrior m t old k

module _ {V : Type 0} (m : Mergeable V) (laws : IsLawful m) where
  pub remove_entry-Hole :
      (t : Tree V) (p : ℕ) (r : Range) (v : V)
      → IsTiling m.beq t
      → at t p ≡ some (r, v)
      → Hole m (remove_entry (point p) t) r v
  remove_entry-Hole t p r v i e = record {
    rest = Partial-ext m.beq _ _ _ (λ q. refl) (remove_entry-Partial m.beq _ t p r v i e);
    ordered = omega (arith, at_holds p t r v e);
    small = i.bounded p r v e;
    next = λ s w h.
        ground (arith, at-remove_entry 0 p (r.last + 1) t r v i.sorted e, i.distinct p r v s w e);
    prior = λ q s w h g. ground (
      arith,
      at-remove_entry 0 p q t r v i.sorted e,
      at_holds p t r v e,
      at_same 0 p r.first t r v i.sorted e,
      i.distinct q s w r v,
    );
  }

  -- The last insertion into a hole that the merges have seen.
  pub insert-Filled :
      (t : Tree V) (cur : Range) (k : V) (r : Range) (k' : V) (t' : Tree V)
      → Grown m (contains cur) t cur k r k' t'
      → cur.first ≤ cur.last
      → DiffersNext m t' r k
      → DiffersPrior m t' r k
      → Filled m t cur k (insert r k' t')
  insert-Filled t cur k r k' t' g o n p = rw g.kind (record {
    tiling =
        Partial-ext m.beq _ _ _ (λ q. ground (arith, g.low, g.high))
          (insert-Partial m.beq _ t' r k g.rest (omega (arith, g.low, g.high)) g.bound
            (λ q a b. ground arith) n p);
    values = λ q. ground (
      arith,
      at-insert 0 q t' r k g.rest.sorted (omega (arith, g.low, g.high))
          (λ q a b. g.rest.hole q (ground arith)),
      g.kept q,
      g.joined q,
      g.low,
      g.high,
    );
  })

  Grown-trans :
      (t : Tree V) (cur : Range) (k : V) (r₁ : Range) (k₁ : V) (t₁ : Tree V) (r₂ : Range) (k₂ : V)
      (t₂ : Tree V)
      → Grown m (contains cur) t cur k r₁ k₁ t₁
      → Grown m (λ q. contains cur q || contains r₁ q) t₁ r₁ k₁ r₂ k₂ t₂
      → Grown m (contains cur) t cur k r₂ k₂ t₂
  Grown-trans t cur k r₁ k₁ t₁ r₂ k₂ t₂ g h = record {
    kind = h.kind ∙ g.kind;
    low = omega (arith, g.low, h.low);
    high = omega (arith, g.high, h.high);
    bound = h.bound;
    rest = Partial-ext m.beq _ _ _ (λ q. ground (arith, g.low, h.low, g.high, h.high)) h.rest;
    kept = λ q e. h.kept q e ∙ g.kept q (ground (arith, h.low, h.high));
    joined = λ q a b. ground (arith, h.joined q, g.joined q, g.kept q, g.kind);
  }

  pub merge_both_lem :
      (t : Tree V) (cur : Range) (k : V)
      → Partial m.beq (contains cur) t
      → cur.first ≤ cur.last
      → cur.last ≤ u64_max
      → Returns (Filled m t cur k) (merge_both m t cur k)
  unfolding merge_both
  merge_both_lem t cur k i o b =
      Returns->>= (NextDone m (contains cur) t cur k) _ _ _
        (try_merge_with_next_lem m laws (contains cur) t cur k i o b (λ q h. h))
        λ (r₁, k₁, t₁) (g, _, n).
          Returns->>= (PriorDone m (λ q. contains cur q || contains r₁ q) t₁ r₁ k₁) _ _ _
            (try_merge_with_prior_lem m laws _ t₁ r₁ k₁ g.rest (omega (arith, g.low, g.high))
              g.bound (λ q h. ground arith))
            λ (r₂, k₂, t₂) (h, e, p).
              insert-Filled t cur k r₂ k₂ t₂ (Grown-trans t cur k r₁ k₁ t₁ r₂ k₂ t₂ g h) o
                (λ s w f. n s w (ground (arith, h.kept (r₂.last + 1))))
                (λ q s w f l. rw (← g.kind) (p q s w f l))
