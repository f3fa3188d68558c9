-- ===== src/Util/RangeTree/Merge.antt =====
-- `try_merge_with_next` and `try_merge_with_prior`: what they take out of the map and hand back.
use delos_rust.Prelude.{
  ℕ, ◌+◌, ◌-◌, ◌≤◌, ◌≡◌, refl, ◌↔◌, inl, inr, Bool, true, false, ◌||◌, none, some, arith,
  if◌then◌else◌, leb, u64_max, Bool-cases, Option-cases, ok, Returns, sym,
}
use delos_rust.Util.Range.{Range, range, point, contains, merge_with_next, merge_with_prior}
use delos_rust.Util.RangeMap.{Tree, at, remove_entry, at_holds, at_same, at-remove_entry}
use delos_rust.Util.RangeTree.{
  Mergeable, value_of, try_merge_with_next, try_merge_with_prior, merge_next_found,
  merge_prior_found,
}
use delos_rust.Util.RangeTree.Tiling.{Partial, Partial-ext, remove_entry-Partial}

-- What the setters rely on: `==` decides equality, and values merge exactly if they are equal.
pub record IsLawful {V : Type 0} (m : Mergeable V) : Type 0 where
  pub beq_iff : (a b : V) → (m.beq a b ≡ true) ↔ (a ≡ b)
  pub merge_next : (a b : V) → m.can_merge_with_next a b ≡ (if m.beq a b then inl a else inr a)
  pub merge_prior : (a b : V) → m.can_merge_with_prior a b ≡ (if m.beq a b then inl a else inr a)

module _ {V : Type 0} (m : Mergeable V) where
  -- The current range, grown over neighbours with its value that are out of the map.
  pub record Grown (H : ℕ → Bool) (t : Tree V) (cur : Range) (k : V) (r : Range) (k' : V)
      (t' : Tree V) : Type 0 where
    pub kind : k' ≡ k
    pub low : r.first ≤ cur.first
    pub high : cur.last ≤ r.last
    pub bound : r.last ≤ u64_max
    pub rest : Partial m.beq (λ q. H q || contains r q) t'
    pub kept : (q : ℕ) → contains r q ≡ false → at t' q ≡ at t q
    pub joined : (q : ℕ) → contains r q ≡ true → contains cur q ≡ false → value_of (at t q) ≡ some k

  abbrev pub DiffersNext : Tree V → Range → V → Type 0
  DiffersNext t r k = (s : Range) (w : V) → at t (r.last + 1) ≡ some (s, w) → m.beq k w ≡ false

  abbrev pub DiffersPrior : Tree V → Range → V → Type 0
  DiffersPrior t r k =
      (p : ℕ) (s : Range) (w : V) → at t p ≡ some (s, w) → s.last + 1 ≡ r.first → m.beq w k ≡ false

  abbrev pub NextDone :
      (H : ℕ → Bool) (t : Tree V) (cur : Range) (k : V) → Range × V × Tree V → Type 0
  NextDone H t cur k (r, k', t') =
      Grown H t cur k r k' t' × (r.first ≡ cur.first) × DiffersNext t' r k

  abbrev pub PriorDone :
      (H : ℕ → Bool) (t : Tree V) (cur : Range) (k : V) → Range × V × Tree V → Type 0
  PriorDone H t cur k (r, k', t') =
      Grown H t cur k r k' t' × (r.last ≡ cur.last) × DiffersPrior t' r k

merge_with_next-ok :
    (a b : Range)
    → b.first ≡ a.last + 1
    → a.last + 1 ≤ u64_max
    → merge_with_next a b ≡ ok (range a.first b.last)
unfolding merge_with_next
merge_with_next-ok a b e h = ground arith

merge_with_prior-ok :
    (a b : Range)
    → a.first ≡ b.last + 1
    → a.first ≤ u64_max
    → merge_with_prior a b ≡ ok (range b.first a.last)
unfolding merge_with_prior
merge_with_prior-ok a b e h = ground arith

module _ {V : Type 0} (m : Mergeable V) (laws : IsLawful m) (H : ℕ → Bool) (t : Tree V)
    (cur : Range) (k : V) (i : Partial m.beq H t) (ordered : cur.first ≤ cur.last)
    (small : cur.last ≤ u64_max) (inside : (q : ℕ) → contains cur q ≡ true → H q ≡ true) where
  Grown-same : Grown m H t cur k cur k t
  Grown-same = record {
    kind = refl;
    low = omega arith;
    high = omega arith;
    bound = small;
    rest = record {
      sorted = i.sorted;
      bounded = i.bounded;
      hole = λ q h. ground (arith, i.hole q, inside q);
      full = λ q b h. ground (arith, i.full q b);
      distinct = i.distinct;
    };
    kept = λ q h. refl;
    joined = λ q a b. cc;
  }

  next_first : (x : Range) (v : V) → at t (cur.last + 1) ≡ some (x, v) → x.first ≡ cur.last + 1
  next_first x v f = ground (
    arith,
    at_holds (cur.last + 1) t x v f,
    at_same 0 (cur.last + 1) cur.last t x v i.sorted f,
    i.hole cur.last,
    inside cur.last,
  )

  Grown-next :
      (x : Range) (v : V)
      → at t (cur.last + 1) ≡ some (x, v)
      → v ≡ k
      → Grown m H t cur k (range cur.first x.last) k (remove_entry (point (cur.last + 1)) t)
  Grown-next x v f g = record {
    kind = refl;
    low = omega arith;
    high = omega (arith, at_holds (cur.last + 1) t x v f);
    bound = i.bounded (cur.last + 1) x v f;
    rest =
        Partial-ext m.beq _ _ _
          (λ q. ground (arith, inside q, next_first x v f, at_holds (cur.last + 1) t x v f))
          (remove_entry-Partial m.beq H t (cur.last + 1) x v i f);
    kept = λ q h.
        ground (arith, at-remove_entry 0 (cur.last + 1) q t x v i.sorted f, next_first x v f);
    joined = λ q a b. ground (arith, at_same 0 (cur.last + 1) q t x v i.sorted f, next_first x v f);
  }

  pub try_merge_with_next_lem : Returns (NextDone m H t cur k) (try_merge_with_next m t cur k)
  unfolding try_merge_with_next
  try_merge_with_next_lem = elim (Bool-cases (leb u64_max cur.last)) [
    | inl e ↦ rw e (
      Grown-same,
      refl,
      λ s w h. ground (arith, i.bounded (cur.last + 1) s w h, at_holds (cur.last + 1) t s w h),
    )
    | inr e ↦ rw e (elim (Option-cases (at t (cur.last + 1))) [
      | inl f ↦ rw f (Grown-same, refl, λ s w h. cc)
      | inr ((x, v), f) ↦ rw f (elim (Bool-cases (m.beq k v)) [
        | inl g ↦
            rw (laws.merge_next k v, merge_next_found)
              (rw (g, merge_next_found)
                (rw (merge_with_next-ok cur x (next_first x v f) (ground arith), merge_next_found)
                  (
                    Grown-next x v f (sym ((laws.beq_iff k v).0 g)),
                    refl,
                    λ s w h. ground (
                      arith,
                      (Grown-next x v f (sym ((laws.beq_iff k v).0 g))).kept (x.last + 1),
                      i.distinct (cur.last + 1) x v s w f,
                      (laws.beq_iff k v).0 g,
                    ),
                  )))
        | inr g ↦
            rw (laws.merge_next k v, merge_next_found)
              (rw (g, merge_next_found) (Grown-same, refl, λ s w h. ground (arith, f, h, g)))
      ])
    ])
  ]

  prior_last :
      (x : Range) (v : V)
      → 1 ≤ cur.first
      → at t (cur.first - 1) ≡ some (x, v)
      → cur.first ≡ x.last + 1
  prior_last x v p f = ground (
    arith,
    at_holds (cur.first - 1) t x v f,
    at_same 0 (cur.first - 1) cur.first t x v i.sorted f,
    i.hole cur.first,
    inside cur.first,
  )

  Grown-prior :
      (x : Range) (v : V)
      → 1 ≤ cur.first
      → at t (cur.first - 1) ≡ some (x, v)
      → v ≡ k
      → Grown m H t cur k (range x.first cur.last) k (remove_entry (point (cur.first - 1)) t)
  Grown-prior x v p f g = record {
    kind = refl;
    low = omega (arith, at_holds (cur.first - 1) t x v f);
    high = omega arith;
    bound = small;
    rest =
        Partial-ext m.beq _ _ _
          (λ q. ground (arith, inside q, prior_last x v p f, at_holds (cur.first - 1) t x v f))
          (remove_entry-Partial m.beq H t (cur.first - 1) x v i f);
    kept = λ q h.
        ground (arith, at-remove_entry 0 (cur.first - 1) q t x v i.sorted f, prior_last x v p f);
    joined =
        λ q a b. ground (arith, at_same 0 (cur.first - 1) q t x v i.sorted f, prior_last x v p f);
  }

  DiffersPrior-none : at t (cur.first - 1) ≡ none → DiffersPrior m t cur k
  DiffersPrior-none f p s w h e =
      ground (arith, at_same 0 p s.last t s w i.sorted h, at_holds p t s w h, f)

  DiffersPrior-other :
      (x : Range) (v : V)
      → at t (cur.first - 1) ≡ some (x, v)
      → m.beq k v ≡ false
      → DiffersPrior m t cur k
  DiffersPrior-other x v f g p s w h e = ground (
    arith,
    at_same 0 p s.last t s w i.sorted h,
    at_holds p t s w h,
    f,
    laws.beq_iff k v,
    laws.beq_iff w k,
  )

  DiffersPrior-merged :
      (x : Range) (v : V)
      → 1 ≤ cur.first
      → at t (cur.first - 1) ≡ some (x, v)
      → v ≡ k
      → DiffersPrior m (remove_entry (point (cur.first - 1)) t) (range x.first cur.last) k
  DiffersPrior-merged x v p f g q s w h e = ground (
    arith,
    (Grown-prior x v p f g).kept q,
    (Grown-prior x v p f g).rest.hole q,
    at_holds (cur.first - 1) t x v f,
    at_same 0 (cur.first - 1) x.first t x v i.sorted f,
    i.distinct q s w x v,
  )

  pub try_merge_with_prior_lem : Returns (PriorDone m H t cur k) (try_merge_with_prior m t cur k)
  unfolding try_merge_with_prior
  try_merge_with_prior_lem = elim (Bool-cases (leb cur.first 0)) [
    | inl e ↦ rw e (Grown-same, refl, λ p s w h g. absurd (ground arith))
    | inr e ↦ rw e (elim (Option-cases (at t (cur.first - 1))) [
      | inl f ↦ rw f (Grown-same, refl, DiffersPrior-none f)
      | inr ((x, v), f) ↦ rw f (elim (Bool-cases (m.beq k v)) [
        | inl g ↦
            let positive : 1 ≤ cur.first = ground arith in
            let same : v ≡ k = sym ((laws.beq_iff k v).0 g) in
            rw (laws.merge_prior k v, merge_prior_found)
              (rw (g, merge_prior_found)
                (rw
                  (
                    merge_with_prior-ok cur x (prior_last x v positive f) (omega arith),
                    merge_prior_found,
                  )
                  (Grown-prior x v positive f same, refl, DiffersPrior-merged x v positive f same)))
        | inr g ↦
            rw (laws.merge_prior k v, merge_prior_found)
              (rw (g, merge_prior_found) (Grown-same, refl, DiffersPrior-other x v f g))
      ])
    ])
  ]
