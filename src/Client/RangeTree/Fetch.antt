-- ===== src/Client/RangeTree/Fetch.antt =====
-- What to ask for next, and what is outstanding: the searches through the ranges.
use delos_rust.Prelude.{
  ℕ, ◌+◌, ◌<◌, ◌≤◌, ◌≡◌, refl, sym, ◌∙◌, ap, subst, ◌⊎◌, inl, inr, true, false, Option, none, some,
  [], ◌∷◌, arith, u64_max, Option-cases, Bool-cases, Returns,
}
use delos_rust.Util.Range.{Range, range, cmp}
use delos_rust.Util.RangeMap.{Tree, at, find_entry, Sorted, at_lo, at_holds}
use delos_rust.Util.RangeTree.{value_of}
use delos_rust.Client.RangeTree.Sent.{RangeSent, set_range_as_sent_lem}
use delos_rust.Client.RangeTree.{
  set_range_as_sent, Kind, unread, sent_to_server, same, RangeTree, new, first_of, last_of,
  first_outstanding, last_outstanding, min_range_to_fetch, kind_at,
}
use delos_rust.Client.RangeTree.Forget.{same_iff}
use delos_rust.Client.RangeTree.Count.{counted_all}
use delos_rust.Client.RangeTree.State.{WellFormed, Sorted-forget}

abbrev Has : Tree Kind → Kind → ℕ → Type 0
Has t k q = value_of (at t q) ≡ some k

-- The first range of a kind, if there is one.
abbrev First : Tree Kind → Kind → Option Range → Type 0
First t k none = (q : ℕ) → ¬ Has t k q
First t k (some r) = (at t r.first ≡ some (r, k)) × ((q : ℕ) → q < r.first → ¬ Has t k q)

abbrev Last : Tree Kind → Kind → Option Range → Type 0
Last t k none = (q : ℕ) → ¬ Has t k q
Last t k (some r) = (at t r.last ≡ some (r, k)) × ((q : ℕ) → r.last < q → ¬ Has t k q)

module _ (k : Kind) (lo : ℕ) (r : Range) (v : Kind) (t : Tree Kind)
    (s : Sorted lo ((r, v) ∷ t)) where
  Has-tail : (q : ℕ) → same v k ≡ false → Has ((r, v) ∷ t) k q → Has t k q × (r.last < q)
  unfolding find_entry cmp
  Has-tail q d h = ground (arith, same_iff v k)

  at-tail : (q : ℕ) → r.last < q → at ((r, v) ∷ t) q ≡ at t q
  unfolding find_entry cmp
  at-tail q h = ground arith

  at-head : (q : ℕ) → r.first ≤ q → q ≤ r.last → at ((r, v) ∷ t) q ≡ some (r, v)
  unfolding find_entry cmp
  at-head q a b = ground arith

  First-tail : (o : Option Range) → same v k ≡ false → First t k o → First ((r, v) ∷ t) k o
  First-tail none d h = λ q e. h q (Has-tail q d e).0
  First-tail (some x) d (e, h) = (
    at-tail x.first (ground (arith, at_lo (r.last + 1) x.first t x k s.2 e)) ∙ e,
    λ q a g. h q a (Has-tail q d g).0,
  )

  First-head : same v k ≡ true → First ((r, v) ∷ t) k (some r)
  unfolding find_entry cmp
  First-head d = (
    at-head r.first (omega arith) s.1 ∙ ap (λ x. some (r, x)) ((same_iff v k).0 d),
    λ q a e. absurd (ground arith),
  )

  Last-tail : (x : Range) → Last t k (some x) → Last ((r, v) ∷ t) k (some x)
  Last-tail x (e, h) =
      let after : r.last < x.last = ground (arith, at_lo (r.last + 1) x.last t x k s.2 e) in
      (at-tail x.last after ∙ e, λ q a g. h q a (ap value_of (sym (at-tail q (omega arith))) ∙ g))

  Last-head : same v k ≡ true → Last t k none → Last ((r, v) ∷ t) k (some r)
  Last-head d h = (
    at-head r.last s.1 (omega arith) ∙ ap (λ x. some (r, x)) ((same_iff v k).0 d),
    λ q a g. h q (ap value_of (sym (at-tail q a)) ∙ g),
  )

  Last-none : same v k ≡ false → Last t k none → Last ((r, v) ∷ t) k none
  Last-none d h q g = h q (Has-tail q d g).0

nothing : (k : Kind) (q : ℕ) → ¬ Has [] k q
unfolding find_entry
nothing k q e = absurd (ground arith)

first_of_lem : (k : Kind) (lo : ℕ) (t : Tree Kind) → Sorted lo t → First t k (first_of k t)
unfolding first_of
first_of_lem k lo [] s = nothing k
first_of_lem k lo ((r, v) ∷ t) s = elim (Bool-cases (same v k)) [
  | inl e ↦ rw (e, first_of) (First-head k lo r v t s e)
  | inr e ↦
      rw (e, first_of)
        (First-tail k lo r v t s (first_of k t) e (first_of_lem k (r.last + 1) t s.2))
]

last_of_lem : (k : Kind) (lo : ℕ) (t : Tree Kind) → Sorted lo t → Last t k (last_of k t)
unfolding last_of
last_of_lem k lo [] s = nothing k
last_of_lem k lo ((r, v) ∷ t) s =
    let rest : Last t k (last_of k t) = last_of_lem k (r.last + 1) t s.2 in
    elim (Option-cases (last_of k t)) [
      | inr (x, f) ↦ rw (f, last_of) (Last-tail k lo r v t s x (subst (Last t k) f rest))
      | inl f ↦ elim (Bool-cases (same v k)) [
        | inl e ↦ rw (f, last_of) (rw e (Last-head k lo r v t s e (subst (Last t k) f rest)))
        | inr e ↦ rw (f, last_of) (rw e (Last-none k lo r v t s e (subst (Last t k) f rest)))
      ]
    ]

abbrev pub Lowest : RangeTree → Kind → Option ℕ → Type 0
Lowest s k none = (q : ℕ) → ¬ (kind_at s q ≡ some k)
Lowest s k (some p) = (kind_at s p ≡ some k) × ((q : ℕ) → q < p → ¬ (kind_at s q ≡ some k))

abbrev pub Highest : RangeTree → Kind → Option ℕ → Type 0
Highest s k none = (q : ℕ) → ¬ (kind_at s q ≡ some k)
Highest s k (some p) = (kind_at s p ≡ some k) × ((q : ℕ) → p < q → ¬ (kind_at s q ≡ some k))

abbrev pub NextFetch : RangeTree → ℕ × ℕ → Type 0
NextFetch s (low, high) =
    (((q : ℕ) → ¬ (kind_at s q ≡ some unread)) × (low ≡ 0) × (high ≡ 0))
    ⊎ ((at s.inner low ≡ some (range low high, unread))
        × ((q : ℕ) → q < low → ¬ (kind_at s q ≡ some unread)))

module _ (s : RangeTree) (i : WellFormed s) where
  found-First : (k : Kind) → First s.inner k (first_of k s.inner)
  found-First k = first_of_lem k 0 s.inner (Sorted-forget 0 s.inner i.tiling.sorted)

  to_fetch :
      (o : Option Range)
      → First s.inner unread o
      → NextFetch s (elim o [ none ↦ (0, 0) | some r ↦ (r.first, r.last) ])
  to_fetch none h = inl (h, refl, refl)
  to_fetch (some r) h = inr h

  lowest :
      (k : Kind) (o : Option Range)
      → First s.inner k o
      → Lowest s k (elim o [ none ↦ none | some r ↦ some r.first ])
  lowest k none h = h
  lowest k (some r) (e, below) = (ap value_of e, below)

  highest :
      (k : Kind) (o : Option Range)
      → Last s.inner k o
      → Highest s k (elim o [ none ↦ none | some r ↦ some r.last ])
  highest k none h = h
  highest k (some r) (e, above) = (ap value_of e, above)

  -- The range to fetch next is a range of entries that were not asked for, with no such entry below it; if there are none it is
  -- `(0, 0)`.
  pub min_range_to_fetch_lem : NextFetch s (min_range_to_fetch s)
  unfolding min_range_to_fetch
  min_range_to_fetch_lem = to_fetch (first_of unread s.inner) (found-First unread)

  -- `first_outstanding` is the least entry that was asked for and did not arrive, or none if there is no such entry.
  pub first_outstanding_lem : Lowest s sent_to_server (first_outstanding s)
  unfolding first_outstanding
  first_outstanding_lem =
      lowest sent_to_server (first_of sent_to_server s.inner) (found-First sent_to_server)

  -- `last_outstanding` is the greatest entry that was asked for and did not arrive, or none if there is no such entry.
  pub last_outstanding_lem : Highest s sent_to_server (last_outstanding s)
  unfolding last_outstanding
  last_outstanding_lem =
      highest sent_to_server (last_of sent_to_server s.inner)
        (last_of_lem sent_to_server 0 s.inner (Sorted-forget 0 s.inner i.tiling.sorted))

  -- As long as some entry was not asked for, asking for the next range to fetch succeeds and marks just this range.
  pub fetch_next :
      (q : ℕ)
      → kind_at s q ≡ some unread
      → Returns
          (RangeSent s (min_range_to_fetch s).0 (min_range_to_fetch s).1)
          (set_range_as_sent s (min_range_to_fetch s).0 (min_range_to_fetch s).1)
  fetch_next q h = elim min_range_to_fetch_lem [
    | inl (none_left, e, e') ↦ absurd (none_left q h)
    | inr (e, below) ↦
        set_range_as_sent_lem s (min_range_to_fetch s).0 (min_range_to_fetch s).1 _ i
          (omega (arith, at_holds _ s.inner _ unread e)) (omega arith) e
  ]

-- The tree of a colour that nothing was read of is well formed.
pub new-WellFormed : WellFormed new
unfolding new find_entry cmp
new-WellFormed = record {
  tiling = record {
    sorted = omega arith;
    bounded = λ p r w e. ground arith;
    hole = λ p e. cc;
    full = λ p b e. ground arith;
    distinct = λ p r w s x e f. ground arith;
  };
  origin = ground arith;
  outstanding = sym (counted_all _ false 1 u64_max (λ q a b. ground arith));
  buffered = sym (counted_all _ false 1 u64_max (λ q a b. ground arith));
}
