-- ===== src/Util/RangeMap.antt =====
-- `BTreeMap<Range, V>` of fuzzy_log_util/src/range_tree.rs: the entries in the order of their keys.
-- A search compares the key by `Range`'s `Ord`, so a point finds the range that holds it.
use delos_rust.Prelude.{
  ℕ, ◌+◌, ◌≤◌, ◌≡◌, refl, Ordering, Option, none, some, List, [], ◌∷◌, arith, if◌then◌else◌,
}
use delos_rust.Util.Range.{Range, cmp, point, contains}

abbrev pub Tree {ℓ} : Type ℓ → Type ℓ
Tree V = List (Range × V)

module _ {ℓ} {V : Type ℓ} where
  -- `get` and `entry`: the entry whose key compares equal.
  unfoldable pub find_entry : Range → Tree V → Option (Range × V)
  find_entry k [] = none
  find_entry k ((r, v) ∷ t) = elim (cmp k r) [
    | Ordering.lt ↦ none
    | Ordering.eq ↦ some (r, v)
    | Ordering.gt ↦ find_entry k t
  ]

  -- `remove_entry` of an occupied entry.
  unfoldable pub remove_entry : Range → Tree V → Tree V
  remove_entry k [] = []
  remove_entry k ((r, v) ∷ t) = elim (cmp k r) [
    | Ordering.lt ↦ (r, v) ∷ t
    | Ordering.eq ↦ t
    | Ordering.gt ↦ (r, v) ∷ remove_entry k t
  ]

  -- An occupied key keeps its place and takes the value.
  unfoldable pub insert : Range → V → Tree V → Tree V
  insert k w [] = (k, w) ∷ []
  insert k w ((r, v) ∷ t) = elim (cmp k r) [
    | Ordering.lt ↦ (k, w) ∷ (r, v) ∷ t
    | Ordering.eq ↦ (r, w) ∷ t
    | Ordering.gt ↦ (r, v) ∷ insert k w t
  ]

  -- The entry that holds a point.
  abbrev pub at : Tree V → ℕ → Option (Range × V)
  at t p = find_entry (point p) t

  -- Ranges follow one another from `lo` on, and none is empty.
  abbrev pub Sorted : ℕ → Tree V → Type 0
  Sorted lo [] = Unit {0}
  Sorted lo ((r, v) ∷ t) = (lo ≤ r.first) × (r.first ≤ r.last) × Sorted (r.last + 1) t

module _ {V : Type 0} where
  pub Sorted-mono : (a b : ℕ) (t : Tree V) → a ≤ b → Sorted b t → Sorted a t
  Sorted-mono a b [] h s = tt
  Sorted-mono a b ((r, v) ∷ t) h s = ground arith

  pub at_below : (lo p : ℕ) (t : Tree V) → Sorted lo t → p + 1 ≤ lo → at t p ≡ none
  unfolding find_entry cmp
  at_below lo p [] s h = refl
  at_below lo p ((r, v) ∷ t) s h = ground arith

  pub at_lo :
      (lo p : ℕ) (t : Tree V) (r : Range) (v : V) → Sorted lo t → at t p ≡ some (r, v) → lo ≤ p
  unfolding find_entry cmp
  at_lo lo p [] q w s e = ground arith
  at_lo lo p ((r, v) ∷ t) q w s e = ground (arith, at_lo (r.last + 1) p t q w)

  -- An entry found holds the point, and is found at each of its points.
  pub at_holds :
      (p : ℕ) (t : Tree V) (r : Range) (v : V) → at t p ≡ some (r, v) → (r.first ≤ p) × (p ≤ r.last)
  unfolding find_entry cmp
  at_holds p [] q w e = ground arith
  at_holds p ((r, v) ∷ t) q w e = ground (arith, at_holds p t q w)

  pub at_same :
      (lo p q : ℕ) (t : Tree V) (r : Range) (v : V)
      → Sorted lo t
      → at t p ≡ some (r, v)
      → r.first ≤ q
      → q ≤ r.last
      → at t q ≡ some (r, v)
  unfolding find_entry cmp
  at_same lo p q [] r v s e a b = ground arith
  at_same lo p q ((x, w) ∷ t) r v s e a b = ground (
    arith,
    at_same (x.last + 1) p q t r v,
    at_lo (x.last + 1) r.first t r v,
    at_same (x.last + 1) p r.first t r v,
    at_holds p t r v,
  )

  pub remove_entry-Sorted :
      (lo p : ℕ) (t : Tree V) → Sorted lo t → Sorted lo (remove_entry (point p) t)
  unfolding remove_entry cmp
  remove_entry-Sorted lo p [] s = tt
  remove_entry-Sorted lo p ((r, v) ∷ t) s =
      ground (arith, remove_entry-Sorted (r.last + 1) p t, Sorted-mono lo (r.last + 1) t)

  pub at-remove_entry :
      (lo p q : ℕ) (t : Tree V) (r : Range) (v : V)
      → Sorted lo t
      → at t p ≡ some (r, v)
      → at (remove_entry (point p) t) q ≡ (if contains r q then none else at t q)
  unfolding find_entry remove_entry cmp
  at-remove_entry lo p q [] r v s e = ground arith
  at-remove_entry lo p q ((x, w) ∷ t) r v s e = ground (
    arith,
    at-remove_entry (x.last + 1) p q t r v,
    at_below (x.last + 1) q t,
    at_lo (x.last + 1) r.first t r v,
    at_same (x.last + 1) p r.first t r v,
    at_holds p t r v,
  )

  pub insert-Sorted :
      (lo : ℕ) (t : Tree V) (k : Range) (w : V)
      → Sorted lo t
      → lo ≤ k.first
      → k.first ≤ k.last
      → Sorted lo (insert k w t)
  unfolding insert cmp
  insert-Sorted lo [] k w s a b = ground arith
  insert-Sorted lo ((r, v) ∷ t) k w s a b = ground (arith, insert-Sorted (r.last + 1) t k w)

  at_tail :
      (lo p : ℕ) (r : Range) (v : V) (t : Tree V)
      → Sorted lo ((r, v) ∷ t)
      → at ((r, v) ∷ t) p ≡ none
      → at t p ≡ none
  unfolding find_entry cmp
  at_tail lo p r v t s e = ground (arith, at_below (r.last + 1) p t)

  -- A range that overlaps no entry is inserted whole and moves nothing.
  pub at-insert :
      (lo q : ℕ) (t : Tree V) (k : Range) (w : V)
      → Sorted lo t
      → k.first ≤ k.last
      → ((p : ℕ) → k.first ≤ p → p ≤ k.last → at t p ≡ none)
      → at (insert k w t) q ≡ (if contains k q then some (k, w) else at t q)
  unfolding find_entry insert cmp
  at-insert lo q [] k w s b h = ground arith
  at-insert lo q ((r, v) ∷ t) k w s b h = ground (
    arith,
    h r.first,
    h k.first,
    at_below (r.last + 1) q t,
    at-insert (r.last + 1) q t k w s.2 b (λ p x y. at_tail lo p r v t s (h p x y)),
  )

  insert_front :
      (r : Range) (v : V) (t : Tree V)
      → Sorted (r.last + 1) t
      → r.first ≤ r.last
      → insert r v t ≡ (r, v) ∷ t
  unfolding insert cmp
  insert_front r v [] s h = refl
  insert_front r v ((x, w) ∷ t) s h = ground arith

  -- An entry that was taken out goes back to its place.
  pub insert-remove_entry :
      (lo p : ℕ) (t : Tree V) (r : Range) (v : V)
      → Sorted lo t
      → at t p ≡ some (r, v)
      → insert r v (remove_entry (point p) t) ≡ t
  unfolding find_entry remove_entry insert cmp
  insert-remove_entry lo p [] r v s e = ground arith
  insert-remove_entry lo p ((x, w) ∷ t) r v s e = ground (
    arith,
    insert-remove_entry (x.last + 1) p t r v,
    at_lo (x.last + 1) r.first t r v,
    at_same (x.last + 1) p r.first t r v,
    at_holds p t r v,
    insert_front r v t,
  )
