-- ===== src/Client/RangeTree/Skipped.antt =====
-- An entry that is skipped reads as returned only where a neighbour does.
use delos_rust.Prelude.{
  ℕ, ◌+◌, ◌-◌, ◌<◌, ◌≤◌, ◌≡◌, refl, sym, subst, ◌⊎◌, inl, inr, Option, none, some, [], arith,
  Outcome, ok, ◌>>=◌, >>=-eq-ok, ok_injective, Ensures, ok-Ensures, >>=-Ensures, leb, ltb, u64_max,
  Bool-cases, Option-cases,
}
use delos_rust.Util.Range.{Range, range, point, merge_with_next, merge_with_prior}
use delos_rust.Util.RangeMap.{
  Tree, at, find_entry, Sorted, insert, remove_entry, at-insert, insert-Sorted, at-remove_entry,
  at_holds,
}
use delos_rust.Util.RangeTree.{value_of}
use delos_rust.Util.RangeTree.Place.{pieces}
use delos_rust.Client.RangeTree.{
  Kind, returned_to_client, skip, merged_kind, next_found, prior_found, try_merge_with_next,
  try_merge_with_prior, place,
}
use delos_rust.Client.RangeTree.Returned.{
  Returned, Kept, KeptBy, merge_with_next-inv, merge_with_prior-inv, try_merge_with_next-Kept,
  try_merge_with_prior-Kept, whole-Kept, piece_left, piece-Kept,
}

-- A skipped range, or one that has become returned for a reason
abbrev Why : Type 0 → Kind → Type 0
Why P k = (k ≡ skip) ⊎ ((k ≡ returned_to_client) × P)

skip_merged :
    (other kind : Kind)
    → merged_kind skip other ≡ some kind
    → (kind ≡ skip) ⊎ ((kind ≡ returned_to_client) × (other ≡ returned_to_client))
skip_merged other kind e = ground arith

returned_merged :
    (other kind : Kind)
    → merged_kind returned_to_client other ≡ some kind
    → kind ≡ returned_to_client
returned_merged other kind e = ground arith

Why-merged :
    (P : Type 0) (our other kind : Kind)
    → Why P our
    → merged_kind our other ≡ some kind
    → (other ≡ returned_to_client → P)
    → Why P kind
Why-merged P our other kind (inl e) m f =
    elim (skip_merged other kind (subst (λ k. merged_kind k other ≡ some kind) e m)) [
      | inl a ↦ inl a
      | inr (a, b) ↦ inr (a, f b)
    ]
Why-merged P our other kind (inr (e, p)) m f =
    inr (returned_merged other kind (subst (λ k. merged_kind k other ≡ some kind) e m), p)

-- The range after a merge, which is no smaller, and the tree, which shows no new returned entry
abbrev Grown : Type 0 → Tree Kind → Range → Range × Kind × Tree Kind → Type 0
Grown P t r (r₁, k₁, t₁) =
    Why P k₁
    × (r₁.first ≤ r.first)
    × (r.last ≤ r₁.last)
    × ((q : ℕ) → Returned (value_of (at t₁ q)) → Returned (value_of (at t q)))

module _ (P : Type 0) (t : Tree Kind) (r : Range) (k : Kind) (sorted : Sorted 0 t)
    (why : Why P k) where
  same_range : Grown P t r (r, k, t)
  same_range = (why, omega arith, omega arith, λ q e. e)

  removed :
      (p : ℕ) (x : Range) (v : Kind)
      → at t p ≡ some (x, v)
      → (q : ℕ) → Returned (value_of (at (remove_entry (point p) t) q))
      → Returned (value_of (at t q))
  removed p x v f q e = ground (arith, at-remove_entry 0 p q t x v sorted f, e)

  next_found-Grown :
      (found : Option (Range × Kind))
      → at t (r.last + 1) ≡ found
      → (Returned (value_of found) → P)
      → Ensures (λ y. Grown P t r y × (y.0.first ≡ r.first)) (next_found found t r k)
  unfolding next_found
  next_found-Grown none f reason = ok-Ensures _ (r, k, t) (same_range, refl)
  next_found-Grown (some (x, v)) f reason = elim (Option-cases (merged_kind k v)) [
    | inl m ↦ rw (m, next_found) (ok-Ensures _ (r, k, t) (same_range, refl))
    | inr (kind, m) ↦
        rw (m, next_found)
          (>>=-Ensures (λ c. (x.first ≡ r.last + 1) × (c ≡ range r.first x.last)) _
            (merge_with_next r x) _ (merge_with_next-inv r x)
            (λ c (a, b).
              ok-Ensures _ (c, kind, remove_entry (point (r.last + 1)) t)
                (
                  (
                    Why-merged P k v kind why m (λ g. reason (ground (arith, g))),
                    ground (arith, b),
                    ground (arith, a, b, at_holds (r.last + 1) t x v f),
                    removed (r.last + 1) x v f,
                  ),
                  ground (arith, b),
                )))
  ]

  prior_found-Grown :
      (found : Option (Range × Kind))
      → at t (r.first - 1) ≡ found
      → (Returned (value_of found) → P)
      → Ensures (Grown P t r) (prior_found found t r k)
  unfolding prior_found
  prior_found-Grown none f reason = ok-Ensures _ (r, k, t) same_range
  prior_found-Grown (some (x, v)) f reason = elim (Option-cases (merged_kind k v)) [
    | inl m ↦ rw (m, prior_found) (ok-Ensures _ (r, k, t) same_range)
    | inr (kind, m) ↦
        rw (m, prior_found)
          (>>=-Ensures (λ c. (r.first ≡ x.last + 1) × (c ≡ range x.first r.last)) _
            (merge_with_prior r x) _ (merge_with_prior-inv r x)
            (λ c (a, b).
              ok-Ensures _ (c, kind, remove_entry (point (r.first - 1)) t)
                (
                  Why-merged P k v kind why m (λ g. reason (ground (arith, g))),
                  ground (arith, a, b, at_holds (r.first - 1) t x v f),
                  ground (arith, b),
                  removed (r.first - 1) x v f,
                )))
  ]

  next-Grown :
      (Returned (value_of (at t (r.last + 1))) → P)
      → Ensures (λ y. Grown P t r y × (y.0.first ≡ r.first)) (try_merge_with_next t r k)
  unfolding try_merge_with_next
  next-Grown reason = elim (Bool-cases (leb u64_max r.last)) [
    | inl e ↦ rw e (ok-Ensures _ (r, k, t) (same_range, refl))
    | inr e ↦ rw e (next_found-Grown (at t (r.last + 1)) refl reason)
  ]

  prior-Grown :
      (Returned (value_of (at t (r.first - 1))) → P)
      → Ensures (Grown P t r) (try_merge_with_prior t r k)
  unfolding try_merge_with_prior
  prior-Grown reason = elim (Bool-cases (leb r.first 0)) [
    | inl e ↦ rw e (ok-Ensures _ (r, k, t) same_range)
    | inr e ↦ rw e (prior_found-Grown (at t (r.first - 1)) refl reason)
  ]

-- Nothing is returned in the empty tree.
none_shown : {A : Type 0} (q : ℕ) → Returned (value_of (at [] q)) → A
unfolding find_entry
none_shown q e = absurd (ground arith)

module _ (t : Tree Kind) (old : Range) (k : Kind) (p : ℕ) (sorted : Sorted 0 t)
    (hole : (q : ℕ) → old.first ≤ q → q ≤ old.last → at t q ≡ none) (a : old.first ≤ p)
    (b : p ≤ old.last) where
  abbrev Neighbour : Type 0
  Neighbour = Returned (value_of (at t (p - 1))) ⊎ Returned (value_of (at t (p + 1)))

  inserted :
      (r : Range) (k' : Kind) (t₁ : Tree Kind)
      → Kept [] r k' t₁
      → Why Neighbour k'
      → r.first ≤ p
      → p ≤ r.last
      → Returned (value_of (at (insert r k' t₁) p))
      → Neighbour
  inserted r k' t₁ h (inl e) lo hi f =
      absurd (ground (arith, at-insert 0 p t₁ r k' h.sorted h.ordered h.hole, e, f))
  inserted r k' t₁ h (inr (e, why)) lo hi f = why

  insert-Grown :
      (t₀ : Tree Kind) (r : Range) (m : Outcome (Range × Kind × Tree Kind))
      → r.first ≤ p
      → p ≤ r.last
      → Ensures (KeptBy []) m
      → Ensures (Grown Neighbour t₀ r) m
      → Ensures
          (λ t'. Returned (value_of (at t' p)) → Neighbour)
          (m >>= λ x. ok (insert x.0 x.1 x.2))
  insert-Grown t₀ r m lo hi h g t' e =
      let (x, first, second) = >>=-eq-ok m (λ x. ok (insert x.0 x.1 x.2)) e in
      let (why, low, high, fewer) = g x first in
      λ f.
        inserted x.0 x.1 x.2 (h x first) why (omega arith) (omega arith)
          (subst (λ s. Returned (value_of (at s p))) (sym (ok_injective _ _ second)) f)

  abbrev whole : Kept [] (point p) skip t
  whole = whole-Kept t old k (point p) skip sorted hole (omega arith) a b [] (λ q e. none_shown q e)

  abbrev left :
      (piece : Range)
      → old.first ≤ piece.first
      → piece.first ≤ piece.last
      → piece.last ≤ old.last
      → (piece.last < p) ⊎ (p < piece.first)
      → Kept [] (point p) skip (insert piece k t)
  left = piece_left t old k (point p) skip sorted hole (omega arith) a b [] (λ q e. none_shown q e)

  -- What a piece of the old range leaves
  beside :
      (piece : Range) (q : ℕ)
      → old.first ≤ piece.first
      → piece.first ≤ piece.last
      → piece.last ≤ old.last
      → (piece.last < q) ⊎ (q < piece.first)
      → Returned (value_of (at (insert piece k t) q))
      → Returned (value_of (at t q))
  beside piece q x y z apart f =
      let free : (q : ℕ) → piece.first ≤ q → q ≤ piece.last → at t q ≡ none =
        λ q c d. hole q (omega arith) (omega arith) in
      ground (arith, at-insert 0 q t piece k sorted y free, f, apart)

  between :
      (pre post : Range)
      → old.first ≤ pre.first
      → pre.first ≤ pre.last
      → pre.last < p
      → p < post.first
      → post.first ≤ post.last
      → post.last ≤ old.last
      → Returned (value_of (at (insert post k (insert pre k (insert (point p) skip t))) p))
      → Neighbour
  between pre post c d e f g h shown =
      let t₁ = insert (point p) skip t in
      let at₁ = λ (q : ℕ).
        at-insert 0 q t (point p) skip sorted (omega arith)
          (λ q x y. hole q (omega (arith, a, x)) (omega (arith, b, y))) in
      let s₁ = insert-Sorted 0 t (point p) skip sorted (omega arith) (omega arith) in
      let free₁ : (q : ℕ) → pre.first ≤ q → q ≤ pre.last → at t₁ q ≡ none =
        λ q x y. ground (arith, at₁ q, hole q) in
      let first : Kept [] post k (insert pre k t₁) =
        piece-Kept [] t₁ pre k post k s₁ (λ q e. none_shown q e) d g free₁
          (λ q x y. ground (arith, at₁ q, hole q)) (inl (omega arith)) in
      absurd (
        ground (
          arith,
          shown,
          at-insert 0 p (insert pre k t₁) post k first.sorted first.ordered first.hole,
          at-insert 0 p t₁ pre k s₁ d free₁,
          at₁ p,
        ))

  after_pre :
      (pre : Range)
      → old.first ≤ pre.first
      → pre.first ≤ pre.last
      → pre.last < p
      → Ensures
          (λ t'. Returned (value_of (at t' p)) → Neighbour)
          (try_merge_with_next (insert pre k t) (point p) skip >>= λ x. ok (insert x.0 x.1 x.2))
  after_pre pre x y z =
      let h = left pre x y (omega (arith, b)) (inl z) in
      insert-Grown (insert pre k t) (point p) _ (omega arith) (omega arith)
        (try_merge_with_next-Kept [] (point p) skip (insert pre k t) h)
        (λ m e.
          (next-Grown Neighbour (insert pre k t) (point p) skip h.sorted (inl refl)
            (λ f. inr (beside pre (p + 1) x y (omega (arith, b)) (inl (omega arith)) f)) m e).0)

  before_post :
      (post : Range)
      → p < post.first
      → post.first ≤ post.last
      → post.last ≤ old.last
      → Ensures
          (λ t'. Returned (value_of (at t' p)) → Neighbour)
          (try_merge_with_prior (insert post k t) (point p) skip >>= λ x. ok (insert x.0 x.1 x.2))
  before_post post x y z =
      let h = left post (omega (arith, a)) y z (inr x) in
      insert-Grown (insert post k t) (point p) _ (omega arith) (omega arith)
        (try_merge_with_prior-Kept [] (point p) skip (insert post k t) h)
        (prior-Grown Neighbour (insert post k t) (point p) skip h.sorted (inl refl)
          (λ f. inl (beside post (p - 1) (omega (arith, a)) y z (inr (omega arith)) f)))

  alone :
      Ensures
        (λ t'. Returned (value_of (at t' p)) → Neighbour)
        (try_merge_with_next t (point p) skip >>= λ (r₁, k₁, t₁).
          try_merge_with_prior t₁ r₁ k₁ >>= λ x. ok (insert x.0 x.1 x.2))
  alone t' e =
      let (y, first, second) = >>=-eq-ok (try_merge_with_next t (point p) skip) _ e in
      let ((why, low, high, fewer), same) =
        next-Grown Neighbour t (point p) skip sorted (inl refl) (λ f. inr f) y first in
      let h = try_merge_with_next-Kept [] (point p) skip t whole y first in
      insert-Grown y.2 y.0 (try_merge_with_prior y.2 y.0 y.1) low high
        (try_merge_with_prior-Kept [] y.0 y.1 y.2 h)
        (prior-Grown Neighbour y.2 y.0 y.1 h.sorted why
          (λ f. inl (fewer (p - 1) (subst (λ q. Returned (value_of (at y.2 (q - 1)))) same f))))
        t' second

  -- An entry that is set to be skipped reads as returned only if a neighbour did.
  pub place-Skipped :
      Ensures
        (λ t'. Returned (value_of (at t' p)) → Neighbour)
        (place (pieces old (point p)) t k (point p) skip)
  unfolding place
  place-Skipped = elim (Bool-cases (ltb old.first p)) [
    | inl c ↦ elim (Bool-cases (ltb p old.last)) [
      | inl d ↦
          rw (c, d)
            (ok-Ensures _ _ (
              between (range old.first (p - 1)) (range (p + 1) old.last) (omega arith)
                (ground arith) (ground arith) (omega arith) (ground arith) (omega arith)))
      | inr d ↦
          rw (c, d)
            (after_pre (range old.first (p - 1)) (omega arith) (ground arith) (ground arith))
    ]
    | inr c ↦ elim (Bool-cases (ltb p old.last)) [
      | inl d ↦
          rw (c, d)
            (before_post (range (p + 1) old.last) (omega arith) (ground arith) (omega arith))
      | inr d ↦ rw (c, d) alone
    ]
  ]
