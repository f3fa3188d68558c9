-- ===== src/Client/RangeTree/Returned.antt =====
-- The entries that were returned to the client, under the merging of `Skip` with `ReturnedToClient`.
use delos_rust.Prelude.{
  ℕ, ◌+◌, ◌-◌, ◌<◌, ◌≤◌, ◌≡◌, refl, ◌⊎◌, inl, inr, true, Option, none, some, arith, Outcome, ok,
  ◌>>=◌, Ensures, ok-Ensures, >>=-Ensures, leb, ltb, u64_max, Bool-cases, Option-cases,
}
use delos_rust.Util.Range.{Range, range, point, contains, merge_with_next, merge_with_prior}
use delos_rust.Util.RangeMap.{
  Tree, at, Sorted, insert, remove_entry, at-insert, insert-Sorted, at-remove_entry,
  remove_entry-Sorted, at_same, at_holds,
}
use delos_rust.Util.RangeTree.{value_of}
use delos_rust.Util.RangeTree.Place.{pieces}
use delos_rust.Client.RangeTree.{
  Kind, returned_to_client, merged_kind, next_found, prior_found, try_merge_with_next,
  try_merge_with_prior, place,
}

abbrev pub Returned : Option Kind → Type 0
Returned v = v ≡ some returned_to_client

-- The range with its kind and the tree show at least the returned entries of `t`; the range is a hole of the tree.
pub record Kept (t : Tree Kind) (r : Range) (k : Kind) (t' : Tree Kind) : Type 0 where
  pub sorted : Sorted 0 t'
  pub ordered : r.first ≤ r.last
  pub hole : (q : ℕ) → r.first ≤ q → q ≤ r.last → at t' q ≡ none
  kept :
      (q : ℕ)
      → Returned (value_of (at t q))
      → ((contains r q ≡ true) × (k ≡ returned_to_client)) ⊎ Returned (value_of (at t' q))

pub merge_with_next-inv :
    (a b c : Range)
    → merge_with_next a b ≡ ok c
    → (b.first ≡ a.last + 1) × (c ≡ range a.first b.last)
unfolding merge_with_next
merge_with_next-inv a b c e = ground arith

pub merge_with_prior-inv :
    (a b c : Range)
    → merge_with_prior a b ≡ ok c
    → (a.first ≡ b.last + 1) × (c ≡ range b.first a.last)
unfolding merge_with_prior
merge_with_prior-inv a b c e = ground arith

merged_kinds :
    (our other kind : Kind)
    → merged_kind our other ≡ some kind
    → (our ≡ returned_to_client → kind ≡ returned_to_client)
      × (other ≡ returned_to_client → kind ≡ returned_to_client)
merged_kinds our other kind e = ground arith

-- The neighbour `x` joins the range.
Kept-join :
    (t : Tree Kind) (r : Range) (k : Kind) (t' : Tree Kind) (p : ℕ) (x : Range) (v kind : Kind)
    (joined : Range)
    → Kept t r k t'
    → at t' p ≡ some (x, v)
    → merged_kind k v ≡ some kind
    → ((x.first ≡ r.last + 1) × (joined ≡ range r.first x.last))
      ⊎ ((r.first ≡ x.last + 1) × (joined ≡ range x.first r.last))
    → Kept t joined kind (remove_entry (point p) t')
Kept-join t r k t' p x v kind joined h f m j = record {
  sorted = remove_entry-Sorted 0 p t' h.sorted;
  ordered = ground (arith, h.ordered, at_holds p t' x v f);
  hole = λ q a b.
      ground (arith, at-remove_entry 0 p q t' x v h.sorted f, h.hole q, at_holds p t' x v f);
  kept = λ q e. ground (
    arith,
    h.kept q e,
    at-remove_entry 0 p q t' x v h.sorted f,
    at_same 0 p q t' x v h.sorted f,
    merged_kinds k v kind m,
    h.ordered,
    at_holds p t' x v f,
  );
}

pub insert-Kept :
    (t : Tree Kind) (r : Range) (k : Kind) (t' : Tree Kind)
    → Kept t r k t'
    → (q : ℕ) → Returned (value_of (at t q))
    → Returned (value_of (at (insert r k t') q))
insert-Kept t r k t' h q e =
    ground (arith, at-insert 0 q t' r k h.sorted h.ordered h.hole, h.kept q e, h.hole q)

abbrev pub KeptBy : Tree Kind → Range × Kind × Tree Kind → Type 0
KeptBy t (r, k, t') = Kept t r k t'

module _ (t : Tree Kind) (r : Range) (k : Kind) (t' : Tree Kind) (h : Kept t r k t') where
  next_found-Kept :
      (found : Option (Range × Kind))
      → at t' (r.last + 1) ≡ found
      → Ensures (KeptBy t) (next_found found t' r k)
  unfolding next_found
  next_found-Kept none f = ok-Ensures (KeptBy t) (r, k, t') h
  next_found-Kept (some (x, v)) f = elim (Option-cases (merged_kind k v)) [
    | inl m ↦ rw (m, next_found) (ok-Ensures (KeptBy t) (r, k, t') h)
    | inr (kind, m) ↦
        rw (m, next_found)
          (>>=-Ensures (λ c. (x.first ≡ r.last + 1) × (c ≡ range r.first x.last)) (KeptBy t)
            (merge_with_next r x) _ (merge_with_next-inv r x)
            (λ c (a, b).
              ok-Ensures (KeptBy t) (c, kind, remove_entry (point (r.last + 1)) t')
                (Kept-join t r k t' (r.last + 1) x v kind c h f m (inl (a, b)))))
  ]

  prior_found-Kept :
      (found : Option (Range × Kind))
      → at t' (r.first - 1) ≡ found
      → Ensures (KeptBy t) (prior_found found t' r k)
  unfolding prior_found
  prior_found-Kept none f = ok-Ensures (KeptBy t) (r, k, t') h
  prior_found-Kept (some (x, v)) f = elim (Option-cases (merged_kind k v)) [
    | inl m ↦ rw (m, prior_found) (ok-Ensures (KeptBy t) (r, k, t') h)
    | inr (kind, m) ↦
        rw (m, prior_found)
          (>>=-Ensures (λ c. (r.first ≡ x.last + 1) × (c ≡ range x.first r.last)) (KeptBy t)
            (merge_with_prior r x) _ (merge_with_prior-inv r x)
            (λ c (a, b).
              ok-Ensures (KeptBy t) (c, kind, remove_entry (point (r.first - 1)) t')
                (Kept-join t r k t' (r.first - 1) x v kind c h f m (inr (a, b)))))
  ]

  pub try_merge_with_next-Kept : Ensures (KeptBy t) (try_merge_with_next t' r k)
  unfolding try_merge_with_next
  try_merge_with_next-Kept = elim (Bool-cases (leb u64_max r.last)) [
    | inl e ↦ rw e (ok-Ensures (KeptBy t) (r, k, t') h)
    | inr e ↦ rw e (next_found-Kept (at t' (r.last + 1)) refl)
  ]

  pub try_merge_with_prior-Kept : Ensures (KeptBy t) (try_merge_with_prior t' r k)
  unfolding try_merge_with_prior
  try_merge_with_prior-Kept = elim (Bool-cases (leb r.first 0)) [
    | inl e ↦ rw e (ok-Ensures (KeptBy t) (r, k, t') h)
    | inr e ↦ rw e (prior_found-Kept (at t' (r.first - 1)) refl)
  ]

abbrev pub Keeps : Tree Kind → Tree Kind → Type 0
Keeps t t' = (q : ℕ) → Returned (value_of (at t q)) → Returned (value_of (at t' q))

insert-Keeps :
    (t : Tree Kind) (m : Outcome (Range × Kind × Tree Kind))
    → Ensures (KeptBy t) m
    → Ensures (Keeps t) (m >>= λ x. ok (insert x.0 x.1 x.2))
insert-Keeps t m h =
    >>=-Ensures (KeptBy t) (Keeps t) m _ h
      (λ (r, k, t') d. ok-Ensures (Keeps t) (insert r k t') (insert-Kept t r k t' d))

-- A piece of the old range fills a part of the hole.
pub piece-Kept :
    (t t' : Tree Kind) (piece : Range) (old_kind : Kind) (r : Range) (k : Kind)
    → Sorted 0 t'
    → ((q : ℕ)
        → Returned (value_of (at t q))
        → ((contains r q ≡ true) × (k ≡ returned_to_client)) ⊎ Returned (value_of (at t' q)))
    → piece.first ≤ piece.last
    → r.first ≤ r.last
    → ((q : ℕ) → piece.first ≤ q → q ≤ piece.last → at t' q ≡ none)
    → ((q : ℕ) → r.first ≤ q → q ≤ r.last → at t' q ≡ none)
    → (piece.last < r.first) ⊎ (r.last < piece.first)
    → Kept t r k (insert piece old_kind t')
piece-Kept t t' piece old_kind r k s keep o₁ o₂ h₁ h₂ apart = record {
  sorted = insert-Sorted 0 t' piece old_kind s (omega arith) o₁;
  ordered = o₂;
  hole = λ q a b. ground (arith, at-insert 0 q t' piece old_kind s o₁ h₁, h₂ q);
  kept = λ q e. elim (keep q e) [
    | inl x ↦ inl x
    | inr x ↦ inr (ground (arith, at-insert 0 q t' piece old_kind s o₁ h₁, x, h₁ q))
  ];
}

module _ (t : Tree Kind) (old : Range) (k : Kind) (new : Range) (nk : Kind) (sorted : Sorted 0 t)
    (hole : (q : ℕ) → old.first ≤ q → q ≤ old.last → at t q ≡ none) (o : new.first ≤ new.last)
    (a : old.first ≤ new.first) (b : new.last ≤ old.last) (u : Tree Kind)
    (shown : (q : ℕ)
      → Returned (value_of (at u q))
      → ((contains new q ≡ true) × (nk ≡ returned_to_client)) ⊎ Returned (value_of (at t q))) where
  pub whole-Kept : Kept u new nk t
  whole-Kept = record {
    sorted = sorted;
    ordered = o;
    hole = λ q x y. hole q (omega arith) (omega arith);
    kept = shown;
  }

  pub piece_left :
      (piece : Range)
      → old.first ≤ piece.first
      → piece.first ≤ piece.last
      → piece.last ≤ old.last
      → (piece.last < new.first) ⊎ (new.last < piece.first)
      → Kept u new nk (insert piece k t)
  piece_left piece x y z apart =
      piece-Kept u t piece k new nk sorted shown y o (λ q c d. hole q (omega arith) (omega arith))
        (λ q c d. hole q (omega arith) (omega arith)) apart

  both_left :
      (pre post : Range)
      → old.first ≤ pre.first
      → pre.first ≤ pre.last
      → pre.last < new.first
      → new.last < post.first
      → post.first ≤ post.last
      → post.last ≤ old.last
      → Keeps u (insert post k (insert pre k (insert new nk t)))
  both_left pre post c d e f g h =
      let t₁ = insert new nk t in
      let at₁ =
        λ (q : ℕ). at-insert 0 q t new nk sorted o (λ p x y. hole p (omega arith) (omega arith)) in
      let first : Kept u post k (insert pre k t₁) =
        piece-Kept u t₁ pre k post k (insert-Sorted 0 t new nk sorted (omega arith) o)
          (λ q e. inr (insert-Kept u new nk t whole-Kept q e)) d g
          (λ q x y. ground (arith, at₁ q, hole q)) (λ q x y. ground (arith, at₁ q, hole q))
          (inl (omega arith)) in
      insert-Kept u post k (insert pre k t₁) first

  -- Whatever `place` merges, an entry that `u` shows as returned is shown as returned.
  place-Shows : Ensures (Keeps u) (place (pieces old new) t k new nk)
  unfolding place
  place-Shows = elim (Bool-cases (ltb old.first new.first)) [
    | inl c ↦ elim (Bool-cases (ltb new.last old.last)) [
      | inl d ↦
          rw (c, d)
            (ok-Ensures (Keeps u) _ (
              both_left (range old.first (new.first - 1)) (range (new.last + 1) old.last)
                (omega arith) (ground arith) (ground arith) (omega arith) (ground arith)
                (omega arith)))
      | inr d ↦
          rw (c, d)
            (insert-Keeps u _ (
              try_merge_with_next-Kept u new nk _ (
                piece_left (range old.first (new.first - 1)) (omega arith) (ground arith)
                  (ground arith) (inl (ground arith)))))
    ]
    | inr c ↦ elim (Bool-cases (ltb new.last old.last)) [
      | inl d ↦
          rw (c, d)
            (insert-Keeps u _ (
              try_merge_with_prior-Kept u new nk _ (
                piece_left (range (new.last + 1) old.last) (ground arith) (ground arith)
                  (omega arith) (inr (omega arith)))))
      | inr d ↦
          rw (c, d)
            (>>=-Ensures (KeptBy u) (Keeps u) (try_merge_with_next t new nk) _
              (try_merge_with_next-Kept u new nk t whole-Kept)
              (λ (r₁, k₁, t₁) h. insert-Keeps u _ (try_merge_with_prior-Kept u r₁ k₁ t₁ h)))
    ]
  ]

module _ (t : Tree Kind) (old : Range) (k : Kind) (new : Range) (nk : Kind) (sorted : Sorted 0 t)
    (hole : (q : ℕ) → old.first ≤ q → q ≤ old.last → at t q ≡ none) (o : new.first ≤ new.last)
    (a : old.first ≤ new.first) (b : new.last ≤ old.last) where
  -- What was returned stays returned.
  pub place-Keeps : Ensures (Keeps t) (place (pieces old new) t k new nk)
  place-Keeps = place-Shows t old k new nk sorted hole o a b t (λ q e. inr e)

  -- What is set to returned reads so, whatever its neighbours are.
  pub place-Returned :
      nk ≡ returned_to_client
      → Ensures (λ t'. Returned (value_of (at t' new.first))) (place (pieces old new) t k new nk)
  place-Returned e t' p =
      let free = λ (q : ℕ) (x : new.first ≤ q) (y : q ≤ new.last).
        hole q (omega (arith, a, x)) (omega (arith, b, y)) in
      place-Shows t old k new nk sorted hole o a b (insert new nk t)
        (λ q h. ground (arith, h, e, at-insert 0 q t new nk sorted o free, free q)) t' p new.first
        (ground (arith, e, o, at-insert 0 new.first t new nk sorted o free))
