-- ===== src/Client/Colour/InOrder.antt =====
-- `set_returned`: the entries of a colour are returned to the client one after the other.
use delos_rust.Prelude.{
  ℕ, ◌+◌, ◌-◌, ◌≤◌, ◌≡◌, ◌≢◌, refl, ◌∙◌, subst, ◌⊎◌, inl, inr, true, false, ◌&&◌, Option, none,
  some, arith, ok, Returns, Returns->>=, leb, ◌==◌, if◌then◌else◌, u64_max, Bool-cases,
  Option-cases,
}
use delos_rust.Util.Range.{Range, point}
use delos_rust.Util.RangeMap.{at, at_holds, at_same}
use delos_rust.Client.RangeTree
use delos_rust.Client.RangeTree.{
  RangeTree, Kind, same, returned_to_client, skip, kind_at, is_kind, is_returned, is_prior,
}
use delos_rust.Client.RangeTree.Forget.{forget, find_entry-forget}
use delos_rust.Client.RangeTree.State.{WellFormed, class_at, Sorted-forget, in_forget_tree}
use delos_rust.Client.RangeTree.Point.{PointSet}
use delos_rust.Client.RangeTree.Marks.{set_point_as_returned-PointSet}
use delos_rust.Client.Colour.{
  PerColor, next_return_is, can_return, is_within_snapshot, set_returned, finish, is_finished,
  has_returned,
}

next_return_is-inv :
    (s : RangeTree) (p : ℕ)
    → RangeTree.next_return_is s p ≡ ok true
    → (1 ≤ p)
      × (is_kind returned_to_client (kind_at s p) ≡ false)
      × (kind_at s (p - 1) ≡ some returned_to_client)
unfolding RangeTree.next_return_is
next_return_is-inv s p e = ground arith

-- An entry after a returned one is never skipped: it would have become a returned one.
not_skipped :
    (s : RangeTree) (p : ℕ)
    → WellFormed s
    → 1 ≤ p
    → kind_at s (p - 1) ≡ some returned_to_client
    → ¬ (kind_at s p ≡ some skip)
not_skipped s p i lo before here = elim (Option-cases (at s.inner (p - 1))) [
  | inl e ↦ absurd (ground (arith, e, before))
  | inr ((r, k), e) ↦ elim (Option-cases (at s.inner p)) [
    | inl f ↦ absurd (ground (arith, f, here))
    | inr ((r', k'), f) ↦
        let first : k ≡ returned_to_client = ground (arith, e, before) in
        let second : k' ≡ skip = ground (arith, f, here) in
        absurd (
          apart r r' (subst (λ x. at s.inner (p - 1) ≡ some (r, x)) first e)
            (subst (λ x. at s.inner p ≡ some (r', x)) second f))
  ]
]
  where
    apart :
        (r r' : Range)
        → at s.inner (p - 1) ≡ some (r, returned_to_client)
        → ¬ (at s.inner p ≡ some (r', skip))
    apart r r' e f =
        let inside = at_holds (p - 1) s.inner r returned_to_client e in
        elim (Bool-cases (leb p r.last)) [
          | inl h ↦ ground (
            arith,
            f,
            at_same 0 (p - 1) p s.inner r returned_to_client
                (Sorted-forget 0 s.inner i.tiling.sorted) e (omega (arith, inside)) (ground arith),
          )
          | inr h ↦
              let next : p ≡ r.last + 1 = ground (arith, inside) in
              ground (
                i.tiling.distinct (p - 1) r returned_to_client r' returned_to_client
                    (in_forget_tree s (p - 1) r returned_to_client e)
                    (subst (λ x. at (forget s.inner) x ≡ some (r', returned_to_client)) next
                      (in_forget_tree s p r' skip f)),
                arith,
              )
        ]

next_return_is_lem :
    (s : RangeTree) (p : ℕ)
    → WellFormed s
    → p ≤ u64_max
    → RangeTree.next_return_is s p ≡ ok true
    → (k : Kind) × (kind_at s p ≡ some k) × (k ≢ skip) × (k ≢ returned_to_client)
next_return_is_lem s p i b e =
    let (lo, fresh, before) = next_return_is-inv s p e in
    elim (Option-cases (at s.inner p)) [
      | inl f ↦ absurd (missing f)
      | inr ((r, k), f) ↦ (
        k,
        rw f refl,
        λ h. not_skipped s p i lo before (rw (f, h) refl),
        λ h. ground (arith, f, fresh),
      )
    ]
  where
    missing : ¬ (at s.inner p ≡ none)
    missing f = ground (arith, i.tiling.full p b refl, find_entry-forget (point p) s.inner, f)

pub is_returned-of :
    (s : RangeTree) (q : ℕ) → kind_at s q ≡ some returned_to_client → is_returned s q ≡ true
unfolding is_returned
is_returned-of s q e = rw e refl

pub of-is_returned :
    (s : RangeTree) (q : ℕ) → is_returned s q ≡ true → kind_at s q ≡ some returned_to_client
unfolding is_returned
of-is_returned s q e = ground arith

-- The class of an entry after a returned one tells its kind.
returned_now :
    (s : RangeTree) (p : ℕ)
    → WellFormed s
    → 1 ≤ p
    → kind_at s (p - 1) ≡ some returned_to_client
    → class_at s p ≡ some returned_to_client
    → is_returned s p ≡ true
returned_now s p i lo before e =
    is_returned-of s p
      (ground (arith, e, not_skipped s p i lo before, find_entry-forget (point p) s.inner))

chosen :
    (k : Kind) (p : ℕ) (other : Option Kind)
    → k ≢ returned_to_client
    → (if is_prior k returned_to_client && p == p then some returned_to_client else other)
      ≡ some returned_to_client
unfolding is_prior
chosen k p other d = ground (arith, d)

module _ {V : Type 0} where
  can_return-inv :
      (c : PerColor V) (p : ℕ)
      → can_return c p ≡ ok true
      → (RangeTree.next_return_is c.read_status p ≡ ok true) × (leb p c.last_snapshot ≡ true)
  unfolding can_return next_return_is is_within_snapshot
  can_return-inv c p e = ground arith

  -- The colour after the return of an entry.
  abbrev pub ReturnedTo : PerColor V → ℕ → PerColor V → Type 0
  ReturnedTo c p c' =
      WellFormed c'.read_status
      × (has_returned c' p ≡ true)
      × ((q : ℕ) → has_returned c q ≡ true → has_returned c' q ≡ true)
      × (c'.last_snapshot ≡ c.last_snapshot)
      × ((c'.is_being_read ≡ none)
          ⊎ ((is_finished c' ≡ false) × (c'.is_being_read ≡ c.is_being_read)))

  ReturnedTo-finish :
      (c : PerColor V) (p : ℕ) (t : RangeTree)
      → WellFormed t
      → is_returned t p ≡ true
      → ((q : ℕ) → is_returned c.read_status q ≡ true → is_returned t q ≡ true)
      → ReturnedTo c p (finish (record c { read_status = t }))
  unfolding finish has_returned
  ReturnedTo-finish c p t i e k = elim (Bool-cases (is_finished (record c { read_status = t }))) [
    | inl f ↦ rw f (i, e, k, refl, inl refl)
    | inr f ↦ rw f (i, e, k, refl, inr (f, refl))
  ]

  -- An entry within the snapshot whose turn it is, as `can_return` says, is returned and no assertion fails. It counts as returned from
  -- then on, as all that were, the snapshot stays, and the read either goes on unfinished or is over.
  pub set_returned_lem :
      (c : PerColor V) (p : ℕ)
      → WellFormed c.read_status
      → p ≤ u64_max
      → can_return c p ≡ ok true
      → Returns (ReturnedTo c p) (set_returned c p)
  unfolding set_returned next_return_is
  set_returned_lem c p i b e =
      let (next, within) = can_return-inv c p e in
      let (lo, fresh, before) = next_return_is-inv c.read_status p next in
      let (k, here, a, d) = next_return_is_lem c.read_status p i b next in
      rw next (
        rw within (
          Returns->>= (PointSet c.read_status p k returned_to_client) (ReturnedTo c p)
            (RangeTree.set_point_as_returned c.read_status p) _
            (set_point_as_returned-PointSet c.read_status p k i b here a d)
            (λ (done, t) h.
              ReturnedTo-finish c p t h.1
                (returned_now t p h.1 lo (h.3 (p - 1) before)
                  (h.2 p ∙ chosen k p (class_at c.read_status p) d))
                (λ q x. is_returned-of t q (h.3 q (of-is_returned c.read_status q x))))))
