-- ===== src/Client/RangeTree/Point.antt =====
-- `set_point_as`: one entry of the colour goes on to its next state.
use delos_rust.Prelude.{
  ℕ, zero, suc, ◌+◌, ◌-◌, ◌⊎◌, ◌≤◌, ◌≡◌, ◌≢◌, refl, sym, ◌∙◌, ap, subst, inl, inr, Bool, true,
  false, ◌&&◌, Option, none, some, arith, ok, ◌>>=◌, Returns, Returns->>=, >>=-eq-ok, if◌then◌else◌,
  ◌==◌, u64_max, Bool-cases, Option-cases,
}
use delos_rust.Util.Range.{Range, point, split_at}
use delos_rust.Util.RangeMap.{
  remove_entry-Sorted, Tree, at, Sorted, remove_entry, at_holds, at_same, at-remove_entry,
  insert-remove_entry,
}
use delos_rust.Util.RangeTree.{Mergeable, value_of}
use delos_rust.Util.RangeTree.Fill.{remove_entry-Hole}
use delos_rust.Util.RangeTree.Place.{Placed, place_lem, pieces}
use delos_rust.Util.RangeTree.Point.{split_at-pieces}
use delos_rust.Util.RangeTree.Span.{remove_from_map-found}
use delos_rust.Client.RangeTree.{
  Kind, sent_to_server, gotten_from_server, returned_to_client, skip, same, is_prior, RangeTree,
  place, uncount, recount, set_point_as, kind_at, is_kind,
}
use delos_rust.Client.RangeTree.Forget.{
  class, class_sent, class_gotten, forget, by_class, by_class-IsLawful, remove_entry-forget,
  place-forget,
}
use delos_rust.Prelude.{Ensures, Returns-Ensures}
use delos_rust.Client.RangeTree.Returned.{Returned, Keeps, place-Keeps, place-Returned}
use delos_rust.Client.RangeTree.Skipped.{place-Skipped}
use delos_rust.Client.RangeTree.Count.{one_if, counted_bound, counted_ext}
use delos_rust.Client.RangeTree.State.{
  class_at, number_of, WellFormed, Sorted-forget, in_forget_tree, class_of_kind, Returns-forget,
  counters_lem, number_of-point,
}

-- An entry next to this one is returned.
abbrev pub NextToReturned : RangeTree → ℕ → Type 0
NextToReturned s p = Returned (kind_at s (p - 1)) ⊎ Returned (kind_at s (p + 1))

-- What `set_point_as` answers, and the tree that it leaves.
abbrev pub PointSet : RangeTree → ℕ → Kind → Kind → Bool × RangeTree → Type 0
PointSet s p k nk (done, s') =
    (done ≡ is_prior k nk)
    × WellFormed s'
    × ((q : ℕ)
        → class_at s' q ≡ (if is_prior k nk && q == p then some (class nk) else class_at s q))
    × Keeps s.inner s'.inner
    × (is_prior k nk ≡ false → s' ≡ s)
    × (nk ≡ returned_to_client → is_prior k nk ≡ true → kind_at s' p ≡ some returned_to_client)
    × (nk ≡ skip
        → is_prior k nk ≡ true
        → kind_at s' p ≡ some returned_to_client
        → NextToReturned s p)

same-class : (a b : Kind) → same (class a) (class b) ≡ false → same a b ≡ false
same-class a b h = ground arith

Placed-point :
    {V : Type 0} (m : Mergeable V) (t : Tree V) (p : ℕ) (r : Range) (v nk : V) (t' : Tree V)
    → Sorted 0 t
    → at t p ≡ some (r, v)
    → Placed m (remove_entry (point p) t) r v (point p) nk t'
    → (q : ℕ) → value_of (at t' q) ≡ (if q == p then some nk else value_of (at t q))
Placed-point m t p r v nk t' h e d q =
    ground (arith, d.values q, at-remove_entry 0 p q t r v h e, at_same 0 p q t r v h e)

returned_goes :
    (k nk : Kind)
    → is_prior k nk ≡ true
    → same (class k) (class nk) ≡ false
    → k ≢ returned_to_client
unfolding is_prior
returned_goes k nk f d e = absurd (ground arith)

returned_stays :
    (k nk : Kind)
    → is_prior k nk ≡ true
    → same (class k) (class nk) ≡ false
    → some returned_to_client ≢ some (class k)
unfolding is_prior
returned_stays k nk f d e = absurd (ground arith)

-- Entry 0 is never set.
not_origin :
    (s : RangeTree) (p : ℕ) (k nk : Kind)
    → WellFormed s
    → class_at s p ≡ some (class k)
    → is_prior k nk ≡ true
    → same (class k) (class nk) ≡ false
    → 1 ≤ p
unfolding is_prior
not_origin s zero k nk i e f d =
    absurd (returned_stays k nk f d (sym (class_of_kind s 0 returned_to_client i.origin) ∙ e))
not_origin s (suc p) k nk i e f d = omega arith

module _ (s : RangeTree) (p : ℕ) (r : Range) (k nk : Kind) (i : WellFormed s) (b : p ≤ u64_max)
    (e : at s.inner p ≡ some (r, k)) where
  abbrev Applied : Tree Kind → Type 0
  Applied t' =
      Placed by_class (remove_entry (point p) (forget s.inner)) r (class k) (point p) (class nk)
        (forget t')

  place-point :
      same (class k) (class nk) ≡ false
      → Returns Applied (place (split_at r p) (remove_entry (point p) s.inner) k (point p) nk)
  place-point d =
      let e' : at (forget s.inner) p ≡ some (r, class k) = in_forget_tree s p r k e in
      let inside = at_holds p (forget s.inner) r (class k) e' in
      Returns-forget
        (λ t'.
          Placed by_class (remove_entry (point p) (forget s.inner)) r (class k) (point p) (class nk)
            t')
        _
        (rw
          (
            place-forget (split_at r p) (remove_entry (point p) s.inner) k (point p) nk,
            remove_entry-forget (point p) s.inner,
            split_at-pieces r p (ground (arith, inside)),
          )
          (place_lem by_class by_class-IsLawful (remove_entry (point p) (forget s.inner)) r
            (class k) (point p) (class nk)
            (remove_entry-Hole by_class by_class-IsLawful (forget s.inner) p r (class k) i.tiling
              e')
            (omega arith) d (omega (arith, inside)) (omega (arith, inside))))

  values_lem :
      (t' : Tree Kind)
      → Applied t'
      → (q : ℕ) → value_of (at (forget t') q) ≡ (if q == p then some (class nk) else class_at s q)
  values_lem t' d =
      Placed-point by_class (forget s.inner) p r (class k) (class nk) (forget t') i.tiling.sorted
        (in_forget_tree s p r k e) d

  -- What the tree says afterwards.
  abbrev after : ℕ → Option Kind
  after q = if q == p then some (class nk) else class_at s q

  abbrev set_to : Tree Kind → RangeTree
  set_to t' = record {
    inner = t';
    num_outstanding = number_of sent_to_server after;
    num_buffered = number_of gotten_from_server after;
  }

  set_to-WellFormed :
      1 ≤ p → (t' : Tree Kind) → Applied t' → Keeps s.inner t' → WellFormed (set_to t')
  set_to-WellFormed lo t' d keep = record {
    tiling = d.tiling;
    origin = keep 0 i.origin;
    outstanding =
        counted_ext _ _ 1 u64_max (λ q x y. ap (is_kind sent_to_server) (sym (values_lem t' d q)));
    buffered =
        counted_ext _ _ 1 u64_max
          (λ q x y. ap (is_kind gotten_from_server) (sym (values_lem t' d q)));
  }

  counted_again :
      (kind : Kind)
      → 1 ≤ p
      → number_of kind after + one_if (same (class k) kind)
        ≡ number_of kind (class_at s) + one_if (same (class nk) kind)
  counted_again kind lo =
      number_of-point kind (class_at s) after p (class k) (class nk) lo b
        (rw (in_forget_tree s p r k e) refl) (λ q. refl)

  moved_counters :
      1 ≤ p
      → same (class k) (class nk) ≡ false
      → (uncount k (s.num_outstanding, s.num_buffered) >>= recount nk)
        ≡ ok (number_of sent_to_server after, number_of gotten_from_server after)
  moved_counters lo d =
      counters_lem k nk s.num_outstanding s.num_buffered _ _
        (rw (i.outstanding, sym (class_sent k), sym (class_sent nk))
          (counted_again sent_to_server lo))
        (rw (i.buffered, sym (class_gotten k), sym (class_gotten nk))
          (counted_again gotten_from_server lo))
        (same-class k nk d) (counted_bound _ 1 u64_max) (counted_bound _ 1 u64_max)

  abbrev taken : Tree Kind
  taken = remove_entry (point p) s.inner

  plain-Sorted : Sorted 0 s.inner
  plain-Sorted = Sorted-forget 0 s.inner i.tiling.sorted

  -- What the merging does not touch: the returned entries, and an entry that is returned now
  abbrev Shows : Tree Kind → Type 0
  Shows t' =
      Keeps taken t'
      × (nk ≡ returned_to_client → Returned (value_of (at t' p)))
      × (nk ≡ skip → Returned (value_of (at t' p)) → NextToReturned s p)

  -- What `taken` shows
  shown_before : (q : ℕ) → Returned (value_of (at taken q)) → Returned (value_of (at s.inner q))
  shown_before q h = ground (arith, h, at-remove_entry 0 p q s.inner r k plain-Sorted e)

  taken-Shows : Ensures Shows (place (split_at r p) taken k (point p) nk)
  taken-Shows =
      let inside = at_holds p s.inner r k e in
      let free : (q : ℕ) → r.first ≤ q → q ≤ r.last → at taken q ≡ none =
        λ q a c. ground (arith, at-remove_entry 0 p q s.inner r k plain-Sorted e) in
      let sorted = remove_entry-Sorted 0 p s.inner plain-Sorted in
      rw (split_at-pieces r p (ground (arith, inside))) (λ t' f. (
        place-Keeps taken r k (point p) nk sorted free (omega arith) (omega (arith, inside))
            (omega (arith, inside)) t' f,
        (λ g.
            place-Returned taken r k (point p) nk sorted free (omega arith) (omega (arith, inside))
              (omega (arith, inside)) g t' f),
        λ g h.
            let skipped = subst (λ x. place (pieces r (point p)) taken k (point p) x ≡ ok t') g f in
            elim (place-Skipped taken r k p sorted free (omega (arith, inside))
              (omega (arith, inside)) t' skipped h) [
                | inl x ↦ inl (shown_before (p - 1) x)
                | inr x ↦ inr (shown_before (p + 1) x)
              ],
      ))

  kept_here :
      is_prior k nk ≡ true
      → same (class k) (class nk) ≡ false
      → (t' : Tree Kind) → Keeps taken t'
      → Keeps s.inner t'
  kept_here f d t' kept q h = kept q (
      ground (
        arith,
        h,
        returned_goes k nk f d,
        at-remove_entry 0 p q s.inner r k plain-Sorted e,
        at_same 0 p q s.inner r k plain-Sorted e,
      ))

  accepted_lem :
      is_prior k nk ≡ true
      → same (class k) (class nk) ≡ false
      → Returns (PointSet s p k nk) (set_point_as s p nk)
  unfolding set_point_as
  accepted_lem f d =
      let lo : 1 ≤ p = not_origin s p k nk i (rw (in_forget_tree s p r k e) refl) f d in
      let (mid, first, second) =
        >>=-eq-ok (uncount k (s.num_outstanding, s.num_buffered)) (recount nk)
          (moved_counters lo d) in
      rw (remove_from_map-found s.inner (point p) r k e) (
        rw f (
          rw first (
            rw second (
              Returns->>= (λ t'. Applied t' × Shows t') (PointSet s p k nk)
                (place (split_at r p) taken k (point p) nk) _
                (Returns-Ensures Applied Shows _ (place-point d) taken-Shows)
                (λ t' (a, (kept, here, near)). (
                  sym f,
                  set_to-WellFormed lo t' a (kept_here f d t' kept),
                  λ q. values_lem t' a q ∙ sym (rw f refl),
                  kept_here f d t' kept,
                  (λ g. absurd (ground arith)),
                  (λ g h. here g),
                  λ g h. near g,
                ))))))

  rejected_lem : is_prior k nk ≡ false → set_point_as s p nk ≡ ok (false, s)
  unfolding set_point_as
  rejected_lem f = rw (remove_from_map-found s.inner (point p) r k e) (
      rw f
        (rw (insert-remove_entry 0 p s.inner r k (Sorted-forget 0 s.inner i.tiling.sorted) e) refl))

-- An entry of a well-formed tree moves to another class of states exactly if the new state is a step forward: then this entry is of
-- the class of the new one and all others are of their classes as before, and the tree and its counters are well formed again. Otherwise nothing changes.
pub set_point_as_accepts :
    (s : RangeTree) (p : ℕ) (k nk : Kind)
    → WellFormed s
    → p ≤ u64_max
    → kind_at s p ≡ some k
    → (is_prior k nk ≡ true → same (class k) (class nk) ≡ false)
    → Returns (PointSet s p k nk) (set_point_as s p nk)
set_point_as_accepts s p k nk i b e d = elim (Option-cases (at s.inner p)) [
  | inl h ↦ absurd (ground (arith, h, e))
  | inr ((r, k'), h) ↦
      let here : k' ≡ k = ground (arith, h, e) in
      let found : at s.inner p ≡ some (r, k) = subst (λ x. at s.inner p ≡ some (r, x)) here h in
      elim (Bool-cases (is_prior k nk)) [
        | inl f ↦ accepted_lem s p r k nk i b found f (d f)
        | inr f ↦ rw (rejected_lem s p r k nk i b found f) (
          sym f,
          i,
          (λ q. rw f refl),
          (λ q h. h),
          (λ g. refl),
          (λ g h. absurd (ground arith)),
          λ g h. absurd (ground arith),
        )
      ]
]
