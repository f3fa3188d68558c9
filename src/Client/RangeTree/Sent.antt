-- ===== src/Client/RangeTree/Sent.antt =====
-- `set_range_as_sent`: a range of entries that nobody asked for yet has been asked for.
use delos_rust.Prelude.{
  ℕ, ◌+◌, ◌-◌, ◌≤◌, ◌≡◌, refl, sym, ◌∙◌, ap, Bool, true, false, Option, some, arith, ok, add64,
  Returns, Returns->>=, if◌then◌else◌, u64_max,
}
use delos_rust.Util.Range
use delos_rust.Util.Range.{Range, range, point, contains}
use delos_rust.Util.RangeMap.{
  Tree, at, Sorted, remove_entry, at_holds, at_same, at-remove_entry, remove_entry-Sorted,
}
use delos_rust.Util.RangeTree.{Mergeable, value_of}
use delos_rust.Util.RangeTree.Fill.{remove_entry-Hole}
use delos_rust.Util.RangeTree.Place.{Placed, pieces, place_lem}
use delos_rust.Util.RangeTree.Span.{remove_from_map-found, remove-pieces}
use delos_rust.Client.RangeTree.{
  Kind, unread, sent_to_server, gotten_from_server, returned_to_client, RangeTree, place,
  set_range_as_sent, is_kind,
}
use delos_rust.Client.RangeTree.Forget.{
  forget, by_class, by_class-IsLawful, remove_entry-forget, place-forget,
}
use delos_rust.Prelude.{Returns-Ensures}
use delos_rust.Client.RangeTree.Returned.{Keeps, place-Keeps}
use delos_rust.Client.RangeTree.Count.{counted_bound, counted_ext, counted_change}
use delos_rust.Client.RangeTree.State.{
  class_at, number_of, WellFormed, Sorted-forget, in_forget_tree, class_of_kind, Returns-forget,
}
use delos_rust.Client.RangeTree.Marks.{checked-Returns}

-- The entries from `low` to `high` have been asked for, the others are as before.
abbrev pub RangeSent : RangeTree → ℕ → ℕ → Bool × RangeTree → Type 0
RangeSent s low high (done, s') =
    (done ≡ true)
    × WellFormed s'
    × ((q : ℕ)
        → class_at s' q
          ≡ (if contains (range low high) q then some sent_to_server else class_at s q))
    × Keeps s.inner s'.inner
    × (s'.num_outstanding ≡ s.num_outstanding + (high - low + 1))
    × (s'.num_buffered ≡ s.num_buffered)

Placed-values :
    {V : Type 0} (m : Mergeable V) (t : Tree V) (p : ℕ) (r new : Range) (v nk : V) (t' : Tree V)
    → Sorted 0 t
    → at t p ≡ some (r, v)
    → Placed m (remove_entry (point p) t) r v new nk t'
    → (q : ℕ) → value_of (at t' q) ≡ (if contains new q then some nk else value_of (at t q))
Placed-values m t p r new v nk t' h e d q =
    ground (arith, d.values q, at-remove_entry 0 p q t r v h e, at_same 0 p q t r v h e)

new_lem : (low high : ℕ) → low ≤ high → Range.new low high ≡ ok (range low high)
unfolding Range.new
new_lem low high a = ground arith

len_lem :
    (low high : ℕ)
    → low ≤ high
    → 1 ≤ low
    → high ≤ u64_max
    → Range.len (range low high) ≡ ok (high - low + 1)
unfolding Range.len
len_lem low high a b c = ground arith

add64_lem : (a b : ℕ) → a + b ≤ u64_max → add64 a b ≡ ok (a + b)
add64_lem a b h = ground arith

spans_lem :
    (r : Range) (low high : ℕ)
    → r.first ≤ low
    → high ≤ r.last
    → Range.spans r (range low high) ≡ true
unfolding Range.spans
spans_lem r low high a b = ground arith

module _ (s : RangeTree) (low high : ℕ) (r : Range) (i : WellFormed s) (a : low ≤ high)
    (b : high ≤ r.last) (e : at s.inner low ≡ some (r, unread)) where
  abbrev new_range : Range
  new_range = range low high

  in_forget : at (forget s.inner) low ≡ some (r, unread)
  in_forget = in_forget_tree s low r unread e

  small : high ≤ u64_max
  small = omega (arith, b, i.tiling.bounded low r unread in_forget)

  not_origin : 1 ≤ low
  not_origin = ground (arith, class_of_kind s 0 returned_to_client i.origin, in_forget)

  abbrev after : ℕ → Option Kind
  after q = if contains new_range q then some sent_to_server else class_at s q

  was_unread : (q : ℕ) → low ≤ q → q ≤ high → class_at s q ≡ some unread
  was_unread q x y = ground (
    arith,
    at_same 0 low q (forget s.inner) r unread i.tiling.sorted in_forget,
    at_holds low (forget s.inner) r unread in_forget,
  )

  more_outstanding : number_of sent_to_server after ≡ s.num_outstanding + (high - low + 1)
  more_outstanding = omega (
    arith,
    i.outstanding,
    not_origin,
    counted_change (λ q. is_kind sent_to_server (class_at s q))
        (λ q. is_kind sent_to_server (after q)) false true 1 (low - 1) (high - low + 1) u64_max
        (omega (arith, not_origin, small)) (λ q x. ground (arith, not_origin))
        (λ q x. ground (arith, not_origin))
        (λ q x y. rw (was_unread q (omega (arith, not_origin)) (omega (arith, not_origin))) refl)
        (λ q x y. ground (arith, not_origin)),
  )

  same_buffered : number_of gotten_from_server after ≡ s.num_buffered
  same_buffered = counted_ext _ _ 1 u64_max (λ q x y. ground (arith, was_unread q)) ∙ sym i.buffered

  Applied : Tree Kind → Type 0
  Applied t' =
      Placed by_class (remove_entry (point low) (forget s.inner)) r unread new_range sent_to_server
        (forget t')

  place_sent :
      Returns
        (λ t'. Applied t' × Keeps (remove_entry (point low) s.inner) t')
        (place
          (pieces r new_range)
          (remove_entry (point low) s.inner)
          unread
          new_range
          sent_to_server)
  unfolding Applied
  place_sent =
      let inside = at_holds low s.inner r unread e in
      let plain-Sorted : Sorted 0 s.inner = Sorted-forget 0 s.inner i.tiling.sorted in
      Returns-Ensures Applied (Keeps (remove_entry (point low) s.inner)) _
        (Returns-forget
          (λ t'.
            Placed by_class (remove_entry (point low) (forget s.inner)) r unread new_range
              sent_to_server t')
          _
          (rw
            (
              place-forget (pieces r new_range) (remove_entry (point low) s.inner) unread new_range
                  sent_to_server,
              remove_entry-forget (point low) s.inner,
            )
            (place_lem by_class by_class-IsLawful (remove_entry (point low) (forget s.inner)) r
              unread new_range sent_to_server
              (remove_entry-Hole by_class by_class-IsLawful (forget s.inner) low r unread i.tiling
                in_forget)
              a refl inside.0 b)))
        (place-Keeps (remove_entry (point low) s.inner) r unread new_range sent_to_server
          (remove_entry-Sorted 0 low s.inner plain-Sorted)
          (λ q x y. ground (arith, at-remove_entry 0 low q s.inner r unread plain-Sorted e)) a
          inside.0 b)

  abbrev sent_to : Tree Kind → RangeTree
  sent_to t' = record s { inner = t'; num_outstanding = s.num_outstanding + (high - low + 1) }

  sent-lem :
      (t' : Tree Kind)
      → Applied t' × Keeps (remove_entry (point low) s.inner) t'
      → RangeSent s low high (true, sent_to t')
  unfolding Applied
  sent-lem t' (d, kept) =
      let plain-Sorted : Sorted 0 s.inner = Sorted-forget 0 s.inner i.tiling.sorted in
      let values : ((q : ℕ) → value_of (at (forget t') q) ≡ after q) =
        Placed-values by_class (forget s.inner) low r new_range unread sent_to_server (forget t')
          i.tiling.sorted in_forget d in
      let keep : Keeps s.inner t' = (λ q h. kept q (
        ground (
          arith,
          h,
          at-remove_entry 0 low q s.inner r unread plain-Sorted e,
          at_same 0 low q s.inner r unread plain-Sorted e,
        ))) in
      (
        refl,
        record {
          tiling = d.tiling;
          origin = keep 0 i.origin;
          outstanding =
              sym more_outstanding
              ∙ counted_ext _ _ 1 u64_max (λ q x y. ap (is_kind sent_to_server) (sym (values q)));
          buffered =
              sym same_buffered
              ∙ counted_ext _ _ 1 u64_max
                  (λ q x y. ap (is_kind gotten_from_server) (sym (values q)));
        },
        values,
        keep,
        refl,
        refl,
      )

  -- A range that starts in a range of unread entries and ends in it is recorded as asked for: only its entries change, the counter
  -- of outstanding entries grows by their number, and no check fails.
  pub set_range_as_sent_lem : Returns (RangeSent s low high) (set_range_as_sent s low high)
  unfolding set_range_as_sent
  set_range_as_sent_lem =
      let inside = at_holds low s.inner r unread e in
      let spans : Range.spans r new_range ≡ true = spans_lem r low high inside.0 b in
      checked-Returns (RangeSent s low high) s _ i (λ x h. h.1)
        (rw (new_lem low high a) (
          rw (remove_from_map-found s.inner (point low) r unread e) (
            rw spans (
              rw (len_lem low high a not_origin small) (
                rw
                  (add64_lem s.num_outstanding (high - low + 1) (
                    omega (
                      arith,
                      more_outstanding,
                      counted_bound (λ q. is_kind sent_to_server (after q)) 1 u64_max,
                    )))
                  (rw (remove-pieces r new_range a spans) (
                    Returns->>= _ (RangeSent s low high)
                      (place (pieces r new_range) (remove_entry (point low) s.inner) unread
                        new_range sent_to_server)
                      _ place_sent sent-lem)))))))
