-- ===== src/Client/RangeTree/Reads.antt =====
-- What the client reads off its tree after an entry has arrived or was returned: the kinds themselves, not their classes.
use delos_rust.Prelude.{
  ℕ, ◌≤◌, ◌≡◌, ◌≢◌, refl, sym, ◌∙◌, ◌↔◌, ◌⊎◌, inl, inr, Bool, true, false, Option, none, some,
  arith, Returns, Returns-map, u64_max,
}
use delos_rust.Util.Range.{Range, point}
use delos_rust.Util.RangeMap.{at}
use delos_rust.Util.RangeTree.{value_of}
use delos_rust.Client.RangeTree.{
  Kind, unread, sent_to_server, gotten_from_server, returned_to_client, skip, is_prior, RangeTree,
  kind_at, set_point_as_recvd, set_point_as_skip, set_point_as_returned,
}
use delos_rust.Client.RangeTree.Forget.{class_found, find_entry-forget}
use delos_rust.Client.RangeTree.State.{class_at, WellFormed}
use delos_rust.Client.RangeTree.Returned.{Returned}
use delos_rust.Client.RangeTree.Point.{PointSet, NextToReturned}
use delos_rust.Client.RangeTree.Marks.{
  set_point_as_skip-PointSet, set_point_as_recvd-PointSet, set_point_as_returned-PointSet,
}

-- An entry reads as before, or it was skipped and reads as returned, after a merge with returned neighbours.
abbrev pub SameOrDone : Option Kind → Option Kind → Type 0
SameOrDone (some skip) v = (v ≡ some skip) ⊎ (v ≡ some returned_to_client)
SameOrDone w v = v ≡ w

same_kinds :
    (a b : Option (Range × Kind))
    → value_of (class_found b) ≡ value_of (class_found a)
    → (Returned (value_of a) → Returned (value_of b))
    → SameOrDone (value_of a) (value_of b)
same_kinds none none e k = refl
same_kinds none (some (r, v)) e k = absurd (ground arith)
same_kinds (some (r, v)) none e k = absurd (ground arith)
same_kinds (some (r, skip)) (some (r', v)) e k = ground arith
same_kinds (some (r, returned_to_client)) (some (r', v)) e k = k refl
same_kinds (some (r, unread)) (some (r', v)) e k = ground arith
same_kinds (some (r, sent_to_server)) (some (r', v)) e k = ground arith
same_kinds (some (r, gotten_from_server)) (some (r', v)) e k = ground arith

done_kind :
    (a : Option (Range × Kind))
    → value_of (class_found a) ≡ some returned_to_client
    → (value_of a ≡ some skip) ⊎ (value_of a ≡ some returned_to_client)
done_kind none e = absurd (ground arith)
done_kind (some (r, v)) e = ground arith

gotten_kind :
    (a : Option (Range × Kind))
    → value_of (class_found a) ≡ some gotten_from_server
    → value_of a ≡ some gotten_from_server
gotten_kind none e = absurd (ground arith)
gotten_kind (some (r, v)) e = ground arith

class_at-found : (s : RangeTree) (q : ℕ) → class_at s q ≡ value_of (class_found (at s.inner q))
class_at-found s q = rw (find_entry-forget (point q) s.inner) refl

-- All entries but one
abbrev pub Others : RangeTree → ℕ → RangeTree → Type 0
Others s p s' = (q : ℕ) → q ≢ p → SameOrDone (kind_at s q) (kind_at s' q)

PointSet-Others :
    (s : RangeTree) (p : ℕ) (k nk : Kind) (done : Bool) (s' : RangeTree)
    → PointSet s p k nk (done, s')
    → Others s p s'
PointSet-Others s p k nk done s' h q ne =
    let same : class_at s' q ≡ class_at s q = ground (arith, h.2 q) in
    same_kinds (at s.inner q) (at s'.inner q)
      (sym (class_at-found s' q) ∙ same ∙ class_at-found s q) (h.3 q)

abbrev pub Arrived : RangeTree → ℕ → Kind → Bool × RangeTree → Type 0
Arrived s p k (done, s') =
    ((done ≡ true) ↔ ((k ≡ unread) ⊎ (k ≡ sent_to_server)))
    × WellFormed s'
    × (done ≡ true → kind_at s' p ≡ some gotten_from_server)
    × (done ≡ false → s' ≡ s)
    × Others s p s'

abbrev pub HandedOver : RangeTree → ℕ → Bool × RangeTree → Type 0
HandedOver s p (done, s') =
    (done ≡ true) × WellFormed s' × (kind_at s' p ≡ some returned_to_client) × Others s p s'

open_kinds :
    (k : Kind) → (is_prior k gotten_from_server ≡ true) ↔ ((k ≡ unread) ⊎ (k ≡ sent_to_server))
unfolding is_prior
open_kinds k = ground arith

abbrev pub PassedOver : RangeTree → ℕ → Kind → Bool × RangeTree → Type 0
PassedOver s p k (done, s') =
    ((done ≡ true) ↔ ((k ≡ unread) ⊎ (k ≡ sent_to_server) ⊎ (k ≡ gotten_from_server)))
    × WellFormed s'
    × (done ≡ true
        → (kind_at s' p ≡ some skip)
          ⊎ ((kind_at s' p ≡ some returned_to_client) × NextToReturned s p))
    × (done ≡ false → s' ≡ s)
    × Others s p s'

skippable_kinds :
    (k : Kind)
    → (is_prior k skip ≡ true) ↔ ((k ≡ unread) ⊎ (k ≡ sent_to_server) ⊎ (k ≡ gotten_from_server))
unfolding is_prior
skippable_kinds k = ground arith

module _ (s : RangeTree) (p : ℕ) (k : Kind) (i : WellFormed s) (b : p ≤ u64_max)
    (e : kind_at s p ≡ some k) where
  Arrived-of : (x : Bool × RangeTree) → PointSet s p k gotten_from_server x → Arrived s p k x
  Arrived-of (done, s') h = (
    rw (h.0) (open_kinds k),
    h.1,
    (λ y. gotten_kind (at s'.inner p) (sym (class_at-found s' p) ∙ ground (arith, h.2 p, h.0))),
    (λ y. h.4 (sym h.0 ∙ y)),
    PointSet-Others s p k gotten_from_server done s' h,
  )

  -- An entry arrives in a well-formed tree. It is accepted exactly if it was unread or asked for, and then reads as buffered;
  -- otherwise nothing changes. Every other entry reads as before, except that a skipped one may read as
  -- returned. The tree and its counters are well formed, and no check fails.
  pub set_point_as_recvd_lem : Returns (Arrived s p k) (set_point_as_recvd s p)
  set_point_as_recvd_lem =
      Returns-map {P = PointSet s p k gotten_from_server} {Q = Arrived s p k} _
        (set_point_as_recvd-PointSet s p k i b e) Arrived-of

  PassedOver-of : (x : Bool × RangeTree) → PointSet s p k skip x → PassedOver s p k x
  PassedOver-of (done, s') h = (
    rw (h.0) (skippable_kinds k),
    h.1,
    (λ y.
        elim (done_kind (at s'.inner p) (sym (class_at-found s' p) ∙ ground (arith, h.2 p, h.0))) [
          | inl a ↦ inl a
          | inr a ↦ inr (a, h.6 refl (sym h.0 ∙ y) a)
        ]),
    (λ y. h.4 (sym h.0 ∙ y)),
    PointSet-Others s p k skip done s' h,
  )

  -- An entry of a well-formed tree is skipped. This is accepted exactly if it was unread, asked for or buffered; otherwise nothing changes. It then
  -- reads as skipped, or as returned where an entry next to it was returned. Every other entry reads as before, except that a skipped one may
  -- read as returned. The tree and its counters are well formed, and no check fails.
  pub set_point_as_skip_lem : Returns (PassedOver s p k) (set_point_as_skip s p)
  set_point_as_skip_lem =
      Returns-map {P = PointSet s p k skip} {Q = PassedOver s p k} _
        (set_point_as_skip-PointSet s p k i b e) PassedOver-of

  -- An entry of a well-formed tree that is neither skipped nor returned is returned: it reads so afterwards. Every other entry
  -- reads as before, except that a skipped one may read as returned. The tree and its counters are
  -- well formed, and no check fails.
  pub set_point_as_returned_lem :
      k ≢ skip → k ≢ returned_to_client → Returns (HandedOver s p) (set_point_as_returned s p)
  unfolding is_prior
  set_point_as_returned_lem c d =
      let known : is_prior k returned_to_client ≡ true = ground (arith, c, d) in
      Returns-map {P = PointSet s p k returned_to_client} {Q = HandedOver s p} _
        (set_point_as_returned-PointSet s p k i b e c d)
        (λ (done, s') h.
          (h.0 ∙ known, h.1, h.5 refl known, PointSet-Others s p k returned_to_client done s' h))
