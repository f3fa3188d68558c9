-- ===== src/Client/RangeTree/Marks.antt =====
-- The four setters of one entry, with the checks that they make before and after.
use delos_rust.Prelude.{
  ℕ, ◌≤◌, ◌≡◌, ◌≢◌, ◌∙◌, Bool, true, false, some, arith, Outcome, ok, ◌>>=◌, assert, Returns,
  Returns->>=, u64_max,
}
use delos_rust.Client.RangeTree.{
  Kind, unread, gotten_from_server, returned_to_client, skip, same, is_prior, RangeTree,
  set_point_as, kind_at, tree_invariant, checked, set_point_as_none, set_point_as_skip,
  set_point_as_recvd, set_point_as_returned,
}
use delos_rust.Client.RangeTree.Forget.{class}
use delos_rust.Client.RangeTree.Check.{check_all_lem}
use delos_rust.Client.RangeTree.State.{WellFormed}
use delos_rust.Client.RangeTree.Point.{PointSet, set_point_as_accepts}

-- A well-formed tree passes the check that is made before and after every change.
pub tree_invariant-WellFormed : (s : RangeTree) → WellFormed s → tree_invariant s ≡ true
unfolding tree_invariant
tree_invariant-WellFormed s i =
    rw
      (check_all_lem s.inner s.num_outstanding s.num_buffered i.tiling i.origin i.outstanding
        i.buffered)
      (ground arith)

pub checked-Returns :
    {A : Type 0} (P : A × RangeTree → Type 0) (s : RangeTree) (change : Outcome (A × RangeTree))
    → WellFormed s
    → ((x : A × RangeTree) → P x → WellFormed x.1)
    → Returns P change
    → Returns P (checked s change)
unfolding checked
checked-Returns P s change i keep r =
    rw (tree_invariant-WellFormed s i) (
      Returns->>= P P change _ r
        (λ (a, s') h. rw (tree_invariant-WellFormed s' (keep (a, s') h)) h))

module _ (s : RangeTree) (p : ℕ) (k : Kind) (i : WellFormed s) (b : p ≤ u64_max)
    (e : kind_at s p ≡ some k) where
  mark :
      (nk : Kind)
      → (is_prior k nk ≡ true → same (class k) (class nk) ≡ false)
      → Returns (PointSet s p k nk) (checked s (set_point_as s p nk))
  mark nk d =
      checked-Returns (PointSet s p k nk) s (set_point_as s p nk) i (λ x h. h.1)
        (set_point_as_accepts s p k nk i b e d)

  assert_known :
      (done : Bool) (s' : RangeTree) (k' : Kind)
      → PointSet s p k' returned_to_client (done, s')
      → done ≡ true
      → Returns (PointSet s p k' returned_to_client) (assert done >>= λ _. ok (done, s'))
  assert_known true s' k' h e = h
  assert_known false s' k' h e = absurd (ground arith)

  -- An entry arrives.
  pub set_point_as_recvd-PointSet :
      Returns (PointSet s p k gotten_from_server) (set_point_as_recvd s p)
  unfolding set_point_as_recvd is_prior
  set_point_as_recvd-PointSet = mark gotten_from_server (λ f. ground arith)

  -- An entry is skipped.
  pub set_point_as_skip-PointSet : Returns (PointSet s p k skip) (set_point_as_skip s p)
  unfolding set_point_as_skip is_prior
  set_point_as_skip-PointSet = mark skip (λ f. ground arith)

  -- An entry that is not unread goes back to unread, where that is possible.
  pub set_point_as_none-PointSet :
      k ≢ unread → Returns (PointSet s p k unread) (set_point_as_none s p)
  unfolding set_point_as_none is_prior
  set_point_as_none-PointSet d = mark unread (λ f. ground (arith, d))

  -- An entry that is neither skipped nor returned is returned.
  pub set_point_as_returned-PointSet :
      k ≢ skip
      → k ≢ returned_to_client
      → Returns (PointSet s p k returned_to_client) (set_point_as_returned s p)
  unfolding set_point_as_returned is_prior
  set_point_as_returned-PointSet c d =
      let known : is_prior k returned_to_client ≡ true = ground (arith, c, d) in
      checked-Returns (PointSet s p k returned_to_client) s _ i (λ x h. h.1)
        (Returns->>= (PointSet s p k returned_to_client) (PointSet s p k returned_to_client)
          (set_point_as s p returned_to_client) _
          (set_point_as_accepts s p k returned_to_client i b e (λ f. ground (arith, c, d)))
          (λ (done, s') h. assert_known done s' k h (h.0 ∙ known)))
