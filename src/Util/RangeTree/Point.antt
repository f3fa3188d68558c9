-- ===== src/Util/RangeTree/Point.antt =====
-- `with_default_val`, `get` and `set_point_as`: a tree is a function from `u64` to values.
use delos_rust.Prelude.{
  ℕ, ◌≤◌, ◌≡◌, refl, sym, inl, inr, Bool, true, false, not, ◌&&◌, Option, none, some, arith,
  if◌then◌else◌, ◌==◌, u64_max, Bool-cases, Option-cases, ok, Returns, Returns->>=,
}
use delos_rust.Util.Range.{Range, point, contains, split_at, cmp}
use delos_rust.Util.RangeMap.{
  Tree, at, find_entry, insert, remove_entry, at_holds, at_same, at-remove_entry,
}
use delos_rust.Util.RangeTree.{
  Mergeable, value_of, get, with_default_val, set_point_as, remove_from_map_if,
}
use delos_rust.Util.RangeTree.Tiling.{IsTiling}
use delos_rust.Util.RangeTree.Merge.{IsLawful}
use delos_rust.Util.RangeTree.Fill.{remove_entry-Hole}
use delos_rust.Util.RangeTree.Place.{Placed, pieces, place_lem}

-- `with_default_val` is a tiling in which every point reads as the value.
pub with_default_val-lem :
    {V : Type 0} (beq : V → V → Bool) (v : V)
    → IsTiling beq (with_default_val v)
      × ((q : ℕ) → q ≤ u64_max → get (with_default_val v) q ≡ ok v)
unfolding with_default_val insert get find_entry cmp
with_default_val-lem beq v = (
  record {
    sorted = omega arith;
    bounded = λ p r w e. ground arith;
    hole = λ p e. cc;
    full = λ p b e. ground arith;
    distinct = λ p r w s x e f. ground arith;
  },
  λ q b. ground arith,
)

pub get_total :
    {V : Type 0} (beq : V → V → Bool) (t : Tree V) (p : ℕ)
    → IsTiling beq t
    → p ≤ u64_max
    → (v : V) × (get t p ≡ ok v)
unfolding get
get_total beq t p i h = elim (Option-cases (at t p)) [
  | inl e ↦ absurd (ground (arith, i.full p h refl))
  | inr ((r, v), e) ↦ (v, rw e)
]

pub split_at-pieces : (r : Range) (p : ℕ) → contains r p ≡ true → split_at r p ≡ pieces r (point p)
unfolding split_at
split_at-pieces r p h = ground arith

pub remove_from_map_if-found :
    {V : Type 0} (t : Tree V) (key : Range) (f : Range → V → Bool) (r : Range) (v : V)
    → find_entry key t ≡ some (r, v)
    → remove_from_map_if t key f ≡ (if f r v then ok (some (r, v, remove_entry key t)) else ok none)
unfolding remove_from_map_if
remove_from_map_if-found t key f r v e = rw (e, remove_from_map_if)

module _ {V : Type 0} (m : Mergeable V) where
  -- Whether the value at a point gives way to a new one.
  abbrev pub gives_way : Option V → V → Bool
  gives_way none new_kind = false
  gives_way (some old_kind) new_kind =
      not (m.beq old_kind new_kind) && m.can_be_replaced_with old_kind new_kind

  abbrev pub PointSet : Tree V → ℕ → V → Bool × Tree V → Type 0
  PointSet t p new_kind (done, t') =
      IsTiling m.beq t'
      × (done ≡ gives_way (value_of (at t p)) new_kind)
      × ((q : ℕ) → get t' q ≡ (if done && (q == p) then ok new_kind else get t q))

  -- On a tiling, `set_point_as` returns. It reports whether the old value differs from the new one and may
  -- be replaced; if so that point reads as the new value, every other point reads as before in either case,
  -- and the ranges are a tiling again.
  pub set_point_as_lem :
      (t : Tree V) (p : ℕ) (new_kind : V)
      → IsLawful m
      → IsTiling m.beq t
      → p ≤ u64_max
      → Returns (PointSet t p new_kind) (set_point_as m t p new_kind)
  unfolding set_point_as get
  set_point_as_lem t p new_kind laws i b = elim (Option-cases (at t p)) [
    | inl e ↦ absurd (ground (arith, i.full p b refl))
    | inr ((r, v), e) ↦
        rw (remove_from_map_if-found t (point p) _ r v e, set_point_as)
          (elim (Bool-cases (not (m.beq v new_kind) && m.can_be_replaced_with v new_kind)) [
            | inl f ↦ rw f (
                rw (split_at-pieces r p (ground (arith, at_holds p t r v e))) (
                  Returns->>= (Placed m (remove_entry (point p) t) r v (point p) new_kind) _ _ _
                    (place_lem m laws (remove_entry (point p) t) r v (point p) new_kind
                      (remove_entry-Hole m laws t p r v i e) (omega arith) (ground arith)
                      (omega (arith, at_holds p t r v e)) (omega (arith, at_holds p t r v e)))
                    λ t' d. (
                      d.tiling,
                      rw e (sym f),
                      λ q. ground (
                        arith,
                        d.values q,
                        at-remove_entry 0 p q t r v i.sorted e,
                        at_same 0 p q t r v i.sorted e,
                      ),
                    )))
            | inr f ↦ rw f (i, rw e (sym f), λ q. refl)
          ])
  ]
