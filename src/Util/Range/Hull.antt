-- ===== src/Util/Range/Hull.antt =====
-- `merge_with` and `trim_out` against descriptions by their points.
use delos_rust.Prelude.{
  ℕ, ◌+◌, ◌≤◌, ◌<◌, ◌≡◌, ◌↔◌, ◌⊎◌, Ordering, min, max, Option, none, some, arith, u64_max, ok,
  panic, Returns, Returns-each, Bool, true, false, ◌&&◌, ◌||◌, not,
}
use delos_rust.Util.Range.{Range, range, merge_with, trim_out, split_at, contains, cmp, point}

abbrev pub IsProper : Range → Type 0
IsProper r = (r.first ≤ r.last) × (r.last ≤ u64_max)

-- The two ranges overlap, or one begins right after the other ends.
abbrev pub Touches : Range → Range → Type 0
Touches a b = (b.first ≤ a.last + 1) × (a.first ≤ b.last + 1)

-- Of two proper ranges that overlap or are adjacent, `merge_with` returns the smallest range that holds both.
pub merge_with_lem :
    (a b : Range)
    → IsProper a
    → IsProper b
    → Touches a b
    → merge_with a b ≡ ok (range (min a.first b.first) (max a.last b.last))
unfolding merge_with
merge_with_lem a b p q t = ground arith

-- Two proper ranges with a gap between them make `merge_with` panic.
pub merge_with_panics :
    (a b : Range) → IsProper a → IsProper b → ¬ Touches a b → merge_with a b ≡ panic
unfolding merge_with
merge_with_panics a b p q t =
    ground (arith, λ (x : b.first ≤ a.last + 1) (y : a.first ≤ b.last + 1). t (x, y))

-- A point is in one of the optional ranges.
abbrev pub covered : Option Range → ℕ → Bool
covered none q = false
covered (some r) q = contains r q

-- The middle part holds the points of both ranges, and the other parts hold, without overlap, the
-- points of the first that are not in the second.
abbrev pub Cuts : Range → Range → ℕ → Option Range × Range × Option Range → Type 0
Cuts a b q (pre, mid, post) =
    (contains mid q ≡ (contains a q && contains b q))
    × ((covered pre q || covered post q) ≡ (contains a q && not (contains b q)))
    × ((covered pre q && covered post q) ≡ false)

-- Unless the first range reaches beyond the second at both ends, `trim_out` on two ranges that
-- share a point cuts the first one into the part inside the second and the parts outside it.
pub trim_out_lem :
    (a b : Range)
    → IsProper a
    → IsProper b
    → a.first ≤ b.last
    → b.first ≤ a.last
    → (b.first ≤ a.first) ⊎ (a.last ≤ b.last)
    → Returns (λ cut. (q : ℕ) → Cuts a b q cut) (trim_out a b)
unfolding trim_out
trim_out_lem a b p q x y h = Returns-each (Cuts a b) (trim_out a b) λ z. ground arith

-- Where it does, the last part starts too early: the point after the second range's first is
-- returned both in the middle part and in the last one.
pub trim_out_overlap :
    (a b : Range)
    → a.first < b.first
    → b.first < b.last
    → b.last < a.last
    → Returns
        (λ (pre, mid, post).
          (contains mid (b.first + 1) ≡ true) × (covered post (b.first + 1) ≡ true))
        (trim_out a b)
unfolding trim_out
trim_out_overlap a b x y z = ground arith

-- A point cuts a range into the parts before and after it, and nothing else is lost.
pub split_at_lem :
    (r : Range) (p q : ℕ)
    → IsProper r
    → let (pre, post) = split_at r p in
      ((covered pre q || covered post q) ≡ (contains r q && not (contains (point p) q)))
      × ((covered pre q && covered post q) ≡ false)
unfolding split_at
split_at_lem r p q h = ground arith

-- Ranges compare equal exactly if they share a point.
pub cmp-eq_iff :
    (a b : Range)
    → IsProper a
    → IsProper b
    → (cmp a b ≡ Ordering.eq) ↔ ((a.first ≤ b.last) × (b.first ≤ a.last))
unfolding cmp
cmp-eq_iff a b p q = ground arith
