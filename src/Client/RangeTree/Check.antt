-- ===== src/Client/RangeTree/Check.antt =====
-- `tree_invariant`, the check of the ranges and of the counters.
use delos_rust.Prelude.{
  ℕ, ◌+◌, ◌-◌, ◌≤◌, ◌≡◌, refl, ap, subst, Bool, true, false, not, ◌&&◌, none, some, [], ◌∷◌, arith,
  ◌==◌, u64_max,
}
use delos_rust.Util.Range.{Range, cmp}
use delos_rust.Util.RangeMap.{Tree, at, find_entry}
use delos_rust.Util.RangeTree.{value_of}
use delos_rust.Util.RangeTree.Tiling.{IsTiling}
use delos_rust.Util.RangeTree.Invariant.{Follows, tail-Follows, head_first, at_head}
use delos_rust.Client.RangeTree.{
  Kind, sent_to_server, gotten_from_server, returned_to_client, same, is_kind, count_one,
  check_from, check_all,
}
use delos_rust.Client.RangeTree.Forget.{
  class, class_sent, class_gotten, forget, by_class, by_class-IsLawful,
}
use delos_rust.Client.RangeTree.Count.{
  times, counted, counted_all, counted_bound, counted_ext, counted_split,
}

-- Ranges follow one another from after `prev` to the end, and each kind differs from the one before.
Chained : ℕ → Kind → Tree Kind → Type 0
Chained prev kind [] = prev ≡ u64_max
Chained prev kind ((r, k) ∷ t) =
    (r.first ≡ prev + 1)
    × (r.first ≤ r.last)
    × (same k kind ≡ false)
    × (r.last ≤ u64_max)
    × Chained r.last k t

class_differs : (a b : Kind) → same (class a) (class b) ≡ false → same b a ≡ false
class_differs a b h = ground arith

Follows-Chained :
    (prev : ℕ) (kind : Kind) (t : Tree Kind)
    → prev ≤ u64_max
    → Follows by_class by_class-IsLawful prev (class kind) (forget t)
    → Chained prev kind t
unfolding Chained find_entry
Follows-Chained prev kind [] b f = ground (arith, f.full (prev + 1))
Follows-Chained prev kind ((r, k) ∷ t) b f =
    let head = at_head by_class by_class-IsLawful (prev + 1) r (class k) (forget t) f.sorted in
    let small : r.last ≤ u64_max = f.bounded r.first r (class k) head in
    let first : r.first ≡ prev + 1 =
      head_first by_class by_class-IsLawful (prev + 1) r (class k) (forget t) f.sorted
        (f.full (prev + 1) (omega arith) (omega (arith, f.sorted, small))) in
    (
      first,
      f.sorted.1,
      class_differs kind k (
          f.differs r (class k)
            (subst (λ x. at (forget ((r, k) ∷ t)) x ≡ some (r, class k)) first head)),
      small,
      Follows-Chained r.last k t small (
          tail-Follows by_class by_class-IsLawful (prev + 1) r (class k) (forget t) f.sorted
            f.bounded f.full f.distinct),
    )

-- What `tree_invariant` counts.
abbrev entries_of : Kind → Tree Kind → ℕ → ℕ → ℕ
entries_of kind t lo n = counted (λ q. is_kind kind (value_of (at (forget t) q))) lo n

found_head :
    (kind : Kind) (q : ℕ) (k : Kind) (r : Range) (t : Tree Kind)
    → r.first ≤ q
    → q ≤ r.last
    → is_kind kind (some (class k)) ≡ same k kind
    → is_kind kind (value_of (at (forget ((r, k) ∷ t)) q)) ≡ same k kind
unfolding find_entry cmp
found_head kind q k r t a b e = ground arith

found_tail :
    (kind : Kind) (q : ℕ) (k : Kind) (r : Range) (t : Tree Kind)
    → r.first ≤ r.last
    → r.last + 1 ≤ q
    → is_kind kind (value_of (at (forget ((r, k) ∷ t)) q))
      ≡ is_kind kind (value_of (at (forget t) q))
unfolding find_entry cmp
found_tail kind q k r t o a = ground arith

-- The entries from `lo` on, `lo` being in the first range or just after it.
count_head :
    (kind k : Kind) (r : Range) (t : Tree Kind) (lo n m total : ℕ)
    → r.first ≤ r.last
    → r.first ≤ lo
    → lo + n ≡ r.last + 1
    → total ≡ n + m
    → is_kind kind (some (class k)) ≡ same k kind
    → entries_of kind ((r, k) ∷ t) lo total
      ≡ times (same k kind) n + entries_of kind t (r.last + 1) m
count_head kind k r t lo n m total ordered start next whole e =
    let f : (ℕ → Bool) = (λ q. is_kind kind (value_of (at (forget ((r, k) ∷ t)) q))) in
    omega (
      arith,
      ap (counted f lo) whole,
      counted_split f lo n m,
      counted_all f (same k kind) lo n
          (λ q a b. found_head kind q k r t (omega arith) (omega arith) e),
      ap (λ x. counted f x m) next,
      counted_ext f (λ q. is_kind kind (value_of (at (forget t) q))) (r.last + 1) m
          (λ q a b. found_tail kind q k r t ordered a),
    )

count_next :
    (kind : Kind) (prev : ℕ) (before k : Kind) (r : Range) (t : Tree Kind)
    → Chained prev before ((r, k) ∷ t)
    → is_kind kind (some (class k)) ≡ same k kind
    → entries_of kind ((r, k) ∷ t) (prev + 1) (u64_max - prev)
      ≡ count_one kind k r + entries_of kind t (r.last + 1) (u64_max - r.last)
unfolding Chained
count_next kind prev before k r t (first, ordered, d, small, c) e =
    count_head kind k r t (prev + 1) (r.last + 1 - r.first) (u64_max - r.last) (u64_max - prev)
      ordered (omega arith) (omega arith) (omega arith) e

Chained-rest :
    (prev : ℕ) (kind : Kind) (r : Range) (k : Kind) (t : Tree Kind)
    → Chained prev kind ((r, k) ∷ t)
    → Chained r.last k t
unfolding Chained
Chained-rest prev kind r k t (a, b, c, d, e) = e

check_from_lem :
    (prev : ℕ) (kind : Kind) (outstanding buffered : ℕ) (t : Tree Kind)
    → Chained prev kind t
    → check_from prev kind true outstanding buffered t ≡ (
      true,
      outstanding + entries_of sent_to_server t (prev + 1) (u64_max - prev),
      buffered + entries_of gotten_from_server t (prev + 1) (u64_max - prev),
    )
unfolding Chained check_from
check_from_lem prev kind o b [] e = ground (
  arith,
  counted_bound (λ q. is_kind sent_to_server (value_of (at [] q))) (prev + 1) (u64_max - prev),
  counted_bound (λ q. is_kind gotten_from_server (value_of (at [] q))) (prev + 1) (u64_max - prev),
)
check_from_lem prev kind o b ((r, k) ∷ t) c =
    let flag : (r.first == prev + 1) && not (same k kind) ≡ true = ground arith in
    let o₁ = count_next sent_to_server prev kind k r t c (class_sent k) in
    let b₁ = count_next gotten_from_server prev kind k r t c (class_gotten k) in
    rw flag (
      rw
        (check_from_lem r.last k (o + count_one sent_to_server k r)
          (b + count_one gotten_from_server k r) t (Chained-rest prev kind r k t c))
        (ground (arith, o₁, b₁)))

nothing_at : at {V = Kind} [] 0 ≡ none
unfolding find_entry
nothing_at = refl

first_kind :
    (r : Range) (k : Kind) (t : Tree Kind)
    → r.first ≡ 0
    → value_of (at ((r, k) ∷ t) 0) ≡ some returned_to_client
    → k ≡ returned_to_client
unfolding find_entry cmp
first_kind r k t a e = ground arith

-- The check passes for a tree whose ranges tile the colour with classes that differ, whose entry 0 was returned, and whose
-- counters count.
pub check_all_lem :
    (t : Tree Kind) (outstanding buffered : ℕ)
    → IsTiling same (forget t)
    → value_of (at t 0) ≡ some returned_to_client
    → outstanding ≡ entries_of sent_to_server t 1 u64_max
    → buffered ≡ entries_of gotten_from_server t 1 u64_max
    → check_all t ≡ (true, outstanding, buffered)
unfolding check_all
check_all_lem [] o b i z e f = absurd (ground (arith, z, nothing_at))
check_all_lem ((r, k) ∷ t) o b i z e f =
    let first : r.first ≡ 0 =
      head_first by_class by_class-IsLawful 0 r (class k) (forget t) i.sorted
        (i.full 0 (omega arith) refl) in
    let returned : k ≡ returned_to_client = first_kind r k t first z in
    let small : r.last ≤ u64_max =
      i.bounded r.first r (class k)
        (at_head by_class by_class-IsLawful 0 r (class k) (forget t) i.sorted) in
    let chain : Chained r.last k t = Follows-Chained r.last k t small (
      tail-Follows by_class by_class-IsLawful 0 r (class k) (forget t) i.sorted i.bounded
        (λ p a c. i.full p c refl) i.distinct) in
    let o₁ =
      count_head sent_to_server k r t 1 r.last (u64_max - r.last) u64_max i.sorted.1 (omega arith)
        (omega arith) (omega arith) (class_sent k) in
    let b₁ =
      count_head gotten_from_server k r t 1 r.last (u64_max - r.last) u64_max i.sorted.1
        (omega arith) (omega arith) (omega arith) (class_gotten k) in
    let flag : (r.first == 0) && same k returned_to_client ≡ true =
      ground (arith, first, returned) in
    rw flag (rw (check_from_lem r.last k 0 0 t chain) (ground (arith, e, f, o₁, b₁, returned)))
