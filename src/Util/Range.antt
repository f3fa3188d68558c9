-- ===== src/Util/Range.antt =====
-- fuzzy_log_util/src/range_tree.rs, `struct Range`: inclusive ranges of `u64`. The client's
-- fuzzy_log_client/src/fuzzy_log/range_tree.rs repeats the functions that it uses, word for word.
-- A `- 1` or `+ 1` that stands under a comparison which rules its overflow out is plain arithmetic.
pub mod Hull
use delos_rust.Prelude.{
  ℕ, ◌+◌, ◌-◌, compare, Ordering, Bool, ◌&&◌, Option, none, some, Outcome, ok, panic, ◌>>=◌, ◌>>◌,
  assert, add64, sub64, leb, ◌==◌,
}

pub record Range : Type 0 where
  pub first : ℕ
  pub last : ℕ

abbrev pub range : ℕ → ℕ → Range
range a b = record { first = a; last = b }

unfoldable pub new : ℕ → ℕ → Outcome Range
new first last = do assert (leb first last); ok (range first last)

abbrev pub point : ℕ → Range
point p = range p p

unfoldable pub merge_with_next : Range → Range → Outcome Range
merge_with_next self next = do
  n ← add64 self.last 1
  assert (n == next.first)
  ok (range self.first next.last)

unfoldable pub merge_with_prior : Range → Range → Outcome Range
merge_with_prior self prior = do
  n ← add64 prior.last 1
  assert (n == self.first)
  ok (range prior.first self.last)

-- The comparisons of the first ends and of the last ends decide the case.
abbrev pub merge_cases : Ordering → Ordering → Range → Range → Outcome Range
merge_cases Ordering.eq Ordering.eq a b = ok (range a.first a.last)
merge_cases Ordering.lt Ordering.eq a b = ok (range a.first a.last)
merge_cases Ordering.eq Ordering.lt a b = ok (range a.first b.last)
merge_cases Ordering.gt Ordering.eq a b = ok (range b.first a.last)
merge_cases Ordering.eq Ordering.gt a b = ok (range a.first a.last)
merge_cases Ordering.lt Ordering.gt a b = ok (range a.first a.last)
merge_cases Ordering.lt Ordering.lt a b = do
  n ← add64 a.last 1
  assert (leb b.first n)
  ok (range a.first b.last)
merge_cases Ordering.gt Ordering.gt a b = do
  n ← add64 b.last 1
  assert (leb a.first n)
  ok (range b.first a.last)
merge_cases Ordering.gt Ordering.lt a b = ok (range b.first b.last)

unfoldable pub merge_with : Range → Range → Outcome Range
merge_with self other =
    merge_cases (compare self.first other.first) (compare self.last other.last) self other

abbrev pub split_cases : Ordering → Ordering → Range → ℕ → Option Range × Option Range
split_cases Ordering.eq Ordering.eq r p = (none, none)
split_cases Ordering.lt Ordering.eq r p = (some (range r.first (p - 1)), none)
split_cases Ordering.eq Ordering.gt r p = (none, some (range (p + 1) r.last))
split_cases Ordering.lt Ordering.gt r p =
    (some (range r.first (p - 1)), some (range (p + 1) r.last))
split_cases _ Ordering.lt r p = (some (range r.first r.last), none)
split_cases Ordering.gt _ r p = (none, some (range r.first r.last))

unfoldable pub split_at : Range → ℕ → Option Range × Option Range
split_at self p = split_cases (compare self.first p) (compare self.last p) self p

abbrev pub remove_cases :
    Ordering → Ordering → Range → Range → Outcome (Option Range × Option Range)
remove_cases Ordering.eq Ordering.eq a b = ok (none, none)
remove_cases Ordering.lt Ordering.eq a b = ok (some (range a.first (b.first - 1)), none)
remove_cases Ordering.eq Ordering.gt a b = ok (none, some (range (b.last + 1) a.last))
remove_cases Ordering.lt Ordering.gt a b =
    ok (some (range a.first (b.first - 1)), some (range (b.last + 1) a.last))
remove_cases _ _ a b = panic

unfoldable pub remove : Range → Range → Outcome (Option Range × Option Range)
remove self other =
    remove_cases (compare self.first other.first) (compare self.last other.last) self other

-- The fourth case starts the rest at `other_first + 1`, as the source does.
abbrev pub trim_cases :
    Ordering → Ordering → Range → Range → Outcome (Option Range × Range × Option Range)
trim_cases Ordering.eq Ordering.eq a b = ok (none, range a.first a.last, none)
trim_cases Ordering.lt Ordering.eq a b =
    ok (some (range a.first (b.first - 1)), range b.first a.last, none)
trim_cases Ordering.eq Ordering.lt a b = ok (none, range a.first a.last, none)
trim_cases Ordering.gt Ordering.eq a b = ok (none, range a.first a.last, none)
trim_cases Ordering.eq Ordering.gt a b =
    ok (none, range b.first b.last, some (range (b.last + 1) a.last))
trim_cases Ordering.lt Ordering.gt a b =
    ok (some (range a.first (b.first - 1)), range b.first b.last, some (range (b.first + 1) a.last))
trim_cases Ordering.lt Ordering.lt a b = do
  assert (leb b.first a.last)
  ok (some (range a.first (b.first - 1)), range b.first a.last, none)
trim_cases Ordering.gt Ordering.gt a b = do
  assert (leb a.first b.last)
  ok (none, range a.first b.last, some (range (b.last + 1) a.last))
trim_cases Ordering.gt Ordering.lt a b = ok (none, range a.first a.last, none)

unfoldable pub trim_out : Range → Range → Outcome (Option Range × Range × Option Range)
trim_out self other =
    trim_cases (compare self.first other.first) (compare self.last other.last) self other

unfoldable pub spans : Range → Range → Bool
spans self other = leb self.first other.first && leb other.last self.last

unfoldable pub len : Range → Outcome ℕ
len r = do n ← sub64 r.last r.first; add64 n 1

-- `Ord for Range`: ranges that overlap compare equal.
abbrev pub order_cases : Ordering → Ordering → Ordering
order_cases _ Ordering.lt = Ordering.lt
order_cases Ordering.gt _ = Ordering.gt
order_cases _ _ = Ordering.eq

unfoldable pub cmp : Range → Range → Ordering
cmp self other = order_cases (compare self.first other.last) (compare self.last other.first)

-- Membership, for statements.
abbrev pub contains : Range → ℕ → Bool
contains r q = leb r.first q && leb q r.last
