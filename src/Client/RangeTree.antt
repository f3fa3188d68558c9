-- ===== src/Client/RangeTree.antt =====
-- fuzzy_log_client/src/fuzzy_log/range_tree.rs: what the client has done with each entry of a colour. Its `Range` and
-- its map are those of Util.Range and Util.RangeMap.
pub mod Forget
pub mod Count
pub mod Returned
pub mod Check
pub mod State
pub mod Point
pub mod Marks
pub mod Skipped
pub mod Reads
pub mod Sent
pub mod Fetch
use delos_rust.Prelude.{
  ℕ, zero, suc, ◌+◌, ◌-◌, Bool, true, false, not, ◌&&◌, ◌||◌, Option, none, some, List, [], ◌∷◌,
  Outcome, ok, panic, ◌>>=◌, ◌>>◌, assert, add64, sub64, ltb, leb, ◌==◌, if◌then◌else◌, u64_max,
}
use delos_rust.Util.Range
use delos_rust.Util.Range.{Range, range, point}
use delos_rust.Util.RangeMap.{Tree, find_entry, remove_entry, insert}
use delos_rust.Util.RangeTree.{value_of, remove_from_map}

pub data Kind : Type 0 where
  unread sent_to_server gotten_from_server returned_to_client skip : Kind

-- `==` and `is_prior`
abbrev pub same : Kind → Kind → Bool
same unread unread = true
same sent_to_server sent_to_server = true
same gotten_from_server gotten_from_server = true
same returned_to_client returned_to_client = true
same skip skip = true
same _ _ = false

unfoldable pub is_prior : Kind → Kind → Bool
is_prior unread other = true
is_prior sent_to_server other = true
is_prior gotten_from_server unread = true
is_prior gotten_from_server returned_to_client = true
is_prior gotten_from_server skip = true
is_prior skip returned_to_client = true
is_prior _ _ = false

-- The kind of two neighbours that become one range, if they do.
abbrev pub merged_kind : Kind → Kind → Option Kind
merged_kind our other =
    if same other our
    then some our
    else if (same our skip && same other returned_to_client)
        || (same our returned_to_client && same other skip)
    then some returned_to_client
    else none

pub record RangeTree : Type 0 where
  pub inner : Tree Kind
  pub num_outstanding : ℕ
  pub num_buffered : ℕ

unfoldable pub new : RangeTree
new = record {
  inner = (range 0 0, returned_to_client) ∷ (range 1 u64_max, unread) ∷ [];
  num_outstanding = 0;
  num_buffered = 0;
}

unfoldable pub next_found :
    Option (Range × Kind) → Tree Kind → Range → Kind → Outcome (Range × Kind × Tree Kind)
next_found none t current our_kind = ok (current, our_kind, t)
next_found (some (r, other)) t current our_kind = elim (merged_kind our_kind other) [
  | none ↦ ok (current, our_kind, t)
  | some kind ↦ do
    joined ← Range.merge_with_next current r
    ok (joined, kind, remove_entry (point (current.last + 1)) t)
]

unfoldable pub try_merge_with_next : Tree Kind → Range → Kind → Outcome (Range × Kind × Tree Kind)
unfolding next_found
try_merge_with_next t current our_kind =
    if leb u64_max current.last
    then ok (current, our_kind, t)
    else next_found (find_entry (point (current.last + 1)) t) t current our_kind

unfoldable pub prior_found :
    Option (Range × Kind) → Tree Kind → Range → Kind → Outcome (Range × Kind × Tree Kind)
prior_found none t current our_kind = ok (current, our_kind, t)
prior_found (some (r, other)) t current our_kind = elim (merged_kind our_kind other) [
  | none ↦ ok (current, our_kind, t)
  | some kind ↦ do
    joined ← Range.merge_with_prior current r
    ok (joined, kind, remove_entry (point (current.first - 1)) t)
]

unfoldable pub try_merge_with_prior : Tree Kind → Range → Kind → Outcome (Range × Kind × Tree Kind)
unfolding prior_found
try_merge_with_prior t current our_kind =
    if leb current.first 0
    then ok (current, our_kind, t)
    else prior_found (find_entry (point (current.first - 1)) t) t current our_kind

-- The match on what is left of the old range, which `set_point_as` and `set_range_as_sent` share.
unfoldable pub place :
    Option Range × Option Range → Tree Kind → Kind → Range → Kind → Outcome (Tree Kind)
place (some pre, some post) t old_kind new_range new_kind =
    ok (insert post old_kind (insert pre old_kind (insert new_range new_kind t)))
place (some pre, none) t old_kind new_range new_kind = do
  (r, k, t') ← try_merge_with_next (insert pre old_kind t) new_range new_kind
  ok (insert r k t')
place (none, some post) t old_kind new_range new_kind = do
  (r, k, t') ← try_merge_with_prior (insert post old_kind t) new_range new_kind
  ok (insert r k t')
place (none, none) t old_kind new_range new_kind = do
  (r₁, k₁, t₁) ← try_merge_with_next t new_range new_kind
  (r₂, k₂, t₂) ← try_merge_with_prior t₁ r₁ k₁
  ok (insert r₂ k₂ t₂)

-- The counters: the old kind's point leaves them, the new kind's enters.
unfoldable pub uncount : Kind → ℕ × ℕ → Outcome (ℕ × ℕ)
uncount sent_to_server (outstanding, buffered) = do n ← sub64 outstanding 1; ok (n, buffered)
uncount gotten_from_server (outstanding, buffered) = do n ← sub64 buffered 1; ok (outstanding, n)
uncount _ counters = ok counters

unfoldable pub recount : Kind → ℕ × ℕ → Outcome (ℕ × ℕ)
recount sent_to_server (outstanding, buffered) = do n ← add64 outstanding 1; ok (n, buffered)
recount gotten_from_server (outstanding, buffered) = do n ← add64 buffered 1; ok (outstanding, n)
recount _ counters = ok counters

unfoldable pub set_point_as : RangeTree → ℕ → Kind → Outcome (Bool × RangeTree)
set_point_as s p new_kind = do
  (old_range, old_kind, t) ← remove_from_map s.inner (point p)
  let rejected = ok (false, record s { inner = insert old_range old_kind t })
  let accepted = (do
    counters ← uncount old_kind (s.num_outstanding, s.num_buffered)
    (outstanding, buffered) ← recount new_kind counters
    t' ← place (Range.split_at old_range p) t old_kind (point p) new_kind
    ok (true, record { inner = t'; num_outstanding = outstanding; num_buffered = buffered }))
  if is_prior old_kind new_kind then accepted else rejected

-- `tree_invariant`: the fold over the ranges, with the last point, the last kind, the verdict and the two counts.
abbrev pub count_one : Kind → Kind → Range → ℕ
count_one kind k r = if same k kind then r.last + 1 - r.first else 0

unfoldable pub check_from : ℕ → Kind → Bool → ℕ → ℕ → Tree Kind → Bool × ℕ × ℕ
check_from prev prev_kind valid outstanding buffered [] = (valid, outstanding, buffered)
check_from prev prev_kind valid outstanding buffered ((r, k) ∷ t) =
    check_from r.last k ((valid && r.first == prev + 1) && not (same k prev_kind))
      (outstanding + count_one sent_to_server k r) (buffered + count_one gotten_from_server k r) t

unfoldable pub check_all : Tree Kind → Bool × ℕ × ℕ
check_all [] = (true, 0, 0)
check_all ((r, k) ∷ t) = check_from r.last k (r.first == 0 && same k returned_to_client) 0 0 t

unfoldable pub tree_invariant : RangeTree → Bool
tree_invariant s =
    let (valid, outstanding, buffered) = check_all s.inner in
    (valid && s.num_buffered == buffered) && s.num_outstanding == outstanding

-- The `debug_assert!` before and after a change.
unfoldable pub checked :
    {A : Type 0} → RangeTree → Outcome (A × RangeTree) → Outcome (A × RangeTree)
checked s change = do
  assert (tree_invariant s)
  (a, s') ← change
  assert (tree_invariant s')
  ok (a, s')

unfoldable pub set_point_as_none : RangeTree → ℕ → Outcome (Bool × RangeTree)
set_point_as_none s p = checked s (set_point_as s p unread)

unfoldable pub set_point_as_skip : RangeTree → ℕ → Outcome (Bool × RangeTree)
set_point_as_skip s p = checked s (set_point_as s p skip)

unfoldable pub set_point_as_recvd : RangeTree → ℕ → Outcome (Bool × RangeTree)
set_point_as_recvd s p = checked s (set_point_as s p gotten_from_server)

unfoldable pub set_point_as_returned : RangeTree → ℕ → Outcome (Bool × RangeTree)
set_point_as_returned s p =
    checked s
      (do (worked, s') ← set_point_as s p returned_to_client; assert worked; ok (worked, s'))

unfoldable pub set_range_as_sent : RangeTree → ℕ → ℕ → Outcome (Bool × RangeTree)
set_range_as_sent s low high = checked s (do
  new_range ← Range.new low high
  (old_range, old_kind, t) ← remove_from_map s.inner (point low)
  assert (same old_kind unread)
  assert (Range.spans old_range new_range)
  n ← Range.len new_range
  outstanding ← add64 s.num_outstanding n
  pieces ← Range.remove old_range new_range
  t' ← place pieces t old_kind new_range sent_to_server
  ok (true, record s { inner = t'; num_outstanding = outstanding }))

-- `while lowish < u64::MAX`: the ranges above are removed. Running out of fuel is a panic.
unfoldable pub remove_above : ℕ → ℕ → Tree Kind → Outcome (Tree Kind)
remove_above zero lowish t = panic
remove_above (suc fuel) lowish t =
    let rest = (do
      (r, k, t') ← remove_from_map t (point (lowish + 1))
      remove_above fuel r.last t') in
    if ltb lowish u64_max then rest else ok t

abbrev pub insert_piece : Option Range → Kind → Tree Kind → Tree Kind
insert_piece none k t = t
insert_piece (some r) k t = insert r k t

unfoldable pub set_above_as_none : RangeTree → ℕ → Outcome (Bool × RangeTree)
set_above_as_none s low = checked s (do
  new_range ← Range.new low u64_max
  (old_range, old_kind, t) ← remove_from_map s.inner (point low)
  t₁ ← remove_above (suc u64_max) old_range.last t
  let (old, above) = Range.split_at old_range low
  ok (true, record s { inner = insert new_range unread (insert_piece old old_kind t₁) }))

abbrev pub kind_at : RangeTree → ℕ → Option Kind
kind_at s p = value_of (find_entry (point p) s.inner)

abbrev pub is_kind : Kind → Option Kind → Bool
is_kind k none = false
is_kind k (some k') = same k' k

unfoldable pub is_returned : RangeTree → ℕ → Bool
is_returned s p = is_kind returned_to_client (kind_at s p)

unfoldable pub next_return_is : RangeTree → ℕ → Outcome Bool
next_return_is s p = do
  before ← sub64 p 1
  ok (
      not (is_kind returned_to_client (kind_at s p))
      && is_kind returned_to_client (kind_at s before))

-- The first range of a kind, and the last one.
unfoldable pub first_of : Kind → Tree Kind → Option Range
first_of kind [] = none
first_of kind ((r, k) ∷ t) = if same k kind then some r else first_of kind t

unfoldable pub last_of : Kind → Tree Kind → Option Range
last_of kind [] = none
last_of kind ((r, k) ∷ t) = elim (last_of kind t) [
  | some r' ↦ some r'
  | none ↦ if same k kind then some r else none
]

unfoldable pub first_outstanding : RangeTree → Option ℕ
first_outstanding s = elim (first_of sent_to_server s.inner) [ none ↦ none | some r ↦ some r.first ]

unfoldable pub last_outstanding : RangeTree → Option ℕ
last_outstanding s = elim (last_of sent_to_server s.inner) [ none ↦ none | some r ↦ some r.last ]

unfoldable pub min_range_to_fetch : RangeTree → ℕ × ℕ
min_range_to_fetch s = elim (first_of unread s.inner) [ none ↦ (0, 0) | some r ↦ (r.first, r.last) ]
