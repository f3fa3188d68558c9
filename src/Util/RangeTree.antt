-- ===== src/Util/RangeTree.antt =====
-- fuzzy_log_util/src/range_tree.rs: `RangeTree<V>`, a value for each `u64`, kept by ranges.
-- Panics are those of a build with debug assertions.
pub mod Tiling
pub mod Merge
pub mod Fill
pub mod Place
pub mod Point
pub mod Invariant
pub mod Absorb
pub mod Span
use delos_rust.Prelude.{
  ℕ, zero, suc, ◌+◌, ◌-◌, Bool, true, false, not, ◌&&◌, ◌||◌, ◌⊎◌, inl, inr, Option, none, some,
  List, [], ◌∷◌, Outcome, ok, panic, ◌>>=◌, ◌>>◌, assert, unwrap, add64, sub64, leb, ◌==◌,
  if◌then◌else◌, u64_max,
}
use delos_rust.Util.Range
use delos_rust.Util.Range.{Range, point, range}
use delos_rust.Util.RangeMap.{Tree, find_entry, remove_entry, insert}

-- `trait Mergeable`, with the `Eq` that it requires. `inl` is `Ok`, `inr` is `Err`.
pub record Mergeable {ℓ} (V : Type ℓ) : Type ℓ where
  pub beq : V → V → Bool
  pub can_be_replaced_with : V → V → Bool
  pub can_merge_with_prior : V → V → V ⊎ V
  pub can_merge_with_next : V → V → V ⊎ V

-- The trait's default methods, which `impl_mergeable!` and `Vec<u8>` take.
abbrev pub default_mergeable {ℓ} : {V : Type ℓ} → (V → V → Bool) → Mergeable V
default_mergeable beq = record {
  beq = beq;
  can_be_replaced_with = λ self other. true;
  can_merge_with_prior = λ self other. if beq self other then inl self else inr self;
  can_merge_with_next = λ self other. if beq self other then inl self else inr self;
}

module _ {ℓ} {V : Type ℓ} where
  unfoldable pub with_default_val : V → Tree V
  with_default_val v = insert (range 0 u64_max) v []

  abbrev pub value_of : Option (Range × V) → Option V
  value_of none = none
  value_of (some (r, v)) = some v

  unfoldable pub get : Tree V → ℕ → Outcome V
  get t p = unwrap (value_of (find_entry (point p) t))

  -- The entry with the key, and the map without it.
  unfoldable pub remove_from_map : Tree V → Range → Outcome (Range × V × Tree V)
  remove_from_map t key = elim (find_entry key t) [
    | none ↦ panic
    | some (r, v) ↦ ok (r, v, remove_entry key t)
  ]

  unfoldable pub remove_from_map_if :
      Tree V → Range → (Range → V → Bool) → Outcome (Option (Range × V × Tree V))
  remove_from_map_if t key f = elim (find_entry key t) [
    | none ↦ panic
    | some (r, v) ↦ if f r v then ok (some (r, v, remove_entry key t)) else ok none
  ]

module _ {ℓ} {V : Type ℓ} (m : Mergeable V) where
  -- The neighbour's range joins the current one if the values may merge.
  unfoldable pub merge_next_found :
      Option (Range × V) → Tree V → Range → V → Outcome (Range × V × Tree V)
  merge_next_found none t current our_kind = ok (current, our_kind, t)
  merge_next_found (some (r, v)) t current our_kind = elim (m.can_merge_with_next our_kind v) [
    | inr kind ↦ ok (current, kind, t)
    | inl kind ↦ do
      joined ← Range.merge_with_next current r
      ok (joined, kind, remove_entry (point (current.last + 1)) t)
  ]

  unfoldable pub try_merge_with_next : Tree V → Range → V → Outcome (Range × V × Tree V)
  unfolding merge_next_found
  try_merge_with_next t current our_kind =
      if leb u64_max current.last
      then ok (current, our_kind, t)
      else merge_next_found (find_entry (point (current.last + 1)) t) t current our_kind

  unfoldable pub merge_prior_found :
      Option (Range × V) → Tree V → Range → V → Outcome (Range × V × Tree V)
  merge_prior_found none t current our_kind = ok (current, our_kind, t)
  merge_prior_found (some (r, v)) t current our_kind = elim (m.can_merge_with_prior our_kind v) [
    | inr kind ↦ ok (current, kind, t)
    | inl kind ↦ do
      joined ← Range.merge_with_prior current r
      ok (joined, kind, remove_entry (point (current.first - 1)) t)
  ]

  unfoldable pub try_merge_with_prior : Tree V → Range → V → Outcome (Range × V × Tree V)
  unfolding merge_prior_found
  try_merge_with_prior t current our_kind =
      if leb current.first 0
      then ok (current, our_kind, t)
      else merge_prior_found (find_entry (point (current.first - 1)) t) t current our_kind

  -- The last lines of the setters: merge to both sides, then insert.
  unfoldable pub merge_both : Tree V → Range → V → Outcome (Tree V)
  merge_both t r kind = do
    (r₁, k₁, t₁) ← try_merge_with_next t r kind
    (r₂, k₂, t₂) ← try_merge_with_prior t₁ r₁ k₁
    ok (insert r₂ k₂ t₂)

  -- The match on what is left of the old range before and after the new one, which
  -- `set_point_as` and `set_range_as` share.
  unfoldable pub place : Option Range × Option Range → Tree V → V → Range → V → Outcome (Tree V)
  place (some pre, some post) t old_kind new_range new_kind =
      ok (insert post old_kind (insert pre old_kind (insert new_range new_kind t)))
  place (some pre, none) t old_kind new_range new_kind = do
    (r, k, t') ← try_merge_with_next (insert pre old_kind t) new_range new_kind
    ok (insert r k t')
  place (none, some post) t old_kind new_range new_kind = do
    (r, k, t') ← try_merge_with_prior (insert post old_kind t) new_range new_kind
    ok (insert r k t')
  place (none, none) t old_kind new_range new_kind = merge_both t new_range new_kind

  unfoldable pub set_point_as : Tree V → ℕ → V → Outcome (Bool × Tree V)
  set_point_as t p new_kind = do
    old ←
        remove_from_map_if t (point p)
          (λ _ old_kind. not (m.beq old_kind new_kind) && m.can_be_replaced_with old_kind new_kind)
    elim old [
      | none ↦ ok (false, t)
      | some (old_range, old_kind, t₁) ↦ do
        t₂ ← place (Range.split_at old_range p) t₁ old_kind (point p) new_kind
        ok (true, t₂)
    ]

  unfoldable pub first_with : Tree V → V → Option ℕ
  first_with [] v = none
  first_with ((r, k) ∷ t) v = if m.beq k v then some r.first else first_with t v

  -- The fold of `tree_invariant` after its first step.
  invariant_from : ℕ → V → Bool → Tree V → Bool
  invariant_from prev prev_kind valid [] = valid
  invariant_from prev prev_kind valid ((r, k) ∷ t) =
      invariant_from r.last k (valid && (r.first == prev + 1) && not (m.beq k prev_kind)) t

  -- At `prev = u64::MAX` the sum is larger than any `u64`: the source's panic is `false` here, and
  -- either way `debug_assert!(tree_invariant())` panics.
  unfoldable pub tree_invariant : Tree V → Bool
  unfolding invariant_from
  tree_invariant [] = true
  tree_invariant ((r, k) ∷ t) = invariant_from r.last k (r.first == 0) t

  -- `trim_out` has cut the old range: what lies outside the new range goes back into the map.
  abbrev pub absorb_pieces :
      Option Range → Range → Option Range → Tree V → V → Range → Outcome (Range × Tree V × Bool)
  absorb_pieces none r none t old_kind acc = do acc' ← Range.merge_with acc r; ok (acc', t, false)
  absorb_pieces (some prior) r none t old_kind acc = do
    acc' ← Range.merge_with acc r
    ok (acc', insert prior old_kind t, false)
  absorb_pieces (some prior) r (some post) t old_kind acc = do
    acc' ← Range.merge_with acc r
    ok (acc', insert post old_kind (insert prior old_kind t), true)
  absorb_pieces none r (some post) t old_kind acc = do
    acc' ← Range.merge_with acc r
    ok (acc', insert post old_kind t, true)

  -- One round of the loop of `set_range_as`: the accumulator grows over the range that was removed.
  -- The flag is the `break`.
  unfoldable pub absorb : Range → V → Range → Range → V → Tree V → Outcome (Range × Tree V × Bool)
  absorb new_range new_kind acc old_range old_kind t =
      if m.beq old_kind new_kind
      then (do acc' ← Range.merge_with acc old_range; ok (acc', t, false))
      else (do
        (prior, r, post) ← Range.trim_out old_range new_range
        absorb_pieces prior r post t old_kind acc)

  -- The loop on fuel; running out of it is a panic, which the theorems exclude.
  unfoldable pub range_loop : ℕ → Range → V → Range → Range → V → Tree V → Outcome (Range × Tree V)
  range_loop zero new_range new_kind acc old_range old_kind t = panic
  range_loop (suc fuel) new_range new_kind acc old_range old_kind t = do
    (acc', t', stop) ← absorb new_range new_kind acc old_range old_kind t
    let rest = do
      n ← add64 acc'.last 1
      (r, k, t'') ← remove_from_map t' (point n)
      range_loop fuel new_range new_kind acc' r k t''
    if stop || leb new_range.last acc'.last then ok (acc', t') else rest

  -- `set_range_as` after the first entry has been removed.
  unfoldable pub replace_range : Range → V → Range → V → Tree V → Outcome (Tree V)
  replace_range new_range new_kind old_range old_kind t =
      if Range.spans old_range new_range
      then (do left ← Range.remove old_range new_range; place left t old_kind new_range new_kind)
      else (do
        (acc, t') ←
            range_loop (suc (new_range.last - new_range.first)) new_range new_kind
              (point new_range.first) old_range old_kind t
        merge_both t' acc new_kind)

  unfoldable pub set_range_as : Tree V → ℕ → ℕ → V → Outcome (Tree V)
  set_range_as t low high new_kind = do
    assert (tree_invariant t)
    new_range ← Range.new low high
    old ← remove_from_map_if t (point low) (λ old_range old_kind.
        not (Range.spans old_range new_range && m.beq old_kind new_kind)
        && m.can_be_replaced_with old_kind new_kind)
    elim old [
      | none ↦ ok t
      | some (old_range, old_kind, t₁) ↦ do
        t₂ ← replace_range new_range new_kind old_range old_kind t₁
        assert (tree_invariant t₂)
        ok t₂
    ]
