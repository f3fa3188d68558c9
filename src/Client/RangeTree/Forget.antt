-- ===== src/Client/RangeTree/Forget.antt =====
-- The client's tree with `Skip` and `ReturnedToClient` taken as one kind, which is how neighbours merge: it is a
-- `RangeTree` of fuzzy_log_util/src/range_tree.rs.
use delos_rust.Prelude.{
  ◌+◌, ◌-◌, ◌≡◌, ◌↔◌, refl, sym, ap, ◌∙◌, ◌⊎◌, inl, inr, true, false, Option, none, some, [], ◌∷◌,
  arith, Outcome, ok, panic, ◌>>=◌, leb, u64_max, Bool-cases,
}
use delos_rust.Util.Range.{Range, point}
use delos_rust.Util.RangeMap.{Tree, find_entry, remove_entry, insert}
use delos_rust.Util.RangeTree
use delos_rust.Util.RangeTree.{
  Mergeable, default_mergeable, merge_both, merge_next_found, merge_prior_found,
}
use delos_rust.Util.RangeTree.Merge.{IsLawful}
use delos_rust.Client.RangeTree.{
  Kind, sent_to_server, gotten_from_server, returned_to_client, skip, same, merged_kind, next_found,
  prior_found, try_merge_with_next, try_merge_with_prior, place,
}

abbrev pub class : Kind → Kind
class skip = returned_to_client
class k = k

pub class_sent : (k : Kind) → same (class k) sent_to_server ≡ same k sent_to_server
class_sent k = ground arith

pub class_gotten : (k : Kind) → same (class k) gotten_from_server ≡ same k gotten_from_server
class_gotten k = ground arith

abbrev pub forget : Tree Kind → Tree Kind
forget [] = []
forget ((r, k) ∷ t) = (r, class k) ∷ forget t

abbrev pub by_class : Mergeable Kind
by_class = default_mergeable same

pub same_iff : (a b : Kind) → (same a b ≡ true) ↔ (a ≡ b)
same_iff a b = ground arith

pub by_class-IsLawful : IsLawful by_class
by_class-IsLawful = record {
  beq_iff = same_iff;
  merge_next = λ a b. refl;
  merge_prior = λ a b. refl;
}

abbrev pub class_found : Option (Range × Kind) → Option (Range × Kind)
class_found none = none
class_found (some (r, k)) = some (r, class k)

pub find_entry-forget :
    (key : Range) (t : Tree Kind) → find_entry key (forget t) ≡ class_found (find_entry key t)
unfolding find_entry
find_entry-forget key [] = refl
find_entry-forget key ((r, k) ∷ t) = ground (arith, find_entry-forget key t)

pub remove_entry-forget :
    (key : Range) (t : Tree Kind) → forget (remove_entry key t) ≡ remove_entry key (forget t)
unfolding remove_entry
remove_entry-forget key [] = refl
remove_entry-forget key ((r, k) ∷ t) = ground (arith, remove_entry-forget key t)

pub insert-forget :
    (key : Range) (w : Kind) (t : Tree Kind)
    → forget (insert key w t) ≡ insert key (class w) (forget t)
unfolding insert
insert-forget key w [] = refl
insert-forget key w ((r, k) ∷ t) = ground (arith, insert-forget key w t)

-- Neighbours merge exactly if their classes are equal, and the class stays.
merged_kind_lem :
    (our other : Kind)
    → ((merged_kind our other ≡ none) × (same (class our) (class other) ≡ false))
      ⊎ ((k : Kind) × (merged_kind our other ≡ some k)
          × (class k ≡ class our)
          × (same (class our) (class other) ≡ true))
merged_kind_lem our other = ground arith

abbrev pub class_result : Outcome (Range × Kind × Tree Kind) → Outcome (Range × Kind × Tree Kind)
class_result (ok (r, k, t)) = ok (r, class k, forget t)
class_result panic = panic

abbrev pub forget_result : Outcome (Tree Kind) → Outcome (Tree Kind)
forget_result (ok t) = ok (forget t)
forget_result panic = panic

next_found-forget :
    (found : Option (Range × Kind)) (t : Tree Kind) (current : Range) (k : Kind)
    → class_result (next_found found t current k)
      ≡ merge_next_found by_class (class_found found) (forget t) current (class k)
unfolding next_found merge_next_found
next_found-forget none t current k = refl
next_found-forget (some (r, other)) t current k =
    ground (arith, merged_kind_lem k other, remove_entry-forget (point (current.last + 1)) t)

prior_found-forget :
    (found : Option (Range × Kind)) (t : Tree Kind) (current : Range) (k : Kind)
    → class_result (prior_found found t current k)
      ≡ merge_prior_found by_class (class_found found) (forget t) current (class k)
unfolding prior_found merge_prior_found
prior_found-forget none t current k = refl
prior_found-forget (some (r, other)) t current k =
    ground (arith, merged_kind_lem k other, remove_entry-forget (point (current.first - 1)) t)

try_merge_with_next-forget :
    (t : Tree Kind) (current : Range) (k : Kind)
    → class_result (try_merge_with_next t current k)
      ≡ RangeTree.try_merge_with_next by_class (forget t) current (class k)
unfolding try_merge_with_next RangeTree.try_merge_with_next
try_merge_with_next-forget t current k = elim (Bool-cases (leb u64_max current.last)) [
  | inl e ↦ rw e refl
  | inr e ↦
      rw e (rw (find_entry-forget (point (current.last + 1)) t) (next_found-forget _ t current k))
]

try_merge_with_prior-forget :
    (t : Tree Kind) (current : Range) (k : Kind)
    → class_result (try_merge_with_prior t current k)
      ≡ RangeTree.try_merge_with_prior by_class (forget t) current (class k)
unfolding try_merge_with_prior RangeTree.try_merge_with_prior
try_merge_with_prior-forget t current k = elim (Bool-cases (leb current.first 0)) [
  | inl e ↦ rw e refl
  | inr e ↦
      rw e (rw (find_entry-forget (point (current.first - 1)) t) (prior_found-forget _ t current k))
]

forget_result->>= :
    (m : Outcome (Range × Kind × Tree Kind)) (f g : Range × Kind × Tree Kind → Outcome (Tree Kind))
    → ((r : Range) (k : Kind) (t : Tree Kind)
        → forget_result (f (r, k, t)) ≡ g (r, class k, forget t))
    → forget_result (m >>= f) ≡ (class_result m >>= g)
forget_result->>= (ok (r, k, t)) f g h = h r k t
forget_result->>= panic f g h = refl

-- The client's `place` is the shared tree's, but for the classes.
pub place-forget :
    (pieces : Option Range × Option Range) (t : Tree Kind) (old_kind : Kind) (new_range : Range)
    (new_kind : Kind)
    → forget_result (place pieces t old_kind new_range new_kind)
      ≡ RangeTree.place by_class pieces (forget t) (class old_kind) new_range (class new_kind)
unfolding place RangeTree.place merge_both
place-forget (some pre, some post) t old_kind new_range new_kind = ap ok (
    insert-forget post old_kind (insert pre old_kind (insert new_range new_kind t))
    ∙ ap (insert post (class old_kind)) (
        insert-forget pre old_kind (insert new_range new_kind t)
        ∙ ap (insert pre (class old_kind)) (insert-forget new_range new_kind t)))
place-forget (some pre, none) t old_kind new_range new_kind =
    rw
      (
        sym (insert-forget pre old_kind t),
        sym (try_merge_with_next-forget (insert pre old_kind t) new_range new_kind),
      )
      (forget_result->>= (try_merge_with_next (insert pre old_kind t) new_range new_kind) _ _
        (λ r k t'. ap ok (insert-forget r k t')))
place-forget (none, some post) t old_kind new_range new_kind =
    rw
      (
        sym (insert-forget post old_kind t),
        sym (try_merge_with_prior-forget (insert post old_kind t) new_range new_kind),
      )
      (forget_result->>= (try_merge_with_prior (insert post old_kind t) new_range new_kind) _ _
        (λ r k t'. ap ok (insert-forget r k t')))
place-forget (none, none) t old_kind new_range new_kind =
    rw (sym (try_merge_with_next-forget t new_range new_kind)) (
      forget_result->>= (try_merge_with_next t new_range new_kind) _ _ (λ r k t'.
        rw (sym (try_merge_with_prior-forget t' r k)) (
          forget_result->>= (try_merge_with_prior t' r k) _ _
            (λ r₂ k₂ t₂. ap ok (insert-forget r₂ k₂ t₂)))))
