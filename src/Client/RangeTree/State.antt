-- ===== src/Client/RangeTree/State.antt =====
-- What a well-formed tree is: it tiles the colour, and its counters count.
use delos_rust.Prelude.{
  ℕ, ◌+◌, ◌-◌, ◌≤◌, ◌≡◌, refl, ◌∙◌, ap, false, Option, none, some, [], ◌∷◌, arith, Outcome, ok,
  panic, ◌>>=◌, Returns, if◌then◌else◌, ◌==◌, u64_max,
}
use delos_rust.Util.Range.{Range, point}
use delos_rust.Util.RangeMap.{Tree, at, Sorted}
use delos_rust.Util.RangeTree.{value_of}
use delos_rust.Util.RangeTree.Tiling.{IsTiling}
use delos_rust.Client.RangeTree.{
  Kind, sent_to_server, gotten_from_server, returned_to_client, same, RangeTree, uncount, recount,
  kind_at, is_kind,
}
use delos_rust.Client.RangeTree.Forget.{
  class, forget, find_entry-forget, class_found, forget_result,
}
use delos_rust.Client.RangeTree.Count.{one_if, counted, counted_change}

-- What the tree says of an entry, with `Skip` and `ReturnedToClient` taken as one.
abbrev pub class_at : RangeTree → ℕ → Option Kind
class_at s q = value_of (at (forget s.inner) q)

-- The number of entries of a kind, the reserved entry 0 apart.
abbrev pub number_of : Kind → (ℕ → Option Kind) → ℕ
number_of k f = counted (λ q. is_kind k (f q)) 1 u64_max

-- The ranges tile the colour, neighbours differ, entry 0 is done with, and the counters count.
pub record WellFormed (s : RangeTree) : Type 0 where
  pub tiling : IsTiling same (forget s.inner)
  pub origin : kind_at s 0 ≡ some returned_to_client
  pub outstanding : s.num_outstanding ≡ number_of sent_to_server (class_at s)
  pub buffered : s.num_buffered ≡ number_of gotten_from_server (class_at s)

pub Sorted-forget : (lo : ℕ) (t : Tree Kind) → Sorted lo (forget t) → Sorted lo t
Sorted-forget lo [] s = tt
Sorted-forget lo ((r, k) ∷ t) s = (s.0, s.1, Sorted-forget (r.last + 1) t s.2)

pub in_forget_tree :
    (s : RangeTree) (p : ℕ) (r : Range) (k : Kind)
    → at s.inner p ≡ some (r, k)
    → at (forget s.inner) p ≡ some (r, class k)
in_forget_tree s p r k e = find_entry-forget (point p) s.inner ∙ ap class_found e

value_class :
    (found : Option (Range × Kind)) (k : Kind)
    → value_of found ≡ some k
    → value_of (class_found found) ≡ some (class k)
value_class none k e = absurd (ground arith)
value_class (some (r, v)) k e =
    ap (λ x. value_of (class_found x)) (ap (λ x. some (r, x)) (ground arith))

pub class_of_kind :
    (s : RangeTree) (p : ℕ) (k : Kind) → kind_at s p ≡ some k → class_at s p ≡ some (class k)
class_of_kind s p k e = rw (find_entry-forget (point p) s.inner) (value_class (at s.inner p) k e)

pub Returns-forget :
    (P : Tree Kind → Type 0) (m : Outcome (Tree Kind))
    → Returns P (forget_result m)
    → Returns (λ t. P (forget t)) m
Returns-forget P (ok t) h = h
Returns-forget P panic h = h

-- The counters move with the two kinds.
pub counters_lem :
    (k nk : Kind) (o b o' b' : ℕ)
    → o' + one_if (same k sent_to_server) ≡ o + one_if (same nk sent_to_server)
    → b' + one_if (same k gotten_from_server) ≡ b + one_if (same nk gotten_from_server)
    → same k nk ≡ false
    → o' ≤ u64_max
    → b' ≤ u64_max
    → (uncount k (o, b) >>= recount nk) ≡ ok (o', b')
unfolding uncount recount
counters_lem k nk o b o' b' e f d g h = ground arith

-- One entry changes its class: the number of a kind changes with it.
pub number_of-point :
    (k : Kind) (f g : ℕ → Option Kind) (p : ℕ) (old new : Kind)
    → 1 ≤ p
    → p ≤ u64_max
    → f p ≡ some old
    → ((q : ℕ) → g q ≡ (if q == p then some new else f q))
    → number_of k g + one_if (same old k) ≡ number_of k f + one_if (same new k)
number_of-point k f g p old new lo hi e h = ground (
  arith,
  counted_change (λ q. is_kind k (f q)) (λ q. is_kind k (g q)) (same old k) (same new k) 1 (p - 1) 1
      u64_max (omega arith) (λ q a. ground (arith, h q)) (λ q a. ground (arith, h q))
      (λ q a b. let here : q ≡ p = omega arith in rw (here, e) refl) (λ q a b. ground (arith, h q)),
)
