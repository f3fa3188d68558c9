-- ===== src/Tests/Rounds.antt =====
-- fuzzy_log_server/src/ordering_thread.rs, the second round of a multiappend at a concrete input.
use delos_rust.Prelude.{
  true, ℕ, ◌+◌, ◌≡◌, refl, inr, none, some, [], ◌∷◌, arith, ok, ◌==◌, if◌then◌else◌, Returns,
  lookup, insert,
}
use delos_rust.Util.DequeMap
use delos_rust.Server.Waiting.{WaitingForMax, multi_timestamp, get_id, has_max}
use delos_rust.Server.Skeens.{new, slot}
use delos_rust.Server.Skeens.Invariant.{IsSettled, new-IsSettled}
use delos_rust.Server.Skeens.Append.{enqueued, enqueued-IsSettled}
use delos_rust.Server.Trie.{Trie}
use delos_rust.Server.Trie.Storage.{AllocOps, HasSpace}
use delos_rust.Server.Chain.{Chain}
use delos_rust.Server.Locks.{Store, first_chain}
use delos_rust.Server.Locks.First.{IsFirst, StartsAtZero, first_chain_lem}
use delos_rust.Server.Rounds.{part, new_multiappend_round2}
use delos_rust.Server.Rounds.First.{NoTwins}
use delos_rust.Server.Rounds.Second.{Awaits, Round2, new_multiappend_round2_lem}

-- An allocator that gives the next location, as a pointer too.
abbrev next_location : AllocOps ℕ ℕ
next_location = record {
  reserve_space = λ size a. ok (a, a, a + size);
  alloc_at = λ start size a. ok (start, a);
}

abbrev Every : ℕ → Type 0
Every a = Unit {0}

next_location-HasSpace : HasSpace next_location Every
next_location-HasSpace = record { reserve = λ size a g. (a, a, a + size, refl, tt) }

next_location-StartsAtZero : StartsAtZero next_location 0
next_location-StartsAtZero e loc a h = cc

some_chain :
    (c : Chain (Trie ℕ ℕ) ℕ ℕ ℕ) × (first_chain next_location 0 ≡ ok c)
    × IsFirst next_location next_location-HasSpace 0 c
some_chain = first_chain_lem next_location next_location-HasSpace 0 tt next_location-StartsAtZero

-- One multiappend waits, of id 7.
abbrev one_waits : Chain (Trie ℕ ℕ) ℕ ℕ ℕ
one_waits = record (some_chain.0) {
  skeens = enqueued new 7 (WaitingForMax.multi (slot 100 0 7 1 0));
}

abbrev one_chain : Store ℕ ℕ ℕ ℕ
one_chain c = if c == 3 then some one_waits else none

one_waits-IsSettled : IsSettled one_waits.skeens
unfolding new lookup get_id multi_timestamp has_max DequeMap.new
one_waits-IsSettled =
    enqueued-IsSettled new 7 (WaitingForMax.multi (slot 100 0 7 1 0)) new-IsSettled refl refl refl
      refl (inr refl)

one_waits-Awaits : Awaits next_location next_location-HasSpace (λ c. 40) 1 2 7 9 one_waits
unfolding new lookup insert get_id multi_timestamp DequeMap.new
one_waits-Awaits = (
  one_waits-IsSettled,
  omega arith,
  (λ j w e f. ground arith),
  (0, refl),
  (some_chain.2.ready.valid, tt),
  omega (arith, some_chain.2.one),
  omega (arith, some_chain.2.one),
)

one_place-NoTwins : NoTwins 1 2 ((3, 1) ∷ [])
unfolding part
one_place-NoTwins = ((λ e. tt), tt)

new_multiappend_round2_lem_example :
    Returns
      (Round2 next_location next_location-HasSpace (λ c. 40) 1 2 7 9 ((3, 1) ∷ []) one_chain)
      (new_multiappend_round2 next_location (λ c. 40) 1 2 7 9 true ((3, 1) ∷ []) one_chain)
new_multiappend_round2_lem_example =
    new_multiappend_round2_lem next_location next_location-HasSpace (λ c. 40) 1 2 7 9 (omega arith)
      ((3, 1) ∷ []) one_chain ((λ e. (one_waits, refl, one_waits-Awaits)), tt) one_place-NoTwins
