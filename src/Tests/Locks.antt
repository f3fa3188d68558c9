-- ===== src/Tests/Locks.antt =====
-- fuzzy_log_server/src/ordering_thread.rs, the multiappends over the chains of a server at concrete inputs.
use delos_rust.Prelude.{
  sym, subst, lookup, ℕ, ◌+◌, ◌≡◌, ◌≢◌, refl, Bool, true, false, none, List, [], ◌∷◌, arith, ok,
  Returns,
}
use delos_rust.Server.Trie.{Trie}
use delos_rust.Server.Trie.Storage.{AllocOps, HasSpace}
use delos_rust.Server.Chain.{Chain}
use delos_rust.Server.Locks.{Store, first_chain, handle_old_multiappend, role, mark}
use delos_rust.Util.DequeMap
use delos_rust.Server.Skeens
use delos_rust.Server.Skeens.Invariant.{IsSettled, new-IsSettled}
use delos_rust.Server.Skeens.Added.{HasRoom}
use delos_rust.Server.Rounds.{part, new_multiappend_round1}
use delos_rust.Server.Rounds.First.{TakesNew, NoTwins}
use delos_rust.Server.Rounds.Chains.{Rounded, time_of, place_in_queue, new_multiappend_round1_lem}
use delos_rust.Server.Locks.First.{IsFirst, StartsAtZero, first_chain_lem}
use delos_rust.Server.Locks.Number.{IsMarked, Ready}
use delos_rust.Server.Locks.Emplace.{IsDistinct}
use delos_rust.Server.Locks.Handler.{Handled, handle_old_multiappend_lem}

-- An allocator that gives the next location, as a pointer too.
abbrev bump : AllocOps ℕ ℕ
bump = record {
  reserve_space = λ size a. ok (a, a, a + size);
  alloc_at = λ start size a. ok (start, a);
}

abbrev Any : ℕ → Type 0
Any a = Unit {0}

bump-HasSpace : HasSpace bump Any
bump-HasSpace = record { reserve = λ size a g. (a, a, a + size, refl, tt) }

bump-StartsAtZero : StartsAtZero bump 0
bump-StartsAtZero e loc a h = cc

first_chain_lem_example :
    (c : Chain (Trie ℕ ℕ) ℕ ℕ ℕ) × (first_chain bump 0 ≡ ok c) × IsFirst bump bump-HasSpace 0 c
first_chain_lem_example = first_chain_lem bump bump-HasSpace 0 tt bump-StartsAtZero

new_chain :
    (c : Chain (Trie ℕ ℕ) ℕ ℕ ℕ) × (first_chain bump 0 ≡ ok c) × IsFirst bump bump-HasSpace 0 c
new_chain = first_chain_lem bump bump-HasSpace 0 tt bump-StartsAtZero

-- Server 1 of 2 before the first operation
abbrev no_chains : Store ℕ ℕ ℕ ℕ
no_chains c = none

no_chains-Ready : Ready (new_chain.0) 1 2 no_chains
no_chains-Ready c h = new_chain.2.ready

-- Two chains of this server, one of the other, and a sentinel
abbrev places : List (ℕ × ℕ)
places = (3, 1) ∷ (4, 1) ∷ (0, 0) ∷ (5, 1) ∷ []

names_chain :
    (seen : Bool) (c i : ℕ) (locs : List (ℕ × ℕ))
    → role 1 2 true (c, i) ≢ mark
    → c ≢ 0
    → IsMarked 1 2 seen locs
    → IsMarked 1 2 seen ((c, i) ∷ locs)
names_chain seen c i locs n nz rest = ((λ e. absurd (n e)), (λ q. (nz, rest)))

has_mark : (locs : List (ℕ × ℕ)) → IsMarked 1 2 true locs → IsMarked 1 2 false ((0, 0) ∷ locs)
unfolding role
has_mark locs rest = ((λ e. (refl, rest)), (λ n. absurd (n refl)))

places-IsMarked : IsMarked 1 2 false places
unfolding role
places-IsMarked =
    names_chain false 3 1 ((4, 1) ∷ (0, 0) ∷ (5, 1) ∷ []) (λ e. absurd (cc)) (λ q. omega arith)
      (names_chain false 4 1 ((0, 0) ∷ (5, 1) ∷ []) (λ e. absurd (cc)) (λ q. omega arith)
        (has_mark ((5, 1) ∷ []) (names_chain true 5 1 [] (λ e. absurd (cc)) (λ q. omega arith) tt)))

places-IsDistinct : IsDistinct 1 2 places
unfolding role
places-IsDistinct = (
  (λ e. ((λ f q. omega arith), ((λ f q. omega arith), ((λ f q. omega arith), tt)))),
  (
    (λ e. ((λ f q. omega arith), ((λ f q. omega arith), tt))),
    ((λ e. ((λ f q. omega arith), tt)), ((λ e. tt), tt)),
  ),
)

handle_old_multiappend_lem_example :
    Returns
      (Handled (new_chain.0) 1 2 true bump 0 (new_chain.1) false places no_chains)
      (handle_old_multiappend bump 0 1 2 false true places no_chains)
handle_old_multiappend_lem_example =
    handle_old_multiappend_lem (new_chain.0) 1 2 true bump 0 (new_chain.1) false places no_chains
      no_chains-Ready places-IsMarked places-IsDistinct

-- The places of a multiappend that goes through the two rounds, with the id 7
new_chain-TakesNew : TakesNew 7 (new_chain.0)
unfolding Skeens.new DequeMap.new lookup
new_chain-TakesNew =
    let fresh = new_chain.2.skeens in
    subst (λ s. IsSettled s × HasRoom s × (lookup 7 s.append_status ≡ none)) (sym fresh)
      (new-IsSettled, (omega arith, omega arith), refl)

places-NoTwins : NoTwins 1 2 places
unfolding part
places-NoTwins = (
  (λ e. ((λ f q. omega arith), ((λ f q. omega arith), ((λ f q. omega arith), tt)))),
  (
    (λ e. ((λ f q. omega arith), ((λ f q. omega arith), tt))),
    ((λ e. ((λ f q. omega arith), tt)), ((λ e. tt), tt)),
  ),
)

new_multiappend_round1_lem_example :
    Returns
      (Rounded
        (new_chain.0)
        1
        2
        7
        (time_of (new_chain.0) 1 2 7 no_chains)
        (place_in_queue (new_chain.0) 1 2 7 no_chains)
        places
        no_chains)
      (new_multiappend_round1 bump 0 1 2 7 100 true 0 false places no_chains)
new_multiappend_round1_lem_example =
    new_multiappend_round1_lem (new_chain.0) 1 2 7 bump 0 (new_chain.1) 100 true 0 places no_chains
      (
        (λ e. new_chain-TakesNew),
        ((λ e. new_chain-TakesNew), ((λ e. new_chain-TakesNew), ((λ e. new_chain-TakesNew), tt))),
      )
      places-NoTwins
