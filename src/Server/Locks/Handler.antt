-- ===== src/Server/Locks/Handler.antt =====
-- fuzzy_log_server/src/ordering_thread.rs, `handle_old_multiappend`: the handler where the flag `Unlock` is not set.
use delos_rust.Prelude.{
  ℕ, ◌≡◌, ◌≢◌, refl, sym, ◌∙◌, Bool, true, false, List, [], ◌∷◌, ok, Returns, Returns->>=, subst,
}
use delos_rust.Server.Trie.{Trie}
use delos_rust.Server.Trie.Storage.{AllocOps}
use delos_rust.Server.Chain.{Chain}
use delos_rust.Server.Locks.{
  role, Store, first_chain, number, emplace, unlock_all, lock_and_append, handle_old_multiappend,
  ToWorker, reply, multi_replica,
}
use delos_rust.Server.Locks.View.{AllHere, AllHere-map, SomeHere, trie_at, SameAt}
use delos_rust.Server.Locks.Number.{
  IsReady, IsMarked, IsFree, IsRefused, Ready, Numbered, number_lem, numbered, role-here,
}
use delos_rust.Server.Locks.Emplace.{Placed, IsOpen, IsDistinct, slots_of}
use delos_rust.Server.Locks.Unlock.{AllReleased, unlock_all_lem}
use delos_rust.Server.Locks.Loop.{Opened, Emplaced, emplace_lem}

module _ {A E S T : Type 0} (first : Chain (Trie A E) S E T) (this total : ℕ)
    (take_lock : Bool) where
  abbrev next_of : Store A E S T → ℕ → ℕ
  next_of log c = (trie_at first log c).next_entry

  -- All or nothing: either some lock is refused, and no trie changes, or all are free, and every place of this server is taken.
  abbrev pub AllOrNothing : List (ℕ × ℕ) → Store A E S T → ToWorker × Store A E S T → Type 0
  AllOrNothing locs log (reply locs' success, log') =
      (success ≡ false)
      × SomeHere (role this total true) (λ c i. IsRefused take_lock (trie_at first log c) i) locs
      × ((d : ℕ) → SameAt first log log' d)
  AllOrNothing locs log (multi_replica locs' slots num_places, log') =
      AllHere (role this total true) (λ c i. IsFree take_lock (trie_at first log c) i) locs
      × AllHere (role this total true)
          (λ c i. Placed take_lock (trie_at first log c) (trie_at first log' c)) locs
      × ((d : ℕ) → AllHere (role this total true) (λ c i. c ≢ d) locs → SameAt first log log' d)
      × (locs' ≡ numbered this total (next_of log) locs)
      × (slots ≡ slots_of this total (next_of log) locs)

  -- What was seen to be free may be taken.
  open_lem :
      (locs : List (ℕ × ℕ)) (log log₁ : Store A E S T)
      → ((d : ℕ) → SameAt first log log₁ d)
      → Ready first this total log
      → AllHere (role this total true) (λ c i. IsFree take_lock (trie_at first log c) i) locs
      → Opened first this total take_lock (next_of log) locs log₁
  open_lem [] log log₁ same r free = tt
  open_lem ((c, i) ∷ locs) log log₁ same r free = (
    (λ e.
        subst (λ t. IsOpen take_lock t × (next_of log c ≡ t.next_entry)) (sym (same c).0)
          ((r c (role-here this total c i e), λ q. (free.0 e q).0), refl)),
    open_lem locs log log₁ same r free.1,
  )

  Ready-at :
      (locs : List (ℕ × ℕ)) (log : Store A E S T)
      → Ready first this total log
      → AllHere (role this total true) (λ c i. IsReady (trie_at first log c)) locs
  Ready-at [] log r = tt
  Ready-at ((c, i) ∷ locs) log r = ((λ e. r c (role-here this total c i e)), Ready-at locs log r)

  module _ (al : AllocOps A E) (alloc : A) (made : first_chain al alloc ≡ ok first) where
    then_append :
        (locs : List (ℕ × ℕ)) (log : Store A E S T)
        → Ready first this total log
        → IsMarked this total false locs
        → IsDistinct this total locs
        → (locs' : List (ℕ × ℕ)) (failed : Bool) (places : ℕ) (log₁ : Store A E S T)
        → Numbered first this total take_lock locs log (locs', failed, places, log₁)
        → Returns
            (AllOrNothing locs log)
            (lock_and_append al alloc this total take_lock (locs', failed, places, log₁))
    unfolding lock_and_append
    then_append locs log r m d locs' true places log₁ (same, refused, free) =
        (refl, refused refl, same)
    then_append locs log r m d locs' false places log₁ (same, refused, free) =
        let (eq, all_free) = free refl in
        Returns->>= (Emplaced first this total take_lock (next_of log) locs log₁)
          (AllOrNothing locs log) (emplace al alloc this total take_lock false locs' log₁) _
          (subst
            (λ z.
              Returns (Emplaced first this total take_lock (next_of log) locs log₁)
                (emplace al alloc this total take_lock false z log₁))
            (sym eq)
            (emplace_lem first this total take_lock (next_of log) al alloc made false locs log₁
              (open_lem locs log log₁ same r all_free) m d))
          (λ (slots, log') (kept, placed, in_order). (
            all_free,
            AllHere-map (role this total true) _ _ locs
                (λ c i. subst (λ t. Placed take_lock t (trie_at first log' c)) (same c).0) placed,
            (λ c apart. ((kept c apart).0 ∙ (same c).0, (kept c apart).1 ∙ (same c).1)),
            eq,
            in_order,
          ))

    -- What the handler did, with the flag `Unlock` and without
    abbrev pub Handled : Bool → List (ℕ × ℕ) → Store A E S T → ToWorker × Store A E S T → Type 0
    Handled true locs log (reply locs' success, log') =
        (locs' ≡ locs) × AllReleased first this total locs log (success, log')
    Handled true locs log (multi_replica locs' slots num_places, log') = ⊥
    Handled false locs log r = AllOrNothing locs log r

    -- A multiappend under locks on chains that are ready, its places naming each chain of this server at most once, chain 0 only in the mark
    -- and the mark at most once: the handler does not panic. With the flag `Unlock` the locks are given back whose numbers are the last ones
    -- taken, the reply says whether all were, and nothing else changes. Otherwise, if the lock of some chain is refused, the reply
    -- says so and nothing changes; if none is, each of the places' chains on this server has one more entry, empty as yet, at
    -- the index and in the slot that are handed on, and its lock is taken if one is asked for, and the other chains are as before.
    pub handle_old_multiappend_lem :
        (is_unlock : Bool) (locs : List (ℕ × ℕ)) (log : Store A E S T)
        → Ready first this total log
        → IsMarked this total false locs
        → IsDistinct this total locs
        → Returns
            (Handled is_unlock locs log)
            (handle_old_multiappend al alloc this total is_unlock take_lock locs log)
    unfolding handle_old_multiappend
    handle_old_multiappend_lem true locs log r m d =
        Returns->>= (AllReleased first this total locs log) (Handled true locs log)
          (unlock_all al alloc this total locs log) _
          (unlock_all_lem first this total al alloc made locs log (Ready-at locs log r) d)
          (λ x h. (refl, h))
    handle_old_multiappend_lem false locs log r m d =
        Returns->>= (Numbered first this total take_lock locs log) (AllOrNothing locs log)
          (number al alloc this total take_lock false locs log)
          (lock_and_append al alloc this total take_lock)
          (number_lem first this total al alloc made take_lock false locs log r m)
          (λ (locs', failed, places, log₁) n. then_append locs log r m d locs' failed places log₁ n)
