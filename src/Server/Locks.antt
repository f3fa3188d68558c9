-- ===== src/Server/Locks.antt =====
-- fuzzy_log_server/src/ordering_thread.rs, the multiappends under locks: `handle_old_multiappend`, over the chains that a
-- server stores. A pair of a chain and an index is an `OrderIndex`; (0, 0) stands before the sentinels.
pub mod View
pub mod Number
pub mod Emplace
pub mod Loop
pub mod Unlock
pub mod Handler
pub mod First
use delos_rust.Prelude.{
  ℕ, ◌+◌, ◌%◌, Bool, true, false, not, ◌&&◌, Option, none, some, List, [], ◌∷◌, Outcome, ok, panic,
  ◌>>=◌, ◌>>◌, ◌==◌, ltb, if◌then◌else◌, assert, u64_max,
}
use delos_rust.Server.Edge.{set, empty}
use delos_rust.Server.Trie.{Trie, new_trie, cannot_lock, increment_lock, unlock, prep_append}
use delos_rust.Server.Trie.Storage.{AllocOps, AppendSlot, partial_append, write_byte}
use delos_rust.Server.Chain.{Chain}
use delos_rust.Server.Skeens

-- What is sent to the worker: the places with the flag `ReadSuccess`, or the slots that the worker fills.
pub data ToWorker : Type 0 where
  reply : List (ℕ × ℕ) → Bool → ToWorker
  multi_replica : List (ℕ × ℕ) → List ℕ → ℕ → ToWorker

abbrev pub is_sentinel : ℕ × ℕ → Bool
is_sentinel (c, i) = (c == 0) && (i == 0)

-- The chains of a server
abbrev pub Store : (A E S T : Type 0) → Type 0
Store A E S T = ℕ → Option (Chain (Trie A E) S E T)

-- A server is number `this_server_num` of `total_servers`, which is not 0.
abbrev pub stores_chain : ℕ → ℕ → ℕ → Bool
stores_chain this_server_num total_servers chain = (chain % total_servers) == this_server_num

-- The mark, a place of this server, or one of another server
pub data Role : Type 0 where
  mark : Role
  here : Role
  elsewhere : Role

-- `tests_mark`: the loop looks for the mark.
unfoldable pub role : ℕ → ℕ → Bool → ℕ × ℕ → Role
role this_server_num total_servers tests_mark (chain, i) =
    if tests_mark && is_sentinel (chain, i)
    then mark
    else if stores_chain this_server_num total_servers chain
    then here
    else elsewhere

module _ {A E : Type 0} where
  -- `next_entry` of a chain, or none where its lock is refused
  unfoldable pub next_place : Bool → ℕ → Trie A E → Outcome (Option ℕ × Trie A E)
  next_place take_lock lock_num t = do
    refused ← if take_lock then cannot_lock t lock_num else ok false
    elim refused [
      | true ↦ ok (none, t)
      | false ↦ do assert (ltb 0 t.next_entry); ok (some t.next_entry, t)
    ]

  unfoldable pub take_place : Bool → Trie A E → Outcome (ℕ × Trie A E)
  take_place take_lock t = do
    t₁ ← if take_lock then increment_lock t else ok t
    (index, slot, t₂) ← prep_append t₁ empty
    ok (slot, t₂)

-- The allocator's operations, and the state of a new one
module _ {A E S T : Type 0} (al : AllocOps A E) (alloc : A) where
  -- A chain that nothing was appended to starts with one entry of a byte.
  unfoldable pub first_chain : Outcome (Chain (Trie A E) S E T)
  first_chain = do
    (slot, t) ← partial_append al 1 (new_trie alloc)
    t' ← write_byte t slot
    ok record { trie = t'; skeens = Skeens.new }

  unfoldable pub found_or_new :
      Store A E S T
      → ℕ
      → Option (Chain (Trie A E) S E T)
      → Outcome (Chain (Trie A E) S E T × Store A E S T)
  found_or_new log chain (some c) = ok (c, log)
  found_or_new log chain none = do c ← first_chain; ok (c, set chain (some c) log)

  unfoldable pub ensure_chain : Store A E S T → ℕ → Outcome (Chain (Trie A E) S E T × Store A E S T)
  ensure_chain log chain = found_or_new log chain (log chain)

  -- A call on the chain that `ensure_chain` gives
  unfoldable pub on_chain :
      {X : Type 0}
      → Store A E S T
      → ℕ
      → (Chain (Trie A E) S E T → Outcome (X × Chain (Trie A E) S E T))
      → Outcome (X × Store A E S T)
  on_chain log chain f = do
    (c, log₁) ← ensure_chain log chain
    (x, c') ← f c
    ok (x, set chain (some c') log₁)

  unfoldable pub on_trie :
      {X : Type 0}
      → Store A E S T
      → ℕ
      → (Trie A E → Outcome (X × Trie A E))
      → Outcome (X × Store A E S T)
  on_trie log chain f = do
    (c, log₁) ← ensure_chain log chain
    (x, t) ← f c.trie
    ok (x, set chain (some (record c { trie = t })) log₁)

module _ {A E S T : Type 0} where
  -- The rest of a place's turn, once its lock was looked at; `rest` is the loop on the places that follow.
  unfoldable pub number_here :
      ℕ
      → List (ℕ × ℕ)
      → (Store A E S T → Outcome (List (ℕ × ℕ) × Bool × ℕ × Store A E S T))
      → Option ℕ × Store A E S T
      → Outcome (List (ℕ × ℕ) × Bool × ℕ × Store A E S T)
  number_here chain locs rest (none, log) = ok ((chain, u64_max) ∷ locs, true, 0, log)
  number_here chain locs rest (some next, log) = do
    (locs', failed, places, log') ← rest log
    ok ((chain, next) ∷ locs', failed, places + 1, log')

module _ {A E S T : Type 0} (al : AllocOps A E) (alloc : A) where
  -- A place's turn; `rest` takes whether the mark was seen.
  unfoldable pub number_one :
      Bool
      → Bool
      → ℕ × ℕ
      → List (ℕ × ℕ)
      → (Bool → Store A E S T → Outcome (List (ℕ × ℕ) × Bool × ℕ × Store A E S T))
      → Store A E S T
      → Role
      → Outcome (List (ℕ × ℕ) × Bool × ℕ × Store A E S T)
  number_one take_lock seen (chain, i) locs rest log mark = do
    assert (not seen)
    (locs', failed, places, log') ← rest true log
    ok ((0, 0) ∷ locs', failed, places, log')
  number_one take_lock seen (chain, i) locs rest log elsewhere = do
    (locs', failed, places, log') ← rest seen log
    ok ((chain, 0) ∷ locs', failed, places, log')
  number_one take_lock seen (chain, i) locs rest log here =
      on_trie al alloc log chain (next_place take_lock i) >>= number_here chain locs (rest seen)

  unfoldable pub emplace_one :
      Bool
      → Bool
      → ℕ × ℕ
      → (Bool → Store A E S T → Outcome (List ℕ × Store A E S T))
      → Store A E S T
      → Role
      → Outcome (List ℕ × Store A E S T)
  emplace_one take_lock seen (chain, i) rest log mark = rest true log
  emplace_one take_lock seen (chain, i) rest log elsewhere = rest seen log
  emplace_one take_lock seen (chain, i) rest log here = do
    assert (not (i == 0))
    (slot, log₁) ← on_trie al alloc log chain (take_place take_lock)
    (slots, log') ← rest seen log₁
    ok (slot ∷ slots, log')

  unfoldable pub unlock_one :
      ℕ × ℕ
      → (Store A E S T → Outcome (Bool × Store A E S T))
      → Store A E S T
      → Role
      → Outcome (Bool × Store A E S T)
  unlock_one (chain, i) rest log mark = rest log
  unlock_one (chain, i) rest log elsewhere = rest log
  unlock_one (chain, i) rest log here = do
    (unlocked, log₁) ← on_trie al alloc log chain (λ t. unlock t i)
    (all, log') ← rest log₁
    ok (unlocked && all, log')

module _ {A E S T : Type 0} (al : AllocOps A E) (alloc : A)
    (this_server_num total_servers : ℕ) where
  -- The loops 'update_append_horizon and 'senti_horizon, which is for the places behind the mark: the places, whether a lock was
  -- refused, and `num_places`.
  unfoldable pub number :
      Bool → Bool → List (ℕ × ℕ) → Store A E S T → Outcome (List (ℕ × ℕ) × Bool × ℕ × Store A E S T)
  number take_lock seen [] log = ok ([], false, 0, log)
  number take_lock seen (loc ∷ locs) log =
      number_one al alloc take_lock seen loc locs (λ seen log. number take_lock seen locs log) log
        (role this_server_num total_servers true loc)

  -- The loop 'emplace and the one after it, which looks for no mark: the slots. A second mark has not passed `number`.
  unfoldable pub emplace :
      Bool → Bool → List (ℕ × ℕ) → Store A E S T → Outcome (List ℕ × Store A E S T)
  emplace take_lock seen [] log = ok ([], log)
  emplace take_lock seen (loc ∷ locs) log =
      emplace_one al alloc take_lock seen loc (λ seen log. emplace take_lock seen locs log) log
        (role this_server_num total_servers (not seen) loc)

  unfoldable pub unlock_all : List (ℕ × ℕ) → Store A E S T → Outcome (Bool × Store A E S T)
  unlock_all [] log = ok (true, log)
  unlock_all (loc ∷ locs) log =
      unlock_one al alloc loc (λ log. unlock_all locs log) log
        (role this_server_num total_servers true loc)

  -- What follows the numbering: the reply, or the entries. Left out are the storage that the worker reserved and the
  -- assertions on its kind and lengths.
  unfoldable pub lock_and_append :
      Bool → List (ℕ × ℕ) × Bool × ℕ × Store A E S T → Outcome (ToWorker × Store A E S T)
  lock_and_append take_lock (locs', true, num_places, log) = ok (reply locs' false, log)
  lock_and_append take_lock (locs', false, num_places, log) = do
    (slots, log') ← emplace take_lock false locs' log
    ok (multi_replica locs' slots num_places, log')

  -- `is_unlock` and `take_lock` are the flags `Unlock` and `TakeLock`.
  unfoldable pub handle_old_multiappend :
      Bool → Bool → List (ℕ × ℕ) → Store A E S T → Outcome (ToWorker × Store A E S T)
  handle_old_multiappend true take_lock locs log = do
    (all_unlocked, log') ← unlock_all locs log
    ok (reply locs all_unlocked, log')
  handle_old_multiappend false take_lock locs log =
      number take_lock false locs log >>= lock_and_append take_lock
