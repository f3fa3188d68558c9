-- ===== src/Server/Rounds.antt =====
-- fuzzy_log_server/src/ordering_thread.rs, the two rounds of a multiappend over the chains of a server: `new_multiappend_round1` and
-- `new_multiappend_round2`. Left out is the 0 that the second one writes as the index of other places.
-- A place is its chain and an index that the rounds do not read.
pub mod First
pub mod Chains
pub mod Second
use delos_rust.Prelude.{
  ℕ, Bool, true, false, ◌&&◌, ◌⊎◌, inl, inr, List, [], ◌∷◌, Outcome, some, unwrap, ok, panic, ◌>>=◌,
  assert, ◌==◌, if◌then◌else◌,
}
use delos_rust.Server.Trie.{Trie}
use delos_rust.Server.Trie.Storage.{AllocOps}
use delos_rust.Server.Edge.{set}
use delos_rust.Server.Chain.Log.{log_ops}
use delos_rust.Server.Chain.{FinishSkeens, finish_multi, Chain, timestamp_for_multi}
use delos_rust.Server.Locks.{Store, Role, mark, here, elsewhere, stores_chain, on_chain}

-- Chain 0 is the mark.
unfoldable pub part : ℕ → ℕ → ℕ × ℕ → Role
part this_server_num total_servers (chain, i) =
    if chain == 0
    then mark
    else if stores_chain this_server_num total_servers chain
    then here
    else elsewhere

module _ {A E S T : Type 0} (id : ℕ) (storage : S) where
  -- `timestamp_for_multi(…).unwrap()`
  unfoldable pub new_timestamp :
      Bool → T → Chain (Trie A E) S E T → Outcome ((ℕ × ℕ) × Chain (Trie A E) S E T)
  new_timestamp is_sentinel t c = do
    (res, c') ← timestamp_for_multi c id storage is_sentinel t
    elim res [ inl stamp ↦ ok (stamp, c') | inr old ↦ panic ]

module _ {A E S T : Type 0} (al : AllocOps A E) (alloc : A) (id : ℕ) (storage : S) where
  -- A place's turn: its timestamp and its index in the queue. `rest` takes whether the mark was seen.
  unfoldable pub round1_one :
      Bool
      → T
      → Bool
      → ℕ
      → (Bool → Store A E S T → Outcome (List ℕ × List ℕ × Store A E S T))
      → Store A E S T
      → Role
      → Outcome (List ℕ × List ℕ × Store A E S T)
  round1_one distinguish t is_sentinel chain rest log mark = do
    (timestamps, indices, log') ← rest true log
    ok (0 ∷ timestamps, 0 ∷ indices, log')
  round1_one distinguish t is_sentinel chain rest log elsewhere = do
    (timestamps, indices, log') ← rest is_sentinel log
    ok (0 ∷ timestamps, 0 ∷ indices, log')
  round1_one distinguish t is_sentinel chain rest log here = do
    ((local_timestamp, num), log₁) ←
        on_chain al alloc log chain (new_timestamp id storage (distinguish && is_sentinel) t)
    (timestamps, indices, log') ← rest is_sentinel log₁
    ok (local_timestamp ∷ timestamps, num ∷ indices, log')

module _ {A E S T : Type 0} (al : AllocOps A E) (alloc : A) (this_server_num total_servers id : ℕ)
    (storage : S) where
  unfoldable pub new_multiappend_round1 :
      Bool → T → Bool → List (ℕ × ℕ) → Store A E S T → Outcome (List ℕ × List ℕ × Store A E S T)
  new_multiappend_round1 distinguish t is_sentinel [] log = ok ([], [], log)
  new_multiappend_round1 distinguish t is_sentinel ((chain, i) ∷ locs) log =
      round1_one al alloc id storage distinguish t is_sentinel chain
        (λ is_sentinel log. new_multiappend_round1 distinguish t is_sentinel locs log) log
        (part this_server_num total_servers (chain, i))

module _ {A E S T : Type 0} (al : AllocOps A E) (blank_len : ℕ → ℕ) (id max_timestamp : ℕ) where
  -- A place's turn in the second round: the chain with what it delivers, where the place is this server's
  unfoldable pub round2_one :
      ℕ
      → (Store A E S T → Outcome (List (ℕ × List (FinishSkeens ℕ S E T)) × Store A E S T))
      → Store A E S T
      → Role
      → Outcome (List (ℕ × List (FinishSkeens ℕ S E T)) × Store A E S T)
  round2_one chain rest log mark = rest log
  round2_one chain rest log elsewhere = rest log
  round2_one chain rest log here = do
    c ← unwrap (log chain)
    (finished, c') ← finish_multi (log_ops al blank_len) c id max_timestamp chain
    (sent, log') ← rest (set chain (some c') log)
    ok ((chain, finished) ∷ sent, log')

module _ {A E S T : Type 0} (al : AllocOps A E) (blank_len : ℕ → ℕ)
    (this_server_num total_servers id max_timestamp : ℕ) where
  -- The loop over the places: what goes to the workers, for each chain in the order of the places
  unfoldable pub round2_loop :
      List (ℕ × ℕ)
      → Store A E S T
      → Outcome (List (ℕ × List (FinishSkeens ℕ S E T)) × Store A E S T)
  round2_loop [] log = ok ([], log)
  round2_loop ((chain, i) ∷ locs) log =
      round2_one al blank_len id max_timestamp chain (λ log. round2_loop locs log) log
        (part this_server_num total_servers (chain, i))

  -- `unlock` is the flag `Unlock`.
  unfoldable pub new_multiappend_round2 :
      Bool
      → List (ℕ × ℕ)
      → Store A E S T
      → Outcome (List (ℕ × List (FinishSkeens ℕ S E T)) × Store A E S T)
  new_multiappend_round2 unlock locs log = assert unlock >>= λ _. round2_loop locs log
