-- ===== src/Server/Chain/Run.antt =====
-- A chain over a run of operations, whatever the order in which appends and final timestamps arrive.
use delos_rust.Prelude.{
  ℕ, ◌+◌, ◌<◌, ◌≤◌, ◌≡◌, refl, sym, Bool, none, some, List, [], ◌∷◌, ◌++◌, Outcome, ok, ◌>>=◌,
  Returns, Returns->>=, Returns-map, Returns-value, u64_max, lookup,
}
use delos_rust.Server.Waiting.{WaitingForMax, get_id}
use delos_rust.Server.Skeens
use delos_rust.Server.Skeens.{
  SkeensState, AppendStatus, SkeensAppendRes, new_append, phase1, singleton, need_single_at,
}
use delos_rust.Server.Skeens.Invariant.{time, Waits, IsSettled, pending}
use delos_rust.Server.Skeens.Added.{HasRoom, Answer, add_multi_append_lem, add_snapshot_lem}
use delos_rust.Server.Chain.{
  TrieOps, IsLawful, Chain, FinishSkeens, finish_multi, append_single, timestamp_for_multi,
  timestamp_for_snap,
}
use delos_rust.Server.Chain.Single.{Answered-last_flush, append_single_lem}
use delos_rust.Server.Chain.Deliver.{Steady, Steady-append, Finished, finish_multi_lem}

-- What reaches a chain: the first round of an append or a snapshot, a single append, or a final timestamp.
pub data Op (S T : Type 0) : Type 0 where
  arrive_multi : ℕ → S → Bool → T → Op S T
  arrive_snap : ℕ → S → T → Op S T
  arrive_single : ℕ → ℕ → ℕ → T → Op S T
  final : ℕ → ℕ → Op S T

module _ {L P R S E T : Type 0} (tr : TrieOps L P R E) (colour : ℕ) where
  unfoldable pub step :
      Chain L S E T → Op S T → Outcome (List (FinishSkeens P S E T) × Chain L S E T)
  step c (arrive_multi id storage sentinel t) = do
    (r, c') ← timestamp_for_multi c id storage sentinel t
    ok ([], c')
  step c (arrive_snap id storage t) = do (r, c') ← timestamp_for_snap c id storage t; ok ([], c')
  step c (arrive_single id timestamp size t) = do
    (r, c') ← append_single tr c id timestamp size t
    ok ([], c')
  step c (final id m) = finish_multi tr c id m colour

  unfoldable pub run :
      Chain L S E T → List (Op S T) → Outcome (List (FinishSkeens P S E T) × Chain L S E T)
  run c [] = ok ([], c)
  run c (o ∷ os) = do (fs, c₁) ← step c o; (gs, c₂) ← run c₁ os; ok (fs ++ gs, c₂)

module _ {L P R S E T : Type 0} (tr : TrieOps L P R E) (cap colour : ℕ) where
  -- What the rest of the system sees to: numbers stay below the bounds, a single append comes once, and a final timestamp comes
  -- once, for an append that waits, and is not below this chain's proposal.
  abbrev pub Legal : Chain L S E T → Op S T → Type 0
  Legal c (arrive_multi id storage sentinel t) = HasRoom c.skeens
  Legal c (arrive_snap id storage t) = HasRoom c.skeens
  Legal c (arrive_single id timestamp size t) =
      (lookup id c.skeens.append_status ≡ none)
      × HasRoom c.skeens
      × (timestamp + 1 < u64_max)
      × (tr.len c.trie < cap)
  Legal c (final id m) =
      ((k : ℕ) × (lookup id c.skeens.append_status ≡ some (phase1 k)))
      × (m < u64_max)
      × (c.skeens.phase1_queue.next ≤ u64_max)
      × ((j : ℕ) (w : WaitingForMax S E T) → Waits c.skeens j w → get_id w ≡ id → time w ≤ m)
      × (1 ≤ tr.len c.trie)
      × (tr.len c.trie + pending c.skeens ≤ cap)

  -- Every operation is legal where it arrives.
  abbrev pub AllLegal : Chain L S E T → List (Op S T) → Type 0
  AllLegal c [] = Unit {0}
  AllLegal c (o ∷ os) =
      Legal c o
      × ((fs : List (FinishSkeens P S E T)) (c' : Chain L S E T)
          → step tr colour c o ≡ ok (fs, c')
          → AllLegal c' os)

module _ {L P S E T : Type 0} (Good : L → Type 0) where
  -- The chain can go on, and the timestamps of the deliveries do not fall.
  abbrev pub Runs : Chain L S E T → List (FinishSkeens P S E T) × Chain L S E T → Type 0
  Runs c (fs, c') =
      IsSettled c'.skeens × Steady c.skeens.last_flush fs c'.skeens.last_flush × Good c'.trie

module _ {L P R S E T : Type 0} (tr : TrieOps L P R E) {Good : L → Type 0} {cap : ℕ}
    (laws : IsLawful tr Good cap) (colour : ℕ) where
  abbrev Kept : {A : Type 0} → Chain L S E T → A × Chain L S E T → Type 0
  Kept c (r, c') = IsSettled c'.skeens × (c'.skeens.last_flush ≡ c.skeens.last_flush) × Good c'.trie

  timestamp_for_multi_lem :
      (c : Chain L S E T) (id : ℕ) (storage : S) (sentinel : Bool) (t : T)
      → IsSettled c.skeens
      → HasRoom c.skeens
      → Good c.trie
      → Returns (Kept c) (timestamp_for_multi c id storage sentinel t)
  unfolding timestamp_for_multi
  timestamp_for_multi_lem c id storage sentinel t i l good =
      Returns->>= (Answer c.skeens id) (Kept c)
        (Skeens.add_multi_append c.skeens id storage sentinel t) _
        (add_multi_append_lem c.skeens id storage sentinel t i l)
        (λ (res, sk) (j, a). (j, Answered-last_flush c.skeens sk id _ res a, good))

  timestamp_for_snap_lem :
      (c : Chain L S E T) (id : ℕ) (storage : S) (t : T)
      → IsSettled c.skeens
      → HasRoom c.skeens
      → Good c.trie
      → Returns (Kept c) (timestamp_for_snap c id storage t)
  unfolding timestamp_for_snap
  timestamp_for_snap_lem c id storage t i l good =
      Returns->>= (Answer c.skeens id) (Kept c) (Skeens.add_snapshot c.skeens id storage t) _
        (add_snapshot_lem c.skeens id storage t i l)
        (λ (res, sk) (j, a). (j, Answered-last_flush c.skeens sk id _ res a, good))

  -- An operation that delivers nothing.
  silent :
      {A : Type 0} (c : Chain L S E T) (m : Outcome (A × Chain L S E T))
      → Returns (Kept c) m
      → Returns (Runs {P = P} Good c) (m >>= λ x. ok ([], x.1))
  silent c m r = Returns->>= (Kept c) (Runs Good c) m _ r (λ x (j, e, g). (j, sym e, g))

  step_lem :
      (c : Chain L S E T) (o : Op S T)
      → IsSettled c.skeens
      → Good c.trie
      → Legal tr cap colour c o
      → Returns (Runs Good c) (step tr colour c o)
  unfolding step
  step_lem c (arrive_multi id storage sentinel t) i good l =
      silent c _ (timestamp_for_multi_lem c id storage sentinel t i l good)
  step_lem c (arrive_snap id storage t) i good l =
      silent c _ (timestamp_for_snap_lem c id storage t i l good)
  step_lem c (arrive_single id timestamp size t) i good (fresh, room, b, n) =
      silent c _ (append_single_lem tr laws c id timestamp size t i fresh room b good n)
  step_lem c (final id m) i good ((k, e), b, n, p, a, h) =
      Returns-map {P = Finished tr laws c id m} {Q = Runs Good c} _
        (finish_multi_lem tr laws c id m colour k i b n p e good a h)
        (λ x (j, s, q, n, e, g). (j, s, g))

  -- Over a trie that does what the chain relies on, a chain that starts in a settled and good state goes through any run of
  -- legal operations without a panic, and is settled and good at its end. Over the whole run the timestamps of the deliveries do not fall.
  pub run_lem :
      (os : List (Op S T)) (c : Chain L S E T)
      → IsSettled c.skeens
      → Good c.trie
      → AllLegal tr cap colour c os
      → Returns (Runs Good c) (run tr colour c os)
  unfolding run
  run_lem [] c i good l = (i, refl, good)
  run_lem (o ∷ os) c i good (l, next) =
      let (x, e, (j, s, g)) =
        Returns-value {P = Runs Good c} (step tr colour c o) (step_lem c o i good l) in
      rw e (
        Returns->>= (Runs Good x.1) (Runs Good c) (run tr colour x.1 os) _
          (run_lem os x.1 j g (next x.0 x.1 e))
          (λ (gs, c₂) (k, r, g₂). (k, Steady-append x.0 gs _ _ _ s r, g₂)))
