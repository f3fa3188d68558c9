-- ===== src/Server/Skeens/Replica.antt =====
-- fuzzy_log_server/src/skeens.rs, the operations of a replica: an append keeps the timestamp and the index that the
-- primary gave it, and leaves the queue in the order of the indices once both rounds have arrived.
use delos_rust.Prelude.{
  ℕ, zero, suc, ◌-◌, ◌<◌, ◌≤◌, ◌≡◌, refl, sym, subst, inl, inr, Bool, true, false, not, Option,
  none, some, List, [], ◌∷◌, arith, Outcome, ok, panic, ◌>>=◌, ◌>>◌, assert, unwrap, leb, ◌==◌,
  if◌then◌else◌, is_some, lookup, insert, remove, lookup-insert, Returns, Returns->>=, u64_max,
  Option-cases,
}
use delos_rust.Util.DequeMap
use delos_rust.Util.DequeMap.{DequeMap}
use delos_rust.Util.DequeMap.Laws.{IsValid, Put, put_lem, get_lem}
use delos_rust.Server.Waiting
use delos_rust.Server.Waiting.{WaitingForMax, ReplicatedSkeens, simple_single, multi, senti, snap}
use delos_rust.Server.Skeens.{SkeensState, AppendStatus, phase1, singleton, bump, check, slot}
use delos_rust.Server.Skeens.Clock.{bumped, bump_lem, bumped_high}

module _ {S E T : Type 0} where
  -- What the three operations of the first round share.
  unfoldable pub replicate_new :
      SkeensState S E T
      → ℕ
      → ℕ
      → ℕ
      → WaitingForMax S E T
      → AppendStatus
      → Outcome (Bool × SkeensState S E T)
  replicate_new s timestamp node_num id entry status = do
    assert (leb (DequeMap.start_index s.phase1_queue) node_num)
    s₁ ← bump s timestamp
    elim (lookup id s₁.append_status) [
      | some st ↦ ok (false, s₁)
      | none ↦ do
        (old, queue) ← DequeMap.put s₁.phase1_queue node_num entry
        assert (not (is_some old))
        ok (
          true,
          record s₁ { phase1_queue = queue; append_status = insert id status s₁.append_status },
        )
    ]

  unfoldable pub replicate_single_append_round1 :
      SkeensState S E T → ℕ → ℕ → ℕ → E → T → Outcome (Bool × SkeensState S E T)
  replicate_single_append_round1 s timestamp node_num id storage t = do
    check s
    replicate_new s timestamp node_num id (simple_single (slot storage t id timestamp node_num))
        (singleton node_num)

  unfoldable pub replicate_multi_append_round1 :
      SkeensState S E T → ℕ → ℕ → ℕ → S → Bool → T → Outcome (Bool × SkeensState S E T)
  replicate_multi_append_round1 s timestamp node_num id storage sentinel t = do
    check s
    replicate_new s timestamp node_num id
        (if sentinel
          then senti (slot storage t id timestamp node_num)
          else multi (slot storage t id timestamp node_num))
        (phase1 node_num)

  unfoldable pub replicate_snapshot_round1 :
      SkeensState S E T → ℕ → ℕ → ℕ → S → T → Outcome (Bool × SkeensState S E T)
  replicate_snapshot_round1 s timestamp node_num id storage t =
      replicate_new s timestamp node_num id (snap (slot storage t id timestamp node_num))
        (phase1 node_num)

  -- `self.phase1_queue.get_mut(offset).map(|w| w.replicate_max_timetamp(max_timestamp, index, id))`
  unfoldable pub confirm_entry :
      DequeMap (WaitingForMax S E T) → ℕ → ℕ → ℕ → ℕ → Outcome (DequeMap (WaitingForMax S E T))
  confirm_entry queue offset max_timestamp index id = do
    found ← DequeMap.get queue offset
    elim found [
      | none ↦ ok queue
      | some w ↦ do
        w' ← Waiting.replicate_max_timetamp w max_timestamp index id
        ok (DequeMap.write queue offset w')
    ]

  -- The loop at the end of the second round: the calls of the callback, and the state. Running out of fuel is
  -- a panic.
  unfoldable pub flush_replicas :
      ℕ → SkeensState S E T → Outcome (List (ReplicatedSkeens S E T) × SkeensState S E T)
  flush_replicas zero s = panic
  flush_replicas (suc fuel) s = elim (DequeMap.front s.phase1_queue) [
    | none ↦ ok ([], s)
    | some w ↦
        let rest = (do
          (front, queue) ← DequeMap.pop_front s.phase1_queue
          v ← unwrap front
          (id, r) ← Waiting.to_replica v
          assert (is_some (lookup id s.append_status))
          (rs, s₁) ←
              flush_replicas fuel
                (record s { phase1_queue = queue; append_status = remove id s.append_status })
          ok (r ∷ rs, s₁)) in
        if Waiting.has_replication w then rest else ok ([], s)
  ]

  unfoldable pub replicate_at :
      SkeensState S E T
      → ℕ
      → ℕ
      → ℕ
      → ℕ
      → Outcome (List (ReplicatedSkeens S E T) × SkeensState S E T)
  replicate_at s id offset max_timestamp index = do
    s₁ ← bump s max_timestamp
    queue ← confirm_entry s₁.phase1_queue offset max_timestamp index id
    let s₂ = record s₁ { phase1_queue = queue }
    let flushed = flush_replicas (suc (queue.next - queue.start)) s₂
    if offset == DequeMap.start_index queue then flushed else ok ([], s₂)

  unfoldable pub replicate_round2 :
      SkeensState S E T → ℕ → ℕ → ℕ → Outcome (List (ReplicatedSkeens S E T) × SkeensState S E T)
  replicate_round2 s id max_timestamp index = elim (lookup id s.append_status) [
    | some (AppendStatus.phase1 offset) ↦ replicate_at s id offset max_timestamp index
    | some (AppendStatus.singleton offset) ↦ replicate_at s id offset max_timestamp index
    | _ ↦ ok ([], s)
  ]

  -- The first round of an append: with a new id it stands at the primary's index, with its status; with a
  -- known one only the clock moves.
  abbrev pub Placed :
      SkeensState S E T
      → ℕ
      → ℕ
      → ℕ
      → WaitingForMax S E T
      → AppendStatus
      → Bool × SkeensState S E T
      → Type 0
  Placed s timestamp node_num id entry status (fresh, s') =
      (fresh ≡ not (is_some (lookup id s.append_status)))
      × (timestamp < s'.next_timestamp)
      × IsValid s'.phase1_queue
      × ((k : ℕ)
          → lookup k s'.phase1_queue.entries ≡ (
              if fresh
              then (if node_num == k then some entry else lookup k s.phase1_queue.entries)
              else lookup k s.phase1_queue.entries))
      × ((j : ℕ)
          → lookup j s'.append_status ≡ (
              if fresh
              then (if id == j then some status else lookup j s.append_status)
              else lookup j s.append_status))

  module _ (s : SkeensState S E T) (timestamp node_num id : ℕ) (entry : WaitingForMax S E T)
      (status : AppendStatus) (i : IsValid s.phase1_queue) (a : timestamp < u64_max)
      (b : node_num < u64_max) (c : s.phase1_queue.start ≤ node_num) where
    abbrev finish :
        Option (WaitingForMax S E T) × DequeMap (WaitingForMax S E T)
        → Outcome (Bool × SkeensState S E T)
    finish (old, queue) =
        assert (not (is_some old))
        >> ok (
          true,
          record (bumped s timestamp) {
            phase1_queue = queue;
            append_status = insert id status s.append_status;
          },
        )

    replicate_new-fresh :
        lookup id s.append_status ≡ none
        → replicate_new s timestamp node_num id entry status
          ≡ (DequeMap.put s.phase1_queue node_num entry >>= finish)
    unfolding replicate_new
    replicate_new-fresh e =
        let low : leb s.phase1_queue.start node_num ≡ true = ground arith in
        rw (low, bump_lem s timestamp a) (rw (e, ◌>>=◌) refl)

    replicate_new-known :
        (st : AppendStatus)
        → lookup id s.append_status ≡ some st
        → replicate_new s timestamp node_num id entry status ≡ ok (false, bumped s timestamp)
    unfolding replicate_new
    replicate_new-known st e =
        let low : leb s.phase1_queue.start node_num ≡ true = ground arith in
        rw (low, bump_lem s timestamp a) (rw (e, ◌>>=◌) refl)

    finish_lem :
        (x : Option (WaitingForMax S E T) × DequeMap (WaitingForMax S E T))
        → lookup id s.append_status ≡ none
        → lookup node_num s.phase1_queue.entries ≡ none
        → Put s.phase1_queue node_num entry x
        → Returns (Placed s timestamp node_num id entry status) (finish x)
    finish_lem (old, queue) e d (x, valid, y, z, reads) =
        let none_old : old ≡ none = ground (arith, get_lem s.phase1_queue node_num i) in
        rw none_old (
          rw e refl,
          (bumped_high s timestamp).1,
          valid,
          (λ k. ground (arith, reads k, get_lem s.phase1_queue k i, get_lem queue k valid)),
          λ j. lookup-insert id j status s.append_status,
        )

    replicate_new_lem :
        lookup node_num s.phase1_queue.entries ≡ none
        → Returns
            (Placed s timestamp node_num id entry status)
            (replicate_new s timestamp node_num id entry status)
    replicate_new_lem d = elim (Option-cases (lookup id s.append_status)) [
      | inl e ↦
          subst (Returns (Placed s timestamp node_num id entry status))
            (sym (replicate_new-fresh e))
            (Returns->>= (Put s.phase1_queue node_num entry)
              (Placed s timestamp node_num id entry status)
              (DequeMap.put s.phase1_queue node_num entry) finish
              ((put_lem s.phase1_queue node_num entry i b).1 (omega (arith, i.min_start)))
              (λ x p. finish_lem x e d p))
      | inr (st, e) ↦
          subst (Returns (Placed s timestamp node_num id entry status))
            (sym (replicate_new-known st e))
            (rw e refl, (bumped_high s timestamp).1, i, (λ k. refl), λ j. refl)
    ]

  -- A replica keeps no heap.
  pub record IsReplica (s : SkeensState S E T) : Type 0 where
    pub window : IsValid s.phase1_queue
    pub no_heap : s.got_max_timestamp ≡ []

  check_replica : (s : SkeensState S E T) → IsReplica s → check s ≡ ok tt
  check_replica s i = ground (arith, i.no_heap)

  -- A replica that gets the first round of a multiappend, at an index that its queue has not passed
  -- and that is free, does not panic. The clock passes the timestamp. A new id stands at that index
  -- afterwards, with its status, beside the other entries and statuses; a known id leaves all
  -- entries and statuses as they were.
  pub replicate_multi_append_round1_lem :
      (s : SkeensState S E T) (timestamp node_num id : ℕ) (storage : S) (sentinel : Bool) (t : T)
      → IsReplica s
      → timestamp < u64_max
      → node_num < u64_max
      → s.phase1_queue.start ≤ node_num
      → lookup node_num s.phase1_queue.entries ≡ none
      → Returns
          (Placed s timestamp node_num id
            (if sentinel
              then senti (slot storage t id timestamp node_num)
              else multi (slot storage t id timestamp node_num))
            (phase1 node_num))
          (replicate_multi_append_round1 s timestamp node_num id storage sentinel t)
  unfolding replicate_multi_append_round1
  replicate_multi_append_round1_lem s timestamp node_num id storage sentinel t i a b c d =
      rw (check_replica s i)
        (replicate_new_lem s timestamp node_num id _ (phase1 node_num) i.window a b c d)

  -- A replica that gets the first round of a single append, at an index that its queue has not
  -- passed and that is free, does not panic. The clock passes the timestamp. A new id stands at
  -- that index afterwards with its timestamp, beside the other entries and statuses; a known id
  -- leaves all entries and statuses as they were.
  pub replicate_single_append_round1_lem :
      (s : SkeensState S E T) (timestamp node_num id : ℕ) (storage : E) (t : T)
      → IsReplica s
      → timestamp < u64_max
      → node_num < u64_max
      → s.phase1_queue.start ≤ node_num
      → lookup node_num s.phase1_queue.entries ≡ none
      → Returns
          (Placed s timestamp node_num id
            (simple_single (slot storage t id timestamp node_num))
            (singleton node_num))
          (replicate_single_append_round1 s timestamp node_num id storage t)
  unfolding replicate_single_append_round1
  replicate_single_append_round1_lem s timestamp node_num id storage t i a b c d =
      rw (check_replica s i)
        (replicate_new_lem s timestamp node_num id _ (singleton node_num) i.window a b c d)
