-- ===== src/Server/Waiting.antt =====
-- fuzzy_log_server/src/skeens.rs, `WaitingForMax`: an append in the first queue of Skeens' protocol.
-- `S` is `SkeensMultiStorage`, `E` is `ValEdge`, `T` is the caller's data; a `Uuid` is the number that
-- its bytes spell, which has the same order.
use delos_rust.Prelude.{
  ℕ, Bool, true, false, ◌⊎◌, inl, inr, Outcome, ok, panic, ◌>>=◌, ◌>>◌, assert, leb, ◌==◌,
}

pub record Slot (S T : Type 0) : Type 0 where
  pub timestamp : ℕ
  pub node_num : ℕ
  pub storage : S
  pub t : T
  pub id : ℕ

pub record ReplicaSlot (S T : Type 0) : Type 0 where
  pub max_timestamp : ℕ
  pub index : ℕ
  pub storage : S
  pub t : T
  pub id : ℕ

pub data WaitingForMax (S E T : Type 0) : Type 0 where
  got_max_multi got_max_senti got_max_snap : Slot S T → WaitingForMax S E T
  simple_single single : Slot E T → WaitingForMax S E T
  multi senti snap : Slot S T → WaitingForMax S E T
  replicated_multi replicated_senti replicated_snap : ReplicaSlot S T → WaitingForMax S E T
  replicated_single : ReplicaSlot E T → WaitingForMax S E T

pub data Timestamp : Type 0 where
  phase1 phase2 : ℕ → Timestamp

-- An append as it leaves a replica's queue.
pub record Replica (S T : Type 0) : Type 0 where
  pub index : ℕ
  pub storage : S
  pub max_timestamp : ℕ
  pub t : T

pub data ReplicatedSkeens (S E T : Type 0) : Type 0 where
  multi senti snap : Replica S T → ReplicatedSkeens S E T
  single : Replica E T → ReplicatedSkeens S E T

abbrev pub replica : {S T : Type 0} → ReplicaSlot S T → Replica S T
replica r = record {
  index = r.index;
  storage = r.storage;
  max_timestamp = r.max_timestamp;
  t = r.t;
}

-- The slot with the final timestamp; a build with debug assertions checks that it did not fall.
raise : {S T : Type 0} → Slot S T → ℕ → Outcome (Slot S T)
raise s max_timestamp = do
  assert (leb s.timestamp max_timestamp)
  ok (record s { timestamp = max_timestamp })

-- The slot with the final timestamp and the index that the primary assigned.
confirm : {S T : Type 0} → Slot S T → ℕ → ℕ → ℕ → Outcome (ReplicaSlot S T)
confirm s max_timestamp index rid = do
  assert (leb s.timestamp max_timestamp)
  assert (s.id == rid)
  ok (record {
    max_timestamp = max_timestamp;
    index = index;
    storage = s.storage;
    t = s.t;
    id = s.id;
  })

-- A single append has its final timestamp from the start.
confirm_single : {E T : Type 0} → Slot E T → ℕ → ℕ → ℕ → Outcome (ReplicaSlot E T)
confirm_single s max_timestamp index rid = do
  assert (s.id == rid)
  assert (max_timestamp == s.timestamp)
  ok (record {
    max_timestamp = s.timestamp;
    index = index;
    storage = s.storage;
    t = s.t;
    id = s.id;
  })

module _ {S E T : Type 0} where
  -- `inl` is `Ok`, with the entry after the call; `inr` is `Err`, which leaves the entry alone.
  unfoldable pub set_max_timestamp : WaitingForMax S E T → ℕ → Outcome (WaitingForMax S E T ⊎ ℕ)
  unfolding raise
  set_max_timestamp (got_max_multi s) max_timestamp = ok (inr s.timestamp)
  set_max_timestamp (got_max_senti s) max_timestamp = ok (inr s.timestamp)
  set_max_timestamp (got_max_snap s) max_timestamp = ok (inr s.timestamp)
  set_max_timestamp (simple_single s) max_timestamp = ok (inr s.timestamp)
  set_max_timestamp (replicated_multi r) max_timestamp = ok (inr r.max_timestamp)
  set_max_timestamp (replicated_senti r) max_timestamp = ok (inr r.max_timestamp)
  set_max_timestamp (replicated_snap r) max_timestamp = ok (inr r.max_timestamp)
  set_max_timestamp (replicated_single r) max_timestamp = ok (inr r.max_timestamp)
  set_max_timestamp (single s) max_timestamp = ok (inr s.timestamp)
  set_max_timestamp (multi s) max_timestamp = do
    s' ← raise s max_timestamp
    ok (inl (got_max_multi s'))
  set_max_timestamp (senti s) max_timestamp = do
    s' ← raise s max_timestamp
    ok (inl (got_max_senti s'))
  set_max_timestamp (snap s) max_timestamp = do
    s' ← raise s max_timestamp
    ok (inl (got_max_snap s'))

  unfoldable pub has_max : WaitingForMax S E T → Bool
  has_max (multi s) = false
  has_max (senti s) = false
  has_max (snap s) = false
  has_max _ = true

  unfoldable pub replicate_max_timetamp :
      WaitingForMax S E T → ℕ → ℕ → ℕ → Outcome (WaitingForMax S E T)
  unfolding confirm confirm_single
  replicate_max_timetamp (single s) max_timestamp index rid = do
    r ← confirm_single s max_timestamp index rid
    ok (replicated_single r)
  replicate_max_timetamp (simple_single s) max_timestamp index rid = do
    r ← confirm_single s max_timestamp index rid
    ok (replicated_single r)
  replicate_max_timetamp (multi s) max_timestamp index rid = do
    r ← confirm s max_timestamp index rid
    ok (replicated_multi r)
  replicate_max_timetamp (senti s) max_timestamp index rid = do
    r ← confirm s max_timestamp index rid
    ok (replicated_senti r)
  replicate_max_timetamp (snap s) max_timestamp index rid = do
    r ← confirm s max_timestamp index rid
    ok (replicated_snap r)
  replicate_max_timetamp _ max_timestamp index rid = panic

  unfoldable pub has_replication : WaitingForMax S E T → Bool
  has_replication (replicated_multi r) = true
  has_replication (replicated_senti r) = true
  has_replication (replicated_single r) = true
  has_replication (replicated_snap r) = true
  has_replication _ = false

  unfoldable pub to_replica : WaitingForMax S E T → Outcome (ℕ × ReplicatedSkeens S E T)
  to_replica (replicated_single r) = ok (r.id, ReplicatedSkeens.single (replica r))
  to_replica (replicated_multi r) = ok (r.id, ReplicatedSkeens.multi (replica r))
  to_replica (replicated_senti r) = ok (r.id, ReplicatedSkeens.senti (replica r))
  to_replica (replicated_snap r) = ok (r.id, ReplicatedSkeens.snap (replica r))
  to_replica _ = panic

  unfoldable pub multi_timestamp : WaitingForMax S E T → Timestamp
  multi_timestamp (multi s) = phase1 s.timestamp
  multi_timestamp (senti s) = phase1 s.timestamp
  multi_timestamp (snap s) = phase1 s.timestamp
  multi_timestamp (single s) = phase2 s.timestamp
  multi_timestamp (got_max_multi s) = phase2 s.timestamp
  multi_timestamp (got_max_senti s) = phase2 s.timestamp
  multi_timestamp (got_max_snap s) = phase2 s.timestamp
  multi_timestamp (simple_single s) = phase2 s.timestamp
  multi_timestamp (replicated_multi r) = phase2 r.max_timestamp
  multi_timestamp (replicated_senti r) = phase2 r.max_timestamp
  multi_timestamp (replicated_snap r) = phase2 r.max_timestamp
  multi_timestamp (replicated_single r) = phase2 r.max_timestamp

  unfoldable pub get_id : WaitingForMax S E T → ℕ
  get_id (multi s) = s.id
  get_id (senti s) = s.id
  get_id (snap s) = s.id
  get_id (single s) = s.id
  get_id (got_max_multi s) = s.id
  get_id (got_max_senti s) = s.id
  get_id (got_max_snap s) = s.id
  get_id (simple_single s) = s.id
  get_id (replicated_multi r) = r.id
  get_id (replicated_senti r) = r.id
  get_id (replicated_snap r) = r.id
  get_id (replicated_single r) = r.id

-- The number in a timestamp of either phase.
abbrev pub time_of : Timestamp → ℕ
time_of (phase1 t) = t
time_of (phase2 t) = t
