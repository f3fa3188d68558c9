-- ===== src/Server/Skeens.antt =====
-- fuzzy_log_server/src/skeens.rs, `SkeensState`: one server's part in ordering appends to several
-- servers. An append waits in `phase1_queue` for its final timestamp and then in the heap
-- `got_max_timestamp` until nothing that still waits can come before it.
pub mod Invariant
pub mod Clock
pub mod Append
pub mod Added
pub mod Singles
pub mod Origin
pub mod Drain
pub mod Raised
pub mod SetMax
pub mod Delivery
pub mod Stop
pub mod Flush
pub mod Recovery
pub mod Replica
pub mod Emission
use delos_rust.Prelude.{
  ℕ, zero, suc, ◌+◌, ◌-◌, max, Bool, true, false, not, ◌&&◌, ◌||◌, ◌⊎◌, inl, inr, Option, none,
  some, List, [], ◌∷◌, Outcome, ok, panic, ◌>>=◌, ◌>>◌, assert, add64, ltb, leb, ◌==◌,
  if◌then◌else◌, is_some, is_empty, length, unwrap, Map, lookup, insert, remove,
}
use delos_rust.Util.DequeMap
use delos_rust.Util.DequeMap.{DequeMap}
use delos_rust.Server.Waiting
use delos_rust.Server.Waiting.{
  WaitingForMax, Slot, Timestamp, simple_single, multi, senti, snap, time_of,
}
use delos_rust.Server.GotMax
use delos_rust.Server.GotMax.{GotMax}

pub data AppendStatus : Type 0 where
  phase1 : ℕ → AppendStatus
  phase2 : ℕ → AppendStatus
  singleton : ℕ → AppendStatus

pub data SkeensAppendRes : Type 0 where
  old_phase1 : ℕ → SkeensAppendRes
  phase2 : ℕ → SkeensAppendRes
  new_append : ℕ → ℕ → SkeensAppendRes

pub data SkeensSetMaxRes : Type 0 where
  needs_flush okay not_waiting : SkeensSetMaxRes
  duplicate : ℕ → SkeensSetMaxRes

-- A recoverer's id and its locations, `Box<(Uuid, Box<[OrderIndex]>)>`.
abbrev pub Recoverer : Type 0
Recoverer = ℕ × List (ℕ × ℕ)

pub record SkeensState (S E T : Type 0) : Type 0 where
  pub next_timestamp : ℕ
  pub last_flush : ℕ
  pub phase1_queue : DequeMap (WaitingForMax S E T)
  pub got_max_timestamp : List (GotMax S E T)
  pub append_status : Map AppendStatus
  pub recovering : Map (ℕ × Recoverer)

abbrev pub slot : {X T : Type 0} → X → T → ℕ → ℕ → ℕ → Slot X T
slot storage t id timestamp node_num = record {
  timestamp = timestamp;
  node_num = node_num;
  storage = storage;
  t = t;
  id = id;
}

abbrev pub seen : Timestamp → SkeensAppendRes
seen (Timestamp.phase1 t) = old_phase1 t
seen (Timestamp.phase2 t) = SkeensAppendRes.phase2 t

module _ {S E T : Type 0} where
  unfoldable pub new : SkeensState S E T
  new = record {
    next_timestamp = 1;
    last_flush = 0;
    phase1_queue = DequeMap.new;
    got_max_timestamp = [];
    append_status = [];
    recovering = [];
  }

  -- The `debug_assert!` around every operation.
  abbrev pub check : SkeensState S E T → Outcome (Unit {0})
  check s = assert (not (DequeMap.has_none s.phase1_queue) || is_empty s.got_max_timestamp)

  -- `if self.next_timestamp <= timestamp { self.next_timestamp = timestamp + 1 }`
  abbrev pub bump : SkeensState S E T → ℕ → Outcome (SkeensState S E T)
  bump s timestamp = do
    next ← if leb s.next_timestamp timestamp then add64 timestamp 1 else ok s.next_timestamp
    ok (record s { next_timestamp = next })

  -- An append with a known id: nothing is added.
  unfoldable pub known : SkeensState S E T → AppendStatus → Outcome SkeensAppendRes
  known s (AppendStatus.phase2 t) = ok (SkeensAppendRes.phase2 t)
  known s (phase1 i) = do w ← DequeMap.index s.phase1_queue i; ok (seen (Waiting.multi_timestamp w))
  known s (singleton i) = do
    w ← DequeMap.index s.phase1_queue i
    ok (seen (Waiting.multi_timestamp w))

  -- An append with a new id takes the next timestamp and the next place in the queue.
  unfoldable pub enqueue :
      SkeensState S E T
      → ℕ
      → (ℕ → ℕ → WaitingForMax S E T)
      → (ℕ → AppendStatus)
      → Outcome (SkeensAppendRes × SkeensState S E T)
  enqueue s id entry status = do
    let timestamp = s.next_timestamp
    next ← add64 s.next_timestamp 1
    let node_num = DequeMap.push_index s.phase1_queue
    (n, queue) ← DequeMap.push_back s.phase1_queue (entry timestamp node_num)
    assert (node_num == n)
    ok (
      new_append timestamp node_num,
      record s {
        next_timestamp = next;
        phase1_queue = queue;
        append_status = insert id (status node_num) s.append_status;
      },
    )

  -- The match on `append_status.entry(id)` that the three append operations share.
  unfoldable pub append_new :
      SkeensState S E T
      → ℕ
      → (ℕ → ℕ → WaitingForMax S E T)
      → (ℕ → AppendStatus)
      → Outcome (SkeensAppendRes × SkeensState S E T)
  append_new s id entry status = elim (lookup id s.append_status) [
    | some st ↦ do res ← known s st; ok (res, s)
    | none ↦ enqueue s id entry status
  ]

  unfoldable pub add_single_append :
      SkeensState S E T → ℕ → ℕ → E → T → Outcome (SkeensAppendRes × SkeensState S E T)
  add_single_append s id timestamp storage t = do
    check s
    assert (not (DequeMap.has_none s.phase1_queue))
    s₁ ← bump s timestamp
    append_new s₁ id (λ time num. simple_single (slot storage t id time num)) singleton

  unfoldable pub need_single_at : SkeensState S E T → ℕ → Outcome (Bool × SkeensState S E T)
  need_single_at s timestamp = do
    assert (ltb s.last_flush s.next_timestamp)
    if (DequeMap.has_none s.phase1_queue && is_empty s.got_max_timestamp)
          || leb timestamp s.last_flush
        then (do s₁ ← bump s timestamp; ok (false, s₁))
        else ok (true, s)

  unfoldable pub add_multi_append :
      SkeensState S E T → ℕ → S → Bool → T → Outcome (SkeensAppendRes × SkeensState S E T)
  add_multi_append s id storage sentinel t = do
    check s
    (res, s₁) ←
        append_new s id
          (λ time num.
            if sentinel
            then senti (slot storage t id time num)
            else multi (slot storage t id time num))
          AppendStatus.phase1
    check s₁
    ok (res, s₁)

  unfoldable pub add_snapshot :
      SkeensState S E T → ℕ → S → T → Outcome (SkeensAppendRes × SkeensState S E T)
  add_snapshot s id storage t = do
    check s
    (res, s₁) ← append_new s id (λ time num. snap (slot storage t id time num)) AppendStatus.phase1
    check s₁
    ok (res, s₁)

  unfoldable pub can_flush : SkeensState S E T → Outcome Bool
  can_flush s = elim s.got_max_timestamp [
    | [] ↦ ok false
    | g ∷ heap ↦ elim (DequeMap.front s.phase1_queue) [
      | none ↦ ok true
      | some w ↦ GotMax.happens_before g w
    ]
  ]

  -- `while self.phase1_queue.front().map(|v| v.has_max()).unwrap_or(false)`: entries at the front that
  -- have their final timestamp move to the heap. Running out of fuel is a panic.
  unfoldable pub drain :
      ℕ
      → DequeMap (WaitingForMax S E T)
      → List (GotMax S E T)
      → Outcome (DequeMap (WaitingForMax S E T) × List (GotMax S E T))
  drain zero queue heap = panic
  drain (suc fuel) queue heap = elim (DequeMap.front queue) [
    | none ↦ ok (queue, heap)
    | some w ↦
        let rest = (do
          (front, queue') ← DequeMap.pop_front queue
          s ← unwrap front
          g ← GotMax.into_got_max s
          heap' ← GotMax.push g heap
          drain fuel queue' heap') in
        if Waiting.has_max w then rest else ok (queue, heap)
  ]

  -- The match on the append's status: what `set_max_timestamp` sets, before the queue is drained.
  unfoldable pub set_max_entry :
      SkeensState S E T
      → ℕ
      → ℕ
      → Option AppendStatus
      → Outcome (SkeensSetMaxRes × SkeensState S E T)
  set_max_entry s id max_timestamp none = ok (not_waiting, s)
  set_max_entry s id max_timestamp (some (AppendStatus.phase2 t)) = ok (duplicate t, s)
  set_max_entry s id max_timestamp (some (singleton i)) = do
    w ← DequeMap.index s.phase1_queue i
    ok (duplicate (time_of (Waiting.multi_timestamp w)), s)
  set_max_entry s id max_timestamp (some (AppendStatus.phase1 i)) = do
    w ← DequeMap.index s.phase1_queue i
    changed ← Waiting.set_max_timestamp w max_timestamp
    elim changed [
      | inr ts ↦ ok (duplicate ts, s)
      | inl w' ↦ ok (
        okay,
        record s {
          phase1_queue = DequeMap.write s.phase1_queue i w';
          append_status = insert id (AppendStatus.phase2 max_timestamp) s.append_status;
        },
      )
    ]

  -- What follows the match: after `Ok` the queue is drained.
  unfoldable pub settle :
      SkeensSetMaxRes → SkeensState S E T → Outcome (SkeensSetMaxRes × SkeensState S E T)
  settle okay s = do
    (queue, heap) ←
        drain (suc (s.phase1_queue.next - s.phase1_queue.start)) s.phase1_queue s.got_max_timestamp
    let s₁ = record s { phase1_queue = queue; got_max_timestamp = heap }
    flush ← can_flush s₁
    ok ((if flush then needs_flush else okay), s₁)
  settle res s = do check s; ok (res, s)

  unfoldable pub set_max_timestamp :
      SkeensState S E T → ℕ → ℕ → Outcome (SkeensSetMaxRes × SkeensState S E T)
  set_max_timestamp s sk2_id max_timestamp = do
    check s
    s₁ ← bump s max_timestamp
    (res, s₂) ← set_max_entry s₁ sk2_id max_timestamp (lookup sk2_id s₁.append_status)
    settle res s₂

  -- One round of `flush_got_max_timestamp`: the first element of the heap goes to the callback.
  unfoldable pub flush_one : SkeensState S E T → Outcome (GotMax S E T × SkeensState S E T)
  flush_one s = elim s.got_max_timestamp [
    | [] ↦ panic
    | g ∷ heap ↦ do
      assert (is_some (lookup (GotMax.get_id g) s.append_status))
      ok (
        g,
        record s {
          got_max_timestamp = heap;
          append_status = remove (GotMax.get_id g) s.append_status;
          last_flush = max (GotMax.timestamp g) s.last_flush;
        },
      )
  ]

  -- The calls of the callback, in order, and the state afterwards. Running out of fuel is a panic.
  unfoldable pub flush_loop :
      ℕ → SkeensState S E T → Outcome (List (GotMax S E T) × SkeensState S E T)
  flush_loop zero s = panic
  flush_loop (suc fuel) s = do
    go ← can_flush s
    let rest = do (g, s₁) ← flush_one s; (gs, s₂) ← flush_loop fuel s₁; ok (g ∷ gs, s₂)
    if go then rest else ok ([], s)

  unfoldable pub flush_got_max_timestamp :
      SkeensState S E T → Outcome (List (GotMax S E T) × SkeensState S E T)
  flush_got_max_timestamp s = flush_loop (suc (length s.got_max_timestamp)) s

  pub is_empty_state : SkeensState S E T → Bool
  is_empty_state s = DequeMap.has_none s.phase1_queue && is_empty s.got_max_timestamp

  pub check_skeens1 : SkeensState S E T → ℕ → ℕ → Outcome Bool
  check_skeens1 s write_id timestamp = elim (lookup write_id s.append_status) [
    | some (AppendStatus.phase1 i) ↦ do
      w ← DequeMap.index s.phase1_queue i
      elim (Waiting.multi_timestamp w) [
        | Timestamp.phase1 t ↦ ok (t == timestamp)
        | Timestamp.phase2 t ↦ ok false
      ]
    | _ ↦ ok false
  ]
