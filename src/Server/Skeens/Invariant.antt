-- ===== src/Server/Skeens/Invariant.antt =====
-- What holds of a `SkeensState` between the operations of a primary.
use delos_rust.Prelude.{
  ℕ, ◌≤◌, ◌<◌, ◌≡◌, ◌≢◌, ◌⊎◌, Bool, ◌+◌, ◌-◌, length, true, false, some, List, [], ◌∷◌, arith,
  is_some, refl, lookup, lookup-nil-ne, All,
}
use delos_rust.Util.DequeMap.{DequeMap}
use delos_rust.Util.DequeMap.Laws.{IsValid, new-IsValid}
use delos_rust.Util.DequeMap
use delos_rust.Server.Waiting.{
  WaitingForMax, time_of, multi_timestamp, has_max, get_id, multi, senti, snap, single,
  simple_single, got_max_multi, got_max_senti, got_max_snap,
}
use delos_rust.Server.GotMax
use delos_rust.Server.GotMax.{GotMax}
use delos_rust.Server.GotMax.Order.{Ascending, is_regular}
use delos_rust.Server.Skeens.{SkeensState, AppendStatus, phase1, phase2, singleton, new}

module _ {S E T : Type 0} where
  abbrev pub time : WaitingForMax S E T → ℕ
  time w = time_of (multi_timestamp w)

  -- The variants that a primary puts into its queue.
  abbrev pub is_primary : WaitingForMax S E T → Bool
  is_primary (multi s) = true
  is_primary (senti s) = true
  is_primary (snap s) = true
  is_primary (simple_single s) = true
  is_primary (got_max_multi s) = true
  is_primary (got_max_senti s) = true
  is_primary (got_max_snap s) = true
  is_primary _ = false

  -- An append to several servers that has its final timestamp. Any other entry keeps the time at which it came.
  abbrev pub is_lifted : WaitingForMax S E T → Bool
  is_lifted (got_max_multi s) = true
  is_lifted (got_max_senti s) = true
  is_lifted (got_max_snap s) = true
  is_lifted _ = false

  -- The status that the entry with an index has.
  abbrev pub status_of : WaitingForMax S E T → ℕ → AppendStatus
  status_of (simple_single s) k = singleton k
  status_of (single s) k = singleton k
  status_of (multi s) k = phase1 k
  status_of (senti s) k = phase1 k
  status_of (snap s) k = phase1 k
  status_of w k = phase2 (time w)

  abbrev pub Waits : SkeensState S E T → ℕ → WaitingForMax S E T → Type 0
  Waits s k w = lookup k s.phase1_queue.entries ≡ some w

  pub record Entry (s : SkeensState S E T) (k : ℕ) (w : WaitingForMax S E T) : Type 0 where
    pub primary : is_primary w ≡ true
    pub low : s.last_flush ≤ time w
    pub high : time w < s.next_timestamp
    pub status : lookup (get_id w) s.append_status ≡ some (status_of w k)

  -- An element of the heap: its time lies between the last delivery and the clock, its id has a status and is
  -- not in the queue.
  pub record Element (s : SkeensState S E T) (g : GotMax S E T) : Type 0 where
    pub regular : is_regular g ≡ true
    pub low : s.last_flush ≤ GotMax.timestamp g
    pub high : GotMax.timestamp g < s.next_timestamp
    pub status : is_some (lookup (GotMax.get_id g) s.append_status) ≡ true
    pub apart : (k : ℕ) (w : WaitingForMax S E T) → Waits s k w → GotMax.get_id g ≢ get_id w
    pub before :
        GotMax.is_multi g ≡ false
        → (k : ℕ) (w : WaitingForMax S E T) → Waits s k w
        → GotMax.timestamp g < time w

  pub record Inv (s : SkeensState S E T) : Type 0 where
    pub window : IsValid s.phase1_queue
    pub dense :
        (k : ℕ)
        → s.phase1_queue.start ≤ k
        → k < s.phase1_queue.next
        → is_some (lookup k s.phase1_queue.entries) ≡ true
    pub clock : s.last_flush < s.next_timestamp
    pub entry : (k : ℕ) (w : WaitingForMax S E T) → Waits s k w → Entry s k w
    -- Whatever stands behind an entry that keeps its time has a later one.
    pub order :
        (i j : ℕ) (v w : WaitingForMax S E T)
        → i < j
        → Waits s i v
        → Waits s j w
        → is_lifted v ≡ false
        → time v < time w
    pub ids :
        (i j : ℕ) (v w : WaitingForMax S E T)
        → Waits s i v
        → Waits s j w
        → get_id v ≡ get_id w
        → i ≡ j
    pub heap : All (Element s) s.got_max_timestamp
    pub ascending : Ascending s.got_max_timestamp
    pub waiting :
        (id i : ℕ)
        → lookup id s.append_status ≡ some (phase1 i)
        → (w : WaitingForMax S E T) × Waits s i w × (get_id w ≡ id) × (has_max w ≡ false)

  -- A single append with an id is in the heap.
  abbrev pub Held : ℕ → List (GotMax S E T) → Type 0
  Held id [] = ⊥
  Held id (g ∷ heap) = ((GotMax.get_id g ≡ id) × (GotMax.is_multi g ≡ false)) ⊎ Held id heap

  -- A known single append stands in the queue or in the heap.
  abbrev pub SinglesKnown : SkeensState S E T → Type 0
  SinglesKnown s =
      (id i : ℕ)
      → lookup id s.append_status ≡ some (singleton i)
      → ((w : WaitingForMax S E T) × Waits s i w × (get_id w ≡ id)) ⊎ Held id s.got_max_timestamp

  pub not_lifted : (w : WaitingForMax S E T) → has_max w ≡ false → is_lifted w ≡ false
  unfolding has_max
  not_lifted w h = ground arith

  -- The front of the queue still waits for its final time.
  abbrev pub FrontWaits : SkeensState S E T → Type 0
  FrontWaits s = (w : WaitingForMax S E T) → Waits s s.phase1_queue.start w → has_max w ≡ false

  -- No single append is in the heap: those that are known stand in the queue.
  abbrev pub SinglesQueued : SkeensState S E T → Type 0
  SinglesQueued s =
      (id i : ℕ)
      → lookup id s.append_status ≡ some (singleton i)
      → (w : WaitingForMax S E T) × Waits s i w × (get_id w ≡ id)

  -- How many appends wait, in the queue and in the heap.
  abbrev pub pending : SkeensState S E T → ℕ
  pending s = length s.got_max_timestamp + (s.phase1_queue.next - s.phase1_queue.start)

  -- An empty queue goes with an empty heap.
  abbrev pub HeapNeedsQueue : SkeensState S E T → Type 0
  HeapNeedsQueue s = s.phase1_queue.start ≡ s.phase1_queue.next → s.got_max_timestamp ≡ []

  -- What holds whenever a primary starts an operation.
  pub record IsSettled (s : SkeensState S E T) : Type 0 where
    pub inv : Inv s
    pub front : FrontWaits s
    pub singles : SinglesQueued s
    pub queue : HeapNeedsQueue s

  pub new-IsSettled : IsSettled (new {S = S} {E = E} {T = T})
  unfolding new DequeMap.new
  new-IsSettled = record {
    inv = record {
      window = new-IsValid;
      dense = λ k a b. absurd (omega arith);
      clock = omega arith;
      entry = λ k w e. absurd (lookup-nil-ne k w e);
      order = λ i j v w l a b. absurd (lookup-nil-ne i v a);
      ids = λ i j v w a b. absurd (lookup-nil-ne i v a);
      heap = tt;
      ascending = tt;
      waiting = λ id i e. absurd (lookup-nil-ne id (phase1 i) e);
    };
    front = λ w e. absurd (lookup-nil-ne 0 w e);
    singles = λ id i e. absurd (lookup-nil-ne id (singleton i) e);
    queue = λ e. refl;
  }
