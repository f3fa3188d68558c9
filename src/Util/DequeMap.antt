-- ===== src/Util/DequeMap.antt =====
-- fuzzy_log_util/src/hash_deque_map.rs: a queue whose entries are also read by a running index. The
-- crate exports it under the name `vec_deque_map`.
pub mod Laws
use delos_rust.Prelude.{
  ℕ, ◌+◌, Bool, Option, none, some, [], Outcome, ok, panic, ◌>>=◌, ◌>>◌, assert, unwrap, add64, ltb,
  leb, ◌||◌, not, if◌then◌else◌, is_some, is_empty, Map, lookup, insert, remove,
}

pub record DequeMap {ℓ} (V : Type ℓ) : Type ℓ where
  pub entries : Map V
  pub start : ℕ
  pub next : ℕ
  pub min : ℕ

module _ {ℓ} {V : Type ℓ} where
  unfoldable pub new : DequeMap V
  new = record { entries = []; start = 0; next = 0; min = 0 }

  unfoldable pub push_back : DequeMap V → V → Outcome (ℕ × DequeMap V)
  push_back q val = do
    next ← add64 q.next 1
    ok (q.next, record q { entries = insert q.next val q.entries; next = next })

  unfoldable pub pop_front : DequeMap V → Outcome (Option V × DequeMap V)
  pop_front q = if is_empty q.entries then ok (none, q) else (do
    start ← add64 q.start 1
    ok (
      lookup q.start q.entries,
      record q { entries = remove q.start q.entries; start = start; min = start },
    ))

  -- The old value at the key, and the queue with the new one.
  unfoldable pub put : DequeMap V → ℕ → V → Outcome (Option V × DequeMap V)
  put q key val = if ltb key q.min then panic else (do
    let start = if ltb key q.start then key else q.start
    next ← if leb q.next key then add64 key 1 else ok q.next
    ok (
      lookup key q.entries,
      record q { entries = insert key val q.entries; start = start; next = next },
    ))

  unfoldable pub get : DequeMap V → ℕ → Outcome (Option V)
  get q key =
      if ltb key q.start || leb q.next key
      then (do assert (not (is_some (lookup key q.entries))); ok (lookup key q.entries))
      else ok (lookup key q.entries)

  -- A write through the reference that `get_mut` has handed out.
  unfoldable pub write : DequeMap V → ℕ → V → DequeMap V
  write q key val = record q { entries = insert key val q.entries }

  -- `q[key]`
  unfoldable pub index : DequeMap V → ℕ → Outcome V
  index q key = do found ← get q key; unwrap found

  abbrev pub front : DequeMap V → Option V
  front q = lookup q.start q.entries

  abbrev pub start_index : DequeMap V → ℕ
  start_index q = q.start

  abbrev pub push_index : DequeMap V → ℕ
  push_index q = q.next

  abbrev pub has_none : DequeMap V → Bool
  has_none q = is_empty q.entries

  unfoldable pub increment_start : DequeMap V → Outcome (DequeMap V)
  increment_start q = do
    assert (not (is_some (front q)))
    start ← add64 q.start 1
    ok (record q { start = start })
