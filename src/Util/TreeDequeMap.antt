-- ===== src/Util/TreeDequeMap.antt =====
-- fuzzy_log_util/src/tree_deque_map.rs: the same queue over a `BTreeMap`. Its keys are numbers and are
-- compared by equality alone here, so the map is an association list; it has no lower limit for insertions.
pub mod Same
use delos_rust.Prelude.{
  ℕ, Option, none, [], Outcome, ok, ◌>>=◌, ◌>>◌, assert, add64, ltb, leb, ◌||◌, not, if◌then◌else◌,
  is_some, is_empty, Map, lookup, insert, remove,
}

pub record TreeDequeMap {ℓ} (V : Type ℓ) : Type ℓ where
  pub entries : Map V
  pub start : ℕ
  pub next : ℕ

module _ {ℓ} {V : Type ℓ} where
  pub new : TreeDequeMap V
  new = record { entries = []; start = 0; next = 0 }

  pub push_back : TreeDequeMap V → V → Outcome (ℕ × TreeDequeMap V)
  push_back q val = do
    next ← add64 q.next 1
    ok (q.next, record q { entries = insert q.next val q.entries; next = next })

  pub pop_front : TreeDequeMap V → Outcome (Option V × TreeDequeMap V)
  pop_front q = if is_empty q.entries then ok (none, q) else (do
    start ← add64 q.start 1
    ok (lookup q.start q.entries, record q { entries = remove q.start q.entries; start = start }))

  pub put : TreeDequeMap V → ℕ → V → Outcome (Option V × TreeDequeMap V)
  put q key val = do
    let start = if ltb key q.start then key else q.start
    next ← if leb q.next key then add64 key 1 else ok q.next
    ok (
      lookup key q.entries,
      record q { entries = insert key val q.entries; start = start; next = next },
    )

  pub get : TreeDequeMap V → ℕ → Outcome (Option V)
  get q key =
      if ltb key q.start || leb q.next key
      then (do assert (not (is_some (lookup key q.entries))); ok (lookup key q.entries))
      else ok (lookup key q.entries)

  pub increment_start : TreeDequeMap V → Outcome (TreeDequeMap V)
  increment_start q = do
    assert (not (is_some (lookup q.start q.entries)))
    start ← add64 q.start 1
    ok (record q { start = start })
