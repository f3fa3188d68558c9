-- ===== src/Server/Trie.antt =====
-- fuzzy_log_server/src/trie.rs, `Trie`: the log of one colour, a radix tree on 64-bit indices, of which the entries
-- are appended through shortcuts into the arrays that are being filled. A value is what a `ValEdge` points at; a
-- pointer to a slot is the slot's key. The allocator of the values is `alloc`.
pub mod Keys
pub mod Levels
pub mod Stage
pub mod Start
pub mod Entry
pub mod Append
pub mod Slots
pub mod Insert
pub mod Lock
pub mod Storage
pub mod Runs
pub mod Stale
use delos_rust.Prelude.{
  ℕ, zero, suc, ◌+◌, ◌-◌, ◌*◌, ◌/◌, ◌%◌, ◌^◌, Bool, true, false, not, ◌||◌, Option, none, some,
  List, [], ◌∷◌, Outcome, ok, panic, ◌>>=◌, ◌>>◌, ◌==◌, ltb, leb, if◌then◌else◌, assert, add64,
  sub64, u64_max,
}
use delos_rust.Server.Edge.{
  Edge, empty, seg, val, set, Shortcut, new, cannot_append, append, alloc_seg, lookup, make, store,
}

-- `array_size` is 8192 / 8.
abbrev pub array_size : ℕ
array_size = 1024

abbrev pub root_shift : ℕ
root_shift = 60

abbrev pub shift_len : ℕ
shift_len = 10

-- The root table's array of 16 is an edge, always a `seg`; the shortcuts `l1` to `l6` are a function of the depth.
pub record Trie (A V : Type 0) : Type 0 where
  pub next_entry : ℕ
  pub min_entry : ℕ
  pub first_entry : ℕ
  pub alloc : A
  pub last_lock : ℕ
  pub last_unlock : ℕ
  pub l : ℕ → Shortcut
  pub array : Edge V

unfoldable pub level_index_for_key : ℕ → ℕ → ℕ
level_index_for_key key depth = (key / 2 ^ (root_shift - shift_len * depth)) % array_size

-- The indices of a key in the arrays of `n` levels, from `depth` on; the root's array is at depth 0.
unfoldable pub path : ℕ → ℕ → ℕ → List ℕ
path zero depth key = []
path (suc n) depth key = level_index_for_key key depth ∷ path n (suc depth) key

-- The number of keys under a slot of the arrays at a depth
unfoldable pub span : ℕ → ℕ
span depth = 2 ^ (root_shift - shift_len * depth)

module _ {V : Type 0} where
  -- `try_packet`
  abbrev pub try_packet : Edge V → Option V
  try_packet empty = none
  try_packet (seg a) = none
  try_packet (val v) = some v

  abbrev pub packet_of : Option (Edge V) → Option V
  packet_of none = none
  packet_of (some e) = try_packet e

module _ {A V : Type 0} where
  unfoldable pub new_trie : A → Trie A V
  new_trie alloc = record {
    next_entry = 0;
    min_entry = 0;
    first_entry = 0;
    alloc = alloc;
    last_lock = 0;
    last_unlock = 0;
    l = λ depth. new 0 0;
    array = alloc_seg;
  }

  unfoldable pub get_entry_at : Trie A V → ℕ → Option (Edge V)
  get_entry_at t k = lookup (path 7 0 k) t.array

  unfoldable pub get : Trie A V → ℕ → Option V
  get t k = packet_of (get_entry_at t k)

  -- The store of a value through a pointer to the slot of `k`
  unfoldable pub store_entry : Trie A V → ℕ → Edge V → Outcome (Trie A V)
  store_entry t k e = do array ← store (path 7 0 k) e t.array; ok (record t { array = array })

  unfoldable pub prep_append_at : Trie A V → ℕ → Outcome (ℕ × Trie A V)
  prep_append_at t key = do
    next ← if leb t.next_entry key then add64 key 1 else ok t.next_entry
    ok (key, record t { next_entry = next; array = make (path 7 0 key) t.array })

  -- `prep_append` where `next_entry` starts a new slot of the root's array: a new array for `l1`
  unfoldable pub new_l1 : Trie A V → Outcome (Trie A V)
  new_l1 t = do
    assert (cannot_append (t.l 1))
    assert (ltb (level_index_for_key t.next_entry 0) 4)
    array ← store (path 1 0 t.next_entry) alloc_seg t.array
    ok (record t { l = set 1 (new t.next_entry array_size) t.l; array = array })

  -- `root.l2 = Shortcut::new(root.l1.append(Some(alloc_seg())))`, and so at each depth
  unfoldable pub new_chunk : ℕ → Trie A V → Outcome (Trie A V)
  new_chunk depth t = do
    assert (cannot_append (t.l (suc depth)))
    (key, rem) ← append (span depth) (t.l depth)
    array ← store (path (suc depth) 0 key) alloc_seg t.array
    ok (record t { l = set (suc depth) (new key array_size) (set depth rem t.l); array = array })

  -- The step of `prep_append` at a depth: nothing unless the entries left of the mask are full.
  unfoldable pub chunk_at : ℕ → Trie A V → Outcome (Trie A V)
  chunk_at depth t = if (t.next_entry % span depth) == 0 then new_chunk depth t else ok t

  unfoldable pub prep_append : Trie A V → Edge V → Outcome (ℕ × ℕ × Trie A V)
  prep_append t e = do
    assert (not (t.next_entry == u64_max))
    t₁ ← if (t.next_entry % 2 ^ 60) == 0 then new_l1 t else ok t
    t₂ ← chunk_at 1 t₁
    t₃ ← chunk_at 2 t₂
    t₄ ← chunk_at 3 t₃
    t₅ ← chunk_at 4 t₄
    t₆ ← chunk_at 5 t₅
    (key, rem) ← append (span 6) (t₆.l 6)
    array ← store (path 7 0 key) e t₆.array
    ok (
      t.next_entry,
      key,
      record t₆ { next_entry = t₆.next_entry + 1; l = set 6 rem t₆.l; array = array },
    )

  abbrev pub is_locked : Trie A V → Bool
  is_locked t = not (t.last_lock == t.last_unlock)

  -- `true` where the lock of that number cannot be taken now
  unfoldable pub cannot_lock : Trie A V → ℕ → Outcome Bool
  cannot_lock t lock_num =
      let expected = add64 t.last_unlock 1 in
      if is_locked t then ok true else (do e ← expected; ok (not (lock_num == e)))

  unfoldable pub increment_lock : Trie A V → Outcome (Trie A V)
  increment_lock t = do
    lock ← add64 t.last_lock 1
    expected ← add64 t.last_unlock 1
    assert (lock == expected)
    ok (record t { last_lock = lock })

  unfoldable pub unlock : Trie A V → ℕ → Outcome (Bool × Trie A V)
  unlock t lock_num =
      let unlocked = (do
        assert (leb t.last_unlock t.last_lock)
        ok (true, record t { last_unlock = lock_num })) in
      if lock_num == t.last_lock then unlocked else ok (false, t)

  abbrev pub lock_pair : Trie A V → ℕ × ℕ
  lock_pair t = (t.last_lock, t.last_unlock)

  abbrev pub set_min : Trie A V → ℕ → Trie A V
  set_min t min = record t { min_entry = min }

  abbrev pub len : Trie A V → ℕ
  len t = t.next_entry

  abbrev pub horizon : Trie A V → Outcome ℕ
  horizon t = sub64 t.next_entry 1

  abbrev pub bounds : Trie A V → ℕ × ℕ
  bounds t = (t.min_entry, t.next_entry)
