-- ===== src/Server/Edge.antt =====
-- fuzzy_log_server/src/trie.rs (and byte_trie.rs, which repeats it): the edges of a trie, the macros
-- `index!` and `insert!`, and `Shortcut`. The types `L1Edge` to `L6Edge` are one type here, so that a walk is
-- a function on the list of its indices; a null edge is `None`, which is also what zeroed memory is.
pub mod Walk
use delos_rust.Prelude.{
  ℕ, ◌+◌, ◌-◌, Bool, Option, none, some, List, [], ◌∷◌, Outcome, ok, panic, ◌>>=◌, ◌==◌,
  if◌then◌else◌,
}

pub data Edge (V : Type 0) : Type 0 where
  empty : Edge V
  seg : (ℕ → Edge V) → Edge V
  val : V → Edge V

module _ {A : Type 0} where
  abbrev pub set : ℕ → A → (ℕ → A) → ℕ → A
  set i x a j = if j == i then x else a j

-- A weak reference to the rest of an array: the key of its first slot, and its length.
pub record Shortcut : Type 0 where
  pub at : ℕ
  pub left : ℕ

-- `Shortcut::new` on a whole array of `size` slots
abbrev pub new : ℕ → ℕ → Shortcut
new key size = record { at = key; left = size }

abbrev pub cannot_append : Shortcut → Bool
cannot_append s = s.left == 0

-- `split_first_mut().unwrap()`: the key of the first slot, whose value the caller writes, and the rest;
-- `span` is the number of keys under a slot.
unfoldable pub append : ℕ → Shortcut → Outcome (ℕ × Shortcut)
append span s =
    if s.left == 0 then panic else ok (s.at, record { at = s.at + span; left = s.left - 1 })

module _ {V : Type 0} where
  abbrev pub alloc_seg : Edge V
  alloc_seg = seg (λ _. empty)

  -- `index!` at each level of the path: the slot, unless an array on the way is missing.
  unfoldable pub lookup : List ℕ → Edge V → Option (Edge V)
  lookup [] e = some e
  lookup (i ∷ p) empty = none
  lookup (i ∷ p) (seg a) = lookup p (a i)
  lookup (i ∷ p) (val v) = none

  -- `insert!` at each level of the path: the missing arrays are allocated.
  unfoldable pub make : List ℕ → Edge V → Edge V
  make [] e = e
  make (i ∷ p) empty = seg (set i (make p empty) (λ _. empty))
  make (i ∷ p) (seg a) = seg (set i (make p (a i)) a)
  make (i ∷ p) (val v) = val v

  -- A write through a pointer to the slot at the path. The pointer dangles where an array is missing.
  unfoldable pub store : List ℕ → Edge V → Edge V → Outcome (Edge V)
  store [] x e = ok x
  store (i ∷ p) x empty = panic
  store (i ∷ p) x (seg a) = do e ← store p x (a i); ok (seg (set i e a))
  store (i ∷ p) x (val v) = panic
