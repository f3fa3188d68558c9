-- ===== src/Server/Trie/Lock.antt =====
-- fuzzy_log_server/src/trie.rs, the lock of a chain.
use delos_rust.Prelude.{◌+◌, ◌≡◌, ◌⊎◌}
use delos_rust.Server.Trie.{Trie}

module _ {A V : Type 0} where
  -- At most one lock is held: the last one taken.
  abbrev pub IsLock : Trie A V → Type 0
  IsLock t = (t.last_lock ≡ t.last_unlock) ⊎ (t.last_lock ≡ t.last_unlock + 1)
