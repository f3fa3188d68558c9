-- ===== src/Server/Trie/Levels.antt =====
-- fuzzy_log_server/src/trie.rs, `prep_append`: what the write of a new array under the next entry does to the
-- entries.
use delos_rust.Prelude.{
  ℕ, suc, ◌-◌, ◌/◌, ◌^◌, ◌<◌, ◌≤◌, ◌≡◌, ◌≢◌, refl, sym, ◌∙◌, none, List, [], ◌∷◌,
}
use delos_rust.Server.Edge.{Edge, lookup, alloc_seg}
use delos_rust.Server.Edge.Walk.{Stored}
use delos_rust.Server.Trie.{path, span, packet_of}
use delos_rust.Server.Trie.Keys.{Apart, path-Apart, Same, path-Same, Rest, path-Rest, length-path}

module _ {V : Type 0} where
  -- The entries that are not under the written slot are as before.
  pub entry_beside :
      (c n k : ℕ) {x e e' : Edge V}
      → c ≤ 5
      → n < 2 ^ 64
      → k < 2 ^ 64
      → Stored (path (suc c) 0 n) x e e'
      → k / span c ≢ n / span c
      → lookup (path 7 0 k) e' ≡ lookup (path 7 0 k) e
  unfolding Apart Rest
  entry_beside c n k h hn hk s ne = rw (path-Rest c h k) (
      s.beside (path (suc c) 0 k) (path (6 - c) (suc c) k)
        (length-path (suc c) 0 k ∙ sym (length-path (suc c) 0 n))
        (λ p. ne (path-Apart c h k n hk hn p)))

  -- Those under it are read in what was written.
  pub entry_under :
      (c n k : ℕ) {x e e' : Edge V}
      → c ≤ 5
      → n < 2 ^ 64
      → k < 2 ^ 64
      → Stored (path (suc c) 0 n) x e e'
      → k / span c ≡ n / span c
      → lookup (path 7 0 k) e' ≡ lookup (path (6 - c) (suc c) k) x
  unfolding Same Rest
  entry_under c n k h hn hk s eq =
      rw (path-Rest c h k, path-Same c h k n hk hn eq) (s.under (path (6 - c) (suc c) k))

  -- There is no packet in new memory.
  pub packet_of-alloc_seg : (q : List ℕ) → packet_of (lookup q (alloc_seg {V = V})) ≡ none
  unfolding lookup
  packet_of-alloc_seg [] = refl
  packet_of-alloc_seg (i ∷ []) = refl
  packet_of-alloc_seg (i ∷ j ∷ q) = refl
