-- ===== src/Server/Trie/Stale.antt =====
-- fuzzy_log_server/src/trie.rs and ordering_thread.rs, `Chain::write_data`: `prep_append_at` past the end, and then `prep_append`.
use delos_rust.Prelude.{
  ℕ, ◌+◌, ◌-◌, ◌%◌, ◌<◌, ◌^◌, ◌≡◌, ◌≢◌, refl, ap, sym, ◌∙◌, true, false, inl, inr, Bool-cases, ◌==◌,
  leb, add64, List, [], ◌∷◌, arith, is_some, ok, ◌>>=◌, Returns, Returns->>=, u64_max,
  if◌then◌else◌,
}
use delos_rust.Server.Edge.{Edge, empty, seg, val, set, lookup, make, store}
use delos_rust.Server.Edge.Walk.{is_array, is_array-lookup, set_same, set_other, Stored, store_lem}
use delos_rust.Server.Trie.{Trie, path, span, chunk_at, prep_append, prep_append_at}
use delos_rust.Server.Trie.Keys.{Past, Next, path-Next}
use delos_rust.Server.Trie.Stage.{Level, HasArray}
use delos_rust.Server.Trie.Start.{Valid}
use delos_rust.Server.Trie.Append.{append-ok}

module _ {V : Type 0} where
  set-array :
      (i j : ℕ) (q : List ℕ) (y : Edge V) (a : ℕ → Edge V)
      → (is_array (lookup q (a i)) ≡ true → is_array (lookup q y) ≡ true)
      → is_array (lookup q (a j)) ≡ true
      → is_array (lookup q (set i y a j)) ≡ true
  set-array i j q y a h e = elim (Bool-cases (j == i)) [
    | inr ne ↦ ap (λ z. is_array (lookup q z)) ((set_other i j y a ne).1) ∙ e
    | inl eq ↦
        let (same, at_i) = set_same i j y a eq in
        ap (λ z. is_array (lookup q z)) at_i
        ∙ h (ap (λ z. is_array (lookup q (a z))) (sym same) ∙ e)
  ]

  -- An array stays where others are made.
  make-array :
      (p q : List ℕ) (e : Edge V)
      → is_array (lookup q e) ≡ true
      → is_array (lookup q (make p e)) ≡ true
  unfolding make lookup
  make-array [] q e h = h
  make-array (i ∷ p) q (val v) h = h
  make-array (i ∷ p) [] empty h = refl
  make-array (i ∷ p) (j ∷ q) empty h = cc
  make-array (i ∷ p) [] (seg a) h = refl
  make-array (i ∷ p) (j ∷ q) (seg a) h = set-array i j q (make p (a i)) a (make-array p q (a i)) h

module _ {A V : Type 0} where
  no_chunk : (depth : ℕ) (t : Trie A V) → t.next_entry % span depth ≢ 0 → chunk_at depth t ≡ ok t
  unfolding chunk_at
  no_chunk depth t ne = ground (arith, ne)

  -- The slot where the shortcut stands, behind the length that `prep_append_at` has set
  misplaced :
      (t : Trie A V) (e : Edge V) (n : ℕ)
      → (t.next_entry ≢ u64_max)
      → t.next_entry % 1024 ≢ 0
      → n % 1024 ≢ 0
      → Past 6 (n - 1) (t.l 6)
      → HasArray 5 n t.array
      → Returns (λ (index, slot, t'). (index ≡ t.next_entry) × (slot ≡ n)) (prep_append t e)
  unfolding prep_append span Past Next
  misplaced t e n room partway here p has =
      let stands : (t.l 6).at ≡ n = ground (arith, p) in
      let some_left : (t.l 6).left ≢ 0 = λ q. ground (arith, p, q) in
      let there : is_some (lookup (path 7 0 n) t.array) ≡ true =
        rw (path-Next 5 (omega arith) n) (is_array-lookup (path 6 0 n) _ t.array has) in
      let not_max : (t.next_entry == u64_max) ≡ false = ground (arith, room) in
      let no_root : ((t.next_entry % 2 ^ 60) == 0) ≡ false = ground (arith, partway) in
      rw
        (
          not_max,
          no_root,
          no_chunk 1 t (λ q. omega arith),
          no_chunk 2 t (λ q. omega arith),
          no_chunk 3 t (λ q. omega arith),
          no_chunk 4 t (λ q. omega arith),
          no_chunk 5 t (λ q. omega arith),
          append-ok (span 6) (t.l 6) some_left,
          stands,
        )
        (Returns->>= (Stored (path 7 0 n) e t.array)
          (λ (index, slot, t'). (index ≡ t.next_entry) × (slot ≡ n)) (store (path 7 0 n) e t.array)
          _ (store_lem (path 7 0 n) e t.array there) (λ array s. (refl, refl)))

  -- After `prep_append_at` at or beyond the end of a valid trie, `d` entries further on, `prep_append` returns the index after that entry but the slot
  -- of the old end, where neither of the two begins an array of values and there is room.
  pub prep_append-stale :
      (t : Trie A V) (d : ℕ) (e : Edge V)
      → Valid t
      → t.next_entry + d + 1 < 2 ^ 62
      → t.next_entry % 1024 ≢ 0
      → (t.next_entry + d + 1) % 1024 ≢ 0
      → Returns
          (λ (index, slot, t'). (index ≡ t.next_entry + d + 1) × (slot ≡ t.next_entry))
          (prep_append_at t (t.next_entry + d) >>= λ (at, t₁). prep_append t₁ e)
  unfolding prep_append_at Level span
  prep_append-stale t d e v h partway there =
      let n = t.next_entry in
      let grows : (if leb n (n + d) then add64 (n + d) 1 else ok n) ≡ ok (n + d + 1) =
        ground arith in
      let (p, has) = (v.level 5 (omega arith)).1 partway in
      rw (grows) (
        misplaced (record t { next_entry = n + d + 1; array = make (path 7 0 (n + d)) t.array }) e n
          (λ q. omega (arith, q)) there partway p
          (make-array (path 7 0 (n + d)) (path 6 0 n) t.array has))
