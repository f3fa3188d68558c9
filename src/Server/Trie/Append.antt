-- ===== src/Server/Trie/Append.antt =====
-- fuzzy_log_server/src/trie.rs, `prep_append`: the whole of an append, from one state to the next.
use delos_rust.Prelude.{
  ℕ, suc, ◌+◌, ◌-◌, ◌%◌, ◌^◌, ◌<◌, ◌≤◌, ◌≡◌, ◌≢◌, inl, inr, refl, ap, sym, ◌∙◌, subst, true, false,
  Bool-cases, ◌==◌, arith, ok, u64_max, Returns, Returns->>=, ◌>>=◌, is_some,
}
use delos_rust.Server.Edge.{Edge, set, Shortcut, new, append, lookup, store, alloc_seg}
use delos_rust.Server.Edge.Walk.{Stored, store_lem, is_array-lookup}
use delos_rust.Server.Trie.{Trie, path, span, chunk_at, new_chunk, prep_append}
use delos_rust.Server.Trie.Keys.{Past, Popped, pop-Past, Next, path-Next}
use delos_rust.Server.Trie.Entry.{Appended, entry_lem}
use delos_rust.Server.Trie.Start.{Valid, start_lem}
use delos_rust.Server.Trie.Stage.{Stage, Level, Stage-skip, Stage-new}

pub append-ok :
    (span : ℕ) (s : Shortcut)
    → s.left ≢ 0
    → append span s ≡ ok (s.at, record { at = s.at + span; left = s.left - 1 })
unfolding append
append-ok span s h = ground (arith, h)

-- Every entry has a slot of its own.
each_first : (n : ℕ) → n % span 6 ≡ 0
unfolding span
each_first n = omega arith

module _ {A V : Type 0} where
  -- The new array of a depth, where the entries are a multiple of what is under it
  new_chunk_lem :
      (c : ℕ) (t₀ t : Trie A V)
      → c ≤ 4
      → t₀.next_entry < 2 ^ 64
      → t₀.next_entry % span (suc c) ≡ 0
      → Stage c t₀ t
      → Returns (Stage (suc c) t₀) (new_chunk (suc c) t)
  unfolding new_chunk Popped Level Next
  new_chunk_lem c t₀ t h hn e st =
      let n = t₀.next_entry in
      let (at_eq, some_left, p) = pop-Past c (omega arith) n (t.l (suc c)) e st.before in
      let full = (st.below (suc c) (omega arith) (omega arith)).0 e in
      let there : is_some (lookup (path (suc (suc c)) 0 n) t.array) ≡ true =
        rw (path-Next c (omega arith) n)
          (is_array-lookup (path (suc c) 0 n) _ t.array (st.arrays c (omega arith))) in
      let rem : Shortcut = new (n + span (suc c)) ((t.l (suc c)).left - 1) in
      let moved =
        subst (λ a. Past (suc c) n (new (a + span (suc c)) ((t.l (suc c)).left - 1))) at_eq p in
      rw (full, append-ok (span (suc c)) (t.l (suc c)) some_left, at_eq)
        (Returns->>= (Stored (path (suc (suc c)) 0 n) alloc_seg t.array) (Stage (suc c) t₀)
          (store (path (suc (suc c)) 0 n) alloc_seg t.array) _
          (store_lem (path (suc (suc c)) 0 n) alloc_seg t.array there)
          (λ array s. Stage-new c t₀ t array rem h hn e st moved s))

  pub chunk_at_lem :
      (c : ℕ) (t₀ t : Trie A V)
      → c ≤ 4
      → t₀.next_entry < 2 ^ 64
      → Stage c t₀ t
      → Returns (Stage (suc c) t₀) (chunk_at (suc c) t)
  unfolding chunk_at
  chunk_at_lem c t₀ t h hn st =
      let eq = ap (λ (z : Trie A V). (z.next_entry % span (suc c)) == 0) st.frame in
      elim (Bool-cases ((t₀.next_entry % span (suc c)) == 0)) [
        | inl q ↦ rw (eq ∙ q) (new_chunk_lem c t₀ t h hn (ground (arith, q)) st)
        | inr q ↦ rw (eq ∙ q) (Stage-skip c t₀ t h (λ z. ground (arith, q, z)) st)
      ]

  Result : Trie A V → Edge V → ℕ × ℕ × Trie A V → Type 0
  Result t e (index, slot, t') = (index ≡ t.next_entry) × (slot ≡ t.next_entry) × Appended t e t'

  -- The last step: the slot of the entry
  last_lem :
      (t t₆ : Trie A V) (e : Edge V)
      → t.next_entry < 2 ^ 62
      → Valid t
      → Stage 5 t t₆
      → Returns (Result t e) (do
        (key, rem) ← append (span 6) (t₆.l 6)
        array ← store (path 7 0 key) e t₆.array
        ok (
          t.next_entry,
          key,
          record t₆ { next_entry = t₆.next_entry + 1; l = set 6 rem t₆.l; array = array },
        ))
  unfolding Popped Next Result
  last_lem t t₆ e hn v st =
      let n = t.next_entry in
      let eq = ap (λ (z : Trie A V). z.next_entry) st.frame in
      let (at_eq, some_left, p) = pop-Past 5 (omega arith) n (t₆.l 6) (each_first n) st.before in
      let there : is_some (lookup (path 7 0 n) t₆.array) ≡ true =
        rw (path-Next 5 (omega arith) n)
          (is_array-lookup (path 6 0 n) _ t₆.array (st.arrays 5 (omega arith))) in
      let rem : Shortcut = new (n + span 6) ((t₆.l 6).left - 1) in
      let moved = subst (λ a. Past 6 n (new (a + span 6) ((t₆.l 6).left - 1))) at_eq p in
      rw (append-ok (span 6) (t₆.l 6) some_left, at_eq)
        (Returns->>= (Stored (path 7 0 n) e t₆.array) (Result t e) (store (path 7 0 n) e t₆.array) _
          (store_lem (path 7 0 n) e t₆.array there)
          (λ array s. (
            refl,
            refl,
            subst
                (λ z.
                  Appended t e record t₆ { next_entry = z + 1; l = set 6 rem t₆.l; array = array })
                (sym eq) (entry_lem t t₆ e array rem hn v st moved s),
          )))

  -- On a valid trie with fewer than `2 ^ 62` entries `prep_append` does not panic. It returns the length as the index and as the key of the slot; the slot
  -- then holds what was given, every other index below `2 ^ 64` reads as before, the length is greater by one, only the shortcuts and the
  -- arrays change besides, and the trie is valid.
  pub prep_append_lem :
      (t : Trie A V) (e : Edge V)
      → t.next_entry < 2 ^ 62
      → Valid t
      → Returns
          (λ (index, slot, t'). (index ≡ t.next_entry) × (slot ≡ t.next_entry) × Appended t e t')
          (prep_append t e)
  unfolding prep_append Result
  prep_append_lem t e hn v =
      let room : (t.next_entry == u64_max) ≡ false = ground arith in
      let small : t.next_entry < 2 ^ 64 = omega arith in
      rw (room) (
        Returns->>= (Stage 0 t) (Result t e) _ _ (start_lem t hn v) (λ t₁ s₁.
          Returns->>= (Stage 1 t) (Result t e) _ _ (chunk_at_lem 0 t t₁ (omega arith) small s₁)
            (λ t₂ s₂.
              Returns->>= (Stage 2 t) (Result t e) _ _ (chunk_at_lem 1 t t₂ (omega arith) small s₂)
                (λ t₃ s₃.
                  Returns->>= (Stage 3 t) (Result t e) _ _
                    (chunk_at_lem 2 t t₃ (omega arith) small s₃)
                    (λ t₄ s₄.
                      Returns->>= (Stage 4 t) (Result t e) _ _
                        (chunk_at_lem 3 t t₄ (omega arith) small s₄)
                        (λ t₅ s₅.
                          Returns->>= (Stage 5 t) (Result t e) _ _
                            (chunk_at_lem 4 t t₅ (omega arith) small s₅)
                            (λ t₆ s₆. last_lem t t₆ e hn v s₆)))))))
