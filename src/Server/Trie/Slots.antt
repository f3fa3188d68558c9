-- ===== src/Server/Trie/Slots.antt =====
-- fuzzy_log_server/src/trie.rs, `AppendSlot`: the store through a slot, and an empty trie.
use delos_rust.Prelude.{
  ℕ, suc, ◌^◌, ◌<◌, ◌≤◌, ◌≡◌, ◌≢◌, inl, inr, refl, ap, ◌∙◌, subst, true, Bool-cases, ◌==◌, some, [],
  arith, Returns, Returns->>=, is_some,
}
use delos_rust.Server.Edge.{Edge, Shortcut, lookup}
use delos_rust.Server.Edge.Walk.{Stored, store_lem}
use delos_rust.Server.Trie.{
  Trie, path, span, packet_of, get_entry_at, get, store_entry, new_trie, level_index_for_key,
}
use delos_rust.Server.Trie.Keys.{length-path, span_below}
use delos_rust.Server.Trie.Levels.{packet_of-alloc_seg}
use delos_rust.Server.Trie.Stage.{Level}
use delos_rust.Server.Trie.Start.{Valid}
use delos_rust.Server.Trie.Entry.{entry_other}

-- A write in a slot leaves the arrays.
Level-kept :
    {V : Type 0} (c n k : ℕ) {x e e' : Edge V} (s : Shortcut)
    → c ≤ 5
    → Stored (path 7 0 k) x e e'
    → Level c n s e
    → Level c n s e'
unfolding Level
Level-kept c n k s le st lv = (
  lv.0,
  (λ q.
      let (p, has) = lv.1 q in
      (
        p,
        st.kept (path (suc c) 0 n) (omega (arith, length-path (suc c) 0 n, length-path 7 0 k)) has,
      )),
)

module _ {A V : Type 0} where
  pub new_trie-Valid : (alloc : A) → Valid (new_trie {V = V} alloc)
  unfolding new_trie Level get get_entry_at path span
  new_trie-Valid alloc = record {
    root = refl;
    level = λ c le. ((λ q. refl), (λ q. absurd (q (span_below 0 c 0 (omega arith) le refl))));
    here = λ k lt. absurd (omega (arith, lt));
    fresh = λ k le lt. packet_of-alloc_seg (path 7 0 k);
  }

  -- What a store of `e` in the slot of `k` did
  pub record Written (t : Trie A V) (k : ℕ) (e : Edge V) (t' : Trie A V) : Type 0 where
    pub frame : t' ≡ record t { array = t'.array }
    pub entry : get_entry_at t' k ≡ some e
    pub others : (j : ℕ) → j < 2 ^ 64 → j ≢ k → get_entry_at t' j ≡ get_entry_at t j
    pub valid : Valid t'

  -- A store in the slot of an entry of a valid trie with at most `2 ^ 62` entries does not panic; that entry is the new one, every other slot below `2 ^ 64` is
  -- as before, nothing but the arrays changes, and the trie is valid.
  pub store_entry_lem :
      (t : Trie A V) (k : ℕ) (e : Edge V)
      → t.next_entry ≤ 2 ^ 62
      → k < t.next_entry
      → Valid t
      → Returns (Written t k e) (store_entry t k e)
  unfolding store_entry get_entry_at get lookup path
  store_entry_lem t k e hn lt v =
      Returns->>= (Stored (path 7 0 k) e t.array) (Written t k e) _ _
        (store_lem (path 7 0 k) e t.array (v.here k lt))
        (λ array s. record {
          frame = refl;
          entry = s.under [];
          others = λ j hj ne. entry_other k j (omega arith) hj ne s;
          valid = record {
            root = s.above [] (level_index_for_key k 0) (path 6 1 k) refl;
            level = λ c le. Level-kept c t.next_entry k (t.l (suc c)) le s (v.level c le);
            here = λ j hj. elim (Bool-cases (j == k)) [
              | inl q ↦
                  subst (λ z. is_some (lookup (path 7 0 z) array) ≡ true) {x = k}
                    (ground (arith, q)) (ap is_some (s.under []))
              | inr q ↦
                  ap is_some
                    (entry_other k j (omega arith) (omega arith) (λ z. ground (arith, q, z)) s)
                  ∙ v.here j hj
            ];
            fresh = λ j le hj.
                ap packet_of (entry_other k j (omega arith) hj (λ z. omega arith) s)
                ∙ v.fresh j le hj;
          };
        })
