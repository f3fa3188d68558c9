-- ===== src/Server/Trie/Start.antt =====
-- fuzzy_log_server/src/trie.rs, `prep_append`: the states between appends, and the first step, at the root.
use delos_rust.Prelude.{
  ℕ, suc, ◌/◌, ◌%◌, ◌^◌, ◌<◌, ◌≤◌, ◌≡◌, ◌≢◌, inl, inr, refl, ap, ◌∙◌, subst, true, Bool-cases, ◌==◌,
  ltb, none, some, [], arith, ok, Returns, Returns->>=, is_some, if◌then◌else◌,
}
use delos_rust.Server.Edge.{Edge, set, Shortcut, new, lookup, store, alloc_seg}
use delos_rust.Server.Edge.Walk.{Stored, store_lem, is_array, is_array-lookup, set-ne}
use delos_rust.Server.Trie.{
  Trie, path, span, packet_of, get_entry_at, get, new_l1, level_index_for_key,
}
use delos_rust.Server.Trie.Keys.{
  Kept, past-Before, Fresh, new-Before, before-Outside, Outside, span_below,
}
use delos_rust.Server.Trie.Levels.{entry_beside, entry_under, packet_of-alloc_seg}
use delos_rust.Server.Trie.Stage.{Stage, Level, HasArray}

few_roots : (n : ℕ) → n < 2 ^ 62 → ltb (level_index_for_key n 0) 4 ≡ true
unfolding level_index_for_key
few_roots n h = ground arith

module _ {A V : Type 0} where
  -- The trie is as appends leave it: the shortcuts stand at the next entry, the entries so far have their slots, and
  -- there is nothing from the next entry on.
  pub record Valid (t : Trie A V) : Type 0 where
    pub root : is_array (some t.array) ≡ true
    pub level : (c : ℕ) → c ≤ 5 → Level c t.next_entry (t.l (suc c)) t.array
    pub here : (k : ℕ) → k < t.next_entry → is_some (get_entry_at t k) ≡ true
    pub fresh : (k : ℕ) → t.next_entry ≤ k → k < 2 ^ 64 → get t k ≡ none

  -- Nothing is to be done at the root.
  start-skip : (t : Trie A V) → Valid t → t.next_entry % span 0 ≢ 0 → Stage 0 t t
  unfolding Level Kept
  start-skip t v ne =
      let (p, has) = (v.level 0 (omega arith)).1 ne in
      record {
        frame = refl;
        root = v.root;
        arrays = λ e le. subst (λ e. HasArray e t.next_entry t.array) {x = 0} (omega arith) has;
        past = λ e lt. absurd (omega (arith, lt));
        before = past-Before 0 (omega arith) t.next_entry (t.l 1) ne p;
        below = λ e lt le. v.level e le;
        old = λ k lt. refl;
        fresh = v.fresh;
      }

  -- A new array is written in the root's.
  start-new :
      (t : Trie A V) (array : Edge V)
      → t.next_entry < 2 ^ 62
      → t.next_entry % span 0 ≡ 0
      → Valid t
      → Stored (path 1 0 t.next_entry) alloc_seg t.array array
      → Stage 0 t record t { l = set 1 (new t.next_entry 1024) t.l; array = array }
  unfolding Level path get get_entry_at Fresh Outside lookup
  start-new t array hn e v s =
      let n = t.next_entry in
      let here = new n 1024 in
      let other : (d : ℕ) → d ≢ 1 → set 1 here t.l d ≡ t.l d = λ d a. set-ne 1 d here t.l a in
      record {
        frame = refl;
        root = s.above [] (level_index_for_key n 0) [] refl;
        arrays = λ d le.
            subst (λ d. HasArray d n array) {x = 0} (omega arith) (ap is_array (s.under []));
        past = λ d lt. absurd (omega (arith, lt));
        before = new-Before 0 (omega arith) n e;
        below = λ d lt le. (
          (λ q.
              ap (λ (z : Shortcut). z.left) (other (suc d) (λ u. omega arith))
              ∙ (v.level d le).0 q),
          (λ q. absurd (q (span_below 0 d n (omega arith) le e))),
        );
        old = λ k lt.
            entry_beside 0 n k (omega arith) (omega arith) (omega arith) s
              (before-Outside 0 (omega arith) k n lt e);
        fresh = λ k le lt. elim (Bool-cases ((k / span 0) == (n / span 0))) [
          | inl q ↦
              ap packet_of (entry_under 0 n k (omega arith) (omega arith) lt s (ground (arith, q)))
              ∙ packet_of-alloc_seg (path 6 1 k)
          | inr q ↦
              ap packet_of
                (entry_beside 0 n k (omega arith) (omega arith) lt s (λ z. ground (arith, q, z)))
              ∙ v.fresh k le lt
        ];
      }

  root_slot : (n : ℕ) (t : Trie A V) → Valid t → is_some (lookup (path 1 0 n) t.array) ≡ true
  unfolding path lookup
  root_slot n t v = is_array-lookup [] (level_index_for_key n 0) t.array v.root

  new_l1_lem :
      (t : Trie A V)
      → t.next_entry < 2 ^ 62
      → t.next_entry % span 0 ≡ 0
      → Valid t
      → Returns (Stage 0 t) (new_l1 t)
  unfolding new_l1 Level
  new_l1_lem t hn e v =
      let n = t.next_entry in
      let full = (v.level 0 (omega arith)).0 e in
      rw (full, few_roots n hn)
        (Returns->>= (Stored (path 1 0 n) alloc_seg t.array) (Stage 0 t)
          (store (path 1 0 n) alloc_seg t.array) _
          (store_lem (path 1 0 n) alloc_seg t.array (root_slot n t v))
          (λ array s. start-new t array hn e v s))

  -- The first step of an append
  pub start_lem :
      (t : Trie A V)
      → t.next_entry < 2 ^ 62
      → Valid t
      → Returns (Stage 0 t) (if (t.next_entry % 2 ^ 60) == 0 then new_l1 t else ok t)
  unfolding span
  start_lem t hn v = elim (Bool-cases ((t.next_entry % 2 ^ 60) == 0)) [
    | inl q ↦ rw (q) (new_l1_lem t hn (ground (arith, q)) v)
    | inr q ↦ rw (q) (start-skip t v (λ z. ground (arith, q, z)))
  ]
