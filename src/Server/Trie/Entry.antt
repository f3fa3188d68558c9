-- ===== src/Server/Trie/Entry.antt =====
-- fuzzy_log_server/src/trie.rs, `prep_append`: the write of the entry itself.
use delos_rust.Prelude.{
  ℕ, suc, ◌+◌, ◌/◌, ◌%◌, ◌^◌, ◌<◌, ◌≤◌, ◌≡◌, ◌≢◌, inl, inr, refl, ap, sym, ◌∙◌, subst, true,
  Bool-cases, ◌==◌, ltb, some, [], arith, is_some,
}
use delos_rust.Server.Edge.{Edge, empty, set, Shortcut, lookup}
use delos_rust.Server.Edge.Walk.{Stored, is_array, set-eq, set-ne}
use delos_rust.Server.Trie.{Trie, path, span, packet_of, get_entry_at, get, level_index_for_key}
use delos_rust.Server.Trie.Keys.{
  Past, past-Full, Full, Block, same-Block, Same, path-Same, same_path6,
}
use delos_rust.Server.Trie.Start.{Valid}
use delos_rust.Server.Trie.Stage.{Stage, Level, HasArray, below_suc, arrays_above}

-- Once the entry is in, the shortcut of a depth stands as the next one wants it.
Level-after :
    {V : Type 0} (c n m : ℕ) (s : Shortcut) (e : Edge V)
    → c ≤ 5
    → m ≡ suc n
    → m < 2 ^ 64
    → Past (suc c) n s
    → HasArray c n e
    → Level c m s e
unfolding Level Full Block Same
Level-after c n m s e h eq hm p has = (
  (λ q. past-Full c h n s (subst (λ z. z % span c ≡ 0) eq q) p),
  (λ q.
      let same : m / span c ≡ n / span c =
        subst (λ z. z / span c ≡ n / span c) (sym eq)
          (same-Block c h n (λ z. q (subst (λ y. y % span c ≡ 0) (sym eq) z))) in
      (
        subst (λ z. Past (suc c) z s) (omega arith) p,
        ap (λ z. is_array (lookup z e)) (path-Same c h m n hm (omega arith) same) ∙ has,
      )),
)

-- The slots of the other entries are as before.
pub entry_other :
    {V : Type 0} (n k : ℕ) {x e e' : Edge V}
    → n < 2 ^ 64
    → k < 2 ^ 64
    → k ≢ n
    → Stored (path 7 0 n) x e e'
    → lookup (path 7 0 k) e' ≡ lookup (path 7 0 k) e
unfolding path
entry_other n k hn hk ne s = s.beside (path 7 0 k) [] refl (λ q. ne (same_path6 k n hk hn q))

module _ {A V : Type 0} where
  -- What an append has done to `t`, when `e` is in the next entry
  pub record Appended (t : Trie A V) (e : Edge V) (t' : Trie A V) : Type 0 where
    pub frame : t' ≡ record t { next_entry = t.next_entry + 1; l = t'.l; array = t'.array }
    pub entry : get_entry_at t' t.next_entry ≡ some e
    pub others : (k : ℕ) → k < 2 ^ 64 → k ≢ t.next_entry → get t' k ≡ get t k
    pub valid : Valid t'

  Past-all :
      (t₀ t : Trie A V) (rem : Shortcut)
      → Stage 5 t₀ t
      → Past 6 t₀.next_entry rem
      → (c : ℕ) → c < 6
      → Past (suc c) t₀.next_entry (set 6 rem t.l (suc c))
  Past-all t₀ t rem st p =
      below_suc (λ c. Past (suc c) t₀.next_entry (set 6 rem t.l (suc c))) 5
        (λ c lt.
          subst (Past (suc c) t₀.next_entry)
            (sym (set-ne 6 (suc c) rem t.l (λ q. omega (arith, lt, q)))) (st.past c lt))
        (subst (Past 6 t₀.next_entry) (sym (set-eq 6 6 rem t.l refl)) p)

  here_after :
      (t₀ t : Trie A V) (e array : Edge V)
      → t₀.next_entry < 2 ^ 62
      → Valid t₀
      → Stage 5 t₀ t
      → Stored (path 7 0 t₀.next_entry) e t.array array
      → (k : ℕ) → k < suc t₀.next_entry
      → is_some (lookup (path 7 0 k) array) ≡ true
  unfolding path lookup get_entry_at
  here_after t₀ t e array hn v st s =
      below_suc (λ k. is_some (lookup (path 7 0 k) array) ≡ true) t₀.next_entry
        (λ k lt.
          ap is_some (
            entry_other t₀.next_entry k (omega arith) (omega arith) (λ q. omega (arith, q, lt)) s
            ∙ st.old k lt)
          ∙ v.here k lt)
        (ap is_some (s.under []))

  pub entry_lem :
      (t₀ t : Trie A V) (e array : Edge V) (rem : Shortcut)
      → t₀.next_entry < 2 ^ 62
      → Valid t₀
      → Stage 5 t₀ t
      → Past 6 t₀.next_entry rem
      → Stored (path 7 0 t₀.next_entry) e t.array array
      → Appended t₀ e record t { next_entry = t₀.next_entry + 1; l = set 6 rem t.l; array = array }
  unfolding path get_entry_at get lookup
  entry_lem t₀ t e array rem hn v st p s =
      let n = t₀.next_entry in
      record {
        frame =
            ap (λ (z : Trie A V). record z { next_entry = n + 1; l = set 6 rem t.l; array = array })
              st.frame;
        entry = s.under [];
        others = λ k lt ne. elim (Bool-cases (ltb k n)) [
          | inl q ↦
              ap packet_of (entry_other n k (omega arith) lt ne s ∙ st.old k (ground (arith, q)))
          | inr q ↦
              ap packet_of (entry_other n k (omega arith) lt ne s)
              ∙ (st.fresh k (ground (arith, q)) lt ∙ sym (v.fresh k (ground (arith, q)) lt))
        ];
        valid = record {
          root = s.above [] (level_index_for_key n 0) (path 6 1 n) refl;
          level = λ c le.
              Level-after c n (n + 1) (set 6 rem t.l (suc c)) array le (omega arith) (omega arith)
                (Past-all t₀ t rem st p c (omega arith))
                (arrays_above 6 n e t.array array s c (omega arith));
          here = λ k lt. here_after t₀ t e array hn v st s k (omega arith);
          fresh = λ k le lt.
              ap packet_of (entry_other n k (omega arith) lt (λ q. omega arith) s)
              ∙ st.fresh k (omega arith) lt;
        };
      }

  -- An empty slot at the end reads as nothing, as before.
  pub empty-reads :
      (t t' : Trie A V)
      → t.next_entry < 2 ^ 62
      → Valid t
      → Appended t empty t'
      → (k : ℕ) → k < 2 ^ 64
      → get t' k ≡ get t k
  unfolding get
  empty-reads t t' hn v h k lt = elim (Bool-cases (k == t.next_entry)) [
    | inl e ↦
        let same : k ≡ t.next_entry = ground (arith, e) in
        subst (λ j. get t' j ≡ get t j) (sym same)
          (ap packet_of h.entry ∙ sym (v.fresh t.next_entry (omega arith) (omega arith)))
    | inr e ↦ h.others k lt (λ q. ground (arith, e, q))
  ]
