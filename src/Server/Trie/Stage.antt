-- ===== src/Server/Trie/Stage.antt =====
-- fuzzy_log_server/src/trie.rs, `prep_append`: the shortcuts from one depth to the next.
use delos_rust.Prelude.{
  ℕ, suc, ◌-◌, ◌/◌, ◌%◌, ◌^◌, ◌<◌, ◌≤◌, ◌≡◌, ◌≢◌, inl, inr, refl, ap, sym, ◌∙◌, subst, true,
  Bool-cases, leb, ltb, ◌==◌, none, some, [], arith,
}
use mathlib.Core.List.{append-nil}
use delos_rust.Server.Edge.{Edge, set, Shortcut, new, lookup, alloc_seg}
use delos_rust.Server.Edge.Walk.{Stored, is_array, set-eq, set-ne}
use delos_rust.Server.Trie.{Trie, path, span, packet_of, get_entry_at, get, level_index_for_key}
use delos_rust.Server.Trie.Keys.{
  Past, Before, Kept, past-Before, Fresh, new-Before, before-Outside, Outside, span_below,
  path_prefix,
}
use delos_rust.Server.Trie.Levels.{entry_beside, entry_under, packet_of-alloc_seg}

module _ {V : Type 0} where
  -- The array at a depth on the way to a key
  abbrev pub HasArray : ℕ → ℕ → Edge V → Type 0
  HasArray c k e = is_array (lookup (path (suc c) 0 k) e) ≡ true

  -- The shortcut of the depth below `c` before the entry `n`: used up where a new array begins, past the entry before otherwise
  unfoldable pub Level : ℕ → ℕ → Shortcut → Edge V → Type 0
  Level c n s e =
      (n % span c ≡ 0 → s.left ≡ 0) × (n % span c ≢ 0 → Past (suc c) (n - 1) s × HasArray c n e)

  -- The arrays above a write are there after it.
  pub arrays_above :
      (c k : ℕ) (x e e' : Edge V)
      → Stored (path (suc c) 0 k) x e e'
      → (d : ℕ) → d < c
      → HasArray d k e'
  arrays_above c k x e e' s d h =
      let (i, p, eq) = path_prefix (suc d) (suc c) 0 k (omega arith) in
      s.above (path (suc d) 0 k) i p eq

-- A property of the numbers up to one more, and of those below one more
up_to : (P : ℕ → Type 0) (c : ℕ) → ((e : ℕ) → e ≤ c → P e) → P (suc c) → (e : ℕ) → e ≤ suc c → P e
up_to P c h q e le = elim (Bool-cases (leb e c)) [
  | inl b ↦ h e (ground (arith, b))
  | inr b ↦ subst P (ground (arith, b)) q
]

pub below_suc : (P : ℕ → Type 0) (c : ℕ) → ((e : ℕ) → e < c → P e) → P c → (e : ℕ) → e < suc c → P e
below_suc P c h q e lt = elim (Bool-cases (ltb e c)) [
  | inl b ↦ h e (ground (arith, b))
  | inr b ↦ subst P (ground (arith, b)) q
]

module _ {A V : Type 0} where
  -- The arrays on the way to the next entry are there as far as the depth below `c`.
  pub record Stage (c : ℕ) (t₀ t : Trie A V) : Type 0 where
    pub frame : t ≡ record t₀ { l = t.l; array = t.array }
    pub root : is_array (some t.array) ≡ true
    pub arrays : (e : ℕ) → e ≤ c → HasArray e t₀.next_entry t.array
    pub past : (e : ℕ) → e < c → Past (suc e) t₀.next_entry (t.l (suc e))
    pub before : Before (suc c) t₀.next_entry (t.l (suc c))
    pub below : (e : ℕ) → c < e → e ≤ 5 → Level e t₀.next_entry (t.l (suc e)) t.array
    pub old : (k : ℕ) → k < t₀.next_entry → get_entry_at t k ≡ get_entry_at t₀ k
    pub fresh : (k : ℕ) → t₀.next_entry ≤ k → k < 2 ^ 64 → get t k ≡ none

  -- A step that has nothing to do.
  pub Stage-skip :
      (c : ℕ) (t₀ t : Trie A V)
      → c ≤ 4
      → t₀.next_entry % span (suc c) ≢ 0
      → Stage c t₀ t
      → Stage (suc c) t₀ t
  unfolding Level Kept Before
  Stage-skip c t₀ t h ne st =
      let (p, has) = (st.below (suc c) (omega arith) (omega arith)).1 ne in
      record {
        frame = st.frame;
        root = st.root;
        arrays = up_to (λ e. HasArray e t₀.next_entry t.array) c st.arrays has;
        past = below_suc (λ e. Past (suc e) t₀.next_entry (t.l (suc e))) c st.past (st.before.1 ne);
        before = past-Before (suc c) (omega arith) t₀.next_entry (t.l (suc (suc c))) ne p;
        below = λ e lt le. st.below e (omega arith) le;
        old = st.old;
        fresh = st.fresh;
      }

  -- A new array is written at the next entry.
  pub Stage-new :
      (c : ℕ) (t₀ t : Trie A V) (array : Edge V) (rem : Shortcut)
      → c ≤ 4
      → t₀.next_entry < 2 ^ 64
      → t₀.next_entry % span (suc c) ≡ 0
      → Stage c t₀ t
      → Past (suc c) t₀.next_entry rem
      → Stored (path (suc (suc c)) 0 t₀.next_entry) alloc_seg t.array array
      → Stage (suc c) t₀ record t {
        l = set (suc (suc c)) (new t₀.next_entry 1024) (set (suc c) rem t.l);
        array = array;
      }
  unfolding Level path get get_entry_at Fresh Outside lookup
  Stage-new c t₀ t array rem h hn e st past s =
      let n = t₀.next_entry in
      let here = new n 1024 in
      let l₁ = set (suc c) rem t.l in
      let other : (d : ℕ) → d ≢ suc c → d ≢ suc (suc c) → set (suc (suc c)) here l₁ d ≡ t.l d =
        λ d a b. set-ne (suc (suc c)) d here l₁ b ∙ set-ne (suc c) d rem t.l a in
      record {
        frame =
            ap (λ (z : Trie A V). record z { l = set (suc (suc c)) here l₁; array = array })
              st.frame;
        root = s.above [] (level_index_for_key n 0) (path (suc c) 1 n) refl;
        arrays =
            up_to (λ d. HasArray d n array) c
              (λ d le. arrays_above (suc c) n alloc_seg t.array array s d (omega (arith, le)))
              (ap is_array (
                subst (λ q. lookup q array ≡ some alloc_seg) (append-nil (path (suc (suc c)) 0 n))
                  (s.under [])));
        past =
            below_suc (λ d. Past (suc d) n (set (suc (suc c)) here l₁ (suc d))) c
              (λ d lt.
                subst (Past (suc d) n) (sym (other (suc d) (λ q. omega arith) (λ q. omega arith)))
                  (st.past d lt))
              (subst (Past (suc c) n)
                (sym (
                  set-ne (suc (suc c)) (suc c) here l₁ (λ q. omega arith)
                  ∙ set-eq (suc c) (suc c) rem t.l refl))
                past);
        before =
            subst (Before (suc (suc c)) n) (sym (set-eq (suc (suc c)) (suc (suc c)) here l₁ refl))
              (new-Before (suc c) (omega arith) n e);
        below = λ d lt le. (
          (λ q.
              ap (λ (z : Shortcut). z.left) (other (suc d) (λ u. omega arith) (λ u. omega arith))
              ∙ (st.below d (omega arith) le).0 q),
          (λ q. absurd (q (span_below (suc c) d n (omega arith) le e))),
        );
        old = λ k lt.
            entry_beside (suc c) n k (omega arith) hn (omega arith) s
              (before-Outside (suc c) (omega arith) k n lt e)
            ∙ st.old k lt;
        fresh = λ k le lt. elim (Bool-cases ((k / span (suc c)) == (n / span (suc c)))) [
          | inl q ↦
              ap packet_of (entry_under (suc c) n k (omega arith) hn lt s (ground (arith, q)))
              ∙ packet_of-alloc_seg (path (6 - suc c) (suc (suc c)) k)
          | inr q ↦
              ap packet_of
                (entry_beside (suc c) n k (omega arith) hn lt s (λ z. ground (arith, q, z)))
              ∙ st.fresh k le lt
        ];
      }
