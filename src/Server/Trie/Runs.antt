-- ===== src/Server/Trie/Runs.antt =====
-- fuzzy_log_server/src/trie.rs: a trie over many appends.
use delos_rust.Prelude.{
  ℕ, ◌+◌, ◌-◌, ◌<◌, ◌≤◌, ◌^◌, ◌≡◌, refl, ap, sym, ◌∙◌, subst, inl, inr, Bool-cases, ◌==◌, Option,
  none, some, List, [], ◌∷◌, arith, Outcome, ok, ◌>>=◌, Returns, Returns->>=, Returns-map,
  if◌then◌else◌, length,
}
use delos_rust.Server.Edge.{val}
use delos_rust.Server.Trie.{Trie, get, packet_of, prep_append}
use delos_rust.Server.Trie.Start.{Valid}
use delos_rust.Server.Trie.Entry.{Appended}
use delos_rust.Server.Trie.Append.{prep_append_lem}

-- The list's element at an index
abbrev pub get_elem? : {V : Type 0} → List V → ℕ → Option V
get_elem? [] i = none
get_elem? (v ∷ vs) i = if i == 0 then some v else get_elem? vs (i - 1)

module _ {A V : Type 0} where
  -- Values given to `prep_append` one after the other; what stores them is not part of it.
  unfoldable pub append_all : Trie A V → List V → Outcome (Trie A V)
  append_all t [] = ok t
  append_all t (v ∷ vs) = do (index, slot, t₁) ← prep_append t (val v); append_all t₁ vs

  -- The log `t'` is the log `t` with the values at its end.
  pub record Extended (t : Trie A V) (vs : List V) (t' : Trie A V) : Type 0 where
    pub longer : t'.next_entry ≡ t.next_entry + length vs
    pub before : (k : ℕ) → k < t.next_entry → get t' k ≡ get t k
    pub values : (i : ℕ) → t.next_entry + i < 2 ^ 64 → get t' (t.next_entry + i) ≡ get_elem? vs i
    pub valid : Valid t'

  extended_nil : (t : Trie A V) → Valid t → Extended t [] t
  extended_nil t v = record {
    longer = omega arith;
    before = λ k lt. refl;
    values = λ i lt. v.fresh (t.next_entry + i) (omega arith) lt;
    valid = v;
  }

  extended_cons :
      (t t₁ t' : Trie A V) (v : V) (vs : List V)
      → t.next_entry < 2 ^ 62
      → Appended t (val v) t₁
      → Extended t₁ vs t'
      → Extended t (v ∷ vs) t'
  unfolding get
  extended_cons t t₁ t' v vs h a x =
      let one_more : t₁.next_entry ≡ t.next_entry + 1 =
        ap (λ (z : Trie A V). z.next_entry) a.frame in
      record {
        longer = omega (arith, x.longer, one_more);
        before = λ k lt. x.before k (omega arith) ∙ a.others k (omega arith) (λ q. omega arith);
        values = λ i lt. elim (Bool-cases (i == 0)) [
          | inl e ↦
              let first : t.next_entry + i ≡ t.next_entry = ground (arith, e) in
              rw (e) (
                subst (λ k. get t' k ≡ some v) (sym first)
                  (x.before t.next_entry (omega arith) ∙ ap packet_of a.entry))
          | inr e ↦
              let next : t.next_entry + i ≡ t₁.next_entry + (i - 1) = ground (arith, e, one_more) in
              rw (e) (
                subst (λ k. get t' k ≡ get_elem? vs (i - 1)) (sym next)
                  (x.values (i - 1) (omega arith)))
        ];
        valid = x.valid;
      }

  -- Any number of appends to a valid trie, up to `2 ^ 62` entries, does not panic, and the log is then the old one with the values at its end in their order:
  -- the length is greater by their number, the entries before read as before, each index from the old length on reads as the
  -- element of the list there, or nothing past its end, and the trie is valid.
  pub append_all_lem :
      (vs : List V) (t : Trie A V)
      → Valid t
      → t.next_entry + length vs ≤ 2 ^ 62
      → Returns (Extended t vs) (append_all t vs)
  unfolding append_all
  append_all_lem [] t v h = extended_nil t v
  append_all_lem (x ∷ vs) t v h =
      Returns->>=
        (λ (index, slot, t₁).
          (index ≡ t.next_entry) × (slot ≡ t.next_entry) × Appended t (val x) t₁)
        (Extended t (x ∷ vs)) (prep_append t (val x)) _ (prep_append_lem t (val x) (omega arith) v)
        (λ (index, slot, t₁) (i, s, a).
          let one_more : t₁.next_entry ≡ t.next_entry + 1 =
            ap (λ (z : Trie A V). z.next_entry) a.frame in
          Returns-map {P = Extended t₁ vs} {Q = Extended t (x ∷ vs)} (append_all t₁ vs)
            (append_all_lem vs t₁ a.valid (omega arith))
            (λ t' e. extended_cons t t₁ t' x vs (omega arith) a e))
