-- ===== src/Server/Chain/Log.antt =====
-- fuzzy_log_server/src/ordering_thread.rs and trie.rs: a chain over the trie, whose operations are as the chain wants them.
use delos_rust.Prelude.{
  ℕ, ◌+◌, ◌<◌, ◌^◌, ◌≡◌, refl, ap, sym, ◌∙◌, subst, arith, Outcome, ok, ◌>>=◌, Returns-value, true,
  ◌==◌,
}
use delos_rust.Server.Edge.{empty, val}
use delos_rust.Server.Trie.{Trie, prep_append, store_entry}
use delos_rust.Server.Trie.Entry.{Appended}
use delos_rust.Server.Trie.Append.{prep_append_lem}
use delos_rust.Server.Trie.Slots.{Written, store_entry_lem}
use delos_rust.Server.Trie.Storage.{
  AllocOps, HasSpace, AppendSlot, reserve_space, partial_append, finish_append, IsGood, Room,
  partial_append_lem, moved-Valid,
}
use delos_rust.Server.Chain.{TrieOps, IsLawful}

module _ {A E : Type 0} (al : AllocOps A E) where
  -- The blank entry of a colour, of `size` bytes, in the next place
  unfoldable pub add_blank : ℕ → Trie A E → Outcome (Trie A E)
  add_blank size t = do (slot, t') ← partial_append al size t; finish_append t' slot size

  -- The trie as a chain uses it; `blank_len` is the length of a colour's blank entry.
  abbrev pub log_ops : (ℕ → ℕ) → TrieOps (Trie A E) ℕ (AppendSlot E) E
  log_ops blank_len = record {
    len = λ t. t.next_entry;
    reserve_space = reserve_space al;
    partial_append = partial_append al;
    prep_append = λ t. prep_append t empty;
    add_blank = λ colour. add_blank (blank_len colour);
  }

module _ {A E : Type 0} (al : AllocOps A E) {Good : A → Type 0} (space : HasSpace al Good) where
  reserves :
      (size : ℕ) (t : Trie A E)
      → IsGood al space t
      → (e : E) × (loc : ℕ) × (t' : Trie A E) × (reserve_space al size t ≡ ok (e, loc, t'))
        × (t'.next_entry ≡ t.next_entry)
        × IsGood al space t'
  unfolding reserve_space
  reserves size t (v, g) =
      let (e, loc, a, f, g') = space.reserve size t.alloc g in
      (e, loc, record t { alloc = a }, rw f refl, refl, (moved-Valid al space t a v, g'))

  room :
      (size : ℕ) (t : Trie A E)
      → IsGood al space t
      → t.next_entry < 2 ^ 62
      → (r : AppendSlot E) × (t' : Trie A E) × (partial_append al size t ≡ ok (r, t'))
        × (t'.next_entry ≡ t.next_entry + 1)
        × IsGood al space t'
  room size t good h =
      let ((r, t'), f, done) =
        Returns-value {P = Room al space t size} (partial_append al size t)
          (partial_append_lem al space t size good h) in
      (r, t', f, done.longer, done.good)

  appends :
      (t : Trie A E)
      → IsGood al space t
      → t.next_entry < 2 ^ 62
      → (p : ℕ) × (t' : Trie A E) × (prep_append t empty ≡ ok (t.next_entry, p, t'))
        × (t'.next_entry ≡ t.next_entry + 1)
        × IsGood al space t'
  appends t (v, g) h =
      let ((index, slot, t'), f, (i, s, done)) =
        Returns-value
          {P = λ (index, slot, t').
            (index ≡ t.next_entry) × (slot ≡ t.next_entry) × Appended t empty t'}
          (prep_append t empty) (prep_append_lem t empty h v) in
      (
        slot,
        t',
        subst (λ z. prep_append t empty ≡ ok (z, slot, t')) i f,
        ap (λ (z : Trie A E). z.next_entry) done.frame,
        (done.valid, subst Good (sym (ap (λ (z : Trie A E). z.alloc) done.frame)) g),
      )

  blanks :
      (size : ℕ) (t : Trie A E)
      → IsGood al space t
      → t.next_entry < 2 ^ 62
      → (t' : Trie A E) × (add_blank al size t ≡ ok t')
        × (t'.next_entry ≡ t.next_entry + 1)
        × IsGood al space t'
  unfolding add_blank finish_append
  blanks size t good h =
      let ((r, t₁), f, done) =
        Returns-value {P = Room al space t size} (partial_append al size t)
          (partial_append_lem al space t size good h) in
      let (t', e, w) =
        Returns-value {P = Written t₁ r.trie_entry (val r.data_ptr)}
          (store_entry t₁ r.trie_entry (val r.data_ptr))
          (store_entry_lem t₁ r.trie_entry (val r.data_ptr) (omega (arith, done.longer))
            (omega (arith, done.longer, done.at_end)) (done.good.0)) in
      let fits : (r.data_size == size) ≡ true = ground (arith, done.sized) in
      (
        t',
        rw (f, fits) e,
        ap (λ (z : Trie A E). z.next_entry) w.frame ∙ done.longer,
        (w.valid, subst Good (sym (ap (λ (z : Trie A E). z.alloc) w.frame)) done.good.1),
      )

  -- Over an allocator with space, the trie does up to `2 ^ 62` entries what the chain relies on: `reserve_space`, `partial_append`, `prep_append` and the append of a
  -- blank entry return, in a good state, and each of the last three adds exactly one entry, `prep_append` at the index that was the length.
  pub log_ops-IsLawful :
      (blank_len : ℕ → ℕ) → IsLawful (log_ops al blank_len) (IsGood al space) (2 ^ 62)
  log_ops-IsLawful blank_len = record {
    reserve = reserves;
    partial = room;
    append = appends;
    blank = λ colour. blanks (blank_len colour);
  }
