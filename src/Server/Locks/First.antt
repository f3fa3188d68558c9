-- ===== src/Server/Locks/First.antt =====
-- fuzzy_log_server/src/ordering_thread.rs, `ensure_chain`: the chain that is made where there is none.
use delos_rust.Prelude.{
  ℕ, ◌≡◌, refl, ap, sym, ◌∙◌, subst, inl, true, some, arith, ok, Returns-value, ◌==◌,
}
use delos_rust.Server.Edge.{val}
use delos_rust.Server.Trie.{Trie, new_trie, get, get_entry_at, packet_of, store_entry}
use delos_rust.Server.Trie.Slots.{Written, new_trie-Valid, store_entry_lem}
use delos_rust.Server.Trie.Storage.{
  AllocOps, HasSpace, partial_append, write_byte, Room, partial_append_lem,
}
use delos_rust.Server.Chain.{Chain}
use delos_rust.Server.Skeens
use delos_rust.Server.Locks.{first_chain}
use delos_rust.Server.Locks.Number.{IsReady}

-- The first place that a new allocator gives is at location 0.
abbrev pub StartsAtZero : {A E : Type 0} → AllocOps A E → A → Type 0
StartsAtZero {A} {E} al alloc =
    (e : E) (loc : ℕ) (a : A) → al.reserve_space 1 alloc ≡ ok (e, loc, a) → loc ≡ 0

module _ {A E S T : Type 0} (al : AllocOps A E) {Good : A → Type 0} (space : HasSpace al Good)
    (alloc : A) where
  -- A chain with one entry, that may be used
  pub record IsFirst (c : Chain (Trie A E) S E T) : Type 0 where
    pub skeens : c.skeens ≡ Skeens.new
    pub one : c.trie.next_entry ≡ 1
    pub byte : (e : E) × (get c.trie 0 ≡ some e)
    pub ready : IsReady c.trie
    pub good : Good c.trie.alloc

  -- A new chain is made, over an allocator that starts at location 0: it has one entry, at index 0, no lock is held, and it is as every
  -- chain between operations.
  pub first_chain_lem :
      Good alloc
      → StartsAtZero al alloc
      → (c : Chain (Trie A E) S E T) × (first_chain al alloc ≡ ok c) × IsFirst c
  unfolding first_chain write_byte get get_entry_at new_trie
  first_chain_lem g zero_first =
      let t₀ = new_trie alloc in
      let ((r, t), f, done) =
        Returns-value {P = Room al space t₀ 1} (partial_append al 1 t₀)
          (partial_append_lem al space t₀ 1 (new_trie-Valid alloc, g) (omega arith)) in
      let (t', e, w) =
        Returns-value {P = Written t r.trie_entry (val r.data_ptr)}
          (store_entry t r.trie_entry (val r.data_ptr))
          (store_entry_lem t r.trie_entry (val r.data_ptr) (omega (arith, done.longer))
            (omega (arith, done.longer, done.at_end)) (done.good.0)) in
      let at_zero = zero_first r.data_ptr r.storage_loc t.alloc done.stored in
      let sized : (r.data_size == 1) ≡ true = ground (arith, done.sized) in
      let located : (r.storage_loc == 0) ≡ true = ground (arith, at_zero) in
      let frame : t' ≡ record t { array = t'.array } = w.frame in
      let lock : t'.last_lock ≡ 0 =
        ap (λ (z : Trie A E). z.last_lock) frame ∙ ap (λ (z : Trie A E). z.last_lock) done.frame in
      let unlock : t'.last_unlock ≡ 0 =
        ap (λ (z : Trie A E). z.last_unlock) frame
        ∙ ap (λ (z : Trie A E). z.last_unlock) done.frame in
      let one : t'.next_entry ≡ 1 = ap (λ (z : Trie A E). z.next_entry) frame ∙ done.longer in
      (
        record { trie = t'; skeens = Skeens.new },
        rw (f, sized, located, e) refl,
        record {
          skeens = refl;
          one = one;
          byte = (
            r.data_ptr,
            ap packet_of
                (subst (λ k. get_entry_at t' k ≡ some (val r.data_ptr)) done.at_end w.entry),
          );
          ready = record {
            lock = inl (lock ∙ sym unlock);
            unlocks = omega (arith, unlock);
            nonempty = omega (arith, one);
            room = omega (arith, one);
            valid = w.valid;
          };
          good = subst Good (sym (ap (λ (z : Trie A E). z.alloc) frame)) done.good.1;
        },
      )
