-- ===== src/Server/Trie/Storage.antt =====
-- fuzzy_log_server/src/trie.rs, the appends that also take room for the value: `_append`, `reserve_space`, `partial_append`,
-- `AppendSlot`, and ordering_thread.rs, `horizon_or_add_blank`. The allocator is taken by its interface.
use delos_rust.Prelude.{
  ℕ, ◌+◌, ◌<◌, ◌^◌, ◌≡◌, refl, ap, sym, ◌∙◌, subst, Outcome, ok, ◌>>=◌, ◌>>◌, Returns, Returns->>=,
  assert, u64_max, ◌==◌, if◌then◌else◌,
}
use delos_rust.Server.Edge.{empty, val}
use delos_rust.Server.Trie.{Trie, get, get_entry_at, prep_append, prep_append_at, store_entry}
use delos_rust.Server.Trie.Start.{Valid}
use delos_rust.Server.Trie.Entry.{Appended, empty-reads}
use delos_rust.Server.Trie.Append.{prep_append_lem}

-- The allocator: `A` is its state, `E` a pointer to stored bytes.
pub record AllocOps (A E : Type 0) : Type 0 where
  -- `AllocPtr::reserve_space`: the pointer and its location
  pub reserve_space : ℕ → A → Outcome (E × ℕ × A)
  -- `AllocPtr::alloc_at`: the pointer to so many bytes at a location
  pub alloc_at : ℕ → ℕ → A → Outcome (E × A)

-- What the trie relies on: in a good state the allocator has room.
pub record HasSpace {A E : Type 0} (al : AllocOps A E) (Good : A → Type 0) : Type 0 where
  pub reserve :
      (size : ℕ) (a : A)
      → Good a
      → (e : E) × (loc : ℕ) × (a' : A) × (al.reserve_space size a ≡ ok (e, loc, a')) × Good a'

-- A slot in the trie, and the room for its value. The pointer to the slot is its key.
pub record AppendSlot (E : Type 0) : Type 0 where
  pub trie_entry : ℕ
  pub data_ptr : E
  pub data_size : ℕ
  pub storage_loc : ℕ

module _ {A E : Type 0} (al : AllocOps A E) where
  unfoldable pub reserve_space : ℕ → Trie A E → Outcome (E × ℕ × Trie A E)
  reserve_space size t = do
    (val_ptr, loc, a) ← al.reserve_space size t.alloc
    ok (val_ptr, loc, record t { alloc = a })

  unfoldable pub partial_append : ℕ → Trie A E → Outcome (AppendSlot E × Trie A E)
  partial_append size t = do
    (val_ptr, loc, t₁) ← reserve_space size t
    (index, slot, t₂) ← prep_append t₁ empty
    ok (record { trie_entry = slot; data_ptr = val_ptr; data_size = size; storage_loc = loc }, t₂)

  unfoldable pub reserve_space_at : ℕ → ℕ → Trie A E → Outcome (E × Trie A E)
  reserve_space_at storage_start size t = do
    (val_ptr, a) ← al.alloc_at storage_start size t.alloc
    ok (val_ptr, record t { alloc = a })

  unfoldable pub partial_append_at : ℕ → ℕ → ℕ → Trie A E → Outcome (AppendSlot E × Trie A E)
  partial_append_at key storage_start storage_size t = do
    (slot, t₁) ← prep_append_at t key
    (val_ptr, t₂) ← reserve_space_at storage_start storage_size t₁
    ok (
      record {
        trie_entry = slot;
        data_ptr = val_ptr;
        data_size = storage_size;
        storage_loc = storage_start;
      },
      t₂,
    )

  -- `Chain::write_data`
  unfoldable pub write_data : ℕ → ℕ → Trie A E → Outcome (AppendSlot E × Trie A E)
  write_data location size t =
      if t.next_entry == location
      then partial_append size t
      else partial_append_at location u64_max size t

module _ {A E : Type 0} where
  -- `finish_append` and `finish_append_with_contents` for contents of `storage_size` bytes: once the bytes are there,
  -- the trie's entry points at them.
  unfoldable pub finish_append : Trie A E → AppendSlot E → ℕ → Outcome (Trie A E)
  finish_append t slot storage_size = do
    assert (slot.data_size == storage_size)
    store_entry t slot.trie_entry (val slot.data_ptr)

  -- `write_byte`, for the one byte of the entry that a new chain begins with
  unfoldable pub write_byte : Trie A E → AppendSlot E → Outcome (Trie A E)
  write_byte t slot = do
    assert (slot.data_size == 1)
    assert (slot.storage_loc == 0)
    store_entry t slot.trie_entry (val slot.data_ptr)

module _ {A E : Type 0} (al : AllocOps A E) {Good : A → Type 0} (space : HasSpace al Good) where
  -- The states of a trie between operations
  abbrev pub IsGood : Trie A E → Type 0
  IsGood t = Valid t × Good t.alloc

  -- The next entry has a slot, of the size asked for, and reads as nothing yet.
  pub record Room (t : Trie A E) (size : ℕ) (r : AppendSlot E × Trie A E) : Type 0 where
    pub at_end : r.0.trie_entry ≡ t.next_entry
    pub sized : r.0.data_size ≡ size
    pub stored : al.reserve_space size t.alloc ≡ ok (r.0.data_ptr, r.0.storage_loc, r.1.alloc)
    pub longer : r.1.next_entry ≡ t.next_entry + 1
    pub frame : r.1 ≡ record t {
      next_entry = t.next_entry + 1;
      alloc = r.1.alloc;
      l = r.1.l;
      array = r.1.array;
    }
    pub same : (k : ℕ) → k < 2 ^ 64 → get r.1 k ≡ get t k
    pub good : IsGood r.1

  pub moved-Valid : (t : Trie A E) (a : A) → Valid t → Valid (record t { alloc = a })
  unfolding get get_entry_at
  moved-Valid t a v = record { root = v.root; level = v.level; here = v.here; fresh = v.fresh }

  -- On a good trie with fewer than `2 ^ 62` entries `partial_append` gives room for a value of the size, which the allocator stored, in the next entry: the log is
  -- one longer, with only the allocator, the shortcuts and the arrays changed besides, every index below `2 ^ 64` reads as before, and the
  -- state is good.
  pub partial_append_lem :
      (t : Trie A E) (size : ℕ)
      → IsGood t
      → t.next_entry < 2 ^ 62
      → Returns (Room t size) (partial_append al size t)
  unfolding partial_append reserve_space get get_entry_at
  partial_append_lem t size (v, g) h =
      let (e, loc, a, f, g') = space.reserve size t.alloc g in
      let t₁ = record t { alloc = a } in
      rw f (
        Returns->>=
          (λ (index, slot, t₂).
            (index ≡ t.next_entry) × (slot ≡ t.next_entry) × Appended t₁ empty t₂)
          (Room t size) (prep_append t₁ empty) _ (prep_append_lem t₁ empty h (moved-Valid t a v))
          (λ (index, slot, t₂) (i, s, done). record {
            at_end = s;
            sized = refl;
            stored = f ∙ ap (λ z. ok (e, loc, z)) (sym (ap (λ (z : Trie A E). z.alloc) done.frame));
            longer = ap (λ (z : Trie A E). z.next_entry) done.frame;
            frame =
                done.frame
                ∙ ap
                    (λ z. record t {
                      next_entry = t.next_entry + 1;
                      alloc = z;
                      l = t₂.l;
                      array = t₂.array;
                    })
                    (sym (ap (λ (z : Trie A E). z.alloc) done.frame));
            same = empty-reads t₁ t₂ h (moved-Valid t a v) done;
            good = (done.valid, subst Good (sym (ap (λ (z : Trie A E). z.alloc) done.frame)) g');
          }))
