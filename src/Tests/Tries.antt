-- ===== src/Tests/Tries.antt =====
-- fuzzy_log_server/src/trie.rs at concrete inputs.
use delos_rust.Prelude.{
  ℕ, ◌+◌, ◌<◌, ◌^◌, ◌≡◌, ◌≢◌, refl, some, [], ◌∷◌, arith, ok, ◌>>=◌, Returns, Returns-value, max,
}
use delos_rust.Server.Edge.{val}
use delos_rust.Server.Trie.{Trie, new_trie, get, prep_append, prep_append_at, store_entry}
use delos_rust.Server.Trie.Entry.{Appended}
use delos_rust.Server.Trie.Append.{prep_append_lem}
use delos_rust.Server.Trie.Slots.{Written, new_trie-Valid, store_entry_lem}
use delos_rust.Server.Trie.Insert.{Fits, prep_append_at_lem}
use delos_rust.Server.Trie.Storage.{
  AllocOps, HasSpace, IsGood, Room, partial_append, partial_append_lem,
}
use delos_rust.Server.Trie.Runs.{Extended, append_all, append_all_lem}
use delos_rust.Server.Trie.Stale.{prep_append-stale}
use delos_rust.Server.Chain.{IsLawful}
use delos_rust.Server.Chain.Log.{log_ops, log_ops-IsLawful}

-- An allocator that gives the next location, as a pointer too.
abbrev bump : AllocOps ℕ ℕ
bump = record {
  reserve_space = λ size a. ok (a, a, a + size);
  alloc_at = λ start size a. ok (start, a);
}

abbrev Any : ℕ → Type 0
Any a = Unit {0}

bump-HasSpace : HasSpace bump Any
bump-HasSpace = record { reserve = λ size a g. (a, a, a + size, refl, tt) }

abbrev no_entries : Trie ℕ ℕ
no_entries = new_trie 0

log_ops-IsLawful_example : IsLawful (log_ops bump (λ c. 40)) (IsGood bump bump-HasSpace) (2 ^ 62)
log_ops-IsLawful_example = log_ops-IsLawful bump bump-HasSpace (λ c. 40)

append_all_lem_example :
    Returns (Extended no_entries (7 ∷ 8 ∷ 9 ∷ [])) (append_all no_entries (7 ∷ 8 ∷ 9 ∷ []))
unfolding new_trie
append_all_lem_example = append_all_lem (7 ∷ 8 ∷ 9 ∷ []) no_entries (new_trie-Valid 0) (omega arith)

prep_append_lem_example :
    Returns
      (λ (index, slot, t').
        (index ≡ no_entries.next_entry)
        × (slot ≡ no_entries.next_entry)
        × Appended no_entries (val 7) t')
      (prep_append no_entries (val 7))
unfolding new_trie
prep_append_lem_example = prep_append_lem no_entries (val 7) (omega arith) (new_trie-Valid 0)

partial_append_lem_example :
    Returns (Room bump bump-HasSpace no_entries 16) (partial_append bump 16 no_entries)
unfolding new_trie
partial_append_lem_example =
    partial_append_lem bump bump-HasSpace no_entries 16 (new_trie-Valid 0, tt) (omega arith)

prep_append_at_lem_example :
    Returns
      (λ t'.
        (get t' 5 ≡ some 7)
        × ((k : ℕ) → k < 2 ^ 64 → k ≢ 5 → get t' k ≡ get no_entries k)
        × (t'.next_entry ≡ max no_entries.next_entry (5 + 1)))
      (prep_append_at no_entries 5 >>= λ (slot, t₁). store_entry t₁ slot (val 7))
unfolding new_trie Fits
prep_append_at_lem_example = prep_append_at_lem no_entries 5 7 (omega arith) (λ i. tt)

-- Two entries, then one at index 5
two_entries :
    (t : Trie ℕ ℕ) × (append_all no_entries (7 ∷ 8 ∷ []) ≡ ok t)
    × Extended no_entries (7 ∷ 8 ∷ []) t
unfolding new_trie
two_entries =
    Returns-value {P = Extended no_entries (7 ∷ 8 ∷ [])} (append_all no_entries (7 ∷ 8 ∷ []))
      (append_all_lem (7 ∷ 8 ∷ []) no_entries (new_trie-Valid 0) (omega arith))

two_long : two_entries.0.next_entry ≡ 2
unfolding new_trie
two_long = two_entries.2.longer

prep_append-stale_example :
    Returns
      (λ (index, slot, t').
        (index ≡ two_entries.0.next_entry + 3 + 1) × (slot ≡ two_entries.0.next_entry))
      (prep_append_at two_entries.0 (two_entries.0.next_entry + 3) >>= λ (at, t₁).
        prep_append t₁ (val 9))
prep_append-stale_example =
    prep_append-stale two_entries.0 3 (val 9) two_entries.2.valid (omega (arith, two_long))
      (omega (arith, two_long)) (omega (arith, two_long))

store_entry_lem_example :
    Returns (Written two_entries.0 1 (val 9)) (store_entry two_entries.0 1 (val 9))
store_entry_lem_example =
    store_entry_lem two_entries.0 1 (val 9) (omega (arith, two_long)) (omega (arith, two_long))
      two_entries.2.valid
