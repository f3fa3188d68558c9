-- ===== src/Server/Locks/Emplace.antt =====
-- fuzzy_log_server/src/ordering_thread.rs, `handle_old_multiappend`: the loops that take the locks and the places.
use delos_rust.Prelude.{
  ℕ, ◌+◌, ◌<◌, ◌^◌, ◌≡◌, ◌≢◌, refl, ap, Bool, true, false, List, [], ◌∷◌, ok, Returns, Returns->>=,
  arith,
}
use delos_rust.Server.Edge.{empty}
use delos_rust.Server.Trie.{Trie, get, get_entry_at, increment_lock, prep_append}
use delos_rust.Server.Trie.Start.{Valid}
use delos_rust.Server.Trie.Entry.{Appended, empty-reads}
use delos_rust.Server.Trie.Append.{prep_append_lem}
use delos_rust.Server.Locks.{Role, role, mark, here, elsewhere, take_place}
use delos_rust.Server.Locks.View.{AllHere}
use delos_rust.Server.Locks.Number.{IsReady}

module _ {A E : Type 0} where
  -- The log is one entry longer, the entry is empty, and the lock is taken if one was asked for.
  pub record Placed (take_lock : Bool) (t t' : Trie A E) : Type 0 where
    pub longer : t'.next_entry ≡ t.next_entry + 1
    pub locked : take_lock ≡ true → t'.last_lock ≡ t.last_lock + 1
    pub kept : take_lock ≡ false → t'.last_lock ≡ t.last_lock
    pub unlocked : t'.last_unlock ≡ t.last_unlock
    pub reads : (k : ℕ) → k < 2 ^ 64 → get t' k ≡ get t k

  -- The trie may be locked and appended to.
  abbrev pub IsOpen : Bool → Trie A E → Type 0
  IsOpen take_lock t = IsReady t × (take_lock ≡ true → t.last_lock ≡ t.last_unlock)

  abbrev pub Slot : Bool → Trie A E → ℕ → Trie A E → Type 0
  Slot take_lock t slot t' = (slot ≡ t.next_entry) × Placed take_lock t t'

  locked-Valid : (t : Trie A E) (n : ℕ) → Valid t → Valid (record t { last_lock = n })
  unfolding get get_entry_at
  locked-Valid t n v = record { root = v.root; level = v.level; here = v.here; fresh = v.fresh }

  pub take_place_lem :
      (take_lock : Bool) (t : Trie A E)
      → IsOpen take_lock t
      → Returns (λ (slot, t'). Slot take_lock t slot t') (take_place take_lock t)
  unfolding take_place increment_lock get get_entry_at
  take_place_lem true t (r, free) =
      let t₁ = record t { last_lock = t.last_lock + 1 } in
      let taken : increment_lock t ≡ ok t₁ = ground (arith, free refl, r.unlocks) in
      let v = locked-Valid t (t.last_lock + 1) r.valid in
      rw (taken) (
        Returns->>=
          (λ (index, slot, t₂).
            (index ≡ t.next_entry) × (slot ≡ t.next_entry) × Appended t₁ empty t₂)
          _ (prep_append t₁ empty) _ (prep_append_lem t₁ empty r.room v)
          (λ (index, slot, t₂) (i, s, a). (
            s,
            record {
              longer = ap (λ (z : Trie A E). z.next_entry) a.frame;
              locked = λ q. ap (λ (z : Trie A E). z.last_lock) a.frame;
              kept = λ q. absurd (cc);
              unlocked = ap (λ (z : Trie A E). z.last_unlock) a.frame;
              reads = empty-reads t₁ t₂ r.room v a;
            },
          )))
  take_place_lem false t (r, free) =
      Returns->>=
        (λ (index, slot, t₂). (index ≡ t.next_entry) × (slot ≡ t.next_entry) × Appended t empty t₂)
        _ (prep_append t empty) _ (prep_append_lem t empty r.room r.valid)
        (λ (index, slot, t₂) (i, s, a). (
          s,
          record {
            longer = ap (λ (z : Trie A E). z.next_entry) a.frame;
            locked = λ q. absurd (cc);
            kept = λ q. ap (λ (z : Trie A E). z.last_lock) a.frame;
            unlocked = ap (λ (z : Trie A E). z.last_unlock) a.frame;
            reads = empty-reads t t₂ r.room r.valid a;
          },
        ))

abbrev pub slot_before : Role → ℕ → List ℕ → List ℕ
slot_before here n slots = n ∷ slots
slot_before _ n slots = slots

module _ (this total : ℕ) where
  -- A place keeps its part, with the index that was handed out.
  pub role-again :
      (ro : Role) (c i : ℕ) (tests : Bool) (n : ℕ)
      → role this total true (c, i) ≡ ro
      → ro ≢ mark
      → c ≢ 0
      → role this total tests (c, n) ≡ ro
  unfolding role
  role-again mark c i tests n e ne nz = absurd (ne refl)
  role-again here c i true n e ne nz = ground (arith, e, nz)
  role-again here c i false n e ne nz = ground (arith, e, nz)
  role-again elsewhere c i true n e ne nz = ground (arith, e, nz)
  role-again elsewhere c i false n e ne nz = ground (arith, e, nz)

  -- No two places of this server name one chain.
  abbrev pub IsDistinct : List (ℕ × ℕ) → Type 0
  IsDistinct [] = Unit {0}
  IsDistinct ((c, i) ∷ locs) =
      (role this total true (c, i) ≡ here → AllHere (role this total true) (λ d j. d ≢ c) locs)
      × IsDistinct locs

  -- The slots of this server's places, in their order
  abbrev pub slots_of : (ℕ → ℕ) → List (ℕ × ℕ) → List ℕ
  slots_of next [] = []
  slots_of next ((c, i) ∷ locs) =
      slot_before (role this total true (c, i)) (next c) (slots_of next locs)
