-- ===== src/Server/Locks/Loop.antt =====
-- fuzzy_log_server/src/ordering_thread.rs, `handle_old_multiappend`: the loops 'emplace over all places, and the whole handler.
use delos_rust.Prelude.{
  ℕ, ◌≡◌, ◌≢◌, refl, ap, sym, ◌∙◌, Bool, true, false, not, List, [], ◌∷◌, Outcome, ok, Returns,
  Returns->>=, Returns-map, arith, ◌==◌, subst,
}
use delos_rust.Server.Trie.{Trie}
use delos_rust.Server.Trie.Storage.{AllocOps}
use delos_rust.Server.Chain.{Chain}
use delos_rust.Server.Locks.{
  Store, Role, role, mark, here, elsewhere, emplace_one, emplace, take_place, first_chain, on_trie,
}
use delos_rust.Server.Locks.View.{
  AllHere, AllHere-map, AllHere-both, trie_at, SameAt, Called, on_trie_lem,
}
use delos_rust.Server.Locks.Number.{IsMarked, place_of, numbered}
use delos_rust.Server.Locks.Emplace.{
  Placed, IsOpen, Slot, take_place_lem, role-again, IsDistinct, slots_of, slot_before,
}

role-mark : (this total : ℕ) → role this total true (0, 0) ≡ mark
unfolding role
role-mark this total = refl

module _ {A E S T : Type 0} (first : Chain (Trie A E) S E T) (this total : ℕ) (take_lock : Bool)
    (next : ℕ → ℕ) where
  -- This server's places may be taken, and `next` has their indices.
  abbrev pub Opened : List (ℕ × ℕ) → Store A E S T → Type 0
  Opened locs log =
      AllHere (role this total true)
        (λ c i.
          IsOpen take_lock (trie_at first log c) × (next c ≡ (trie_at first log c).next_entry))
        locs

  -- The places of this server are taken, its other chains are as before.
  abbrev pub Emplaced : List (ℕ × ℕ) → Store A E S T → List ℕ × Store A E S T → Type 0
  Emplaced locs log (slots, log') =
      ((d : ℕ) → AllHere (role this total true) (λ c i. c ≢ d) locs → SameAt first log log' d)
      × AllHere (role this total true)
          (λ c i. Placed take_lock (trie_at first log c) (trie_at first log' c)) locs
      × (slots ≡ slots_of this total next locs)

  -- A place of another server goes before the others.
  skipped :
      (c i : ℕ) (locs : List (ℕ × ℕ)) (log : Store A E S T) (ro : Role)
      → role this total true (c, i) ≡ ro
      → ro ≢ here
      → (r : List ℕ × Store A E S T) → Emplaced locs log r
      → Emplaced ((c, i) ∷ locs) log r
  skipped c i locs log here e ne r h = absurd (ne refl)
  skipped c i locs log mark e ne (slots, log') (same, placed, eq) = (
    (λ d a. same d a.1),
    ((λ z. absurd (ne (sym e ∙ z))), placed),
    (λ k. slot_before (sym e k) (next c) (eq k)),
  )
  skipped c i locs log elsewhere e ne (slots, log') (same, placed, eq) = (
    (λ d a. same d a.1),
    ((λ z. absurd (ne (sym e ∙ z))), placed),
    (λ k. slot_before (sym e k) (next c) (eq k)),
  )

  -- A place of this server, and then the others
  taken :
      (c i slot : ℕ) (locs : List (ℕ × ℕ)) (log log₁ : Store A E S T)
      → role this total true (c, i) ≡ here
      → AllHere (role this total true) (λ d j. d ≢ c) locs
      → next c ≡ (trie_at first log c).next_entry
      → Called first (Slot take_lock (trie_at first log c)) log c (slot, log₁)
      → (r : List ℕ × Store A E S T) → Emplaced locs log₁ r
      → Emplaced ((c, i) ∷ locs) log (slot ∷ r.0, r.1)
  taken c i slot locs log log₁ e apart is_next called (slots, log') (same, placed, eq) =
      let (at_c, skeens_c, others) = called in
      (
        (λ d a.
            let ne : d ≢ c = λ q. a.0 e (sym q) in
            let (t, k) = same d a.1 in (t ∙ (others d ne).0, k ∙ (others d ne).1)),
        (
          (λ z. subst (Placed take_lock (trie_at first log c)) (sym (same c apart).0) at_c.1),
          AllHere-map (role this total true)
              (λ d j. (d ≢ c) × Placed take_lock (trie_at first log₁ d) (trie_at first log' d))
              (λ d j. Placed take_lock (trie_at first log d) (trie_at first log' d)) locs
              (λ d j (ne, p).
                subst (λ t. Placed take_lock t (trie_at first log' d)) (others d ne).0 p)
              (AllHere-both (role this total true) _ _ locs apart placed),
        ),
        (λ k. slot_before (sym e k) ((at_c.0 ∙ sym is_next) k) (eq k)),
      )

  still_open :
      (c slot : ℕ) (locs : List (ℕ × ℕ)) (log log₁ : Store A E S T)
      → AllHere (role this total true) (λ d j. d ≢ c) locs
      → Called first (Slot take_lock (trie_at first log c)) log c (slot, log₁)
      → Opened locs log
      → Opened locs log₁
  still_open c slot locs log log₁ apart (at_c, skeens_c, others) opened =
      AllHere-map (role this total true)
        (λ d j.
          (d ≢ c)
          × (IsOpen take_lock (trie_at first log d) × (next d ≡ (trie_at first log d).next_entry)))
        (λ d j.
          IsOpen take_lock (trie_at first log₁ d) × (next d ≡ (trie_at first log₁ d).next_entry))
        locs
        (λ d j (ne, o).
          subst (λ t. IsOpen take_lock t × (next d ≡ t.next_entry)) (sym (others d ne).0) o)
        (AllHere-both (role this total true) _ _ locs apart opened)

  module _ (al : AllocOps A E) (alloc : A) (made : first_chain al alloc ≡ ok first) where
    Rest : List (ℕ × ℕ) → (Bool → Store A E S T → Outcome (List ℕ × Store A E S T)) → Type 0
    Rest locs rest =
        (seen : Bool) (log : Store A E S T)
        → Opened locs log
        → IsMarked this total seen locs
        → Returns (Emplaced locs log) (rest seen log)

    emplace_one_lem :
        (seen : Bool) (c i : ℕ) (locs : List (ℕ × ℕ)) (log : Store A E S T)
        (rest : Bool → Store A E S T → Outcome (List ℕ × Store A E S T))
        → Opened ((c, i) ∷ locs) log
        → IsMarked this total seen ((c, i) ∷ locs)
        → IsDistinct this total ((c, i) ∷ locs)
        → Rest locs rest
        → (ro : Role) → role this total true (c, i) ≡ ro
        → Returns
            (Emplaced ((c, i) ∷ locs) log)
            (emplace_one al alloc take_lock seen (place_of ro c (next c)) rest log ro)
    unfolding emplace_one Rest
    emplace_one_lem seen c i locs log rest o m d ih mark e =
        let (unseen, m') = m.0 e in
        Returns-map {P = Emplaced locs log} {Q = Emplaced ((c, i) ∷ locs) log} (rest true log)
          (ih true log o.1 m') (skipped c i locs log mark e (λ z. absurd (cc)))
    emplace_one_lem seen c i locs log rest o m d ih elsewhere e =
        let (some_chain, m') = m.1 (λ z. absurd (cc)) in
        Returns-map {P = Emplaced locs log} {Q = Emplaced ((c, i) ∷ locs) log} (rest seen log)
          (ih seen log o.1 m') (skipped c i locs log elsewhere e (λ z. absurd (cc)))
    emplace_one_lem seen c i locs log rest o m d ih here e =
        let (some_chain, m') = m.1 (λ z. absurd (cc)) in
        let (opened, is_next) = o.0 e in
        let numbered_ : (next c == 0) ≡ false = ground (arith, is_next, opened.0.nonempty) in
        let apart = d.0 e in
        rw (numbered_) (
          Returns->>= (Called first (Slot take_lock (trie_at first log c)) log c)
            (Emplaced ((c, i) ∷ locs) log) (on_trie al alloc log c (take_place take_lock)) _
            (on_trie_lem first al alloc made (Slot take_lock (trie_at first log c)) log c
              (take_place take_lock) (take_place_lem take_lock (trie_at first log c) opened))
            (λ (slot, log₁) called.
              Returns->>= (Emplaced locs log₁) (Emplaced ((c, i) ∷ locs) log) (rest seen log₁) _
                (ih seen log₁ (still_open c slot locs log log₁ apart called o.1) m')
                (λ r h. taken c i slot locs log log₁ e apart is_next called r h)))

    again_lem :
        (seen : Bool) (c i : ℕ) (locs : List (ℕ × ℕ))
        → IsMarked this total seen ((c, i) ∷ locs)
        → (ro : Role) → role this total true (c, i) ≡ ro
        → role this total (not seen) (place_of ro c (next c)) ≡ ro
    again_lem seen c i locs m mark e =
        ap (λ b. role this total (not b) (0, 0)) (m.0 e).0 ∙ role-mark this total
    again_lem seen c i locs m here e =
        role-again this total here c i (not seen) (next c) e (λ z. absurd (cc))
          (m.1 (λ z. absurd (cc))).0
    again_lem seen c i locs m elsewhere e =
        role-again this total elsewhere c i (not seen) 0 e (λ z. absurd (cc))
          (m.1 (λ z. absurd (cc))).0

    pub emplace_lem :
        (seen : Bool) (locs : List (ℕ × ℕ)) (log : Store A E S T)
        → Opened locs log
        → IsMarked this total seen locs
        → IsDistinct this total locs
        → Returns
            (Emplaced locs log)
            (emplace al alloc this total take_lock seen (numbered this total next locs) log)
    unfolding emplace Rest
    emplace_lem seen [] log o m d = ((λ c a. (refl, refl)), tt, refl)
    emplace_lem seen ((c, i) ∷ locs) log o m d =
        let ro = role this total true (c, i) in
        subst
          (λ w. Returns (Emplaced ((c, i) ∷ locs) log) (
            emplace_one al alloc take_lock seen (place_of ro c (next c))
              (λ seen log.
                emplace al alloc this total take_lock seen (numbered this total next locs) log)
              log w))
          (sym (again_lem seen c i locs m ro refl))
          (emplace_one_lem seen c i locs log
            (λ seen log.
              emplace al alloc this total take_lock seen (numbered this total next locs) log)
            o m d (λ seen log o m. emplace_lem seen locs log o m d.1) ro refl)
