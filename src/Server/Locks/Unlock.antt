-- ===== src/Server/Locks/Unlock.antt =====
-- fuzzy_log_server/src/ordering_thread.rs, `handle_old_multiappend`: the loop that gives locks back.
use delos_rust.Prelude.{
  ℕ, ◌≡◌, ◌≢◌, refl, ap, sym, ◌∙◌, inl, inr, Bool, true, false, ◌&&◌, List, [], ◌∷◌, Outcome, ok,
  Returns, Returns->>=, Returns-map, arith, subst, Bool-cases,
}
use delos_rust.Server.Trie.{Trie, unlock}
use delos_rust.Server.Trie.Storage.{AllocOps}
use delos_rust.Server.Chain.{Chain}
use delos_rust.Server.Locks.{
  Store, Role, role, mark, here, elsewhere, unlock_one, unlock_all, first_chain, on_trie,
}
use delos_rust.Server.Locks.View.{
  AllHere, AllHere-map, AllHere-both, SomeHere, SomeHere-map, SomeHere-both, trie_at, SameAt,
  Called, on_trie_lem,
}
use delos_rust.Server.Locks.Number.{IsReady}
use delos_rust.Server.Locks.Emplace.{IsDistinct}

module _ {A E : Type 0} where
  -- The lock is given back if the number is that of the last one taken; otherwise nothing changes.
  abbrev pub Released : Trie A E → ℕ → Trie A E → Type 0
  Released t n t' =
      (n ≡ t.last_lock → t' ≡ record t { last_unlock = n }) × (n ≢ t.last_lock → t' ≡ t)

  Given : Trie A E → ℕ → Bool → Trie A E → Type 0
  Given t n b t' = Released t n t' × (b ≡ true → n ≡ t.last_lock) × (b ≡ false → n ≢ t.last_lock)

  unlock_lem : (t : Trie A E) (n : ℕ) → IsReady t → Returns (λ (b, t'). Given t n b t') (unlock t n)
  unfolding unlock Given
  unlock_lem t n r = ground (arith, r.lock)

both_true : (a b : Bool) → (a && b) ≡ true → (a ≡ true) × (b ≡ true)
both_true true b e = (refl, e)
both_true false b e = absurd (cc)

one_false : (a b : Bool) → a ≡ true → (a && b) ≡ false → b ≡ false
one_false true b e f = f
one_false false b e f = absurd (cc)

module _ {A E S T : Type 0} (first : Chain (Trie A E) S E T) (this total : ℕ) where
  -- This server's places are given back where their numbers are right, which the answer says of all of them. The other chains are as before.
  abbrev pub AllReleased : List (ℕ × ℕ) → Store A E S T → Bool × Store A E S T → Type 0
  AllReleased locs log (b, log') =
      ((d : ℕ) → AllHere (role this total true) (λ c i. c ≢ d) locs → SameAt first log log' d)
      × AllHere (role this total true)
          (λ c i. Released (trie_at first log c) i (trie_at first log' c)) locs
      × (b ≡ true
          → AllHere (role this total true) (λ c i. i ≡ (trie_at first log c).last_lock) locs)
      × (b ≡ false
          → SomeHere (role this total true) (λ c i. i ≢ (trie_at first log c).last_lock) locs)

  passed :
      (c i : ℕ) (locs : List (ℕ × ℕ)) (log : Store A E S T) (ro : Role)
      → role this total true (c, i) ≡ ro
      → ro ≢ here
      → (r : Bool × Store A E S T) → AllReleased locs log r
      → AllReleased ((c, i) ∷ locs) log r
  passed c i locs log ro e ne (b, log') (same, released, all, some_other) = (
    (λ d a. same d a.1),
    ((λ z. absurd (ne (sym e ∙ z))), released),
    (λ q. ((λ z. absurd (ne (sym e ∙ z))), all q)),
    (λ q. inr (some_other q)),
  )

  Given-all :
      (c i : ℕ) (locs : List (ℕ × ℕ)) (log log₁ log' : Store A E S T) (unlocked b : Bool)
      → role this total true (c, i) ≡ here
      → AllHere (role this total true) (λ d j. d ≢ c) locs
      → Called first (Given (trie_at first log c) i) log c (unlocked, log₁)
      → AllReleased locs log₁ (b, log')
      → AllReleased ((c, i) ∷ locs) log (unlocked && b, log')
  unfolding Given
  Given-all c i locs log log₁ log' unlocked b e apart called (same, released, all, some_other) =
      let (given, skeens_c, others) = called in
      let back : (d : ℕ) → d ≢ c → trie_at first log₁ d ≡ trie_at first log d =
        λ d ne. (others d ne).0 in
      (
        (λ d a.
            let ne : d ≢ c = λ q. a.0 e (sym q) in
            let (t, k) = same d a.1 in (t ∙ back d ne, k ∙ (others d ne).1)),
        (
          (λ z. subst (Released (trie_at first log c) i) (sym (same c apart).0) given.0),
          AllHere-map (role this total true)
              (λ d j. (d ≢ c) × Released (trie_at first log₁ d) j (trie_at first log' d)) _ locs
              (λ d j (ne, p). subst (λ t. Released t j (trie_at first log' d)) (back d ne) p)
              (AllHere-both (role this total true) _ _ locs apart released),
        ),
        (λ q.
            let (mine, theirs) = both_true unlocked b q in
            (
              (λ z. given.1 mine),
              AllHere-map (role this total true)
                  (λ d j. (d ≢ c) × (j ≡ (trie_at first log₁ d).last_lock)) _ locs
                  (λ d j (ne, p). p ∙ ap (λ (t : Trie A E). t.last_lock) (back d ne))
                  (AllHere-both (role this total true) _ _ locs apart (all theirs)),
            )),
        (λ q. elim (Bool-cases unlocked) [
          | inr no_ ↦ inl (e, given.2 no_)
          | inl yes_ ↦ inr (
              SomeHere-map (role this total true)
                (λ d j. (d ≢ c) × (j ≢ (trie_at first log₁ d).last_lock)) _ locs
                (λ d j (ne, p) z. p (z ∙ sym (ap (λ (t : Trie A E). t.last_lock) (back d ne))))
                (SomeHere-both (role this total true) _ _ locs apart
                  (some_other (one_false unlocked b yes_ q))))
        ]),
      )

  module _ (al : AllocOps A E) (alloc : A) (made : first_chain al alloc ≡ ok first) where
    -- The chains of the places may be used.
    abbrev pub ReadyAt : List (ℕ × ℕ) → Store A E S T → Type 0
    ReadyAt locs log = AllHere (role this total true) (λ c i. IsReady (trie_at first log c)) locs

    unlock_one_lem :
        (c i : ℕ) (locs : List (ℕ × ℕ)) (log : Store A E S T)
        (rest : Store A E S T → Outcome (Bool × Store A E S T))
        → ReadyAt ((c, i) ∷ locs) log
        → IsDistinct this total ((c, i) ∷ locs)
        → ((log : Store A E S T) → ReadyAt locs log → Returns (AllReleased locs log) (rest log))
        → (ro : Role) → role this total true (c, i) ≡ ro
        → Returns (AllReleased ((c, i) ∷ locs) log) (unlock_one al alloc (c, i) rest log ro)
    unfolding unlock_one
    unlock_one_lem c i locs log rest r d ih mark e =
        Returns-map {P = AllReleased locs log} {Q = AllReleased ((c, i) ∷ locs) log} (rest log)
          (ih log r.1) (passed c i locs log mark e (λ z. absurd (cc)))
    unlock_one_lem c i locs log rest r d ih elsewhere e =
        Returns-map {P = AllReleased locs log} {Q = AllReleased ((c, i) ∷ locs) log} (rest log)
          (ih log r.1) (passed c i locs log elsewhere e (λ z. absurd (cc)))
    unlock_one_lem c i locs log rest r d ih here e =
        Returns->>= (Called first (Given (trie_at first log c) i) log c)
          (AllReleased ((c, i) ∷ locs) log) (on_trie al alloc log c (λ t. unlock t i)) _
          (on_trie_lem first al alloc made (Given (trie_at first log c) i) log c (λ t. unlock t i)
            (unlock_lem (trie_at first log c) i (r.0 e)))
          (λ (unlocked, log₁) called.
            let still : ReadyAt locs log₁ =
              AllHere-map (role this total true) (λ d j. (d ≢ c) × IsReady (trie_at first log d)) _
                locs (λ d j (ne, p). subst IsReady (sym (called.2 d ne).0) p)
                (AllHere-both (role this total true) _ _ locs (d.0 e) r.1) in
            Returns->>= (AllReleased locs log₁) (AllReleased ((c, i) ∷ locs) log) (rest log₁) _
              (ih log₁ still)
              (λ (b, log') h. Given-all c i locs log log₁ log' unlocked b e (d.0 e) called h))

    pub unlock_all_lem :
        (locs : List (ℕ × ℕ)) (log : Store A E S T)
        → ReadyAt locs log
        → IsDistinct this total locs
        → Returns (AllReleased locs log) (unlock_all al alloc this total locs log)
    unfolding unlock_all
    unlock_all_lem [] log r d = ((λ c a. (refl, refl)), tt, (λ q. tt), (λ q. absurd (cc)))
    unlock_all_lem ((c, i) ∷ locs) log r d =
        unlock_one_lem c i locs log (λ log. unlock_all al alloc this total locs log) r d
          (λ log r. unlock_all_lem locs log r d.1) (role this total true (c, i)) refl
