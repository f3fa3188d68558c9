-- ===== src/Server/Locks/Number.antt =====
-- fuzzy_log_server/src/ordering_thread.rs, `handle_old_multiappend`: the loops that look at the locks and number the places.
use delos_rust.Prelude.{
  ℕ, ◌+◌, ◌<◌, ◌^◌, ◌≡◌, ◌≢◌, ◌⊎◌, refl, sym, ◌∙◌, inl, inr, Bool, true, false, Option, none, some,
  List, [], ◌∷◌, Outcome, ok, Returns, Returns->>=, arith, u64_max, Bool-cases, ◌==◌, subst,
}
use delos_rust.Server.Trie.{Trie, cannot_lock}
use delos_rust.Server.Trie.Start.{Valid}
use delos_rust.Server.Trie.Lock.{IsLock}
use delos_rust.Server.Trie.Storage.{AllocOps}
use delos_rust.Server.Chain.{Chain}
use delos_rust.Server.Locks.{
  Store, Role, role, mark, here, elsewhere, number_one, number_here, stores_chain, first_chain,
  on_trie, next_place, number,
}
use delos_rust.Server.Locks.View.{
  AllHere, AllHere-map, SomeHere, SomeHere-map, trie_at, SameAt, Called, on_trie_lem,
}

module _ {A E : Type 0} where
  -- The trie of a chain that multiappends may use: it has entries and room.
  pub record IsReady (t : Trie A E) : Type 0 where
    pub lock : IsLock t
    pub unlocks : t.last_unlock < u64_max
    pub nonempty : 0 < t.next_entry
    pub room : t.next_entry < 2 ^ 62
    pub valid : Valid t

  -- The lock of the number is free, if one is asked for.
  abbrev pub IsFree : Bool → Trie A E → ℕ → Type 0
  IsFree take_lock t i = take_lock ≡ true → (t.last_lock ≡ t.last_unlock) × (i ≡ t.last_unlock + 1)

  -- It is held, or another number is next.
  abbrev pub IsRefused : Bool → Trie A E → ℕ → Type 0
  IsRefused take_lock t i =
      (take_lock ≡ true) × ((t.last_lock ≢ t.last_unlock) ⊎ (i ≢ t.last_unlock + 1))

  abbrev pub Looked : Bool → ℕ → Trie A E → Option ℕ → Trie A E → Type 0
  Looked take_lock i t none t' = (t' ≡ t) × IsRefused take_lock t i
  Looked take_lock i t (some n) t' = (t' ≡ t) × (n ≡ t.next_entry) × IsFree take_lock t i

  Looked-trie :
      (take_lock : Bool) (i : ℕ) (t : Trie A E) (o : Option ℕ) (t' : Trie A E)
      → Looked take_lock i t o t'
      → t' ≡ t
  Looked-trie take_lock i t none t' h = h.0
  Looked-trie take_lock i t (some n) t' h = h.0

  next_place_lem :
      (take_lock : Bool) (i : ℕ) (t : Trie A E)
      → IsReady t
      → Returns (λ (r, t'). Looked take_lock i t r t') (next_place take_lock i t)
  unfolding next_place cannot_lock
  next_place_lem true i t r = ground (arith, r.lock, r.unlocks, r.nonempty)
  next_place_lem false i t r = ground (arith, r.nonempty)

module _ (this total : ℕ) where
  -- The mark comes at most once, and chain 0 stands in the mark only.
  abbrev pub IsMarked : Bool → List (ℕ × ℕ) → Type 0
  IsMarked seen [] = Unit {0}
  IsMarked seen ((c, i) ∷ locs) =
      (role this total true (c, i) ≡ mark → (seen ≡ false) × IsMarked true locs)
      × (role this total true (c, i) ≢ mark → (c ≢ 0) × IsMarked seen locs)

pub role-here :
    (this total c i : ℕ) → role this total true (c, i) ≡ here → stores_chain this total c ≡ true
unfolding role
role-here this total c i e = ground (arith, e)

-- A place with the index that is handed out
abbrev pub place_of : Role → ℕ → ℕ → ℕ × ℕ
place_of mark c n = (0, 0)
place_of here c n = (c, n)
place_of elsewhere c n = (c, 0)

cons_path :
    (c n m : ℕ) {ro : Role} {ls ls' : List (ℕ × ℕ)}
    → n ≡ m
    → here ≡ ro
    → ls ≡ ls'
    → ◌≡◌ {A = List (ℕ × ℕ)} ((c, n) ∷ ls) (place_of ro c m ∷ ls')
cons_path c n m p q r = λ k. place_of (q k) c (p k) ∷ r k

module _ (this total : ℕ) where
  -- The places with the indices that are handed out, `next` of each chain
  abbrev pub numbered : (ℕ → ℕ) → List (ℕ × ℕ) → List (ℕ × ℕ)
  numbered next [] = []
  numbered next ((c, i) ∷ locs) =
      place_of (role this total true (c, i)) c (next c) ∷ numbered next locs

module _ {A E S T : Type 0} (first : Chain (Trie A E) S E T) (this total : ℕ) where
  abbrev pub Ready : Store A E S T → Type 0
  Ready log = (c : ℕ) → stores_chain this total c ≡ true → IsReady (trie_at first log c)

  -- What the loops did: nothing in the tries. Either all locks are free and the places are numbered, or one is refused.
  abbrev pub Numbered :
      Bool → List (ℕ × ℕ) → Store A E S T → List (ℕ × ℕ) × Bool × ℕ × Store A E S T → Type 0
  Numbered take_lock locs log (locs', failed, places, log') =
      ((d : ℕ) → SameAt first log log' d)
      × (failed ≡ true
          → SomeHere (role this total true) (λ c i. IsRefused take_lock (trie_at first log c) i)
              locs)
      × (failed ≡ false
          → (locs' ≡ numbered this total (λ c. (trie_at first log c).next_entry) locs)
            × AllHere (role this total true) (λ c i. IsFree take_lock (trie_at first log c) i) locs)

  module _ (al : AllocOps A E) (alloc : A) (made : first_chain al alloc ≡ ok first) where
    Rest :
        Bool
        → List (ℕ × ℕ)
        → (Bool → Store A E S T → Outcome (List (ℕ × ℕ) × Bool × ℕ × Store A E S T))
        → Type 0
    Rest take_lock locs rest =
        (seen : Bool) (log : Store A E S T)
        → Ready log
        → IsMarked this total seen locs
        → Returns (Numbered take_lock locs log) (rest seen log)

    -- A place that is not this server's goes before the others.
    passed :
        (take_lock : Bool) (c i : ℕ) (locs : List (ℕ × ℕ)) (log : Store A E S T) (ro : Role)
        → role this total true (c, i) ≡ ro
        → ro ≢ here
        → (r : List (ℕ × ℕ) × Bool × ℕ × Store A E S T) → Numbered take_lock locs log r
        → Numbered take_lock
            ((c, i) ∷ locs)
            log
            (place_of ro c (trie_at first log c).next_entry ∷ r.0, r.1, r.2, r.3)
    passed take_lock c i locs log ro e ne (ls, failed, places, log') (same, refused, free) = (
      same,
      (λ q. inr (refused q)),
      (λ q. (
        (λ k. place_of (sym e k) c (trie_at first log c).next_entry ∷ (free q).0 k),
        ((λ z. absurd (ne (sym e ∙ z))), (free q).1),
      )),
    )

    -- A look at a chain changes no trie.
    Looked-same :
        (take_lock : Bool) (c i : ℕ) (log log₁ : Store A E S T) (o : Option ℕ)
        → Called first (Looked take_lock i (trie_at first log c)) log c (o, log₁)
        → (d : ℕ) → SameAt first log log₁ d
    Looked-same take_lock c i log log₁ o called d = elim (Bool-cases (d == c)) [
      | inr ne ↦ called.2 d (λ q. ground (arith, ne, q))
      | inl eq ↦
          let at_c : d ≡ c = ground (arith, eq) in
          subst (SameAt first log log₁) (sym at_c) (
            Looked-trie take_lock i (trie_at first log c) o (trie_at first log₁ c) called.0,
            called.1,
          )
    ]

    here_lem :
        (take_lock seen : Bool) (c i : ℕ) (locs : List (ℕ × ℕ)) (log : Store A E S T)
        (rest : Bool → Store A E S T → Outcome (List (ℕ × ℕ) × Bool × ℕ × Store A E S T))
        → Ready log
        → IsMarked this total seen locs
        → role this total true (c, i) ≡ here
        → Rest take_lock locs rest
        → (o : Option ℕ) (log₁ : Store A E S T)
        → Called first (Looked take_lock i (trie_at first log c)) log c (o, log₁)
        → Returns
            (Numbered take_lock ((c, i) ∷ locs) log)
            (number_here c locs (rest seen) (o, log₁))
    unfolding number_here Rest
    here_lem take_lock seen c i locs log rest r m e ih none log₁ called = (
      Looked-same take_lock c i log log₁ none called,
      (λ q. inl (e, called.0.1)),
      (λ q. absurd (cc)),
    )
    here_lem take_lock seen c i locs log rest r m e ih (some n) log₁ called =
        let same = Looked-same take_lock c i log log₁ (some n) called in
        Returns->>= (Numbered take_lock locs log₁) (Numbered take_lock ((c, i) ∷ locs) log)
          (rest seen log₁) _ (ih seen log₁ (λ d h. subst IsReady (sym (same d).0) (r d h)) m)
          (λ (ls, failed, places, log') (same', refused, free). (
            (λ d. ((same' d).0 ∙ (same d).0, (same' d).1 ∙ (same d).1)),
            (λ q. inr (
                SomeHere-map (role this total true) _ _ locs
                  (λ d j. subst (λ t. IsRefused take_lock t j) (same d).0) (refused q))),
            (λ q. (
              cons_path c n (trie_at first log c).next_entry called.0.1 (sym e)
                  ((free q).0 ∙ (λ k. numbered this total (λ d. ((same d).0 k).next_entry) locs)),
              (
                (λ z. called.0.2),
                AllHere-map (role this total true) _ _ locs
                    (λ d j. subst (λ t. IsFree take_lock t j) (same d).0) (free q).1,
              ),
            )),
          ))

    number_one_lem :
        (take_lock seen : Bool) (c i : ℕ) (locs : List (ℕ × ℕ)) (log : Store A E S T)
        (rest : Bool → Store A E S T → Outcome (List (ℕ × ℕ) × Bool × ℕ × Store A E S T))
        → Ready log
        → IsMarked this total seen ((c, i) ∷ locs)
        → Rest take_lock locs rest
        → (ro : Role) → role this total true (c, i) ≡ ro
        → Returns
            (Numbered take_lock ((c, i) ∷ locs) log)
            (number_one al alloc take_lock seen (c, i) locs rest log ro)
    unfolding number_one Rest
    number_one_lem take_lock seen c i locs log rest r m ih mark e =
        let (unseen, m') = m.0 e in
        rw (unseen) (
          Returns->>= (Numbered take_lock locs log) _ (rest true log) _ (ih true log r m')
            (λ x n. passed take_lock c i locs log mark e (λ z. absurd (cc)) x n))
    number_one_lem take_lock seen c i locs log rest r m ih elsewhere e =
        let (some_chain, m') = m.1 (λ z. absurd (cc)) in
        Returns->>= (Numbered take_lock locs log) _ (rest seen log) _ (ih seen log r m')
          (λ x n. passed take_lock c i locs log elsewhere e (λ z. absurd (cc)) x n)
    number_one_lem take_lock seen c i locs log rest r m ih here e =
        let (some_chain, m') = m.1 (λ z. absurd (cc)) in
        Returns->>= (Called first (Looked take_lock i (trie_at first log c)) log c) _
          (on_trie al alloc log c (next_place take_lock i)) (number_here c locs (rest seen))
          (on_trie_lem first al alloc made (Looked take_lock i (trie_at first log c)) log c
            (next_place take_lock i)
            (next_place_lem take_lock i (trie_at first log c) (r c (role-here this total c i e))))
          (λ (o, log₁) called. here_lem take_lock seen c i locs log rest r m' e ih o log₁ called)

    pub number_lem :
        (take_lock seen : Bool) (locs : List (ℕ × ℕ)) (log : Store A E S T)
        → Ready log
        → IsMarked this total seen locs
        → Returns (Numbered take_lock locs log) (number al alloc this total take_lock seen locs log)
    unfolding number Rest
    number_lem take_lock seen [] log r m =
        ((λ d. (refl, refl)), (λ q. absurd (cc)), (λ q. (refl, tt)))
    number_lem take_lock seen ((c, i) ∷ locs) log r m =
        number_one_lem take_lock seen c i locs log
          (λ seen log. number al alloc this total take_lock seen locs log) r m
          (λ seen log. number_lem take_lock seen locs log) (role this total true (c, i)) refl
