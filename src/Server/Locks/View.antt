-- ===== src/Server/Locks/View.antt =====
-- fuzzy_log_server/src/ordering_thread.rs, `ensure_trie`: the tries of a server, of which the missing ones are made when they are
-- first used.
use delos_rust.Prelude.{
  ℕ, ◌≡◌, ◌≢◌, ◌⊎◌, refl, ap, sym, ◌∙◌, inl, inr, Option, none, some, List, [], ◌∷◌, Outcome, ok,
  Returns, Returns->>=, arith, Bool-cases, ◌==◌, subst,
}
use delos_rust.Server.Edge.{set}
use delos_rust.Server.Edge.Walk.{set-eq, set-ne}
use delos_rust.Server.Trie.{Trie}
use delos_rust.Server.Trie.Storage.{AllocOps}
use delos_rust.Server.Chain.{Chain}
use delos_rust.Server.Locks.{
  Store, Role, here, first_chain, found_or_new, ensure_chain, on_trie, on_chain,
}

abbrev pub get_or : {X : Type 0} → Option X → X → X
get_or none x = x
get_or (some y) x = y

-- A property of the places that are this server's, by the part of each
module _ (part : ℕ × ℕ → Role) where
  abbrev pub AllHere : (ℕ → ℕ → Type 0) → List (ℕ × ℕ) → Type 0
  AllHere P [] = Unit {0}
  AllHere P ((c, i) ∷ locs) = (part (c, i) ≡ here → P c i) × AllHere P locs

  abbrev pub SomeHere : (ℕ → ℕ → Type 0) → List (ℕ × ℕ) → Type 0
  SomeHere P [] = ⊥
  SomeHere P ((c, i) ∷ locs) = ((part (c, i) ≡ here) × P c i) ⊎ SomeHere P locs

  pub AllHere-map :
      (P Q : ℕ → ℕ → Type 0) (locs : List (ℕ × ℕ))
      → ((c i : ℕ) → P c i → Q c i)
      → AllHere P locs
      → AllHere Q locs
  AllHere-map P Q [] f a = tt
  AllHere-map P Q ((c, i) ∷ locs) f a = ((λ r. f c i (a.0 r)), AllHere-map P Q locs f a.1)

  pub AllHere-both :
      (P Q : ℕ → ℕ → Type 0) (locs : List (ℕ × ℕ))
      → AllHere P locs
      → AllHere Q locs
      → AllHere (λ c i. P c i × Q c i) locs
  AllHere-both P Q [] a b = tt
  AllHere-both P Q ((c, i) ∷ locs) a b = ((λ r. (a.0 r, b.0 r)), AllHere-both P Q locs a.1 b.1)

  pub SomeHere-map :
      (P Q : ℕ → ℕ → Type 0) (locs : List (ℕ × ℕ))
      → ((c i : ℕ) → P c i → Q c i)
      → SomeHere P locs
      → SomeHere Q locs
  SomeHere-map P Q [] f a = a
  SomeHere-map P Q ((c, i) ∷ locs) f (inl (r, p)) = inl (r, f c i p)
  SomeHere-map P Q ((c, i) ∷ locs) f (inr a) = inr (SomeHere-map P Q locs f a)

  pub SomeHere-both :
      (P Q : ℕ → ℕ → Type 0) (locs : List (ℕ × ℕ))
      → AllHere P locs
      → SomeHere Q locs
      → SomeHere (λ c i. P c i × Q c i) locs
  SomeHere-both P Q [] a b = b
  SomeHere-both P Q ((c, i) ∷ locs) a (inl (r, q)) = inl (r, (a.0 r, q))
  SomeHere-both P Q ((c, i) ∷ locs) a (inr b) = inr (SomeHere-both P Q locs a.1 b)

module _ {A E S T : Type 0} (first : Chain (Trie A E) S E T) where
  -- The chain as the next operation finds it
  abbrev pub chain_at : Store A E S T → ℕ → Chain (Trie A E) S E T
  chain_at log c = get_or (log c) first

  abbrev pub trie_at : Store A E S T → ℕ → Trie A E
  trie_at log c = (chain_at log c).trie

  -- The tries and the Skeens states of a chain are as before.
  abbrev pub SameAt : Store A E S T → Store A E S T → ℕ → Type 0
  SameAt log log' d =
      (trie_at log' d ≡ trie_at log d) × ((chain_at log' d).skeens ≡ (chain_at log d).skeens)

  -- What a call did: the trie of its chain is the new one, and everything else is as before.
  abbrev pub Called :
      {X : Type 0} → (X → Trie A E → Type 0) → Store A E S T → ℕ → X × Store A E S T → Type 0
  Called P log c (x, log') =
      P x (trie_at log' c)
      × ((chain_at log' c).skeens ≡ (chain_at log c).skeens)
      × ((d : ℕ) → d ≢ c → SameAt log log' d)

  -- What a call on a whole chain did
  abbrev pub CalledChain :
      {X : Type 0}
      → (X → Chain (Trie A E) S E T → Type 0)
      → Store A E S T
      → ℕ
      → X × Store A E S T
      → Type 0
  CalledChain P log c (x, log') =
      P x (chain_at log' c) × ((d : ℕ) → d ≢ c → chain_at log' d ≡ chain_at log d)

  module _ (al : AllocOps A E) (alloc : A) (made : first_chain al alloc ≡ ok first) where
    -- A store where the chain is found, and nothing looks different
    Ensured :
        Store A E S T → ℕ → Chain (Trie A E) S E T → Chain (Trie A E) S E T × Store A E S T → Type 0
    Ensured log c ch (ch', log₁) = (ch' ≡ ch) × ((d : ℕ) → chain_at log₁ d ≡ chain_at log d)

    found_lem :
        (log : Store A E S T) (c : ℕ) (o : Option (Chain (Trie A E) S E T))
        → log c ≡ o
        → Returns (Ensured log c (get_or o first)) (found_or_new al alloc log c o)
    unfolding found_or_new Ensured
    found_lem log c (some ch) e = (refl, λ d. refl)
    found_lem log c none e = rw (made) (
      refl,
      λ d. elim (Bool-cases (d == c)) [
        | inl q ↦
            let same : d ≡ c = ground (arith, q) in
            ap (λ z. get_or z first) (set-eq c d (some first) log same)
            ∙ sym (ap (λ z. get_or (log z) first) same ∙ ap (λ z. get_or z first) e)
        | inr q ↦ ap (λ z. get_or z first) (set-ne c d (some first) log (λ z. ground (arith, q, z)))
      ],
    )

    -- A call on a chain's trie does what it does on the trie, and nothing to the other chains.
    pub on_trie_lem :
        {X : Type 0} (P : X → Trie A E → Type 0) (log : Store A E S T) (c : ℕ)
        (f : Trie A E → Outcome (X × Trie A E))
        → Returns (λ (x, t). P x t) (f (trie_at log c))
        → Returns (Called P log c) (on_trie al alloc log c f)
    unfolding on_trie ensure_chain Ensured
    on_trie_lem P log c f h =
        Returns->>= (Ensured log c (chain_at log c)) (Called P log c)
          (found_or_new al alloc log c (log c)) _ (found_lem log c (log c) refl)
          (λ (ch, log₁) (same, others).
            Returns->>= (λ (x, t). P x t) (Called P log c) (f ch.trie) _
              (subst (λ z. Returns (λ (x, t). P x t) (f z.trie)) (sym same) h)
              (λ (x, t) p.
                let new = record ch { trie = t } in
                let found : get_or (set c (some new) log₁ c) first ≡ new =
                  ap (λ z. get_or z first) (set-eq c c (some new) log₁ refl) in
                (
                  subst (λ z. P x z.trie) (sym found) p,
                  ap (λ (z : Chain (Trie A E) S E T). z.skeens) found
                      ∙ ap (λ (z : Chain (Trie A E) S E T). z.skeens) same,
                  λ d ne.
                      let there =
                        ap (λ z. get_or z first) (set-ne c d (some new) log₁ ne) ∙ others d in
                      (
                        ap (λ (z : Chain (Trie A E) S E T). z.trie) there,
                        ap (λ (z : Chain (Trie A E) S E T). z.skeens) there,
                      ),
                )))

    pub on_chain_lem :
        {X : Type 0} (P : X → Chain (Trie A E) S E T → Type 0) (log : Store A E S T) (c : ℕ)
        (f : Chain (Trie A E) S E T → Outcome (X × Chain (Trie A E) S E T))
        → Returns (λ (x, ch). P x ch) (f (chain_at log c))
        → Returns (CalledChain P log c) (on_chain al alloc log c f)
    unfolding on_chain ensure_chain Ensured
    on_chain_lem P log c f h =
        Returns->>= (Ensured log c (chain_at log c)) (CalledChain P log c)
          (found_or_new al alloc log c (log c)) _ (found_lem log c (log c) refl)
          (λ (ch, log₁) (same, others).
            Returns->>= (λ (x, new). P x new) (CalledChain P log c) (f ch) _
              (subst (λ z. Returns (λ (x, new). P x new) (f z)) (sym same) h)
              (λ (x, new) p. (
                subst (P x) (sym (ap (λ z. get_or z first) (set-eq c c (some new) log₁ refl))) p,
                λ d ne. ap (λ z. get_or z first) (set-ne c d (some new) log₁ ne) ∙ others d,
              )))
