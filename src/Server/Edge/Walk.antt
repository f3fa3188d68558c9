-- ===== src/Server/Edge/Walk.antt =====
-- fuzzy_log_server/src/trie.rs: what a write through a slot does to the other slots.
use delos_rust.Prelude.{
  ℕ, ◌≡◌, ◌≢◌, refl, ap, sym, ◌∙◌, Option, some, List, [], ◌∷◌, ◌++◌, ok, Returns, Returns->>=,
  length, arith, ◌<◌, inl, inr, Bool, true, false, Bool-cases, ◌==◌, is_some,
}
use delos_rust.Server.Edge.{Edge, empty, seg, val, set, lookup, store}

pub set_same :
    {A : Type 0} (i j : ℕ) (y : A) (a : ℕ → A) → (j == i) ≡ true → (j ≡ i) × (set i y a j ≡ y)
set_same i j y a e = (ground (arith, e), ground (arith, e))

pub set_other :
    {A : Type 0} (i j : ℕ) (y : A) (a : ℕ → A) → (j == i) ≡ false → (j ≢ i) × (set i y a j ≡ a j)
set_other i j y a e = ((λ c. ground (arith, e, c)), ground (arith, e))

pub set-eq : {A : Type 0} (i j : ℕ) (y : A) (a : ℕ → A) → j ≡ i → set i y a j ≡ y
set-eq i j y a e = ground (arith, e)

pub set-ne : {A : Type 0} (i j : ℕ) (y : A) (a : ℕ → A) → j ≢ i → set i y a j ≡ a j
set-ne i j y a n = (set_other i j y a (ground (arith, n))).1

module _ {V : Type 0} where
  -- The slot holds an array.
  abbrev pub is_array : Option (Edge V) → Bool
  is_array (some (seg a)) = true
  is_array _ = false

  -- An array has its slots.
  pub is_array-lookup :
      (p : List ℕ) (i : ℕ) (e : Edge V)
      → is_array (lookup p e) ≡ true
      → is_some (lookup (p ++ (i ∷ [])) e) ≡ true
  unfolding lookup
  is_array-lookup [] i empty h = cc
  is_array-lookup [] i (val v) h = cc
  is_array-lookup [] i (seg a) h = refl
  is_array-lookup (j ∷ p) i empty h = cc
  is_array-lookup (j ∷ p) i (val v) h = cc
  is_array-lookup (j ∷ p) i (seg a) h = is_array-lookup p i (a j) h

  -- The slots under the written path read as those of the new edge, the slots beside it as before, and the
  -- slots that lead to it are still there.
  pub record Stored (p : List ℕ) (x e e' : Edge V) : Type 0 where
    pub under : (q : List ℕ) → lookup (p ++ q) e' ≡ lookup q x
    pub beside :
        (p' q : List ℕ) → length p' ≡ length p → p' ≢ p → lookup (p' ++ q) e' ≡ lookup (p' ++ q) e
    pub above :
        (p₁ : List ℕ) (i : ℕ) (p₂ : List ℕ) → p ≡ p₁ ++ (i ∷ p₂) → is_array (lookup p₁ e') ≡ true
    pub kept :
        (q : List ℕ)
        → length q < length p
        → is_array (lookup q e) ≡ true
        → is_array (lookup q e') ≡ true

  beside_nil :
      (x e : Edge V) (p' q : List ℕ)
      → length p' ≡ 0
      → p' ≢ []
      → lookup (p' ++ q) x ≡ lookup (p' ++ q) e
  beside_nil x e [] q el ne = absurd (ne refl)
  beside_nil x e (j ∷ p') q el ne = ground (arith, el)

  above_nil :
      (x : Edge V) (p₁ : List ℕ) (i : ℕ) (p₂ : List ℕ)
      → [] ≡ p₁ ++ (i ∷ p₂)
      → is_array (lookup p₁ x) ≡ true
  above_nil x [] i p₂ e = cc
  above_nil x (j ∷ p₁) i p₂ e = cc

  under_cons :
      (i : ℕ) (p : List ℕ) (x y : Edge V) (a : ℕ → Edge V)
      → ((q : List ℕ) → lookup (p ++ q) y ≡ lookup q x)
      → (q : List ℕ) → lookup ((i ∷ p) ++ q) (seg (set i y a)) ≡ lookup q x
  unfolding lookup
  under_cons i p x y a h q = ground (arith, h q)

  beside_cons :
      (i : ℕ) (p : List ℕ) (y : Edge V) (a : ℕ → Edge V)
      → ((p' q : List ℕ)
          → length p' ≡ length p
          → p' ≢ p
          → lookup (p' ++ q) y ≡ lookup (p' ++ q) (a i))
      → (p' q : List ℕ) → length p' ≡ length (i ∷ p)
      → p' ≢ (i ∷ p)
      → lookup (p' ++ q) (seg (set i y a)) ≡ lookup (p' ++ q) (seg a)
  unfolding lookup
  beside_cons i p y a h [] q el ne = ground (arith, el)
  beside_cons i p y a h (j ∷ p') q el ne = elim (Bool-cases (j == i)) [
    | inr e ↦ ap (lookup (p' ++ q)) ((set_other i j y a e).1)
    | inl e ↦
        let (same, eq) = set_same i j y a e in
        ap (lookup (p' ++ q)) eq
        ∙ (h p' q (ground (arith, el)) (λ c. ne (cc)) ∙ ap (λ z. lookup (p' ++ q) (a z)) (sym same))
  ]

  above_cons :
      (i : ℕ) (p : List ℕ) (y : Edge V) (a : ℕ → Edge V)
      → ((p₁ : List ℕ) (k : ℕ) (p₂ : List ℕ) → p ≡ p₁ ++ (k ∷ p₂) → is_array (lookup p₁ y) ≡ true)
      → (p₁ : List ℕ) (k : ℕ) (p₂ : List ℕ) → (i ∷ p) ≡ p₁ ++ (k ∷ p₂)
      → is_array (lookup p₁ (seg (set i y a))) ≡ true
  unfolding lookup
  above_cons i p y a h [] k p₂ e = refl
  above_cons i p y a h (j ∷ p₁) k p₂ e =
      let first : j ≡ i = ground (arith, e) in
      let rest : p ≡ p₁ ++ (k ∷ p₂) = cc in
      ap (λ z. is_array (lookup p₁ z)) ((set_same i j y a (ground (arith, first))).1)
      ∙ h p₁ k p₂ rest

  kept_cons :
      (i : ℕ) (p : List ℕ) (y : Edge V) (a : ℕ → Edge V)
      → ((q : List ℕ)
          → length q < length p
          → is_array (lookup q (a i)) ≡ true
          → is_array (lookup q y) ≡ true)
      → (q : List ℕ) → length q < length (i ∷ p)
      → is_array (lookup q (seg a)) ≡ true
      → is_array (lookup q (seg (set i y a))) ≡ true
  unfolding lookup
  kept_cons i p y a h [] lt e = refl
  kept_cons i p y a h (j ∷ q) lt e = elim (Bool-cases (j == i)) [
    | inr ne ↦ ap (λ z. is_array (lookup q z)) ((set_other i j y a ne).1) ∙ e
    | inl eq ↦
        let (same, at_i) = set_same i j y a eq in
        ap (λ z. is_array (lookup q z)) at_i
        ∙ h q (omega (arith, lt)) (ap (λ z. is_array (lookup q (a z))) (sym same) ∙ e)
  ]

  pub store_lem :
      (p : List ℕ) (x e : Edge V)
      → is_some (lookup p e) ≡ true
      → Returns (Stored p x e) (store p x e)
  unfolding lookup store
  store_lem [] x e h = record {
    under = λ q. refl;
    beside = beside_nil x e;
    above = above_nil x;
    kept = λ q lt h. absurd (omega (arith, lt));
  }
  store_lem (i ∷ p) x empty h = cc
  store_lem (i ∷ p) x (seg a) h =
      Returns->>= (Stored p x (a i)) (Stored (i ∷ p) x (seg a)) (store p x (a i))
        (λ y. ok (seg (set i y a))) (store_lem p x (a i) h)
        (λ y s. record {
          under = under_cons i p x y a s.under;
          beside = beside_cons i p y a s.beside;
          above = above_cons i p y a s.above;
          kept = kept_cons i p y a s.kept;
        })
  store_lem (i ∷ p) x (val v) h = cc
