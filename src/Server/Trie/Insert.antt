-- ===== src/Server/Trie/Insert.antt =====
-- fuzzy_log_server/src/trie.rs, `prep_append_at`: an entry at a given index.
use delos_rust.Prelude.{
  ℕ, zero, suc, ◌+◌, ◌<◌, ◌^◌, ◌≡◌, ◌≢◌, refl, ap, true, Bool-cases, inl, inr, ◌==◌, none, some,
  List, [], ◌∷◌, arith, is_some, length, sym, subst, ◌∙◌, ok, ◌>>=◌, Returns, Returns->>=, max,
  u64_max, leb, add64, if◌then◌else◌,
}
use delos_rust.Server.Edge.{Edge, empty, seg, val, set, lookup, make}
use delos_rust.Server.Trie.{Trie, path, packet_of, get, get_entry_at, prep_append_at, store_entry}
use delos_rust.Server.Trie.Entry.{entry_other}
use delos_rust.Server.Edge.Walk.{set_same, set_other, set-eq, Stored, store_lem}

-- The edge is one of `n` levels above the values.
unfoldable pub Fits : {V : Type 0} → ℕ → Edge V → Type 0
Fits n empty = Unit
Fits zero (seg a) = ⊥
Fits (suc n) (seg a) = (i : ℕ) → Fits n (a i)
Fits zero (val v) = Unit
Fits (suc n) (val v) = ⊥

Fits-empty : (V : Type 0) (n : ℕ) → Fits {V = V} n empty
unfolding Fits
Fits-empty V zero = tt
Fits-empty V (suc n) = tt

module _ {V : Type 0} where
  packet_of-empty : (q : List ℕ) → packet_of {V = V} (lookup q empty) ≡ none
  unfolding lookup
  packet_of-empty [] = refl
  packet_of-empty (i ∷ q) = refl

  set-packet :
      (i j : ℕ) (q : List ℕ) (y : Edge V) (a : ℕ → Edge V)
      → packet_of (lookup q y) ≡ packet_of (lookup q (a i))
      → packet_of (lookup q (set i y a j)) ≡ packet_of (lookup q (a j))
  set-packet i j q y a h = elim (Bool-cases (j == i)) [
    | inr ne ↦ ap (λ z. packet_of (lookup q z)) ((set_other i j y a ne).1)
    | inl eq ↦
        let (same, at_i) = set_same i j y a eq in
        ap (λ z. packet_of (lookup q z)) at_i
        ∙ (h ∙ ap (λ z. packet_of (lookup q (a z))) (sym same))
  ]

  -- No packet changes where the arrays on the way to a slot are made.
  make-packet :
      (p q : List ℕ) (e : Edge V) → packet_of (lookup q (make p e)) ≡ packet_of (lookup q e)
  unfolding make lookup
  make-packet [] q e = refl
  make-packet (i ∷ p) q (val v) = refl
  make-packet (i ∷ p) [] empty = refl
  make-packet (i ∷ p) [] (seg a) = refl
  make-packet (i ∷ p) (j ∷ q) empty =
      set-packet i j q (make p empty) (λ _. empty) (make-packet p q empty) ∙ packet_of-empty q
  make-packet (i ∷ p) (j ∷ q) (seg a) = set-packet i j q (make p (a i)) a (make-packet p q (a i))

  -- The slot is there then.
  make-there : (p : List ℕ) (e : Edge V) → Fits (length p) e → is_some (lookup p (make p e)) ≡ true
  unfolding make lookup Fits
  make-there [] e f = refl
  make-there (i ∷ p) empty f =
      ap (λ z. is_some (lookup p z)) (set-eq i i (make p empty) (λ _. empty) refl)
      ∙ make-there p empty (Fits-empty V (length p))
  make-there (i ∷ p) (seg a) f =
      ap (λ z. is_some (lookup p z)) (set-eq i i (make p (a i)) a refl) ∙ make-there p (a i) (f i)
  make-there (i ∷ p) (val v) f = absurd f

  set-Fits :
      (n i : ℕ) (y : Edge V) (a : ℕ → Edge V)
      → Fits n y
      → ((j : ℕ) → Fits n (a j))
      → (j : ℕ) → Fits n (set i y a j)
  set-Fits n i y a fy fa j = elim (Bool-cases (j == i)) [
    | inr ne ↦ subst (Fits n) (sym ((set_other i j y a ne).1)) (fa j)
    | inl eq ↦ subst (Fits n) (sym ((set_same i j y a eq).1)) fy
  ]

  -- The levels stay.
  make-Fits : (p : List ℕ) (e : Edge V) → Fits (length p) e → Fits (length p) (make p e)
  unfolding make Fits
  make-Fits [] e f = f
  make-Fits (i ∷ p) empty f =
      set-Fits (length p) i (make p empty) (λ _. empty)
        (make-Fits p empty (Fits-empty V (length p))) (λ j. Fits-empty V (length p))
  make-Fits (i ∷ p) (seg a) f = set-Fits (length p) i (make p (a i)) a (make-Fits p (a i) (f i)) f
  make-Fits (i ∷ p) (val v) f = absurd f

module _ {A V : Type 0} where
  -- An entry at any index below the greatest, in a trie whose edges are of their levels: its slot is made, and a store of a value in it does not panic. The
  -- value is then read at that index, every other index below `2 ^ 64` reads as before, and the length is the greater one of the old length
  -- and the next index.
  pub prep_append_at_lem :
      (t : Trie A V) (key : ℕ) (v : V)
      → key < u64_max
      → Fits 7 t.array
      → Returns
          (λ t'.
            (get t' key ≡ some v)
            × ((k : ℕ) → k < 2 ^ 64 → k ≢ key → get t' k ≡ get t k)
            × (t'.next_entry ≡ max t.next_entry (key + 1)))
          (prep_append_at t key >>= λ (slot, t₁). store_entry t₁ slot (val v))
  unfolding prep_append_at store_entry get get_entry_at lookup path
  prep_append_at_lem t key v h f =
      let grows : (if leb t.next_entry key then add64 key 1 else ok t.next_entry)
          ≡ ok (max t.next_entry (key + 1)) =
        ground arith in
      rw (grows) (
        Returns->>= (Stored (path 7 0 key) (val v) (make (path 7 0 key) t.array)) _ _ _
          (store_lem (path 7 0 key) (val v) (make (path 7 0 key) t.array)
            (make-there (path 7 0 key) t.array f))
          (λ array s. (
            ap packet_of (s.under []),
            (λ k hk ne.
                ap packet_of (entry_other key k (omega arith) hk ne s)
                ∙ make-packet (path 7 0 key) (path 7 0 k) t.array),
            refl,
          )))
