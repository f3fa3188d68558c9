-- ===== src/Util/RangeTree/Tiling.antt =====
-- The representation invariant of `RangeTree`.
use delos_rust.Prelude.{
  ℕ, ◌+◌, ◌≤◌, ◌≡◌, ◌∙◌, Bool, true, false, not, ◌&&◌, ◌||◌, none, some, arith, if◌then◌else◌,
  is_some, u64_max,
}
use delos_rust.Util.Range.{Range, point, contains}
use delos_rust.Util.RangeMap.{
  Tree, at, Sorted, remove_entry, insert, at_holds, at_same, at-remove_entry, remove_entry-Sorted,
  at-insert, insert-Sorted,
}

-- Every `u64` outside the hole `H` is in one range, and neighbours have different values.
pub record Partial {V : Type 0} (beq : V → V → Bool) (H : ℕ → Bool) (t : Tree V) : Type 0 where
  pub sorted : Sorted 0 t
  pub bounded : (p : ℕ) (r : Range) (v : V) → at t p ≡ some (r, v) → r.last ≤ u64_max
  pub hole : (p : ℕ) → H p ≡ true → at t p ≡ none
  pub full : (p : ℕ) → p ≤ u64_max → H p ≡ false → is_some (at t p) ≡ true
  pub distinct :
      (p : ℕ) (r : Range) (v : V) (s : Range) (w : V)
      → at t p ≡ some (r, v)
      → at t (r.last + 1) ≡ some (s, w)
      → beq v w ≡ false

abbrev pub IsTiling : {V : Type 0} → (V → V → Bool) → Tree V → Type 0
IsTiling beq = Partial beq (λ _. false)

module _ {V : Type 0} (beq : V → V → Bool) where
  pub Partial-ext :
      (H H' : ℕ → Bool) (t : Tree V) → ((q : ℕ) → H q ≡ H' q) → Partial beq H t → Partial beq H' t
  Partial-ext H H' t e i = record {
    sorted = i.sorted;
    bounded = i.bounded;
    hole = λ q h. i.hole q (e q ∙ h);
    full = λ q b h. i.full q b (e q ∙ h);
    distinct = i.distinct;
  }

  pub remove_entry-Partial :
      (H : ℕ → Bool) (t : Tree V) (p : ℕ) (r : Range) (v : V)
      → Partial beq H t
      → at t p ≡ some (r, v)
      → Partial beq (λ q. H q || contains r q) (remove_entry (point p) t)
  remove_entry-Partial H t p r v i e = record {
    sorted = remove_entry-Sorted 0 p t i.sorted;
    bounded = λ q s w h. ground (arith, at-remove_entry 0 p q t r v i.sorted e, i.bounded q s w);
    hole = λ q h. ground (arith, at-remove_entry 0 p q t r v i.sorted e, i.hole q);
    full = λ q b h. ground (arith, at-remove_entry 0 p q t r v i.sorted e, i.full q b);
    distinct = λ q s w s' w' h h'. ground (
      arith,
      at-remove_entry 0 p q t r v i.sorted e,
      at-remove_entry 0 p (s.last + 1) t r v i.sorted e,
      i.distinct q s w s' w',
    );
  }

  -- A range inside the hole may be filled with a value unlike its neighbours'.
  pub insert-Partial :
      (H : ℕ → Bool) (t : Tree V) (k : Range) (v : V)
      → Partial beq H t
      → k.first ≤ k.last
      → k.last ≤ u64_max
      → ((p : ℕ) → k.first ≤ p → p ≤ k.last → H p ≡ true)
      → ((s : Range) (w : V) → at t (k.last + 1) ≡ some (s, w) → beq v w ≡ false)
      → ((p : ℕ) (s : Range) (w : V)
          → at t p ≡ some (s, w)
          → s.last + 1 ≡ k.first
          → beq w v ≡ false)
      → Partial beq (λ q. H q && not (contains k q)) (insert k v t)
  insert-Partial H t k v i a b inside next prior = record {
    sorted = insert-Sorted 0 t k v i.sorted (omega arith) a;
    bounded = λ q s w h. ground (arith, new q, i.bounded q s w);
    hole = λ q h. ground (arith, new q, i.hole q);
    full = λ q c h. ground (arith, new q, i.full q c);
    distinct = λ q s w s' w' h h'. ground (
      arith,
      new q,
      new (s.last + 1),
      at_holds q t s w,
      at_holds (s.last + 1) t s' w',
      i.distinct q s w s' w',
      next s' w',
      prior q s w,
      i.hole k.first,
      inside k.first,
      i.hole k.last,
      inside k.last,
      at_same 0 q k.first t s w i.sorted,
    );
  }
    where
      new : (q : ℕ) → at (insert k v t) q ≡ (if contains k q then some (k, v) else at t q)
      new q = at-insert 0 q t k v i.sorted a (λ p x y. i.hole p (inside p x y))
