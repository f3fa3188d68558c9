-- ===== src/Server/Skeens/Singles.antt =====
-- Single appends on their way from the queue to the heap.
use delos_rust.Prelude.{
  ℕ, ◌≡◌, ◌<◌, ◌≤◌, sym, subst, ◌⊎◌, inl, inr, false, List, [], ◌∷◌, arith, ok, ◌>>=◌, Ordering,
  >>=-eq-ok, All,
}
use delos_rust.Server.GotMax
use delos_rust.Server.GotMax.{GotMax, push, cmp, into_got_max}
use delos_rust.Server.Skeens.Invariant.{Held}

module _ {S E T : Type 0} where
  push_cases :
      (g x : GotMax S E T) (heap heap' : List (GotMax S E T))
      → push g (x ∷ heap) ≡ ok heap'
      → (heap' ≡ g ∷ x ∷ heap)
        ⊎ ((rest : List (GotMax S E T)) × (push g heap ≡ ok rest) × (heap' ≡ x ∷ rest))
  unfolding push
  push_cases g x heap heap' e =
      let (o, c, d) =
        >>=-eq-ok (cmp g x)
          (λ o. elim o [
            | Ordering.lt ↦ push g heap >>= λ rest. ok (x ∷ rest)
            | Ordering.eq ↦ ok (g ∷ x ∷ heap)
            | Ordering.gt ↦ ok (g ∷ x ∷ heap)
          ])
          e in
      push_at o d
    where
      push_at :
          (o : Ordering)
          → (elim o [
            | Ordering.lt ↦ push g heap >>= λ rest. ok (x ∷ rest)
            | Ordering.eq ↦ ok (g ∷ x ∷ heap)
            | Ordering.gt ↦ ok (g ∷ x ∷ heap)
          ])
            ≡ ok heap'
          → (heap' ≡ g ∷ x ∷ heap)
            ⊎ ((rest : List (GotMax S E T)) × (push g heap ≡ ok rest) × (heap' ≡ x ∷ rest))
      push_at Ordering.lt d =
          let (rest, a, b) = >>=-eq-ok (push g heap) (λ rest. ok (x ∷ rest)) d in
          inr (rest, a, ground (arith, b))
      push_at Ordering.eq d = inl (ground (arith, d))
      push_at Ordering.gt d = inl (ground (arith, d))

  -- A push keeps every single append of the heap and the new one.
  pub Held-push :
      (id : ℕ) (g : GotMax S E T) (heap heap' : List (GotMax S E T))
      → push g heap ≡ ok heap'
      → Held id (g ∷ heap)
      → Held id heap'
  unfolding push
  Held-push id g [] heap' e h =
      let same : g ∷ [] ≡ heap' = ground (arith, e) in subst (Held id) same h
  Held-push id g (x ∷ heap) heap' e h = elim (push_cases g x heap heap' e) [
    | inl a ↦ subst (Held id) (sym a) h
    | inr (rest, a, b) ↦ subst (Held id) (sym b) (elim h [
      | inl c ↦ inr (Held-push id g heap rest a (inl c))
      | inr (inl c) ↦ inl c
      | inr (inr c) ↦ inr (Held-push id g heap rest a (inr c))
    ])
  ]

  -- After a flush that stops, no single append is left in the heap: a waiting append in front of the queue came later
  -- than any of them.
  pub none-Held :
      (id : ℕ) (low : ℕ) (heap : List (GotMax S E T))
      → All (λ g. GotMax.is_multi g ≡ false → GotMax.timestamp g < low) heap
      → All (λ g. low ≤ GotMax.timestamp g) heap
      → Held id heap
      → ⊥
  none-Held id low [] a b h = h
  none-Held id low (g ∷ heap) a b (inl h) = omega (arith, a.0 h.1, b.0)
  none-Held id low (g ∷ heap) a b (inr h) = none-Held id low heap a.1 b.1 h
