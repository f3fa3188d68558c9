-- ===== src/Server/Chain/Finish.antt =====
-- Where delivered appends stand in the log.
use delos_rust.Prelude.{
  ℕ, ◌+◌, ◌-◌, ◌<◌, ◌≤◌, ◌≡◌, refl, ap, suc, max, true, none, some, List, [], ◌∷◌, arith, Returns,
  Returns->>=, length, ltb, leb, Bool-cases, inl, inr,
}
use delos_rust.Server.GotMax
use delos_rust.Server.GotMax.{GotMax}
use delos_rust.Server.Chain.{
  TrieOps, IsLawful, FinishSkeens, single, multi, snap, horizon_or_add_blank, finish_one,
  finish_all,
}

module _ {P S E T : Type 0} where
  abbrev pub time_at : FinishSkeens P S E T → ℕ
  time_at (single loc ptr e ts t) = ts
  time_at (multi loc ptr s ts t) = ts
  time_at (snap loc s ts t) = ts

  -- One delivery: of the kind of its append, with the append's contents, at its place in a log with `len` entries. The length
  -- afterwards is `len'`.
  abbrev pub Place : GotMax S E T → ℕ → FinishSkeens P S E T → ℕ → Type 0
  Place (GotMax.simple_single g) len (single loc ptr e ts t) len' =
      (loc ≡ len) × (len' ≡ len + 1) × (e ≡ g.storage) × (t ≡ g.t)
  Place (GotMax.single g) len (single loc ptr e ts t) len' =
      (loc ≡ len) × (len' ≡ len + 1) × (e ≡ g.storage) × (t ≡ g.t)
  Place (GotMax.multi g) len (multi loc (some ptr) s ts t) len' =
      (loc ≡ len) × (len' ≡ len + 1) × (s ≡ g.storage) × (t ≡ g.t)
  Place (GotMax.senti g) len (multi loc none s ts t) len' =
      (len' ≡ max len 2) × (loc + 1 ≡ len') × (s ≡ g.storage) × (t ≡ g.t)
  Place (GotMax.snap g) len (snap loc s ts t) len' =
      (loc + 1 ≡ len) × (len' ≡ len) × (s ≡ g.storage) × (t ≡ g.t)
  Place g len f len' = ⊥

  -- The deliveries are those of the appends, in order, each at its place and with its timestamp.
  abbrev pub Placed : List (GotMax S E T) → ℕ → List (FinishSkeens P S E T) → ℕ → Type 0
  Placed [] len [] len' = len ≡ len'
  Placed (g ∷ gs) len (f ∷ fs) len' =
      (mid : ℕ) × Place g len f mid × (time_at f ≡ GotMax.timestamp g) × Placed gs mid fs len'
  Placed _ len _ len' = ⊥

  pub length-Placed :
      (gs : List (GotMax S E T)) (fs : List (FinishSkeens P S E T)) (len len' : ℕ)
      → Placed gs len fs len'
      → length fs ≡ length gs
  length-Placed [] [] len len' p = refl
  length-Placed (g ∷ gs) (f ∷ fs) len len' (mid, p, t, r) = ap suc (length-Placed gs fs mid len' r)
  length-Placed [] (f ∷ fs) len len' p = absurd p
  length-Placed (g ∷ gs) [] len len' p = absurd p

module _ {L P R E : Type 0} (tr : TrieOps L P R E) {Good : L → Type 0} {cap : ℕ}
    (laws : IsLawful tr Good cap) where
  blank_lem :
      (l : L) (colour : ℕ)
      → Good l
      → 1 ≤ tr.len l
      → tr.len l < cap
      → Returns
          (λ (loc, l'). (tr.len l' ≡ max (tr.len l) 2) × (loc + 1 ≡ tr.len l') × Good l')
          (horizon_or_add_blank tr l colour)
  unfolding horizon_or_add_blank
  blank_lem l colour g a b =
      let low : leb 1 (tr.len l) ≡ true = ground arith in
      rw low (elim (Bool-cases (ltb 0 (tr.len l - 1))) [
        | inl e ↦ rw e (ground arith, omega arith, g)
        | inr e ↦
            let (l', f, longer, g') = laws.blank colour l g b in
            let low' : leb 1 (tr.len l') ≡ true = ground arith in
            rw e (rw f (rw low' (ground (arith, e), omega arith, g')))
      ])

module _ {L P R S E T : Type 0} (tr : TrieOps L P R E) {Good : L → Type 0} {cap : ℕ}
    (laws : IsLawful tr Good cap) where
  finish_one_lem :
      (colour : ℕ) (l : L) (g : GotMax S E T)
      → Good l
      → 1 ≤ tr.len l
      → tr.len l < cap
      → Returns
          (λ (f, l'). Place g (tr.len l) f (tr.len l') × (time_at f ≡ GotMax.timestamp g) × Good l')
          (finish_one tr colour l g)
  unfolding finish_one GotMax.timestamp
  finish_one_lem colour l (GotMax.simple_single g) good a b =
      let (p, l', e, f, good') = laws.append l good b in rw e ((refl, f, refl, refl), refl, good')
  finish_one_lem colour l (GotMax.single g) good a b =
      let (p, l', e, f, good') = laws.append l good b in rw e ((refl, f, refl, refl), refl, good')
  finish_one_lem colour l (GotMax.multi g) good a b =
      let (p, l', e, f, good') = laws.append l good b in rw e ((refl, f, refl, refl), refl, good')
  finish_one_lem colour l (GotMax.senti g) good a b =
      Returns->>= (λ (loc, l'). (tr.len l' ≡ max (tr.len l) 2) × (loc + 1 ≡ tr.len l') × Good l') _
        (horizon_or_add_blank tr l colour) _ (blank_lem tr laws l colour good a b)
        (λ x h. ((h.0, h.1, refl, refl), refl, h.2))
  finish_one_lem colour l (GotMax.snap g) good a b =
      let low : leb 1 (tr.len l) ≡ true = ground arith in
      rw low ((omega arith, refl, refl, refl), refl, good)

  Place-le :
      (g : GotMax S E T) (len : ℕ) (f : FinishSkeens P S E T) (len' : ℕ)
      → Place g len f len'
      → 1 ≤ len
      → (1 ≤ len') × (len' ≤ len + 1)
  Place-le g len f len' p a = ground arith

  -- While the log has room, every delivery finds its place.
  pub finish_all_lem :
      (colour : ℕ) (gs : List (GotMax S E T)) (l : L)
      → Good l
      → 1 ≤ tr.len l
      → tr.len l + length gs ≤ cap
      → Returns
          (λ (fs, l'). Placed gs (tr.len l) fs (tr.len l') × Good l')
          (finish_all tr colour l gs)
  unfolding finish_all
  finish_all_lem colour [] l good a b = (refl, good)
  finish_all_lem colour (g ∷ gs) l good a b =
      Returns->>=
        (λ (f, l'). Place g (tr.len l) f (tr.len l') × (time_at f ≡ GotMax.timestamp g) × Good l') _
        (finish_one tr colour l g) _ (finish_one_lem colour l g good a (omega arith))
        (λ (f, l₁) (p, t, good₁).
          let (low, high) = Place-le g (tr.len l) f (tr.len l₁) p a in
          Returns->>= (λ (fs, l'). Placed gs (tr.len l₁) fs (tr.len l') × Good l') _
            (finish_all tr colour l₁ gs) _ (finish_all_lem colour gs l₁ good₁ low (omega arith))
            (λ (fs, l₂) q. ((tr.len l₁, p, t, q.0), q.1)))
