-- ===== src/Server/Skeens/Origin.antt =====
-- Where the elements of the heap come from: the appends that wait in the queue, each with its kind and its contents.
use delos_rust.Prelude.{
  ℕ, some, lookup, ◌≡◌, refl, sym, subst, ◌⊎◌, inl, inr, List, [], ◌∷◌, All, All-map,
}
use delos_rust.Server.Waiting.{
  WaitingForMax, Slot, multi, senti, snap, single, simple_single, got_max_multi, got_max_senti,
  got_max_snap,
}
use delos_rust.Server.GotMax.{GotMax, Got}
use delos_rust.Server.Skeens.{SkeensState}

-- The same append: its storage, the caller's data and its id
abbrev pub Same : {X T : Type 0} → Slot X T → Got X T → Type 0
Same s g = (g.storage ≡ s.storage) × (g.t ≡ s.t) × (g.id ≡ s.id)

module _ {S E T : Type 0} where
  -- An element of the heap is an append of the queue, of the same kind. One that waited for its final timestamp has the id
  -- and the timestamp that arrived; any other has kept its time.
  abbrev pub Comes : ℕ → ℕ → WaitingForMax S E T → GotMax S E T → Type 0
  Comes id m (multi s) (GotMax.multi g) = Same s g × (s.id ≡ id) × (g.timestamp ≡ m)
  Comes id m (senti s) (GotMax.senti g) = Same s g × (s.id ≡ id) × (g.timestamp ≡ m)
  Comes id m (snap s) (GotMax.snap g) = Same s g × (s.id ≡ id) × (g.timestamp ≡ m)
  Comes id m (got_max_multi s) (GotMax.multi g) = Same s g × (g.timestamp ≡ s.timestamp)
  Comes id m (got_max_senti s) (GotMax.senti g) = Same s g × (g.timestamp ≡ s.timestamp)
  Comes id m (got_max_snap s) (GotMax.snap g) = Same s g × (g.timestamp ≡ s.timestamp)
  Comes id m (simple_single s) (GotMax.simple_single g) = Same s g × (g.timestamp ≡ s.timestamp)
  Comes id m (single s) (GotMax.single g) = g ≡ s
  Comes id m _ _ = ⊥

  abbrev pub Among : List (GotMax S E T) → GotMax S E T → Type 0
  Among [] g = ⊥
  Among (h ∷ heap) g = (g ≡ h) ⊎ Among heap g

  -- The element was in the heap, or it is an append of the queue.
  abbrev pub Origin : ℕ → ℕ → SkeensState S E T → GotMax S E T → Type 0
  Origin id m s g =
      Among s.got_max_timestamp g
      ⊎ ((k : ℕ) × (w : WaitingForMax S E T) × (lookup k s.phase1_queue.entries ≡ some w)
          × Comes id m w g)

  All-among :
      (P : GotMax S E T → Type 0) (heap : List (GotMax S E T)) (g : GotMax S E T)
      → All P heap
      → Among heap g
      → P g
  All-among P [] g a m = absurd m
  All-among P (h ∷ heap) g a (inl e) = subst P (sym e) a.0
  All-among P (h ∷ heap) g a (inr m) = All-among P heap g a.1 m

  All-self : (heap : List (GotMax S E T)) → All (Among heap) heap
  All-self [] = tt
  All-self (h ∷ heap) = (inl refl, All-map heap (λ g m. inr m) (All-self heap))

  -- What is in the heap was there.
  pub All-Origin : (id m : ℕ) (s : SkeensState S E T) → All (Origin id m s) s.got_max_timestamp
  All-Origin id m s = All-map s.got_max_timestamp (λ g a. inl a) (All-self s.got_max_timestamp)

  -- What comes from a later state comes from the state before, if the later heap and the later queue do.
  pub Origin-before :
      (id m id' m' : ℕ) (s s' : SkeensState S E T) (heap : List (GotMax S E T))
      → All (Origin id m s) s'.got_max_timestamp
      → ((k : ℕ) (w : WaitingForMax S E T) (g : GotMax S E T)
          → lookup k s'.phase1_queue.entries ≡ some w
          → Comes id' m' w g
          → Origin id m s g)
      → All (Origin id' m' s') heap
      → All (Origin id m s) heap
  Origin-before id m id' m' s s' heap a f o =
      All-map heap
        (λ g x. elim x [
          | inl y ↦ All-among (Origin id m s) s'.got_max_timestamp g a y
          | inr (k, w, e, c) ↦ f k w g e c
        ])
        o

  pub raised_multi :
      (s : Slot S T) (m : ℕ) (g : GotMax S E T)
      → Comes s.id m (got_max_multi (record s { timestamp = m })) g
      → Comes s.id m (multi s) g
  raised_multi s m (GotMax.multi g) c = (c.0, refl, c.1)
  raised_multi s m (GotMax.senti g) c = c
  raised_multi s m (GotMax.snap g) c = c
  raised_multi s m (GotMax.simple_single g) c = c
  raised_multi s m (GotMax.single g) c = c

  pub raised_senti :
      (s : Slot S T) (m : ℕ) (g : GotMax S E T)
      → Comes s.id m (got_max_senti (record s { timestamp = m })) g
      → Comes s.id m (senti s) g
  raised_senti s m (GotMax.multi g) c = c
  raised_senti s m (GotMax.senti g) c = (c.0, refl, c.1)
  raised_senti s m (GotMax.snap g) c = c
  raised_senti s m (GotMax.simple_single g) c = c
  raised_senti s m (GotMax.single g) c = c

  pub raised_snap :
      (s : Slot S T) (m : ℕ) (g : GotMax S E T)
      → Comes s.id m (got_max_snap (record s { timestamp = m })) g
      → Comes s.id m (snap s) g
  raised_snap s m (GotMax.multi g) c = c
  raised_snap s m (GotMax.senti g) c = c
  raised_snap s m (GotMax.snap g) c = (c.0, refl, c.1)
  raised_snap s m (GotMax.simple_single g) c = c
  raised_snap s m (GotMax.single g) c = c
