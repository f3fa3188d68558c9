-- ===== src/Server/GotMax/Order.antt =====
-- The order of `GotMax` and the heap that keeps to it.
use delos_rust.Prelude.{
  ◌≤◌, ◌≡◌, ◌≢◌, refl, sym, ap, ◌⊎◌, inl, inr, compare, Ordering, Bool, true, false, List, [], ◌∷◌,
  arith, ok, All, length, suc,
}
use delos_rust.Server.GotMax.{GotMax, cmp, push, timestamp, get_id, is_multi, reverse, single}

-- An order by two keys, and multiappends before single ones.
abbrev pub lex : Ordering → Ordering → Ordering
lex Ordering.lt o = Ordering.lt
lex Ordering.eq o = o
lex Ordering.gt o = Ordering.gt

abbrev pub class_order : Bool → Bool → Ordering → Ordering
class_order true false o = Ordering.lt
class_order false true o = Ordering.gt
class_order _ _ o = o

Ordering-cases : (o : Ordering) → (o ≡ Ordering.lt) ⊎ (o ≢ Ordering.lt)
Ordering-cases Ordering.lt = inl refl
Ordering-cases Ordering.eq = inr (λ e. cc)
Ordering-cases Ordering.gt = inr (λ e. cc)

module _ {S E T : Type 0} where
  -- `Single`, which no code constructs.
  abbrev pub is_regular : GotMax S E T → Bool
  is_regular (single s) = false
  is_regular _ = true

  -- The order of delivery, first to last.
  abbrev pub delivery_order : GotMax S E T → GotMax S E T → Ordering
  delivery_order g h =
      lex (compare (timestamp g) (timestamp h))
        (class_order (is_multi g) (is_multi h) (compare (get_id g) (get_id h)))

  -- On the variants that the code constructs, with different ids, `cmp` is the reverse of the order by time, then
  -- multiappends before single ones, then id: the greatest element of the heap is delivered first.
  pub cmp_lem :
      (g h : GotMax S E T)
      → is_regular g ≡ true
      → is_regular h ≡ true
      → get_id g ≢ get_id h
      → cmp g h ≡ ok (reverse (delivery_order g h))
  unfolding cmp timestamp is_multi get_id
  cmp_lem g h a b c = ground arith

  cmp-times :
      (g h : GotMax S E T)
      → is_regular g ≡ true
      → is_regular h ≡ true
      → get_id g ≢ get_id h
      → (o : Ordering) × (cmp g h ≡ ok o)
        × ((o ≡ Ordering.lt → timestamp h ≤ timestamp g))
        × ((o ≢ Ordering.lt → timestamp g ≤ timestamp h))
  cmp-times g h a b c =
      (reverse (delivery_order g h), cmp_lem g h a b c, ground arith, ground arith)

  -- Times do not fall along the list, and no id comes twice.
  abbrev pub Ascending : List (GotMax S E T) → Type 0
  Ascending [] = Unit {0}
  Ascending (g ∷ gs) =
      All (λ h. (timestamp g ≤ timestamp h) × (get_id g ≢ get_id h)) gs × Ascending gs

  abbrev pub After : GotMax S E T → GotMax S E T → Type 0
  After g h = (timestamp g ≤ timestamp h) × (get_id g ≢ get_id h)

  abbrev pub IsNew : GotMax S E T → GotMax S E T → Type 0
  IsNew g h = (is_regular h ≡ true) × (get_id g ≢ get_id h)

  -- The heap after a push: ascending, with the old elements and the new one.
  abbrev pub Pushed : GotMax S E T → List (GotMax S E T) → List (GotMax S E T) → Type 1
  Pushed g heap heap' =
      Ascending heap'
      × (length heap' ≡ suc (length heap))
      × ((P : GotMax S E T → Type 0) → P g → All P heap → All P heap')

  All-After :
      (g h : GotMax S E T) (heap : List (GotMax S E T))
      → timestamp g ≤ timestamp h
      → All (IsNew g) heap
      → All (After h) heap
      → All (After g) heap
  All-After g h [] e n a = tt
  All-After g h (x ∷ heap) e n a = (ground arith, All-After g h heap e n.1 a.1)

  -- A push onto an ascending heap does not panic if the id is new.
  pub push_lem :
      (g : GotMax S E T) (heap : List (GotMax S E T))
      → is_regular g ≡ true
      → All (IsNew g) heap
      → Ascending heap
      → (heap' : List (GotMax S E T)) × (push g heap ≡ ok heap') × Pushed g heap heap'
  unfolding push
  push_lem g [] r n a = (g ∷ [], refl, ((tt, tt), refl, λ P p q. (p, tt)))
  push_lem g (h ∷ heap) r n a =
      let (o, e, lt, ge) = cmp-times g h r n.0.0 n.0.1 in
      elim (Ordering-cases o) [
        | inl f ↦
            let (heap', p, (asc, len, all)) = push_lem g heap r n.1 a.1 in
            (
              h ∷ heap',
              ground (arith, e, f, p),
              (
                (all (After h) (lt f, λ x. n.0.1 (sym x)) a.0, asc),
                ap suc len,
                λ P x y. (y.0, all P x y.1),
              ),
            )
        | inr f ↦ (
          g ∷ h ∷ heap,
          ground (arith, e, f),
          ((((ge f, n.0.1), All-After g h heap (ge f) n.1 a.0), a), refl, λ P x y. (x, y)),
        )
      ]
