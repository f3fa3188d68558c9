-- ===== src/Util/DequeMap/Laws.antt =====
-- The queue against its reading function `k ↦ lookup k q.entries`.
use delos_rust.Prelude.{
  ℕ, ◌+◌, ◌^◌, ◌≤◌, ◌<◌, ◌≡◌, refl, true, false, Option, none, some, arith, ok, panic, Returns,
  u64_max, ltb, leb, ◌==◌, if◌then◌else◌, is_empty, lookup, insert, remove, lookup-insert,
  lookup-remove, add64, Option-cases, lookup-nil, inl, inr,
}
use delos_rust.Util.DequeMap.{DequeMap, new, push_back, pop_front, put, get}

-- Keys lie between the indices, and the window never goes below what was popped.
pub record IsValid {V : Type 0} (q : DequeMap V) : Type 0 where
  pub min_start : q.min ≤ q.start
  pub start_next : q.start ≤ q.next
  pub keys : (k : ℕ) (v : V) → lookup k q.entries ≡ some v → (q.start ≤ k) × (k < q.next)

module _ {V : Type 0} where
  pub new-IsValid : IsValid (new {V = V})
  unfolding new
  new-IsValid = record {
    min_start = omega arith;
    start_next = omega arith;
    keys = λ k v e. cc (lookup-nil {V = V} k);
  }

  -- A valid queue reads at every key without a panic.
  pub get_lem : (q : DequeMap V) (k : ℕ) → IsValid q → get q k ≡ ok (lookup k q.entries)
  unfolding get
  get_lem q k i = elim (Option-cases (lookup k q.entries)) [
    | inl e ↦ ground arith
    | inr (v, e) ↦ ground (arith, i.keys k v)
  ]

  abbrev pub Pushed : DequeMap V → V → ℕ × DequeMap V → Type 0
  Pushed q v (key, q') =
      (key ≡ q.next)
      × IsValid q'
      × (q'.start ≡ q.start)
      × (q'.next ≡ q.next + 1)
      × ((k : ℕ) → get q' k ≡ (if key == k then ok (some v) else get q k))

  push-keys :
      (q : DequeMap V) (v : V) (k : ℕ) (w : V)
      → IsValid q
      → lookup k (insert q.next v q.entries) ≡ some w
      → (q.start ≤ k) × (k < q.next + 1)
  push-keys q v k w i e =
      ground (arith, lookup-insert q.next k v q.entries, i.keys k w, i.start_next)

  pub push-IsValid :
      (q : DequeMap V) (v : V)
      → IsValid q
      → IsValid (record q { entries = insert q.next v q.entries; next = q.next + 1 })
  push-IsValid q v i = record {
    min_start = i.min_start;
    start_next = omega (arith, i.start_next);
    keys = λ k w e. push-keys q v k w i e;
  }

  -- Below the last index, `push_back` on a valid queue returns the push index; there the new value is read,
  -- every other key reads as before, and the queue is valid and longer by one.
  pub push_back_lem :
      (q : DequeMap V) (v : V) → IsValid q → q.next < u64_max → Returns (Pushed q v) (push_back q v)
  unfolding push_back
  push_back_lem q v i h =
      let sum : ltb (q.next + 1) (2 ^ 64) ≡ true = ground arith in
      rw sum (
        refl,
        push-IsValid q v i,
        refl,
        refl,
        λ k.
            rw (get_lem q k i, get_lem _ k (push-IsValid q v i))
              (ground (arith, lookup-insert q.next k v q.entries)),
      )

  abbrev pub Popped : DequeMap V → Option V × DequeMap V → Type 0
  Popped q (v, q') =
      (ok v ≡ get q q.start)
      × IsValid q'
      × (q'.start ≡ q.start + 1)
      × (q'.next ≡ q.next)
      × ((k : ℕ) → get q' k ≡ (if q.start == k then ok none else get q k))
      × ((k : ℕ) (w : V) → k ≤ q.start → put q' k w ≡ panic)

  pub pop-IsValid :
      (q : DequeMap V)
      → IsValid q
      → q.start < q.next
      → IsValid
          (record q { entries = remove q.start q.entries; start = q.start + 1; min = q.start + 1 })
  pop-IsValid q i h = record {
    min_start = omega arith;
    start_next = omega arith;
    keys = λ k w e. ground (arith, lookup-remove q.start k q.entries, i.keys k w);
  }

  -- A pop on a valid queue with entries returns what the start index reads (perhaps nothing), forgets that
  -- key for good, and leaves every other key as it was.
  pub pop_front_lem :
      (q : DequeMap V)
      → IsValid q
      → is_empty q.entries ≡ false
      → q.start < q.next
      → q.next ≤ u64_max
      → Returns (Popped q) (pop_front q)
  unfolding pop_front put
  pop_front_lem q i e h b =
      let sum : ltb (q.start + 1) (2 ^ 64) ≡ true = ground arith in
      rw e (
        rw sum (
          rw (get_lem q q.start i) refl,
          pop-IsValid q i h,
          refl,
          refl,
          (λ k.
              rw (get_lem q k i, get_lem _ k (pop-IsValid q i h))
                (ground (arith, lookup-remove q.start k q.entries))),
          λ k w x. ground arith,
        ))

  abbrev pub Put : DequeMap V → ℕ → V → Option V × DequeMap V → Type 0
  Put q key v (old, q') =
      (ok old ≡ get q key)
      × IsValid q'
      × (q'.start ≤ key)
      × (key < q'.next)
      × ((k : ℕ) → get q' k ≡ (if key == k then ok (some v) else get q k))

  put-IsValid :
      (q : DequeMap V) (key : ℕ) (v : V) (start next : ℕ)
      → IsValid q
      → q.min ≤ start
      → start ≤ q.start
      → start ≤ key
      → q.next ≤ next
      → key < next
      → IsValid (record q { entries = insert key v q.entries; start = start; next = next })
  put-IsValid q key v start next i a b c d e = record {
    min_start = a;
    start_next = omega arith;
    keys = λ k w h. ground (arith, lookup-insert key k v q.entries, i.keys k w);
  }

  -- An insertion on a valid queue panics below the window's minimum. From there on (below `u64::MAX`) it
  -- returns what the key read before; afterwards the key reads as the new value, every other key as before,
  -- and the queue is valid with the key between its indices.
  pub put_lem :
      (q : DequeMap V) (key : ℕ) (v : V)
      → IsValid q
      → key < u64_max
      → ((key < q.min → put q key v ≡ panic) × (q.min ≤ key → Returns (Put q key v) (put q key v)))
  unfolding put
  put_lem q key v i b = (
    (λ h. ground arith),
    λ h.
        let above : ltb key q.min ≡ false = ground arith in
        let start : ℕ = if ltb key q.start then key else q.start in
        let next : ℕ = if leb q.next key then key + 1 else q.next in
        let sum : (if leb q.next key then add64 key 1 else ok q.next) ≡ ok next = ground arith in
        let valid : IsValid
            (record q { entries = insert key v q.entries; start = start; next = next }) =
          put-IsValid q key v start next i (ground (arith, i.min_start)) (ground arith)
            (ground arith) (ground arith) (ground arith) in
        rw above (
          rw sum (
            rw (get_lem q key i) refl,
            valid,
            ground arith,
            ground arith,
            λ k.
                rw (get_lem q k i, get_lem _ k valid)
                  (ground (arith, lookup-insert key k v q.entries)),
          )),
  )
