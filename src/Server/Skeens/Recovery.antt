-- ===== src/Server/Skeens/Recovery.antt =====
-- fuzzy_log_server/src/skeens.rs, `tas_recoverer` and `replicate_recoverer`: which client may finish an
-- append that another has left. Each take-over has a number, and the numbers of one append only grow.
use delos_rust.Prelude.{
  ℕ, ◌+◌, ◌<◌, ◌≤◌, ◌≡◌, ◌≢◌, refl, subst, ◌⊎◌, inl, inr, Bool, true, false, Option, none, some,
  List, [], ◌∷◌, arith, Outcome, ok, ◌>>=◌, add64, ltb, ◌==◌, if◌then◌else◌, lookup, insert,
  lookup-insert, Returns, u64_max, >>=-eq-ok,
}
use delos_rust.Server.Skeens.{SkeensState, Recoverer}

-- The number of the last take-over of an append; 0 before the first.
abbrev pub number_of : Option (ℕ × Recoverer) → ℕ
number_of none = 0
number_of (some (number, current)) = number

-- Who may take over: whoever names the current recoverer, or nobody where there is none.
abbrev pub names : Option (ℕ × Recoverer) → Option ℕ → Bool
names none none = true
names none (some old) = false
names (some (number, current)) none = false
names (some (number, current)) (some old) = current.0 == old

-- A server's part in recovery: the calls it answers, as the primary or as a replica.
pub data Call : Type 0 where
  tas : ℕ → Recoverer → Option ℕ → Call
  copy : ℕ → Recoverer → ℕ → Call

abbrev pub noted : Bool → ℕ ⊎ Option ℕ → List ℕ → List ℕ
noted true (inl n) rest = n ∷ rest
noted _ _ rest = rest

abbrev pub Rising : ℕ → List ℕ → Type 0
Rising low [] = Unit {0}
Rising low (n ∷ ns) = (low < n) × Rising n ns

Rising-mono : (ns : List ℕ) {a b : ℕ} → a ≤ b → Rising b ns → Rising a ns
Rising-mono [] h r = tt
Rising-mono (n ∷ ns) h r = (omega (arith, r.0), r.1)

Rising-noted :
    (mine : Bool) (res : ℕ ⊎ Option ℕ) (ns : List ℕ) {a b : ℕ}
    → a ≤ b
    → ((n : ℕ) → mine ≡ true → res ≡ inl n → (a < n) × (n ≡ b))
    → Rising b ns
    → Rising a (noted mine res ns)
Rising-noted true (inl n) ns h k r =
    ((k n refl refl).0, Rising-mono ns (omega (arith, (k n refl refl).1)) r)
Rising-noted true (inr e) ns h k r = Rising-mono ns h r
Rising-noted false res ns h k r = Rising-mono ns h r

module _ {S E T : Type 0} where
  abbrev put_recoverer : SkeensState S E T → ℕ → ℕ → Recoverer → SkeensState S E T
  put_recoverer s write_id number recoverer = record s {
    recovering = insert write_id (number, recoverer) s.recovering;
  }

  -- `inl` is `Ok`, with the number of the take-over; `inr` is `Err`, with the current recoverer.
  unfoldable pub tas_recoverer :
      SkeensState S E T → ℕ → Recoverer → Option ℕ → Outcome ((ℕ ⊎ Option ℕ) × SkeensState S E T)
  tas_recoverer s write_id recoverer old_recoverer = elim (lookup write_id s.recovering) [
    | none ↦ elim old_recoverer [
      | some old ↦ ok (inr none, s)
      | none ↦ ok (inl 1, put_recoverer s write_id 1 recoverer)
    ]
    | some (number, current) ↦ elim old_recoverer [
      | some old ↦
          let next = (do n ← add64 number 1; ok (inl n, put_recoverer s write_id n recoverer)) in
          if current.0 == old then next else ok (inr (some current.0), s)
      | none ↦ ok (inr (some current.0), s)
    ]
  ]

  unfoldable pub replicate_recoverer :
      SkeensState S E T → ℕ → Recoverer → ℕ → Option (Option ℕ) × SkeensState S E T
  replicate_recoverer s write_id recoverer recoverer_index = elim (lookup write_id s.recovering) [
    | none ↦ (none, put_recoverer s write_id recoverer_index recoverer)
    | some (number, current) ↦
        if ltb number recoverer_index
        then (none, put_recoverer s write_id recoverer_index recoverer)
        else (some (some current.0), s)
  ]

  abbrev pub holder : SkeensState S E T → ℕ → ℕ
  holder s write_id = number_of (lookup write_id s.recovering)

  abbrev pub TestedAndSet :
      SkeensState S E T → ℕ → Recoverer → Option ℕ → (ℕ ⊎ Option ℕ) × SkeensState S E T → Type 0
  TestedAndSet s write_id recoverer old (res, s') =
      (names (lookup write_id s.recovering) old ≡ true
        → (res ≡ inl (holder s write_id + 1))
          × ((id : ℕ)
              → lookup id s'.recovering ≡ (
                  if write_id == id
                  then some (holder s write_id + 1, recoverer)
                  else lookup id s.recovering)))
      × (names (lookup write_id s.recovering) old ≡ false → ((n : ℕ) → res ≢ inl n) × (s' ≡ s))

  -- Below the greatest number, a take-over succeeds exactly for a client that names the current recoverer,
  -- or none where there is none. Then the number goes up by one and the client is the recoverer; no other
  -- append changes. A client that is refused changes nothing.
  pub tas_recoverer_lem :
      (s : SkeensState S E T) (write_id : ℕ) (recoverer : Recoverer) (old : Option ℕ)
      → holder s write_id < u64_max
      → Returns (TestedAndSet s write_id recoverer old) (tas_recoverer s write_id recoverer old)
  unfolding tas_recoverer
  tas_recoverer_lem s write_id recoverer old h =
      ground (
        arith,
        λ (id : ℕ). lookup-insert write_id id (holder s write_id + 1, recoverer) s.recovering,
      )

  -- The numbers that a run of calls has granted for one append, in order.
  unfoldable pub granted : ℕ → SkeensState S E T → List Call → Outcome (List ℕ)
  granted id s [] = ok []
  granted id s (tas write_id recoverer old ∷ calls) = do
    (res, s₁) ← tas_recoverer s write_id recoverer old
    rest ← granted id s₁ calls
    ok (noted (write_id == id) res rest)
  granted id s (copy write_id recoverer number ∷ calls) =
      granted id ((replicate_recoverer s write_id recoverer number).1) calls

  tas_step :
      (s s₁ : SkeensState S E T) (write_id : ℕ) (recoverer : Recoverer) (old : Option ℕ)
      (res : ℕ ⊎ Option ℕ) (id : ℕ)
      → tas_recoverer s write_id recoverer old ≡ ok (res, s₁)
      → (holder s id ≤ holder s₁ id)
        × ((n : ℕ) → (write_id == id) ≡ true → res ≡ inl n → (holder s id < n) × (n ≡ holder s₁ id))
  unfolding tas_recoverer
  tas_step s s₁ write_id recoverer old res id e = ground (
    arith,
    lookup-insert write_id id (1, recoverer) s.recovering,
    lookup-insert write_id id (holder s write_id + 1, recoverer) s.recovering,
  )

  copy_step :
      (s : SkeensState S E T) (write_id : ℕ) (recoverer : Recoverer) (number id : ℕ)
      → holder s id ≤ holder ((replicate_recoverer s write_id recoverer number).1) id
  unfolding replicate_recoverer
  copy_step s write_id recoverer number id =
      ground (arith, lookup-insert write_id id (number, recoverer) s.recovering)

  -- Over any run of take-overs and replicated ones that does not overflow, the numbers granted for one append rise
  -- strictly, from above the number at the start: no two clients ever hold the same number.
  pub granted-Rising :
      (calls : List Call) (id : ℕ) (s : SkeensState S E T) (ns : List ℕ)
      → granted id s calls ≡ ok ns
      → Rising (holder s id) ns
  unfolding granted
  granted-Rising [] id s ns e = ground arith
  granted-Rising (tas write_id recoverer old ∷ calls) id s ns e =
      let (x, a, b) =
        >>=-eq-ok (tas_recoverer s write_id recoverer old)
          (λ x. granted id x.1 calls >>= λ rest. ok (noted (write_id == id) x.0 rest)) e in
      let (rest, c, d) =
        >>=-eq-ok (granted id x.1 calls) (λ rest. ok (noted (write_id == id) x.0 rest)) b in
      let (up, new) = tas_step s x.1 write_id recoverer old x.0 id a in
      let rises =
        Rising-noted (write_id == id) x.0 rest up new (granted-Rising calls id x.1 rest c) in
      subst (Rising (holder s id)) (ground (arith, d)) rises
  granted-Rising (copy write_id recoverer number ∷ calls) id s ns e =
      Rising-mono ns (copy_step s write_id recoverer number id) (granted-Rising calls id _ ns e)
