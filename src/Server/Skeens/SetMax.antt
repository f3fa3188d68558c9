-- ===== src/Server/Skeens/SetMax.antt =====
-- `set_max_timestamp`: an append gets its final timestamp.
use delos_rust.Prelude.{
  ℕ, suc, ◌-◌, ◌<◌, ◌≤◌, ◌≡◌, ◌≢◌, refl, sym, ◌∙◌, subst, ◌⊎◌, inl, inr, Bool, true, false, Option,
  none, some, List, [], ◌∷◌, arith, ok, ◌>>=◌, if◌then◌else◌, lookup, lookup-insert, Returns,
  Returns-map, Returns-value, u64_max, Option-cases, All,
}
use delos_rust.Util.DequeMap
use delos_rust.Util.DequeMap.{DequeMap}
use delos_rust.Server.Waiting.{WaitingForMax, has_max, get_id}
use delos_rust.Server.GotMax.{GotMax, happens_before}
use delos_rust.Server.Skeens.{
  SkeensState, AppendStatus, SkeensSetMaxRes, phase1, singleton, okay, needs_flush, not_waiting,
  duplicate, can_flush, set_max_entry, settle, set_max_timestamp,
}
use delos_rust.Server.Skeens.Invariant.{
  time, is_primary, Waits, Inv, FrontWaits, SinglesKnown, pending, IsSettled,
}
use delos_rust.Server.Skeens.Clock.{bumped, bump_lem, bumped_high, bumped-IsSettled}
use delos_rust.Server.Skeens.Added.{check_lem, index_lem}
use delos_rust.Server.Skeens.Drain.{Drained, drain_lem}
use delos_rust.Server.Skeens.Raised.{
  Lifted, lifted_lem, raised, Inv-raised, SinglesKnown-raised, Origin-raised,
}
use delos_rust.Server.Skeens.Origin.{Origin}

module _ {S E T : Type 0} where
  happens_before_lem :
      (g : GotMax S E T) (w : WaitingForMax S E T)
      → is_primary w ≡ true
      → has_max w ≡ false
      → Returns (λ b. Unit {0}) (happens_before g w)
  unfolding happens_before has_max
  happens_before_lem g w p h = ground arith

  pub heap_cases :
      (heap : List (GotMax S E T))
      → (heap ≡ []) ⊎ ((g : GotMax S E T) × (gs : List (GotMax S E T)) × (heap ≡ g ∷ gs))
  heap_cases [] = inl refl
  heap_cases (g ∷ gs) = inr (g, gs, refl)

  pub can_flush-queued :
      (s : SkeensState S E T) (g : GotMax S E T) (gs : List (GotMax S E T))
      (w : WaitingForMax S E T)
      → s.got_max_timestamp ≡ g ∷ gs
      → Waits s s.phase1_queue.start w
      → can_flush s ≡ happens_before g w
  unfolding can_flush
  can_flush-queued s g gs w e f = rw (e, can_flush) (rw f refl)

  -- While the front waits, the test for a flush does not panic.
  pub can_flush_lem :
      (s : SkeensState S E T) → Inv s → FrontWaits s → (b : Bool) × (can_flush s ≡ ok b)
  unfolding can_flush
  can_flush_lem s i f = elim (heap_cases s.got_max_timestamp) [
    | inl e ↦ (false, rw (e, can_flush) refl)
    | inr (g, gs, e) ↦ elim (Option-cases (lookup s.phase1_queue.start s.phase1_queue.entries)) [
      | inl n ↦ (true, rw (e, can_flush) (rw n refl))
      | inr (w, n) ↦
          let (b, x, y) =
            Returns-value (happens_before g w)
              (happens_before_lem g w (i.entry s.phase1_queue.start w n).primary (f w n)) in
          (b, can_flush-queued s g gs w e n ∙ x)
    ]
  ]

  -- What becomes of an append with a status when its final timestamp arrives.
  abbrev pub Set :
      SkeensState S E T → ℕ → ℕ → Option AppendStatus → SkeensSetMaxRes → SkeensState S E T → Type 0
  Set s id m none res s' = (res ≡ not_waiting) × (s' ≡ bumped s m)
  Set s id m (some (AppendStatus.phase2 t)) res s' = (res ≡ duplicate t) × (s' ≡ bumped s m)
  Set s id m (some (singleton k)) res s' =
      (w : WaitingForMax S E T) × Waits s k w × (res ≡ duplicate (time w)) × (s' ≡ bumped s m)
  Set s id m (some (phase1 k)) res s' =
      Inv s'
      × FrontWaits s'
      × SinglesKnown s'
      × (pending s' ≡ pending s)
      × (s'.last_flush ≡ s.last_flush)
      × (lookup id s'.append_status ≡ some (AppendStatus.phase2 m))
      × (b : Bool) × (can_flush s' ≡ ok b)
      × (res ≡ (if b then needs_flush else okay))
      × All (Origin id m s) s'.got_max_timestamp

  abbrev Resettled : SkeensState S E T → SkeensSetMaxRes × SkeensState S E T → Type 0
  Resettled s (res, s') =
      Inv s'
      × FrontWaits s'
      × SinglesKnown s'
      × (pending s' ≡ pending s)
      × (s'.last_flush ≡ s.last_flush)
      × (s'.append_status ≡ s.append_status)
      × (b : Bool) × (can_flush s' ≡ ok b)
      × (res ≡ (if b then needs_flush else okay))
      × ((id m : ℕ) → All (Origin id m s) s'.got_max_timestamp)

  settle-okay :
      (s : SkeensState S E T)
      → Inv s
      → SinglesKnown s
      → s.phase1_queue.next ≤ u64_max
      → Returns (Resettled s) (settle okay s)
  unfolding settle
  settle-okay s i q b =
      let (x, e, (j, f, k, more, org)) =
        Returns-value {P = Drained s} _
          (drain_lem (suc (s.phase1_queue.next - s.phase1_queue.start)) s i q b (omega arith)) in
      let (flush, g) =
        can_flush_lem (record s { phase1_queue = x.0; got_max_timestamp = x.1 }) j f in
      rw e (rw g (j, f, k, more, refl, refl, flush, g, refl, org))

  set_max_entry-phase1 :
      (s : SkeensState S E T) (id k m : ℕ) (w w' : WaitingForMax S E T)
      → Inv s
      → Waits s k w
      → Lifted w m w'
      → set_max_entry s id m (some (phase1 k)) ≡ ok (okay, raised s id k w' m)
  unfolding set_max_entry DequeMap.write
  set_max_entry-phase1 s id k m w w' i e f = rw (index_lem s k w i e) (rw f.0 refl)

  set_max_timestamp-at :
      (s : SkeensState S E T) (id m : ℕ) (st : Option AppendStatus)
      → IsSettled s
      → m < u64_max
      → lookup id s.append_status ≡ st
      → set_max_timestamp s id m ≡ (set_max_entry (bumped s m) id m st >>= λ x. settle x.0 x.1)
  unfolding set_max_timestamp
  set_max_timestamp-at s id m st i b e = rw (check_lem s i, bump_lem s m b) (rw (e, ◌>>=◌) refl)

  settle-same :
      (s : SkeensState S E T) (res : SkeensSetMaxRes)
      → IsSettled s
      → res ≢ okay
      → settle res s ≡ ok (res, s)
  unfolding settle
  settle-same s okay i h = absurd (h refl)
  settle-same s needs_flush i h = rw (check_lem s i) refl
  settle-same s not_waiting i h = rw (check_lem s i) refl
  settle-same s (duplicate t) i h = rw (check_lem s i) refl

  module _ (s : SkeensState S E T) (id m : ℕ) (i : IsSettled s) (b : m < u64_max)
      (n : s.phase1_queue.next ≤ u64_max)
      (l : (k : ℕ) (w : WaitingForMax S E T) → Waits s k w → get_id w ≡ id → time w ≤ m) where
    abbrev After : Option AppendStatus → SkeensSetMaxRes × SkeensState S E T → Type 0
    After st x = Set s id m st x.0 x.1

    settled : IsSettled (bumped s m)
    settled = bumped-IsSettled s m i

    set_max-same :
        (st : Option AppendStatus) (res : SkeensSetMaxRes)
        → res ≢ okay
        → set_max_entry (bumped s m) id m st ≡ ok (res, bumped s m)
        → After st (res, bumped s m)
        → Returns (After st) (set_max_entry (bumped s m) id m st >>= λ x. settle x.0 x.1)
    set_max-same st res h e a =
        subst (λ o. Returns (After st) (o >>= λ x. settle x.0 x.1)) (sym e)
          (subst (Returns (After st)) (sym (settle-same (bumped s m) res settled h)) a)

    set_max_waiting :
        (k : ℕ)
        → lookup id s.append_status ≡ some (phase1 k)
        → Returns
            (After (some (phase1 k)))
            (set_max_entry (bumped s m) id m (some (phase1 k)) >>= λ x. settle x.0 x.1)
    set_max_waiting k e =
        let (w, a, c, d) = i.inv.waiting id k e in
        let (w', f) = lifted_lem w m d (l k w a c) in
        let j =
          Inv-raised (bumped s m) settled.inv id k m w w' a c (l k w a c) (bumped_high s m).1 f in
        let known =
          SinglesKnown-raised (bumped s m) settled.inv id k m w w' a c (l k w a c)
            (bumped_high s m).1 f i.singles in
        subst (λ o. Returns (After (some (phase1 k))) (o >>= λ x. settle x.0 x.1))
          (sym (set_max_entry-phase1 (bumped s m) id k m w w' settled.inv a f))
          (Returns-map {P = Resettled (raised (bumped s m) id k w' m)} {Q = After (some (phase1 k))}
            _ (settle-okay (raised (bumped s m) id k w' m) j known n)
            (λ x (p, q, y, o, o', r, u, v, z, org). (
              p,
              q,
              y,
              o,
              o',
              rw r (ground (arith, lookup-insert id id (AppendStatus.phase2 m) s.append_status)),
              u,
              v,
              z,
              Origin-raised (bumped s m) settled.inv id k m w w' a c (l k w a c) (bumped_high s m).1
                  f x.1.got_max_timestamp (org id m),
            )))

    set_max_lem :
        (st : Option AppendStatus)
        → lookup id s.append_status ≡ st
        → Returns (After st) (set_max_entry (bumped s m) id m st >>= λ x. settle x.0 x.1)
    unfolding set_max_entry
    set_max_lem none e = set_max-same none not_waiting (λ x. cc) refl (refl, refl)
    set_max_lem (some (AppendStatus.phase2 t)) e =
        set_max-same (some (AppendStatus.phase2 t)) (duplicate t) (λ x. cc) refl (refl, refl)
    set_max_lem (some (singleton k)) e =
        let (w, a, c) = i.singles id k e in
        set_max-same (some (singleton k)) (duplicate (time w)) (λ x. cc)
          (rw (index_lem (bumped s m) k w settled.inv a) refl) (w, a, refl, refl)
    set_max_lem (some (phase1 k)) e = set_max_waiting k e

  -- The final timestamp of an append, not below this server's proposal, arrives between operations:
  -- nothing panics. An append that waits has it from then on, the invariant holds, no entry with a
  -- final timestamp is in front of the queue, as many appends are in the queue and the heap as before,
  -- and the answer tells whether the heap can be flushed.
  -- For any other append only the clock moves, past the timestamp if it has to, and the answer is
  -- that nothing waits or the timestamp that the append already has.
  pub set_max_timestamp_lem :
      (s : SkeensState S E T) (id m : ℕ)
      → IsSettled s
      → m < u64_max
      → s.phase1_queue.next ≤ u64_max
      → ((k : ℕ) (w : WaitingForMax S E T) → Waits s k w → get_id w ≡ id → time w ≤ m)
      → Returns
          (λ (res, s'). Set s id m (lookup id s.append_status) res s')
          (set_max_timestamp s id m)
  set_max_timestamp_lem s id m i b n l =
      subst (Returns (After s id m i b n l (lookup id s.append_status)))
        (sym (set_max_timestamp-at s id m (lookup id s.append_status) i b refl))
        (set_max_lem s id m i b n l (lookup id s.append_status) refl)
