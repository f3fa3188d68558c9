-- ===== src/Server/Skeens/Added.antt =====
-- `add_multi_append`, `add_snapshot` and `add_single_append`: a new append takes the next timestamp, one that is
-- known changes nothing.
use delos_rust.Prelude.{
  ℕ, ◌+◌, ◌^◌, ◌<◌, ◌≡◌, refl, sym, subst, ◌∙◌, ◌>>=◌, ◌⊎◌, inl, inr, Bool, true, false, Option,
  none, some, arith, lookup, ok, Returns, Returns->>=, Outcome, u64_max, ◌==◌, if◌then◌else◌,
  is_empty, Option-cases, Bool-cases, lookup_of_is_empty, ltb,
}
use delos_rust.Util.DequeMap
use delos_rust.Util.DequeMap.{DequeMap}
use delos_rust.Util.DequeMap.Laws.{get_lem}
use delos_rust.Server.Waiting.{
  WaitingForMax, has_max, get_id, multi_timestamp, multi, senti, snap, simple_single,
}
use delos_rust.Server.Skeens.{
  SkeensState, AppendStatus, SkeensAppendRes, phase1, singleton, new_append, old_phase1, enqueue,
  append_new, known, add_multi_append, add_snapshot, add_single_append, slot, check, seen,
}
use delos_rust.Server.Skeens.Invariant.{time, is_primary, status_of, Waits, Inv, IsSettled}
use delos_rust.Server.Skeens.Clock.{bumped, bump_lem, bumped-IsSettled}
use delos_rust.Server.Skeens.Append.{enqueued, enqueued-IsSettled}

module _ {S E T : Type 0} where
  pub index_lem :
      (s : SkeensState S E T) (k : ℕ) (w : WaitingForMax S E T)
      → Inv s
      → Waits s k w
      → DequeMap.index s.phase1_queue k ≡ ok w
  unfolding DequeMap.index
  index_lem s k w i e = rw (get_lem s.phase1_queue k i.window) (rw e refl)

  -- The assertions around every operation hold.
  pub check_lem : (s : SkeensState S E T) → IsSettled s → check s ≡ ok tt
  check_lem s i = elim (Bool-cases (is_empty s.phase1_queue.entries)) [
    | inl e ↦
        let lone : s.phase1_queue.start ≡ s.phase1_queue.next = ground (
          arith,
          i.inv.dense s.phase1_queue.start,
          i.inv.window.start_next,
          lookup_of_is_empty s.phase1_queue.start s.phase1_queue.entries e,
        ) in
        rw (e, i.queue lone) refl
    | inr e ↦ rw e refl
  ]

  -- What the caller learns of an append with a status, and what becomes of the state.
  abbrev pub Answered :
      SkeensState S E T → ℕ → Option AppendStatus → SkeensAppendRes → SkeensState S E T → Type 0
  Answered s id none res s' =
      (res ≡ new_append s.next_timestamp s.phase1_queue.next)
      × (w : WaitingForMax S E T) × (s' ≡ enqueued s id w)
      × (get_id w ≡ id)
      × (time w ≡ s.next_timestamp)
  Answered s id (some (AppendStatus.phase2 t)) res s' = (res ≡ SkeensAppendRes.phase2 t) × (s' ≡ s)
  Answered s id (some (phase1 k)) res s' =
      (w : WaitingForMax S E T) × Waits s k w
      × (get_id w ≡ id)
      × (res ≡ old_phase1 (time w))
      × (s' ≡ s)
  Answered s id (some (singleton k)) res s' =
      (w : WaitingForMax S E T) × Waits s k w
      × (get_id w ≡ id)
      × (res ≡ SkeensAppendRes.phase2 (time w))
      × (s' ≡ s)

  abbrev pub Answer : SkeensState S E T → ℕ → SkeensAppendRes × SkeensState S E T → Type 0
  Answer s id (res, s') = IsSettled s' × Answered s id (lookup id s.append_status) res s'

  seen_waiting :
      (w : WaitingForMax S E T) → has_max w ≡ false → seen (multi_timestamp w) ≡ old_phase1 (time w)
  unfolding has_max multi_timestamp
  seen_waiting w h = ground arith

  seen_single :
      (w : WaitingForMax S E T) (k i : ℕ)
      → status_of w k ≡ singleton i
      → seen (multi_timestamp w) ≡ SkeensAppendRes.phase2 (time w)
  unfolding multi_timestamp
  seen_single w k i h = ground arith

  known_lem :
      (s : SkeensState S E T) (id : ℕ) (st : AppendStatus)
      → IsSettled s
      → lookup id s.append_status ≡ some st
      → Returns (λ res. Answered s id (some st) res s) (known s st)
  unfolding known
  known_lem s id (AppendStatus.phase2 t) i e = (refl, refl)
  known_lem s id (phase1 k) i e =
      let (w, a, b, c) = i.inv.waiting id k e in
      rw (index_lem s k w i.inv a) (w, a, b, seen_waiting w c, refl)
  known_lem s id (singleton k) i e =
      let (w, a, b) = i.singles id k e in
      let f : status_of w k ≡ singleton k = ground (arith, (i.inv.entry k w a).status) in
      rw (index_lem s k w i.inv a) (w, a, b, seen_single w k k f, refl)

  enqueue_lem :
      (s : SkeensState S E T) (id : ℕ) (entry : ℕ → ℕ → WaitingForMax S E T)
      (status : ℕ → AppendStatus)
      → s.next_timestamp < u64_max
      → s.phase1_queue.next < u64_max
      → status s.phase1_queue.next
        ≡ status_of (entry s.next_timestamp s.phase1_queue.next) s.phase1_queue.next
      → enqueue s id entry status
        ≡ ok (
          new_append s.next_timestamp s.phase1_queue.next,
          enqueued s id (entry s.next_timestamp s.phase1_queue.next),
        )
  unfolding enqueue DequeMap.push_back
  enqueue_lem s id entry status a b e =
      let time64 : ltb (s.next_timestamp + 1) (2 ^ 64) ≡ true = ground arith in
      let next64 : ltb (s.phase1_queue.next + 1) (2 ^ 64) ≡ true = ground arith in
      let same : (s.phase1_queue.next == s.phase1_queue.next) ≡ true = ground arith in
      rw (time64, next64, same) (rw e refl)

  append_new-none :
      (s : SkeensState S E T) (id : ℕ) (entry : ℕ → ℕ → WaitingForMax S E T)
      (status : ℕ → AppendStatus)
      → lookup id s.append_status ≡ none
      → append_new s id entry status ≡ enqueue s id entry status
  unfolding append_new
  append_new-none s id entry status f = rw (f, append_new) refl

  append_new-some :
      (s : SkeensState S E T) (id : ℕ) (entry : ℕ → ℕ → WaitingForMax S E T)
      (status : ℕ → AppendStatus) (st : AppendStatus)
      → lookup id s.append_status ≡ some st
      → append_new s id entry status ≡ (known s st >>= λ res. ok (res, s))
  unfolding append_new
  append_new-some s id entry status st f = rw (f, append_new) refl

  append_new_lem :
      (s : SkeensState S E T) (id : ℕ) (entry : ℕ → ℕ → WaitingForMax S E T)
      (status : ℕ → AppendStatus)
      → IsSettled s
      → s.next_timestamp < u64_max
      → s.phase1_queue.next < u64_max
      → let w = entry s.next_timestamp s.phase1_queue.next in
        status s.phase1_queue.next ≡ status_of w s.phase1_queue.next
        → is_primary w ≡ true
        → get_id w ≡ id
        → time w ≡ s.next_timestamp
        → (s.phase1_queue.start < s.phase1_queue.next) ⊎ (has_max w ≡ false)
        → Returns (Answer s id) (append_new s id entry status)
  append_new_lem s id entry status i a b e p n t h =
      elim (Option-cases (lookup id s.append_status)) [
        | inl f ↦
            subst (Returns (Answer s id))
              (sym (append_new-none s id entry status f ∙ enqueue_lem s id entry status a b e))
              (enqueued-IsSettled s id _ i f p n t h, rw f (refl, _, refl, n, t))
        | inr (st, f) ↦
            subst (Returns (Answer s id)) (sym (append_new-some s id entry status st f)) (
              Returns->>= (λ res. Answered s id (some st) res s) (Answer s id) (known s st)
                (λ res. ok (res, s)) (known_lem s id st i f) (λ res x. (i, rw f x)))
      ]

  -- The times and indices that an append may still take.
  abbrev pub HasRoom : SkeensState S E T → Type 0
  HasRoom s = (s.next_timestamp < u64_max) × (s.phase1_queue.next < u64_max)

  checked_lem :
      (s : SkeensState S E T) (id : ℕ) (m : Outcome (SkeensAppendRes × SkeensState S E T))
      → IsSettled s
      → Returns (Answer s id) m
      → Returns (Answer s id) (check s >>= λ _. m >>= λ x. check x.1 >>= λ _. ok (x.0, x.1))
  checked_lem s id m i r = rw (check_lem s i) (
      Returns->>= (Answer s id) (Answer s id) m (λ x. check x.1 >>= λ _. ok (x.0, x.1)) r
        (λ x a.
          subst (λ o. Returns (Answer s id) (o >>= λ _. ok (x.0, x.1))) (sym (check_lem x.1 a.0))
            a))

  -- A multiappend between operations does not panic. With a new id it takes the next timestamp and the next
  -- index; with a known id the answer repeats what is known and the state stays as it was.
  pub add_multi_append_lem :
      (s : SkeensState S E T) (id : ℕ) (storage : S) (sentinel : Bool) (t : T)
      → IsSettled s
      → HasRoom s
      → Returns (Answer s id) (add_multi_append s id storage sentinel t)
  unfolding add_multi_append get_id has_max multi_timestamp
  add_multi_append_lem s id storage sentinel t i (a, b) = checked_lem s id _ i (
      append_new_lem s id
        (λ time num.
          if sentinel
          then senti (slot storage t id time num)
          else multi (slot storage t id time num))
        AppendStatus.phase1 i a b (ground arith) (ground arith) (ground arith) (ground arith)
        (inr (ground arith)))

  -- A snapshot between operations does not panic. With a new id it takes the next timestamp and the next
  -- index; with a known id the answer repeats what is known and the state stays as it was.
  pub add_snapshot_lem :
      (s : SkeensState S E T) (id : ℕ) (storage : S) (t : T)
      → IsSettled s
      → HasRoom s
      → Returns (Answer s id) (add_snapshot s id storage t)
  unfolding add_snapshot get_id has_max multi_timestamp
  add_snapshot_lem s id storage t i (a, b) = checked_lem s id _ i (
      append_new_lem s id (λ time num. snap (slot storage t id time num)) AppendStatus.phase1 i a b
        refl refl refl refl (inr refl))

  -- A single append between operations, while an append waits, does not panic. The clock is first moved past the given
  -- time; then a new id takes the next timestamp and the next index, and a known id is answered with what is
  -- known and changes nothing more.
  pub add_single_append_lem :
      (s : SkeensState S E T) (id timestamp : ℕ) (storage : E) (t : T)
      → IsSettled s
      → HasRoom s
      → timestamp + 1 < u64_max
      → s.phase1_queue.start < s.phase1_queue.next
      → Returns (Answer (bumped s timestamp) id) (add_single_append s id timestamp storage t)
  unfolding add_single_append get_id has_max multi_timestamp
  add_single_append_lem s id timestamp storage t i (a, b) c d =
      let full : is_empty s.phase1_queue.entries ≡ false = ground (
        arith,
        i.inv.dense s.phase1_queue.start,
        lookup_of_is_empty s.phase1_queue.start s.phase1_queue.entries,
      ) in
      rw (check_lem s i, full)
        (rw (bump_lem s timestamp (omega arith)) (
          append_new_lem (bumped s timestamp) id
            (λ time num. simple_single (slot storage t id time num)) singleton
            (bumped-IsSettled s timestamp i) (ground arith) b refl refl refl refl (inl d)))
