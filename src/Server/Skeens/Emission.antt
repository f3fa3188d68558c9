-- ===== src/Server/Skeens/Emission.antt =====
-- The loop of `replicate_round2`: a replica hands on the appends at the front of its queue that both rounds have
-- reached, in the order of their indices, and stops at the first that still waits.
use delos_rust.Prelude.{
  ℕ, zero, suc, ◌+◌, ◌-◌, ◌^◌, ◌<◌, ◌≤◌, ◌≡◌, refl, sym, subst, inl, inr, true, false, none, some,
  List, [], ◌∷◌, arith, ok, ◌>>=◌, ltb, if◌then◌else◌, is_some, is_empty, lookup, remove,
  lookup-remove, lookup_of_is_empty, Returns, Returns->>=, u64_max, Option-cases, Bool-cases,
}
use delos_rust.Util.DequeMap
use delos_rust.Util.DequeMap.{DequeMap}
use delos_rust.Util.DequeMap.Laws.{IsValid, pop-IsValid}
use delos_rust.Server.Waiting.{
  WaitingForMax, ReplicatedSkeens, ReplicaSlot, Replica, has_replication, to_replica, get_id,
  replicated_multi, replicated_senti, replicated_snap, replicated_single,
}
use delos_rust.Server.Skeens.{SkeensState}
use delos_rust.Server.Skeens.Replica.{flush_replicas}

-- The append has what its entry has.
abbrev pub Carries : {X T : Type 0} → ReplicaSlot X T → Replica X T → Type 0
Carries s r =
    (r.index ≡ s.index)
    × (r.storage ≡ s.storage)
    × (r.max_timestamp ≡ s.max_timestamp)
    × (r.t ≡ s.t)

module _ {S E T : Type 0} where
  -- Every entry of the queue has a status, and no id stands there twice.
  pub record IsTracked (s : SkeensState S E T) : Type 0 where
    pub window : IsValid s.phase1_queue
    pub bound : s.phase1_queue.next ≤ u64_max
    pub status :
        (k : ℕ) (w : WaitingForMax S E T)
        → lookup k s.phase1_queue.entries ≡ some w
        → is_some (lookup (get_id w) s.append_status) ≡ true
    pub ids :
        (i j : ℕ) (v w : WaitingForMax S E T)
        → lookup i s.phase1_queue.entries ≡ some v
        → lookup j s.phase1_queue.entries ≡ some w
        → get_id v ≡ get_id w
        → i ≡ j

  -- An entry that its second round has reached: with the index and the final timestamp of the primary
  abbrev pub IsReplicated : WaitingForMax S E T → Type 0
  IsReplicated (replicated_multi r) = Unit {0}
  IsReplicated (replicated_senti r) = Unit {0}
  IsReplicated (replicated_snap r) = Unit {0}
  IsReplicated (replicated_single r) = Unit {0}
  IsReplicated _ = ⊥

  has_replication_lem : (w : WaitingForMax S E T) → has_replication w ≡ false → ¬ IsReplicated w
  unfolding has_replication
  has_replication_lem (replicated_multi r) h c = absurd (ground arith)
  has_replication_lem (replicated_senti r) h c = absurd (ground arith)
  has_replication_lem (replicated_snap r) h c = absurd (ground arith)
  has_replication_lem (replicated_single r) h c = absurd (ground arith)
  has_replication_lem (WaitingForMax.multi r) h c = c
  has_replication_lem (WaitingForMax.senti r) h c = c
  has_replication_lem (WaitingForMax.snap r) h c = c
  has_replication_lem (WaitingForMax.single r) h c = c
  has_replication_lem (WaitingForMax.simple_single r) h c = c
  has_replication_lem (WaitingForMax.got_max_multi r) h c = c
  has_replication_lem (WaitingForMax.got_max_senti r) h c = c
  has_replication_lem (WaitingForMax.got_max_snap r) h c = c

  -- The append of an entry as it is handed on, with all that the entry has
  abbrev pub HandsOn : WaitingForMax S E T → ReplicatedSkeens S E T → Type 0
  HandsOn (replicated_multi s) (ReplicatedSkeens.multi r) = Carries s r
  HandsOn (replicated_senti s) (ReplicatedSkeens.senti r) = Carries s r
  HandsOn (replicated_snap s) (ReplicatedSkeens.snap r) = Carries s r
  HandsOn (replicated_single s) (ReplicatedSkeens.single r) = Carries s r
  HandsOn _ _ = ⊥

  to_replica_lem :
      (w : WaitingForMax S E T)
      → has_replication w ≡ true
      → (r : ReplicatedSkeens S E T) × (to_replica w ≡ ok (get_id w, r)) × HandsOn w r
  unfolding has_replication to_replica get_id
  to_replica_lem (replicated_multi r) h = (_, refl, (refl, refl, refl, refl))
  to_replica_lem (replicated_senti r) h = (_, refl, (refl, refl, refl, refl))
  to_replica_lem (replicated_snap r) h = (_, refl, (refl, refl, refl, refl))
  to_replica_lem (replicated_single r) h = (_, refl, (refl, refl, refl, refl))
  to_replica_lem _ h = cc

  -- The appends are those of consecutive indices, from `k`.
  abbrev pub Emitted : SkeensState S E T → ℕ → List (ReplicatedSkeens S E T) → ℕ → Type 0
  Emitted s k [] stop = k ≡ stop
  Emitted s k (r ∷ rs) stop =
      ((w : WaitingForMax S E T) × (lookup k s.phase1_queue.entries ≡ some w) × HandsOn w r)
      × Emitted s (k + 1) rs stop

  pub record Flushed (s : SkeensState S E T) (x : List (ReplicatedSkeens S E T) × SkeensState S E T)
      : Type 0 where
    pub emitted : Emitted s s.phase1_queue.start x.0 x.1.phase1_queue.start
    pub tracked : IsTracked x.1
    pub kept :
        (k : ℕ)
        → lookup k x.1.phase1_queue.entries
          ≡ (if ltb k x.1.phase1_queue.start then none else lookup k s.phase1_queue.entries)
    pub stopped :
        (w : WaitingForMax S E T)
        → lookup x.1.phase1_queue.start x.1.phase1_queue.entries ≡ some w
        → ¬ IsReplicated w

  -- The state after the first append has left.
  abbrev left : SkeensState S E T → WaitingForMax S E T → SkeensState S E T
  left s w = record s {
    phase1_queue = record s.phase1_queue {
      entries = remove s.phase1_queue.start s.phase1_queue.entries;
      start = s.phase1_queue.start + 1;
      min = s.phase1_queue.start + 1;
    };
    append_status = remove (get_id w) s.append_status;
  }

  left-IsTracked :
      (s : SkeensState S E T) (w : WaitingForMax S E T)
      → IsTracked s
      → lookup s.phase1_queue.start s.phase1_queue.entries ≡ some w
      → IsTracked (left s w)
  left-IsTracked s w i e =
      let inside = i.window.keys s.phase1_queue.start w e in
      record {
        window = pop-IsValid s.phase1_queue i.window inside.1;
        bound = i.bound;
        status = λ k v f. ground (
          arith,
          lookup-remove s.phase1_queue.start k s.phase1_queue.entries,
          lookup-remove (get_id w) (get_id v) s.append_status,
          i.status k v,
          i.ids s.phase1_queue.start k w v e,
        );
        ids = λ k j v x f g h.
            i.ids k j v x
              (ground (arith, lookup-remove s.phase1_queue.start k s.phase1_queue.entries))
              (ground (arith, lookup-remove s.phase1_queue.start j s.phase1_queue.entries)) h;
      }

  Emitted-le :
      (s : SkeensState S E T) (rs : List (ReplicatedSkeens S E T)) (k stop : ℕ)
      → Emitted s k rs stop
      → k ≤ stop
  Emitted-le s [] k stop e = omega arith
  Emitted-le s (r ∷ rs) k stop e = omega (arith, Emitted-le s rs (k + 1) stop e.1)

  -- What leaves later stood in the queue before.
  Emitted-left :
      (s : SkeensState S E T) (w : WaitingForMax S E T) (rs : List (ReplicatedSkeens S E T))
      (k stop : ℕ)
      → s.phase1_queue.start < k
      → Emitted (left s w) k rs stop
      → Emitted s k rs stop
  Emitted-left s w [] k stop h e = e
  Emitted-left s w (r ∷ rs) k stop h ((v, a, b), e) = (
    (v, ground (arith, lookup-remove s.phase1_queue.start k s.phase1_queue.entries), b),
    Emitted-left s w rs (k + 1) stop (omega arith) e,
  )

  Flushed-left :
      (s : SkeensState S E T) (w : WaitingForMax S E T) (r : ReplicatedSkeens S E T)
      (x : List (ReplicatedSkeens S E T) × SkeensState S E T)
      → lookup s.phase1_queue.start s.phase1_queue.entries ≡ some w
      → HandsOn w r
      → IsTracked s
      → Flushed (left s w) x
      → Flushed s (r ∷ x.0, x.1)
  Flushed-left s w r x e f i h = record {
    emitted = ((w, e, f), Emitted-left s w x.0 _ _ (omega arith) h.emitted);
    tracked = h.tracked;
    kept = λ k. ground (
      arith,
      h.kept k,
      lookup-remove s.phase1_queue.start k s.phase1_queue.entries,
      Emitted-le (left s w) x.0 _ _ h.emitted,
    );
    stopped = h.stopped;
  }

  Flushed-stop :
      (s : SkeensState S E T)
      → IsTracked s
      → ((w : WaitingForMax S E T)
          → lookup s.phase1_queue.start s.phase1_queue.entries ≡ some w
          → ¬ IsReplicated w)
      → Flushed s ([], s)
  Flushed-stop s i h = record {
    emitted = refl;
    tracked = i;
    kept = λ k. elim (Option-cases (lookup k s.phase1_queue.entries)) [
      | inl e ↦ ground arith
      | inr (w, e) ↦ ground (arith, i.window.keys k w e)
    ];
    stopped = h;
  }

  flush_replicas-next :
      (fuel : ℕ) (s : SkeensState S E T) (w : WaitingForMax S E T) (r : ReplicatedSkeens S E T)
      → IsTracked s
      → lookup s.phase1_queue.start s.phase1_queue.entries ≡ some w
      → has_replication w ≡ true
      → to_replica w ≡ ok (get_id w, r)
      → flush_replicas (suc fuel) s ≡ (flush_replicas fuel (left s w) >>= λ x. ok (r ∷ x.0, x.1))
  unfolding flush_replicas DequeMap.pop_front
  flush_replicas-next fuel s w r i e h f =
      let inside = i.window.keys s.phase1_queue.start w e in
      let sum : ltb (s.phase1_queue.start + 1) (2 ^ 64) ≡ true = ground (arith, inside, i.bound) in
      let full : is_empty s.phase1_queue.entries ≡ false =
        ground (arith, lookup_of_is_empty s.phase1_queue.start s.phase1_queue.entries) in
      let known : is_some (lookup (get_id w) s.append_status) ≡ true =
        i.status s.phase1_queue.start w e in
      rw (e, flush_replicas) (rw (h, full, sum) (rw (e, f, known) refl))

  flush_replicas-none :
      (fuel : ℕ) (s : SkeensState S E T)
      → lookup s.phase1_queue.start s.phase1_queue.entries ≡ none
      → flush_replicas (suc fuel) s ≡ ok ([], s)
  unfolding flush_replicas
  flush_replicas-none fuel s e = rw (e, flush_replicas) refl

  flush_replicas-waits :
      (fuel : ℕ) (s : SkeensState S E T) (w : WaitingForMax S E T)
      → lookup s.phase1_queue.start s.phase1_queue.entries ≡ some w
      → has_replication w ≡ false
      → flush_replicas (suc fuel) s ≡ ok ([], s)
  unfolding flush_replicas
  flush_replicas-waits fuel s w e h = rw (e, flush_replicas) (rw h refl)

  -- From a queue whose entries have a status each and different ids, the loop ends with enough fuel and without a panic. It hands on
  -- the appends of consecutive indices from the front of the queue, each of its own kind and with its contents, index and final timestamp,
  -- and stops where no append stands or one that its second round has not reached; the rest of the queue is as it was.
  pub flush_replicas_lem :
      (fuel : ℕ) (s : SkeensState S E T)
      → IsTracked s
      → s.phase1_queue.next - s.phase1_queue.start < fuel
      → Returns (Flushed s) (flush_replicas fuel s)
  flush_replicas_lem zero s i h = absurd (omega arith)
  flush_replicas_lem (suc fuel) s i h =
      elim (Option-cases (lookup s.phase1_queue.start s.phase1_queue.entries)) [
        | inl e ↦
            subst (Returns (Flushed s)) (sym (flush_replicas-none fuel s e))
              (Flushed-stop s i (λ w f. absurd (ground arith)))
        | inr (w, e) ↦ elim (Bool-cases (has_replication w)) [
          | inl h₁ ↦
              let (r, f, o) = to_replica_lem w h₁ in
              let inside = i.window.keys s.phase1_queue.start w e in
              subst (Returns (Flushed s)) (sym (flush_replicas-next fuel s w r i e h₁ f)) (
                Returns->>= (Flushed (left s w)) (Flushed s) (flush_replicas fuel (left s w))
                  (λ x. ok (r ∷ x.0, x.1))
                  (flush_replicas_lem fuel (left s w) (left-IsTracked s w i e) (omega arith))
                  (λ x g. Flushed-left s w r x e o i g))
          | inr h₁ ↦
              subst (Returns (Flushed s)) (sym (flush_replicas-waits fuel s w e h₁))
                (Flushed-stop s i (λ v f. has_replication_lem v (ground arith)))
        ]
      ]
