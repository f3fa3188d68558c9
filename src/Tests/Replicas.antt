-- ===== src/Tests/Replicas.antt =====
-- fuzzy_log_server/src/skeens.rs, the replica's half and recovery, at concrete inputs.
use delos_rust.Prelude.{
  ℕ, ◌≡◌, refl, true, none, some, List, [], ◌∷◌, arith, ok, Returns, lookup, insert,
}
use delos_rust.Util.DequeMap
use delos_rust.Util.DequeMap.Laws.{new-IsValid}
use delos_rust.Server.Waiting.{WaitingForMax, get_id, multi, senti, simple_single}
use delos_rust.Server.Skeens.{SkeensState, Recoverer, phase1, singleton, new, slot}
use delos_rust.Server.Skeens.Recovery.{
  Call, tas, copy, tas_recoverer, replicate_recoverer, TestedAndSet, granted, Rising,
  tas_recoverer_lem, granted-Rising,
}
use delos_rust.Server.Skeens.Replica.{
  IsReplica, Placed, flush_replicas, replicate_multi_append_round1, replicate_single_append_round1,
  replicate_multi_append_round1_lem, replicate_single_append_round1_lem,
}
use delos_rust.Server.Skeens.Emission.{IsTracked, Flushed, flush_replicas_lem}

abbrev State : Type 0
State = SkeensState ℕ ℕ ℕ

abbrev fresh : State
fresh = new

abbrev alice : Recoverer
alice = (10, [])

abbrev bob : Recoverer
bob = (11, [])

tas_recoverer_lem_example :
    Returns (TestedAndSet fresh 5 alice none) (tas_recoverer fresh 5 alice none)
unfolding new lookup
tas_recoverer_lem_example = tas_recoverer_lem fresh 5 alice none (omega arith)

-- Alice takes over append 5, Bob takes over from Alice, Alice's second attempt without a name fails, and a replica is
-- told of number 7 before Alice takes over from Bob.
abbrev calls : List Call
calls =
    tas 5 alice none
    ∷ tas 5 bob (some 10)
    ∷ tas 5 alice none
    ∷ copy 5 bob 7
    ∷ tas 5 alice (some 11)
    ∷ []

calls-granted : granted 5 fresh calls ≡ ok (1 ∷ 2 ∷ 8 ∷ [])
unfolding granted tas_recoverer replicate_recoverer new lookup insert
calls-granted = refl

granted-Rising_example : Rising 0 (1 ∷ 2 ∷ 8 ∷ [])
unfolding new lookup
granted-Rising_example = granted-Rising calls 5 fresh (1 ∷ 2 ∷ 8 ∷ []) calls-granted

fresh-IsReplica : IsReplica fresh
unfolding new DequeMap.new
fresh-IsReplica = record { window = new-IsValid; no_heap = refl }

replicate_multi_append_round1_lem_example :
    Returns
      (Placed fresh 4 2 9 (senti (slot 100 0 9 4 2)) (phase1 2))
      (replicate_multi_append_round1 fresh 4 2 9 100 true 0)
unfolding new DequeMap.new lookup
replicate_multi_append_round1_lem_example =
    replicate_multi_append_round1_lem fresh 4 2 9 100 true 0 fresh-IsReplica (omega arith)
      (omega arith) (omega arith) refl

replicate_single_append_round1_lem_example :
    Returns
      (Placed fresh 4 2 9 (simple_single (slot 100 0 9 4 2)) (singleton 2))
      (replicate_single_append_round1 fresh 4 2 9 100 0)
unfolding new DequeMap.new lookup
replicate_single_append_round1_lem_example =
    replicate_single_append_round1_lem fresh 4 2 9 100 0 fresh-IsReplica (omega arith) (omega arith)
      (omega arith) refl

-- A replica with a confirmed append in front of one that waits.
abbrev confirmed : WaitingForMax ℕ ℕ ℕ
confirmed =
    WaitingForMax.replicated_multi
      (record { max_timestamp = 6; index = 30; storage = 100; t = 0; id = 7 })

abbrev two : State
two = record fresh {
  phase1_queue = record {
    entries = (0, confirmed) ∷ (1, multi (slot 200 0 8 5 1)) ∷ [];
    start = 0;
    next = 2;
    min = 0;
  };
  append_status = (7, phase1 0) ∷ (8, phase1 1) ∷ [];
}

two-IsTracked : IsTracked two
unfolding lookup get_id
two-IsTracked = record {
  window = record {
    min_start = omega arith;
    start_next = omega arith;
    keys = λ k v e. ground arith;
  };
  bound = omega arith;
  status = λ k w e. ground arith;
  ids = λ i j v w a b c. ground arith;
}

flush_replicas_lem_example : Returns (Flushed two) (flush_replicas 3 two)
flush_replicas_lem_example = flush_replicas_lem 3 two two-IsTracked (omega arith)
