-- ===== src/Tests/Chains.antt =====
-- fuzzy_log_server/src/ordering_thread.rs at concrete inputs.
use delos_rust.Prelude.{
  ℕ, ◌+◌, ◌≡◌, ◌⊎◌, refl, inr, true, false, List, [], ◌∷◌, ◌<◌, ◌≤◌, arith, ok, Returns, lookup,
  u64_max, insert, subst, sym, ◌∙◌,
}
use delos_rust.Util.DequeMap
use delos_rust.Server.Waiting.{WaitingForMax, multi_timestamp, get_id, has_max}
use delos_rust.Server.Skeens
use delos_rust.Server.Skeens.{SkeensState, new, slot, need_single_at}
use delos_rust.Server.Skeens.Invariant.{IsSettled, new-IsSettled}
use delos_rust.Server.Skeens.Clock.{bumped}
use delos_rust.Server.Skeens.Append.{enqueued, enqueued-IsSettled}
use delos_rust.Server.Chain.{TrieOps, IsLawful, Chain, finish_multi, timestamp_for_snap}
use delos_rust.Server.Chain.Deliver.{Finished, finish_multi_lem}
use delos_rust.Server.Chain.Single.{need_single_at_lem}
use delos_rust.Server.Chain.Run.{Op, step, run, arrive_snap, final, AllLegal, Runs, run_lem}

-- A trie that only counts its entries.
abbrev counting : TrieOps ℕ ℕ ℕ ℕ
counting = record {
  len = λ l. l;
  reserve_space = λ size l. ok (size, 0, l);
  partial_append = λ size l. ok (l, l + 1);
  prep_append = λ l. ok (l, l, l + 1);
  add_blank = λ c l. ok (l + 1);
}

abbrev AnyState : ℕ → Type 0
AnyState n = Unit {0}

counting-IsLawful : IsLawful counting AnyState u64_max
counting-IsLawful = record {
  reserve = λ size l g. (size, 0, l, refl, refl, tt);
  partial = λ size l g h. (l, l + 1, refl, refl, tt);
  append = λ l g h. (l, l + 1, refl, refl, tt);
  blank = λ c l g h. (l + 1, refl, refl, tt);
}

abbrev State : Type 0
State = SkeensState ℕ ℕ ℕ

abbrev fresh : Chain ℕ ℕ ℕ ℕ
fresh = record { trie = 1; skeens = new }

-- A chain where one multiappend waits, of id 7.
abbrev waiting : Chain ℕ ℕ ℕ ℕ
waiting = record { trie = 1; skeens = enqueued new 7 (WaitingForMax.multi (slot 100 0 7 1 0)) }

waiting-IsSettled : IsSettled waiting.skeens
unfolding new lookup get_id multi_timestamp has_max DequeMap.new
waiting-IsSettled =
    enqueued-IsSettled new 7 (WaitingForMax.multi (slot 100 0 7 1 0)) new-IsSettled refl refl refl
      refl (inr refl)

need_single_at_lem_example :
    ((need_single_at waiting.skeens 5 ≡ ok (true, waiting.skeens))
      × (waiting.skeens.phase1_queue.start < waiting.skeens.phase1_queue.next)
      × (waiting.skeens.last_flush < 5))
    ⊎ ((need_single_at waiting.skeens 5 ≡ ok (false, bumped waiting.skeens 5))
        × ((waiting.skeens.phase1_queue.start ≡ waiting.skeens.phase1_queue.next)
            ⊎ (5 ≤ waiting.skeens.last_flush)))
need_single_at_lem_example = need_single_at_lem waiting.skeens 5 waiting-IsSettled (omega arith)

finish_multi_lem_example :
    Returns (Finished counting counting-IsLawful waiting 7 9) (finish_multi counting waiting 7 9 3)
unfolding new lookup insert get_id multi_timestamp DequeMap.new
finish_multi_lem_example =
    finish_multi_lem counting counting-IsLawful waiting 7 9 3 0 waiting-IsSettled (omega arith)
      (omega arith) (λ k w e f. ground arith) refl tt (omega arith) (omega arith)

-- A snapshot joins the append, and then the append's final timestamp arrives.
abbrev some_ops : List (Op ℕ ℕ)
some_ops = arrive_snap 8 200 0 ∷ final 7 9 ∷ []

abbrev both : Chain ℕ ℕ ℕ ℕ
both = record {
  trie = 1;
  skeens = enqueued waiting.skeens 8 (WaitingForMax.snap (slot 200 0 8 2 1));
}

snapshot_test : step counting 3 waiting (arrive_snap 8 200 0) ≡ ok ([], both)
unfolding step new DequeMap.new lookup insert get_id timestamp_for_snap Skeens.add_snapshot
    Skeens.append_new Skeens.enqueue Skeens.known DequeMap.push_back
snapshot_test = refl

final-Legal : AllLegal counting u64_max 3 both (final 7 9 ∷ [])
unfolding new DequeMap.new lookup insert get_id multi_timestamp
final-Legal = (
  ((0, refl), omega arith, omega arith, (λ k w e f. ground arith), omega arith, omega arith),
  λ fs c' e. tt,
)

some_ops-AllLegal : AllLegal counting u64_max 3 waiting some_ops
unfolding new DequeMap.new
some_ops-AllLegal = (
  (omega arith, omega arith),
  λ fs c' e.
      subst (Returns (λ x. AllLegal counting u64_max 3 x.1 (final 7 9 ∷ [])))
        (sym snapshot_test ∙ e) final-Legal,
)

run_lem_example : Returns (Runs AnyState waiting) (run counting 3 waiting some_ops)
run_lem_example =
    run_lem counting counting-IsLawful 3 some_ops waiting waiting-IsSettled tt some_ops-AllLegal
