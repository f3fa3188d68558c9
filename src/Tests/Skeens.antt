-- ===== src/Tests/Skeens.antt =====
-- fuzzy_log_server/src/skeens.rs at concrete inputs.
use delos_rust.Prelude.{ℕ, ◌≡◌, ◌≢◌, refl, inr, true, [], ◌∷◌, arith, ok, Returns, lookup}
use delos_rust.Util.DequeMap
use delos_rust.Util.DequeMap.{DequeMap}
use delos_rust.Server.Waiting.{WaitingForMax, multi_timestamp, get_id, has_max}
use delos_rust.Server.GotMax
use delos_rust.Server.GotMax.{GotMax, Got, cmp, push, reverse}
use delos_rust.Server.GotMax.Order.{cmp_lem, delivery_order}
use delos_rust.Server.Skeens.{SkeensState, new, slot, add_multi_append, add_single_append}
use delos_rust.Server.Skeens.Invariant.{IsSettled, new-IsSettled}
use delos_rust.Server.Skeens.Clock.{bumped}
use delos_rust.Server.Skeens.Append.{enqueued, enqueued-IsSettled}
use delos_rust.Server.Skeens.Added.{Answer, add_multi_append_lem, add_single_append_lem}
use delos_rust.Server.Skeens.{
  set_max_timestamp, set_max_entry, settle, drain, can_flush, needs_flush,
}
use delos_rust.Server.Skeens.SetMax.{Set, set_max_timestamp_lem}
use delos_rust.Server.GotMax.{into_got_max}
use delos_rust.Prelude.{remove, insert}
use delos_rust.Server.Waiting
use delos_rust.Server.Skeens.{AppendStatus}
use delos_rust.Prelude.{subst}
use delos_rust.Server.Skeens.{flush_got_max_timestamp}
use delos_rust.Server.Skeens.Invariant.{Inv, FrontWaits, SinglesKnown}
use delos_rust.Server.Skeens.Flush.{Delivered, flush_got_max_timestamp_lem}

abbrev State : Type 0
State = SkeensState ℕ ℕ ℕ

-- A fresh server with one multiappend, of id 7.
abbrev waiting : State
waiting = enqueued new 7 (WaitingForMax.multi (slot 100 0 7 1 0))

waiting-IsSettled : IsSettled waiting
unfolding new lookup get_id multi_timestamp has_max DequeMap.new
waiting-IsSettled =
    enqueued-IsSettled new 7 (WaitingForMax.multi (slot 100 0 7 1 0)) new-IsSettled refl refl refl
      refl (inr refl)

add_multi_append_lem_example : Returns (Answer waiting 8) (add_multi_append waiting 8 200 true 0)
unfolding new DequeMap.new
add_multi_append_lem_example =
    add_multi_append_lem waiting 8 200 true 0 waiting-IsSettled (omega arith, omega arith)

add_single_append_lem_example :
    Returns (Answer (bumped waiting 5) 9) (add_single_append waiting 9 5 300 0)
unfolding new DequeMap.new
add_single_append_lem_example =
    add_single_append_lem waiting 9 5 300 0 waiting-IsSettled (omega arith, omega arith)
      (omega arith) (omega arith)

abbrev at_time : ℕ → ℕ → Got ℕ ℕ
at_time timestamp id = record { timestamp = timestamp; storage = 0; t = 0; id = id }

abbrev a_multi : GotMax ℕ ℕ ℕ
a_multi = GotMax.multi (at_time 4 2)

abbrev a_single : GotMax ℕ ℕ ℕ
a_single = GotMax.simple_single (at_time 4 1)

different : GotMax.get_id a_multi ≢ GotMax.get_id a_single
unfolding GotMax.get_id
different e = absurd (omega arith)

cmp_lem_example : cmp a_multi a_single ≡ ok (reverse (delivery_order a_multi a_single))
cmp_lem_example = cmp_lem a_multi a_single refl refl different

set_max_timestamp_lem_example :
    Returns
      (λ (res, s'). Set waiting 7 9 (lookup 7 waiting.append_status) res s')
      (set_max_timestamp waiting 7 9)
unfolding new DequeMap.new lookup insert get_id multi_timestamp
set_max_timestamp_lem_example =
    set_max_timestamp_lem waiting 7 9 waiting-IsSettled (omega arith) (omega arith)
      (λ k w e f. ground arith)

-- The append with its final timestamp, in the heap.
abbrev final : State
final = record waiting {
  next_timestamp = 10;
  phase1_queue = record { entries = []; start = 1; next = 1; min = 1 };
  got_max_timestamp = GotMax.multi (record { timestamp = 9; storage = 100; t = 0; id = 7 }) ∷ [];
  append_status = (7, AppendStatus.phase2 9) ∷ [];
}

set_max_timestamp_test : set_max_timestamp waiting 7 9 ≡ ok (needs_flush, final)
unfolding new DequeMap.new lookup insert remove get_id set_max_timestamp set_max_entry settle drain
    can_flush has_max push into_got_max DequeMap.index DequeMap.get DequeMap.write
    DequeMap.pop_front Waiting.set_max_timestamp
set_max_timestamp_test = refl

final-Inv : Inv final × FrontWaits final × SinglesKnown final
unfolding new DequeMap.new lookup insert get_id multi_timestamp
final-Inv =
    let p : Set waiting 7 9 (lookup 7 waiting.append_status) needs_flush final =
      subst (Returns (λ x. Set waiting 7 9 (lookup 7 waiting.append_status) x.0 x.1))
        set_max_timestamp_test
        (set_max_timestamp_lem waiting 7 9 waiting-IsSettled (omega arith) (omega arith)
          (λ k w e f. ground arith)) in
    (p.0, p.1, p.2)

flush_got_max_timestamp_lem_example : Returns (Delivered final) (flush_got_max_timestamp final)
flush_got_max_timestamp_lem_example =
    flush_got_max_timestamp_lem final final-Inv.0 final-Inv.1 final-Inv.2
