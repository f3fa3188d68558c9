-- ===== src/Util/TreeDequeMap/Same.antt =====
-- The two queues of fuzzy_log_util answer a client alike, as long as the client inserts nothing below
-- what it has popped.
use delos_rust.Prelude.{ℕ, ◌≡◌, Option, List, [], ◌∷◌, arith, Outcome, ok, ◌>>=◌, >>=-eq-ok}
use delos_rust.Util.DequeMap
use delos_rust.Util.DequeMap.{DequeMap}
use delos_rust.Util.TreeDequeMap.{
  TreeDequeMap, new, push_back, pop_front, put, get, increment_start,
}

pub data Op (V : Type 0) : Type 0 where
  pushes : V → Op V
  pops : Op V
  puts : ℕ → V → Op V
  gets : ℕ → Op V
  skips : Op V

-- What a client sees of a call: the index of a push, or an optional value.
pub data Reply (V : Type 0) : Type 0 where
  at_index : ℕ → Reply V
  value : Option V → Reply V
  done : Reply V

module _ {V : Type 0} where
  unfoldable pub hash_step : DequeMap V → Op V → Outcome (Reply V × DequeMap V)
  hash_step q (pushes v) = do (k, q') ← DequeMap.push_back q v; ok (at_index k, q')
  hash_step q pops = do (v, q') ← DequeMap.pop_front q; ok (value v, q')
  hash_step q (puts k v) = do (w, q') ← DequeMap.put q k v; ok (value w, q')
  hash_step q (gets k) = do v ← DequeMap.get q k; ok (value v, q)
  hash_step q skips = do q' ← DequeMap.increment_start q; ok (done, q')

  pub tree_step : TreeDequeMap V → Op V → Outcome (Reply V × TreeDequeMap V)
  tree_step q (pushes v) = do (k, q') ← push_back q v; ok (at_index k, q')
  tree_step q pops = do (v, q') ← pop_front q; ok (value v, q')
  tree_step q (puts k v) = do (w, q') ← put q k v; ok (value w, q')
  tree_step q (gets k) = do v ← get q k; ok (value v, q)
  tree_step q skips = do q' ← increment_start q; ok (done, q')

  unfoldable pub hash_run : DequeMap V → List (Op V) → Outcome (List (Reply V))
  hash_run q [] = ok []
  hash_run q (o ∷ os) = do (r, q') ← hash_step q o; rs ← hash_run q' os; ok (r ∷ rs)

  pub tree_run : TreeDequeMap V → List (Op V) → Outcome (List (Reply V))
  tree_run q [] = ok []
  tree_run q (o ∷ os) = do (r, q') ← tree_step q o; rs ← tree_run q' os; ok (r ∷ rs)

  -- The hash queue without its lower limit.
  abbrev forget : DequeMap V → TreeDequeMap V
  forget q = record { entries = q.entries; start = q.start; next = q.next }

  -- A step of the hash queue that does not panic is a step of the tree queue, with the same reply.
  step-forget :
      (q q' : DequeMap V) (o : Op V) (r : Reply V)
      → hash_step q o ≡ ok (r, q')
      → tree_step (forget q) o ≡ ok (r, forget q')
  unfolding hash_step tree_step push_back pop_front put get increment_start DequeMap.push_back
      DequeMap.pop_front DequeMap.put DequeMap.get DequeMap.increment_start
  step-forget q q' (pushes v) r e = ground arith
  step-forget q q' pops r e = ground arith
  step-forget q q' (puts k v) r e = ground arith
  step-forget q q' (gets k) r e = ground arith
  step-forget q q' skips r e = ground arith

  run-forget :
      (os : List (Op V)) (q : DequeMap V) (rs : List (Reply V))
      → hash_run q os ≡ ok rs
      → tree_run (forget q) os ≡ ok rs
  unfolding hash_run tree_run
  run-forget [] q rs e = e
  run-forget (o ∷ os) q rs e =
      let (a, s, f) =
        >>=-eq-ok (hash_step q o) (λ (r, q'). hash_run q' os >>= λ rs'. ok (r ∷ rs')) e in
      let (b, t, g) = >>=-eq-ok (hash_run a.1 os) (λ rs'. ok (a.0 ∷ rs')) f in
      rw (step-forget q a.1 o a.0 s) (rw (run-forget os a.1 b t) g)

  -- Whatever a client does with a fresh hash queue, if no call panics, the same calls on a fresh tree queue
  -- do not panic either and return the same replies.
  pub run-same :
      (os : List (Op V)) (rs : List (Reply V))
      → hash_run DequeMap.new os ≡ ok rs
      → tree_run new os ≡ ok rs
  unfolding new DequeMap.new
  run-same os rs e = run-forget os _ rs e
