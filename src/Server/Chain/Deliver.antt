-- ===== src/Server/Chain/Deliver.antt =====
-- `finish_multi`: the final timestamp of an append reaches its chain.
use delos_rust.Prelude.{
  ℕ, ◌+◌, ◌-◌, All, ◌<◌, ◌≤◌, ◌≡◌, refl, sym, ◌∙◌, ap, subst, false, some, List, [], ◌∷◌, ◌++◌,
  arith, Outcome, ok, panic, ◌>>=◌, Returns, Returns->>=, u64_max, length, lookup,
}
use delos_rust.Server.GotMax.{GotMax}
use delos_rust.Server.Waiting.{WaitingForMax, get_id}
use delos_rust.Server.Skeens
use delos_rust.Server.Skeens.{
  SkeensState, SkeensAppendRes, SkeensSetMaxRes, duplicate, not_waiting, new_append, phase1,
  needs_flush, okay, can_flush,
}
use delos_rust.Server.Skeens.Invariant.{
  time, Waits, Inv, FrontWaits, SinglesKnown, IsSettled, pending,
}
use delos_rust.Server.GotMax.Order.{Ascending}
use delos_rust.Server.Skeens.Origin.{Origin}
use delos_rust.Server.Skeens.SetMax.{Set, set_max_timestamp_lem}
use delos_rust.Server.Skeens.Stop.{stopped-IsSettled}
use delos_rust.Server.Skeens.Flush.{Delivered, Paced, flush_got_max_timestamp_lem}
use delos_rust.Server.Chain.{TrieOps, IsLawful, Chain, FinishSkeens, finish_multi, finish_all}
use delos_rust.Server.Chain.Finish.{Placed, length-Placed, time_at, finish_all_lem}

module _ {P S E T : Type 0} where
  -- The timestamps of deliveries do not fall.
  abbrev pub Steady : ℕ → List (FinishSkeens P S E T) → ℕ → Type 0
  Steady low [] high = low ≡ high
  Steady low (f ∷ fs) high = (low ≤ time_at f) × Steady (time_at f) fs high

  Placed-Steady :
      (gs : List (GotMax S E T)) (fs : List (FinishSkeens P S E T)) (len len' low high : ℕ)
      → Placed gs len fs len'
      → Paced low gs high
      → Steady low fs high
  Placed-Steady [] [] len len' low high p q = q
  Placed-Steady (g ∷ gs) (f ∷ fs) len len' low high (mid, p, t, r) q = (
    omega (arith, q.0),
    Placed-Steady gs fs mid len' (time_at f) high r (subst (λ x. Paced x gs high) (sym t) q.1),
  )
  Placed-Steady [] (f ∷ fs) len len' low high p q = absurd p
  Placed-Steady (g ∷ gs) [] len len' low high p q = absurd p

  pub Steady-append :
      (fs gs : List (FinishSkeens P S E T)) (low mid high : ℕ)
      → Steady low fs mid
      → Steady mid gs high
      → Steady low (fs ++ gs) high
  Steady-append [] gs low mid high p q = subst (λ x. Steady x gs high) (sym p) q
  Steady-append (f ∷ fs) gs low mid high p q = (p.0, Steady-append fs gs (time_at f) mid high p.1 q)

All-front : {A : Type 0} (P : A → Type 0) (xs ys : List A) → All P (xs ++ ys) → All P xs
All-front P [] ys a = tt
All-front P (x ∷ xs) ys a = (a.0, All-front P xs ys a.1)

length-append : {A : Type 0} → (xs ys : List A) → length (xs ++ ys) ≡ length xs + length ys
length-append [] ys = omega arith
length-append (x ∷ xs) ys = omega (arith, length-append xs ys)

length-le : {A : Type 0} → (xs ys : List A) → length xs ≤ length (xs ++ ys)
length-le [] ys = omega arith
length-le (x ∷ xs) ys = omega (arith, length-le xs ys)

module _ {L P R S E T : Type 0} (tr : TrieOps L P R E) {Good : L → Type 0} {cap : ℕ}
    (laws : IsLawful tr Good cap) where
  -- What a chain answers to the final timestamp `m` of the append `id`: the deliveries, which are those of `gs`, at their
  -- places. These and what stays in the heap are appends that waited, in order and each once, and with the deliveries there are as many appends as before.
  abbrev pub Finished : Chain L S E T → ℕ → ℕ → List (FinishSkeens P S E T) × Chain L S E T → Type 0
  Finished c id m (fs, c') =
      IsSettled c'.skeens
      × Steady c.skeens.last_flush fs c'.skeens.last_flush
      × ((gs : List (GotMax S E T)) × Placed gs (tr.len c.trie) fs (tr.len c'.trie)
          × All (Origin id m c.skeens) (gs ++ c'.skeens.got_max_timestamp)
          × Ascending (gs ++ c'.skeens.got_max_timestamp))
      × (length fs + pending c'.skeens ≡ pending c.skeens)
      × (can_flush c'.skeens ≡ ok false)
      × Good c'.trie

  module _ (c : Chain L S E T) (colour : ℕ) (good : Good c.trie) (room : 1 ≤ tr.len c.trie)
      (space : tr.len c.trie + pending c.skeens ≤ cap) where
    abbrev finish :
        List (GotMax S E T) × SkeensState S E T
        → Outcome (List (FinishSkeens P S E T) × Chain L S E T)
    finish (gs, sk) =
        finish_all tr colour c.trie gs >>= λ x. ok (x.0, record { trie = x.1; skeens = sk })

    flushed :
        (id m : ℕ) (sk : SkeensState S E T)
        → Inv sk
        → FrontWaits sk
        → SinglesKnown sk
        → pending sk ≡ pending c.skeens
        → All (Origin id m c.skeens) sk.got_max_timestamp
        → sk.last_flush ≡ c.skeens.last_flush
        → Returns (Finished c id m) (Skeens.flush_got_max_timestamp sk >>= finish)
    flushed id m sk i f q more org low =
        Returns->>= (Delivered sk) (Finished c id m) (Skeens.flush_got_max_timestamp sk) finish
          (flush_got_max_timestamp_lem sk i f q)
          (λ x d.
            let few : length x.0 ≤ length sk.got_max_timestamp =
              subst (λ h. length x.0 ≤ length h) d.prefix (length-le x.0 x.1.got_max_timestamp) in
            Returns->>= (λ y. Placed x.0 (tr.len c.trie) y.0 (tr.len y.1) × Good y.1)
              (Finished c id m) (finish_all tr colour c.trie x.0) _
              (finish_all_lem tr laws colour x.0 c.trie good room (omega (arith, space, few, more)))
              (λ y p. (
                d.settled,
                Placed-Steady x.0 y.0 _ _ _ _ p.0
                    (subst (λ l. Paced l x.0 x.1.last_flush) low d.paced),
                (
                  x.0,
                  p.0,
                  subst (All (Origin id m c.skeens)) (sym d.prefix) org,
                  subst Ascending (sym d.prefix) i.ascending,
                ),
                omega (
                  arith,
                  length-Placed x.0 y.0 _ _ p.0,
                  length-append x.0 x.1.got_max_timestamp,
                  ap length d.prefix,
                  ap (λ t. t.next - t.start) d.queue,
                  more,
                ),
                d.stopped,
                p.1,
              )))

    after_set :
        (id m k : ℕ) (r : SkeensSetMaxRes) (sk : SkeensState S E T)
        → Set c.skeens id m (some (phase1 k)) r sk
        → Returns (Finished c id m) (elim r [
          | okay ↦ ok ([], record c { skeens = sk })
          | duplicate ts ↦ panic
          | not_waiting ↦ panic
          | needs_flush ↦ Skeens.flush_got_max_timestamp sk >>= finish
        ])
    after_set id m k okay sk (i, f, q, more, low, st, b, can, res, org) =
        let stop : b ≡ false = ground arith in
        (
          stopped-IsSettled sk i f q (can ∙ ap ok stop),
          sym low,
          ([], refl, org, i.ascending),
          omega (arith, more),
          can ∙ ap ok stop,
          good,
        )
    after_set id m k needs_flush sk (i, f, q, more, low, st, b, can, res, org) =
        flushed id m sk i f q more org low
    after_set id m k (duplicate t) sk (i, f, q, more, low, st, b, can, res, org) =
        absurd (ground arith)
    after_set id m k not_waiting sk (i, f, q, more, low, st, b, can, res, org) =
        absurd (ground arith)

  -- The final timestamp of an append that waits reaches its chain, which is settled, whose trie is good and has entries and room, and whose
  -- times for the append are not above it: nothing panics, and the chain can go on. What is delivered and what stays in the heap are appends
  -- that waited in the queue or the heap, each with its kind, contents and id and with its final timestamp, in the order of these, no id twice. The
  -- deliveries are the first of them, each of its append's kind, with its contents and timestamp, at its place in the log. They do not come
  -- before the last delivery before; with them there are as many appends as before, and nothing more can be delivered.
  pub finish_multi_lem :
      (c : Chain L S E T) (id m colour k : ℕ)
      → IsSettled c.skeens
      → m < u64_max
      → c.skeens.phase1_queue.next ≤ u64_max
      → ((j : ℕ) (w : WaitingForMax S E T) → Waits c.skeens j w → get_id w ≡ id → time w ≤ m)
      → lookup id c.skeens.append_status ≡ some (phase1 k)
      → Good c.trie
      → 1 ≤ tr.len c.trie
      → tr.len c.trie + pending c.skeens ≤ cap
      → Returns (Finished c id m) (finish_multi tr c id m colour)
  unfolding finish_multi
  finish_multi_lem c id m colour k i b n l e good a h =
      Returns->>= (λ (r, sk). Set c.skeens id m (lookup id c.skeens.append_status) r sk)
        (Finished c id m) (Skeens.set_max_timestamp c.skeens id m) _
        (set_max_timestamp_lem c.skeens id m i b n l)
        (λ (r, sk) x.
          after_set c colour good a h id m k r sk (subst (λ st. Set c.skeens id m st r sk) e x))
