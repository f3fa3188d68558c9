-- ===== src/Server/Rounds/First.antt =====
-- fuzzy_log_server/src/ordering_thread.rs, `new_multiappend_round1`: what the first round of a multiappend does to the chains.
use delos_rust.Prelude.{
  ℕ, ◌≡◌, ◌≢◌, refl, subst, Bool, inl, none, List, [], ◌∷◌, Returns, Returns->>=, lookup,
}
use delos_rust.Server.Waiting.{WaitingForMax, get_id}
use delos_rust.Server.Skeens
use delos_rust.Server.Skeens.{SkeensState}
use delos_rust.Server.Skeens.Invariant.{IsSettled, time}
use delos_rust.Server.Skeens.Append.{enqueued}
use delos_rust.Server.Skeens.Added.{HasRoom, Answer, Answered, add_multi_append_lem}
use delos_rust.Server.Trie.{Trie}
use delos_rust.Server.Chain.{Chain, timestamp_for_multi}
use delos_rust.Server.Locks.{Role, here}
use delos_rust.Server.Locks.View.{AllHere}
use delos_rust.Server.Rounds.{part, new_timestamp}

module _ {A E S T : Type 0} (id : ℕ) where
  -- The append of the id waits in the chain, at the end of its queue and with its next timestamp; the trie is as before.
  abbrev pub Stamped : Chain (Trie A E) S E T → Chain (Trie A E) S E T → Type 0
  Stamped c c' =
      IsSettled c'.skeens
      × ((w : WaitingForMax S E T) × (c'.skeens ≡ enqueued c.skeens id w)
          × (get_id w ≡ id)
          × (time w ≡ c.skeens.next_timestamp))
      × (c'.trie ≡ c.trie)

  -- The chain takes an append that it does not know.
  abbrev pub TakesNew : Chain (Trie A E) S E T → Type 0
  TakesNew c = IsSettled c.skeens × HasRoom c.skeens × (lookup id c.skeens.append_status ≡ none)

  abbrev pub Stamp : Chain (Trie A E) S E T → ℕ × ℕ → Chain (Trie A E) S E T → Type 0
  Stamp c stamp c' = (stamp ≡ (c.skeens.next_timestamp, c.skeens.phase1_queue.next)) × Stamped c c'

  asked :
      (storage : S) (b : Bool) (t : T) (c : Chain (Trie A E) S E T)
      → TakesNew c
      → Returns
          (λ (r, c').
            (r ≡ inl (c.skeens.next_timestamp, c.skeens.phase1_queue.next)) × Stamped c c')
          (timestamp_for_multi c id storage b t)
  unfolding timestamp_for_multi
  asked storage b t c (i, room, fresh) =
      Returns->>= (Answer c.skeens id) _ (Skeens.add_multi_append c.skeens id storage b t) _
        (add_multi_append_lem c.skeens id storage b t i room)
        (λ (res, sk) (j, a).
          let (new, w, eq, same_id, at_time) =
            subst (λ st. Answered c.skeens id st res sk) fresh a in
          rw (new) (refl, (j, (w, eq, same_id, at_time), refl)))

  pub new_timestamp_lem :
      (storage : S) (b : Bool) (t : T) (c : Chain (Trie A E) S E T)
      → TakesNew c
      → Returns (λ (stamp, c'). Stamp c stamp c') (new_timestamp id storage b t c)
  unfolding new_timestamp
  new_timestamp_lem storage b t c h =
      Returns->>=
        (λ (r, c'). (r ≡ inl (c.skeens.next_timestamp, c.skeens.phase1_queue.next)) × Stamped c c')
        _ (timestamp_for_multi c id storage b t) _ (asked storage b t c h)
        (λ (r, c') (e, s). rw (e) (refl, s))

abbrev pub number_of : Role → ℕ → ℕ
number_of here n = n
number_of _ n = 0

module _ (this total : ℕ) where
  -- No two places of this server name one chain.
  abbrev pub NoTwins : List (ℕ × ℕ) → Type 0
  NoTwins [] = Unit {0}
  NoTwins ((c, i) ∷ locs) =
      (part this total (c, i) ≡ here → AllHere (part this total) (λ d j. d ≢ c) locs) × NoTwins locs

  -- A number for each place: `next` of the chain, or 0 where the place is not this server's
  abbrev pub numbers_of : (ℕ → ℕ) → List (ℕ × ℕ) → List ℕ
  numbers_of next [] = []
  numbers_of next ((c, i) ∷ locs) =
      number_of (part this total (c, i)) (next c) ∷ numbers_of next locs
