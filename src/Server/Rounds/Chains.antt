-- ===== src/Server/Rounds/Chains.antt =====
-- fuzzy_log_server/src/ordering_thread.rs, `new_multiappend_round1`: the loop over the places of a multiappend.
use delos_rust.Prelude.{
  ℕ, ◌≡◌, ◌≢◌, refl, ap, sym, ◌∙◌, subst, Bool, true, false, ◌&&◌, List, [], ◌∷◌, Outcome, ok,
  Returns, Returns->>=,
}
use delos_rust.Server.Trie.{Trie}
use delos_rust.Server.Trie.Storage.{AllocOps}
use delos_rust.Server.Chain.{Chain}
use delos_rust.Server.Locks.{Store, Role, mark, here, elsewhere, first_chain, on_chain}
use delos_rust.Server.Locks.View.{
  AllHere, AllHere-map, AllHere-both, chain_at, CalledChain, on_chain_lem,
}
use delos_rust.Server.Rounds.First.{
  Stamped, TakesNew, Stamp, new_timestamp_lem, NoTwins, number_of, numbers_of,
}
use delos_rust.Server.Rounds.{part, new_timestamp, round1_one, new_multiappend_round1}

module _ {A E S T : Type 0} (first : Chain (Trie A E) S E T) (this total id : ℕ)
    (times places : ℕ → ℕ) where
  -- This server's chains take the append, with these times and places in their queues.
  abbrev Expects : List (ℕ × ℕ) → Store A E S T → Type 0
  Expects locs log =
      AllHere (part this total)
        (λ c i.
          TakesNew id (chain_at first log c)
          × (times c ≡ (chain_at first log c).skeens.next_timestamp)
          × (places c ≡ (chain_at first log c).skeens.phase1_queue.next))
        locs

  abbrev pub Rounded : List (ℕ × ℕ) → Store A E S T → List ℕ × List ℕ × Store A E S T → Type 0
  Rounded locs log (timestamps, indices, log') =
      ((d : ℕ)
        → AllHere (part this total) (λ c i. c ≢ d) locs
        → chain_at first log' d ≡ chain_at first log d)
      × AllHere (part this total) (λ c i. Stamped id (chain_at first log c) (chain_at first log' c))
          locs
      × (timestamps ≡ numbers_of this total times locs)
      × (indices ≡ numbers_of this total places locs)

  unstamped :
      (c i : ℕ) (locs : List (ℕ × ℕ)) (log : Store A E S T) (ro : Role)
      → part this total (c, i) ≡ ro
      → ro ≢ here
      → (r : List ℕ × List ℕ × Store A E S T) → Rounded locs log r
      → Rounded ((c, i) ∷ locs) log (0 ∷ r.0, 0 ∷ r.1, r.2)
  unstamped c i locs log here e ne r h = absurd (ne refl)
  unstamped c i locs log mark e ne (ts, qs, log') (same, stamped, eq, eq') = (
    (λ d a. same d a.1),
    ((λ z. absurd (ne (sym e ∙ z))), stamped),
    (λ k. number_of (sym e k) (times c) ∷ eq k),
    (λ k. number_of (sym e k) (places c) ∷ eq' k),
  )
  unstamped c i locs log elsewhere e ne (ts, qs, log') (same, stamped, eq, eq') = (
    (λ d a. same d a.1),
    ((λ z. absurd (ne (sym e ∙ z))), stamped),
    (λ k. number_of (sym e k) (times c) ∷ eq k),
    (λ k. number_of (sym e k) (places c) ∷ eq' k),
  )

  stamped_one :
      (c i ts num : ℕ) (locs : List (ℕ × ℕ)) (log log₁ : Store A E S T)
      → part this total (c, i) ≡ here
      → AllHere (part this total) (λ d j. d ≢ c) locs
      → times c ≡ (chain_at first log c).skeens.next_timestamp
      → places c ≡ (chain_at first log c).skeens.phase1_queue.next
      → CalledChain first (Stamp id (chain_at first log c)) log c ((ts, num), log₁)
      → (r : List ℕ × List ℕ × Store A E S T) → Rounded locs log₁ r
      → Rounded ((c, i) ∷ locs) log (ts ∷ r.0, num ∷ r.1, r.2)
  stamped_one c i ts num locs log log₁ e apart t p ((stamp, at_c), others) (tss, qs, log')
        (same, stamped, eq, eq') =
      (
        (λ d a. let ne : d ≢ c = λ q. a.0 e (sym q) in same d a.1 ∙ others d ne),
        (
          (λ z. subst (Stamped id (chain_at first log c)) (sym (same c apart)) at_c),
          AllHere-map (part this total)
              (λ d j. (d ≢ c) × Stamped id (chain_at first log₁ d) (chain_at first log' d)) _ locs
              (λ d j (ne, s). subst (λ z. Stamped id z (chain_at first log' d)) (others d ne) s)
              (AllHere-both (part this total) _ _ locs apart stamped),
        ),
        (λ k. number_of (sym e k) ((ap (λ z. z.0) stamp ∙ sym t) k) ∷ eq k),
        (λ k. number_of (sym e k) ((ap (λ z. z.1) stamp ∙ sym p) k) ∷ eq' k),
      )

  module _ (al : AllocOps A E) (alloc : A) (made : first_chain al alloc ≡ ok first)
      (storage : S) where
    round1_one_lem :
        (distinguish : Bool) (t : T) (is_sentinel : Bool) (c i : ℕ) (locs : List (ℕ × ℕ))
        (log : Store A E S T)
        (rest : Bool → Store A E S T → Outcome (List ℕ × List ℕ × Store A E S T))
        → Expects ((c, i) ∷ locs) log
        → NoTwins this total ((c, i) ∷ locs)
        → ((b : Bool) (log : Store A E S T)
            → Expects locs log
            → Returns (Rounded locs log) (rest b log))
        → (ro : Role) → part this total (c, i) ≡ ro
        → Returns
            (Rounded ((c, i) ∷ locs) log)
            (round1_one al alloc id storage distinguish t is_sentinel c rest log ro)
    unfolding round1_one
    round1_one_lem distinguish t b c i locs log rest x d ih mark e =
        Returns->>= (Rounded locs log) (Rounded ((c, i) ∷ locs) log) (rest true log) _
          (ih true log x.1) (λ r h. unstamped c i locs log mark e (λ z. absurd (cc)) r h)
    round1_one_lem distinguish t b c i locs log rest x d ih elsewhere e =
        Returns->>= (Rounded locs log) (Rounded ((c, i) ∷ locs) log) (rest b log) _ (ih b log x.1)
          (λ r h. unstamped c i locs log elsewhere e (λ z. absurd (cc)) r h)
    round1_one_lem distinguish t b c i locs log rest x d ih here e =
        let (takes, is_time, is_place) = x.0 e in
        let call = new_timestamp id storage (distinguish && b) t in
        Returns->>= (CalledChain first (Stamp id (chain_at first log c)) log c)
          (Rounded ((c, i) ∷ locs) log) (on_chain al alloc log c call) _
          (on_chain_lem first al alloc made (Stamp id (chain_at first log c)) log c call
            (new_timestamp_lem id storage (distinguish && b) t (chain_at first log c) takes))
          (λ ((ts, num), log₁) called.
            Returns->>= (Rounded locs log₁) (Rounded ((c, i) ∷ locs) log) (rest b log₁) _
              (ih b log₁ (
                AllHere-map (part this total)
                  (λ d j.
                    (d ≢ c)
                    × (TakesNew id (chain_at first log d)
                        × (times d ≡ (chain_at first log d).skeens.next_timestamp)
                        × (places d ≡ (chain_at first log d).skeens.phase1_queue.next)))
                  _ locs
                  (λ d j (ne, o).
                    subst
                      (λ z.
                        TakesNew id z
                        × (times d ≡ z.skeens.next_timestamp)
                        × (places d ≡ z.skeens.phase1_queue.next))
                      (sym (called.1 d ne)) o)
                  (AllHere-both (part this total) _ _ locs (d.0 e) x.1)))
              (λ r h. stamped_one c i ts num locs log log₁ e (d.0 e) is_time is_place called r h))

    round1_loop :
        (distinguish : Bool) (t : T) (b : Bool) (locs : List (ℕ × ℕ)) (log : Store A E S T)
        → Expects locs log
        → NoTwins this total locs
        → Returns
            (Rounded locs log)
            (new_multiappend_round1 al alloc this total id storage distinguish t b locs log)
    unfolding new_multiappend_round1
    round1_loop distinguish t b [] log x d = ((λ c a. refl), tt, refl, refl)
    round1_loop distinguish t b ((c, i) ∷ locs) log x d =
        round1_one_lem distinguish t b c i locs log
          (λ b log. new_multiappend_round1 al alloc this total id storage distinguish t b locs log)
          x d (λ b log x. round1_loop distinguish t b locs log x d.1) (part this total (c, i)) refl

module _ {A E S T : Type 0} (first : Chain (Trie A E) S E T) (this total id : ℕ) where
  abbrev pub time_of : Store A E S T → ℕ → ℕ
  time_of log c = (chain_at first log c).skeens.next_timestamp

  abbrev pub place_in_queue : Store A E S T → ℕ → ℕ
  place_in_queue log c = (chain_at first log c).skeens.phase1_queue.next

  expects :
      (locs : List (ℕ × ℕ)) (log : Store A E S T)
      → AllHere (part this total) (λ c i. TakesNew id (chain_at first log c)) locs
      → Expects first this total id (time_of log) (place_in_queue log) locs log
  expects locs log h = AllHere-map (part this total) _ _ locs (λ c i takes. (takes, refl, refl)) h

  -- The first round of a multiappend whose chains on this server do not know it yet, and are named at most once: it does not panic. Each of these
  -- chains has the append at the end of its queue, with its next timestamp, and can go on; the answer has these timestamps and the places in the
  -- queues, and 0 for the mark and the chains of other servers. No trie changes, and no other chain.
  pub new_multiappend_round1_lem :
      (al : AllocOps A E) (alloc : A)
      → first_chain al alloc ≡ ok first
      → (storage : S) (distinguish : Bool) (t : T) (locs : List (ℕ × ℕ)) (log : Store A E S T)
      → AllHere (part this total) (λ c i. TakesNew id (chain_at first log c)) locs
      → NoTwins this total locs
      → Returns
          (Rounded first this total id (time_of log) (place_in_queue log) locs log)
          (new_multiappend_round1 al alloc this total id storage distinguish t false locs log)
  new_multiappend_round1_lem al alloc made storage distinguish t locs log takes d =
      round1_loop first this total id (time_of log) (place_in_queue log) al alloc made storage
        distinguish t false locs log (expects locs log takes) d
