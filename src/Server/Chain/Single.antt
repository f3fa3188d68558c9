-- ===== src/Server/Chain/Single.antt =====
-- A single append: `need_single_at` decides whether it has to wait with the others.
use delos_rust.Prelude.{
  ℕ, ◌+◌, ◌<◌, ◌≤◌, ◌≡◌, refl, ap, subst, ◌⊎◌, inl, inr, true, false, ◌&&◌, ◌||◌, Option, none,
  some, arith, ok, Returns, Returns->>=, u64_max, ltb, leb, lookup, Bool-cases, Option-cases,
  is_empty, is_empty_of_lookup, lookup_of_is_empty,
}
use delos_rust.Server.Skeens
use delos_rust.Server.Skeens.{
  SkeensState, SkeensAppendRes, AppendStatus, new_append, phase1, singleton, need_single_at,
}
use delos_rust.Server.Skeens.Invariant.{IsSettled}
use delos_rust.Server.Skeens.Clock.{bumped, bump_lem, bumped-IsSettled}
use delos_rust.Server.Skeens.Added.{HasRoom, Answer, Answered, add_single_append_lem}
use delos_rust.Server.Chain.{
  TrieOps, IsLawful, Chain, append_single, append_data, handle_skeens_single,
}

module _ {S E T : Type 0} where
  pub Answered-last_flush :
      (s s' : SkeensState S E T) (id : ℕ) (st : Option AppendStatus) (res : SkeensAppendRes)
      → Answered s id st res s'
      → s'.last_flush ≡ s.last_flush
  Answered-last_flush s s' id none res (a, w, b, c, d) = ap (λ x. x.last_flush) b
  Answered-last_flush s s' id (some (AppendStatus.phase2 t)) res (a, b) = ap (λ x. x.last_flush) b
  Answered-last_flush s s' id (some (phase1 k)) res (w, a, b, c, d) = ap (λ x. x.last_flush) d
  Answered-last_flush s s' id (some (singleton k)) res (w, a, b, c, d) = ap (λ x. x.last_flush) d

  -- Between operations an empty queue has no entries.
  no_entries :
      (s : SkeensState S E T)
      → IsSettled s
      → s.phase1_queue.start ≡ s.phase1_queue.next
      → is_empty s.phase1_queue.entries ≡ true
  no_entries s i e = is_empty_of_lookup s.phase1_queue.entries (λ k.
      elim (Option-cases (lookup k s.phase1_queue.entries)) [
        | inl f ↦ f
        | inr (w, f) ↦ absurd (omega (arith, i.inv.window.keys k w f))
      ])

  -- Between operations a single append has to wait exactly if an append waits and the given time is later than the last delivery;
  -- otherwise the clock moves past that time.
  pub need_single_at_lem :
      (s : SkeensState S E T) (timestamp : ℕ)
      → IsSettled s
      → timestamp < u64_max
      → ((need_single_at s timestamp ≡ ok (true, s))
          × (s.phase1_queue.start < s.phase1_queue.next)
          × (s.last_flush < timestamp))
        ⊎ ((need_single_at s timestamp ≡ ok (false, bumped s timestamp))
            × ((s.phase1_queue.start ≡ s.phase1_queue.next) ⊎ (timestamp ≤ s.last_flush)))
  unfolding need_single_at
  need_single_at_lem s timestamp i b =
      let sane : ltb s.last_flush s.next_timestamp ≡ true = ground (arith, i.inv.clock) in
      elim (Bool-cases (
        (is_empty s.phase1_queue.entries && is_empty s.got_max_timestamp)
        || leb timestamp s.last_flush)) [
          | inl e ↦ inr (
            rw sane (rw e (rw (bump_lem s timestamp b) refl)),
            ground (
              arith,
              e,
              i.inv.dense s.phase1_queue.start,
              i.inv.window.start_next,
              lookup_of_is_empty s.phase1_queue.start s.phase1_queue.entries,
            ),
          )
          | inr e ↦ inl (
            rw sane (rw e refl),
            ground (arith, e, i.inv.window.start_next, no_entries s i, i.queue),
            ground (arith, e),
          )
        ]

module _ {L P R S E T : Type 0} (tr : TrieOps L P R E) {Good : L → Type 0} {cap : ℕ}
    (laws : IsLawful tr Good cap) where
  queued_lem :
      (c : Chain L S E T) (id timestamp size : ℕ) (t : T)
      → IsSettled c.skeens
      → lookup id c.skeens.append_status ≡ none
      → HasRoom c.skeens
      → timestamp + 1 < u64_max
      → Good c.trie
      → tr.len c.trie < cap
      → c.skeens.phase1_queue.start < c.skeens.phase1_queue.next
      → Returns
          (λ (slot, loc, ts, num, c').
            IsSettled c'.skeens × (c'.skeens.last_flush ≡ c.skeens.last_flush) × Good c'.trie)
          (handle_skeens_single tr c id timestamp size t)
  unfolding handle_skeens_single
  queued_lem c id timestamp size t i fresh room b good n full =
      let (slot, loc, l', f, g, good') = laws.reserve size c.trie good in
      rw f (
        Returns->>= (Answer (bumped c.skeens timestamp) id) _
          (Skeens.add_single_append c.skeens id timestamp slot t) _
          (add_single_append_lem c.skeens id timestamp slot t i room b full)
          (λ (res, sk) (j, a).
            let known = subst (λ st. Answered (bumped c.skeens timestamp) id st res sk) fresh a in
            rw known.0
              (j, Answered-last_flush (bumped c.skeens timestamp) sk id none res known, good')))

  pub append_single_lem :
      (c : Chain L S E T) (id timestamp size : ℕ) (t : T)
      → IsSettled c.skeens
      → lookup id c.skeens.append_status ≡ none
      → HasRoom c.skeens
      → timestamp + 1 < u64_max
      → Good c.trie
      → tr.len c.trie < cap
      → Returns
          (λ (r, c').
            IsSettled c'.skeens × (c'.skeens.last_flush ≡ c.skeens.last_flush) × Good c'.trie)
          (append_single tr c id timestamp size t)
  unfolding append_single append_data
  append_single_lem c id timestamp size t i fresh room b good n =
      elim (need_single_at_lem c.skeens timestamp i (omega arith)) [
        | inl (e, full, late) ↦ rw e (
            Returns->>=
              (λ (slot, loc, ts, num, c').
                IsSettled c'.skeens × (c'.skeens.last_flush ≡ c.skeens.last_flush) × Good c'.trie)
              (λ (r, c').
                IsSettled c'.skeens × (c'.skeens.last_flush ≡ c.skeens.last_flush) × Good c'.trie)
              (handle_skeens_single tr c id timestamp size t) _
              (queued_lem c id timestamp size t i fresh room b good n full) (λ x h. h))
        | inr (e, quiet) ↦
            let (p, l', f, g, good') = laws.partial size c.trie good n in
            rw e (rw f (bumped-IsSettled c.skeens timestamp i, refl, good'))
      ]
