-- ===== src/Server/Rounds/Second.antt =====
-- fuzzy_log_server/src/ordering_thread.rs, `new_multiappend_round2`: the second round over the chains of a server.
use delos_rust.Prelude.{
  ℕ, ◌+◌, ◌<◌, ◌≤◌, ◌^◌, ◌≡◌, ◌≢◌, refl, sym, ◌∙◌, subst, true, some, List, [], ◌∷◌, Outcome,
  Returns, Returns->>=, Returns-map, lookup, u64_max,
}
use delos_rust.Server.Waiting.{WaitingForMax, get_id}
use delos_rust.Server.Skeens.{phase1}
use delos_rust.Server.Skeens.Invariant.{IsSettled, Waits, time, pending}
use delos_rust.Server.Edge.{set}
use delos_rust.Server.Edge.Walk.{set-eq, set-ne}
use delos_rust.Server.Trie.{Trie}
use delos_rust.Server.Trie.Storage.{AllocOps, HasSpace, IsGood}
use delos_rust.Server.Chain.{Chain, FinishSkeens, finish_multi}
use delos_rust.Server.Chain.Log.{log_ops, log_ops-IsLawful}
use delos_rust.Server.Chain.Deliver.{Finished, finish_multi_lem}
use delos_rust.Server.Locks.{Store, Role, mark, here, elsewhere}
use delos_rust.Server.Locks.View.{AllHere, AllHere-map, AllHere-both}
use delos_rust.Server.Rounds.{part, round2_one, round2_loop, new_multiappend_round2}
use delos_rust.Server.Rounds.First.{NoTwins}

-- What is sent for a place: nothing, or what its chain did, and then the rest
abbrev pub SentAt :
    {S E T : Type 0}
    → Role
    → (List (FinishSkeens ℕ S E T) → Type 0)
    → ℕ
    → (List (ℕ × List (FinishSkeens ℕ S E T)) → Type 0)
    → List (ℕ × List (FinishSkeens ℕ S E T))
    → Type 0
SentAt here D c rest [] = ⊥
SentAt here D c rest ((d, fs) ∷ sent) = (d ≡ c) × D fs × rest sent
SentAt mark D c rest sent = rest sent
SentAt elsewhere D c rest sent = rest sent

SentAt-map :
    {S E T : Type 0} (ro : Role) (D D' : List (FinishSkeens ℕ S E T) → Type 0) (c : ℕ)
    (rest rest' : List (ℕ × List (FinishSkeens ℕ S E T)) → Type 0)
    → (ro ≡ here → (fs : List (FinishSkeens ℕ S E T)) → D fs → D' fs)
    → ((s : List (ℕ × List (FinishSkeens ℕ S E T))) → rest s → rest' s)
    → (sent : List (ℕ × List (FinishSkeens ℕ S E T))) → SentAt ro D c rest sent
    → SentAt ro D' c rest' sent
SentAt-map mark D D' c rest rest' f g sent h = g sent h
SentAt-map elsewhere D D' c rest rest' f g sent h = g sent h
SentAt-map here D D' c rest rest' f g [] h = h
SentAt-map here D D' c rest rest' f g ((x, fs) ∷ sent) (same, d, h) = (same, f refl fs d, g sent h)

module _ {A E S T : Type 0} (al : AllocOps A E) {Good : A → Type 0} (space : HasSpace al Good)
    (blank_len : ℕ → ℕ) (this total id max_timestamp : ℕ) where
  -- The append waits in the chain, with no later time than the final one, and there is room for what waits.
  abbrev pub Awaits : Chain (Trie A E) S E T → Type 0
  Awaits c =
      IsSettled c.skeens
      × (c.skeens.phase1_queue.next ≤ u64_max)
      × ((j : ℕ) (w : WaitingForMax S E T)
          → Waits c.skeens j w
          → get_id w ≡ id
          → time w ≤ max_timestamp)
      × ((k : ℕ) × (lookup id c.skeens.append_status ≡ some (phase1 k)))
      × IsGood al space c.trie
      × (1 ≤ c.trie.next_entry)
      × (c.trie.next_entry + pending c.skeens ≤ 2 ^ 62)

  abbrev pub Waiting : Store A E S T → ℕ → Type 0
  Waiting log c = (ch : Chain (Trie A E) S E T) × (log c ≡ some ch) × Awaits ch

  -- What one chain did
  abbrev pub Done : Store A E S T → Store A E S T → ℕ → List (FinishSkeens ℕ S E T) → Type 0
  Done log log' c fs =
      (ch : Chain (Trie A E) S E T) × (ch' : Chain (Trie A E) S E T) × (log c ≡ some ch)
      × (log' c ≡ some ch')
      × Finished (log_ops al blank_len) (log_ops-IsLawful al space blank_len) ch id max_timestamp
          (fs, ch')

  -- What is sent is what the chains of the places did, in order.
  abbrev pub Sent :
      Store A E S T → Store A E S T → List (ℕ × ℕ) → List (ℕ × List (FinishSkeens ℕ S E T)) → Type 0
  Sent log log' [] sent = sent ≡ []
  Sent log log' ((c, i) ∷ locs) sent =
      SentAt (part this total (c, i)) (Done log log' c) c (λ s. Sent log log' locs s) sent

  abbrev pub Round2 :
      List (ℕ × ℕ) → Store A E S T → List (ℕ × List (FinishSkeens ℕ S E T)) × Store A E S T → Type 0
  Round2 locs log (sent, log') =
      ((d : ℕ) → AllHere (part this total) (λ c i. c ≢ d) locs → log' d ≡ log d)
      × Sent log log' locs sent

  -- Where a chain does not stand in the places, it may have been another one before.
  Sent-before :
      (c : ℕ) (log log₁ log' : Store A E S T) (locs : List (ℕ × ℕ))
      (sent : List (ℕ × List (FinishSkeens ℕ S E T)))
      → ((d : ℕ) → d ≢ c → log₁ d ≡ log d)
      → AllHere (part this total) (λ d j. d ≢ c) locs
      → Sent log₁ log' locs sent
      → Sent log log' locs sent
  Sent-before c log log₁ log' [] sent others apart h = h
  Sent-before c log log₁ log' ((d, i) ∷ locs) sent others apart h =
      SentAt-map (part this total (d, i)) (Done log₁ log' d) (Done log log' d) d
        (Sent log₁ log' locs) (Sent log log' locs)
        (λ e fs (ch, ch', a, b, f). (ch, ch', sym (others d (apart.0 e)) ∙ a, b, f))
        (λ s r. Sent-before c log log₁ log' locs s others apart.1 r) sent h

  -- A place of another server, or the mark
  not_sent :
      (c i : ℕ) (locs : List (ℕ × ℕ)) (log : Store A E S T) (ro : Role)
      → part this total (c, i) ≡ ro
      → ro ≢ here
      → (r : List (ℕ × List (FinishSkeens ℕ S E T)) × Store A E S T) → Round2 locs log r
      → Round2 ((c, i) ∷ locs) log r
  not_sent c i locs log here e ne r h = absurd (ne refl)
  not_sent c i locs log mark e ne (sent, log') (same, h) = (
    (λ d a. same d a.1),
    subst (λ ro. SentAt ro (Done log log' c) c (Sent log log' locs) sent) (sym e) h,
  )
  not_sent c i locs log elsewhere e ne (sent, log') (same, h) = (
    (λ d a. same d a.1),
    subst (λ ro. SentAt ro (Done log log' c) c (Sent log log' locs) sent) (sym e) h,
  )

  module _ (low : max_timestamp < u64_max) where
    round2_one_lem :
        (c i : ℕ) (locs : List (ℕ × ℕ)) (log : Store A E S T)
        (rest : Store A E S T → Outcome (List (ℕ × List (FinishSkeens ℕ S E T)) × Store A E S T))
        → AllHere (part this total) (λ c i. Waiting log c) ((c, i) ∷ locs)
        → NoTwins this total ((c, i) ∷ locs)
        → ((log : Store A E S T)
            → AllHere (part this total) (λ c i. Waiting log c) locs
            → Returns (Round2 locs log) (rest log))
        → (ro : Role) → part this total (c, i) ≡ ro
        → Returns
            (Round2 ((c, i) ∷ locs) log)
            (round2_one al blank_len id max_timestamp c rest log ro)
    unfolding round2_one
    round2_one_lem c i locs log rest x d ih mark e =
        Returns-map {P = Round2 locs log} {Q = Round2 ((c, i) ∷ locs) log} (rest log) (ih log x.1)
          (not_sent c i locs log mark e (λ z. absurd (cc)))
    round2_one_lem c i locs log rest x d ih elsewhere e =
        Returns-map {P = Round2 locs log} {Q = Round2 ((c, i) ∷ locs) log} (rest log) (ih log x.1)
          (not_sent c i locs log elsewhere e (λ z. absurd (cc)))
    round2_one_lem c i locs log rest x d ih here e =
        let (ch, found, (settled, next, times, (k, status), good, some_entry, space_left)) =
          x.0 e in
        let laws = log_ops-IsLawful al space blank_len in
        rw (found) (
          Returns->>= (Finished (log_ops al blank_len) laws ch id max_timestamp)
            (Round2 ((c, i) ∷ locs) log) (finish_multi (log_ops al blank_len) ch id max_timestamp c)
            _
            (finish_multi_lem (log_ops al blank_len) laws ch id max_timestamp c k settled low next
              times status good some_entry space_left)
            (λ (fs, ch') f.
              let log₁ = set c (some ch') log in
              let others : (b : ℕ) → b ≢ c → log₁ b ≡ log b =
                λ b ne. set-ne c b (some ch') log ne in
              Returns->>= (Round2 locs log₁) (Round2 ((c, i) ∷ locs) log) (rest log₁) _
                (ih log₁ (
                  AllHere-map (part this total) (λ b j. (b ≢ c) × Waiting log b) _ locs
                    (λ b j (ne, (w, a, h)). (w, others b ne ∙ a, h))
                    (AllHere-both (part this total) _ _ locs (d.0 e) x.1)))
                (λ (sent, log') (same, h). (
                  (λ b a. let ne : b ≢ c = λ q. a.0 e (sym q) in same b a.1 ∙ others b ne),
                  subst (λ ro. SentAt ro (Done log log' c) c (Sent log log' locs) ((c, fs) ∷ sent))
                      (sym e)
                      (
                        refl,
                        (ch, ch', found, same c (d.0 e) ∙ set-eq c c (some ch') log refl, f),
                        Sent-before c log log₁ log' locs sent others (d.0 e) h,
                      ),
                ))))

    round2_loop_lem :
        (locs : List (ℕ × ℕ)) (log : Store A E S T)
        → AllHere (part this total) (λ c i. Waiting log c) locs
        → NoTwins this total locs
        → Returns (Round2 locs log) (round2_loop al blank_len this total id max_timestamp locs log)
    unfolding round2_loop
    round2_loop_lem [] log x d = ((λ c a. refl), refl)
    round2_loop_lem ((c, i) ∷ locs) log x d =
        round2_one_lem c i locs log
          (λ log. round2_loop al blank_len this total id max_timestamp locs log) x d
          (λ log x. round2_loop_lem locs log x d.1) (part this total (c, i)) refl

    -- The second round, with its flag, of a multiappend that waits in each of its chains on this server, which are named at most once, with a
    -- final timestamp below the greatest that is not below theirs, while the chains have room: it does not panic. What is sent is what these chains
    -- deliver, in the order of the places. What a chain delivers and what it keeps in its heap are appends that waited there, each with its kind,
    -- contents and id and with its final timestamp, in the order of these, no id twice; the deliveries are the first of them, at their places in the
    -- log, and nothing more can be delivered. With them a chain has as many appends as before, and it can go on. No other
    -- chain changes.
    pub new_multiappend_round2_lem :
        (locs : List (ℕ × ℕ)) (log : Store A E S T)
        → AllHere (part this total) (λ c i. Waiting log c) locs
        → NoTwins this total locs
        → Returns
            (Round2 locs log)
            (new_multiappend_round2 al blank_len this total id max_timestamp true locs log)
    unfolding new_multiappend_round2
    new_multiappend_round2_lem locs log x d = round2_loop_lem locs log x d
