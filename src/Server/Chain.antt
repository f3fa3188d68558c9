-- ===== src/Server/Chain.antt =====
-- fuzzy_log_server/src/ordering_thread.rs, `Chain`: one colour of the log on a server, the entries that are ordered (the
-- trie) and the appends that wait (the Skeens state). The trie is taken by its interface: `len`, room for a value, the append of an entry, the append of an
-- empty slot, and the append of a blank entry.
pub mod Finish
pub mod Deliver
pub mod Single
pub mod Run
pub mod Log
use delos_rust.Prelude.{
  ℕ, ◌+◌, ◌-◌, ◌<◌, ◌≡◌, Bool, ◌⊎◌, inl, inr, Option, none, some, List, [], ◌∷◌, Outcome, ok, panic,
  ◌>>=◌, ltb, sub64, not, if◌then◌else◌, u64_max,
}
use delos_rust.Server.GotMax
use delos_rust.Server.GotMax.{GotMax, Got}
use delos_rust.Server.Waiting.{Slot}
use delos_rust.Server.Skeens
use delos_rust.Server.Skeens.{
  SkeensState, SkeensAppendRes, new_append, old_phase1, needs_flush, okay, not_waiting, duplicate,
  is_empty_state,
}

-- The trie of a chain: `L` is its state, `P` a pointer to a slot for a value, `R` a slot with the room for
-- its value.
pub record TrieOps (L P R E : Type 0) : Type 0 where
  pub len : L → ℕ
  -- `reserve_space(size)`: a place for a value, with its location.
  pub reserve_space : ℕ → L → Outcome (E × ℕ × L)
  -- `partial_append(size)`: the next entry, with room for a value.
  pub partial_append : ℕ → L → Outcome (R × L)
  -- `prep_append(ValEdge::null())`: the index and the slot.
  pub prep_append : L → Outcome (ℕ × P × L)
  -- `partial_append(blank.len()).finish_append_with_contents(blank)` for the blank entry of a colour
  pub add_blank : ℕ → L → Outcome L

-- What a chain relies on: in a good state with fewer than `cap` entries an operation returns, in a good state, and the
-- entries it adds are at the end.
pub record IsLawful {L P R E : Type 0} (tr : TrieOps L P R E) (Good : L → Type 0) (cap : ℕ)
    : Type 0 where
  pub reserve :
      (size : ℕ) (l : L)
      → Good l
      → (e : E) × (loc : ℕ) × (l' : L) × (tr.reserve_space size l ≡ ok (e, loc, l'))
        × (tr.len l' ≡ tr.len l)
        × Good l'
  pub partial :
      (size : ℕ) (l : L)
      → Good l
      → tr.len l < cap
      → (r : R) × (l' : L) × (tr.partial_append size l ≡ ok (r, l'))
        × (tr.len l' ≡ tr.len l + 1)
        × Good l'
  pub append :
      (l : L)
      → Good l
      → tr.len l < cap
      → (p : P) × (l' : L) × (tr.prep_append l ≡ ok (tr.len l, p, l'))
        × (tr.len l' ≡ tr.len l + 1)
        × Good l'
  pub blank :
      (colour : ℕ) (l : L)
      → Good l
      → tr.len l < cap
      → (l' : L) × (tr.add_blank colour l ≡ ok l') × (tr.len l' ≡ tr.len l + 1) × Good l'

pub record Chain (L S E T : Type 0) : Type 0 where
  pub trie : L
  pub skeens : SkeensState S E T

-- `FinishSkeens`: a delivered append with its place in the log; no slot is a null pointer.
pub data FinishSkeens (P S E T : Type 0) : Type 0 where
  single : ℕ → P → E → ℕ → T → FinishSkeens P S E T
  multi : ℕ → Option P → S → ℕ → T → FinishSkeens P S E T
  snap : ℕ → S → ℕ → T → FinishSkeens P S E T

-- `Ok` with the timestamp and the index, or `Err` with the timestamp that the append already has.
abbrev pub timestamp_of : SkeensAppendRes → (ℕ × ℕ) ⊎ ℕ
timestamp_of (new_append ts num) = inl (ts, num)
timestamp_of (old_phase1 ts) = inr ts
timestamp_of (SkeensAppendRes.phase2 ts) = inr ts

module _ {L S E T : Type 0} where
  abbrev pub needs_skeens_single : Chain L S E T → Bool
  needs_skeens_single c = not (is_empty_state c.skeens)

  unfoldable pub timestamp_for_multi :
      Chain L S E T → ℕ → S → Bool → T → Outcome (((ℕ × ℕ) ⊎ ℕ) × Chain L S E T)
  timestamp_for_multi c id storage is_sentinel t = do
    (res, sk) ← Skeens.add_multi_append c.skeens id storage is_sentinel t
    ok (timestamp_of res, record c { skeens = sk })

  unfoldable pub timestamp_for_snap :
      Chain L S E T → ℕ → S → T → Outcome (((ℕ × ℕ) ⊎ ℕ) × Chain L S E T)
  timestamp_for_snap c id storage t = do
    (res, sk) ← Skeens.add_snapshot c.skeens id storage t
    ok (timestamp_of res, record c { skeens = sk })

module _ {L P R E : Type 0} (tr : TrieOps L P R E) where
  abbrev pub horizon : L → Outcome ℕ
  horizon l = sub64 (tr.len l) 1

  unfoldable pub horizon_or_add_blank : L → ℕ → Outcome (ℕ × L)
  horizon_or_add_blank l colour = do
    h ← horizon l
    if ltb 0 h then ok (h, l) else (do l' ← tr.add_blank colour l; h' ← horizon l'; ok (h', l'))

module _ {L P R S E T : Type 0} (tr : TrieOps L P R E) where
  -- A slot and its location, the timestamp, and the index in the queue.
  unfoldable pub handle_skeens_single :
      Chain L S E T → ℕ → ℕ → ℕ → T → Outcome (E × ℕ × ℕ × ℕ × Chain L S E T)
  handle_skeens_single c id timestamp size t = do
    (slot, loc, l) ← tr.reserve_space size c.trie
    (res, sk) ← Skeens.add_single_append c.skeens id timestamp slot t
    elim res [
      | new_append ts num ↦ ok (slot, loc, ts, num, record { trie = l; skeens = sk })
      | _ ↦ panic
    ]

  -- The entry takes the next place in the log.
  unfoldable pub append_data : Chain L S E T → ℕ → Outcome (ℕ × R × Chain L S E T)
  append_data c size = do
    let index = tr.len c.trie
    (slot, l) ← tr.partial_append size c.trie
    ok (index, slot, record c { trie = l })

  -- The callback of `finish_multi`.
  unfoldable pub finish_one : ℕ → L → GotMax S E T → Outcome (FinishSkeens P S E T × L)
  finish_one colour l (GotMax.simple_single g) = do
    (loc, ptr, l') ← tr.prep_append l
    ok (single loc ptr g.storage g.timestamp g.t, l')
  finish_one colour l (GotMax.single s) = do
    (loc, ptr, l') ← tr.prep_append l
    ok (single loc ptr s.storage s.timestamp s.t, l')
  finish_one colour l (GotMax.multi g) = do
    (loc, ptr, l') ← tr.prep_append l
    ok (multi loc (some ptr) g.storage g.timestamp g.t, l')
  finish_one colour l (GotMax.senti g) = do
    (loc, l') ← horizon_or_add_blank tr l colour
    ok (multi loc none g.storage g.timestamp g.t, l')
  finish_one colour l (GotMax.snap g) = do
    loc ← horizon tr l
    ok (snap loc g.storage g.timestamp g.t, l)

  unfoldable pub finish_all :
      ℕ → L → List (GotMax S E T) → Outcome (List (FinishSkeens P S E T) × L)
  finish_all colour l [] = ok ([], l)
  finish_all colour l (g ∷ gs) = do
    (f, l₁) ← finish_one colour l g
    (fs, l₂) ← finish_all colour l₁ gs
    ok (f ∷ fs, l₂)

  -- The calls of `on_finish`, in order. The trie and the Skeens state are apart, so the callback's part comes
  -- after the flush here.
  unfoldable pub finish_multi :
      Chain L S E T → ℕ → ℕ → ℕ → Outcome (List (FinishSkeens P S E T) × Chain L S E T)
  finish_multi c id max_timestamp colour = do
    (r, sk) ← Skeens.set_max_timestamp c.skeens id max_timestamp
    elim r [
      | okay ↦ ok ([], record c { skeens = sk })
      | duplicate ts ↦ panic
      | not_waiting ↦ panic
      | needs_flush ↦ do
        (gs, sk') ← Skeens.flush_got_max_timestamp sk
        (fs, l) ← finish_all colour c.trie gs
        ok (fs, record { trie = l; skeens = sk' })
    ]

  -- The branch of `handle_op` for a single append: through Skeens' protocol while other appends wait, straight into the
  -- trie otherwise. `inl` is the timestamp and the index in the queue, `inr` the place in the log.
  unfoldable pub append_single :
      Chain L S E T → ℕ → ℕ → ℕ → T → Outcome (((ℕ × ℕ) ⊎ ℕ) × Chain L S E T)
  append_single c id min_timestamp size t = do
    (needed, sk) ← Skeens.need_single_at c.skeens min_timestamp
    let c₁ = record c { skeens = sk }
    let queued = (do
      (slot, loc, ts, num, c₂) ← handle_skeens_single c₁ id min_timestamp size t
      ok (inl (ts, num), c₂))
    let appended = (do (index, slot, c₂) ← append_data c₁ size; ok (inr index, c₂))
    if needed then queued else appended
