-- ===== src/Server/GotMax.antt =====
-- fuzzy_log_server/src/skeens.rs, `GotMax`: an append with its final timestamp, its order, and the
-- binary heap of such appends.
pub mod Order
use delos_rust.Prelude.{
  ℕ, compare, Ordering, Bool, ◌&&◌, ◌||◌, List, [], ◌∷◌, Outcome, ok, panic, ◌>>=◌, ltb, leb, ◌==◌,
}
use delos_rust.Server.Waiting.{WaitingForMax, Slot, multi_timestamp, time_of}

pub record Got (S T : Type 0) : Type 0 where
  pub timestamp : ℕ
  pub storage : S
  pub t : T
  pub id : ℕ

pub data GotMax (S E T : Type 0) : Type 0 where
  multi senti snap : Got S T → GotMax S E T
  simple_single : Got E T → GotMax S E T
  single : Slot E T → GotMax S E T

abbrev got : {S T : Type 0} → Slot S T → Got S T
got s = record { timestamp = s.timestamp; storage = s.storage; t = s.t; id = s.id }

abbrev pub reverse : Ordering → Ordering
reverse Ordering.lt = Ordering.gt
reverse Ordering.eq = Ordering.eq
reverse Ordering.gt = Ordering.lt

-- `match my.cmp(&other) { Equal => tie, o => o.reverse() }`
abbrev pub reverse_or : Ordering → Ordering → Ordering
reverse_or Ordering.lt tie = Ordering.gt
reverse_or Ordering.eq tie = tie
reverse_or Ordering.gt tie = Ordering.lt

-- Two single appends with one time and one id are a panic.
abbrev pub reverse_or_panic : Ordering → Ordering → Outcome Ordering
reverse_or_panic Ordering.lt ids = ok Ordering.gt
reverse_or_panic Ordering.gt ids = ok Ordering.lt
reverse_or_panic Ordering.eq Ordering.eq = panic
reverse_or_panic Ordering.eq ids = ok (reverse ids)

module _ {S E T : Type 0} where
  unfoldable pub into_got_max : WaitingForMax S E T → Outcome (GotMax S E T)
  into_got_max (WaitingForMax.simple_single s) = ok (simple_single (got s))
  into_got_max (WaitingForMax.single s) = ok (single s)
  into_got_max (WaitingForMax.got_max_multi s) = ok (multi (got s))
  into_got_max (WaitingForMax.got_max_senti s) = ok (senti (got s))
  into_got_max (WaitingForMax.got_max_snap s) = ok (snap (got s))
  into_got_max _ = panic

  unfoldable pub timestamp : GotMax S E T → ℕ
  timestamp (multi g) = g.timestamp
  timestamp (senti g) = g.timestamp
  timestamp (snap g) = g.timestamp
  timestamp (simple_single g) = g.timestamp
  timestamp (single s) = s.timestamp

  unfoldable pub is_multi : GotMax S E T → Bool
  is_multi (multi g) = Bool.true
  is_multi (senti g) = Bool.true
  is_multi (snap g) = Bool.true
  is_multi (single s) = Bool.false
  is_multi (simple_single g) = Bool.false

  unfoldable pub get_id : GotMax S E T → ℕ
  get_id (multi g) = g.id
  get_id (senti g) = g.id
  get_id (snap g) = g.id
  get_id (simple_single g) = g.id
  get_id (single s) = s.id

  -- A multiappend before an entry of the queue: by time, then by id.
  abbrev pub multi_before : ℕ → ℕ → WaitingForMax S E T → Outcome Bool
  multi_before ts id (WaitingForMax.multi s) =
      ok (ltb ts s.timestamp || (ts == s.timestamp && ltb id s.id))
  multi_before ts id (WaitingForMax.senti s) =
      ok (ltb ts s.timestamp || (ts == s.timestamp && ltb id s.id))
  multi_before ts id (WaitingForMax.snap s) =
      ok (ltb ts s.timestamp || (ts == s.timestamp && ltb id s.id))
  multi_before ts id (WaitingForMax.simple_single s) = ok (leb ts s.timestamp)
  multi_before ts id (WaitingForMax.single s) = ok (leb ts s.timestamp)
  multi_before ts id _ = panic

  -- A single append before any entry of the queue: by time alone.
  abbrev pub single_before : ℕ → WaitingForMax S E T → Outcome Bool
  single_before ts w = ok (leb ts (time_of (multi_timestamp w)))

  unfoldable pub happens_before : GotMax S E T → WaitingForMax S E T → Outcome Bool
  happens_before (multi g) w = multi_before g.timestamp g.id w
  happens_before (senti g) w = multi_before g.timestamp g.id w
  happens_before (snap g) w = multi_before g.timestamp g.id w
  happens_before (simple_single g) w = single_before g.timestamp w
  happens_before (single s) w = single_before s.timestamp w

  -- A multiappend, snapshot or sentinel against any append.
  abbrev pub cmp_multi : ℕ → ℕ → GotMax S E T → Outcome Ordering
  cmp_multi ts id (multi h) = ok (reverse_or (compare ts h.timestamp) (reverse (compare id h.id)))
  cmp_multi ts id (senti h) = ok (reverse_or (compare ts h.timestamp) (reverse (compare id h.id)))
  cmp_multi ts id (snap h) = ok (reverse_or (compare ts h.timestamp) (reverse (compare id h.id)))
  cmp_multi ts id (simple_single h) = ok (reverse_or (compare ts h.timestamp) Ordering.gt)
  cmp_multi ts id (single h) = ok (reverse_or (compare ts h.timestamp) Ordering.gt)

  abbrev pub cmp_simple_single : ℕ → ℕ → GotMax S E T → Outcome Ordering
  cmp_simple_single ts id (multi h) = ok (reverse_or (compare ts h.timestamp) Ordering.lt)
  cmp_simple_single ts id (senti h) = ok (reverse_or (compare ts h.timestamp) Ordering.lt)
  cmp_simple_single ts id (snap h) = ok (reverse_or (compare ts h.timestamp) Ordering.lt)
  cmp_simple_single ts id (simple_single h) =
      reverse_or_panic (compare ts h.timestamp) (compare id h.id)
  cmp_simple_single ts id (single h) = panic

  abbrev pub cmp_single : ℕ → ℕ → GotMax S E T → Outcome Ordering
  cmp_single ts num (multi h) = ok (reverse_or (compare ts h.timestamp) Ordering.lt)
  cmp_single ts num (senti h) = ok (reverse_or (compare ts h.timestamp) Ordering.lt)
  cmp_single ts num (snap h) = ok (reverse_or (compare ts h.timestamp) Ordering.lt)
  cmp_single ts num (simple_single h) = panic
  cmp_single ts num (single h) =
      ok (reverse_or (compare ts h.timestamp) (reverse (compare num h.node_num)))

  -- `Ord for GotMax`: the heap gives its greatest element first, so earlier is greater.
  unfoldable pub cmp : GotMax S E T → GotMax S E T → Outcome Ordering
  cmp (multi g) h = cmp_multi g.timestamp g.id h
  cmp (senti g) h = cmp_multi g.timestamp g.id h
  cmp (snap g) h = cmp_multi g.timestamp g.id h
  cmp (simple_single g) h = cmp_simple_single g.timestamp g.id h
  cmp (single s) h = cmp_single s.timestamp s.node_num h

  -- `BinaryHeap`: its elements, the greatest first, so that `peek` and `pop` read the head.
  unfoldable pub push : GotMax S E T → List (GotMax S E T) → Outcome (List (GotMax S E T))
  push g [] = ok (g ∷ [])
  push g (h ∷ heap) = do
    o ← cmp g h
    elim o [ Ordering.lt ↦ do rest ← push g heap; ok (h ∷ rest) | _ ↦ ok (g ∷ h ∷ heap) ]
