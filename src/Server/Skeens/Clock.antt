-- ===== src/Server/Skeens/Clock.antt =====
-- The clock, which follows the times that other servers name: `if self.next_timestamp <= timestamp`.
use delos_rust.Prelude.{
  ℕ, ◌+◌, ◌^◌, ◌≤◌, ◌<◌, ◌≡◌, refl, true, arith, ok, u64_max, if◌then◌else◌, leb, ltb, All-map, inl,
  inr, Bool-cases,
}
use delos_rust.Server.Skeens.{SkeensState, bump}
use delos_rust.Server.Skeens.Invariant.{Inv, IsSettled}

module _ {S E T : Type 0} where
  abbrev pub bumped : SkeensState S E T → ℕ → SkeensState S E T
  bumped s timestamp = record s {
    next_timestamp = if leb s.next_timestamp timestamp then timestamp + 1 else s.next_timestamp;
  }

  pub bump_lem :
      (s : SkeensState S E T) (timestamp : ℕ)
      → timestamp < u64_max
      → bump s timestamp ≡ ok (bumped s timestamp)
  bump_lem s timestamp h =
      let sum : ltb (timestamp + 1) (2 ^ 64) ≡ true = ground arith in
      elim (Bool-cases (leb s.next_timestamp timestamp)) [
        | inl e ↦ rw (e, sum) refl
        | inr e ↦ rw e refl
      ]

  pub bumped_high :
      (s : SkeensState S E T) (timestamp : ℕ)
      → (s.next_timestamp ≤ (bumped s timestamp).next_timestamp)
        × (timestamp < (bumped s timestamp).next_timestamp)
  bumped_high s timestamp = (ground arith, ground arith)

  pub bumped-Inv : (s : SkeensState S E T) (timestamp : ℕ) → Inv s → Inv (bumped s timestamp)
  bumped-Inv s timestamp i =
      let (up, past) = bumped_high s timestamp in
      record {
        window = i.window;
        dense = i.dense;
        clock = omega (arith, i.clock);
        entry = λ k w e.
            let o = i.entry k w e in
            record {
              primary = o.primary;
              low = o.low;
              high = omega (arith, o.high);
              status = o.status;
            };
        order = i.order;
        ids = i.ids;
        heap =
            All-map s.got_max_timestamp
              (λ g o. record {
                regular = o.regular;
                low = o.low;
                high = omega (arith, o.high);
                status = o.status;
                apart = o.apart;
                before = o.before;
              })
              i.heap;
        ascending = i.ascending;
        waiting = i.waiting;
      }

  pub bumped-IsSettled :
      (s : SkeensState S E T) (timestamp : ℕ) → IsSettled s → IsSettled (bumped s timestamp)
  bumped-IsSettled s timestamp i = record {
    inv = bumped-Inv s timestamp i.inv;
    front = i.front;
    singles = i.singles;
    queue = i.queue;
  }
