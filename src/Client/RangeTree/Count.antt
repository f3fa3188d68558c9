-- ===== src/Client/RangeTree/Count.antt =====
-- How many points of an interval pass a test.
use delos_rust.Prelude.{ℕ, zero, suc, ◌+◌, ◌-◌, ◌<◌, ◌≤◌, ◌≡◌, refl, ap, Bool, arith, if◌then◌else◌}

abbrev pub one_if : Bool → ℕ
one_if b = if b then 1 else 0

-- Those of `lo`, `lo + 1`, ..., `lo + n - 1`.
unfoldable pub counted : (ℕ → Bool) → ℕ → ℕ → ℕ
counted f lo zero = 0
counted f lo (suc n) = one_if (f lo) + counted f (lo + 1) n

pub counted_ext :
    (f g : ℕ → Bool) (lo n : ℕ)
    → ((q : ℕ) → lo ≤ q → q < lo + n → f q ≡ g q)
    → counted f lo n ≡ counted g lo n
unfolding counted
counted_ext f g lo zero h = refl
counted_ext f g lo (suc n) h =
    ground (arith, h lo, counted_ext f g (lo + 1) n (λ q a b. h q (omega arith) (omega arith)))

pub counted_bound : (f : ℕ → Bool) (lo n : ℕ) → counted f lo n ≤ n
unfolding counted
counted_bound f lo zero = omega arith
counted_bound f lo (suc n) = ground (arith, counted_bound f (lo + 1) n)

pub counted_split :
    (f : ℕ → Bool) (lo a b : ℕ) → counted f lo (a + b) ≡ counted f lo a + counted f (lo + a) b
unfolding counted
counted_split f lo zero b = ground arith
counted_split f lo (suc a) b =
    let first : suc a + b ≡ suc (a + b) = omega arith in
    let rest : lo + suc a ≡ lo + 1 + a = omega arith in
    rw (first, rest) (ground (arith, counted_split f (lo + 1) a b))

counted_parts :
    (f : ℕ → Bool) (lo before n total : ℕ)
    → before + n ≤ total
    → counted f lo total
      ≡ counted f lo before
        + (counted f (lo + before) n + counted f (lo + before + n) (total - (before + n)))
counted_parts f lo before n total fits =
    let whole : total ≡ before + (n + (total - (before + n))) = omega arith in
    omega (
      arith,
      ap (counted f lo) whole,
      counted_split f lo before (n + (total - (before + n))),
      counted_split f (lo + before) n (total - (before + n)),
    )

-- Every point of an interval has the same answer.
abbrev pub times : Bool → ℕ → ℕ
times b n = if b then n else 0

pub counted_all :
    (f : ℕ → Bool) (b : Bool) (lo n : ℕ)
    → ((q : ℕ) → lo ≤ q → q < lo + n → f q ≡ b)
    → counted f lo n ≡ times b n
unfolding counted
counted_all f b lo zero h = ground arith
counted_all f b lo (suc n) h =
    ground (arith, h lo, counted_all f b (lo + 1) n (λ q x y. h q (omega arith) (omega arith)))

-- Two tests that differ on an interval alone, where each is constant.
pub counted_change :
    (f g : ℕ → Bool) (b c : Bool) (lo before n total : ℕ)
    → before + n ≤ total
    → ((q : ℕ) → q < lo + before → f q ≡ g q)
    → ((q : ℕ) → lo + before + n ≤ q → f q ≡ g q)
    → ((q : ℕ) → lo + before ≤ q → q < lo + before + n → f q ≡ b)
    → ((q : ℕ) → lo + before ≤ q → q < lo + before + n → g q ≡ c)
    → counted f lo total + times c n ≡ counted g lo total + times b n
counted_change f g b c lo before n total fits low high old new = omega (
  arith,
  counted_parts f lo before n total fits,
  counted_parts g lo before n total fits,
  counted_ext f g lo before (λ q x y. low q y),
  counted_ext f g (lo + before + n) (total - (before + n)) (λ q x y. high q x),
  counted_all f b (lo + before) n old,
  counted_all g c (lo + before) n new,
)
