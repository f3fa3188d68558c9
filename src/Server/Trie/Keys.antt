-- ===== src/Server/Trie/Keys.antt =====
-- fuzzy_log_server/src/trie.rs, `level_index_for_key`: the indices of a key, the keys that share a slot at a depth, and
-- where a shortcut stands when so many entries are in the trie.
use delos_rust.Prelude.{
  ℕ, zero, suc, ◌+◌, ◌-◌, ◌*◌, ◌/◌, ◌%◌, ◌^◌, ◌<◌, ◌≤◌, ◌≡◌, ◌≢◌, refl, ap, List, [], ◌∷◌, ◌++◌,
  arith, length, subst, Bool-cases, leb, inl, inr,
}
use delos_rust.Server.Edge.{Shortcut, new}
use delos_rust.Server.Trie.{level_index_for_key, path, span}

-- A fact for each of the depths.
pub by_depth : (P : ℕ → Type 0) → P 0 → P 1 → P 2 → P 3 → P 4 → P 5 → (c : ℕ) → c ≤ 5 → P c
by_depth P p0 p1 p2 p3 p4 p5 zero h = p0
by_depth P p0 p1 p2 p3 p4 p5 (suc zero) h = p1
by_depth P p0 p1 p2 p3 p4 p5 (suc (suc zero)) h = p2
by_depth P p0 p1 p2 p3 p4 p5 (suc (suc (suc zero))) h = p3
by_depth P p0 p1 p2 p3 p4 p5 (suc (suc (suc (suc zero)))) h = p4
by_depth P p0 p1 p2 p3 p4 p5 (suc (suc (suc (suc (suc zero))))) h = p5
by_depth P p0 p1 p2 p3 p4 p5 (suc (suc (suc (suc (suc (suc n)))))) h = absurd (omega (arith, h))

-- Two keys in one slot at a depth have the same indices up to there.
unfoldable pub Same : ℕ → Type 0
Same c =
    (j k : ℕ)
    → j < 2 ^ 64
    → k < 2 ^ 64
    → j / span c ≡ k / span c
    → path (suc c) 0 j ≡ path (suc c) 0 k

pub path-Same : (c : ℕ) → c ≤ 5 → Same c
unfolding path level_index_for_key span Same
path-Same =
    by_depth Same (λ j k hj hk e. ground (arith, e)) (λ j k hj hk e. ground (arith, e))
      (λ j k hj hk e. ground (arith, e)) (λ j k hj hk e. ground (arith, e))
      (λ j k hj hk e. ground (arith, e)) (λ j k hj hk e. ground (arith, e))

-- Keys with the same indices up to a depth are in one slot there.
unfoldable pub Apart : ℕ → Type 0
Apart c =
    (j k : ℕ)
    → j < 2 ^ 64
    → k < 2 ^ 64
    → path (suc c) 0 j ≡ path (suc c) 0 k
    → j / span c ≡ k / span c

pub path-Apart : (c : ℕ) → c ≤ 5 → Apart c
unfolding path level_index_for_key span Apart
path-Apart =
    by_depth Apart (λ j k hj hk e. ground (arith, e)) (λ j k hj hk e. ground (arith, e))
      (λ j k hj hk e. ground (arith, e)) (λ j k hj hk e. ground (arith, e))
      (λ j k hj hk e. ground (arith, e)) (λ j k hj hk e. ground (arith, e))

-- The indices go on from a depth.
unfoldable pub Rest : ℕ → Type 0
Rest c = (k : ℕ) → path 7 0 k ≡ path (suc c) 0 k ++ path (6 - c) (suc c) k

pub path-Rest : (c : ℕ) → c ≤ 5 → Rest c
unfolding path Rest
path-Rest = by_depth Rest (λ k. refl) (λ k. refl) (λ k. refl) (λ k. refl) (λ k. refl) (λ k. refl)

-- One more index at the next depth.
unfoldable pub Next : ℕ → Type 0
Next c = (k : ℕ) → path (suc (suc c)) 0 k ≡ path (suc c) 0 k ++ (level_index_for_key k (suc c) ∷ [])

pub path-Next : (c : ℕ) → c ≤ 5 → Next c
unfolding path Next
path-Next = by_depth Next (λ k. refl) (λ k. refl) (λ k. refl) (λ k. refl) (λ k. refl) (λ k. refl)

-- What begins a slot begins one at the next depth.
unfoldable pub Finer : ℕ → Type 0
Finer c = (n : ℕ) → n % span c ≡ 0 → n % span (suc c) ≡ 0

pub span-Finer : (c : ℕ) → c ≤ 5 → Finer c
unfolding span Finer
span-Finer =
    by_depth Finer (λ n e. omega (arith, e)) (λ n e. omega (arith, e)) (λ n e. omega (arith, e))
      (λ n e. omega (arith, e)) (λ n e. omega (arith, e)) (λ n e. omega (arith, e))

-- Where the shortcut of a depth stands when the entry `n` is in: at the next slot, with the rest of the array.
unfoldable pub Past : ℕ → ℕ → Shortcut → Type 0
Past d n s = (s.at ≡ (n / span d + 1) * span d) × (s.left ≡ 1023 - (n / span d) % 1024)

-- Where it stands when `n` is about to be put in, all the arrays down to the depth being there
unfoldable pub Before : ℕ → ℕ → Shortcut → Type 0
Before d n s =
    (n % span d ≡ 0 → (s.at ≡ n) × (s.left ≡ 1024 - (n / span d) % 1024))
    × (n % span d ≢ 0 → Past d n s)

-- An array that is not full goes on.
unfoldable pub Kept : ℕ → Type 0
Kept c = (n : ℕ) (s : Shortcut) → n % span c ≢ 0 → Past (suc c) (n - 1) s → Before (suc c) n s

pub past-Before : (c : ℕ) → c ≤ 5 → Kept c
unfolding span Past Before Kept
past-Before =
    by_depth Kept
      (λ n s ne p. ((λ e. (ground arith, ground arith)), (λ e. (ground arith, ground arith))))
      (λ n s ne p. ((λ e. (ground arith, ground arith)), (λ e. (ground arith, ground arith))))
      (λ n s ne p. ((λ e. (ground arith, ground arith)), (λ e. (ground arith, ground arith))))
      (λ n s ne p. ((λ e. (ground arith, ground arith)), (λ e. (ground arith, ground arith))))
      (λ n s ne p. ((λ e. (ground arith, ground arith)), (λ e. (ground arith, ground arith))))
      (λ n s ne p. ((λ e. (ground arith, ground arith)), (λ e. (ground arith, ground arith))))

-- A new array begins at the entry.
unfoldable pub Fresh : ℕ → Type 0
Fresh c = (n : ℕ) → n % span c ≡ 0 → Before (suc c) n (new n 1024)

pub new-Before : (c : ℕ) → c ≤ 5 → Fresh c
unfolding span Past Before Fresh
new-Before =
    by_depth Fresh (λ n e. ((λ f. (ground arith, ground arith)), (λ f. absurd (f (ground arith)))))
      (λ n e. ((λ f. (ground arith, ground arith)), (λ f. absurd (f (ground arith)))))
      (λ n e. ((λ f. (ground arith, ground arith)), (λ f. absurd (f (ground arith)))))
      (λ n e. ((λ f. (ground arith, ground arith)), (λ f. absurd (f (ground arith)))))
      (λ n e. ((λ f. (ground arith, ground arith)), (λ f. absurd (f (ground arith)))))
      (λ n e. ((λ f. (ground arith, ground arith)), (λ f. absurd (f (ground arith)))))

-- The shortcut gives the slot of the entry, and stands past it then.
unfoldable pub Popped : ℕ → Type 0
Popped c =
    (n : ℕ) (s : Shortcut)
    → n % span (suc c) ≡ 0
    → Before (suc c) n s
    → (s.at ≡ n) × (s.left ≢ 0) × Past (suc c) n (new (s.at + span (suc c)) (s.left - 1))

pub pop-Past : (c : ℕ) → c ≤ 5 → Popped c
unfolding span Past Before Popped
pop-Past =
    by_depth Popped
      (λ n s e b. (
        ground (arith, b.0 e),
        ground (arith, b.0 e),
        (ground (arith, b.0 e), ground (arith, b.0 e)),
      ))
      (λ n s e b. (
        ground (arith, b.0 e),
        ground (arith, b.0 e),
        (ground (arith, b.0 e), ground (arith, b.0 e)),
      ))
      (λ n s e b. (
        ground (arith, b.0 e),
        ground (arith, b.0 e),
        (ground (arith, b.0 e), ground (arith, b.0 e)),
      ))
      (λ n s e b. (
        ground (arith, b.0 e),
        ground (arith, b.0 e),
        (ground (arith, b.0 e), ground (arith, b.0 e)),
      ))
      (λ n s e b. (
        ground (arith, b.0 e),
        ground (arith, b.0 e),
        (ground (arith, b.0 e), ground (arith, b.0 e)),
      ))
      (λ n s e b. (
        ground (arith, b.0 e),
        ground (arith, b.0 e),
        (ground (arith, b.0 e), ground (arith, b.0 e)),
      ))

-- Past the last entry under an array, the array is full.
unfoldable pub Full : ℕ → Type 0
Full c = (n : ℕ) (s : Shortcut) → (suc n) % span c ≡ 0 → Past (suc c) n s → s.left ≡ 0

pub past-Full : (c : ℕ) → c ≤ 5 → Full c
unfolding span Past Full
past-Full =
    by_depth Full (λ n s e p. ground arith) (λ n s e p. ground arith) (λ n s e p. ground arith)
      (λ n s e p. ground arith) (λ n s e p. ground arith) (λ n s e p. ground arith)

-- An entry that begins no slot is in the slot of the entry before.
unfoldable pub Block : ℕ → Type 0
Block c = (n : ℕ) → (suc n) % span c ≢ 0 → (suc n) / span c ≡ n / span c

pub same-Block : (c : ℕ) → c ≤ 5 → Block c
unfolding span Block
same-Block =
    by_depth Block (λ n e. ground arith) (λ n e. ground arith) (λ n e. ground arith)
      (λ n e. ground arith) (λ n e. ground arith) (λ n e. ground arith)

-- The entries before the first of a slot are not in it.
unfoldable pub Outside : ℕ → Type 0
Outside c = (k n : ℕ) → k < n → n % span c ≡ 0 → k / span c ≢ n / span c

pub before-Outside : (c : ℕ) → c ≤ 5 → Outside c
unfolding span Outside
before-Outside =
    by_depth Outside (λ k n h e f. omega arith) (λ k n h e f. omega arith)
      (λ k n h e f. omega arith) (λ k n h e f. omega arith) (λ k n h e f. omega arith)
      (λ k n h e f. omega arith)

-- What begins a slot begins one at each depth below.
pub span_below : (c e n : ℕ) → c ≤ e → e ≤ 5 → n % span c ≡ 0 → n % span e ≡ 0
unfolding Finer
span_below c zero n h l e = subst (λ z. n % span z ≡ 0) (omega arith) e
span_below c (suc d) n h l e = elim (Bool-cases (leb c d)) [
  | inl q ↦ span-Finer d (omega arith) n (span_below c d n (ground (arith, q)) (omega arith) e)
  | inr q ↦ subst (λ z. n % span z ≡ 0) (ground (arith, q)) e
]

pub length-path : (n d k : ℕ) → length (path n d k) ≡ n
unfolding path
length-path zero d k = refl
length-path (suc n) d k = ap suc (length-path n (suc d) k)

-- The indices down to a depth begin those that go further.
pub path_prefix :
    (e m d k : ℕ) → e < m → (i : ℕ) × (p : List ℕ) × (path m d k ≡ path e d k ++ (i ∷ p))
unfolding path
path_prefix e zero d k h = absurd (omega (arith, h))
path_prefix zero (suc m) d k h = (level_index_for_key k d, path m (suc d) k, refl)
path_prefix (suc e) (suc m) d k h =
    let (i, p, eq) = path_prefix e m (suc d) k (omega (arith, h)) in
    (i, p, ap (λ (q : List ℕ). level_index_for_key k d ∷ q) eq)

-- Keys with the same indices are the same.
pub same_path6 : (j k : ℕ) → j < 2 ^ 64 → k < 2 ^ 64 → path 7 0 j ≡ path 7 0 k → j ≡ k
unfolding path level_index_for_key
same_path6 j k hj hk e = ground (arith, e)
