-- ===== src/Prelude/Outcomes.antt =====
-- The outcome of code that may panic. The model follows a build with debug assertions, where a
-- failed assertion, `unreachable!()`, `unwrap` of `None` and an overflow in arithmetic all panic.
use Prim.Native.Nat.{ℕ, ◌+◌, ◌-◌, ◌^◌}
use mathlib.Core.Path.{◌≡◌, refl, subst}
use mathlib.Core.Bool.{Bool, true, false}
use mathlib.Core.Option.{Option, none, some}
use delos_rust.Prelude.Tests.{ltb, leb, if◌then◌else◌}

pub data Outcome {ℓ} (A : Type ℓ) : Type ℓ where
  ok : A → Outcome A
  panic : Outcome A

infixl 5 ◌>>=◌ ◌>>◌
abbrev pub ◌>>=◌ {ℓ κ} : {A : Type ℓ} {B : Type κ} → Outcome A → (A → Outcome B) → Outcome B
ok a >>= f = f a
panic >>= f = panic

abbrev pub ◌>>◌ {ℓ κ} : {A : Type ℓ} {B : Type κ} → Outcome A → Outcome B → Outcome B
m >> k = m >>= λ _. k

-- `assert!` and `debug_assert!`
abbrev pub assert : Bool → Outcome (Unit {0})
assert true = ok tt
assert false = panic

abbrev pub unwrap {ℓ} : {A : Type ℓ} → Option A → Outcome A
unwrap none = panic
unwrap (some a) = ok a

-- `a + b` and `a - b` on `u64`
abbrev pub add64 : ℕ → ℕ → Outcome ℕ
add64 a b = if ltb (a + b) (2 ^ 64) then ok (a + b) else panic

abbrev pub sub64 : ℕ → ℕ → Outcome ℕ
sub64 a b = if leb b a then ok (a - b) else panic

-- A chain that returned: the first step did, and so did the rest.
pub >>=-eq-ok {ℓ κ} :
    {A : Type ℓ} {B : Type κ} (first : Outcome A) (next : A → Outcome B) {r : B}
    → (first >>= next) ≡ ok r
    → (mid : A) × (first ≡ ok mid) × (next mid ≡ ok r)
>>=-eq-ok (ok mid) next e = (mid, refl, e)
>>=-eq-ok panic next e = cc

-- The result of a computation that returns satisfies `P`, and it does return.
abbrev pub Returns {ℓ} : {A : Type ℓ} → (A → Type 0) → Outcome A → Type 0
Returns P (ok a) = P a
Returns P panic = ⊥

pub Returns->>= {ℓ κ} :
    {A : Type ℓ} {B : Type κ} (P : A → Type 0) (Q : B → Type 0) (o : Outcome A) (f : A → Outcome B)
    → Returns P o
    → ((a : A) → P a → Returns Q (f a))
    → Returns Q (o >>= f)
Returns->>= P Q (ok a) f h k = k a h
Returns->>= P Q panic f h k = absurd h

pub Returns-map {ℓ} :
    {A : Type ℓ} {P Q : A → Type 0} (o : Outcome A)
    → Returns P o
    → ((a : A) → P a → Q a)
    → Returns Q o
Returns-map (ok a) h f = f a h
Returns-map panic h f = absurd h

-- A computation that returns has a value, which satisfies the postcondition.
pub Returns-value {ℓ} :
    {A : Type ℓ} {P : A → Type 0} (o : Outcome A) → Returns P o → (a : A) × (o ≡ ok a) × P a
Returns-value (ok a) h = (a, refl, h)
Returns-value panic h = absurd h

-- A postcondition that speaks of every number may be proved at each.
pub Returns-each {ℓ} :
    {A : Type ℓ} (P : ℕ → A → Type 0) (o : Outcome A)
    → ((q : ℕ) → Returns (P q) o)
    → Returns (λ a. (q : ℕ) → P q a) o
Returns-each P (ok a) h = h
Returns-each P panic h = h 0

pub ok_injective : {A : Type 0} (a b : A) → ok a ≡ ok b → a ≡ b
ok_injective a b e = cc

-- What a computation gives, if it returns, satisfies `P`.
abbrev pub Ensures : {A : Type 0} → (A → Type 0) → Outcome A → Type 0
Ensures {A = A} P o = (a : A) → o ≡ ok a → P a

pub ok-Ensures : {A : Type 0} (P : A → Type 0) (a : A) → P a → Ensures P (ok a)
ok-Ensures P a h b e = subst P (ok_injective a b e) h

pub >>=-Ensures :
    {A B : Type 0} (P : A → Type 0) (Q : B → Type 0) (o : Outcome A) (f : A → Outcome B)
    → Ensures P o
    → ((a : A) → P a → Ensures Q (f a))
    → Ensures Q (o >>= f)
>>=-Ensures P Q o f h k b e = let (a, first, second) = >>=-eq-ok o f e in k a (h a first) b second

pub Returns-Ensures :
    {A : Type 0} (P Q : A → Type 0) (o : Outcome A)
    → Returns P o
    → Ensures Q o
    → Returns (λ x. P x × Q x) o
Returns-Ensures P Q (ok x) h k = (h, k x refl)
Returns-Ensures P Q panic h k = h
