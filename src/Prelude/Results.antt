-- ===== src/Prelude/Results.antt =====
-- What a call of the programs can come to: a value, an error that the caller sees, or a panic
-- (a failed `unwrap` or `assert!`, and arithmetic that overflows under `overflow-checks = true`).
-- A function that returns Rust's `Option` and may panic is an outcome whose error is `Unit`.
use mathlib.Core.Path.{◌≡◌, refl}
use mathlib.Core.Bool.{Bool, true, false}
use mathlib.Core.Option.{Option, none, some}

pub data Outcome {ℓ κ} (E : Type ℓ) (A : Type κ) : Type (ℓ ⊔ κ) where
  ok : A → Outcome E A
  err : E → Outcome E A
  panic : Outcome E A

infixl 5 ◌>>=◌ ◌>>◌
abbrev pub ◌>>=◌ {ℓ κ μ} :
    {E : Type ℓ} {A : Type κ} {B : Type μ} → Outcome E A → (A → Outcome E B) → Outcome E B
ok a >>= f = f a
err e >>= f = err e
panic >>= f = panic

abbrev pub ◌>>◌ {ℓ κ μ} :
    {E : Type ℓ} {A : Type κ} {B : Type μ} → Outcome E A → Outcome E B → Outcome E B
m >> k = m >>= λ _. k

module _ {ℓ κ} {E : Type ℓ} {A : Type κ} where
  -- `.unwrap()`
  abbrev pub unwrap : Option A → Outcome E A
  unwrap none = panic
  unwrap (some a) = ok a

  -- `.ok_or(e)?`
  abbrev pub ok_or : Option A → E → Outcome E A
  ok_or none e = err e
  ok_or (some a) e = ok a

-- `.ok_or(e)?` on a call that may also panic.
abbrev pub none_to {ℓ κ} : {E : Type ℓ} {A : Type κ} → Outcome (Unit {0}) A → E → Outcome E A
none_to (ok a) e = ok a
none_to (err _) e = err e
none_to panic e = panic

-- `?` in a function that returns `Option`.
abbrev pub try_some {κ} : {A : Type κ} → Option A → Outcome (Unit {0}) A
try_some none = err tt
try_some (some a) = ok a

-- `require!(test, e)`
abbrev pub require {ℓ} : {E : Type ℓ} → Bool → E → Outcome E (Unit {0})
require true e = ok tt
require false e = err e

-- `assert!(test)`
abbrev pub assert {ℓ} : {E : Type ℓ} → Bool → Outcome E (Unit {0})
assert true = ok tt
assert false = panic

-- Inversion of a successful bind, for proofs where the parts stay shut.
pub >>=-eq_ok {ℓ κ μ} :
    {E : Type ℓ} {A : Type κ} {B : Type μ} (m : Outcome E A) (f : A → Outcome E B) {b : B}
    → (m >>= f) ≡ ok b
    → (a : A) × (m ≡ ok a) × (f a ≡ ok b)
>>=-eq_ok (ok a) f h = (a, refl, h)
>>=-eq_ok (err e) f h = cc
>>=-eq_ok panic f h = cc

-- The same in passing: the rest of a proof is given the value and its equations as variables.
pub >>=-elim {ℓ κ μ ν} :
    {E : Type ℓ} {A : Type κ} {B : Type μ} {C : Type ν} (m : Outcome E A) (f : A → Outcome E B)
    {b : B}
    → (m >>= f) ≡ ok b
    → ((a : A) → m ≡ ok a → f a ≡ ok b → C)
    → C
>>=-elim (ok a) f h k = k a refl h
>>=-elim (err e) f h k = absurd (let no : ⊥ = cc in no)
>>=-elim panic f h k = absurd (let no : ⊥ = cc in no)

pub ok_injective {ℓ κ} :
    {E : Type ℓ} {A : Type κ} (a b : A) → ◌≡◌ {A = Outcome E A} (ok a) (ok b) → a ≡ b
ok_injective a b e = cc
