-- ===== src/Base/Outcome.antt =====
-- A computation that may throw, or return an error text: C++ exceptions and error fields as values.
use Prim.Native.String.{String}
use mathlib.Core.Path.{◌≡◌, refl}
use native.Mathlib.Omega.{arith}
use mathlib.Core.Bool.{Bool, true, false}
use librova.Base.{◌⊎◌, inl, inr}

pub data Outcome {ℓ} (A : Type ℓ) : Type ℓ where
  ok : A → Outcome A
  err : String → Outcome A

infixl 5 ◌>>=◌ ◌>>◌
abbrev pub ◌>>=◌ {ℓ κ} : {A : Type ℓ} {B : Type κ} → Outcome A → (A → Outcome B) → Outcome B
ok a >>= f = f a
err e >>= f = err e

abbrev pub ◌>>◌ {ℓ} : {B : Type ℓ} → Outcome (Unit {0}) → Outcome B → Outcome B
m >> k = m >>= λ _. k

-- `if (!test) return/throw message;`
abbrev pub require : Bool → String → Outcome (Unit {0})
require true message = ok tt
require false message = err message

-- What follows a step over a state: nothing if it threw.
abbrev pub then_do : {A B W : Type 0} → Outcome A × W → (A → W → Outcome B × W) → Outcome B × W
then_do (ok a, w) f = f a w
then_do (err message, w) f = (err message, w)

pub ok-injective {ℓ} : {A : Type ℓ} {a b : A} → ok a ≡ ok b → a ≡ b
ok-injective h = ground arith

module _ {ℓ κ} {A : Type ℓ} {B : Type κ} where
  -- What a chain that has come to its end has been through.
  pub >>=-eq-ok :
      (first : Outcome A) (then_do : A → Outcome B) {b : B}
      → (first >>= then_do) ≡ ok b
      → (a : A) × (first ≡ ok a) × (then_do a ≡ ok b)
  >>=-eq-ok (err message) then_do h = cc
  >>=-eq-ok (ok a) then_do h = (a, refl, h)

pub require-eq-ok {ℓ} :
    {B : Type ℓ} (t : Bool) (message : String) (m : Outcome B) {b : B}
    → (require t message >> m) ≡ ok b
    → (t ≡ true) × (m ≡ ok b)
require-eq-ok true message m h = (refl, h)
require-eq-ok false message m h = cc

pub Outcome-cases :
    (o : Outcome (Unit {0})) → (o ≡ ok tt) ⊎ ((message : String) × (o ≡ err message))
Outcome-cases (ok tt) = inl refl
Outcome-cases (err message) = inr (message, refl)
