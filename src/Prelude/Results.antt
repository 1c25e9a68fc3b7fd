-- ===== src/Prelude/Results.antt =====
-- What a call may end in: a value or a panic (`unwrap`, `expect`, an index out of bounds), and
-- the `Result` of the standard library.
use mathlib.Core.Path.{◌≡◌, refl}
use mathlib.Core.Logic.{◌⊎◌, inl, inr}
use mathlib.Core.Option.{Option, none, some}
use native.Mathlib.Omega.{arith}

pub data Outcome {ℓ} (A : Type ℓ) : Type ℓ where
  returned : A → Outcome A
  panicked : Outcome A

infixl 5 ◌>>=◌ ◌>>◌
abbrev pub ◌>>=◌ {ℓ κ} : {A : Type ℓ} {B : Type κ} → Outcome A → (A → Outcome B) → Outcome B
returned a >>= f = f a
panicked >>= f = panicked

abbrev pub ◌>>◌ {ℓ} : {B : Type ℓ} → Outcome (Unit {0}) → Outcome B → Outcome B
m >> k = m >>= λ _. k

-- `Option::unwrap`
abbrev pub unwrap {ℓ} : {A : Type ℓ} → Option A → Outcome A
unwrap none = panicked
unwrap (some a) = returned a

-- Two continuations that agree.
pub >>=-cong {ℓ κ} :
    {A : Type ℓ} {B : Type κ} (m : Outcome A) {f g : A → Outcome B}
    → ((a : A) → f a ≡ g a)
    → (m >>= f) ≡ (m >>= g)
>>=-cong (returned a) h = h a
>>=-cong panicked h = refl

pub data Result {ℓ κ} (A : Type ℓ) (E : Type κ) : Type (ℓ ⊔ κ) where
  ok : A → Result A E
  err : E → Result A E

pub Result-cases {ℓ κ} :
    {A : Type ℓ} {E : Type κ} (r : Result A E) → ((a : A) × (r ≡ ok a)) ⊎ ((e : E) × (r ≡ err e))
Result-cases (ok a) = inl (a, refl)
Result-cases (err e) = inr (e, refl)

-- A sequence of steps that returned has a first step that did.
pub >>=-eq-returned {ℓ κ} :
    {A : Type ℓ} {B : Type κ} (m : Outcome A) (f : A → Outcome B) {b : B}
    → (m >>= f) ≡ returned b
    → (a : A) × (m ≡ returned a) × (f a ≡ returned b)
>>=-eq-returned (returned a) f h = (a, refl, h)
>>=-eq-returned panicked f h = ground arith

-- A call whose error ends the function: with another error that is made from it.
abbrev pub or_return {ℓ} :
    {A B E F : Type ℓ}
    → Outcome (Result A E)
    → (E → F)
    → (A → Outcome (Result B F))
    → Outcome (Result B F)
or_return (returned (ok a)) g f = f a
or_return (returned (err e)) g f = returned (err (g e))
or_return panicked g f = panicked

-- A function that succeeded went past each such call.
pub or_return-eq-ok {ℓ} :
    {A B E F : Type ℓ} (m : Outcome (Result A E)) (g : E → F) (f : A → Outcome (Result B F)) {b : B}
    → or_return m g f ≡ returned (ok b)
    → (a : A) × (m ≡ returned (ok a)) × (f a ≡ returned (ok b))
or_return-eq-ok (returned (ok a)) g f h = (a, refl, h)
or_return-eq-ok (returned (err e)) g f h = ground arith
or_return-eq-ok panicked g f h = ground arith
