-- ===== src/Prelude/Lists.antt =====
-- Lists measured and indexed by the native numbers, and predicates on their elements.
use Prim.Native.Nat.{ℕ, zero, suc, ◌+◌, ◌≤◌, ◌<◌}
use mathlib.Core.Path.{◌≡◌, refl, ap, sym, ◌∙◌}
use mathlib.Core.Logic.{inl, inr}
use mathlib.Core.Bool.{Bool, true, false, ◌||◌}
use mathlib.Core.List.{List, [], ◌∷◌, ◌++◌, map}
use mathlib.Core.Option.{Option, none, some}
use native.Mathlib.Omega.{arith}
use webdav_server_rs.Prelude.Tests.{Bool-cases, if◌then◌else◌}

module _ {ℓ} {A : Type ℓ} where
  abbrev pub length : List A → ℕ
  length [] = 0
  length (x ∷ xs) = suc (length xs)

  abbrev pub get_elem? : List A → ℕ → Option A
  get_elem? [] i = none
  get_elem? (x ∷ xs) zero = some x
  get_elem? (x ∷ xs) (suc i) = get_elem? xs i

  abbrev pub take : ℕ → List A → List A
  take zero xs = []
  take (suc n) [] = []
  take (suc n) (x ∷ xs) = x ∷ take n xs

  abbrev pub drop : ℕ → List A → List A
  drop zero xs = xs
  drop (suc n) [] = []
  drop (suc n) (x ∷ xs) = drop n xs

  abbrev pub filter : (A → Bool) → List A → List A
  filter p [] = []
  filter p (x ∷ xs) = if p x then x ∷ filter p xs else filter p xs

  abbrev pub any : (A → Bool) → List A → Bool
  any p [] = false
  any p (x ∷ xs) = p x || any p xs

  pub length-append : (xs ys : List A) → length (xs ++ ys) ≡ length xs + length ys
  length-append [] ys = omega arith
  length-append (x ∷ xs) ys = omega (arith, length-append xs ys)

  pub length-take-le : (n : ℕ) (xs : List A) → length (take n xs) ≤ n
  length-take-le zero xs = omega arith
  length-take-le (suc n) [] = omega arith
  length-take-le (suc n) (x ∷ xs) = omega (arith, length-take-le n xs)

  pub take_of_length-le : (n : ℕ) (xs : List A) → length xs ≤ n → take n xs ≡ xs
  take_of_length-le zero [] short = refl
  take_of_length-le (suc n) [] short = refl
  take_of_length-le zero (x ∷ xs) short = absurd (omega arith)
  take_of_length-le (suc n) (x ∷ xs) short = ap (◌∷◌ x) (take_of_length-le n xs (omega arith))

  pub take-append-drop : (n : ℕ) (xs : List A) → take n xs ++ drop n xs ≡ xs
  take-append-drop zero xs = refl
  take-append-drop (suc n) [] = refl
  take-append-drop (suc n) (x ∷ xs) = ap (◌∷◌ x) (take-append-drop n xs)

  -- An index below the length has an element.
  pub get_elem?_of_lt : (xs : List A) (i : ℕ) → i < length xs → (a : A) × (get_elem? xs i ≡ some a)
  get_elem?_of_lt [] i h = elim h [ ]
  get_elem?_of_lt (x ∷ xs) zero h = (x, refl)
  get_elem?_of_lt (x ∷ xs) (suc i) h = get_elem?_of_lt xs i (omega arith)

  pub get_elem?-lt : (xs : List A) (i : ℕ) {a : A} → get_elem? xs i ≡ some a → i < length xs
  get_elem?-lt [] i h = ground arith
  get_elem?-lt (x ∷ xs) zero h = omega arith
  get_elem?-lt (x ∷ xs) (suc i) h = omega (arith, get_elem?-lt xs i h)

  -- The suffix that starts at an index begins with the element there.
  pub drop_of_get_elem? :
      (xs : List A) (i : ℕ) {a : A} → get_elem? xs i ≡ some a → drop i xs ≡ a ∷ drop (suc i) xs
  drop_of_get_elem? [] i h = ground arith
  drop_of_get_elem? (x ∷ xs) zero h = ground arith
  drop_of_get_elem? (x ∷ xs) (suc i) h = drop_of_get_elem? xs i h

  -- And the other way round.
  pub get_elem?_of_drop :
      (i : ℕ) (xs : List A) {a : A} {ys : List A}
      → drop i xs ≡ a ∷ ys
      → (get_elem? xs i ≡ some a) × (drop (suc i) xs ≡ ys)
  get_elem?_of_drop zero [] h = ground arith
  get_elem?_of_drop (suc i) [] h = ground arith
  get_elem?_of_drop zero (x ∷ xs) h = ground arith
  get_elem?_of_drop (suc i) (x ∷ xs) h = get_elem?_of_drop i xs h

  pub drop_of_length-le : (n : ℕ) (xs : List A) → length xs ≤ n → drop n xs ≡ []
  drop_of_length-le zero [] h = refl
  drop_of_length-le zero (x ∷ xs) h = absurd (omega arith)
  drop_of_length-le (suc n) [] h = refl
  drop_of_length-le (suc n) (x ∷ xs) h = drop_of_length-le n xs (omega arith)

-- A predicate that holds of every element; membership with the position kept.
abbrev pub All {ℓ κ} : {A : Type ℓ} → (A → Type κ) → List A → Type κ
All P [] = Unit
All P (x ∷ xs) = P x × All P xs

pub data In {ℓ} {A : Type ℓ} (a : A) : List A → Type ℓ where
  here : {x : A} {xs : List A} → a ≡ x → In a (x ∷ xs)
  there : {x : A} {xs : List A} → In a xs → In a (x ∷ xs)

In-of_filter_kept {ℓ} :
    {A : Type ℓ} (p : A → Bool) (x : A) (xs : List A) (a : A)
    → p x ≡ true
    → In a (x ∷ filter p xs)
    → (In a (filter p xs) → In a xs × (p a ≡ true))
    → In a (x ∷ xs) × (p a ≡ true)
In-of_filter_kept p x xs a t (here e) rest = (here e, ap p e ∙ t)
In-of_filter_kept p x xs a t (there m) rest = let (found, h) = rest m in (there found, h)

module _ {ℓ κ} {A : Type ℓ} {B : Type κ} where
  pub In-map : (f : A → B) (xs : List A) {a : A} → In a xs → In (f a) (map f xs)
  In-map f [] m = elim m [ ]
  In-map f (x ∷ xs) (here e) = here (ap f e)
  In-map f (x ∷ xs) (there m) = there (In-map f xs m)

  pub In-of_map :
      (f : A → B) (xs : List A) (b : B) → In b (map f xs) → (a : A) × In a xs × (b ≡ f a)
  In-of_map f [] b m = elim m [ ]
  In-of_map f (x ∷ xs) b (here e) = (x, here refl, e)
  In-of_map f (x ∷ xs) b (there m) =
      let (a, found, same) = In-of_map f xs b m in (a, there found, same)

module _ {ℓ} {A : Type ℓ} where
  pub In-filter : (p : A → Bool) (xs : List A) {a : A} → In a xs → p a ≡ true → In a (filter p xs)
  In-filter p [] m h = elim m [ ]
  In-filter p (x ∷ xs) {a} (here e) h = let t : p x ≡ true = ap p (sym e) ∙ h in rw t (here e)
  In-filter p (x ∷ xs) {a} (there m) h = elim (Bool-cases (p x)) [
    | inl t ↦ rw t (there (In-filter p xs m h))
    | inr f ↦ rw f (In-filter p xs m h)
  ]

  pub In-of_filter :
      (p : A → Bool) (xs : List A) (a : A) → In a (filter p xs) → In a xs × (p a ≡ true)
  In-of_filter p [] a m = elim m [ ]
  In-of_filter p (x ∷ xs) a m = elim (Bool-cases (p x)) [
    | inl t ↦ In-of_filter_kept p x xs a t (rw t at m) (In-of_filter p xs a)
    | inr f ↦ let (found, h) = In-of_filter p xs a (rw f at m) in (there found, h)
  ]
