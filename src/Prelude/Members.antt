-- ===== src/Prelude/Members.antt =====
-- Membership in appended and reversed lists, and predicates on all elements.
use mathlib.Core.Path.{refl, sym, subst}
use mathlib.Core.Logic.{◌⊎◌, inl, inr}
use mathlib.Core.Bool.{Bool}
use mathlib.Core.List.{List, [], ◌∷◌, ◌++◌, reverse, reverse-cons}
use webdav_server_rs.Prelude.Tests.{Bool-cases}
use webdav_server_rs.Prelude.Lists.{filter, All, In, here, there}

module _ {ℓ κ} {A : Type ℓ} (P : A → Type κ) where
  pub All-In : (xs : List A) {a : A} → All P xs → In a xs → P a
  All-In [] all m = elim m [ ]
  All-In (x ∷ xs) all (here e) = subst P (sym e) all.0
  All-In (x ∷ xs) all (there m) = All-In xs all.1 m

  pub All-of_In : (xs : List A) → ((a : A) → In a xs → P a) → All P xs
  All-of_In [] h = tt
  All-of_In (x ∷ xs) h = (h x (here refl), All-of_In xs (λ a m. h a (there m)))

  pub All-filter : (p : A → Bool) (xs : List A) → All P xs → All P (filter p xs)
  All-filter p [] all = tt
  All-filter p (x ∷ xs) all = elim (Bool-cases (p x)) [
    | inl kept ↦ rw kept (all.0, All-filter p xs all.1)
    | inr left ↦ rw left (All-filter p xs all.1)
  ]

module _ {ℓ} {A : Type ℓ} {a : A} where
  pub In-append_left : (xs ys : List A) → In a xs → In a (xs ++ ys)
  In-append_left [] ys m = elim m [ ]
  In-append_left (x ∷ xs) ys (here e) = here e
  In-append_left (x ∷ xs) ys (there m) = there (In-append_left xs ys m)

  pub In-append_right : (xs ys : List A) → In a ys → In a (xs ++ ys)
  In-append_right [] ys m = m
  In-append_right (x ∷ xs) ys m = there (In-append_right xs ys m)

  pub In-of_append : (xs ys : List A) → In a (xs ++ ys) → In a xs ⊎ In a ys
  In-of_append [] ys m = inr m
  In-of_append (x ∷ xs) ys (here e) = inl (here e)
  In-of_append (x ∷ xs) ys (there m) = elim (In-of_append xs ys m) [
    | inl l ↦ inl (there l)
    | inr r ↦ inr r
  ]

  pub In-reverse : (xs : List A) → In a xs → In a (reverse xs)
  In-reverse [] m = elim m [ ]
  In-reverse (x ∷ xs) (here e) =
      subst (In a) (sym (reverse-cons x xs)) (In-append_right (reverse xs) (x ∷ []) (here e))
  In-reverse (x ∷ xs) (there m) =
      subst (In a) (sym (reverse-cons x xs))
        (In-append_left (reverse xs) (x ∷ []) (In-reverse xs m))

  pub In-of_reverse : (xs : List A) → In a (reverse xs) → In a xs
  In-of_reverse [] m = elim m [ ]
  In-of_reverse (x ∷ xs) m =
      elim (In-of_append (reverse xs) (x ∷ []) (subst (In a) (reverse-cons x xs) m)) [
        | inl l ↦ there (In-of_reverse xs l)
        | inr (here e) ↦ here e
        | inr (there n) ↦ elim n [ ]
      ]
