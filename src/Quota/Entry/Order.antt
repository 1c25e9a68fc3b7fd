-- ===== src/Quota/Entry/Order.antt =====
-- The order of texts, and the sort by the directory of an entry.
use webdav_server_rs.Prelude.{
  nat_eq, str_eq, ◌≡◌, refl, inl, inr, true, false, Bool-cases, List, [], ◌∷◌, ◌++◌, All, In, here,
  there, Str, arith,
}
use webdav_server_rs.Quota.Data.{Mtab}
use webdav_server_rs.Quota.Entry.{str_le, insert_entry, sort_by_directory}

pub str_le_refl : (s : Str) → str_le s s ≡ true
unfolding str_le
str_le_refl [] = refl
str_le_refl (x ∷ s) = ground (arith, str_le_refl s)

str_le_total : (s t : Str) → str_le s t ≡ false → str_le t s ≡ true
unfolding str_le
str_le_total [] t h = absurd (ground arith)
str_le_total (x ∷ s) [] h = refl
str_le_total (x ∷ s) (y ∷ t) h = ground (arith, str_le_total s t)

str_le_trans : (s t u : Str) → str_le s t ≡ true → str_le t u ≡ true → str_le s u ≡ true
unfolding str_le
str_le_trans [] t u h k = refl
str_le_trans (x ∷ s) [] u h k = absurd (ground arith)
str_le_trans (x ∷ s) (y ∷ t) [] h k = absurd (ground arith)
str_le_trans (x ∷ s) (y ∷ t) (z ∷ u) h k = ground (arith, str_le_trans s t u)

pub str_le_antisymm : (s t : Str) → str_le s t ≡ true → str_le t s ≡ true → s ≡ t
unfolding str_le
str_le_antisymm [] [] h k = refl
str_le_antisymm [] (y ∷ t) h k = absurd (ground arith)
str_le_antisymm (x ∷ s) [] h k = absurd (ground arith)
str_le_antisymm (x ∷ s) (y ∷ t) h k = ground (arith, str_le_antisymm s t)

-- A text comes before its extensions.
pub str_le_append : (s t : Str) → str_le s (s ++ t) ≡ true
unfolding str_le
str_le_append [] t = refl
str_le_append (x ∷ s) t = ground (arith, str_le_append s t)

pub append_str_le : (r s t : Str) → str_le s t ≡ true → str_le (r ++ s) (r ++ t) ≡ true
unfolding str_le
append_str_le [] s t h = h
append_str_le (x ∷ r) s t h = ground (arith, append_str_le r s t)

-- An entry whose directory comes first.
abbrev pub Before : Mtab → Mtab → Type 0
Before x y = str_le x.directory y.directory ≡ true

abbrev pub Sorted : List Mtab → Type 0
Sorted [] = Unit
Sorted (x ∷ xs) = All (Before x) xs × Sorted xs

insert_entry-Before :
    (y e : Mtab) (xs : List Mtab)
    → Before y e
    → All (Before y) xs
    → All (Before y) (insert_entry e xs)
unfolding insert_entry
insert_entry-Before y e [] h all = (h, tt)
insert_entry-Before y e (x ∷ xs) h all = elim (Bool-cases (str_le e.directory x.directory)) [
  | inl first ↦ rw first (h, all)
  | inr later ↦ rw later (all.0, insert_entry-Before y e xs h all.1)
]

Before-All : (e x : Mtab) (xs : List Mtab) → Before e x → All (Before x) xs → All (Before e) xs
Before-All e x [] h all = tt
Before-All e x (y ∷ ys) h all =
    (str_le_trans e.directory x.directory y.directory h all.0, Before-All e x ys h all.1)

insert_entry-Sorted : (e : Mtab) (xs : List Mtab) → Sorted xs → Sorted (insert_entry e xs)
unfolding insert_entry
insert_entry-Sorted e [] sorted = (tt, tt)
insert_entry-Sorted e (x ∷ xs) sorted = elim (Bool-cases (str_le e.directory x.directory)) [
  | inl first ↦ rw first ((first, Before-All e x xs first sorted.0), sorted)
  | inr later ↦ rw later (
    insert_entry-Before x e xs (str_le_total e.directory x.directory later) sorted.0,
    insert_entry-Sorted e xs sorted.1,
  )
]

pub sort_by_directory-Sorted : (xs : List Mtab) → Sorted (sort_by_directory xs)
unfolding sort_by_directory
sort_by_directory-Sorted [] = tt
sort_by_directory-Sorted (x ∷ xs) =
    insert_entry-Sorted x (sort_by_directory xs) (sort_by_directory-Sorted xs)

module _ (a : Mtab) where
  In-later :
      (e x : Mtab) (xs ys : List Mtab)
      → (In a (e ∷ xs) → In a ys)
      → In a (e ∷ x ∷ xs)
      → In a (x ∷ ys)
  In-later e x xs ys put (here same) = there (put (here same))
  In-later e x xs ys put (there (here same)) = here same
  In-later e x xs ys put (there (there m)) = there (put (there m))

  In-of_later :
      (e x : Mtab) (xs ys : List Mtab)
      → (In a ys → In a (e ∷ xs))
      → In a (x ∷ ys)
      → In a (e ∷ x ∷ xs)
  In-of_later e x xs ys taken (here same) = there (here same)
  In-of_later e x xs ys taken (there m) = elim (taken m) [
    | here same ↦ here same
    | there m' ↦ there (there m')
  ]

  In-insert_entry : (e : Mtab) (xs : List Mtab) → In a (e ∷ xs) → In a (insert_entry e xs)
  unfolding insert_entry
  In-insert_entry e [] m = m
  In-insert_entry e (x ∷ xs) m = elim (Bool-cases (str_le e.directory x.directory)) [
    | inl first ↦ rw first m
    | inr later ↦ rw later (In-later e x xs (insert_entry e xs) (In-insert_entry e xs) m)
  ]

  In-of_insert_entry : (e : Mtab) (xs : List Mtab) → In a (insert_entry e xs) → In a (e ∷ xs)
  unfolding insert_entry
  In-of_insert_entry e [] m = m
  In-of_insert_entry e (x ∷ xs) m = elim (Bool-cases (str_le e.directory x.directory)) [
    | inl first ↦ rw first at m
    | inr later ↦ In-of_later e x xs (insert_entry e xs) (In-of_insert_entry e xs) (rw later at m)
  ]

  pub In-sort_by_directory : (xs : List Mtab) → In a xs → In a (sort_by_directory xs)
  unfolding sort_by_directory
  In-sort_by_directory [] m = elim m [ ]
  In-sort_by_directory (x ∷ xs) (here same) = In-insert_entry x (sort_by_directory xs) (here same)
  In-sort_by_directory (x ∷ xs) (there m) =
      In-insert_entry x (sort_by_directory xs) (there (In-sort_by_directory xs m))

  pub In-of_sort_by_directory : (xs : List Mtab) → In a (sort_by_directory xs) → In a xs
  unfolding sort_by_directory
  In-of_sort_by_directory [] m = m
  In-of_sort_by_directory (x ∷ xs) m = elim (In-of_insert_entry x (sort_by_directory xs) m) [
    | here same ↦ here same
    | there m' ↦ there (In-of_sort_by_directory xs m')
  ]
