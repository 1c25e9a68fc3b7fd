-- ===== src/Quota/Entry/Nearest.antt =====
-- fs_quota/src/lib.rs: the choice between several entries in `get_mtab_entry`.
use webdav_server_rs.Prelude.{
  nat_eq, str_eq, ◌≡◌, ◌≤◌, ◌++◌, length, All, All-In, In, here, there, In-reverse, In-of_reverse,
  refl, sym, ap, ◌∙◌, subst, ◌⊎◌, inl, inr, true, false, Bool-cases, Option-cases, Result-cases,
  none, some, List, [], ◌∷◌, Str, ok, arith,
}
use mathlib.Core.List.{reverse, reverse-cons}
use webdav_server_rs.Quota.Data.{Mtab, System}
use webdav_server_rs.Quota.Entry.Order.{
  str_le_refl, Before, Sorted, sort_by_directory-Sorted, In-sort_by_directory,
  In-of_sort_by_directory,
}
use webdav_server_rs.Quota.Entry.Prefixes.{IsCanonical, length-components-le}
use webdav_server_rs.Quota.Entry.{
  components, resolved, sort_by_directory, find_entry, path_starts_with, realpath, nearest,
}

List-cases {ℓ} : {A : Type ℓ} (xs : List A) → (xs ≡ []) ⊎ ((y : A) × (ys : List A) × (xs ≡ y ∷ ys))
List-cases [] = inl refl
List-cases (y ∷ ys) = inr (y, ys, refl)

pub nearest-inversion :
    (sys : System) (path : Str) (es : List Mtab) (m : Mtab)
    → nearest sys path es ≡ ok m
    → (rp : Str) × (realpath sys path ≡ ok rp)
      × (find_entry rp (reverse (sort_by_directory (resolved sys es))) ≡ some m)
unfolding nearest
nearest-inversion sys path es m e = elim (Result-cases (realpath sys path)) [
  | inr (k, bad) ↦ absurd (ground arith)
  | inl (rp, good) ↦ elim (List-cases (resolved sys es)) [
    | inl nothing ↦ absurd (ground arith)
    | inr (y, ys, several) ↦
        elim (Option-cases (find_entry rp (reverse (sort_by_directory (y ∷ ys))))) [
          | inl missed ↦ absurd (ground arith)
          | inr (x, found) ↦
              let same : x ≡ m = ground arith in
              (
                rp,
                good,
                ap (λ l. find_entry rp (reverse (sort_by_directory l))) several
                    ∙ found
                    ∙ ap some same,
              )
        ]
  ]
]

module _ (rp : Str) where
  find_entry-append :
      (xs ys : List Mtab)
      → ((find_entry rp xs ≡ none) × (find_entry rp (xs ++ ys) ≡ find_entry rp ys))
        ⊎ ((m : Mtab) × (find_entry rp xs ≡ some m) × (find_entry rp (xs ++ ys) ≡ some m))
  unfolding find_entry
  find_entry-append [] ys = inl (refl, refl)
  find_entry-append (x ∷ xs) ys = elim (Bool-cases (path_starts_with rp x.directory)) [
    | inl held ↦ inr (x, rw held refl, rw held refl)
    | inr missed ↦ rw missed (find_entry-append xs ys)
  ]

  find_entry-In :
      (xs : List Mtab) (m : Mtab)
      → find_entry rp xs ≡ some m
      → In m xs × (path_starts_with rp m.directory ≡ true)
  unfolding find_entry
  find_entry-In [] m e = absurd (ground arith)
  find_entry-In (x ∷ xs) m e = elim (Bool-cases (path_starts_with rp x.directory)) [
    | inl held ↦
        let same : x ≡ m = ground arith in
        (here (sym same), subst (λ (y : Mtab). path_starts_with rp y.directory ≡ true) same held)
    | inr missed ↦ let (found, held) = find_entry-In xs m (rw missed at e) in (there found, held)
  ]

  find_entry-none :
      (xs : List Mtab) (a : Mtab)
      → find_entry rp xs ≡ none
      → In a xs
      → path_starts_with rp a.directory ≡ false
  unfolding find_entry
  find_entry-none [] a e m = elim m [ ]
  find_entry-none (x ∷ xs) a e m = elim (Bool-cases (path_starts_with rp x.directory)) [
    | inl held ↦ absurd (ground arith)
    | inr missed ↦ elim m [
      | here same ↦ subst (λ (y : Mtab). path_starts_with rp y.directory ≡ false) (sym same) missed
      | there m' ↦ find_entry-none xs a (rw missed at e) m'
    ]
  ]

  -- The first match from the end of a sorted list is the last one in the order.
  find_entry-reverse :
      (xs : List Mtab) (m a : Mtab)
      → Sorted xs
      → find_entry rp (reverse xs) ≡ some m
      → In a xs
      → path_starts_with rp a.directory ≡ true
      → Before a m
  find_entry-reverse [] m a sorted e i held = elim i [ ]
  find_entry-reverse (x ∷ xs) m a sorted e i held =
      let e' = subst (λ l. find_entry rp l ≡ some m) (reverse-cons x xs) e in
      elim (find_entry-append (reverse xs) (x ∷ [])) [
        | inl (none_later, last) ↦
            let (only, _) = find_entry-In (x ∷ []) m (sym last ∙ e') in
            elim i [
              | here same ↦ elim only [
                | here same' ↦ subst (λ y. Before a y) (same ∙ sym same') (str_le_refl a.directory)
                | there nowhere ↦ elim nowhere [ ]
              ]
              | there i' ↦ absurd (
                  let missed = find_entry-none (reverse xs) a none_later (In-reverse xs i') in
                  ground arith)
            ]
        | inr (m', later, found) ↦
            let same : m' ≡ m = ground arith in
            let e'' = later ∙ ap some same in
            elim i [
              | here first ↦
                  let (m-In, _) = find_entry-In (reverse xs) m e'' in
                  subst (λ y. Before y m) (sym first)
                    (All-In (Before x) xs sorted.0 (In-of_reverse xs m-In))
              | there i' ↦ find_entry-reverse xs m a sorted.1 e'' i' held
            ]
      ]

-- What realpath(3) documents of the paths that it gives.
abbrev pub GivesCanonical : System → Type 0
GivesCanonical sys = (d p : Str) → realpath sys d ≡ ok p → IsCanonical (sys.lossy p)

resolved-IsCanonical :
    (sys : System)
    → GivesCanonical sys
    → (es : List Mtab) → All (λ m. IsCanonical m.directory) (resolved sys es)
unfolding resolved
resolved-IsCanonical sys canonical [] = tt
resolved-IsCanonical sys canonical (e ∷ es) = elim (Result-cases (realpath sys e.directory)) [
  | inl (p, good) ↦
      rw (resolved, good) (canonical e.directory p good, resolved-IsCanonical sys canonical es)
  | inr (k, bad) ↦ rw (resolved, bad) (resolved-IsCanonical sys canonical es)
]

-- Of several entries, `nearest` gives the longest match: one of them, with its directory replaced by
-- its real path, that holds the path's real path, and no other of them that holds it is deeper. The
-- real paths are canonical.
pub nearest_lem :
    (sys : System) (path : Str) (es : List Mtab) (m : Mtab)
    → GivesCanonical sys
    → nearest sys path es ≡ ok m
    → (rp : Str) × (realpath sys path ≡ ok rp)
      × In m (resolved sys es)
      × (path_starts_with rp m.directory ≡ true)
      × ((x : Mtab)
          → In x (resolved sys es)
          → path_starts_with rp x.directory ≡ true
          → length (components x.directory) ≤ length (components m.directory))
unfolding path_starts_with
nearest_lem sys path es m canonical e =
    let (rp, real, found) = nearest-inversion sys path es m e in
    let xs = resolved sys es in
    let sorted = sort_by_directory xs in
    let spelt = resolved-IsCanonical sys canonical es in
    let (m-In, held) = find_entry-In rp (reverse sorted) m found in
    let m-In' = In-of_sort_by_directory m xs (In-of_reverse sorted m-In) in
    (
      rp,
      real,
      m-In',
      held,
      λ x x-In x-held.
          length-components-le x.directory m.directory rp
            (All-In (λ (y : Mtab). IsCanonical y.directory) xs spelt x-In)
            (All-In (λ (y : Mtab). IsCanonical y.directory) xs spelt m-In') x-held held
            (find_entry-reverse rp sorted m x (sort_by_directory-Sorted xs) found
              (In-sort_by_directory x xs x-In) x-held),
    )
