-- ===== src/Quota/Entry.antt =====
-- fs_quota/src/lib.rs: `get_mtab_entry`, which finds the entry of the mount table for a path.
pub mod Choice
pub mod Nearest
pub mod Order
pub mod Prefixes
pub mod Sources
use webdav_server_rs.Prelude.{
  nat_eq, str_eq, ℕ, Bool, true, false, not, ◌&&◌, ◌||◌, Option, none, some, List, [], ◌∷◌, filter,
  Str, bytes, starts_with, split, ltb, ◌==◌, if◌then◌else◌, Result, ok, err, Outcome, returned,
  panicked, ◌>>=◌,
}
use mathlib.Core.List.{reverse}
use webdav_server_rs.Quota.Data.{
  other, fstype, fstype_eq, FqError, no_quota, io_error, Mtab, System, has_nul,
}
use webdav_server_rs.Quota.Table.{read_mtab}

-- The order of `String`: that of the bytes.
unfoldable pub str_le : Str → Str → Bool
str_le [] t = true
str_le (x ∷ s) [] = false
str_le (x ∷ s) (y ∷ t) = ltb x y || (x == y && str_le s t)

-- `sort_by_key(|e| e.directory.clone())`: a stable sort.
unfoldable pub insert_entry : Mtab → List Mtab → List Mtab
insert_entry e [] = e ∷ []
insert_entry e (x ∷ xs) =
    if str_le e.directory x.directory then e ∷ x ∷ xs else x ∷ insert_entry e xs

unfoldable pub sort_by_directory : List Mtab → List Mtab
unfolding insert_entry str_le
sort_by_directory [] = []
sort_by_directory (x ∷ xs) = insert_entry x (sort_by_directory xs)

-- The components of a path, with `/` for the root and a `.` only at the start.
unfoldable pub components : Str → List Str
unfolding split
components s =
    let parts = filter (λ p. not (p == []) && not (p == bytes ".")) (split b'/' s) in
    if starts_with s (bytes "/")
    then bytes "/" ∷ parts
    else if s == bytes "." || starts_with s (bytes "./")
    then bytes "." ∷ parts
    else parts

unfoldable pub is_prefix : List Str → List Str → Bool
is_prefix [] bs = true
is_prefix (a ∷ as') [] = false
is_prefix (a ∷ as') (b ∷ bs) = a == b && is_prefix as' bs

-- `Path::starts_with`
unfoldable pub path_starts_with : Str → Str → Bool
unfolding components is_prefix
path_starts_with p base = is_prefix (components base) (components p)

-- The first entry that holds a path.
unfoldable pub find_entry : Str → List Mtab → Option Mtab
unfolding path_starts_with
find_entry rp [] = none
find_entry rp (x ∷ xs) = if path_starts_with rp x.directory then some x else find_entry rp xs

module _ (sys : System) where
  -- `realpath`
  unfoldable pub realpath : Str → Result Str ℕ
  realpath path = if has_nul path then err sys.invalid_input else sys.realpath path

  -- The entries on a device that may have quotas.
  unfoldable pub eligible : ℕ → List Mtab → List Mtab
  unfolding fstype
  eligible dev ms =
      filter (λ e. elim (sys.dev e.directory) [ ok d ↦ d == dev | err _ ↦ false ])
        (filter (λ e. not (fstype_eq (fstype e.fstype) other)) ms)

  -- The loop that replaces the directories by their real paths; those without one are left out.
  unfoldable pub resolved : List Mtab → List Mtab
  unfolding realpath
  resolved [] = []
  resolved (e ∷ es) =
      let rest = resolved es in
      elim (realpath e.directory) [
        | ok p ↦ record e { directory = sys.lossy p } ∷ rest
        | err _ ↦ rest
      ]

  -- The third arm of the match in `get_mtab_entry`.
  unfoldable pub nearest : Str → List Mtab → Result Mtab FqError
  unfolding realpath resolved sort_by_directory find_entry
  nearest path ents = elim (realpath path) [
    | err e ↦ err (io_error e)
    | ok rp ↦ elim (resolved ents) [
      | [] ↦ err no_quota
      | x ∷ xs ↦ elim (find_entry rp (reverse (sort_by_directory (x ∷ xs)))) [
        | some e ↦ ok e
        | none ↦ err no_quota
      ]
    ]
  ]

  -- The match on the number of eligible entries.
  unfoldable pub choose : Str → List Mtab → Result Mtab FqError
  unfolding nearest
  choose path [] = err no_quota
  choose path (e ∷ []) = ok e
  choose path (e ∷ f ∷ es) = nearest path (e ∷ f ∷ es)

  -- `get_mtab_entry`
  unfoldable pub get_mtab_entry : Str → Outcome (Result Mtab FqError)
  unfolding read_mtab eligible choose
  get_mtab_entry path = elim (sys.symlink_dev path) [
    | err e ↦ returned (err (io_error e))
    | ok dev ↦ (do
      ents ← read_mtab sys
      returned (elim ents [ err e ↦ err (io_error e) | ok ms ↦ choose path (eligible dev ms) ]))
  ]
