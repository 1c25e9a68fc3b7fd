-- ===== src/Quota/Table.antt =====
-- fs_quota/src/linux.rs: `read_mtab`.
use webdav_server_rs.Prelude.{
  nat_eq, str_eq, ℕ, Bool, false, not, ◌||◌, Option, none, some, List, [], ◌∷◌, map, Str, bytes,
  starts_with, contains, length, chars, collect, is_whitespace, trim, ◌==◌, if◌then◌else◌, Result,
  ok, err, Outcome, returned, ◌>>=◌, unwrap,
}
use webdav_server_rs.Quota.Data.{Mtab, System}

starts_word : List ℕ → Bool
unfolding is_whitespace
starts_word [] = false
starts_word (c ∷ _) = not (is_whitespace c)

-- A character put in front of the first word.
add_to_first : ℕ → List (List ℕ) → List (List ℕ)
add_to_first c [] = (c ∷ []) ∷ []
add_to_first c (w ∷ ws) = (c ∷ w) ∷ ws

words_of : List ℕ → List (List ℕ)
unfolding is_whitespace starts_word add_to_first
words_of [] = []
words_of (c ∷ cs) =
    let rest = words_of cs in
    if is_whitespace c
    then rest
    else if starts_word cs
    then add_to_first c rest
    else (c ∷ []) ∷ rest

-- `split_whitespace`
unfoldable pub split_whitespace : Str → List Str
unfolding words_of chars collect
split_whitespace s = map collect (words_of (chars s))

-- `splitn(2, sep)`: the first part, and the second one if there is one.
unfoldable pub splitn2 : ℕ → Str → Str × Option Str
splitn2 sep [] = ([], none)
splitn2 sep (c ∷ s) =
    let (part, rest) = splitn2 sep s in if c == sep then ([], some s) else (c ∷ part, rest)

-- The entry for the words of a line, if it is one.
unfoldable pub entry_of : List Str → Outcome (Option Mtab)
unfolding splitn2
entry_of [] = returned none
entry_of (_ ∷ []) = returned none
entry_of (_ ∷ _ ∷ []) = returned none
entry_of (w₀ ∷ w₁ ∷ w₂ ∷ _) =
    if starts_with w₂ (bytes "nfs")
    then (if not (contains w₀ (bytes ":")) then returned none else (do
      let (host, rest) = splitn2 b':' w₀
      path ← unwrap rest
      returned (some (record { host = some host; device = path; directory = w₁; fstype = w₂ }))))
    else returned (some (record { host = none; device = w₂; directory = w₁; fstype = w₂ }))

-- The body of the loop of `read_mtab`.
unfoldable pub parse_line : Str → Outcome (Option Mtab)
unfolding trim split_whitespace entry_of
parse_line l =
    let line = trim l in
    if length line == 0 || starts_with line (bytes "#")
    then returned none
    else entry_of (split_whitespace line)

-- An entry in front of the others, if there is one.
abbrev pub push : Option Mtab → List Mtab → List Mtab
push none ms = ms
push (some m) ms = m ∷ ms

-- The loop of `read_mtab`; a line that cannot be read ends it.
unfoldable pub read_lines : List (Result Str ℕ) → Outcome (Result (List Mtab) ℕ)
unfolding parse_line
read_lines [] = returned (ok [])
read_lines (err e ∷ _) = returned (err e)
read_lines (ok l ∷ ls) = do
  entry ← parse_line l
  rest ← read_lines ls
  returned (elim rest [ err e ↦ err e | ok ms ↦ ok (push entry ms) ])

-- `read_mtab`
unfoldable pub read_mtab : System → Outcome (Result (List Mtab) ℕ)
unfolding read_lines
read_mtab sys = elim sys.mtab [ err e ↦ returned (err e) | ok lines ↦ read_lines lines ]
