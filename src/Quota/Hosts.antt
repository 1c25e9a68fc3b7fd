-- ===== src/Quota/Hosts.antt =====
-- Reading the mount table never panics, and each entry of type NFS that it gives has its host.
use webdav_server_rs.Prelude.{
  nat_eq, str_eq, ℕ, ◌≡◌, ◌≢◌, refl, subst, inl, inr, true, Bool-cases, Result-cases, ◌||◌, Option,
  none, some, List, [], ◌∷◌, All, Str, bytes, starts_with, contains, length, trim, ◌==◌, Result, ok,
  err, returned, arith,
}
use webdav_server_rs.Quota.Data.{Mtab, System}
use webdav_server_rs.Quota.Table.{
  splitn2, entry_of, split_whitespace, parse_line, push, read_lines, read_mtab,
}

-- An entry of a type that starts with `nfs` has a host.
abbrev pub HasHost : Mtab → Type 0
HasHost m = starts_with m.fstype (bytes "nfs") ≡ true → m.host ≢ none

splitn2_of_contains :
    (sep : ℕ) (s : Str) → contains s (sep ∷ []) ≡ true → (r : Str) × ((splitn2 sep s).1 ≡ some r)
unfolding splitn2
splitn2_of_contains sep [] h = ground arith
splitn2_of_contains sep (c ∷ s) h = elim (Bool-cases (c == sep)) [
  | inl found ↦ (s, rw found refl)
  | inr later ↦ let (r, e) = splitn2_of_contains sep s (ground arith) in (r, rw later e)
]

abbrev AllOption : (Mtab → Type 0) → Option Mtab → Type 0
AllOption P none = Unit
AllOption P (some m) = P m

entry_of_returns :
    (ws : List Str) → (o : Option Mtab) × (entry_of ws ≡ returned o) × AllOption HasHost o
unfolding entry_of
entry_of_returns [] = (none, refl, tt)
entry_of_returns (_ ∷ []) = (none, refl, tt)
entry_of_returns (_ ∷ _ ∷ []) = (none, refl, tt)
entry_of_returns (w₀ ∷ w₁ ∷ w₂ ∷ ws) = elim (Bool-cases (starts_with w₂ (bytes "nfs"))) [
  | inr plain ↦ (
    some (record { host = none; device = w₂; directory = w₁; fstype = w₂ }),
    rw plain refl,
    λ h. ground arith,
  )
  | inl remote ↦ elim (Bool-cases (contains w₀ (bytes ":"))) [
    | inr bare ↦ (none, rw (remote, bare) refl, tt)
    | inl hosted ↦
        let (path, e) = splitn2_of_contains b':' w₀ hosted in
        (
          some (record {
            host = some (splitn2 b':' w₀).0;
            device = path;
            directory = w₁;
            fstype = w₂;
          }),
          rw (remote, hosted, e) refl,
          λ _ h. ground arith,
        )
  ]
]

parse_line_returns :
    (l : Str) → (o : Option Mtab) × (parse_line l ≡ returned o) × AllOption HasHost o
unfolding parse_line
parse_line_returns l =
    elim (Bool-cases (length (trim l) == 0 || starts_with (trim l) (bytes "#"))) [
      | inl skipped ↦ (none, rw skipped refl, tt)
      | inr kept ↦ let (o, e, h) = entry_of_returns (split_whitespace (trim l)) in (o, rw kept e, h)
    ]

push-All :
    (o : Option Mtab) (ms : List Mtab)
    → AllOption HasHost o
    → All HasHost ms
    → All HasHost (push o ms)
push-All none ms h all = all
push-All (some m) ms h all = (h, all)

read_lines_returns :
    (ls : List (Result Str ℕ))
    → (r : Result (List Mtab) ℕ) × (read_lines ls ≡ returned r)
      × ((ms : List Mtab) → r ≡ ok ms → All HasHost ms)
unfolding read_lines
read_lines_returns [] =
    (ok [], refl, λ ms e. let same : [] ≡ ms = ground arith in subst (All HasHost) same tt)
read_lines_returns (err e ∷ ls) = (err e, refl, λ ms h. absurd (ground arith))
read_lines_returns (ok l ∷ ls) =
    let (o, e, h) = parse_line_returns l in
    let (r, e', all) = read_lines_returns ls in
    elim (Result-cases r) [
      | inr (k, bad) ↦ (err k, rw (read_lines, e, e', bad) refl, λ ms h'. absurd (ground arith))
      | inl (ms, good) ↦ (
        ok (push o ms),
        rw (read_lines, e, e', good) refl,
        λ ms' h'.
            let same : push o ms ≡ ms' = ground arith in
            subst (All HasHost) same (push-All o ms h (all ms good)),
      )
    ]

pub read_mtab_returns :
    (sys : System)
    → (r : Result (List Mtab) ℕ) × (read_mtab sys ≡ returned r)
      × ((ms : List Mtab) → r ≡ ok ms → All HasHost ms)
unfolding read_mtab
read_mtab_returns sys = elim (Result-cases sys.mtab) [
  | inr (e, bad) ↦ (err e, rw (read_mtab, bad) refl, λ ms h. absurd (ground arith))
  | inl (ls, good) ↦ let (r, e, all) = read_lines_returns ls in (r, rw (read_mtab, good) e, all)
]
