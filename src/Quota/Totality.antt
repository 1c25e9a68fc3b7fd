-- ===== src/Quota/Totality.antt =====
-- No call panics, whatever the mount table holds: an entry of type NFS has its host.
use webdav_server_rs.Prelude.{
  nat_eq, str_eq, ℕ, ◌≡◌, ◌≢◌, refl, subst, inl, inr, true, Bool-cases, Option-cases, Result-cases,
  not, Option, none, some, unwrap_or, List, [], ◌∷◌, filter, All, All-filter, All-In, All-of_In,
  In-of_reverse, Str, bytes, starts_with, ◌==◌, eq_iff, Result, ok, err, returned, arith,
}
use mathlib.Core.List.{reverse}
use webdav_server_rs.Quota.Data.{
  nfs, other, fstype, fstype_eq, FsQuota, FqError, io_error, Mtab, System,
}
use webdav_server_rs.Quota.Calls.{get_quota, get_quota_at, get_quota_nfs}
use webdav_server_rs.Quota.Entry.{
  eligible, resolved, insert_entry, sort_by_directory, find_entry, path_starts_with, str_le,
  realpath, nearest, choose, get_mtab_entry,
}
use webdav_server_rs.Quota.Entry.Nearest.{nearest-inversion}
use webdav_server_rs.Quota.Errors.{check_lem}
use webdav_server_rs.Quota.{user, system, check}
use webdav_server_rs.Quota.Hosts.{HasHost, read_mtab_returns}

module _ (sys : System) where
  resolved-All : (es : List Mtab) → All HasHost es → All HasHost (resolved sys es)
  unfolding resolved
  resolved-All [] all = tt
  resolved-All (e ∷ es) all = elim (Result-cases (realpath sys e.directory)) [
    | inl (p, good) ↦ rw (resolved, good) (all.0, resolved-All es all.1)
    | inr (k, bad) ↦ rw (resolved, bad) (resolved-All es all.1)
  ]

  insert_entry-All :
      (e : Mtab) (xs : List Mtab) → HasHost e → All HasHost xs → All HasHost (insert_entry e xs)
  unfolding insert_entry
  insert_entry-All e [] h all = (h, tt)
  insert_entry-All e (x ∷ xs) h all = elim (Bool-cases (str_le e.directory x.directory)) [
    | inl before ↦ rw before (h, all)
    | inr after ↦ rw after (all.0, insert_entry-All e xs h all.1)
  ]

  sort_by_directory-All : (xs : List Mtab) → All HasHost xs → All HasHost (sort_by_directory xs)
  unfolding sort_by_directory
  sort_by_directory-All [] all = tt
  sort_by_directory-All (x ∷ xs) all =
      insert_entry-All x (sort_by_directory xs) all.0 (sort_by_directory-All xs all.1)

  find_entry-All :
      (rp : Str) (xs : List Mtab) (m : Mtab)
      → All HasHost xs
      → find_entry rp xs ≡ some m
      → HasHost m
  unfolding find_entry
  find_entry-All rp [] m all e = absurd (ground arith)
  find_entry-All rp (x ∷ xs) m all e = elim (Bool-cases (path_starts_with rp x.directory)) [
    | inl found ↦ let same : x ≡ m = ground arith in subst HasHost same all.0
    | inr missed ↦ find_entry-All rp xs m all.1 (rw missed at e)
  ]

  reverse-All : (xs : List Mtab) → All HasHost xs → All HasHost (reverse xs)
  reverse-All xs all =
      All-of_In HasHost (reverse xs) (λ a m. All-In HasHost xs all (In-of_reverse xs m))

  nearest-HasHost :
      (path : Str) (es : List Mtab) (m : Mtab)
      → All HasHost es
      → nearest sys path es ≡ ok m
      → HasHost m
  nearest-HasHost path es m all e =
      let (rp, _, found) = nearest-inversion sys path es m e in
      let sorted = sort_by_directory-All (resolved sys es) (resolved-All es all) in
      find_entry-All rp (reverse (sort_by_directory (resolved sys es))) m
        (reverse-All (sort_by_directory (resolved sys es)) sorted) found

  choose-HasHost :
      (path : Str) (es : List Mtab) (m : Mtab)
      → All HasHost es
      → choose sys path es ≡ ok m
      → HasHost m
  unfolding choose
  choose-HasHost path [] m all e = absurd (ground arith)
  choose-HasHost path (x ∷ []) m all e = let same : x ≡ m = ground arith in subst HasHost same all.0
  choose-HasHost path (x ∷ y ∷ es) m all e = nearest-HasHost path (x ∷ y ∷ es) m all e

  eligible-All : (dev : ℕ) (ms : List Mtab) → All HasHost ms → All HasHost (eligible sys dev ms)
  unfolding eligible
  eligible-All dev ms all =
      All-filter HasHost _ (filter (λ e. not (fstype_eq (fstype e.fstype) other)) ms)
        (All-filter HasHost _ ms all)

  get_mtab_entry_returns :
      (path : Str)
      → (r : Result Mtab FqError) × (get_mtab_entry sys path ≡ returned r)
        × ((m : Mtab) → r ≡ ok m → HasHost m)
  unfolding get_mtab_entry
  get_mtab_entry_returns path = elim (Result-cases (sys.symlink_dev path)) [
    | inr (e, bad) ↦ (err (io_error e), rw (get_mtab_entry, bad) refl, λ m h. absurd (ground arith))
    | inl (dev, good) ↦
        let (r, e, all) = read_mtab_returns sys in
        elim (Result-cases r) [
          | inr (k, bad) ↦ (
            err (io_error k),
            rw (get_mtab_entry, good, e, bad) refl,
            λ m h. absurd (ground arith),
          )
          | inl (ms, listed) ↦ (
            choose sys path (eligible sys dev ms),
            rw (get_mtab_entry, good, e, listed) refl,
            λ m h.
                choose-HasHost path (eligible sys dev ms) m (eligible-All dev ms (all ms listed)) h,
          )
        ]
  ]

  nfs_of_type : (t : Str) → fstype_eq (fstype t) nfs ≡ true → starts_with t (bytes "nfs") ≡ true
  unfolding fstype
  nfs_of_type t h = elim (Bool-cases (t == bytes "nfs")) [
    | inl three ↦ rw ((eq_iff t (bytes "nfs")).0 three) refl
    | inr neither ↦ elim (Bool-cases (t == bytes "nfs4")) [
      | inl four ↦ rw ((eq_iff t (bytes "nfs4")).0 four) refl
      | inr nor ↦ absurd (ground arith)
    ]
  ]

  get_quota_nfs_returns :
      (m : Mtab) (id : ℕ)
      → m.host ≢ none
      → (r : Result FsQuota FqError) × (get_quota_nfs sys m id ≡ returned r)
  unfolding get_quota_nfs
  get_quota_nfs_returns m id hosted = elim (Option-cases m.host) [
    | inl missing ↦ absurd (hosted missing)
    | inr (host, e) ↦ (get_quota_at sys host m id, rw (get_quota_nfs, e) refl)
  ]

  user_returns :
      (path : Str) (uid : Option ℕ)
      → (r : Result FsQuota FqError) × (user sys path uid ≡ returned r)
  unfolding user
  user_returns path uid =
      let (found, e, hosted) = get_mtab_entry_returns path in
      elim (Result-cases found) [
        | inr (k, bad) ↦ (err k, rw (user, e, bad) refl)
        | inl (m, good) ↦ elim (Bool-cases (fstype_eq (fstype m.fstype) nfs)) [
          | inr local ↦
              (get_quota sys m.device (unwrap_or uid sys.getuid), rw (user, e, good, local) refl)
          | inl remote ↦
              let (r, ran) =
                get_quota_nfs_returns m (unwrap_or uid sys.getuid)
                  (hosted m good (nfs_of_type m.fstype remote)) in
              (r, rw (user, e, good, remote) ran)
        ]
      ]

-- `check` never panics: whatever /etc/mtab and the system calls give, it returns a quota or an
-- error. In particular the host that the NFS call unwraps is always there.
pub check_returns :
    (sys : System) (path : Str) (uid : Option ℕ)
    → (r : Result FsQuota FqError) × (check sys path uid ≡ returned r)
check_returns sys path uid =
    let (r, e) = user_returns sys path uid in
    elim (check_lem sys path uid r e) [
      | inl (_, fallen_back) ↦ (system sys path, fallen_back)
      | inr (_, kept) ↦ (r, kept)
    ]
