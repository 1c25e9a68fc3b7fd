-- ===== src/Unixuser/Lookup.antt =====
-- What `by_name` returns.
use webdav_server_rs.Prelude.{
  nat_eq, ℕ, ◌≡◌, ◌≢◌, refl, Bool, true, false, not, Option-cases, Bool-cases, subst, ◌/◌, inl, inr,
  some, List, [], ◌∷◌, Str, All, filter, take, ltb, ◌==◌, if◌then◌else◌, ok, arith,
}
use webdav_server_rs.Unixuser.{
  Passwd, User, Database, by_name, buf_len, size_of_gid, to_user, add_groups,
}

All-ne-filter : (g : ℕ) (xs : List ℕ) → All (λ x. x ≢ g) (filter (λ x. not (x == g)) xs)
All-ne-filter g [] = tt
All-ne-filter g (x ∷ xs) = ground (arith, All-ne-filter g xs)

-- The supplementary groups of an account do not contain its primary one.
abbrev pub HasSupplementary : User → Type 0
HasSupplementary user = All (λ g. g ≢ user.gid) user.groups

add_groups-HasSupplementary :
    (db : Database) (name : Str) (user : User)
    → HasSupplementary user
    → HasSupplementary (add_groups db name user)
unfolding add_groups
add_groups-HasSupplementary db name user h =
    let found = db.getgrouplist name user.gid (buf_len / size_of_gid) in
    let listed : User = record user {
      groups = filter (λ g. not (g == user.gid)) (take found.ngroups found.buffer);
    } in
    elim (Option-cases found.ret) [
      | inl failed ↦
          let same : user ≡ add_groups db name user = rw (failed, add_groups) refl in
          subst HasSupplementary same h
      | inr (n, worked) ↦ elim (Bool-cases (ltb 0 found.ngroups)) [
        | inl several ↦
            let same : listed ≡ add_groups db name user = rw (worked, add_groups, several) refl in
            subst HasSupplementary same (All-ne-filter user.gid (take found.ngroups found.buffer))
        | inr empty ↦
            let same : user ≡ add_groups db name user = rw (worked, add_groups, empty) refl in
            subst HasSupplementary same h
      ]
    ]

found-HasSupplementary :
    (db : Database) (name : Str) (with_groups : Bool) (pwd : Passwd)
    → HasSupplementary (if with_groups then add_groups db name (to_user db pwd) else to_user db pwd)
unfolding to_user
found-HasSupplementary db name true pwd = add_groups-HasSupplementary db name (to_user db pwd) tt
found-HasSupplementary db name false pwd = tt

-- An account that is found has the ids of its entry in the database, and its supplementary groups
-- do not contain its primary one. Without `with_groups` it has none.
pub by_name_lem :
    (db : Database) (name : Str) (with_groups : Bool) (user : User)
    → by_name db name with_groups ≡ ok user
    → (pwd : Passwd) × (db.getpwnam_r name buf_len ≡ (0, some pwd))
      × (user.uid ≡ pwd.pw_uid)
      × (user.gid ≡ pwd.pw_gid)
      × (user.dir ≡ pwd.pw_dir)
      × HasSupplementary user
      × (with_groups ≡ false → user.groups ≡ [])
unfolding by_name
by_name_lem db name with_groups user e = elim (Option-cases (db.getpwnam_r name buf_len).1) [
  | inl missing ↦ absurd (ground arith)
  | inr (pwd, found) ↦
      let same : (if with_groups then add_groups db name (to_user db pwd) else to_user db pwd)
          ≡ user =
        ground arith in
      (
        pwd,
        ground arith,
        ground arith,
        ground arith,
        ground arith,
        subst HasSupplementary same (found-HasSupplementary db name with_groups pwd),
        ground arith,
      )
]
