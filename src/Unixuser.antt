-- ===== src/Unixuser.antt =====
-- unixuser.rs: the lookup of an account in the passwd database. getpwnam_r(3) and getgrouplist(3)
-- are parameters.
pub mod Lookup
mod Tests
use webdav_server_rs.Prelude.{
  nat_eq, ℕ, ◌/◌, Bool, true, false, not, ◌&&◌, ◌||◌, Option, none, some, List, [], ◌∷◌, Str, any,
  filter, take, ltb, ◌==◌, if◌then◌else◌, Result, ok, err,
}

-- `libc::passwd`
pub record Passwd : Type 0 where
  pub pw_name : Str
  pub pw_passwd : Str
  pub pw_gecos : Str
  pub pw_dir : Str
  pub pw_shell : Str
  pub pw_uid : ℕ
  pub pw_gid : ℕ

pub record User : Type 0 where
  pub name : Str
  pub passwd : Str
  pub gecos : Str
  pub uid : ℕ
  pub gid : ℕ
  pub groups : List ℕ
  pub dir : Str
  pub shell : Str

-- What getgrouplist leaves behind: its result, where `none` is a negative one, the number that it
-- stored in `ngroups`, and the buffer.
pub record GroupList : Type 0 where
  pub ret : Option ℕ
  pub ngroups : ℕ
  pub buffer : List ℕ

-- The account database.
pub record Database : Type 0 where
  -- getpwnam_r(name, buffer size): the error number, and the result unless it is null
  pub getpwnam_r : Str → ℕ → ℕ × Option Passwd
  -- getgrouplist(name, gid, room)
  pub getgrouplist : Str → ℕ → ℕ → GroupList
  -- `CStr::to_string_lossy`
  pub lossy : Str → Str

abbrev pub enoent : ℕ
enoent = 2

-- The size of `buf` in bytes, and of a `gid_t`.
abbrev pub buf_len : ℕ
buf_len = 1024

abbrev pub size_of_gid : ℕ
size_of_gid = 4

module _ (db : Database) where
  unfoldable pub to_user : Passwd → User
  to_user pwd = record {
    name = db.lossy pwd.pw_name;
    passwd = db.lossy pwd.pw_passwd;
    gecos = db.lossy pwd.pw_gecos;
    uid = pwd.pw_uid;
    gid = pwd.pw_gid;
    groups = [];
    dir = pwd.pw_dir;
    shell = pwd.pw_shell;
  }

  -- The block under `if with_groups`.
  unfoldable pub add_groups : Str → User → User
  add_groups name user =
      let found = db.getgrouplist name user.gid (buf_len / size_of_gid) in
      elim found.ret [
        | none ↦ user
        | some _ ↦
            if ltb 0 found.ngroups
            then record user {
              groups = filter (λ g. not (g == user.gid)) (take found.ngroups found.buffer);
            }
            else user
      ]

  -- `User::by_name`; the error is a number of errno. A name with a NUL byte is no C string.
  unfoldable pub by_name : Str → Bool → Result User ℕ
  unfolding to_user add_groups
  by_name name with_groups =
      if any (λ b. b == 0) name
      then err enoent
      else (let (ret, result) = db.getpwnam_r name buf_len in
          if not (ret == 0) then err ret else elim result [
            | none ↦ err enoent
            | some pwd ↦
                let user = to_user pwd in ok (if with_groups then add_groups name user else user)
          ])
