-- ===== src/Suid.antt =====
-- suid.rs: the credentials of a thread and of the process. The kernel is a parameter (Suid/Syscalls).
pub mod Syscalls
pub mod Synced
pub mod Switch
pub mod Guard
pub mod Process
pub mod Sample
mod Tests
use webdav_server_rs.Prelude.{
  nat_eq, ℕ, Bool, true, false, not, ◌&&◌, ◌||◌, Option, none, some, List, [], Str, str_eq, Eq,
  ◌==◌, if◌then◌else◌, length, Outcome, returned, panicked, ◌>>=◌, ◌>>◌, unwrap,
}
use webdav_server_rs.Suid.Syscalls.{Creds, Kernel, id_none}

-- current credentials of this thread
pub record UgidState : Type 0 where
  pub ruid : ℕ
  pub euid : ℕ
  pub rgid : ℕ
  pub egid : ℕ
  pub groups : List ℕ

-- What the functions of the file read and write: `THREAD_SWITCH_UGID_USED`, the thread-local
-- `CURRENT_UGID`, which is `none` until its first use, and the kernel's credentials.
pub record Thread : Type 0 where
  pub used : Bool
  pub current : Option UgidState
  pub kernel : Creds

-- The triple of a uid, a gid and the supplementary groups.
pub record UgidCreds : Type 0 where
  pub uid : ℕ
  pub gid : ℕ
  pub groups : List ℕ

-- One conditional system call of `thread_switch_ugid`, with the update of `cur` behind it. A
-- failure is a panic.
abbrev pub call_if :
    Bool
    → (Creds → Option Creds)
    → (UgidState → UgidState)
    → Creds × UgidState
    → Outcome (Creds × UgidState)
call_if test call update (c, cur) =
    if test then (do c' ← unwrap (call c); returned (c', update cur)) else returned (c, cur)

module _ (k : Kernel) where
  open k use {
    setresuid, setresgid, setgroups, count_groups, list_groups, setuid, setreuid, setgid, seteuid,
  }

  -- A failed call of `expect` is a panic.
  unfoldable pub get_groups : Creds → Outcome (List ℕ)
  get_groups c = do
    size ← unwrap (count_groups c)
    (res, groups) ← unwrap (list_groups size c)
    if res == size then returned groups else panicked

  -- `UgidState::new`
  unfoldable pub ugid_state : Thread → Outcome (Thread × UgidState)
  unfolding get_groups
  ugid_state t =
      let c = t.kernel in
      do
        groups ← get_groups c
        let state : UgidState = record {
          ruid = c.ruid;
          euid = c.euid;
          rgid = c.rgid;
          egid = c.egid;
          groups = groups;
        }
        returned (record t { used = true; current = some state }, state)

  -- The first use of the thread-local variable initialises it.
  unfoldable pub with_current : Thread → Outcome (Thread × UgidState)
  unfolding ugid_state
  with_current t = elim t.current [ none ↦ ugid_state t | some cur ↦ returned (t, cur) ]

  unfoldable pub set_euid : ℕ → Creds → Option Creds
  set_euid uid = setresuid id_none uid id_none

  unfoldable pub set_egid : ℕ → Creds → Option Creds
  set_egid gid = setresgid id_none gid id_none

  -- The body of the outer `if` of `thread_switch_ugid`.
  unfoldable pub change_creds : UgidCreds → Creds → UgidState → Outcome (Creds × UgidState)
  unfolding set_euid set_egid
  change_creds target c cur =
      let groups_changed = not (target.groups == cur.groups) in
      do
        (c₁, cur₁) ←
            call_if
              (not (cur.euid == 0)
                && (not (target.uid == cur.ruid) || not (target.gid == cur.rgid) || groups_changed))
              (set_euid 0) (λ s. record s { euid = 0 }) (c, cur)
        (c₂, cur₂) ←
            call_if (not (target.gid == cur₁.egid)) (set_egid target.gid)
              (λ s. record s { egid = target.gid }) (c₁, cur₁)
        (c₃, cur₃) ←
            call_if groups_changed (setgroups target.groups)
              (λ s. record s { groups = target.groups }) (c₂, cur₂)
        call_if (not (target.uid == cur₃.euid)) (set_euid target.uid)
            (λ s. record s { euid = target.uid }) (c₃, cur₃)

  -- `thread_switch_ugid`: the new state, and the credentials that it replaced.
  unfoldable pub thread_switch_ugid : UgidCreds → Thread → Outcome (Thread × UgidCreds)
  unfolding with_current change_creds
  thread_switch_ugid target t = do
    (t', cur) ← with_current t
    let old : UgidCreds = record { uid = cur.euid; gid = cur.egid; groups = cur.groups }
    let groups_changed = not (target.groups == cur.groups)
    let changed = not (target.uid == cur.euid) || not (target.gid == cur.egid) || groups_changed
    if changed
        then (do
          (c, cur') ← change_creds target t'.kernel cur
          returned (record t' { current = some cur'; kernel = c }, old))
        else returned (t', old)

  -- `UgidSwitch::guard`: the guard holds the credentials to go back to, if there was a switch. The
  -- target of a `UgidSwitch` is what `UgidSwitch::new` was given.
  unfoldable pub guard : Option UgidCreds → Thread → Outcome (Thread × Option UgidCreds)
  unfolding thread_switch_ugid
  guard none t = returned (t, none)
  guard (some creds) t = do (t', base) ← thread_switch_ugid creds t; returned (t', some base)

  -- `Drop for UgidSwitchGuard`
  unfoldable pub drop_guard : Option UgidCreds → Thread → Outcome Thread
  unfolding thread_switch_ugid
  drop_guard none t = returned t
  drop_guard (some creds) t = do (t', _) ← thread_switch_ugid creds t; returned t'

  -- `UgidSwitch::run`
  unfoldable pub run {ℓ} :
      {R : Type ℓ}
      → Option UgidCreds
      → (Thread → Outcome (Thread × R))
      → Thread
      → Outcome (Thread × R)
  unfolding guard drop_guard
  run target func t = do
    (t₁, base) ← guard target t
    (t₂, r) ← func t₁
    t₃ ← drop_guard base t₂
    returned (t₃, r)

  -- `proc_switch_ugid`, as it is compiled for Linux. Each call that fails is a panic.
  unfoldable pub proc_switch_ugid : ℕ → ℕ → Bool → Thread → Outcome Thread
  proc_switch_ugid uid gid keep_privs t = if t.used then panicked else (do
    c₁ ← unwrap (setuid 0 t.kernel)
    c₂ ← unwrap (setreuid uid 0 c₁)
    c₃ ← unwrap (setgid gid c₂)
    c₄ ← unwrap (setgroups [] c₃)
    c₅ ← unwrap (if keep_privs then seteuid uid c₄ else setuid uid c₄)
    returned (record t { kernel = c₅ }))

-- `have_suid_privs`
unfoldable pub have_suid_privs : Creds → Bool
have_suid_privs c = c.euid == 0

-- `has_thread_switch_ugid`, on Linux
unfoldable pub has_thread_switch_ugid : Bool
has_thread_switch_ugid = true
