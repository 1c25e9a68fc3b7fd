-- ===== src/Suid/Synced.antt =====
-- A thread whose record of its credentials agrees with the kernel: what the steps of
-- `thread_switch_ugid` have in common.
use webdav_server_rs.Prelude.{
  nat_eq, ◌≡◌, ◌≢◌, ◌⊎◌, ◌≤◌, refl, Bool, true, false, not, ◌&&◌, ◌||◌, inl, inr, Option, none,
  some, str_eq, eq_iff, eq_refl, Option-cases, ap, subst, ◌==◌, if◌then◌else◌, length, arith,
  returned,
}
use webdav_server_rs.Suid.Syscalls.{Creds, Kernel, id_none, ngroups_max}
use webdav_server_rs.Suid.{UgidState, UgidCreds, Thread, get_groups, with_current, call_if}

-- The thread's record of its credentials is the kernel's.
pub record Agrees (cur : UgidState) (c : Creds) : Type 0 where
  pub ruid : cur.ruid ≡ c.ruid
  pub euid : cur.euid ≡ c.euid
  pub rgid : cur.rgid ≡ c.rgid
  pub egid : cur.egid ≡ c.egid
  pub groups : cur.groups ≡ c.groups

-- A thread-local variable that is not initialised yet agrees.
abbrev pub IsSynced : Thread → Type 0
IsSynced t = elim t.current as (λ _. Type 0) [ none ↦ Unit | some cur ↦ Agrees cur t.kernel ]

-- Ids that are no special value, and a list of groups that the kernel takes.
pub record IsTarget (x : UgidCreds) : Type 0 where
  pub uid : x.uid ≢ id_none
  pub gid : x.gid ≢ id_none
  pub groups : length x.groups ≤ ngroups_max

-- The credentials with which a thread acts.
abbrev pub acting : Creds → UgidCreds
acting c = record { uid = c.euid; gid = c.egid; groups = c.groups }

-- The kernel's credentials after a switch.
abbrev pub switched : UgidCreds → Creds → Creds
switched x c = record c { euid = x.uid; egid = x.gid; groups = x.groups }

-- A conditional call that is allowed where its test holds, and whose effect is there already where
-- the test fails.
pub call_if_lem :
    (test : Bool) (call : Creds → Option Creds) (update : UgidState → UgidState) (c c' : Creds)
    (cur : UgidState)
    → Agrees cur c
    → (test ≡ true → (call c ≡ some c') × Agrees (update cur) c')
    → (test ≡ false → c ≡ c')
    → (cur' : UgidState) × (call_if test call update (c, cur) ≡ returned (c', cur'))
      × Agrees cur' c'
call_if_lem true call update c c' cur agrees does same =
    let (called, agrees') = does refl in (update cur, rw called refl, agrees')
call_if_lem false call update c c' cur agrees does same =
    (cur, ap (λ s. returned (s, cur)) (same refl), subst (Agrees cur) (same refl) agrees)

-- A switch that does not go through root starts with the effective uid 0, or asks for the real
-- ids and for no other groups.
pub root_or_same :
    (x : UgidCreds) (c : Creds) (cur : UgidState)
    → Agrees cur c
    → ((if not (cur.euid == 0)
            && (not (x.uid == cur.ruid) || not (x.gid == cur.rgid) || not (x.groups == cur.groups))
          then 0
          else c.euid)
        ≡ 0)
      ⊎ ((x.uid ≡ c.ruid) × (x.gid ≡ c.rgid) × (x.groups ≡ cur.groups))
root_or_same x c cur agrees = ground (arith, eq_iff x.groups cur.groups)

-- What a switch returns: the credentials that were in force.
pub acting_of_Agrees :
    (cur : UgidState) (c : Creds)
    → Agrees cur c
    → record { uid = cur.euid; gid = cur.egid; groups = cur.groups } ≡ acting c
acting_of_Agrees cur c a = ground arith

module _ (k : Kernel) where
  get_groups_lem : (c : Creds) → get_groups k c ≡ returned c.groups
  unfolding get_groups
  get_groups_lem c = rw (k.count_groups_lem c, k.list_groups_lem c, eq_refl (length c.groups)) refl

  pub with_current_lem :
      (t : Thread)
      → IsSynced t
      → (t' : Thread) × (cur : UgidState) × (with_current k t ≡ returned (t', cur))
        × Agrees cur t.kernel
        × (t'.kernel ≡ t.kernel)
        × IsSynced t'
  unfolding with_current
  with_current_lem t s = elim (Option-cases t.current) [
    | inl fresh ↦
        let cur : UgidState = record {
          ruid = t.kernel.ruid;
          euid = t.kernel.euid;
          rgid = t.kernel.rgid;
          egid = t.kernel.egid;
          groups = t.kernel.groups;
        } in
        let agrees : Agrees cur t.kernel = record {
          ruid = refl;
          euid = refl;
          rgid = refl;
          egid = refl;
          groups = refl;
        } in
        (
          record t { used = true; current = some cur },
          cur,
          rw (fresh, with_current, get_groups_lem t.kernel) refl,
          agrees,
          refl,
          agrees,
        )
    | inr (cur, known) ↦ (t, cur, ground arith, ground arith, refl, s)
  ]
