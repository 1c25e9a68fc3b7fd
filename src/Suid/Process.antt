-- ===== src/Suid/Process.antt =====
-- `proc_switch_ugid`: what the process can do afterwards.
use webdav_server_rs.Prelude.{
  nat_eq, ℕ, ◌≡◌, ◌≢◌, refl, ap, ◌∙◌, subst, Bool, true, false, ◌⊎◌, none, [], returned, panicked,
  >>=-eq-returned, arith, if◌then◌else◌,
}
use webdav_server_rs.Suid.Syscalls.{Creds, Kernel, id_none}
use webdav_server_rs.Suid.{
  UgidState, UgidCreds, Thread, with_current, set_euid, change_creds, thread_switch_ugid,
  proc_switch_ugid,
}
use webdav_server_rs.Suid.Synced.{IsSynced, IsTarget, acting, switched, with_current_lem}
use webdav_server_rs.Suid.Switch.{thread_switch_ugid_lem}

-- The credentials after `proc_switch_ugid`.
abbrev pub dropped : ℕ → ℕ → Bool → Creds → Creds
dropped uid gid keep c = record c {
  ruid = uid;
  euid = uid;
  suid = if keep then 0 else uid;
  rgid = gid;
  egid = gid;
  sgid = gid;
  groups = [];
}

module _ (k : Kernel) where
  -- Started with the effective uid 0, and before any thread has switched, the call returns, for
  -- ordinary ids. The real and effective ids are then the ones that were given, there are no
  -- supplementary groups, and the saved uid is 0 if the privileges are kept and the uid otherwise.
  pub proc_switch_ugid_lem :
      (uid gid : ℕ) (keep : Bool) (t : Thread)
      → uid ≢ id_none
      → gid ≢ id_none
      → t.used ≡ false
      → t.kernel.euid ≡ 0
      → proc_switch_ugid k uid gid keep t
        ≡ returned (record t { kernel = dropped uid gid keep t.kernel })
  unfolding proc_switch_ugid
  proc_switch_ugid_lem uid gid keep t real_uid real_gid unused root =
      let c₁ : Creds = record t.kernel { ruid = 0; euid = 0; suid = 0 } in
      let c₂ : Creds = record c₁ { ruid = uid } in
      let c₃ : Creds = record c₂ { rgid = gid; egid = gid; sgid = gid } in
      let c₄ : Creds = record c₃ { groups = [] } in
      ground (
        arith,
        k.setuid_privileged 0 t.kernel (omega arith) root,
        k.setreuid_privileged uid 0 c₁ real_uid (omega arith) refl,
        k.setgid_privileged gid c₂ real_gid refl,
        k.setgroups_allowed [] c₃ (omega arith) refl,
        k.seteuid_privileged uid c₄ real_uid refl,
        k.setuid_privileged uid c₄ real_uid refl,
      )

  with_current-used :
      (t t' : Thread) (cur : UgidState)
      → (t.current ≡ none) ⊎ (t.used ≡ true)
      → with_current k t ≡ returned (t', cur)
      → t'.used ≡ true
  unfolding with_current
  with_current-used t t' cur fresh e = ground arith

  -- It panics once a thread has switched its credentials: whatever state `thread_switch_ugid`
  -- returns in a thread that has not used its record before, no process switch is possible in it.
  pub proc_switch-thread_switch :
      (x : UgidCreds) (t t' : Thread) (old : UgidCreds) (uid gid : ℕ) (keep : Bool)
      → (t.current ≡ none) ⊎ (t.used ≡ true)
      → thread_switch_ugid k x t ≡ returned (t', old)
      → proc_switch_ugid k uid gid keep t' ≡ panicked
  unfolding proc_switch_ugid thread_switch_ugid
  proc_switch-thread_switch x t t' old uid gid keep fresh ran =
      let ((t₁, cur), e, rest) = >>=-eq-returned (with_current k t) _ ran in
      let used₁ : t₁.used ≡ true = with_current-used t t₁ cur fresh e in
      let used : t'.used ≡ true = ground arith in rw used refl

  -- Where the privileges are kept, a thread can take any ordinary credentials afterwards.
  pub thread_switch-proc_switch :
      (x : UgidCreds) (uid gid : ℕ) (t t' : Thread)
      → uid ≢ id_none
      → gid ≢ id_none
      → t.used ≡ false
      → t.current ≡ none
      → t.kernel.euid ≡ 0
      → IsTarget x
      → proc_switch_ugid k uid gid true t ≡ returned t'
      → (t'' : Thread) × (thread_switch_ugid k x t'
          ≡ returned (t'', record { uid = uid; gid = gid; groups = [] }))
        × (t''.kernel ≡ switched x (dropped uid gid true t.kernel))
  thread_switch-proc_switch x uid gid t t' real_uid real_gid unused fresh root target ran =
      let u : Thread = record t { kernel = dropped uid gid true t.kernel } in
      let synced : IsSynced u = ground arith in
      let same : u ≡ t' =
        ground (arith, proc_switch_ugid_lem uid gid true t real_uid real_gid unused root) in
      let (t'', e, _, kernel) = thread_switch_ugid_lem k x u synced target refl in
      (t'', subst (λ s. thread_switch_ugid k x s ≡ returned (t'', acting u.kernel)) same e, kernel)

  -- Where they are dropped and the uid is not 0, no thread can take another uid: the attempt is
  -- a panic.
  pub thread_switch_dropped :
      (x : UgidCreds) (uid gid : ℕ) (c : Creds) (t : Thread)
      → uid ≢ 0
      → x.uid ≢ uid
      → IsSynced t
      → t.kernel ≡ dropped uid gid false c
      → thread_switch_ugid k x t ≡ panicked
  unfolding thread_switch_ugid change_creds set_euid
  thread_switch_dropped x uid gid c t real other synced e =
      let (t₁, cur, found, agrees, same, _) = with_current_lem k t synced in
      let now : t₁.kernel ≡ dropped uid gid false c = same ∙ e in
      let euid : cur.euid ≡ uid = agrees.euid ∙ ap (λ s. s.euid) e in
      let ruid : cur.ruid ≡ uid = agrees.ruid ∙ ap (λ s. s.ruid) e in
      let refused : k.setresuid id_none 0 id_none t₁.kernel ≡ none =
        k.setresuid_refused 0 t₁.kernel (omega arith) (λ may.
          omega (arith, ap (λ s. s.euid) now, ap (λ s. s.ruid) now, ap (λ s. s.suid) now)) in
      rw found (ground arith)
