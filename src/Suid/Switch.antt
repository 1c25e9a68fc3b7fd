-- ===== src/Suid/Switch.antt =====
-- `thread_switch_ugid` brings a thread that keeps the saved uid 0 to any credentials, and its
-- record of them agrees with the kernel throughout.
use webdav_server_rs.Prelude.{
  nat_eq, ℕ, ◌≡◌, ◌≢◌, ◌≤◌, refl, Bool, true, false, not, ◌&&◌, ◌||◌, Bool-cases, inl, inr, some,
  List, str_eq, eq_iff, ap, sym, ◌∙◌, ◌==◌, if◌then◌else◌, length, arith, returned,
}
use webdav_server_rs.Suid.Syscalls.{Creds, Kernel, id_none, ngroups_max, MayTakeUid, MayTakeGid}
use webdav_server_rs.Suid.{
  UgidState, UgidCreds, Thread, set_euid, set_egid, call_if, change_creds, thread_switch_ugid,
}
use webdav_server_rs.Suid.Synced.{
  Agrees, IsSynced, IsTarget, acting, switched, call_if_lem, root_or_same, acting_of_Agrees,
  with_current_lem,
}

module _ (k : Kernel) where
  -- The first step of a switch, which may go to root.
  root_step :
      (test : Bool) (c : Creds) (cur : UgidState)
      → Agrees cur c
      → c.suid ≡ 0
      → (cur' : UgidState) × (call_if test (set_euid k 0) (λ s. record s { euid = 0 }) (c, cur)
          ≡ returned (record c { euid = if test then 0 else c.euid }, cur'))
        × Agrees cur' (record c { euid = if test then 0 else c.euid })
  unfolding set_euid
  root_step true c cur agrees saved =
      call_if_lem true (set_euid k 0) (λ s. record s { euid = 0 }) c (record c { euid = 0 }) cur
        agrees (λ _. (k.setresuid_allowed 0 c (omega arith) (ground arith), ground arith))
        (λ t. ground arith)
  root_step false c cur agrees saved = (cur, refl, agrees)

  gid_step :
      (g : ℕ) (c : Creds) (cur : UgidState)
      → Agrees cur c
      → g ≢ id_none
      → MayTakeGid g c
      → (cur' : UgidState) × (call_if
            (not (g == cur.egid))
            (set_egid k g)
            (λ s. record s { egid = g })
            (c, cur)
          ≡ returned (record c { egid = g }, cur'))
        × Agrees cur' (record c { egid = g })
  unfolding set_egid
  gid_step g c cur agrees real may =
      call_if_lem (not (g == cur.egid)) (set_egid k g) (λ s. record s { egid = g }) c
        (record c { egid = g }) cur agrees (λ _. (k.setresgid_allowed g c real may, ground arith))
        (λ t. ground (arith, agrees.egid))

  uid_step :
      (u : ℕ) (c : Creds) (cur : UgidState)
      → Agrees cur c
      → u ≢ id_none
      → MayTakeUid u c
      → (cur' : UgidState) × (call_if
            (not (u == cur.euid))
            (set_euid k u)
            (λ s. record s { euid = u })
            (c, cur)
          ≡ returned (record c { euid = u }, cur'))
        × Agrees cur' (record c { euid = u })
  unfolding set_euid
  uid_step u c cur agrees real may =
      call_if_lem (not (u == cur.euid)) (set_euid k u) (λ s. record s { euid = u }) c
        (record c { euid = u }) cur agrees (λ _. (k.setresuid_allowed u c real may, ground arith))
        (λ t. ground (arith, agrees.euid))

  groups_step :
      (gs old : List ℕ) (c : Creds) (cur : UgidState)
      → Agrees cur c
      → old ≡ c.groups
      → length gs ≤ ngroups_max
      → (gs ≢ old → c.euid ≡ 0)
      → (cur' : UgidState) × (call_if
            (not (gs == old))
            (k.setgroups gs)
            (λ s. record s { groups = gs })
            (c, cur)
          ≡ returned (record c { groups = gs }, cur'))
        × Agrees cur' (record c { groups = gs })
  groups_step gs old c cur agrees kept few root =
      call_if_lem (not (gs == old)) (k.setgroups gs) (λ s. record s { groups = gs }) c
        (record c { groups = gs }) cur agrees
        (λ t. (k.setgroups_allowed gs c few (root (ground (arith, eq_iff gs old))), ground arith))
        (λ t. ground (arith, eq_iff gs old))

  -- The four steps in a row: where a switch does not go through root, all that it asks for is
  -- allowed without.
  change_creds_lem :
      (x : UgidCreds) (c : Creds) (cur : UgidState)
      → Agrees cur c
      → IsTarget x
      → c.suid ≡ 0
      → (cur' : UgidState) × (change_creds k x c cur ≡ returned (switched x c, cur'))
        × Agrees cur' (switched x c)
  unfolding change_creds
  change_creds_lem x c cur agrees target saved =
      let test =
        not (cur.euid == 0)
        && (not (x.uid == cur.ruid) || not (x.gid == cur.rgid) || not (x.groups == cur.groups)) in
      let c₁ : Creds = record c { euid = if test then 0 else c.euid } in
      let c₂ : Creds = record c₁ { egid = x.gid } in
      let c₃ : Creds = record c₂ { groups = x.groups } in
      let free = root_or_same x c cur agrees in
      let (cur₁, e₁, a₁) = root_step test c cur agrees saved in
      let (cur₂, e₂, a₂) =
        gid_step x.gid c₁ cur₁ a₁ target.gid
          (elim free [ inl z ↦ inl z | inr s ↦ inr (inl s.1) ]) in
      let (cur₃, e₃, a₃) =
        groups_step x.groups cur.groups c₂ cur₂ a₂ agrees.groups target.groups
          (λ ne. elim free [ inl z ↦ z | inr s ↦ absurd (ne s.2) ]) in
      let (cur₄, e₄, a₄) =
        uid_step x.uid c₃ cur₃ a₃ target.uid
          (elim free [ inl z ↦ inl z | inr s ↦ inr (inl s.0) ]) in
      (cur₄, rw (e₁, e₂, e₃) e₄, a₄)

  switched_same :
      (x : UgidCreds) (c : Creds)
      → x.uid ≡ c.euid
      → x.gid ≡ c.egid
      → x.groups ≡ c.groups
      → switched x c ≡ c
  switched_same x c u g gs = ground arith

  -- On a thread whose saved uid is 0, and whose record of its credentials agrees with the kernel,
  -- a switch to any ordinary target returns: it does not panic. Afterwards the kernel has exactly
  -- the target's effective uid, effective gid and groups, its real and saved ids are as before,
  -- the record agrees again, and the result is what the thread acted with before.
  pub thread_switch_ugid_lem :
      (x : UgidCreds) (t : Thread)
      → IsSynced t
      → IsTarget x
      → t.kernel.suid ≡ 0
      → (t' : Thread) × (thread_switch_ugid k x t ≡ returned (t', acting t.kernel))
        × IsSynced t'
        × (t'.kernel ≡ switched x t.kernel)
  unfolding thread_switch_ugid
  thread_switch_ugid_lem x t synced target saved =
      let (t₁, cur, e₁, agrees, same, synced') = with_current_lem k t synced in
      let (cur', e₂, agrees') = change_creds_lem x t.kernel cur agrees target saved in
      elim (Bool-cases
        (not (x.uid == cur.euid) || not (x.gid == cur.egid) || not (x.groups == cur.groups))) [
          | inl changed ↦
              let t' : Thread = record t₁ { current = some cur'; kernel = switched x t.kernel } in
              (
                t',
                rw (e₁, changed, same, e₂)
                    (ap (λ o. returned (t', o)) (acting_of_Agrees cur t.kernel agrees)),
                agrees',
                refl,
              )
          | inr unchanged ↦ (
            t₁,
            rw (e₁, unchanged) (ap (λ o. returned (t₁, o)) (acting_of_Agrees cur t.kernel agrees)),
            synced',
            same
                ∙ sym (
                    switched_same x t.kernel (ground arith) (ground arith)
                      (ground (arith, eq_iff x.groups cur.groups))),
          )
        ]
