-- ===== src/Quota/Entry/Choice.antt =====
-- fs_quota/src/lib.rs: which entry of the mount table `get_mtab_entry` gives.
use webdav_server_rs.Prelude.{
  nat_eq, str_eq, ℕ, ◌≡◌, ◌≤◌, ◌∙◌, refl, sym, ap, subst, ◌⊎◌, inl, inr, true, Result-cases, List,
  [], ◌∷◌, In, here, there, length, Str, ok, returned, >>=-eq-returned, arith,
}
use webdav_server_rs.Quota.Data.{Mtab, System}
use webdav_server_rs.Quota.Table.{read_mtab}
use webdav_server_rs.Quota.Entry.{
  components, path_starts_with, realpath, eligible, choose, get_mtab_entry,
}
use webdav_server_rs.Quota.Entry.Nearest.{GivesCanonical, nearest_lem}
use webdav_server_rs.Quota.Entry.Sources.{
  IsOn, moved, In-eligible, In-of_eligible, In-of_resolved, In-resolved,
}

module _ (sys : System) where
  module _ (path : Str) (dev : ℕ) (ms : List Mtab) (m : Mtab) where
    -- It is the only entry on the device.
    abbrev pub IsOnly : Type 0
    IsOnly = In m ms × IsOn sys dev m × ((x : Mtab) → In x ms → IsOn sys dev x → x ≡ m)

    -- It is an entry on the device, at its real path, which holds the real path of `path`; and no
    -- other entry on the device whose real path holds it is deeper.
    pub record IsNearest : Type 0 where
      pub entry : Mtab
      pub real : Str
      pub place : Str
      pub listed : In entry ms
      pub on_device : IsOn sys dev entry
      pub real_path : realpath sys path ≡ ok real
      pub real_place : realpath sys entry.directory ≡ ok place
      pub result : m ≡ moved sys entry place
      pub holds : path_starts_with real (sys.lossy place) ≡ true
      pub deepest :
          (x : Mtab) (q : Str)
          → In x ms
          → IsOn sys dev x
          → realpath sys x.directory ≡ ok q
          → path_starts_with real (sys.lossy q) ≡ true
          → length (components (sys.lossy q)) ≤ length (components (sys.lossy place))

    of_choose :
        (es : List Mtab)
        → GivesCanonical sys
        → eligible sys dev ms ≡ es
        → choose sys path es ≡ ok m
        → IsOnly ⊎ IsNearest
    unfolding choose
    of_choose [] canonical same e = absurd (ground arith)
    of_choose (y ∷ []) canonical same e =
        let one : y ≡ m = ground arith in
        let (listed, on) = In-of_eligible sys dev ms m (subst (In m) (sym same) (here (sym one))) in
        inl (
          listed,
          on,
          λ x x-In x-on. elim (subst (In x) same (In-eligible sys dev ms x x-In x-on)) [
            | here first ↦ first ∙ one
            | there nowhere ↦ elim nowhere [ ]
          ],
        )
    of_choose (y ∷ z ∷ es) canonical same e =
        let (real, real_path, m-In, held, deepest) =
          nearest_lem sys path (y ∷ z ∷ es) m canonical e in
        let from = In-of_resolved sys (y ∷ z ∷ es) m m-In in
        let (listed, on) =
          In-of_eligible sys dev ms from.entry (subst (In from.entry) (sym same) from.found) in
        inr (record {
          entry = from.entry;
          real = real;
          place = from.place;
          listed = listed;
          on_device = on;
          real_path = real_path;
          real_place = from.real;
          result = from.result;
          holds = subst (λ (x : Mtab). path_starts_with real x.directory ≡ true) from.result held;
          deepest = λ x q x-In x-on x-real x-held.
              subst
                (λ (n : Mtab). length (components (sys.lossy q)) ≤ length (components n.directory))
                from.result
                (deepest (moved sys x q)
                  (In-resolved sys (y ∷ z ∷ es) x q
                    (subst (In x) same (In-eligible sys dev ms x x-In x-on)) x-real)
                  x-held);
        })

  -- An entry that `get_mtab_entry` gives for a path comes from the mount table, has a type that may
  -- have quotas, and its directory is on the path's device. Either it is the only such entry, or its
  -- directory is replaced by its real path, this holds the real path of the path, and none of these
  -- entries whose real path holds it is deeper. The real paths are canonical.
  pub get_mtab_entry_lem :
      (path : Str) (m : Mtab)
      → GivesCanonical sys
      → get_mtab_entry sys path ≡ returned (ok m)
      → (dev : ℕ) × (ms : List Mtab) × (sys.symlink_dev path ≡ ok dev)
        × (read_mtab sys ≡ returned (ok ms))
        × (IsOnly path dev ms m ⊎ IsNearest path dev ms m)
  unfolding get_mtab_entry
  get_mtab_entry_lem path m canonical e = elim (Result-cases (sys.symlink_dev path)) [
    | inr (k, bad) ↦ absurd (ground arith)
    | inl (dev, good) ↦
        let (ents, read, rest) =
          >>=-eq-returned (read_mtab sys) _ (rw (get_mtab_entry, good) at e) in
        elim (Result-cases ents) [
          | inr (k, bad) ↦ absurd (ground arith)
          | inl (ms, listed) ↦
              let chosen : choose sys path (eligible sys dev ms) ≡ ok m = ground arith in
              (
                dev,
                ms,
                good,
                read ∙ ap returned listed,
                of_choose path dev ms m (eligible sys dev ms) canonical refl chosen,
              )
        ]
  ]
