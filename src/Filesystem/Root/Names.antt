-- ===== src/Filesystem/Root/Names.antt =====
-- The virtual root knows the names that it lists, and no other.
use webdav_server_rs.Prelude.{
  nat_eq, str_eq, ◌≡◌, ◌≢◌, refl, sym, ap, ◌∙◌, ◌⊎◌, inl, inr, false, Bool-cases, some, List, [],
  ◌∷◌, In, here, there, Str, bytes, ◌==◌, eq_iff, ok, err, returned, arith,
}
use webdav_server_rs.Filesystem.{RootFs}
use webdav_server_rs.Filesystem.Local.{LocalFsCrate}
use webdav_server_rs.Filesystem.Root.{
  RootFsDirEntry, metadata, metadata_of_root, read_dir, entry_name, entry_metadata,
}
use webdav_server_rs.Filesystem.User

module _ (c : LocalFsCrate) (root : c.DavPath) (at_root : c.path_of (bytes "/") ≡ some root) where
  metadata_of_root_lem :
      (r : RootFs) (disk : c.Disk)
      → metadata_of_root c r disk ≡ returned (User.metadata c r.fs root disk)
  unfolding metadata_of_root
  metadata_of_root_lem r disk = rw at_root refl

  -- The path of a name is that of the user, or it is not found.
  metadata_of_name :
      (r : RootFs) (disk : c.Disk) (path : c.DavPath) (name : Str)
      → c.as_bytes path ≡ b'/' ∷ name
      → name ≢ []
      → ((name ≡ r.user) × (metadata c r path disk ≡ returned (User.metadata c r.fs root disk)))
        ⊎ ((name ≢ r.user) × (metadata c r path disk ≡ returned (err c.not_found)))
  unfolding metadata
  metadata_of_name r disk path name spelt ne =
      let long : ((b'/' ∷ name) == bytes "/") ≡ false = ground (arith, eq_iff name []) in
      elim (Bool-cases (name == r.user)) [
        | inl same ↦
            inl ((eq_iff name r.user).0 same, rw (metadata, spelt, long, same, at_root) refl)
        | inr other ↦
            inr (λ e. ground (arith, eq_iff name r.user), rw (metadata, spelt, long, other) refl)
      ]

  -- Of a name below the root: either the listing of the root has an entry with the name, and then
  -- the metadata of its path are those of the entry; or it has none, and then its path is not found.
  pub listed_lem :
      (r : RootFs) (wanted : c.Wanted) (disk : c.Disk) (path : c.DavPath) (name : Str)
      → c.as_bytes path ≡ b'/' ∷ name
      → name ≢ []
      → (entries : List (RootFsDirEntry c)) × (read_dir c r root wanted disk ≡ ok entries)
        × (((e : RootFsDirEntry c) × In e entries
              × (entry_name c e ≡ name)
              × (metadata c r path disk ≡ returned (entry_metadata c e)))
            ⊎ (((e : RootFsDirEntry c) → In e entries → entry_name c e ≢ name)
                × (metadata c r path disk ≡ returned (err c.not_found))))
  unfolding read_dir entry_name entry_metadata
  listed_lem r wanted disk path name spelt ne =
      let entry : RootFsDirEntry c = record {
        name = r.user;
        meta = User.metadata c r.fs root disk;
      } in
      elim (Bool-cases (r.user == [])) [
        | inl nobody ↦ (
          [],
          rw (read_dir, nobody) refl,
          inr (
            λ e i. elim i [ ],
            elim (metadata_of_name r disk path name spelt ne) [
              | inl (own, _) ↦ absurd (ne (own ∙ (eq_iff r.user []).0 nobody))
              | inr (_, missing) ↦ missing
            ],
          ),
        )
        | inr somebody ↦ (
          entry ∷ [],
          rw (read_dir, somebody) refl,
          elim (metadata_of_name r disk path name spelt ne) [
            | inl (own, found) ↦ inl (entry, here refl, sym own, found)
            | inr (other, missing) ↦ inr (
              λ e i same. elim i [
                | here is ↦ other (sym same ∙ ap (entry_name c) is)
                | there nowhere ↦ elim nowhere [ ]
              ],
              missing,
            )
          ],
        )
      ]
