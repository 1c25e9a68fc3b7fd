-- ===== src/Filesystem/Quotas.antt =====
-- userfs.rs: `UserFs::get_quota`, with its cache `QCACHE`. It is compiled with the feature quota.
pub mod Keys
pub mod Measured
use webdav_server_rs.Prelude.{
  nat_eq, str_eq, ℕ, ◌+◌, ◌*◌, Bool, true, false, not, ◌&&◌, ◌||◌, Option, none, some, List, [],
  ◌∷◌, ◌++◌, Eq, Str, str_beq, str_beq_iff, starts_with, bytes, to_string, ◌==◌, ◌≡◌, ◌↔◌, arith,
  if◌then◌else◌, Result, ok, err, Outcome, returned, panicked, ◌>>=◌,
}
use webdav_server_rs.Cache
use webdav_server_rs.Cache.{Intern, nanos_per_sec}
use webdav_server_rs.Cached.{Times}
use webdav_server_rs.Filesystem.{UserFs}
use webdav_server_rs.Filesystem.Local.{LocalFsCrate}
use webdav_server_rs.Quota.{check}
use webdav_server_rs.Quota.Data.{FsQuota, System}
use webdav_server_rs.Quota.Entry.{components}

-- A `PathBuf` as a key of the cache: two of them are equal if their components are.
abbrev pub Key : Type 0
Key = List Str

abbrev pub key_beq : Key → Key → Bool
key_beq [] [] = true
key_beq [] (_ ∷ _) = false
key_beq (_ ∷ _) [] = false
key_beq (a ∷ as') (b ∷ bs) = str_beq a b && key_beq as' bs

pub key_beq_iff : (a b : Key) → (key_beq a b ≡ true) ↔ (a ≡ b)
key_beq_iff [] [] = ground arith
key_beq_iff [] (_ ∷ _) = ground arith
key_beq_iff (_ ∷ _) [] = ground arith
key_beq_iff (a ∷ as') (b ∷ bs) = ground (arith, str_beq_iff a b, key_beq_iff as' bs)

instance abbrev pub key_eq : Eq Key
key_eq = record { test = key_beq; test_iff = key_beq_iff }

abbrev pub ends_with_slash : Str → Bool
ends_with_slash [] = false
ends_with_slash (x ∷ []) = x == b'/'
ends_with_slash (x ∷ y ∷ s) = ends_with_slash (y ∷ s)

-- `PathBuf::push`
unfoldable pub pushed : Str → Str → Str
pushed base s =
    if starts_with s (bytes "/")
    then s
    else if base == [] || ends_with_slash base
    then base ++ s
    else base ++ (b'/' ∷ s)

-- The key of a directory and a uid.
unfoldable pub key_of : Str → ℕ → Key
unfolding pushed to_string components
key_of basedir uid = components (pushed basedir (to_string uid))

abbrev pub QuotaCache : Type 0
QuotaCache = Intern Key FsQuota

-- `QCACHE`, at its first use.
unfoldable pub qcache : QuotaCache
unfolding Cache.new Cache.with_maxage
qcache = Cache.with_maxage (30 * nanos_per_sec) Cache.new

-- The operating system may change with time.
module _ (c : LocalFsCrate) (sys : ℕ → System) where
  -- The closure that is given to `blocking`.
  unfoldable pub measure : ℕ → UserFs → Outcome (Result FsQuota c.FsError)
  unfolding check
  measure now u = do
    r ← check (sys now) u.basedir (some u.uid)
    returned (elim r [ ok q ↦ ok q | err _ ↦ err c.general_failure ])

  -- `UserFs::get_quota`: the bytes that are used, and the limit.
  unfoldable pub get_quota :
      Times → UserFs → QuotaCache → Outcome (QuotaCache × Result (ℕ × Option ℕ) c.FsError)
  unfolding key_of measure
  get_quota t u qc =
      let key = key_of u.basedir u.uid in
      do
        (qc', hit) ← Cache.get t.lookup key qc
        elim hit [
          | some r ↦ returned (qc', ok (r.bytes_used, r.bytes_limit))
          | none ↦ (do
            r ← c.blocking u.fs (λ _. measure t.answer u)
            elim r [
              | err e ↦ returned (qc', err e)
              | ok q ↦ (do
                (qc'', r') ← Cache.insert t.expiry t.stamp key q qc'
                returned (qc'', ok (r'.bytes_used, r'.bytes_limit)))
            ])
        ]
