-- ===== src/Quota/Entry/Sources.antt =====
-- fs_quota/src/lib.rs: which entries of the mount table are on a device, and where they come from.
use webdav_server_rs.Prelude.{
  nat_eq, str_eq, ℕ, ◌≡◌, ◌∙◌, refl, ap, subst, inl, inr, true, false, not, Result-cases, List, [],
  ◌∷◌, In, In-filter, In-of_filter, here, there, filter, Str, ok, err, ◌==◌, eq_iff, arith,
}
use webdav_server_rs.Quota.Data.{other, fstype, fstype_eq, Mtab, System}
use webdav_server_rs.Quota.Entry.{realpath, eligible, resolved}

module _ (sys : System) where
  -- An entry with a type that may have quotas, whose directory is on a device.
  abbrev pub IsOn : ℕ → Mtab → Type 0
  IsOn dev e = (fstype_eq (fstype e.fstype) other ≡ false) × (sys.dev e.directory ≡ ok dev)

  on_device-cases :
      (dev : ℕ) (e : Mtab)
      → (elim (sys.dev e.directory) [ ok d ↦ d == dev | err _ ↦ false ]) ≡ true
      → sys.dev e.directory ≡ ok dev
  on_device-cases dev e h = elim (Result-cases (sys.dev e.directory)) [
    | inl (d, good) ↦
        let same : (d == dev) ≡ true = rw good at h in good ∙ ap ok ((eq_iff d dev).0 same)
    | inr (k, bad) ↦ absurd (ground arith)
  ]

  pub In-eligible :
      (dev : ℕ) (ms : List Mtab) (e : Mtab) → In e ms → IsOn dev e → In e (eligible sys dev ms)
  unfolding eligible
  In-eligible dev ms e m on =
      In-filter _ (filter (λ x. not (fstype_eq (fstype x.fstype) other)) ms)
        (In-filter _ ms m (rw on.0 refl)) (rw on.1 ((eq_iff dev dev).1 refl))

  pub In-of_eligible :
      (dev : ℕ) (ms : List Mtab) (e : Mtab) → In e (eligible sys dev ms) → In e ms × IsOn dev e
  unfolding eligible
  In-of_eligible dev ms e m =
      let (m₁, h) = In-of_filter _ (filter (λ x. not (fstype_eq (fstype x.fstype) other)) ms) e m in
      let (m₂, k) = In-of_filter _ ms e m₁ in (m₂, (ground arith, on_device-cases dev e h))

  -- An entry with its directory replaced by a real path.
  abbrev pub moved : Mtab → Str → Mtab
  moved e p = record e { directory = sys.lossy p }

  pub In-resolved :
      (es : List Mtab) (e : Mtab) (p : Str)
      → In e es
      → realpath sys e.directory ≡ ok p
      → In (moved e p) (resolved sys es)
  unfolding resolved
  In-resolved [] e p m real = elim m [ ]
  In-resolved (x ∷ xs) e p (here same) real =
      let real' : realpath sys x.directory ≡ ok p =
        subst (λ (y : Mtab). realpath sys y.directory ≡ ok p) same real in
      rw (resolved, real') (here (ap (λ y. moved y p) same))
  In-resolved (x ∷ xs) e p (there m) real = elim (Result-cases (realpath sys x.directory)) [
    | inl (q, good) ↦ rw (resolved, good) (there (In-resolved xs e p m real))
    | inr (k, bad) ↦ rw (resolved, bad) (In-resolved xs e p m real)
  ]

  -- Where an entry of the resolved ones comes from.
  pub record IsFrom (es : List Mtab) (m : Mtab) : Type 0 where
    pub entry : Mtab
    pub place : Str
    pub found : In entry es
    pub real : realpath sys entry.directory ≡ ok place
    pub result : m ≡ moved entry place

  IsFrom-there : {x : Mtab} {es : List Mtab} {m : Mtab} → IsFrom es m → IsFrom (x ∷ es) m
  IsFrom-there h = record {
    entry = h.entry;
    place = h.place;
    found = there h.found;
    real = h.real;
    result = h.result;
  }

  IsFrom-cons :
      {x : Mtab} {q : Str} {es rest : List Mtab} {m : Mtab}
      → realpath sys x.directory ≡ ok q
      → (In m rest → IsFrom es m)
      → In m (moved x q ∷ rest)
      → IsFrom (x ∷ es) m
  IsFrom-cons {x} {q} good from (here same) = record {
    entry = x;
    place = q;
    found = here refl;
    real = good;
    result = same;
  }
  IsFrom-cons good from (there i) = IsFrom-there (from i)

  resolved_ok :
      (x : Mtab) (es : List Mtab) (q : Str)
      → realpath sys x.directory ≡ ok q
      → resolved sys (x ∷ es) ≡ moved x q ∷ resolved sys es
  unfolding resolved
  resolved_ok x es q good = rw (resolved, good) refl

  resolved_err :
      (x : Mtab) (es : List Mtab) (k : ℕ)
      → realpath sys x.directory ≡ err k
      → resolved sys (x ∷ es) ≡ resolved sys es
  unfolding resolved
  resolved_err x es k bad = rw (resolved, bad) refl

  In-of_nil : (m : Mtab) → In m (resolved sys []) → In m []
  unfolding resolved
  In-of_nil m i = i

  pub In-of_resolved : (es : List Mtab) (m : Mtab) → In m (resolved sys es) → IsFrom es m
  In-of_resolved [] m i = elim (In-of_nil m i) [ ]
  In-of_resolved (x ∷ xs) m i = elim (Result-cases (realpath sys x.directory)) [
    | inl (q, good) ↦
        IsFrom-cons good (In-of_resolved xs m) (subst (In m) (resolved_ok x xs q good) i)
    | inr (k, bad) ↦ IsFrom-there (In-of_resolved xs m (subst (In m) (resolved_err x xs k bad) i))
  ]
