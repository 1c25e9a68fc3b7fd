-- ===== src/Responses/Directory.antt =====
-- What the expansion of `~` accepts, and what it gives.
use webdav_server_rs.Prelude.{
  nat_eq, ◌≡◌, ◌↔◌, ◌⊎◌, refl, sym, ap, ◌∙◌, subst, nat_beq, nat_beq_iff, if◌then◌else◌, inl, inr,
  Bool, true, false, Bool-cases, Option-cases, not, Option, none, some, [], ◌∷◌, ◌++◌, Str, bytes,
  starts_with, from_utf8, ok, err, arith,
}
use webdav_server_rs.Http.{not_found}
use webdav_server_rs.Unixuser.{User}
use webdav_server_rs.Responses.{expand_directory}

module _ (pwd : Option User) where
  -- A tilde, alone or in front of a slash, that stands for the home directory of an account.
  pub record IsHome (dir d : Str) : Type 0 where
    pub rest : Str
    pub account : User
    pub home : Str
    pub tilde : dir ≡ b'~' ∷ rest
    pub slash : (rest ≡ []) ⊎ ((r : Str) × (rest ≡ b'/' ∷ r))
    pub known : pwd ≡ some account
    pub utf8 : from_utf8 account.dir ≡ some home
    pub joined : d ≡ home ++ b'/' ∷ rest

  abbrev pub Expands : (dir d : Str) → Type 0
  Expands dir d = ((starts_with dir (bytes "~") ≡ false) × (d ≡ dir)) ⊎ IsHome dir d

  is_slashed : Str → Bool
  is_slashed [] = true
  is_slashed (c ∷ _) = nat_beq c b'/'

  is_slashed_iff :
      (rest : Str) → (is_slashed rest ≡ true) ↔ ((rest ≡ []) ⊎ ((r : Str) × (rest ≡ b'/' ∷ r)))
  unfolding is_slashed
  is_slashed_iff [] = (λ _. inl refl, λ _. refl)
  is_slashed_iff (c ∷ r) =
      (λ h. inr (r, ap (λ x. x ∷ r) ((nat_beq_iff c b'/').0 h)), λ h. slash_of h)
    where
      slash_of : ((c ∷ r ≡ []) ⊎ ((r' : Str) × (c ∷ r ≡ b'/' ∷ r'))) → nat_beq c b'/' ≡ true
      slash_of (inl e) = ground arith
      slash_of (inr (r', e)) = ground (arith, nat_beq_iff c b'/')

  -- A tilde, by what follows it.
  expand_tilde :
      (rest : Str)
      → expand_directory (b'~' ∷ rest) pwd ≡ (
          if not (is_slashed rest) then err not_found else elim pwd [
            | none ↦ err not_found
            | some p ↦ elim (from_utf8 p.dir) [
              | none ↦ err not_found
              | some homedir ↦ ok (homedir ++ b'/' ∷ rest)
            ]
          ])
  unfolding expand_directory is_slashed
  expand_tilde [] = refl
  expand_tilde (c ∷ r) = ground arith

  IsHome-of_tilde :
      (rest d : Str) → expand_directory (b'~' ∷ rest) pwd ≡ ok d → IsHome (b'~' ∷ rest) d
  IsHome-of_tilde rest d e = elim (Bool-cases (is_slashed rest)) [
    | inr bad ↦ absurd (ground (arith, expand_tilde rest))
    | inl good ↦ elim (Option-cases pwd) [
      | inl nobody ↦ absurd (ground (arith, expand_tilde rest))
      | inr (p, known) ↦ elim (Option-cases (from_utf8 p.dir)) [
        | inl bad ↦ absurd (ground (arith, expand_tilde rest))
        | inr (home, utf8) ↦ record {
          rest = rest;
          account = p;
          home = home;
          tilde = refl;
          slash = (is_slashed_iff rest).0 good;
          known = known;
          utf8 = utf8;
          joined = ground (arith, expand_tilde rest);
        }
      ]
    ]
  ]

  expand_sound : (dir d : Str) → expand_directory dir pwd ≡ ok d → Expands dir d
  unfolding expand_directory
  expand_sound [] d e = inl (refl, ground arith)
  expand_sound (c ∷ rest) d e = elim (Bool-cases (nat_beq c b'~')) [
    | inr plain ↦ inl (ground arith, ground arith)
    | inl tilde ↦
        let same : c ≡ b'~' = (nat_beq_iff c b'~').0 tilde in
        inr (
          subst (λ x. IsHome (x ∷ rest) d) (sym same)
            (IsHome-of_tilde rest d (ap (λ x. expand_directory (x ∷ rest) pwd) (sym same) ∙ e)))
  ]

  expand_plain :
      (dir : Str) → starts_with dir (bytes "~") ≡ false → expand_directory dir pwd ≡ ok dir
  unfolding expand_directory
  expand_plain dir h = rw (expand_directory, h) refl

  expand_complete : (dir d : Str) → Expands dir d → expand_directory dir pwd ≡ ok d
  expand_complete dir d (inl (plain, same)) = expand_plain dir plain ∙ ap ok (sym same)
  expand_complete dir d (inr h) =
      ap (λ x. expand_directory x pwd) h.tilde
      ∙ expand_tilde h.rest
      ∙ ground (arith, is_slashed_iff h.rest, h.slash, h.known, h.utf8, h.joined)

-- A directory expands when it starts with no tilde, and then to itself, or when it is a tilde, alone
-- or in front of a slash, there is an account, and its home directory is UTF-8. The tilde then
-- stands for the home directory and a slash.
pub expand_directory_iff :
    (pwd : Option User) (dir d : Str) → (expand_directory dir pwd ≡ ok d) ↔ Expands pwd dir d
expand_directory_iff pwd dir d = (expand_sound pwd dir d, expand_complete pwd dir d)
