-- ===== src/Auth/Htpasswd.antt =====
-- Whom a htpasswd file lets in.
use webdav_server_rs.Prelude.{
  nat_eq, str_eq, ℕ, ◌≡◌, ◌↔◌, ◌⊎◌, refl, sym, ap, ◌∙◌, append-nil, subst, ◌≢◌, inl, inr, true,
  false, Bool-cases, Option-cases, not, ◌&&◌, Option, none, some, List, [], ◌∷◌, ◌++◌, map, In,
  here, there, In-map, In-of_map, In-filter, In-of_filter, Str, bytes, starts_with, split, trim,
  IsFree, IsFirst, split-free, split-append, split-inversion, ◌==◌, eq_iff, Result, ok, arith,
}
use webdav_server_rs.Auth.{find_section, lines_of, check_fields, check_lines, auth_htpasswd}
use webdav_server_rs.Config.{Config, HtPasswd}
use webdav_server_rs.Http.{StatusCode, Environment}

module _ (env : Environment) (user pass : Str) where
  -- A line that names the user, and a hash of the password. The user and the hash are free of `:`,
  -- and more fields may follow.
  pub record IsEntry (line : Str) : Type 0 where
    pub hash : Str
    pub more : Str
    pub written : line ≡ user ++ b':' ∷ (hash ++ more)
    pub user_free : IsFree b':' user
    pub hash_free : IsFree b':' hash
    pub fields : (more ≡ []) ⊎ ((r : Str) × (more ≡ b':' ∷ r))
    pub verified : env.verify pass hash ≡ true

  -- A line of the file, but for the white space around it, that is such an entry and no comment.
  pub record HasEntry (contents : Str) : Type 0 where
    pub line : Str
    pub listed : In line (split b'\n' contents)
    pub no_comment : starts_with (trim line) (bytes "#") ≡ false
    pub entry : IsEntry (trim line)

  accepts :
      (h : Str) (more : List Str)
      → env.verify pass h ≡ true
      → check_fields env user pass (user ∷ h ∷ more) ≡ true
  unfolding check_fields
  accepts h more v = ground (arith, eq_iff user user)

  fields_of_check :
      (fs : List Str)
      → check_fields env user pass fs ≡ true
      → (h : Str) × (more : List Str) × (fs ≡ user ∷ h ∷ more) × (env.verify pass h ≡ true)
  unfolding check_fields
  fields_of_check [] e = ground arith
  fields_of_check (u ∷ []) e = ground arith
  fields_of_check (u ∷ h ∷ more) e =
      let same : u ≡ user = ground (arith, eq_iff u user) in
      (h, more, ap (λ x. x ∷ h ∷ more) same, ground arith)

  -- The entry, from what stands behind the user.
  IsEntry_of_rest :
      (line rest h : Str) (more : List Str)
      → line ≡ user ++ b':' ∷ rest
      → IsFree b':' user
      → env.verify pass h ≡ true
      → IsFirst b':' rest h more
      → IsEntry line
  IsEntry_of_rest line rest h more e free ok_hash (hfree, inl (_, same)) = record {
    hash = h;
    more = [];
    written = e ∙ ap (λ x. user ++ b':' ∷ x) (same ∙ sym (append-nil h));
    user_free = free;
    hash_free = hfree;
    fields = inl refl;
    verified = ok_hash;
  }
  IsEntry_of_rest line rest h more e free ok_hash (hfree, inr (r, same, _)) = record {
    hash = h;
    more = b':' ∷ r;
    written = e ∙ ap (λ x. user ++ b':' ∷ x) same;
    user_free = free;
    hash_free = hfree;
    fields = inr (r, refl);
    verified = ok_hash;
  }

  IsEntry_of_first :
      (line h : Str) (more : List Str)
      → env.verify pass h ≡ true
      → IsFirst b':' line user (h ∷ more)
      → IsEntry line
  IsEntry_of_first line h more ok_hash (free, inl (none_left, _)) = ground arith
  IsEntry_of_first line h more ok_hash (free, inr (rest, e, parts)) =
      IsEntry_of_rest line rest h more e free ok_hash (split-inversion b':' rest h more parts)

  check_fields-IsEntry :
      (line : Str) → check_fields env user pass (split b':' line) ≡ true → IsEntry line
  check_fields-IsEntry line e =
      let (h, more, parts, ok_hash) = fields_of_check (split b':' line) e in
      IsEntry_of_first line h more ok_hash (split-inversion b':' line user (h ∷ more) parts)

  split_rest :
      (hash more : Str)
      → IsFree b':' hash
      → (more ≡ []) ⊎ ((r : Str) × (more ≡ b':' ∷ r))
      → (parts : List Str) × (split b':' (hash ++ more) ≡ hash ∷ parts)
  split_rest hash more free (inl e) =
      ([], ap (split b':') (ap (λ m. hash ++ m) e ∙ append-nil hash) ∙ split-free b':' hash free)
  split_rest hash more free (inr (r, e)) =
      (split b':' r, ap (λ m. split b':' (hash ++ m)) e ∙ split-append b':' hash r free)

  IsEntry-check_fields :
      (line : Str) → IsEntry line → check_fields env user pass (split b':' line) ≡ true
  IsEntry-check_fields line e =
      let (parts, later) = split_rest e.hash e.more e.hash_free e.fields in
      let whole : split b':' line ≡ user ∷ e.hash ∷ parts =
        ap (split b':') e.written
        ∙ split-append b':' user (e.hash ++ e.more) e.user_free
        ∙ ap (λ ps. user ∷ ps) later in
      ap (check_fields env user pass) whole ∙ accepts e.hash parts e.verified

  check_lines-ok :
      (ls : List Str) (u : Str)
      → check_lines env user pass ls ≡ ok u
      → (u ≡ user) × ((l : Str) × In l ls × (check_fields env user pass (split b':' l) ≡ true))
  unfolding check_lines
  check_lines-ok [] u e = ground arith
  check_lines-ok (l ∷ ls) u e = elim (Bool-cases (check_fields env user pass (split b':' l))) [
    | inl hit ↦ (ground arith, (l, here refl, hit))
    | inr miss ↦
        let (same, (k, found, h)) = check_lines-ok ls u (ground arith) in
        (same, (k, there found, h))
  ]

  ok_of_In :
      (ls : List Str) (l : Str)
      → In l ls
      → check_fields env user pass (split b':' l) ≡ true
      → check_lines env user pass ls ≡ ok user
  unfolding check_lines
  ok_of_In [] l m h = elim m [ ]
  ok_of_In (k ∷ ls) l (here e) h =
      rw (ap (λ s. check_fields env user pass (split b':' s)) (sym e) ∙ h) refl
  ok_of_In (k ∷ ls) l (there m) h = ground (arith, ok_of_In ls l m h)

  -- The lines that are looked at are the trimmed lines that are neither a comment nor empty.
  lines_of-HasEntry : (contents l : Str) → In l (lines_of contents) → IsEntry l → HasEntry contents
  unfolding lines_of
  lines_of-HasEntry contents l found entry =
      let (mapped, kept) =
        In-of_filter (λ s. not (starts_with s (bytes "#")) && not (s == []))
          (map trim (split b'\n' contents)) l found in
      let (raw, listed, same) = In-of_map trim (split b'\n' contents) l mapped in
      record {
        line = raw;
        listed = listed;
        no_comment = ap (λ s. starts_with s (bytes "#")) (sym same) ∙ ground arith;
        entry = subst IsEntry same entry;
      }

  append_cons-nonempty : (xs : Str) (c : ℕ) (ys : Str) → xs ++ c ∷ ys ≢ []
  append_cons-nonempty [] c ys e = ground arith
  append_cons-nonempty (x ∷ xs) c ys e = ground arith

  IsEntry-nonempty : (s : Str) → IsEntry s → s ≢ []
  IsEntry-nonempty s e gone =
      append_cons-nonempty user b':' (e.hash ++ e.more) (sym e.written ∙ gone)

  HasEntry-lines_of :
      (contents : Str) (h : HasEntry contents) → In (trim h.line) (lines_of contents)
  unfolding lines_of
  HasEntry-lines_of contents h =
      In-filter (λ s. not (starts_with s (bytes "#")) && not (s == []))
        (map trim (split b'\n' contents)) (In-map trim (split b'\n' contents) h.listed)
        (ground
          (arith, h.no_comment, eq_iff (trim h.line) [], IsEntry-nonempty (trim h.line) h.entry))

  module _ {S : Type 0} (config : Config S) (now : ℕ) (section : Str) where
    auth_htpasswd_inversion :
        (found : Option HtPasswd) (u : Str)
        → find_section section config.htpasswd ≡ found
        → auth_htpasswd env config now user pass section ≡ ok u
        → (sec : HtPasswd) × (contents : Str) × (found ≡ some sec)
          × (env.read_to_string now sec.htpasswd ≡ some contents)
          × (check_lines env user pass (lines_of contents) ≡ ok u)
    unfolding auth_htpasswd
    auth_htpasswd_inversion none u e h = ground arith
    auth_htpasswd_inversion (some sec) u e h =
        elim (Option-cases (env.read_to_string now sec.htpasswd)) [
          | inl missing ↦ ground arith
          | inr (contents, read) ↦ (sec, contents, refl, read, ground arith)
        ]

    auth_htpasswd_of :
        (sec : HtPasswd) (contents : Str) {r : Result Str StatusCode}
        → find_section section config.htpasswd ≡ some sec
        → env.read_to_string now sec.htpasswd ≡ some contents
        → check_lines env user pass (lines_of contents) ≡ r
        → auth_htpasswd env config now user pass section ≡ r
    unfolding auth_htpasswd
    auth_htpasswd_of sec contents found read h = ground arith

    -- A login with a htpasswd file is accepted just when the section is there, its file can be
    -- read, and the file has a line for the user with a hash of the password. The user that is
    -- returned is the one who asked.
    pub auth_htpasswd_iff :
        (u : Str)
        → auth_htpasswd env config now user pass section ≡ ok u
          ↔ (u ≡ user)
            × ((sec : HtPasswd) × (contents : Str) × (find_section section config.htpasswd
                  ≡ some sec)
                × (env.read_to_string now sec.htpasswd ≡ some contents)
                × HasEntry contents)
    auth_htpasswd_iff u = (
      λ h.
          let (sec, contents, found, read, run) =
            auth_htpasswd_inversion (find_section section config.htpasswd) u refl h in
          let (same, (l, listed, hit)) = check_lines-ok (lines_of contents) u run in
          (
            same,
            (
              sec,
              contents,
              found,
              read,
              lines_of-HasEntry contents l listed (check_fields-IsEntry l hit),
            ),
          ),
      λ h.
          let (same, (sec, contents, found, read, entry)) = h in
          auth_htpasswd_of sec contents found read (
            ok_of_In (lines_of contents) (trim entry.line) (HasEntry-lines_of contents entry)
              (IsEntry-check_fields (trim entry.line) entry.entry))
          ∙ ap ok (sym same),
    )
