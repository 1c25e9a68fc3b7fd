-- ===== src/Config/Parse.antt =====
-- The values that the deserialisers of the configuration accept.
use webdav_server_rs.Prelude.{
  ◌≡◌, ◌≢◌, ◌↔◌, refl, true, Option, none, some, [], ◌∷◌, ◌++◌, Str, str_eq, eq_iff, bytes,
  starts_with, drop, length, nat_beq_iff, ok, arith,
}
use webdav_server_rs.Config.Enums.{
  Handler, Auth, AuthType, AcctType, CaseInsensitive, OnNotfound, parse_handler, parse_auth,
  parse_acct_type, parse_case_insensitive, parse_on_notfound,
}
use webdav_server_rs.Config.{deserialize_authtype, deserialize_enum, deserialize_opt_enum}

-- How the values are written in the file.
abbrev pub auth_name : Auth → Str
auth_name Auth.false = bytes "false"
auth_name Auth.true = bytes "true"
auth_name Auth.opportunistic = bytes "opportunistic"
auth_name Auth.write = bytes "write"

abbrev pub handler_name : Handler → Str
handler_name Handler.virtroot = bytes "virtroot"
handler_name Handler.filesystem = bytes "filesystem"

abbrev pub case_name : CaseInsensitive → Str
case_name CaseInsensitive.true = bytes "true"
case_name CaseInsensitive.ms = bytes "ms"
case_name CaseInsensitive.false = bytes "false"

abbrev pub on_notfound_name : OnNotfound → Str
on_notfound_name OnNotfound.continue = bytes "continue"
on_notfound_name OnNotfound.return = bytes "return"

abbrev pub acct_type_name : AcctType → Str
acct_type_name AcctType.unix = bytes "unix"

abbrev pub auth_type_name : AuthType → Str
auth_type_name AuthType.pam = bytes "pam"
auth_type_name (AuthType.htpasswd section) = bytes "htpasswd." ++ section

auth_iff :
    (s : Str) (a : Auth) → (deserialize_opt_enum parse_auth s ≡ ok (some a)) ↔ (s ≡ auth_name a)
unfolding deserialize_opt_enum parse_auth
auth_iff s Auth.false = ground (
  arith,
  eq_iff s (bytes "false"),
  eq_iff s (bytes "true"),
  eq_iff s (bytes "opportunistic"),
  eq_iff s (bytes "write"),
)
auth_iff s Auth.true = ground (
  arith,
  eq_iff s (bytes "false"),
  eq_iff s (bytes "true"),
  eq_iff s (bytes "opportunistic"),
  eq_iff s (bytes "write"),
)
auth_iff s Auth.opportunistic = ground (
  arith,
  eq_iff s (bytes "false"),
  eq_iff s (bytes "true"),
  eq_iff s (bytes "opportunistic"),
  eq_iff s (bytes "write"),
)
auth_iff s Auth.write = ground (
  arith,
  eq_iff s (bytes "false"),
  eq_iff s (bytes "true"),
  eq_iff s (bytes "opportunistic"),
  eq_iff s (bytes "write"),
)

handler_iff :
    (s : Str) (a : Handler) → (deserialize_enum parse_handler s ≡ ok a) ↔ (s ≡ handler_name a)
unfolding deserialize_enum parse_handler
handler_iff s Handler.virtroot =
    ground (arith, eq_iff s (bytes "virtroot"), eq_iff s (bytes "filesystem"))
handler_iff s Handler.filesystem =
    ground (arith, eq_iff s (bytes "virtroot"), eq_iff s (bytes "filesystem"))

case_iff :
    (s : Str) (a : CaseInsensitive)
    → (deserialize_opt_enum parse_case_insensitive s ≡ ok (some a)) ↔ (s ≡ case_name a)
unfolding deserialize_opt_enum parse_case_insensitive
case_iff s CaseInsensitive.true =
    ground (arith, eq_iff s (bytes "true"), eq_iff s (bytes "ms"), eq_iff s (bytes "false"))
case_iff s CaseInsensitive.ms =
    ground (arith, eq_iff s (bytes "true"), eq_iff s (bytes "ms"), eq_iff s (bytes "false"))
case_iff s CaseInsensitive.false =
    ground (arith, eq_iff s (bytes "true"), eq_iff s (bytes "ms"), eq_iff s (bytes "false"))

on_notfound_iff :
    (s : Str) (a : OnNotfound)
    → (deserialize_opt_enum parse_on_notfound s ≡ ok (some a)) ↔ (s ≡ on_notfound_name a)
unfolding deserialize_opt_enum parse_on_notfound
on_notfound_iff s OnNotfound.continue =
    ground (arith, eq_iff s (bytes "continue"), eq_iff s (bytes "return"))
on_notfound_iff s OnNotfound.return =
    ground (arith, eq_iff s (bytes "continue"), eq_iff s (bytes "return"))

acct_type_iff :
    (s : Str) (a : AcctType)
    → (deserialize_opt_enum parse_acct_type s ≡ ok (some a)) ↔ (s ≡ acct_type_name a)
unfolding deserialize_opt_enum parse_acct_type
acct_type_iff s AcctType.unix = ground (arith, eq_iff s (bytes "unix"))

module _ (s : Str) where
  -- Each of the fields `auth`, `handler`, `case-insensitive`, `on_notfound` and `acct-type` gets
  -- a value exactly when the file has the name of that value.
  pub deserialize_enums_iff :
      ((a : Auth) → (deserialize_opt_enum parse_auth s ≡ ok (some a)) ↔ (s ≡ auth_name a))
      × ((h : Handler) → (deserialize_enum parse_handler s ≡ ok h) ↔ (s ≡ handler_name h))
      × ((c : CaseInsensitive)
          → (deserialize_opt_enum parse_case_insensitive s ≡ ok (some c)) ↔ (s ≡ case_name c))
      × ((n : OnNotfound)
          → (deserialize_opt_enum parse_on_notfound s ≡ ok (some n)) ↔ (s ≡ on_notfound_name n))
      × ((t : AcctType)
          → (deserialize_opt_enum parse_acct_type s ≡ ok (some t)) ↔ (s ≡ acct_type_name t))
  deserialize_enums_iff =
      (auth_iff s, handler_iff s, case_iff s, on_notfound_iff s, acct_type_iff s)

starts_with_iff : (s p : Str) → (starts_with s p ≡ true) ↔ (s ≡ p ++ drop (length p) s)
starts_with_iff s [] = (λ _. refl, λ _. refl)
starts_with_iff [] (x ∷ p) = ground arith
starts_with_iff (y ∷ s) (x ∷ p) = ground (arith, starts_with_iff s p, nat_beq_iff y x)

-- What follows the prefix of a text that starts with it.
starts_with-append : (p s : Str) → starts_with (p ++ s) p ≡ true
starts_with-append [] s = refl
starts_with-append (x ∷ p) s = ground (arith, starts_with-append p s)

authtype_iff :
    (s : Str) (t : AuthType) → (deserialize_authtype s ≡ ok (some t)) ↔ (s ≡ auth_type_name t)
unfolding deserialize_authtype
authtype_iff s AuthType.pam = ground (arith, eq_iff s (bytes "pam"), eq_iff s [])
authtype_iff s (AuthType.htpasswd n) = (
  λ e. ground (arith, starts_with_iff s (bytes "htpasswd."), eq_iff s (bytes "pam"), eq_iff s []),
  λ e. rw e refl,
)

-- `auth-type` is given as `pam`, as `htpasswd.` with the name of a section, or as the empty
-- string, which sets nothing; every other string is refused.
pub deserialize_authtype_iff :
    (s : Str)
    → ((t : AuthType) → (deserialize_authtype s ≡ ok (some t)) ↔ (s ≡ auth_type_name t))
      × ((deserialize_authtype s ≡ ok none) ↔ (s ≡ []))
unfolding deserialize_authtype
deserialize_authtype_iff s =
    ((λ t. authtype_iff s t), ground (arith, eq_iff s (bytes "pam"), eq_iff s []))

-- A value with the prefix `htaccess.` is refused, whatever section it names.
pub htaccess_refused :
    (n : Str) → (o : Option AuthType) → deserialize_authtype (bytes "htaccess." ++ n) ≢ ok o
unfolding deserialize_authtype
htaccess_refused n o = ground arith
