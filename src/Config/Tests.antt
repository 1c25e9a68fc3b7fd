-- ===== src/Config/Tests.antt =====
-- A configuration and its routes, and the theorems applied to them.
use webdav_server_rs.Prelude.{
  nat_eq, str_eq, ℕ, ◌≡◌, ◌↔◌, refl, true, none, some, List, [], Str, bytes, ok, returned,
  from_utf8, collect, chars,
}
use webdav_server_rs.Config.{check, deserialize_enum, deserialize_opt_enum, deserialize_authtype}
use webdav_server_rs.Config.Enums.{
  Auth, Handler, CaseInsensitive, OnNotfound, AcctType, AuthType, parse_auth, parse_handler,
  parse_case_insensitive, parse_on_notfound, parse_acct_type,
}
use webdav_server_rs.Config.Check.{IsUsable, check_iff}
use webdav_server_rs.Config.Parse.{
  auth_name, handler_name, case_name, on_notfound_name, acct_type_name, auth_type_name,
  deserialize_enums_iff, deserialize_authtype_iff,
}
use webdav_server_rs.Config.Routes.{build_routes}
use webdav_server_rs.Config.Routes.Expressions.{IsRouteOf, AllPairs, written, build_routes_lem}
use webdav_server_rs.Router.{Router, add, build}
use webdav_server_rs.Sample.{literal, config}

program : Unit {0}
unfolding build_routes add build from_utf8 collect chars
program = tt

check_iff_example : (check true config ≡ ok tt) ↔ IsUsable config
check_iff_example = check_iff config

deserialize_enums_iff_example :
    ((a : Auth)
      → (deserialize_opt_enum parse_auth (bytes "write") ≡ ok (some a))
        ↔ (bytes "write" ≡ auth_name a))
    × ((h : Handler)
        → (deserialize_enum parse_handler (bytes "write") ≡ ok h)
          ↔ (bytes "write" ≡ handler_name h))
    × ((c : CaseInsensitive)
        → (deserialize_opt_enum parse_case_insensitive (bytes "write") ≡ ok (some c))
          ↔ (bytes "write" ≡ case_name c))
    × ((n : OnNotfound)
        → (deserialize_opt_enum parse_on_notfound (bytes "write") ≡ ok (some n))
          ↔ (bytes "write" ≡ on_notfound_name n))
    × ((t : AcctType)
        → (deserialize_opt_enum parse_acct_type (bytes "write") ≡ ok (some t))
          ↔ (bytes "write" ≡ acct_type_name t))
deserialize_enums_iff_example = deserialize_enums_iff (bytes "write")

deserialize_authtype_iff_example :
    ((t : AuthType)
      → (deserialize_authtype (bytes "htpasswd.main") ≡ ok (some t))
        ↔ (bytes "htpasswd.main" ≡ auth_type_name t))
    × ((deserialize_authtype (bytes "htpasswd.main") ≡ ok none) ↔ (bytes "htpasswd.main" ≡ []))
deserialize_authtype_iff_example = deserialize_authtype_iff (bytes "htpasswd.main")

built :
    (router : Router literal (List Str) Str ℕ) × (build_routes literal (List Str) Str config
      ≡ returned (ok router))
unfolding program
built = (_, refl)

build_routes_lem_example :
    AllPairs (IsRouteOf literal (List Str) Str) (written 0 config.location) built.0.routes
build_routes_lem_example = build_routes_lem literal (List Str) Str config built.0 built.1
