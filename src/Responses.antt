-- ===== src/Responses.antt =====
-- main.rs: the parts of `Server` that make requests and responses, and the expansion of `~`.
pub mod Directory
pub mod Errors
mod Tests
use webdav_server_rs.Prelude.{
  nat_eq, str_eq, ℕ, Bool, true, false, not, ◌&&◌, Option, none, some, or, unwrap_or, List, [], ◌∷◌,
  ◌++◌, Str, bytes, starts_with, drop, length, ltb, from_utf8, ◌==◌, if◌then◌else◌, Result, ok, err,
  Outcome, returned, panicked,
}
use mathlib.Core.Option
use webdav_server_rs.Config.{Location, Config}
use webdav_server_rs.Http.{
  StatusCode, unauthorized, not_found, HttpRequest, HttpResponse, Environment,
}
use webdav_server_rs.Unixuser.{User}

-- `expand_directory`
unfoldable pub expand_directory : Str → Option User → Result Str StatusCode
expand_directory dir pwd =
    if not (starts_with dir (bytes "~"))
    then ok dir
    else if ltb 1 (length dir) && not (starts_with dir (bytes "~/"))
    then err not_found
    else elim pwd [
      | none ↦ err not_found
      | some p ↦ elim (from_utf8 p.dir) [
        | none ↦ err not_found
        | some homedir ↦ ok (homedir ++ (bytes "/" ++ drop 1 dir))
      ]
    ]

-- `clone_httpreq`: the request with an empty body.
unfoldable pub clone_httpreq : HttpRequest → HttpRequest
clone_httpreq req = record req { body = [] }

module _ (env : Environment) {S : Type 0} (config : Config S) where
  -- The value of the Server header.
  unfoldable pub identification : Str
  identification = unwrap_or config.server.identification (bytes "webdav-server-rs")

  -- `Builder::header` on a builder that no header has spoilt, which is `none` otherwise.
  unfoldable pub add_header : Str → Str → Option (List (Str × Str)) → Option (List (Str × Str))
  add_header name value headers = elim headers [
    | none ↦ none
    | some hs ↦ if env.is_header_value value then some (env.append_header hs name value) else none
  ]

  -- `response_builder`
  unfoldable pub response_builder : Option (List (Str × Str))
  unfolding identification add_header
  response_builder =
      if not (identification == [])
      then add_header (bytes "server") identification (some [])
      else some []

  -- `set_server_header`; a value that does not parse is a panic.
  unfoldable pub set_server_header : List (Str × Str) → Outcome (List (Str × Str))
  unfolding identification
  set_server_header headers =
      if not (identification == [])
      then (if env.is_header_value identification
          then returned (env.insert_header headers (bytes "server") identification)
          else panicked)
      else returned headers

  -- The text of the WWW-Authenticate header.
  unfoldable pub challenge : Option (Location S) → Str
  challenge location =
      let realm = or (Option.bind location (λ l. l.accounts.realm)) config.accounts.realm in
      bytes "Basic realm=\"" ++ unwrap_or realm (bytes "Webdav Server") ++ bytes "\""

  unfoldable pub error_message : StatusCode → Str
  error_message code =
      bytes "<error>"
      ++ env.code_to_string code
      ++ bytes " "
      ++ unwrap_or (env.canonical_reason code) []
      ++ bytes "</error>\n"

  -- `build_error`
  unfoldable pub build_error : StatusCode → Option (Location S) → Outcome HttpResponse
  unfolding response_builder add_header challenge error_message
  build_error code location =
      let response = add_header (bytes "content-type") (bytes "text/xml") response_builder in
      let response' =
        if code == unauthorized
        then add_header (bytes "www-authenticate") (challenge location) response
        else response in
      elim response' [
        | none ↦ panicked
        | some headers ↦
            returned (record { status = code; headers = headers; body = error_message code })
      ]

  -- `auth_error`
  unfoldable pub auth_error : StatusCode → Location S → Outcome HttpResponse
  auth_error code location = build_error code (some location)

  -- `error`
  unfoldable pub error : StatusCode → Outcome HttpResponse
  error code = build_error code none
