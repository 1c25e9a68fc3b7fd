-- ===== src/Server.antt =====
-- main.rs, `Server`: the route of a request, and its handling at one location.
pub mod Calls
pub mod Denied
pub mod Route
pub mod Trusted
mod Tests
use webdav_server_rs.Prelude.{
  nat_eq, str_eq, ℕ, ◌-◌, Bool, true, false, not, ◌&&◌, ◌||◌, Option, none, some, or, unwrap_or,
  is_some, is_none, List, [], ◌∷◌, ◌++◌, Str, bytes, starts_with, contains, drop, take, length,
  get_elem?, ltb, leb, from_utf8, ◌==◌, if◌then◌else◌, Result, ok, err, Outcome, returned, panicked,
  ◌>>=◌, unwrap,
}
use mathlib.Core.Option
use webdav_server_rs.Suid.{UgidCreds}
use webdav_server_rs.Config.{SocketAddr, Location, Config}
use webdav_server_rs.Config.Enums.{
  Auth, write, opportunistic, AcctType, CaseInsensitive, ms, Handler, virtroot, filesystem,
  OnNotfound, continue,
}
use webdav_server_rs.Http.{
  StatusCode, bad_request, unauthorized, forbidden, not_found, method_not_allowed, HttpRequest,
  HttpResponse, Environment, World, read_clock,
}
use webdav_server_rs.Unixuser.{User}
use webdav_server_rs.Cached.{unixuser}
use webdav_server_rs.Auth.{auth}
use webdav_server_rs.Router.{MatchedRoute, Router, matches}
use webdav_server_rs.Router.Regexes.{Match, RegexCrate}
use webdav_server_rs.Filesystem.{DavFileSystem, virtual_root, user_files, user_fs, root_fs}
use webdav_server_rs.Dav.{DavConfig, DavCall, DavCrate}
use webdav_server_rs.Responses.{
  expand_directory, clone_httpreq, set_server_header, auth_error, error,
}

-- What requests change: the caches and the clock, and the files, which stand in the calls that the
-- handler of the crate got.
pub record State (M : Type 0) : Type 0 where
  pub world : World
  pub calls : List (DavCall M)

-- The :user parameter, if it is there, must be UTF-8: `none` if it is not.
unfoldable pub user_param_of : Option Match → Option (Option Str)
user_param_of none = some none
user_param_of (some p) = elim (from_utf8 p.text) [ none ↦ none | some user ↦ some (some user) ]

-- The part of the path in front of :path, or all of it. A slice that is too long is a panic.
unfoldable pub prefix_of : Str → Option Match → Outcome Str
prefix_of path none = returned path
prefix_of path (some p) =
    let start = if ltb 0 p.start then p.start - 1 else p.start in
    if leb start (length path) then returned (take start path) else panicked

-- `CaseInsensitive` for a user agent, and the test for macOS.
unfoldable pub is_case_insensitive : Option CaseInsensitive → Str → Bool
is_case_insensitive none agent = false
is_case_insensitive (some CaseInsensitive.true) agent = true
is_case_insensitive (some ms) agent = contains agent (bytes "Microsoft")
is_case_insensitive (some CaseInsensitive.false) agent = false

unfoldable pub is_macos : Str → Bool
is_macos agent = contains agent (bytes "WebDAVFS/") && contains agent (bytes "Darwin")

-- The credentials that the file system switches to.
unfoldable pub auth_ugid : {M : Type 0} → Location M → Option User → Option UgidCreds
auth_ugid location pwd =
    if location.setuid
    then Option.map (λ p. record { uid = p.uid; gid = p.gid; groups = p.groups }) pwd
    else none

-- The file system of a location.
unfoldable pub filesystem_of :
    {M : Type 0}
    → Location M
    → Str
    → (auth_user : Option Str) → Option User
    → (agent : Str) → DavFileSystem
unfolding user_fs root_fs auth_ugid is_case_insensitive is_macos
filesystem_of location dir auth_user pwd agent = elim location.handler [
  | virtroot ↦ virtual_root (root_fs dir auth_user (auth_ugid location pwd))
  | filesystem ↦ user_files (
      user_fs dir (auth_ugid location pwd) true
        (is_case_insensitive location.case_insensitive agent) (is_macos agent))
]

module _ (env : Environment) (dav : DavCrate) (config : Config dav.MethodSet)
    (remote : SocketAddr) where
  open dav use {Method, MethodSet, from_uri, try_from, from_vec, webdav_ro, handle_with}

  -- The end of `acct`: the test on the uid.
  unfoldable pub check_uid : Result User ℕ → Result (Option User) StatusCode
  check_uid (err _) = err unauthorized
  check_uid (ok pwd) =
      if elim config.unix.min_uid [ some min_uid ↦ ltb pwd.uid min_uid | none ↦ false ]
      then err forbidden
      else ok (some pwd)

  -- `acct`
  unfoldable pub acct :
      Location MethodSet
      → (auth_user user_param : Option Str) → World
      → Outcome (World × Result (Option User) StatusCode)
  unfolding check_uid read_clock
  acct location auth_user user_param w = elim (or auth_user user_param) [
    | none ↦ returned (w, ok none)
    | some user ↦ elim (or location.accounts.acct_type config.accounts.acct_type) [
      | none ↦ returned (w, ok none)
      | some AcctType.unix ↦
          let (times, w') = read_clock env w in
          do
            (statics, r) ← unixuser env.db times user config.unix.aux_groups w'.statics
            returned (record w' { statics = statics }, check_uid r)
    ]
  ]

  -- `run_davhandler`
  unfoldable pub run_davhandler :
      DavConfig MethodSet → HttpRequest → State MethodSet → Outcome (State MethodSet × HttpResponse)
  run_davhandler dav_config req s =
      let call : DavCall MethodSet = record { config = dav_config; request = req } in
      let resp = handle_with s.calls call in
      do
        headers ← set_server_header env config resp.headers
        returned (record s { calls = s.calls ++ call ∷ [] }, record resp { headers = headers })

  -- The answer of an error, which changes nothing more.
  abbrev pub answer :
      State MethodSet → Outcome HttpResponse → Outcome (State MethodSet × HttpResponse)
  answer s r = do resp ← r; returned (s, resp)

  module _ (location : Location MethodSet) (path : Str) (req : HttpRequest) where
    -- `handle`, from the prefix on.
    unfoldable pub serve :
        Option Match
        → (auth_user : Option Str) → Option User
        → (dir : Str) → State MethodSet
        → Outcome (State MethodSet × HttpResponse)
    unfolding filesystem_of
    serve path_param auth_user pwd dir s = do
      prefix_bytes ← prefix_of path path_param
      elim (from_utf8 prefix_bytes) [
        | none ↦ answer s (error env config not_found)
        | some prefix ↦ (do
          let agent =
              unwrap_or (Option.bind (env.header req.headers (bytes "user-agent")) env.to_str) []
          default ← unwrap (from_vec (bytes "GET" ∷ bytes "HEAD" ∷ []))
          run_davhandler
              (record {
                filesystem = filesystem_of location dir auth_user pwd agent;
                prefix = prefix;
                methods = unwrap_or location.methods default;
                hide_symlinks = unwrap_or location.hide_symlinks true;
                autoindex = location.autoindex;
                principal = auth_user;
                indexfile = location.indexfile;
              })
              req s)
      ]

    -- `handle`, from the account on.
    unfoldable pub handle_as :
        (params : List (Option Match))
        → (user_param auth_user : Option Str) → State MethodSet
        → Outcome (State MethodSet × HttpResponse)
    unfolding expand_directory
    handle_as params user_param auth_user s = do
      (w, r) ← acct location auth_user user_param s.world
      let s' = record s { world = w }
      elim r [
        | err status ↦ answer s' (auth_error env config status location)
        | ok pwd ↦ elim (expand_directory location.directory pwd) [
          | err _ ↦ answer s' (error env config not_found)
          | ok dir ↦ (do
            path_param ← unwrap (get_elem? params 1)
            serve path_param auth_user pwd dir s')
        ]
      ]

    -- `do_auth`
    unfoldable pub do_auth : Method → Bool
    do_auth method =
        let has_auth = is_some (env.basic req.headers) in
        elim location.auth [
          | none ↦ has_auth
          | some Auth.true ↦ true
          | some write ↦ not (dav.contains webdav_ro method) || has_auth
          | some Auth.false ↦ false
          | some opportunistic ↦ has_auth
        ]

    -- `handle`
    unfoldable pub handle :
        Method
        → (params : List (Option Match)) → State MethodSet
        → Outcome (State MethodSet × HttpResponse)
    unfolding do_auth user_param_of
    handle method params s = do
      first ← unwrap (get_elem? params 0)
      elim (user_param_of first) [
        | none ↦ answer s (error env config not_found)
        | some user_param ↦
            if do_auth method
            then (do
              (w, r) ← auth env config req location remote s.world
              let s' = record s { world = w }
              elim r [
                | err status ↦ answer s' (auth_error env config status location)
                | ok user ↦
                    if unwrap_or (Option.map (λ u. not (u == user)) user_param) false
                    then answer s' (auth_error env config unauthorized location)
                    else handle_as params user_param (some user) s'
              ])
            else handle_as params user_param none s
      ]
