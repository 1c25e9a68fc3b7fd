-- ===== src/Server/Calls/Admission.antt =====
-- Which calls reach the handler of the crate webdav-handler, and as whom: all of `handle`.
use webdav_server_rs.Prelude.{
  nat_eq, str_eq, ◌≡◌, refl, inl, inr, true, false, Bool, false, ◌≢◌, ap, subst, is_some, from_utf8,
  Bool-cases, Option-cases, not, Option, none, some, unwrap_or, List, Str, get_elem?, ◌==◌, eq_iff,
  if◌then◌else◌, Result, ok, err, returned, >>=-eq-returned, unwrap, arith,
}
use mathlib.Core.Option
use webdav_server_rs.Config.{SocketAddr, Location, Config}
use webdav_server_rs.Http.{StatusCode, unauthorized, HttpRequest, HttpResponse, Environment, World}
use webdav_server_rs.Auth.{auth}
use webdav_server_rs.Auth.Trust.{auth_sound}
use webdav_server_rs.Config.Enums.{Auth, write, opportunistic}
use webdav_server_rs.Router.Regexes.{Match}
use webdav_server_rs.Dav.{DavCall, DavCrate}
use webdav_server_rs.Responses.{auth_error}
use webdav_server_rs.Server.{State, user_param_of, answer, handle_as, do_auth, handle}
use webdav_server_rs.Server.Calls.{Calls, Calls-map, IsAccounted, answer-Calls, handle_as-Calls}

false-ne-true : ◌≡◌ {A = Bool} false true → ⊥
false-ne-true e = ground arith

module _ (env : Environment) (dav : DavCrate) (config : Config dav.MethodSet) (remote : SocketAddr)
    (location : Location dav.MethodSet) where
  module _ (path : Str) (req : HttpRequest) where
    -- When a location wants a login: always, for a method that writes, or, unless it never looks,
    -- because the request has credentials.
    pub data NeedsLogin (method : dav.Method) : Type 0 where
      always : location.auth ≡ some Auth.true → NeedsLogin method
      to_write :
          location.auth ≡ some write → dav.contains dav.webdav_ro method ≡ false → NeedsLogin method
      offered :
          {given : Str × Str}
          → env.basic req.headers ≡ some given
          → location.auth ≢ some Auth.false
          → NeedsLogin method

    -- The :user of a request: there is none, or it is UTF-8.
    pub data IsUserParam (first : Option Match) : Option Str → Type 0 where
      absent : first ≡ none → IsUserParam first none
      decoded :
          {m : Match} {u : Str}
          → first ≡ some m
          → from_utf8 m.text ≡ some u
          → IsUserParam first (some u)

    -- A call behind a login: the login of the Authorization header was accepted in this state, a
    -- :user is its user, and the call is made for this user, whose account is looked up next.
    pub record IsLoggedIn (user_param : Option Str) (s : State dav.MethodSet)
        (call : DavCall dav.MethodSet) : Type 0 where
      pub user : Str
      pub pass : Str
      pub world : World
      pub given : env.basic req.headers ≡ some (user, pass)
      pub accepted : auth env config req location remote s.world ≡ returned (world, ok user)
      pub matches : (u : Str) → user_param ≡ some u → u ≡ user
      pub accounted :
          IsAccounted env dav config remote location path req world user_param (some user) call

    -- A call as it is admitted in a state: the :user is UTF-8, the call is behind a login if one is
    -- needed, and otherwise it is made for no user.
    pub record IsAdmitted (method : dav.Method) (params : List (Option Match))
        (s : State dav.MethodSet) (call : DavCall dav.MethodSet) : Type 0 where
      pub user_param : Option Str
      pub first : Option Match
      pub first_param : get_elem? params 0 ≡ some first
      pub decodes : IsUserParam first user_param
      pub authenticated : NeedsLogin method → IsLoggedIn user_param s call
      pub anonymous :
          ¬ NeedsLogin method
          → IsAccounted env dav config remote location path req s.world user_param none call

    is_offered :
        (method : dav.Method)
        → is_some (env.basic req.headers) ≡ true
        → location.auth ≢ some Auth.false
        → NeedsLogin method
    is_offered method has ne = elim (Option-cases (env.basic req.headers)) [
      | inr (given, there) ↦ offered there ne
      | inl nothing ↦ absurd (ground arith)
    ]

    do_auth-NeedsLogin :
        (method : dav.Method)
        → do_auth env dav config remote location path req method ≡ true
        → NeedsLogin method
    unfolding do_auth
    do_auth-NeedsLogin method h = go location.auth refl
      where
        go : (a : Option Auth) → location.auth ≡ a → NeedsLogin method
        go none set = is_offered method (rw (do_auth, set) at h) (λ e. ground arith)
        go (some Auth.true) set = always set
        go (some Auth.false) set = absurd (false-ne-true (rw (do_auth, set) at h))
        go (some opportunistic) set = is_offered method (rw (do_auth, set) at h) (λ e. ground arith)
        go (some write) set = elim (Bool-cases (dav.contains dav.webdav_ro method)) [
          | inr changes ↦ to_write set changes
          | inl reads ↦ is_offered method (rw (do_auth, set, reads) at h) (λ e. ground arith)
        ]

    do_auth_open :
        (method : dav.Method)
        → do_auth env dav config remote location path req method ≡ false
        → ¬ NeedsLogin method
    unfolding do_auth
    do_auth_open method h (always set) = ground arith
    do_auth_open method h (to_write set changes) = ground arith
    do_auth_open method h (offered given ne) = ground arith

    user_param_of-IsUserParam :
        (first : Option Match) (user_param : Option Str)
        → user_param_of first ≡ some user_param
        → IsUserParam first user_param
    unfolding user_param_of
    user_param_of-IsUserParam none user_param e =
        subst (IsUserParam none) (ap (λ o. unwrap_or o none) e) (absent refl)
    user_param_of-IsUserParam (some m) user_param e = elim (Option-cases (from_utf8 m.text)) [
      | inl bad ↦ absurd (ground arith)
      | inr (u, good) ↦
          let same : some u ≡ user_param = ground arith in
          subst (IsUserParam (some m)) same (decoded refl good)
    ]

    user_match :
        (user_param : Option Str) (user : Str)
        → unwrap_or (Option.map (λ u. not (u == user)) user_param) false ≡ false
        → (u : Str) → user_param ≡ some u
        → u ≡ user
    user_match none user e u h = ground arith
    user_match (some v) user e u h = ground (arith, eq_iff v user)

    login-Calls :
        (params : List (Option Match)) (user_param : Option Str) (s s' : State dav.MethodSet)
        (res : HttpResponse) (w : World) (r : Result Str StatusCode)
        → auth env config req location remote s.world ≡ returned (w, r)
        → elim r [
          | err status ↦
              answer env dav config remote
                (record s { world = w })
                (auth_error env config status location)
          | ok user ↦
              if unwrap_or (Option.map (λ u. not (u == user)) user_param) false
              then answer env dav config remote
                  (record s { world = w })
                  (auth_error env config unauthorized location)
              else handle_as env dav config remote location path req params user_param
                  (some user)
                  (record s { world = w })
        ]
          ≡ returned (s', res)
        → Calls (IsLoggedIn user_param s) s s'
    login-Calls params user_param s s' res w (err status) asked e =
        answer-Calls env dav config remote (IsLoggedIn user_param s) (record s { world = w }) s' _
          res e
    login-Calls params user_param s s' res w (ok user) asked e =
        elim (Bool-cases (unwrap_or (Option.map (λ u. not (u == user)) user_param) false)) [
          | inl differ ↦
              answer-Calls env dav config remote (IsLoggedIn user_param s) (record s { world = w })
                s' _ res (rw differ at e)
          | inr same ↦
              Calls-map
                (IsAccounted env dav config remote location path req w user_param (some user))
                (IsLoggedIn user_param s) s s'
                (λ call accounted. record {
                  user = user;
                  pass = (auth_sound env config req remote location s.world w user asked).0;
                  world = w;
                  given = (auth_sound env config req remote location s.world w user asked).1;
                  accepted = asked;
                  matches = user_match user_param user same;
                  accounted = accounted;
                })
                (handle_as-Calls env dav config remote location path req params user_param
                  (some user) (record s { world = w }) s' res (rw same at e))
        ]

    -- If `handle` returns, it has made no call to the handler of webdav-handler, or one call for the
    -- request, of which this holds. A :user is UTF-8. If the location's `auth` wants a login for this
    -- request, that of the Authorization header was accepted in the state of the start, the call has
    -- its user as the principal, and a :user is this user; if it wants none the call has no principal.
    -- An account was looked up next, for the user who logged in, or else for the :user. The directory
    -- of the file system is the location's with its tilde expanded for this account, and the file
    -- system switches to its ids if the location has `setuid`, and otherwise to none.
    pub handle-Calls :
        (method : dav.Method) (params : List (Option Match)) (s s' : State dav.MethodSet)
        (res : HttpResponse)
        → handle env dav config remote location path req method params s ≡ returned (s', res)
        → Calls (IsAdmitted method params s) s s'
    unfolding handle
    handle-Calls method params s s' res e =
        let (first, found, e₁) = >>=-eq-returned (unwrap (get_elem? params 0)) _ e in
        elim (Option-cases (user_param_of first)) [
          | inl bad ↦
              answer-Calls env dav config remote (IsAdmitted method params s) s s' _ res
                (rw bad at e₁)
          | inr (user_param, good) ↦
              elim (Bool-cases (do_auth env dav config remote location path req method)) [
                | inr open_to_all ↦
                    Calls-map
                      (IsAccounted env dav config remote location path req s.world user_param none)
                      (IsAdmitted method params s) s s'
                      (λ call accounted. record {
                        user_param = user_param;
                        first = first;
                        first_param = ground arith;
                        decodes = user_param_of-IsUserParam first user_param good;
                        authenticated = λ needs. absurd (do_auth_open method open_to_all needs);
                        anonymous = λ _. accounted;
                      })
                      (handle_as-Calls env dav config remote location path req params user_param
                        none s s' res (rw (good, open_to_all) at e₁))
                | inl locked ↦
                    let ((w, r), asked, e₂) =
                      >>=-eq-returned (auth env config req location remote s.world) _
                        (rw (good, locked) at e₁) in
                    Calls-map (IsLoggedIn user_param s) (IsAdmitted method params s) s s'
                      (λ call login. record {
                        user_param = user_param;
                        first = first;
                        first_param = ground arith;
                        decodes = user_param_of-IsUserParam first user_param good;
                        authenticated = λ _. login;
                        anonymous = λ closed. absurd (closed (do_auth-NeedsLogin method locked));
                      })
                      (login-Calls params user_param s s' res w r asked e₂)
              ]
        ]
