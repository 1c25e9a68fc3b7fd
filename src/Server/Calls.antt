-- ===== src/Server/Calls.antt =====
-- Which calls reach the handler of the crate webdav-handler, and as whom: the part of `handle` behind the login.
pub mod Accounts
pub mod Admission
use webdav_server_rs.Prelude.{
  nat_eq, str_eq, ℕ, ◌≡◌, ◌≤◌, refl, sym, ap, ◌∙◌, subst, ◌⊎◌, inl, inr, Bool, true, false,
  Bool-cases, Option-cases, not, Option, none, some, or, unwrap_or, List, [], ◌∷◌, ◌++◌, Str, bytes,
  get_elem?, ◌==◌, eq_iff, from_utf8, if◌then◌else◌, Result, ok, err, Outcome, returned, panicked,
  ◌>>=◌, >>=-eq-returned, Result-cases, unwrap, arith,
}
use mathlib.Core.Option
use webdav_server_rs.Config.{SocketAddr, Location, Config}
use webdav_server_rs.Http.{
  StatusCode, unauthorized, not_found, HttpRequest, HttpResponse, Environment, World,
}
use webdav_server_rs.Unixuser.{User}
use webdav_server_rs.Auth.{auth}
use webdav_server_rs.Router.Regexes.{Match}
use webdav_server_rs.Filesystem.{UserFs, files_of, user_fs, root_fs}
use webdav_server_rs.Dav.{DavConfig, DavCall, DavCrate}
use webdav_server_rs.Responses.{expand_directory, set_server_header, auth_error, error}
use webdav_server_rs.Suid.{UgidCreds}
use webdav_server_rs.Responses.Directory.{Expands, expand_directory_iff}
use webdav_server_rs.Server.Calls.Accounts.{IsAccount, acct-IsAccount}
use webdav_server_rs.Server.{
  State, user_param_of, prefix_of, auth_ugid, filesystem_of, acct, run_davhandler, answer, serve,
  handle_as, do_auth, handle,
}

-- The ids that the file system of a location switches to: those of the account, if there is one and
-- if the location has `setuid`, and otherwise none.
pub record IsSwitch {M : Type 0} (location : Location M) (pwd : Option User)
    (switch : Option UgidCreds) : Type 0 where
  pub without_setuid : location.setuid ≡ false → switch ≡ none
  pub without_account : pwd ≡ none → switch ≡ none
  pub to_account :
      (p : User)
      → location.setuid ≡ true
      → pwd ≡ some p
      → switch ≡ some (record { uid = p.uid; gid = p.gid; groups = p.groups })

auth_ugid-IsSwitch :
    {M : Type 0} (location : Location M) (pwd : Option User)
    → IsSwitch location pwd (auth_ugid location pwd)
unfolding auth_ugid
auth_ugid-IsSwitch location pwd = record {
  without_setuid = λ h. rw h refl;
  without_account = λ h. ground arith;
  to_account = λ p h h'. rw (h, h') refl;
}

filesystem_of-files :
    {M : Type 0} (location : Location M) (dir : Str) (auth_user : Option Str) (pwd : Option User)
    (agent : Str)
    → ((files_of (filesystem_of location dir auth_user pwd agent)).basedir ≡ dir)
      × ((files_of (filesystem_of location dir auth_user pwd agent)).fs.dir ≡ dir)
      × ((files_of (filesystem_of location dir auth_user pwd agent)).fs.switch
          ≡ auth_ugid location pwd)
unfolding files_of filesystem_of user_fs root_fs
filesystem_of-files location dir auth_user pwd agent = ground arith

-- Either there is no new call, or there is one of which a predicate holds.
abbrev pub Calls : {M : Type 0} → (DavCall M → Type 0) → (s s' : State M) → Type 0
Calls {M} P s s' =
    (s'.calls ≡ s.calls) ⊎ ((call : DavCall M) × (s'.calls ≡ s.calls ++ call ∷ []) × P call)

pub Calls-map :
    {M : Type 0} (P Q : DavCall M → Type 0) (s s' : State M)
    → ((call : DavCall M) → P call → Q call)
    → Calls P s s'
    → Calls Q s s'
Calls-map P Q s s' f (inl none_made) = inl none_made
Calls-map P Q s s' f (inr (call, made, h)) = inr (call, made, f call h)

module _ (env : Environment) (dav : DavCrate) (config : Config dav.MethodSet)
    (remote : SocketAddr) where
  run_davhandler-calls :
      (c : DavConfig dav.MethodSet) (req : HttpRequest) (s s' : State dav.MethodSet)
      (res : HttpResponse)
      → run_davhandler env dav config remote c req s ≡ returned (s', res)
      → s'.calls ≡ s.calls ++ record { config = c; request = req } ∷ []
  unfolding run_davhandler
  run_davhandler-calls c req s s' res e =
      let call : DavCall dav.MethodSet = record { config = c; request = req } in
      let (hs, _, rest) =
        >>=-eq-returned (set_server_header env config (dav.handle_with s.calls call).headers) _ e in
      ap (λ r. elim r [ returned (t, _) ↦ t.calls | panicked ↦ [] ]) (sym rest)

  pub answer-Calls :
      (P : DavCall dav.MethodSet → Type 0) (s s' : State dav.MethodSet) (r : Outcome HttpResponse)
      (res : HttpResponse)
      → answer env dav config remote s r ≡ returned (s', res)
      → Calls P s s'
  answer-Calls P s s' r res e = let (resp, _, same) = >>=-eq-returned r _ e in inl (ground arith)

  module _ (location : Location dav.MethodSet) (path : Str) (req : HttpRequest) where
    -- A call for the request, with the principal and on the directory that it is served for. The
    -- file system switches to the account if the location wants it.
    pub record IsServed (auth_user : Option Str) (pwd : Option User) (dir : Str)
        (call : DavCall dav.MethodSet) : Type 0 where
      pub request : call.request ≡ req
      pub principal : call.config.principal ≡ auth_user
      pub basedir : (files_of call.config.filesystem).basedir ≡ dir
      pub files_dir : (files_of call.config.filesystem).fs.dir ≡ dir
      pub switch : IsSwitch location pwd (files_of call.config.filesystem).fs.switch

    serve-Calls :
        (path_param : Option Match) (auth_user : Option Str) (pwd : Option User) (dir : Str)
        (s s' : State dav.MethodSet) (res : HttpResponse)
        → serve env dav config remote location path req path_param auth_user pwd dir s
          ≡ returned (s', res)
        → Calls (IsServed auth_user pwd dir) s s'
    unfolding serve
    serve-Calls path_param auth_user pwd dir s s' res e =
        let (prefix_bytes, _, e₁) = >>=-eq-returned (prefix_of path path_param) _ e in
        elim (Option-cases (from_utf8 prefix_bytes)) [
          | inl bad ↦ answer-Calls (IsServed auth_user pwd dir) s s' _ res (rw bad at e₁)
          | inr (prefix, good) ↦
              let (default, _, e₂) =
                >>=-eq-returned (unwrap (dav.from_vec (bytes "GET" ∷ bytes "HEAD" ∷ []))) _
                  (rw good at e₁) in
              let agent =
                unwrap_or (Option.bind (env.header req.headers (bytes "user-agent")) env.to_str)
                  [] in
              let (same, same', same'') = filesystem_of-files location dir auth_user pwd agent in
              inr (
                _,
                run_davhandler-calls _ req s s' res e₂,
                record {
                  request = refl;
                  principal = refl;
                  basedir = same;
                  files_dir = same';
                  switch =
                      subst (IsSwitch location pwd) (sym same'') (auth_ugid-IsSwitch location pwd);
                },
              )
        ]

    -- The account and the directory that a call is made with, for a principal and a :user, where the
    -- account is looked up from a state of the world.
    pub record IsAccounted (before : World) (user_param auth_user : Option Str)
        (call : DavCall dav.MethodSet) : Type 0 where
      pub after : World
      pub pwd : Option User
      pub dir : Str
      pub looked_up :
          acct env dav config remote location auth_user user_param before ≡ returned (after, ok pwd)
      pub account :
          (p : User)
          → pwd ≡ some p
          → (user : Str) × ((auth_user ≡ some user)
              ⊎ ((auth_user ≡ none) × (user_param ≡ some user)))
            × IsAccount env dav config remote location before after user p
      pub expanded : Expands pwd location.directory dir
      pub served : IsServed auth_user pwd dir call

    handle_as_of :
        (params : List (Option Match)) (user_param auth_user : Option Str)
        (s s' : State dav.MethodSet) (res : HttpResponse) (w : World)
        (r : Result (Option User) StatusCode)
        → acct env dav config remote location auth_user user_param s.world ≡ returned (w, r)
        → elim r [
          | err status ↦
              answer env dav config remote
                (record s { world = w })
                (auth_error env config status location)
          | ok pwd ↦ elim (expand_directory location.directory pwd) [
            | err _ ↦
                answer env dav config remote (record s { world = w }) (error env config not_found)
            | ok dir ↦ unwrap (get_elem? params 1) >>= λ path_param.
                serve env dav config remote location path req path_param auth_user pwd dir
                  (record s { world = w })
          ]
        ]
          ≡ returned (s', res)
        → Calls (IsAccounted s.world user_param auth_user) s s'
    handle_as_of params user_param auth_user s s' res w (err status) asked e =
        answer-Calls (IsAccounted s.world user_param auth_user) (record s { world = w }) s' _ res e
    handle_as_of params user_param auth_user s s' res w (ok pwd) asked e =
        elim (Result-cases (expand_directory location.directory pwd)) [
          | inr (status, bad) ↦
              answer-Calls (IsAccounted s.world user_param auth_user) (record s { world = w }) s' _
                res (rw bad at e)
          | inl (dir, good) ↦
              let (path_param, _, e₁) =
                >>=-eq-returned (unwrap (get_elem? params 1)) _ (rw good at e) in
              Calls-map (IsServed auth_user pwd dir) (IsAccounted s.world user_param auth_user) s s'
                (λ call served. record {
                  after = w;
                  pwd = pwd;
                  dir = dir;
                  looked_up = asked;
                  account = λ p some_account.
                      acct-IsAccount env dav config remote location auth_user user_param s.world w p
                        (asked ∙ ap (λ o. returned (w, ok o)) some_account);
                  expanded = (expand_directory_iff pwd location.directory dir).0 good;
                  served = served;
                })
                (serve-Calls path_param auth_user pwd dir (record s { world = w }) s' res e₁)
        ]

    pub handle_as-Calls :
        (params : List (Option Match)) (user_param auth_user : Option Str)
        (s s' : State dav.MethodSet) (res : HttpResponse)
        → handle_as env dav config remote location path req params user_param auth_user s
          ≡ returned (s', res)
        → Calls (IsAccounted s.world user_param auth_user) s s'
    unfolding handle_as
    handle_as-Calls params user_param auth_user s s' res e =
        let ((w, r), asked, e₁) =
          >>=-eq-returned (acct env dav config remote location auth_user user_param s.world) _ e in
        handle_as_of params user_param auth_user s s' res w r asked e₁
