-- ===== src/Sample.antt =====
-- Concrete instances of the parameters, and a configuration, on which the tests run.
use webdav_server_rs.Prelude.{
  nat_eq, str_eq, ◌≡◌, refl, sym, ap, ◌∙◌, Bool, true, false, Option, none, some, List, [], ◌∷◌,
  ◌++◌, map, any, Str, bytes, starts_with, length, ◌==◌, if◌then◌else◌, arith,
}
use webdav_server_rs.Router.Regexes.{RegexCrate, positions}
use webdav_server_rs.Unixuser.{Passwd, Database}
use webdav_server_rs.Cached.{accepted, rejected, PamCrate, initial}
use webdav_server_rs.Config.{SocketAddr, one, many, Accounts, Location, Config}
use webdav_server_rs.Config.Enums.{filesystem, Auth, pam, AcctType, continue}
use webdav_server_rs.Http.{HttpRequest, Environment, World}
use webdav_server_rs.Dav.{DavCrate}

-- A crate regex for literal texts: an expression matches the path that it spells. The group `path`
-- is captured at the end of the path.
abbrev pub literal_matches : Str → Str → Bool
literal_matches r path = r == (bytes "^(?s)" ++ path ++ bytes "$")

map-id : {A : Type 0} (xs : List A) → map (λ x. x) xs ≡ xs
map-id [] = refl
map-id (x ∷ xs) = ap (◌∷◌ x) (map-id xs)

pub literal_set :
    (rs set : List Str) (path : Str)
    → some (map (λ r. r) rs) ≡ some set
    → positions (λ r. literal_matches r path) 0 set ≡ positions (λ r. literal_matches r path) 0 rs
literal_set rs set path e =
    let same : map (λ r. r) rs ≡ set = ground arith in
    ap (positions (λ r. literal_matches r path) 0) (sym same ∙ map-id rs)

abbrev pub literal : RegexCrate
literal = record {
  Regex = Str;
  RegexSet = List Str;
  Captures = Str;
  Error = Unit {0};
  escape = λ s. s;
  compile = λ s. some s;
  compile_error = λ _. tt;
  as_str = λ r. r;
  replace_all = λ _ s _. s;
  captures = λ r path. if literal_matches r path then some path else none;
  group = λ path name.
      if name == bytes "path"
      then some (record { start = length path; end = length path; text = [] })
      else none;
  compile_set = λ rs. some rs;
  set_matches = λ set path. positions (λ r. literal_matches r path) 0 set;
  is_match = literal_matches;
  set_matches_lem = literal_set;
}

abbrev pub mike : Str
mike = bytes "mike"

abbrev pub mike_passwd : Passwd
mike_passwd = record {
  pw_name = mike;
  pw_passwd = bytes "x";
  pw_gecos = [];
  pw_dir = bytes "/home/mike";
  pw_shell = bytes "/bin/sh";
  pw_uid = 1000;
  pw_gid = 100;
}

-- A database with one account, which is in the groups 100 and 27.
abbrev pub accounts : Database
accounts = record {
  getpwnam_r = λ name _. if name == mike then (0, some mike_passwd) else (0, none);
  getgrouplist = λ _ _ _. record { ret = some 2; ngroups = 2; buffer = 100 ∷ 27 ∷ [] };
  lossy = λ s. s;
}

-- PAM takes one password.
abbrev pub one_password : PamCrate
one_password = record {
  authenticate = λ now _ user pass.
      if user == mike
      then (if pass == bytes "secret" then accepted else rejected 7)
      else rejected 10;
  hash = λ l. length l.pass;
}

-- PAM that rejects every login.
abbrev pub no_password : PamCrate
no_password = record { authenticate = λ _ _ _ _. rejected 7; hash = λ l. length l.pass }

abbrev pub find_header : List (Str × Str) → Str → Option Str
find_header [] name = none
find_header ((k, v) ∷ rest) name = if k == name then some v else find_header rest name

-- The username and the password stand side by side in these headers.
abbrev pub find_basic : List (Str × Str) → Option (Str × Str)
find_basic [] = none
find_basic ((k, v) ∷ rest) = if k == bytes "authorization" then some (mike, v) else find_basic rest

abbrev pub environment : Environment
environment = record {
  clock = λ n. n;
  db = λ _. accounts;
  pam = one_password;
  read_to_string = λ _ path.
      if path == bytes "/etc/htpasswd" then some (bytes "# users\nmike:secret\n") else none;
  verify = λ pass hash. pass == hash;
  insert_header = λ hs k v. (k, v) ∷ hs;
  append_header = λ hs k v. hs ++ (k, v) ∷ [];
  is_header_value = λ _. true;
  header = find_header;
  to_str = λ s. some s;
  basic = find_basic;
  ip_to_string = λ _. bytes "10.0.0.1";
  canonical_reason = λ _. none;
  code_to_string = λ _. bytes "404";
}

-- A handler that finds nothing at its first call, and something later.
abbrev pub second_time : DavCrate
second_time = record {
  Method = Str;
  MethodSet = List Str;
  from_uri = λ uri. if starts_with uri (bytes "/") then some uri else none;
  try_from = λ m. some m;
  from_vec = λ ms. some ms;
  contains = λ ms m. any (λ x. x == m) ms;
  webdav_ro = bytes "GET" ∷ bytes "HEAD" ∷ [];
  handle_with = λ calls call. elim calls [
    | [] ↦ record { status = 404; headers = []; body = [] }
    | _ ∷ _ ↦ record { status = 200; headers = []; body = call.request.body }
  ];
}

abbrev pub no_accounts : Accounts
no_accounts = record { auth_type = none; acct_type = none; realm = none }

-- A location for the users' files, for which one has to log in, and one for everybody.
abbrev pub home : Location (List Str)
home = record {
  route = bytes "/x" ∷ [];
  methods = none;
  auth = some Auth.true;
  accounts = no_accounts;
  handler = filesystem;
  setuid = true;
  directory = bytes "~";
  hide_symlinks = none;
  indexfile = none;
  autoindex = false;
  case_insensitive = none;
  on_notfound = some continue;
}

abbrev pub files : Location (List Str)
files = record home {
  auth = some Auth.false;
  setuid = false;
  directory = bytes "/srv";
  on_notfound = none;
}

abbrev pub config : Config (List Str)
config = record {
  server = record {
    listen = one (record { ip = 0 ∷ 0 ∷ 0 ∷ 0 ∷ []; port = 80 });
    tls_listen = many [];
    tls_key = none;
    tls_cert = none;
    uid = some 33;
    gid = some 33;
    identification = none;
  };
  accounts = record { auth_type = some pam; acct_type = some AcctType.unix; realm = none };
  pam = record { service = bytes "other"; cache_timeout = some 120; threads = none };
  htpasswd = (bytes "main", record { htpasswd = bytes "/etc/htpasswd" }) ∷ [];
  unix = record { cache_timeout = none; min_uid = some 1000; aux_groups = true };
  location = home ∷ files ∷ [];
}

abbrev pub client : SocketAddr
client = record { ip = 10 ∷ 0 ∷ 0 ∷ 1 ∷ []; port = 4000 }

abbrev pub request : HttpRequest
request = record {
  method = bytes "GET";
  uri = bytes "/x";
  version = bytes "HTTP/1.1";
  headers = (bytes "authorization", bytes "secret") ∷ [];
  body = bytes "hello";
}

abbrev pub world : World
world = record { statics = initial; reads = 0 }
