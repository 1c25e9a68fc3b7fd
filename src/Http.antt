-- ===== src/Http.antt =====
-- Requests and responses, and what the server asks of the crates http, headers and pwhash, of the
-- file system, the clock, PAM and the account database: parameters.
use webdav_server_rs.Prelude.{
  nat_eq, ℕ, suc, Bool, false, ◌&&◌, Option, List, [], ◌∷◌, Str, ◌==◌, length, if◌then◌else◌,
}
use webdav_server_rs.Cached.{PamCrate, Statics, Times}
use webdav_server_rs.Unixuser.{Database}

-- `StatusCode`
abbrev pub StatusCode : Type 0
StatusCode = ℕ

abbrev pub bad_request : StatusCode
bad_request = 400

abbrev pub unauthorized : StatusCode
unauthorized = 401

abbrev pub forbidden : StatusCode
forbidden = 403

abbrev pub not_found : StatusCode
not_found = 404

abbrev pub method_not_allowed : StatusCode
method_not_allowed = 405

-- Names of headers are in lower case, as the crate http keeps them.
pub record HttpRequest : Type 0 where
  pub method : Str
  pub uri : Str
  pub version : Str
  pub headers : List (Str × Str)
  pub body : Str

pub record HttpResponse : Type 0 where
  pub status : StatusCode
  pub headers : List (Str × Str)
  pub body : Str

pub record Environment : Type 0 where
  -- The readings of the clock, by their number.
  pub clock : ℕ → ℕ
  pub db : ℕ → Database
  pub pam : PamCrate
  -- `std::fs::read_to_string`: `none` for an error. Files may change with time.
  pub read_to_string : ℕ → Str → Option Str
  -- `pwhash::unix::verify`
  pub verify : Str → Str → Bool
  -- `HeaderMap::get`, and `HeaderValue::to_str`
  pub header : List (Str × Str) → Str → Option Str
  pub to_str : Str → Option Str
  -- `typed_get::<Authorization<Basic>>()`: the username and the password
  pub basic : List (Str × Str) → Option (Str × Str)
  -- The text of an IP address.
  pub ip_to_string : List ℕ → Str
  -- `HeaderMap::insert` and `append`; a text need not be the value of a header.
  pub insert_header : List (Str × Str) → Str → Str → List (Str × Str)
  pub append_header : List (Str × Str) → Str → Str → List (Str × Str)
  pub is_header_value : Str → Bool
  -- `StatusCode::canonical_reason`, and the decimal digits of a code
  pub canonical_reason : StatusCode → Option Str
  pub code_to_string : StatusCode → Str

-- What the requests change: the statics of the module `cached`, and the number of the next reading
-- of the clock.
pub record World : Type 0 where
  pub statics : Statics
  pub reads : ℕ

-- The next four readings of the clock.
unfoldable pub read_clock : Environment → World → Times × World
read_clock env w =
    let n = w.reads in
    (
      record {
        lookup = env.clock n;
        answer = env.clock (suc n);
        expiry = env.clock (suc (suc n));
        stamp = env.clock (suc (suc (suc n)));
      },
      record w { reads = suc (suc (suc (suc n))) },
    )

is_v4_loopback : List ℕ → Bool
is_v4_loopback [] = false
is_v4_loopback (b ∷ _) = b == 127

-- Bytes that are all zero but for the last, which is one.
is_one : List ℕ → Bool
is_one [] = false
is_one (b ∷ []) = b == 1
is_one (b ∷ c ∷ bs) = b == 0 && is_one (c ∷ bs)

-- `IpAddr::is_loopback`: 127.0.0.0/8 and ::1
unfoldable pub is_loopback : List ℕ → Bool
unfolding is_one is_v4_loopback
is_loopback ip = if length ip == 4 then is_v4_loopback ip else is_one ip
