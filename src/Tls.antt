-- ===== src/Tls.antt =====
-- tls.rs: `tls_config`. The crate rustls and the files are parameters.
pub mod Answers
mod Tests
use webdav_server_rs.Prelude.{
  nat_eq, ℕ, Bool, not, Option, none, some, List, [], ◌∷◌, Str, length, ◌==◌, if◌then◌else◌, Result,
  ok, err, Outcome, returned, panicked, ◌>>=◌, unwrap,
}
use webdav_server_rs.Config
use webdav_server_rs.Config.{Server}

pub record TlsCrate : Type 1 where
  pub PrivateKey : Type 0
  pub Certificate : Type 0
  pub ServerConfig : Type 0
  -- `File::open`: the bytes, or the kind of the error
  pub open_file : Str → Result Str ℕ
  pub rsa_private_keys : Str → Option (List PrivateKey)
  pub certs : Str → Option (List Certificate)
  -- `ServerConfig::new(NoClientAuth::new())` with `set_single_cert`; the error is its text
  pub single_cert : List Certificate → PrivateKey → Result ServerConfig Str

-- The errors, by their messages.
pub data TlsError : Type 0 where
  key_not_set cert_not_set key_data cert_data : TlsError
  key_open cert_open : ℕ → TlsError
  key_count : ℕ → TlsError
  rejected : Str → TlsError

-- `Vec::pop`
abbrev pub pop {ℓ} : {A : Type ℓ} → List A → Option A
pop [] = none
pop (x ∷ []) = some x
pop (x ∷ y ∷ xs) = pop (y ∷ xs)

module _ (rustls : TlsCrate) where
  open rustls use {ServerConfig, open_file, rsa_private_keys, certs, single_cert}

  -- `tls_config`, from the opened files on.
  unfoldable pub config_of : Str → Str → Outcome (Result ServerConfig TlsError)
  config_of pkey_file cert_file = elim (rsa_private_keys pkey_file) [
    | none ↦ returned (err key_data)
    | some pkey ↦
        if not (length pkey == 1)
        then returned (err (key_count (length pkey)))
        else (elim (certs cert_file) [
          | none ↦ returned (err cert_data)
          | some cert ↦ (do
            key ← unwrap (pop pkey)
            returned (elim (single_cert cert key) [ ok c ↦ ok c | err e ↦ err (rejected e) ]))
        ])
  ]

  unfoldable pub tls_config : Server → Outcome (Result ServerConfig TlsError)
  unfolding config_of
  tls_config cfg = elim cfg.tls_key [
    | none ↦ returned (err key_not_set)
    | some pkey_fn ↦ elim cfg.tls_cert [
      | none ↦ returned (err cert_not_set)
      | some cert_fn ↦ elim (open_file pkey_fn) [
        | err e ↦ returned (err (key_open e))
        | ok pkey_file ↦ elim (open_file cert_fn) [
          | err e ↦ returned (err (cert_open e))
          | ok cert_file ↦ config_of pkey_file cert_file
        ]
      ]
    ]
  ]
