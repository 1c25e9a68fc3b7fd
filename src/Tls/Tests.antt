-- ===== src/Tls/Tests.antt =====
-- `tls_config` at concrete inputs.
use webdav_server_rs.Prelude.{
  nat_eq, str_eq, ℕ, ◌≡◌, ◌⊎◌, refl, none, some, [], ◌∷◌, Str, bytes, ◌==◌, if◌then◌else◌, Result,
  ok, err, returned,
}
use webdav_server_rs.Config.{many, Server}
use webdav_server_rs.Tls.{TlsCrate, TlsError, key_open, cert_open, key_count, tls_config}
use webdav_server_rs.Tls.Answers.{Explains, tls_config_lem}

-- A key file holds a key to each byte.
abbrev rustls : TlsCrate
rustls = record {
  PrivateKey = ℕ;
  Certificate = Str;
  ServerConfig = Str × ℕ;
  open_file = λ name. if name == bytes "nothing" then err 2 else ok name;
  rsa_private_keys = λ s. some s;
  certs = λ s. some (s ∷ []);
  single_cert = λ chain key. elim chain [ [] ↦ err (bytes "no certificate") | c ∷ _ ↦ ok (c, key) ];
}

abbrev server : Server
server = record {
  listen = many [];
  tls_listen = many [];
  tls_key = some (bytes "k");
  tls_cert = some (bytes "c");
  uid = none;
  gid = none;
  identification = none;
}

tls_config_one : tls_config rustls server ≡ returned (ok (bytes "c", b'k'))
unfolding tls_config
tls_config_one = refl

tls_config_two :
    tls_config rustls (record server { tls_key = some (bytes "kk") }) ≡ returned (err (key_count 2))
unfolding tls_config
tls_config_two = refl

tls_config_lem_example :
    ((e : ℕ) × (rustls.open_file (bytes "k") ≡ err e)
      × (tls_config rustls server ≡ returned (err (key_open e))))
    ⊎ (((e : ℕ) × (pkey : Str) × (rustls.open_file (bytes "k") ≡ ok pkey)
          × (rustls.open_file (bytes "c") ≡ err e)
          × (tls_config rustls server ≡ returned (err (cert_open e))))
        ⊎ ((pkey cert : Str) × (r : Result rustls.ServerConfig TlsError) × (rustls.open_file
                (bytes "k")
              ≡ ok pkey)
            × (rustls.open_file (bytes "c") ≡ ok cert)
            × (tls_config rustls server ≡ returned r)
            × Explains rustls pkey cert r))
tls_config_lem_example = tls_config_lem rustls server (bytes "k") (bytes "c") refl refl
