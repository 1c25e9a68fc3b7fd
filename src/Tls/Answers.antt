-- ===== src/Tls/Answers.antt =====
-- What `tls_config` answers, once the key and the certificates are set.
use webdav_server_rs.Prelude.{
  nat_eq, ℕ, ◌≡◌, ◌≢◌, refl, ap, ◌∙◌, ◌⊎◌, inl, inr, true, Bool-cases, Option-cases, Result-cases,
  none, some, List, [], ◌∷◌, Str, length, ◌==◌, Result, ok, err, returned, arith,
}
use webdav_server_rs.Config.{Server}
use webdav_server_rs.Tls.{
  TlsCrate, TlsError, key_not_set, cert_not_set, key_data, cert_data, key_open, cert_open,
  key_count, rejected, config_of, tls_config,
}

module _ (rustls : TlsCrate) where
  -- What an answer says of the two files: that rustls takes the only key of the one and the
  -- certificates of the other, or what is wrong with them.
  abbrev pub Explains : Str → Str → Result rustls.ServerConfig TlsError → Type 0
  Explains pkey cert (ok c) =
      (key : rustls.PrivateKey) × (chain : List rustls.Certificate) × (rustls.rsa_private_keys pkey
        ≡ some (key ∷ []))
      × (rustls.certs cert ≡ some chain)
      × (rustls.single_cert chain key ≡ ok c)
  Explains pkey cert (err (rejected text)) =
      (key : rustls.PrivateKey) × (chain : List rustls.Certificate) × (rustls.rsa_private_keys pkey
        ≡ some (key ∷ []))
      × (rustls.certs cert ≡ some chain)
      × (rustls.single_cert chain key ≡ err text)
  Explains pkey cert (err key_data) = rustls.rsa_private_keys pkey ≡ none
  Explains pkey cert (err (key_count n)) =
      (keys : List rustls.PrivateKey) × (rustls.rsa_private_keys pkey ≡ some keys)
      × (length keys ≡ n)
      × (n ≢ 1)
  Explains pkey cert (err cert_data) = rustls.certs cert ≡ none
  Explains pkey cert (err key_not_set) = ⊥
  Explains pkey cert (err cert_not_set) = ⊥
  Explains pkey cert (err (key_open e)) = ⊥
  Explains pkey cert (err (cert_open e)) = ⊥

  one_key :
      (xs : List rustls.PrivateKey)
      → (length xs == 1) ≡ true
      → (x : rustls.PrivateKey) × (xs ≡ x ∷ [])
  one_key [] e = absurd (ground arith)
  one_key (x ∷ []) e = (x, refl)
  one_key (x ∷ y ∷ xs) e = absurd (ground arith)

  -- The answer from a key and certificates.
  answer_of : Result rustls.ServerConfig Str → Result rustls.ServerConfig TlsError
  answer_of (ok c) = ok c
  answer_of (err text) = err (rejected text)

  config_of_one :
      (pkey cert : Str) (key : rustls.PrivateKey) (chain : List rustls.Certificate)
      (r : Result rustls.ServerConfig Str)
      → rustls.rsa_private_keys pkey ≡ some (key ∷ [])
      → rustls.certs cert ≡ some chain
      → rustls.single_cert chain key ≡ r
      → config_of rustls pkey cert ≡ returned (answer_of r)
  unfolding config_of answer_of
  config_of_one pkey cert key chain (ok c) parsed read taken =
      rw (config_of, parsed, read, taken) refl
  config_of_one pkey cert key chain (err text) parsed read taken =
      rw (config_of, parsed, read, taken) refl

  config_of_returns :
      (pkey cert : Str)
      → (r : Result rustls.ServerConfig TlsError) × (config_of rustls pkey cert ≡ returned r)
        × Explains pkey cert r
  unfolding config_of answer_of
  config_of_returns pkey cert = elim (Option-cases (rustls.rsa_private_keys pkey)) [
    | inl bad ↦ (err key_data, rw (config_of, bad) refl, bad)
    | inr (keys, parsed) ↦ elim (Bool-cases (length keys == 1)) [
      | inr many ↦ (
        err (key_count (length keys)),
        rw (config_of, parsed, many) refl,
        (keys, parsed, refl, λ e. ground arith),
      )
      | inl single ↦ elim (Option-cases (rustls.certs cert)) [
        | inl bad ↦ (err cert_data, rw (config_of, parsed, single, bad) refl, bad)
        | inr (chain, read) ↦
            let (key, only) = one_key keys single in
            elim (Result-cases (rustls.single_cert chain key)) [
              | inl (c, taken) ↦ (
                ok c,
                config_of_one pkey cert key chain (ok c) (parsed ∙ ap some only) read taken,
                (key, chain, parsed ∙ ap some only, read, taken),
              )
              | inr (text, refused) ↦ (
                err (rejected text),
                config_of_one pkey cert key chain (err text) (parsed ∙ ap some only) read refused,
                (key, chain, parsed ∙ ap some only, read, refused),
              )
            ]
      ]
    ]
  ]

  -- With the key and the certificates set in the configuration, `tls_config` always returns: the
  -- error of a file that cannot be opened, the key's first, or else an answer that the contents of
  -- the two files explain. It never says that one is not set, and never panics for want of a key.
  pub tls_config_lem :
      (cfg : Server) (pkey_fn cert_fn : Str)
      → cfg.tls_key ≡ some pkey_fn
      → cfg.tls_cert ≡ some cert_fn
      → ((e : ℕ) × (rustls.open_file pkey_fn ≡ err e)
          × (tls_config rustls cfg ≡ returned (err (key_open e))))
        ⊎ (((e : ℕ) × (pkey : Str) × (rustls.open_file pkey_fn ≡ ok pkey)
              × (rustls.open_file cert_fn ≡ err e)
              × (tls_config rustls cfg ≡ returned (err (cert_open e))))
            ⊎ ((pkey cert : Str) × (r : Result rustls.ServerConfig TlsError) × (rustls.open_file
                    pkey_fn
                  ≡ ok pkey)
                × (rustls.open_file cert_fn ≡ ok cert)
                × (tls_config rustls cfg ≡ returned r)
                × Explains pkey cert r))
  unfolding tls_config
  tls_config_lem cfg pkey_fn cert_fn key_set cert_set =
      elim (Result-cases (rustls.open_file pkey_fn)) [
        | inr (e, bad) ↦ inl (e, bad, rw (tls_config, key_set, cert_set, bad) refl)
        | inl (pkey, good) ↦ elim (Result-cases (rustls.open_file cert_fn)) [
          | inr (e, bad) ↦
              inr (inl (e, pkey, good, bad, rw (tls_config, key_set, cert_set, good, bad) refl))
          | inl (cert, good') ↦
              let (r, ran, why) = config_of_returns pkey cert in
              inr (
                inr (
                  pkey,
                  cert,
                  r,
                  good,
                  good',
                  rw (tls_config, key_set, cert_set, good, good') ran,
                  why,
                ))
        ]
      ]
