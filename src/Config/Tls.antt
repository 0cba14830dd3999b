-- ===== src/Config/Tls.antt =====
-- ClientTLS of internal/config/config.go. The files and the certificates are parameters.
use docker_coredns_sync.Prelude.{
  Bool, Bool-cases, Option, Result, Text, ap, arith, err, false, if◌then◌else◌, inl, inr, nat_eq,
  none, not, ok, refl, some, sym, text_eq, ℕ, ◌||◌, ◌↔◌, ◌∙◌, ◌≡◌, ◌≢◌,
}
use docker_coredns_sync.Config.{
  EtcdConfig, EtcdTlsConfig, configured, has_https_endpoint, is_blank, uses_tls,
}

-- tls.LoadX509KeyPair, os.ReadFile and AppendCertsFromPEM; none is a pool to which nothing was added.
pub record Certificates (Cert Pool : Type 0) : Type 0 where
  pub load_key_pair : Text → Text → Result Text Cert
  pub read_file : Text → Result Text Text
  pub pool_from_pem : Text → Option Pool

-- tls.Config, as far as it is set
pub record TlsConfig (Cert Pool : Type 0) : Type 0 where
  pub min_version : ℕ
  pub insecure_skip_verify : Bool
  pub certificate : Option Cert
  pub root_cas : Option Pool

pub data TlsError : Type 0 where
  key_pair_failed ca_file_failed no_certificates : Text → TlsError

-- tls.VersionTLS12
abbrev pub version_tls12 : ℕ
version_tls12 = 0x0303

module _ {Cert Pool : Type 0} where
  unfoldable pub system_roots : TlsConfig Cert Pool
  system_roots = record {
    min_version = version_tls12;
    insecure_skip_verify = false;
    certificate = none;
    root_cas = none;
  }

  unfoldable pub add_certificate :
      TlsConfig Cert Pool → Result Text Cert → Result TlsError (TlsConfig Cert Pool)
  add_certificate cfg (err e) = err (key_pair_failed e)
  add_certificate cfg (ok cert) = ok (record cfg { certificate = some cert })

  unfoldable pub add_pool :
      TlsConfig Cert Pool → Text → Option Pool → Result TlsError (TlsConfig Cert Pool)
  add_pool cfg ca_file none = err (no_certificates ca_file)
  add_pool cfg ca_file (some pool) = ok (record cfg { root_cas = some pool })

  unfoldable pub present :
      Result TlsError (TlsConfig Cert Pool) → Result TlsError (Option (TlsConfig Cert Pool))
  present (err e) = err e
  present (ok cfg) = ok (some cfg)

  module _ (certs : Certificates Cert Pool) where
    unfoldable pub add_roots :
        TlsConfig Cert Pool → Text → Result Text Text → Result TlsError (TlsConfig Cert Pool)
    unfolding add_pool
    add_roots cfg ca_file (err e) = err (ca_file_failed e)
    add_roots cfg ca_file (ok pem) = add_pool cfg ca_file (certs.pool_from_pem pem)

    -- The end of ClientTLS, on the outcome of the key pair
    unfoldable pub with_roots :
        EtcdTlsConfig
        → Result TlsError (TlsConfig Cert Pool)
        → Result TlsError (Option (TlsConfig Cert Pool))
    unfolding add_roots present
    with_roots t (err e) = err e
    with_roots t (ok cfg) =
        if is_blank t.ca_file
        then ok (some cfg)
        else present (add_roots cfg t.ca_file (certs.read_file t.ca_file))

    -- ClientTLS: ok none is (nil, nil).
    unfoldable pub client_tls : EtcdConfig → Result TlsError (Option (TlsConfig Cert Pool))
    unfolding configured has_https_endpoint system_roots add_certificate with_roots
    client_tls c =
        let t = c.tls in
        let cfg = record system_roots { insecure_skip_verify = t.insecure_skip_verify } in
        let needs_pair = not (is_blank t.cert_file) || not (is_blank t.key_file) in
        if not (configured t)
        then ok (if has_https_endpoint c then some system_roots else none)
        else with_roots t (
            if needs_pair
            then add_certificate cfg (certs.load_key_pair t.cert_file t.key_file)
            else ok cfg)

    present-some : (r : Result TlsError (TlsConfig Cert Pool)) → present r ≢ ok none
    unfolding present
    present-some (err e) h = absurd (ground (arith, h))
    present-some (ok cfg) h = absurd (ground (arith, h))

    with_roots-some :
        (t : EtcdTlsConfig) (r : Result TlsError (TlsConfig Cert Pool)) → with_roots t r ≢ ok none
    unfolding with_roots
    with_roots-some t (err e) h = absurd (ground (arith, h))
    with_roots-some t (ok cfg) h = elim (Bool-cases (is_blank t.ca_file)) [
      | inl blank ↦ absurd (ground (arith, h, blank))
      | inr given ↦ present-some (add_roots cfg t.ca_file (certs.read_file t.ca_file)) (
          sym (
            ap
              (λ (b : Bool).
                if b
                then ok (some cfg)
                else present (add_roots cfg t.ca_file (certs.read_file t.ca_file)))
              given)
          ∙ h)
    ]

    -- ClientTLS gives no TLS configuration, and no error, exactly when UsesTLS denies that the connection
    -- to etcd is encrypted: no TLS setting is present and no endpoint is https.
    pub client_tls_iff : (c : EtcdConfig) → (client_tls c ≡ ok none) ↔ (uses_tls c ≡ false)
    unfolding client_tls uses_tls
    client_tls_iff c = elim (Bool-cases (configured c.tls)) [
      | inl set ↦ rw set (λ h. absurd (with_roots-some c.tls _ h), λ h. absurd (ground (arith, h)))
      | inr unset ↦ rw unset (elim (Bool-cases (has_https_endpoint c)) [
        | inl https ↦ rw https (λ h. absurd (ground (arith, h)), λ h. absurd (ground (arith, h)))
        | inr plain ↦ rw plain (λ h. refl, λ h. refl)
      ])
    ]
