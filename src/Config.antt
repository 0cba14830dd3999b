-- ===== src/Config.antt =====
-- internal/config/config.go: the structs of the configuration and what they say of themselves; Validate,
-- ClientTLS (Tls) and Load stand in the modules below.
pub mod Validate
pub mod Tls
pub mod Load
use docker_coredns_sync.Prelude.{
  Bool, List, Text, [], codes, false, if◌then◌else◌, nat_eq, not, text_eq, true, ℕ, ◌||◌, ◌∷◌,
}
use docker_coredns_sync.GoText.{has_prefix}
use docker_coredns_sync.GoText.Decimal.{ℤ, int_eq}

pub record DockerConfig : Type 0 where
  pub event_buffer_size : ℤ
  -- A finite float64 is a whole number of units of 2^-1074.
  pub reconnect_initial_backoff : ℤ
  pub reconnect_max_backoff : ℤ

pub record HttpConfig : Type 0 where
  pub enabled : Bool
  pub listen_addr : Text

pub record MetricsConfig : Type 0 where
  pub enabled : Bool

pub record LoggingConfig : Type 0 where
  pub level : Text

pub record AppConfig : Type 0 where
  pub docker_label_prefix : Text
  pub host_ipv4 : Text
  pub host_ipv6 : Text
  pub hostname : Text
  pub poll_interval : ℤ
  pub dry_run : Bool
  -- a uint32
  pub record_ttl : ℕ
  pub heartbeat_ttl : ℤ

pub record EtcdTlsConfig : Type 0 where
  pub ca_file : Text
  pub cert_file : Text
  pub key_file : Text
  pub insecure_skip_verify : Bool

pub record EtcdConfig : Type 0 where
  pub endpoints : List Text
  pub path_prefix : Text
  pub username : Text
  pub password : Text
  pub tls : EtcdTlsConfig
  pub lock_ttl : ℤ
  pub lock_timeout : ℤ
  pub lock_retry_interval : ℤ

pub record Config : Type 0 where
  pub app : AppConfig
  pub etcd : EtcdConfig
  pub logging : LoggingConfig
  pub http : HttpConfig
  pub metrics : MetricsConfig
  pub docker : DockerConfig

-- HeartbeatKeyPrefix
abbrev pub heartbeat_key_prefix : Text
heartbeat_key_prefix = codes "/docker-coredns-sync/heartbeat"

-- s == ""
abbrev pub is_blank : Text → Bool
is_blank [] = true
is_blank (c ∷ s) = false

-- Configured
unfoldable pub configured : EtcdTlsConfig → Bool
configured t =
    not (is_blank t.ca_file)
    || not (is_blank t.cert_file)
    || not (is_blank t.key_file)
    || t.insecure_skip_verify

unfoldable pub any_https : List Text → Bool
unfolding has_prefix
any_https [] = false
any_https (e ∷ endpoints) = if has_prefix e (codes "https://") then true else any_https endpoints

-- hasHTTPSEndpoint
unfoldable pub has_https_endpoint : EtcdConfig → Bool
unfolding any_https
has_https_endpoint c = any_https c.endpoints

-- UsesTLS
unfoldable pub uses_tls : EtcdConfig → Bool
unfolding configured has_https_endpoint
uses_tls c = configured c.tls || has_https_endpoint c

-- HTTPServerEnabled
unfoldable pub http_server_enabled : Config → Bool
http_server_enabled c = c.http.enabled || c.metrics.enabled
