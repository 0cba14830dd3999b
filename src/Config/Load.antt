-- ===== src/Config/Load.antt =====
-- initConfig and Load of internal/config/config.go. The library viper is a parameter: the error of reading
-- the configuration file, and the configuration that its settings decode to.
use docker_coredns_sync.Prelude.{
  Option, Result, Text, [], bool_beq, codes, err, false, nat_eq, none, ok, refl, some, text_beq,
  text_eq, ℕ, ◌*◌, ◌^◌, ◌∷◌, ◌≡◌, ◌≢◌,
}
use docker_coredns_sync.GoText.{to_upper}
use docker_coredns_sync.GoText.Decimal.{ℤ, pos, int_eq}
use docker_coredns_sync.Config.{Config}
use docker_coredns_sync.Config.Validate.{
  any_bad_endpoint, overlaps, is_level, ConfigError, validate,
}

-- The float64 n, in units of 2^-1074; the float64 0.1 is 3602879701896397 / 2^55.
abbrev pub float : ℕ → ℤ
float n = pos (n * 2 ^ 1074)

-- The defaults that initConfig sets, decoded
unfoldable pub default_config : Config
default_config = record {
  app = record {
    docker_label_prefix = codes "coredns";
    host_ipv4 = [];
    host_ipv6 = [];
    hostname = [];
    poll_interval = pos 5;
    dry_run = false;
    record_ttl = 0;
    heartbeat_ttl = pos 30;
  };
  etcd = record {
    endpoints = codes "http://localhost:2379" ∷ [];
    path_prefix = codes "/skydns";
    username = [];
    password = [];
    tls = record { ca_file = []; cert_file = []; key_file = []; insecure_skip_verify = false };
    lock_ttl = float 5;
    lock_timeout = float 2;
    lock_retry_interval = pos (3602879701896397 * 2 ^ 1019);
  };
  logging = record { level = codes "INFO" };
  http = record { enabled = false; listen_addr = codes ":8080" };
  metrics = record { enabled = false };
  docker = record {
    event_buffer_size = pos 100;
    reconnect_initial_backoff = float 1;
    reconnect_max_backoff = float 30;
  };
}

-- The error of viper.ReadInConfig
pub data ReadError : Type 0 where
  file_not_found : ReadError
  unreadable : Text → ReadError

pub data LoadError : Type 0 where
  read_failed decode_failed : Text → LoadError
  invalid : ConfigError → LoadError

-- initConfig, on the outcome of viper.ReadInConfig
unfoldable pub init_config : Option ReadError → Option LoadError
init_config none = none
init_config (some file_not_found) = none
init_config (some (unreadable e)) = some (read_failed e)

unfoldable pub validated : Config → Option ConfigError → Result LoadError Config
validated cfg none = ok cfg
validated cfg (some e) = err (invalid e)

unfoldable pub decoded : Result Text Config → Result LoadError Config
unfolding validated validate
decoded (err e) = err (decode_failed e)
decoded (ok cfg) = validated cfg (validate cfg)

-- Load
unfoldable pub load : Option ReadError → Result Text Config → Result LoadError Config
unfolding init_config decoded
load read decode = elim (init_config read) [ some e ↦ err e | none ↦ decoded decode ]

-- The defaults with a host name of this instance
abbrev pub with_hostname : Text → Config
with_hostname hostname = record default_config {
  app = record (default_config.app) { hostname = hostname };
}

named_defaults :
    (hostname : Text)
    → hostname ≢ []
    → load (some file_not_found) (ok (with_hostname hostname)) ≡ ok (with_hostname hostname)
unfolding load default_config any_bad_endpoint overlaps is_level to_upper bool_beq text_beq
named_defaults [] full = absurd (full refl)
named_defaults (c ∷ s) full = refl

unnamed_defaults :
    load (some file_not_found) (ok default_config) ≡ err (invalid ConfigError.empty_hostname)
unfolding load default_config
unnamed_defaults = refl

-- The defaults are a valid configuration once the host name is set, to anything but the empty text, and
-- are not before: with no file and no other setting, Load gives them or the error of the empty host name.
pub load_defaults :
    (hostname : Text)
    → (hostname ≢ []
        → load (some file_not_found) (ok (with_hostname hostname)) ≡ ok (with_hostname hostname))
      × (load (some file_not_found) (ok default_config) ≡ err (invalid ConfigError.empty_hostname))
load_defaults hostname = (named_defaults hostname, unnamed_defaults)
