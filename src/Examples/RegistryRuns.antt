-- ===== src/Examples/RegistryRuns.antt =====
-- Runs of the registry.
use docker_coredns_sync.Prelude.{
  In, List, Text, [], arith, bool_beq, codes, false, nat_eq, none, refl, some, text_eq, true, ℕ,
  ◌++◌, ◌<◌, ◌∷◌, ◌≡◌,
}
use docker_coredns_sync.GoText.{has_prefix, to_upper, trim_suffix}
use docker_coredns_sync.GoText.Decimal.{int_beq, pos, int_eq}
use docker_coredns_sync.Config.{Config, heartbeat_key_prefix}
use docker_coredns_sync.Config.Validate.{
  overlaps, validate, any_bad_endpoint, is_level, is_valid_ipv4,
}
use docker_coredns_sync.Registry.Path.Separate.{register_keys_separate}
use docker_coredns_sync.Domain.Hostname.{is_valid_hostname}
use docker_coredns_sync.Domain.Record.Valid.{IsWellFormed}
use docker_coredns_sync.GoNet.{is_v4, parse_ip}
use docker_coredns_sync.Domain.Kind.{kind_eq}
use docker_coredns_sync.Registry.{Json, Kvs, marshal_etcd_value, to_wire}
use docker_coredns_sync.Registry.Path.{fqdn_from_key, key_base_for_fqdn, trim_slashes}
use docker_coredns_sync.Registry.Path.RoundTrip.{fqdn-key_base}
use docker_coredns_sync.Registry.Index.{get_next_indexed_key, index_key}
use docker_coredns_sync.Registry.Index.Fresh.{next_key_fresh}
use docker_coredns_sync.Examples.Data.{address, app_a, app_name, config}

abbrev skydns : Text
skydns = codes "/skydns"

test_key :
    get_next_indexed_key (key_base_for_fqdn skydns app_name) (codes "/skydns/lan/app/x1" ∷ [])
    ≡ some (codes "/skydns/lan/app/x2")
unfolding get_next_indexed_key key_base_for_fqdn int_beq
test_key = refl

valid_name : is_valid_hostname app_name ≡ true
unfolding is_valid_hostname
valid_name = refl

fqdn-key_base_example :
    fqdn_from_key skydns (index_key (key_base_for_fqdn skydns app_name) 3) ≡ app_name
fqdn-key_base_example = fqdn-key_base skydns app_name 3 valid_name

abbrev taken : List Text
taken = codes "/skydns/lan/app/x1" ∷ []

next_key_fresh_example :
    (idx : ℕ) × (get_next_indexed_key (codes "/skydns/lan/app") taken
      ≡ some (index_key (codes "/skydns/lan/app") idx))
    × (0 < idx)
    × (¬ In (index_key (codes "/skydns/lan/app") idx) taken)
next_key_fresh_example = next_key_fresh (codes "/skydns/lan/app") taken (omega arith)

-- A coder of one value.
abbrev coder : Json
coder = record { encode = λ w. some (codes "{}"); decode = λ s. some (to_wire address) }

written : marshal_etcd_value coder address ≡ some (codes "{}")
unfolding marshal_etcd_value
written = refl

app_a-IsWellFormed : IsWellFormed app_a
unfolding parse_ip is_v4
app_a-IsWellFormed = record { name_valid = valid_name; value_fits = (_, refl, refl) }

abbrev stored : Kvs
stored = (codes "/skydns/lan/app/x1", codes "{}") ∷ []

-- A configuration that is valid
abbrev settings : Config
settings = record {
  app = config;
  etcd = record {
    endpoints = codes "http://e:2379" ∷ [];
    path_prefix = skydns;
    username = [];
    password = [];
    tls = record { ca_file = []; cert_file = []; key_file = []; insecure_skip_verify = false };
    lock_ttl = pos 5;
    lock_timeout = pos 2;
    lock_retry_interval = pos 1;
  };
  logging = record { level = codes "info" };
  http = record { enabled = false; listen_addr = [] };
  metrics = record { enabled = false };
  docker = record {
    event_buffer_size = pos 100;
    reconnect_initial_backoff = pos 1;
    reconnect_max_backoff = pos 30;
  };
}

settings_valid : validate settings ≡ none
unfolding validate is_valid_ipv4 parse_ip is_v4 any_bad_endpoint overlaps bool_beq is_level to_upper
settings_valid = refl

one_slash : trim_slashes skydns ≡ trim_suffix skydns (codes "/")
unfolding trim_slashes trim_suffix
one_slash = refl

register_keys_separate_example :
    has_prefix (index_key (key_base_for_fqdn skydns app_name) 1) (heartbeat_key_prefix ++ codes "/")
    ≡ false
register_keys_separate_example = register_keys_separate settings app_name 1 settings_valid one_slash

-- A path prefix of two slashes passes validation.
test_two_slashes : overlaps (codes "//") ≡ false
unfolding overlaps
test_two_slashes = refl
