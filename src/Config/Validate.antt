-- ===== src/Config/Validate.antt =====
-- validate of internal/config/config.go. Each error stands for one message of the source.
pub mod Separate
use docker_coredns_sync.Prelude.{
  Bool, List, Option, Text, [], bool_beq, codes, false, if◌then◌else◌, ltb, nat_eq, none, not, some,
  suc, text_beq, text_eq, true, zero, ◌&&◌, ◌++◌, ◌/◌, ◌==◌, ◌||◌, ◌∷◌,
}
use docker_coredns_sync.GoText.{has_prefix, to_upper, trim_space, trim_suffix}
use docker_coredns_sync.GoText.Decimal.{ℤ, pos, negsuc, int_eq}
use docker_coredns_sync.GoNet.{parse_ip}
use docker_coredns_sync.Domain.Record.{not_ipv4, not_ipv6}
use docker_coredns_sync.Config.{
  AppConfig, Config, EtcdConfig, configured, has_https_endpoint, heartbeat_key_prefix,
  http_server_enabled, is_blank,
}

pub data ConfigError : Type 0 where
  empty_label_prefix bad_host_ipv4 bad_host_ipv6 empty_hostname bad_poll_interval bad_heartbeat_ttl
        no_endpoints bad_endpoint empty_path_prefix overlapping_path_prefix cert_without_key
        ca_ignored tls_without_https user_without_password password_without_user bad_lock_ttl
        bad_lock_timeout bad_lock_retry_interval bad_level empty_listen_addr bad_event_buffer_size
        bad_initial_backoff bad_max_backoff :
      ConfigError

-- n > 0, and m < n
unfoldable pub is_positive : ℤ → Bool
is_positive (pos zero) = false
is_positive (pos (suc n)) = true
is_positive (negsuc n) = false

unfoldable pub less : ℤ → ℤ → Bool
less (pos m) (pos n) = ltb m n
less (pos m) (negsuc n) = false
less (negsuc m) (pos n) = true
less (negsuc m) (negsuc n) = ltb n m

-- isValidIPv4 and isValidIPv6; ip.To16() is nil for no address that ParseIP returns.
unfoldable pub is_valid_ipv4 : Text → Bool
unfolding trim_space not_ipv4
is_valid_ipv4 s = not (not_ipv4 (parse_ip (trim_space s)))

unfoldable pub is_valid_ipv6 : Text → Bool
unfolding trim_space not_ipv6
is_valid_ipv6 s = not (not_ipv6 (parse_ip (trim_space s)))

-- The loop over the endpoints: whether one of them has no known scheme.
unfoldable pub any_bad_endpoint : List Text → Bool
unfolding has_prefix
any_bad_endpoint [] = false
any_bad_endpoint (e ∷ endpoints) =
    if not (has_prefix e (codes "http://")) && not (has_prefix e (codes "https://"))
    then true
    else any_bad_endpoint endpoints

abbrev no_endpoint : List Text → Bool
no_endpoint [] = true
no_endpoint (e ∷ endpoints) = false

-- Whether path_prefix and the heartbeat prefix overlap.
unfoldable pub overlaps : Text → Bool
unfolding has_prefix trim_suffix
overlaps path_prefix =
    let pp = trim_suffix path_prefix (codes "/") in
    is_blank pp
    || has_prefix (heartbeat_key_prefix ++ codes "/") (pp ++ codes "/")
    || has_prefix (pp ++ codes "/") (heartbeat_key_prefix ++ codes "/")

unfoldable pub is_level : Text → Bool
unfolding text_beq
is_level s =
    s == codes "TRACE"
    || s == codes "DEBUG"
    || s == codes "INFO"
    || s == codes "WARN"
    || s == codes "ERROR"
    || s == codes "FATAL"

-- The first test of the list that fails, if one does.
unfoldable pub check : List (Bool × ConfigError) → Option ConfigError
check [] = none
check ((fails, error) ∷ rest) = if fails then some error else check rest

-- The tests of validate, in its order.
unfoldable pub app_checks : AppConfig → List (Bool × ConfigError)
unfolding is_positive
app_checks app =
    (is_blank app.docker_label_prefix, empty_label_prefix)
    ∷ (not (is_blank app.host_ipv4) && not (is_valid_ipv4 app.host_ipv4), bad_host_ipv4)
    ∷ (not (is_blank app.host_ipv6) && not (is_valid_ipv6 app.host_ipv6), bad_host_ipv6)
    ∷ (is_blank app.hostname, empty_hostname)
    ∷ (not (is_positive app.poll_interval), bad_poll_interval)
    ∷ (not (is_positive app.heartbeat_ttl), bad_heartbeat_ttl)
    ∷ []

unfoldable pub etcd_checks : EtcdConfig → List (Bool × ConfigError)
unfolding is_positive configured has_https_endpoint
etcd_checks etcd =
    (no_endpoint etcd.endpoints, no_endpoints)
    ∷ (any_bad_endpoint etcd.endpoints, bad_endpoint)
    ∷ (is_blank etcd.path_prefix, empty_path_prefix)
    ∷ (overlaps etcd.path_prefix, overlapping_path_prefix)
    ∷ (not (bool_beq (is_blank etcd.tls.cert_file) (is_blank etcd.tls.key_file)), cert_without_key)
    ∷ (etcd.tls.insecure_skip_verify && not (is_blank etcd.tls.ca_file), ca_ignored)
    ∷ (configured etcd.tls && not (has_https_endpoint etcd), tls_without_https)
    ∷ (not (is_blank etcd.username) && is_blank etcd.password, user_without_password)
    ∷ (not (is_blank etcd.password) && is_blank etcd.username, password_without_user)
    ∷ (not (is_positive etcd.lock_ttl), bad_lock_ttl)
    ∷ (not (is_positive etcd.lock_timeout), bad_lock_timeout)
    ∷ (not (is_positive etcd.lock_retry_interval), bad_lock_retry_interval)
    ∷ []

unfoldable pub other_checks : Config → List (Bool × ConfigError)
unfolding is_positive less http_server_enabled
other_checks c =
    (not (is_level (to_upper c.logging.level)), bad_level)
    ∷ (http_server_enabled c && is_blank (trim_space c.http.listen_addr), empty_listen_addr)
    ∷ (not (is_positive c.docker.event_buffer_size), bad_event_buffer_size)
    ∷ (not (is_positive c.docker.reconnect_initial_backoff), bad_initial_backoff)
    ∷ (less c.docker.reconnect_max_backoff c.docker.reconnect_initial_backoff, bad_max_backoff)
    ∷ []

-- validate
unfoldable pub validate : Config → Option ConfigError
unfolding check app_checks etcd_checks other_checks
validate c = check (app_checks c.app ++ (etcd_checks c.etcd ++ other_checks c))
