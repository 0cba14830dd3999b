-- ===== src/Registry/Path/Separate.antt =====
-- The keys that Register writes, and the heartbeat keys.
use docker_coredns_sync.Prelude.{
  Text, append_assoc, codes, false, nat_eq, none, sym, text_eq, true, ℕ, ◌++◌, ◌∙◌, ◌∷◌, ◌≡◌,
}
use docker_coredns_sync.GoText.{has_prefix, trim_suffix}
use docker_coredns_sync.GoText.Cut.{has_prefix-append}
use docker_coredns_sync.Config.{Config, heartbeat_key_prefix}
use docker_coredns_sync.Config.Validate.{validate}
use docker_coredns_sync.Config.Validate.Separate.{valid_prefixes_separate}
use docker_coredns_sync.Registry.Path.{key_base_for_fqdn, trim_slashes}
use docker_coredns_sync.Registry.Index.{index_key}

under_prefix : (P J X : Text) → has_prefix ((P ++ (b'/' ∷ J)) ++ X) (P ++ codes "/") ≡ true
under_prefix P J X =
    let e : (P ++ (b'/' ∷ J)) ++ X ≡ (P ++ codes "/") ++ (J ++ X) =
      append_assoc P (b'/' ∷ J) X ∙ sym (append_assoc P (codes "/") (J ++ X)) in
    rw e (has_prefix-append (P ++ codes "/") (J ++ X))

-- With a valid configuration whose path prefix ends in one slash at most, a key that Register writes is
-- not under the prefix of the heartbeat keys, whatever the name and the index.
pub register_keys_separate :
    (c : Config) (fqdn : Text) (n : ℕ)
    → validate c ≡ none
    → trim_slashes c.etcd.path_prefix ≡ trim_suffix c.etcd.path_prefix (codes "/")
    → has_prefix
        (index_key (key_base_for_fqdn c.etcd.path_prefix fqdn) n)
        (heartbeat_key_prefix ++ codes "/")
      ≡ false
unfolding key_base_for_fqdn index_key
register_keys_separate c fqdn n valid one_slash =
    valid_prefixes_separate c (index_key (key_base_for_fqdn c.etcd.path_prefix fqdn) n) valid
      (rw (← one_slash) (under_prefix (trim_slashes c.etcd.path_prefix) _ _))
