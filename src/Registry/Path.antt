-- ===== src/Registry/Path.antt =====
-- internal/registry/etcd_path.go: the key of a name.
pub mod RoundTrip
pub mod Separate
use docker_coredns_sync.Prelude.{
  List, Text, [], codes, if◌then◌else◌, nat_eq, text_eq, ◌++◌, ◌/◌, ◌==◌, ◌∷◌,
}
use docker_coredns_sync.GoText.{
  has_prefix, join, split, trim_prefix, trim_right, trim_space, trim_suffix,
}
use mathlib.Core.List.{reverse}

-- Reverse of internal/util/slice_funcs.go
unfoldable pub reversed : List Text → List Text
reversed parts = reverse parts

-- strings.TrimRight(prefix, "/")
unfoldable pub trim_slashes : Text → Text
unfolding trim_right
trim_slashes prefix = trim_right (λ c. c == b'/') prefix

-- keyBaseForFQDN
unfoldable pub key_base_for_fqdn : Text → Text → Text
unfolding reversed trim_slashes trim_suffix trim_space split join
key_base_for_fqdn prefix fqdn =
    let trimmed = trim_suffix (trim_space fqdn) (codes ".") in
    trim_slashes prefix ++ (b'/' ∷ join (reversed (split trimmed b'.')) b'/')

-- parts without its last one, if that begins with an x
unfoldable pub drop_index : List Text → List Text
unfolding has_prefix
drop_index [] = []
drop_index (p ∷ []) = if has_prefix p (codes "x") then [] else p ∷ []
drop_index (p ∷ q ∷ ps) = p ∷ drop_index (q ∷ ps)

-- fqdnFromKey
unfoldable pub fqdn_from_key : Text → Text → Text
unfolding reversed trim_slashes trim_prefix split join drop_index
fqdn_from_key prefix key =
    let path = trim_prefix (trim_prefix key (trim_slashes prefix)) (codes "/") in
    join (reversed (drop_index (split path b'/'))) b'.'
