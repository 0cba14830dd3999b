-- ===== src/Config/Validate/Separate.antt =====
-- The prefixes of the keys in etcd under a valid configuration.
use docker_coredns_sync.Prelude.{
  All, Bool, Bool-cases, List, Text, [], arith, codes, false, inl, inr, nat_eq, none, refl, text_eq,
  true, ◌++◌, ◌∷◌, ◌≡◌, ◌⊎◌,
}
use docker_coredns_sync.GoText.{has_prefix, trim_suffix}
use docker_coredns_sync.Config.{Config, heartbeat_key_prefix}
use docker_coredns_sync.Config.Validate.{
  ConfigError, app_checks, check, etcd_checks, other_checks, overlaps, validate,
}

All-pass : (tests : List (Bool × ConfigError)) → check tests ≡ none → All (λ t. t.0 ≡ false) tests
unfolding check
All-pass [] h = tt
All-pass ((true, error) ∷ rest) h = absurd (ground arith)
All-pass ((false, error) ∷ rest) h = (refl, All-pass rest h)

check_parts :
    (xs ys : List (Bool × ConfigError))
    → check (xs ++ ys) ≡ none
    → (check xs ≡ none) × (check ys ≡ none)
unfolding check
check_parts [] ys h = (refl, h)
check_parts ((true, error) ∷ xs) ys h = absurd (ground arith)
check_parts ((false, error) ∷ xs) ys h = check_parts xs ys h

valid-overlaps : (c : Config) → validate c ≡ none → overlaps c.etcd.path_prefix ≡ false
unfolding validate etcd_checks
valid-overlaps c h =
    let rest = (check_parts (app_checks c.app) (etcd_checks c.etcd ++ other_checks c) h).1 in
    let etcd = (check_parts (etcd_checks c.etcd) (other_checks c) rest).0 in
    (All-pass (etcd_checks c.etcd) etcd).1.1.1.0

-- Two prefixes of one text: one of them is a prefix of the other.
prefixes_compare :
    (s p q : Text)
    → has_prefix s p ≡ true
    → has_prefix s q ≡ true
    → (has_prefix p q ≡ true) ⊎ (has_prefix q p ≡ true)
unfolding has_prefix
prefixes_compare s [] q h g = inr (unfold has_prefix in ground arith)
prefixes_compare s (c ∷ p) [] h g = inl refl
prefixes_compare [] (c ∷ p) (d ∷ q) h g = absurd (ground arith)
prefixes_compare (x ∷ s) (c ∷ p) (d ∷ q) h g =
    elim (prefixes_compare s p q (ground arith) (ground arith)) [
      | inl e ↦ inl (ground arith)
      | inr e ↦ inr (ground arith)
    ]

-- With a valid configuration, a key under the path prefix, less one slash at its end, is not under the
-- prefix of the heartbeat keys.
pub valid_prefixes_separate :
    (c : Config) (key : Text)
    → validate c ≡ none
    → has_prefix key (trim_suffix c.etcd.path_prefix (codes "/") ++ codes "/") ≡ true
    → has_prefix key (heartbeat_key_prefix ++ codes "/") ≡ false
unfolding overlaps
valid_prefixes_separate c key valid p =
    let apart = valid-overlaps c valid in
    elim (Bool-cases (has_prefix key (heartbeat_key_prefix ++ codes "/"))) [
      | inl q ↦
          elim (prefixes_compare key (trim_suffix c.etcd.path_prefix (codes "/") ++ codes "/")
            (heartbeat_key_prefix ++ codes "/") p q) [
              | inl under ↦ absurd (ground (arith, apart, under))
              | inr over ↦ absurd (ground (arith, apart, over))
            ]
      | inr clear ↦ clear
    ]
