-- ===== src/Registry/Path/RoundTrip.antt =====
-- From a name to the key that Register writes, and back.
use docker_coredns_sync.Prelude.{
  All, All-append, All-map, Bool, Bool-cases, List, Text, [], ap, append_assoc, arith, codes, false,
  inl, inr, ltb, nat_eq, refl, subst, suc, sym, text_eq, true, zero, ℕ, ◌%◌, ◌++◌, ◌+◌, ◌/◌, ◌==◌,
  ◌∙◌, ◌∷◌, ◌≡◌, ◌≢◌,
}
use docker_coredns_sync.GoText.{
  drop_prefix, has_prefix, is_space, join, prepend, split, trim_left, trim_prefix, trim_right,
  trim_space, trim_suffix,
}
use docker_coredns_sync.GoText.Cut.{Lacks, join-split, split-join, split-ne-nil, trim_prefix-append}
use docker_coredns_sync.GoText.Decimal.{digits, int_eq, print}
use docker_coredns_sync.Domain.Hostname.{is_alnum, is_valid_hostname}
use docker_coredns_sync.Domain.Hostname.Shape.{IsHostChar, hostname-All, hostname-last}
use docker_coredns_sync.Registry.Path.{
  drop_index, fqdn_from_key, key_base_for_fqdn, reversed, trim_slashes,
}
use docker_coredns_sync.Registry.Index.{index_key}
use mathlib.Core.List.{reverse, reverse-reverse, reverse-cons}

module _ {A : Type 0} (P : A → Type 0) where
  All-reverse : (xs : List A) → All P xs → All P (reverse xs)
  All-reverse [] h = tt
  All-reverse (x ∷ xs) h =
      subst (All P) (sym (reverse-cons x xs))
        (All-append P (reverse xs) (x ∷ []) (All-reverse xs h.1) (h.0, tt))

trim_left-keeps :
    (drops : ℕ → Bool) (s : Text) → All (λ c. drops c ≡ false) s → trim_left drops s ≡ s
unfolding trim_left
trim_left-keeps drops [] h = refl
trim_left-keeps drops (c ∷ s) h = rw h.0 refl

trim_space-keeps : (s : Text) → All (λ c. is_space c ≡ false) s → trim_space s ≡ s
unfolding trim_space trim_right
trim_space-keeps s h =
    rw
      (
        trim_left-keeps is_space s h,
        trim_left-keeps is_space (reverse s) (All-reverse (λ c. is_space c ≡ false) s h),
      )
      (reverse-reverse s)

trim_prefix-keeps : (c d : ℕ) (s : Text) → c ≢ d → trim_prefix (c ∷ s) (d ∷ []) ≡ c ∷ s
unfolding trim_prefix drop_prefix
trim_prefix-keeps c d s ne = ground arith

trim_suffix-keeps :
    (h r : Text)
    → reverse h ≡ r
    → ((s : Text) (c : ℕ) → h ≡ s ++ (c ∷ []) → c ≢ b'.')
    → trim_suffix h (codes ".") ≡ h
unfolding trim_suffix
trim_suffix-keeps h [] e last =
    rw e (unfold trim_prefix drop_prefix in ap reverse (sym e) ∙ reverse-reverse h)
trim_suffix-keeps h (c ∷ r) e last =
    let whole : h ≡ reverse r ++ (c ∷ []) =
      sym (reverse-reverse h) ∙ (ap reverse e ∙ reverse-cons c r) in
    rw (e, trim_prefix-keeps c b'.' r (last (reverse r) c whole))
      (ap reverse (sym e) ∙ reverse-reverse h)

prepend-All :
    (P : ℕ → Type 0) (c : ℕ) (ps : List Text) → P c → All (All P) ps → All (All P) (prepend c ps)
prepend-All P c [] p h = ((p, tt), tt)
prepend-All P c (q ∷ ps) p h = ((p, h.0), h.1)

split-All : (P : ℕ → Type 0) (sep : ℕ) (s : Text) → All P s → All (All P) (split s sep)
unfolding split
split-All P sep [] h = (tt, tt)
split-All P sep (c ∷ s) h = elim (Bool-cases (c == sep)) [
  | inl cut ↦ rw cut (tt, split-All P sep s h.1)
  | inr on ↦ rw on (prepend-All P c (split s sep) h.0 (split-All P sep s h.1))
]

join-append :
    (sep : ℕ) (p : Text) (ps : List Text) (q : Text)
    → join (p ∷ ps) sep ++ (sep ∷ q) ≡ join ((p ∷ ps) ++ (q ∷ [])) sep
unfolding join
join-append sep p [] q = refl
join-append sep p (r ∷ ps) q =
    append_assoc p (sep ∷ join (r ∷ ps) sep) (sep ∷ q)
    ∙ ap (λ t. p ++ (sep ∷ t)) (join-append sep r ps q)

drop_index-append : (ps : List Text) (s : Text) → drop_index (ps ++ ((b'x' ∷ s) ∷ [])) ≡ ps
unfolding drop_index has_prefix
drop_index-append [] s = refl
drop_index-append (p ∷ []) s = refl
drop_index-append (p ∷ q ∷ ps) s = ap (λ t. p ∷ t) (drop_index-append (q ∷ ps) s)

digits-Lacks : (f n : ℕ) (out : Text) → Lacks b'/' out → Lacks b'/' (digits f n out)
unfolding digits
digits-Lacks zero n out h = h
digits-Lacks (suc f) n out h = elim (Bool-cases (ltb n 10)) [
  | inl small ↦ rw small (ground arith, h)
  | inr big ↦ rw big (digits-Lacks f (n / 10) ((b'0' + n % 10) ∷ out) (ground arith, h))
]

-- The parts of a path, and its index, are found again.
path_parts :
    (ps : List Text) (n : ℕ)
    → ps ≢ []
    → All (Lacks b'/') ps
    → drop_index (split (join ps b'/' ++ (b'/' ∷ b'x' ∷ print n)) b'/') ≡ ps
path_parts [] n ne h = absurd (ne refl)
path_parts (p ∷ ps) n ne h =
    let X = b'x' ∷ print n in
    rw
      (
        join-append b'/' p ps X,
        split-join b'/' p (ps ++ (X ∷ [])) (
          h.0,
          All-append (Lacks b'/') ps (X ∷ []) h.1
              ((ground arith, unfold print in digits-Lacks (suc n) n [] tt), tt),
        ),
      )
      (drop_index-append (p ∷ ps) (print n))

reverse-ne-nil : (ps : List Text) → ps ≢ [] → reverse ps ≢ []
reverse-ne-nil ps ne h = ne (sym (reverse-reverse ps) ∙ ap reverse h)

fqdn_of_path :
    (prefix h : Text) (n : ℕ)
    → All (λ c. c ≢ b'/') h
    → fqdn_from_key prefix
        (index_key (trim_slashes prefix ++ (b'/' ∷ join (reversed (split h b'.')) b'/')) n)
      ≡ h
unfolding fqdn_from_key index_key reversed
fqdn_of_path prefix h n lacks =
    let P = trim_slashes prefix in
    let J = join (reverse (split h b'.')) b'/' in
    let X = b'/' ∷ b'x' ∷ print n in
    let whole : (P ++ (b'/' ∷ J)) ++ X ≡ P ++ (b'/' ∷ (J ++ X)) = append_assoc P (b'/' ∷ J) X in
    rw
      (
        whole,
        trim_prefix-append P (b'/' ∷ (J ++ X)),
        trim_prefix-append (codes "/") (J ++ X),
        path_parts (reverse (split h b'.')) n (reverse-ne-nil (split h b'.') (split-ne-nil b'.' h))
            (All-reverse (Lacks b'/') (split h b'.') (split-All (λ c. c ≢ b'/') b'.' h lacks)),
        reverse-reverse (split h b'.'),
      )
      (join-split b'.' h)

no_space : (c : ℕ) → IsHostChar c → is_space c ≡ false
unfolding is_space is_alnum
no_space c h = ground arith

no_slash : (c : ℕ) → IsHostChar c → c ≢ b'/'
unfolding is_alnum
no_slash c h = ground arith

no_dot : (c : ℕ) → is_alnum c ≡ true → c ≢ b'.'
unfolding is_alnum
no_dot c h = ground arith

-- For a valid hostname, fqdnFromKey gives back the name of the key that keyBaseForFQDN and any index
-- make, whatever the prefix.
pub fqdn-key_base :
    (prefix h : Text) (n : ℕ)
    → is_valid_hostname h ≡ true
    → fqdn_from_key prefix (index_key (key_base_for_fqdn prefix h) n) ≡ h
unfolding key_base_for_fqdn
fqdn-key_base prefix h n valid =
    let chars = hostname-All h valid in
    rw
      (
        trim_space-keeps h (All-map h no_space chars),
        trim_suffix-keeps h (reverse h) refl (λ s c e. no_dot c (hostname-last h valid s c e)),
      )
      (fqdn_of_path prefix h n (All-map h no_slash chars))
