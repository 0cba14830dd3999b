-- ===== src/GoText/Cut.antt =====
-- Splitting, joining and prefixes.
use docker_coredns_sync.Prelude.{
  All, Bool-cases, List, Text, [], arith, eq_iff, inl, inr, nat_eq, refl, some, text_eq, true, ℕ,
  ◌++◌, ◌==◌, ◌∷◌, ◌≡◌, ◌≢◌,
}
use docker_coredns_sync.GoText.{has_prefix, drop_prefix, trim_prefix, prepend, split, join}

-- A text that lacks a character.
abbrev pub Lacks : ℕ → Text → Type 0
Lacks c = All (λ d. d ≢ c)

module _ (sep : ℕ) where
  pub split-ne-nil : (s : Text) → split s sep ≢ []
  unfolding split
  split-ne-nil [] = cc
  split-ne-nil (c ∷ s) = ground (arith, split-ne-nil s)

  join-prepend : (c : ℕ) (ps : List Text) → ps ≢ [] → join (prepend c ps) sep ≡ c ∷ join ps sep
  unfolding join
  join-prepend c [] h = absurd (h refl)
  join-prepend c (p ∷ []) h = refl
  join-prepend c (p ∷ q ∷ ps) h = refl

  join_cut : (ps : List Text) → ps ≢ [] → join ([] ∷ ps) sep ≡ sep ∷ join ps sep
  unfolding join
  join_cut [] h = absurd (h refl)
  join_cut (p ∷ ps) h = refl

  -- Joining the parts of a split gives the text back.
  pub join-split : (s : Text) → join (split s sep) sep ≡ s
  unfolding split
  join-split [] = unfold join in refl
  join-split (c ∷ s) = elim (Bool-cases (c == sep)) [
    | inl e ↦ rw e (cc (join_cut (split s sep) (split-ne-nil s), join-split s, (eq_iff c sep).0 e))
    | inr e ↦ rw e (cc (join-prepend c (split s sep) (split-ne-nil s), join-split s))
  ]

  split-Lacks : (p : Text) → Lacks sep p → split p sep ≡ p ∷ []
  unfolding split
  split-Lacks [] h = refl
  split-Lacks (c ∷ p) h = ground (arith, split-Lacks p h.1)

  split-append : (p s : Text) → Lacks sep p → split (p ++ (sep ∷ s)) sep ≡ p ∷ split s sep
  unfolding split
  split-append [] s h = ground arith
  split-append (c ∷ p) s h = ground (arith, split-append p s h.1)

  -- The parts come back from a join, if there is one and none holds the separator.
  pub split-join :
      (p : Text) (ps : List Text)
      → All (Lacks sep) (p ∷ ps)
      → split (join (p ∷ ps) sep) sep ≡ p ∷ ps
  unfolding join
  split-join p [] h = split-Lacks p h.0
  split-join p (q ∷ ps) h = rw (split-append p _ h.0, split-join q ps h.1)

pub drop_prefix-append : (p s : Text) → drop_prefix (p ++ s) p ≡ some s
unfolding drop_prefix
drop_prefix-append [] s = refl
drop_prefix-append (c ∷ p) s = ground (arith, drop_prefix-append p s)

pub trim_prefix-append : (p s : Text) → trim_prefix (p ++ s) p ≡ s
unfolding trim_prefix
trim_prefix-append p s = ground (arith, drop_prefix-append p s)

pub has_prefix-append : (p s : Text) → has_prefix (p ++ s) p ≡ true
unfolding has_prefix
has_prefix-append [] s = refl
has_prefix-append (c ∷ p) s = ground (arith, has_prefix-append p s)

-- A prefix is a text that the other one continues.
pub has_prefix_inv : (s p : Text) → has_prefix s p ≡ true → (t : Text) × (s ≡ p ++ t)
unfolding has_prefix
has_prefix_inv s [] h = (s, refl)
has_prefix_inv [] (c ∷ p) h = cc
has_prefix_inv (d ∷ s) (c ∷ p) h =
    let (t, e) = has_prefix_inv s p (ground arith) in (t, ground arith)
