-- ===== src/Domain/Hostname/Shape.antt =====
-- Which characters a valid hostname holds, and where.
use docker_coredns_sync.Prelude.{
  All, Bool, Bool-cases, Text, [], arith, false, inl, inr, length, nat_eq, not, refl, subst, suc,
  text_eq, true, zero, ℕ, ◌&&◌, ◌++◌, ◌<◌, ◌||◌, ◌∷◌, ◌≡◌, ◌≤◌, ◌⊎◌,
}
use docker_coredns_sync.Domain.Hostname.{
  Regexp, alt, class, deriv, is_alnum, matches, never, nothing, nullable, seq, star, up_to, alnum,
  alnum_hyphen, dot, hostname_regexp, is_valid_hostname,
}

abbrev pub IsHostChar : ℕ → Type 0
IsHostChar c = (is_alnum c ≡ true) ⊎ ((c ≡ b'-') ⊎ (c ≡ b'.'))

-- An expression that matches no text at all, whatever follows.
void : Regexp → Bool
void never = true
void nothing = false
void (class k) = false
void (seq a b) = void a || void b
void (alt a b) = void a && void b
void (star r) = false
void (up_to n r) = false

void-nullable : (r : Regexp) → void r ≡ true → nullable r ≡ false
unfolding void nullable
void-nullable (seq a b) h = ground (arith, void-nullable a, void-nullable b)
void-nullable (alt a b) h = ground (arith, void-nullable a, void-nullable b)
void-nullable r h = ground arith

void-deriv : (c : ℕ) (r : Regexp) → void r ≡ true → void (deriv c r) ≡ true
unfolding void deriv
void-deriv c (seq a b) h = ground (arith, void-deriv c a, void-deriv c b, void-nullable a)
void-deriv c (alt a b) h = ground (arith, void-deriv c a, void-deriv c b)
void-deriv c never h = refl
void-deriv c _ h = cc

void-matches : (r : Regexp) (s : Text) → void r ≡ true → matches r s ≡ false
unfolding matches
void-matches r [] h = void-nullable r h
void-matches r (c ∷ s) h = void-matches (deriv c r) s (void-deriv c r h)

-- Every other character leaves nothing to match.
foreign-void : (c : ℕ) (r : Regexp) → ¬ IsHostChar c → void (deriv c r) ≡ true
unfolding void deriv
foreign-void c (class alnum) h = ground (arith, h)
foreign-void c (class alnum_hyphen) h = ground (arith, h)
foreign-void c (class dot) h = ground (arith, h)
foreign-void c (seq a b) h = ground (arith, foreign-void c a h, foreign-void c b h)
foreign-void c (alt a b) h = ground (arith, foreign-void c a h, foreign-void c b h)
foreign-void c (star r) h = ground (arith, foreign-void c r h)
foreign-void c (up_to zero r) h = refl
foreign-void c (up_to (suc n) r) h = ground (arith, foreign-void c r h)
foreign-void c never h = refl
foreign-void c nothing h = refl

IsHostChar-dec : (c : ℕ) → IsHostChar c ⊎ (¬ IsHostChar c)
IsHostChar-dec c = ground arith

-- What an expression matches consists of letters, digits, hyphens and dots.
pub matches-All : (r : Regexp) (s : Text) → matches r s ≡ true → All IsHostChar s
unfolding matches
matches-All r [] h = tt
matches-All r (c ∷ s) h = elim (IsHostChar-dec c) [
  | inl char ↦ (char, matches-All (deriv c r) s h)
  | inr foreign ↦ cc (void-matches (deriv c r) s (foreign-void c r foreign))
]

-- Whether every text that an expression matches is empty or ends in a letter or digit.
last_alnum : Regexp → Bool
last_alnum (class alnum) = true
last_alnum (class k) = false
last_alnum (seq a b) = last_alnum b && (not (nullable b) || last_alnum a)
last_alnum (alt a b) = last_alnum a && last_alnum b
last_alnum (star r) = last_alnum r
last_alnum (up_to n r) = last_alnum r
last_alnum never = true
last_alnum nothing = true

last_alnum-deriv : (c : ℕ) (r : Regexp) → last_alnum r ≡ true → last_alnum (deriv c r) ≡ true
unfolding last_alnum deriv
last_alnum-deriv c (class alnum) h = ground arith
last_alnum-deriv c (class alnum_hyphen) h = cc
last_alnum-deriv c (class dot) h = cc
last_alnum-deriv c (seq a b) h = ground (arith, last_alnum-deriv c a, last_alnum-deriv c b)
last_alnum-deriv c (alt a b) h = ground (arith, last_alnum-deriv c a, last_alnum-deriv c b)
last_alnum-deriv c (star r) h = ground (arith, last_alnum-deriv c r)
last_alnum-deriv c (up_to zero r) h = refl
last_alnum-deriv c (up_to (suc n) r) h = ground (arith, last_alnum-deriv c r)
last_alnum-deriv c never h = refl
last_alnum-deriv c nothing h = refl

-- The last character: after it nothing need follow.
last-alnum :
    (c : ℕ) (r : Regexp) → last_alnum r ≡ true → nullable (deriv c r) ≡ true → is_alnum c ≡ true
unfolding last_alnum deriv
last-alnum c (class alnum) h n = ground arith
last-alnum c (class alnum_hyphen) h n = cc
last-alnum c (class dot) h n = cc
last-alnum c (seq a b) h n = ground (arith, last-alnum c a, last-alnum c b)
last-alnum c (alt a b) h n = ground (arith, last-alnum c a, last-alnum c b)
last-alnum c (star r) h n = ground (arith, last-alnum c r)
last-alnum c (up_to zero r) h n = cc
last-alnum c (up_to (suc n) r) h m = ground (arith, last-alnum c r)
last-alnum c never h n = cc
last-alnum c nothing h n = cc

matches-last :
    (r : Regexp) (s : Text) (c : ℕ)
    → last_alnum r ≡ true
    → matches r (s ++ (c ∷ [])) ≡ true
    → is_alnum c ≡ true
unfolding matches
matches-last r [] c h m = last-alnum c r h m
matches-last r (d ∷ s) c h m = matches-last (deriv d r) s c (last_alnum-deriv d r h) m

module _ (h : Text) (valid : is_valid_hostname h ≡ true) where
  hostname-matches : matches hostname_regexp h ≡ true
  unfolding is_valid_hostname
  hostname-matches = ground arith

  -- A valid hostname consists of letters, digits, hyphens and dots.
  pub hostname-All : All IsHostChar h
  hostname-All = matches-All hostname_regexp h hostname-matches

  -- A valid hostname has 1 to 255 characters.
  pub hostname-length : (0 < length h) × (length h ≤ 255)
  unfolding is_valid_hostname
  hostname-length = ground arith

  -- A valid hostname ends in a letter or digit.
  pub hostname-last : (s : Text) (c : ℕ) → h ≡ s ++ (c ∷ []) → is_alnum c ≡ true
  unfolding hostname_regexp last_alnum nullable
  hostname-last s c e =
      matches-last hostname_regexp s c refl
        (subst (λ t. matches hostname_regexp t ≡ true) e hostname-matches)

first-void : (c : ℕ) → is_alnum c ≡ false → void (deriv c hostname_regexp) ≡ true
unfolding hostname_regexp void deriv
first-void c h = ground arith

-- A valid hostname begins with a letter or digit.
pub hostname-first : (c : ℕ) (s : Text) → is_valid_hostname (c ∷ s) ≡ true → is_alnum c ≡ true
unfolding matches
hostname-first c s valid = elim (Bool-cases (is_alnum c)) [
  | inl first ↦ first
  | inr other ↦ cc (
    void-matches (deriv c hostname_regexp) s (first-void c other),
    hostname-matches (c ∷ s) valid,
  )
]
