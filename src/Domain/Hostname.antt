-- ===== src/Domain/Hostname.antt =====
-- isValidHostname of internal/domain/dns_record.go, with its regular expression as data.
pub mod Shape
use docker_coredns_sync.Prelude.{
  Bool, Text, [], codes, false, if◌then◌else◌, leb, length, ltb, nat_eq, refl, suc, text_eq, true,
  zero, ℕ, ◌&&◌, ◌==◌, ◌||◌, ◌∷◌, ◌≡◌,
}

-- The character classes of hostnameRegexp: [a-zA-Z0-9], [a-zA-Z0-9-] and the dot
pub data Class : Type 0 where
  alnum alnum_hyphen dot : Class

unfoldable pub is_alnum : ℕ → Bool
is_alnum c = (leb b'a' c && leb c b'z') || (leb b'A' c && leb c b'Z') || (leb b'0' c && leb c b'9')

unfoldable pub in_class : Class → ℕ → Bool
unfolding is_alnum
in_class alnum c = is_alnum c
in_class alnum_hyphen c = is_alnum c || c == b'-'
in_class dot c = c == b'.'

-- up_to n r is r{0,n}.
pub data Regexp : Type 0 where
  never nothing : Regexp
  class : Class → Regexp
  seq alt : Regexp → Regexp → Regexp
  star : Regexp → Regexp
  up_to : ℕ → Regexp → Regexp

-- Whether an expression matches the empty text.
unfoldable pub nullable : Regexp → Bool
nullable never = false
nullable nothing = true
nullable (class k) = false
nullable (seq a b) = nullable a && nullable b
nullable (alt a b) = nullable a || nullable b
nullable (star r) = true
nullable (up_to n r) = true

-- What is left to match after a character.
unfoldable pub deriv : ℕ → Regexp → Regexp
unfolding nullable in_class
deriv c never = never
deriv c nothing = never
deriv c (class k) = if in_class k c then nothing else never
deriv c (seq a b) = alt (seq (deriv c a) b) (if nullable a then deriv c b else never)
deriv c (alt a b) = alt (deriv c a) (deriv c b)
deriv c (star r) = seq (deriv c r) (star r)
deriv c (up_to zero r) = never
deriv c (up_to (suc n) r) = seq (deriv c r) (up_to n r)

-- MatchString of an expression between ^ and $
unfoldable pub matches : Regexp → Text → Bool
unfolding deriv
matches r [] = nullable r
matches r (c ∷ s) = matches (deriv c r) s

abbrev pub label_regexp : Regexp
label_regexp = seq (class alnum) (alt (seq (up_to 61 (class alnum_hyphen)) (class alnum)) nothing)

unfoldable pub hostname_regexp : Regexp
hostname_regexp = seq label_regexp (star (seq (class dot) label_regexp))

-- len counts bytes; a text that matches is ASCII, so its characters are its bytes.
unfoldable pub is_valid_hostname : Text → Bool
unfolding matches hostname_regexp
is_valid_hostname h = ltb 0 (length h) && leb (length h) 255 && matches hostname_regexp h

test_hostname :
    (is_valid_hostname (codes "a-b.Example.com") ≡ true)
    × (is_valid_hostname (codes "a..b") ≡ false)
    × (is_valid_hostname (codes "a-.b") ≡ false)
    × (is_valid_hostname (codes "a.b.") ≡ false)
unfolding is_valid_hostname
test_hostname = (refl, refl, refl, refl)
