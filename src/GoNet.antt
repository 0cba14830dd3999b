-- ===== src/GoNet.antt =====
-- net.ParseIP and net.IP's To4, as internal/domain/dns_record.go and internal/config/config.go use
-- them: an address is its sixteen bytes.
use docker_coredns_sync.Prelude.{
  Bool, List, Option, Text, [], codes, false, if◌then◌else◌, leb, length, ltb, nat_eq, none, refl,
  some, suc, text_eq, zero, ℕ, ◌%◌, ◌&&◌, ◌*◌, ◌++◌, ◌+◌, ◌-◌, ◌/◌, ◌==◌, ◌>>=◌, ◌||◌, ◌∷◌, ◌≡◌,
}
use docker_coredns_sync.GoText.{split}
use docker_coredns_sync.GoText.Decimal.{parse, int_eq}

abbrev pub Ip : Type 0
Ip = List ℕ

-- One field of a dotted IPv4 address: at most 255, in digits, with no leading zero.
unfoldable pub octet : Text → Option ℕ
unfolding parse
octet [] = none
octet (c ∷ []) = parse (c ∷ [])
octet (c ∷ d ∷ s) =
    if c == b'0' then none else do n ← parse (c ∷ d ∷ s); if leb n 255 then some n else none

unfoldable pub four_octets : List Text → Option (List ℕ)
unfolding octet
four_octets (p ∷ q ∷ r ∷ s ∷ []) = do
  a ← octet p
  b ← octet q
  c ← octet r
  d ← octet s
  some (a ∷ b ∷ c ∷ d ∷ [])
four_octets _ = none

unfoldable pub parse_v4 : Text → Option (List ℕ)
unfolding four_octets split
parse_v4 s = four_octets (split s b'.')

unfoldable pub hex_digit : ℕ → Option ℕ
hex_digit c =
    if leb b'0' c && leb c b'9'
    then some (c - b'0')
    else if leb b'a' c && leb c b'f'
    then some (c - b'a' + 10)
    else if leb b'A' c && leb c b'F'
    then some (c - b'A' + 10)
    else none

-- The hexadecimal number at the head of a text, how many digits it has, and what follows.
unfoldable pub hex_run : Text → ℕ → ℕ → ℕ × ℕ × Text
unfolding hex_digit
hex_run [] acc off = (acc, off, [])
hex_run (c ∷ s) acc off = elim (hex_digit c) [
  | none ↦ (acc, off, c ∷ s)
  | some d ↦ hex_run s (acc * 16 + d) (off + 1)
]

-- One round of the loop over the groups of an IPv6 address: the bytes so far, the place of the
-- ellipsis if one was met, and the text that is left.
pub data Round : Type 0 where
  fault : Round
  last : List ℕ → Option ℕ → Round
  more : List ℕ → Option ℕ → Text → Round

-- What follows a group: the end, or a colon and more, which may be an ellipsis.
unfoldable pub after_group : List ℕ → Option ℕ → Text → Round
after_group bytes ellipsis [] = last bytes ellipsis
after_group bytes ellipsis (c ∷ []) = fault
after_group bytes ellipsis (c ∷ d ∷ s) =
    if c == b':'
    then (if d == b':'
        then elim ellipsis [
          | none ↦ elim s [
            | [] ↦ last bytes (some (length bytes))
            | e ∷ t ↦ more bytes (some (length bytes)) (e ∷ t)
          ]
          | some _ ↦ fault
        ]
        else more bytes ellipsis (d ∷ s))
    else fault

starts_with_dot : Text → Bool
starts_with_dot [] = false
starts_with_dot (c ∷ s) = c == b'.'

-- A dotted IPv4 address may stand in the place of the last two groups.
v4_fits : List ℕ → Option ℕ → Bool
v4_fits bytes none = length bytes == 12
v4_fits bytes (some _) = leb (length bytes + 4) 16

unfoldable pub embedded_v4 : Text → List ℕ → Option ℕ → Round
unfolding parse_v4 v4_fits
embedded_v4 s bytes ellipsis =
    if v4_fits bytes ellipsis
    then elim (parse_v4 s) [ none ↦ fault | some v4 ↦ last (bytes ++ v4) ellipsis ]
    else fault

unfoldable pub v6_round : Text → List ℕ → Option ℕ → Round
unfolding hex_run embedded_v4 after_group starts_with_dot
v6_round s bytes ellipsis =
    let (acc, off, rest) = hex_run s 0 0 in
    if off == 0 || ltb 4 off
    then fault
    else if starts_with_dot rest
    then embedded_v4 s bytes ellipsis
    else after_group (bytes ++ (acc / 256) ∷ (acc % 256) ∷ []) ellipsis rest

-- At most eight groups: with no group left to read, the text must have ended.
unfoldable pub v6_loop : ℕ → Text → List ℕ → Option ℕ → Option (List ℕ × Option ℕ)
unfolding v6_round
v6_loop zero s bytes ellipsis = none
v6_loop (suc groups) s bytes ellipsis = elim (v6_round s bytes ellipsis) [
  | fault ↦ none
  | last b e ↦ some (b, e)
  | more b e t ↦ v6_loop groups t b e
]

zeros : ℕ → List ℕ
zeros zero = []
zeros (suc n) = 0 ∷ zeros n

take : ℕ → List ℕ → List ℕ
take zero xs = []
take (suc n) [] = []
take (suc n) (x ∷ xs) = x ∷ take n xs

drop : ℕ → List ℕ → List ℕ
drop zero xs = xs
drop (suc n) [] = []
drop (suc n) (x ∷ xs) = drop n xs

-- The ellipsis stands for the missing groups, one at least.
unfoldable pub expand : List ℕ × Option ℕ → Option Ip
unfolding zeros take drop
expand (bytes, none) = if length bytes == 16 then some bytes else none
expand (bytes, some at) =
    if ltb (length bytes) 16
    then some (take at bytes ++ (zeros (16 - length bytes) ++ drop at bytes))
    else none

unfoldable pub parse_v6 : Text → Option Ip
unfolding v6_loop expand zeros
parse_v6 (c ∷ d ∷ []) =
    if c == b':' && d == b':'
    then some (zeros 16)
    else (do r ← v6_loop 8 (c ∷ d ∷ []) [] none; expand r)
parse_v6 (c ∷ d ∷ e ∷ s) =
    if c == b':' && d == b':'
    then (do r ← v6_loop 8 (e ∷ s) [] (some 0); expand r)
    else (do r ← v6_loop 8 (c ∷ d ∷ e ∷ s) [] none; expand r)
parse_v6 s = do r ← v6_loop 8 s [] none; expand r

unfoldable pub v4_in_v6 : List ℕ → Ip
unfolding zeros
v4_in_v6 v4 = zeros 10 ++ 255 ∷ 255 ∷ v4

-- net.ParseIP: the first dot or colon says which form it is.
unfoldable pub first_mark : Text → ℕ
first_mark [] = 0
first_mark (c ∷ s) = let rest = first_mark s in if c == b'.' || c == b':' then c else rest

unfoldable pub parse_ip : Text → Option Ip
unfolding first_mark parse_v4 v4_in_v6 parse_v6
parse_ip s =
    if first_mark s == b'.'
    then (do v4 ← parse_v4 s; some (v4_in_v6 v4))
    else if first_mark s == b':'
    then parse_v6 s
    else none

-- ip.To4() != nil: ten zero bytes and two bytes 0xff in front
unfoldable pub is_v4 : Ip → Bool
is_v4 (a ∷ b ∷ c ∷ d ∷ e ∷ f ∷ g ∷ h ∷ i ∷ j ∷ k ∷ l ∷ v4) =
    a == 0
    && b == 0
    && c == 0
    && d == 0
    && e == 0
    && f == 0
    && g == 0
    && h == 0
    && i == 0
    && j == 0
    && k == 255
    && l == 255
is_v4 _ = false

test_v4 : parse_ip (codes "192.168.1.20") ≡ some (v4_in_v6 (192 ∷ 168 ∷ 1 ∷ 20 ∷ []))
unfolding parse_ip v4_in_v6
test_v4 = refl

test_v6 :
    parse_ip (codes "fd20:0:1::123")
    ≡ some (0xfd ∷ 0x20 ∷ 0 ∷ 0 ∷ 0 ∷ 1 ∷ 0 ∷ 0 ∷ 0 ∷ 0 ∷ 0 ∷ 0 ∷ 0 ∷ 0 ∷ 1 ∷ 0x23 ∷ [])
unfolding parse_ip
test_v6 = refl

test_refused :
    (parse_ip (codes "1.2.3.04") ≡ none)
    × (parse_ip (codes "1::2::3") ≡ none)
    × (parse_ip (codes "1:2") ≡ none)
unfolding parse_ip
test_refused = (refl, refl, refl)

test_mapped : parse_ip (codes "::ffff:1.2.3.4") ≡ parse_ip (codes "1.2.3.4")
unfolding parse_ip
test_mapped = refl
