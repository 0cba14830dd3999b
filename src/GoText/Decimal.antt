-- ===== src/GoText/Decimal.antt =====
-- Decimal numbers: fmt's %d, strconv.ParseUint and strconv.Atoi.

use docker_coredns_sync.Prelude.{
  Bool, Eq, Option, Text, [], arith, codes, false, if◌then◌else◌, leb, ltb, nat_eq, none, refl,
  some, suc, text_eq, true, zero, ℕ, ◌%◌, ◌&&◌, ◌*◌, ◌+◌, ◌-◌, ◌/◌, ◌<◌, ◌==◌, ◌>>=◌, ◌^◌, ◌↔◌, ◌∷◌,
  ◌≡◌, ◌≢◌,
}

-- The digits of n in front of out. A round divides n by ten, so n + 1 rounds are enough.
unfoldable pub digits : ℕ → ℕ → Text → Text
digits zero n out = out
digits (suc f) n out =
    let rest = digits f (n / 10) ((b'0' + n % 10) ∷ out) in
    if ltb n 10 then (b'0' + n) ∷ out else rest

unfoldable pub print : ℕ → Text
unfolding digits
print n = digits (suc n) n []

-- The number that digits spell behind n.
unfoldable pub scan : ℕ → Text → Option ℕ
scan n [] = some n
scan n (c ∷ s) =
    let rest = scan (n * 10 + (c - b'0')) s in if leb b'0' c && leb c b'9' then rest else none

unfoldable pub parse : Text → Option ℕ
unfolding scan
parse [] = none
parse (c ∷ s) = scan 0 (c ∷ s)

-- strconv.ParseUint(s, 10, bits): an error for a sign, a blank or a value that does not fit
unfoldable pub parse_uint : Text → ℕ → Option ℕ
unfolding parse
parse_uint s bits = elim (parse s) [
  | none ↦ none
  | some n ↦ if ltb n (2 ^ bits) then some n else none
]

-- int, and strconv.Atoi: one sign, then digits
pub data ℤ : Type 0 where
  pos : ℕ → ℤ
  negsuc : ℕ → ℤ

unfoldable pub int_beq : ℤ → ℤ → Bool
int_beq (pos m) (pos n) = m == n
int_beq (negsuc m) (negsuc n) = m == n
int_beq (pos m) (negsuc n) = false
int_beq (negsuc m) (pos n) = false

pub int_beq_iff : (m n : ℤ) → (int_beq m n ≡ true) ↔ (m ≡ n)
unfolding int_beq
int_beq_iff m n = ground arith

instance abbrev pub int_eq : Eq ℤ
int_eq = record { beq = int_beq; beq_iff = int_beq_iff }

negate : ℕ → ℤ
negate zero = pos 0
negate (suc n) = negsuc n

-- The range of int is [-2^63, 2^63).
signed : Bool → ℕ → Option ℤ
unfolding negate
signed false n = if ltb n (2 ^ 63) then some (pos n) else none
signed true n = if leb n (2 ^ 63) then some (negate n) else none

unfoldable pub atoi : Text → Option ℤ
unfolding signed parse
atoi [] = none
atoi (c ∷ s) =
    if c == b'-'
    then (do n ← parse s; signed true n)
    else if c == b'+'
    then (do n ← parse s; signed false n)
    else (do n ← parse (c ∷ s); signed false n)

scan-digits : (f n : ℕ) (out : Text) → n < f → scan 0 (digits f n out) ≡ scan n out
unfolding scan digits
scan-digits zero n out h = absurd (omega arith)
scan-digits (suc f) n out h = ground (arith, scan-digits f (n / 10) ((b'0' + n % 10) ∷ out))

digits-ne-nil : (f n : ℕ) (out : Text) → out ≢ [] → digits f n out ≢ []
unfolding digits
digits-ne-nil zero n out h = h
digits-ne-nil (suc f) n out h = ground (arith, digits-ne-nil f (n / 10) ((b'0' + n % 10) ∷ out))

-- The digits of a number are never empty.
pub print-ne-nil : (n : ℕ) → print n ≢ []
unfolding print
print-ne-nil n = ground (arith, digits-ne-nil n (n / 10) ((b'0' + n % 10) ∷ []))

parse-scan : (s : Text) → s ≢ [] → parse s ≡ scan 0 s
unfolding parse
parse-scan [] h = absurd (h refl)
parse-scan (c ∷ s) h = refl

-- A printed number is read back.
pub parse-print : (n : ℕ) → parse (print n) ≡ some n
unfolding scan print
parse-print n = rw (parse-scan (print n) (print-ne-nil n)) (scan-digits (suc n) n [] (omega arith))

pub print_inj : (m n : ℕ) → print m ≡ print n → m ≡ n
print_inj m n h = ground (arith, parse-print m, parse-print n)

-- What ParseUint accepts fits its width.
pub parse_uint-lt : (s : Text) (bits : ℕ) {n : ℕ} → parse_uint s bits ≡ some n → n < 2 ^ bits
unfolding parse_uint
parse_uint-lt s bits h = ground arith

test_print : print 4090 ≡ codes "4090"
unfolding print
test_print = refl

test_atoi : (atoi (codes "-12") ≡ some (negsuc 11)) × (atoi (codes "x") ≡ none)
unfolding atoi
test_atoi = (refl, refl)
