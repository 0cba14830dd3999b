-- ===== src/Domain/Kind.antt =====
-- RecordKind of internal/domain/dns_record.go. The Go type is a string with three constants; `other_kind`
-- stands for a string that is none of them.
use docker_coredns_sync.Prelude.{
  Bool, Eq, Option, Text, arith, codes, false, if◌then◌else◌, nat_eq, none, some, text_beq,
  text_beq_iff, text_eq, true, ◌==◌, ◌↔◌, ◌≡◌, ◌≢◌,
}
use docker_coredns_sync.GoText.{to_upper}

pub data RecordKind : Type 0 where
  record_a record_aaaa record_cname : RecordKind
  other_kind : Text → RecordKind

unfoldable pub kind_beq : RecordKind → RecordKind → Bool
unfolding text_beq
kind_beq record_a record_a = true
kind_beq record_aaaa record_aaaa = true
kind_beq record_cname record_cname = true
kind_beq (other_kind s) (other_kind t) = s == t
kind_beq _ _ = false

pub kind_beq_iff : (k l : RecordKind) → (kind_beq k l ≡ true) ↔ (k ≡ l)
unfolding kind_beq
kind_beq_iff (other_kind s) (other_kind t) = ground (arith, text_beq_iff s t)
kind_beq_iff k l = ground arith

instance abbrev pub kind_eq : Eq RecordKind
kind_eq = record { beq = kind_beq; beq_iff = kind_beq_iff }

-- string(kind)
unfoldable pub kind_text : RecordKind → Text
kind_text record_a = codes "A"
kind_text record_aaaa = codes "AAAA"
kind_text record_cname = codes "CNAME"
kind_text (other_kind s) = s

-- RecordKind(s)
unfoldable pub kind_of_text : Text → RecordKind
unfolding text_beq
kind_of_text s =
    if s == codes "A"
    then record_a
    else if s == codes "AAAA"
    then record_aaaa
    else if s == codes "CNAME"
    then record_cname
    else other_kind s

-- ParseKind of internal/domain/record_factory.go
unfoldable pub parse_kind : Text → Option RecordKind
unfolding text_beq to_upper
parse_kind s =
    if to_upper s == codes "A"
    then some record_a
    else if to_upper s == codes "AAAA"
    then some record_aaaa
    else if to_upper s == codes "CNAME"
    then some record_cname
    else none

pub kind_of_text-kind_text : (s : Text) → kind_text (kind_of_text s) ≡ s
unfolding kind_text kind_of_text
kind_of_text-kind_text s = ground (
  arith,
  text_beq_iff s (codes "A"),
  text_beq_iff s (codes "AAAA"),
  text_beq_iff s (codes "CNAME"),
)

pub kind_beq_ne : (k l : RecordKind) → k ≢ l → kind_beq k l ≡ false
kind_beq_ne k l h = ground (arith, kind_beq_iff k l)
