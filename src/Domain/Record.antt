-- ===== src/Domain/Record.antt =====
-- Record of internal/domain/dns_record.go and its constructors, with internal/domain/record_factory.go.
pub mod Valid
use docker_coredns_sync.Prelude.{
  Bool, Option, Result, Text, [], arith, codes, err, if◌then◌else◌, nat_eq, none, not, ok, some,
  text_beq, text_beq_iff, text_eq, true, ◌&&◌, ◌++◌, ◌==◌, ◌||◌, ◌↔◌, ◌∷◌, ◌≡◌,
}
use docker_coredns_sync.GoNet.{Ip, is_v4, parse_ip}
use docker_coredns_sync.Domain.Hostname.{is_valid_hostname}
use docker_coredns_sync.Domain.Kind.{
  RecordKind, kind_beq, kind_beq_iff, kind_eq, kind_text, other_kind, parse_kind, record_a,
  record_aaaa, record_cname,
}

pub record Record : Type 0 where
  pub name : Text
  pub kind : RecordKind
  pub value : Text

pub data RecordError : Type 0 where
  invalid_a_name invalid_ipv4 invalid_aaaa_name invalid_ipv6 : Text → RecordError
  invalid_cname : Text → Text → RecordError
  unsupported_kind : Text → RecordError

-- ip == nil || ip.To4() == nil, on the result of net.ParseIP
unfoldable pub not_ipv4 : Option Ip → Bool
not_ipv4 none = true
not_ipv4 (some ip) = not (is_v4 ip)

-- ip == nil || ip.To16() == nil || ip.To4() != nil; a parsed address always has sixteen bytes
unfoldable pub not_ipv6 : Option Ip → Bool
not_ipv6 none = true
not_ipv6 (some ip) = is_v4 ip

unfoldable pub new_a : Text → Text → Result RecordError Record
unfolding not_ipv4
new_a name ipv4 =
    if not (is_valid_hostname name)
    then err (invalid_a_name name)
    else if not_ipv4 (parse_ip ipv4)
    then err (invalid_ipv4 ipv4)
    else ok (record { name = name; kind = record_a; value = ipv4 })

unfoldable pub new_aaaa : Text → Text → Result RecordError Record
unfolding not_ipv6
new_aaaa name ipv6 =
    if not (is_valid_hostname name)
    then err (invalid_aaaa_name name)
    else if not_ipv6 (parse_ip ipv6)
    then err (invalid_ipv6 ipv6)
    else ok (record { name = name; kind = record_aaaa; value = ipv6 })

unfoldable pub new_cname : Text → Text → Result RecordError Record
new_cname name target =
    if not (is_valid_hostname name) || not (is_valid_hostname target)
    then err (invalid_cname name target)
    else ok (record { name = name; kind = record_cname; value = target })

-- NewFromKind
unfoldable pub new_from_kind : RecordKind → Text → Text → Result RecordError Record
unfolding new_a new_aaaa new_cname
new_from_kind record_a name value = new_a name value
new_from_kind record_aaaa name value = new_aaaa name value
new_from_kind record_cname name value = new_cname name value
new_from_kind (other_kind kind) name value = err (unsupported_kind kind)

-- NewFromString
unfoldable pub new_from_string : Text → Text → Text → Result RecordError Record
unfolding new_from_kind
new_from_string kind name value = elim (parse_kind kind) [
  | none ↦ err (unsupported_kind kind)
  | some k ↦ new_from_kind k name value
]

-- Key
unfoldable pub key : Record → Text
unfolding kind_text
key r = r.name ++ (b'|' ∷ (kind_text r.kind ++ (b'|' ∷ r.value)))

-- Render
unfoldable pub render : Record → Text
unfolding kind_text
render r =
    let shown : Text = elim r.value [ [] ↦ codes "<no value>" | c ∷ s ↦ c ∷ s ] in
    b'[' ∷ (kind_text r.kind ++ (codes "] " ++ (r.name ++ (codes " -> " ++ shown))))

-- Equal
unfoldable pub equal : Record → Record → Bool
unfolding text_beq kind_beq
equal r o = r.name == o.name && r.kind == o.kind && r.value == o.value

-- IsA, IsAAAA, IsCNAME, IsAddress
unfoldable pub is_a : Record → Bool
unfolding kind_beq
is_a r = r.kind == record_a

unfoldable pub is_aaaa : Record → Bool
unfolding kind_beq
is_aaaa r = r.kind == record_aaaa

unfoldable pub is_cname : Record → Bool
unfolding kind_beq
is_cname r = r.kind == record_cname

unfoldable pub is_address : Record → Bool
unfolding kind_beq
is_address r = r.kind == record_a || r.kind == record_aaaa

pub equal_iff : (r o : Record) → (equal r o ≡ true) ↔ (r ≡ o)
unfolding equal
equal_iff r o =
    ground
      (arith, text_beq_iff r.name o.name, kind_beq_iff r.kind o.kind, text_beq_iff r.value o.value)
