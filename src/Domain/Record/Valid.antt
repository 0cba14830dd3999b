-- ===== src/Domain/Record/Valid.antt =====
-- Well-formed records, and what the constructors accept.
use docker_coredns_sync.Prelude.{
  Text, arith, false, nat_eq, ok, some, subst, sym, text_eq, true, ◌≡◌,
}
use docker_coredns_sync.GoNet.{Ip, is_v4, parse_ip}
use docker_coredns_sync.Domain.Hostname.{is_valid_hostname}
use docker_coredns_sync.Domain.Kind.{
  RecordKind, kind_eq, other_kind, record_a, record_aaaa, record_cname,
}
use docker_coredns_sync.Domain.Record.{Record, new_from_kind}

-- A value that fits its kind: an IPv4 address, an IPv6 address that is no IPv4 one, or a hostname.
abbrev pub ValueFits : RecordKind → Text → Type 0
ValueFits record_a value = (ip : Ip) × (parse_ip value ≡ some ip) × (is_v4 ip ≡ true)
ValueFits record_aaaa value = (ip : Ip) × (parse_ip value ≡ some ip) × (is_v4 ip ≡ false)
ValueFits record_cname value = is_valid_hostname value ≡ true
ValueFits (other_kind kind) value = ⊥

pub record IsWellFormed (r : Record) : Type 0 where
  pub name_valid : is_valid_hostname r.name ≡ true
  pub value_fits : ValueFits r.kind r.value

new_from_kind_inv :
    (kind : RecordKind) (name value : Text) {r : Record}
    → new_from_kind kind name value ≡ ok r
    → (is_valid_hostname name ≡ true)
      × ValueFits kind value
      × (r ≡ record { name = name; kind = kind; value = value })
unfolding new_from_kind
new_from_kind_inv record_a name value h = ground arith
new_from_kind_inv record_aaaa name value h = ground arith
new_from_kind_inv record_cname name value h = ground arith
new_from_kind_inv (other_kind kind) name value h = cc

-- Each record that NewFromKind returns has the kind, name and value that it was given, and is well formed.
pub new_from_kind_sound :
    (kind : RecordKind) (name value : Text) {r : Record}
    → new_from_kind kind name value ≡ ok r
    → IsWellFormed r × (r ≡ record { name = name; kind = kind; value = value })
new_from_kind_sound kind name value {r} h =
    let (valid, fits, e) = new_from_kind_inv kind name value h in
    (subst IsWellFormed (sym e) (record { name_valid = valid; value_fits = fits }), e)

-- NewFromKind builds every well-formed record.
pub new_from_kind_complete :
    (r : Record) → IsWellFormed r → new_from_kind r.kind r.name r.value ≡ ok r
unfolding new_from_kind
new_from_kind_complete r w = ground arith
