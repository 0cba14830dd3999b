-- ===== src/Core/Filter/Represented.antt =====
-- FilterRecordIntents drops no name: what it returns for a record intent of its input.
use docker_coredns_sync.Prelude.{
  In, List, Option-cases, Text, ap, arith, inl, inr, nat_eq, none, refl, some, subst, sym, text_eq,
  ◌∙◌, ◌≡◌, ◌≢◌, ◌⊎◌,
}
use docker_coredns_sync.Domain.Kind.{RecordKind, kind_eq, record_cname}
use docker_coredns_sync.Domain.Record.{Record}
use docker_coredns_sync.Domain.Intent.{RecordIntent}
use docker_coredns_sync.Core.NestedMaps.{
  NestedRecordMap, RecordMap, get_all_names, get_all_values, peek_name_kind_record,
  peek_name_kind_records, peek_record_map,
}
use docker_coredns_sync.Core.Filter.Best.{IsAlias, IsFor}
use docker_coredns_sync.Core.Filter.Chosen.{Chosen}
use docker_coredns_sync.Core.Filter.Complete.{Settled}
use docker_coredns_sync.Core.Filter.Dedup.{cname_at}
use docker_coredns_sync.Core.Filter.Good.{at}
use docker_coredns_sync.Core.Filter.Maps.{InMaps}
use docker_coredns_sync.Core.Filter.Top.{Top}
use docker_coredns_sync.Core.Filter.Written.{
  Has, InMaps-peek, get_all_names_found, get_all_values_found, record_map_of,
}
use docker_coredns_sync.Core.Validation.Rules.{IsAddressKind}

-- A candidate for an address of a name.
abbrev pub IsAddressOf : Text → RecordIntent → Type 0
IsAddressOf n c = IsAddressKind c.rec.kind × (c.rec.name ≡ n)

-- Something stands for a record intent: a CNAME of its name, or an address of its name, which is for the
-- same record if the record intent is an address.
abbrev pub Represented : List RecordIntent → RecordIntent → Type 0
Represented out c =
    (r : RecordIntent) × In r out
    × (IsAlias c.rec.name r
        ⊎ (IsAddressOf c.rec.name r
            × (IsAddressKind c.rec.kind → IsFor c.rec.name c.rec.kind c.rec.value r)))

module _ (ris : List RecordIntent) (m end : NestedRecordMap)
    (best : (n : Text) (k : RecordKind) (v : Text)
      → IsAddressKind k
      → Top (IsFor n k v) ris (peek_name_kind_record m n k v))
    (bests : (n : Text) → Top (IsAlias n) ris (cname_at m n)) (kept : InMaps (Chosen m) end)
    (settled : (n : Text) → In n (get_all_names m) → Settled m n end) where
  placed :
      (n : Text) (k : RecordKind) (v : Text) (r : RecordIntent)
      → peek_name_kind_record end n k v ≡ some r
      → r.rec ≡ at n k v
  placed n k v r h = (InMaps-peek (Chosen m) end n k v r kept h).0

  by_alias :
      (c : RecordIntent) (v : Text)
      → Has end c.rec.name record_cname v
      → Represented (get_all_values end) c
  by_alias c v (r, h) =
      let e = placed c.rec.name record_cname v r h in
      (
        r,
        get_all_values_found end c.rec.name record_cname v r h,
        inl (ap (λ (x : Record). x.kind) e, ap (λ (x : Record). x.name) e),
      )

  by_address :
      (c : RecordIntent) (k : RecordKind) (v : Text)
      → IsAddressKind k
      → (IsAddressKind c.rec.kind → (k ≡ c.rec.kind) × (v ≡ c.rec.value))
      → Has end c.rec.name k v
      → Represented (get_all_values end) c
  by_address c k v is same (r, h) =
      let e = placed c.rec.name k v r h in
      let kind : r.rec.kind ≡ k = ap (λ (x : Record). x.kind) e in
      let name : r.rec.name ≡ c.rec.name = ap (λ (x : Record). x.name) e in
      let value : r.rec.value ≡ v = ap (λ (x : Record). x.value) e in
      (
        r,
        get_all_values_found end c.rec.name k v r h,
        inr (
          (subst IsAddressKind (sym kind) is, name),
          λ a. (name, kind ∙ (same a).0, value ∙ (same a).1),
        ),
      )

  placed_address :
      (c : RecordIntent)
      → In c ris
      → IsAddressKind c.rec.kind
      → Has m c.rec.name c.rec.kind c.rec.value
  placed_address c h is =
      elim (Option-cases (peek_name_kind_record m c.rec.name c.rec.kind c.rec.value)) [
        | inl absent ↦ absurd (
            subst (Top (IsFor c.rec.name c.rec.kind c.rec.value) ris) absent
              (best c.rec.name c.rec.kind c.rec.value is) c h (refl, refl, refl))
        | inr found ↦ found
      ]

  pub address-Represented :
      (c : RecordIntent) → In c ris → IsAddressKind c.rec.kind → Represented (get_all_values end) c
  address-Represented c h is =
      let has = placed_address c h is in
      let (rm, there, here) = record_map_of m c.rec.name c.rec.kind c.rec.value has.0 has.1 in
      elim (settled c.rec.name (get_all_names_found m c.rec.name c.rec.kind rm there)) [
        | inl (v, alias) ↦ by_alias c v alias
        | inr (all, why) ↦
            by_address c c.rec.kind c.rec.value is (λ a. (refl, refl))
              (all c.rec.kind c.rec.value is has)
      ]

  placed_cname :
      (c : RecordIntent)
      → In c ris
      → c.rec.kind ≡ record_cname
      → (rm : RecordMap) × (peek_record_map m c.rec.name record_cname ≡ some rm)
  unfolding cname_at
  placed_cname c h is = elim (Option-cases (peek_record_map m c.rec.name record_cname)) [
    | inl absent ↦
        let gone : cname_at m c.rec.name ≡ none = rw absent refl in
        absurd (subst (Top (IsAlias c.rec.name) ris) gone (bests c.rec.name) c h (is, refl))
    | inr found ↦ found
  ]

  some_records :
      (n : Text) (rm : RecordMap)
      → peek_record_map m n record_cname ≡ some rm
      → peek_name_kind_records m n record_cname ≢ none
  unfolding peek_name_kind_records
  some_records n rm found h = absurd (ground (arith, found, h))

  not_address : (c : RecordIntent) → c.rec.kind ≡ record_cname → ¬ IsAddressKind c.rec.kind
  not_address c e (inl a) = cc
  not_address c e (inr a) = cc

  pub cname-Represented :
      (c : RecordIntent) → In c ris → c.rec.kind ≡ record_cname → Represented (get_all_values end) c
  cname-Represented c h is =
      let (rm, found) = placed_cname c h is in
      elim (settled c.rec.name (get_all_names_found m c.rec.name record_cname rm found)) [
        | inl (v, alias) ↦ by_alias c v alias
        | inr (all, inl absent) ↦ absurd (some_records c.rec.name rm found absent)
        | inr (all, inr (k, v, address, has)) ↦
            by_address c k v address (λ a. absurd (not_address c is a)) (all k v address has)
      ]
