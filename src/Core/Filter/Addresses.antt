-- ===== src/Core/Filter/Addresses.antt =====
-- The addresses of a name, of the map that step 1 makes, as its entries.
use docker_coredns_sync.Prelude.{
  In, In-append_cases, In-append_left, In-append_right, List, Option, Option-cases, Text, [], arith,
  inl, inr, nat_eq, none, refl, some, subst, text_eq, ◌>>=◌, ◌↔◌, ◌≡◌, ◌⊎◌,
}
use docker_coredns_sync.GoMap as Map
use docker_coredns_sync.GoMap.Distinct.{In-of_lookup, lookup_of_In}
use docker_coredns_sync.Domain.Kind.{RecordKind, kind_eq, record_a, record_aaaa}
use docker_coredns_sync.Domain.Intent.{RecordIntent}
use docker_coredns_sync.Core.NestedMaps.{
  NestedRecordMap, peek_name_kind_record, peek_name_kind_records, peek_record_map,
}
use docker_coredns_sync.Core.Filter.{addr_records, join_addresses, slice}
use docker_coredns_sync.Core.Filter.Good.{AllGood}
use docker_coredns_sync.Core.Filter.Chosen.{addresses_of}
use docker_coredns_sync.Core.Validation.Rules.{IsAddressKind}

joined :
    (a aaaa : Option (List RecordIntent)) (ri : RecordIntent)
    → In ri (slice (join_addresses a aaaa)) ↔ (In ri (slice a) ⊎ In ri (slice aaaa))
unfolding join_addresses
joined none none ri = (λ h. absurd h, λ h. elim h [ inl x ↦ absurd x | inr x ↦ absurd x ])
joined none (some ys) ri = (λ h. inr h, λ h. elim h [ inl x ↦ absurd x | inr x ↦ x ])
joined (some xs) none ri = (
  λ h. In-append_cases ri xs [] h,
  λ h. elim h [ inl x ↦ In-append_left ri xs [] x | inr x ↦ absurd x ],
)
joined (some xs) (some ys) ri = (
  λ h. In-append_cases ri xs ys h,
  λ h. elim h [ inl x ↦ In-append_left ri xs ys x | inr y ↦ In-append_right ri xs ys y ],
)

module _ (m : NestedRecordMap) where
  -- What stands in the map is in the slice of its name and kind.
  pub slice_has_entry :
      (n : Text) (k : RecordKind) (v : Text) (ri : RecordIntent)
      → peek_name_kind_record m n k v ≡ some ri
      → In ri (slice (peek_name_kind_records m n k))
  unfolding peek_name_kind_record peek_name_kind_records
  slice_has_entry n k v ri h = elim (Option-cases (peek_record_map m n k)) [
    | inl absent ↦ absurd (ground (arith, h, absent))
    | inr (rm, found) ↦
        let here : Map.lookup rm v ≡ some ri = ground (arith, h, found) in
        rw found (In-of_lookup rm v ri here)
  ]

  pub found_address :
      (n : Text) (k : RecordKind) (v : Text) (ri : RecordIntent)
      → IsAddressKind k
      → peek_name_kind_record m n k v ≡ some ri
      → In ri (addresses_of m n)
  unfolding addr_records
  found_address n k v ri (inl a) h =
      (joined (peek_name_kind_records m n record_a) (peek_name_kind_records m n record_aaaa) ri).1 (
        inl (
          subst (λ j. In ri (slice (peek_name_kind_records m n j))) a (slice_has_entry n k v ri h)))
  found_address n k v ri (inr a) h =
      (joined (peek_name_kind_records m n record_a) (peek_name_kind_records m n record_aaaa) ri).1 (
        inr (
          subst (λ j. In ri (slice (peek_name_kind_records m n j))) a (slice_has_entry n k v ri h)))

  module _ (good : AllGood m) where
    entry_of_kind :
        (n : Text) (k : RecordKind) (ri : RecordIntent)
        → In ri (slice (peek_name_kind_records m n k))
        → (v : Text) × (peek_name_kind_record m n k v ≡ some ri)
    unfolding peek_name_kind_record peek_name_kind_records
    entry_of_kind n k ri h = elim (Option-cases (peek_record_map m n k)) [
      | inl absent ↦ absurd (subst (λ o. In ri (slice (do rm ← o; some (Map.values rm)))) absent h)
      | inr (rm, found) ↦
          let there = subst (λ o. In ri (slice (do rm ← o; some (Map.values rm)))) found h in
          let (v, here) = lookup_of_In rm ri (good n k rm found).distinct there in
          (v, rw found here)
    ]

    pub address_found :
        (n : Text) (ri : RecordIntent)
        → In ri (addresses_of m n)
        → (k : RecordKind) × (v : Text) × IsAddressKind k
          × (peek_name_kind_record m n k v ≡ some ri)
    unfolding addr_records
    address_found n ri h =
        elim ((joined (peek_name_kind_records m n record_a) (peek_name_kind_records m n record_aaaa)
            ri).0
          h) [
            | inl x ↦ let (v, e) = entry_of_kind n record_a ri x in (record_a, v, inl refl, e)
            | inr x ↦ let (v, e) = entry_of_kind n record_aaaa ri x in (record_aaaa, v, inr refl, e)
          ]
