-- ===== src/Core/Filter/Chosen.antt =====
-- Step 2 of FilterRecordIntents on a map that step 1 made: what is chosen of each name.
use docker_coredns_sync.Prelude.{
  In, In-All, List, Option-cases, Text, [], ap, arith, false, inl, inr, nat_eq, none, refl, some,
  subst, sym, text_eq, true, ◌∙◌, ◌∷◌, ◌≡◌, ◌⊎◌,
}
use docker_coredns_sync.GoMap as Map
use docker_coredns_sync.GoMap.{Map, lookup, values}
use docker_coredns_sync.GoMap.Entries.{Entries, Entries-lookup}
use docker_coredns_sync.GoMap.Distinct.{lookup_of_In}
use docker_coredns_sync.Domain.Kind.{RecordKind, kind_eq, record_cname, record_a, record_aaaa}
use docker_coredns_sync.Domain.Record.{Record}
use docker_coredns_sync.Domain.Intent.{RecordIntent}
use docker_coredns_sync.Core.NestedMaps.{
  NestedRecordMap, RecordMap, peek_name_kind_record, peek_name_kind_records, peek_record_map,
}
use docker_coredns_sync.Core.Filter.{
  addr_records, first, should_replace_all_existing, slice, join_addresses, resolve_all, resolve_one,
}
use docker_coredns_sync.Core.Filter.Good.{AllGood, at}
use docker_coredns_sync.Core.Filter.Dedup.{cname_at}
use docker_coredns_sync.Core.Filter.Resolve.{BothKept, Kept, Ready, resolve-InMaps}
use docker_coredns_sync.Core.Filter.Maps.{InMaps}
use docker_coredns_sync.Core.Validation.Rules.{IsAddressKind}

module _ (m : NestedRecordMap) where
  abbrev pub addresses_of : Text → List RecordIntent
  addresses_of n = slice (addr_records m n)

  -- No CNAME of the name takes the place of its addresses.
  abbrev pub Unbeaten : Text → Type 0
  Unbeaten n =
      (c : RecordIntent)
      → cname_at m n ≡ some c
      → should_replace_all_existing c (addresses_of n) ≡ false

  -- What step 2 keeps under a name, a kind and a value.
  abbrev pub Chosen : Text → RecordKind → Text → RecordIntent → Type 0
  Chosen n k v ri =
      (ri.rec ≡ at n k v)
      × (((k ≡ record_cname)
            × (cname_at m n ≡ some ri)
            × (should_replace_all_existing ri (addresses_of n) ≡ true))
          ⊎ (IsAddressKind k × (peek_name_kind_record m n k v ≡ some ri) × Unbeaten n))

  cname_at_of_first :
      (n : Text) (cs : List RecordIntent) (r : RecordIntent)
      → peek_name_kind_records m n record_cname ≡ some cs
      → first cs ≡ some r
      → cname_at m n ≡ some r
  unfolding cname_at peek_name_kind_records
  cname_at_of_first n cs r p e = elim (Option-cases (peek_record_map m n record_cname)) [
    | inl absent ↦ absurd (ground arith)
    | inr (rm, found) ↦ let same : Map.values rm ≡ cs = ground arith in rw (found, same) e
  ]

  no_cname : (n : Text) → peek_name_kind_records m n record_cname ≡ none → cname_at m n ≡ none
  unfolding cname_at peek_name_kind_records
  no_cname n p = elim (Option-cases (peek_record_map m n record_cname)) [
    | inl absent ↦ rw absent refl
    | inr (rm, found) ↦ absurd (ground arith)
  ]

  module _ (good : AllGood m) where
    single_cname :
        (n : Text) (cs : List RecordIntent)
        → peek_name_kind_records m n record_cname ≡ some cs
        → (r : RecordIntent) × (cs ≡ r ∷ []) × (r.rec ≡ at n record_cname r.rec.value)
    unfolding peek_name_kind_records Map.values
    single_cname n cs p = elim (Option-cases (peek_record_map m n record_cname)) [
      | inl absent ↦ absurd (ground arith)
      | inr (rm, found) ↦
          let g = good n record_cname rm found in
          let (r, one) = g.single refl in
          let same : Map.values rm ≡ cs = ground arith in
          let keyed =
            subst (λ x. Entries (λ (v : Text) (ri : RecordIntent). ri.rec ≡ at n record_cname v) x)
              one g.keyed in
          (r, sym same ∙ ap Map.values one, keyed.0)
    ]

    address-Chosen :
        (n : Text) (k : RecordKind) (rm : RecordMap)
        → peek_record_map m n k ≡ some rm
        → IsAddressKind k
        → Unbeaten n
        → (ri : RecordIntent) → In ri (Map.values rm)
        → Chosen n k ri.rec.value ri
    unfolding peek_name_kind_record
    address-Chosen n k rm found address unbeaten ri mem =
        let g = good n k rm found in
        let (v, here) = lookup_of_In rm ri g.distinct mem in
        let e : ri.rec ≡ at n k v =
          Entries-lookup (λ (w : Text) (x : RecordIntent). x.rec ≡ at n k w) rm v ri g.keyed here in
        let value : v ≡ ri.rec.value = ap (λ (r : Record). r.value) (sym e) in
        subst (λ w. Chosen n k w ri) value (e, inr (address, (rw found here), unbeaten))

    address-Kept :
        (n : Text) (k : RecordKind)
        → IsAddressKind k
        → Unbeaten n
        → Kept Chosen n k (slice (peek_name_kind_records m n k))
    unfolding peek_name_kind_records
    address-Kept n k address unbeaten = elim (Option-cases (peek_record_map m n k)) [
      | inl absent ↦ rw absent tt
      | inr (rm, found) ↦ rw found (
          In-All (λ ri. Chosen n k ri.rec.value ri) (Map.values rm)
            (address-Chosen n k rm found address unbeaten))
    ]

    replaces_none : (r : RecordIntent) → should_replace_all_existing r [] ≡ true
    unfolding should_replace_all_existing
    replaces_none r = refl

    no_addresses :
        (n : Text)
        → peek_name_kind_records m n record_a ≡ none
        → peek_name_kind_records m n record_aaaa ≡ none
        → addresses_of n ≡ []
    unfolding addr_records join_addresses
    no_addresses n p q = rw (p, q) refl

    first_same :
        (cs : List RecordIntent) (r s : RecordIntent) → cs ≡ r ∷ [] → first cs ≡ some s → s ≡ r
    unfolding first
    first_same cs r s e h = ground arith

    first_one : (cs : List RecordIntent) (r : RecordIntent) → cs ≡ r ∷ [] → first cs ≡ some r
    unfolding first
    first_one cs r e = rw e refl

    both-Kept :
        (n : Text)
        → Unbeaten n
        → BothKept Chosen n
            (peek_name_kind_records m n record_a)
            (peek_name_kind_records m n record_aaaa)
    both-Kept n unbeaten = (
      address-Kept n record_a (inl refl) unbeaten,
      address-Kept n record_aaaa (inr refl) unbeaten,
    )

    name-Ready :
        (n : Text)
        → Ready Chosen n
            (addresses_of n)
            (peek_name_kind_records m n record_a)
            (peek_name_kind_records m n record_aaaa)
            (peek_name_kind_records m n record_cname)
    name-Ready n = record {
      alone = λ p q r. rw (no_addresses n p q) (replaces_none r);
      headed = λ cs p. let (r, one, e) = single_cname n cs p in (r, first_one cs r one);
      wins = λ cs s p f w.
          let (r, one, e) = single_cname n cs p in
          let same : r ≡ s = sym (first_same cs r s one f) in
          (
            subst (λ x. x.rec ≡ at n record_cname x.rec.value) same e,
            inl (refl, cname_at_of_first n cs s p f, w),
          );
      loses = λ cs s p f w. both-Kept n (λ c found. cc (found, cname_at_of_first n cs s p f, w));
      free = λ p. both-Kept n (λ c found. absurd (cc (found, no_cname n p)));
    }

    -- Step 2 returns, and what it keeps is chosen.
    pub resolve_all-InMaps :
        (names : List Text) (out : NestedRecordMap)
        → InMaps Chosen out
        → (end : NestedRecordMap) × (resolve_all m out names ≡ some end) × InMaps Chosen end
    unfolding resolve_all resolve_one
    resolve_all-InMaps [] out h = (out, refl, h)
    resolve_all-InMaps (n ∷ names) out h =
        let (next, e, h') =
          resolve-InMaps Chosen out n (addresses_of n) (peek_name_kind_records m n record_a)
            (peek_name_kind_records m n record_aaaa) (peek_name_kind_records m n record_cname)
            (name-Ready n) h in
        let (end, f, last) = resolve_all-InMaps names next h' in (end, rw e f, last)
