-- ===== src/Core/Filter/Complete.antt =====
-- Step 2 of FilterRecordIntents drops no name: what it writes for each name of its map.
use docker_coredns_sync.Prelude.{
  In, List, Text, [], ap, false, inl, inr, nat_eq, none, some, subst, sym, text_eq, ◌∷◌, ◌≡◌, ◌⊎◌,
}
use docker_coredns_sync.Core.Filter.Outcome.{
  bind_some, some_map, resolve-Outcome, keep_one-Has, keep_addresses-Has,
}
use docker_coredns_sync.GoMap.Entries.{Entries-lookup}
use docker_coredns_sync.Domain.Kind.{RecordKind, kind_eq, record_a, record_aaaa, record_cname}
use docker_coredns_sync.Domain.Record.{Record}
use docker_coredns_sync.Domain.Intent.{RecordIntent}
use docker_coredns_sync.Core.NestedMaps.{
  NestedRecordMap, peek_name_kind_record, peek_name_kind_records,
}
use docker_coredns_sync.Core.Filter.{
  keep_addresses, keep_one, resolve_all, resolve_one, set_records, should_replace_all_existing,
  slice,
}
use docker_coredns_sync.Core.Filter.Good.{AllGood, at}
use docker_coredns_sync.Core.Filter.Order.{not_all_replaced}
use docker_coredns_sync.Core.Filter.Chosen.{addresses_of}
use docker_coredns_sync.Core.Filter.Addresses.{address_found, slice_has_entry}
use docker_coredns_sync.Core.Filter.Written.{
  Has, record_map_of, set_records-Has, set_records_written, written,
}
use docker_coredns_sync.Core.Validation.Rules.{IsAddressKind}

module _ (m : NestedRecordMap) where
  -- A name is settled: a CNAME of it stands, or all its addresses do, and at least one if it had a CNAME.
  abbrev pub Settled : Text → NestedRecordMap → Type 0
  Settled n out =
      ((v : Text) × Has out n record_cname v)
      ⊎ (((k : RecordKind) (v : Text) → IsAddressKind k → Has m n k v → Has out n k v)
          × ((peek_name_kind_records m n record_cname ≡ none)
              ⊎ ((k : RecordKind) × (v : Text) × IsAddressKind k × Has m n k v)))

  Settled-grows :
      (n : Text) (out out' : NestedRecordMap)
      → ((k : RecordKind) (v : Text) → Has out n k v → Has out' n k v)
      → Settled n out
      → Settled n out'
  Settled-grows n out out' more (inl (v, h)) = inl (v, more record_cname v h)
  Settled-grows n out out' more (inr (all, some_one)) =
      inr (λ k v a h. more k v (all k v a h), some_one)

  resolve_one-Has :
      (out : NestedRecordMap) (n' : Text) (out' : NestedRecordMap)
      → resolve_one m out n' ≡ some out'
      → (n : Text) (k : RecordKind) (v : Text) → Has out n k v
      → Has out' n k v
  unfolding resolve_one
  resolve_one-Has out n' out' h n k v has =
      let a = peek_name_kind_records m n' record_a in
      let aaaa = peek_name_kind_records m n' record_aaaa in
      elim (resolve-Outcome out n' (addresses_of m n') a aaaa
        (peek_name_kind_records m n' record_cname) out' h) [
          | inl (c, e) ↦ subst (λ x. Has x n k v) (sym e) (keep_one-Has out n' c n k v has)
          | inr (e, why) ↦
              subst (λ x. Has x n k v) (sym e) (keep_addresses-Has out n' a aaaa n k v has)
        ]

  module _ (good : AllGood m) where
    value_of :
        (n : Text) (k : RecordKind) (v : Text) (r : RecordIntent)
        → peek_name_kind_record m n k v ≡ some r
        → r.rec.value ≡ v
    value_of n k v r h =
        let (rm, there, here) = record_map_of m n k v r h in
        ap (λ (x : Record). x.value)
          (Entries-lookup (λ (w : Text) (x : RecordIntent). x.rec ≡ at n k w) rm v r
            (good n k rm there).keyed here)

    addresses_kept :
        (out : NestedRecordMap) (n : Text) (k : RecordKind) (v : Text)
        → IsAddressKind k
        → Has m n k v
        → Has
            (keep_addresses out n
              (peek_name_kind_records m n record_a)
              (peek_name_kind_records m n record_aaaa))
            n
            k
            v
    unfolding keep_addresses
    addresses_kept out n k v (inl is) (r, h) =
        let own = slice (peek_name_kind_records m n record_a) in
        let there : In r own =
          subst (λ j. In r (slice (peek_name_kind_records m n j))) is
            (slice_has_entry m n k v r h) in
        set_records-Has (set_records out n record_a own) n k v n record_aaaa
          (slice (peek_name_kind_records m n record_aaaa))
          (subst (λ j. Has (set_records out n record_a own) n j v) (sym is)
            (subst (Has (set_records out n record_a own) n record_a) (value_of n k v r h)
              (set_records_written out n record_a own r there)))
    addresses_kept out n k v (inr is) (r, h) =
        let own = slice (peek_name_kind_records m n record_aaaa) in
        let before = set_records out n record_a (slice (peek_name_kind_records m n record_a)) in
        let there : In r own =
          subst (λ j. In r (slice (peek_name_kind_records m n j))) is
            (slice_has_entry m n k v r h) in
        subst (λ j. Has (set_records before n record_aaaa own) n j v) (sym is)
          (subst (Has (set_records before n record_aaaa own) n record_aaaa) (value_of n k v r h)
            (set_records_written before n record_aaaa own r there))

    beaten_by :
        (n : Text) (c : RecordIntent)
        → should_replace_all_existing c (addresses_of m n) ≡ false
        → (k : RecordKind) × (v : Text) × IsAddressKind k × Has m n k v
    beaten_by n c h =
        let (a, there, loses) = not_all_replaced c (addresses_of m n) h in
        let (k, v, is, found) = address_found m good n a there in (k, v, is, (a, found))

    resolve_one-Settled :
        (out : NestedRecordMap) (n : Text) (out' : NestedRecordMap)
        → resolve_one m out n ≡ some out'
        → Settled n out'
    unfolding resolve_one
    resolve_one-Settled out n out' h =
        let a = peek_name_kind_records m n record_a in
        let aaaa = peek_name_kind_records m n record_aaaa in
        elim (resolve-Outcome out n (addresses_of m n) a aaaa
          (peek_name_kind_records m n record_cname) out' h) [
            | inl (c, e) ↦ inl (
              c.rec.value,
              subst (λ x. Has x n record_cname c.rec.value) (sym e)
                  (unfold keep_one in written out n record_cname c.rec.value c),
            )
            | inr (e, inl absent) ↦ inr (
              λ k v is has. subst (λ x. Has x n k v) (sym e) (addresses_kept out n k v is has),
              inl absent,
            )
            | inr (e, inr (c, loses)) ↦ inr (
              λ k v is has. subst (λ x. Has x n k v) (sym e) (addresses_kept out n k v is has),
              inr (beaten_by n c loses),
            )
          ]

    resolve_all-Has :
        (names : List Text) (out end : NestedRecordMap)
        → resolve_all m out names ≡ some end
        → (n : Text) (k : RecordKind) (v : Text) → Has out n k v
        → Has end n k v
    unfolding resolve_all
    resolve_all-Has [] out end h n k v has = subst (λ x. Has x n k v) (sym (some_map out end h)) has
    resolve_all-Has (n' ∷ names) out end h n k v has =
        let (next, e, rest) = bind_some (resolve_one m out n') (λ x. resolve_all m x names) end h in
        resolve_all-Has names next end rest n k v (resolve_one-Has out n' next e n k v has)

    -- Step 2 settles each name that it visits.
    pub resolve_all-Settled :
        (names : List Text) (out end : NestedRecordMap)
        → resolve_all m out names ≡ some end
        → (n : Text) → In n names
        → Settled n end
    unfolding resolve_all
    resolve_all-Settled [] out end h n p = absurd p
    resolve_all-Settled (n' ∷ names) out end h n (inl e) =
        let (next, f, rest) = bind_some (resolve_one m out n') (λ x. resolve_all m x names) end h in
        Settled-grows n next end (resolve_all-Has names next end rest n)
          (subst (λ i. Settled i next) (sym e) (resolve_one-Settled out n' next f))
    resolve_all-Settled (n' ∷ names) out end h n (inr p) =
        let (next, f, rest) = bind_some (resolve_one m out n') (λ x. resolve_all m x names) end h in
        resolve_all-Settled names next end rest n p
