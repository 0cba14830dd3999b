-- ===== src/Core/Filter/Maps.antt =====
-- A predicate over all that a nested map holds.
use docker_coredns_sync.Prelude.{
  All, All-append, Eq, Option-cases, Text, [], inl, inr, nat_eq, text_eq, ◌∷◌,
}
use docker_coredns_sync.GoMap as Map
use docker_coredns_sync.GoMap.{Map, lookup, insert}
use docker_coredns_sync.GoMap.Entries.{Entries, Entries-insert, Entries-lookup}
use docker_coredns_sync.Util as DefaultMap
use docker_coredns_sync.Util.{DefaultMap, get, set}
use docker_coredns_sync.Domain.Kind.{RecordKind, kind_eq}
use docker_coredns_sync.Domain.Intent.{RecordIntent}
use docker_coredns_sync.Core.NestedMaps.{
  KindMap, NestedRecordMap, RecordMap, get_all_values, kind_map_values, record_map_values,
  set_record, update,
}

-- A read that writes the default keeps a predicate that the default has.
get-Entries :
    {K V : Type 0} {factory : V} ⦃e : Eq K⦄ (Q : K → V → Type 0) (d : DefaultMap K V factory)
    (k : K)
    → Q k factory
    → Entries Q d.internal
    → Q k (DefaultMap.get d k).0 × Entries Q (DefaultMap.get d k).1.internal
unfolding DefaultMap.get
get-Entries {K} {V} {factory} Q d k q h = elim (Option-cases (lookup d.internal k)) [
  | inl absent ↦ rw (absent, DefaultMap.get) (q, Entries-insert Q d.internal k factory q h)
  | inr (v, found) ↦ rw (found, DefaultMap.get) (Entries-lookup Q d.internal k v h found, h)
]

module _ (P : Text → RecordKind → Text → RecordIntent → Type 0) where
  abbrev pub InRecordMap : Text → RecordKind → RecordMap → Type 0
  InRecordMap n k rm = Entries (λ (v : Text) (ri : RecordIntent). P n k v ri) rm

  abbrev pub InKindMap : Text → KindMap → Type 0
  InKindMap n km = Entries (λ (k : RecordKind) (rm : RecordMap). InRecordMap n k rm) km.internal

  abbrev pub InMaps : NestedRecordMap → Type 0
  InMaps m = Entries (λ (n : Text) (km : KindMap). InKindMap n km) m.internal

  pub set_record-InMaps :
      (m : NestedRecordMap) (n : Text) (k : RecordKind) (v : Text) (ri : RecordIntent)
      → P n k v ri
      → InMaps m
      → InMaps (set_record m n k v ri)
  unfolding set_record update DefaultMap.set
  set_record-InMaps m n k v ri p h =
      let (kinds, names) = get-Entries (λ (i : Text) (km : KindMap). InKindMap i km) m n tt h in
      let km = (DefaultMap.get m n).0 in
      let (records, rest) =
        get-Entries (λ (j : RecordKind) (rm : RecordMap). InRecordMap n j rm) km k tt kinds in
      let rm = (DefaultMap.get km k).0 in
      Entries-insert (λ (i : Text) (x : KindMap). InKindMap i x) (DefaultMap.get m n).1.internal n
        (DefaultMap.set (DefaultMap.get km k).1 k (Map.insert rm v ri))
        (Entries-insert (λ (j : RecordKind) (x : RecordMap). InRecordMap n j x)
          (DefaultMap.get km k).1.internal k (Map.insert rm v ri)
          (Entries-insert (λ (w : Text) (x : RecordIntent). P n k w x) rm v ri p records) rest)
        names

  module _ (Q : RecordIntent → Type 0)
      (holds : (n : Text) (k : RecordKind) (v : Text) (ri : RecordIntent) → P n k v ri → Q ri) where
    values-All :
        (n : Text) (k : RecordKind) (rm : RecordMap) → InRecordMap n k rm → All Q (Map.values rm)
    unfolding Map.values
    values-All n k [] h = tt
    values-All n k ((v, ri) ∷ rm) h = (holds n k v ri h.0, values-All n k rm h.1)

    kinds-All :
        (n : Text) (m : Map RecordKind RecordMap)
        → Entries (λ (k : RecordKind) (rm : RecordMap). InRecordMap n k rm) m
        → All Q (record_map_values (Map.values m))
    unfolding Map.values record_map_values
    kinds-All n [] h = tt
    kinds-All n ((k, rm) ∷ m) h =
        All-append Q (Map.values rm) (record_map_values (Map.values m)) (values-All n k rm h.0)
          (kinds-All n m h.1)

    names-All :
        (m : Map Text KindMap)
        → Entries (λ (n : Text) (km : KindMap). InKindMap n km) m
        → All Q (kind_map_values (Map.values m))
    unfolding Map.values kind_map_values DefaultMap.values
    names-All [] h = tt
    names-All ((n, km) ∷ m) h =
        All-append Q (record_map_values (Map.values km.internal)) (kind_map_values (Map.values m))
          (kinds-All n km.internal h.0) (names-All m h.1)

    pub get_all_values-All : (m : NestedRecordMap) → InMaps m → All Q (get_all_values m)
    unfolding get_all_values DefaultMap.values
    get_all_values-All m h = names-All m.internal h
