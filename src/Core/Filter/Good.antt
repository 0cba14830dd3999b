-- ===== src/Core/Filter/Good.antt =====
-- What holds of the nested maps of FilterRecordIntents: a record intent stands under the name, kind
-- and value of its record, and a name has one CNAME at most.
use docker_coredns_sync.Prelude.{
  Bool-cases, Option-cases, Text, [], arith, inl, inr, nat_eq, refl, some, text_beq_iff, text_eq,
  ◌&&◌, ◌==◌, ◌∷◌, ◌≡◌, ◌≢◌,
}
use docker_coredns_sync.GoMap as Map
use docker_coredns_sync.GoMap.Entries.{Entries, Entries-insert}
use docker_coredns_sync.GoMap.Distinct.{Distinct, insert-Distinct}
use docker_coredns_sync.Domain.Kind.{RecordKind, kind_beq_iff, kind_eq, record_cname}
use docker_coredns_sync.Domain.Record.{Record}
use docker_coredns_sync.Domain.Intent.{RecordIntent}
use docker_coredns_sync.Core.NestedMaps.{
  NestedRecordMap, RecordMap, peek_record_map, set_record, update,
}
use docker_coredns_sync.Core.NestedMaps.View.{or_new, peek_record_map-update}

abbrev pub at : Text → RecordKind → Text → Record
at n k v = record { name = n; kind = k; value = v }

pub record IsGood (n : Text) (k : RecordKind) (record_map : RecordMap) : Type 0 where
  pub keyed : Entries (λ v ri. ri.rec ≡ at n k v) record_map
  pub distinct : Distinct record_map
  pub single : k ≡ record_cname → (ri : RecordIntent) × (record_map ≡ (ri.rec.value, ri) ∷ [])

abbrev pub AllGood : NestedRecordMap → Type 0
AllGood m =
    (n : Text) (k : RecordKind) (record_map : RecordMap)
    → peek_record_map m n k ≡ some record_map
    → IsGood n k record_map

pub update-AllGood :
    (m : NestedRecordMap) (n : Text) (k : RecordKind) (change : RecordMap → RecordMap)
    → IsGood n k (change (or_new (peek_record_map m n k)))
    → AllGood m
    → AllGood (update m n k change)
update-AllGood m n k change new good n' k' rm found = elim (Bool-cases (n == n' && k == k')) [
  | inl same ↦
      let names : n ≡ n' = ground (arith, text_beq_iff n n') in
      let kinds : k ≡ k' = ground (arith, kind_beq_iff k k') in
      let maps : change (or_new (peek_record_map m n k)) ≡ rm =
        ground (arith, peek_record_map-update m n k change n' k') in
      rw (← names, ← kinds, ← maps) new
  | inr differs ↦ good n' k' rm (ground (arith, peek_record_map-update m n k change n' k'))
]

-- Writing a record intent under its own name, kind and value.
insert-IsGood :
    (n : Text) (k : RecordKind) (record_map : RecordMap) (ri : RecordIntent)
    → k ≢ record_cname
    → ri.rec ≡ at n k ri.rec.value
    → IsGood n k record_map
    → IsGood n k (Map.insert record_map ri.rec.value ri)
insert-IsGood n k record_map ri address e good = record {
  keyed = Entries-insert (λ v r. r.rec ≡ at n k v) record_map ri.rec.value ri e good.keyed;
  distinct = insert-Distinct record_map ri.rec.value ri good.distinct;
  single = λ c. absurd (address c);
}

-- A record map that holds one record intent.
pub one-IsGood :
    (n : Text) (k : RecordKind) (ri : RecordIntent)
    → ri.rec ≡ at n k ri.rec.value
    → IsGood n k ((ri.rec.value, ri) ∷ [])
one-IsGood n k ri e = record { keyed = (e, tt); distinct = (tt, tt); single = λ _. (ri, refl) }

pub or_new-IsGood :
    (m : NestedRecordMap) (n : Text) (k : RecordKind)
    → k ≢ record_cname
    → AllGood m
    → IsGood n k (or_new (peek_record_map m n k))
or_new-IsGood m n k address good = elim (Option-cases (peek_record_map m n k)) [
  | inl absent ↦ rw absent (record { keyed = tt; distinct = tt; single = λ c. absurd (address c) })
  | inr (rm, found) ↦ rw found (good n k rm found)
]

-- set_record keeps the shape, for an address.
pub set_record-AllGood :
    (m : NestedRecordMap) (n : Text) (k : RecordKind) (ri : RecordIntent)
    → k ≢ record_cname
    → ri.rec ≡ at n k ri.rec.value
    → AllGood m
    → AllGood (set_record m n k ri.rec.value ri)
unfolding set_record
set_record-AllGood m n k ri address e good =
    update-AllGood m n k (λ record_map. Map.insert record_map ri.rec.value ri)
      (insert-IsGood n k (or_new (peek_record_map m n k)) ri address e
        (or_new-IsGood m n k address good))
      good
