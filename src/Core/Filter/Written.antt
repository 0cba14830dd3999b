-- ===== src/Core/Filter/Written.antt =====
-- What a nested map holds after the writes of step 2, and what GetAllValues makes of it.
use docker_coredns_sync.Prelude.{
  Bool-cases, In, In-append_left, In-append_right, List, Option-cases, Text, [], arith, inl, inr,
  nat_eq, refl, some, subst, sym, text_beq_iff, text_eq, ◌&&◌, ◌==◌, ◌∙◌, ◌∷◌, ◌≡◌,
}
use docker_coredns_sync.GoMap as Map
use docker_coredns_sync.GoMap.Distinct.{In-of_lookup}
use docker_coredns_sync.GoMap.Entries.{Entries, Entries-lookup}
use docker_coredns_sync.Util as DefaultMap
use docker_coredns_sync.Domain.Kind.{RecordKind, kind_beq_iff, kind_eq}
use docker_coredns_sync.Domain.Intent.{RecordIntent}
use docker_coredns_sync.Core.NestedMaps.{
  KindMap, NestedRecordMap, RecordMap, get_all_names, get_all_values, kind_map_values,
  peek_name_kind_record, peek_record_map, record_map_values, set_record,
}
use docker_coredns_sync.Core.NestedMaps.View.{peek-set_record}
use docker_coredns_sync.Core.Filter.{set_records}
use docker_coredns_sync.Core.Filter.Maps.{InMaps}

-- Something stands under a name, a kind and a value.
abbrev pub Has : NestedRecordMap → Text → RecordKind → Text → Type 0
Has m n k v = (r : RecordIntent) × (peek_name_kind_record m n k v ≡ some r)

module _ (out : NestedRecordMap) (n : Text) (k : RecordKind) (v : Text) where
  pub set_record-Has :
      (n' : Text) (k' : RecordKind) (v' : Text) (ri : RecordIntent)
      → Has out n k v
      → Has (set_record out n' k' v' ri) n k v
  set_record-Has n' k' v' ri (r, h) = elim (Bool-cases ((n' == n && k' == k) && v' == v)) [
    | inl same ↦ (ri, peek-set_record out n' k' v' ri n k v ∙ (rw same refl))
    | inr other ↦ (r, peek-set_record out n' k' v' ri n k v ∙ (rw other h))
  ]

  pub written : (ri : RecordIntent) → Has (set_record out n k v ri) n k v
  written ri = (
    ri,
    ground (
      arith,
      peek-set_record out n k v ri n k v,
      text_beq_iff n n,
      kind_beq_iff k k,
      text_beq_iff v v,
    ),
  )

pub set_records-Has :
    (out : NestedRecordMap) (n : Text) (k : RecordKind) (v : Text) (n' : Text) (k' : RecordKind)
    (ris : List RecordIntent)
    → Has out n k v
    → Has (set_records out n' k' ris) n k v
unfolding set_records
set_records-Has out n k v n' k' [] h = h
set_records-Has out n k v n' k' (ri ∷ ris) h =
    set_records-Has (set_record out n' k' ri.rec.value ri) n k v n' k' ris
      (set_record-Has out n k v n' k' ri.rec.value ri h)

pub set_records_written :
    (out : NestedRecordMap) (n : Text) (k : RecordKind) (ris : List RecordIntent) (r : RecordIntent)
    → In r ris
    → Has (set_records out n k ris) n k r.rec.value
unfolding set_records
set_records_written out n k [] r h = absurd h
set_records_written out n k (ri ∷ ris) r (inl e) =
    set_records-Has (set_record out n k ri.rec.value ri) n k r.rec.value n k ris (
      subst (λ x. Has (set_record out n k ri.rec.value ri) n k x.rec.value) (sym e)
        (written out n k ri.rec.value ri))
set_records_written out n k (ri ∷ ris) r (inr h) =
    set_records_written (set_record out n k ri.rec.value ri) n k ris r h

-- The maps that a record intent stands in
found_in :
    (m : NestedRecordMap) (n : Text) (k : RecordKind) (rm : RecordMap)
    → peek_record_map m n k ≡ some rm
    → (km : KindMap) × (Map.lookup m.internal n ≡ some km) × (Map.lookup km.internal k ≡ some rm)
unfolding peek_record_map DefaultMap.peek
found_in m n k rm h = elim (Option-cases (Map.lookup m.internal n)) [
  | inl absent ↦ absurd (ground (arith, h, absent))
  | inr (km, found) ↦ (km, found, ground (arith, h, found))
]

pub record_map_of :
    (m : NestedRecordMap) (n : Text) (k : RecordKind) (v : Text) (r : RecordIntent)
    → peek_name_kind_record m n k v ≡ some r
    → (rm : RecordMap) × (peek_record_map m n k ≡ some rm) × (Map.lookup rm v ≡ some r)
unfolding peek_name_kind_record
record_map_of m n k v r h = elim (Option-cases (peek_record_map m n k)) [
  | inl absent ↦ absurd (ground (arith, h, absent))
  | inr (rm, found) ↦ (rm, found, ground (arith, h, found))
]

keys_found :
    (m : Map.Map Text KindMap) (n : Text) (km : KindMap)
    → Map.lookup m n ≡ some km
    → In n (Map.keys m)
unfolding Map.lookup Map.keys
keys_found [] n km h = absurd (ground arith)
keys_found ((j, w) ∷ m) n km h = elim (Bool-cases (j == n)) [
  | inl same ↦ inl (sym ((text_beq_iff j n).0 (ground arith)))
  | inr other ↦ inr (keys_found m n km (ground arith))
]

pub get_all_names_found :
    (m : NestedRecordMap) (n : Text) (k : RecordKind) (rm : RecordMap)
    → peek_record_map m n k ≡ some rm
    → In n (get_all_names m)
unfolding get_all_names DefaultMap.keys
get_all_names_found m n k rm h =
    let (km, found, there) = found_in m n k rm h in keys_found m.internal n km found

from_record_map :
    (rms : List RecordMap) (rm : RecordMap) (r : RecordIntent)
    → In rm rms
    → In r (Map.values rm)
    → In r (record_map_values rms)
unfolding record_map_values
from_record_map [] rm r p h = absurd p
from_record_map (x ∷ rms) rm r (inl e) h =
    In-append_left r (Map.values x) (record_map_values rms)
      (subst (λ (y : RecordMap). In r (Map.values y)) e h)
from_record_map (x ∷ rms) rm r (inr p) h =
    In-append_right r (Map.values x) (record_map_values rms) (from_record_map rms rm r p h)

from_kind_map :
    (kms : List KindMap) (km : KindMap) (r : RecordIntent)
    → In km kms
    → In r (record_map_values (DefaultMap.values km))
    → In r (kind_map_values kms)
unfolding kind_map_values
from_kind_map [] km r p h = absurd p
from_kind_map (x ∷ kms) km r (inl e) h =
    In-append_left r (record_map_values (DefaultMap.values x)) (kind_map_values kms)
      (subst (λ (y : KindMap). In r (record_map_values (DefaultMap.values y))) e h)
from_kind_map (x ∷ kms) km r (inr p) h =
    In-append_right r (record_map_values (DefaultMap.values x)) (kind_map_values kms)
      (from_kind_map kms km r p h)

-- What stands in the map is among its values.
pub get_all_values_found :
    (m : NestedRecordMap) (n : Text) (k : RecordKind) (v : Text) (r : RecordIntent)
    → peek_name_kind_record m n k v ≡ some r
    → In r (get_all_values m)
unfolding get_all_values DefaultMap.values
get_all_values_found m n k v r h =
    let (rm, there, here) = record_map_of m n k v r h in
    let (km, outer, inner) = found_in m n k rm there in
    from_kind_map (Map.values m.internal) km r (In-of_lookup m.internal n km outer) (
      unfold DefaultMap.values in
      from_record_map (Map.values km.internal) rm r (In-of_lookup km.internal k rm inner)
        (In-of_lookup rm v r here))

pub InMaps-peek :
    (P : Text → RecordKind → Text → RecordIntent → Type 0) (m : NestedRecordMap) (n : Text)
    (k : RecordKind) (v : Text) (r : RecordIntent)
    → InMaps P m
    → peek_name_kind_record m n k v ≡ some r
    → P n k v r
InMaps-peek P m n k v r h found =
    let (rm, there, here) = record_map_of m n k v r found in
    let (km, outer, inner) = found_in m n k rm there in
    Entries-lookup (λ w ri. P n k w ri) rm v r
      (Entries-lookup (λ j (x : RecordMap). Entries (λ w ri. P n j w ri) x) km.internal k rm
        (Entries-lookup
          (λ i (x : KindMap).
            Entries (λ j (y : RecordMap). Entries (λ w ri. P i j w ri) y) x.internal)
          m.internal n km h outer)
        inner)
      here
