-- ===== src/Core/NestedMaps/View.antt =====
-- What a nested map holds under a name and a kind after a write.
use docker_coredns_sync.Prelude.{
  Option, Text, [], arith, if◌then◌else◌, nat_eq, none, refl, some, text_beq_iff, text_eq, ◌&&◌,
  ◌==◌, ◌≡◌,
}
use docker_coredns_sync.GoMap as Map
use docker_coredns_sync.Util as DefaultMap
use docker_coredns_sync.Util.Laws.{get_lem, or_default, peek-set-get}
use docker_coredns_sync.Domain.Intent.{RecordIntent}
use docker_coredns_sync.GoMap.Laws.{lookup-insert}
use docker_coredns_sync.Domain.Kind.{RecordKind, kind_beq_iff, kind_eq}
use docker_coredns_sync.Core.NestedMaps.{
  KindMap, NestedRecordMap, RecordMap, new_record_map, peek_record_map, update, new_kind_map,
  peek_name_kind_record, set_record,
}

abbrev pub or_new : Option RecordMap → RecordMap
or_new = or_default new_record_map

lookup-empty : (v : Text) → Map.lookup {V = RecordIntent} [] v ≡ none
unfolding Map.lookup
lookup-empty v = refl

peek_empty : (k : RecordKind) → DefaultMap.peek new_kind_map k ≡ none
unfolding DefaultMap.peek Map.lookup
peek_empty k = refl

module _ (m : NestedRecordMap) (n : Text) (k : RecordKind) (change : RecordMap → RecordMap)
    (n' : Text) (k' : RecordKind) where
  pub peek_record_map-update : peek_record_map (update m n k change) n' k' ≡ (
      if n == n' && k == k'
      then some (change (or_new (peek_record_map m n k)))
      else peek_record_map m n' k')
  unfolding peek_record_map update
  peek_record_map-update =
      let kind_map : KindMap = (DefaultMap.get m n).0 in
      ground (
        arith,
        get_lem m n,
        get_lem kind_map k,
        peek-set-get kind_map k (change (DefaultMap.get kind_map k).0) k',
        peek-set-get m n
            (DefaultMap.set (DefaultMap.get kind_map k).1 k (change (DefaultMap.get kind_map k).0))
            n',
        text_beq_iff n n',
        kind_beq_iff k k',
        peek_empty k',
        peek_empty k,
      )

-- A record that is written is found, and no other is found otherwise than before.
pub peek-set_record :
    (m : NestedRecordMap) (n : Text) (k : RecordKind) (v : Text) (ri : RecordIntent) (n' : Text)
    (k' : RecordKind) (v' : Text)
    → peek_name_kind_record (set_record m n k v ri) n' k' v'
      ≡ (if (n == n' && k == k') && v == v' then some ri else peek_name_kind_record m n' k' v')
unfolding peek_name_kind_record set_record
peek-set_record m n k v ri n' k' v' = ground (
  arith,
  peek_record_map-update m n k (λ (record_map : RecordMap). Map.insert record_map v ri) n' k',
  lookup-insert (or_new (peek_record_map m n k)) v ri v',
  text_beq_iff n n',
  kind_beq_iff k k',
  text_beq_iff v v',
  lookup-empty v',
)
