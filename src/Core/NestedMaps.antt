-- ===== src/Core/NestedMaps.antt =====
-- internal/core/nested_maps.go: record intents by name, kind and value. A Go pointer to an inner map
-- is shared with the outer map, so a write through it is a write of the inner map back into it.
pub mod View
use docker_coredns_sync.Prelude.{List, Option, Text, [], nat_eq, some, text_eq, ◌++◌, ◌>>=◌, ◌∷◌}
use docker_coredns_sync.GoMap as Map
use docker_coredns_sync.GoMap.{Map, insert, lookup}
use docker_coredns_sync.Util as DefaultMap
use docker_coredns_sync.Util.{DefaultMap, get, peek, set}
use docker_coredns_sync.Domain.Kind.{RecordKind, kind_eq}
use docker_coredns_sync.Domain.Intent.{RecordIntent}

-- recordMap; the factory of this map, which gives nil, is reached only by Get, which nothing calls.
abbrev pub RecordMap : Type 0
RecordMap = Map Text RecordIntent

abbrev pub new_record_map : RecordMap
new_record_map = []

abbrev pub KindMap : Type 0
KindMap = DefaultMap RecordKind RecordMap new_record_map

abbrev pub new_kind_map : KindMap
new_kind_map = record { internal = [] }

abbrev pub NestedRecordMap : Type 0
NestedRecordMap = DefaultMap Text KindMap new_kind_map

abbrev pub new_nested_record_map : NestedRecordMap
new_nested_record_map = record { internal = [] }

-- m.Get(name).Get(kind), with what is then done to the record map
unfoldable pub update :
    NestedRecordMap → Text → RecordKind → (RecordMap → RecordMap) → NestedRecordMap
unfolding DefaultMap.get DefaultMap.set
update m name kind change =
    let (kind_map, m') = DefaultMap.get m name in
    let (record_map, kind_map') = DefaultMap.get kind_map kind in
    DefaultMap.set m' name (DefaultMap.set kind_map' kind (change record_map))

-- m.Get(name).Get(kind).Set(value, ri)
unfoldable pub set_record :
    NestedRecordMap → Text → RecordKind → Text → RecordIntent → NestedRecordMap
unfolding update
set_record m name kind value ri = update m name kind (λ record_map. Map.insert record_map value ri)

-- m.Get(name).Get(kind).Delete(value)
unfoldable pub delete_record : NestedRecordMap → Text → RecordKind → Text → NestedRecordMap
unfolding update
delete_record m name kind value = update m name kind (λ record_map. Map.delete record_map value)

-- GetAllValues
unfoldable pub record_map_values : List RecordMap → List RecordIntent
record_map_values [] = []
record_map_values (record_map ∷ rest) = Map.values record_map ++ record_map_values rest

unfoldable pub kind_map_values : List KindMap → List RecordIntent
unfolding record_map_values DefaultMap.values
kind_map_values [] = []
kind_map_values (kind_map ∷ rest) =
    record_map_values (DefaultMap.values kind_map) ++ kind_map_values rest

unfoldable pub get_all_values : NestedRecordMap → List RecordIntent
unfolding kind_map_values DefaultMap.values
get_all_values m = kind_map_values (DefaultMap.values m)

-- GetAllNames
unfoldable pub get_all_names : NestedRecordMap → List Text
unfolding DefaultMap.keys
get_all_names m = DefaultMap.keys m

-- The record map of a name and a kind, if both were written.
unfoldable pub peek_record_map : NestedRecordMap → Text → RecordKind → Option RecordMap
unfolding DefaultMap.peek
peek_record_map m name kind = do kind_map ← DefaultMap.peek m name; DefaultMap.peek kind_map kind

-- PeekNameKindRecords: none is the empty slice with false
unfoldable pub peek_name_kind_records :
    NestedRecordMap → Text → RecordKind → Option (List RecordIntent)
unfolding peek_record_map
peek_name_kind_records m name kind = do
  record_map ← peek_record_map m name kind
  some (Map.values record_map)

-- PeekNameKindRecord
unfoldable pub peek_name_kind_record :
    NestedRecordMap → Text → RecordKind → Text → Option RecordIntent
unfolding peek_record_map
peek_name_kind_record m name kind value = do
  record_map ← peek_record_map m name kind
  Map.lookup record_map value
