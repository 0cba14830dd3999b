-- ===== src/Core/Reconcile.antt =====
-- ReconcileAndValidate of internal/core/reconciliation.go. The result is none where Go would panic, at
-- the index of an empty slice, and where the fuel of a cycle walk runs out. The two slices come out in the order of the maps, which Go leaves open.
-- Logging is left out.
pub mod Known
pub mod Decide
pub mod Sound
pub mod Collect
pub mod Stale
pub mod Safety
pub mod Placed
pub mod Skips
pub mod Quiet
use docker_coredns_sync.Prelude.{
  Bool, List, Option, Text, [], false, if◌then◌else◌, nat_eq, none, not, some, text_eq, true, ◌==◌,
  ◌>>=◌, ◌||◌, ◌∷◌,
}
use docker_coredns_sync.GoMap as Map
use docker_coredns_sync.GoMap.{Map, contains, insert, keys, values}
use docker_coredns_sync.State.{TextSet}
use docker_coredns_sync.Domain.Kind.{kind_eq, record_a, record_aaaa, record_cname}
use docker_coredns_sync.Domain.Record
use docker_coredns_sync.Domain.Record.{Record, is_a, is_aaaa, is_cname}
use docker_coredns_sync.Domain.Intent.{RecordIntent, before, equal, key}
use docker_coredns_sync.Core.NestedMaps.{
  NestedRecordMap, new_nested_record_map, peek_name_kind_record, peek_name_kind_records, set_record,
}
use docker_coredns_sync.Core.Validation.{ValidationError, validate_record}
use docker_coredns_sync.Core.Filter.{addr_records, first}

-- map[string]*domain.RecordIntent
abbrev pub IntentMap : Type 0
IntentMap = Map Text RecordIntent

-- desiredSet
unfoldable pub key_set : List RecordIntent → TextSet
unfolding insert
key_set [] = []
key_set (ri ∷ ris) = insert (key_set ris) (key ri) tt

-- The host of a record is dead: live is nil when garbage collection is off.
unfoldable pub is_orphaned : Option TextSet → RecordIntent → Bool
unfolding contains
is_orphaned none ri = false
is_orphaned (some live) ri = not (contains live ri.hostname)

-- The tests of step 1: whether an actual record is removed at once.
unfoldable pub is_stale : Text → Option TextSet → TextSet → RecordIntent → Bool
unfolding is_orphaned contains
is_stale hostname live desired_set ri =
    if contains desired_set (key ri)
    then false
    else if ri.hostname == hostname
    then true
    else is_orphaned live ri

pub record Actual : Type 0 where
  pub to_remove : IntentMap
  pub by_name_kind : NestedRecordMap

-- One round of step 1
unfoldable pub collect_one : Text → Option TextSet → TextSet → Actual → RecordIntent → Actual
unfolding is_stale insert set_record
collect_one hostname live desired_set acc ri =
    if is_stale hostname live desired_set ri
    then record acc { to_remove = insert acc.to_remove (key ri) ri }
    else record acc {
      by_name_kind = set_record acc.by_name_kind ri.rec.name ri.rec.kind ri.rec.value ri;
    }

-- Step 1
unfoldable pub collect : Text → Option TextSet → TextSet → Actual → List RecordIntent → Actual
unfolding collect_one
collect hostname live desired_set acc [] = acc
collect hostname live desired_set acc (ri ∷ actual) =
    collect hostname live desired_set (collect_one hostname live desired_set acc ri) actual

-- What step 2 decides for a desired record: to leave it out, or to evict some actual ones for it.
pub data Verdict : Type 0 where
  skip : Verdict
  evict : (evictions : IntentMap) → Verdict

-- d.Force || d.Created.Before(r.Created)
unfoldable pub wins : RecordIntent → RecordIntent → Bool
wins d r = d.force || before d.created r.created

-- for _, r := range records { evictions[r.Key()] = r }
unfoldable pub by_key : IntentMap → List RecordIntent → IntentMap
unfolding insert
by_key m [] = m
by_key m (r ∷ ris) = by_key (insert m (key r) r) ris

-- The case of an address: the CNAMEs of its name, and the record with its name, kind and value.
unfoldable pub decide_address :
    RecordIntent → Option (List RecordIntent) → Option RecordIntent → Option Verdict
unfolding first by_key
decide_address d (some cnames) same = do
  existing ← first cnames
  some (if wins d existing then evict (by_key [] cnames) else skip)
decide_address d none (some r) =
    some (if equal r d then skip else if wins d r then evict (by_key [] (r ∷ [])) else skip)
decide_address d none none = some (evict [])

-- olderThanAll
unfoldable pub older_than_all : RecordIntent → List RecordIntent → Bool
older_than_all d [] = true
older_than_all d (r ∷ ris) =
    if not (before d.created r.created) then false else older_than_all d ris

-- The case of a CNAME: the addresses and the CNAMEs of its name.
unfoldable pub decide_cname :
    RecordIntent → Option (List RecordIntent) → Option (List RecordIntent) → Option Verdict
unfolding first by_key older_than_all
decide_cname d (some all_addr) cnames =
    some (if d.force || older_than_all d all_addr then evict (by_key [] all_addr) else skip)
decide_cname d none (some cnames) = do
  existing ← first cnames
  some (
      if equal existing d then skip else if wins d existing then evict (by_key [] cnames) else skip)
decide_cname d none none = some (evict [])

-- The switch of step 2
unfoldable pub decide : NestedRecordMap → RecordIntent → Option Verdict
unfolding decide_address decide_cname peek_name_kind_record peek_name_kind_records addr_records
decide m d =
    if is_a d.rec
    then decide_address d (peek_name_kind_records m d.rec.name record_cname)
        (peek_name_kind_record m d.rec.name record_a d.rec.value)
    else if is_aaaa d.rec
    then decide_address d (peek_name_kind_records m d.rec.name record_cname)
        (peek_name_kind_record m d.rec.name record_aaaa d.rec.value)
    else if is_cname d.rec
    then decide_cname d (addr_records m d.rec.name)
        (peek_name_kind_records m d.rec.name record_cname)
    else some (evict [])

pub record Plan : Type 0 where
  pub to_add : IntentMap
  pub to_remove : IntentMap

-- for key := range m { keysToRemove[key] = struct{}{} }
unfoldable pub add_keys : TextSet → IntentMap → TextSet
unfolding insert
add_keys keys [] = keys
add_keys keys ((k, r) ∷ m) = add_keys (insert keys k tt) m

unfoldable pub without : TextSet → List RecordIntent → List RecordIntent
unfolding contains
without keys [] = []
without keys (r ∷ actual) =
    let rest = without keys actual in if not (contains keys (key r)) then r ∷ rest else rest

-- Step 3: the actual records that neither toRemoveMap nor evictions takes.
unfoldable pub simulated : IntentMap → IntentMap → List RecordIntent → List RecordIntent
unfolding without add_keys
simulated to_remove evictions actual = without (add_keys (add_keys [] to_remove) evictions) actual

-- for k, v := range evictions { toRemoveMap[k] = v }
unfoldable pub insert_all : IntentMap → IntentMap → IntentMap
unfolding insert
insert_all m [] = m
insert_all m ((k, r) ∷ evictions) = insert_all (insert m k r) evictions

-- The end of a round: the record is added if it is valid.
unfoldable pub finish : Plan → RecordIntent → IntentMap → Option ValidationError → Plan
unfolding insert insert_all
finish plan d evictions (some error) = plan
finish plan d evictions none = record {
  to_add = insert plan.to_add (Record.key d.rec) d;
  to_remove = insert_all plan.to_remove evictions;
}

unfoldable pub apply : List RecordIntent → Plan → RecordIntent → Verdict → Option Plan
unfolding finish simulated
apply actual plan d skip = some plan
apply actual plan d (evict evictions) = do
  error ← validate_record d (simulated plan.to_remove evictions actual)
  some (finish plan d evictions error)

-- Step 2
unfoldable pub reconcile_loop :
    NestedRecordMap → List RecordIntent → Plan → List RecordIntent → Option Plan
unfolding decide apply
reconcile_loop m actual plan [] = some plan
reconcile_loop m actual plan (d ∷ desired) = do
  verdict ← decide m d
  plan' ← apply actual plan d verdict
  reconcile_loop m actual plan' desired

-- The maps of ReconcileAndValidate
unfoldable pub reconcile_plan :
    List RecordIntent → List RecordIntent → Text → Option TextSet → Option Plan
unfolding reconcile_loop collect key_set
reconcile_plan desired actual hostname live =
    let start =
      collect hostname live (key_set desired)
        (record { to_remove = []; by_name_kind = new_nested_record_map }) actual in
    reconcile_loop start.by_name_kind actual (record { to_add = []; to_remove = start.to_remove })
      desired

-- ReconcileAndValidate
unfoldable pub reconcile_and_validate :
    List RecordIntent
    → List RecordIntent
    → Text
    → Option TextSet
    → Option (List RecordIntent × List RecordIntent)
unfolding reconcile_plan Map.values
reconcile_and_validate desired actual hostname live = do
  plan ← reconcile_plan desired actual hostname live
  some (Map.values plan.to_add, Map.values plan.to_remove)
