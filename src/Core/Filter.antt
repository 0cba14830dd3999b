-- ===== src/Core/Filter.antt =====
-- FilterRecordIntents of internal/core/reconciliation.go. The result is none where Go would panic, at
-- the index of an empty slice. Logging is left out.
pub mod Order
pub mod Good
pub mod Dedup
pub mod DedupCname
pub mod Top
pub mod Best
pub mod Maps
pub mod Resolve
pub mod Chosen
pub mod Addresses
pub mod Written
pub mod Outcome
pub mod Complete
pub mod Represented
pub mod Winners
use docker_coredns_sync.Prelude.{
  Bool, List, Option, Text, [], false, if◌then◌else◌, nat_eq, none, not, some, text_eq, true, ◌&&◌,
  ◌++◌, ◌>>=◌, ◌∷◌,
}
use docker_coredns_sync.Domain.Kind.{RecordKind, kind_eq, record_a, record_aaaa, record_cname}
use docker_coredns_sync.Domain.Record.{is_a, is_aaaa, is_cname}
use docker_coredns_sync.Domain.Intent.{RecordIntent, before}
use docker_coredns_sync.Core.NestedMaps.{
  NestedRecordMap, delete_record, get_all_names, get_all_values, new_nested_record_map,
  peek_name_kind_record, peek_name_kind_records, set_record,
}

-- shouldReplaceExisting
unfoldable pub should_replace_existing : RecordIntent → RecordIntent → Bool
should_replace_existing new existing =
    if new.force && not existing.force
    then true
    else if not new.force && existing.force
    then false
    else if before new.created existing.created
    then true
    else false

-- The flags of the loop of shouldReplaceAllExisting
pub record Ages : Type 0 where
  pub any_force : Bool
  pub all_force : Bool
  pub all_non_force : Bool
  pub new_created_before_all_old_with_force : Bool
  pub new_created_before_all : Bool

abbrev pub no_ages : Ages
no_ages = record {
  any_force = false;
  all_force = true;
  all_non_force = true;
  new_created_before_all_old_with_force = true;
  new_created_before_all = true;
}

unfoldable pub note_age : RecordIntent → Ages → RecordIntent → Ages
note_age new f ri =
    let new_created_before_existing = before new.created ri.created in
    let g : Ages =
      if ri.force
      then record f {
        any_force = true;
        all_non_force = false;
        new_created_before_all_old_with_force =
            if not new_created_before_existing
            then false
            else f.new_created_before_all_old_with_force;
      }
      else record f { all_force = false } in
    if not new_created_before_existing then record g { new_created_before_all = false } else g

unfoldable pub ages : RecordIntent → List RecordIntent → Ages → Ages
unfolding note_age
ages new [] f = f
ages new (ri ∷ existing) f = ages new existing (note_age new f ri)

abbrev pub is_nil : List RecordIntent → Bool
is_nil [] = true
is_nil (ri ∷ ris) = false

-- shouldReplaceAllExisting
unfoldable pub should_replace_all_existing : RecordIntent → List RecordIntent → Bool
unfolding ages
should_replace_all_existing new existing =
    if is_nil existing
    then true
    else (let f = ages new existing no_ages in
        if f.any_force && not new.force
        then false
        else if new.force && f.all_non_force
        then true
        else if new.force && not f.all_force
        then (if f.new_created_before_all_old_with_force then true else false)
        else if f.new_created_before_all
        then true
        else false)

-- ris[0]
unfoldable pub first : List RecordIntent → Option RecordIntent
first [] = none
first (ri ∷ ris) = some ri

-- The case of an address: dup is the record intent that stands under its name, kind and value.
unfoldable pub keep_address :
    NestedRecordMap → RecordKind → RecordIntent → Option RecordIntent → NestedRecordMap
unfolding set_record
keep_address m kind ri none = set_record m ri.rec.name kind ri.rec.value ri
keep_address m kind ri (some existing) =
    if should_replace_existing ri existing then set_record m ri.rec.name kind ri.rec.value ri else m

-- The case of a CNAME: the CNAMEs that stand under its name, of which the first is taken.
unfoldable pub keep_cname :
    NestedRecordMap → RecordIntent → Option (List RecordIntent) → Option NestedRecordMap
unfolding set_record delete_record first
keep_cname m ri none = some (set_record m ri.rec.name record_cname ri.rec.value ri)
keep_cname m ri (some cnames) = do
  existing ← first cnames
  some (
      if should_replace_existing ri existing
      then set_record (delete_record m ri.rec.name record_cname existing.rec.value) ri.rec.name
          record_cname ri.rec.value ri
      else m)

-- One round of step 1
unfoldable pub deduplicate_one : NestedRecordMap → RecordIntent → Option NestedRecordMap
unfolding keep_address keep_cname peek_name_kind_record peek_name_kind_records is_a is_aaaa is_cname
deduplicate_one m ri =
    if is_a ri.rec
    then some
        (keep_address m record_a ri (peek_name_kind_record m ri.rec.name record_a ri.rec.value))
    else if is_aaaa ri.rec
    then some (
        keep_address m record_aaaa ri
          (peek_name_kind_record m ri.rec.name record_aaaa ri.rec.value))
    else if is_cname ri.rec
    then keep_cname m ri (peek_name_kind_records m ri.rec.name record_cname)
    else some m

-- Step 1
unfoldable pub deduplicate : NestedRecordMap → List RecordIntent → Option NestedRecordMap
unfolding deduplicate_one
deduplicate m [] = some m
deduplicate m (ri ∷ ris) = do m' ← deduplicate_one m ri; deduplicate m' ris

-- for _, ri := range records { m.Get(name).Get(kind).Set(ri.Record.Value, ri) }
unfoldable pub set_records :
    NestedRecordMap → Text → RecordKind → List RecordIntent → NestedRecordMap
unfolding set_record
set_records m name kind [] = m
set_records m name kind (ri ∷ ris) =
    set_records (set_record m name kind ri.rec.value ri) name kind ris

-- addrRecords: none is nil with false
unfoldable pub join_addresses :
    Option (List RecordIntent) → Option (List RecordIntent) → Option (List RecordIntent)
join_addresses none none = none
join_addresses none (some aaaa) = some aaaa
join_addresses (some a) none = some (a ++ [])
join_addresses (some a) (some aaaa) = some (a ++ aaaa)

unfoldable pub addr_records : NestedRecordMap → Text → Option (List RecordIntent)
unfolding join_addresses peek_name_kind_records
addr_records m name =
    join_addresses (peek_name_kind_records m name record_a)
      (peek_name_kind_records m name record_aaaa)

-- The slice of a result: empty where there is none.
abbrev pub slice : Option (List RecordIntent) → List RecordIntent
slice none = []
slice (some ris) = ris

-- The two loops that keep the addresses of a name
unfoldable pub keep_addresses :
    NestedRecordMap
    → Text
    → Option (List RecordIntent)
    → Option (List RecordIntent)
    → NestedRecordMap
unfolding set_records
keep_addresses out name a_recs aaaa_recs =
    set_records (set_records out name record_a (slice a_recs)) name record_aaaa (slice aaaa_recs)

unfoldable pub keep_one : NestedRecordMap → Text → RecordIntent → NestedRecordMap
unfolding set_record
keep_one out name ri = set_record out name record_cname ri.rec.value ri

-- The switch of step 2, on the A, AAAA and CNAME records of a name; allAddr is addrRecords.
unfoldable pub resolve :
    NestedRecordMap
    → Text
    → List RecordIntent
    → Option (List RecordIntent)
    → Option (List RecordIntent)
    → Option (List RecordIntent)
    → Option NestedRecordMap
unfolding first keep_one keep_addresses should_replace_all_existing
resolve out name all_addr none none (some cname_recs) = do
  ri ← first cname_recs
  some (keep_one out name ri)
resolve out name all_addr a_recs aaaa_recs (some cname_recs) = do
  cname ← first cname_recs
  some (
      if should_replace_all_existing cname all_addr
      then keep_one out name cname
      else keep_addresses out name a_recs aaaa_recs)
resolve out name all_addr none none none = some out
resolve out name all_addr a_recs aaaa_recs none = some (keep_addresses out name a_recs aaaa_recs)

-- One round of step 2
unfoldable pub resolve_one : NestedRecordMap → NestedRecordMap → Text → Option NestedRecordMap
unfolding resolve addr_records peek_name_kind_records
resolve_one m out name =
    resolve out name (slice (addr_records m name)) (peek_name_kind_records m name record_a)
      (peek_name_kind_records m name record_aaaa) (peek_name_kind_records m name record_cname)

-- Step 2
unfoldable pub resolve_all : NestedRecordMap → NestedRecordMap → List Text → Option NestedRecordMap
unfolding resolve_one
resolve_all m out [] = some out
resolve_all m out (name ∷ names) = do out' ← resolve_one m out name; resolve_all m out' names

-- FilterRecordIntents
unfoldable pub filter_record_intents : List RecordIntent → Option (List RecordIntent)
unfolding deduplicate resolve_all get_all_names get_all_values
filter_record_intents ris = do
  m ← deduplicate new_nested_record_map ris
  out ← resolve_all m new_nested_record_map (get_all_names m)
  some (get_all_values out)
