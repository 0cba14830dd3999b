-- ===== src/Core/Labels.antt =====
-- internal/core/labels.go: what the labels of a container ask for. The labels are gone through in the
-- order of their map, which Go leaves open.
pub mod Bounds
use docker_coredns_sync.Prelude.{
  Bool, List, Option, Text, [], codes, false, if◌then◌else◌, nat_eq, none, some, text_beq, text_eq,
  true, ℕ, ◌++◌, ◌==◌, ◌>>=◌, ◌∷◌,
}
use docker_coredns_sync.GoMap.{Map, lookup, insert}
use docker_coredns_sync.GoText.{equal_fold, has_prefix, split, to_lower, trim_space}
use docker_coredns_sync.GoText.Decimal.{parse_uint, int_eq}
use docker_coredns_sync.Config.{is_blank}
use docker_coredns_sync.Domain.Kind.{RecordKind, kind_eq, kind_text, parse_kind}

pub record LabeledRecord : Type 0 where
  pub prefix : Text
  pub kind : RecordKind
  pub name : Text
  pub value : Text
  pub alias : Text
  pub force : Option Bool
  pub ttl : Option ℕ

-- prefix.kind.suffix, or prefix.kind.alias.suffix
unfoldable pub label_of : LabeledRecord → Text → Text
unfolding kind_text
label_of lr suffix =
    if is_blank lr.alias
    then lr.prefix ++ (b'.' ∷ (kind_text lr.kind ++ (b'.' ∷ suffix)))
    else lr.prefix ++ (b'.' ∷ (kind_text lr.kind ++ (b'.' ∷ (lr.alias ++ (b'.' ∷ suffix)))))

-- GetNameLabel, GetValueLabel
unfoldable pub get_name_label : LabeledRecord → Text
unfolding label_of
get_name_label lr = label_of lr (codes "name")

unfoldable pub get_value_label : LabeledRecord → Text
unfolding label_of
get_value_label lr = label_of lr (codes "value")

pub record ParsedLabels : Type 0 where
  pub enabled : Bool
  pub container_force : Bool
  pub records : List LabeledRecord

-- aggregation
pub record Aggregation : Type 0 where
  pub kind : RecordKind
  pub alias : Text
  pub name : Text
  pub value : Text
  pub force : Option Bool
  pub ttl : Option ℕ

pub data Field : Type 0 where
  field_name field_value field_force field_ttl : Field

-- The place that a label speaks of: one field of a labeled record.
pub record Slot : Type 0 where
  pub kind : RecordKind
  pub alias : Text
  pub field : Field

unfoldable pub parse_field : Text → Option Field
unfolding text_beq
parse_field s =
    if s == codes "name"
    then some field_name
    else if s == codes "value"
    then some field_value
    else if s == codes "force"
    then some field_force
    else if s == codes "ttl"
    then some field_ttl
    else none

unfoldable pub slot : Text → Text → Text → Option Slot
unfolding parse_kind parse_field
slot raw_kind alias s = do
  kind ← parse_kind raw_kind
  field ← parse_field s
  some (record { kind = kind; alias = alias; field = field })

-- prefix.KIND.field or prefix.KIND.alias.field; what follows the field does not count.
unfoldable pub slot_of_parts : List Text → Option Slot
unfolding slot
slot_of_parts [] = none
slot_of_parts (p ∷ []) = none
slot_of_parts (p ∷ raw_kind ∷ []) = none
slot_of_parts (p ∷ raw_kind ∷ field ∷ []) = slot raw_kind [] field
slot_of_parts (p ∷ raw_kind ∷ alias ∷ field ∷ rest) = slot raw_kind alias field

unfoldable pub slot_of_label : Text → Text → Option Slot
unfolding slot_of_parts has_prefix split
slot_of_label prefix label =
    if has_prefix label (prefix ++ codes ".") then slot_of_parts (split label b'.') else none

-- boolFromLabel
unfoldable pub bool_from_label : Text → Bool
unfolding equal_fold trim_space
bool_from_label v = equal_fold (trim_space v) (codes "true")

-- ttlFromLabel: none is ok=false
unfoldable pub ttl_from_label : Text → Option ℕ
unfolding parse_uint trim_space
ttl_from_label v = parse_uint (trim_space v) 32

-- The switch on the field
unfoldable pub fill : Aggregation → Field → Text → Aggregation
unfolding bool_from_label ttl_from_label trim_space
fill a field_name v = record a { name = trim_space v }
fill a field_value v = record a { value = trim_space v }
fill a field_force v = record a { force = some (bool_from_label v) }
fill a field_ttl v = elim (ttl_from_label v) [ none ↦ a | some ttl ↦ record a { ttl = some ttl } ]

-- The entry of an aggregation, made when it is missing.
unfoldable pub entry : RecordKind → Text → Option Aggregation → Aggregation
entry kind alias (some a) = a
entry kind alias none = record {
  kind = kind;
  alias = alias;
  name = [];
  value = [];
  force = none;
  ttl = none;
}

unfoldable pub aggregation_key : Slot → Text
unfolding kind_text
aggregation_key s = kind_text s.kind ++ (b'|' ∷ s.alias)

-- One round of the loop over the labels
unfoldable pub aggregate_one : Map Text Aggregation → Option Slot → Text → Map Text Aggregation
unfolding fill entry aggregation_key lookup insert
aggregate_one m none v = m
aggregate_one m (some s) v =
    insert m (aggregation_key s)
      (fill (entry s.kind s.alias (lookup m (aggregation_key s))) s.field v)

unfoldable pub aggregate : Text → Map Text Text → Map Text Aggregation → Map Text Aggregation
unfolding aggregate_one slot_of_label
aggregate prefix [] m = m
aggregate prefix ((label, v) ∷ labels) m =
    aggregate prefix labels (aggregate_one m (slot_of_label prefix label) v)

unfoldable pub labeled : Text → Aggregation → LabeledRecord
labeled prefix a = record {
  prefix = prefix;
  kind = a.kind;
  name = a.name;
  value = a.value;
  alias = a.alias;
  force = a.force;
  ttl = a.ttl;
}

unfoldable pub flatten : Text → Map Text Aggregation → List LabeledRecord
unfolding labeled
flatten prefix [] = []
flatten prefix ((k, a) ∷ m) = labeled prefix a ∷ flatten prefix m

-- strings.ToLower(labels[key]) == "true", where a missing label reads as the empty one
unfoldable pub is_true : Option Text → Bool
unfolding to_lower text_beq
is_true none = false
is_true (some v) = to_lower v == codes "true"

-- ParseLabels
unfoldable pub parse_labels : Text → Map Text Text → ParsedLabels
unfolding is_true aggregate flatten lookup
parse_labels prefix labels = record {
  enabled = is_true (lookup labels (prefix ++ codes ".enabled"));
  container_force = is_true (lookup labels (prefix ++ codes ".force"));
  records = flatten prefix (aggregate prefix labels []);
}
