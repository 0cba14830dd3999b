-- ===== src/Core/Labels/Bounds.antt =====
-- The bounds of the TTL that a label gives.
use docker_coredns_sync.Prelude.{
  All, Option, Option-cases, Text, [], inl, inr, nat_eq, none, some, text_eq, ℕ, ◌<◌, ◌^◌, ◌∷◌, ◌≡◌,
}
use docker_coredns_sync.GoMap.{Map, lookup}
use docker_coredns_sync.GoMap.Entries.{Entries, Entries-insert, Entries-lookup}
use docker_coredns_sync.GoText.{trim_space}
use docker_coredns_sync.GoText.Decimal.{int_eq, parse_uint-lt}
use docker_coredns_sync.Core.Labels.{
  Aggregation, Field, LabeledRecord, Slot, aggregate, aggregate_one, aggregation_key, entry,
  field_force, field_name, field_ttl, field_value, fill, flatten, labeled, parse_labels,
  slot_of_label, ttl_from_label,
}

abbrev pub TtlFits : Option ℕ → Type 0
TtlFits none = Unit
TtlFits (some ttl) = ttl < 2 ^ 32

ttl_from_label-lt : (v : Text) (ttl : ℕ) → ttl_from_label v ≡ some ttl → ttl < 2 ^ 32
unfolding ttl_from_label
ttl_from_label-lt v ttl h = parse_uint-lt (trim_space v) 32 h

fill-TtlFits :
    (a : Aggregation) (field : Field) (v : Text) → TtlFits a.ttl → TtlFits (fill a field v).ttl
unfolding fill
fill-TtlFits a field_name v h = h
fill-TtlFits a field_value v h = h
fill-TtlFits a field_force v h = h
fill-TtlFits a field_ttl v h = elim (Option-cases (ttl_from_label v)) [
  | inl bad ↦ rw (bad, fill) h
  | inr (ttl, good) ↦ rw (good, fill) (ttl_from_label-lt v ttl good)
]

abbrev FitEntry : Text → Aggregation → Type 0
FitEntry key a = TtlFits a.ttl

aggregate_one-TtlFits :
    (m : Map Text Aggregation) (o : Option Slot) (v : Text)
    → Entries FitEntry m
    → Entries FitEntry (aggregate_one m o v)
unfolding aggregate_one entry
aggregate_one-TtlFits m none v h = h
aggregate_one-TtlFits m (some s) v h =
    Entries-insert FitEntry m (aggregation_key s) _
      (fill-TtlFits (entry s.kind s.alias (lookup m (aggregation_key s))) s.field v
        (elim (Option-cases (lookup m (aggregation_key s))) [
          | inl absent ↦ rw (absent, entry) tt
          | inr (a, found) ↦
              rw (found, entry) (Entries-lookup FitEntry m (aggregation_key s) a h found)
        ]))
      h

aggregate-TtlFits :
    (prefix : Text) (labels : Map Text Text) (m : Map Text Aggregation)
    → Entries FitEntry m
    → Entries FitEntry (aggregate prefix labels m)
unfolding aggregate
aggregate-TtlFits prefix [] m h = h
aggregate-TtlFits prefix ((label, v) ∷ labels) m h =
    aggregate-TtlFits prefix labels (aggregate_one m (slot_of_label prefix label) v)
      (aggregate_one-TtlFits m (slot_of_label prefix label) v h)

flatten-TtlFits :
    (prefix : Text) (m : Map Text Aggregation)
    → Entries FitEntry m
    → All (λ (lr : LabeledRecord). TtlFits lr.ttl) (flatten prefix m)
unfolding flatten labeled
flatten-TtlFits prefix [] h = tt
flatten-TtlFits prefix ((k, a) ∷ m) h = (h.0, flatten-TtlFits prefix m h.1)

-- Each TTL that ParseLabels reads from a label is below 2^32.
pub parse_labels-TtlFits :
    (prefix : Text) (labels : Map Text Text)
    → All (λ (lr : LabeledRecord). TtlFits lr.ttl) (parse_labels prefix labels).records
unfolding parse_labels
parse_labels-TtlFits prefix labels =
    flatten-TtlFits prefix (aggregate prefix labels []) (aggregate-TtlFits prefix labels [] tt)
