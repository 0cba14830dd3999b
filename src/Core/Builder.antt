-- ===== src/Core/Builder.antt =====
-- GetContainerRecordIntents of internal/core/record_builder.go. Logging, which alone reads the names
-- of the labels, is left out.
pub mod Sound
pub mod Bounds
use docker_coredns_sync.Prelude.{
  Bool, List, Option, Result, Text, [], err, if◌then◌else◌, nat_eq, none, not, ok, some, text_eq,
  ◌>>=◌, ◌∷◌,
}
use docker_coredns_sync.GoText.{trim_space}
use docker_coredns_sync.Config.{AppConfig, is_blank}
use docker_coredns_sync.Domain.Kind.{
  RecordKind, kind_eq, other_kind, record_a, record_aaaa, record_cname,
}
use docker_coredns_sync.Domain.Record.{Record, RecordError, new_from_kind}
use docker_coredns_sync.Domain.Intent.{RecordIntent}
use docker_coredns_sync.Domain.Event.{Container, ContainerEvent}
use docker_coredns_sync.Core.Labels.{LabeledRecord, parse_labels}

abbrev given : Text → Option Text
given [] = none
given (c ∷ s) = some (c ∷ s)

-- The value of a labeled record: none skips the record. An address without a value takes the host's.
unfoldable pub value_or_default : AppConfig → RecordKind → Text → Option Text
value_or_default cfg kind (c ∷ s) = some (c ∷ s)
value_or_default cfg record_a [] = given cfg.host_ipv4
value_or_default cfg record_aaaa [] = given cfg.host_ipv6
value_or_default cfg record_cname [] = none
value_or_default cfg (other_kind kind) [] = some []

-- *p, or else the default
abbrev pub override {ℓ} : {A : Type ℓ} → Option A → A → A
override none default = default
override (some x) default = x

unfoldable pub intent : AppConfig → Container → Bool → LabeledRecord → Record → RecordIntent
intent cfg container container_force lr rec = record {
  container_id = container.id;
  container_name = container.name;
  created = container.created;
  hostname = cfg.hostname;
  force = override lr.force container_force;
  ttl = override lr.ttl cfg.record_ttl;
  rec = rec;
}

unfoldable pub accept :
    AppConfig → Container → Bool → LabeledRecord → Result RecordError Record → Option RecordIntent
unfolding intent
accept cfg container container_force lr (err e) = none
accept cfg container container_force lr (ok rec) =
    some (intent cfg container container_force lr rec)

-- One round of the loop: none is continue.
unfoldable pub build_one : AppConfig → Container → Bool → LabeledRecord → Option RecordIntent
unfolding value_or_default accept trim_space
build_one cfg container container_force lr = if is_blank (trim_space lr.name) then none else (do
  value ← value_or_default cfg lr.kind (trim_space lr.value)
  accept cfg container container_force lr (new_from_kind lr.kind lr.name value))

unfoldable pub cons_some : Option RecordIntent → List RecordIntent → List RecordIntent
cons_some none intents = intents
cons_some (some ri) intents = ri ∷ intents

unfoldable pub build_all : AppConfig → Container → Bool → List LabeledRecord → List RecordIntent
unfolding build_one cons_some
build_all cfg container container_force [] = []
build_all cfg container container_force (lr ∷ lrs) =
    cons_some (build_one cfg container container_force lr)
      (build_all cfg container container_force lrs)

-- GetContainerRecordIntents
unfoldable pub get_container_record_intents : ContainerEvent → AppConfig → List RecordIntent
unfolding build_all parse_labels
get_container_record_intents event cfg =
    let parsed = parse_labels cfg.docker_label_prefix event.container.labels in
    if not parsed.enabled
    then []
    else build_all cfg event.container parsed.container_force parsed.records
