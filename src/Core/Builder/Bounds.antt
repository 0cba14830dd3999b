-- ===== src/Core/Builder/Bounds.antt =====
-- The bounds of the TTL of a record intent.
use docker_coredns_sync.Prelude.{
  All, Bool, Bool-cases, List, Option, Option-cases, Result, [], err, inl, inr, nat_eq, none, ok,
  some, text_eq, ℕ, ◌<◌, ◌^◌, ◌∷◌,
}
use docker_coredns_sync.GoText.{trim_space}
use docker_coredns_sync.Config.{AppConfig, is_blank}
use docker_coredns_sync.Domain.Record.{Record, RecordError, new_from_kind}
use docker_coredns_sync.Domain.Intent.{RecordIntent}
use docker_coredns_sync.Domain.Event.{Container, ContainerEvent}
use docker_coredns_sync.Core.Labels.{LabeledRecord, parse_labels}
use docker_coredns_sync.Core.Labels.Bounds.{TtlFits, parse_labels-TtlFits}
use docker_coredns_sync.Core.Builder.{
  accept, build_all, build_one, cons_some, get_container_record_intents, intent, override,
  value_or_default,
}

abbrev Fits : RecordIntent → Type 0
Fits ri = ri.ttl < 2 ^ 32

module _ (cfg : AppConfig) (small : cfg.record_ttl < 2 ^ 32) (container : Container)
    (container_force : Bool) where
  override-lt : (o : Option ℕ) → TtlFits o → override o cfg.record_ttl < 2 ^ 32
  override-lt none h = small
  override-lt (some ttl) h = h

  accept-Fits :
      (lr : LabeledRecord) (res : Result RecordError Record) (rest : List RecordIntent)
      → TtlFits lr.ttl
      → All Fits rest
      → All Fits (cons_some (accept cfg container container_force lr res) rest)
  unfolding accept intent cons_some
  accept-Fits lr (err e) rest h all = all
  accept-Fits lr (ok rec) rest h all = (override-lt lr.ttl h, all)

  build_one-Fits :
      (lr : LabeledRecord) (rest : List RecordIntent)
      → TtlFits lr.ttl
      → All Fits rest
      → All Fits (cons_some (build_one cfg container container_force lr) rest)
  unfolding build_one cons_some
  build_one-Fits lr rest h all = elim (Bool-cases (is_blank (trim_space lr.name))) [
    | inl blank ↦ rw blank all
    | inr named ↦ elim (Option-cases (value_or_default cfg lr.kind (trim_space lr.value))) [
      | inl missing ↦ rw (named, missing) all
      | inr (value, found) ↦
          rw (named, found) (accept-Fits lr (new_from_kind lr.kind lr.name value) rest h all)
    ]
  ]

  build_all-Fits :
      (lrs : List LabeledRecord)
      → All (λ (lr : LabeledRecord). TtlFits lr.ttl) lrs
      → All Fits (build_all cfg container container_force lrs)
  unfolding build_all
  build_all-Fits [] h = tt
  build_all-Fits (lr ∷ lrs) h =
      build_one-Fits lr (build_all cfg container container_force lrs) h.0 (build_all-Fits lrs h.1)

-- If the configured TTL is below 2^32, so is that of every record intent that a container's labels give.
pub intents-ttl :
    (event : ContainerEvent) (cfg : AppConfig)
    → cfg.record_ttl < 2 ^ 32
    → All (λ (ri : RecordIntent). ri.ttl < 2 ^ 32) (get_container_record_intents event cfg)
unfolding get_container_record_intents
intents-ttl event cfg small =
    let parsed = parse_labels cfg.docker_label_prefix event.container.labels in
    elim (Bool-cases parsed.enabled) [
      | inl on ↦ rw on (
          build_all-Fits cfg small event.container parsed.container_force parsed.records
            (parse_labels-TtlFits cfg.docker_label_prefix event.container.labels))
      | inr off ↦ rw off tt
    ]
