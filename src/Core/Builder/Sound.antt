-- ===== src/Core/Builder/Sound.antt =====
-- What the record intents of a container are made of.
use docker_coredns_sync.Prelude.{
  All, Bool, Bool-cases, List, Option-cases, Result, Text, [], arith, codes, err, inl, inr, nat_eq,
  none, ok, refl, some, subst, text_beq_iff, text_eq, ◌++◌, ◌==◌, ◌∷◌, ◌≡◌, ◌≢◌,
}
use docker_coredns_sync.GoMap.{lookup}
use docker_coredns_sync.GoText.{to_lower, trim_space}
use docker_coredns_sync.Config.{AppConfig, is_blank}
use docker_coredns_sync.Domain.Kind.{kind_eq}
use docker_coredns_sync.Domain.Record.{Record, RecordError, new_from_kind}
use docker_coredns_sync.Domain.Record.Valid.{IsWellFormed, new_from_kind_sound}
use docker_coredns_sync.Domain.Intent.{RecordIntent}
use docker_coredns_sync.Domain.Event.{Container, ContainerEvent}
use docker_coredns_sync.Core.Labels.{LabeledRecord, is_true, parse_labels}
use docker_coredns_sync.Core.Builder.{
  accept, build_all, build_one, cons_some, get_container_record_intents, intent, value_or_default,
}

-- The record is well formed, and the owner is the container on this host.
pub record Owned (cfg : AppConfig) (container : Container) (ri : RecordIntent) : Type 0 where
  pub well_formed : IsWellFormed ri.rec
  pub container_id : ri.container_id ≡ container.id
  pub container_name : ri.container_name ≡ container.name
  pub created : ri.created ≡ container.created
  pub hostname : ri.hostname ≡ cfg.hostname

module _ (cfg : AppConfig) (container : Container) (container_force : Bool) where
  none_void : (ri : RecordIntent) → none ≢ some ri
  none_void ri h = cc

  accept-Owned :
      (lr : LabeledRecord) (name value : Text) (res : Result RecordError Record) (ri : RecordIntent)
      → new_from_kind lr.kind name value ≡ res
      → accept cfg container container_force lr res ≡ some ri
      → Owned cfg container ri
  unfolding accept intent
  accept-Owned lr name value (err e) ri built h = absurd (ground arith)
  accept-Owned lr name value (ok rec) ri built h =
      let e : intent cfg container container_force lr rec ≡ ri = ground arith in
      subst (Owned cfg container) e (record {
        well_formed = (new_from_kind_sound lr.kind name value built).0;
        container_id = refl;
        container_name = refl;
        created = refl;
        hostname = refl;
      })

  build_one-Owned :
      (lr : LabeledRecord) (ri : RecordIntent)
      → build_one cfg container container_force lr ≡ some ri
      → Owned cfg container ri
  unfolding build_one
  build_one-Owned lr ri h = elim (Bool-cases (is_blank (trim_space lr.name))) [
    | inl blank ↦ absurd (none_void ri (rw blank at h))
    | inr named ↦ elim (Option-cases (value_or_default cfg lr.kind (trim_space lr.value))) [
      | inl missing ↦ absurd (none_void ri (rw (named, missing) at h))
      | inr (value, found) ↦
          accept-Owned lr lr.name value (new_from_kind lr.kind lr.name value) ri refl
            (rw (named, found) at h)
    ]
  ]

  build_all-Owned :
      (lrs : List LabeledRecord)
      → All (Owned cfg container) (build_all cfg container container_force lrs)
  unfolding build_all cons_some
  build_all-Owned [] = tt
  build_all-Owned (lr ∷ lrs) = elim (Option-cases (build_one cfg container container_force lr)) [
    | inl skipped ↦ rw skipped (build_all-Owned lrs)
    | inr (ri, built) ↦ rw built (build_one-Owned lr ri built, build_all-Owned lrs)
  ]

-- Every record intent that a container's labels give has a well-formed record, and carries the
-- container's id, name and creation time and this host's name.
pub intents-Owned :
    (event : ContainerEvent) (cfg : AppConfig)
    → All (Owned cfg event.container) (get_container_record_intents event cfg)
unfolding get_container_record_intents
intents-Owned event cfg =
    let parsed = parse_labels cfg.docker_label_prefix event.container.labels in
    elim (Bool-cases parsed.enabled) [
      | inl on ↦ rw on (build_all-Owned cfg event.container parsed.container_force parsed.records)
      | inr off ↦ rw off tt
    ]

-- A container gives record intents only if its label prefix.enabled is there and spells true, in
-- any case.
pub intents_enabled :
    (event : ContainerEvent) (cfg : AppConfig)
    → get_container_record_intents event cfg ≢ []
    → (v : Text) × (lookup event.container.labels (cfg.docker_label_prefix ++ codes ".enabled")
        ≡ some v)
      × (to_lower v ≡ codes "true")
unfolding get_container_record_intents parse_labels is_true
intents_enabled event cfg some_given =
    elim (Option-cases
      (lookup event.container.labels (cfg.docker_label_prefix ++ codes ".enabled"))) [
        | inl absent ↦ absurd (some_given (rw absent refl))
        | inr (v, found) ↦ elim (Bool-cases (to_lower v == codes "true")) [
          | inl spelt ↦ (v, found, (text_beq_iff (to_lower v) (codes "true")).0 spelt)
          | inr differs ↦ absurd (some_given (rw (found, differs) refl))
        ]
      ]
