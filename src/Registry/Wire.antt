-- ===== src/Registry/Wire.antt =====
-- What List reads of what Register wrote, and what Remove takes away.
use docker_coredns_sync.Prelude.{
  Bool, Bool-cases, In, Option, Text, [], ap, arith, codes, if◌then◌else◌, inl, inr, nat_eq, none,
  refl, some, subst, sym, text_beq_iff, text_eq, true, ℕ, ◌&&◌, ◌++◌, ◌↔◌, ◌∷◌, ◌≡◌, ◌⊎◌,
}
use docker_coredns_sync.GoText.{has_prefix}
use docker_coredns_sync.Config.{is_blank}
use docker_coredns_sync.Domain.Kind.{kind_beq_iff, kind_eq}
use docker_coredns_sync.Domain.Record.Valid.{IsWellFormed, new_from_kind_complete}
use docker_coredns_sync.Domain.Intent.{RecordIntent, key}
use docker_coredns_sync.Registry.{
  EtcdRecord, Json, Kvs, intent_of, intent_of_result, keys_to_delete, marshal_etcd_value,
  matches_value, record_matches, to_wire, unmarshal_etcd_value,
}
use docker_coredns_sync.Registry.Path.{key_base_for_fqdn}
use docker_coredns_sync.Registry.Path.RoundTrip.{fqdn-key_base}
use docker_coredns_sync.Registry.Index.{index_key}

intent_of-to_wire : (ri : RecordIntent) → intent_of (to_wire ri) ri.rec ≡ ri
unfolding intent_of to_wire
intent_of-to_wire ri = refl

-- If the JSON coder reads back the value that marshalEtcdValue wrote for a record intent, and its record
-- is well formed, then unmarshalEtcdValue gives the intent back from that value and any indexed key of
-- its name.
pub unmarshal-marshal :
    (json : Json) (prefix raw : Text) (ri : RecordIntent) (n : ℕ)
    → marshal_etcd_value json ri ≡ some raw
    → json.decode raw ≡ some (to_wire ri)
    → IsWellFormed ri.rec
    → unmarshal_etcd_value json (index_key (key_base_for_fqdn prefix ri.rec.name) n) raw prefix
      ≡ some ri
unfolding unmarshal_etcd_value intent_of_result to_wire
unmarshal-marshal json prefix raw ri n written back w =
    rw (back, fqdn-key_base prefix ri.rec.name n w.name_valid, new_from_kind_complete ri.rec w)
      (ap (λ (x : RecordIntent). some x) (intent_of-to_wire ri))

-- The value names the record's value and kind, its host and container name, and its container id unless
-- the record intent has none.
abbrev pub Matches : EtcdRecord → RecordIntent → Type 0
Matches w ri =
    (w.host ≡ ri.rec.value)
    × (w.kind ≡ ri.rec.kind)
    × (w.owner_hostname ≡ ri.hostname)
    × (w.owner_container_name ≡ ri.container_name)
    × ((ri.container_id ≡ []) ⊎ (w.owner_container_id ≡ ri.container_id))

is_blank_iff : (s : Text) → (is_blank s ≡ true) ↔ (s ≡ [])
is_blank_iff [] = (λ h. refl, λ h. refl)
is_blank_iff (c ∷ s) = (λ h. cc, λ h. cc)

record_matches_iff :
    (w : EtcdRecord) (ri : RecordIntent) → (record_matches w ri ≡ true) ↔ Matches w ri
unfolding record_matches
record_matches_iff w ri = ground (
  arith,
  text_beq_iff w.host ri.rec.value,
  kind_beq_iff w.kind ri.rec.kind,
  text_beq_iff w.owner_hostname ri.hostname,
  text_beq_iff w.owner_container_name ri.container_name,
  text_beq_iff w.owner_container_id ri.container_id,
  is_blank_iff ri.container_id,
)

matches_value_iff :
    (o : Option EtcdRecord) (ri : RecordIntent)
    → (matches_value o ri ≡ true) ↔ ((w : EtcdRecord) × (o ≡ some w) × Matches w ri)
unfolding matches_value
matches_value_iff none ri = (λ h. absurd (ground arith), λ h. absurd (ground arith))
matches_value_iff (some w) ri = (
  λ h. (w, refl, (record_matches_iff w ri).0 h),
  λ h.
      let (x, e, m) = h in
      let same : x ≡ w = ground arith in
      (record_matches_iff w ri).1 (subst (λ y. Matches y ri) same m),
)

module _ (json : Json) (base : Text) (ri : RecordIntent) where
  -- A pair that Remove selects: under the base, with a value that matches.
  abbrev pub Selected : Text → Text → Type 0
  Selected key raw =
      (has_prefix key (base ++ codes "/") ≡ true)
      × ((w : EtcdRecord) × (json.decode raw ≡ some w) × Matches w ri)

  selects : Text → Text → Bool
  unfolding matches_value has_prefix
  selects key raw = has_prefix key (base ++ codes "/") && matches_value (json.decode raw) ri

  selects_iff : (key raw : Text) → (selects key raw ≡ true) ↔ Selected key raw
  unfolding selects
  selects_iff key raw = (
    λ h. (ground arith, (matches_value_iff (json.decode raw) ri).0 (ground arith)),
    λ h. ground (arith, h.0, (matches_value_iff (json.decode raw) ri).1 h.1),
  )

  pub Selected-cases : (key raw : Text) → Selected key raw ⊎ (¬ Selected key raw)
  Selected-cases key raw = elim (Bool-cases (selects key raw)) [
    | inl chosen ↦ inl ((selects_iff key raw).0 chosen)
    | inr passed ↦ inr (λ s. absurd (ground (arith, passed, (selects_iff key raw).1 s)))
  ]

  keys_step :
      (key raw : Text) (kvs : Kvs)
      → keys_to_delete json base ((key, raw) ∷ kvs) ri ≡ (
          if selects key raw
          then key ∷ keys_to_delete json base kvs ri
          else keys_to_delete json base kvs ri)
  unfolding keys_to_delete selects
  keys_step key raw kvs = refl

  -- The keys that Remove collects to delete are exactly those under the base whose value matches the
  -- record intent.
  pub keys_to_delete_iff :
      (kvs : Kvs) (key : Text)
      → In key (keys_to_delete json base kvs ri)
        ↔ ((raw : Text) × In (key, raw) kvs × Selected key raw)
  keys_to_delete_iff [] key = (λ h. absurd (unfold keys_to_delete in h), λ h. absurd h.1)
  keys_to_delete_iff ((k, r) ∷ kvs) key = elim (Bool-cases (selects k r)) [
    | inl chosen ↦
        rw (keys_step k r kvs, chosen)
          (
            λ h. elim h [
              | inl e ↦ (
                r,
                inl (ap (λ t. (t, r)) e),
                subst (λ t. Selected t r) (sym e) ((selects_iff k r).0 chosen),
              )
              | inr there ↦
                  let (raw, mem, s) = (keys_to_delete_iff kvs key).0 there in (raw, inr mem, s)
            ],
            λ h. elim h.1 [
              | inl e ↦ inl (ap (λ p. p.0) e)
              | inr mem ↦ inr ((keys_to_delete_iff kvs key).1 (h.0, mem, h.2))
            ],
          )
    | inr passed ↦
        rw (keys_step k r kvs, passed)
          (
            λ h. let (raw, mem, s) = (keys_to_delete_iff kvs key).0 h in (raw, inr mem, s),
            λ h. elim h.1 [
              | inl e ↦
                  let here : Selected k r = subst (λ (p : Text × Text). Selected p.0 p.1) e h.2 in
                  absurd (cc ((selects_iff k r).1 here, passed))
              | inr mem ↦ (keys_to_delete_iff kvs key).1 (h.0, mem, h.2)
            ],
          )
  ]
