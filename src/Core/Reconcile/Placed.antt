-- ===== src/Core/Reconcile/Placed.antt =====
-- The nested map that step 1 builds, when every record is desired: each record stands under its own
-- name, kind and value.
use docker_coredns_sync.Prelude.{
  Bool-cases, In, List, Option, Option-cases, Text, [], arith, false, inl, inr, nat_eq, refl, some,
  subst, sym, text_beq_iff, text_eq, ◌&&◌, ◌==◌, ◌∙◌, ◌∷◌, ◌≡◌, ◌≢◌, ◌⊎◌,
}
use docker_coredns_sync.GoMap as Map
use docker_coredns_sync.GoMap.{Map, insert}
use docker_coredns_sync.GoMap.Entries.{Entries, Entries-insert}
use docker_coredns_sync.State.{TextSet}
use docker_coredns_sync.Domain.Kind.{RecordKind, kind_beq_iff, kind_eq}
use docker_coredns_sync.Domain.Intent.{RecordIntent}
use docker_coredns_sync.Core.NestedMaps.{
  NestedRecordMap, RecordMap, peek_name_kind_record, peek_record_map, set_record,
}
use docker_coredns_sync.Core.NestedMaps.View.{or_new, peek-set_record, peek_record_map-update}
use docker_coredns_sync.Core.Filter.Good.{at}
use docker_coredns_sync.Core.Reconcile.{Actual, collect, collect_one, is_stale, key_set}
use docker_coredns_sync.Core.Reconcile.Stale.{is_stale_iff}
use docker_coredns_sync.Core.Reconcile.Known.{insert-ne-nil}

module _ (ris : List RecordIntent) where
  abbrev pub Own : Text → RecordKind → Text → RecordIntent → Type 0
  Own n k v r = In r ris × (r.rec ≡ at n k v)

  pub record IsPlaced (m : NestedRecordMap) : Type 0 where
    pub own :
        (n : Text) (k : RecordKind) (rm : RecordMap)
        → peek_record_map m n k ≡ some rm
        → Entries (λ (v : Text) (r : RecordIntent). Own n k v r) rm × (rm ≢ [])

  or_new-Own :
      (m : NestedRecordMap) (n : Text) (k : RecordKind)
      → IsPlaced m
      → Entries (λ (v : Text) (r : RecordIntent). Own n k v r) (or_new (peek_record_map m n k))
  or_new-Own m n k p = elim (Option-cases (peek_record_map m n k)) [
    | inl absent ↦ rw absent tt
    | inr (rm, found) ↦ rw found (p.own n k rm found).0
  ]

  pub set_record-IsPlaced :
      (m : NestedRecordMap) (r : RecordIntent)
      → In r ris
      → IsPlaced m
      → IsPlaced (set_record m r.rec.name r.rec.kind r.rec.value r)
  unfolding set_record
  set_record-IsPlaced m r mem p =
      let n = r.rec.name in
      let k = r.rec.kind in
      let change = λ (record_map : RecordMap). Map.insert record_map r.rec.value r in
      record {
        own = λ n' k' rm found. elim (Bool-cases (n == n' && k == k')) [
          | inl same ↦
              let names : n ≡ n' = ground (arith, text_beq_iff n n') in
              let kinds : k ≡ k' = ground (arith, kind_beq_iff k k') in
              let maps : change (or_new (peek_record_map m n k)) ≡ rm =
                ground (arith, peek_record_map-update m n k change n' k') in
              subst (λ i. Entries (λ (v : Text) (x : RecordIntent). Own i k' v x) rm × (rm ≢ []))
                names
                (subst (λ j. Entries (λ (v : Text) (x : RecordIntent). Own n j v x) rm × (rm ≢ []))
                  kinds
                  (subst (λ t. Entries (λ (v : Text) (x : RecordIntent). Own n k v x) t × (t ≢ []))
                    maps
                    (
                      Entries-insert (λ (v : Text) (x : RecordIntent). Own n k v x)
                          (or_new (peek_record_map m n k)) r.rec.value r (mem, refl)
                          (or_new-Own m n k p),
                      insert-ne-nil (or_new (peek_record_map m n k)) r.rec.value r,
                    )))
          | inr differs ↦ p.own n' k' rm (ground (arith, peek_record_map-update m n k change n' k'))
        ];
      }

  -- What stands under the record of r.
  abbrev pub Present : NestedRecordMap → RecordIntent → Type 0
  Present m r =
      (x : RecordIntent) × (peek_name_kind_record m r.rec.name r.rec.kind r.rec.value ≡ some x)

  set_record-Present :
      (m : NestedRecordMap) (r s : RecordIntent)
      → (s ≡ r) ⊎ Present m s
      → Present (set_record m r.rec.name r.rec.kind r.rec.value r) s
  set_record-Present m r s (inl e) =
      subst (Present (set_record m r.rec.name r.rec.kind r.rec.value r)) (sym e) (
        r,
        ground (
          arith,
          peek-set_record m r.rec.name r.rec.kind r.rec.value r r.rec.name r.rec.kind r.rec.value,
          text_beq_iff r.rec.name r.rec.name,
          kind_beq_iff r.rec.kind r.rec.kind,
          text_beq_iff r.rec.value r.rec.value,
        ),
      )
  set_record-Present m r s (inr (x, found)) =
      elim (Bool-cases
        ((r.rec.name == s.rec.name && r.rec.kind == s.rec.kind) && r.rec.value == s.rec.value)) [
          | inl hit ↦ (
            r,
            peek-set_record m r.rec.name r.rec.kind r.rec.value r s.rec.name s.rec.kind s.rec.value
                ∙ (rw hit refl),
          )
          | inr miss ↦ (
            x,
            peek-set_record m r.rec.name r.rec.kind r.rec.value r s.rec.name s.rec.kind s.rec.value
                ∙ (rw miss found),
          )
        ]

  not_stale :
      (hostname : Text) (live : Option TextSet) (r : RecordIntent)
      → In r ris
      → is_stale hostname live (key_set ris) r ≡ false
  not_stale hostname live r mem = elim (Bool-cases (is_stale hostname live (key_set ris) r)) [
    | inl old ↦ absurd (((is_stale_iff ris hostname live r).0 old).0 (r, mem, refl))
    | inr fresh ↦ fresh
  ]

  pub record IsFilled (seen : RecordIntent → Type 0) (acc : Actual) : Type 0 where
    pub untouched : acc.to_remove ≡ []
    pub placed : IsPlaced acc.by_name_kind
    pub present : (r : RecordIntent) → seen r → Present acc.by_name_kind r

  -- With the records desired that are there, step 1 removes none, and places them all.
  pub collect-IsFilled :
      (hostname : Text) (live : Option TextSet) (rest : List RecordIntent)
      (seen : RecordIntent → Type 0) (acc : Actual)
      → ((r : RecordIntent) → In r rest → In r ris)
      → IsFilled seen acc
      → IsFilled (λ x. seen x ⊎ In x rest) (collect hostname live (key_set ris) acc rest)
  unfolding collect collect_one
  collect-IsFilled hostname live [] seen acc mem f = record {
    untouched = f.untouched;
    placed = f.placed;
    present = λ r h. elim h [ inl sooner ↦ f.present r sooner | inr nowhere ↦ absurd nowhere ];
  }
  collect-IsFilled hostname live (r ∷ rest) seen acc mem f =
      let m = acc.by_name_kind in
      let next : Actual = record acc {
        by_name_kind = set_record m r.rec.name r.rec.kind r.rec.value r;
      } in
      let step : IsFilled (λ x. seen x ⊎ (x ≡ r)) next = record {
        untouched = f.untouched;
        placed = set_record-IsPlaced m r (mem r (inl refl)) f.placed;
        present = λ x h.
            set_record-Present m r x
              (elim h [ inl sooner ↦ inr (f.present x sooner) | inr same ↦ inl same ]);
      } in
      let whole =
        collect-IsFilled hostname live rest (λ x. seen x ⊎ (x ≡ r)) next (λ x h. mem x (inr h))
          step in
      let e = not_stale hostname live r (mem r (inl refl)) in
      rw e (record {
        untouched = whole.untouched;
        placed = whole.placed;
        present = λ x h. whole.present x (elim h [
          | inl sooner ↦ inl (inl sooner)
          | inr later ↦ elim later [ inl same ↦ inl (inr same) | inr below ↦ inr below ]
        ]);
      })
