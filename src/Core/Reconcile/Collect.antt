-- ===== src/Core/Reconcile/Collect.antt =====
-- Step 1 of ReconcileAndValidate: the stale records, and the nested map of the others.
use docker_coredns_sync.Prelude.{
  Bool, Bool-cases, In, List, Option, Text, [], ap, arith, inl, inr, nat_eq, refl, sym,
  text_beq_iff, text_eq, true, ◌∷◌, ◌≡◌, ◌⊎◌,
}
use docker_coredns_sync.GoMap.{contains, insert}
use docker_coredns_sync.GoMap.Entries.{Entries, Entries-insert}
use docker_coredns_sync.GoMap.Laws.{lookup-insert}
use docker_coredns_sync.State.{TextSet}
use docker_coredns_sync.Domain.Kind.{kind_eq}
use docker_coredns_sync.Domain.Intent.{RecordIntent, key}
use docker_coredns_sync.Core.Reconcile.{Actual, IntentMap, collect, collect_one, is_stale}
use docker_coredns_sync.Core.Reconcile.Known.{AllKnown, set_record-AllKnown}
use docker_coredns_sync.Core.Reconcile.Decide.{Keyed}

module _ (actual : List RecordIntent) (hostname : Text) (live : Option TextSet)
    (keep : TextSet) where
  abbrev pub stale : RecordIntent → Bool
  stale = is_stale hostname live keep

  pub record Collected (seen : RecordIntent → Type 0) (acc : Actual) : Type 0 where
    pub known : AllKnown actual acc.by_name_kind
    pub removed : Entries (Keyed (λ r. In r actual × (stale r ≡ true))) acc.to_remove
    pub complete :
        (r : RecordIntent) → seen r → stale r ≡ true → contains acc.to_remove (key r) ≡ true

  contains-insert :
      (m : IntentMap) (k : Text) (r : RecordIntent) (j : Text)
      → (k ≡ j) ⊎ (contains m j ≡ true)
      → contains (insert m k r) j ≡ true
  unfolding contains
  contains-insert m k r j h = ground (arith, lookup-insert m k r j, text_beq_iff k j)

  collect_one-Collected :
      (seen : RecordIntent → Type 0) (acc : Actual) (r : RecordIntent)
      → In r actual
      → Collected seen acc
      → Collected (λ x. seen x ⊎ (x ≡ r)) (collect_one hostname live keep acc r)
  unfolding collect_one
  collect_one-Collected seen acc r mem c = elim (Bool-cases (is_stale hostname live keep r)) [
    | inl gone ↦ rw gone (record {
      known = c.known;
      removed =
          Entries-insert (Keyed (λ x. In x actual × (stale x ≡ true))) acc.to_remove (key r) r
            (refl, (mem, gone)) c.removed;
      complete = λ x h s. contains-insert acc.to_remove (key r) r (key x) (elim h [
        | inl sooner ↦ inr (c.complete x sooner s)
        | inr same ↦ inl (ap key (sym same))
      ]);
    })
    | inr stays ↦ rw stays (record {
      known =
          set_record-AllKnown actual acc.by_name_kind r.rec.name r.rec.kind r.rec.value r
            (mem, refl) c.known;
      removed = c.removed;
      complete = λ x h s. elim h [
        | inl sooner ↦ c.complete x sooner s
        | inr same ↦ absurd (cc (ap stale same, s, stays))
      ];
    })
  ]

  pub collect-Collected :
      (rest : List RecordIntent) (seen : RecordIntent → Type 0) (acc : Actual)
      → ((r : RecordIntent) → In r rest → In r actual)
      → Collected seen acc
      → Collected (λ x. seen x ⊎ In x rest) (collect hostname live keep acc rest)
  unfolding collect
  collect-Collected [] seen acc mem c = record {
    known = c.known;
    removed = c.removed;
    complete =
        λ x h s. elim h [ inl sooner ↦ c.complete x sooner s | inr nowhere ↦ absurd nowhere ];
  }
  collect-Collected (r ∷ rest) seen acc mem c =
      let step = collect_one-Collected seen acc r (mem r (inl refl)) c in
      let whole =
        collect-Collected rest (λ x. seen x ⊎ (x ≡ r)) (collect_one hostname live keep acc r)
          (λ x h. mem x (inr h)) step in
      record {
        known = whole.known;
        removed = whole.removed;
        complete = λ x h s.
            whole.complete x
              (elim h [
                | inl sooner ↦ inl (inl sooner)
                | inr later ↦ elim later [ inl same ↦ inl (inr same) | inr below ↦ inr below ]
              ])
              s;
      }
