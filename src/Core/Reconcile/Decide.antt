-- ===== src/Core/Reconcile/Decide.antt =====
-- Step 2 of ReconcileAndValidate: what is evicted for a desired record, and why.
use docker_coredns_sync.Prelude.{
  All, Bool, Bool-cases, List, Option, Text, [], arith, false, if◌then◌else◌, inl, inr, nat_eq,
  none, refl, some, text_eq, true, ◌||◌, ◌∷◌, ◌≡◌, ◌≢◌, ◌⊎◌,
}
use docker_coredns_sync.GoMap.{insert}
use docker_coredns_sync.GoMap.Entries.{Entries, Entries-insert}
use docker_coredns_sync.Domain.Kind.{kind_eq, record_a, record_aaaa, record_cname}
use docker_coredns_sync.Domain.Record.{is_a, is_aaaa, is_cname}
use docker_coredns_sync.Domain.Intent.{RecordIntent, before, equal, key}
use docker_coredns_sync.Core.NestedMaps.{
  NestedRecordMap, peek_name_kind_record, peek_name_kind_records,
}
use docker_coredns_sync.Core.Filter.{addr_records, first}
use docker_coredns_sync.Core.Reconcile.{
  IntentMap, Verdict, by_key, decide, decide_address, decide_cname, evict, older_than_all, skip,
  wins,
}
use docker_coredns_sync.Core.Reconcile.Known.{
  AllKnown, Named, addr_records-Named, peek_name_kind_record-Named, peek_name_kind_records-Named,
}

-- The desired record is forced, or older than an actual record of its name.
abbrev pub Prevails : List RecordIntent → RecordIntent → Type 0
Prevails actual d =
    (d.force ≡ true)
    ⊎ ((x : RecordIntent) × Named actual d.rec.name x × (before d.created x.created ≡ true))

-- The desired record may evict the actual one.
abbrev pub Evicts : List RecordIntent → RecordIntent → RecordIntent → Type 0
Evicts actual d r = Named actual d.rec.name r × Prevails actual d

-- An entry of a map by key, whose record intent has a property.
abbrev pub Keyed : (RecordIntent → Type 0) → Text → RecordIntent → Type 0
Keyed P k r = (k ≡ key r) × P r

module _ (P : RecordIntent → Type 0) where
  pub by_key-Keyed :
      (m : IntentMap) (ris : List RecordIntent)
      → Entries (Keyed P) m
      → All P ris
      → Entries (Keyed P) (by_key m ris)
  unfolding by_key
  by_key-Keyed m [] h all = h
  by_key-Keyed m (r ∷ ris) h all =
      by_key-Keyed (insert m (key r) r) ris (Entries-insert (Keyed P) m (key r) r (refl, all.0) h)
        all.1

module _ (actual : List RecordIntent) (d : RecordIntent) where
  abbrev pub Allowed : Verdict → Type 0
  Allowed skip = Unit
  Allowed (evict evictions) = Entries (Keyed (Evicts actual d)) evictions

  abbrev pub Decided : Option Verdict → Type 0
  Decided o = (v : Verdict) × (o ≡ some v) × Allowed v

  abbrev Here : RecordIntent → Type 0
  Here = Named actual d.rec.name

  prevails : (x : RecordIntent) → Here x → wins d x ≡ true → Prevails actual d
  unfolding wins
  prevails x here w = elim (Bool-cases d.force) [
    | inl forced ↦ inl forced
    | inr free ↦ inr (x, here, ground arith)
  ]

  All-evicted :
      Prevails actual d → (ris : List RecordIntent) → All Here ris → All (Evicts actual d) ris
  All-evicted p [] h = tt
  All-evicted p (r ∷ ris) h = ((h.0, p), All-evicted p ris h.1)

  evict-Allowed :
      Prevails actual d → (ris : List RecordIntent) → All Here ris → Allowed (evict (by_key [] ris))
  evict-Allowed p ris h = by_key-Keyed (Evicts actual d) [] ris tt (All-evicted p ris h)

  if-Decided :
      (b : Bool) (x : RecordIntent) (ris : List RecordIntent)
      → (b ≡ true → Prevails actual d)
      → All Here ris
      → Decided (some (if b then evict (by_key [] ris) else skip))
  if-Decided true x ris p h = (evict (by_key [] ris), refl, evict-Allowed (p refl) ris h)
  if-Decided false x ris p h = (skip, refl, tt)

  decide_address-Decided :
      (cnames : Option (List RecordIntent)) (same : Option RecordIntent)
      → ((ris : List RecordIntent) → cnames ≡ some ris → All Here ris × (ris ≢ []))
      → ((r : RecordIntent) → same ≡ some r → Here r)
      → Decided (decide_address d cnames same)
  unfolding decide_address first
  decide_address-Decided (some []) same hc hs = absurd ((hc [] refl).1 refl)
  decide_address-Decided (some (x ∷ ris)) same hc hs =
      let here = (hc (x ∷ ris) refl).0 in if-Decided (wins d x) x (x ∷ ris) (prevails x here.0) here
  decide_address-Decided none (some r) hc hs = elim (Bool-cases (equal r d)) [
    | inl same ↦ rw same (skip, refl, tt)
    | inr differs ↦
        rw differs (if-Decided (wins d r) r (r ∷ []) (prevails r (hs r refl)) (hs r refl, tt))
  ]
  decide_address-Decided none none hc hs = (evict [], refl, tt)

  older-Prevails :
      (ris : List RecordIntent)
      → ris ≢ []
      → All Here ris
      → (d.force || older_than_all d ris) ≡ true
      → Prevails actual d
  unfolding older_than_all
  older-Prevails [] ne h w = absurd (ne refl)
  older-Prevails (r ∷ ris) ne h w = elim (Bool-cases d.force) [
    | inl forced ↦ inl forced
    | inr free ↦ inr (r, h.0, ground arith)
  ]

  decide_cname-Decided :
      (addresses cnames : Option (List RecordIntent))
      → ((ris : List RecordIntent) → addresses ≡ some ris → All Here ris × (ris ≢ []))
      → ((ris : List RecordIntent) → cnames ≡ some ris → All Here ris × (ris ≢ []))
      → Decided (decide_cname d addresses cnames)
  unfolding decide_cname first
  decide_cname-Decided (some []) cnames ha hc = absurd ((ha [] refl).1 refl)
  decide_cname-Decided (some (r ∷ ris)) cnames ha hc =
      let (here, ne) = ha (r ∷ ris) refl in
      if-Decided (d.force || older_than_all d (r ∷ ris)) r (r ∷ ris)
        (older-Prevails (r ∷ ris) ne here) here
  decide_cname-Decided none (some []) ha hc = absurd ((hc [] refl).1 refl)
  decide_cname-Decided none (some (x ∷ ris)) ha hc = elim (Bool-cases (equal x d)) [
    | inl same ↦ rw same (skip, refl, tt)
    | inr differs ↦
        let here = (hc (x ∷ ris) refl).0 in
        rw differs (if-Decided (wins d x) x (x ∷ ris) (prevails x here.0) here)
  ]
  decide_cname-Decided none none ha hc = (evict [], refl, tt)

  -- On a nested map of actual records the switch of step 2 never panics, and it evicts only actual
  -- records of the desired record's name, and only if that record is forced or older than one of them.
  pub decide-Decided : (m : NestedRecordMap) → AllKnown actual m → Decided (decide m d)
  unfolding decide
  decide-Decided m known =
      let n = d.rec.name in
      let cnames = λ (ris : List RecordIntent).
        peek_name_kind_records-Named actual m n record_cname ris known in
      elim (Bool-cases (is_a d.rec)) [
        | inl p ↦ rw p (
            decide_address-Decided (peek_name_kind_records m n record_cname)
              (peek_name_kind_record m n record_a d.rec.value) cnames
              (λ r. peek_name_kind_record-Named actual m n record_a d.rec.value r known))
        | inr p ↦ elim (Bool-cases (is_aaaa d.rec)) [
          | inl q ↦
              rw (p, q)
                (decide_address-Decided (peek_name_kind_records m n record_cname)
                  (peek_name_kind_record m n record_aaaa d.rec.value) cnames
                  (λ r. peek_name_kind_record-Named actual m n record_aaaa d.rec.value r known))
          | inr q ↦ elim (Bool-cases (is_cname d.rec)) [
            | inl c ↦
                rw (p, q, c)
                  (decide_cname-Decided (addr_records m n) (peek_name_kind_records m n record_cname)
                    (λ ris. addr_records-Named actual m n ris known) cnames)
            | inr c ↦ rw (p, q, c) (evict [], refl, tt)
          ]
        ]
      ]
