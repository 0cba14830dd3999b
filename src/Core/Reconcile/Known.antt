-- ===== src/Core/Reconcile/Known.antt =====
-- The nested map that step 1 builds: what it holds are actual records, under their own names.
use docker_coredns_sync.Prelude.{
  All, All-append, Bool-cases, In, List, Option-cases, Text, [], arith, inl, inr, nat_eq, refl,
  some, subst, text_beq_iff, text_eq, ◌&&◌, ◌++◌, ◌==◌, ◌∷◌, ◌≡◌, ◌≢◌,
}
use docker_coredns_sync.GoMap as Map
use docker_coredns_sync.GoMap.{Map, insert, values}
use docker_coredns_sync.GoMap.Entries.{Entries, Entries-insert, Entries-lookup}
use docker_coredns_sync.Domain.Kind.{RecordKind, kind_eq, record_a, record_aaaa}
use docker_coredns_sync.Domain.Intent.{RecordIntent}
use docker_coredns_sync.Core.NestedMaps.{
  NestedRecordMap, RecordMap, peek_name_kind_record, peek_name_kind_records, peek_record_map,
  set_record,
}
use docker_coredns_sync.Core.NestedMaps.View.{or_new, peek_record_map-update}
use docker_coredns_sync.Core.Filter.{addr_records, join_addresses}

-- An actual record that stands under a name.
abbrev pub Named : List RecordIntent → Text → RecordIntent → Type 0
Named actual n r = In r actual × (r.rec.name ≡ n)

pub insert-ne-nil : (m : Map Text RecordIntent) (k : Text) (r : RecordIntent) → insert m k r ≢ []
unfolding insert
insert-ne-nil [] k r h = cc h
insert-ne-nil ((j, w) ∷ m) k r h = elim (Bool-cases (j == k)) [
  | inl same ↦ cc (rw same at h)
  | inr differs ↦ cc (rw differs at h)
]

module _ (actual : List RecordIntent) where
  pub record IsKnown (n : Text) (record_map : RecordMap) : Type 0 where
    pub named : Entries (λ (v : Text) (r : RecordIntent). Named actual n r) record_map
    pub filled : record_map ≢ []

  abbrev pub AllKnown : NestedRecordMap → Type 0
  AllKnown m =
      (n : Text) (k : RecordKind) (record_map : RecordMap)
      → peek_record_map m n k ≡ some record_map
      → IsKnown n record_map

  or_new-Named :
      (m : NestedRecordMap) (n : Text) (k : RecordKind)
      → AllKnown m
      → Entries (λ (v : Text) (r : RecordIntent). Named actual n r) (or_new (peek_record_map m n k))
  or_new-Named m n k known = elim (Option-cases (peek_record_map m n k)) [
    | inl absent ↦ rw absent tt
    | inr (rm, found) ↦ rw found (known n k rm found).named
  ]

  pub set_record-AllKnown :
      (m : NestedRecordMap) (n : Text) (k : RecordKind) (v : Text) (r : RecordIntent)
      → Named actual n r
      → AllKnown m
      → AllKnown (set_record m n k v r)
  unfolding set_record
  set_record-AllKnown m n k v r here known n' k' rm found =
      let change = λ (record_map : RecordMap). Map.insert record_map v r in
      elim (Bool-cases (n == n' && k == k')) [
        | inl same ↦
            let names : n ≡ n' = ground (arith, text_beq_iff n n') in
            let maps : change (or_new (peek_record_map m n k)) ≡ rm =
              ground (arith, peek_record_map-update m n k change n' k') in
            rw (← names, ← maps)
              (record {
                named =
                    Entries-insert (λ (w : Text) (x : RecordIntent). Named actual n x)
                      (or_new (peek_record_map m n k)) v r here (or_new-Named m n k known);
                filled = insert-ne-nil (or_new (peek_record_map m n k)) v r;
              })
        | inr differs ↦ known n' k' rm (ground (arith, peek_record_map-update m n k change n' k'))
      ]

  values-Named :
      (n : Text) (rm : RecordMap)
      → Entries (λ (v : Text) (r : RecordIntent). Named actual n r) rm
      → All (Named actual n) (Map.values rm)
  unfolding Map.values
  values-Named n [] h = tt
  values-Named n ((v, r) ∷ rm) h = (h.0, values-Named n rm h.1)

  values-ne-nil :
      (rm : RecordMap) (ris : List RecordIntent) → Map.values rm ≡ ris → rm ≢ [] → ris ≢ []
  unfolding Map.values
  values-ne-nil [] ris e filled h = absurd (filled refl)
  values-ne-nil ((v, r) ∷ rm) ris e filled h = cc

  -- The slice that PeekNameKindRecords returns has a first element, and holds actual records only.
  pub peek_name_kind_records-Named :
      (m : NestedRecordMap) (n : Text) (k : RecordKind) (ris : List RecordIntent)
      → AllKnown m
      → peek_name_kind_records m n k ≡ some ris
      → All (Named actual n) ris × (ris ≢ [])
  unfolding peek_name_kind_records Map.values
  peek_name_kind_records-Named m n k ris known h = elim (Option-cases (peek_record_map m n k)) [
    | inl absent ↦ absurd (ground arith)
    | inr (rm, found) ↦
        let e : Map.values rm ≡ ris = ground arith in
        (
          subst (All (Named actual n)) e (values-Named n rm (known n k rm found).named),
          values-ne-nil rm ris e (known n k rm found).filled,
        )
  ]

  pub peek_name_kind_record-Named :
      (m : NestedRecordMap) (n : Text) (k : RecordKind) (v : Text) (r : RecordIntent)
      → AllKnown m
      → peek_name_kind_record m n k v ≡ some r
      → Named actual n r
  unfolding peek_name_kind_record
  peek_name_kind_record-Named m n k v r known h = elim (Option-cases (peek_record_map m n k)) [
    | inl absent ↦ absurd (ground arith)
    | inr (rm, found) ↦
        Entries-lookup (λ (w : Text) (x : RecordIntent). Named actual n x) rm v r
          (known n k rm found).named (ground arith)
  ]

  append-ne-nil : (xs ys : List RecordIntent) → xs ≢ [] → xs ++ ys ≢ []
  append-ne-nil [] ys ne h = ne refl
  append-ne-nil (x ∷ xs) ys ne h = cc

  pub addr_records-Named :
      (m : NestedRecordMap) (n : Text) (ris : List RecordIntent)
      → AllKnown m
      → addr_records m n ≡ some ris
      → All (Named actual n) ris × (ris ≢ [])
  unfolding addr_records join_addresses
  addr_records-Named m n ris known h = elim (Option-cases (peek_name_kind_records m n record_a)) [
    | inl no_a ↦ elim (Option-cases (peek_name_kind_records m n record_aaaa)) [
      | inl no_aaaa ↦ absurd (ground arith)
      | inr (aaaa, q) ↦ peek_name_kind_records-Named m n record_aaaa ris known (ground arith)
    ]
    | inr (a, p) ↦
        let (here, ne) = peek_name_kind_records-Named m n record_a a known p in
        elim (Option-cases (peek_name_kind_records m n record_aaaa)) [
          | inl no_aaaa ↦
              let e : a ++ [] ≡ ris = ground arith in
              subst (λ xs. All (Named actual n) xs × (xs ≢ [])) e
                (All-append (Named actual n) a [] here tt, append-ne-nil a [] ne)
          | inr (aaaa, q) ↦
              let e : a ++ aaaa ≡ ris = ground arith in
              subst (λ xs. All (Named actual n) xs × (xs ≢ [])) e
                (
                  All-append (Named actual n) a aaaa here
                      (peek_name_kind_records-Named m n record_aaaa aaaa known q).0,
                  append-ne-nil a aaaa ne,
                )
        ]
  ]
