-- ===== src/Core/Filter/Best.antt =====
-- Step 1 of FilterRecordIntents as a whole, against the best candidate for each key.
use docker_coredns_sync.Prelude.{
  Bool-cases, List, Option, Text, [], ap, arith, false, inl, inr, nat_eq, none, refl, some, subst,
  sym, text_beq_iff, text_eq, true, ◌&&◌, ◌==◌, ◌↔◌, ◌∙◌, ◌∷◌, ◌≡◌, ◌≢◌,
}
use docker_coredns_sync.Core.Filter.Top.{Top, best, best-Top}
use docker_coredns_sync.GoMap as Map
use docker_coredns_sync.Util as DefaultMap
use docker_coredns_sync.Domain.Kind.{
  RecordKind, kind_beq_iff, kind_eq, record_a, record_aaaa, record_cname,
}
use docker_coredns_sync.Domain.Record.{is_a, is_aaaa, is_cname}
use docker_coredns_sync.Domain.Intent.{RecordIntent}
use docker_coredns_sync.Core.NestedMaps.{
  NestedRecordMap, new_nested_record_map, peek_name_kind_record, peek_record_map,
}
use docker_coredns_sync.Core.Filter.{deduplicate, deduplicate_one, keep_address}
use docker_coredns_sync.Core.Filter.Good.{AllGood}
use docker_coredns_sync.Core.Filter.Dedup.{Stepped, cname_at, has_key, keep_address-Stepped}
use docker_coredns_sync.Core.Filter.DedupCname.{keep_cname-Stepped}
use docker_coredns_sync.Core.Validation.Rules.{IsAddressKind}

-- The winner among acc and the candidates for a record.
abbrev best_address :
    List RecordIntent → Text → RecordKind → Text → Option RecordIntent → Option RecordIntent
best_address ris n k v acc = best (λ ri. has_key ri n k v) ris acc

-- The winner among acc and the CNAMEs of a name.
abbrev best_cname : List RecordIntent → Text → Option RecordIntent → Option RecordIntent
best_cname ris n acc = best (λ ri. is_cname ri.rec && ri.rec.name == n) ris acc

-- A candidate for the record of a name, a kind and a value.
abbrev pub IsFor : Text → RecordKind → Text → RecordIntent → Type 0
IsFor n k v c = (c.rec.name ≡ n) × (c.rec.kind ≡ k) × (c.rec.value ≡ v)

-- A candidate for the CNAME of a name.
abbrev pub IsAlias : Text → RecordIntent → Type 0
IsAlias n c = (c.rec.kind ≡ record_cname) × (c.rec.name ≡ n)

has_key_iff :
    (n : Text) (k : RecordKind) (v : Text) (ri : RecordIntent)
    → (has_key ri n k v ≡ true) ↔ IsFor n k v ri
has_key_iff n k v ri = (
  λ h. (
    (text_beq_iff ri.rec.name n).0 (ground arith),
    (kind_beq_iff ri.rec.kind k).0 (ground arith),
    (text_beq_iff ri.rec.value v).0 (ground arith),
  ),
  λ h. ground (
    arith,
    (text_beq_iff ri.rec.name n).1 h.0,
    (kind_beq_iff ri.rec.kind k).1 h.1,
    (text_beq_iff ri.rec.value v).1 h.2,
  ),
)

cname_test_iff :
    (n : Text) (ri : RecordIntent) → ((is_cname ri.rec && ri.rec.name == n) ≡ true) ↔ IsAlias n ri
unfolding is_cname
cname_test_iff n ri = (
  λ h. (
    (kind_beq_iff ri.rec.kind record_cname).0 (ground arith),
    (text_beq_iff ri.rec.name n).0 (ground arith),
  ),
  λ h.
      ground
        (arith, (kind_beq_iff ri.rec.kind record_cname).1 h.0, (text_beq_iff ri.rec.name n).1 h.1),
)

record_as :
    (m : NestedRecordMap) (ri : RecordIntent) (k : RecordKind)
    → AllGood m
    → k ≢ record_cname
    → ri.rec.kind ≡ k
    → Stepped m ri (keep_address m k ri (peek_name_kind_record m ri.rec.name k ri.rec.value))
record_as m ri k good address e =
    rw (← e) (keep_address-Stepped m ri good _ (λ c. address (sym e ∙ c)) refl)

unknown-Stepped :
    (m : NestedRecordMap) (ri : RecordIntent)
    → AllGood m
    → is_a ri.rec ≡ false
    → is_aaaa ri.rec ≡ false
    → is_cname ri.rec ≡ false
    → Stepped m ri m
unfolding is_a is_aaaa is_cname
unknown-Stepped m ri good p q r = record {
  good = good;
  addresses = λ n k v address. ground (arith, kind_beq_iff ri.rec.kind k);
  cnames = λ n. ground arith;
}

-- One round never panics, and is a step of the view.
deduplicate_one-Stepped :
    (m : NestedRecordMap) (ri : RecordIntent)
    → AllGood m
    → (m' : NestedRecordMap) × (deduplicate_one m ri ≡ some m') × Stepped m ri m'
unfolding deduplicate_one
deduplicate_one-Stepped m ri good = elim (Bool-cases (is_a ri.rec)) [
  | inl p ↦ (_, rw p, record_as m ri record_a good (cc) (unfold is_a in (kind_beq_iff _ _).0 p))
  | inr p ↦ elim (Bool-cases (is_aaaa ri.rec)) [
    | inl q ↦ (
      _,
      rw (p, q),
      record_as m ri record_aaaa good (cc) (unfold is_aaaa in (kind_beq_iff _ _).0 q),
    )
    | inr q ↦ elim (Bool-cases (is_cname ri.rec)) [
      | inl r ↦
          let (m', e, s) =
            keep_cname-Stepped m ri good (unfold is_cname in (kind_beq_iff _ _).0 r) in
          (m', rw (p, q, r) e, s)
      | inr r ↦ (m, rw (p, q, r), unknown-Stepped m ri good p q r)
    ]
  ]
]

pub record IsBest (ris : List RecordIntent) (m m' : NestedRecordMap) : Type 0 where
  pub good : AllGood m'
  pub addresses :
      (n : Text) (k : RecordKind) (v : Text)
      → IsAddressKind k
      → peek_name_kind_record m' n k v ≡ best_address ris n k v (peek_name_kind_record m n k v)
  pub cnames : (n : Text) → cname_at m' n ≡ best_cname ris n (cname_at m n)

deduplicate-IsBest :
    (ris : List RecordIntent) (m : NestedRecordMap)
    → AllGood m
    → (m' : NestedRecordMap) × (deduplicate m ris ≡ some m') × IsBest ris m m'
unfolding deduplicate
deduplicate-IsBest [] m good =
    (m, refl, record { good = good; addresses = λ n k v h. refl; cnames = λ n. refl })
deduplicate-IsBest (ri ∷ ris) m good =
    let (m₁, e₁, s) = deduplicate_one-Stepped m ri good in
    let (m₂, e₂, b) = deduplicate-IsBest ris m₁ s.good in
    (
      m₂,
      rw e₁ e₂,
      record {
        good = b.good;
        addresses =
            λ n k v h. b.addresses n k v h ∙ ap (best_address ris n k v) (s.addresses n k v h);
        cnames = λ n. b.cnames n ∙ ap (best_cname ris n) (s.cnames n);
      },
    )

peek_new : (n : Text) (k : RecordKind) → peek_record_map new_nested_record_map n k ≡ none
unfolding peek_record_map DefaultMap.peek Map.lookup
peek_new n k = refl

module _ (ris : List RecordIntent) (m : NestedRecordMap)
    (b : IsBest ris new_nested_record_map m) where
  best_addresses :
      (n : Text) (k : RecordKind) (v : Text)
      → IsAddressKind k
      → Top (IsFor n k v) ris (peek_name_kind_record m n k v)
  unfolding peek_name_kind_record
  best_addresses n k v h =
      let e = b.addresses n k v h ∙ (rw (peek_new n k)) in
      subst (Top (IsFor n k v) ris) (sym e)
        (best-Top (λ ri. has_key ri n k v) (IsFor n k v) (has_key_iff n k v) ris)

  best_cnames : (n : Text) → Top (IsAlias n) ris (cname_at m n)
  unfolding cname_at
  best_cnames n =
      let e = b.cnames n ∙ (rw (peek_new n record_cname)) in
      subst (Top (IsAlias n) ris) (sym e)
        (best-Top (λ ri. is_cname ri.rec && ri.rec.name == n) (IsAlias n) (cname_test_iff n) ris)

-- Step 1 of FilterRecordIntents never panics. It makes a well-formed map. Under each address record
-- stands a candidate for it that no other candidate for it beats, by force and then by age, and
-- nothing if there is no candidate; as the CNAME of each name a CNAME of the name that no other CNAME
-- of the name beats, and none if there is no CNAME.
pub step_1 :
    (ris : List RecordIntent)
    → (m : NestedRecordMap) × (deduplicate new_nested_record_map ris ≡ some m)
      × AllGood m
      × ((n : Text) (k : RecordKind) (v : Text)
          → IsAddressKind k
          → Top (IsFor n k v) ris (peek_name_kind_record m n k v))
      × ((n : Text) → Top (IsAlias n) ris (cname_at m n))
step_1 ris =
    let (m, e, b) = deduplicate-IsBest ris new_nested_record_map (λ n k rm h. cc (peek_new n k)) in
    (m, e, b.good, best_addresses ris m b, best_cnames ris m b)
