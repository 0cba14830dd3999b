-- ===== src/Core/Reconcile/Skips.antt =====
-- Step 2 of ReconcileAndValidate on records that are in place already.
use docker_coredns_sync.Prelude.{
  Bool, In, List, Option-cases, Text, [], ap, arith, bool_beq, false, inl, inr, nat_eq, none, refl,
  some, subst, sym, text_beq_iff, text_eq, true, ◌∙◌, ◌∷◌, ◌≡◌, ◌≢◌, ◌⊎◌,
}
use docker_coredns_sync.GoMap as Map
use docker_coredns_sync.GoMap.{Map, values, empty, lookup}
use docker_coredns_sync.GoMap.Entries.{Entries, Entries-lookup}
use docker_coredns_sync.Domain.Kind.{
  kind_beq_ne, RecordKind, kind_eq, record_a, record_aaaa, record_cname, kind_beq_iff,
}
use docker_coredns_sync.Domain.Record
use docker_coredns_sync.Domain.Record.{Record, is_a, is_aaaa, is_cname, equal_iff}
use docker_coredns_sync.Domain.Intent.{RecordIntent, equal}
use docker_coredns_sync.Core.NestedMaps.{
  NestedRecordMap, RecordMap, peek_name_kind_record, peek_name_kind_records, peek_record_map,
}
use docker_coredns_sync.Core.Filter.{addr_records, first, join_addresses}
use docker_coredns_sync.Core.Filter.Good.{at}
use docker_coredns_sync.Core.Validation.Rules.{Clashes, IsAddressKind}
use docker_coredns_sync.Core.Reconcile.{
  decide_address, decide_cname, skip, Plan, apply, decide, reconcile_loop,
}
use docker_coredns_sync.Core.Reconcile.Placed.{IsPlaced, Own, Present}

-- The record intents go together: each is an address or a CNAME, and two that clash are the same one.
pub record IsConsistent (ris : List RecordIntent) : Type 0 where
  pub known : (r : RecordIntent) → In r ris → IsAddressKind r.rec.kind ⊎ (r.rec.kind ≡ record_cname)
  pub apart : (r s : RecordIntent) → In r ris → In s ris → Clashes r.rec s.rec → r ≡ s

bool_beq_self : (b : Bool) → bool_beq b b ≡ true
unfolding bool_beq
bool_beq_self true = refl
bool_beq_self false = refl

equal_self : (r : RecordIntent) → equal r r ≡ true
unfolding equal
equal_self r = ground (
  arith,
  text_beq_iff r.container_id r.container_id,
  text_beq_iff r.container_name r.container_name,
  text_beq_iff r.hostname r.hostname,
  Record.equal_iff r.rec r.rec,
  bool_beq_self r.force,
)

equal_same : (r s : RecordIntent) → r ≡ s → equal r s ≡ true
equal_same r s e = subst (λ x. equal r x ≡ true) e (equal_self r)

not_cname : (k : RecordKind) → IsAddressKind k → k ≢ record_cname
not_cname k (inl a) e = cc
not_cname k (inr a) e = cc

module _ (ris : List RecordIntent) (c : IsConsistent ris) (m : NestedRecordMap)
    (p : IsPlaced ris m) where
  first-Own :
      (n : Text) (k : RecordKind) (rm : RecordMap)
      → Entries (λ (v : Text) (r : RecordIntent). Own ris n k v r) rm
      → rm ≢ []
      → (x : RecordIntent) × (first (Map.values rm) ≡ some x)
        × In x ris
        × (x.rec ≡ at n k x.rec.value)
  unfolding first Map.values
  first-Own n k [] h ne = absurd (ne refl)
  first-Own n k ((v, x) ∷ rm) h ne =
      let value : v ≡ x.rec.value = ap (λ (r : Record). r.value) (sym h.0.1) in
      (x, refl, h.0.0, subst (λ w. x.rec ≡ at n k w) value h.0.1)

  -- No record of a kind that clashes stands under the name.
  none_of_kind :
      (d : RecordIntent) (k : RecordKind)
      → In d ris
      → d.rec.kind ≢ k
      → ((r : Record) → r.name ≡ d.rec.name → r.kind ≡ k → Clashes d.rec r)
      → peek_record_map m d.rec.name k ≡ none
  none_of_kind d k mem differs clash = elim (Option-cases (peek_record_map m d.rec.name k)) [
    | inl absent ↦ absent
    | inr (rm, found) ↦
        let (own, ne) = p.own d.rec.name k rm found in
        let (x, is_first, here, e) = first-Own d.rec.name k rm own ne in
        let name : x.rec.name ≡ d.rec.name = ap (λ (r : Record). r.name) e in
        let kind : x.rec.kind ≡ k = ap (λ (r : Record). r.kind) e in
        let same = c.apart d x mem here (clash x.rec name kind) in
        absurd (differs (ap (λ (r : RecordIntent). r.rec.kind) same ∙ kind))
  ]

  no_records :
      (n : Text) (k : RecordKind)
      → peek_record_map m n k ≡ none
      → peek_name_kind_records m n k ≡ none
  unfolding peek_name_kind_records
  no_records n k h = rw h refl

  no_addr_records :
      (n : Text)
      → peek_record_map m n record_a ≡ none
      → peek_record_map m n record_aaaa ≡ none
      → addr_records m n ≡ none
  unfolding addr_records join_addresses
  no_addr_records n h g = rw (no_records n record_a h, no_records n record_aaaa g) refl

  -- The record intent itself is what stands under its record.
  found_self :
      (d : RecordIntent)
      → In d ris
      → IsAddressKind d.rec.kind
      → Present ris m d
      → (x : RecordIntent) × (peek_name_kind_record m d.rec.name d.rec.kind d.rec.value ≡ some x)
        × (equal x d ≡ true)
  unfolding peek_name_kind_record
  found_self d mem address (x, found) =
      elim (Option-cases (peek_record_map m d.rec.name d.rec.kind)) [
        | inl absent ↦ absurd (ground arith)
        | inr (rm, there) ↦
            let (here, e) =
              Entries-lookup (λ (v : Text) (r : RecordIntent). Own ris d.rec.name d.rec.kind v r) rm
                d.rec.value x (p.own d.rec.name d.rec.kind rm there).0 (ground arith) in
            let name : x.rec.name ≡ d.rec.name = ap (λ (r : Record). r.name) e in
            let kind : x.rec.kind ≡ d.rec.kind = ap (λ (r : Record). r.kind) e in
            let value : x.rec.value ≡ d.rec.value = ap (λ (r : Record). r.value) e in
            let same = c.apart d x mem here (name, inr (address, inr (kind, value))) in
            (x, found, equal_same x d (sym same))
      ]

  address_skips :
      (d : RecordIntent)
      → In d ris
      → IsAddressKind d.rec.kind
      → Present ris m d
      → decide_address d
          (peek_name_kind_records m d.rec.name record_cname)
          (peek_name_kind_record m d.rec.name d.rec.kind d.rec.value)
        ≡ some skip
  unfolding decide_address
  address_skips d mem address present =
      let (x, found, same) = found_self d mem address present in
      let alone =
        none_of_kind d record_cname mem (not_cname d.rec.kind address)
          (λ r name kind. (name, inr (address, inl kind))) in
      rw (no_records d.rec.name record_cname alone, found, same) refl

  cname_records :
      (d : RecordIntent) (rm : RecordMap)
      → peek_record_map m d.rec.name record_cname ≡ some rm
      → peek_name_kind_records m d.rec.name record_cname ≡ some (Map.values rm)
  unfolding peek_name_kind_records
  cname_records d rm h = rw h refl

  none-Present :
      (d : RecordIntent)
      → d.rec.kind ≡ record_cname
      → peek_record_map m d.rec.name record_cname ≡ none
      → ¬ Present ris m d
  unfolding peek_name_kind_record
  none-Present d kind absent (x, found) = ground arith

  cname_skips :
      (d : RecordIntent)
      → In d ris
      → d.rec.kind ≡ record_cname
      → Present ris m d
      → decide_cname d
          (addr_records m d.rec.name)
          (peek_name_kind_records m d.rec.name record_cname)
        ≡ some skip
  unfolding decide_cname peek_name_kind_record
  cname_skips d mem kind present =
      let no_a =
        none_of_kind d record_a mem (λ e. cc (e, kind))
          (λ r name a. (name, inl (kind, inl (inl a)))) in
      let no_aaaa =
        none_of_kind d record_aaaa mem (λ e. cc (e, kind))
          (λ r name a. (name, inl (kind, inl (inr a)))) in
      elim (Option-cases (peek_record_map m d.rec.name record_cname)) [
        | inl absent ↦ absurd (none-Present d kind absent present)
        | inr (rm, found) ↦
            let (own, ne) = p.own d.rec.name record_cname rm found in
            let (x, is_first, here, e) = first-Own d.rec.name record_cname rm own ne in
            let name : x.rec.name ≡ d.rec.name = ap (λ (r : Record). r.name) e in
            let its : x.rec.kind ≡ record_cname = ap (λ (r : Record). r.kind) e in
            let same = c.apart d x mem here (name, inl (kind, inr its)) in
            rw
              (
                no_addr_records d.rec.name no_a no_aaaa,
                cname_records d rm found,
                is_first,
                equal_same x d (sym same),
              )
              refl
      ]

  is_a_of : (r : Record) → r.kind ≡ record_a → is_a r ≡ true
  unfolding is_a
  is_a_of r h = (kind_beq_iff r.kind record_a).1 h

  is_a_not : (r : Record) → r.kind ≢ record_a → is_a r ≡ false
  unfolding is_a
  is_a_not r h = kind_beq_ne r.kind record_a h

  is_aaaa_of : (r : Record) → r.kind ≡ record_aaaa → is_aaaa r ≡ true
  unfolding is_aaaa
  is_aaaa_of r h = (kind_beq_iff r.kind record_aaaa).1 h

  is_aaaa_not : (r : Record) → r.kind ≢ record_aaaa → is_aaaa r ≡ false
  unfolding is_aaaa
  is_aaaa_not r h = kind_beq_ne r.kind record_aaaa h

  is_cname_of : (r : Record) → r.kind ≡ record_cname → is_cname r ≡ true
  unfolding is_cname
  is_cname_of r h = (kind_beq_iff r.kind record_cname).1 h

  decide_skips : (d : RecordIntent) → In d ris → Present ris m d → decide m d ≡ some skip
  unfolding decide
  decide_skips d mem present =
      let skips = λ (address : IsAddressKind d.rec.kind). address_skips d mem address present in
      let at_kind = λ (k : RecordKind).
        decide_address d (peek_name_kind_records m d.rec.name record_cname)
          (peek_name_kind_record m d.rec.name k d.rec.value)
        ≡ some skip in
      elim (c.known d mem) [
        | inl address ↦ elim address [
          | inl a ↦ rw (is_a_of d.rec a) (subst at_kind a (skips (inl a)))
          | inr aaaa ↦
              rw (is_a_not d.rec (λ e. cc (e, aaaa)), is_aaaa_of d.rec aaaa)
                (subst at_kind aaaa (skips (inr aaaa)))
        ]
        | inr cname ↦
            rw
              (
                is_a_not d.rec (λ e. cc (e, cname)),
                is_aaaa_not d.rec (λ e. cc (e, cname)),
                is_cname_of d.rec cname,
              )
              (cname_skips d mem cname present)
      ]

  -- Step 2 leaves the plan as it is.
  pub loop_skips :
      (actual rest : List RecordIntent) (plan : Plan)
      → ((d : RecordIntent) → In d rest → In d ris × Present ris m d)
      → reconcile_loop m actual plan rest ≡ some plan
  unfolding reconcile_loop apply
  loop_skips actual [] plan h = refl
  loop_skips actual (d ∷ rest) plan h =
      let (mem, present) = h d (inl refl) in
      rw (decide_skips d mem present) (loop_skips actual rest plan (λ x g. h x (inr g)))
