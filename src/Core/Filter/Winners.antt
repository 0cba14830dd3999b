-- ===== src/Core/Filter/Winners.antt =====
-- FilterRecordIntents as a whole: the record intents that it returns, as winners among its input.
use docker_coredns_sync.Prelude.{
  All, All-In, All-map, Bool-cases, In, List, Option-cases, Text, inl, inr, nat_eq, refl, some,
  subst, sym, text_eq, true, ◌≡◌, ◌≢◌, ◌⊎◌,
}
use docker_coredns_sync.Core.Filter.Represented.{
  IsAddressOf, Represented, address-Represented, cname-Represented,
}
use docker_coredns_sync.Core.Filter.Complete.{resolve_all-Settled}
use docker_coredns_sync.Core.Filter.Top.{Top, best}
use docker_coredns_sync.Core.Filter.Best.{IsAlias, IsFor}
use docker_coredns_sync.Core.Filter.Good.{AllGood}
use docker_coredns_sync.Core.Filter.Addresses.{address_found, found_address}
use docker_coredns_sync.Core.Filter.{should_replace_existing}
use docker_coredns_sync.Core.Filter.Order.{
  Beats, not-Beats_iff, not-Beats_trans, not_all_replaced, should_replace_all_existing-All,
  should_replace_existing_iff,
}
use docker_coredns_sync.Domain.Kind.{RecordKind, kind_eq, record_cname}
use docker_coredns_sync.Domain.Record.{Record, is_address}
use docker_coredns_sync.Domain.Intent.{RecordIntent}
use docker_coredns_sync.Core.NestedMaps.{
  NestedRecordMap, peek_name_kind_record, get_all_names, get_all_values, new_nested_record_map,
}
use docker_coredns_sync.Core.Filter.{should_replace_all_existing, filter_record_intents}
use docker_coredns_sync.Core.Filter.Dedup.{cname_at}
use docker_coredns_sync.Core.Filter.Maps.{get_all_values-All}
use docker_coredns_sync.Core.Filter.Best.{step_1}
use docker_coredns_sync.Core.Validation.Rules.{IsAddressKind, Clashes}
use docker_coredns_sync.Core.Filter.Chosen.{Chosen, Unbeaten, addresses_of, resolve_all-InMaps}

module _ (m : NestedRecordMap) where
  -- What step 2 keeps, by its own record.
  abbrev pub Survives : RecordIntent → Type 0
  Survives r = Chosen m r.rec.name r.rec.kind r.rec.value r

  survives :
      (n : Text) (k : RecordKind) (v : Text) (r : RecordIntent) → Chosen m n k v r → Survives r
  survives n k v r c = subst (λ (q : Record). Chosen m q.name q.kind q.value r) (sym c.0) c

  cname_clash :
      (r s : RecordIntent)
      → r.rec.name ≡ s.rec.name
      → cname_at m r.rec.name ≡ some r
      → should_replace_all_existing r (addresses_of m r.rec.name) ≡ true
      → ¬ Unbeaten m s.rec.name
  cname_clash r s e found wins unbeaten =
      let lost = unbeaten r (subst (λ n. cname_at m n ≡ some r) e found) in cc (lost, wins, e)

  same_cname :
      (r s : RecordIntent)
      → r.rec.name ≡ s.rec.name
      → cname_at m r.rec.name ≡ some r
      → cname_at m s.rec.name ≡ some s
      → r ≡ s
  same_cname r s e p q = cc

  not_both : (k : RecordKind) → IsAddressKind k → k ≢ record_cname
  not_both k (inl a) c = cc
  not_both k (inr a) c = cc

  same_address :
      (r s : RecordIntent)
      → r.rec.name ≡ s.rec.name
      → r.rec.kind ≡ s.rec.kind
      → r.rec.value ≡ s.rec.value
      → peek_name_kind_record m r.rec.name r.rec.kind r.rec.value ≡ some r
      → peek_name_kind_record m s.rec.name s.rec.kind s.rec.value ≡ some s
      → r ≡ s
  same_address r s e f g p q = cc

  -- Two survivors do not clash, unless they are one.
  survivors_agree : (r s : RecordIntent) → Survives r → Survives s → Clashes r.rec s.rec → r ≡ s
  survivors_agree r s (e, inl (k, found, wins)) (f, inl (l, there, won)) (name, why) =
      same_cname r s (sym name) found there
  survivors_agree r s (e, inl (k, found, wins)) (f, inr (address, there, unbeaten)) (name, why) =
      absurd (cname_clash r s (sym name) found wins unbeaten)
  survivors_agree r s (e, inr (address, found, unbeaten)) (f, inl (l, there, won)) (name, why) =
      absurd (cname_clash s r name there won unbeaten)
  survivors_agree r s (e, inr (a, found, free)) (f, inr (b, there, unbeaten)) (name, inl (k, x)) =
      absurd (not_both r.rec.kind a k)
  survivors_agree r s (e, inr (a, found, free)) (f, inr (b, there, unbeaten))
        (name, inr (c, inl k)) =
      absurd (not_both s.rec.kind b k)
  survivors_agree r s (e, inr (a, found, free)) (f, inr (b, there, unbeaten))
        (name, inr (c, inr (kind, value))) =
      same_address r s (sym name) (sym kind) (sym value) found there

-- A CNAME that beats the other CNAMEs and all addresses of its name, or an address that beats the other
-- candidates for its record, under a name of which no CNAME beats all addresses.
abbrev pub Winner : List RecordIntent → RecordIntent → Type 0
Winner ris r =
    ((r.rec.kind ≡ record_cname)
      × Top (IsAlias r.rec.name) ris (some r)
      × ((c : RecordIntent) → In c ris → IsAddressOf r.rec.name c → Beats r c))
    ⊎ (IsAddressKind r.rec.kind
        × Top (IsFor r.rec.name r.rec.kind r.rec.value) ris (some r)
        × ((c : RecordIntent)
            → In c ris
            → IsAlias r.rec.name c
            → (a : RecordIntent) × In a ris × IsAddressOf r.rec.name a × (¬ Beats c a)))

beaten_before : (x y z : RecordIntent) → Beats x y → ¬ Beats z y → Beats x z
beaten_before x y z h p = elim (Bool-cases (should_replace_existing x z)) [
  | inl wins ↦ (should_replace_existing_iff x z).0 wins
  | inr loses ↦ absurd (not-Beats_trans x z y ((not-Beats_iff x z).0 loses) p h)
]

module _ (ris : List RecordIntent) (m : NestedRecordMap) (good : AllGood m)
    (best : (n : Text) (k : RecordKind) (v : Text)
      → IsAddressKind k
      → Top (IsFor n k v) ris (peek_name_kind_record m n k v))
    (bests : (n : Text) → Top (IsAlias n) ris (cname_at m n)) where
  -- An address of the map is a candidate.
  from_addresses :
      (n : Text) (a : RecordIntent) → In a (addresses_of m n) → In a ris × IsAddressOf n a
  from_addresses n a h =
      let (k, v, address, found) = address_found m good n a h in
      let (there, is_for, top) = subst (Top (IsFor n k v) ris) found (best n k v address) in
      (there, (subst IsAddressKind (sym is_for.1) address, is_for.0))

  -- A candidate for an address does not beat some address of the map.
  to_addresses :
      (n : Text) (c : RecordIntent)
      → In c ris
      → IsAddressOf n c
      → (a : RecordIntent) × In a (addresses_of m n) × (¬ Beats c a)
  to_addresses n c h (address, name) =
      let k = c.rec.kind in
      let v = c.rec.value in
      elim (Option-cases (peek_name_kind_record m n k v)) [
        | inl absent ↦
            absurd
              (subst (Top (IsFor n k v) ris) absent (best n k v address) c h (name, refl, refl))
        | inr (a, found) ↦
            let (there, is_for, top) = subst (Top (IsFor n k v) ris) found (best n k v address) in
            (a, found_address m n k v a address found, top c h (name, refl, refl))
      ]

  cname_wins :
      (r : RecordIntent)
      → should_replace_all_existing r (addresses_of m r.rec.name) ≡ true
      → (c : RecordIntent) → In c ris
      → IsAddressOf r.rec.name c
      → Beats r c
  cname_wins r wins c h is =
      let (a, there, not_over) = to_addresses r.rec.name c h is in
      let over =
        All-In (λ ri. should_replace_existing r ri ≡ true) (addresses_of m r.rec.name) a
          ((should_replace_all_existing-All r (addresses_of m r.rec.name)).0 wins) there in
      beaten_before r a c ((should_replace_existing_iff r a).0 over) not_over

  cname_loses :
      (n : Text)
      → Unbeaten m n
      → (c : RecordIntent) → In c ris
      → IsAlias n c
      → (a : RecordIntent) × In a ris × IsAddressOf n a × (¬ Beats c a)
  cname_loses n free c h is = elim (Option-cases (cname_at m n)) [
    | inl absent ↦ absurd (subst (Top (IsAlias n) ris) absent (bests n) c h is)
    | inr (t, found) ↦
        let (there, is_alias, top) = subst (Top (IsAlias n) ris) found (bests n) in
        let (a, mem, loses) = not_all_replaced t (addresses_of m n) (free t found) in
        let (mem', is_address) = from_addresses n a mem in
        (a, mem', is_address, not-Beats_trans c t a (top c h is) ((not-Beats_iff t a).0 loses))
  ]

  winner : (r : RecordIntent) → Survives m r → Winner ris r
  winner r (e, inl (k, found, wins)) =
      inl (k, subst (Top (IsAlias r.rec.name) ris) found (bests r.rec.name), cname_wins r wins)
  winner r (e, inr (a, found, free)) = inr (
    a,
    subst (Top (IsFor r.rec.name r.rec.kind r.rec.value) ris) found
        (best r.rec.name r.rec.kind r.rec.value a),
    cname_loses r.rec.name free,
  )

-- FilterRecordIntents returns on every input: it never panics. Each record intent that it returns is
-- one of the input. A CNAME that it returns beats, by force and then by age, every address of its name
-- in the input, and no CNAME of its name beats it. An address that it returns is beaten by no candidate
-- for the same record, and each CNAME of its name in the input fails to beat some address of the name.
-- Two that are returned and clash are the same one. For each address of the input a CNAME of its name
-- is returned or an address for the same record, and for each CNAME of the input a CNAME or an address
-- of its name.
pub filter_winners :
    (ris : List RecordIntent)
    → (out : List RecordIntent) × (filter_record_intents ris ≡ some out)
      × All (Winner ris) out
      × ((r s : RecordIntent) → In r out → In s out → Clashes r.rec s.rec → r ≡ s)
      × ((c : RecordIntent)
          → In c ris
          → IsAddressKind c.rec.kind ⊎ (c.rec.kind ≡ record_cname)
          → Represented out c)
unfolding filter_record_intents
filter_winners ris =
    let (m, e, good, best, bests) = step_1 ris in
    let (end, f, h) = resolve_all-InMaps m good (get_all_names m) new_nested_record_map tt in
    let all : All (Survives m) (get_all_values end) =
      get_all_values-All (Chosen m) (Survives m) (survives m) end h in
    let settled = resolve_all-Settled m good (get_all_names m) new_nested_record_map end f in
    (
      get_all_values end,
      rw (e, f) refl,
      All-map (get_all_values end) (winner ris m good best bests) all,
      λ r s p q clash.
          survivors_agree m r s (All-In (Survives m) (get_all_values end) r all p)
            (All-In (Survives m) (get_all_values end) s all q) clash,
      λ c p kind. elim kind [
        | inl a ↦ address-Represented ris m end best bests h settled c p a
        | inr k ↦ cname-Represented ris m end best bests h settled c p k
      ],
    )
