-- ===== src/Core/Filter/Resolve.antt =====
-- Step 2 of FilterRecordIntents: the switch on the records of one name.
use docker_coredns_sync.Prelude.{
  All, Bool-cases, List, Option, Text, [], false, if◌then◌else◌, inl, inr, nat_eq, none, refl, some,
  text_eq, true, ◌∷◌, ◌≡◌,
}
use docker_coredns_sync.Domain.Kind.{RecordKind, kind_eq, record_a, record_aaaa, record_cname}
use docker_coredns_sync.Domain.Intent.{RecordIntent}
use docker_coredns_sync.Core.NestedMaps.{NestedRecordMap, set_record}
use docker_coredns_sync.Core.Filter.{
  first, keep_addresses, keep_one, resolve, set_records, should_replace_all_existing, slice,
}
use docker_coredns_sync.Core.Filter.Maps.{InMaps, set_record-InMaps}

module _ (P : Text → RecordKind → Text → RecordIntent → Type 0) where
  abbrev pub Kept : Text → RecordKind → List RecordIntent → Type 0
  Kept n k ris = All (λ ri. P n k ri.rec.value ri) ris

  set_records-InMaps :
      (out : NestedRecordMap) (n : Text) (k : RecordKind) (ris : List RecordIntent)
      → Kept n k ris
      → InMaps P out
      → InMaps P (set_records out n k ris)
  unfolding set_records
  set_records-InMaps out n k [] p h = h
  set_records-InMaps out n k (ri ∷ ris) p h =
      set_records-InMaps (set_record out n k ri.rec.value ri) n k ris p.1
        (set_record-InMaps P out n k ri.rec.value ri p.0 h)

  abbrev pub BothKept : Text → Option (List RecordIntent) → Option (List RecordIntent) → Type 0
  BothKept n a aaaa = Kept n record_a (slice a) × Kept n record_aaaa (slice aaaa)

  keep_addresses-InMaps :
      (out : NestedRecordMap) (n : Text) (a aaaa : Option (List RecordIntent))
      → BothKept n a aaaa
      → InMaps P out
      → InMaps P (keep_addresses out n a aaaa)
  unfolding keep_addresses
  keep_addresses-InMaps out n a aaaa p h =
      set_records-InMaps (set_records out n record_a (slice a)) n record_aaaa (slice aaaa) p.1
        (set_records-InMaps out n record_a (slice a) p.0 h)

  abbrev pub Resolved : Option NestedRecordMap → Type 0
  Resolved o = (out : NestedRecordMap) × (o ≡ some out) × InMaps P out

  module _ (out : NestedRecordMap) (n : Text) (all_addr : List RecordIntent)
      (a aaaa : Option (List RecordIntent)) (h : InMaps P out) where
    contested :
        (r : RecordIntent)
        → (should_replace_all_existing r all_addr ≡ true → P n record_cname r.rec.value r)
        → (should_replace_all_existing r all_addr ≡ false → BothKept n a aaaa)
        → InMaps P (
            if should_replace_all_existing r all_addr
            then keep_one out n r
            else keep_addresses out n a aaaa)
    unfolding keep_one
    contested r wins loses = elim (Bool-cases (should_replace_all_existing r all_addr)) [
      | inl t ↦ rw t (set_record-InMaps P out n record_cname r.rec.value r (wins t) h)
      | inr f ↦ rw f (keep_addresses-InMaps out n a aaaa (loses f) h)
    ]

  -- What is known of the records of a name: the CNAMEs have a first one, which is kept if it beats the
  -- addresses, and else the addresses are kept.
  pub record Ready (n : Text) (all_addr : List RecordIntent)
      (a aaaa cnames : Option (List RecordIntent)) : Type 0 where
    pub alone :
        a ≡ none → aaaa ≡ none → (r : RecordIntent) → should_replace_all_existing r all_addr ≡ true
    pub headed :
        (cs : List RecordIntent) → cnames ≡ some cs → (r : RecordIntent) × (first cs ≡ some r)
    pub wins :
        (cs : List RecordIntent) (r : RecordIntent)
        → cnames ≡ some cs
        → first cs ≡ some r
        → should_replace_all_existing r all_addr ≡ true
        → P n record_cname r.rec.value r
    pub loses :
        (cs : List RecordIntent) (r : RecordIntent)
        → cnames ≡ some cs
        → first cs ≡ some r
        → should_replace_all_existing r all_addr ≡ false
        → BothKept n a aaaa
    pub free : cnames ≡ none → BothKept n a aaaa

  pub resolve-InMaps :
      (out : NestedRecordMap) (n : Text) (all_addr : List RecordIntent)
      (a aaaa cnames : Option (List RecordIntent))
      → Ready n all_addr a aaaa cnames
      → InMaps P out
      → Resolved (resolve out n all_addr a aaaa cnames)
  unfolding resolve keep_one
  resolve-InMaps out n all_addr none none (some cs) s h =
      let (r, e) = s.headed cs refl in
      (
        keep_one out n r,
        rw e refl,
        set_record-InMaps P out n record_cname r.rec.value r
            (s.wins cs r refl e (s.alone refl refl r)) h,
      )
  resolve-InMaps out n all_addr (some a) aaaa (some cs) s h =
      let (r, e) = s.headed cs refl in
      (
        _,
        rw e refl,
        contested out n all_addr (some a) aaaa h r (s.wins cs r refl e) (s.loses cs r refl e),
      )
  resolve-InMaps out n all_addr none (some aaaa) (some cs) s h =
      let (r, e) = s.headed cs refl in
      (
        _,
        rw e refl,
        contested out n all_addr none (some aaaa) h r (s.wins cs r refl e) (s.loses cs r refl e),
      )
  resolve-InMaps out n all_addr none none none s h = (out, refl, h)
  resolve-InMaps out n all_addr (some a) aaaa none s h =
      (_, refl, keep_addresses-InMaps out n (some a) aaaa (s.free refl) h)
  resolve-InMaps out n all_addr none (some aaaa) none s h =
      (_, refl, keep_addresses-InMaps out n none (some aaaa) (s.free refl) h)
