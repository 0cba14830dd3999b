-- ===== src/Core/Filter/Outcome.antt =====
-- What the switch of step 2 of FilterRecordIntents does to the map of the result.
use docker_coredns_sync.Prelude.{
  Bool-cases, List, Option, Text, arith, false, if◌then◌else◌, inl, inr, nat_eq, none, refl, some,
  subst, text_eq, ◌>>=◌, ◌≡◌, ◌⊎◌,
}
use docker_coredns_sync.Domain.Kind.{RecordKind, kind_eq, record_a, record_aaaa, record_cname}
use docker_coredns_sync.Domain.Intent.{RecordIntent}
use docker_coredns_sync.Core.NestedMaps.{NestedRecordMap}
use docker_coredns_sync.Core.Filter.{
  first, keep_addresses, keep_one, resolve, set_records, should_replace_all_existing, slice,
}
use docker_coredns_sync.Core.Filter.Written.{Has, set_record-Has, set_records-Has}

pub bind_some :
    {A B : Type 0} (o : Option A) (f : A → Option B) (b : B)
    → (o >>= f) ≡ some b
    → (a : A) × (o ≡ some a) × (f a ≡ some b)
bind_some none f b h = absurd (ground (arith, h))
bind_some (some a) f b h = (a, refl, h)

pub some_map :
    (m m' : NestedRecordMap) → ◌≡◌ {A = Option NestedRecordMap} (some m) (some m') → m' ≡ m
some_map m m' h = cc

module _ (out : NestedRecordMap) (n : Text) (all_addr : List RecordIntent) where
  -- What the switch of step 2 does: it keeps a CNAME, or the addresses.
  abbrev pub Outcome :
      Option (List RecordIntent)
      → Option (List RecordIntent)
      → Option (List RecordIntent)
      → NestedRecordMap
      → Type 0
  Outcome a aaaa cnames out' =
      ((c : RecordIntent) × (out' ≡ keep_one out n c))
      ⊎ ((out' ≡ keep_addresses out n a aaaa)
          × ((cnames ≡ none)
              ⊎ ((c : RecordIntent) × (should_replace_all_existing c all_addr ≡ false))))

  contested :
      (a aaaa : Option (List RecordIntent)) (cs : List RecordIntent) (out' : NestedRecordMap)
      → ((first cs) >>= (λ c. some (
          if should_replace_all_existing c all_addr
          then keep_one out n c
          else keep_addresses out n a aaaa)))
        ≡ some out'
      → Outcome a aaaa (some cs) out'
  contested a aaaa cs out' h =
      let (c, e, is) =
        bind_some (first cs)
          (λ c. some (
            if should_replace_all_existing c all_addr
            then keep_one out n c
            else keep_addresses out n a aaaa))
          out' h in
      elim (Bool-cases (should_replace_all_existing c all_addr)) [
        | inl wins ↦ inl (
          c,
          some_map (keep_one out n c) out' (
              subst
                (λ b.
                  ◌≡◌ {A = Option NestedRecordMap}
                    (some (if b then keep_one out n c else keep_addresses out n a aaaa))
                    (some out'))
                wins is),
        )
        | inr loses ↦ inr (
          some_map (keep_addresses out n a aaaa) out' (
              subst
                (λ b.
                  ◌≡◌ {A = Option NestedRecordMap}
                    (some (if b then keep_one out n c else keep_addresses out n a aaaa))
                    (some out'))
                loses is),
          inr (c, loses),
        )
      ]

  pub resolve-Outcome :
      (a aaaa cnames : Option (List RecordIntent)) (out' : NestedRecordMap)
      → resolve out n all_addr a aaaa cnames ≡ some out'
      → Outcome a aaaa cnames out'
  unfolding resolve
  resolve-Outcome none none (some cs) out' h =
      let (c, e, is) = bind_some (first cs) (λ c. some (keep_one out n c)) out' h in
      inl (c, some_map (keep_one out n c) out' is)
  resolve-Outcome (some a) aaaa (some cs) out' h = contested (some a) aaaa cs out' h
  resolve-Outcome none (some aaaa) (some cs) out' h = contested none (some aaaa) cs out' h
  resolve-Outcome none none none out' h = inr (
    some_map (keep_addresses out n none none) out' (unfold keep_addresses set_records in h),
    inl refl,
  )
  resolve-Outcome (some a) aaaa none out' h =
      inr (some_map (keep_addresses out n (some a) aaaa) out' h, inl refl)
  resolve-Outcome none (some aaaa) none out' h =
      inr (some_map (keep_addresses out n none (some aaaa)) out' h, inl refl)

pub keep_one-Has :
    (out : NestedRecordMap) (n' : Text) (c : RecordIntent) (n : Text) (k : RecordKind) (v : Text)
    → Has out n k v
    → Has (keep_one out n' c) n k v
unfolding keep_one
keep_one-Has out n' c n k v h = set_record-Has out n k v n' record_cname c.rec.value c h

pub keep_addresses-Has :
    (out : NestedRecordMap) (n' : Text) (a aaaa : Option (List RecordIntent)) (n : Text)
    (k : RecordKind) (v : Text)
    → Has out n k v
    → Has (keep_addresses out n' a aaaa) n k v
unfolding keep_addresses
keep_addresses-Has out n' a aaaa n k v h =
    set_records-Has (set_records out n' record_a (slice a)) n k v n' record_aaaa (slice aaaa)
      (set_records-Has out n k v n' record_a (slice a) h)
