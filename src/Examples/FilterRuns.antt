-- ===== src/Examples/FilterRuns.antt =====
-- Runs of FilterRecordIntents.
use docker_coredns_sync.Prelude.{
  All, In, List, Text, [], nat_eq, refl, some, text_eq, true, ◌↔◌, ◌∷◌, ◌≡◌, ◌⊎◌,
}
use docker_coredns_sync.Core.Filter.Represented.{Represented}
use docker_coredns_sync.Domain.Kind.{record_cname}
use docker_coredns_sync.Domain.Intent.{RecordIntent}
use docker_coredns_sync.GoMap.{keys, values, lookup, insert}
use docker_coredns_sync.Domain.Kind.{RecordKind, kind_eq}
use docker_coredns_sync.Core.NestedMaps.{
  NestedRecordMap, new_nested_record_map, peek_name_kind_record,
}
use docker_coredns_sync.Core.Filter.{
  deduplicate, filter_record_intents, should_replace_all_existing, should_replace_existing,
}
use docker_coredns_sync.Core.Filter.Order.{should_replace_all_existing-All}
use docker_coredns_sync.Core.Filter.Good.{AllGood}
use docker_coredns_sync.Core.Filter.Dedup.{cname_at}
use docker_coredns_sync.Core.Filter.Winners.{Winner, filter_winners}
use docker_coredns_sync.Core.Validation.Rules.{Clashes}
use docker_coredns_sync.Core.Filter.Best.{IsAlias, IsFor, step_1}
use docker_coredns_sync.Core.Filter.Top.{Top}
use docker_coredns_sync.Core.Validation.Rules.{IsAddressKind, Clashes}
use docker_coredns_sync.Examples.Data.{address, alias, app_a, owned, there}

-- Of two equal addresses the older one stays, and it beats the younger CNAME of its name.
test_filter :
    filter_record_intents (owned there 7 app_a ∷ address ∷ alias ∷ []) ≡ some (address ∷ [])
unfolding filter_record_intents lookup insert should_replace_existing keys values
test_filter = refl

step_1_example :
    (m : NestedRecordMap) × (deduplicate new_nested_record_map
        (owned there 7 app_a ∷ address ∷ alias ∷ [])
      ≡ some m)
    × AllGood m
    × ((n : Text) (k : RecordKind) (v : Text)
        → IsAddressKind k
        → Top
            (IsFor n k v)
            (owned there 7 app_a ∷ address ∷ alias ∷ [])
            (peek_name_kind_record m n k v))
    × ((n : Text) → Top (IsAlias n) (owned there 7 app_a ∷ address ∷ alias ∷ []) (cname_at m n))
step_1_example = step_1 (owned there 7 app_a ∷ address ∷ alias ∷ [])

should_replace_all_existing-All_example :
    (should_replace_all_existing alias (address ∷ []) ≡ true)
    ↔ All (λ ri. should_replace_existing alias ri ≡ true) (address ∷ [])
should_replace_all_existing-All_example = should_replace_all_existing-All alias (address ∷ [])

older : should_replace_existing address (owned there 7 app_a) ≡ true
unfolding should_replace_existing
older = refl

older_still : should_replace_existing (owned there 7 app_a) alias ≡ true
unfolding should_replace_existing
older_still = refl

filter_winners_example :
    (out : List RecordIntent) × (filter_record_intents (owned there 7 app_a ∷ address ∷ alias ∷ [])
      ≡ some out)
    × All (Winner (owned there 7 app_a ∷ address ∷ alias ∷ [])) out
    × ((r s : RecordIntent) → In r out → In s out → Clashes r.rec s.rec → r ≡ s)
    × ((c : RecordIntent)
        → In c (owned there 7 app_a ∷ address ∷ alias ∷ [])
        → IsAddressKind c.rec.kind ⊎ (c.rec.kind ≡ record_cname)
        → Represented out c)
filter_winners_example = filter_winners (owned there 7 app_a ∷ address ∷ alias ∷ [])
