-- ===== src/Examples/ReconcileRuns.antt =====
-- Runs of ReconcileAndValidate and ValidateRecord.
use docker_coredns_sync.Prelude.{
  All, In, List, [], ap, arith, codes, inl, inr, nat_eq, none, refl, some, sym, text_beq, text_eq,
  ◌↔◌, ◌∙◌, ◌∷◌, ◌≡◌, ◌≢◌, ◌⊎◌,
}
use docker_coredns_sync.GoMap.{lookup}
use docker_coredns_sync.Domain.Kind.{kind_eq, record_cname}
use docker_coredns_sync.Domain.Record.{is_a, is_aaaa, is_cname}
use docker_coredns_sync.Domain.Intent.{RecordIntent, key}
use docker_coredns_sync.Core.Reconcile.{reconcile_and_validate, wins}
use docker_coredns_sync.Core.Reconcile.Decide.{Evicts}
use docker_coredns_sync.Core.Reconcile.Stale.{IsStale}
use docker_coredns_sync.Core.Reconcile.Quiet.{reconcile_quiet}
use docker_coredns_sync.Core.Reconcile.Safety.{
  Addable, added_lem, reconcile_returns, removed_lem, stale_removed,
}
use docker_coredns_sync.Core.Validation.{
  cname_cycle, flags, validate_record, forward_map, has_cycle, walk,
}
use docker_coredns_sync.Core.Validation.Rules.{Clashes, IsAddressKind}
use docker_coredns_sync.Core.Validation.Walk.{Ends}
use docker_coredns_sync.Core.Validation.Exact.{target, validate_record_iff}
use docker_coredns_sync.Examples.Data.{address, alias, app_name, here, owned}

-- The older address takes the place of the other host's CNAME.
run_evicts :
    reconcile_and_validate (address ∷ []) (alias ∷ []) here none ≡ some (address ∷ [], alias ∷ [])
unfolding reconcile_and_validate is_a key wins validate_record flags
run_evicts = refl

-- An own record that is no longer desired goes.
run_stale : reconcile_and_validate [] (address ∷ []) here none ≡ some ([], address ∷ [])
unfolding reconcile_and_validate text_beq
run_stale = refl

other_host : alias.hostname ≢ here
other_host h = ground arith

removed_lem_example :
    In alias (alias ∷ [])
    × (IsStale (address ∷ []) here none alias
        ⊎ ((d : RecordIntent) × In d (address ∷ []) × Evicts (alias ∷ []) d alias))
removed_lem_example =
    removed_lem (address ∷ []) (alias ∷ []) here none (address ∷ []) (alias ∷ []) run_evicts alias
      (inl refl)

added_lem_example : Addable (address ∷ []) (alias ∷ []) here none (alias ∷ []) address
added_lem_example =
    added_lem (address ∷ []) (alias ∷ []) here none (address ∷ []) (alias ∷ []) run_evicts address
      (inl refl)

stale_removed_example : (x : RecordIntent) × In x (address ∷ []) × (key x ≡ key address)
stale_removed_example =
    stale_removed [] (address ∷ []) here none [] (address ∷ []) run_stale address (inl refl)
      (λ h. h.1, inl refl)

reconcile_returns_example :
    (o : List RecordIntent × List RecordIntent) × (reconcile_and_validate
        (address ∷ [])
        (alias ∷ [])
        here
        none
      ≡ some o)
reconcile_returns_example = reconcile_returns (address ∷ []) (alias ∷ []) here none

-- A CNAME on itself is refused.
self : RecordIntent
self = owned here 5 (record { name = app_name; kind = record_cname; value = app_name })

validate_record_iff_example : (validate_record alias (self ∷ []) ≡ some none) ↔ (
    All (λ ri. ¬ Clashes alias.rec ri.rec) (self ∷ [])
    × (alias.rec.kind ≡ record_cname → Ends (target alias.rec (self ∷ [])) alias.rec.name))
validate_record_iff_example = validate_record_iff alias (self ∷ [])

test_cycle : validate_record self [] ≡ some (some cname_cycle)
unfolding validate_record self flags has_cycle walk lookup forward_map
test_cycle = refl

only_address :
    (r : RecordIntent)
    → In r (address ∷ [])
    → IsAddressKind r.rec.kind ⊎ (r.rec.kind ≡ record_cname)
only_address r (inl e) = inl (inl (ap (λ (x : RecordIntent). x.rec.kind) e))
only_address r (inr h) = absurd h

only_one :
    (r s : RecordIntent) → In r (address ∷ []) → In s (address ∷ []) → Clashes r.rec s.rec → r ≡ s
only_one r s (inl e) (inl f) clash = e ∙ sym f
only_one r s (inl e) (inr h) clash = absurd h
only_one r s (inr h) g clash = absurd h

same_intents : (r : RecordIntent) → In r (address ∷ address ∷ []) ↔ In r (address ∷ [])
same_intents r = (λ h. elim h [ inl e ↦ inl e | inr m ↦ m ], λ h. inr h)

reconcile_quiet_example :
    reconcile_and_validate (address ∷ []) (address ∷ address ∷ []) here none ≡ some ([], [])
reconcile_quiet_example =
    reconcile_quiet (address ∷ []) (address ∷ address ∷ []) here none same_intents
      (record { known = only_address; apart = only_one })

-- Two new CNAMEs that lead to each other are both added.
abbrev forth : RecordIntent
forth = owned here 5 (record { name = codes "a"; kind = record_cname; value = codes "b" })

abbrev back : RecordIntent
back = owned here 5 (record { name = codes "b"; kind = record_cname; value = codes "a" })

test_new_cycle :
    reconcile_and_validate (forth ∷ back ∷ []) [] here none ≡ some (forth ∷ back ∷ [], [])
unfolding reconcile_and_validate is_a is_aaaa is_cname key wins validate_record flags has_cycle walk
    lookup forward_map
test_new_cycle = refl
