-- ===== src/Examples/PassRuns.antt =====
-- Runs of a reconciliation pass on a registry that is a list of record intents.
use docker_coredns_sync.Prelude.{
  List, Text, [], codes, if◌then◌else◌, nat_eq, none, ok, refl, some, text_eq, true, ◌+◌, ◌==◌, ◌∷◌,
  ◌≡◌,
}
use docker_coredns_sync.Core.Engine.Counts.{forget}
use docker_coredns_sync.State.{MemoryState}
use docker_coredns_sync.Config.{AppConfig}
use docker_coredns_sync.Config.{AppConfig}
use docker_coredns_sync.Core.Filter.{filter_record_intents}
use docker_coredns_sync.Core.Reconcile.{reconcile_and_validate}
use docker_coredns_sync.Core.Validation.{validate_record, flags}
use docker_coredns_sync.Domain.Event.{running}
use docker_coredns_sync.Domain.Intent.{RecordIntent, key}
use docker_coredns_sync.GoMap.{keys, lookup, insert}
use docker_coredns_sync.State.{MemoryState}
use docker_coredns_sync.State.Lookup.{fresh_entry}
use docker_coredns_sync.Core.Engine.Pass.{write_all, UpstreamRegistry, reconcile_pass}
use docker_coredns_sync.Examples.Data.{address, config}
use docker_coredns_sync.Core.Engine.Counts.{
  apply_changes-counted, counting, failed_writes, no_counts,
}
use docker_coredns_sync.Core.Engine.Pass.{apply_changes}

-- The list without the record intents of a key
abbrev dropped : RecordIntent → List RecordIntent → List RecordIntent
dropped ri [] = []
dropped ri (x ∷ w) = if key x == key ri then dropped ri w else x ∷ dropped ri w

abbrev listing : UpstreamRegistry (List RecordIntent) Text
listing = record {
  list = λ w. (ok w, w);
  get_live_hostnames = λ w. (ok none, w);
  remove = λ ri w. (none, dropped ri w);
  register = λ ri w. (none, ri ∷ w);
}

abbrev tracking : MemoryState
tracking = record {
  containers = (codes "c1", fresh_entry (codes "c1") (codes "web") 5 (address ∷ []) running 7) ∷ [];
}

abbrev dry : AppConfig
dry = record config { dry_run = true }

run_pass : reconcile_pass listing config tracking [] ≡ some (none, address ∷ [])
unfolding reconcile_pass filter_record_intents keys lookup insert reconcile_and_validate
    validate_record flags
run_pass = refl

apply_changes-counted_example :
    let r = apply_changes (counting listing) (address ∷ []) (address ∷ []) ([], no_counts) in
    let plain = apply_changes listing (address ∷ []) (address ∷ []) [] in
    (r.0 ≡ plain.0)
    × (r.1.0 ≡ plain.1)
    × (r.1.1.removed + (write_all listing.remove (address ∷ []) 0 []).0 ≡ 1)
    × (r.1.1.added + failed_writes plain.0 ≡ 1 + (write_all listing.remove (address ∷ []) 0 []).0)
    × ((cfg : AppConfig) (s : MemoryState)
        → forget listing (reconcile_pass (counting listing) cfg s ([], no_counts))
          ≡ reconcile_pass listing cfg s [])
apply_changes-counted_example = apply_changes-counted listing (address ∷ []) (address ∷ []) []

run_dry : reconcile_pass listing dry tracking [] ≡ some (none, [])
unfolding reconcile_pass filter_record_intents keys lookup insert reconcile_and_validate
    validate_record flags
run_dry = refl
