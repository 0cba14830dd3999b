-- ===== src/Core/Engine/Pass.antt =====
-- One reconciliation pass: the function that Run of internal/core/engine.go gives to LockTransaction.
-- The registry is a parameter, whose calls change a world. Metrics and logging are left out.
pub mod Outcome
use docker_coredns_sync.Prelude.{
  List, Option, Result, [], err, if◌then◌else◌, nat_eq, none, ok, some, suc, text_eq, zero, ℕ, ◌+◌,
  ◌>>=◌, ◌∷◌,
}
use docker_coredns_sync.Config.{AppConfig}
use docker_coredns_sync.Domain.Intent.{RecordIntent}
use docker_coredns_sync.State.{MemoryState, TextSet, get_all_desired_record_intents}
use docker_coredns_sync.Core.Filter.{filter_record_intents}
use docker_coredns_sync.Core.Reconcile.{reconcile_and_validate}

-- upstreamRegistry, as far as the pass calls it: a write gives none, or its error.
pub record UpstreamRegistry (World Error : Type 0) : Type 0 where
  pub list : World → Result Error (List RecordIntent) × World
  pub get_live_hostnames : World → Result Error (Option TextSet) × World
  pub remove : RecordIntent → World → Option Error × World
  pub register : RecordIntent → World → Option Error × World

pub data PassError (Error : Type 0) : Type 0 where
  listing_failed : Error → PassError Error
  writes_failed : ℕ → PassError Error

-- On an error of GetLiveHostnames the set is nil.
unfoldable pub live_or_nil : {Error : Type 0} → Result Error (Option TextSet) → Option TextSet
live_or_nil (err e) = none
live_or_nil (ok live) = live

unfoldable pub count_error : {Error : Type 0} → Option Error → ℕ → ℕ
count_error none n = n
count_error (some e) n = n + 1

unfoldable pub verdict_of : {Error : Type 0} → ℕ → Option (PassError Error)
verdict_of zero = none
verdict_of (suc n) = some (writes_failed (suc n))

module _ {World Error : Type 0} where
  -- One of the two loops of writes: the errors are counted, and the loop goes on.
  unfoldable pub write_all :
      (RecordIntent → World → Option Error × World) → List RecordIntent → ℕ → World → ℕ × World
  unfolding count_error
  write_all write [] errs w = (errs, w)
  write_all write (ri ∷ ris) errs w =
      let (e, w') = write ri w in write_all write ris (count_error e errs) w'

  module _ (reg : UpstreamRegistry World Error) where
    -- The removals, and then the registrations
    unfoldable pub apply_changes :
        List RecordIntent → List RecordIntent → World → Option (PassError Error) × World
    unfolding write_all verdict_of
    apply_changes to_add to_remove w =
        let (errs, w') = write_all reg.remove to_remove 0 w in
        let (all_errs, w'') = write_all reg.register to_add errs w' in (verdict_of all_errs, w'')

    -- The pass after the reads
    unfoldable pub change :
        AppConfig
        → MemoryState
        → List RecordIntent
        → Option TextSet
        → World
        → Option (Option (PassError Error) × World)
    unfolding apply_changes get_all_desired_record_intents
    change cfg s actual live w = do
      desired ← filter_record_intents (get_all_desired_record_intents s)
      plan ← reconcile_and_validate desired actual cfg.hostname live
      some (if cfg.dry_run then (none, w) else apply_changes plan.0 plan.1 w)

    unfoldable pub after_list :
        AppConfig
        → MemoryState
        → Result Error (List RecordIntent) × World
        → Option (Option (PassError Error) × World)
    unfolding change live_or_nil
    after_list cfg s (err e, w) = some (some (listing_failed e), w)
    after_list cfg s (ok actual, w) =
        let (live, w') = reg.get_live_hostnames w in change cfg s actual (live_or_nil live) w'

    -- The pass: none where the program would panic, or the fuel of a cycle walk run out
    unfoldable pub reconcile_pass :
        AppConfig → MemoryState → World → Option (Option (PassError Error) × World)
    unfolding after_list
    reconcile_pass cfg s w = after_list cfg s (reg.list w)
