-- ===== src/Core/Engine/Pass/Outcome.antt =====
-- How a reconciliation pass ends.
use docker_coredns_sync.Prelude.{
  List, Option, Result, [], ap, arith, err, false, if◌then◌else◌, nat_eq, none, ok, refl, some, suc,
  sym, text_eq, true, zero, ℕ, ◌∙◌, ◌∷◌, ◌≡◌, ◌≤◌,
}
use docker_coredns_sync.Config.{AppConfig}
use docker_coredns_sync.Domain.Intent.{RecordIntent}
use docker_coredns_sync.State.{MemoryState, TextSet, get_all_desired_record_intents}
use docker_coredns_sync.Core.Filter.{filter_record_intents}
use docker_coredns_sync.Core.Filter.Winners.{filter_winners}
use docker_coredns_sync.Core.Reconcile.{reconcile_and_validate}
use docker_coredns_sync.Core.Reconcile.Safety.{reconcile_returns}
use docker_coredns_sync.Core.Engine.Pass.{
  PassError, UpstreamRegistry, after_list, apply_changes, change, count_error, live_or_nil,
  reconcile_pass, verdict_of, write_all,
}

abbrev pub Write : Type 0 → Type 0 → Type 0
Write World Error = RecordIntent → World → Option Error × World

verdict-none : {Error : Type 0} (n : ℕ) → verdict_of {Error = Error} n ≡ none → n ≡ 0
unfolding verdict_of
verdict-none zero h = refl
verdict-none (suc n) h = absurd (ground arith)

module _ {World Error : Type 0} where
  -- Each write of a loop gives no error.
  abbrev pub Succeed : Write World Error → List RecordIntent → World → Type 0
  Succeed write [] w = Unit
  Succeed write (ri ∷ ris) w = ((write ri w).0 ≡ none) × Succeed write ris (write ri w).1

  write_all-le :
      (write : Write World Error) (ris : List RecordIntent) (n : ℕ) (w : World)
      → n ≤ (write_all write ris n w).0
  unfolding write_all
  write_all-le write [] n w = omega arith
  write_all-le write (ri ∷ ris) n w =
      ground (arith, write_all-le write ris (count_error (write ri w).0 n) (write ri w).1)

  write_all-Succeed :
      (write : Write World Error) (ris : List RecordIntent) (n : ℕ) (w : World)
      → (write_all write ris n w).0 ≡ 0
      → (n ≡ 0) × Succeed write ris w
  unfolding write_all count_error
  write_all-Succeed write [] n w h = (h, tt)
  write_all-Succeed write (ri ∷ ris) n w h =
      let (counted, rest) =
        write_all-Succeed write ris (count_error (write ri w).0 n) (write ri w).1 h in
      ground (arith, rest)

  module _ (reg : UpstreamRegistry World Error) where
    abbrev pub reads_of : Result Error (List RecordIntent) × World → World
    reads_of (err e, w) = w
    reads_of (ok actual, w) = (reg.get_live_hostnames w).1

    -- The world after the calls that only read.
    abbrev pub reads : World → World
    reads w = reads_of (reg.list w)

    -- The plan of the pass: what it is to add and to remove.
    abbrev pub IsPlan :
        AppConfig
        → MemoryState
        → List RecordIntent
        → Option TextSet
        → List RecordIntent × List RecordIntent
        → Type 0
    IsPlan cfg s actual live plan =
        (desired : List RecordIntent) × (filter_record_intents (get_all_desired_record_intents s)
          ≡ some desired)
        × (reconcile_and_validate desired actual cfg.hostname live ≡ some plan)

    change_returns :
        (cfg : AppConfig) (s : MemoryState) (actual : List RecordIntent) (live : Option TextSet)
        (w : World)
        → (plan : List RecordIntent × List RecordIntent) × IsPlan cfg s actual live plan
          × (change reg cfg s actual live w
              ≡ some (if cfg.dry_run then (none, w) else apply_changes reg plan.0 plan.1 w))
    unfolding change
    change_returns cfg s actual live w =
        let (desired, e, winners, agree, whole) =
          filter_winners (get_all_desired_record_intents s) in
        let (plan, f) = reconcile_returns desired actual cfg.hostname live in
        (plan, (desired, e, f), rw (e, f) refl)

    after_list_returns :
        (cfg : AppConfig) (s : MemoryState) (r : Result Error (List RecordIntent) × World)
        → (o : Option (PassError Error) × World) × (after_list reg cfg s r ≡ some o)
    unfolding after_list
    after_list_returns cfg s (err e, w) = (_, refl)
    after_list_returns cfg s (ok actual, w) =
        let (plan, is_plan, e) =
          change_returns cfg s actual (live_or_nil (reg.get_live_hostnames w).0)
            (reg.get_live_hostnames w).1 in
        (_, e)

    -- The pass returns, whatever the registry does: it never panics.
    pub pass_returns :
        (cfg : AppConfig) (s : MemoryState) (w : World)
        → (o : Option (PassError Error) × World) × (reconcile_pass reg cfg s w ≡ some o)
    unfolding reconcile_pass
    pass_returns cfg s w = after_list_returns cfg s (reg.list w)

    after_list_dry_run :
        (cfg : AppConfig) (s : MemoryState) (r : Result Error (List RecordIntent) × World)
        (e : Option (PassError Error)) (w' : World)
        → cfg.dry_run ≡ true
        → after_list reg cfg s r ≡ some (e, w')
        → w' ≡ reads_of r
    unfolding after_list
    after_list_dry_run cfg s (err x, w) e w' dry h = ground arith
    after_list_dry_run cfg s (ok actual, w) e w' dry h =
        let (plan, is_plan, f) =
          change_returns cfg s actual (live_or_nil (reg.get_live_hostnames w).0)
            (reg.get_live_hostnames w).1 in
        ground (arith, f)

    -- In a dry run the pass leaves the world as the two reads left it: it writes nothing.
    pub dry_run_writes_nothing :
        (cfg : AppConfig) (s : MemoryState) (w : World) (e : Option (PassError Error)) (w' : World)
        → cfg.dry_run ≡ true
        → reconcile_pass reg cfg s w ≡ some (e, w')
        → w' ≡ reads w
    unfolding reconcile_pass
    dry_run_writes_nothing cfg s w e w' dry h = after_list_dry_run cfg s (reg.list w) e w' dry h

    -- All removals and then all registrations of a plan succeed, and lead to a world.
    abbrev pub Applied : List RecordIntent × List RecordIntent → World → World → Type 0
    Applied plan w w' =
        let middle = (write_all reg.remove plan.1 0 w).1 in
        Succeed reg.remove plan.1 w
        × Succeed reg.register plan.0 middle
        × ((write_all reg.register plan.0 0 middle).1 ≡ w')

    pub apply_changes-Applied :
        (plan : List RecordIntent × List RecordIntent) (w w' : World)
        → apply_changes reg plan.0 plan.1 w ≡ (none, w')
        → Applied plan w w'
    unfolding apply_changes
    apply_changes-Applied plan w w' h =
        let (errs, middle) = write_all reg.remove plan.1 0 w in
        let (all_errs, last) = write_all reg.register plan.0 errs middle in
        let clean : all_errs ≡ 0 =
          verdict-none all_errs (ap (λ (o : Option (PassError Error) × World). o.0) h) in
        let (no_errs, registered) = write_all-Succeed reg.register plan.0 errs middle clean in
        let (start, removed_all) = write_all-Succeed reg.remove plan.1 0 w no_errs in
        (
          removed_all,
          registered,
          ap (λ n. (write_all reg.register plan.0 n middle).1) (sym no_errs)
              ∙ ap (λ (o : Option (PassError Error) × World). o.1) h,
        )

    -- What a pass that succeeds has done, on what List returned.
    abbrev pub Done :
        AppConfig → MemoryState → Result Error (List RecordIntent) × World → World → Type 0
    Done cfg s (err e, w) w' = ⊥
    Done cfg s (ok actual, w) w' =
        let (live, w₁) = reg.get_live_hostnames w in
        (plan : List RecordIntent × List RecordIntent) × IsPlan cfg s actual (live_or_nil live) plan
        × Applied plan w₁ w'

    after_list-Done :
        (cfg : AppConfig) (s : MemoryState) (r : Result Error (List RecordIntent) × World)
        (w' : World)
        → cfg.dry_run ≡ false
        → after_list reg cfg s r ≡ some (none, w')
        → Done cfg s r w'
    unfolding after_list
    after_list-Done cfg s (err x, w) w' wet h = absurd (ground arith)
    after_list-Done cfg s (ok actual, w) w' wet h =
        let live = live_or_nil (reg.get_live_hostnames w).0 in
        let w₁ = (reg.get_live_hostnames w).1 in
        let (plan, is_plan, f) = change_returns cfg s actual live w₁ in
        let same : apply_changes reg plan.0 plan.1 w₁ ≡ (none, w') = ground (arith, f) in
        (plan, is_plan, apply_changes-Applied plan w₁ w' same)

    -- Outside a dry run, a pass that reports no error has listed the records without an error, and has
    -- removed all that its plan removes and then registered all that it adds, each without an error.
    pub pass_success :
        (cfg : AppConfig) (s : MemoryState) (w w' : World)
        → cfg.dry_run ≡ false
        → reconcile_pass reg cfg s w ≡ some (none, w')
        → Done cfg s (reg.list w) w'
    unfolding reconcile_pass
    pass_success cfg s w w' wet h = after_list-Done cfg s (reg.list w) w' wet h
