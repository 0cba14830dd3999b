-- ===== src/Core/Engine/Counts.antt =====
-- The numbers of a tick that Run of internal/core/engine.go counts for the metrics: its variables stand
-- beside the world, and the pass runs over a registry whose writes count.
use docker_coredns_sync.Prelude.{
  Bool-cases, List, Option, Result, [], ap, arith, err, inl, inr, length, nat_eq, none, ok, refl,
  some, suc, text_eq, zero, ℕ, ◌+◌, ◌∙◌, ◌∷◌, ◌≡◌,
}
use docker_coredns_sync.Domain.Intent.{RecordIntent}
use docker_coredns_sync.Core.Engine.Pass.{
  PassError, UpstreamRegistry, apply_changes, write_all, count_error, verdict_of, listing_failed,
  writes_failed,
}
use docker_coredns_sync.Core.Engine.Pass.{after_list, change, live_or_nil, reconcile_pass}
use docker_coredns_sync.Core.Filter.Winners.{filter_winners}
use docker_coredns_sync.Core.Reconcile.Safety.{reconcile_returns}
use docker_coredns_sync.State.{MemoryState, TextSet, get_all_desired_record_intents}
use docker_coredns_sync.Config.{AppConfig}

-- added, removed
pub record Counts : Type 0 where
  pub added : ℕ
  pub removed : ℕ

unfoldable pub no_counts : Counts
no_counts = record { added = 0; removed = 0 }

unfoldable pub count_removed : {Error : Type 0} → Option Error → Counts → Counts
count_removed none c = record c { removed = c.removed + 1 }
count_removed (some e) c = c

unfoldable pub count_added : {Error : Type 0} → Option Error → Counts → Counts
count_added none c = record c { added = c.added + 1 }
count_added (some e) c = c

module _ {World Error : Type 0} where
  -- A write that counts when it gives no error
  unfoldable pub counted :
      (Option Error → Counts → Counts)
      → (RecordIntent → World → Option Error × World)
      → RecordIntent
      → World × Counts
      → Option Error × (World × Counts)
  counted count write ri (w, c) = let (e, w') = write ri w in (e, (w', count e c))

  -- The registry of the pass, with the variables of the tick
  unfoldable pub counting : UpstreamRegistry World Error → UpstreamRegistry (World × Counts) Error
  unfolding counted count_removed count_added
  counting reg = record {
    list = λ (w, c). let (r, w') = reg.list w in (r, (w', c));
    get_live_hostnames = λ (w, c). let (r, w') = reg.get_live_hostnames w in (r, (w', c));
    remove = counted count_removed reg.remove;
    register = counted count_added reg.register;
  }

count_removed-sum :
    {Error : Type 0} (e : Option Error) (n : ℕ) (c : Counts)
    → ((count_removed e c).removed + count_error e n ≡ c.removed + n + 1)
      × ((count_removed e c).added ≡ c.added)
unfolding count_removed count_error
count_removed-sum none n c = (omega arith, refl)
count_removed-sum (some e) n c = (omega arith, refl)

count_added-sum :
    {Error : Type 0} (e : Option Error) (n : ℕ) (c : Counts)
    → ((count_added e c).added + count_error e n ≡ c.added + n + 1)
      × ((count_added e c).removed ≡ c.removed)
unfolding count_added count_error
count_added-sum none n c = (omega arith, refl)
count_added-sum (some e) n c = (omega arith, refl)

-- The number of failed writes that the error of a pass reports
abbrev pub failed_writes : {Error : Type 0} → Option (PassError Error) → ℕ
failed_writes none = 0
failed_writes (some (listing_failed e)) = 0
failed_writes (some (writes_failed n)) = n

verdict-failed_writes : (Error : Type 0) (n : ℕ) → failed_writes {Error = Error} (verdict_of n) ≡ n
unfolding verdict_of
verdict-failed_writes Error zero = refl
verdict-failed_writes Error (suc n) = refl

module _ {World Error : Type 0} (write : RecordIntent → World → Option Error × World) where
  removals_counted :
      (ris : List RecordIntent) (n : ℕ) (w : World) (c : Counts)
      → let r = write_all (counted count_removed write) ris n (w, c) in
        (r.0 ≡ (write_all write ris n w).0)
        × (r.1.0 ≡ (write_all write ris n w).1)
        × (r.1.1.removed + r.0 ≡ c.removed + n + length ris)
        × (r.1.1.added ≡ c.added)
  unfolding write_all counted
  removals_counted [] n w c = (refl, refl, omega arith, refl)
  removals_counted (ri ∷ ris) n w c =
      let e = (write ri w).0 in
      let (errs, world, sum, other) =
        removals_counted ris (count_error e n) (write ri w).1 (count_removed e c) in
      let (one, same) = count_removed-sum e n c in
      (errs, world, omega (arith, sum, one), other ∙ same)

  registrations_counted :
      (ris : List RecordIntent) (n : ℕ) (w : World) (c : Counts)
      → let r = write_all (counted count_added write) ris n (w, c) in
        (r.0 ≡ (write_all write ris n w).0)
        × (r.1.0 ≡ (write_all write ris n w).1)
        × (r.1.1.added + r.0 ≡ c.added + n + length ris)
        × (r.1.1.removed ≡ c.removed)
  unfolding write_all counted
  registrations_counted [] n w c = (refl, refl, omega arith, refl)
  registrations_counted (ri ∷ ris) n w c =
      let e = (write ri w).0 in
      let (errs, world, sum, other) =
        registrations_counted ris (count_error e n) (write ri w).1 (count_added e c) in
      let (one, same) = count_added-sum e n c in
      (errs, world, omega (arith, sum, one), other ∙ same)

module _ {World Error : Type 0} (reg : UpstreamRegistry World Error) where
  changes_counted :
      (to_add to_remove : List RecordIntent) (w : World)
      → let r = apply_changes (counting reg) to_add to_remove (w, no_counts) in
        let plain = apply_changes reg to_add to_remove w in
        (r.0 ≡ plain.0)
        × (r.1.0 ≡ plain.1)
        × (r.1.1.removed + (write_all reg.remove to_remove 0 w).0 ≡ length to_remove)
        × (r.1.1.added + failed_writes plain.0
            ≡ length to_add + (write_all reg.remove to_remove 0 w).0)
  unfolding apply_changes counting no_counts
  changes_counted to_add to_remove w =
      let first = write_all (counted count_removed reg.remove) to_remove 0 (w, no_counts) in
      let (errs, world, sum, none_added) = removals_counted reg.remove to_remove 0 w no_counts in
      let (all_errs, last, total, kept) =
        registrations_counted reg.register to_add first.0 first.1.0 first.1.1 in
      let plain = write_all reg.remove to_remove 0 w in
      let same_errs : (write_all reg.register to_add first.0 first.1.0).0
          ≡ (write_all reg.register to_add plain.0 plain.1).0 =
        λ i. (write_all reg.register to_add (errs i) (world i)).0 in
      (
        ap (verdict_of {Error = Error}) (all_errs ∙ same_errs),
        last ∙ (λ i. (write_all reg.register to_add (errs i) (world i)).1),
        omega (arith, sum, kept, errs),
        omega (
          arith,
          none_added,
          total,
          errs,
          same_errs,
          all_errs,
          verdict-failed_writes Error (write_all reg.register to_add plain.0 plain.1).0,
        ),
      )

  -- A pass without the counts that it ends with
  abbrev pub forget :
      Option (Option (PassError Error) × (World × Counts))
      → Option (Option (PassError Error) × World)
  forget none = none
  forget (some (e, (w, c))) = some (e, w)

  module _ (cfg : AppConfig) (s : MemoryState) where
    change_counted :
        (actual : List RecordIntent) (live : Option TextSet) (w : World)
        → forget (change (counting reg) cfg s actual live (w, no_counts))
          ≡ change reg cfg s actual live w
    unfolding change
    change_counted actual live w =
        let (desired, e, winners, agree, whole) =
          filter_winners (get_all_desired_record_intents s) in
        let (plan, f) = reconcile_returns desired actual cfg.hostname live in
        let (verdict, world, gone, put) = changes_counted plan.0 plan.1 w in
        rw (e, f)
          (elim (Bool-cases cfg.dry_run) [
            | inl dry ↦ rw dry refl
            | inr wet ↦ rw wet (λ i. some (verdict i, world i))
          ])

    after_list_counted :
        (r : Result Error (List RecordIntent) × World)
        → forget (after_list (counting reg) cfg s (r.0, (r.1, no_counts))) ≡ after_list reg cfg s r
    unfolding after_list counting
    after_list_counted (err e, w) = refl
    after_list_counted (ok actual, w) =
        change_counted actual (live_or_nil (reg.get_live_hostnames w).0)
          (reg.get_live_hostnames w).1

    pass_counted :
        (w : World)
        → forget (reconcile_pass (counting reg) cfg s (w, no_counts)) ≡ reconcile_pass reg cfg s w
    unfolding reconcile_pass counting
    pass_counted w = after_list_counted (reg.list w)

-- A pass over the registry that counts ends like the pass of a tick, in the same world. After its writes
-- removed is the number of the records to remove less the failed removals, and added that of the records
-- to add less the failed registrations, which are the failed writes that the error reports less the
-- failed removals.
pub apply_changes-counted :
    {World Error : Type 0} (reg : UpstreamRegistry World Error)
    (to_add to_remove : List RecordIntent) (w : World)
    → let r = apply_changes (counting reg) to_add to_remove (w, no_counts) in
      let plain = apply_changes reg to_add to_remove w in
      (r.0 ≡ plain.0)
      × (r.1.0 ≡ plain.1)
      × (r.1.1.removed + (write_all reg.remove to_remove 0 w).0 ≡ length to_remove)
      × (r.1.1.added + failed_writes plain.0
          ≡ length to_add + (write_all reg.remove to_remove 0 w).0)
      × ((cfg : AppConfig) (s : MemoryState)
          → forget reg (reconcile_pass (counting reg) cfg s (w, no_counts))
            ≡ reconcile_pass reg cfg s w)
apply_changes-counted reg to_add to_remove w =
    let (verdict, world, gone, put) = changes_counted reg to_add to_remove w in
    (verdict, world, gone, put, λ cfg s. pass_counted reg cfg s w)
