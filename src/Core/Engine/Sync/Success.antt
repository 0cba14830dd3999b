-- ===== src/Core/Engine/Sync/Success.antt =====
-- How the transaction of a tick ends.
use docker_coredns_sync.Prelude.{
  Bool, List, Option, Option-cases, Result, Text, [], ap, arith, codes, err, false, inl, inr, map,
  nat_eq, none, ok, refl, some, suc, sym, text_eq, ℕ, ◌*◌, ◌∙◌, ◌≡◌, ◌≢◌, ◌≤◌,
}
use docker_coredns_sync.Config.{AppConfig}
use docker_coredns_sync.State.{MemoryState}
use docker_coredns_sync.Registry.{Json}
use docker_coredns_sync.Registry.Client.{
  EtcdRegistry, RegistryError, compute_key_failed, list, out_of_fuel, register,
}
use docker_coredns_sync.Registry.Client.Fuel.{register_fuel}
use docker_coredns_sync.Domain.Intent.{RecordIntent}
use docker_coredns_sync.Registry.Lock.{
  HeldLease, LockError, Runtime, acquire_all, fn_error, fn_failed, lock_key_of, lock_transaction,
  no_fuel, not_locked, release, run_locked, unique_keys, whole_seconds, TransactionError,
}
use docker_coredns_sync.Registry.Lock.Ends.{KeepsTime, lock_transaction_ends}
use docker_coredns_sync.Registry.Lock.Held.{KeepsLocks}
use docker_coredns_sync.Registry.Lock.Transaction.{lock_keys, lock_transaction-RanLocked}
use docker_coredns_sync.Core.Engine.Pass.{PassError, reconcile_pass}
use docker_coredns_sync.Core.Engine.Pass.Outcome.{Done, pass_success, pass_returns}
use docker_coredns_sync.Core.Engine.Sync.{
  FnError, fn_result, global_keys, panicked, pass_fn, sync, upstream,
}
use mathlib.Core.List.{reverse}

fn_error-none : {Error : Type 0} (o : Option Error) → none ≡ fn_error o → o ≡ none
fn_error-none none h = refl
fn_error-none (some e) h = absurd (ground (arith, h))

module _ {World : Type 0} (er : EtcdRegistry World) (json : Json) (is_active : Bool)
    (cfg : AppConfig) (s : MemoryState) where
  fn_result-none :
      (w : World) (o : Option (Option (PassError RegistryError) × World))
      → (fn_result er json is_active w o).0 ≡ none
      → o ≡ some (none, (fn_result er json is_active w o).1)
  fn_result-none w none h = absurd (ground (arith, h))
  fn_result-none w (some (none, w')) h = refl
  fn_result-none w (some (some e, w')) h = absurd (ground (arith, h))

  pass_fn-none :
      (w : World)
      → (pass_fn er json is_active cfg s w).0 ≡ none
      → reconcile_pass (upstream er json is_active) cfg s w
        ≡ some (none, (pass_fn er json is_active cfg s w).1)
  unfolding pass_fn
  pass_fn-none w h = fn_result-none w (reconcile_pass (upstream er json is_active) cfg s w) h

  fn_result-returns :
      (w : World) (o : Option (Option (PassError RegistryError) × World))
      → ((r : Option (PassError RegistryError) × World) × (o ≡ some r))
      → (fn_result er json is_active w o).0 ≢ some panicked
  fn_result-returns w none r h = absurd (ground (arith, r.1))
  fn_result-returns w (some (none, w')) r h = absurd (ground (arith, h))
  fn_result-returns w (some (some e, w')) r h = absurd (ground (arith, h))

  pass_fn-returns : (w : World) → (pass_fn er json is_active cfg s w).0 ≢ some panicked
  unfolding pass_fn
  pass_fn-returns w =
      fn_result-returns w (reconcile_pass (upstream er json is_active) cfg s w)
        (pass_returns (upstream er json is_active) cfg s w)

  module _ (run : Runtime World) where
    not_panicked :
        (fn : World → Option FnError × World) (r : Result LockError (List HeldLease) × World)
        → ((w : World) → (fn w).0 ≢ some panicked)
        → (run_locked er run fn r).0 ≢ some (fn_failed panicked)
    unfolding run_locked
    not_panicked fn (err e, w) calm h = absurd (ground (arith, h))
    not_panicked fn (ok hs, w) calm h = elim (Option-cases (fn w).0) [
      | inl e ↦ absurd (ground (arith, h, e))
      | inr (x, e) ↦ calm w (e ∙ ground (arith, h, e))
    ]

    -- The transaction of a tick ends in one of the ways that the source foresees: if the rounds of sleep
    -- of the fuel fill the lock timeout, no call turns the clock back and a sleep lasts as long as it is
    -- asked to, then the lock loop does not run out of fuel, and the pass neither panics nor runs out of
    -- fuel in its walk of a CNAME chain. Nor does Register, in any world and on any record intent, in its
    -- search for a free index.
    pub sync_ends :
        KeepsTime er run
        → (f : ℕ) → whole_seconds er.cfg.lock_timeout ≤ f * run.duration er.cfg.lock_retry_interval
        → (w : World)
        → ((sync er json is_active run (suc f) cfg s w).0 ≢ some (not_locked no_fuel))
          × ((sync er json is_active run (suc f) cfg s w).0 ≢ some (fn_failed panicked))
          × ((ri : RecordIntent) (x : World)
              → (register er json ri x).0 ≢ err (compute_key_failed ri.rec.name out_of_fuel))
    unfolding sync lock_transaction
    sync_ends time f enough w = (
      λ h.
          lock_transaction_ends er run time f enough global_keys (pass_fn er json is_active cfg s) w
            h,
      not_panicked (pass_fn er json is_active cfg s)
          (acquire_all er run (suc f) (unique_keys global_keys) [] w) pass_fn-returns,
      register_fuel er json,
    )

    module _ (IsHeld : World → Text → ℕ → Type 0) where
      -- What a tick that succeeds has done: the pass, in a world in which the global lock was held, and
      -- then the release of the lock.
      abbrev pub Synced : World → Type 0
      Synced w' =
          (w₁ : World) × (w₂ : World) × (hs : List HeldLease) × ((lease : ℕ) × IsHeld w₁
              (lock_key_of (codes "__global__")) lease)
          × Done (upstream er json is_active) cfg s (list er json w₁) w₂
          × (lock_keys hs ≡ map lock_key_of (unique_keys global_keys))
          × (w' ≡ release er run (reverse hs) w₂)

      -- If a created key stays under its lease while that is kept alive, and a tick outside dry-run mode
      -- ends without an error, then its pass ran in a world in which the global lock was held, has listed
      -- the records, removed all that its plan removes and registered all that it adds, each without an
      -- error, and the lock was released after it.
      pub sync-Synced :
          KeepsLocks er run IsHeld
          → (fuel : ℕ) (w w' : World) → cfg.dry_run ≡ false
          → sync er json is_active run fuel cfg s w ≡ (none, w')
          → Synced w'
      unfolding sync
      sync-Synced locks fuel w w' wet h =
          let fn = pass_fn er json is_active cfg s in
          elim (lock_transaction-RanLocked IsHeld er run locks fn fuel global_keys w) [
            | inl (x, e) ↦ absurd (ground (arith, e, h))
            | inr (w₁, hs, all, held, ks, error, left) ↦
                let clean : (fn w₁).0 ≡ none =
                  fn_error-none (fn w₁).0
                    (sym (ap (λ (p : Option (TransactionError FnError) × World). p.0) h) ∙ error) in
                (
                  w₁,
                  (fn w₁).1,
                  hs,
                  (let (l, m, same, is_held) = held (codes "__global__") (inl refl) in
                      (l.lease, is_held)),
                  pass_success (upstream er json is_active) cfg s w₁ (fn w₁).1 wet
                      (pass_fn-none w₁ clean),
                  ks,
                  sym (ap (λ (p : Option (TransactionError FnError) × World). p.1) h) ∙ left,
                )
          ]
