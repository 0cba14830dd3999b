-- ===== src/Core/Engine/Sync/Stored.antt =====
-- What a whole tick makes of the store.
use docker_coredns_sync.Prelude.{
  Bool, List, Option, Result, Text, codes, err, false, map, nat_eq, none, ok, refl, text_eq, ℕ, ◌≡◌,
}
use docker_coredns_sync.Config.{AppConfig}
use docker_coredns_sync.Domain.Intent.{RecordIntent}
use docker_coredns_sync.State.{MemoryState}
use docker_coredns_sync.Registry.{Json}
use docker_coredns_sync.Registry.Client.{EtcdRegistry, RegistryError, list, live_hostnames}
use docker_coredns_sync.Registry.Client.Store.{KeepsStore, ReadsCurrent}
use docker_coredns_sync.Registry.Lock.{HeldLease, Runtime, lock_key_of, release, unique_keys}
use docker_coredns_sync.Registry.Lock.Held.{KeepsLocks}
use docker_coredns_sync.Registry.Lock.Transaction.{lock_keys}
use docker_coredns_sync.Core.Engine.Pass.{live_or_nil}
use docker_coredns_sync.Core.Engine.Pass.Outcome.{Done, IsPlan}
use docker_coredns_sync.Core.Engine.Sync.{global_keys, sync, upstream}
use docker_coredns_sync.Core.Engine.Sync.Effect.{Applied-Effect, Effect}
use docker_coredns_sync.Core.Engine.Sync.Success.{sync-Synced}
use mathlib.Core.List.{reverse}

module _ {World : Type 0} (value_at : World → Text → Option Text) (er : EtcdRegistry World)
    (store : KeepsStore value_at er.client) (current : ReadsCurrent value_at er.client)
    (json : Json) (is_active : Bool) (cfg : AppConfig) (s : MemoryState) where
  -- The plan of a pass, for what List and GetLiveHostnames give, was carried out on the store.
  abbrev pub CarriedOut : Result RegistryError (List RecordIntent) × World → World → Type 0
  CarriedOut r w' =
      let (live, w) = live_hostnames er is_active r.1 in
      (actual : List RecordIntent) × (plan : List RecordIntent × List RecordIntent) × (r.0
        ≡ ok actual)
      × IsPlan (upstream er json is_active) cfg s actual (live_or_nil live) plan
      × Effect value_at er store current json plan.0 plan.1 w w'

  Done-CarriedOut :
      (r : Result RegistryError (List RecordIntent) × World) (w' : World)
      → Done (upstream er json is_active) cfg s r w'
      → CarriedOut r w'
  unfolding upstream
  Done-CarriedOut (err e, w) w' h = absurd h
  Done-CarriedOut (ok actual, w) w' (plan, is_plan, applied) = (
    actual,
    plan,
    refl,
    is_plan,
    Applied-Effect value_at er store current json is_active plan (live_hostnames er is_active w).1
        w' applied,
  )

  module _ (run : Runtime World) (IsHeld : World → Text → ℕ → Type 0) where
    abbrev pub Stored : World → Type 0
    Stored w' =
        (w₁ : World) × (w₂ : World) × (hs : List HeldLease) × ((lease : ℕ) × IsHeld w₁
            (lock_key_of (codes "__global__")) lease)
        × CarriedOut (list er json w₁) w₂
        × (lock_keys hs ≡ map lock_key_of (unique_keys global_keys))
        × (w' ≡ release er run (reverse hs) w₂)

    -- If the members of etcd that answer serializable reads are up to date, etcd keeps a created key under its lease
    -- while that is kept alive, and a tick outside
    -- dry-run mode ends without an error, then in a world in which the global lock was held List gave
    -- the records, and the plan of FilterRecordIntents and ReconcileAndValidate for them was carried out
    -- on the store: each pair that matches a record to remove is gone, each record to add is stored, and
    -- nothing else is changed. Then the lock was released.
    pub sync-Stored :
        KeepsLocks er run IsHeld
        → (fuel : ℕ) (w w' : World) → cfg.dry_run ≡ false
        → sync er json is_active run fuel cfg s w ≡ (none, w')
        → Stored w'
    sync-Stored locks fuel w w' wet h =
        let (w₁, w₂, hs, held, done, ks, left) =
          sync-Synced er json is_active cfg s run IsHeld locks fuel w w' wet h in
        (w₁, w₂, hs, held, Done-CarriedOut (list er json w₁) w₂ done, ks, left)
