-- ===== src/Core/Engine/Sync/Peers.antt =====
-- What a tick does to the records of the other hosts: GetLiveHostnames and ReconcileAndValidate together.
use docker_coredns_sync.Prelude.{
  Bool, In, List, Option, Result, Text, [], arith, err, false, inl, inr, nat_eq, none, ok, refl,
  some, text_eq, true, ◌≡◌, ◌≢◌, ◌⊎◌,
}
use docker_coredns_sync.Domain.Intent.{RecordIntent}
use docker_coredns_sync.State.{TextSet}
use docker_coredns_sync.Registry.{heartbeat_key}
use docker_coredns_sync.Registry.Client.{EtcdRegistry, RegistryError, live_hostnames}
use docker_coredns_sync.Registry.Client.Store.{KeepsStore}
use docker_coredns_sync.Registry.Client.Live.{live_hostnames_iff}
use docker_coredns_sync.Core.Engine.Pass.{live_or_nil}
use docker_coredns_sync.Core.Reconcile.{reconcile_and_validate}
use docker_coredns_sync.Core.Reconcile.Safety.{live_host_safe}
use docker_coredns_sync.Core.Reconcile.Decide.{Evicts}
use docker_coredns_sync.Core.Reconcile.Stale.{IsDead}

module _ {World : Type 0} (value_at : World → Text → Option Text) (er : EtcdRegistry World)
    (store : KeepsStore value_at er.client) where
  -- This host is not active, or the liveness key of the other one is stored.
  abbrev pub MayLive : Bool → World → Text → Type 0
  MayLive is_active w host =
      (is_active ≡ false) ⊎ ((host ≢ []) × (value_at w (heartbeat_key host) ≢ none))

  not-IsDead_in :
      (w : World) (host : Text) (r : Result RegistryError (Option TextSet) × World)
      → live_hostnames er true w ≡ r
      → host ≢ []
      → value_at w (heartbeat_key host) ≢ none
      → ¬ IsDead (live_or_nil r.0) host
  unfolding live_or_nil
  not-IsDead_in w host (err e, w') h full there = λ d. d
  not-IsDead_in w host (ok none, w') h full there = λ d. d
  not-IsDead_in w host (ok (some live), w') h full there = λ d.
      let found = (live_hostnames_iff value_at er store w w' live host h full).1 (inr there) in
      ground (arith, found, d)

  not-IsDead :
      (is_active : Bool) (w : World) (host : Text)
      → MayLive is_active w host
      → ¬ IsDead (live_or_nil (live_hostnames er is_active w).0) host
  unfolding live_or_nil live_hostnames
  not-IsDead false w host m = λ d. d
  not-IsDead true w host (inl off) = absurd (ground (arith, off))
  not-IsDead true w host (inr (full, there)) =
      not-IsDead_in w host (live_hostnames er true w) refl full there

  -- With the live hosts that GetLiveHostnames gives, or none if it fails, ReconcileAndValidate removes a
  -- record of another host only if a desired record of its name evicts it, when this host is not active,
  -- and also when the liveness key of the record's host is stored.
  pub peers_spared :
      (is_active : Bool) (w : World) (desired actual to_add to_remove : List RecordIntent)
      (hostname : Text)
      → reconcile_and_validate desired actual hostname
          (live_or_nil (live_hostnames er is_active w).0)
        ≡ some (to_add, to_remove)
      → (r : RecordIntent) → In r to_remove
      → r.hostname ≢ hostname
      → MayLive is_active w r.hostname
      → (d : RecordIntent) × In d desired × Evicts actual d r
  peers_spared is_active w desired actual to_add to_remove hostname h r mem other may =
      live_host_safe desired actual hostname (live_or_nil (live_hostnames er is_active w).0) to_add
        to_remove h r mem other (not-IsDead is_active w r.hostname may)
