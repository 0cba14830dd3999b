-- ===== src/Core/Engine/Run/DryRun.antt =====
-- What Run leaves in etcd in dry-run mode.
use docker_coredns_sync.Prelude.{
  All, Bool, List, Option, Result, Text, [], ap, codes, err, false, nat_eq, none, ok, refl, some,
  subst, sym, text_eq, true, ℕ, ◌++◌, ◌∙◌, ◌∷◌, ◌≡◌, ◌≢◌,
}
use docker_coredns_sync.GoText.Decimal.{ℤ, int_eq}
use docker_coredns_sync.GoMap.{keys}
use docker_coredns_sync.Config.{AppConfig, heartbeat_key_prefix}
use docker_coredns_sync.Domain.Intent.{RecordIntent}
use docker_coredns_sync.State.{MemoryState}
use docker_coredns_sync.HttpServer.{Status}
use docker_coredns_sync.Registry.{Json, Kvs, get_live_hostnames, list_intents}
use docker_coredns_sync.Registry.Client.{
  settle, ◌>>=◌, EtcdRegistry, GetOption, RegistryError, checked, inc_etcd_error, inc_lock_failure,
  list, list_failed, return, with_prefix, with_serializable, list_heartbeats_failed, live_hostnames,
  read_live, with_keys_only,
}
use docker_coredns_sync.Registry.Lock.{Runtime, lock_key_of, TransactionError}
use docker_coredns_sync.Registry.Lock.Keeps.{CallsKeep, lock_transaction-keeps}
use docker_coredns_sync.Core.Engine.Pass.{PassError, reconcile_pass}
use docker_coredns_sync.Core.Engine.Sync.{
  FnError, upstream, pass_fn, global_keys, sync, tick, fn_result,
}
use docker_coredns_sync.Core.Engine.Run.{Tick, begin, ticks, run_engine}
use docker_coredns_sync.Registry.Heartbeat.{
  Heartbeat, HeartbeatRuntime, no_heartbeat, sections, stop_heartbeat,
}
use docker_coredns_sync.Core.Engine.Pass.Outcome.{reads_of, dry_run_writes_nothing}

-- What etcd documents of its calls, for the value at each key and the lease that it is under: each call
-- leaves the keys that it does not name as they were, and a revoked lease those that are not under it. No
-- other client writes.
pub record NamesKeys {World : Type 0} (stored_at : World → Text → Option (Text × Option ℕ))
    (er : EtcdRegistry World) (run : Runtime World) : Type 0 where
  pub get_at :
      (prefix : Text) (opts : List GetOption) (w : World) (k : Text)
      → stored_at (er.client.get prefix opts w).1 k ≡ stored_at w k
  pub grant_at :
      (ttl : ℤ) (w : World) (k : Text) → stored_at (er.client.grant ttl w).1 k ≡ stored_at w k
  pub create_at :
      (key value : Text) (lease : ℕ) (w : World) (k : Text)
      → k ≢ key
      → stored_at (er.client.create key value lease w).1 k ≡ stored_at w k
  pub keep_alive_at :
      (lease : ℕ) (w : World) (k : Text)
      → stored_at (er.client.keep_alive lease w).1 k ≡ stored_at w k
  pub revoke_at :
      (lease : ℕ) (w : World) (k : Text)
      → ((v : Text) → stored_at w k ≢ some (v, some lease))
      → stored_at (er.client.revoke lease w).1 k ≡ stored_at w k
  pub delete_at :
      (key : Text) (w : World) (k : Text)
      → k ≢ key
      → stored_at (er.client.delete key w).1 k ≡ stored_at w k
  pub sleep_at : (d : ℕ) (w : World) (k : Text) → stored_at (run.sleep d w) k ≡ stored_at w k
  pub cancel_at :
      (lease : ℕ) (w : World) (k : Text) → stored_at (run.cancel lease w) k ≡ stored_at w k
  pub error_at : (w : World) (k : Text) → stored_at (inc_etcd_error er w) k ≡ stored_at w k
  pub failure_at : (w : World) (k : Text) → stored_at (inc_lock_failure er w) k ≡ stored_at w k

-- No goroutine of the heartbeat runs between the ticks.
abbrev pub NoHeartbeat : List Tick → Type 0
NoHeartbeat ts = All (λ (t : Tick). t.between ≡ []) ts

module _ {World : Type 0} (stored_at : World → Text → Option (Text × Option ℕ))
    (er : EtcdRegistry World) (run : Runtime World) (names : NamesKeys stored_at er run) (k : Text)
    (apart : (key : Text) → k ≢ lock_key_of key) (was : Option (Text × Option ℕ))
    (unleased : (v : Text) (l : ℕ) → was ≢ some (v, some l)) where
  -- The value at the key is still what it was before.
  abbrev Kept : World → Type 0
  Kept w = stored_at w k ≡ was

  calls-Keep : CallsKeep er run Kept
  calls-Keep = record {
    grant_keeps = λ ttl w p. names.grant_at ttl w k ∙ p;
    create_keeps =
        λ key value lease w p. names.create_at (lock_key_of key) value lease w k (apart key) ∙ p;
    keep_alive_keeps = λ lease w p. names.keep_alive_at lease w k ∙ p;
    revoke_keeps = λ lease w p. names.revoke_at lease w k (λ v e. unleased v lease (sym p ∙ e)) ∙ p;
    delete_keeps = λ key w p. names.delete_at (lock_key_of key) w k (apart key) ∙ p;
    sleep_keeps = λ d w p. names.sleep_at d w k ∙ p;
    cancel_keeps = λ lease w p. names.cancel_at lease w k ∙ p;
    error_keeps = λ w p. names.error_at w k ∙ p;
    failure_keeps = λ w p. names.failure_at w k ∙ p;
  }

  settle-Kept :
      {A : Type 0} (wrap : Text → RegistryError) (r : Result Text A × World)
      → Kept r.1
      → Kept (settle er wrap r).1
  unfolding settle
  settle-Kept wrap (ok a, w) p = p
  settle-Kept wrap (err e, w) p = names.error_at w k ∙ p

  after_read :
      {B : Type 0} (f : Kvs → Result RegistryError B) (r : Result RegistryError Kvs × World)
      → Kept r.1
      → Kept
          (elim r.0 as (λ x. Result RegistryError B × World) [
            | ok kvs ↦ (f kvs, r.1)
            | err e ↦ (err e, r.1)
          ]).1
  after_read f (ok kvs, w) p = p
  after_read f (err e, w) p = p

  -- A read and what is made of its response
  read-Kept :
      {B : Type 0} (prefix : Text) (opts : List GetOption) (wrap : Text → RegistryError)
      (f : Kvs → Result RegistryError B) (w : World)
      → Kept w
      → Kept ((checked er (er.client.get prefix opts) wrap >>= (λ kvs. return (f kvs))) w).1
  unfolding checked return
  read-Kept prefix opts wrap f w p =
      after_read f (settle er wrap (er.client.get prefix opts w))
        (settle-Kept wrap (er.client.get prefix opts w) (names.get_at prefix opts w k ∙ p))

  module _ (json : Json) where
    list-Kept : (w : World) → Kept w → Kept (list er json w).1
    unfolding list
    list-Kept w p =
        read-Kept er.cfg.path_prefix (with_prefix ∷ with_serializable ∷ [])
          (list_failed er.cfg.path_prefix) (λ kvs. ok (list_intents json er.cfg.path_prefix kvs)) w
          p

    live-Kept : (is_active : Bool) (w : World) → Kept w → Kept (live_hostnames er is_active w).1
    unfolding live_hostnames read_live
    live-Kept true w p =
        read-Kept (heartbeat_key_prefix ++ codes "/") (with_prefix ∷ with_keys_only ∷ [])
          (list_heartbeats_failed heartbeat_key_prefix)
          (λ kvs. ok (get_live_hostnames true er.hostname (keys kvs))) w p
    live-Kept false w p = p

    reads-Kept :
        (is_active : Bool) (r : Result RegistryError (List RecordIntent) × World)
        → Kept r.1
        → Kept (reads_of (upstream er json is_active) r)
    unfolding upstream
    reads-Kept is_active (err e, w) p = p
    reads-Kept is_active (ok actual, w) p = live-Kept is_active w p

    module _ (cfg : AppConfig) (dry : cfg.dry_run ≡ true) where
      fn_result-Kept :
          (is_active : Bool) (w : World) (o : Option (Option (PassError RegistryError) × World))
          → ((e : Option (PassError RegistryError)) (x : World) → o ≡ some (e, x) → Kept x)
          → Kept w
          → Kept (fn_result er json is_active w o).1
      fn_result-Kept is_active w none f p = p
      fn_result-Kept is_active w (some (none, x)) f p = f none x refl
      fn_result-Kept is_active w (some (some e, x)) f p = f (some e) x refl

      pass_fn-Kept :
          (is_active : Bool) (s : MemoryState) (w : World)
          → Kept w
          → Kept (pass_fn er json is_active cfg s w).1
      unfolding pass_fn
      pass_fn-Kept is_active s w p =
          let reg = upstream er json is_active in
          fn_result-Kept is_active w (reconcile_pass reg cfg s w)
            (λ e x done.
              subst Kept (sym (dry_run_writes_nothing reg cfg s w e x dry done))
                (reads-Kept is_active (list er json w) (list-Kept w p)))
            p

      sync-Kept :
          (is_active : Bool) (fuel : ℕ) (s : MemoryState) (w : World)
          → Kept w
          → Kept (sync er json is_active run fuel cfg s w).1
      unfolding sync
      sync-Kept is_active fuel s w p =
          lock_transaction-keeps er run Kept calls-Keep fuel global_keys
            (pass_fn er json is_active cfg s) w (λ x q. pass_fn-Kept is_active s x q) p

      module _ (keeping : HeartbeatRuntime World) (fuel : ℕ)
          (message : TransactionError FnError → Text) where
        ticks-Kept :
            (ts : List Tick) (hb : Heartbeat) (sw : Status × World)
            → NoHeartbeat ts
            → Kept sw.1
            → let r = ticks er json run keeping fuel message cfg ts hb sw in (r.0 ≡ hb) × Kept r.2
        unfolding ticks tick sections
        ticks-Kept [] hb sw quiet p = (refl, p)
        ticks-Kept (t ∷ ts) hb sw (still, quiet) p = rw still (
            ticks-Kept ts hb (tick er json hb.active run fuel message cfg t.state sw) quiet
              (sync-Kept hb.active fuel t.state sw.1 p))

-- Without a heartbeat StopHeartbeat calls nothing.
stop_stopped :
    {World : Type 0} (er : EtcdRegistry World) (keeping : HeartbeatRuntime World) (hb : Heartbeat)
    (w : World)
    → hb.has_cancel ≡ false
    → (stop_heartbeat er keeping hb w).1 ≡ w
unfolding stop_heartbeat
stop_stopped er keeping hb w h = rw h refl

begin_dry :
    {World : Type 0} (er : EtcdRegistry World) (json : Json) (run : Runtime World)
    (keeping : HeartbeatRuntime World) (fuel : ℕ) (message : TransactionError FnError → Text)
    (cfg : AppConfig) (w : World)
    → cfg.dry_run ≡ true
    → begin er json run keeping fuel message cfg no_heartbeat w ≡ (no_heartbeat, w)
unfolding begin
begin_dry er json run keeping fuel message cfg w h = rw h refl

-- In dry-run mode Run leaves the value at every key of etcd that is not a lock key and is under no lease
-- as it was, whatever the states of its ticks are, when no goroutine of the heartbeat runs and no other
-- client writes.
pub dry_run_keeps_values :
    {World : Type 0} (stored_at : World → Text → Option (Text × Option ℕ)) (er : EtcdRegistry World)
    (json : Json) (run : Runtime World) (keeping : HeartbeatRuntime World) (fuel : ℕ)
    (message : TransactionError FnError → Text) (cfg : AppConfig) (k : Text) (ts : List Tick)
    (status : Status) (w : World)
    → NamesKeys stored_at er run
    → ((key : Text) → k ≢ lock_key_of key)
    → ((v : Text) (l : ℕ) → stored_at w k ≢ some (v, some l))
    → cfg.dry_run ≡ true
    → NoHeartbeat ts
    → stored_at (run_engine er json run keeping fuel message cfg ts status w).2 k ≡ stored_at w k
unfolding run_engine
dry_run_keeps_values {World = World} stored_at er json run keeping fuel message cfg k ts status w
      names apart unleased is_dry quiet =
    let (same, kept) =
      ticks-Kept stored_at er run names k apart (stored_at w k) unleased json cfg is_dry keeping
        fuel message ts no_heartbeat (status, w) quiet refl in
    subst
      (λ (b : Heartbeat × World).
        let r = ticks er json run keeping fuel message cfg ts b.0 (status, b.1) in
        stored_at (stop_heartbeat er keeping r.0 r.2).1 k ≡ stored_at w k)
      (sym (begin_dry er json run keeping fuel message cfg w is_dry))
      (let r = ticks er json run keeping fuel message cfg ts no_heartbeat (status, w) in
        ap (λ (x : World). stored_at x k)
          (stop_stopped er keeping r.0 r.2 (ap (λ (h : Heartbeat). h.has_cancel) same))
        ∙ kept)
