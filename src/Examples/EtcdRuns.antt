-- ===== src/Examples/EtcdRuns.antt =====
-- Runs of the registry's methods, the lock transaction and a tick on the store of one pair.
use docker_coredns_sync.Prelude.{
  In, Option, Text, [], ap, arith, codes, err, false, inl, inr, nat_eq, none, ok, refl, some, take,
  text_beq, text_eq, true, ℕ, ◌*◌, ◌++◌, ◌+◌, ◌↔◌, ◌∷◌, ◌≡◌, ◌≢◌, ◌≤◌, ◌⊎◌,
}
use docker_coredns_sync.Registry.Client.{compute_key_failed, out_of_fuel}
use docker_coredns_sync.GoMap.{contains}
use docker_coredns_sync.GoText.{has_prefix}
use docker_coredns_sync.GoText.Decimal.{int_eq}
use docker_coredns_sync.GoNet.{is_v4, parse_ip}
use docker_coredns_sync.Domain.Event.{running}
use docker_coredns_sync.Domain.Hostname.{is_valid_hostname}
use docker_coredns_sync.Domain.Record.{new_from_kind, key}
use docker_coredns_sync.Domain.Record.Valid.{IsWellFormed}
use docker_coredns_sync.State.{MemoryState, TextSet}
use docker_coredns_sync.State.Lookup.{fresh_entry}
use docker_coredns_sync.Registry.{Json, heartbeat_key, to_wire}
use docker_coredns_sync.Registry.Path.{fqdn_from_key, trim_slashes}
use docker_coredns_sync.Registry.Client.{list, live_hostnames, register}
use docker_coredns_sync.Registry.Client.Remove.{remove}
use docker_coredns_sync.Registry.Client.Remove.Exact.{remove-Removed}
use docker_coredns_sync.Registry.Client.Store.{Registered, register-Registered}
use docker_coredns_sync.Registry.Client.Listed.{list-register}
use docker_coredns_sync.Registry.Client.Live.{live_hostnames_iff}
use docker_coredns_sync.Registry.Lock.{
  LockError, fn_failed, lock_transaction, no_fuel, not_acquired, not_locked, whole_seconds,
}
use docker_coredns_sync.Registry.Lock.Ends.{lock_error_skips}
use docker_coredns_sync.Registry.Lock.Transaction.{RanLocked, lock_transaction-RanLocked}
use docker_coredns_sync.Core.Filter.{filter_record_intents}
use docker_coredns_sync.Core.Reconcile.{reconcile_and_validate}
use docker_coredns_sync.Core.Validation.{flags, validate_record}
use docker_coredns_sync.Core.Engine.Sync.{global_keys, panicked, sync}
use docker_coredns_sync.Core.Engine.Sync.Success.{sync_ends}
use docker_coredns_sync.Examples.Data.{address, app_a, app_name, config, here}
use docker_coredns_sync.Examples.OnePair.{
  Mem, client-KeepsStore, client-ReadsCurrent, store, value_at, IsHeld, runtime, store-KeepsLocks,
  store-KeepsTime,
}
use docker_coredns_sync.State.{new_memory_state}
use docker_coredns_sync.HttpServer.{new_status}
use docker_coredns_sync.Registry.Heartbeat.{HeartbeatRuntime}
use docker_coredns_sync.Registry.Client.{inc_etcd_error, inc_lock_failure}
use docker_coredns_sync.Registry.Lock.{lock_key_of}
use docker_coredns_sync.Core.Engine.Run.{Tick, run_engine}
use docker_coredns_sync.Core.Engine.Run.DryRun.{NamesKeys, dry_run_keeps_values}
use docker_coredns_sync.Examples.OnePair.{create_lock, without}
use docker_coredns_sync.Registry.Wire.{Selected}
use docker_coredns_sync.Registry.Path.{key_base_for_fqdn}
use docker_coredns_sync.Examples.OnePair.{etcd}
use docker_coredns_sync.Examples.Data.{alias, here}
use docker_coredns_sync.Domain.Record.{is_a}
use docker_coredns_sync.Domain.Intent.{RecordIntent}
use docker_coredns_sync.Core.Reconcile.{wins}
use docker_coredns_sync.Core.Reconcile.Decide.{Evicts}
use docker_coredns_sync.Core.Engine.Pass.{live_or_nil}
use docker_coredns_sync.Core.Engine.Sync.Peers.{MayLive, peers_spared}
use docker_coredns_sync.Core.Engine.Pass.{apply_changes}
use docker_coredns_sync.Core.Engine.Sync.{upstream}
use docker_coredns_sync.Core.Engine.Sync.Effect.{Effect, apply_changes-Effect}
use docker_coredns_sync.Core.Engine.Sync.Stored.{Stored, sync-Stored}

-- A coder of one value
abbrev coder : Json
coder = record { encode = λ w. some (codes "{}"); decode = λ s. some (to_wire address) }

abbrev vacant : Mem
vacant = record { pair = none; lock = none; clock = 0 }

abbrev holding : Text → Mem
holding key = record vacant { pair = some (key, codes "{}") }

abbrev app_key : Text
app_key = codes "/skydns/lan/app/x1"

run_register : register store coder address vacant ≡ (ok tt, holding app_key)
unfolding register
run_register = refl

register-Registered_example :
    Registered value_at store client-KeepsStore client-ReadsCurrent coder address vacant
      (holding app_key)
register-Registered_example =
    register-Registered value_at store client-KeepsStore client-ReadsCurrent coder address vacant
      (holding app_key) run_register

run_list : list store coder (holding app_key) ≡ (ok (address ∷ []), holding app_key)
unfolding list has_prefix new_from_kind to_wire is_valid_hostname fqdn_from_key parse_ip is_v4
run_list = refl

valid_name : is_valid_hostname app_name ≡ true
unfolding is_valid_hostname
valid_name = refl

app_a-IsWellFormed : IsWellFormed app_a
unfolding parse_ip is_v4
app_a-IsWellFormed = record { name_valid = valid_name; value_fits = (_, refl, refl) }

one_slash : has_prefix (trim_slashes (codes "/skydns") ++ codes "/") (codes "/skydns") ≡ true
unfolding has_prefix trim_slashes
one_slash = refl

list-register_example : In address (address ∷ [])
list-register_example =
    list-register value_at store client-KeepsStore client-ReadsCurrent coder address vacant
      (holding app_key) (holding app_key) (address ∷ []) (λ raw e. refl) app_a-IsWellFormed
      one_slash run_register run_list

run_remove : remove store coder address (holding app_key) ≡ (ok tt, vacant)
unfolding remove to_wire
run_remove = refl

stored-Selected :
    Selected coder (key_base_for_fqdn etcd.path_prefix app_name) address app_key (codes "{}")
unfolding has_prefix to_wire key_base_for_fqdn
stored-Selected = (refl, (to_wire address, refl, (refl, refl, refl, refl, inr refl)))

remove-Removed_example : value_at vacant app_key ≡ none
unfolding text_beq
remove-Removed_example =
    (remove-Removed value_at store client-KeepsStore coder address (holding app_key) vacant
        run_remove app_key).0
      (codes "{}") refl stored-Selected

-- The record goes and comes back.
run_writes :
    apply_changes (upstream store coder true) (address ∷ []) (address ∷ []) (holding app_key)
    ≡ (none, holding app_key)
unfolding apply_changes upstream
run_writes = refl

apply_changes-Effect_example :
    Effect value_at store client-KeepsStore client-ReadsCurrent coder
      (address ∷ [])
      (address ∷ [])
      (holding app_key)
      (holding app_key)
apply_changes-Effect_example =
    apply_changes-Effect value_at store client-KeepsStore client-ReadsCurrent coder true
      (address ∷ []) (address ∷ []) (holding app_key) (holding app_key) run_writes

abbrev there_key : Text
there_key = codes "/docker-coredns-sync/heartbeat/h2"

abbrev both_hosts : TextSet
both_hosts = (codes "h2", tt) ∷ (codes "h1", tt) ∷ []

run_live : live_hostnames store true (holding there_key) ≡ (ok (some both_hosts), holding there_key)
unfolding live_hostnames has_prefix text_beq
run_live = refl

live_hostnames_iff_example : (contains both_hosts (codes "h2") ≡ true) ↔ (
    (codes "h2" ≡ codes "h1") ⊎ (value_at (holding there_key) (heartbeat_key (codes "h2")) ≢ none))
live_hostnames_iff_example =
    live_hostnames_iff value_at store client-KeepsStore (holding there_key) (holding there_key)
      both_hosts (codes "h2") run_live (λ h. absurd (ground (arith, h)))

-- The address is older than the CNAME of h2, whose liveness key is stored, and takes its place.
run_evicts_peer :
    reconcile_and_validate
      (address ∷ [])
      (alias ∷ [])
      here
      (live_or_nil (live_hostnames store true (holding there_key)).0)
    ≡ some (address ∷ [], alias ∷ [])
unfolding reconcile_and_validate is_a docker_coredns_sync.Domain.Intent.key wins validate_record
    flags live_or_nil live_hostnames has_prefix text_beq
run_evicts_peer = refl

alias-MayLive : MayLive value_at store client-KeepsStore true (holding there_key) alias.hostname
unfolding text_beq heartbeat_key
alias-MayLive = inr ((λ h. absurd (ground (arith, h))), (λ h. absurd (ground (arith, h))))

peers_spared_example : (d : RecordIntent) × In d (address ∷ []) × Evicts (alias ∷ []) d alias
peers_spared_example =
    peers_spared value_at store client-KeepsStore true (holding there_key) (address ∷ [])
      (alias ∷ []) (address ∷ []) (alias ∷ []) here run_evicts_peer alias (inl refl)
      (λ h. absurd (ground (arith, h))) alias-MayLive

-- The lock of another host
abbrev taken : Mem
taken = record vacant { lock = some (codes "/locks/__global__", 3) }

abbrev timed_out : Mem
timed_out = record taken { clock = 2000000000 }

abbrev writes_nothing : Mem → Option Text × Mem
writes_nothing w = (none, w)

abbrev fails : Mem → Option Text × Mem
fails w = (some (codes "failed"), vacant)

run_locked_out :
    lock_transaction store runtime 21 global_keys writes_nothing taken
    ≡ (some (not_locked (not_acquired (codes "__global__"))), timed_out)
unfolding lock_transaction
run_locked_out = refl

lock_error_skips_example :
    lock_transaction store runtime 21 global_keys fails taken
    ≡ (some (not_locked (not_acquired (codes "__global__"))), timed_out)
lock_error_skips_example =
    lock_error_skips store runtime 21 global_keys writes_nothing fails taken timed_out
      (not_acquired (codes "__global__")) run_locked_out

lock_transaction-RanLocked_example :
    ((x : LockError) × ((lock_transaction store runtime 21 global_keys fails vacant).0
        ≡ some (not_locked x)))
    ⊎ RanLocked IsHeld store runtime store-KeepsLocks fails global_keys
        (lock_transaction store runtime 21 global_keys fails vacant).0
        (lock_transaction store runtime 21 global_keys fails vacant).1
lock_transaction-RanLocked_example =
    lock_transaction-RanLocked IsHeld store runtime store-KeepsLocks fails 21 global_keys vacant

abbrev tracking : MemoryState
tracking = record {
  containers = (codes "c1", fresh_entry (codes "c1") (codes "web") 5 (address ∷ []) running 7) ∷ [];
}

enough_rounds :
    whole_seconds store.cfg.lock_timeout ≤ 20 * runtime.duration store.cfg.lock_retry_interval
unfolding whole_seconds
enough_rounds = omega arith

sync_ends_example :
    ((sync store coder true runtime 21 config tracking taken).0 ≢ some (not_locked no_fuel))
    × ((sync store coder true runtime 21 config tracking taken).0 ≢ some (fn_failed panicked))
    × ((ri : RecordIntent) (x : Mem)
        → (register store coder ri x).0 ≢ err (compute_key_failed ri.rec.name out_of_fuel))
sync_ends_example =
    sync_ends store coder true config tracking runtime store-KeepsTime 20 enough_rounds taken

run_sync : sync store coder true runtime 21 config tracking vacant ≡ (none, holding app_key)
unfolding sync filter_record_intents reconcile_and_validate validate_record flags
run_sync = refl

sync-Stored_example :
    Stored value_at store client-KeepsStore client-ReadsCurrent coder true config tracking runtime
      IsHeld
      (holding app_key)
sync-Stored_example =
    sync-Stored value_at store client-KeepsStore client-ReadsCurrent coder true config tracking
      runtime IsHeld store-KeepsLocks 21 vacant (holding app_key) refl run_sync

abbrev with_no_lease : Option Text → Option (Text × Option ℕ)
with_no_lease none = none
with_no_lease (some value) = some (value, none)

abbrev stored_at : Mem → Text → Option (Text × Option ℕ)
stored_at w k = with_no_lease (value_at w k)

store-NamesKeys : NamesKeys stored_at store runtime
unfolding inc_etcd_error inc_lock_failure
store-NamesKeys = record {
  get_at = λ prefix opts w k. refl;
  grant_at = λ ttl w k. refl;
  create_at = λ key value lease w k apart. create_lock-pair w.lock key lease w k;
  keep_alive_at = λ lease w k. refl;
  revoke_at = λ lease w k apart. refl;
  delete_at = λ key w k apart. ap with_no_lease (
      (client-KeepsStore.deletes (key ∷ []) w (record w { pair = without w.pair (key ∷ []) }) k
          refl).1
        (λ m. elim m [ inl e ↦ apart e | inr gone ↦ absurd gone ]));
  sleep_at = λ d w k. refl;
  cancel_at = λ lease w k. refl;
  error_at = λ w k. refl;
  failure_at = λ w k. refl;
}
  where
    create_lock-pair :
        (o : Option (Text × ℕ)) (key : Text) (lease : ℕ) (w : Mem) (k : Text)
        → stored_at (create_lock o key lease w).1 k ≡ stored_at w k
    create_lock-pair none key lease w k = refl
    create_lock-pair (some (j, l)) key lease w k = refl

abbrev keeping : HeartbeatRuntime Mem
keeping = record {
  cancel = λ w. w;
  is_done = λ w. false;
  drain = λ w. w;
  pause = λ d w. (true, record w { clock = w.clock + d });
}

app_key_apart : (k : Text) → app_key ≢ lock_key_of k
unfolding lock_key_of text_beq
app_key_apart k e =
    let h : true ≡ false = ap (λ (x : Text). text_beq (take 2 x) (codes "/s")) e in
    ground (arith, h)

-- A tick whose pass would remove the pair: nothing is tracked.
abbrev quiet_tick : Tick
quiet_tick = record { between = []; state = new_memory_state }

app_key_unleased : (v : Text) (l : ℕ) → stored_at (holding app_key) app_key ≢ some (v, some l)
unfolding text_beq
app_key_unleased v l h = absurd (ground (arith, h))

dry_run_keeps_values_example :
    stored_at
      (run_engine store coder runtime keeping 21
        (λ e. [])
        (record config { dry_run = true })
        (quiet_tick ∷ [])
        (new_status 3)
        (holding app_key)).2
      app_key
    ≡ some (codes "{}", none)
unfolding text_beq
dry_run_keeps_values_example =
    dry_run_keeps_values stored_at store coder runtime keeping 21 (λ e. [])
      (record config { dry_run = true }) app_key (quiet_tick ∷ []) (new_status 3) (holding app_key)
      store-NamesKeys app_key_apart app_key_unleased refl (refl, tt)
