-- ===== src/Core/Engine/Sync.antt =====
-- The tick of Run of internal/core/engine.go: the reconciliation pass inside a lock transaction of the
-- etcd registry, and the report of its result to the readiness status. What the closure counts for the
-- metrics stands in Engine.Counts.
pub mod Effect
pub mod Peers
pub mod Stored
pub mod Success
use docker_coredns_sync.Prelude.{
  Bool, List, Option, Result, Text, [], codes, err, nat_eq, none, ok, some, text_eq, ℕ, ◌∷◌,
}
use docker_coredns_sync.Config.{AppConfig}
use docker_coredns_sync.Domain.Intent.{RecordIntent}
use docker_coredns_sync.State.{MemoryState, TextSet}
use docker_coredns_sync.Registry.{Json, get_live_hostnames}
use docker_coredns_sync.Registry.Client.{
  EtcdRegistry, RegistryError, list, live_hostnames, register,
}
use docker_coredns_sync.Registry.Client.Remove.{remove}
use docker_coredns_sync.Registry.Lock.{Runtime, TransactionError, lock_transaction}
use docker_coredns_sync.Core.Engine.Pass.{PassError, UpstreamRegistry, reconcile_pass}
use docker_coredns_sync.HttpServer.{Status, record_reconcile}

abbrev pub write_error :
    {World : Type 0} → Result RegistryError (Unit {0}) × World → Option RegistryError × World
write_error (ok done, w) = (none, w)
write_error (err e, w) = (some e, w)

-- An error of the function: a panic or a cycle walk out of fuel, which the model keeps apart, or the error of a pass
pub data FnError : Type 0 where
  panicked : FnError
  pass_failed : PassError RegistryError → FnError

abbrev pub error_text :
    (TransactionError FnError → Text) → Option (TransactionError FnError) → Option Text
error_text message none = none
error_text message (some e) = some (message e)

-- The keys that Run locks
abbrev pub global_keys : List Text
global_keys = codes "__global__" ∷ []

module _ {World : Type 0} (er : EtcdRegistry World) (json : Json) (is_active : Bool) where
  -- The registry as the pass sees it
  unfoldable pub upstream : UpstreamRegistry World RegistryError
  unfolding list live_hostnames remove register
  upstream = record {
    list = list er json;
    get_live_hostnames = live_hostnames er is_active;
    remove = λ ri w. write_error (remove er json ri w);
    register = λ ri w. write_error (register er json ri w);
  }

  abbrev pub fn_result :
      World → Option (Option (PassError RegistryError) × World) → Option FnError × World
  fn_result w none = (some panicked, w)
  fn_result w (some (none, w')) = (none, w')
  fn_result w (some (some e, w')) = (some (pass_failed e), w')

  -- The function that Run gives to LockTransaction
  unfoldable pub pass_fn : AppConfig → MemoryState → World → Option FnError × World
  unfolding upstream reconcile_pass
  pass_fn cfg s w = fn_result w (reconcile_pass upstream cfg s w)

  -- The transaction of a tick; fuel is that of the retry loop.
  unfoldable pub sync :
      Runtime World
      → ℕ
      → AppConfig
      → MemoryState
      → World
      → Option (TransactionError FnError) × World
  unfolding pass_fn lock_transaction
  sync run fuel cfg s w = lock_transaction er run fuel global_keys (pass_fn cfg s) w

  -- A tick, with the report to the readiness status, by the text of the error and the time of the report
  unfoldable pub tick :
      Runtime World
      → ℕ
      → (TransactionError FnError → Text)
      → AppConfig
      → MemoryState
      → Status × World
      → Status × World
  unfolding sync record_reconcile
  tick run fuel message cfg s (status, w) =
      let (e, w') = sync run fuel cfg s w in
      (record_reconcile status (error_text message e) (run.now w'), w')
