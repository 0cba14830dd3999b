-- ===== src/Core/Engine/Run.antt =====
-- Run of internal/core/engine.go: the start of the heartbeat, the ticks of the reconciliation loop and the
-- shutdown. Subscribe gives no error. What other goroutines do between two ticks is an argument of the
-- tick: the sections of the heartbeat, and the state that its pass reads.
pub mod DryRun
use docker_coredns_sync.Prelude.{List, Text, [], if◌then◌else◌, nat_eq, text_eq, ℕ, ◌∷◌}
use docker_coredns_sync.Config.{AppConfig}
use docker_coredns_sync.State.{MemoryState}
use docker_coredns_sync.Registry.{Json}
use docker_coredns_sync.Registry.Client.{EtcdRegistry}
use docker_coredns_sync.Registry.Heartbeat.{
  Heartbeat, HeartbeatRuntime, Section, no_heartbeat, sections, start_heartbeat, stop_heartbeat,
}
use docker_coredns_sync.Registry.Lock.{Runtime, TransactionError}
use docker_coredns_sync.Core.Engine.Sync.{FnError, tick}
use docker_coredns_sync.HttpServer.{Status}

pub record Tick : Type 0 where
  pub between : List Section
  pub state : MemoryState

module _ {World : Type 0} (er : EtcdRegistry World) (json : Json) (run : Runtime World)
    (keeping : HeartbeatRuntime World) (fuel : ℕ) (message : TransactionError FnError → Text)
    (cfg : AppConfig) where
  -- if DryRun {} else if err := StartHeartbeat; err != nil {}
  unfoldable pub begin : Heartbeat → World → Heartbeat × World
  unfolding start_heartbeat
  begin hb w =
      if cfg.dry_run
      then (hb, w)
      else (let (e, hb', w') = start_heartbeat er keeping hb w in (hb', w'))

  -- The ticks, until the context is cancelled
  unfoldable pub ticks : List Tick → Heartbeat → Status × World → Heartbeat × Status × World
  unfolding sections tick
  ticks [] hb sw = (hb, sw.0, sw.1)
  ticks (t ∷ ts) hb sw =
      let hb' = sections hb t.between in
      ticks ts hb' (tick er json hb'.active run fuel message cfg t.state sw)

  -- Run
  unfoldable pub run_engine : List Tick → Status → World → Heartbeat × Status × World
  unfolding begin no_heartbeat ticks stop_heartbeat
  run_engine ts status w =
      let (hb, w₁) = begin no_heartbeat w in
      let (hb', status', w₂) = ticks ts hb (status, w₁) in
      let (hb'', w₃) = stop_heartbeat er keeping hb' w₂ in (hb'', status', w₃)
