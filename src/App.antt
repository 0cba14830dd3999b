-- ===== src/App.antt =====
-- internal/app/app.go, and runWithDeps of cmd/docker-coredns-sync/root.go: what is built from a configuration,
-- in which order, and what is closed. The clients and the listener are parameters, as calls on a world that
-- give a handle; the loggers are left out.
pub mod Handles
use docker_coredns_sync.Prelude.{
  List, Option, Result, Text, [], err, if◌then◌else◌, nat_eq, none, ok, some, text_eq, ℕ, ◌*◌, ◌++◌,
  ◌∷◌,
}
use docker_coredns_sync.GoText.Decimal.{ℤ, pos, negsuc, int_eq}
use docker_coredns_sync.Config.{Config, EtcdConfig, http_server_enabled}
use docker_coredns_sync.Event.Generator.{
  DockerGenerator, default_generator, with_event_buffer_size, with_reconnect_backoff,
}
use docker_coredns_sync.HttpServer.{Status, new_status, set_dry_run}
use docker_coredns_sync.Metrics.{Metrics, new_metrics}
use docker_coredns_sync.Metrics

abbrev pub Handle : Type 0
Handle = ℕ

-- The two factories, net.Listen, the Close of a handle, and time.Duration(x * float64(time.Second))
pub record Factories (World : Type 0) : Type 0 where
  pub docker_client : World → Result Text Handle × World
  pub etcd_client : EtcdConfig → World → Result Text Handle × World
  pub listen : Text → World → Result Text Handle × World
  pub close : Handle → World → Option Text × World
  pub duration : ℤ → ℤ

-- App, with what its engine was given: the generator and its observers, and the metrics of the registry
-- and the engine.
pub record App : Type 0 where
  pub docker_client : Handle
  pub etcd_client : Handle
  pub http_server : Option Handle
  pub generator : DockerGenerator
  pub metrics : Option Metrics
  pub status : Option Status

pub data AppError : Type 0 where
  docker_failed etcd_failed : Text → AppError
  bind_failed : Text → Text → AppError

-- 3 * time.Duration(seconds) * time.Second, for a poll interval with which that is a Duration
unfoldable pub ready_threshold : ℤ → ℕ
ready_threshold (pos n) = 3 * n * 1000000000
ready_threshold (negsuc n) = 0

-- m, with the dry-run mode that is set later
unfoldable pub metrics_of : Config → Option Metrics
unfolding Metrics.set_dry_run new_metrics
metrics_of cfg =
    if cfg.metrics.enabled then some (Metrics.set_dry_run new_metrics cfg.app.dry_run) else none

-- status, with the dry-run mode that is set later
unfoldable pub status_of : Config → Option Status
unfolding set_dry_run new_status ready_threshold
status_of cfg =
    if cfg.http.enabled
    then some (set_dry_run (new_status (ready_threshold cfg.app.poll_interval)) cfg.app.dry_run)
    else none

module _ {World : Type 0} (f : Factories World) where
  unfoldable pub generator_of : Config → DockerGenerator
  unfolding with_reconnect_backoff with_event_buffer_size default_generator
  generator_of cfg =
      with_reconnect_backoff (f.duration cfg.docker.reconnect_initial_backoff)
        (f.duration cfg.docker.reconnect_max_backoff)
        (with_event_buffer_size cfg.docker.event_buffer_size default_generator)

  unfoldable pub app_of : Config → Handle → Handle → Option Handle → App
  unfolding generator_of metrics_of status_of
  app_of cfg docker etcd server = record {
    docker_client = docker;
    etcd_client = etcd;
    http_server = server;
    generator = generator_of cfg;
    metrics = metrics_of cfg;
    status = status_of cfg;
  }

  unfoldable pub close_both : Handle → Handle → World → World
  close_both docker etcd w = let (r, w₁) = f.close docker w in let (s, w₂) = f.close etcd w₁ in w₂

  unfoldable pub after_listen :
      Config → Handle → Handle → Result Text Handle × World → Result AppError App × World
  unfolding app_of close_both
  after_listen cfg docker etcd (err e, w) =
      (err (bind_failed cfg.http.listen_addr e), close_both docker etcd w)
  after_listen cfg docker etcd (ok server, w) = (ok (app_of cfg docker etcd (some server)), w)

  unfoldable pub after_etcd :
      Config → Handle → Result Text Handle × World → Result AppError App × World
  unfolding after_listen app_of http_server_enabled
  after_etcd cfg docker (err e, w) = let (r, w') = f.close docker w in (err (etcd_failed e), w')
  after_etcd cfg docker (ok etcd, w) =
      if http_server_enabled cfg
      then after_listen cfg docker etcd (f.listen cfg.http.listen_addr w)
      else (ok (app_of cfg docker etcd none), w)

  unfoldable pub after_docker : Config → Result Text Handle × World → Result AppError App × World
  unfolding after_etcd
  after_docker cfg (err e, w) = (err (docker_failed e), w)
  after_docker cfg (ok docker, w) = after_etcd cfg docker (f.etcd_client cfg.etcd w)

  -- NewWithFactories
  unfoldable pub new_with_factories : Config → World → Result AppError App × World
  unfolding after_docker
  new_with_factories cfg w = after_docker cfg (f.docker_client w)

  unfoldable pub join : List Text → Option Text → List Text
  join errs none = errs
  join errs (some e) = errs ++ (e ∷ [])

  unfoldable pub close_server : Option Handle → List Text → World → List Text × World
  unfolding join
  close_server none errs w = (errs, w)
  close_server (some server) errs w = let (e, w') = f.close server w in (join errs e, w')

  -- Close of an App that NewWithFactories built: the joined errors; no error is nil.
  unfoldable pub close_app : App → World → List Text × World
  unfolding join close_server
  close_app app w =
      let (d, w₁) = f.close app.docker_client w in
      let (e, w₂) = f.close app.etcd_client w₁ in
      close_server app.http_server (join (join [] d) e) w₂

  -- What runWithDeps returns at the end of Run: nil for nil and for context.Canceled, and another error
  abbrev pub exit_of : Option (Option Text) → Option Text
  exit_of none = none
  exit_of (some none) = none
  exit_of (some (some e)) = some e

  unfoldable pub run_app :
      (App → World → Option (Option Text) × World)
      → Result AppError App × World
      → Result AppError (Option Text) × World
  unfolding close_app
  run_app run (err e, w) = (err e, w)
  run_app run (ok app, w) =
      let (r, w₁) = run app w in let (errs, w₂) = close_app app w₁ in (ok (exit_of r), w₂)

  -- runWithDeps, with New as its factory: an error of the factory, or what the run ended with
  unfoldable pub run_with_deps :
      (App → World → Option (Option Text) × World)
      → Config
      → World
      → Result AppError (Option Text) × World
  unfolding run_app new_with_factories
  run_with_deps run cfg w = run_app run (new_with_factories cfg w)
