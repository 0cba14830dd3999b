-- ===== src/HttpServer.antt =====
-- Status of internal/httpserver/status.go: whether the daemon is ready. Each method holds the lock for
-- its whole body.
pub mod Ready
pub mod Routes
use docker_coredns_sync.Prelude.{
  Bool, List, Option, Text, [], false, if◌then◌else◌, ltb, nat_eq, none, not, some, text_eq, ℕ, ◌+◌,
  ◌∷◌,
}
use docker_coredns_sync.Domain.Intent.{Time}

pub record Status : Type 0 where
  pub docker_connected : Bool
  -- none is the zero time
  pub last_reconcile_success : Option Time
  -- none is nil, else the message of the error
  pub last_reconcile_err : Option Text
  pub ready_threshold : ℕ
  pub dry_run : Bool

-- NewStatus
unfoldable pub new_status : ℕ → Status
new_status ready_threshold = record {
  docker_connected = false;
  last_reconcile_success = none;
  last_reconcile_err = none;
  ready_threshold = ready_threshold;
  dry_run = false;
}

-- SetDockerConnected, SetDryRun
unfoldable pub set_docker_connected : Status → Bool → Status
set_docker_connected s connected = record s { docker_connected = connected }

unfoldable pub set_dry_run : Status → Bool → Status
set_dry_run s dry_run = record s { dry_run = dry_run }

-- RecordReconcile; now is the time of the call.
unfoldable pub record_reconcile : Status → Option Text → Time → Status
record_reconcile s none now = record s {
  last_reconcile_err = none;
  last_reconcile_success = some now;
}
record_reconcile s (some error) now = record s { last_reconcile_err = some error }

pub data Readiness : Type 0 where
  ready dry not_connected never_reconciled stale_reconcile : Readiness
  reconcile_failed : Text → Readiness

unfoldable pub age_check : Option Time → ℕ → Time → Readiness
age_check none threshold now = never_reconciled
age_check (some success) threshold now =
    if ltb (success + threshold) now then stale_reconcile else ready

unfoldable pub error_check : Status → Option Text → Time → Readiness
unfolding age_check
error_check s (some error) now = reconcile_failed error
error_check s none now = age_check s.last_reconcile_success s.ready_threshold now

-- Ready, at the time now
unfoldable pub readiness : Status → Time → Readiness
unfolding error_check
readiness s now =
    if s.dry_run
    then dry
    else if not s.docker_connected
    then not_connected
    else error_check s s.last_reconcile_err now

-- The calls that the engine, the event generator and the startup make.
pub data Call : Type 0 where
  connected : Bool → Call
  dry_mode : Bool → Call
  reconciled : Option Text → Time → Call

unfoldable pub call : Status → Call → Status
unfolding set_docker_connected set_dry_run record_reconcile
call s (connected b) = set_docker_connected s b
call s (dry_mode b) = set_dry_run s b
call s (reconciled e now) = record_reconcile s e now

unfoldable pub calls : Status → List Call → Status
unfolding call
calls s [] = s
calls s (c ∷ cs) = calls (call s c) cs
