-- ===== src/Metrics.antt =====
-- internal/metrics/metrics.go. The collectors are Prometheus's: each method is the calls that it makes on
-- them, in order. Handler, which serves them, is a call of that library.
use docker_coredns_sync.Prelude.{
  Bool, List, Text, [], codes, false, nat_eq, text_eq, true, ℕ, ◌/◌, ◌∷◌,
}
use docker_coredns_sync.Domain.Intent.{Time}

-- The fields that hold collectors
pub data Collector : Type 0 where
  reconcile_duration reconcile_total last_reconcile_success records_added records_removed
        records_skipped etcd_errors etcd_lock_failures docker_disconnects :
      Collector

pub data CollectorKind : Type 0 where
  histogram counter_vec gauge counter : CollectorKind

-- NewHistogram, NewCounterVec, NewGauge and NewCounter, with the names of the collectors; the help texts
-- and the buckets are left out.
unfoldable pub described : Collector → CollectorKind × Text
described reconcile_duration = (histogram, codes "dcs_reconcile_duration_seconds")
described reconcile_total = (counter_vec, codes "dcs_reconcile_total")
described last_reconcile_success = (gauge, codes "dcs_reconcile_last_success_timestamp_seconds")
described records_added = (counter, codes "dcs_records_added_total")
described records_removed = (counter, codes "dcs_records_removed_total")
described records_skipped = (gauge, codes "dcs_records_skipped")
described etcd_errors = (counter, codes "dcs_etcd_errors_total")
described etcd_lock_failures = (counter, codes "dcs_etcd_lock_failures_total")
described docker_disconnects = (counter, codes "dcs_docker_disconnects_total")

-- Observe (here of nanoseconds), Add and Set, and Inc, the last one also on the counter of a label
pub data CollectorCall : Type 0 where
  observes adds sets : ℕ → Collector → CollectorCall
  incs : Collector → CollectorCall
  incs_label : Collector → Text → CollectorCall

-- Metrics: what is registered, and dryRun
pub record Metrics : Type 0 where
  pub registry : List Collector
  pub dry_run : Bool

-- New
unfoldable pub new_metrics : Metrics
new_metrics = record {
  registry =
      reconcile_duration ∷ reconcile_total ∷ last_reconcile_success ∷ records_added
      ∷ records_removed ∷ records_skipped ∷ etcd_errors ∷ etcd_lock_failures ∷ docker_disconnects
      ∷ [];
  dry_run = false;
}

-- SetDryRun
unfoldable pub set_dry_run : Metrics → Bool → Metrics
set_dry_run m dry_run = record m { dry_run = dry_run }

-- Time.Unix
unfoldable pub unix : Time → ℕ
unix now = now / 1000000000

-- The switch of ObserveReconcile
unfoldable pub count_result : Bool → Bool → Time → List CollectorCall
unfolding unix
count_result dry_run true now = incs_label reconcile_total (codes "error") ∷ []
count_result true false now = incs_label reconcile_total (codes "dry_run") ∷ []
count_result false false now =
    incs_label reconcile_total (codes "success") ∷ sets (unix now) last_reconcile_success ∷ []

-- ObserveReconcile; failed is err != nil.
unfoldable pub observe_reconcile : Metrics → ℕ → ℕ → ℕ → ℕ → Bool → Time → List CollectorCall
unfolding count_result
observe_reconcile m duration added removed skipped failed now =
    observes duration reconcile_duration
    ∷ adds added records_added
    ∷ adds removed records_removed
    ∷ sets skipped records_skipped
    ∷ count_result m.dry_run failed now

-- IncEtcdError, IncLockFailure, IncDockerDisconnect
unfoldable pub inc_etcd_error : List CollectorCall
inc_etcd_error = incs etcd_errors ∷ []

unfoldable pub inc_lock_failure : List CollectorCall
inc_lock_failure = incs etcd_lock_failures ∷ []

unfoldable pub inc_docker_disconnect : List CollectorCall
inc_docker_disconnect = incs docker_disconnects ∷ []
