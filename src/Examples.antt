-- ===== src/Examples.antt =====
-- Runs of the program on small inputs, and the theorems at them.
mod Data
mod ReconcileRuns
mod FilterRuns
mod PassRuns
mod StateRuns
mod RegistryRuns
mod OtherRuns
mod OnePair
mod EtcdRuns
mod DaemonRuns
use docker_coredns_sync.Prelude.{nat_eq, text_eq}
