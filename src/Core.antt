-- ===== src/Core.antt =====
-- internal/core: labels, record building, validation, reconciliation and the engine.
pub mod Validation
pub mod NestedMaps
pub mod Filter
pub mod Reconcile
pub mod Labels
pub mod Builder
pub mod Engine
use docker_coredns_sync.Prelude.{nat_eq, text_eq}
