-- ===== src/Domain.antt =====
-- internal/domain: records, record intents and container events.
pub mod Hostname
pub mod Kind
pub mod Record
pub mod Intent
pub mod Event
use docker_coredns_sync.Prelude.{nat_eq, text_eq}
