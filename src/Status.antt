-- ===== src/Status.antt =====
-- internal/status: the status store and what the status page computes from it.
pub mod Ring
pub mod Store
pub mod Persistence
pub mod Snapshot
pub mod Figures
pub mod Cache
pub mod Page
