-- ===== src/Tests.antt =====
-- The properties at concrete inputs, and the data that they share.
pub mod Data
pub mod Store
pub mod Files
pub mod Notify
pub mod Scheduler
pub mod Config
pub mod Check
pub mod Output
pub mod Network
pub mod Checkers
pub mod Page
pub mod Remote
