-- ===== src/Scheduler.antt =====
-- internal/scheduler: when a check runs, how often it is retried, and what is published.
pub mod Retry
pub mod Stagger
pub mod Execute
pub mod Loops
