-- ===== src/Notify.antt =====
-- internal/notify/notify.go: webhook notifications.
pub mod Manager
pub mod Handlers
pub mod Delivery
pub mod Transitions
pub mod Sends
pub mod Cooldown
pub mod Cert
