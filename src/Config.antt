-- ===== src/Config.antt =====
-- internal/config: the configuration of checks, origins, webhooks and filters.
pub mod Kind
pub mod Origin
pub mod Types
pub mod Yaml
pub mod Validate
pub mod Cases
pub mod Convert
pub mod Target
pub mod Load
pub mod Expand
pub mod Settings
pub mod Filter
