-- ===== src/Httpapi.antt =====
-- The HTTP API (internal/httpapi).
pub mod Selection
pub mod Names
pub mod Limits
pub mod Guards
pub mod Mail
pub mod Handler
pub mod Auth
pub mod Admin
pub mod Settings
pub mod Accounts
pub mod Remote
pub mod Droplets
mod Samples
mod Tests
