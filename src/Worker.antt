-- ===== src/Worker.antt =====
-- The background worker (internal/worker/worker.go).
pub mod Selection
pub mod Requests
pub mod Quota
pub mod Accounts
pub mod Create
pub mod Droplets
pub mod Process
pub mod Frame
pub mod Reports
pub mod Turn
mod Tests
