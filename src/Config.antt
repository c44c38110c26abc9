-- ===== src/Config.antt =====
-- `Config` of internal/config/config.go.
pub mod Load
mod Tests
use batch_managementof_cloud.Prelude.{ℕ, Bool, List, String, ℤ}

-- `Config`
pub record Config : Type 0 where
  pub environment : String
  pub listen_addr : String
  pub database_url : String
  pub app_base_url : String
  pub master_key : List ℕ
  pub cookie_name : String
  pub cookie_secure : Bool
  pub session_ttl : ℕ
  pub worker_concurrency : ℤ
  pub worker_poll : ℕ
  pub sync_interval : ℕ
  pub frontend_dir : String
  pub dev_expose_tokens : Bool
  pub run_worker : Bool
