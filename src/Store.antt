-- ===== src/Store.antt =====
-- The tables of PostgreSQL (internal/database/migrations/001_initial.sql) as the state that
-- internal/store/store.go reads and writes. Each method of `Store` is a function in a child module.
pub mod Users
pub mod Sessions
pub mod Tokens
pub mod Accounts
pub mod Droplets
pub mod Jobs
pub mod Settings
pub mod Listings
mod Tests
use batch_managementof_cloud.Prelude.{ℕ, String, Bool, Option, List, [], ℤ}
use batch_managementof_cloud.Model.Records.{User, CloudAccount, Droplet, Job}

pub record SessionRow : Type 0 where
  pub id : ℕ
  pub user_id : ℕ
  pub token_hash : String
  pub ip_address : Option String
  pub user_agent : String
  pub recent_auth_at : ℕ
  pub expires_at : ℕ
  pub created_at : ℕ

pub data Purpose : Type 0 where
  verify_email reset_password : Purpose

pub record TokenRow : Type 0 where
  pub id : ℕ
  pub user_id : ℕ
  pub purpose : Purpose
  pub token_hash : String
  pub expires_at : ℕ
  pub consumed_at : Option ℕ
  pub created_at : ℕ

pub data SecretStatus : Type 0 where
  active stale revoked : SecretStatus

-- A row of `managed_credentials`; its kind is always `root_password`.
pub record Credential : Type 0 where
  pub user_id : ℕ
  pub droplet_id : ℕ
  pub ciphertext : String
  pub nonce : String
  pub status : SecretStatus
  pub updated_at : ℕ

pub record Heartbeat : Type 0 where
  pub worker_id : ℕ
  pub hostname : String
  pub process_id : ℕ
  pub last_seen_at : ℕ

-- The JSON of a setting, by its key.
pub data SettingValue : Type 0 where
  of_site : String → String → SettingValue
  of_registration : Bool → SettingValue
  of_maintenance : Bool → String → SettingValue
  of_session : ℤ → SettingValue
  of_default_quota : Option ℤ → Option ℤ → Option ℤ → SettingValue
  of_smtp : String → ℤ → String → String → Bool → SettingValue
  undecodable : SettingValue

pub record Setting : Type 0 where
  pub key : String
  pub value : SettingValue
  pub secret_ciphertext : Option String
  pub secret_nonce : Option String
  pub updated_by : Option ℕ
  pub updated_at : ℕ

pub record AuditRow : Type 0 where
  pub actor_user_id : Option ℕ
  pub target_user_id : Option ℕ
  pub action : String
  pub resource_type : String
  pub resource_id : Option String
  pub ip_address : Option String
  pub user_agent : String
  pub created_at : ℕ

pub record Db : Type 0 where
  pub users : List User
  pub sessions : List SessionRow
  pub one_time_tokens : List TokenRow
  pub cloud_accounts : List CloudAccount
  pub droplets : List Droplet
  pub managed_credentials : List Credential
  pub jobs : List Job
  pub worker_heartbeats : List Heartbeat
  pub system_settings : List Setting
  pub audit_logs : List AuditRow

-- The database that a fresh installation starts from, less the rows of `system_settings`.
abbrev pub empty_db : Db
empty_db = record {
  users = [];
  sessions = [];
  one_time_tokens = [];
  cloud_accounts = [];
  droplets = [];
  managed_credentials = [];
  jobs = [];
  worker_heartbeats = [];
  system_settings = [];
  audit_logs = [];
}
