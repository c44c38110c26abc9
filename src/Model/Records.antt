-- ===== src/Model/Records.antt =====
-- The records of internal/model/model.go, with the enumerations that the database's CHECK
-- constraints fix. A uuid is a number and `uuid.Nil` is 0, a time is a number of nanoseconds, an
-- amount of money is a number of millionths (NUMERIC(18,6)), a byte string is a text. The JSON of a
-- job's payload and result is the data that is encoded in it.
use batch_managementof_cloud.Prelude.{
  ℕ, ◌*◌, String, Bool, true, false, Option, none, some, List, ℤ, str_eq, if◌then◌else◌,
}
use batch_managementof_cloud.Model.Json.{Json, Object}
use batch_managementof_cloud.Model.Failure.{Error}

abbrev pub second : ℕ
second = 1000000000

abbrev pub minute : ℕ
minute = 60 * second

abbrev pub hour : ℕ
hour = 60 * minute

pub data Role : Type 0 where
  admin user : Role

pub data Status : Type 0 where
  pending active disabled : Status

abbrev pub is_admin : Role → Bool
is_admin admin = true
is_admin user = false

abbrev pub is_active : Status → Bool
is_active active = true
is_active _ = false

abbrev pub is_pending : Status → Bool
is_pending pending = true
is_pending _ = false

abbrev pub is_disabled : Status → Bool
is_disabled disabled = true
is_disabled _ = false

-- The spelling of a role or a status in a request.
unfoldable pub role_of : String → Option Role
role_of s = if str_eq s "admin" then some admin else if str_eq s "user" then some user else none

unfoldable pub status_of : String → Option Status
status_of s =
    if str_eq s "active"
    then some active
    else if str_eq s "disabled"
    then some disabled
    else if str_eq s "pending"
    then some pending
    else none

pub record User : Type 0 where
  pub id : ℕ
  pub email : String
  pub password_hash : String
  pub role : Role
  pub status : Status
  pub email_verified_at : Option ℕ
  pub quota_droplets : Option ℤ
  pub quota_vcpus : Option ℤ
  pub quota_memory_mb : Option ℤ
  pub created_at : ℕ
  pub updated_at : ℕ

pub record Session : Type 0 where
  pub id : ℕ
  pub user_id : ℕ
  pub recent_auth_at : ℕ
  pub expires_at : ℕ

pub data CredentialStatus : Type 0 where
  unverified valid insufficient invalid : CredentialStatus

-- The JSON of `account_limits`.
pub record Limits : Type 0 where
  pub droplet_limit : ℤ
  pub floating_ip_limit : ℤ

pub record CloudAccount : Type 0 where
  pub id : ℕ
  pub user_id : ℕ
  pub name : String
  pub provider_account_id : Option String
  pub provider_email : Option String
  pub provider_status : Option String
  pub status_message : Option String
  pub credential_status : CredentialStatus
  pub account_limits : Option Limits
  pub account_balance : Option ℤ
  pub month_to_date_usage : Option ℤ
  pub month_to_date_balance : Option ℤ
  pub rate_limit_remaining : Option ℤ
  pub rate_limit_reset_at : Option ℕ
  pub last_validated_at : Option ℕ
  pub last_synced_at : Option ℕ
  pub last_error : Option Error
  pub full_access_confirmed : Bool
  pub created_at : ℕ
  pub updated_at : ℕ
  pub token_ciphertext : String
  pub token_nonce : String
  pub token_fingerprint : String

pub record Droplet : Type 0 where
  pub id : ℕ
  pub user_id : ℕ
  pub account_id : ℕ
  pub provider_id : ℤ
  pub name : String
  pub status : String
  pub locked : Bool
  pub region_slug : Option String
  pub size_slug : Option String
  pub vcpus : ℤ
  pub memory_mb : ℤ
  pub disk_gb : ℤ
  pub price_hourly : Option ℤ
  pub price_monthly : Option ℤ
  pub ipv4 : Option String
  pub ipv6 : Option String
  pub image : Json
  pub features : Json
  pub tags : List String
  pub vpc_uuid : Option String
  pub project_id : Option String
  pub raw : Json
  pub synced_at : ℕ
  pub created_at : ℕ
  pub updated_at : ℕ

pub data JobState : Type 0 where
  queued running succeeded failed partial : JobState

pub data Kind : Type 0 where
  sync_account create_droplets droplet_action delete_droplets : Kind
  other : String → Kind

-- The payload of a create job (`createPayload` of internal/worker/worker.go).
pub record CreatePayload : Type 0 where
  pub names : List String
  pub region : String
  pub size : String
  pub image : Json
  pub ssh_keys : List Json
  pub backups : Bool
  pub backup_policy : Object
  pub ipv6 : Bool
  pub monitoring : Bool
  pub tags : List String
  pub vpc_uuid : String
  pub project_id : String
  pub auth_mode : String
  pub public_networking : Option Bool

-- The payload of an action job (`actionPayload`).
pub record ActionPayload : Type 0 where
  pub droplet_ids : List ℤ
  pub action : String
  pub parameters : Object

pub data Payload : Type 0 where
  of_sync : ℕ → Payload
  of_create : CreatePayload → Payload
  of_action : ActionPayload → Payload
  of_delete : List ℤ → Payload
  -- JSON that does not decode as the kind's payload.
  undecodable : Payload

-- One entry of a result's `failures`, by the keys of its map literal.
pub data Failure : Type 0 where
  names_error : List String → Error → Failure
  name_error : String → Error → Failure
  action_error : ℤ → Error → Failure
  project_error : String → Error → Failure
  sync_error : Error → Failure
  local_record : ℤ → String → Error → Failure
  credential_error : ℤ → Error → Failure
  droplet_error : ℤ → Error → Failure
  droplet_action_error : ℤ → ℤ → Error → Failure

pub data Outcome : Type 0 where
  no_result : Outcome
  synced : ℕ → ℕ → Outcome
  created : List ℤ → List Failure → Outcome
  acted : String → List ℤ → List Failure → Outcome
  deleted : List ℤ → List Failure → Outcome

pub record Job : Type 0 where
  pub id : ℕ
  pub user_id : ℕ
  pub account_id : Option ℕ
  pub kind : Kind
  pub state : JobState
  pub payload : Payload
  pub result : Outcome
  pub provider_action_ids : List ℤ
  pub progress : ℕ
  pub attempts : ℕ
  pub error_message : Option Error
  pub scheduled_at : ℕ
  pub started_at : Option ℕ
  pub finished_at : Option ℕ
  pub created_at : ℕ
  pub updated_at : ℕ
