-- ===== src/Store/Settings.antt =====
-- The tables `system_settings`, `audit_logs` and `worker_heartbeats`: `GetSetting`, `ListSettings`,
-- `SetSetting`, `SetSettingWithSecret`, `Audit`, `ListAudit`, `StatusCounts` and `WorkerHeartbeat`
-- of internal/store/store.go.
pub mod Secrets
use batch_managementof_cloud.Prelude.{
  ℕ, Bool, List, Option, String, [], count_where, exists_where, false, find_where, if◌then◌else◌,
  length, ltb, map, none, not, some, str_eq, text_leb, true, update_where, ◌&&◌, ◌*◌, ◌++◌, ◌+◌,
  ◌==◌, ◌∷◌,
}
use batch_managementof_cloud.Model.Failure.{Result, err, foreign_key_violation, ok}
use batch_managementof_cloud.Model.Records.{JobState, User, failed, hour, second}
use batch_managementof_cloud.Store.{AuditRow, Db, Heartbeat, Setting, SettingValue}
use batch_managementof_cloud.Store.Accounts.{nullif_blank}
use batch_managementof_cloud.Store.Jobs.{is_queued, is_running}
use batch_managementof_cloud.Store.Sessions.{truncate}
use batch_managementof_cloud.Store.Users.{found}

-- `GetSetting`
unfoldable pub get_setting : Db → String → Result Setting
get_setting db key = found (find_where (λ (s : Setting). str_eq s.key key) db.system_settings)

abbrev insert_setting : Setting → List Setting → List Setting
insert_setting s [] = s ∷ []
insert_setting s (t ∷ ts) =
    let rest = insert_setting s ts in if text_leb s.key t.key then s ∷ t ∷ ts else t ∷ rest

abbrev pub by_key : List Setting → List Setting
by_key [] = []
by_key (s ∷ ts) = insert_setting s (by_key ts)

-- `ListSettings`: the values, under their keys.
unfoldable pub list_settings : Db → List (String × SettingValue)
list_settings db = map (λ (s : Setting). (s.key, s.value)) (by_key db.system_settings)

-- The value of `ON CONFLICT(key) DO UPDATE`.
abbrev pub overwrite :
    ℕ → SettingValue → Option String → Option String → Bool → ℕ → Setting → Setting
overwrite now value ciphertext nonce update_secret actor s = record s {
  value = value;
  secret_ciphertext = if update_secret then ciphertext else s.secret_ciphertext;
  secret_nonce = if update_secret then nonce else s.secret_nonce;
  updated_by = some actor;
  updated_at = now;
}

-- `SetSettingWithSecret`
unfoldable pub set_setting_with_secret :
    Db
    → ℕ
    → String
    → SettingValue
    → Option String
    → Option String
    → Bool
    → ℕ
    → Result (Unit {0}) × Db
set_setting_with_secret db now key value ciphertext nonce update_secret actor =
    let row : Setting = record {
      key = key;
      value = value;
      secret_ciphertext = ciphertext;
      secret_nonce = nonce;
      updated_by = some actor;
      updated_at = now;
    } in
    if not (exists_where (λ (u : User). u.id == actor) db.users)
    then (err foreign_key_violation, db)
    else if exists_where (λ (s : Setting). str_eq s.key key) db.system_settings
    then (
      ok tt,
      record db {
        system_settings =
            update_where (λ s. str_eq s.key key)
              (overwrite now value ciphertext nonce update_secret actor) db.system_settings;
      },
    )
    else (ok tt, record db { system_settings = db.system_settings ++ row ∷ [] })

-- `SetSetting`
unfoldable pub set_setting :
    Db → ℕ → String → SettingValue → Option String → Option String → ℕ → Result (Unit {0}) × Db
set_setting db now key value ciphertext nonce actor =
    set_setting_with_secret db now key value ciphertext nonce false actor

-- `AuditEntry`, less its metadata; an absent address is `none`.
pub record AuditEntry : Type 0 where
  pub actor_user_id : Option ℕ
  pub target_user_id : Option ℕ
  pub action : String
  pub resource_type : String
  pub resource_id : String
  pub ip : Option String
  pub user_agent : String

abbrev pub refers : Db → Option ℕ → Bool
refers db none = true
refers db (some id) = exists_where (λ (u : User). u.id == id) db.users

-- `Audit`
unfoldable pub write_audit : Db → ℕ → AuditEntry → Result (Unit {0}) × Db
write_audit db now entry =
    let row : AuditRow = record {
      actor_user_id = entry.actor_user_id;
      target_user_id = entry.target_user_id;
      action = entry.action;
      resource_type = entry.resource_type;
      resource_id = nullif_blank entry.resource_id;
      ip_address = entry.ip;
      user_agent = truncate entry.user_agent 512;
      created_at = now;
    } in
    if refers db entry.actor_user_id && refers db entry.target_user_id
    then (ok tt, record db { audit_logs = db.audit_logs ++ row ∷ [] })
    else (err foreign_key_violation, db)

-- The counts of `StatusCounts`, each of them one query.
pub record StatusCounts : Type 0 where
  pub users : ℕ
  pub accounts : ℕ
  pub droplets : ℕ
  pub queued_jobs : ℕ
  pub running_jobs : ℕ
  pub failed_jobs : ℕ
  pub active_workers : ℕ

abbrev pub is_failed : JobState → Bool
is_failed failed = true
is_failed _ = false

-- `StatusCounts`, at one time.
unfoldable pub status_counts : Db → ℕ → StatusCounts
status_counts db now = record {
  users = length db.users;
  accounts = length db.cloud_accounts;
  droplets = length db.droplets;
  queued_jobs = count_where (λ j. is_queued j.state) db.jobs;
  running_jobs = count_where (λ j. is_running j.state) db.jobs;
  failed_jobs = count_where (λ j. is_failed j.state && ltb now (j.created_at + 24 * hour)) db.jobs;
  active_workers = count_where (λ b. ltb now (b.last_seen_at + 30 * second)) db.worker_heartbeats;
}

-- `WorkerHeartbeat`
unfoldable pub worker_heartbeat : Db → ℕ → ℕ → String → ℕ → Db
worker_heartbeat db now worker hostname process_id =
    let row : Heartbeat = record {
      worker_id = worker;
      hostname = hostname;
      process_id = process_id;
      last_seen_at = now;
    } in
    if exists_where (λ (b : Heartbeat). b.worker_id == worker) db.worker_heartbeats
    then record db {
      worker_heartbeats = update_where (λ b. b.worker_id == worker) (λ b. row) db.worker_heartbeats;
    }
    else record db { worker_heartbeats = db.worker_heartbeats ++ row ∷ [] }
