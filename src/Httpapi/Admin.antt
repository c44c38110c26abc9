-- ===== src/Httpapi/Admin.antt =====
-- The handlers of internal/httpapi/admin.go. A path parameter that is no uuid is `none`; the
-- middleware has let through administrators only.
pub mod LastAdmin
use batch_managementof_cloud.Prelude.{
  ℕ, Bool, List, Option, String, false, leb, ltb, ltb_ℤ, map_some, none, not, pos, some, true, ℤ,
  ◌&&◌, ◌||◌,
}
use batch_managementof_cloud.Model.Failure.{Result, err, is_ok, ok}
use batch_managementof_cloud.Model.Records.{
  Role, Status, User, is_active, is_admin, role_of, status_of,
}
use batch_managementof_cloud.Security.Passwords.{hash_password}
use batch_managementof_cloud.Config.{Config}
use batch_managementof_cloud.Store.{AuditRow, Db}
use batch_managementof_cloud.Store.Accounts.{get_cloud_account, transfer_cloud_account}
use batch_managementof_cloud.Store.Listings.{list_audit, list_users}
use batch_managementof_cloud.Store.Settings.{StatusCounts, status_counts}
use batch_managementof_cloud.Store.Users.{
  active_admin_count, create_user, get_user_by_id, update_user_admin,
}
use batch_managementof_cloud.Effects.{query, statement}
use batch_managementof_cloud.Httpapi.Guards.{Principal, refusal}
use batch_managementof_cloud.Httpapi.Handler.{
  Handler, Sender, always, answer, audit, call, decode_json, if_unique, recently, refuse_if, try,
  with_env, ◌>>=◌, to_refuse,
}
use batch_managementof_cloud.Httpapi.Limits.{pagination}
use batch_managementof_cloud.Httpapi.Mail.{send_email, valid_email}

-- `optionalNullableInt`: absent, null, or a number.
pub data NullableInt : Type 0 where
  absent : NullableInt
  null : NullableInt
  value : ℤ → NullableInt

-- `quotaUpdate`
unfoldable pub quota_update : NullableInt → Option (Option ℤ)
quota_update absent = none
quota_update null = some none
quota_update (value n) = some (some n)

abbrev pub is_negative : NullableInt → Bool
is_negative (value n) = ltb_ℤ n (pos 0)
is_negative _ = false

-- A page of a listing, with what the response says of it.
pub record Page (A : Type 0) : Type 0 where
  pub items : List A
  pub total : ℕ
  pub page : ℤ
  pub per_page : ℤ

-- `page` and `per_page` of the query.
pub record PageQuery : Type 0 where
  pub page : String
  pub per_page : String

-- A listing and the page that it answers with.
unfoldable pub list_page :
    {A : Type 0} → String → PageQuery → (Db → ℤ → ℤ → Result (List A × ℕ)) → Handler (Page A)
list_page code q list =
    let (limit, offset, page) = pagination q.page q.per_page in
    call (always 500 code) (query λ now db. list db limit offset) >>= λ found.
    answer (record { items = found.0; total = found.1; page = page; per_page = limit })

-- `adminListUsers`
unfoldable pub admin_list_users : PageQuery → Handler (Page User)
admin_list_users q = list_page "users_failed" q list_users

-- `adminAuditLogs`
unfoldable pub admin_audit_logs : PageQuery → Handler (Page (AuditRow × Option String))
admin_audit_logs q = list_page "audit_failed" q list_audit

pub record NewUser : Type 0 where
  pub email : String
  pub password : String
  pub role : String

-- `adminCreateUser`
unfoldable pub admin_create_user : Principal → Sender → Option NewUser → Handler User
admin_create_user p sender body = with_env λ env. do
  _ ← recently p
  input ← decode_json body
  _ ← refuse_if (not (valid_email env.parse_address input.email)) (refusal 400 "invalid_user")
  role ← to_refuse (role_of input.role) (refusal 400 "invalid_user")
  hash ← call (always 400 "invalid_password") (hash_password input.password)
  user ←
      call (if_unique (refusal 409 "email_exists") (refusal 500 "user_create_failed"))
        (statement λ now ids db. create_user db now (ids 0) input.email hash role Status.active)
  _ ← audit (some p) sender "admin.user_create" "user" (env.id_text user.id) (some user.id)
  answer user

pub record UserChange : Type 0 where
  pub role : Option String
  pub status : Option String
  pub quota_droplets : NullableInt
  pub quota_vcpus : NullableInt
  pub quota_memory_mb : NullableInt

-- A field that is absent or has one of the texts that decode.
abbrev pub decode_field : {A : Type 0} → (String → Option A) → Option String → Option (Option A)
decode_field read none = some none
decode_field read (some s) = map_some (λ a. some a) (read s)

abbrev pub gives_up_role : Option Role → Bool
gives_up_role none = false
gives_up_role (some r) = not (is_admin r)

abbrev pub gives_up_status : Option Status → Bool
gives_up_status none = false
gives_up_status (some s) = not (is_active s)

-- `removingActiveAdmin`
abbrev pub removing_active_admin : User → Option Role → Option Status → Bool
removing_active_admin current role status =
    is_admin current.role
    && is_active current.status
    && (gives_up_role role || gives_up_status status)

-- The guard on the last administrator. A count that fails reads as 0.
unfoldable pub keep_admin : Bool → Handler (Unit {0})
keep_admin false = answer tt
keep_admin true = do
  count ← try (query λ now db. ok (active_admin_count db))
  refuse_if (elim count [ ok n ↦ leb n 1 | err e ↦ true ]) (refusal 409 "last_admin")

-- The end of `adminUpdateUser`, with a role and a status that it knows.
unfoldable pub change_user :
    Principal → Sender → ℕ → User → UserChange → Option Role → Option Status → Handler User
change_user p sender id current input role status = with_env λ env. do
  _ ←
      refuse_if
        (is_negative input.quota_droplets
          || is_negative input.quota_vcpus
          || is_negative input.quota_memory_mb)
        (refusal 400 "invalid_quota")
  _ ← keep_admin (removing_active_admin current role status)
  updated ← call (always 500 "user_update_failed") (
      statement λ now ids db. update_user_admin db now id (record {
        role = role;
        status = status;
        quota_droplets = quota_update input.quota_droplets;
        quota_vcpus = quota_update input.quota_vcpus;
        quota_memory_mb = quota_update input.quota_memory_mb;
      }))
  _ ← audit (some p) sender "admin.user_update" "user" (env.id_text id) (some id)
  answer updated

-- `adminUpdateUser`
unfoldable pub admin_update_user : Principal → Sender → Option ℕ → Option UserChange → Handler User
admin_update_user p sender user_id body = do
  _ ← recently p
  id ← to_refuse user_id (refusal 400 "invalid_user_id")
  current ← call (always 404 "user_not_found") (query λ now db. get_user_by_id db id)
  input ← decode_json body
  role ← to_refuse (decode_field role_of input.role) (refusal 400 "invalid_role")
  status ← to_refuse (decode_field status_of input.status) (refusal 400 "invalid_status")
  change_user p sender id current input role status

-- `adminTransferAccount`
unfoldable pub admin_transfer_account :
    Principal → Sender → Option ℕ → Option ℕ → Handler (Unit {0})
admin_transfer_account p sender account_id body = with_env λ env. do
  _ ← recently p
  id ← to_refuse account_id (refusal 400 "invalid_account_id")
  account ← call (always 404 "account_not_found") (query λ now db. get_cloud_account db id)
  target ← decode_json body
  user ← call (always 400 "target_user_invalid") (query λ now db. get_user_by_id db target)
  _ ← refuse_if (not (is_active user.status)) (refusal 400 "target_user_invalid")
  _ ←
      call (always 500 "transfer_failed")
        (statement λ now ids db. transfer_cloud_account db now account.id user.id)
  _ ←
      audit (some p) sender "admin.account_transfer" "cloud_account" (env.id_text account.id)
        (some user.id)
  answer tt

-- The response of `adminStatus`, less the build and the runtime.
pub record SystemStatus : Type 0 where
  pub environment : String
  pub database_ok : Bool
  pub counts : StatusCounts
  pub worker_ok : Bool

abbrev pub present : Result (Unit {0})
present = ok tt

-- `adminStatus`; the ping of the pool is a query that may fail.
unfoldable pub admin_status : Config → Handler SystemStatus
admin_status cfg = do
  ping ← try (query λ now db. present)
  counts ← call (always 500 "status_failed") (query λ now db. ok (status_counts db now))
  answer (record {
    environment = cfg.environment;
    database_ok = is_ok ping;
    counts = counts;
    worker_ok = ltb 0 counts.active_workers;
  })

-- `adminTestSMTP`
unfoldable pub admin_test_smtp : Principal → Sender → Option String → Handler (Unit {0})
admin_test_smtp p sender body = with_env λ env. do
  _ ← recently p
  to ← decode_json body
  _ ← refuse_if (not (valid_email env.parse_address to)) (refusal 400 "invalid_email")
  _ ← call (always 502 "smtp_test_failed") (send_email to "SMTP 测试" "云服务器托管平台 SMTP 配置测试成功。")
  _ ← audit (some p) sender "admin.smtp_test" "system" "smtp" none
  answer tt
