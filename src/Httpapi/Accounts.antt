-- ===== src/Httpapi/Accounts.antt =====
-- The handlers of internal/httpapi/accounts.go.
use batch_managementof_cloud.Digitalocean.Client
pub mod Access
pub mod Rollback
use Prim.Native.String.{len}
use batch_managementof_cloud.Prelude.{
  ℕ, Bool, List, Option, String, false, if◌then◌else◌, ltb, none, not, some, str_eq, trim_space,
  true, ◌&&◌, ◌==◌, ◌||◌,
}
use batch_managementof_cloud.Model.Failure.{Error, Result, err, ok}
use batch_managementof_cloud.Model.Records.{CloudAccount, Job, Kind, is_admin, of_sync, valid}
use batch_managementof_cloud.Store.Accounts.{
  AccountValidation, create_cloud_account, delete_cloud_account, get_cloud_account,
  list_cloud_accounts, replace_account_token, update_account_validation,
}
use batch_managementof_cloud.Store.Jobs.{enqueue_job}
use batch_managementof_cloud.Provider.{Account}
use batch_managementof_cloud.Effects.{Program, encrypt, query, statement}
use batch_managementof_cloud.Digitalocean.{RateInfo, is_status}
use batch_managementof_cloud.Httpapi.Guards.{Principal, refusal}
use batch_managementof_cloud.Httpapi.Handler.{
  Handler, Sender, always, answer, audit, call, decode_json, if_unique, recently, refuse, refuse_if,
  to_refuse, try, with_env, ◌>>=◌,
}
use batch_managementof_cloud.Httpapi.Selection.{Refusal}

-- `p.User.Role != "admin" && account.UserID != p.User.ID`
abbrev pub is_foreign : Principal → ℕ → Bool
is_foreign p owner = not (is_admin p.user.role) && not (owner == p.user.id)

-- `accountByIDForUser` of internal/httpapi/droplets.go, and `authorizedAccount` once the id parses.
unfoldable pub account_by_id_for_user : Principal → ℕ → Handler CloudAccount
account_by_id_for_user p id = do
  account ← call (always 404 "account_not_found") (query λ now db. get_cloud_account db id)
  _ ← refuse_if (is_foreign p account.user_id) (refusal 403 "account_forbidden")
  answer account

-- `authorizedAccount`
unfoldable pub authorized_account : Principal → Option ℕ → Handler CloudAccount
authorized_account p account_id =
    to_refuse account_id (refusal 400 "invalid_account_id") >>= account_by_id_for_user p

-- `listCloudAccounts`
unfoldable pub list_accounts : Principal → Handler (List CloudAccount)
list_accounts p =
    call (always 500 "accounts_failed")
      (query λ now db. ok (list_cloud_accounts db p.user.id (is_admin p.user.role)))

-- `getCloudAccount`
unfoldable pub get_account_by_id : Principal → Option ℕ → Handler CloudAccount
get_account_by_id p account_id = authorized_account p account_id

pub record NewAccount : Type 0 where
  pub name : String
  pub token : String
  pub full_access_confirmed : Bool

-- The team's id, or the account's.
abbrev pub provider_id : Account → String
provider_id a = elim a.team [
  | none ↦ a.uuid
  | some (name, uuid) ↦ if str_eq uuid "" then a.uuid else uuid
]

-- The answer to a token that the provider refuses.
abbrev pub token_refusal : Error → Refusal
token_refusal e = refusal 400 (if is_status e 403 then "token_insufficient" else "token_invalid")

-- What the database keeps of the provider's account.
abbrev pub validation_of_account : Account → RateInfo → AccountValidation
validation_of_account a rate = record {
  provider_account_id = provider_id a;
  provider_email = a.email;
  provider_status = a.status;
  status_message = a.status_message;
  credential_status = valid;
  account_limits = record {
    droplet_limit = a.droplet_limit;
    floating_ip_limit = a.floating_ip_limit;
  };
  account_balance = none;
  month_to_date_usage = none;
  month_to_date_balance = none;
  rate_remaining = rate.remaining;
  rate_reset_at = rate.reset_at;
  last_error = none;
}

-- `EnqueueJob` of an account's synchronisation.
abbrev pub enqueue_sync : Principal → ℕ → Program Job
enqueue_sync p account = statement λ now ids db.
    enqueue_job db now (ids 0) p.user.id (some account) Kind.sync_account (of_sync account)

-- The validation of a new account; when it fails, the account is deleted again.
unfoldable pub validate_or_undo : ℕ → AccountValidation → Handler (Unit {0})
validate_or_undo account validation =
    try (statement λ now ids db. update_account_validation db now account validation) >>= λ r.
    elim r [
      | ok _ ↦ answer tt
      | err e ↦ try (statement λ now ids db. delete_cloud_account db account) >>= λ undone. refuse (
          if_unique (refusal 409 "provider_account_exists") (refusal 500 "account_validate_failed")
            e)
    ]

-- `createCloudAccount`
unfoldable pub link_account : Principal → Sender → Option NewAccount → Handler (CloudAccount × Job)
link_account p sender body = with_env λ env. do
  input ← decode_json body
  let name = trim_space input.name
  let token = trim_space input.token
  _ ←
      refuse_if (str_eq name "" || ltb 100 (len name) || str_eq token "")
        (refusal 400 "invalid_account")
  _ ← refuse_if (not input.full_access_confirmed) (refusal 400 "full_access_required")
  provider ← call token_refusal Client.account
  sealed ← call (always 500 "encryption_failed") (encrypt token "digitalocean_token")
  account ← call (if_unique (refusal 409 "token_exists") (refusal 500 "account_create_failed")) (
      statement λ now ids db.
        create_cloud_account db now (ids 0) p.user.id name sealed.0 sealed.1 (env.fingerprint token)
          true)
  _ ← validate_or_undo account.id (validation_of_account provider.0 provider.1)
  job ← call (always 500 "sync_enqueue_failed") (enqueue_sync p account.id)
  _ ←
      audit (some p) sender "cloud_account.create" "cloud_account" (env.id_text account.id)
        (some p.user.id)
  again ← try (query λ now db. get_cloud_account db account.id)
  answer (elim again [ ok a ↦ a | err e ↦ account ], job)

pub record NewToken : Type 0 where
  pub token : String
  pub full_access_confirmed : Bool

-- The account is another one than the provider's.
abbrev pub is_other_account : Option String → String → Bool
is_other_account none id = false
is_other_account (some known) id = not (str_eq known id)

-- `replaceCloudAccountToken`; the response holds the job, if there is one.
unfoldable pub replace_token :
    Principal → Sender → Option ℕ → Option NewToken → Handler (Result Job)
replace_token p sender account_id body = with_env λ env. do
  account ← authorized_account p account_id
  _ ← recently p
  input ← decode_json body
  _ ←
      refuse_if (str_eq (trim_space input.token) "" || not input.full_access_confirmed)
        (refusal 400 "token_required")
  provider ← call (always 400 "token_invalid") Client.account
  _ ←
      refuse_if (is_other_account account.provider_account_id (provider_id provider.0))
        (refusal 409 "provider_account_mismatch")
  sealed ← call (always 500 "encryption_failed") (encrypt input.token "digitalocean_token")
  _ ← call (if_unique (refusal 409 "token_exists") (refusal 500 "token_replace_failed")) (
      statement λ now ids db.
        replace_account_token db now account.id sealed.0 sealed.1 (env.fingerprint input.token)
          true)
  job ← try (enqueue_sync p account.id)
  _ ←
      audit (some p) sender "cloud_account.token_replace" "cloud_account" (env.id_text account.id)
        (some account.user_id)
  answer job

-- `syncCloudAccount`
unfoldable pub request_sync : Principal → Option ℕ → Handler Job
request_sync p account_id = do
  account ← authorized_account p account_id
  call (always 500 "sync_enqueue_failed") (enqueue_sync p account.id)

-- `deleteCloudAccount`; the body is the name that confirms.
unfoldable pub unlink_account : Principal → Sender → Option ℕ → Option String → Handler (Unit {0})
unlink_account p sender account_id body = with_env λ env. do
  account ← authorized_account p account_id
  _ ← recently p
  confirm_name ← decode_json body
  _ ← refuse_if (not (str_eq confirm_name account.name)) (refusal 400 "confirmation_mismatch")
  _ ←
      call (always 500 "account_delete_failed")
        (statement λ now ids db. delete_cloud_account db account.id)
  _ ←
      audit (some p) sender "cloud_account.delete" "cloud_account" (env.id_text account.id)
        (some account.user_id)
  answer tt
