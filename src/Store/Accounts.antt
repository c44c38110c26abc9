-- ===== src/Store/Accounts.antt =====
-- The `cloud_accounts` table: the methods on cloud accounts of internal/store/store.go.
use batch_managementof_cloud.Prelude.{
  Bool, List, Option, String, [], delete_where, exists_where, false, find_where, if◌then◌else◌,
  is_blank, is_just, leb, none, not, select, some, str_eq, trim_space, update_where, ℕ, ℤ, ◌&&◌,
  ◌++◌, ◌==◌, ◌||◌, ◌∷◌,
}
use batch_managementof_cloud.Model.Failure.{
  Error, Result, err, foreign_key_violation, not_found, ok, unique_violation,
}
use batch_managementof_cloud.Model.Records.{
  CloudAccount, CredentialStatus, Droplet, Limits, User, unverified,
}
use batch_managementof_cloud.Store.{Credential, Db}
use batch_managementof_cloud.Store.Users.{found}

-- The provider account is unique in the system (`provider_account_id TEXT UNIQUE`), and so is the
-- token (`cloud_accounts_token_fingerprint_idx`).
abbrev pub same_text : Option String → Option String → Bool
same_text (some a) (some b) = str_eq a b
same_text _ _ = false

-- `CreateCloudAccount`. The id is the one that `gen_random_uuid()` gives.
unfoldable pub create_cloud_account :
    Db → ℕ → ℕ → ℕ → String → String → String → String → Bool → Result CloudAccount × Db
create_cloud_account db now id owner name ciphertext nonce fingerprint full_access =
    let row : CloudAccount = record {
      id = id;
      user_id = owner;
      name = trim_space name;
      provider_account_id = none;
      provider_email = none;
      provider_status = none;
      status_message = none;
      credential_status = unverified;
      account_limits = none;
      account_balance = none;
      month_to_date_usage = none;
      month_to_date_balance = none;
      rate_limit_remaining = none;
      rate_limit_reset_at = none;
      last_validated_at = none;
      last_synced_at = none;
      last_error = none;
      full_access_confirmed = full_access;
      created_at = now;
      updated_at = now;
      token_ciphertext = ciphertext;
      token_nonce = nonce;
      token_fingerprint = fingerprint;
    } in
    if exists_where (λ (a : CloudAccount). str_eq a.token_fingerprint fingerprint || a.id == id)
      db.cloud_accounts
    then (err unique_violation, db)
    else if exists_where (λ (u : User). u.id == owner) db.users
    then (ok row, record db { cloud_accounts = db.cloud_accounts ++ row ∷ [] })
    else (err foreign_key_violation, db)

-- `GetCloudAccount`
unfoldable pub get_cloud_account : Db → ℕ → Result CloudAccount
get_cloud_account db id = found (find_where (λ a. a.id == id) db.cloud_accounts)

abbrev pub newer_account : CloudAccount → CloudAccount → Bool
newer_account a b = leb b.created_at a.created_at

-- `ORDER BY created_at DESC`
abbrev pub insert_newest : CloudAccount → List CloudAccount → List CloudAccount
insert_newest a [] = a ∷ []
insert_newest a (b ∷ bs) =
    let rest = insert_newest a bs in if newer_account a b then a ∷ b ∷ bs else b ∷ rest

abbrev pub newest_first : List CloudAccount → List CloudAccount
newest_first [] = []
newest_first (a ∷ accounts) = insert_newest a (newest_first accounts)

-- `ListCloudAccounts`: an administrator sees all, anybody else his own.
unfoldable pub list_cloud_accounts : Db → ℕ → Bool → List CloudAccount
list_cloud_accounts db owner everyone =
    newest_first
      (if everyone then db.cloud_accounts else select (λ a. a.user_id == owner) db.cloud_accounts)

-- `AccountValidation`
pub record AccountValidation : Type 0 where
  pub provider_account_id : String
  pub provider_email : String
  pub provider_status : String
  pub status_message : String
  pub credential_status : CredentialStatus
  pub account_limits : Limits
  pub account_balance : Option ℤ
  pub month_to_date_usage : Option ℤ
  pub month_to_date_balance : Option ℤ
  pub rate_remaining : Option ℤ
  pub rate_reset_at : Option ℕ
  pub last_error : Option Error

-- `NULLIF(value, '')`
abbrev pub nullif_blank : String → Option String
nullif_blank s = if is_blank s then none else some s

abbrev pub validate : ℕ → AccountValidation → CloudAccount → CloudAccount
validate now v a = record a {
  provider_account_id = nullif_blank v.provider_account_id;
  provider_email = nullif_blank v.provider_email;
  provider_status = nullif_blank v.provider_status;
  status_message = nullif_blank v.status_message;
  credential_status = v.credential_status;
  account_limits = some v.account_limits;
  account_balance = v.account_balance;
  month_to_date_usage = v.month_to_date_usage;
  month_to_date_balance = v.month_to_date_balance;
  rate_limit_remaining = v.rate_remaining;
  rate_limit_reset_at = v.rate_reset_at;
  last_error = v.last_error;
  last_validated_at = some now;
  updated_at = now;
}

-- `UpdateAccountValidation`. The unique index refuses a provider account that another row has.
unfoldable pub update_account_validation : Db → ℕ → ℕ → AccountValidation → Result (Unit {0}) × Db
update_account_validation db now id v =
    if exists_where (λ (a : CloudAccount). a.id == id) db.cloud_accounts
      && exists_where
          (λ (a : CloudAccount).
            not (a.id == id)
            && same_text a.provider_account_id (nullif_blank v.provider_account_id))
          db.cloud_accounts
    then (err unique_violation, db)
    else (
      ok tt,
      record db {
        cloud_accounts = update_where (λ a. a.id == id) (validate now v) db.cloud_accounts;
      },
    )

-- An UPDATE of one account whose caller tests `RowsAffected()`.
abbrev pub update_account : Db → ℕ → (CloudAccount → CloudAccount) → Result (Unit {0}) × Db
update_account db id f =
    if exists_where (λ (a : CloudAccount). a.id == id) db.cloud_accounts
    then (ok tt, record db { cloud_accounts = update_where (λ a. a.id == id) f db.cloud_accounts })
    else (err not_found, db)

-- `MarkAccountValidationError`
unfoldable pub mark_account_validation_error :
    Db → ℕ → ℕ → CredentialStatus → Error → Result (Unit {0}) × Db
mark_account_validation_error db now id status message = update_account db id λ a. record a {
  credential_status = status;
  last_error = some message;
  last_validated_at = some now;
  updated_at = now;
}

-- `MarkAccountSynced`
unfoldable pub mark_account_synced : Db → ℕ → ℕ → Result (Unit {0}) × Db
mark_account_synced db now id =
    update_account db id λ a. record a { last_synced_at = some now; updated_at = now }

-- `ReplaceAccountToken`
unfoldable pub replace_account_token :
    Db → ℕ → ℕ → String → String → String → Bool → Result (Unit {0}) × Db
replace_account_token db now id ciphertext nonce fingerprint full_access =
    if exists_where (λ (a : CloudAccount). a.id == id) db.cloud_accounts
      && exists_where
          (λ (a : CloudAccount). not (a.id == id) && str_eq a.token_fingerprint fingerprint)
          db.cloud_accounts
    then (err unique_violation, db)
    else (
      ok tt,
      record db {
        cloud_accounts =
            update_where (λ a. a.id == id)
              (λ a. record a {
                token_ciphertext = ciphertext;
                token_nonce = nonce;
                token_fingerprint = fingerprint;
                full_access_confirmed = full_access;
                credential_status = unverified;
                last_error = none;
                updated_at = now;
              })
              db.cloud_accounts;
      },
    )

-- A droplet stands in the account.
abbrev pub of_account : ℕ → Droplet → Bool
of_account account d = d.account_id == account

-- A credential belongs to one of the droplets.
abbrev pub of_droplets : List Droplet → Credential → Bool
of_droplets droplets c = exists_where (λ (d : Droplet). d.id == c.droplet_id) droplets

-- `DeleteCloudAccount`, with what `ON DELETE CASCADE` takes along: the account's droplets, their
-- credentials and the account's jobs.
unfoldable pub delete_cloud_account : Db → ℕ → Result (Unit {0}) × Db
delete_cloud_account db id =
    if exists_where (λ (a : CloudAccount). a.id == id) db.cloud_accounts
    then (
      ok tt,
      record db {
        cloud_accounts = delete_where (λ a. a.id == id) db.cloud_accounts;
        droplets = delete_where (of_account id) db.droplets;
        managed_credentials =
            delete_where (of_droplets (select (of_account id) db.droplets)) db.managed_credentials;
        jobs = delete_where (λ j. is_just j.account_id id) db.jobs;
      },
    )
    else (err not_found, db)

-- `TransferCloudAccount`: the account, its droplets and their credentials, in one transaction.
unfoldable pub transfer_cloud_account : Db → ℕ → ℕ → ℕ → Result (Unit {0}) × Db
transfer_cloud_account db now account owner =
    if exists_where (λ (u : User). u.id == owner) db.users
    then (
      ok tt,
      record db {
        cloud_accounts =
            update_where (λ a. a.id == account)
              (λ a. record a { user_id = owner; updated_at = now }) db.cloud_accounts;
        droplets =
            update_where (of_account account) (λ d. record d { user_id = owner; updated_at = now })
              db.droplets;
        managed_credentials =
            update_where (of_droplets (select (of_account account) db.droplets))
              (λ c. record c { user_id = owner; updated_at = now }) db.managed_credentials;
      },
    )
    else if exists_where (λ (a : CloudAccount). a.id == account) db.cloud_accounts
        || exists_where (of_account account) db.droplets
    then (err foreign_key_violation, db)
    else (ok tt, db)
