-- ===== src/Worker/Accounts.antt =====
-- `accountClient`, `syncAccount` and `mapDroplet` of internal/worker/worker.go.
use batch_managementof_cloud.Digitalocean.Client
use batch_managementof_cloud.Prelude.{
  ℕ, List, Option, String, find_where, if◌then◌else◌, is_blank, length, map, map_some, none, not,
  pos_part, some, str_eq, trim_space, ℤ, ◌&&◌,
}
use batch_managementof_cloud.Model.Failure.{Error, Result, err, ok, wrap}
use batch_managementof_cloud.Model.Records.{
  CloudAccount, CredentialStatus, Droplet, Outcome, insufficient, invalid, synced, valid, JobState,
}
use batch_managementof_cloud.Store.Accounts.{
  AccountValidation, get_cloud_account, mark_account_synced, mark_account_validation_error,
  update_account_validation,
}
use batch_managementof_cloud.Store.Droplets.{upsert_droplets}
use batch_managementof_cloud.Store.Droplets.Sync.{written}
use batch_managementof_cloud.Provider.{Account, Balance, Instance, Network}
use batch_managementof_cloud.Effects.{
  Env, Program, attempt, pure, query, raise, statement, with_env, ◌>>=◌, ◌>>◌, decrypt,
}
use batch_managementof_cloud.Digitalocean.{RateInfo, is_status}
use batch_managementof_cloud.Digitalocean.Client.{list_droplets}

-- What a handler returns beside an error: the result, the state and the ids of its actions. A
-- handler that raises returns no result and the state `failed`.
pub record Report : Type 0 where
  pub result : Outcome
  pub state : JobState
  pub action_ids : List ℤ
  pub error : Option Error

-- `accountClient`: the account, and the error of its token if it cannot be decrypted.
unfoldable pub account_client : ℕ → Program (CloudAccount × Option Error)
account_client id = do
  account ← query (λ now db. get_cloud_account db id)
  token ← attempt (decrypt account.token_ciphertext account.token_nonce "digitalocean_token")
  pure (
    account,
    elim token [ ok plaintext ↦ none | err e ↦ some (wrap "decrypt DigitalOcean token" e) ],
  )

abbrev pub client_or_raise : CloudAccount × Option Error → Program CloudAccount
client_or_raise (account, none) = pure account
client_or_raise (account, some e) = raise e

-- The caller that gives up when there is no client.
unfoldable pub require_client : ℕ → Program CloudAccount
require_client id = account_client id >>= client_or_raise

-- `stringPointer`
abbrev pub string_pointer : String → Option String
string_pointer value = if is_blank (trim_space value) then none else some value

-- The first public address.
abbrev pub public_address : List Network → Option String
public_address networks =
    map_some (λ (n : Network). n.ip_address)
      (find_where (λ (n : Network). str_eq n.kind "public" && not (is_blank n.ip_address)) networks)

-- `mapDroplet`; the columns that it leaves are the zero values.
unfoldable pub map_droplet : CloudAccount → Instance → Droplet
map_droplet account remote = record {
  id = 0;
  user_id = account.user_id;
  account_id = account.id;
  provider_id = remote.id;
  name = remote.name;
  status = remote.status;
  locked = remote.locked;
  region_slug = string_pointer remote.region;
  size_slug = string_pointer remote.size_slug;
  vcpus = remote.vcpus;
  memory_mb = remote.memory;
  disk_gb = remote.disk;
  price_hourly = some remote.size.price_hourly;
  price_monthly = some remote.size.price_monthly;
  ipv4 = public_address remote.v4;
  ipv6 = public_address remote.v6;
  image = remote.image;
  features = remote.features;
  tags = remote.tags;
  vpc_uuid = string_pointer remote.vpc_uuid;
  project_id = none;
  raw = remote.raw;
  synced_at = 0;
  created_at = 0;
  updated_at = 0;
}

-- The id by which an account of the provider is known: its team's, if it has one.
abbrev pub provider_id_of : Account → String
provider_id_of provider = elim provider.team [
  | none ↦ provider.uuid
  | some (name, uuid) ↦ if is_blank uuid then provider.uuid else uuid
]

abbrev pub amount : Env → (Balance → String) → Result (Balance × RateInfo) → Option ℤ
amount env column (err e) = none
amount env column (ok (balance, rate)) = env.parse_float (column balance)

abbrev pub validation_of :
    Env → Account → RateInfo → Result (Balance × RateInfo) → AccountValidation
validation_of env provider rate reply = record {
  provider_account_id = provider_id_of provider;
  provider_email = provider.email;
  provider_status = provider.status;
  status_message = provider.status_message;
  credential_status = valid;
  account_limits = record {
    droplet_limit = provider.droplet_limit;
    floating_ip_limit = provider.floating_ip_limit;
  };
  account_balance = amount env (λ b. b.account_balance) reply;
  month_to_date_usage = amount env (λ b. b.month_to_date_usage) reply;
  month_to_date_balance = amount env (λ b. b.month_to_date_balance) reply;
  rate_remaining = rate.remaining;
  rate_reset_at = rate.reset_at;
  last_error = none;
}

-- A call whose error is dropped.
abbrev pub ignore : {A : Type 0} → Program A → Program (Unit {0})
ignore m = attempt m >>= λ r. pure tt

abbrev pub mark_error : ℕ → CredentialStatus → Error → Program (Unit {0})
mark_error id status e =
    ignore (statement (λ now ids db. mark_account_validation_error db now id status e))

abbrev pub with_context : {A : Type 0} → String → Program A → Program A
with_context prefix m = attempt m >>= elim [ ok a ↦ pure a | err e ↦ raise (wrap prefix e) ]

module _ (fuel : ℕ) where
  -- `syncAccount` from the provider's account on.
  unfoldable pub sync_provider : CloudAccount → Account → RateInfo → Program Outcome
  sync_provider account provider rate = do
    reply ← attempt Client.balance
    updated ← with_context "update account validation" (
        with_env λ env. statement λ now ids db.
          update_account_validation db now account.id (validation_of env provider rate reply))
    remote ← Client.list_droplets fuel
    written ← statement λ now ids db.
        upsert_droplets db now (λ p. ids (pos_part p)) account (map (map_droplet account) remote)
    marked ← statement λ now ids db. mark_account_synced db now account.id
    pure (synced account.id (length remote))

  -- What follows the provider's reply about the account.
  abbrev pub sync_reply : CloudAccount → Result (Account × RateInfo) → Program Outcome
  sync_reply account (err e) =
      mark_error account.id (if is_status e 403 then insufficient else invalid) e >> raise e
  sync_reply account (ok (provider, rate)) = sync_provider account provider rate

  abbrev pub sync_client : CloudAccount × Option Error → Program Outcome
  sync_client (account, some e) = mark_error account.id invalid e >> raise e
  sync_client (account, none) = attempt Client.account >>= sync_reply account

  -- `syncAccount`
  unfoldable pub sync_account : ℕ → Program Outcome
  sync_account id = account_client id >>= sync_client
