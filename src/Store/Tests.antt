-- ===== src/Store/Tests.antt =====
-- Runs of internal/store/store.go on a small database, and the theorems at concrete data.
mod Jobs
use batch_managementof_cloud.Prelude.{
  In, [], ap, arith, false, if◌then◌else◌, inl, inr, ltb, none, pos, refl, some, str_eq, sym, true,
  ◌∷◌, ◌≡◌, ◌≢◌, ◌==◌,
}
use batch_managementof_cloud.Model.Failure.{Result, err, not_found, ok}
use batch_managementof_cloud.Model.Json.{Json, null}
use batch_managementof_cloud.Model.Records.{
  CloudAccount, Droplet, Role, Session, Status, User, unverified, user,
}
use batch_managementof_cloud.Store.{Db, TokenRow, verify_email, empty_db}
use batch_managementof_cloud.Store.Accounts.{transfer_cloud_account}
use batch_managementof_cloud.Store.Droplets.{
  upsert_droplets, mem_id, row_of, upsert_all, upsert_one,
}
use batch_managementof_cloud.Store.Droplets.Ownership.{
  OwnersAgree, transfer_cloud_account-OwnersAgree, upsert_droplets-OwnersAgree,
}
use batch_managementof_cloud.Store.Droplets.Sync.{synced_row, upsert_droplets-synced}
use batch_managementof_cloud.Store.Sessions.{
  create_session, delete_session, session_user, truncate, update_password,
}
use batch_managementof_cloud.Store.Sessions.Ends.{
  create_session-session_user, delete_session-session_user, update_password-others,
  update_password-session_user,
}
use batch_managementof_cloud.Store.Tokens.{consume_one_time_token}
use batch_managementof_cloud.Store.Tokens.Once.{consume_one_time_token-once}

abbrev pub ada : User
ada = record {
  id = 1;
  email = "ada@example.com";
  password_hash = "h";
  role = Role.user;
  status = Status.active;
  email_verified_at = some 3;
  quota_droplets = some (pos 5);
  quota_vcpus = none;
  quota_memory_mb = none;
  created_at = 3;
  updated_at = 3;
}

abbrev pub bob : User
bob = record ada { id = 2; email = "bob@example.com" }

abbrev pub linked : CloudAccount
linked = record {
  id = 10;
  user_id = 1;
  name = "main";
  provider_account_id = none;
  provider_email = none;
  provider_status = none;
  status_message = none;
  credential_status = unverified;
  account_limits = none;
  account_balance = none;
  month_to_date_usage = none;
  month_to_date_balance = none;
  rate_limit_remaining = none;
  rate_limit_reset_at = none;
  last_validated_at = none;
  last_synced_at = none;
  last_error = none;
  full_access_confirmed = true;
  created_at = 4;
  updated_at = 4;
  token_ciphertext = "c";
  token_nonce = "n";
  token_fingerprint = "f";
}

abbrev pub web : Droplet
web = record {
  id = 100;
  user_id = 1;
  account_id = 10;
  provider_id = pos 555;
  name = "web";
  status = "active";
  locked = false;
  region_slug = some "nyc3";
  size_slug = some "s-1vcpu-1gb";
  vcpus = pos 1;
  memory_mb = pos 1024;
  disk_gb = pos 25;
  price_hourly = none;
  price_monthly = none;
  ipv4 = none;
  ipv6 = none;
  image = Json.null;
  features = Json.null;
  tags = [];
  vpc_uuid = none;
  project_id = some "p";
  raw = Json.null;
  synced_at = 5;
  created_at = 5;
  updated_at = 5;
}

abbrev pub small : Db
small = record empty_db {
  users = ada ∷ bob ∷ [];
  cloud_accounts = linked ∷ [];
  droplets = web ∷ [];
}

abbrev token : TokenRow
token = record {
  id = 1;
  user_id = 1;
  purpose = verify_email;
  token_hash = "t";
  expires_at = 100;
  consumed_at = none;
  created_at = 3;
}

consume_one_time_token-once_example :
    consume_one_time_token
      (consume_one_time_token (record small { one_time_tokens = token ∷ [] }) 5 "t" verify_email).1
      6
      "t"
      verify_email
    ≡ (
      err not_found,
      (consume_one_time_token (record small { one_time_tokens = token ∷ [] }) 5 "t" verify_email).1,
    )
consume_one_time_token-once_example =
    consume_one_time_token-once (record small { one_time_tokens = token ∷ [] }) 5 6 "t" verify_email
      (omega arith)

abbrev opened : Session
opened = record { id = 50; user_id = 1; recent_auth_at = 9; expires_at = 29 }

abbrev with_session : Db
with_session = record small {
  sessions =
      record {
        id = 50;
        user_id = 1;
        token_hash = "s";
        ip_address = none;
        user_agent = "x";
        recent_auth_at = 9;
        expires_at = 29;
        created_at = 9;
      }
      ∷ [];
}

abbrev created : Result Session × Db
unfolding create_session truncate
created = create_session small 9 50 1 "s" none "x" 20

create_session-session_user_example :
    (u : User) × In u small.users
    × (u.id ≡ 1)
    × (session_user created.1 12 "s" ≡ (if ltb 12 29 then ok (opened, u) else err not_found))
unfolding created
create_session-session_user_example =
    create_session-session_user small created.1 9 50 1 12 "s" none "x" 20 opened refl

delete_session-session_user_example :
    session_user (delete_session with_session "other") 12 "s"
    ≡ (if str_eq "other" "s" then err not_found else session_user with_session 12 "s")
delete_session-session_user_example = delete_session-session_user with_session 12 "other" "s"

update_password-session_user_example : opened.user_id ≢ 2
unfolding session_user update_password
update_password-session_user_example =
    update_password-session_user with_session 11 12 2 "new" "s" opened ada refl

update_password-others_example :
    session_user (update_password with_session 11 2 "new") 12 "s" ≡ ok (opened, ada)
unfolding session_user
update_password-others_example =
    update_password-others with_session 11 12 2 "new" "s" opened ada refl (λ e. omega (arith, e))

agreed : OwnersAgree small
agreed = ((λ a. elim [ inl p ↦ λ e. ap (λ a. a.user_id) (sym p) | inr i ↦ λ e. absurd i ]), tt)

transfer_cloud_account-OwnersAgree_example : OwnersAgree (transfer_cloud_account small 7 10 2).1
transfer_cloud_account-OwnersAgree_example = transfer_cloud_account-OwnersAgree small 7 10 2 agreed

upsert_droplets-OwnersAgree_example :
    OwnersAgree (upsert_droplets small 7 (λ p. 200) linked (web ∷ [])).1
upsert_droplets-OwnersAgree_example =
    upsert_droplets-OwnersAgree small 7 (λ p. 200) linked (web ∷ [])
      (λ a. elim [ inl p ↦ λ e. ap (λ a. a.user_id) (sym p) | inr i ↦ λ e. absurd i ]) agreed

upsert_droplets-synced_example :
    row_of 10 (pos 555) (upsert_droplets small 7 (λ p. 200) linked (web ∷ [])).1.droplets ≡ (
      if 10 == 10
      then if mem_id (pos 555) (pos 555 ∷ [])
        then synced_row 7 (λ p. 200) linked (pos 555) (web ∷ []) (row_of 10 (pos 555) (web ∷ []))
        else none
      else row_of 10 (pos 555) (web ∷ []))
unfolding upsert_droplets upsert_all upsert_one
upsert_droplets-synced_example =
    upsert_droplets-synced 7 (λ p. 200) linked small
      (upsert_droplets small 7 (λ p. 200) linked (web ∷ [])).1 (web ∷ []) 10 (pos 555) refl
