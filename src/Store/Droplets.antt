-- ===== src/Store/Droplets.antt =====
-- The `droplets` and `managed_credentials` tables: the methods on droplets and root passwords of
-- internal/store/store.go.
pub mod Sync
pub mod Ownership
use batch_managementof_cloud.Prelude.{
  Bool, List, Option, String, [], delete_where, exists_where, find_where, if◌then◌else◌, length,
  map, none, not, pos, select, some, update_where, ℕ, ℤ, ◌&&◌, ◌++◌, ◌+ℤ◌, ◌==ℤ◌, ◌==◌, ◌||◌, ◌∷◌,
  leb_ℤ, negsuc,
}
use batch_managementof_cloud.Model.Failure.{
  Result, err, foreign_key_violation, not_found, ok, db_failure,
}
use batch_managementof_cloud.Model.Records.{CloudAccount, Droplet, User}
use batch_managementof_cloud.Store.{Credential, Db, SecretStatus, stale}
use batch_managementof_cloud.Store.Accounts.{of_droplets}
use batch_managementof_cloud.Store.Users.{found}

abbrev pub is_row : ℕ → ℤ → Droplet → Bool
is_row account provider_id d = d.account_id == account && d.provider_id ==ℤ provider_id

-- The row of a droplet of the provider, if the account has one.
unfoldable pub row_of : ℕ → ℤ → List Droplet → Option Droplet
row_of account provider_id = find_where (is_row account provider_id)

-- `DO UPDATE SET …`: the columns that a sync writes. The id, the project and the creation time stay.
abbrev pub refresh : ℕ → CloudAccount → Droplet → Droplet → Droplet
refresh now account d row = record row {
  user_id = account.user_id;
  name = d.name;
  status = d.status;
  locked = d.locked;
  region_slug = d.region_slug;
  size_slug = d.size_slug;
  vcpus = d.vcpus;
  memory_mb = d.memory_mb;
  disk_gb = d.disk_gb;
  price_hourly = d.price_hourly;
  price_monthly = d.price_monthly;
  ipv4 = d.ipv4;
  ipv6 = d.ipv6;
  image = d.image;
  features = d.features;
  tags = d.tags;
  vpc_uuid = d.vpc_uuid;
  raw = d.raw;
  synced_at = now;
  updated_at = now;
}

-- The row of the INSERT. `ids` gives the id that `gen_random_uuid()` makes for a new droplet.
abbrev pub fresh_row : ℕ → (ℤ → ℕ) → CloudAccount → Droplet → Droplet
fresh_row now ids account d = record d {
  id = ids d.provider_id;
  user_id = account.user_id;
  account_id = account.id;
  project_id = none;
  synced_at = now;
  created_at = now;
  updated_at = now;
}

-- `INSERT … ON CONFLICT(account_id,provider_id) DO UPDATE SET …`
unfoldable pub upsert_one : ℕ → (ℤ → ℕ) → CloudAccount → Droplet → List Droplet → List Droplet
upsert_one now ids account d rows =
    if exists_where (is_row account.id d.provider_id) rows
    then update_where (is_row account.id d.provider_id) (refresh now account d) rows
    else rows ++ fresh_row now ids account d ∷ []

unfoldable pub upsert_all : ℕ → (ℤ → ℕ) → CloudAccount → List Droplet → List Droplet → List Droplet
upsert_all now ids account [] rows = rows
upsert_all now ids account (d ∷ ds) rows =
    upsert_all now ids account ds (upsert_one now ids account d rows)

abbrev pub mem_id : ℤ → List ℤ → Bool
mem_id p = exists_where (λ (q : ℤ). q ==ℤ p)

-- The condition of the DELETE at the end of a sync.
abbrev pub is_gone : ℕ → List ℤ → Droplet → Bool
is_gone account listed d =
    if length listed == 0
    then d.account_id == account
    else d.account_id == account && not (mem_id d.provider_id listed)

-- The columns of type INTEGER can hold the droplet's numbers.
abbrev pub fits_columns : Droplet → Bool
fits_columns d = is_int32 d.vcpus && is_int32 d.memory_mb && is_int32 d.disk_gb
  where
    is_int32 : ℤ → Bool
    is_int32 n = leb_ℤ (negsuc 2147483647) n && leb_ℤ n (pos 2147483647)

-- The writes and the deletion of `UpsertDroplets`: every droplet of the provider is written, and the
-- rows of the account that the provider did not list are deleted, with their credentials.
abbrev pub synced_db : Db → ℕ → (ℤ → ℕ) → CloudAccount → List Droplet → Db
synced_db db now ids account droplets =
    let gone = is_gone account.id (map (λ (d : Droplet). d.provider_id) droplets) in
    let rows = upsert_all now ids account droplets db.droplets in
    record db {
      droplets = delete_where gone rows;
      managed_credentials = delete_where (of_droplets (select gone rows)) db.managed_credentials;
    }

-- `UpsertDroplets`, one transaction, which a number that does not fit its column or an account that
-- is gone undoes.
unfoldable pub upsert_droplets :
    Db → ℕ → (ℤ → ℕ) → CloudAccount → List Droplet → Result (Unit {0}) × Db
upsert_droplets db now ids account droplets =
    if exists_where (λ (d : Droplet). not (fits_columns d)) droplets
    then (err db_failure, db)
    else if exists_where (λ (a : CloudAccount). a.id == account.id) db.cloud_accounts
        || length droplets == 0
    then (ok tt, synced_db db now ids account droplets)
    else (err foreign_key_violation, db)

-- `GetDroplet`
unfoldable pub get_droplet : Db → ℕ → Result Droplet
get_droplet db id = found (find_where (λ d. d.id == id) db.droplets)

-- `GetDropletByProviderID`
unfoldable pub get_droplet_by_provider_id : Db → ℕ → ℤ → Result Droplet
get_droplet_by_provider_id db account provider_id = found (row_of account provider_id db.droplets)

-- `SetDropletProject`
unfoldable pub set_droplet_project : Db → ℕ → ℕ → ℤ → String → Result (Unit {0}) × Db
set_droplet_project db now account provider_id project_id =
    if exists_where (is_row account provider_id) db.droplets
    then (
      ok tt,
      record db {
        droplets =
            update_where (is_row account provider_id)
              (λ d. record d { project_id = some project_id; updated_at = now }) db.droplets;
      },
    )
    else (err not_found, db)

-- `MarkRootCredentialStale`
unfoldable pub mark_root_credential_stale : Db → ℕ → ℕ → Db
mark_root_credential_stale db now droplet = record db {
  managed_credentials =
      update_where (λ c. c.droplet_id == droplet)
        (λ c. record c { status = stale; updated_at = now }) db.managed_credentials;
}

-- `UpsertRootCredential`
unfoldable pub upsert_root_credential : Db → ℕ → ℕ → ℕ → String → String → Result (Unit {0}) × Db
upsert_root_credential db now owner droplet ciphertext nonce =
    let row : Credential = record {
      user_id = owner;
      droplet_id = droplet;
      ciphertext = ciphertext;
      nonce = nonce;
      status = SecretStatus.active;
      updated_at = now;
    } in
    if not (exists_where (λ (u : User). u.id == owner) db.users)
      || not (exists_where (λ (d : Droplet). d.id == droplet) db.droplets)
    then (err foreign_key_violation, db)
    else if exists_where (λ (c : Credential). c.droplet_id == droplet) db.managed_credentials
    then (
      ok tt,
      record db {
        managed_credentials =
            update_where (λ c. c.droplet_id == droplet) (λ c. row) db.managed_credentials;
      },
    )
    else (ok tt, record db { managed_credentials = db.managed_credentials ++ row ∷ [] })

-- `RootCredential`
unfoldable pub root_credential : Db → ℕ → Result (String × String × SecretStatus)
root_credential db droplet =
    elim (find_where (λ c. c.droplet_id == droplet) db.managed_credentials) [
      | none ↦ err not_found
      | some c ↦ ok (c.ciphertext, c.nonce, c.status)
    ]

-- `COALESCE(sum(column),0)`
abbrev pub sum_ℤ : (Droplet → ℤ) → List Droplet → ℤ
sum_ℤ column [] = pos 0
sum_ℤ column (d ∷ ds) = column d +ℤ sum_ℤ column ds

-- `UserUsage`: how many droplets a user has, and their cpus and memory.
unfoldable pub user_usage : Db → ℕ → ℕ × ℤ × ℤ
user_usage db owner =
    let mine = select (λ (d : Droplet). d.user_id == owner) db.droplets in
    (length mine, sum_ℤ (λ d. d.vcpus) mine, sum_ℤ (λ d. d.memory_mb) mine)
