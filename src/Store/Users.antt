-- ===== src/Store/Users.antt =====
-- The `users` table: `CreateUser`, `GetUserByEmail`, `GetUserByID`, `ActivateUser`, `ListUsers`,
-- `UpdateUserAdmin` and `ActiveAdminCount` of internal/store/store.go.
pub mod Counts
use batch_managementof_cloud.Prelude.{
  Bool, List, Option, String, [], coalesce, count_where, exists_where, find_where, if◌then◌else◌,
  leb_ℤ, none, not, pos, some, str_eq, to_lower, trim_space, true, update_where, ℕ, ℤ, ◌&&◌, ◌++◌,
  ◌==◌, ◌||◌, ◌∷◌, ap, ◌≡◌,
}
use batch_managementof_cloud.Model.Failure.{
  Result, check_violation, err, not_found, ok, unique_violation,
}
use batch_managementof_cloud.Model.Records.{Role, Status, User, admin, is_active, is_admin, user}
use batch_managementof_cloud.Store.{Db, Setting, of_default_quota}

-- `strings.ToLower(strings.TrimSpace(email))`
abbrev pub normal_email : String → String
normal_email email = to_lower (trim_space email)

-- The members of the setting `default_quota`, in the order droplets, vcpus, memory.
abbrev pub default_quota : List Setting → Option ℤ × Option ℤ × Option ℤ
default_quota [] = (none, none, none)
default_quota (s ∷ rest) =
    let tail = default_quota rest in
    if str_eq s.key "default_quota"
    then elim s.value [ of_default_quota d v m ↦ (d, v, m) | _ ↦ (none, none, none) ]
    else tail

-- The columns are INTEGER with `CHECK (… IS NULL OR … >= 0)`.
abbrev pub fits_quota : Option ℤ → Bool
fits_quota none = true
fits_quota (some q) = leb_ℤ (pos 0) q && leb_ℤ q (pos 2147483647)

abbrev pub fits_quotas : Option ℤ → Option ℤ → Option ℤ → Bool
fits_quotas d v m = fits_quota d && fits_quota v && fits_quota m

abbrev pub when_user : Role → Option ℤ → Option ℤ
when_user user q = q
when_user admin q = none

-- `CreateUser`. The id is the one that `gen_random_uuid()` gives.
unfoldable pub create_user : Db → ℕ → ℕ → String → String → Role → Status → Result User × Db
create_user db now id email password_hash role status =
    let (d, v, m) = default_quota db.system_settings in
    let row : User = record {
      id = id;
      email = normal_email email;
      password_hash = password_hash;
      role = role;
      status = status;
      email_verified_at = if is_active status then some now else none;
      quota_droplets = when_user role d;
      quota_vcpus = when_user role v;
      quota_memory_mb = when_user role m;
      created_at = now;
      updated_at = now;
    } in
    if exists_where (λ (u : User). str_eq u.email row.email || u.id == id) db.users
    then (err unique_violation, db)
    else if not (fits_quotas row.quota_droplets row.quota_vcpus row.quota_memory_mb)
    then (err check_violation, db)
    else (ok row, record db { users = db.users ++ row ∷ [] })

abbrev pub found : {A : Type 0} → Option A → Result A
found none = err not_found
found (some a) = ok a

pub found_ok : {A : Type 0} (o : Option A) (a : A) → found o ≡ ok a → o ≡ some a
found_ok {A = A} none a h = cc
found_ok {A = A} (some b) a h = ap some (same h)
  where
    same : ◌≡◌ {A = Result A} (ok b) (ok a) → b ≡ a
    same h = cc

-- `GetUserByEmail`
unfoldable pub get_user_by_email : Db → String → Result User
get_user_by_email db email = found (find_where (λ u. str_eq u.email (normal_email email)) db.users)

-- `GetUserByID`
unfoldable pub get_user_by_id : Db → ℕ → Result User
get_user_by_id db id = found (find_where (λ u. u.id == id) db.users)

-- `ActivateUser`
unfoldable pub activate_user : Db → ℕ → ℕ → Result (Unit {0}) × Db
activate_user db now id =
    if exists_where (λ (u : User). u.id == id) db.users
    then (
      ok tt,
      record db {
        users =
            update_where (λ u. u.id == id)
              (λ u. record u {
                status = Status.active;
                email_verified_at = some (coalesce u.email_verified_at now);
                updated_at = now;
              })
              db.users;
      },
    )
    else (err not_found, db)

-- `UserAdminUpdate`: each field may be left alone, and a quota may be set to null.
pub record UserAdminUpdate : Type 0 where
  pub role : Option Role
  pub status : Option Status
  pub quota_droplets : Option (Option ℤ)
  pub quota_vcpus : Option (Option ℤ)
  pub quota_memory_mb : Option (Option ℤ)

abbrev pub apply_update : ℕ → UserAdminUpdate → User → User
apply_update now c u = record u {
  role = coalesce c.role u.role;
  status = coalesce c.status u.status;
  quota_droplets = coalesce c.quota_droplets u.quota_droplets;
  quota_vcpus = coalesce c.quota_vcpus u.quota_vcpus;
  quota_memory_mb = coalesce c.quota_memory_mb u.quota_memory_mb;
  updated_at = now;
}

-- The update of the row that was found, if its quotas pass the CHECK constraints.
abbrev pub update_found : Db → ℕ → ℕ → UserAdminUpdate → Option User → Result User × Db
update_found db now id change none = (err not_found, db)
update_found db now id change (some u) =
    let row = apply_update now change u in
    if fits_quotas row.quota_droplets row.quota_vcpus row.quota_memory_mb
    then (
      ok row,
      record db { users = update_where (λ v. v.id == id) (apply_update now change) db.users },
    )
    else (err check_violation, db)

-- `UpdateUserAdmin`, which returns the updated row.
unfoldable pub update_user_admin : Db → ℕ → ℕ → UserAdminUpdate → Result User × Db
update_user_admin db now id change =
    update_found db now id change (find_where (λ u. u.id == id) db.users)

abbrev pub is_active_admin : User → Bool
is_active_admin u = is_admin u.role && is_active u.status

-- `ActiveAdminCount`
unfoldable pub active_admin_count : Db → ℕ
active_admin_count db = count_where is_active_admin db.users
