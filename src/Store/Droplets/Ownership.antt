-- ===== src/Store/Droplets/Ownership.antt =====
-- Who owns a droplet: internal/store/store.go writes the owner of an account to the account and to
-- each of its droplets, in `UpsertDroplets` and `TransferCloudAccount`.
use batch_managementof_cloud.Prelude.{
  ℕ, All, Bool, In, List, [], if◌then◌else◌, inl, inr, refl, update_where, ℤ, ◌==◌, ◌∷◌, ◌≡◌,
  All-append, All-delete_where, All-update_where, All-update_where_to, Bool-cases, ap, arith,
  exists_where, false, if_both, map, sym, true, ◌∙◌, length, not, ◌||◌,
}
use batch_managementof_cloud.Model.Failure.{Result, db_failure, err, foreign_key_violation, ok}
use batch_managementof_cloud.Model.Records.{CloudAccount, Droplet, User}
use batch_managementof_cloud.Store.{Db}
use batch_managementof_cloud.Store.Accounts.{transfer_cloud_account, of_account}
use batch_managementof_cloud.Store.Droplets.{
  upsert_droplets, fresh_row, is_gone, is_row, refresh, upsert_all, upsert_one, fits_columns,
  synced_db,
}

-- The owner of a droplet is the owner of its account.
abbrev pub Owned : List CloudAccount → Droplet → Type 0
Owned accounts d = (a : CloudAccount) → In a accounts → a.id ≡ d.account_id → d.user_id ≡ a.user_id

abbrev pub OwnersAgree : Db → Type 0
OwnersAgree db = All (Owned db.cloud_accounts) db.droplets

In-update_where :
    {A : Type 0} (p : A → Bool) (f : A → A) (xs : List A) (x : A)
    → In x (update_where p f xs)
    → (y : A) × In y xs × (x ≡ (if p y then f y else y))
In-update_where p f [] x i = absurd i
In-update_where p f (y ∷ xs) x (inl e) = (y, inl refl, e)
In-update_where p f (y ∷ xs) x (inr i) = let (z, j, e) = In-update_where p f xs x i in (z, inr j, e)

abbrev moved : ℕ → ℕ → ℕ → CloudAccount → CloudAccount
moved now account owner b =
    if b.id == account then record b { user_id = owner; updated_at = now } else b

moved_id : (now account owner : ℕ) (b : CloudAccount) → (moved now account owner b).id ≡ b.id
moved_id now account owner b = elim (Bool-cases (b.id == account)) [
  | inl k ↦ rw k refl
  | inr k ↦ rw k refl
]

moved_user :
    (now account owner : ℕ) (b : CloudAccount)
    → (moved now account owner b).user_id ≡ (if b.id == account then owner else b.user_id)
moved_user now account owner b = elim (Bool-cases (b.id == account)) [
  | inl k ↦ rw k refl
  | inr k ↦ rw k refl
]

transferred_account :
    (now account owner : ℕ) (accounts : List CloudAccount) (a : CloudAccount)
    → In a (
        update_where
          (λ a. a.id == account)
          (λ a. record a { user_id = owner; updated_at = now })
          accounts)
    → (b : CloudAccount) × In b accounts
      × (a.id ≡ b.id)
      × (a.user_id ≡ (if b.id == account then owner else b.user_id))
transferred_account now account owner accounts a i =
    let (b, j, e) =
      In-update_where (λ a. a.id == account) (λ a. record a { user_id = owner; updated_at = now })
        accounts a i in
    (
      b,
      j,
      ap (λ a. a.id) e ∙ moved_id now account owner b,
      ap (λ a. a.user_id) e ∙ moved_user now account owner b,
    )

hit :
    (now account owner : ℕ) (accounts : List CloudAccount) (d : Droplet)
    → of_account account d ≡ true
    → Owned
        (update_where
          (λ a. a.id == account)
          (λ a. record a { user_id = owner; updated_at = now })
          accounts)
        (record d { user_id = owner; updated_at = now })
hit now account owner accounts d k a i e =
    let (b, j, same, who) = transferred_account now account owner accounts a i in
    sym (who ∙ rw (inside b (sym same ∙ e)) refl)
  where
    inside : (b : CloudAccount) → b.id ≡ d.account_id → (b.id == account) ≡ true
    inside b e = rw e k

miss :
    (now account owner : ℕ) (accounts : List CloudAccount) (d : Droplet)
    → of_account account d ≡ false
    → Owned accounts d
    → Owned
        (update_where
          (λ a. a.id == account)
          (λ a. record a { user_id = owner; updated_at = now })
          accounts)
        d
miss now account owner accounts d k h a i e =
    let (b, j, same, who) = transferred_account now account owner accounts a i in
    h b j (sym same ∙ e) ∙ sym (who ∙ rw (out b (sym same ∙ e)) refl)
  where
    out : (b : CloudAccount) → b.id ≡ d.account_id → (b.id == account) ≡ false
    out b e = rw e k

-- `TransferCloudAccount` keeps the owner of every droplet the owner of its account, whether the
-- transfer is accepted or refused.
pub transfer_cloud_account-OwnersAgree :
    (db : Db) (now account owner : ℕ)
    → OwnersAgree db
    → OwnersAgree (transfer_cloud_account db now account owner).1
unfolding transfer_cloud_account
transfer_cloud_account-OwnersAgree db now account owner h =
    if_both (λ (r : Result (Unit {0}) × Db). OwnersAgree r.1)
      (exists_where (λ (u : User). u.id == owner) db.users) _ _
      (All-update_where_to (Owned db.cloud_accounts) _ (of_account account)
        (λ d. record d { user_id = owner; updated_at = now }) db.droplets
        (λ d k o. hit now account owner db.cloud_accounts d k)
        (λ d k o. miss now account owner db.cloud_accounts d k o) h)
      (if_both (λ (r : Result (Unit {0}) × Db). OwnersAgree r.1) _ _ _ h h)

upsert_one-Owned :
    (accounts : List CloudAccount) (now : ℕ) (ids : ℤ → ℕ) (account : CloudAccount) (d : Droplet)
    (rows : List Droplet)
    → ((a : CloudAccount) → In a accounts → a.id ≡ account.id → account.user_id ≡ a.user_id)
    → All (Owned accounts) rows
    → All (Owned accounts) (upsert_one now ids account d rows)
unfolding upsert_one
upsert_one-Owned accounts now ids account d rows current h =
    if_both (All (Owned accounts)) (exists_where (is_row account.id d.provider_id) rows) _ _
      (All-update_where (Owned accounts) (is_row account.id d.provider_id) (refresh now account d)
        rows (λ r k o a i e. current a i (e ∙ of_row r k)) h)
      (All-append (Owned accounts) rows (fresh_row now ids account d ∷ []) h
        ((λ a i e. current a i e), tt))
  where
    of_row : (r : Droplet) → is_row account.id d.provider_id r ≡ true → r.account_id ≡ account.id
    of_row r k = ground arith

upsert_all-Owned :
    (accounts : List CloudAccount) (now : ℕ) (ids : ℤ → ℕ) (account : CloudAccount)
    (ds rows : List Droplet)
    → ((a : CloudAccount) → In a accounts → a.id ≡ account.id → account.user_id ≡ a.user_id)
    → All (Owned accounts) rows
    → All (Owned accounts) (upsert_all now ids account ds rows)
unfolding upsert_all
upsert_all-Owned accounts now ids account [] rows current h = h
upsert_all-Owned accounts now ids account (d ∷ ds) rows current h =
    upsert_all-Owned accounts now ids account ds (upsert_one now ids account d rows) current
      (upsert_one-Owned accounts now ids account d rows current h)

-- A sync keeps the owner of every droplet the owner of its account if the account that it was given
-- still has its owner: `UpsertDroplets` writes the owner of the account it was called with.
pub upsert_droplets-OwnersAgree :
    (db : Db) (now : ℕ) (ids : ℤ → ℕ) (account : CloudAccount) (droplets : List Droplet)
    → ((a : CloudAccount)
        → In a db.cloud_accounts
        → a.id ≡ account.id
        → account.user_id ≡ a.user_id)
    → OwnersAgree db
    → OwnersAgree (upsert_droplets db now ids account droplets).1
unfolding upsert_droplets
upsert_droplets-OwnersAgree db now ids account droplets current h =
    let P = λ (r : Result (Unit {0}) × Db). OwnersAgree r.1 in
    if_both P (exists_where (λ (d : Droplet). not (fits_columns d)) droplets) (err db_failure, db) _
      h
      (if_both P
        (exists_where (λ (a : CloudAccount). a.id == account.id) db.cloud_accounts
          || length droplets == 0)
        (ok tt, synced_db db now ids account droplets) (err foreign_key_violation, db)
        (All-delete_where (Owned db.cloud_accounts)
          (is_gone account.id (map (λ (d : Droplet). d.provider_id) droplets)) _
          (upsert_all-Owned db.cloud_accounts now ids account droplets db.droplets current h))
        h)
