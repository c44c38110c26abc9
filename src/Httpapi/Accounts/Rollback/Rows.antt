-- ===== src/Httpapi/Accounts/Rollback/Rows.antt =====
-- The row of a new account in its table, from its insertion to its deletion.
use mathlib.Core.List.{append-nil}
use batch_managementof_cloud.Prelude.{
  ◌≡◌, ==_refl, Bool, List, String, [], ap, arith, delete_where, exists_where, false, if◌then◌else◌,
  refl, str_eq, subst, sym, true, ℕ, ◌++◌, ◌==◌, ◌||◌, ◌∙◌, ◌∷◌,
}
use batch_managementof_cloud.Model.Failure.{
  Error, Result, err, foreign_key_violation, ok, unique_violation,
}
use batch_managementof_cloud.Model.Records.{CloudAccount}
use batch_managementof_cloud.Store.{Db}
use batch_managementof_cloud.Store.Accounts.{
  AccountValidation, create_cloud_account, delete_cloud_account, update_account_validation,
}

-- A new row, and that no other has its id.
created :
    (taken there : Bool) (db db' after : Db) (row a : CloudAccount)
    → ◌≡◌ {A = Result CloudAccount × Db}
        (if taken
          then (err unique_violation, db)
          else if there
          then (ok row, db')
          else (err foreign_key_violation, db))
        (ok a, after)
    → (taken ≡ false) × (row ≡ a) × (db' ≡ after)
created taken there db db' after row a h = ground arith

no_row :
    (fingerprint : String) (id : ℕ) (accounts : List CloudAccount)
    → exists_where
        (λ (a : CloudAccount). str_eq a.token_fingerprint fingerprint || a.id == id)
        accounts
      ≡ false
    → delete_where (λ (a : CloudAccount). a.id == id) accounts ≡ accounts
no_row fingerprint id [] h = refl
no_row fingerprint id (a ∷ accounts) h =
    let e : (a.id == id) ≡ false = ground arith in
    rw (e, no_row fingerprint id accounts (ground arith)) refl

delete_where-append :
    {A : Type 0} (p : A → Bool) (xs ys : List A)
    → delete_where p (xs ++ ys) ≡ delete_where p xs ++ delete_where p ys
delete_where-append p [] ys = refl
delete_where-append p (x ∷ xs) ys =
    elim (p x)
      as (λ b.
        (if b then delete_where p (xs ++ ys) else x ∷ delete_where p (xs ++ ys))
        ≡ (if b then delete_where p xs else x ∷ delete_where p xs) ++ delete_where p ys) [
          | true ↦ delete_where-append p xs ys
          | false ↦ ap (λ zs. x ∷ zs) (delete_where-append p xs ys)
        ]

delete_where-last : {A : Type 0} (p : A → Bool) (x : A) → p x ≡ true → delete_where p (x ∷ []) ≡ []
delete_where-last p x h = rw h refl

-- A row that is refused changes nothing.
pub refused_row :
    (db after : Db) (now id owner : ℕ) (name ciphertext iv fingerprint : String) (e : Error)
    → create_cloud_account db now id owner name ciphertext iv fingerprint true ≡ (err e, after)
    → db ≡ after
unfolding create_cloud_account
refused_row db after now id owner name ciphertext iv fingerprint e h = go _ _ _ h
  where
    differ :
        {a : CloudAccount} {x y : Db} → ◌≡◌ {A = Result CloudAccount × Db} (ok a, x) (err e, y) → ⊥
    differ h = cc

    go :
        (taken there : Bool) (x : CloudAccount × Db)
        → ◌≡◌ {A = Result CloudAccount × Db}
            (if taken
              then (err unique_violation, db)
              else if there
              then (ok x.0, x.1)
              else (err foreign_key_violation, db))
            (err e, after)
        → db ≡ after
    go true there x h = ap (λ (x : Result CloudAccount × Db). x.1) h
    go false true x h = absurd (differ h)
    go false false x h = ap (λ (x : Result CloudAccount × Db). x.1) h

-- Deleting the row that was appended last gives the table as it was.
undone :
    (accounts : List CloudAccount) (a : CloudAccount)
    → delete_where (λ (b : CloudAccount). b.id == a.id) accounts ≡ accounts
    → delete_where (λ (b : CloudAccount). b.id == a.id) (accounts ++ a ∷ []) ≡ accounts
undone accounts a h =
    rw
      (
        delete_where-append (λ (b : CloudAccount). b.id == a.id) accounts (a ∷ []),
        h,
        delete_where-last (λ (b : CloudAccount). b.id == a.id) a (==_refl a.id),
        append-nil accounts,
      )
      refl

-- What a new account is, and that its deletion restores the table.
pub new_account :
    (db after : Db) (now id owner : ℕ) (name ciphertext iv fingerprint : String) (a : CloudAccount)
    → create_cloud_account db now id owner name ciphertext iv fingerprint true ≡ (ok a, after)
    → (after.cloud_accounts ≡ db.cloud_accounts ++ a ∷ [])
      × (delete_where (λ (b : CloudAccount). b.id == a.id) db.cloud_accounts ≡ db.cloud_accounts)
unfolding create_cloud_account
new_account db after now id owner name ciphertext iv fingerprint a h =
    let (free, same, rows) = created _ _ db _ after _ a h in
    (
      sym (ap (λ (d : Db). d.cloud_accounts) rows)
          ∙ ap (λ (b : CloudAccount). db.cloud_accounts ++ b ∷ []) same,
      subst
          (λ (n : ℕ).
            delete_where (λ (b : CloudAccount). b.id == n) db.cloud_accounts ≡ db.cloud_accounts)
          (ap (λ (b : CloudAccount). b.id) same) (no_row fingerprint id db.cloud_accounts free),
    )

exists_where-last :
    {A : Type 0} (p : A → Bool) (xs : List A) (x : A)
    → p x ≡ true
    → exists_where p (xs ++ x ∷ []) ≡ true
exists_where-last p [] x h = rw h refl
exists_where-last p (y ∷ xs) x h = ground (arith, exists_where-last p xs x h)

-- The deletion of the row that was appended last.
pub row_deleted :
    (db : Db) (a : CloudAccount) (accounts : List CloudAccount)
    → db.cloud_accounts ≡ accounts ++ a ∷ []
    → delete_where (λ (b : CloudAccount). b.id == a.id) accounts ≡ accounts
    → (delete_cloud_account db a.id).1.cloud_accounts ≡ accounts
unfolding delete_cloud_account
row_deleted db a accounts same h =
    rw (same, exists_where-last (λ (b : CloudAccount). b.id == a.id) accounts a (==_refl a.id))
      (undone accounts a h)

-- A validation that is refused changes nothing.
pub unchanged :
    (db after : Db) (now id : ℕ) (v : AccountValidation) (e : Error)
    → update_account_validation db now id v ≡ (err e, after)
    → db ≡ after
unfolding update_account_validation
unchanged db after now id v e h = go _ _ h
  where
    go :
        (clash : Bool) (later : Db)
        → ◌≡◌ {A = Result (Unit {0}) × Db}
            (if clash then (err unique_violation, db) else (ok tt, later))
            (err e, after)
        → db ≡ after
    go true later h = ap (λ (x : Result (Unit {0}) × Db). x.1) h
    go false later h = absurd (differ h)
      where
        differ : {x y : Db} → ◌≡◌ {A = Result (Unit {0}) × Db} (ok tt, x) (err e, y) → ⊥
        differ h = cc
