-- ===== src/Worker/Frame.antt =====
-- What a worker's handlers touch: the statements of internal/worker/worker.go leave the jobs, the
-- users, the sessions and the one-time tokens alone, and every sync only reads from the provider.
pub mod Payloads
pub mod Handlers
pub mod Creation
pub mod Jobs
use batch_managementof_cloud.Worker.Accounts
use batch_managementof_cloud.Prelude.{
  ℕ, List, String, if_both, none, refl, some, true, ℤ, ◌≡◌, exists_where, not, ◌==◌, ◌||◌,
  Bool-cases, Option, inl, inr, length,
}
use batch_managementof_cloud.Model.Failure.{
  Error, Result, err, ok, wrap, db_failure, foreign_key_violation,
}
use batch_managementof_cloud.Model.Records.{
  CloudAccount, CredentialStatus, Droplet, Outcome, invalid, User,
}
use batch_managementof_cloud.Store.{Db, Credential}
use batch_managementof_cloud.Store.Accounts.{
  AccountValidation, mark_account_synced, mark_account_validation_error, update_account,
  update_account_validation,
}
use batch_managementof_cloud.Store.Droplets.{
  mark_root_credential_stale, set_droplet_project, upsert_droplets, upsert_root_credential,
  fits_columns, synced_db,
}
use batch_managementof_cloud.Store.Droplets.Sync.{written}
use batch_managementof_cloud.Provider.{Account, Call, get_balance, get_page, is_read, get_account}
use batch_managementof_cloud.Effects.{Program, raise, ◌>>◌}
use batch_managementof_cloud.Effects.Frame.{
  Framed, Framed-attempt, Framed-bind, Framed-decrypt, Framed-pure, Framed-query, Framed-raise,
  Framed-statement, Framed-with_env, Untouched, untouched,
}
use batch_managementof_cloud.Digitalocean.{RateInfo}
use batch_managementof_cloud.Digitalocean.Frame.{
  Framed-balance, Framed-list_droplets, Framed-account,
}
use batch_managementof_cloud.Worker.Accounts.{
  account_client, ignore, mark_error, require_client, sync_provider, with_context, client_or_raise,
  sync_client, sync_reply,
}

abbrev Kept : Db → Result (Unit {0}) × Db → Type 0
Kept db r = Untouched db r.1

update_account-Untouched :
    (db : Db) (id : ℕ) (f : CloudAccount → CloudAccount) → Untouched db (update_account db id f).1
update_account-Untouched db id f =
    if_both (Kept db) _ _ _
      (record { jobs = refl; users = refl; sessions = refl; one_time_tokens = refl }) (untouched db)

mark_account_validation_error-Untouched :
    (db : Db) (now id : ℕ) (status : CredentialStatus) (e : Error)
    → Untouched db (mark_account_validation_error db now id status e).1
unfolding mark_account_validation_error
mark_account_validation_error-Untouched db now id status e = update_account-Untouched db id _

mark_account_synced-Untouched :
    (db : Db) (now id : ℕ) → Untouched db (mark_account_synced db now id).1
unfolding mark_account_synced
mark_account_synced-Untouched db now id = update_account-Untouched db id _

update_account_validation-Untouched :
    (db : Db) (now id : ℕ) (v : AccountValidation)
    → Untouched db (update_account_validation db now id v).1
unfolding update_account_validation
update_account_validation-Untouched db now id v =
    if_both (Kept db) _ _ _ (untouched db)
      (record { jobs = refl; users = refl; sessions = refl; one_time_tokens = refl })

upsert_droplets-Untouched :
    (db : Db) (now : ℕ) (ids : ℤ → ℕ) (account : CloudAccount) (droplets : List Droplet)
    → Untouched db (upsert_droplets db now ids account droplets).1
unfolding upsert_droplets
upsert_droplets-Untouched db now ids account droplets =
    if_both (Kept db) (exists_where (λ (d : Droplet). not (fits_columns d)) droplets)
      (err db_failure, db) _ (untouched db)
      (if_both (Kept db)
        (exists_where (λ (a : CloudAccount). a.id == account.id) db.cloud_accounts
          || length droplets == 0)
        (ok tt, synced_db db now ids account droplets) (err foreign_key_violation, db)
        (record { jobs = refl; users = refl; sessions = refl; one_time_tokens = refl })
        (untouched db))

pub set_droplet_project-Untouched :
    (db : Db) (now account : ℕ) (id : ℤ) (project : String)
    → Untouched db (set_droplet_project db now account id project).1
unfolding set_droplet_project
set_droplet_project-Untouched db now account id project =
    if_both (Kept db) _ _ _
      (record { jobs = refl; users = refl; sessions = refl; one_time_tokens = refl }) (untouched db)

pub mark_root_credential_stale-Untouched :
    (db : Db) (now droplet : ℕ) → Untouched db (mark_root_credential_stale db now droplet)
unfolding mark_root_credential_stale
mark_root_credential_stale-Untouched db now droplet = record {
  jobs = refl;
  users = refl;
  sessions = refl;
  one_time_tokens = refl;
}

pub upsert_root_credential-Untouched :
    (db : Db) (now owner droplet : ℕ) (ciphertext nonce : String)
    → Untouched db (upsert_root_credential db now owner droplet ciphertext nonce).1
unfolding upsert_root_credential
upsert_root_credential-Untouched db now owner droplet ciphertext nonce =
    elim (Bool-cases (
      not (exists_where (λ (u : User). u.id == owner) db.users)
      || not (exists_where (λ (d : Droplet). d.id == droplet) db.droplets))) [
        | inl e ↦ rw e (untouched db)
        | inr e ↦
            rw e
              (elim (Bool-cases (
                exists_where (λ (c : Credential). c.droplet_id == droplet)
                  db.managed_credentials)) [
                    | inl f ↦ rw f (record {
                      jobs = refl;
                      users = refl;
                      sessions = refl;
                      one_time_tokens = refl;
                    })
                    | inr f ↦ rw f (record {
                      jobs = refl;
                      users = refl;
                      sessions = refl;
                      one_time_tokens = refl;
                    })
                  ])
      ]

module _ (Q : Call → Type 0) where
  pub Framed-ignore : {A : Type 0} {m : Program A} → Framed Q m → Framed Q (ignore m)
  Framed-ignore h = Framed-bind Q (Framed-attempt Q h) λ r. Framed-pure Q _ tt

  pub Framed-with_context :
      {A : Type 0} (prefix : String) {m : Program A} → Framed Q m → Framed Q (with_context prefix m)
  Framed-with_context {A} prefix h =
      Framed-bind Q (Framed-attempt Q h)
        (elim [ ok a ↦ Framed-pure Q A a | err e ↦ Framed-raise Q A (wrap prefix e) ])

  pub Framed-account_client : (id : ℕ) → Framed Q (account_client id)
  unfolding account_client
  Framed-account_client id = Framed-bind Q (Framed-query Q _) λ account.
      Framed-bind Q (Framed-attempt Q (Framed-decrypt Q _ _ _)) λ token. Framed-pure Q _ _

  pub Framed-require_client : (id : ℕ) → Framed Q (require_client id)
  unfolding require_client
  Framed-require_client id = Framed-bind Q (Framed-account_client id) decided
    where
      decided : (got : CloudAccount × Option Error) → Framed Q (client_or_raise got)
      decided (account, none) = Framed-pure Q _ account
      decided (account, some e) = Framed-raise Q _ e

  Framed-mark_error :
      (id : ℕ) (status : CredentialStatus) (e : Error) → Framed Q (mark_error id status e)
  Framed-mark_error id status e = Framed-ignore (
      Framed-statement Q _ λ now ids db. mark_account_validation_error-Untouched db now id status e)

  module _ (reads : (c : Call) → is_read c ≡ true → Q c) (fuel : ℕ) where
    Framed-sync_provider :
        (account : CloudAccount) (provider : Account) (rate : RateInfo)
        → Framed Q (sync_provider fuel account provider rate)
    unfolding sync_provider
    Framed-sync_provider account provider rate =
        Framed-bind Q (Framed-attempt Q (Framed-balance Q (reads get_balance refl))) λ reply.
          Framed-bind Q
            (Framed-with_context "update account validation" (
              Framed-with_env Q λ env.
                Framed-statement Q _
                  λ now ids db. update_account_validation-Untouched db now account.id _))
            λ updated.
              Framed-bind Q (Framed-list_droplets Q fuel (λ p. reads (get_page p) refl)) λ remote.
                Framed-bind Q
                  (Framed-statement Q _ λ now ids db. upsert_droplets-Untouched db now _ account _)
                  λ written.
                    Framed-bind Q
                      (Framed-statement Q _
                        λ now ids db. mark_account_synced-Untouched db now account.id)
                      λ marked. Framed-pure Q _ _

    Framed-marked :
        (account : CloudAccount) (status : CredentialStatus) (e : Error)
        → Framed Q (mark_error account.id status e >> raise {A = Outcome} e)
    Framed-marked account status e =
        Framed-bind Q (Framed-mark_error account.id status e) λ done. Framed-raise Q _ e

    Framed-sync_reply :
        (account : CloudAccount) (reply : Result (Account × RateInfo))
        → Framed Q (sync_reply fuel account reply)
    Framed-sync_reply account (err e) = Framed-marked account _ e
    Framed-sync_reply account (ok (provider, rate)) = Framed-sync_provider account provider rate

    Framed-sync_client : (got : CloudAccount × Option Error) → Framed Q (sync_client fuel got)
    Framed-sync_client (account, some e) = Framed-marked account invalid e
    Framed-sync_client (account, none) =
        Framed-bind Q (Framed-attempt Q (Framed-account Q (reads get_account refl)))
          (Framed-sync_reply account)

    pub Framed-sync_account : (id : ℕ) → Framed Q (Accounts.sync_account fuel id)
    unfolding Accounts.sync_account
    Framed-sync_account id = Framed-bind Q (Framed-account_client id) Framed-sync_client
