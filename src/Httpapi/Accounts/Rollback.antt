-- ===== src/Httpapi/Accounts/Rollback.antt =====
-- `createCloudAccount` leaves no account behind that it could not validate.
pub mod Rows
use batch_managementof_cloud.Httpapi.Accounts.Rollback.Rows.{
  new_account, refused_row, row_deleted, unchanged,
}
use batch_managementof_cloud.Digitalocean.Client
use batch_managementof_cloud.Prelude.{
  ℕ, List, String, [], ap, delete_where, refl, subst, sym, ◌++◌, ◌==◌, ◌∙◌, ◌∷◌, ◌≡◌, inr, none,
  ◌+◌, ◌⊎◌, Option, inl,
}
use batch_managementof_cloud.Model.Failure.{Result, err, ok}
use batch_managementof_cloud.Model.Records.{CloudAccount}
use batch_managementof_cloud.Store.{Db}
use batch_managementof_cloud.Store.Accounts.{
  delete_cloud_account, AccountValidation, update_account_validation,
}
use batch_managementof_cloud.Effects.{Env, World, statement, encrypt}
use batch_managementof_cloud.Effects.Keeps.{Keeps-encrypt}
use batch_managementof_cloud.Digitalocean.Still.{Keeps-account}
use batch_managementof_cloud.Httpapi.Accounts.{validate_or_undo, NewAccount, link_account}
use batch_managementof_cloud.Httpapi.Guards.{refusal, Principal}
use batch_managementof_cloud.Httpapi.Handler.{answer, if_unique, refuse, try, ◌>>=◌, Sender}
use batch_managementof_cloud.Httpapi.Handler.After.{
  after_try_ran, after_call, after_decode, after_part, after_refuse_if, after_statement, with_it,
  after_audit, after_try, at_end,
}
use batch_managementof_cloud.Httpapi.Handler.Logic.{Ends, Ends-answer, Ends-refuse, refused}
use batch_managementof_cloud.Httpapi.Selection.{Refusal}

module _ (accounts : List CloudAccount) where
  -- The refusal comes from the job of the synchronisation, or the table is as it was.
  abbrev Restored : Refusal → World → Type 0
  Restored r v = (r ≡ refusal 500 "sync_enqueue_failed") ⊎ (v.db.cloud_accounts ≡ accounts)

  validate_or_undo-Restored :
      (Q : Unit {0} → World → Type 0) (a : CloudAccount) (validation : AccountValidation)
      (env : Env) (w : World)
      → ((t : ℕ) → env.fault t ≡ none)
      → w.db.cloud_accounts ≡ accounts ++ a ∷ []
      → delete_where (λ (b : CloudAccount). b.id == a.id) accounts ≡ accounts
      → ((v : World) → Q tt v)
      → Ends Q Restored (validate_or_undo a.id validation) env w
  unfolding validate_or_undo
  validate_or_undo-Restored Q a validation env w calm same h k =
      after_try_ran _ (calm w.tick) (λ r db e.
        elim r
            as (λ r.
              update_account_validation w.db (env.clock w.tick) a.id validation ≡ (r, db)
              → Ends Q Restored
                  (elim r [
                    | ok _ ↦ answer tt
                    | err e ↦
                        try (statement λ now ids db. delete_cloud_account db a.id) >>= λ undone.
                        refuse (
                          if_unique (refusal 409 "provider_account_exists")
                            (refusal 500 "account_validate_failed") e)
                  ])
                  env (record w { db = db; tick = w.tick + 1 })) [
                    | ok _ ↦ λ e. Ends-answer _ _ tt env _ (k _)
                    | err c ↦ λ e. after_try_ran _ (calm _) (λ s left f. Ends-refuse _ _ _ env _ (
                        inr (
                          sym (ap (λ (x : Result (Unit {0}) × Db). x.1.cloud_accounts) f)
                          ∙ row_deleted db a accounts
                              (sym (ap (λ (d : Db). d.cloud_accounts) (unchanged w.db db _ _ _ c e))
                                ∙ same)
                              h)))
                  ]
          e)

-- When `createCloudAccount` refuses for any other reason than that the job of the synchronisation
-- could not be enqueued, the accounts are as they were before the request, also when the new row
-- was already written and its validation was refused. (The connection to the database does not fail
-- in between.)
pub link_account-rollback :
    (p : Principal) (sender : Sender) (body : Option NewAccount) (env : Env) (w : World)
    (r : Refusal)
    → ((t : ℕ) → env.fault t ≡ none)
    → (link_account p sender body env w).0 ≡ inl r
    → (r ≡ refusal 500 "sync_enqueue_failed")
      ⊎ ((link_account p sender body env w).1.db.cloud_accounts ≡ w.db.cloud_accounts)
unfolding link_account
link_account-rollback p sender body env w r calm h =
    refused (λ a v. Unit {0}) (Restored w.db.cloud_accounts) _ env w r
      (with_it _ (
        after_decode _
          (λ input given.
            after_refuse_if _ _ _
              (λ filled.
                after_refuse_if _ _ _
                  (λ full.
                    after_call _ _
                      (λ provider e.
                        after_call _ _
                          (λ sealed c.
                            after_statement _ _
                              (λ a db made.
                                let (rows, gone) = new_account _ _ _ _ _ _ _ _ _ a made in
                                after_part (
                                  validate_or_undo-Restored _ _ a _ env _ calm
                                    (rows ∙ ap (λ l. l ++ a ∷ []) (kept _))
                                    (subst
                                      (λ l. delete_where (λ (b : CloudAccount). b.id == a.id) l ≡ l)
                                      (kept _) gone)
                                    (λ v.
                                      after_call _ _
                                        (λ job e.
                                          after_audit _ _ _ _ _ _
                                            λ r logs. after_try _ _ (at_end _ tt))
                                        (λ c e. inl refl))))
                              (λ c db e. inr (
                                sym (
                                  ap (λ (d : Db). d.cloud_accounts)
                                    (refused_row _ _ _ _ _ _ _ _ _ _ e))
                                ∙ kept _))
                              (λ c. inr (kept _)))
                          (λ c e. inr (kept _)))
                      (λ c e. inr ((Keeps-account (λ d. d.cloud_accounts)).same env w)))
                  (λ stop. inr refl))
              (λ stop. inr refl))
          (λ r. inr refl)))
      h
  where
    kept :
        (plaintext : String)
        → (encrypt plaintext "digitalocean_token" env (Client.account env w).1).1.db.cloud_accounts
          ≡ w.db.cloud_accounts
    kept plaintext =
        (Keeps-encrypt (λ d. d.cloud_accounts) plaintext "digitalocean_token").same env
          (Client.account env w).1
        ∙ (Keeps-account (λ d. d.cloud_accounts)).same env w
