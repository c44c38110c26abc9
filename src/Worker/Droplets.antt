-- ===== src/Worker/Droplets.antt =====
-- Actions on droplets and their deletion: `dropletAction` and `deleteDroplets` of
-- internal/worker/worker.go.
use batch_managementof_cloud.Digitalocean.Client
use batch_managementof_cloud.Prelude.{
  ℕ, List, Option, String, [], if◌then◌else◌, length, ltb, none, some, str_eq, ℤ, ◌&&◌, ◌*◌, ◌++◌,
  ◌==◌, ◌||◌, ◌∷◌,
}
use batch_managementof_cloud.Model.Failure.{Error, decode_failure, err, ok}
use batch_managementof_cloud.Model.Records.{
  ActionPayload, CloudAccount, Failure, Job, acted, deleted, droplet_action_error, droplet_error,
  failed, minute, of_action, of_delete, partial, succeeded, sync_error, Payload,
}
use batch_managementof_cloud.Store.Droplets.{get_droplet_by_provider_id, mark_root_credential_stale}
use batch_managementof_cloud.Effects.{
  Program, attempt, pure, query, raise, statement, with_env, ◌>>=◌, ◌>>◌, read_clock,
}
use batch_managementof_cloud.Digitalocean.Client.{delete_droplet, wait_droplet_action}
use batch_managementof_cloud.Worker.Accounts.{sync_account, Report, ignore, require_client}
use batch_managementof_cloud.Worker.Create.{account_of}
use batch_managementof_cloud.Worker.Requests.{build_droplet_action_request}
use batch_managementof_cloud.Worker.Selection.{action_refusal, delete_refusal}

-- `actionIDs` and `failures`.
pub record Acts : Type 0 where
  pub action_ids : List ℤ
  pub failures : List Failure

abbrev pub refuse : Option Error → Program (Unit {0})
refuse none = pure tt
refuse (some e) = raise e

-- The payloads that decode and pass the guards.
abbrev pub action_of : Payload → Program ActionPayload
action_of (of_action payload) = refuse (action_refusal payload) >> pure payload
action_of _ = raise decode_failure

abbrev pub deletion_of : Payload → Program (List ℤ)
deletion_of (of_delete ids) = refuse (delete_refusal ids) >> pure ids
deletion_of _ = raise decode_failure

-- A reset or rebuilt droplet no longer has the root password that is kept for it.
abbrev pub mark_stale : CloudAccount → String → ℤ → Program (Unit {0})
mark_stale account action droplet =
    if str_eq action "password_reset" || str_eq action "rebuild"
    then ignore (
        query (λ now db. get_droplet_by_provider_id db account.id droplet) >>= λ row.
        statement (λ now ids db. (ok tt, mark_root_credential_stale db now row.id)))
    else pure tt

module _ (fuel : ℕ) where
  -- One turn of the loop of `dropletAction`.
  unfoldable pub act_one : CloudAccount → ActionPayload → ℤ → Acts → Program Acts
  act_one account payload droplet a = do
    time ← read_clock
    r ← attempt (
        with_env λ env. Client.droplet_action droplet (
          build_droplet_action_request env.snapshot_name payload.action payload.parameters droplet
            time))
    elim r [
      | err e ↦ pure (record a { failures = a.failures ++ droplet_error droplet e ∷ [] })
      | ok action ↦ do
        waited ← attempt (Client.wait_droplet_action fuel droplet action.id (20 * minute))
        marked ← mark_stale account payload.action droplet
        pure (record {
          action_ids = a.action_ids ++ action.id ∷ [];
          failures = elim waited [
            | ok done ↦ a.failures
            | err e ↦ a.failures ++ droplet_action_error droplet action.id e ∷ []
          ];
        })
    ]

  unfoldable pub act_all : CloudAccount → ActionPayload → List ℤ → Acts → Program Acts
  act_all account payload [] a = pure a
  act_all account payload (droplet ∷ droplets) a =
      act_one account payload droplet a >>= act_all account payload droplets

  abbrev pub acted_report : ActionPayload → Acts → Report
  acted_report payload a =
      let outcome = acted payload.action payload.droplet_ids a.failures in
      if ltb 0 (length a.failures)
      then record {
        result = outcome;
        state = partial;
        action_ids = a.action_ids;
        error = some (Error.text "one or more actions failed");
      }
      else record { result = outcome; state = succeeded; action_ids = a.action_ids; error = none }

  -- `dropletAction`
  unfoldable pub run_action : Job → Program Report
  run_action job = do
    id ← account_of job
    payload ← action_of job.payload
    account ← require_client id
    a ← act_all account payload payload.droplet_ids (record { action_ids = []; failures = [] })
    synced ← attempt (sync_account fuel account.id)
    pure (
        acted_report payload (elim synced [
          | ok done ↦ a
          | err e ↦ record a { failures = a.failures ++ sync_error e ∷ [] }
        ]))

  -- The loop of `deleteDroplets`: the ids that were deleted, and the failures.
  unfoldable pub delete_all : List ℤ → List ℤ → List Failure → Program (List ℤ × List Failure)
  delete_all [] gone failures = pure (gone, failures)
  delete_all (id ∷ ids) gone failures = do
    r ← attempt (Client.delete_droplet id)
    elim r [
      | ok done ↦ delete_all ids (gone ++ id ∷ []) failures
      | err e ↦ delete_all ids gone (failures ++ droplet_error id e ∷ [])
    ]

  abbrev pub deleted_report : List ℤ × List Failure → Report
  deleted_report (gone, failures) =
      let outcome = deleted gone failures in
      if length gone == 0 && ltb 0 (length failures)
      then record {
        result = outcome;
        state = failed;
        action_ids = [];
        error = some (Error.text "no droplets were deleted");
      }
      else if ltb 0 (length failures)
      then record {
        result = outcome;
        state = partial;
        action_ids = [];
        error = some (Error.text "one or more deletes failed");
      }
      else record { result = outcome; state = succeeded; action_ids = []; error = none }

  -- `deleteDroplets`
  unfoldable pub run_delete : Job → Program Report
  run_delete job = do
    id ← account_of job
    ids ← deletion_of job.payload
    account ← require_client id
    r ← delete_all ids [] []
    synced ← attempt (sync_account fuel account.id)
    pure (deleted_report r)
