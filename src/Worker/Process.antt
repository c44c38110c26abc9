-- ===== src/Worker/Process.antt =====
-- A turn of a worker: `process` and `ProcessNext` of internal/worker/worker.go.
use batch_managementof_cloud.Worker.Accounts
use batch_managementof_cloud.Prelude.{ℕ, [], false, none, some}
use batch_managementof_cloud.Model.Failure.{Error, Result, err, join, ok, with_value, wrap}
use batch_managementof_cloud.Model.Records.{Job, Kind, failed, no_result, succeeded}
use batch_managementof_cloud.Store.Jobs.{claim_job, update_job}
use batch_managementof_cloud.Effects.{Program, attempt, of_result, pure, raise, statement, ◌>>=◌}
use batch_managementof_cloud.Worker.Accounts.{Report}
use batch_managementof_cloud.Worker.Create.{account_of, run_create}
use batch_managementof_cloud.Worker.Droplets.{run_action, run_delete}

-- A handler's return when it raises.
abbrev pub failed_report : Error → Report
failed_report e = record { result = no_result; state = failed; action_ids = []; error = some e }

abbrev pub reported : Result Report → Report
reported (ok r) = r
reported (err e) = failed_report e

module _ (fuel : ℕ) where
  unfoldable pub run_sync : Job → Program Report
  run_sync job = do
    id ← account_of job
    outcome ← Accounts.sync_account fuel id
    pure (record { result = outcome; state = succeeded; action_ids = []; error = none })

  -- The `switch` on the kind.
  unfoldable pub process_kind : Job → Kind → Program Report
  process_kind job Kind.sync_account = run_sync job
  process_kind job Kind.create_droplets = run_create fuel job
  process_kind job Kind.droplet_action = run_action fuel job
  process_kind job Kind.delete_droplets = run_delete fuel job
  process_kind job (Kind.other kind) = raise (with_value "unknown job kind" kind)

  -- `process`
  unfoldable pub process : Job → Program Report
  process job = process_kind job job.kind

  -- The `UpdateJob` that records a report.
  unfoldable pub record_report : Job → Report → Program (Unit {0})
  record_report job r =
      statement λ now ids db. update_job db now job.id r.state 100 r.result r.action_ids r.error

  -- The error that `ProcessNext` returns.
  unfoldable pub conclude : Job → Report → Result (Unit {0}) → Program (Unit {0})
  conclude job r saved = elim r.error [
    | none ↦ of_result saved
    | some e ↦ elim saved [
      | ok done ↦ raise (wrap "job" e)
      | err f ↦ raise (wrap "job" (join e (wrap "persist failed job state" f)))
    ]
  ]

  -- `ProcessNext`
  unfoldable pub process_next : Program (Unit {0})
  process_next = do
    job ← statement λ now ids db. claim_job db now (λ i. false)
    r ← attempt (process job)
    saved ← attempt (record_report job (reported r))
    conclude job (reported r) saved
