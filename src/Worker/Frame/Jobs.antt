-- ===== src/Worker/Frame/Jobs.antt =====
-- A whole turn of a worker: `process` and `ProcessNext` of internal/worker/worker.go.
use batch_managementof_cloud.Prelude.{ℕ}
use batch_managementof_cloud.Model.Records.{Job, Kind}
use batch_managementof_cloud.Effects.{Env, World}
use batch_managementof_cloud.Effects.Frame.{Frame, Framed, Framed-bind, Framed-pure, Framed-raise}
use batch_managementof_cloud.Worker.Frame.{Framed-sync_account}
use batch_managementof_cloud.Worker.Frame.Creation.{Framed-run_create}
use batch_managementof_cloud.Worker.Frame.Handlers.{
  Allowed, Framed-run_action, Framed-run_delete, reads,
}
use batch_managementof_cloud.Worker.Frame.Payloads.{Framed-account_of}
use batch_managementof_cloud.Worker.Process.{process, process_kind, run_sync}

-- The calls of a job, and the tables that it leaves alone: whatever the provider replies and
-- whichever statements fail, a job only reads from the provider, except for what its payload asks
-- for. A creation posts droplets with the payload's size and region and with names of the payload,
-- and assigns resources to the payload's project; an action is posted on droplets of the payload,
-- under the payload's action, and only after the guards have passed; a deletion deletes droplets of
-- the payload, and only after the guard has passed. The jobs, users, sessions and one-time tokens
-- are not changed.
pub process-Frame :
    (fuel : ℕ) (job : Job) (env : Env) (w : World)
    → Frame (Allowed job.payload) w (process fuel job env w).1
unfolding process process_kind run_sync
process-Frame fuel job env w = (framed job.kind).runs env w
  where
    framed : (kind : Kind) → Framed (Allowed job.payload) (process_kind fuel job kind)
    framed Kind.sync_account = Framed-bind _ (Framed-account_of _ job) λ id.
        Framed-bind _ (Framed-sync_account _ (reads job.payload) fuel id)
          λ outcome. Framed-pure _ _ _
    framed Kind.create_droplets = Framed-run_create fuel job
    framed Kind.droplet_action = Framed-run_action fuel job
    framed Kind.delete_droplets = Framed-run_delete fuel job
    framed (Kind.other kind) = Framed-raise _ _ _
