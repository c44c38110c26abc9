-- ===== src/Store/Jobs/Queue/Once.antt =====
-- Every step keeps the invariant, so no job is ever run twice.
use batch_managementof_cloud.Prelude.{
  All-In, Distinct, In, [], ap, arith, delete_none, false, is_just, sym, true, ◌==◌, ◌∙◌, ◌∷◌, ◌≡◌,
  ◌≤◌,
}
use batch_managementof_cloud.Model.Records.{Job}
use batch_managementof_cloud.Store.{Db}
use batch_managementof_cloud.Store.Jobs.{
  enqueue_stale_syncs, is_running, new_job, stale_sync_jobs, update_job,
}
use batch_managementof_cloud.Store.Jobs.Queue.{
  Inv, Lifecycle, Queue, Reach, Step, claim, complete, elsewhere, enqueue, here, lose, next,
  schedule, unlink,
}
use batch_managementof_cloud.Store.Jobs.Queue.Adds.{
  append-Inv, enqueue_job-appends, stale_sync_jobs-queued,
}
use batch_managementof_cloud.Store.Jobs.Queue.Claims.{claim-Inv, claim_job-found}
use batch_managementof_cloud.Store.Jobs.Queue.Writes.{complete-Inv, shrink-Inv}

-- Each step keeps the invariant.
pub Step-Inv : {q r : Queue} → Step q r → Inv q → Inv r
unfolding new_job enqueue_stale_syncs update_job
Step-Inv {q} {r} (enqueue now id owner account kind payload job new e held issued) v =
    let (made, jobs) = enqueue_job-appends q.db now id owner account kind payload job r.db e in
    append-Inv q r (job ∷ []) v (rw made ((λ i. i, tt), (new, tt))) (rw made (ground arith, tt))
      jobs held (rw made issued)
Step-Inv {q} {r} (schedule now older_than ids new e held issued) v =
    append-Inv q r (stale_sync_jobs now older_than ids q.db.jobs q.db.cloud_accounts) v new
      (stale_sync_jobs-queued now older_than ids q.db.jobs q.db.cloud_accounts)
      (ap (λ (d : Db). d.jobs) e) held issued
Step-Inv {q} {r} (claim now locked job e held issued) v =
    let (j, found, same, jobs) = claim_job-found q.db now locked job r.db e in
    claim-Inv q r now locked j v found jobs (rw same at held) issued
Step-Inv {q} {r} (complete now id state outcome actions message mine ended e held issued) v =
    complete-Inv q r now id state outcome actions message v mine ended (ap (λ (d : Db). d.jobs) e)
      held issued
Step-Inv {q} {r} (lose id e held issued) v =
    shrink-Inv q r v (λ j. false) (λ i. i == id)
      (ap (λ (d : Db). d.jobs) e ∙ sym (delete_none q.db.jobs)) held issued
Step-Inv {q} {r} (unlink account jobs held issued) v =
    shrink-Inv q r v (λ j. is_just j.account_id account) (λ i. false) jobs
      (held ∙ sym (delete_none q.held)) issued
Step-Inv {q} {r} (elsewhere jobs held issued) v =
    shrink-Inv q r v (λ j. false) (λ i. false) (jobs ∙ sym (delete_none q.db.jobs))
      (held ∙ sym (delete_none q.held)) issued

pub Reach-Inv : {q r : Queue} → Reach q r → Inv q → Inv r
Reach-Inv here v = v
Reach-Inv (next path step) v = Step-Inv step (Reach-Inv path v)

-- From an empty queue, under any interleaving of requests, scheduler runs, claims by any number of
-- workers, completions, lost workers and unlinked accounts: the columns of every job agree, no job
-- has been attempted twice, no job is held by two workers, and a job that a worker holds is
-- `running` as long as its row exists.
pub Reach-once :
    {q r : Queue}
    → Reach q r
    → q.db.jobs ≡ []
    → q.held ≡ []
    → q.issued ≡ []
    → (j : Job) → In j r.db.jobs
    → Lifecycle j
      × (j.attempts ≤ 1)
      × Distinct r.held
      × (In j.id r.held → is_running j.state ≡ true)
Reach-once {q} {r} path jobs held issued j i =
    let start_Inv : Inv q = record {
      rows = rw jobs tt;
      ids = rw jobs tt;
      known = rw jobs tt;
      busy = rw jobs tt;
      held_once = rw held tt;
      held_known = rw held tt;
    } in
    let v = Reach-Inv path start_Inv in
    let life : Lifecycle j = All-In Lifecycle r.db.jobs v.rows j i in
    (
      life,
      ground arith,
      v.held_once,
      All-In (λ (k : Job). In k.id r.held → is_running k.state ≡ true) r.db.jobs v.busy j i,
    )
