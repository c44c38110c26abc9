-- ===== src/Store/Jobs/Queue/Stuck.antt =====
-- A job whose worker was lost stays `running` for ever, and its account gets no scheduled sync.
use batch_managementof_cloud.Prelude.{
  ==_refl, In, In-append_left, In-append_right, In-delete_where, In-update_where_miss, [], ap,
  arith, delete_where-In, exists_where_of_In, false, inl, inr, is_just, some, subst, true,
  unique_row, ℕ, ◌==◌, ◌∙◌, ◌∷◌, ◌≡◌, ◌≢◌,
}
use batch_managementof_cloud.Model.Records.{Job}
use batch_managementof_cloud.Store.{Db}
use batch_managementof_cloud.Store.Jobs.{
  enqueue_stale_syncs, finish, is_live_sync, is_running, is_sync, stale_sync_jobs, start,
  update_job,
}
use batch_managementof_cloud.Store.Jobs.Queue.{
  Inv, Queue, Reach, Step, claim, complete, elsewhere, enqueue, here, job_ids, lose, next, schedule,
  unlink,
}
use batch_managementof_cloud.Store.Jobs.Queue.Adds.{enqueue_job-appends}
use batch_managementof_cloud.Store.Jobs.Queue.Claims.{
  claim_job-found, found_queued, queued_not_running,
}
use batch_managementof_cloud.Store.Jobs.Queue.Once.{Reach-Inv}
use batch_managementof_cloud.Store.Jobs.Sync.{live_syncs_after, live_syncs}

-- A job that is running and that no worker holds.
pub record IsOrphan (j : Job) (q : Queue) : Type 0 where
  pub listed : In j q.db.jobs
  pub issued : In j.id q.issued
  pub busy : is_running j.state ≡ true
  pub unheld : ¬ In j.id q.held

-- The step does not unlink the account.
abbrev pub Spares : (a : ℕ) {q r : Queue} → Step q r → Type 0
Spares a (unlink b _ _ _) = (b == a) ≡ false
Spares a _ = Unit

abbrev pub AllSpare : (a : ℕ) {q r : Queue} → Reach q r → Type 0
AllSpare a here = Unit
AllSpare a (next path step) = AllSpare a path × Spares a step

module _ (a : ℕ) (j : Job) (mine : j.account_id ≡ some a) where
  Step-IsOrphan :
      {q r : Queue} (step : Step q r) → Spares a step → Inv q → IsOrphan j q → IsOrphan j r
  unfolding enqueue_stale_syncs update_job
  Step-IsOrphan {q} {r} (enqueue now id owner account kind payload job new e held issued) s v o =
      let jobs = (enqueue_job-appends q.db now id owner account kind payload job r.db e).1 in
      record {
        listed = rw jobs (In-append_left j q.db.jobs (job ∷ []) o.listed);
        issued = rw issued (inr o.issued);
        busy = o.busy;
        unheld = rw held o.unheld;
      }
  Step-IsOrphan {q} {r} (schedule now older_than ids new e held issued) s v o =
      let added = stale_sync_jobs now older_than ids q.db.jobs q.db.cloud_accounts in
      record {
        listed = rw (ap (λ (d : Db). d.jobs) e) (In-append_left j q.db.jobs added o.listed);
        issued = rw issued (In-append_right j.id (job_ids added) q.issued o.issued);
        busy = o.busy;
        unheld = rw held o.unheld;
      }
  Step-IsOrphan {q} {r} (claim now locked job e held issued) s v o =
      let (k, found, same, jobs) = claim_job-found q.db now locked job r.db e in
      let apart : j.id ≢ k.id = λ p.
        queued_not_running k (found_queued now locked q.db.jobs k found) (
          subst (λ (x : Job). is_running x.state ≡ true)
            (unique_row (λ (x : Job). x.id) q.db.jobs j k v.ids o.listed found.listed p) o.busy) in
      record {
        listed = rw jobs (
            In-update_where_miss (λ (x : Job). x.id == k.id) (start now) q.db.jobs j o.listed
              (ground arith));
        issued = rw issued o.issued;
        busy = o.busy;
        unheld = rw held (elim [ inl p ↦ apart (p ∙ same) | inr i ↦ o.unheld i ]);
      }
  Step-IsOrphan {q} {r} (complete now id state outcome actions message taken ended e held issued) s
        v o =
      let apart : j.id ≢ id = λ p. o.unheld (rw p taken) in
      record {
        listed = rw (ap (λ (d : Db). d.jobs) e) (
            In-update_where_miss (λ (x : Job). x.id == id)
              (finish now state 100 outcome actions message) q.db.jobs j o.listed (ground arith));
        issued = rw issued o.issued;
        busy = o.busy;
        unheld = rw held (λ i. o.unheld (In-delete_where (λ (x : ℕ). x == id) q.held j.id i).0);
      }
  Step-IsOrphan {q} {r} (lose id e held issued) s v o = record {
    listed = rw e o.listed;
    issued = rw issued o.issued;
    busy = o.busy;
    unheld = rw held (λ i. o.unheld (In-delete_where (λ (x : ℕ). x == id) q.held j.id i).0);
  }
  Step-IsOrphan {q} {r} (unlink b jobs held issued) s v o = record {
    listed = rw jobs (
        delete_where-In (λ (x : Job). is_just x.account_id b) q.db.jobs j o.listed
          (rw mine (ground arith)));
    issued = rw issued o.issued;
    busy = o.busy;
    unheld = rw held o.unheld;
  }
  Step-IsOrphan {q} {r} (elsewhere jobs held issued) s v o = record {
    listed = rw jobs o.listed;
    issued = rw issued o.issued;
    busy = o.busy;
    unheld = rw held o.unheld;
  }

  Reach-IsOrphan :
      {q r : Queue} (path : Reach q r) → AllSpare a path → Inv q → IsOrphan j q → IsOrphan j r
  Reach-IsOrphan here s v o = o
  Reach-IsOrphan (next path step) s v o =
      Step-IsOrphan step s.1 (Reach-Inv path v) (Reach-IsOrphan path s.0 v o)

-- An account with a live sync job gets no job from the scheduler.
live_blocks :
    (db : Db) (now older_than : ℕ) (ids : ℕ → ℕ) (a : ℕ) (j : Job)
    → In j db.jobs
    → is_live_sync a j ≡ true
    → live_syncs a (enqueue_stale_syncs db now older_than ids).jobs ≡ live_syncs a db.jobs
live_blocks db now older_than ids a j i live =
    rw (
      live_syncs_after db now older_than ids a,
      exists_where_of_In (is_live_sync a) db.jobs j i live,
    )

-- When the worker of a running sync job is lost, then however the system goes on, as long as the
-- account is not unlinked: the job's row never changes again, so it stays `running`, and no run of
-- the scheduler ever adds a sync job for its account.
pub stuck_forever :
    {q r : Queue} (a : ℕ) (j : Job) (path : Reach q r)
    → Inv q
    → AllSpare a path
    → j.account_id ≡ some a
    → is_sync j.kind ≡ true
    → IsOrphan j q
    → In j r.db.jobs
      × (is_running j.state ≡ true)
      × ((now older_than : ℕ) (ids : ℕ → ℕ)
          → live_syncs a (enqueue_stale_syncs r.db now older_than ids).jobs
            ≡ live_syncs a r.db.jobs)
stuck_forever {q} {r} a j path v spared mine sync o =
    let still = Reach-IsOrphan a j mine path spared v o in
    (
      still.listed,
      still.busy,
      λ now older_than ids.
          live_blocks r.db now older_than ids a j still.listed
            (is_live_sync_of a j mine sync still.busy),
    )
  where
    is_live_sync_of :
        (a : ℕ) (j : Job)
        → j.account_id ≡ some a
        → is_sync j.kind ≡ true
        → is_running j.state ≡ true
        → is_live_sync a j ≡ true
    is_live_sync_of a j mine sync busy = rw mine (ground (arith, ==_refl a))
