-- ===== src/Store/Jobs/Queue.antt =====
-- The life of the jobs under any interleaving of API requests, the scheduler and the workers: each
-- step is one transaction on the `jobs` table. A worker holds the job that it has claimed and not
-- yet written back; a worker that dies, or whose last write is lost, lets go of it.
pub mod Adds
pub mod Claims
pub mod Writes
pub mod Once
pub mod Stuck
use batch_managementof_cloud.Prelude.{
  All, Bool, Distinct, In, List, Option, delete_where, if◌then◌else◌, is_just, is_some, map, not,
  true, ℕ, ℤ, ◌++◌, ◌==◌, ◌∷◌, ◌≡◌,
}
use batch_managementof_cloud.Model.Failure.{Error, ok}
use batch_managementof_cloud.Model.Records.{Job, JobState, Kind, Outcome, Payload, user}
use batch_managementof_cloud.Store.{Db}
use batch_managementof_cloud.Store.Jobs.{
  claim_job, enqueue_job, enqueue_stale_syncs, is_finished, is_queued, is_running, stale_sync_jobs,
  update_job,
}

pub record Queue : Type 0 where
  pub db : Db
  -- The ids of the jobs that a worker holds.
  pub held : List ℕ
  -- The ids that `gen_random_uuid()` has given.
  pub issued : List ℕ

abbrev pub job_ids : List Job → List ℕ
job_ids = map (λ j. j.id)

-- The rows of one INSERT have ids that are new and differ: what `gen_random_uuid()` promises.
abbrev pub AreNew : List Job → List ℕ → Type 0
AreNew jobs issued = Distinct (job_ids jobs) × All (λ (i : ℕ). ¬ In i issued) (job_ids jobs)

abbrev pub let_go : ℕ → List ℕ → List ℕ
let_go id = delete_where (λ i. i == id)

pub data Step (q r : Queue) : Type 0 where
  -- A handler's `EnqueueJob`.
  enqueue :
      (now id user : ℕ) (account : Option ℕ) (kind : Kind) (payload : Payload) (job : Job)
      → ¬ In id q.issued
      → enqueue_job q.db now id user account kind payload ≡ (ok job, r.db)
      → r.held ≡ q.held
      → r.issued ≡ id ∷ q.issued
      → Step q r
  -- The scheduler's `EnqueueStaleSyncs`.
  schedule :
      (now older_than : ℕ) (ids : ℕ → ℕ)
      → AreNew (stale_sync_jobs now older_than ids q.db.jobs q.db.cloud_accounts) q.issued
      → r.db ≡ enqueue_stale_syncs q.db now older_than ids
      → r.held ≡ q.held
      → r.issued
        ≡ job_ids (stale_sync_jobs now older_than ids q.db.jobs q.db.cloud_accounts) ++ q.issued
      → Step q r
  -- A worker's `ClaimJob`; `locked` are the rows that other transactions hold.
  claim :
      (now : ℕ) (locked : ℕ → Bool) (job : Job)
      → claim_job q.db now locked ≡ (ok job, r.db)
      → r.held ≡ job.id ∷ q.held
      → r.issued ≡ q.issued
      → Step q r
  -- The `UpdateJob` at the end of `ProcessNext`.
  complete :
      (now id : ℕ) (state : JobState) (outcome : Outcome) (actions : List ℤ)
      (message : Option Error)
      → In id q.held
      → is_finished state ≡ true
      → r.db ≡ (update_job q.db now id state 100 outcome actions message).1
      → r.held ≡ let_go id q.held
      → r.issued ≡ q.issued
      → Step q r
  -- A worker dies, or its `UpdateJob` fails.
  lose : (id : ℕ) → r.db ≡ q.db → r.held ≡ let_go id q.held → r.issued ≡ q.issued → Step q r
  -- An account is unlinked, and its jobs go with it.
  unlink :
      (account : ℕ)
      → r.db.jobs ≡ delete_where (λ j. is_just j.account_id account) q.db.jobs
      → r.held ≡ q.held
      → r.issued ≡ q.issued
      → Step q r
  -- Any statement on the other tables.
  elsewhere : r.db.jobs ≡ q.db.jobs → r.held ≡ q.held → r.issued ≡ q.issued → Step q r

pub data Reach (q : Queue) : Queue → Type 0 where
  here : Reach q q
  next : {r s : Queue} → Reach q r → Step r s → Reach q s

-- What the columns of a row say of one another.
pub record Lifecycle (j : Job) : Type 0 where
  pub attempted : j.attempts ≡ (if is_queued j.state then 0 else 1)
  pub started : is_some j.started_at ≡ not (is_queued j.state)
  pub finished : is_some j.finished_at ≡ is_finished j.state
  pub progressed : j.progress ≡ (if is_finished j.state then 100 else 0)

pub record Inv (q : Queue) : Type 0 where
  pub rows : All Lifecycle q.db.jobs
  pub ids : Distinct (job_ids q.db.jobs)
  pub known : All (λ (j : Job). In j.id q.issued) q.db.jobs
  pub busy : All (λ (j : Job). In j.id q.held → is_running j.state ≡ true) q.db.jobs
  pub held_once : Distinct q.held
  pub held_known : All (λ (i : ℕ). In i q.issued) q.held
