-- ===== src/Store/Jobs/Queue/Adds.antt =====
-- The steps that add jobs: an accepted request and the scheduler.
use batch_managementof_cloud.Prelude.{
  All, All-In, All-append, All-map, All-of_In, Distinct-append, In, In-append_left, In-append_right,
  In-map, List, Option, [], arith, inl, inr, map-append, true, ℕ, ◌++◌, ◌∷◌, ◌≡◌,
}
use batch_managementof_cloud.Model.Failure.{ok}
use batch_managementof_cloud.Model.Records.{CloudAccount, Job, Kind, Payload}
use batch_managementof_cloud.Store.{Db}
use batch_managementof_cloud.Store.Jobs.{
  enqueue_job, is_queued, is_running, new_job, stale_sync_jobs,
}
use batch_managementof_cloud.Store.Jobs.Queue.{AreNew, Inv, Lifecycle, Queue, job_ids}

ids_of_known :
    (jobs : List Job) (issued : List ℕ)
    → All (λ (j : Job). In j.id issued) jobs
    → (x : ℕ) → In x (job_ids jobs)
    → In x issued
ids_of_known [] issued h x i = absurd i
ids_of_known (j ∷ js) issued h x (inl e) = rw e h.0
ids_of_known (j ∷ js) issued h x (inr i) = ids_of_known js issued h.1 x i

-- An append of queued rows with new ids.
module _ (q r : Queue) (added : List Job) (v : Inv q) (fresh : AreNew added q.issued)
    (queued_rows : All (λ (j : Job). Lifecycle j × (is_queued j.state ≡ true)) added)
    (jobs : r.db.jobs ≡ q.db.jobs ++ added) (held : r.held ≡ q.held)
    (issued : r.issued ≡ job_ids added ++ q.issued) where
  not_issued : (x : ℕ) → In x (job_ids added) → ¬ In x q.issued
  not_issued = All-In (λ (i : ℕ). ¬ In i q.issued) (job_ids added) fresh.1

  append-known : All (λ (j : Job). In j.id r.issued) r.db.jobs
  append-known =
      rw (jobs, issued)
        (All-append (λ (j : Job). In j.id (job_ids added ++ q.issued)) q.db.jobs added
          (All-map (λ (j : Job). In j.id q.issued) _ q.db.jobs
            (λ j i. In-append_right j.id (job_ids added) q.issued i) v.known)
          (All-of_In (λ (j : Job). In j.id (job_ids added ++ q.issued)) added
            λ j i.
              In-append_left j.id (job_ids added) q.issued (In-map (λ (k : Job). k.id) added j i)))

  append-busy : All (λ (j : Job). In j.id r.held → is_running j.state ≡ true) r.db.jobs
  append-busy =
      rw (jobs, held)
        (All-append (λ (j : Job). In j.id q.held → is_running j.state ≡ true) q.db.jobs added v.busy
          (All-of_In (λ (j : Job). In j.id q.held → is_running j.state ≡ true) added
            λ j i h. absurd (
              not_issued j.id (In-map (λ (k : Job). k.id) added j i)
                (All-In (λ (x : ℕ). In x q.issued) q.held v.held_known j.id h))))

  pub append-Inv : Inv r
  append-Inv = record {
    rows = rw jobs (
        All-append Lifecycle q.db.jobs added v.rows (
          All-map (λ (j : Job). Lifecycle j × (is_queued j.state ≡ true)) Lifecycle added
            (λ j h. h.0) queued_rows));
    ids =
        rw (jobs, map-append (λ (j : Job). j.id) q.db.jobs added)
          (Distinct-append (job_ids q.db.jobs) (job_ids added) v.ids fresh.0
            λ x i k. not_issued x k (ids_of_known q.db.jobs q.issued v.known x i));
    known = append-known;
    busy = append-busy;
    held_once = rw held v.held_once;
    held_known =
        rw (held, issued)
          (All-map (λ (i : ℕ). In i q.issued) _ q.held
            (λ i h. In-append_right i (job_ids added) q.issued h) v.held_known);
  }

pub stale_sync_jobs-queued :
    (now older_than : ℕ) (ids : ℕ → ℕ) (jobs : List Job) (accounts : List CloudAccount)
    → All
        (λ (j : Job). Lifecycle j × (is_queued j.state ≡ true))
        (stale_sync_jobs now older_than ids jobs accounts)
unfolding stale_sync_jobs new_job
stale_sync_jobs-queued now older_than ids jobs [] = tt
stale_sync_jobs-queued now older_than ids jobs (a ∷ accounts) =
    ground (arith, stale_sync_jobs-queued now older_than ids jobs accounts)

-- What an accepted request adds.
pub enqueue_job-appends :
    (db : Db) (now id owner : ℕ) (account : Option ℕ) (kind : Kind) (payload : Payload) (job : Job)
    (db' : Db)
    → enqueue_job db now id owner account kind payload ≡ (ok job, db')
    → (job ≡ new_job now id owner account kind payload) × (db'.jobs ≡ db.jobs ++ job ∷ [])
unfolding enqueue_job
enqueue_job-appends db now id owner account kind payload job db' h = ground arith
