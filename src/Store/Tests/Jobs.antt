-- ===== src/Store/Tests/Jobs.antt =====
-- Runs of the job queue of internal/store/store.go, and its theorems at concrete data.
use batch_managementof_cloud.Prelude.{
  ℕ, Bool, Distinct, In, [], arith, false, inl, refl, some, true, update_where, ◌+◌, ◌==◌, ◌∷◌, ◌≡◌,
  ◌≤◌, ◌⊎◌, All,
}
use batch_managementof_cloud.Model.Failure.{Result, err, not_found, ok}
use batch_managementof_cloud.Model.Records.{Job, of_sync, running, sync_account}
use batch_managementof_cloud.Store.{Db}
use batch_managementof_cloud.Store.Jobs.{
  claim_job, enqueue_job, enqueue_stale_syncs, is_due, is_running, new_job, start, stale_sync_jobs,
}
use batch_managementof_cloud.Store.Jobs.Claim.{IsOldest, claim_job-IsOldest}
use batch_managementof_cloud.Store.Jobs.Queue.{
  Lifecycle, Queue, Reach, claim, enqueue, here, next, Inv, schedule,
}
use batch_managementof_cloud.Store.Jobs.Queue.Once.{Reach-once}
use batch_managementof_cloud.Store.Jobs.Queue.Stuck.{stuck_forever}
use batch_managementof_cloud.Store.Jobs.Sync.{
  enqueue_stale_syncs-le_one, live_syncs, Scheduled, enqueue_stale_syncs-live_syncs,
}
use batch_managementof_cloud.Store.Tests.{small, linked}

abbrev sync_job : Job
unfolding new_job
sync_job = new_job 6 7 1 (some 10) sync_account (of_sync 10)

abbrev queued_db : Db
queued_db = record small { jobs = sync_job ∷ [] }

abbrev none_locked : ℕ → Bool
none_locked i = false

claim_job-IsOldest_example :
    ((claim_job queued_db 8 none_locked ≡ (err not_found, queued_db))
      × ((k : Job) → In k queued_db.jobs → is_due 8 none_locked k ≡ false))
    ⊎ ((j : Job) × IsOldest 8 none_locked queued_db.jobs j
        × (claim_job queued_db 8 none_locked ≡ (
          ok (record j { state = running; attempts = j.attempts + 1 }),
          record queued_db { jobs = update_where (λ k. k.id == j.id) (start 8) queued_db.jobs },
        )))
claim_job-IsOldest_example = claim_job-IsOldest 8 none_locked queued_db

-- The account 10 has a live sync job, and the stale account 11 has none.
abbrev two_accounts : Db
two_accounts = record queued_db { cloud_accounts = linked ∷ record linked { id = 11 } ∷ [] }

enqueue_stale_syncs-live_syncs_example :
    Scheduled 9 1 two_accounts (enqueue_stale_syncs two_accounts 9 1 (λ a. 8 + a))
enqueue_stale_syncs-live_syncs_example =
    enqueue_stale_syncs-live_syncs two_accounts 9 1 (λ a. 8 + a)

enqueue_stale_syncs-le_one_example : live_syncs 10 (enqueue_stale_syncs small 9 1 (λ a. 8)).jobs ≤ 1
enqueue_stale_syncs-le_one_example =
    enqueue_stale_syncs-le_one small 9 1 (λ a. 8) 10 (omega arith) (omega arith)

-- A job is added and claimed.
abbrev empty_queue : Queue
empty_queue = record { db = small; held = []; issued = [] }

abbrev one_queued : Queue
one_queued = record { db = queued_db; held = []; issued = 7 ∷ [] }

abbrev claimed : Result Job × Db
unfolding claim_job
claimed = claim_job queued_db 8 none_locked

abbrev one_running : Queue
one_running = record { db = claimed.1; held = 7 ∷ []; issued = 7 ∷ [] }

abbrev running_job : Job
unfolding sync_job
running_job = start 8 sync_job

added_and_claimed : Reach empty_queue one_running
unfolding enqueue_job claimed sync_job
added_and_claimed =
    next
      (next here
        (enqueue 6 7 1 (some 10) sync_account (of_sync 10) sync_job (λ i. i) refl refl refl))
      (claim 8 none_locked (record sync_job { state = running; attempts = 1 }) refl refl refl)

Reach-once_example :
    Lifecycle running_job
    × (running_job.attempts ≤ 1)
    × Distinct one_running.held
    × (In running_job.id one_running.held → is_running running_job.state ≡ true)
unfolding claimed sync_job
Reach-once_example = Reach-once added_and_claimed refl refl refl running_job (inl refl)

-- Its worker is lost, and the scheduler runs.
abbrev orphaned : Queue
orphaned = record { db = claimed.1; held = []; issued = 7 ∷ [] }

abbrev scheduled : Queue
scheduled = record { db = enqueue_stale_syncs claimed.1 9 1 (λ a. 8); held = []; issued = 7 ∷ [] }

All-running : All Lifecycle claimed.1.jobs
unfolding claimed sync_job
All-running = (record { attempted = refl; started = refl; finished = refl; progressed = refl }, tt)

orphaned-Inv : Inv orphaned
unfolding claimed sync_job
orphaned-Inv = record {
  rows = All-running;
  ids = (λ i. i, tt);
  known = (inl refl, tt);
  busy = (λ i. absurd i, tt);
  held_once = tt;
  held_known = tt;
}

orphaned-scheduled : Reach orphaned scheduled
unfolding claimed sync_job stale_sync_jobs
orphaned-scheduled = next here (schedule 9 1 (λ a. 8) (tt, tt) refl refl refl)

stuck_forever_example :
    In running_job scheduled.db.jobs
    × (is_running running_job.state ≡ true)
    × ((now older_than : ℕ) (ids : ℕ → ℕ)
        → live_syncs 10 (enqueue_stale_syncs scheduled.db now older_than ids).jobs
          ≡ live_syncs 10 scheduled.db.jobs)
unfolding claimed sync_job orphaned-scheduled
stuck_forever_example =
    stuck_forever 10 running_job orphaned-scheduled orphaned-Inv (tt, tt) refl refl
      (record { listed = inl refl; issued = inl refl; busy = refl; unheld = λ i. i })
