-- ===== src/Store/Jobs.antt =====
-- The job queue: the methods on the `jobs` table of internal/store/store.go.
pub mod Claim
pub mod Sync
pub mod Queue
use batch_managementof_cloud.Prelude.{
  ℕ, suc, ◌+◌, ◌-◌, ◌≡◌, Bool, true, false, ◌&&◌, ◌||◌, not, Option, none, some, List, [], ◌∷◌,
  ◌++◌, ℤ, ltb, leb, ◌==◌, if◌then◌else◌, is_just, coalesce, update_where, exists_where,
}
use batch_managementof_cloud.Model.Failure.{
  Error, Result, ok, err, not_found, unique_violation, foreign_key_violation, check_violation,
}
use batch_managementof_cloud.Model.Records.{
  CloudAccount, Job, JobState, queued, running, succeeded, failed, partial, Kind, sync_account,
  Payload, of_sync, Outcome, no_result,
}
use batch_managementof_cloud.Store.{Db}

abbrev pub is_queued : JobState → Bool
is_queued queued = true
is_queued _ = false

abbrev pub is_running : JobState → Bool
is_running running = true
is_running _ = false

-- `state IN ('succeeded','failed','partial')`
abbrev pub is_finished : JobState → Bool
is_finished queued = false
is_finished running = false
is_finished _ = true

abbrev pub is_sync : Kind → Bool
is_sync sync_account = true
is_sync _ = false

-- The row that an INSERT makes, with the column defaults of the table.
unfoldable pub new_job : ℕ → ℕ → ℕ → Option ℕ → Kind → Payload → Job
new_job now id user account kind payload = record {
  id = id;
  user_id = user;
  account_id = account;
  kind = kind;
  state = queued;
  payload = payload;
  result = no_result;
  provider_action_ids = [];
  progress = 0;
  attempts = 0;
  error_message = none;
  scheduled_at = now;
  started_at = none;
  finished_at = none;
  created_at = now;
  updated_at = now;
}

abbrev has_account : Db → Option ℕ → Bool
has_account db none = true
has_account db (some a) = exists_where (λ (r : CloudAccount). r.id == a) db.cloud_accounts

-- `EnqueueJob`. The id is the one that `gen_random_uuid()` gives.
unfoldable pub enqueue_job : Db → ℕ → ℕ → ℕ → Option ℕ → Kind → Payload → Result Job × Db
enqueue_job db now id user account kind payload =
    let job = new_job now id user account kind payload in
    if exists_where (λ (j : Job). j.id == id) db.jobs
    then (err unique_violation, db)
    else if exists_where (λ r. r.id == user) db.users && has_account db account
    then (ok job, record db { jobs = db.jobs ++ job ∷ [] })
    else (err foreign_key_violation, db)

-- `state='queued' AND scheduled_at<=now()`, and not locked by another transaction.
abbrev pub is_due : ℕ → (ℕ → Bool) → Job → Bool
is_due now locked j = is_queued j.state && leb j.scheduled_at now && not (locked j.id)

abbrev pub earlier : Job → Option Job → Job
earlier j none = j
earlier j (some k) = if leb j.created_at k.created_at then j else k

-- `SELECT … ORDER BY created_at FOR UPDATE SKIP LOCKED LIMIT 1`
unfoldable pub next_due : ℕ → (ℕ → Bool) → List Job → Option Job
next_due now locked [] = none
next_due now locked (j ∷ js) =
    let rest = next_due now locked js in if is_due now locked j then some (earlier j rest) else rest

-- `UPDATE jobs SET state='running', …`
abbrev pub start : ℕ → Job → Job
start now j = record j {
  state = running;
  started_at = some (coalesce j.started_at now);
  attempts = j.attempts + 1;
  updated_at = now;
}

-- `ClaimJob`. The job that is returned has the new state and count, and the old times.
unfoldable pub claim_job : Db → ℕ → (ℕ → Bool) → Result Job × Db
unfolding next_due
claim_job db now locked = elim (next_due now locked db.jobs) [
  | none ↦ (err not_found, db)
  | some claimed ↦ (
    ok (record claimed { state = running; attempts = claimed.attempts + 1 }),
    record db { jobs = update_where (λ j. j.id == claimed.id) (start now) db.jobs },
  )
]

-- `UPDATE jobs SET state=$2, …`
abbrev pub finish : ℕ → JobState → ℕ → Outcome → List ℤ → Option Error → Job → Job
finish now state progress result action_ids message j = record j {
  state = state;
  progress = progress;
  result = result;
  provider_action_ids = action_ids;
  error_message = message;
  finished_at = if is_finished state then some now else j.finished_at;
  updated_at = now;
}

-- `UpdateJob`. A nil list of action ids is an empty one; an unknown id changes nothing.
unfoldable pub update_job :
    Db → ℕ → ℕ → JobState → ℕ → Outcome → List ℤ → Option Error → Result (Unit {0}) × Db
update_job db now id state progress result action_ids message =
    if leb progress 100
    then (
      ok tt,
      record db {
        jobs =
            update_where (λ j. j.id == id) (finish now state progress result action_ids message)
              db.jobs;
      },
    )
    else (err check_violation, db)

-- `j.kind='sync_account' AND j.state IN ('queued','running')`, for the account.
abbrev pub is_live_sync : ℕ → Job → Bool
is_live_sync account j =
    is_just j.account_id account && is_sync j.kind && (is_queued j.state || is_running j.state)

abbrev pub is_stale : ℕ → ℕ → CloudAccount → Bool
is_stale now older_than a = elim a.last_synced_at [
  | none ↦ true
  | some t ↦ ltb (t + older_than) now
]

-- The rows that the SELECT of `EnqueueStaleSyncs` gives. `ids` gives the new job's id.
unfoldable pub stale_sync_jobs : ℕ → ℕ → (ℕ → ℕ) → List Job → List CloudAccount → List Job
stale_sync_jobs now older_than ids jobs [] = []
stale_sync_jobs now older_than ids jobs (a ∷ accounts) =
    let job = new_job now (ids a.id) a.user_id (some a.id) sync_account (of_sync a.id) in
    let rest = stale_sync_jobs now older_than ids jobs accounts in
    if is_stale now older_than a && not (exists_where (is_live_sync a.id) jobs)
    then job ∷ rest
    else rest

-- `EnqueueStaleSyncs`. The new ids are those that `gen_random_uuid()` gives, one for each row.
unfoldable pub enqueue_stale_syncs : Db → ℕ → ℕ → (ℕ → ℕ) → Db
enqueue_stale_syncs db now older_than ids = record db {
  jobs = db.jobs ++ stale_sync_jobs now older_than ids db.jobs db.cloud_accounts;
}
