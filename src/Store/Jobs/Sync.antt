-- ===== src/Store/Jobs/Sync.antt =====
-- The scheduler's statement, `EnqueueStaleSyncs`: which accounts get a sync job.
use batch_managementof_cloud.Prelude.{
  ℕ, ◌+◌, ◌≤◌, ◌≡◌, refl, inl, inr, Bool, true, false, ◌&&◌, List, [], ◌∷◌, ◌++◌, arith, ◌==◌,
  if◌then◌else◌, exists_where, count_where, Bool-cases, ==_iff, ap, All, In, some,
}
use batch_managementof_cloud.Model.Records.{CloudAccount, Job, Kind, of_sync}
use batch_managementof_cloud.Store.{Db}
use batch_managementof_cloud.Store.Jobs.{
  is_live_sync, is_stale, new_job, stale_sync_jobs, enqueue_stale_syncs, is_queued,
}

-- How many live sync jobs an account has.
abbrev pub live_syncs : ℕ → List Job → ℕ
live_syncs a = count_where (is_live_sync a)

-- How often an account stands in the list.
abbrev rows_of : ℕ → List CloudAccount → ℕ
rows_of a = count_where (λ (r : CloudAccount). r.id == a)

count_where-append :
    (p : Job → Bool) (xs ys : List Job)
    → count_where p (xs ++ ys) ≡ count_where p xs + count_where p ys
count_where-append p [] ys = omega arith
count_where-append p (x ∷ xs) ys = omega (arith, count_where-append p xs ys)

exists_where-count :
    (p : Job → Bool) (xs : List Job) → exists_where p xs ≡ false → count_where p xs ≡ 0
exists_where-count p [] h = refl
exists_where-count p (x ∷ xs) h = ground (arith, exists_where-count p xs)

count-pos_exists :
    (p : Job → Bool) (xs : List Job) → exists_where p xs ≡ true → 1 ≤ count_where p xs
count-pos_exists p [] h = cc
count-pos_exists p (x ∷ xs) h = ground (arith, count-pos_exists p xs)

module _ (now older_than : ℕ) (ids : ℕ → ℕ) (jobs : List Job) (a : ℕ) where
  same_tests :
      (r : CloudAccount)
      → (r.id == a) ≡ true
      → exists_where (is_live_sync r.id) jobs ≡ exists_where (is_live_sync a) jobs
  same_tests r e = ap (λ (t : ℕ). exists_where (is_live_sync t) jobs) ((==_iff r.id a).0 e)

  -- An account with a live sync job gets none.
  stale_sync_jobs-live :
      (accounts : List CloudAccount)
      → exists_where (is_live_sync a) jobs ≡ true
      → live_syncs a (stale_sync_jobs now older_than ids jobs accounts) ≡ 0
  unfolding stale_sync_jobs new_job
  stale_sync_jobs-live [] h = refl
  stale_sync_jobs-live (r ∷ rs) h = ground (arith, same_tests r, stale_sync_jobs-live rs h)

  -- Any other account gets one for each stale row.
  stale_sync_jobs-idle :
      (accounts : List CloudAccount)
      → exists_where (is_live_sync a) jobs ≡ false
      → live_syncs a (stale_sync_jobs now older_than ids jobs accounts)
        ≡ count_where (λ r. (r.id == a) && is_stale now older_than r) accounts
  unfolding stale_sync_jobs new_job
  stale_sync_jobs-idle [] h = refl
  stale_sync_jobs-idle (r ∷ rs) h = ground (arith, same_tests r, stale_sync_jobs-idle rs h)

-- A job that the scheduler adds: for a stale account that has no live sync job, on behalf of its
-- owner, and not claimed yet.
pub record IsSync (now older_than : ℕ) (before : Db) (j : Job) : Type 0 where
  pub row : CloudAccount
  pub there : In row before.cloud_accounts
  pub stale : is_stale now older_than row ≡ true
  pub idle : exists_where (is_live_sync row.id) before.jobs ≡ false
  pub target : j.account_id ≡ some row.id
  pub asker : j.user_id ≡ row.user_id
  pub kind : j.kind ≡ Kind.sync_account
  pub payload : j.payload ≡ of_sync row.id
  pub waiting : is_queued j.state ≡ true
  pub untried : j.attempts ≡ 0
  pub due : j.scheduled_at ≡ now

added-IsSync :
    (db : Db) (now older_than : ℕ) (ids : ℕ → ℕ) (accounts : List CloudAccount)
    → ((r : CloudAccount) → In r accounts → In r db.cloud_accounts)
    → All (IsSync now older_than db) (stale_sync_jobs now older_than ids db.jobs accounts)
unfolding stale_sync_jobs new_job
added-IsSync db now older_than ids [] inside = tt
added-IsSync db now older_than ids (r ∷ rs) inside =
    let rest = added-IsSync db now older_than ids rs (λ s i. inside s (inr i)) in
    elim (Bool-cases (is_stale now older_than r)) [
      | inr fresh ↦ rw fresh rest
      | inl stale ↦ elim (Bool-cases (exists_where (is_live_sync r.id) db.jobs)) [
        | inl busy ↦ rw (stale, busy) rest
        | inr idle ↦
            rw (stale, idle)
              (
                record {
                  row = r;
                  there = inside r (inl refl);
                  stale = stale;
                  idle = idle;
                  target = refl;
                  asker = refl;
                  kind = refl;
                  payload = refl;
                  waiting = refl;
                  untried = refl;
                  due = refl;
                },
                rest,
              )
      ]
    ]

-- What the scheduler's statement does to the jobs.
pub record Scheduled (now older_than : ℕ) (before after : Db) : Type 0 where
  pub added : List Job
  pub rows : after.jobs ≡ before.jobs ++ added
  pub only : All (IsSync now older_than before) added
  pub each :
      (a : ℕ)
      → live_syncs a added ≡ (
          if exists_where (is_live_sync a) before.jobs
          then 0
          else count_where (λ r. (r.id == a) && is_stale now older_than r) before.cloud_accounts)

-- The scheduler's statement leaves every job as it is and adds jobs at the end, each of them a sync
-- job that waits in the queue, for a stale account without a live one and on behalf of its owner. An
-- account that has a live sync job gets none, and any other one gets one for each of its rows that
-- is stale.
pub enqueue_stale_syncs-live_syncs :
    (db : Db) (now older_than : ℕ) (ids : ℕ → ℕ)
    → Scheduled now older_than db (enqueue_stale_syncs db now older_than ids)
unfolding enqueue_stale_syncs
enqueue_stale_syncs-live_syncs db now older_than ids = record {
  added = stale_sync_jobs now older_than ids db.jobs db.cloud_accounts;
  rows = refl;
  only = added-IsSync db now older_than ids db.cloud_accounts (λ r i. i);
  each = λ a. elim (Bool-cases (exists_where (is_live_sync a) db.jobs)) [
    | inl e ↦ rw e (stale_sync_jobs-live now older_than ids db.jobs a db.cloud_accounts e)
    | inr e ↦ rw e (stale_sync_jobs-idle now older_than ids db.jobs a db.cloud_accounts e)
  ];
}

-- How many live sync jobs an account has after it.
pub live_syncs_after :
    (db : Db) (now older_than : ℕ) (ids : ℕ → ℕ) (a : ℕ)
    → live_syncs a (enqueue_stale_syncs db now older_than ids).jobs ≡ (
        if exists_where (is_live_sync a) db.jobs
        then live_syncs a db.jobs
        else count_where (λ r. (r.id == a) && is_stale now older_than r) db.cloud_accounts)
unfolding enqueue_stale_syncs
live_syncs_after db now older_than ids a =
    rw
      (count_where-append (is_live_sync a) db.jobs
        (stale_sync_jobs now older_than ids db.jobs db.cloud_accounts))
      (elim (Bool-cases (exists_where (is_live_sync a) db.jobs)) [
        | inl e ↦
            rw e
              (omega (arith, stale_sync_jobs-live now older_than ids db.jobs a db.cloud_accounts e))
        | inr e ↦ rw e (
            omega (
              arith,
              stale_sync_jobs-idle now older_than ids db.jobs a db.cloud_accounts e,
              exists_where-count (is_live_sync a) db.jobs e,
            ))
      ])

stale_rows-le :
    (now older_than a : ℕ) (rs : List CloudAccount)
    → count_where (λ r. (r.id == a) && is_stale now older_than r) rs ≤ rows_of a rs
stale_rows-le now older_than a [] = omega arith
stale_rows-le now older_than a (r ∷ rs) = ground (arith, stale_rows-le now older_than a rs)

-- An account that stands at most once in its table, and that has at most one live sync job, has at
-- most one after the scheduler has run.
pub enqueue_stale_syncs-le_one :
    (db : Db) (now older_than : ℕ) (ids : ℕ → ℕ) (a : ℕ)
    → rows_of a db.cloud_accounts ≤ 1
    → live_syncs a db.jobs ≤ 1
    → live_syncs a (enqueue_stale_syncs db now older_than ids).jobs ≤ 1
enqueue_stale_syncs-le_one db now older_than ids a one live =
    rw (live_syncs_after db now older_than ids a)
      (ground (arith, stale_rows-le now older_than a db.cloud_accounts))
