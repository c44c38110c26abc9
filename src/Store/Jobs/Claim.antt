-- ===== src/Store/Jobs/Claim.antt =====
-- Which job `ClaimJob` takes.
use batch_managementof_cloud.Prelude.{
  ℕ, ◌+◌, ◌≤◌, ◌≡◌, refl, ◌⊎◌, inl, inr, Bool, true, false, Option, none, some, List, [], ◌∷◌,
  arith, ◌==◌, leb, In, update_where, Option-cases, Bool-cases,
}
use batch_managementof_cloud.Model.Failure.{ok, err, not_found}
use batch_managementof_cloud.Model.Records.{Job, running}
use batch_managementof_cloud.Store.{Db}
use batch_managementof_cloud.Store.Jobs.{is_due, next_due, start, claim_job, earlier}

module _ (now : ℕ) (locked : ℕ → Bool) where
  -- `j` is due and unlocked, and no other such job was created before it.
  pub record IsOldest (jobs : List Job) (j : Job) : Type 0 where
    pub listed : In j jobs
    pub due : is_due now locked j ≡ true
    pub oldest : (k : Job) → In k jobs → is_due now locked k ≡ true → j.created_at ≤ k.created_at

  -- The row that is found is the oldest one that is due, and none is found only if none is due.
  abbrev Found : List Job → Option Job → Type 0
  Found jobs none = (k : Job) → In k jobs → is_due now locked k ≡ false
  Found jobs (some j) = IsOldest jobs j

  Found-skip :
      (j : Job) (js : List Job) (r : Option Job)
      → is_due now locked j ≡ false
      → Found js r
      → Found (j ∷ js) r
  Found-skip j js none e f = λ k. elim [ inl p ↦ rw p e | inr i ↦ f k i ]
  Found-skip j js (some o) e f = record {
    listed = inr f.listed;
    due = f.due;
    oldest = λ k. elim [ inl p ↦ λ d. absurd_due j k e p d | inr i ↦ λ d. f.oldest k i d ];
  }
    where
      absurd_due :
          (j k : Job)
          → is_due now locked j ≡ false
          → k ≡ j
          → is_due now locked k ≡ true
          → o.created_at ≤ k.created_at
      absurd_due j k e p d = let d' : is_due now locked j ≡ true = rw (← p) d in cc

  Found-take :
      (j : Job) (js : List Job) (r : Option Job)
      → is_due now locked j ≡ true
      → Found js r
      → IsOldest (j ∷ js) (earlier j r)
  Found-take j js none e f = record {
    listed = inl refl;
    due = e;
    oldest = λ k. elim [ inl p ↦ λ d. rw p (omega arith) | inr i ↦ λ d. absurd_in k i d ];
  }
    where
      absurd_in : (k : Job) → In k js → is_due now locked k ≡ true → j.created_at ≤ k.created_at
      absurd_in k i d = let d' : is_due now locked k ≡ false = f k i in cc
  Found-take j js (some o) e f = elim (Bool-cases (leb j.created_at o.created_at)) [
    | inl l ↦ rw l (record {
      listed = inl refl;
      due = e;
      oldest = λ k. elim [
        | inl p ↦ λ d. rw p (omega arith)
        | inr i ↦ λ d. ground (arith, f.oldest k i d)
      ];
    })
    | inr g ↦ rw g (record {
      listed = inr f.listed;
      due = f.due;
      oldest = λ k. elim [ inl p ↦ λ d. rw p (ground arith) | inr i ↦ λ d. f.oldest k i d ];
    })
  ]

  next_due-Found : (jobs : List Job) → Found jobs (next_due now locked jobs)
  unfolding next_due
  next_due-Found [] = λ k i. absurd i
  next_due-Found (j ∷ js) = elim (Bool-cases (is_due now locked j)) [
    | inl e ↦ rw e (Found-take j js (next_due now locked js) e (next_due-Found js))
    | inr e ↦ rw e (Found-skip j js (next_due now locked js) e (next_due-Found js))
  ]

  -- A claim answers `not_found` and changes nothing exactly when no queued job is due and unlocked;
  -- else it takes the due unlocked job with the least creation time, returns it as running with one
  -- more attempt, and starts exactly the rows of its id.
  pub claim_job-IsOldest :
      (db : Db)
      → ((claim_job db now locked ≡ (err not_found, db))
          × ((k : Job) → In k db.jobs → is_due now locked k ≡ false))
        ⊎ ((j : Job) × IsOldest db.jobs j
            × (claim_job db now locked ≡ (
              ok (record j { state = running; attempts = j.attempts + 1 }),
              record db { jobs = update_where (λ k. k.id == j.id) (start now) db.jobs },
            )))
  unfolding claim_job
  claim_job-IsOldest db = elim (Option-cases (next_due now locked db.jobs)) [
    | inl e ↦ inl (rw (e, claim_job), rw e at (next_due-Found db.jobs))
    | inr (j, e) ↦ inr (j, rw e at (next_due-Found db.jobs), rw (e, claim_job))
  ]
