-- ===== src/Store/Jobs/Queue/Claims.antt =====
-- The step that claims a job.
use batch_managementof_cloud.Prelude.{
  ==_iff, All, All-In, All-of_In, All-update_where, All-update_where_to, Bool, In, List, ap, arith,
  inl, inr, map-update_where, refl, subst, sym, true, unique_row, update_where, ℕ, ◌==◌, ◌∙◌, ◌∷◌,
  ◌≡◌,
}
use batch_managementof_cloud.Model.Failure.{Result, ok}
use batch_managementof_cloud.Model.Records.{Job}
use batch_managementof_cloud.Store.{Db}
use batch_managementof_cloud.Store.Jobs.{claim_job, is_queued, is_running, start}
use batch_managementof_cloud.Store.Jobs.Claim.{IsOldest, claim_job-IsOldest}
use batch_managementof_cloud.Store.Jobs.Queue.{Inv, Lifecycle, Queue}

pub found_queued :
    (now : ℕ) (locked : ℕ → Bool) (jobs : List Job) (j : Job)
    → IsOldest now locked jobs j
    → is_queued j.state ≡ true
found_queued now locked jobs j found = let d = found.due in ground arith

pub queued_not_running : (j : Job) → is_queued j.state ≡ true → is_running j.state ≡ true → ⊥
queued_not_running j h k = ground arith

-- A claim of the oldest row that is due.
module _ (q r : Queue) (now : ℕ) (locked : ℕ → Bool) (j : Job) (v : Inv q)
    (found : IsOldest now locked q.db.jobs j)
    (jobs : r.db.jobs ≡ update_where (λ (k : Job). k.id == j.id) (start now) q.db.jobs)
    (held : r.held ≡ j.id ∷ q.held) (issued : r.issued ≡ q.issued) where
  not_held : ¬ In j.id q.held
  not_held i =
      let b : is_running j.state ≡ true =
        All-In (λ (k : Job). In k.id q.held → is_running k.state ≡ true) q.db.jobs v.busy j
          found.listed i in
      queued_not_running j (found_queued now locked q.db.jobs j found) b

  -- The claimed id belongs to the claimed row alone.
  only_row :
      All
        (λ (k : Job).
          Lifecycle k
          × (In k.id q.held → is_running k.state ≡ true)
          × (k.id ≡ j.id → is_queued k.state ≡ true))
        q.db.jobs
  only_row = All-of_In _ q.db.jobs λ k i. (
    All-In Lifecycle q.db.jobs v.rows k i,
    All-In (λ (k : Job). In k.id q.held → is_running k.state ≡ true) q.db.jobs v.busy k i,
    λ e.
        subst (λ (x : Job). is_queued x.state ≡ true)
          (sym (unique_row (λ (k : Job). k.id) q.db.jobs k j v.ids i found.listed e))
          (found_queued now locked q.db.jobs j found),
  )

  claim-rows : All Lifecycle r.db.jobs
  claim-rows = rw jobs (
      All-update_where_to _ Lifecycle (λ (k : Job). k.id == j.id) (start now) q.db.jobs
        (λ k e h.
          let k_queued : is_queued k.state ≡ true = h.2 ((==_iff k.id j.id).0 e) in ground arith)
        (λ k e h. h.0) only_row)

  claim-busy : All (λ (k : Job). In k.id r.held → is_running k.state ≡ true) r.db.jobs
  claim-busy =
      rw (jobs, held)
        (All-update_where_to _ (λ (k : Job). In k.id (j.id ∷ q.held) → is_running k.state ≡ true)
          (λ (k : Job). k.id == j.id) (start now) q.db.jobs (λ k e h i. refl)
          (λ k e h. elim [
            | inl p ↦ let hit : (k.id == j.id) ≡ true = (==_iff k.id j.id).1 p in cc
            | inr m ↦ h.1 m
          ])
          only_row)

  claim-known : All (λ (k : Job). In k.id r.issued) r.db.jobs
  claim-known =
      rw (jobs, issued)
        (All-update_where (λ (k : Job). In k.id q.issued) (λ (k : Job). k.id == j.id) (start now)
          q.db.jobs (λ k e h. h) v.known)

  claim-held_known : All (λ (i : ℕ). In i r.issued) r.held
  claim-held_known = rw held (
      subst (λ (t : List ℕ). All (λ (i : ℕ). In i t) (j.id ∷ q.held)) (sym issued)
        (All-In (λ (k : Job). In k.id q.issued) q.db.jobs v.known j found.listed, v.held_known))

  pub claim-Inv : Inv r
  claim-Inv = record {
    rows = claim-rows;
    ids =
        rw
          (
            jobs,
            map-update_where (λ (k : Job). k.id) (λ (k : Job). k.id == j.id) (start now) q.db.jobs
                (λ k. refl),
          )
          v.ids;
    known = claim-known;
    busy = claim-busy;
    held_once = rw held (not_held, v.held_once);
    held_known = claim-held_known;
  }

-- A successful claim, as `claim_job-IsOldest` describes it.
pub claim_job-found :
    (db : Db) (now : ℕ) (locked : ℕ → Bool) (job : Job) (db' : Db)
    → claim_job db now locked ≡ (ok job, db')
    → (j : Job) × IsOldest now locked db.jobs j
      × (job.id ≡ j.id)
      × (db'.jobs ≡ update_where (λ (k : Job). k.id == j.id) (start now) db.jobs)
claim_job-found db now locked job db' e = elim (claim_job-IsOldest now locked db) [
  | inl (n, _) ↦ let t = sym e ∙ n in cc
  | inr (j, found, s) ↦
      let t = sym e ∙ s in (j, found, ground arith, ap (λ (p : Result Job × Db). p.1.jobs) t)
]
