-- ===== src/Store/Jobs/Queue/Writes.antt =====
-- The steps that write a job back, lose its worker or delete rows.
use batch_managementof_cloud.Prelude.{
  ==_iff, All, All-In, All-delete_where, All-map, All-of_In, All-update_where, All-update_where_to,
  Bool, Distinct-delete_where, Distinct-map_delete, In, In-delete_where, List, Option, arith,
  delete_where, false, map-update_where, refl, subst, sym, true, update_where, ℕ, ℤ, ◌==◌, ◌≡◌,
}
use batch_managementof_cloud.Model.Failure.{Error}
use batch_managementof_cloud.Model.Records.{Job, JobState, Outcome}
use batch_managementof_cloud.Store.Jobs.{finish, is_finished, is_running}
use batch_managementof_cloud.Store.Jobs.Queue.{Inv, Lifecycle, Queue, let_go}

-- The last write of a worker, on a job that it holds.
module _ (q r : Queue) (now id : ℕ) (state : JobState) (outcome : Outcome) (actions : List ℤ)
    (message : Option Error) (v : Inv q) (mine : In id q.held) (ended : is_finished state ≡ true)
    (jobs : r.db.jobs
      ≡ update_where
          (λ (k : Job). k.id == id)
          (finish now state 100 outcome actions message)
          q.db.jobs)
    (held : r.held ≡ let_go id q.held) (issued : r.issued ≡ q.issued) where
  both : All (λ (k : Job). Lifecycle k × (In k.id q.held → is_running k.state ≡ true)) q.db.jobs
  both = All-of_In _ q.db.jobs λ k i. (
    All-In Lifecycle q.db.jobs v.rows k i,
    All-In (λ (k : Job). In k.id q.held → is_running k.state ≡ true) q.db.jobs v.busy k i,
  )

  complete-rows : All Lifecycle r.db.jobs
  complete-rows = rw jobs (
      All-update_where_to _ Lifecycle (λ (k : Job). k.id == id)
        (finish now state 100 outcome actions message) q.db.jobs
        (λ k e h.
          let k_running : is_running k.state ≡ true = h.1 (rw ((==_iff k.id id).0 e) mine) in
          ground arith)
        (λ k e h. h.0) both)

  complete-busy : All (λ (k : Job). In k.id r.held → is_running k.state ≡ true) r.db.jobs
  complete-busy =
      rw (jobs, held)
        (All-update_where_to _ (λ (k : Job). In k.id (let_go id q.held) → is_running k.state ≡ true)
          (λ (k : Job). k.id == id) (finish now state 100 outcome actions message) q.db.jobs
          (λ k e h i.
            let gone : (k.id == id) ≡ false =
              (In-delete_where (λ (i : ℕ). i == id) q.held k.id i).1 in
            cc)
          (λ k e h i. h.1 (In-delete_where (λ (i : ℕ). i == id) q.held k.id i).0) both)

  pub complete-Inv : Inv r
  complete-Inv = record {
    rows = complete-rows;
    ids =
        rw
          (
            jobs,
            map-update_where (λ (k : Job). k.id) (λ (k : Job). k.id == id)
                (finish now state 100 outcome actions message) q.db.jobs (λ k. refl),
          )
          v.ids;
    known =
        rw (jobs, issued)
          (All-update_where (λ (k : Job). In k.id q.issued) (λ (k : Job). k.id == id)
            (finish now state 100 outcome actions message) q.db.jobs (λ k e h. h) v.known);
    busy = complete-busy;
    held_once = rw held (Distinct-delete_where (λ (i : ℕ). i == id) q.held v.held_once);
    held_known = rw held (
        subst (λ (t : List ℕ). All (λ (i : ℕ). In i t) (let_go id q.held)) (sym issued)
          (All-delete_where (λ (i : ℕ). In i q.issued) (λ (i : ℕ). i == id) q.held v.held_known));
  }

-- Rows and holders that only shrink.
module _ (q r : Queue) (v : Inv q) (p : Job → Bool) (h : ℕ → Bool)
    (jobs : r.db.jobs ≡ delete_where p q.db.jobs) (held : r.held ≡ delete_where h q.held)
    (issued : r.issued ≡ q.issued) where
  pub shrink-Inv : Inv r
  shrink-Inv = record {
    rows = rw jobs (All-delete_where Lifecycle p q.db.jobs v.rows);
    ids = rw jobs (Distinct-map_delete (λ (k : Job). k.id) p q.db.jobs v.ids);
    known =
        rw (jobs, issued) (All-delete_where (λ (k : Job). In k.id q.issued) p q.db.jobs v.known);
    busy =
        rw (jobs, held)
          (All-delete_where
            (λ (k : Job). In k.id (delete_where h q.held) → is_running k.state ≡ true) p q.db.jobs
            (All-map (λ (k : Job). In k.id q.held → is_running k.state ≡ true) _ q.db.jobs
              (λ k b i. b (In-delete_where h q.held k.id i).0) v.busy));
    held_once = rw held (Distinct-delete_where h q.held v.held_once);
    held_known = rw held (
        subst (λ (t : List ℕ). All (λ (i : ℕ). In i t) (delete_where h q.held)) (sym issued)
          (All-delete_where (λ (i : ℕ). In i q.issued) h q.held v.held_known));
  }
