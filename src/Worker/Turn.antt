-- ===== src/Worker/Turn.antt =====
-- What a turn of a worker does to the job that it claims: `ProcessNext` of
-- internal/worker/worker.go.
use batch_managementof_cloud.Prelude.{
  ℕ, Option, Option-cases, ap, false, if◌then◌else◌, inl, inr, is_some, none, refl, some,
  update_where, ◌+◌, ◌==◌, ◌∙◌, ◌≡◌,
}
use batch_managementof_cloud.Model.Failure.{Error, Result, err, join, ok, wrap}
use batch_managementof_cloud.Model.Records.{Job}
use batch_managementof_cloud.Store.{Db}
use batch_managementof_cloud.Store.Jobs.{claim_job, finish, update_job}
use batch_managementof_cloud.Effects.{Env, Program, World, of_result, raise}
use batch_managementof_cloud.Effects.Runs.{bind-attempt, bind-ok, statement-failed, statement-ran}
use batch_managementof_cloud.Worker.Accounts.{Report}
use batch_managementof_cloud.Worker.Frame.Jobs.{process-Frame}
use batch_managementof_cloud.Worker.Process.{
  conclude, process, process_next, record_report, reported,
}
use batch_managementof_cloud.Worker.Reports.{Settled, reported-Settled}

module _ (fuel : ℕ) (env : Env) (w : World) where
  -- The world after the claim.
  abbrev pub claimed_world : Db → World
  claimed_world db = record w { db = db; tick = w.tick + 1 }

  abbrev pub finished_world : Job → Db → World
  finished_world job db = (process fuel job env (claimed_world db)).1

  abbrev pub final_report : Job → Db → Report
  final_report job db = reported (process fuel job env (claimed_world db)).0

  turn :
      (job : Job) (db : Db)
      → env.fault w.tick ≡ none
      → claim_job w.db (env.clock w.tick) (λ i. false) ≡ (ok job, db)
      → process_next fuel env w
        ≡ conclude fuel job
            (final_report job db)
            (record_report fuel job (final_report job db) env (finished_world job db)).0
            env
            (record_report fuel job (final_report job db) env (finished_world job db)).1
  unfolding process_next
  turn job db fault claim =
      bind-ok _ _ env w (claimed_world db) job (
        statement-ran (λ now ids db. claim_job db now (λ i. false)) env w fault
        ∙ ap (λ (r : Result Job × Db). (r.0, claimed_world r.1)) claim)
      ∙ bind-attempt (process fuel job) _ env (claimed_world db)
      ∙ bind-attempt (record_report fuel job (final_report job db)) _ env (finished_world job db)

  conclude-db :
      (job : Job) (r : Report) (saved : Result (Unit {0})) (v : World)
      → (conclude fuel job r saved env v).1.db.jobs ≡ v.db.jobs
  unfolding conclude of_result raise
  conclude-db job r saved v = decided r.error saved
    where
      decided :
          (o : Option Error) (saved : Result (Unit {0}))
          → ((elim o as (λ o. Program (Unit {0})) [
            | none ↦ of_result saved
            | some e ↦ elim saved as (λ s. Program (Unit {0})) [
              | ok done ↦ raise (wrap "job" e)
              | err f ↦ raise (wrap "job" (join e (wrap "persist failed job state" f)))
            ]
          ])
              env v).1.db.jobs
            ≡ v.db.jobs
      decided none saved = refl
      decided (some e) (ok done) = refl
      decided (some e) (err f) = refl

  -- A worker that has claimed a job ends its turn in one of two ways, whatever the provider replies
  -- and whichever statements of the handler fail. If the last statement fails, the row of the job
  -- stays as the claim left it, `running`. If it runs, the row gets the report of the handler: its
  -- state is final, its progress 100, it has an error message unless it is `succeeded`, and a job
  -- that is `succeeded` lists no failure. No other row of the table changes, but for what the claim
  -- wrote.
  pub process_next-Settled :
      (job : Job) (db : Db)
      → env.fault w.tick ≡ none
      → claim_job w.db (env.clock w.tick) (λ i. false) ≡ (ok job, db)
      → Settled (final_report job db)
        × ((process_next fuel env w).1.db.jobs ≡ (
            if is_some (env.fault (finished_world job db).tick)
            then db.jobs
            else update_where
                (λ j. j.id == job.id)
                (finish
                  (env.clock (finished_world job db).tick)
                  (final_report job db).state
                  100
                  (final_report job db).result
                  (final_report job db).action_ids
                  (final_report job db).error)
                db.jobs))
  unfolding record_report update_job
  process_next-Settled job db fault claim = (
    reported-Settled fuel job env (claimed_world db),
    ap (λ (r : Result (Unit {0}) × World). r.1.db.jobs) (turn job db fault claim)
        ∙ conclude-db job (final_report job db) _ _
        ∙ elim (Option-cases (env.fault (finished_world job db).tick)) [
          | inl e ↦
              ap (λ (r : Result (Unit {0}) × World). r.1.db.jobs)
                (statement-ran _ env (finished_world job db) e)
              ∙ ap
                  (update_where (λ j. j.id == job.id)
                    (finish (env.clock (finished_world job db).tick) (final_report job db).state 100
                      (final_report job db).result (final_report job db).action_ids
                      (final_report job db).error))
                  kept
              ∙ rw e refl
          | inr (fault_error, e) ↦
              ap (λ (r : Result (Unit {0}) × World). r.1.db.jobs)
                (statement-failed _ env (finished_world job db) fault_error e)
              ∙ kept
              ∙ rw e refl
        ],
  )
    where
      kept : (finished_world job db).db.jobs ≡ db.jobs
      kept = (process-Frame fuel job env (claimed_world db)).tables.jobs
