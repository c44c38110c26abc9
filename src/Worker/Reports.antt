-- ===== src/Worker/Reports.antt =====
-- What the handlers of internal/worker/worker.go return.
use batch_managementof_cloud.Worker.Accounts
use batch_managementof_cloud.Prelude.{
  Bool, Bool-cases, List, [], arith, false, inl, inr, is_some, length, ltb, not, refl, true, ℕ, ℤ,
  ◌==◌, ◌∷◌, ◌≡◌, Option, none, some,
}
use batch_managementof_cloud.Model.Failure.{Result, err, ok, Error}
use batch_managementof_cloud.Model.Records.{
  ActionPayload, Failure, Job, JobState, Kind, Outcome, acted, deleted, no_result, succeeded,
  CloudAccount,
}
use batch_managementof_cloud.Store.Jobs.{is_finished}
use batch_managementof_cloud.Provider.{Account}
use batch_managementof_cloud.Effects.{Env, World}
use batch_managementof_cloud.Effects.Yields.{
  Holds, Yields, Yields-after, Yields-attempt, Yields-bind, Yields-of_result, Yields-pure,
  Yields-raise,
}
use batch_managementof_cloud.Digitalocean.{RateInfo}
use batch_managementof_cloud.Worker.Accounts.{Report, sync_client, sync_provider, sync_reply}
use batch_managementof_cloud.Worker.Create.{Progress, create_locked, report_of, run_create}
use batch_managementof_cloud.Worker.Droplets.{
  Acts, acted_report, deleted_report, run_action, run_delete,
}
use batch_managementof_cloud.Worker.Process.{process, process_kind, reported, run_sync}

abbrev pub is_succeeded : JobState → Bool
is_succeeded succeeded = true
is_succeeded _ = false

abbrev pub failures_of : Outcome → List Failure
failures_of no_result = []
failures_of (Outcome.synced account droplets) = []
failures_of (Outcome.created ids failures) = failures
failures_of (acted action ids failures) = failures
failures_of (deleted ids failures) = failures

-- The state of a report is final, it has an error unless it is `succeeded`, and a success lists no
-- failure.
pub record Settled (r : Report) : Type 0 where
  pub finished : is_finished r.state ≡ true
  pub explained : is_some r.error ≡ not (is_succeeded r.state)
  pub clean : is_succeeded r.state ≡ true → failures_of r.result ≡ []

none_listed : (fs : List Failure) → ltb 0 (length fs) ≡ false → fs ≡ []
none_listed [] h = refl
none_listed (f ∷ fs) h = ground arith

never : {A : Type 0} → false ≡ true → A
never h = cc

pub report_of-Settled : (fuel : ℕ) (p : Progress) → Settled (report_of fuel p)
report_of-Settled fuel p = elim (Bool-cases (length p.created_ids == 0)) [
  | inl e ↦ rw e (record { finished = refl; explained = refl; clean = λ h. never h })
  | inr e ↦ elim (Bool-cases (ltb 0 (length p.failures))) [
    | inl f ↦ rw (e, f) (record { finished = refl; explained = refl; clean = λ h. never h })
    | inr f ↦
        rw (e, f)
          (record { finished = refl; explained = refl; clean = λ h. none_listed p.failures f })
  ]
]

pub acted_report-Settled :
    (fuel : ℕ) (p : ActionPayload) (a : Acts) → Settled (acted_report fuel p a)
acted_report-Settled fuel p a = elim (Bool-cases (ltb 0 (length a.failures))) [
  | inl f ↦ rw f (record { finished = refl; explained = refl; clean = λ h. never h })
  | inr f ↦
      rw f (record { finished = refl; explained = refl; clean = λ h. none_listed a.failures f })
]

pub deleted_report-Settled :
    (fuel : ℕ) (gone : List ℤ) (fs : List Failure) → Settled (deleted_report fuel (gone, fs))
deleted_report-Settled fuel gone fs = elim (Bool-cases (ltb 0 (length fs))) [
  | inl f ↦ elim (Bool-cases (length gone == 0)) [
    | inl e ↦ rw (e, f) (record { finished = refl; explained = refl; clean = λ h. never h })
    | inr e ↦ rw (e, f) (record { finished = refl; explained = refl; clean = λ h. never h })
  ]
  | inr f ↦ elim (Bool-cases (length gone == 0)) [
    | inl e ↦
        rw (e, f) (record { finished = refl; explained = refl; clean = λ h. none_listed fs f })
    | inr e ↦
        rw (e, f) (record { finished = refl; explained = refl; clean = λ h. none_listed fs f })
  ]
]

module _ (fuel : ℕ) (job : Job) where
  abbrev NoFailure : Outcome → Type 0
  NoFailure o = failures_of o ≡ []

  Yields-sync_provider :
      (account : CloudAccount) (provider : Account) (rate : RateInfo)
      → Yields NoFailure (sync_provider fuel account provider rate)
  unfolding sync_provider
  Yields-sync_provider account provider rate = Yields-after NoFailure _ λ reply.
      Yields-after NoFailure _ λ updated. Yields-after NoFailure _ λ remote.
        Yields-after NoFailure _
          λ written. Yields-after NoFailure _ λ marked. Yields-pure NoFailure _ refl

  Yields-sync_reply :
      (account : CloudAccount) (reply : Result (Account × RateInfo))
      → Yields NoFailure (sync_reply fuel account reply)
  Yields-sync_reply account (err e) = Yields-after NoFailure _ λ marked. Yields-raise NoFailure e
  Yields-sync_reply account (ok (provider, rate)) = Yields-sync_provider account provider rate

  Yields-sync_client : (got : CloudAccount × Option Error) → Yields NoFailure (sync_client fuel got)
  Yields-sync_client (account, some e) = Yields-after NoFailure _ λ marked. Yields-raise NoFailure e
  Yields-sync_client (account, none) = Yields-after NoFailure _ (Yields-sync_reply account)

  Yields-run_sync : Yields Settled (run_sync fuel job)
  unfolding run_sync Accounts.sync_account
  Yields-run_sync = Yields-after Settled _ λ id.
      Yields-bind NoFailure Settled (Yields-after NoFailure _ Yields-sync_client) λ outcome h.
        Yields-pure Settled _ (record { finished = refl; explained = refl; clean = λ done. h })

  Yields-run_create : Yields Settled (run_create fuel job)
  unfolding run_create create_locked
  Yields-run_create = Yields-after Settled _ λ id. Yields-after Settled _ λ c.
      Yields-after Settled _ λ account. Yields-after Settled _ λ locked.
        Yields-bind (Holds Settled) Settled
          (Yields-attempt Settled (
            Yields-after Settled _ λ refreshed. Yields-after Settled _ λ checked.
              Yields-after Settled _
                λ p. Yields-after Settled _ λ q. Yields-pure Settled _ (report_of-Settled fuel q)))
          λ r h. Yields-after Settled _ λ unlocked. Yields-of_result Settled r h

  Yields-run_action : Yields Settled (run_action fuel job)
  unfolding run_action
  Yields-run_action = Yields-after Settled _ λ id. Yields-after Settled _ λ p.
      Yields-after Settled _ λ account.
        Yields-after Settled _ λ a.
          Yields-after Settled _ λ synced. Yields-pure Settled _ (acted_report-Settled fuel p _)

  Yields-run_delete : Yields Settled (run_delete fuel job)
  unfolding run_delete
  Yields-run_delete = Yields-after Settled _ λ id. Yields-after Settled _ λ ids.
      Yields-after Settled _ λ account. Yields-after Settled _ λ r.
        Yields-after Settled _ λ synced. Yields-pure Settled _ (deleted_report-Settled fuel r.0 r.1)

  Yields-process_kind : (kind : Kind) → Yields Settled (process_kind fuel job kind)
  unfolding process_kind
  Yields-process_kind Kind.sync_account = Yields-run_sync
  Yields-process_kind Kind.create_droplets = Yields-run_create
  Yields-process_kind Kind.droplet_action = Yields-run_action
  Yields-process_kind Kind.delete_droplets = Yields-run_delete
  Yields-process_kind (Kind.other kind) = Yields-raise Settled _

  -- Whatever a handler returns or raises, the report that is written back is settled.
  pub reported-Settled : (env : Env) (w : World) → Settled (reported (process fuel job env w).0)
  unfolding process
  reported-Settled env w =
      settled (process_kind fuel job job.kind env w).0
        ((Yields-process_kind job.kind).returned env w)
    where
      settled : (r : Result Report) → Holds Settled r → Settled (reported r)
      settled (ok r) h = h
      settled (err e) h = record { finished = refl; explained = refl; clean = λ h. refl }
