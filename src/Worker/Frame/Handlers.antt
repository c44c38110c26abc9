-- ===== src/Worker/Frame/Handlers.antt =====
-- What a job may do at the provider: the calls of the handlers of internal/worker/worker.go.
use batch_managementof_cloud.Prelude.{
  In, List, String, [], inl, inr, none, refl, some, subst, sym, true, ℕ, ℤ, ◌∷◌, ◌≡◌, ◌⊎◌, if_both,
}
use batch_managementof_cloud.Model.Failure.{err, ok}
use batch_managementof_cloud.Model.Json.{Json, lookup}
use batch_managementof_cloud.Model.Records.{
  Failure, Job, Payload, of_action, of_create, of_delete, ActionPayload, CloudAccount,
}
use batch_managementof_cloud.Provider.{
  Call, delete_droplet_call, is_read, post_action, post_droplets, post_resources,
}
use batch_managementof_cloud.Effects.{Env}
use batch_managementof_cloud.Effects.Frame.{
  Framed, Framed-attempt, Framed-bind, Framed-bind_known, Framed-pure, Framed-query,
  Framed-read_clock, Framed-statement, Framed-with_env,
}
use batch_managementof_cloud.Digitalocean.Frame.{
  Framed-delete_droplet, Framed-droplet_action, Framed-wait_droplet_action,
}
use batch_managementof_cloud.Worker.Droplets.{
  delete_all, run_delete, Acts, act_all, act_one, mark_stale, run_action,
}
use batch_managementof_cloud.Worker.Frame.{
  Framed-require_client, Framed-sync_account, Framed-ignore, mark_root_credential_stale-Untouched,
}
use batch_managementof_cloud.Worker.Frame.Payloads.{
  Framed-account_of, Framed-action, Framed-deletion, action-ok, deletion-ok,
}
use batch_managementof_cloud.Worker.Requests.{
  build_droplet_action_request, build_droplet_action_request_lem,
}
use batch_managementof_cloud.Worker.Selection.{action_refusal, delete_refusal}

-- The changes that a payload asks for. An action or a deletion must also have passed the guards.
abbrev pub Writes : Payload → Call → Type 0
Writes (of_create p) (post_droplets r) =
    (r.size ≡ p.size) × (r.region ≡ p.region) × ((x : String) → In x r.names → In x p.names)
Writes (of_create p) (post_resources project ids) = project ≡ p.project_id
Writes (of_action p) (post_action droplet o) =
    In droplet p.droplet_ids
    × (lookup "type" o ≡ some (Json.text p.action))
    × (action_refusal p ≡ none)
Writes (of_delete ids) (delete_droplet_call id) = In id ids × (delete_refusal ids ≡ none)
Writes _ _ = ⊥

abbrev pub Allowed : Payload → Call → Type 0
Allowed payload c = (is_read c ≡ true) ⊎ Writes payload c

pub reads : (payload : Payload) (c : Call) → is_read c ≡ true → Allowed payload c
reads payload c h = inl h

module _ (fuel : ℕ) (job : Job) where
  abbrev Q : Call → Type 0
  Q = Allowed job.payload

  Framed-delete_all :
      (asked ids gone : List ℤ) (failures : List Failure)
      → job.payload ≡ of_delete asked
      → delete_refusal asked ≡ none
      → ((x : ℤ) → In x ids → In x asked)
      → Framed Q (delete_all fuel ids gone failures)
  unfolding delete_all
  Framed-delete_all asked [] gone failures e r inside = Framed-pure Q _ _
  Framed-delete_all asked (id ∷ ids) gone failures e r inside =
      Framed-bind Q (Framed-attempt Q (Framed-delete_droplet Q id allowed)) (elim [
        | ok done ↦ Framed-delete_all asked ids _ failures e r (λ x i. inside x (inr i))
        | err f ↦ Framed-delete_all asked ids gone _ e r (λ x i. inside x (inr i))
      ])
    where
      allowed : Q (delete_droplet_call id)
      allowed =
          inr (subst (λ p. Writes p (delete_droplet_call id)) (sym e) (inside id (inl refl), r))

  pub Framed-run_delete : Framed Q (run_delete fuel job)
  unfolding run_delete
  Framed-run_delete = Framed-bind Q (Framed-account_of Q job) λ id.
      Framed-bind_known Q (Framed-deletion Q job.payload) λ ids env w h.
        let (e, r) = deletion-ok job.payload ids env w h in
        Framed-bind Q (Framed-require_client Q id) λ account.
          Framed-bind Q (Framed-delete_all ids ids [] [] e r (λ x i. i)) λ done.
            Framed-bind Q
              (Framed-attempt Q (Framed-sync_account Q (reads job.payload) fuel account.id))
              λ synced. Framed-pure Q _ _

  Framed-mark_stale :
      (account : CloudAccount) (action : String) (droplet : ℤ)
      → Framed Q (mark_stale account action droplet)
  Framed-mark_stale account action droplet =
      if_both (Framed Q) _ _ _
        (Framed-ignore Q (
          Framed-bind Q (Framed-query Q _) λ row.
            Framed-statement Q _ λ now ids db. mark_root_credential_stale-Untouched db now row.id))
        (Framed-pure Q _ tt)

  Framed-act_one :
      (account : CloudAccount) (p : ActionPayload) (droplet : ℤ) (a : Acts)
      → job.payload ≡ of_action p
      → action_refusal p ≡ none
      → In droplet p.droplet_ids
      → Framed Q (act_one fuel account p droplet a)
  unfolding act_one
  Framed-act_one account p droplet a e r i = Framed-bind Q (Framed-read_clock Q) λ time.
      Framed-bind Q
        (Framed-attempt Q
          (Framed-with_env Q λ env. Framed-droplet_action Q droplet _ (allowed env time)))
        (elim [
          | err f ↦ Framed-pure Q _ _
          | ok action ↦
              Framed-bind Q
                (Framed-attempt Q
                  (Framed-wait_droplet_action Q fuel droplet action.id _ (inl refl)))
                λ waited.
                  Framed-bind Q (Framed-mark_stale account p.action droplet)
                    λ marked. Framed-pure Q _ _
        ])
    where
      allowed :
          (env : Env) (time : ℕ)
          → Q (
              post_action droplet
                (build_droplet_action_request env.snapshot_name p.action p.parameters droplet time))
      allowed env time = inr (
          subst
            (λ q. Writes q (
              post_action droplet (
                build_droplet_action_request env.snapshot_name p.action p.parameters droplet time)))
            (sym e)
            (
              i,
              build_droplet_action_request_lem env.snapshot_name p.action p.parameters droplet time
                  "type",
              r,
            ))

  Framed-act_all :
      (account : CloudAccount) (p : ActionPayload) (droplets : List ℤ) (a : Acts)
      → job.payload ≡ of_action p
      → action_refusal p ≡ none
      → ((x : ℤ) → In x droplets → In x p.droplet_ids)
      → Framed Q (act_all fuel account p droplets a)
  unfolding act_all
  Framed-act_all account p [] a e r inside = Framed-pure Q _ a
  Framed-act_all account p (d ∷ ds) a e r inside =
      Framed-bind Q (Framed-act_one account p d a e r (inside d (inl refl)))
        λ b. Framed-act_all account p ds b e r (λ x i. inside x (inr i))

  pub Framed-run_action : Framed Q (run_action fuel job)
  unfolding run_action
  Framed-run_action = Framed-bind Q (Framed-account_of Q job) λ id.
      Framed-bind_known Q (Framed-action Q job.payload) λ p env w h.
        let (e, r) = action-ok job.payload p env w h in
        Framed-bind Q (Framed-require_client Q id) λ account.
          Framed-bind Q (Framed-act_all account p p.droplet_ids _ e r (λ x i. i)) λ a.
            Framed-bind Q
              (Framed-attempt Q (Framed-sync_account Q (reads job.payload) fuel account.id))
              λ synced. Framed-pure Q _ _
