-- ===== src/Worker/Frame/Creation.antt =====
-- The calls of `createDroplets` of internal/worker/worker.go.
use batch_managementof_cloud.Prelude.{
  Bool, In, List, String, [], false, if_both, inl, inr, refl, subst, sym, true, ℕ, ℤ, ◌∷◌, ◌≡◌,
}
use batch_managementof_cloud.Model.Failure.{err, ok}
use batch_managementof_cloud.Model.Records.{CloudAccount, CreatePayload, Job, User, of_create}
use batch_managementof_cloud.Security.{generate_root_password}
use batch_managementof_cloud.Provider.{Action, Call, post_droplets, post_resources}
use batch_managementof_cloud.Effects.{Env, Program}
use batch_managementof_cloud.Effects.Frame.{
  Framed, Framed-attempt, Framed-bind, Framed-bind_known, Framed-encrypt, Framed-of_result,
  Framed-pure, Framed-query, Framed-raise, Framed-random_bytes, Framed-statement, Framed-with_env,
}
use batch_managementof_cloud.Digitalocean.Frame.{
  Framed-assign_project, Framed-create_droplets, Framed-get_sizes, Framed-wait_droplet_action,
}
use batch_managementof_cloud.Worker.Create.{
  Progress, assign, create_all, create_each, create_locked, create_one, persist_droplet_projects,
  persist_if, request_of, run_create, save_password, save_passwords, settle, wait_all,
}
use batch_managementof_cloud.Worker.Frame.{
  Framed-ignore, Framed-require_client, Framed-sync_account, Framed-with_context,
  set_droplet_project-Untouched, upsert_root_credential-Untouched,
}
use batch_managementof_cloud.Worker.Frame.Handlers.{Allowed, Writes, reads}
use batch_managementof_cloud.Worker.Frame.Payloads.{Framed-account_of, Framed-creation, creation-ok}
use batch_managementof_cloud.Worker.Quota.{check_quota, check_used}

Framed-generate_root_password :
    (Q : Call → Type 0) (most : ℕ) → Framed Q (generate_root_password most)
unfolding generate_root_password
Framed-generate_root_password Q most =
    Framed-bind Q (Framed-random_bytes Q _) λ bytes. Framed-pure Q _ _

module _ (fuel : ℕ) (job : Job) where
  abbrev Q : Call → Type 0
  Q = Allowed job.payload

  Framed-check_quota : (id : ℕ) (slug : String) (count : ℤ) → Framed Q (check_quota id slug count)
  unfolding check_quota
  Framed-check_quota id slug count =
      Framed-bind Q (Framed-query Q _) λ owner. Framed-bind Q (Framed-query Q _) (checked owner)
    where
      checked : (owner : User) (used : ℕ × ℤ × ℤ) → Framed Q (check_used slug count owner used)
      checked owner (droplets, vcpus, memory) = if_both (Framed Q) _ _ _ (Framed-raise Q _ _) (
          if_both (Framed Q) _ _ _ (Framed-pure Q _ tt) (
            Framed-bind Q (Framed-attempt Q (Framed-get_sizes Q (inl refl)))
              (elim [ err e ↦ Framed-raise Q _ _ | ok got ↦ Framed-of_result Q _ _ ])))

  Framed-wait_all : (actions : List Action) (p : Progress) → Framed Q (wait_all fuel actions p)
  unfolding wait_all
  Framed-wait_all [] p = Framed-pure Q _ p
  Framed-wait_all (a ∷ actions) p = if_both (Framed Q) _ _ _ (Framed-wait_all actions _) (
      Framed-bind Q
        (Framed-attempt Q (Framed-wait_droplet_action Q fuel a.resource_id a.id _ (inl refl)))
        (elim [ ok done ↦ Framed-wait_all actions _ | err e ↦ Framed-wait_all actions _ ]))

  module _ (c : CreatePayload) (asked : job.payload ≡ of_create c) where
    Framed-create_one :
        (names : List String) (password : String) (p : Progress)
        → ((x : String) → In x names → In x c.names)
        → Framed Q (create_one fuel c names password p)
    unfolding create_one
    Framed-create_one names password p inside =
        Framed-bind Q
          (Framed-attempt Q (
            Framed-with_env Q
              λ env. Framed-create_droplets Q (request_of env c names password) (allowed env)))
          (elim [ err e ↦ Framed-pure Q _ _ | ok got ↦ Framed-wait_all got.1 _ ])
      where
        allowed : (env : Env) → Q (post_droplets (request_of env c names password))
        allowed env = inr (
            subst (λ q. Writes q (post_droplets (request_of env c names password))) (sym asked)
              (refl, refl, inside))

    Framed-create_each :
        (names : List String) (p : Progress)
        → ((x : String) → In x names → In x c.names)
        → Framed Q (create_each fuel c names p)
    unfolding create_each
    Framed-create_each [] p inside = Framed-pure Q _ p
    Framed-create_each (name ∷ names) p inside =
        Framed-bind Q (Framed-attempt Q (Framed-generate_root_password Q 24)) (elim [
          | err e ↦ Framed-create_each names _ (λ x i. inside x (inr i))
          | ok password ↦
              Framed-bind Q
                (Framed-create_one (name ∷ []) password p
                  (λ x. elim [ inl e ↦ inside x (inl e) | inr i ↦ absurd i ]))
                λ q. Framed-create_each names q (λ x i. inside x (inr i))
        ])

    Framed-create_all : Framed Q (create_all fuel c)
    unfolding create_all
    Framed-create_all =
        if_both (Framed Q) _ _ _ (Framed-create_each c.names _ (λ x i. i))
          (Framed-create_one c.names "" _ (λ x i. i))

    Framed-assign : (p : Progress) → Framed Q (assign fuel c p)
    Framed-assign p = if_both (Framed Q) _ _ _ (Framed-pure Q _ _) (
        Framed-bind Q
          (Framed-attempt Q (Framed-assign_project Q c.project_id p.created_ids allowed))
          λ r. Framed-pure Q _ _)
      where
        allowed : Q (post_resources c.project_id p.created_ids)
        allowed =
            inr (subst (λ q. Writes q (post_resources c.project_id p.created_ids)) (sym asked) refl)

    Framed-persist :
        (ids : List ℤ) (project : String) (persist : ℤ → String → Program (Unit {0}))
        → ((id : ℤ) (project : String) → Framed Q (persist id project))
        → Framed Q (persist_droplet_projects fuel ids project persist)
    unfolding persist_droplet_projects
    Framed-persist [] project persist h = Framed-pure Q _ []
    Framed-persist (id ∷ ids) project persist h =
        Framed-bind Q (Framed-attempt Q (h id project))
          λ r. Framed-bind Q (Framed-persist ids project persist h) λ rest. Framed-pure Q _ _

    Framed-persist_if :
        (assigned : Bool) (account : CloudAccount) (project : String) (ids : List ℤ)
        → Framed Q (persist_if fuel assigned account project ids)
    Framed-persist_if false account project ids = Framed-pure Q _ []
    Framed-persist_if true account project ids = Framed-persist ids project _ λ id name.
        Framed-statement Q _ λ now new db. set_droplet_project-Untouched db now account.id id name

    Framed-save_passwords :
        (account : CloudAccount) (passwords : List (ℤ × String))
        → Framed Q (save_passwords fuel account passwords)
    unfolding save_passwords
    Framed-save_passwords account [] = Framed-pure Q _ []
    Framed-save_passwords account ((id, password) ∷ rest) =
        Framed-bind Q (Framed-attempt Q saved)
          λ r. Framed-bind Q (Framed-save_passwords account rest) λ failures. Framed-pure Q _ _
      where
        saved : Framed Q (save_password fuel account id password)
        saved = Framed-bind Q (Framed-query Q _) λ droplet.
            Framed-bind Q (Framed-with_env Q λ env. Framed-encrypt Q password _) λ sealed.
              Framed-statement Q _ λ now ids db.
                upsert_root_credential-Untouched db now account.user_id droplet.id sealed.0 sealed.1

    Framed-settle : (account : CloudAccount) (p : Progress) → Framed Q (settle fuel account c p)
    unfolding settle
    Framed-settle account p = Framed-bind Q (Framed-assign p) λ got.
        Framed-bind Q (Framed-attempt Q (Framed-sync_account Q (reads job.payload) fuel account.id))
          λ synced.
            Framed-bind Q (Framed-persist_if got.0 account c.project_id _)
              λ projects. Framed-bind Q (Framed-save_passwords account _) λ saved. Framed-pure Q _ _

    Framed-create_locked : (account : CloudAccount) → Framed Q (create_locked fuel account c)
    unfolding create_locked
    Framed-create_locked account =
        Framed-bind Q
          (Framed-with_context Q _ (Framed-sync_account Q (reads job.payload) fuel account.id))
          λ refreshed. Framed-bind Q (Framed-check_quota account.user_id c.size _) λ checked.
            Framed-bind Q Framed-create_all
              λ p. Framed-bind Q (Framed-settle account p) λ q. Framed-pure Q _ _

  pub Framed-run_create : Framed Q (run_create fuel job)
  unfolding run_create
  Framed-run_create = Framed-bind Q (Framed-account_of Q job) λ id.
      Framed-bind_known Q (Framed-creation Q job.payload) λ c env w h.
        Framed-bind Q (Framed-require_client Q id) λ account.
          Framed-bind Q (Framed-query Q _) λ locked.
            Framed-bind Q
              (Framed-attempt Q
                (Framed-create_locked c (creation-ok job.payload c env w h) account))
              λ r.
                Framed-bind Q (Framed-ignore Q (Framed-query Q _))
                  λ unlocked. Framed-of_result Q _ r
