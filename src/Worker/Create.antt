-- ===== src/Worker/Create.antt =====
-- The creation of droplets: `createDroplets` of internal/worker/worker.go.
use batch_managementof_cloud.Digitalocean.Client
use batch_managementof_cloud.Prelude.{
  ℕ, List, String, [], if◌then◌else◌, is_blank, map, pos, str_eq, ℤ, ◌*◌, ◌++◌, ◌==ℤ◌, ◌∷◌, Bool,
  false, length, ltb, none, some, true, ◌==◌, ◌||◌,
}
use batch_managementof_cloud.Model.Failure.{err, ok, Error, decode_failure, Result}
use batch_managementof_cloud.Model.Records.{
  CloudAccount, CreatePayload, Failure, action_error, credential_error, local_record, minute,
  name_error, names_error, Job, Outcome, failed, of_create, partial, project_error, succeeded,
  sync_error, Payload,
}
use batch_managementof_cloud.Security.{generate_root_password}
use batch_managementof_cloud.Store.Droplets.{
  get_droplet_by_provider_id, upsert_root_credential, set_droplet_project,
}
use batch_managementof_cloud.Provider.{Action, CreateRequest, Instance}
use batch_managementof_cloud.Effects.{
  Program, attempt, pure, query, statement, ◌>>=◌, Env, of_result, raise, with_env, encrypt,
}
use batch_managementof_cloud.Digitalocean.Client.{wait_droplet_action, assign_project}
use batch_managementof_cloud.Worker.Accounts.{
  sync_account, Report, ignore, require_client, with_context,
}
use batch_managementof_cloud.Worker.Quota.{check_quota}

-- `job.AccountID`, which every handler needs.
abbrev pub account_of : Job → Program ℕ
account_of job = elim job.account_id [
  | none ↦ raise (Error.text "missing account ID")
  | some id ↦ pure id
]

-- The payload, after the test on its names.
abbrev pub creation_of : Payload → Program CreatePayload
creation_of (of_create payload) =
    if length payload.names == 0 || ltb 10 (length payload.names)
    then raise (Error.text "one to ten names are required")
    else pure payload
creation_of _ = raise decode_failure

-- The variables that `createOne` writes to.
pub record Progress : Type 0 where
  pub created_ids : List ℤ
  pub action_ids : List ℤ
  -- The map from the ids of new droplets to their passwords, in the order of the writes.
  pub passwords : List (ℤ × String)
  pub failures : List Failure

abbrev pub fails : Failure → Progress → Progress
fails f p = record p { failures = p.failures ++ f ∷ [] }

-- `passwords[id] = password`
abbrev pub put_password : ℤ → String → List (ℤ × String) → List (ℤ × String)
put_password id password [] = (id, password) ∷ []
put_password id password ((other_id, old) ∷ rest) =
    if other_id ==ℤ id
    then (id, password) ∷ rest
    else (other_id, old) ∷ put_password id password rest

abbrev pub put_passwords : String → List ℤ → List (ℤ × String) → List (ℤ × String)
put_passwords password [] m = m
put_passwords password (id ∷ ids) m = put_passwords password ids (put_password id password m)

abbrev pub request_of : Env → CreatePayload → List String → String → CreateRequest
request_of env payload names password = record {
  names = names;
  region = payload.region;
  size = payload.size;
  image = payload.image;
  ssh_keys = if is_blank password then payload.ssh_keys else [];
  backups = payload.backups;
  backup_policy = payload.backup_policy;
  ipv6 = payload.ipv6;
  monitoring = payload.monitoring;
  tags = payload.tags;
  user_data = if is_blank password then "" else env.cloud_init password;
  vpc_uuid = payload.vpc_uuid;
  public_networking = payload.public_networking;
}

module _ (fuel : ℕ) where
  -- The loop over the actions of a response.
  unfoldable pub wait_all : List Action → Progress → Program Progress
  wait_all [] p = pure p
  wait_all (a ∷ actions) p =
      let rest = wait_all actions in
      let added = record p { action_ids = p.action_ids ++ a.id ∷ [] } in
      if a.resource_id ==ℤ pos 0 then rest added else do
        r ← attempt (Client.wait_droplet_action fuel a.resource_id a.id (12 * minute))
        elim r [ ok done ↦ rest added | err e ↦ rest (fails (action_error a.id e) added) ]

  -- The closure `createOne`.
  unfoldable pub create_one : CreatePayload → List String → String → Progress → Program Progress
  create_one payload names password p = do
    r ← attempt (with_env λ env. Client.create_droplets (request_of env payload names password))
    elim r [
      | err e ↦ pure (fails (names_error names e) p)
      | ok (droplets, actions) ↦
          let ids = map (λ (d : Instance). d.id) droplets in
          wait_all actions (record p {
            created_ids = p.created_ids ++ ids;
            passwords =
                if is_blank password then p.passwords else put_passwords password ids p.passwords;
          })
    ]

  -- The loop over the names when each droplet gets a password of its own.
  unfoldable pub create_each : CreatePayload → List String → Progress → Program Progress
  create_each payload [] p = pure p
  create_each payload (name ∷ names) p = do
    r ← attempt (generate_root_password 24)
    elim r [
      | err e ↦ create_each payload names (fails (name_error name e) p)
      | ok password ↦ create_one payload (name ∷ []) password p >>= create_each payload names
    ]

  abbrev pub no_progress : Progress
  no_progress = record { created_ids = []; action_ids = []; passwords = []; failures = [] }

  unfoldable pub create_all : CreatePayload → Program Progress
  create_all payload =
      if str_eq payload.auth_mode "root_password"
      then create_each payload payload.names no_progress
      else create_one payload payload.names "" no_progress

  -- `persistDropletProjects`
  unfoldable pub persist_droplet_projects :
      List ℤ → String → (ℤ → String → Program (Unit {0})) → Program (List Failure)
  persist_droplet_projects [] project persist = pure []
  persist_droplet_projects (id ∷ ids) project persist = do
    r ← attempt (persist id project)
    rest ← persist_droplet_projects ids project persist
    pure (elim r [ ok done ↦ rest | err e ↦ local_record id project e ∷ rest ])

  -- What is kept of a droplet's password, once the droplet is in the database.
  abbrev pub save_password : CloudAccount → ℤ → String → Program (Unit {0})
  save_password account id password = do
    droplet ← query (λ now db. get_droplet_by_provider_id db account.id id)
    sealed ← with_env λ env. encrypt password (env.secret_name droplet.id)
    statement
        λ now ids db. upsert_root_credential db now account.user_id droplet.id sealed.0 sealed.1

  -- The loop over the passwords.
  unfoldable pub save_passwords : CloudAccount → List (ℤ × String) → Program (List Failure)
  save_passwords account [] = pure []
  save_passwords account ((id, password) ∷ rest) = do
    r ← attempt (save_password account id password)
    failures ← save_passwords account rest
    pure (elim r [ ok done ↦ failures | err e ↦ credential_error id e ∷ failures ])

  -- The assignment of the new droplets to a project, and whether it was made.
  abbrev pub assign : CreatePayload → Progress → Program (Bool × Progress)
  assign payload p =
      if length p.created_ids == 0 || is_blank payload.project_id then pure (false, p) else do
        r ← attempt (Client.assign_project payload.project_id p.created_ids)
        pure (elim r [
          | ok done ↦ (true, p)
          | err e ↦ (false, fails (project_error payload.project_id e) p)
        ])

  abbrev pub after_sync : Result Outcome → Progress → Progress
  after_sync (ok done) p = p
  after_sync (err e) p = fails (sync_error e) p

  -- `persistDropletProjects`, if the project was assigned.
  abbrev pub persist_if : Bool → CloudAccount → String → List ℤ → Program (List Failure)
  persist_if false account project ids = pure []
  persist_if true account project ids =
      persist_droplet_projects ids project
        λ id project. statement λ now new db. set_droplet_project db now account.id id project

  -- The steps after the creation.
  unfoldable pub settle : CloudAccount → CreatePayload → Progress → Program Progress
  settle account payload p = do
    (assigned, q) ← assign payload p
    synced ← attempt (sync_account fuel account.id)
    let q' = after_sync synced q
    projects ← persist_if assigned account payload.project_id q'.created_ids
    saved ← save_passwords account q'.passwords
    pure (record q' { failures = q'.failures ++ projects ++ saved })

  abbrev pub report_of : Progress → Report
  report_of p =
      let outcome = Outcome.created p.created_ids p.failures in
      if length p.created_ids == 0
      then record {
        result = outcome;
        state = failed;
        action_ids = p.action_ids;
        error = some (Error.text "no droplets were created");
      }
      else if ltb 0 (length p.failures)
      then record {
        result = outcome;
        state = partial;
        action_ids = p.action_ids;
        error = some (Error.text "one or more create steps failed");
      }
      else record { result = outcome; state = succeeded; action_ids = p.action_ids; error = none }

  -- `createDroplets` between the lock and its release.
  unfoldable pub create_locked : CloudAccount → CreatePayload → Program Report
  create_locked account payload = do
    refreshed ← with_context "refresh account before create" (sync_account fuel account.id)
    checked ← check_quota account.user_id payload.size (pos (length payload.names))
    p ← create_all payload
    q ← settle account payload p
    pure (report_of q)

  -- `createDroplets`. The advisory lock on the user is one statement that may fail, and its release
  -- is one more effect whose error is dropped.
  unfoldable pub run_create : Job → Program Report
  run_create job = do
    id ← account_of job
    payload ← creation_of job.payload
    account ← require_client id
    locked ← query (λ now db. ok tt)
    r ← attempt (create_locked account payload)
    unlocked ← ignore (query (λ now db. ok tt))
    of_result r
