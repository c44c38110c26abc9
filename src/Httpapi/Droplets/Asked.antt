-- ===== src/Httpapi/Droplets/Asked.antt =====
-- What the API has checked before it enqueues a job of internal/httpapi/droplets.go, and that the
-- worker does not refuse it.
use batch_managementof_cloud.Prelude.{
  ℕ, All, Bool, In, In-append_right, List, Option, String, [], ap, arith, coalesce, format_int,
  if◌then◌else◌, inl, refl, some, subst, sym, true, ℤ, ◌∙◌, ◌∷◌, ◌≡◌, none, str_eq_iff, ◌≤◌, false,
  ◌++◌, ◌⊎◌,
}
use batch_managementof_cloud.Model.Failure.{
  Result, err, foreign_key_violation, ok, unique_violation, Error,
}
use batch_managementof_cloud.Model.Json.{lookup}
use batch_managementof_cloud.Model.Records.{CloudAccount, Droplet, Job, Kind, Payload, of_delete}
use batch_managementof_cloud.Store.{AuditRow, Db}
use batch_managementof_cloud.Store.Accounts.{get_cloud_account}
use batch_managementof_cloud.Store.Droplets.{get_droplet_by_provider_id}
use batch_managementof_cloud.Store.Jobs.{enqueue_job, is_queued, new_job}
use batch_managementof_cloud.Effects.{Env, World, after_tick}
use batch_managementof_cloud.Worker.Selection.{delete_refusal}
use batch_managementof_cloud.Httpapi.Accounts.Access.{
  May, get_cloud_account-holds, after_account_by_id,
}
use batch_managementof_cloud.Httpapi.Droplets.{
  confirm_droplets, verify_provider_droplets, DeleteInput, request_deletion,
}
use batch_managementof_cloud.Httpapi.Guards.{Principal, require_recent_auth}
use batch_managementof_cloud.Httpapi.Handler.{Sender, Handler}
use batch_managementof_cloud.Httpapi.Handler.After.{
  after_part, after_query, at_end, after_audit, after_decode, after_of_refusal, after_recently,
  after_refuse_if, after_statement, with_it,
}
use batch_managementof_cloud.Httpapi.Handler.Logic.{Outcome, Ends}
use batch_managementof_cloud.Httpapi.Selection.{Refusal, delete_request-runnable}

-- A request that enqueues a job: when it answers, the job was added to the table and `P` holds of
-- it; when it refuses, the table is as it was.
abbrev pub Enqueues : (Job → World → Type 0) → List Job → (Refusal ⊎ Job) × World → Type 0
Enqueues P before =
    Outcome (λ j v. (v.db.jobs ≡ before ++ j ∷ []) × P j v) (λ r v. v.db.jobs ≡ before)

pub enqueues :
    (P : Job → World → Type 0) (before : List Job) (m : Handler Job) (env : Env) (w : World)
    → Ends (λ j v. (v.db.jobs ≡ before ++ j ∷ []) × P j v) (λ r v. v.db.jobs ≡ before) m env w
    → Enqueues P before (m env w)
enqueues P before m env w h = h.outcome

-- A job that was enqueued for an account that the principal may use.
pub record Asked (p : Principal) (account_id : ℕ) (of_kind : Kind) (holds : Payload) (before : Db)
    (j : Job) (after : Db) : Type 0 where
  pub account : CloudAccount
  pub there : get_cloud_account before account_id ≡ ok account
  pub allowed : May p account.user_id
  pub asker : j.user_id ≡ p.user.id
  pub target : j.account_id ≡ some account_id
  pub kind : j.kind ≡ of_kind
  pub payload : j.payload ≡ holds
  pub waiting : is_queued j.state ≡ true
  pub stands : In j after.jobs

went :
    (taken there : Bool) (db after db' : Db) (j k : Job)
    → ◌≡◌ {A = Result Job × Db}
        (if taken
          then (err unique_violation, db)
          else if there
          then (ok j, db')
          else (err foreign_key_violation, db))
        (ok k, after)
    → (j ≡ k) × (db' ≡ after)
went taken there db after db' j k h = ground arith

enqueued :
    (db after : Db) (now id user : ℕ) (account : Option ℕ) (kind : Kind) (payload : Payload)
    (j : Job)
    → enqueue_job db now id user account kind payload ≡ (ok j, after)
    → (new_job now id user account kind payload ≡ j) × (after.jobs ≡ db.jobs ++ j ∷ [])
unfolding enqueue_job
enqueued db after now id user account kind payload j h =
    let (same, rows) = went _ _ db after _ _ j h in
    (same, sym (ap (λ (d : Db). d.jobs) rows) ∙ ap (λ (k : Job). db.jobs ++ k ∷ []) same)

pub jobs_added :
    (db after : Db) (now id user : ℕ) (account : Option ℕ) (kind : Kind) (payload : Payload)
    (j : Job)
    → enqueue_job db now id user account kind payload ≡ (ok j, after)
    → after.jobs ≡ db.jobs ++ j ∷ []
jobs_added db after now id user account kind payload j h =
    (enqueued db after now id user account kind payload j h).1

-- A job that the database refuses is not in the table.
pub jobs_kept :
    (db after : Db) (now id user : ℕ) (account : Option ℕ) (kind : Kind) (payload : Payload)
    (e : Error)
    → enqueue_job db now id user account kind payload ≡ (err e, after)
    → after.jobs ≡ db.jobs
unfolding enqueue_job
jobs_kept db after now id user account kind payload e h = go _ _ _ _ h
  where
    differ : {k : Job} {x y : Db} → ◌≡◌ {A = Result Job × Db} (ok k, x) (err e, y) → ⊥
    differ h = cc

    go :
        (taken there : Bool) (k : Job) (db' : Db)
        → ◌≡◌ {A = Result Job × Db}
            (if taken
              then (err unique_violation, db)
              else if there
              then (ok k, db')
              else (err foreign_key_violation, db))
            (err e, after)
        → after.jobs ≡ db.jobs
    go true there k db' h = sym (ap (λ (x : Result Job × Db). x.1.jobs) h)
    go false true k db' h = absurd (differ h)
    go false false k db' h = sym (ap (λ (x : Result Job × Db). x.1.jobs) h)

pub asked :
    (p : Principal) (id : ℕ) (account : CloudAccount) (kind : Kind) (payload : Payload)
    (before db after : Db) (now new : ℕ) (j : Job) (logs : List AuditRow)
    → get_cloud_account before id ≡ ok account
    → May p account.user_id
    → enqueue_job db now new p.user.id (some account.id) kind payload ≡ (ok j, after)
    → Asked p id kind payload before j (record after { audit_logs = logs })
unfolding new_job
asked p id account kind payload before db after now new j logs there own e =
    let (same, rows) = enqueued db after now new p.user.id (some account.id) kind payload j e in
    let (inside, is_id) = get_cloud_account-holds before id account there in
    record {
      account = account;
      there = there;
      allowed = own;
      asker = sym (ap (λ (k : Job). k.user_id) same);
      target = sym (ap (λ (k : Job). k.account_id) same) ∙ ap some is_id;
      kind = sym (ap (λ (k : Job). k.kind) same);
      payload = sym (ap (λ (k : Job). k.payload) same);
      waiting = rw (← same) refl;
      stands =
          subst (λ (js : List Job). In j js) (sym rows) (In-append_right _ db.jobs _ (inl refl));
    }

-- Each id of a list is a droplet of the account, with a property.
abbrev pub EachDroplet : Db → ℕ → (ℤ → Droplet → Type 0) → List ℤ → Type 0
EachDroplet db account P =
    All λ (id : ℤ). (d : Droplet) × (get_droplet_by_provider_id db account id ≡ ok d) × P id d

pub Ends-verify_provider_droplets :
    (Q : Unit {0} → World → Type 0) (R : Refusal → World → Type 0) (account : ℕ) (ids : List ℤ)
    (env : Env) (w : World)
    → ((v : World)
        → v.db ≡ w.db
        → w.tick ≤ v.tick
        → EachDroplet w.db account (λ id d. Unit {0}) ids
        → Q tt v)
    → ((r : Refusal) (v : World) → v.db ≡ w.db → R r v)
    → Ends Q R (verify_provider_droplets account ids) env w
unfolding verify_provider_droplets
Ends-verify_provider_droplets Q R account [] env w h k = at_end tt (h w refl (omega arith) tt)
Ends-verify_provider_droplets Q R account (id ∷ ids) env w h k =
    after_query _ _
      (λ d there.
        Ends-verify_provider_droplets Q R account ids env (after_tick w)
          (λ v same later each. h v same (omega arith) ((d, there, tt), each)) k)
      (λ e. k _ _ refl)

-- The name that the request gives for a droplet is the droplet's.
abbrev pub IsConfirmed : List (String × String) → ℤ → Droplet → Type 0
IsConfirmed names id d = coalesce (lookup (format_int id) names) "" ≡ d.name

pub Ends-confirm_droplets :
    (Q : Unit {0} → World → Type 0) (R : Refusal → World → Type 0) (account : ℕ)
    (names : List (String × String)) (ids : List ℤ) (env : Env) (w : World)
    → ((v : World) → v.db ≡ w.db → EachDroplet w.db account (IsConfirmed names) ids → Q tt v)
    → ((r : Refusal) (v : World) → v.db ≡ w.db → R r v)
    → Ends Q R (confirm_droplets account names ids) env w
unfolding confirm_droplets
Ends-confirm_droplets Q R account names [] env w h k = at_end tt (h w refl tt)
Ends-confirm_droplets Q R account names (id ∷ ids) env w h k =
    after_query _ _
      (λ d there.
        after_refuse_if _ _ _
          (λ confirmed.
            Ends-confirm_droplets Q R account names ids env (after_tick w)
              (λ v same each. h v same ((d, there, (str_eq_iff _ d.name).0 (ground arith)), each))
              k)
          (λ stop. k _ _ refl))
      (λ e. k _ _ refl)

-- A deletion that `enqueueDropletDelete` has let through.
pub record DeletionAsked (env : Env) (w : World) (p : Principal) (body : Option DeleteInput)
    (j : Job) (after : World) : Type 0 where
  pub input : DeleteInput
  pub decoded : body ≡ some input
  pub ids : List ℤ
  pub job : Asked p input.account_id Kind.delete_droplets (of_delete ids) w.db j after.db
  pub runnable : delete_refusal ids ≡ none
  pub confirmed : EachDroplet w.db input.account_id (IsConfirmed input.confirm_names) ids
  pub recent : require_recent_auth (env.clock w.tick) p ≡ none

-- A request to delete droplets enqueues one job or none, however it ends. The table of jobs is as it
-- was when the request is refused; when it is answered, one job was added, after a recent
-- authentication, for an account of the principal or by an administrator, and for droplets of that
-- account whose names the request repeats one by one; the worker does not refuse its payload, and
-- the job waits in the queue.
pub request_deletion-DeletionAsked :
    (p : Principal) (sender : Sender) (body : Option DeleteInput) (env : Env) (w : World)
    → Enqueues (DeletionAsked env w p body) w.db.jobs (request_deletion p sender body env w)
unfolding request_deletion
request_deletion-DeletionAsked p sender body env w =
    enqueues (DeletionAsked env w p body) w.db.jobs _ env w (
      with_it _ (
        after_recently _ _
          (λ recent.
            after_decode _
              (λ input decoded.
                after_of_refusal _
                  (λ ids let_through.
                    after_account_by_id p input.account_id
                      (λ account there own. after_part (
                        Ends-confirm_droplets _ _ account.id input.confirm_names ids env _
                          (λ v v_same each.
                            after_statement _ _
                              (λ job db e. after_audit _ _ _ _ _ _ λ r logs. at_end _ (
                                jobs_added v.db db _ _ _ _ _ _ job e
                                    ∙ ap (λ (js : List Job). js ++ job ∷ [])
                                        (ap (λ (d : Db). d.jobs) v_same),
                                record {
                                  input = input;
                                  decoded = decoded;
                                  ids = ids;
                                  job =
                                      asked p input.account_id account _ _ w.db v.db db _ _ job logs
                                        there own e;
                                  runnable =
                                      delete_request-runnable input.droplet_ids ids let_through;
                                  confirmed =
                                      subst
                                        (λ (a : ℕ).
                                          EachDroplet w.db a (IsConfirmed input.confirm_names) ids)
                                        (get_cloud_account-holds w.db input.account_id account
                                          there).1
                                        each;
                                  recent = recent;
                                },
                              ))
                              (λ c db e.
                                jobs_kept v.db db _ _ _ _ _ _ c e ∙ ap (λ (d : Db). d.jobs) v_same)
                              (λ c. ap (λ (d : Db). d.jobs) v_same))
                          (λ r v same. ap (λ (d : Db). d.jobs) same)))
                      (λ r. refl))
                  (λ r. refl))
              (λ r. refl))
          (λ r. refl)))
