-- ===== src/Httpapi/Droplets/Requests.antt =====
-- What `enqueueDropletAction` and `createDroplets` of internal/httpapi/droplets.go have checked of the
-- jobs they leave.
use batch_managementof_cloud.Prelude.{
  ℕ, All, Bool, Distinct, Option, String, false, length, none, refl, some, subst, true, ◌≡◌, ◌≤◌,
  ◌⊎◌, List, [], arith, exists_where, if◌then◌else◌, ltb, not, str_eq, ◌&&◌, ◌==◌, ◌||◌, ◌∷◌, ap,
  ◌++◌, ◌∙◌, inl, inr, str_eq_iff,
}
use batch_managementof_cloud.Model.Records.{
  ActionPayload, CreatePayload, Job, Kind, of_action, of_create,
}
use batch_managementof_cloud.Store.{Db}
use batch_managementof_cloud.Effects.{Env, World, after_tick}
use batch_managementof_cloud.Worker.Selection.{action_refusal}
use batch_managementof_cloud.Httpapi.Accounts.Access.{after_account_by_id, get_cloud_account-holds}
use batch_managementof_cloud.Httpapi.Droplets.{
  ActionInput, CreateInput, cloud_init_compatible_image, create_refusal, dangerous, normal_fields,
  recently_if, request_action, request_creation, is_null,
}
use batch_managementof_cloud.Httpapi.Droplets.Asked.{
  Asked, EachDroplet, Ends-verify_provider_droplets, asked, Enqueues, jobs_added, jobs_kept,
  enqueues,
}
use batch_managementof_cloud.Httpapi.Guards.{Principal, require_recent_auth}
use batch_managementof_cloud.Httpapi.Handler.{Sender}
use batch_managementof_cloud.Httpapi.Handler.After.{
  after_audit, after_decode, after_of_refusal, after_part, after_pass, after_statement, at_end,
  with_it,
}
use batch_managementof_cloud.Httpapi.Handler.Logic.{Ends}
use batch_managementof_cloud.Httpapi.Handler.Steps.{Ends-recently}
use batch_managementof_cloud.Httpapi.Names.{
  matches_name, normalize_names, normalize_names_lem, IsSorted,
}
use batch_managementof_cloud.Httpapi.Selection.{Refusal, action_request-runnable}

-- An action that was let through.
pub record ActionAsked (env : Env) (w : World) (p : Principal) (body : Option ActionInput) (j : Job)
    (after : World) : Type 0 where
  pub input : ActionInput
  pub decoded : body ≡ some input
  pub payload : ActionPayload
  pub job : Asked p input.account_id Kind.droplet_action (of_action payload) w.db j after.db
  pub runnable : action_refusal payload ≡ none
  pub known : EachDroplet w.db input.account_id (λ id d. Unit {0}) payload.droplet_ids
  pub recent :
      dangerous payload.action ≡ true
      → (t : ℕ) × (w.tick ≤ t) × (t ≤ after.tick) × (require_recent_auth (env.clock t) p ≡ none)

-- A test on a recent authentication that depends on the action.
Ends-recently_if :
    (Q : Unit {0} → World → Type 0) (R : Refusal → World → Type 0) (test : Bool) (p : Principal)
    (env : Env) (w : World)
    → ((v : World)
        → v.db ≡ w.db
        → w.tick ≤ v.tick
        → (test ≡ true → require_recent_auth (env.clock w.tick) p ≡ none)
        → Q tt v)
    → ((r : Refusal) → R r (after_tick w))
    → Ends Q R (recently_if test p) env w
unfolding recently_if
Ends-recently_if Q R true p env w h k =
    Ends-recently Q R p env w (λ recent. h _ refl (omega arith) (λ e. recent)) k
Ends-recently_if Q R false p env w h k = at_end tt (h w refl (omega arith) (λ e. absurd (never e)))
  where
    never : false ≡ true → ⊥
    never e = cc

-- A request for an action on droplets enqueues one job or none, however it ends. The table of jobs
-- is as it was when the request is refused; when it is answered, one job was added, for an account
-- of the principal or by an administrator, for droplets of that account, and after a recent
-- authentication if the action is one that may destroy data or access; the worker does not refuse
-- its payload, and the job waits in the queue.
pub request_action-ActionAsked :
    (p : Principal) (sender : Sender) (body : Option ActionInput) (env : Env) (w : World)
    → Enqueues (ActionAsked env w p body) w.db.jobs (request_action p sender body env w)
unfolding request_action
request_action-ActionAsked p sender body env w =
    enqueues (ActionAsked env w p body) w.db.jobs _ env w (
      with_it _ (
        after_decode _
          (λ input decoded.
            after_of_refusal _
              (λ let_through passed.
                after_account_by_id p input.account_id
                  (λ account there own. after_part (
                    Ends-verify_provider_droplets _ _ account.id let_through.0 env _
                      (λ v same later each. after_part (
                        Ends-recently_if _ _ _ p env v
                          (λ u still after_v recent.
                            after_statement _ _
                              (λ job db e. after_audit _ _ _ _ _ _ λ r logs. at_end _ (
                                jobs_added u.db db _ _ _ _ _ _ job e
                                    ∙ ap (λ (d : Db). d.jobs ++ job ∷ []) (still ∙ same),
                                record {
                                  input = input;
                                  decoded = decoded;
                                  payload = record {
                                    droplet_ids = let_through.0;
                                    action = let_through.1;
                                    parameters = input.parameters;
                                  };
                                  job =
                                      asked p input.account_id account _ _ w.db u.db db _ _ job logs
                                        there own e;
                                  runnable =
                                      action_request-runnable input.droplet_ids let_through.0
                                        input.action let_through.1 input.parameters passed;
                                  known =
                                      subst
                                        (λ (a : ℕ).
                                          EachDroplet w.db a (λ id d. Unit {0}) let_through.0)
                                        (get_cloud_account-holds w.db input.account_id account
                                          there).1
                                        each;
                                  recent = λ e. (v.tick, omega arith, omega arith, recent e);
                                },
                              ))
                              (λ c db e.
                                jobs_kept u.db db _ _ _ _ _ _ c e
                                ∙ ap (λ (d : Db). d.jobs) (still ∙ same))
                              (λ c. ap (λ (d : Db). d.jobs) (still ∙ same)))
                          (λ r. ap (λ (d : Db). d.jobs) same)))
                      (λ r v same. ap (λ (d : Db). d.jobs) same)))
                  (λ r. refl))
              (λ r. refl))
          (λ r. refl)))

-- A creation that was let through.
pub record CreationAsked (w : World) (p : Principal) (body : Option CreateInput) (j : Job)
    (after : World) : Type 0 where
  pub input : CreateInput
  pub decoded : body ≡ some input
  pub job :
      Asked p input.account_id Kind.create_droplets
        (of_create (normal_fields input.fields))
        w.db
        j
        after.db
  pub checked : create_refusal (normal_fields input.fields) ≡ none

-- A request for new droplets enqueues one job or none, however it ends. The table of jobs is as it
-- was when the request is refused; when it is answered, one job was added, for an account of the
-- principal or by an administrator, with the fields as they are normalised and after every check of
-- them, and waits in the queue.
pub request_creation-CreationAsked :
    (p : Principal) (sender : Sender) (body : Option CreateInput) (env : Env) (w : World)
    → Enqueues (CreationAsked w p body) w.db.jobs (request_creation p sender body env w)
unfolding request_creation
request_creation-CreationAsked p sender body env w =
    enqueues (CreationAsked w p body) w.db.jobs _ env w (
      with_it _ (
        after_decode _
          (λ input decoded.
            after_account_by_id p input.account_id
              (λ account there own.
                after_pass _ _
                  (λ checked.
                    after_statement _ _
                      (λ job db e. after_audit _ _ _ _ _ _ λ r logs. at_end _ (
                        jobs_added w.db db _ _ _ _ _ _ job e,
                        record {
                          input = input;
                          decoded = decoded;
                          job =
                              asked p input.account_id account _ _ w.db w.db db _ _ job logs there
                                own e;
                          checked = checked;
                        },
                      ))
                      (λ c db e. jobs_kept w.db db _ _ _ _ _ _ c e) (λ c. refl))
                  (λ r e. refl))
              (λ r. refl))
          (λ r. refl)))

none_of :
    (a b c d e f : Bool) (r s t u v w : Refusal)
    → ◌≡◌ {A = Option Refusal}
        (if a
          then some r
          else if b
          then some s
          else if c
          then some t
          else if d
          then some u
          else if e
          then some v
          else if f
          then some w
          else none)
        none
    → (a ≡ false) × (b ≡ false) × (c ≡ false) × (d ≡ false) × (e ≡ false) × (f ≡ false)
none_of a b c d e f r s t u v w h = ground arith

All-match :
    (names : List String)
    → exists_where (λ (name : String). not (matches_name name)) names ≡ false
    → All (λ (name : String). matches_name name ≡ true) names
All-match [] h = tt
All-match (name ∷ names) h = (ground arith, All-match names (ground arith))

-- A creation that can be carried out: what it names and how one logs in.
pub record IsCreatable (f : CreatePayload) : Type 0 where
  pub some_name : 1 ≤ length (normalize_names f.names)
  pub few_names : length (normalize_names f.names) ≤ 10
  pub sorted : IsSorted (normalize_names f.names)
  pub distinct : Distinct (normalize_names f.names)
  pub matching : All (λ (name : String). matches_name name ≡ true) (normalize_names f.names)
  pub has_size : str_eq f.size "" ≡ false
  pub has_image : is_null f.image ≡ false
  pub way_in :
      (((f.auth_mode ≡ "") ⊎ (f.auth_mode ≡ "ssh_keys")) × (1 ≤ length f.ssh_keys))
      ⊎ ((f.auth_mode ≡ "root_password") × (cloud_init_compatible_image f.image ≡ true))

-- The tests on the mode, in which an empty text stands for `ssh_keys`.
mode_of :
    (blank ssh root : Bool) (keys : ℕ) (compatible : Bool)
    → (not (if blank then true else ssh) && not (if blank then false else root)) ≡ false
    → ((if blank then true else ssh) && keys == 0) ≡ false
    → ((if blank then false else root) && not compatible) ≡ false
    → (((blank ≡ true) ⊎ (ssh ≡ true)) × (1 ≤ keys)) ⊎ ((root ≡ true) × (compatible ≡ true))
mode_of true ssh root keys compatible a b c = inl (inl refl, ground arith)
mode_of false true root keys compatible a b c = inl (inr refl, ground arith)
mode_of false false root keys compatible a b c = inr (ground arith, ground arith)

-- A text that may be empty, compared with another.
eq_default :
    (mode default wanted : String)
    → str_eq (if str_eq mode "" then default else mode) wanted
      ≡ (if str_eq mode "" then str_eq default wanted else str_eq mode wanted)
eq_default mode default wanted =
    elim (str_eq mode "")
      as (λ b.
        str_eq (if b then default else mode) wanted
        ≡ (if b then str_eq default wanted else str_eq mode wanted)) [ true ↦ refl | false ↦ refl ]

either_no : (a b : Bool) → (a || b) ≡ false → (a ≡ false) × (b ≡ false)
either_no a b h = ground arith

-- What the checks of a creation leave: between one and ten names that are sorted, all different and
-- match the pattern, a size and an image, and a way to log in, which is at least one SSH key in the
-- mode `ssh_keys` and an image that takes a password in the mode `root_password`; an empty mode is
-- `ssh_keys`, and there is no other mode.
pub create_refusal-none :
    (f : CreatePayload) → create_refusal (normal_fields f) ≡ none → IsCreatable f
unfolding create_refusal normal_fields
create_refusal-none f h =
    let names = normalize_names f.names in
    let mode = if str_eq f.auth_mode "" then "ssh_keys" else f.auth_mode in
    let (sized, matched, fields, modes, keys, image) =
      none_of (length names == 0 || ltb 10 (length names))
        (exists_where (λ (name : String). not (matches_name name)) names)
        (str_eq f.size "" || is_null f.image)
        (not (str_eq mode "ssh_keys") && not (str_eq mode "root_password"))
        (str_eq mode "ssh_keys" && length f.ssh_keys == 0)
        (str_eq mode "root_password" && not (cloud_init_compatible_image f.image)) _ _ _ _ _ _ h in
    let (sorted, distinct, each) = normalize_names_lem f.names in
    let ssh = eq_default f.auth_mode "ssh_keys" "ssh_keys" in
    let root = eq_default f.auth_mode "ssh_keys" "root_password" in
    let (size, picture) = either_no (str_eq f.size "") (is_null f.image) fields in
    record {
      some_name = ground arith;
      few_names = ground arith;
      sorted = sorted;
      distinct = distinct;
      matching = All-match names matched;
      has_size = size;
      has_image = picture;
      way_in =
          elim (mode_of (str_eq f.auth_mode "") (str_eq f.auth_mode "ssh_keys")
            (str_eq f.auth_mode "root_password") (length f.ssh_keys)
            (cloud_init_compatible_image f.image) (rw (ssh, root) at modes) (rw ssh at keys)
            (rw root at image)) [
              | inl (inl e, k) ↦ inl (inl ((str_eq_iff f.auth_mode "").0 e), k)
              | inl (inr e, k) ↦ inl (inr ((str_eq_iff f.auth_mode "ssh_keys").0 e), k)
              | inr (e, k) ↦ inr ((str_eq_iff f.auth_mode "root_password").0 e, k)
            ];
    }
