-- ===== src/Httpapi/Droplets.antt =====
-- The handlers of internal/httpapi/droplets.go.
pub mod Asked
pub mod Requests
pub mod Shown
use batch_managementof_cloud.Prelude.{
  ℕ, Bool, List, Option, String, [], coalesce, exists_where, false, format_int, has_prefix,
  if◌then◌else◌, inl, inr, length, ltb, none, not, some, str_eq, to_lower, trim_space, true, ℤ,
  ◌&&◌, ◌==◌, ◌||◌, ◌∷◌, ◌⊎◌,
}
use batch_managementof_cloud.Model.Failure.{err, ok}
use batch_managementof_cloud.Model.Json.{Json, Object, lookup}
use batch_managementof_cloud.Model.Records.{
  CreatePayload, Droplet, Job, Kind, Payload, delete_droplets, is_admin, of_action, of_create,
  of_delete,
}
use batch_managementof_cloud.Security.Passwords.{bad_length}
use batch_managementof_cloud.Store.{SecretStatus}
use batch_managementof_cloud.Store.Droplets.{
  get_droplet_by_provider_id, root_credential, upsert_root_credential,
}
use batch_managementof_cloud.Store.Jobs.{enqueue_job}
use batch_managementof_cloud.Store.Listings.{
  UsageSummary, list_droplets_page, list_jobs, usage_summary,
}
use batch_managementof_cloud.Effects.{Program, decrypt, encrypt, query, statement}
use batch_managementof_cloud.Worker.Selection.{one_of}
use batch_managementof_cloud.Httpapi.Accounts.{account_by_id_for_user}
use batch_managementof_cloud.Httpapi.Admin.{Page, PageQuery, list_page}
use batch_managementof_cloud.Httpapi.Guards.{Principal, refusal}
use batch_managementof_cloud.Httpapi.Handler.{
  Handler, Sender, always, answer, audit, call, decode_json, of_refusal, pass, recently, refuse_if,
  try, with_env, ◌>>=◌,
}
use batch_managementof_cloud.Httpapi.Names.{matches_name, normalize_names}
use batch_managementof_cloud.Httpapi.Remote.{authorized_droplet, default_string}
use batch_managementof_cloud.Httpapi.Selection.{Refusal, action_request, delete_request}

-- The id of a query that may be absent or no uuid.
pub data IdQuery : Type 0 where
  not_given : IdQuery
  unreadable : IdQuery
  given : ℕ → IdQuery

abbrev pub read_id : IdQuery → Refusal ⊎ Option ℕ
read_id not_given = inr none
read_id unreadable = inl (refusal 400 "invalid_account_id")
read_id (given id) = inr (some id)

-- `listDroplets`
unfoldable pub list_droplets : Principal → IdQuery → String → PageQuery → Handler (Page Droplet)
list_droplets p account_id search q = of_refusal (read_id account_id) >>= λ id.
    list_page "droplets_failed" q (λ db limit offset.
      list_droplets_page db p.user.id (is_admin p.user.role) id search limit offset)

-- `getDroplet`: the droplet, and the status of its password if it has one.
unfoldable pub show_droplet : Principal → Option ℕ → Handler (Droplet × Option SecretStatus)
show_droplet p droplet_id = do
  droplet ← authorized_droplet p droplet_id
  credential ← try (query λ now db. root_credential db droplet.id)
  answer (droplet, elim credential [ ok c ↦ some c.2 | err e ↦ none ])

-- `cloudInitCompatibleImage`
unfoldable pub cloud_init_compatible_image : Json → Bool
cloud_init_compatible_image (Json.text value) =
    exists_where (λ (prefix : String). has_prefix (to_lower value) prefix)
      ("ubuntu-" ∷ "debian-" ∷ "fedora-" ∷ "centos-" ∷ "rocky-" ∷ "almalinux-" ∷ [])
cloud_init_compatible_image _ = false

abbrev pub is_null : Json → Bool
is_null Json.null = true
is_null _ = false

-- The body of `createDroplets`: the account, and what the payload holds.
pub record CreateInput : Type 0 where
  pub account_id : ℕ
  pub fields : CreatePayload

-- The fields after `normalizeNames` and the default of `auth_mode`.
unfoldable pub normal_fields : CreatePayload → CreatePayload
normal_fields f = record f {
  names = normalize_names f.names;
  auth_mode = if str_eq f.auth_mode "" then "ssh_keys" else f.auth_mode;
}

-- The guards of `createDroplets`, on the fields as they are normalised.
unfoldable pub create_refusal : CreatePayload → Option Refusal
create_refusal f =
    if length f.names == 0 || ltb 10 (length f.names)
    then some (refusal 400 "invalid_names")
    else if exists_where (λ (name : String). not (matches_name name)) f.names
    then some (refusal 400 "invalid_name")
    else if str_eq f.size "" || is_null f.image
    then some (refusal 400 "create_fields_required")
    else if not (str_eq f.auth_mode "ssh_keys") && not (str_eq f.auth_mode "root_password")
    then some (refusal 400 "invalid_auth_mode")
    else if str_eq f.auth_mode "ssh_keys" && length f.ssh_keys == 0
    then some (refusal 400 "ssh_key_required")
    else if str_eq f.auth_mode "root_password" && not (cloud_init_compatible_image f.image)
    then some (refusal 400 "cloud_init_required")
    else none

-- `EnqueueJob` for an account.
abbrev pub enqueue : Principal → ℕ → Kind → Payload → Program Job
enqueue p account kind payload =
    statement λ now ids db. enqueue_job db now (ids 0) p.user.id (some account) kind payload

-- `createDroplets`
unfoldable pub request_creation : Principal → Sender → Option CreateInput → Handler Job
request_creation p sender body = with_env λ env. do
  input ← decode_json body
  account ← account_by_id_for_user p input.account_id
  let fields = normal_fields input.fields
  _ ← pass (create_refusal fields)
  job ←
      call (always 500 "create_enqueue_failed")
        (enqueue p account.id Kind.create_droplets (of_create fields))
  _ ←
      audit (some p) sender "droplet.create_enqueue" "cloud_account" (env.id_text account.id)
        (some account.user_id)
  answer job

-- `verifyProviderDroplets`
unfoldable pub verify_provider_droplets : ℕ → List ℤ → Handler (Unit {0})
verify_provider_droplets account [] = answer tt
verify_provider_droplets account (id ∷ ids) =
    call (always 404 "droplet_not_found") (query λ now db. get_droplet_by_provider_id db account id)
    >>= λ _. verify_provider_droplets account ids

pub record ActionInput : Type 0 where
  pub account_id : ℕ
  pub droplet_ids : List ℤ
  pub action : String
  pub parameters : Object

-- The map `dangerous` of `enqueueDropletAction`.
abbrev pub dangerous : String → Bool
dangerous action = one_of action ("password_reset" ∷ "resize" ∷ "rebuild" ∷ "restore" ∷ [])

unfoldable pub recently_if : Bool → Principal → Handler (Unit {0})
recently_if test p = if test then recently p else answer tt

-- `enqueueDropletAction`
unfoldable pub request_action : Principal → Sender → Option ActionInput → Handler Job
request_action p sender body = with_env λ env. do
  input ← decode_json body
  (ids, action) ← of_refusal (action_request input.droplet_ids input.action)
  account ← account_by_id_for_user p input.account_id
  _ ← verify_provider_droplets account.id ids
  _ ← recently_if (dangerous action) p
  job ← call (always 500 "action_enqueue_failed") (
      enqueue p account.id Kind.droplet_action
        (of_action (record { droplet_ids = ids; action = action; parameters = input.parameters })))
  _ ←
      audit (some p) sender "droplet.action_enqueue" "cloud_account" (env.id_text account.id)
        (some account.user_id)
  answer job

pub record DeleteInput : Type 0 where
  pub account_id : ℕ
  pub droplet_ids : List ℤ
  -- `confirm_names`, under the ids.
  pub confirm_names : List (String × String)

-- The loop of `enqueueDropletDelete` over the ids.
unfoldable pub confirm_droplets : ℕ → List (String × String) → List ℤ → Handler (Unit {0})
confirm_droplets account names [] = answer tt
confirm_droplets account names (id ∷ ids) =
    call (always 404 "droplet_not_found") (query λ now db. get_droplet_by_provider_id db account id)
    >>= λ droplet.
        refuse_if (not (str_eq (coalesce (lookup (format_int id) names) "") droplet.name))
          (refusal 400 "confirmation_mismatch")
        >>= λ _. confirm_droplets account names ids

-- `enqueueDropletDelete`
unfoldable pub request_deletion : Principal → Sender → Option DeleteInput → Handler Job
request_deletion p sender body = with_env λ env. do
  _ ← recently p
  input ← decode_json body
  ids ← of_refusal (delete_request input.droplet_ids)
  account ← account_by_id_for_user p input.account_id
  _ ← confirm_droplets account.id input.confirm_names ids
  job ←
      call (always 500 "delete_enqueue_failed")
        (enqueue p account.id Kind.delete_droplets (of_delete ids))
  _ ←
      audit (some p) sender "droplet.delete_enqueue" "cloud_account" (env.id_text account.id)
        (some account.user_id)
  answer job

-- `revealRootCredential`
unfoldable pub reveal_root_credential :
    Principal → Sender → Option ℕ → Handler (String × SecretStatus)
reveal_root_credential p sender droplet_id = with_env λ env. do
  _ ← recently p
  droplet ← authorized_droplet p droplet_id
  (ciphertext, iv, status) ←
      call (always 404 "credential_not_found") (query λ now db. root_credential db droplet.id)
  plaintext ←
      call (always 500 "credential_decrypt_failed")
        (decrypt ciphertext iv (env.secret_name droplet.id))
  _ ←
      audit (some p) sender "root_credential.reveal" "droplet" (env.id_text droplet.id)
        (some droplet.user_id)
  answer (plaintext, status)

-- `updateRootCredential`
unfoldable pub update_root_credential :
    Principal → Sender → Option ℕ → Option String → Handler (Unit {0})
update_root_credential p sender droplet_id body = with_env λ env. do
  _ ← recently p
  droplet ← authorized_droplet p droplet_id
  password ← decode_json body
  _ ← refuse_if (bad_length password) (refusal 400 "invalid_password")
  sealed ← call (always 500 "encryption_failed") (encrypt password (env.secret_name droplet.id))
  _ ← call (always 500 "credential_update_failed") (
      statement
        λ now ids db. upsert_root_credential db now droplet.user_id droplet.id sealed.0 sealed.1)
  _ ←
      audit (some p) sender "root_credential.update" "droplet" (env.id_text droplet.id)
        (some droplet.user_id)
  answer tt

-- `validJobState`
unfoldable pub valid_job_state : String → Bool
valid_job_state state =
    one_of state ("queued" ∷ "running" ∷ "succeeded" ∷ "failed" ∷ "partial" ∷ [])

-- `listJobs`
unfoldable pub list_jobs_of : Principal → String → PageQuery → Handler (Page Job)
list_jobs_of p raw q =
    let state = trim_space raw in
    refuse_if (not (str_eq state "") && not (valid_job_state state))
      (refusal 400 "invalid_job_state")
    >>= λ _.
        list_page "jobs_failed" q
          (λ db limit offset. list_jobs db p.user.id (is_admin p.user.role) state limit offset)

-- The scope of `usageSummary`: one user, or everybody.
unfoldable pub usage_scope : Principal → String → Refusal ⊎ Option ℕ
usage_scope p raw =
    let scope = default_string raw "self" in
    if str_eq scope "self"
    then inr (some p.user.id)
    else if str_eq scope "all"
    then if is_admin p.user.role then inr none else inl (refusal 403 "admin_required")
    else inl (refusal 400 "invalid_scope")

-- `usageSummary`
unfoldable pub show_usage : Principal → String → Handler UsageSummary
show_usage p raw = of_refusal (usage_scope p raw) >>= λ scope.
    call (always 500 "usage_summary_failed") (query λ now db. ok (usage_summary db scope))
