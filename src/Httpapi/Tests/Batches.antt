-- ===== src/Httpapi/Tests/Batches.antt =====
-- The handlers of internal/httpapi/droplets.go at concrete requests.
use batch_managementof_cloud.Prelude.{
  ◌∷◌, Option, [], false, none, pos, refl, some, true, ℕ, ◌*◌, ◌+◌, ◌≡◌, decimal, format_int,
  to_lower, trim_space, has_prefix, text_leb, inr, append_text, atoi, int64, ◌*ℤ◌, ◌+ℤ◌, ◌-ℤ◌,
  atoi_value,
}
use batch_managementof_cloud.Model.Json.{Json}
use batch_managementof_cloud.Model.Records.{
  CreatePayload, Job, Kind, Payload, of_action, of_delete, of_create,
}
use batch_managementof_cloud.Store.Accounts.{get_cloud_account}
use batch_managementof_cloud.Store.Droplets.{get_droplet_by_provider_id, row_of}
use batch_managementof_cloud.Store.Jobs.{new_job, enqueue_job}
use batch_managementof_cloud.Store.Listings.{droplet_matches, list_droplets_page, listing}
use batch_managementof_cloud.Store.Sessions.{truncate}
use batch_managementof_cloud.Store.Settings.{write_audit}
use batch_managementof_cloud.Effects.{read_clock, statement}
use batch_managementof_cloud.Httpapi.Accounts.{account_by_id_for_user}
use batch_managementof_cloud.Httpapi.Admin.{PageQuery, list_page}
use batch_managementof_cloud.Httpapi.Droplets.{
  list_droplets, ActionInput, CreateInput, DeleteInput, cloud_init_compatible_image, create_refusal,
  request_action, request_deletion, confirm_droplets, normal_fields, recently_if,
  verify_provider_droplets, request_creation, IdQuery, read_id,
}
use batch_managementof_cloud.Httpapi.Droplets.Asked.{DeletionAsked, request_deletion-DeletionAsked}
use batch_managementof_cloud.Httpapi.Droplets.Requests.{
  ActionAsked, create_refusal-none, request_action-ActionAsked, CreationAsked,
  request_creation-CreationAsked, IsCreatable,
}
use batch_managementof_cloud.Httpapi.Droplets.Shown.{Shown, list_droplets-Shown}
use batch_managementof_cloud.Httpapi.Guards.{require_recent_auth}
use batch_managementof_cloud.Httpapi.Handler.{
  answer, audit, call, decode_json, of_refusal, pass, recently, refuse, refuse_if, try, with_env,
  ◌>>=◌,
}
use batch_managementof_cloud.Httpapi.Limits.{pagination}
use batch_managementof_cloud.Httpapi.Names.{matches_name, normalize_names}
use batch_managementof_cloud.Httpapi.Samples.{as_user, bob, sender, start, sunny, web_droplet}
use batch_managementof_cloud.Httpapi.Selection.{action_request, delete_request, unique_int64}

-- The job that a request of bob enqueues as the third effect, or a later one.
abbrev job_at : ℕ → Kind → Payload → Job
job_at t kind payload = new_job (100 + t) (1000 * (t + 1)) 2 (some 7) kind payload

abbrev deletion : Option DeleteInput
deletion = some (record {
  account_id = 7;
  droplet_ids = pos 77 ∷ pos 77 ∷ [];
  confirm_names = ("77", "web") ∷ [];
})

request_deletion-DeletionAsked_example :
    ((request_deletion (as_user bob) sender deletion sunny start).1.db.jobs
      ≡ job_at 3 Kind.delete_droplets (of_delete (pos 77 ∷ [])) ∷ [])
    × DeletionAsked sunny start
        (as_user bob)
        deletion
        (job_at 3 Kind.delete_droplets (of_delete (pos 77 ∷ [])))
        (request_deletion (as_user bob) sender deletion sunny start).1
unfolding request_deletion with_env ◌>>=◌ recently try read_clock pass require_recent_auth
    decode_json of_refusal delete_request unique_int64 account_by_id_for_user call statement
    get_cloud_account refuse_if answer confirm_droplets audit refuse decimal format_int
    get_droplet_by_provider_id row_of enqueue_job new_job truncate write_audit
request_deletion-DeletionAsked_example =
    request_deletion-DeletionAsked (as_user bob) sender deletion sunny start

abbrev restart : Option ActionInput
restart =
    some (record {
      account_id = 7;
      droplet_ids = pos 77 ∷ [];
      action = "power_cycle";
      parameters = [];
    })

abbrev restart_job : Job
restart_job =
    job_at 2 Kind.droplet_action
      (of_action (record { droplet_ids = pos 77 ∷ []; action = "power_cycle"; parameters = [] }))

request_action-ActionAsked_example :
    ((request_action (as_user bob) sender restart sunny start).1.db.jobs ≡ restart_job ∷ [])
    × ActionAsked sunny start
        (as_user bob)
        restart
        restart_job
        (request_action (as_user bob) sender restart sunny start).1
unfolding request_action with_env ◌>>=◌ recently_if recently try read_clock pass require_recent_auth
    decode_json of_refusal action_request unique_int64 trim_space account_by_id_for_user call
    statement get_cloud_account refuse_if answer verify_provider_droplets get_droplet_by_provider_id
    row_of audit refuse enqueue_job new_job truncate write_audit
request_action-ActionAsked_example =
    request_action-ActionAsked (as_user bob) sender restart sunny start

abbrev two_servers : CreatePayload
two_servers = record {
  names = "web-2" ∷ "web-1" ∷ [];
  region = "fra1";
  size = "s-1vcpu-1gb";
  image = Json.text "ubuntu-24-04-x64";
  ssh_keys = [];
  backups = false;
  backup_policy = [];
  ipv6 = true;
  monitoring = true;
  tags = [];
  vpc_uuid = "";
  project_id = "";
  auth_mode = "root_password";
  public_networking = none;
}

abbrev creation : Option CreateInput
creation = some (record { account_id = 7; fields = two_servers })

create_refusal-none_example : IsCreatable two_servers
unfolding create_refusal normal_fields normalize_names cloud_init_compatible_image trim_space
    to_lower text_leb matches_name has_prefix
create_refusal-none_example = create_refusal-none two_servers refl

abbrev creation_job : Job
creation_job =
    job_at 1 Kind.create_droplets
      (of_create (record two_servers { names = "web-1" ∷ "web-2" ∷ [] }))

request_creation-CreationAsked_example :
    ((request_creation (as_user bob) sender creation sunny start).1.db.jobs ≡ creation_job ∷ [])
    × CreationAsked start
        (as_user bob)
        creation
        creation_job
        (request_creation (as_user bob) sender creation sunny start).1
unfolding request_creation with_env ◌>>=◌ try pass decode_json of_refusal create_refusal
    normal_fields normalize_names cloud_init_compatible_image to_lower text_leb matches_name
    has_prefix trim_space account_by_id_for_user call statement get_cloud_account refuse_if answer
    audit refuse enqueue_job new_job truncate write_audit
request_creation-CreationAsked_example =
    request_creation-CreationAsked (as_user bob) sender creation sunny start

abbrev first_page : PageQuery
first_page = record { page = "1"; per_page = "" }

list_droplets-Shown_example :
    (account : Option ℕ) × (read_id IdQuery.not_given ≡ inr account)
    × Shown
        (as_user bob)
        account
        "EB"
        start.db
        (record { items = web_droplet ∷ []; total = 1; page = pos 1; per_page = pos 20 })
unfolding list_droplets list_page pagination of_refusal call statement answer ◌>>=◌ listing
    list_droplets_page droplet_matches atoi int64 ◌*ℤ◌ ◌-ℤ◌ ◌+ℤ◌ to_lower append_text trim_space
    has_prefix atoi_value
list_droplets-Shown_example =
    list_droplets-Shown (as_user bob) IdQuery.not_given "EB" first_page sunny start
      (record { items = web_droplet ∷ []; total = 1; page = pos 1; per_page = pos 20 }) refl
