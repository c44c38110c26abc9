-- ===== src/Worker/Tests.antt =====
-- A worker's turn on a small database, with a provider that is down, and the theorems at it.
use batch_managementof_cloud.Digitalocean.Client
use batch_managementof_cloud.Prelude.{
  [], false, none, pos, refl, some, update_where, ◌*◌, ◌+◌, ◌==◌, ◌∷◌, ◌≡◌, int64, ◌+ℤ◌, arith,
  true, atoi, ◌*ℤ◌,
}
use batch_managementof_cloud.Model.Failure.{Result, canceled, err, ok}
use batch_managementof_cloud.Model.Json.{Json, lookup}
use batch_managementof_cloud.Model.Records.{
  Job, Kind, of_delete, running, Role, Status, User, second,
}
use batch_managementof_cloud.Store.{Db, empty_db}
use batch_managementof_cloud.Store.Droplets.{user_usage}
use batch_managementof_cloud.Store.Jobs.{claim_job, finish, new_job}
use batch_managementof_cloud.Store.Users.{get_user_by_id}
use batch_managementof_cloud.Provider.{sizes_body}
use batch_managementof_cloud.Effects.{Env, World, pure, statement, ◌>>=◌, attempt, of_result, send}
use batch_managementof_cloud.Effects.Frame.{Frame}
use batch_managementof_cloud.Digitalocean.{parse_rate}
use batch_managementof_cloud.Digitalocean.Client.{wait_until, request}
use batch_managementof_cloud.Digitalocean.Wait.{wait_until-enough}
use batch_managementof_cloud.Worker.Frame.Handlers.{Allowed}
use batch_managementof_cloud.Worker.Frame.Jobs.{process-Frame}
use batch_managementof_cloud.Worker.Process.{process, process_next}
use batch_managementof_cloud.Worker.Quota.{check_quota}
use batch_managementof_cloud.Worker.Quota.Within.{Within, check_quota-Within}
use batch_managementof_cloud.Worker.Reports.{Settled}
use batch_managementof_cloud.Worker.Requests.{
  build_droplet_action_request, build_droplet_action_request_lem,
}
use batch_managementof_cloud.Worker.Turn.{final_report, finished_world, process_next-Settled}

build_droplet_action_request_lem_example :
    lookup "type" (
      build_droplet_action_request
        (λ d t. "snap")
        "reboot"
        (("type", Json.text "destroy") ∷ ("name", Json.text "x") ∷ [])
        (pos 5)
        9)
    ≡ some (Json.text "reboot")
build_droplet_action_request_lem_example =
    build_droplet_action_request_lem (λ d t. "snap") "reboot"
      (("type", Json.text "destroy") ∷ ("name", Json.text "x") ∷ []) (pos 5) 9 "type"

-- Every statement runs, and every call fails.
abbrev calm : Env
calm = record {
  fault = λ t. none;
  clock = λ t. 100 + t;
  uuid = λ t n. 1000 * t + n;
  http = λ t c. err canceled;
  is_canceled = λ t. false;
  open_secret = λ c n a. ok "token";
  seal_secret = λ t p a. ok ("c", "n");
  random = λ t n. ok [];
  parse_float = λ s. none;
  request_uri = λ s. none;
  cloud_init = λ p. p;
  secret_name = λ n. "root_password";
  snapshot_name = λ d t. "snap";
  id_text = λ n. "id";
  argon2 = λ p s i m t k. 1 ∷ [];
  hash_token = λ t. t;
  fingerprint = λ t. t;
  parse_address = λ s. some s;
  has_location = λ s. true;
  smtp = λ t s. ok tt;
}

abbrev removal : Job
unfolding new_job
removal = new_job 6 7 1 (some 10) Kind.delete_droplets (of_delete (pos 555 ∷ []))

abbrev start_world : World
start_world = record {
  db = record empty_db { jobs = removal ∷ [] };
  tick = 0;
  calls = [];
  mails = [];
}

process-Frame_example :
    Frame (Allowed (of_delete (pos 555 ∷ []))) start_world (process 3 removal calm start_world).1
unfolding removal
process-Frame_example = process-Frame 3 removal calm start_world

abbrev claimed : Result Job × Db
unfolding claim_job removal
claimed = claim_job start_world.db 100 (λ i. false)

abbrev claimed_job : Job
unfolding removal
claimed_job = record removal { state = running; attempts = 1 }

process_next-Settled_example :
    Settled (final_report 3 calm start_world claimed_job claimed.1)
    × ((process_next 3 calm start_world).1.db.jobs
        ≡ update_where
            (λ j. j.id == 7)
            (finish
              (calm.clock (finished_world 3 calm start_world claimed_job claimed.1).tick)
              (final_report 3 calm start_world claimed_job claimed.1).state
              100
              (final_report 3 calm start_world claimed_job claimed.1).result
              (final_report 3 calm start_world claimed_job claimed.1).action_ids
              (final_report 3 calm start_world claimed_job claimed.1).error)
            claimed.1.jobs)
unfolding claimed claimed_job removal
process_next-Settled_example =
    process_next-Settled 3 calm start_world claimed_job claimed.1 refl refl

abbrev capped : User
capped = record {
  id = 1;
  email = "ada@example.com";
  password_hash = "h";
  role = Role.user;
  status = Status.active;
  email_verified_at = some 3;
  quota_droplets = some (pos 2);
  quota_vcpus = some (pos 8);
  quota_memory_mb = none;
  created_at = 3;
  updated_at = 3;
}

abbrev with_user : World
with_user = record {
  db = record empty_db { users = capped ∷ [] };
  tick = 0;
  calls = [];
  mails = [];
}

-- A provider that lists one size.
abbrev listing_sizes : Env
listing_sizes = record calm {
  http = λ t c. ok (record {
    status_code = 200;
    request_id = "r";
    limit_header = "";
    remaining_header = "";
    reset_header = "";
    body = sizes_body (
        record {
          slug = "s";
          memory = pos 1024;
          vcpus = pos 1;
          price_monthly = pos 4;
          price_hourly = pos 1;
        }
        ∷ []);
    content = "";
  });
}

check_quota-Within_example : Within listing_sizes with_user 1 "s" (pos 2) capped
unfolding check_quota ◌>>=◌ statement pure get_user_by_id user_usage int64 ◌+ℤ◌ ◌*ℤ◌ request send
    attempt of_result parse_rate atoi
check_quota-Within_example =
    check_quota-Within 1 "s" (pos 2) capped listing_sizes with_user refl
      (ground arith, ground arith) refl

abbrev slow : Env
slow = record calm { clock = λ t. t * second }

wait_until-enough_example :
    Client.wait_until 3 (5 * second) (pos 5) (pos 6) slow start_world
    ≡ Client.wait_until 9 (5 * second) (pos 5) (pos 6) slow start_world
wait_until-enough_example =
    wait_until-enough 2 8 (5 * second) (pos 5) (pos 6) slow start_world (omega arith)
      (λ t. omega arith) (omega arith)
