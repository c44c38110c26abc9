-- ===== src/Httpapi/Samples.antt =====
-- Users, sessions, accounts and an environment at which the handlers run.
use batch_managementof_cloud.Prelude.{ℕ, String, [], false, none, pos, some, true, ◌*◌, ◌+◌, ◌∷◌}
use batch_managementof_cloud.Model.Failure.{Result, ok}
use batch_managementof_cloud.Model.Json.{Json}
use batch_managementof_cloud.Model.Records.{
  CloudAccount, Role, Status, User, minute, valid, second, Droplet,
}
use batch_managementof_cloud.Config.{Config}
use batch_managementof_cloud.Store.{Setting, empty_db, of_registration, of_smtp}
use batch_managementof_cloud.Provider.{Call, Reply, account_body}
use batch_managementof_cloud.Effects.{Env, World}
use batch_managementof_cloud.Httpapi.Guards.{Principal}
use batch_managementof_cloud.Httpapi.Handler.{Sender}

abbrev pub reply : Call → Result Reply
reply c = ok (record {
  status_code = 200;
  request_id = "r";
  limit_header = "";
  remaining_header = "";
  reset_header = "";
  body = account_body (record {
    droplet_limit = pos 10;
    floating_ip_limit = pos 3;
    email = "team@example.com";
    uuid = "u-1";
    status = "active";
    status_message = "";
    team = none;
  });
  content = "";
})

-- No statement fails, and the clock goes on by one with each effect.
abbrev pub sunny : Env
sunny = record {
  fault = λ t. none;
  clock = λ t. 100 + t;
  uuid = λ t n. 1000 * (t + 1) + n;
  http = λ t c. reply c;
  is_canceled = λ t. false;
  open_secret = λ c n a. ok c;
  seal_secret = λ t p a. ok (p, "n");
  random = λ t n. ok (t ∷ []);
  parse_float = λ s. none;
  request_uri = λ s. none;
  cloud_init = λ p. p;
  secret_name = λ n. "root_password";
  snapshot_name = λ d t. "snap";
  id_text = λ n. "id";
  argon2 = λ p s i m t k. 1 ∷ [];
  hash_token = λ t. t;
  fingerprint = λ t. t;
  parse_address = λ s. some s;
  has_location = λ s. true;
  smtp = λ t s. ok tt;
}

-- The hash of any password, when Argon2 always gives the byte 1.
abbrev pub any_hash : String
any_hash = "$argon2id$v=19$m=65536,t=3,p=2$AA$AQ"

abbrev pub person : ℕ → String → Role → Status → User
person id email role status = record {
  id = id;
  email = email;
  password_hash = any_hash;
  role = role;
  status = status;
  email_verified_at = none;
  quota_droplets = none;
  quota_vcpus = none;
  quota_memory_mb = none;
  created_at = 3;
  updated_at = 3;
}

abbrev pub ada : User
ada = person 1 "ada@example.com" Role.admin Status.active

abbrev pub bob : User
bob = person 2 "bob@example.com" Role.user Status.active

abbrev pub new_user : User
new_user = person 3 "new@example.com" Role.user Status.pending

abbrev pub as_user : User → Principal
as_user u = record {
  user = u;
  session = record { id = 50; user_id = u.id; recent_auth_at = 90; expires_at = 900 };
  token = "s";
}

abbrev pub sender : Sender
sender = record { ip = some "192.0.2.1"; user_agent = "browser" }

abbrev pub linked : CloudAccount
linked = record {
  id = 7;
  user_id = 2;
  name = "main";
  provider_account_id = some "u-1";
  provider_email = none;
  provider_status = none;
  status_message = none;
  credential_status = valid;
  account_limits = none;
  account_balance = none;
  month_to_date_usage = none;
  month_to_date_balance = none;
  rate_limit_remaining = none;
  rate_limit_reset_at = none;
  last_validated_at = none;
  last_synced_at = none;
  last_error = none;
  full_access_confirmed = true;
  created_at = 5;
  updated_at = 5;
  token_ciphertext = "secret";
  token_nonce = "n";
  token_fingerprint = "secret";
}

abbrev pub registration : Setting
registration = record {
  key = "registration";
  value = of_registration true;
  secret_ciphertext = none;
  secret_nonce = none;
  updated_by = none;
  updated_at = 3;
}

abbrev pub mail_setting : Setting
mail_setting = record {
  key = "smtp";
  value = of_smtp "mail.example.com" (pos 587) "panel" "panel@example.com" true;
  secret_ciphertext = some "letters";
  secret_nonce = some "n";
  updated_by = none;
  updated_at = 3;
}

abbrev pub web_droplet : Droplet
web_droplet = record {
  id = 9;
  user_id = 2;
  account_id = 7;
  provider_id = pos 77;
  name = "web";
  status = "active";
  locked = false;
  region_slug = none;
  size_slug = none;
  vcpus = pos 2;
  memory_mb = pos 2048;
  disk_gb = pos 50;
  price_hourly = none;
  price_monthly = none;
  ipv4 = none;
  ipv6 = none;
  image = Json.null;
  features = Json.null;
  tags = [];
  vpc_uuid = none;
  project_id = none;
  raw = Json.null;
  synced_at = 5;
  created_at = 5;
  updated_at = 5;
}

abbrev pub start : World
start = record {
  db = record empty_db {
    users = ada ∷ bob ∷ new_user ∷ [];
    cloud_accounts = linked ∷ [];
    droplets = web_droplet ∷ [];
    system_settings = registration ∷ mail_setting ∷ [];
  };
  tick = 0;
  calls = [];
  mails = [];
}

abbrev pub cfg : Config
cfg = record {
  environment = "production";
  listen_addr = "127.0.0.1:8080";
  database_url = "postgres:";
  app_base_url = "https://panel.example.com";
  master_key = [];
  cookie_name = "session";
  cookie_secure = true;
  session_ttl = 3600 * second;
  worker_concurrency = pos 4;
  worker_poll = second;
  sync_interval = minute;
  frontend_dir = "web/dist";
  dev_expose_tokens = false;
  run_worker = false;
}
