-- ===== src/Httpapi/Tests.antt =====
-- The rules of internal/httpapi/droplets.go and internal/worker/worker.go at concrete requests.
mod Admins
mod Batches
mod Links
mod Logins
use batch_managementof_cloud.Prelude.{
  Distinct, In, String, [], false, is_blank, map, negsuc, none, pos, refl, trim_space, true, ℤ, ◌↔◌,
  ◌∷◌, ◌≡◌, ◌≤ℤ◌, ◌≤◌, List, arith, atoi_value, ℕ, ◌*ℤ◌, some, ◌*◌, ◌+◌, ◌⊎◌, Option,
}
use batch_managementof_cloud.Model.Failure.{canceled, err, ok}
use batch_managementof_cloud.Model.Records.{Role, Status, User, is_active, admin}
use batch_managementof_cloud.Store.{SessionRow, empty_db}
use batch_managementof_cloud.Store.Sessions.{session_of, session_user}
use batch_managementof_cloud.Effects.{Env, World, attempt, pure, statement, ◌>>=◌}
use batch_managementof_cloud.Worker.Selection.{
  action_refusal, delete_refusal, valid_droplet_ids, valid_droplet_ids_iff,
}
use batch_managementof_cloud.Httpapi.Guards.{
  Principal, authenticate, authenticate-active, csrf, csrf_iff, is_safe,
}
use batch_managementof_cloud.Httpapi.Limits.{
  allowed, pagination, pagination-bounds, pagination-offset, rate_limit-most,
}
use batch_managementof_cloud.Httpapi.Names.{IsSorted, normalize_names, normalize_names_lem}
use batch_managementof_cloud.Httpapi.Selection.{
  action_request, action_request-runnable, delete_request, delete_request-runnable, unique_int64,
  unique_int64_lem,
}

valid_droplet_ids_iff_example : (valid_droplet_ids (pos 5 ∷ pos 7 ∷ []) 100 ≡ true) ↔ (
    (1 ≤ 2)
    × (2 ≤ 100)
    × Distinct (pos 5 ∷ pos 7 ∷ [])
    × ((v : ℤ) → In v (pos 5 ∷ pos 7 ∷ []) → pos 1 ≤ℤ v))
valid_droplet_ids_iff_example = valid_droplet_ids_iff (pos 5 ∷ pos 7 ∷ []) 100

normalize_names_lem_example :
    IsSorted (normalize_names ("b" ∷ " a " ∷ "b" ∷ []))
    × Distinct (normalize_names ("b" ∷ " a " ∷ "b" ∷ []))
    × ((x : String)
        → In x (normalize_names ("b" ∷ " a " ∷ "b" ∷ []))
          ↔ (In x (map trim_space ("b" ∷ " a " ∷ "b" ∷ [])) × (is_blank x ≡ false)))
normalize_names_lem_example = normalize_names_lem ("b" ∷ " a " ∷ "b" ∷ [])

pagination-offset_example : (pagination "3" "500").1 ≡ pos 2 *ℤ (pagination "3" "500").0
unfolding pagination atoi_value
pagination-offset_example = pagination-offset "3" "500" 2 (omega arith) refl

abbrev arrivals : List (String × ℕ)
arrivals = ("b", 6) ∷ ("a", 7) ∷ ("a", 9) ∷ []

rate_limit-most_example : allowed 2 10 "a" (("a", 5) ∷ arrivals) [] ≤ 2
rate_limit-most_example =
    rate_limit-most 2 10 5 "a" arrivals [] (omega arith)
      (omega arith, (omega arith, (omega arith, tt)))

csrf_iff_example : (csrf "POST" (some "t") "t" ≡ none) ↔ (
    (is_safe "POST" ≡ true)
    ⊎ ((◌≡◌ {A = Option String} (some "t") (some "t")) × (is_blank "t" ≡ false)))
csrf_iff_example = csrf_iff "POST" (some "t") "t"

abbrev calm : Env
calm = record {
  fault = λ t. none;
  clock = λ t. 100 + t;
  uuid = λ t n. 1000 * t + n;
  http = λ t c. err canceled;
  is_canceled = λ t. false;
  open_secret = λ c n a. ok "token";
  seal_secret = λ t p a. ok ("c", "n");
  random = λ t n. ok [];
  parse_float = λ s. none;
  request_uri = λ s. none;
  cloud_init = λ p. p;
  secret_name = λ n. "root_password";
  snapshot_name = λ d t. "snap";
  id_text = λ n. "id";
  argon2 = λ p s i m t k. 1 ∷ [];
  hash_token = λ t. t;
  fingerprint = λ t. t;
  parse_address = λ s. some s;
  has_location = λ s. true;
  smtp = λ t s. ok tt;
}

abbrev ada : User
ada = record {
  id = 1;
  email = "ada@example.com";
  password_hash = "h";
  role = Role.admin;
  status = Status.active;
  email_verified_at = some 3;
  quota_droplets = none;
  quota_vcpus = none;
  quota_memory_mb = none;
  created_at = 3;
  updated_at = 3;
}

abbrev opened : SessionRow
opened = record {
  id = 50;
  user_id = 1;
  token_hash = "s";
  ip_address = none;
  user_agent = "x";
  recent_auth_at = 9;
  expires_at = 900;
  created_at = 9;
}

abbrev signed_in : World
signed_in = record {
  db = record empty_db { users = ada ∷ []; sessions = opened ∷ [] };
  tick = 0;
  calls = [];
  mails = [];
}

abbrev principal : Principal
principal = record { user = ada; session = session_of opened; token = "s" }

authenticate-active_example :
    (some "s" ≡ some principal.token)
    × (is_active principal.user.status ≡ true)
    × (session_user signed_in.db (calm.clock 0) "s" ≡ ok (principal.session, principal.user))
unfolding authenticate ◌>>=◌ attempt statement pure session_user
authenticate-active_example = authenticate-active (λ t. t) (some "s") calm signed_in principal refl
