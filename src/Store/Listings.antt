-- ===== src/Store/Listings.antt =====
-- The listings of internal/store/store.go: `ListUsers`, `ListDroplets`, `ListJobs` and `ListAudit`
-- with their pages, and `UsageSummary`.
pub mod Pages
use Prim.Native.Char.{Char, code}
use batch_managementof_cloud.Prelude.{
  ℕ, Bool, List, Option, String, [], coalesce, count_where, false, find_where, if◌then◌else◌,
  is_blank, leb, length, map, map_some, none, not, pos, select, some, str_eq, suc, to_lower,
  trim_space, true, zero, ℤ, ◌&&◌, ◌+ℤ◌, ◌==◌, ◌||◌, ◌∷◌, append_text,
}
use batch_managementof_cloud.Model.Failure.{Result, db_failure, err, map_ok, ok}
use batch_managementof_cloud.Model.Records.{
  CloudAccount, CredentialStatus, Droplet, Job, JobState, User, failed, partial, queued, running,
  succeeded, valid,
}
use batch_managementof_cloud.Store.{AuditRow, Db}

module _ {A : Type 0} where
  -- `ORDER BY … DESC`, on the time that `at` reads.
  abbrev pub insert_desc : (A → ℕ) → A → List A → List A
  insert_desc at x [] = x ∷ []
  insert_desc at x (y ∷ ys) =
      let rest = insert_desc at x ys in if leb (at y) (at x) then x ∷ y ∷ ys else y ∷ rest

  abbrev pub sort_desc : (A → ℕ) → List A → List A
  sort_desc at [] = []
  sort_desc at (x ∷ xs) = insert_desc at x (sort_desc at xs)

  abbrev pub drop : ℕ → List A → List A
  drop zero xs = xs
  drop (suc n) [] = []
  drop (suc n) (x ∷ xs) = drop n xs

  abbrev pub take : ℕ → List A → List A
  take zero xs = []
  take (suc n) [] = []
  take (suc n) (x ∷ xs) = x ∷ take n xs

  -- `LIMIT … OFFSET …`, which PostgreSQL refuses when one of them is negative.
  abbrev pub page_of : ℤ → ℤ → List A → Result (List A)
  page_of (pos limit) (pos offset) xs = ok (take limit (drop offset xs))
  page_of _ _ xs = err db_failure

  -- A page and the number of all rows.
  unfoldable pub listing : (A → ℕ) → ℤ → ℤ → List A → Result (List A × ℕ)
  listing at limit offset xs =
      map_ok (λ (page : List A). (page, length xs)) (page_of limit offset (sort_desc at xs))

-- `ListUsers`
unfoldable pub list_users : Db → ℤ → ℤ → Result (List User × ℕ)
list_users db limit offset = listing (λ (u : User). u.created_at) limit offset db.users

-- The rest of a text, from each of its places on, passes a test.
abbrev pub any_rest : (String → Bool) → String → Bool
any_rest test String.[] = test String.[]
any_rest test (String.◌∷◌ c s) = let rest = any_rest test s in test (String.◌∷◌ c s) || rest

-- The first character and the rest of a text pass their tests.
abbrev pub first_and : (Char → Bool) → (String → Bool) → String → Bool
first_and first test String.[] = false
first_and first test (String.◌∷◌ c s) = first c && test s

-- LIKE, by its pattern: `%` stands for any text, `_` for any character and `\` makes the next
-- character of the pattern stand for itself.
abbrev pub like : Bool → String → String → Bool
like escaped String.[] = is_blank
like true (String.◌∷◌ c p) = first_and (λ d. code d == code c) (like false p)
like false (String.◌∷◌ c p) =
    let plain = like false p in
    let literal = like true p in
    if code c == 37
    then any_rest plain
    else if code c == 95
    then first_and (λ d. true) plain
    else if code c == 92
    then literal
    else first_and (λ d. code d == code c) plain

-- `column ILIKE '%search%'`
abbrev pub ilike : String → String → Bool
ilike s wanted = any_rest (like false (append_text (to_lower wanted) "%")) (to_lower s)

abbrev pub ilike_column : Option String → String → Bool
ilike_column none t = false
ilike_column (some s) t = ilike s t

-- The WHERE clause of `ListDroplets`.
unfoldable pub droplet_matches : ℕ → Bool → Option ℕ → String → Droplet → Bool
droplet_matches owner everyone account search d =
    (everyone || d.user_id == owner)
    && (elim account [ none ↦ true | some a ↦ d.account_id == a ])
    && (is_blank (trim_space search)
        || ilike d.name (trim_space search)
        || ilike_column d.ipv4 (trim_space search))

-- `ListDroplets`
unfoldable pub list_droplets_page :
    Db → ℕ → Bool → Option ℕ → String → ℤ → ℤ → Result (List Droplet × ℕ)
list_droplets_page db owner everyone account search limit offset =
    listing (λ (d : Droplet). d.created_at) limit offset
      (select (droplet_matches owner everyone account search) db.droplets)

-- The spelling of a state in the database.
abbrev pub state_text : JobState → String
state_text queued = "queued"
state_text running = "running"
state_text succeeded = "succeeded"
state_text failed = "failed"
state_text partial = "partial"

-- The WHERE clause of `ListJobs`.
unfoldable pub job_matches : ℕ → Bool → String → Job → Bool
job_matches owner everyone state j =
    (everyone || j.user_id == owner) && (str_eq state "" || str_eq (state_text j.state) state)

-- `ListJobs`
unfoldable pub list_jobs : Db → ℕ → Bool → String → ℤ → ℤ → Result (List Job × ℕ)
list_jobs db owner everyone state limit offset =
    listing (λ (j : Job). j.created_at) limit offset
      (select (job_matches owner everyone state) db.jobs)

-- `ListAudit`: the rows with the addresses of their actors.
unfoldable pub list_audit : Db → ℤ → ℤ → Result (List (AuditRow × Option String) × ℕ)
list_audit db limit offset =
    map_ok
      (λ (p : List AuditRow × ℕ).
        (map (λ (a : AuditRow). (a, actor_email a.actor_user_id)) p.0, p.1))
      (listing (λ (a : AuditRow). a.created_at) limit offset db.audit_logs)
  where
    actor_email : Option ℕ → Option String
    actor_email none = none
    actor_email (some id) = map_some (λ (u : User). u.email) (find_where (λ u. u.id == id) db.users)

-- `UsageSummary`
pub record UsageSummary : Type 0 where
  pub cloud_accounts : ℕ
  pub unhealthy_accounts : ℕ
  pub account_balance : ℤ
  pub droplets : ℕ
  pub active_droplets : ℕ
  pub vcpus : ℤ
  pub memory_mb : ℤ
  pub monthly_cost : ℤ

-- `COALESCE(sum(…), 0)`; NULL is left out.
abbrev pub sum_of : {A : Type 0} → (A → Option ℤ) → List A → ℤ
sum_of f [] = pos 0
sum_of f (x ∷ xs) = coalesce (f x) (pos 0) +ℤ sum_of f xs

abbrev pub is_valid_status : CredentialStatus → Bool
is_valid_status valid = true
is_valid_status _ = false

abbrev pub in_scope : Option ℕ → ℕ → Bool
in_scope none owner = true
in_scope (some u) owner = owner == u

-- `UsageSummary`, of one user or of everybody.
unfoldable pub usage_summary : Db → Option ℕ → UsageSummary
usage_summary db scope =
    let accounts = select (λ (a : CloudAccount). in_scope scope a.user_id) db.cloud_accounts in
    let droplets = select (λ (d : Droplet). in_scope scope d.user_id) db.droplets in
    record {
      cloud_accounts = length accounts;
      unhealthy_accounts =
          count_where (λ (a : CloudAccount). not (is_valid_status a.credential_status)) accounts;
      account_balance = sum_of (λ (a : CloudAccount). a.account_balance) accounts;
      droplets = length droplets;
      active_droplets = count_where (λ (d : Droplet). str_eq d.status "active") droplets;
      vcpus = sum_of (λ (d : Droplet). some d.vcpus) droplets;
      memory_mb = sum_of (λ (d : Droplet). some d.memory_mb) droplets;
      monthly_cost = sum_of (λ (d : Droplet). d.price_monthly) droplets;
    }
