-- ===== src/Worker/Quota/Within.antt =====
-- What `checkQuota` of internal/worker/worker.go leaves of a user's quotas.
use batch_managementof_cloud.Prelude.{
  ◌≡◌, Bool-cases, In, List, Option, String, ap, arith, false, find_where-In, find_where-holds,
  if◌then◌else◌, inl, inr, int64, leb, length, ltb, none, pos, refl, select, some, str_eq,
  str_eq_iff, ℕ, ℤ, ◌*ℤ◌, ◌+ℤ◌, ◌+◌, ◌==◌, ◌||◌, ◌≤ℤ◌, ◌⊎◌, Bool, IsInt64, int64_of_IsInt64,
  is_some, not, subst, sym, true, ◌&&◌, ◌∙◌,
}
use batch_managementof_cloud.Model.Failure.{Error, Result, err, ok, with_value, wrap}
use batch_managementof_cloud.Model.Records.{Droplet, User}
use batch_managementof_cloud.Store.{Db}
use batch_managementof_cloud.Store.Droplets.{sum_ℤ, user_usage}
use batch_managementof_cloud.Store.Users.{found, get_user_by_id}
use batch_managementof_cloud.Provider.{
  Body, Call, Reply, Size, get_sizes, sizes_body, account_body, action_body, balance_body,
  created_body, empty, error_body, malformed, other_body, page_body,
}
use batch_managementof_cloud.Effects.{
  Env, World, after_tick, pure, query, raise, send, statement, Program, attempt, of_result,
}
use batch_managementof_cloud.Effects.Runs.{bind_inverse, query-db, query_inverse}
use batch_managementof_cloud.Digitalocean.{RateInfo}
use batch_managementof_cloud.Digitalocean.Client.{request}
use batch_managementof_cloud.Worker.Quota.{check_size, exceeds, size_of, check_quota, check_used}

-- A number that a quota allows; without a quota each is.
abbrev pub AtMost : Option ℤ → ℤ → Type 0
AtMost none n = Unit
AtMost (some quota) n = n ≤ℤ quota

-- A size of the provider's list that fits the quotas on cpus and memory, next to what the user has,
-- in the program's 64-bit arithmetic.
pub record FittingSize (owner : User) (vcpus memory count : ℤ) (slug : String) (body : Body)
    : Type 0 where
  pub sizes : List Size
  pub listed : body ≡ sizes_body sizes
  pub size : Size
  pub inside : In size sizes
  pub named : size.slug ≡ slug
  pub few_vcpus : AtMost owner.quota_vcpus (int64 (vcpus +ℤ int64 (size.vcpus *ℤ count)))
  pub small_memory : AtMost owner.quota_memory_mb (int64 (memory +ℤ int64 (size.memory *ℤ count)))

not_ok : {A : Type 0} {e : Error} {a : A} → ◌≡◌ {A = Result A} (err e) (ok a) → ⊥
not_ok e = cc

ok_inj : {A : Type 0} {a b : A} → ◌≡◌ {A = Result A} (ok a) (ok b) → a ≡ b
ok_inj e = cc

not_exceeds :
    (quota : Option ℤ) (current added : ℤ)
    → exceeds quota current added ≡ false
    → AtMost quota (int64 (current +ℤ added))
not_exceeds none current added h = tt
not_exceeds (some limit) current added h = ground arith

sized :
    (owner : User) (vcpus memory count : ℤ) (slug : String) (sizes : List Size) (o : Option Size)
    → size_of slug sizes ≡ o
    → (elim o as (λ o. Result (Unit {0})) [
      | none ↦ err (with_value "unknown size" slug)
      | some size ↦
          if exceeds owner.quota_vcpus vcpus (int64 (size.vcpus *ℤ count))
          then err (Error.text "vCPU quota exceeded")
          else if exceeds owner.quota_memory_mb memory (int64 (size.memory *ℤ count))
          then err (Error.text "memory quota exceeded")
          else ok tt
    ])
      ≡ ok tt
    → FittingSize owner vcpus memory count slug (sizes_body sizes)
sized owner vcpus memory count slug sizes none e h = absurd (not_ok h)
sized owner vcpus memory count slug sizes (some size) e h =
    elim (Bool-cases (exceeds owner.quota_vcpus vcpus (int64 (size.vcpus *ℤ count)))) [
      | inl a ↦ absurd (not_ok (rw a at h))
      | inr a ↦
          elim (Bool-cases (exceeds owner.quota_memory_mb memory (int64 (size.memory *ℤ count)))) [
            | inl b ↦ absurd (not_ok (rw (a, b) at h))
            | inr b ↦ record {
              sizes = sizes;
              listed = refl;
              size = size;
              inside = find_where-In (λ (s : Size). str_eq s.slug slug) sizes e;
              named =
                  (str_eq_iff size.slug slug).0
                    (find_where-holds (λ (s : Size). str_eq s.slug slug) sizes e);
              few_vcpus = not_exceeds owner.quota_vcpus vcpus (int64 (size.vcpus *ℤ count)) a;
              small_memory =
                  not_exceeds owner.quota_memory_mb memory (int64 (size.memory *ℤ count)) b;
            }
          ]
    ]

check_size-Fitting :
    (owner : User) (vcpus memory count : ℤ) (slug : String) (body : Body)
    → check_size owner vcpus memory count slug body ≡ ok tt
    → FittingSize owner vcpus memory count slug body
check_size-Fitting owner vcpus memory count slug empty h = absurd (not_ok h)
check_size-Fitting owner vcpus memory count slug malformed h = absurd (not_ok h)
check_size-Fitting owner vcpus memory count slug other_body h = absurd (not_ok h)
check_size-Fitting owner vcpus memory count slug (error_body x0 x1) h = absurd (not_ok h)
check_size-Fitting owner vcpus memory count slug (account_body x0) h = absurd (not_ok h)
check_size-Fitting owner vcpus memory count slug (balance_body x0) h = absurd (not_ok h)
check_size-Fitting owner vcpus memory count slug (sizes_body sizes) h =
    sized owner vcpus memory count slug sizes (size_of slug sizes) refl h
check_size-Fitting owner vcpus memory count slug (page_body x0 x1) h = absurd (not_ok h)
check_size-Fitting owner vcpus memory count slug (created_body x0 x1 x2) h = absurd (not_ok h)
check_size-Fitting owner vcpus memory count slug (action_body x0) h = absurd (not_ok h)

-- What the provider has answered when a request returns.
request_inverse :
    (c : Call) (env : Env) (w : World) (found : Body × RateInfo)
    → (request c env w).0 ≡ ok found
    → (reply : Reply) × (env.http w.tick c ≡ ok reply) × (reply.body ≡ found.0)
unfolding request send pure raise
request_inverse c env w found h =
    let (reply, e, k) = bind_inverse _ _ env w found h in
    elim (Bool-cases (ltb reply.status_code 200 || leb 300 reply.status_code)) [
      | inl bad ↦ absurd (not_ok (rw bad at k))
      | inr good ↦ (reply, e, ap (λ (x : Body × RateInfo). x.0) (ok_inj (rw good at k)))
    ]

query-world :
    {A : Type 0} (f : ℕ → Db → Result A) (env : Env) (w : World) → (query f env w).1 ≡ after_tick w
unfolding statement
query-world {A} f env w =
    elim (env.fault w.tick)
      as (λ o.
        (elim o as (λ o. Result A × World) [
          | some e ↦ (err e, after_tick w)
          | none ↦ (f (env.clock w.tick) w.db, record w { db = w.db; tick = w.tick + 1 })
        ]).1
        ≡ after_tick w) [ some c ↦ refl | none ↦ refl ]

-- What the user of a creation has, and may have with it.
pub record Within (env : Env) (w : World) (id : ℕ) (slug : String) (count : ℤ) (owner : User)
    : Type 0 where
  pub droplets :
      AtMost owner.quota_droplets
        (pos (length (select (λ (d : Droplet). d.user_id == id) w.db.droplets)) +ℤ count)
  pub resources :
      ((owner.quota_vcpus ≡ none) × (owner.quota_memory_mb ≡ none))
      ⊎ ((reply : Reply) × (env.http (w.tick + 2) get_sizes ≡ ok reply)
          × FittingSize owner
              (sum_ℤ
                (λ (d : Droplet). d.vcpus)
                (select (λ (d : Droplet). d.user_id == id) w.db.droplets))
              (sum_ℤ
                (λ (d : Droplet). d.memory_mb)
                (select (λ (d : Droplet). d.user_id == id) w.db.droplets))
              count
              slug
              reply.body)

unset : {A : Type 0} (o : Option A) → is_some o ≡ false → o ≡ none
unset none h = refl
unset (some a) h = absurd (differ h)
  where
    differ : true ≡ false → ⊥
    differ h = cc

neither : (a b : Bool) → (not a && not b) ≡ true → (a ≡ false) × (b ≡ false)
neither a b h = ground arith

module _ (slug : String) (count : ℤ) (owner : User) (droplets : ℕ) (vcpus memory : ℤ) (env : Env)
    (v : World) where
  -- The end of the check, for a user with a quota on cpus or memory.
  asked_sizes :
      (r : Result (Body × RateInfo))
      → (request get_sizes env v).0 ≡ r
      → (elim r as (λ r. Program (Unit {0})) [
        | err e ↦ raise (wrap "load sizes for quota check" e)
        | ok found ↦ of_result (check_size owner vcpus memory count slug found.0)
      ]
          env
          (request get_sizes env v).1).0
        ≡ ok tt
      → (reply : Reply) × (env.http v.tick get_sizes ≡ ok reply)
        × FittingSize owner vcpus memory count slug reply.body
  unfolding raise of_result
  asked_sizes (err e) same h = absurd (not_ok h)
  asked_sizes (ok found) same h =
      let (reply, replied, body) = request_inverse get_sizes env v found same in
      (
        reply,
        replied,
        subst (FittingSize owner vcpus memory count slug) (sym body)
            (check_size-Fitting owner vcpus memory count slug found.0 h),
      )

  check_used-Within :
      (check_used slug count owner (droplets, vcpus, memory) env v).0 ≡ ok tt
      → AtMost owner.quota_droplets (int64 (pos droplets +ℤ count))
        × (((owner.quota_vcpus ≡ none) × (owner.quota_memory_mb ≡ none))
            ⊎ ((reply : Reply) × (env.http v.tick get_sizes ≡ ok reply)
                × FittingSize owner vcpus memory count slug reply.body))
  unfolding raise attempt
  check_used-Within h = elim (Bool-cases (exceeds owner.quota_droplets (pos droplets) count)) [
    | inl e ↦ absurd (not_ok (rw e at h))
    | inr e ↦ (
      not_exceeds owner.quota_droplets (pos droplets) count e,
      elim (Bool-cases (not (is_some owner.quota_vcpus) && not (is_some owner.quota_memory_mb))) [
        | inl free ↦
            let (cpus, memory) = neither _ _ free in
            inl (unset owner.quota_vcpus cpus, unset owner.quota_memory_mb memory)
        | inr bound ↦
            let (r, same, k) =
              bind_inverse (attempt (request get_sizes)) _ env v tt (rw (e, bound) at h) in
            inr (asked_sizes r (ok_inj same) k)
      ],
    )
  ]

exact : (quota : Option ℤ) (n : ℤ) → IsInt64 n → AtMost quota (int64 n) → AtMost quota n
exact quota n fits h = subst (AtMost quota) (int64_of_IsInt64 n fits) h

within :
    (id : ℕ) (slug : String) (count : ℤ) (owner : User) (env : Env) (w : World)
    → IsInt64 (pos (length (select (λ (d : Droplet). d.user_id == id) w.db.droplets)) +ℤ count)
    → (check_used slug count owner (user_usage w.db id) env (after_tick (after_tick w))).0 ≡ ok tt
    → Within env w id slug count owner
unfolding user_usage
within id slug count owner env w fits h =
    let (few, rest) = check_used-Within slug count owner _ _ _ env (after_tick (after_tick w)) h in
    record {
      droplets = exact owner.quota_droplets _ fits few;
      resources =
          subst
            (λ (t : ℕ).
              ((owner.quota_vcpus ≡ none) × (owner.quota_memory_mb ≡ none))
              ⊎ ((reply : Reply) × (env.http t get_sizes ≡ ok reply)
                  × FittingSize owner
                      (sum_ℤ (λ (d : Droplet). d.vcpus)
                        (select (λ (d : Droplet). d.user_id == id) w.db.droplets))
                      (sum_ℤ (λ (d : Droplet). d.memory_mb)
                        (select (λ (d : Droplet). d.user_id == id) w.db.droplets))
                      count slug reply.body))
            (two_ticks w.tick) rest;
    }
  where
    two_ticks : (t : ℕ) → t + 1 + 1 ≡ t + 2
    two_ticks t = omega arith

-- When the check lets a creation through, whatever the provider and the database reply, the droplets
-- that the user has together with the requested ones are at most the user's quota of droplets; and a
-- user with a quota on cpus or memory has asked for a size that the provider lists and that, as often
-- as it is requested and together with what he has, is at most those quotas in 64-bit arithmetic.
-- (The number of his droplets and of the requested ones together fits 64 bits.)
pub check_quota-Within :
    (id : ℕ) (slug : String) (count : ℤ) (owner : User) (env : Env) (w : World)
    → get_user_by_id w.db id ≡ ok owner
    → IsInt64 (pos (length (select (λ (d : Droplet). d.user_id == id) w.db.droplets)) +ℤ count)
    → (check_quota id slug count env w).0 ≡ ok tt
    → Within env w id slug count owner
unfolding check_quota
check_quota-Within id slug count owner env w known fits h =
    let first = λ (now : ℕ) (db : Db). get_user_by_id db id in
    let second = λ (now : ℕ) (db : Db). ok (user_usage db id) in
    let start = (query first env w).1 in
    let (found, e, k) = bind_inverse (query first) _ env w tt h in
    let (used, f, l) = bind_inverse (query second) _ env start tt k in
    let is_owner : found ≡ owner = ok_inj (sym (query_inverse first env w found e) ∙ known) in
    let is_used : used ≡ user_usage w.db id =
      sym (ok_inj (query_inverse second env start used f))
      ∙ ap (λ (d : Db). user_usage d id) (query-db first env w) in
    let later : (query second env start).1 ≡ after_tick (after_tick w) =
      query-world second env start ∙ ap after_tick (query-world first env w) in
    within id slug count owner env w fits (
      subst (λ v. (check_used slug count owner (user_usage w.db id) env v).0 ≡ ok tt) later
        (subst (λ u. (check_used slug count owner u env (query second env start).1).0 ≡ ok tt)
          is_used
          (subst (λ o. (check_used slug count o used env (query second env start).1).0 ≡ ok tt)
            is_owner l)))
