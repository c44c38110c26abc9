-- ===== src/Config/Load/Usable.antt =====
-- What a configuration that `Load` returns is worth, and which variables the files change.
use batch_managementof_cloud.Prelude.{
  ◌≡◌, true, Bool, List, String, false, if◌then◌else◌, length, ltb_ℤ, pos, refl, str_eq, ◌||◌, ◌≤ℤ◌,
  Bool-cases, Option, [], ap, arith, inl, inr, none, not, some, subst, ℕ, ◌==◌, ◌∙◌, ◌∷◌, cut_at,
  has_prefix, if_both, trim_of, trim_prefix, trim_space, str_eq_iff, sym,
}
use batch_managementof_cloud.Model.Failure.{Error, Result, err, ok}
use batch_managementof_cloud.Model.Json.{lookup, insert, lookup-insert}
use batch_managementof_cloud.Config.{Config}
use batch_managementof_cloud.Config.Load.{
  Process, check_config, env_bool, variable, variables_of, config_of, decode_padded, is_production,
  load, load_env_file, load_line, load_lines, with_key, set_new,
}

-- A configuration that the program can start with.
pub record Usable (p : Process) (cfg : Config) : Type 0 where
  pub key_size : length cfg.master_key ≡ 32
  pub some_worker : pos 1 ≤ℤ cfg.worker_concurrency
  pub few_workers : cfg.worker_concurrency ≤ℤ pos 32
  pub database : str_eq cfg.database_url "" ≡ false
  -- In production, what is not asked for is safe.
  pub secure :
      str_eq cfg.environment "production" ≡ true
      → str_eq (variable (variables_of p) "COOKIE_SECURE") "" ≡ true
      → cfg.cookie_secure ≡ true
  pub silent :
      str_eq cfg.environment "production" ≡ true
      → str_eq (variable (variables_of p) "DEV_EXPOSE_TOKENS") "" ≡ true
      → cfg.dev_expose_tokens ≡ false

no_config : {e : Error} {cfg : Config} → ◌≡◌ {A = Result Config} (err e) (ok cfg) → ⊥
no_config h = cc

same_config : {a b : Config} → ◌≡◌ {A = Result Config} (ok a) (ok b) → a ≡ b
same_config h = cc

-- The tests at the end of `Load`.
checked :
    (c cfg : Config)
    → check_config c ≡ ok cfg
    → (c ≡ cfg)
      × (str_eq c.database_url "" ≡ false)
      × (pos 1 ≤ℤ c.worker_concurrency)
      × (c.worker_concurrency ≤ℤ pos 32)
unfolding check_config
checked c cfg h =
    go (str_eq c.database_url "") (ltb_ℤ c.worker_concurrency (pos 1))
      (ltb_ℤ (pos 32) c.worker_concurrency) refl refl refl h
  where
    go :
        (a b d : Bool)
        → str_eq c.database_url "" ≡ a
        → ltb_ℤ c.worker_concurrency (pos 1) ≡ b
        → ltb_ℤ (pos 32) c.worker_concurrency ≡ d
        → ◌≡◌ {A = Result Config}
            (if a
              then err (Error.text "DATABASE_URL is required")
              else if b || d
              then err (Error.text "WORKER_CONCURRENCY must be between 1 and 32")
              else ok c)
            (ok cfg)
        → (c ≡ cfg)
          × (str_eq c.database_url "" ≡ false)
          × (pos 1 ≤ℤ c.worker_concurrency)
          × (c.worker_concurrency ≤ℤ pos 32)
    go true b d x y z h = absurd (no_config h)
    go false true d x y z h = absurd (no_config h)
    go false false true x y z h = absurd (no_config h)
    go false false false x y z h = (same_config h, x, ground arith, ground arith)

-- A variable that is not set gives the default.
default_bool :
    (vars : List (String × String)) (key : String) (fallback : Bool)
    → str_eq (variable vars key) "" ≡ true
    → env_bool vars key fallback ≡ fallback
unfolding env_bool
default_bool vars key fallback h = rw h refl

module _ (p : Process) (cfg : Config) where
  with_key-Usable :
      (key : Option (List ℕ))
      → with_key p.parse_duration (variables_of p) key ≡ ok cfg
      → Usable p cfg
  unfolding config_of
  with_key-Usable none h = absurd (no_config h)
  with_key-Usable (some key) h = elim (Bool-cases (length key == 32)) [
    | inl e ↦
        let (same, database, low, high) =
          checked (config_of p.parse_duration (variables_of p) key) cfg (rw e at h) in
        subst (Usable p) same (record {
          key_size = ground arith;
          some_worker = low;
          few_workers = high;
          database = database;
          secure = λ production unset.
              default_bool (variables_of p) "COOKIE_SECURE" (is_production (variables_of p)) unset
              ∙ production;
          silent = λ production unset.
              default_bool (variables_of p) "DEV_EXPOSE_TOKENS"
                (not (is_production (variables_of p))) unset
              ∙ ap not production;
        })
    | inr e ↦ absurd (no_config (rw e at h))
  ]

-- A configuration that `Load` returns has a key of 32 bytes, between 1 and 32 workers and the
-- address of a database; in production, unless the variables say otherwise, its cookies are secure
-- and no tokens are exposed.
pub load-Usable : (p : Process) (cfg : Config) → load p ≡ ok cfg → Usable p cfg
unfolding load
load-Usable p cfg h = elim (Bool-cases (str_eq (variable (variables_of p) "MASTER_KEY") "")) [
  | inl e ↦ absurd (no_config (rw e at h))
  | inr e ↦
      with_key-Usable p cfg (decode_padded (variable (variables_of p) "MASTER_KEY")) (rw e at h)
]

set_new-lookup :
    (vars : List (String × String)) (new value key text : String)
    → lookup key vars ≡ some text
    → lookup key (set_new vars new value) ≡ some text
set_new-lookup vars new value key text h = go (lookup new vars) refl
  where
    differ : {t : String} → ◌≡◌ {A = Option String} none (some t) → ⊥
    differ e = cc

    go :
        (o : Option String)
        → lookup new vars ≡ o
        → lookup key (elim o [ some _ ↦ vars | none ↦ insert new value vars ]) ≡ some text
    go (some t) e = h
    go none e = rw (lookup-insert new key value vars) (elim (Bool-cases (str_eq new key)) [
      | inl c ↦
          absurd (differ (sym (subst (λ k. lookup k vars ≡ none) ((str_eq_iff new key).0 c) e) ∙ h))
      | inr c ↦ rw c h
    ])

-- A line changes no variable that is there.
load_line-lookup :
    (vars : List (String × String)) (raw key text : String)
    → lookup key vars ≡ some text
    → lookup key (load_line vars raw) ≡ some text
unfolding load_line
load_line-lookup vars raw key text h =
    let line = trim_space raw in
    if_both (λ (vs : List (String × String)). lookup key vs ≡ some text)
      (str_eq line "" || has_prefix line "#") vars _ h
      (elim (cut_at 61 line)
        as (λ o.
          lookup key (elim o [
            | none ↦ vars
            | some (left, right) ↦
                let key = trim_space (trim_prefix "export " left) in
                let text = trim_of (λ c. c == 34 || c == 39) (trim_space right) in
                if str_eq key "" then vars else set_new vars key text
          ])
          ≡ some text) [
            | none ↦ h
            | some (left, right) ↦
                if_both (λ (vs : List (String × String)). lookup key vs ≡ some text)
                  (str_eq (trim_space (trim_prefix "export " left)) "") vars _ h
                  (set_new-lookup vars (trim_space (trim_prefix "export " left)) _ key text h)
          ])

load_lines-lookup :
    (vars : List (String × String)) (lines : List String) (key text : String)
    → lookup key vars ≡ some text
    → lookup key (load_lines vars lines) ≡ some text
load_lines-lookup vars [] key text h = h
load_lines-lookup vars (line ∷ lines) key text h =
    load_lines-lookup (load_line vars line) lines key text (load_line-lookup vars line key text h)

-- A file of variables changes none that the process, or a file before it, has set.
pub load_env_file-lookup :
    (read_file : String → Option (List String)) (vars : List (String × String))
    (path key text : String)
    → lookup key vars ≡ some text
    → lookup key (load_env_file read_file vars path) ≡ some text
unfolding load_env_file
load_env_file-lookup read_file vars path key text h =
    elim (read_file path)
      as (λ o.
        lookup key (elim o [ none ↦ vars | some lines ↦ load_lines vars lines ]) ≡ some text) [
          | none ↦ h
          | some lines ↦ load_lines-lookup vars lines key text h
        ]
