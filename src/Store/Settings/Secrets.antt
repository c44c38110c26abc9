-- ===== src/Store/Settings/Secrets.antt =====
-- A setting reads back as it was written, and its secret stays unless it is to be replaced.
use batch_managementof_cloud.Prelude.{
  ℕ, Bool-cases, List, Option, String, [], exists_where, false, find_where, if_both, inl, inr, none,
  not, refl, some, str_eq, update_where, ◌==◌, ◌∷◌, ◌≡◌, Bool, arith, find_where-append,
  find_where_absent, if◌then◌else◌, true, ◌++◌, ap, find_where-holds, find_where-update,
  find_where_present, map_some, str_eq_refl, sym, ◌∙◌,
}
use batch_managementof_cloud.Model.Failure.{Result, err, foreign_key_violation, ok}
use batch_managementof_cloud.Model.Records.{User}
use batch_managementof_cloud.Store.{Db, Setting, SettingValue}
use batch_managementof_cloud.Store.Settings.{set_setting_with_secret, get_setting, overwrite}
use batch_managementof_cloud.Store.Users.{found}

abbrev pub secret_of_row : Option Setting → Option String × Option String
secret_of_row none = (none, none)
secret_of_row (some s) = (s.secret_ciphertext, s.secret_nonce)

-- The ciphertext that is kept under a key, and the nonce that decrypts it.
unfoldable pub secret_of : Db → String → Option String × Option String
secret_of db key = secret_of_row (find_where (λ (s : Setting). str_eq s.key key) db.system_settings)

-- A search under a key after the row under a key is overwritten.
found_after :
    (new key : String) (change : Setting → Setting) (ss : List Setting)
    → ((s : Setting) → (change s).key ≡ s.key)
    → ((s : Setting) → secret_of_row (some (change s)) ≡ secret_of_row (some s))
    → secret_of_row (
        find_where
          (λ (s : Setting). str_eq s.key key)
          (update_where (λ (s : Setting). str_eq s.key new) change ss))
      ≡ secret_of_row (find_where (λ (s : Setting). str_eq s.key key) ss)
found_after new key change [] same keep = refl
found_after new key change (s ∷ ss) same keep = elim (Bool-cases (str_eq s.key new)) [
  | inl e ↦ elim (Bool-cases (str_eq s.key key)) [
    | inl f ↦ rw (e, same s, f) (keep s)
    | inr f ↦ rw (e, same s, f) (found_after new key change ss same keep)
  ]
  | inr e ↦ elim (Bool-cases (str_eq s.key key)) [
    | inl f ↦ rw (e, f) refl
    | inr f ↦ rw (e, f) (found_after new key change ss same keep)
  ]
]

added :
    (q : Setting → Bool) (ss : List Setting) (row : Setting)
    → secret_of_row (some row) ≡ (none, none)
    → secret_of_row (find_where q (ss ++ row ∷ [])) ≡ secret_of_row (find_where q ss)
added q ss row bare = elim (Bool-cases (exists_where q ss)) [
  | inl e ↦ rw (find_where-append q ss row, e) refl
  | inr e ↦ elim (Bool-cases (q row)) [
    | inl f ↦ rw (find_where-append q ss row, e, f, find_where_absent q ss e) bare
    | inr f ↦ rw (find_where-append q ss row, e, f, find_where_absent q ss e) refl
  ]
]

-- A write that does not update the secret, and has none, keeps the secrets of all keys.
pub set_setting-secret_of :
    (db : Db) (now actor : ℕ) (new key : String) (value : SettingValue)
    → secret_of (set_setting_with_secret db now new value none none false actor).1 key
      ≡ secret_of db key
unfolding set_setting_with_secret secret_of
set_setting-secret_of db now actor new key value =
    let P = λ (x : Result (Unit {0}) × Db).
      secret_of_row (find_where (λ (s : Setting). str_eq s.key key) x.1.system_settings)
      ≡ secret_of_row (find_where (λ (s : Setting). str_eq s.key key) db.system_settings) in
    if_both P (not (exists_where (λ (u : User). u.id == actor) db.users))
      (err foreign_key_violation, db) _ refl
      (if_both P (exists_where (λ (s : Setting). str_eq s.key new) db.system_settings) _ _
        (found_after new key _ db.system_settings (λ s. refl) (λ s. refl))
        (added (λ (s : Setting). str_eq s.key key) db.system_settings _ refl))

same_setting :
    (test there : Bool) (db after first second : Db)
    → ◌≡◌ {A = Result (Unit {0}) × Db}
        (if not test
          then (err foreign_key_violation, db)
          else if there
          then (ok tt, first)
          else (ok tt, second))
        (ok tt, after)
    → (if there then first else second) ≡ after
same_setting test there db after first second h = ground arith

appended :
    (key : String) (ss : List Setting) (row : Setting)
    → str_eq row.key key ≡ true
    → exists_where (λ (s : Setting). str_eq s.key key) ss ≡ false
    → find_where (λ (s : Setting). str_eq s.key key) (ss ++ row ∷ []) ≡ some row
appended key ss row hit absent =
    rw (find_where-append (λ (s : Setting). str_eq s.key key) ss row, absent, hit) refl

-- What is written under a key is read back under it.
pub get_setting-set_setting :
    (db after : Db) (now actor : ℕ) (key : String) (value : SettingValue)
    (ciphertext iv : Option String) (update_secret : Bool)
    → set_setting_with_secret db now key value ciphertext iv update_secret actor ≡ (ok tt, after)
    → (s : Setting) × (get_setting after key ≡ ok s)
      × (s.value ≡ value)
      × (update_secret ≡ true → secret_of_row (some s) ≡ (ciphertext, iv))
unfolding set_setting_with_secret get_setting
get_setting-set_setting db after now actor key value ciphertext iv update_secret h =
    let rows =
      same_setting (exists_where (λ (u : User). u.id == actor) db.users)
        (exists_where (λ (s : Setting). str_eq s.key key) db.system_settings) db after _ _ h in
    elim (Bool-cases (exists_where (λ (s : Setting). str_eq s.key key) db.system_settings)) [
      | inl e ↦
          let (s, found_s) =
            find_where_present (λ (s : Setting). str_eq s.key key) db.system_settings e in
          let change = overwrite now value ciphertext iv update_secret actor in
          (
            change s,
            ap (λ (d : Db). get_setting d key) (sym (rw e at rows))
                ∙ ap found (
                    find_where-update (λ (s : Setting). str_eq s.key key)
                      (λ (s : Setting). str_eq s.key key) change db.system_settings (λ s. refl)
                    ∙ ap (map_some (λ (t : Setting). if str_eq t.key key then change t else t))
                        found_s
                    ∙ ap some (
                        hit s
                          (find_where-holds (λ (s : Setting). str_eq s.key key) db.system_settings
                            found_s)
                          change)),
            refl,
            λ u. rw u refl,
          )
      | inr e ↦ (
        _,
        ap (λ (d : Db). get_setting d key) (sym (rw e at rows))
            ∙ ap found (appended key db.system_settings _ (str_eq_refl key) e),
        refl,
        λ u. refl,
      )
    ]
  where
    hit :
        (s : Setting)
        → str_eq s.key key ≡ true
        → (change : Setting → Setting) → (if str_eq s.key key then change s else s) ≡ change s
    hit s e change = rw e refl
