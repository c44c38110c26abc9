-- ===== src/Httpapi/Settings/Secret.antt =====
-- Saving the settings keeps the password of the mail server.
use batch_managementof_cloud.Prelude.{
  ℕ, List, Option, String, [], none, ◌∷◌, ◌≡◌, Bool, ap, false, refl, some, sym, ◌∙◌, map_some,
}
use batch_managementof_cloud.Model.Failure.{Result, err, ok}
use batch_managementof_cloud.Store.{Db, SettingValue}
use batch_managementof_cloud.Store.Droplets.Sync.{written}
use batch_managementof_cloud.Store.Settings.{set_setting, set_setting_with_secret}
use batch_managementof_cloud.Store.Settings.Secrets.{secret_of, set_setting-secret_of}
use batch_managementof_cloud.Effects.{Env, World, pure, Program}
use batch_managementof_cloud.Httpapi.Guards.{Principal}
use batch_managementof_cloud.Httpapi.Handler.{Sender}
use batch_managementof_cloud.Httpapi.Handler.After.{
  after_statement, at_end, after_call, after_decoded, after_part, after_pass, after_recently,
  with_it, after_audit,
}
use batch_managementof_cloud.Httpapi.Handler.Logic.{Ends, settled}
use batch_managementof_cloud.Httpapi.Mail.{smtp_secret_update}
use batch_managementof_cloud.Httpapi.Selection.{Refusal}
use batch_managementof_cloud.Httpapi.Settings.{
  write_settings, SettingsInput, admin_update_settings, plain_settings,
}

-- The loop over the settings keeps every secret.
Ends-write_settings :
    (Q : Unit {0} → World → Type 0) (R : Refusal → World → Type 0) (actor : ℕ)
    (settings : List (String × SettingValue)) (key : String)
    (secret : Option String × Option String) (env : Env) (w : World)
    → secret_of w.db key ≡ secret
    → ((v : World) → secret_of v.db key ≡ secret → Q tt v)
    → ((r : Refusal) (v : World) → secret_of v.db key ≡ secret → R r v)
    → Ends Q R (write_settings actor settings) env w
unfolding write_settings set_setting
Ends-write_settings Q R actor [] key secret env w e h k = at_end tt (h w e)
Ends-write_settings Q R actor ((new, written) ∷ settings) key secret env w e h k =
    after_statement _ _
      (λ outcome db s.
        Ends-write_settings Q R actor settings key secret env _ (kept db (ok outcome) s) h k)
      (λ c db s. k _ _ (kept db (err c) s)) (λ c. k _ _ e)
  where
    kept :
        (db : Db) (r : Result (Unit {0}))
        → set_setting w.db (env.clock w.tick) new written none none actor ≡ (r, db)
        → secret_of db key ≡ secret
    kept db r s =
        ap (λ (x : Result (Unit {0}) × Db). secret_of x.1 key) (sym s)
        ∙ set_setting-secret_of w.db (env.clock w.tick) actor new key written
        ∙ e

-- Without a password there is none to write.
no_password :
    (password : String) (clear : Bool) (env : Env) (w : World)
    → password ≡ ""
    → smtp_secret_update password clear env w ≡ (ok (none, clear), w)
unfolding smtp_secret_update pure
no_password password clear env w e = rw e refl

-- Saving the settings without a password and without the wish to clear it keeps the encrypted
-- password of the mail server with its nonce, and every other secret, as it was, however the request
-- ends.
pub admin_update_settings-secret_of :
    (p : Principal) (sender : Sender) (i : SettingsInput) (key : String) (env : Env) (w : World)
    → i.password ≡ ""
    → i.clear_password ≡ false
    → secret_of (admin_update_settings p sender (some i) env w).1.db key ≡ secret_of w.db key
unfolding admin_update_settings secret_of
admin_update_settings-secret_of p sender i key env w absent_password kept =
    settled (λ v. secret_of v.db key ≡ secret_of w.db key) _ env w
      (with_it _ (
        after_recently _ _
          (λ recent. after_decoded i _ (
            after_pass _ _
              (λ valid. after_part (
                Ends-write_settings _ _ p.user.id (plain_settings i) key (secret_of w.db key) env _
                  refl
                  (λ v e.
                    after_call _ _
                      (λ secret made.
                        after_statement _ _
                          (λ outcome db s.
                            after_audit _ _ _ _ _ _
                              λ r logs. at_end _ (stays secret v _ db _ _ (ok outcome) made e s))
                          (λ c db s. stays secret v _ db _ _ (err c) made e s) (λ c. back v e))
                      (λ c made. back v e))
                  (λ r v e. e)))
              (λ r e. refl)))
          (λ r. refl)))
  where
    update : Program (Option (String × String) × Bool)
    update = smtp_secret_update i.password i.clear_password

    -- The password's step leaves the tables alone.
    back :
        (v : World)
        → secret_of v.db key ≡ secret_of w.db key
        → secret_of (update env v).1.db key ≡ secret_of w.db key
    back v e =
        ap (λ (x : Result (Option (String × String) × Bool) × World). secret_of x.1.db key)
          (no_password i.password i.clear_password env v absent_password)
        ∙ e

    same :
        {a b : Option (String × String) × Bool}
        → ◌≡◌ {A = Result (Option (String × String) × Bool)} (ok a) (ok b)
        → a ≡ b
    same h = cc

    no_secret : Bool → Option (String × String) × Bool
    no_secret b = (none, b)

    bare :
        (secret : Option (String × String) × Bool) (v : World)
        → (update env v).0 ≡ ok secret
        → ◌≡◌ {A = Option (String × String) × Bool} (none, false) secret
    bare secret v made =
        ap no_secret (sym kept)
        ∙ same (
            sym (
              ap (λ (x : Result (Option (String × String) × Bool) × World). x.0)
                (no_password i.password i.clear_password env v absent_password))
            ∙ made)

    stays :
        (secret : Option (String × String) × Bool) (v : World) (now : ℕ) (db : Db)
        (smtp : SettingValue) (actor : ℕ) (r : Result (Unit {0}))
        → (update env v).0 ≡ ok secret
        → secret_of v.db key ≡ secret_of w.db key
        → set_setting_with_secret
            (update env v).1.db
            now
            "smtp"
            smtp
            (map_some (λ (s : String × String). s.0) secret.0)
            (map_some (λ (s : String × String). s.1) secret.0)
            secret.1
            actor
          ≡ (r, db)
        → secret_of db key ≡ secret_of w.db key
    stays secret v now db smtp actor r made e s =
        ap (λ (x : Result (Unit {0}) × Db). secret_of x.1 key) (sym s)
        ∙ ap
            (λ (t : Option (String × String) × Bool).
              secret_of
                (set_setting_with_secret (update env v).1.db now "smtp" smtp
                  (map_some (λ (s : String × String). s.0) t.0)
                  (map_some (λ (s : String × String). s.1) t.0) t.1 actor).1
                key)
            (sym (bare secret v made))
        ∙ set_setting-secret_of (update env v).1.db now actor "smtp" key smtp
        ∙ back v e
