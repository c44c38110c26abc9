-- ===== src/Httpapi/Settings.antt =====
-- The settings of the system: `adminGetSettings`, `adminUpdateSettings` and `smtpSecretUpdate` of
-- internal/httpapi/admin.go and `publicConfig` of internal/httpapi/server.go.
pub mod Secret
use Prim.Native.String.{len}
use batch_managementof_cloud.Prelude.{
  ℕ, Bool, List, Option, String, [], false, if◌then◌else◌, ltb, ltb_ℤ, map_some, none, not, pos,
  some, str_eq, trim_space, true, ℤ, ◌&&◌, ◌*◌, ◌||◌, ◌∷◌,
}
use batch_managementof_cloud.Model.Failure.{Result, err, ok}
use batch_managementof_cloud.Model.Json.{lookup}
use batch_managementof_cloud.Store.{
  Setting, SettingValue, of_default_quota, of_maintenance, of_registration, of_session, of_site,
  of_smtp,
}
use batch_managementof_cloud.Store.Settings.{
  get_setting, list_settings, set_setting, set_setting_with_secret,
}
use batch_managementof_cloud.Effects.{Env, query, statement}
use batch_managementof_cloud.Httpapi.Guards.{Principal, refusal}
use batch_managementof_cloud.Httpapi.Handler.{
  Handler, Sender, always, answer, audit, call, decode_json, pass, recently, refuse_if, try,
  with_env, ◌>>=◌,
}
use batch_managementof_cloud.Httpapi.Mail.{smtp_secret_update, valid_email}
use batch_managementof_cloud.Httpapi.Selection.{Refusal}

-- The body of `adminUpdateSettings`.
pub record SettingsInput : Type 0 where
  pub site_name : String
  pub timezone : String
  pub registration_enabled : Bool
  pub maintenance_enabled : Bool
  pub maintenance_message : String
  pub session_hours : ℤ
  pub droplets : Option ℤ
  pub vcpus : Option ℤ
  pub memory_mb : Option ℤ
  pub host : String
  pub port : ℤ
  pub username : String
  pub password : String
  pub clear_password : Bool
  pub from : String
  pub starttls : Bool

abbrev pub below_zero : Option ℤ → Bool
below_zero none = false
below_zero (some n) = ltb_ℤ n (pos 0)

-- The guards of `adminUpdateSettings`, in the order in which it makes them.
unfoldable pub settings_refusal : Env → SettingsInput → Option Refusal
settings_refusal env i =
    if str_eq (trim_space i.site_name) ""
      || ltb 100 (len i.site_name)
      || ltb_ℤ i.session_hours (pos 1)
      || ltb_ℤ (pos (24 * 90)) i.session_hours
      || ltb_ℤ i.port (pos 1)
      || ltb_ℤ (pos 65535) i.port
    then some (refusal 400 "invalid_settings")
    else if not (env.has_location i.timezone)
    then some (refusal 400 "invalid_timezone")
    else if below_zero i.droplets || below_zero i.vcpus || below_zero i.memory_mb
    then some (refusal 400 "invalid_quota")
    else if not (str_eq (trim_space i.host) "")
        && not (valid_email env.parse_address (trim_space i.from))
    then some (refusal 400 "invalid_smtp_from")
    else if i.clear_password && not (str_eq i.password "")
    then some (refusal 400 "smtp_password_conflict")
    else none

-- The settings that have no secret, under their keys and in the order in which they are written.
unfoldable pub plain_settings : SettingsInput → List (String × SettingValue)
plain_settings i =
    ("site", of_site i.site_name i.timezone)
    ∷ ("registration", of_registration i.registration_enabled)
    ∷ ("maintenance", of_maintenance i.maintenance_enabled i.maintenance_message)
    ∷ ("session", of_session i.session_hours)
    ∷ ("default_quota", of_default_quota i.droplets i.vcpus i.memory_mb)
    ∷ []

-- The loop over the settings.
unfoldable pub write_settings : ℕ → List (String × SettingValue) → Handler (Unit {0})
write_settings actor [] = answer tt
write_settings actor ((key, value) ∷ settings) =
    call (always 500 "settings_update_failed")
      (statement λ now ids db. set_setting db now key value none none actor)
    >>= λ _. write_settings actor settings

-- `adminUpdateSettings`
unfoldable pub admin_update_settings :
    Principal → Sender → Option SettingsInput → Handler (Unit {0})
admin_update_settings p sender body = with_env λ env. do
  _ ← recently p
  i ← decode_json body
  _ ← pass (settings_refusal env i)
  _ ← write_settings p.user.id (plain_settings i)
  secret ←
      call (always 500 "smtp_encryption_failed") (smtp_secret_update i.password i.clear_password)
  _ ← call (always 500 "smtp_update_failed") (
      statement λ now ids db.
        set_setting_with_secret db now "smtp"
          (of_smtp (trim_space i.host) i.port (trim_space i.username) (trim_space i.from)
            i.starttls)
          (map_some (λ (s : String × String). s.0) secret.0)
          (map_some (λ (s : String × String). s.1) secret.0) secret.1 p.user.id)
  _ ← audit (some p) sender "admin.settings_update" "system" "settings" none
  answer tt

-- `len(ciphertext) > 0`, of a setting that can be read.
abbrev pub has_secret : Result Setting → Bool
has_secret (err e) = false
has_secret (ok s) = elim s.secret_ciphertext [ none ↦ false | some c ↦ not (str_eq c "") ]

-- `adminGetSettings`: the settings, and whether the mail server has a password. The handler
-- panics, and the middleware answers with 500, when the setting `smtp` is missing or no object.
unfoldable pub admin_get_settings : Handler (List (String × SettingValue) × Bool)
admin_get_settings = do
  settings ← call (always 500 "settings_failed") (query λ now db. ok (list_settings db))
  smtp ← try (query λ now db. get_setting db "smtp")
  _ ← refuse_if (not (is_smtp (lookup "smtp" settings))) (refusal 500 "internal_error")
  answer (settings, has_secret smtp)
  where
    is_smtp : Option SettingValue → Bool
    is_smtp (some (of_smtp host port username from starttls)) = true
    is_smtp _ = false

-- `publicConfig`: the settings `site`, `registration` and `maintenance`.
unfoldable pub public_config :
    Handler (Option SettingValue × Option SettingValue × Option SettingValue)
public_config =
    call (always 500 "settings_error") (query λ now db. ok (list_settings db)) >>= λ settings.
    answer (lookup "site" settings, lookup "registration" settings, lookup "maintenance" settings)
