-- ===== src/Httpapi/Auth.antt =====
-- The handlers of internal/httpapi/auth.go. A handler takes the decoded body, if it decodes, and
-- what the middleware has found; it returns what the response depends on.
pub mod Links
pub mod SignIn
pub mod Registration
pub mod Recovery
use batch_managementof_cloud.Prelude.{
  ℕ, Bool, Option, String, false, if◌then◌else◌, is_some, ltb_ℤ, none, not, pos, pos_part, some,
  str_eq, ◌&&◌, ◌*◌, ◌||◌, append_text,
}
use batch_managementof_cloud.Model.Failure.{Result, err, is_ok, ok}
use batch_managementof_cloud.Model.Records.{
  Role, Status, User, disabled, hour, is_disabled, is_pending, pending,
}
use batch_managementof_cloud.Security.Passwords.{
  Argon2, hash_password, random_token, verify_password,
}
use batch_managementof_cloud.Config.{Config}
use batch_managementof_cloud.Store.{
  Setting, SettingValue, of_registration, of_session, reset_password, verify_email,
}
use batch_managementof_cloud.Store.Sessions.{
  create_session, delete_session, mark_recent_auth, update_password,
}
use batch_managementof_cloud.Store.Settings.{get_setting}
use batch_managementof_cloud.Store.Tokens.{consume_one_time_token}
use batch_managementof_cloud.Store.Users.{activate_user, create_user, get_user_by_email}
use batch_managementof_cloud.Effects.{Env, query, statement}
use batch_managementof_cloud.Httpapi.Guards.{Principal, refusal}
use batch_managementof_cloud.Httpapi.Handler.{
  Handler, Sender, always, answer, audit, call, decode_json, if_unique, pass, refuse, refuse_if,
  try, with_env, ◌>>=◌, done,
}
use batch_managementof_cloud.Httpapi.Mail.{send_email, valid_email, issue_token}
use batch_managementof_cloud.Httpapi.Selection.{Refusal}

pub record Credentials : Type 0 where
  pub email : String
  pub password : String

-- `registration.Enabled`; a setting that cannot be read or decoded leaves it false.
abbrev pub is_open : Result Setting → Bool
is_open (err e) = false
is_open (ok s) = elim s.value [ of_registration enabled ↦ enabled | _ ↦ false ]

abbrev pub is_production : Config → Bool
is_production cfg = str_eq cfg.environment "production"

-- The body of a verification mail.
abbrev pub verification_body : Config → String → String
verification_body cfg token = append_text "请访问以下地址完成邮箱验证：\n\n" (
    append_text cfg.app_base_url
      (append_text "/verify-email?token=" (append_text token "\n\n链接 24 小时内有效。")))

abbrev pub reset_body : Config → String → String
reset_body cfg token = append_text "请访问以下地址重置密码：\n\n" (
    append_text cfg.app_base_url
      (append_text "/reset-password?token=" (append_text token "\n\n链接 1 小时内有效。")))

-- What a response says of a token: the development server shows it.
abbrev pub dev_token : Config → String → Option String
dev_token cfg token = if cfg.dev_expose_tokens then some token else none

-- The end of `register` and of `resendVerification`: the token, the mail and the response.
unfoldable pub send_verification : Config → Env → User → Handler (Option String)
send_verification cfg env user = do
  token ←
      call (always 500 "token_failed") (issue_token env.hash_token user.id verify_email (24 * hour))
  mailed ← try (send_email user.email "验证邮箱" (verification_body cfg token))
  _ ← refuse_if (not (is_ok mailed) && is_production cfg) (refusal 503 "email_unavailable")
  answer (dev_token cfg token)

-- `register`
unfoldable pub register : Config → Option Credentials → Handler (Option String)
register cfg body = with_env λ env. do
  setting ← try (query λ now db. get_setting db "registration")
  _ ← refuse_if (not (is_open setting)) (refusal 403 "registration_disabled")
  input ← decode_json body
  _ ← refuse_if (not (valid_email env.parse_address input.email)) (refusal 400 "invalid_email")
  password_hash ← call (always 400 "invalid_password") (hash_password input.password)
  user ← call (if_unique (refusal 409 "email_exists") (refusal 500 "registration_failed")) (
      statement
        λ now ids db. create_user db now (ids 0) input.email password_hash Role.user Status.pending)
  send_verification cfg env user

-- `validateResendVerification`
unfoldable pub validate_resend_verification : Argon2 → User → String → Option Refusal
validate_resend_verification argon2 user password =
    if not (verify_password argon2 user.password_hash password)
    then some (refusal 401 "invalid_credentials")
    else if not (is_pending user.status) || is_some user.email_verified_at
    then some (refusal 409 "verification_not_pending")
    else none

-- `resendVerification`
unfoldable pub resend_verification : Config → Option Credentials → Handler (Option String)
resend_verification cfg body = with_env λ env. do
  input ← decode_json body
  user ← call (always 401 "invalid_credentials") (query λ now db. get_user_by_email db input.email)
  _ ← pass (validate_resend_verification env.argon2 user input.password)
  send_verification cfg env user

-- `verifyEmail`
unfoldable pub verify_address : Option String → Handler (Unit {0})
verify_address body = with_env λ env. do
  token ← decode_json body
  owner ←
      call (always 400 "token_invalid")
        (statement λ now ids db. consume_one_time_token db now (env.hash_token token) verify_email)
  call (always 500 "verification_failed") (statement λ now ids db. activate_user db now owner)

-- `sessionTTLFromSetting`
unfoldable pub session_ttl_from_setting : SettingValue → ℕ → ℕ
session_ttl_from_setting (of_session hours) fallback =
    if ltb_ℤ hours (pos 1) || ltb_ℤ (pos (24 * 90)) hours then fallback else pos_part hours * hour
session_ttl_from_setting _ fallback = fallback

-- `sessionTTL`, from what `GetSetting` gives.
unfoldable pub session_ttl : Config → Result Setting → ℕ
session_ttl cfg (err e) = cfg.session_ttl
session_ttl cfg (ok s) = session_ttl_from_setting s.value cfg.session_ttl

-- The response of `login`, with the token and the time of its cookie.
pub record Login : Type 0 where
  pub user : User
  pub token : String
  pub csrf_token : String
  pub expires_at : ℕ

-- The tests of `login` on the user's status.
unfoldable pub status_refusal : Status → Option Refusal
status_refusal Status.pending = some (refusal 403 "email_unverified")
status_refusal Status.active = none
status_refusal Status.disabled = some (refusal 403 "account_disabled")

-- The second token of `login`; without it the session is deleted again.
unfoldable pub csrf_or_undo : String → Handler String
csrf_or_undo token_hash = do
  drawn ← try (random_token 24)
  elim drawn [
    | ok csrf_token ↦ answer csrf_token
    | err e ↦ try (statement λ now ids db. done (delete_session db token_hash)) >>= λ undone.
        refuse (refusal 500 "session_failed")
  ]

-- `login`
unfoldable pub login : Config → Sender → Option Credentials → Handler Login
login cfg sender body = with_env λ env. do
  input ← decode_json body
  user ← call (always 401 "invalid_credentials") (query λ now db. get_user_by_email db input.email)
  _ ←
      refuse_if (not (verify_password env.argon2 user.password_hash input.password))
        (refusal 401 "invalid_credentials")
  _ ← pass (status_refusal user.status)
  token ← call (always 500 "session_failed") (random_token 32)
  setting ← try (query λ now db. get_setting db "session")
  session ← call (always 500 "session_failed") (
      statement λ now ids db.
        create_session db now (ids 0) user.id (env.hash_token token) sender.ip sender.user_agent
          (session_ttl cfg setting))
  csrf_token ← csrf_or_undo (env.hash_token token)
  _ ← audit none sender "auth.login" "session" (env.id_text session.id) (some user.id)
  answer (record {
    user = user;
    token = token;
    csrf_token = csrf_token;
    expires_at = session.expires_at;
  })

-- `logout`
unfoldable pub logout : Principal → Sender → Handler (Unit {0})
logout p sender = with_env λ env. do
  _ ← try (statement λ now ids db. done (delete_session db (env.hash_token p.token)))
  _ ← audit (some p) sender "auth.logout" "session" (env.id_text p.session.id) (some p.user.id)
  answer tt

-- `reauth`
unfoldable pub reauth : Principal → Option String → Handler (Unit {0})
reauth p body = with_env λ env. do
  password ← decode_json body
  _ ←
      refuse_if (not (verify_password env.argon2 p.user.password_hash password))
        (refusal 401 "invalid_password")
  call (always 500 "reauth_failed")
      (statement λ now ids db. done (mark_recent_auth db now p.session.id))

-- `me`
unfoldable pub me : Principal → Handler (User × ℕ × ℕ)
me p = answer (p.user, p.session.recent_auth_at, p.session.expires_at)

-- What `forgotPassword` does for a user that is there.
unfoldable pub send_reset : Config → Env → User → Handler (Option String)
send_reset cfg env user = do
  issued ← try (issue_token env.hash_token user.id reset_password hour)
  elim issued [
    | err e ↦ answer none
    | ok token ↦ try (send_email user.email "重置密码" (reset_body cfg token)) >>= λ mailed.
        answer (dev_token cfg token)
  ]

-- `forgotPassword`
unfoldable pub forgot_password : Config → Option String → Handler (Option String)
forgot_password cfg body = with_env λ env. do
  email ← decode_json body
  known ← try (query λ now db. get_user_by_email db email)
  elim known [
    | err e ↦ answer none
    | ok user ↦ if is_disabled user.status then answer none else send_reset cfg env user
  ]

pub record Reset : Type 0 where
  pub token : String
  pub password : String

-- `resetPassword`
unfoldable pub reset : Option Reset → Handler (Unit {0})
reset body = with_env λ env. do
  input ← decode_json body
  password_hash ← call (always 400 "invalid_password") (hash_password input.password)
  owner ← call (always 400 "token_invalid") (
      statement
        λ now ids db. consume_one_time_token db now (env.hash_token input.token) reset_password)
  call (always 500 "reset_failed")
      (statement λ now ids db. done (update_password db now owner password_hash))
