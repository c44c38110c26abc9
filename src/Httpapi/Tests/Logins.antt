-- ===== src/Httpapi/Tests/Logins.antt =====
-- The handlers of internal/httpapi/auth.go at concrete requests.
use batch_managementof_cloud.Prelude.{
  Option, [], arith, inr, none, refl, some, to_lower, trim_space, ◌∷◌, ◌≡◌, append_text,
}
use batch_managementof_cloud.Security.Base64.{
  bytes_of, decode64, digits_of, encode64, index_from, read_digits, spell_digits,
}
use batch_managementof_cloud.Security.Passwords.{
  random_token, scan_costs, split_dollar, verify_password, hash_password,
}
use batch_managementof_cloud.Store.{Purpose, TokenRow, reset_password, verify_email}
use batch_managementof_cloud.Store.Sessions.{create_session, delete_session, truncate}
use batch_managementof_cloud.Store.Settings.{get_setting, write_audit}
use batch_managementof_cloud.Store.Tokens.{consume_one_time_token}
use batch_managementof_cloud.Store.Users.{get_user_by_email, activate_user}
use batch_managementof_cloud.Effects.{
  pure, raise, random_bytes, statement, with_env as with_effects, ◌>>=◌ as ◌>>≡◌, World,
}
use batch_managementof_cloud.Httpapi.Auth.{
  Credentials, Login, Reset, csrf_or_undo, forgot_password, login, register, reset, session_ttl,
  session_ttl_from_setting, status_refusal, verify_address,
}
use batch_managementof_cloud.Httpapi.Auth.Links.{
  Verified, WasReset, reset-WasReset, verify_address-Verified,
}
use batch_managementof_cloud.Httpapi.Auth.Recovery.{forgot_password_alike}
use batch_managementof_cloud.Httpapi.Auth.Registration.{Joined, register-Joined}
use batch_managementof_cloud.Httpapi.Auth.SignIn.{SignedIn, login-SignedIn}
use batch_managementof_cloud.Httpapi.Handler.{
  answer, audit, call, decode_json, pass, refuse, refuse_if, try, with_env, ◌>>=◌,
}
use batch_managementof_cloud.Httpapi.Samples.{bob, cfg, sender, start, sunny}

abbrev credentials : Option Credentials
credentials = some (record { email = "bob@example.com"; password = "a long password" })

abbrev as_bob : Login
as_bob = record { user = bob; token = "AQ"; csrf_token = "BA"; expires_at = 3600000000103 }

login-SignedIn_example :
    SignedIn sunny start.db credentials as_bob (login cfg sender credentials sunny start).1
unfolding login session_ttl csrf_or_undo status_refusal session_ttl_from_setting call audit pass
    answer refuse decode_json try refuse_if with_env ◌>>=◌ ◌>>≡◌ with_effects statement random_bytes
    raise pure trim_space to_lower spell_digits digits_of index_from read_digits encode64 decode64
    bytes_of split_dollar random_token scan_costs append_text verify_password create_session
    delete_session truncate write_audit get_setting get_user_by_email
login-SignedIn_example =
    login-SignedIn cfg sender credentials sunny start as_bob
      (ground arith, (ground arith, (ground arith, tt))) refl

abbrev registration_request : Option Credentials
registration_request = some (record { email = "eve@example.com"; password = "a long password" })

register-Joined_example :
    Joined start.db.users (register cfg registration_request sunny start).1.db.users
register-Joined_example = register-Joined cfg registration_request sunny start

forgot_password_alike_example :
    (forgot_password cfg (some "nobody@example.com") sunny start).0 ≡ inr none
forgot_password_alike_example = forgot_password_alike cfg "nobody@example.com" sunny start refl

abbrev token_of : Purpose → TokenRow
token_of purpose = record {
  id = 60;
  user_id = 3;
  purpose = purpose;
  token_hash = "letter";
  expires_at = 900;
  consumed_at = none;
  created_at = 90;
}

-- A world in which the new user has got a letter.
abbrev after_letter : Purpose → World
after_letter purpose = record start {
  db = record start.db { one_time_tokens = token_of purpose ∷ [] };
}

verify_address-Verified_example :
    Verified sunny
      (after_letter verify_email)
      (some "letter")
      (verify_address (some "letter") sunny (after_letter verify_email)).1
unfolding verify_address with_env ◌>>=◌ decode_json call statement consume_one_time_token
    activate_user
verify_address-Verified_example =
    verify_address-Verified (some "letter") sunny (after_letter verify_email) tt refl

abbrev new_password : Option Reset
new_password = some (record { token = "letter"; password = "another long password" })

reset-WasReset_example :
    WasReset sunny
      (after_letter reset_password)
      new_password
      (reset new_password sunny (after_letter reset_password)).1
unfolding reset with_env ◌>>=◌ decode_json call hash_password ◌>>≡◌ random_bytes with_effects pure
    statement consume_one_time_token
reset-WasReset_example = reset-WasReset new_password sunny (after_letter reset_password) tt refl
