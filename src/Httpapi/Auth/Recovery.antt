-- ===== src/Httpapi/Auth/Recovery.antt =====
-- How long a session lasts, and what `forgotPassword` tells of a user, which is nothing.
use batch_managementof_cloud.Prelude.{
  Option, String, ap, false, inl, inr, none, refl, some, ◌*◌, ◌≡◌, ◌≤◌, ◌⊎◌, Bool-cases, arith,
  if◌then◌else◌, ltb, negsuc, pos, ◌||◌, ◌∙◌, if_both,
}
use batch_managementof_cloud.Model.Failure.{Result, err, ok}
use batch_managementof_cloud.Model.Records.{User, hour, is_disabled}
use batch_managementof_cloud.Config.{Config}
use batch_managementof_cloud.Store.{
  Setting, SettingValue, of_default_quota, of_maintenance, of_registration, of_session, of_site,
  of_smtp,
}
use batch_managementof_cloud.Effects.{Env, World}
use batch_managementof_cloud.Httpapi.Auth.{
  forgot_password, session_ttl, session_ttl_from_setting, dev_token, reset_body, send_reset,
}
use batch_managementof_cloud.Httpapi.Handler.{Handler, answer, try, ◌>>=◌}
use batch_managementof_cloud.Httpapi.Handler.After.{
  after_try, after_try-query, at_end, with_it, after_decoded,
}
use batch_managementof_cloud.Httpapi.Handler.Logic.{Ends, answers}
use batch_managementof_cloud.Httpapi.Mail.{send_email}

-- The session time that the settings give is that of the configuration, or between one hour and
-- ninety days.
pub session_ttl-bounds :
    (cfg : Config) (setting : Result Setting)
    → (session_ttl cfg setting ≡ cfg.session_ttl)
      ⊎ ((hour ≤ session_ttl cfg setting) × (session_ttl cfg setting ≤ 24 * 90 * hour))
unfolding session_ttl session_ttl_from_setting
session_ttl-bounds cfg (err e) = inl refl
session_ttl-bounds cfg (ok s) = by_value s.value
  where
    by_value :
        (v : SettingValue)
        → (session_ttl_from_setting v cfg.session_ttl ≡ cfg.session_ttl)
          ⊎ ((hour ≤ session_ttl_from_setting v cfg.session_ttl)
              × (session_ttl_from_setting v cfg.session_ttl ≤ 24 * 90 * hour))
    by_value (of_session (negsuc n)) = inl (ground arith)
    by_value (of_session (pos n)) = elim (Bool-cases (ltb n 1 || ltb (24 * 90) n)) [
      | inl e ↦ inl (ground arith)
      | inr e ↦ inr (ground arith, ground arith)
    ]
    by_value (of_site name zone) = inl refl
    by_value (of_registration enabled) = inl refl
    by_value (of_maintenance enabled message) = inl refl
    by_value (of_default_quota d v m) = inl refl
    by_value (of_smtp host port username from starttls) = inl refl
    by_value SettingValue.undecodable = inl refl

-- The answer to a forgotten password says nothing of the user: unless the server exposes its
-- tokens, every request that decodes is answered alike, whether the address is known or not,
-- whatever fails on the way.
pub forgot_password_alike :
    (cfg : Config) (email : String) (env : Env) (w : World)
    → cfg.dev_expose_tokens ≡ false
    → (forgot_password cfg (some email) env w).0 ≡ inr none
unfolding forgot_password send_reset
forgot_password_alike cfg email env w hidden =
    let (a, e, nothing) =
      answers (λ a. a ≡ none) _ env w
        (with_it _
          (after_decoded email _ (after_try-query _ (λ known read. by_user known env _)))) in
    e ∙ ap inr nothing
  where
    by_issue :
        (user : User) (r : Result String) (env : Env) (v : World)
        → Ends
            (λ (a : Option String) v. a ≡ none)
            (λ r v. ⊥)
            (elim r as (λ r. Handler (Option String)) [
              | err e ↦ answer none
              | ok token ↦ try (send_email user.email "重置密码" (reset_body cfg token)) >>= λ mailed.
                  answer (dev_token cfg token)
            ])
            env
            v
    by_issue user (err e) env v = at_end _ refl
    by_issue user (ok token) env v = after_try _ _ (at_end _ (rw hidden refl))

    sent :
        (user : User) (env : Env) (v : World)
        → Ends (λ (a : Option String) v. a ≡ none) (λ r v. ⊥) (send_reset cfg env user) env v
    sent user env v = after_try _ _ (by_issue user _ env _)

    by_user :
        (known : Result User) (env : Env) (v : World)
        → Ends
            (λ (a : Option String) v. a ≡ none)
            (λ r v. ⊥)
            (elim known as (λ r. Handler (Option String)) [
              | err e ↦ answer none
              | ok user ↦ if is_disabled user.status then answer none else send_reset cfg env user
            ])
            env
            v
    by_user (err e) env v = at_end _ refl
    by_user (ok user) env v =
        if_both (λ m. Ends (λ (a : Option String) v. a ≡ none) (λ r v. ⊥) m env v)
          (is_disabled user.status) (answer none) (send_reset cfg env user) (at_end _ refl)
          (sent user env v)
