-- ===== src/Httpapi/Auth/Registration.antt =====
-- What `register` and `resendVerification` may do to the table of users.
use batch_managementof_cloud.Prelude.{
  ℕ, In, In-append, List, Option, String, false, if_both, inl, inr, none, refl, subst, sym, true,
  ◌*◌, ◌≡◌, ◌⊎◌, [], ◌++◌, ◌∷◌, ap, exists_where, not, str_eq, ◌==◌, ◌||◌,
}
use batch_managementof_cloud.Model.Failure.{Result, err, ok, check_violation, unique_violation}
use batch_managementof_cloud.Model.Records.{Role, Status, User, hour, is_admin, is_pending}
use batch_managementof_cloud.Security.Passwords.{Keeps-hash_password, hash_password}
use batch_managementof_cloud.Config.{Config}
use batch_managementof_cloud.Store.{Db, verify_email}
use batch_managementof_cloud.Store.Users.{
  create_user, default_quota, fits_quotas, normal_email, when_user,
}
use batch_managementof_cloud.Effects.{Env, World, after_tick}
use batch_managementof_cloud.Httpapi.Auth.{
  Credentials, register, send_verification, verification_body,
}
use batch_managementof_cloud.Httpapi.Handler.After.{
  after_call, after_refuse_if, after_try, at_end, after_decode, after_statement, after_try-query,
  with_it,
}
use batch_managementof_cloud.Httpapi.Handler.Logic.{Ends, settled}
use batch_managementof_cloud.Httpapi.Mail.{issue_token}
use batch_managementof_cloud.Httpapi.Mail.Still.{Keeps-issue_token, Keeps-send_email}

-- A user as `register` makes them.
pub record IsNew (u : User) : Type 0 where
  pub pending : is_pending u.status ≡ true
  pub plain : is_admin u.role ≡ false
  pub unverified : u.email_verified_at ≡ none

-- Every user is one of the others or a new one.
abbrev pub Joined : List User → List User → Type 0
Joined before after = (u : User) → In u after → In u before ⊎ IsNew u

Joined-append : (us : List User) (u : User) → IsNew u → Joined us (us ++ u ∷ [])
Joined-append us u new v i = elim (In-append v us (u ∷ []) i) [
  | inl old ↦ inl old
  | inr (inl e) ↦ inr (rw e new)
  | inr (inr nothing) ↦ absurd nothing
]

create_user-Joined :
    (db : Db) (now id : ℕ) (email password_hash : String)
    → Joined db.users (create_user db now id email password_hash Role.user Status.pending).1.users
unfolding create_user
create_user-Joined db now id email password_hash =
    let P = λ (x : Result User × Db). Joined db.users x.1.users in
    let (d, v, m) = default_quota db.system_settings in
    if_both P
      (exists_where (λ (u : User). str_eq u.email (normal_email email) || u.id == id) db.users)
      (err unique_violation, db) _ (λ u i. inl i)
      (if_both P
        (not (fits_quotas (when_user Role.user d) (when_user Role.user v) (when_user Role.user m)))
        (err check_violation, db) _ (λ u i. inl i)
        (Joined-append db.users _ (record { pending = refl; plain = refl; unverified = refl })))

-- The token and the mail change no user.
Ends-send_verification :
    (cfg : Config) (user : User) (before : List User) (env : Env) (w : World)
    → Joined before w.db.users
    → Ends
        (λ (t : Option String) v. Joined before v.db.users)
        (λ r v. Joined before v.db.users)
        (send_verification cfg env user)
        env
        w
unfolding send_verification
Ends-send_verification cfg user before env w h =
    let issue =
      Keeps-issue_token (λ db. db.users) env.hash_token user.id verify_email (24 * hour)
        (λ db tokens. refl) in
    let issued : Joined before
        (issue_token env.hash_token user.id verify_email (24 * hour) env w).1.db.users =
      rw (issue.same env w) h in
    after_call _ _
      (λ token e. after_try _ _ (
        let mail =
          Keeps-send_email (λ db. db.users) user.email "验证邮箱" (verification_body cfg token) in
        let sent = subst (λ us. Joined before us) (sym (mail.same env _)) issued in
        after_refuse_if _ _ _ (λ pass. at_end _ sent) (λ stop. sent)))
      (λ c e. issued)

-- Registration creates no administrator and no active user, whatever the request holds and however
-- it ends: each user there is afterwards was there before, or is pending, is no administrator and
-- has no verified address.
pub register-Joined :
    (cfg : Config) (body : Option Credentials) (env : Env) (w : World)
    → Joined w.db.users (register cfg body env w).1.db.users
unfolding register
register-Joined cfg body env w =
    let untouched : Joined w.db.users w.db.users = λ u i. inl i in
    settled (λ v. Joined w.db.users v.db.users) _ env w
      (with_it _ (
        after_try-query _ (λ setting read.
          after_refuse_if _ _ _
            (λ opened.
              after_decode _
                (λ input e.
                  after_refuse_if _ _ _
                    (λ valid.
                      after_call _ _
                        (λ hash e.
                          after_statement _ _
                            (λ user db e.
                              Ends-send_verification cfg user w.db.users env _
                                (added _ db _ _ input hash (ok user) (hashed input) e))
                            (λ c db e. added _ db _ _ input hash (err c) (hashed input) e)
                            (λ c.
                              subst (λ (d : Db). Joined w.db.users d.users) (sym (hashed input))
                                untouched))
                        (λ c e.
                          subst (λ (d : Db). Joined w.db.users d.users) (sym (hashed input))
                            untouched))
                    (λ stop. untouched))
                (λ r. untouched))
            (λ stop. untouched))))
  where
    hashed : (input : Credentials) → (hash_password input.password env (after_tick w)).1.db ≡ w.db
    hashed input = (Keeps-hash_password (λ db. db) input.password).same env (after_tick w)

    added :
        (before after : Db) (now id : ℕ) (input : Credentials) (hash : String) (r : Result User)
        → before ≡ w.db
        → create_user before now id input.email hash Role.user Status.pending ≡ (r, after)
        → Joined w.db.users after.users
    added before after now id input hash r same e =
        subst (λ (d : Db). Joined w.db.users d.users) (ap (λ (x : Result User × Db). x.1) e)
          (subst
            (λ (d : Db).
              Joined w.db.users
                (create_user d now id input.email hash Role.user Status.pending).1.users)
            (sym same) (create_user-Joined w.db now id input.email hash))
