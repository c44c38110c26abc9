-- ===== src/Httpapi/Mail/Still.antt =====
-- A mail leaves the database as it was, and a token changes the table of tokens only.
use batch_managementof_cloud.Mail.{SmtpSetting, SmtpStep, SmtpTransport, end_data}
use batch_managementof_cloud.Prelude.{
  ℕ, Bool, List, Option, String, if_both, none, not, refl, some, str_eq, ◌||◌, ◌≡◌, ◌∙◌, ap,
  exists_where, ◌==◌,
}
use batch_managementof_cloud.Model.Failure.{
  Result, err, ok, wrap, foreign_key_violation, unique_violation,
}
use batch_managementof_cloud.Model.Records.{User}
use batch_managementof_cloud.Security.Passwords.{random_token}
use batch_managementof_cloud.Store.{Db, Purpose, Setting, TokenRow}
use batch_managementof_cloud.Store.Tokens.{
  replace_one_time_token, create_one_time_token, or_rollback,
}
use batch_managementof_cloud.Effects.{Program, pure, smtp_step, ◌>>=◌}
use batch_managementof_cloud.Effects.Keeps.{
  Keeps, Keeps-attempt, Keeps-bind, Keeps-decrypt, Keeps-pure, Keeps-query, Keeps-raise,
  Keeps-random_bytes, Keeps-read_clock, Keeps-smtp_step, Keeps-statement, Keeps-with_env,
}
use batch_managementof_cloud.Httpapi.Mail.{
  close_on_error, deliver_smtp, hand_over, issue_token, limit_step, open_smtp, or_close,
  send_decoded, send_email, send_found, send_with, smtp_password, smtp_setting, staged, valid_email,
  when, wrapped,
}

-- A new token changes the table of tokens only.
created_tokens :
    (db : Db) (now id owner : ℕ) (purpose : Purpose) (token_hash : String) (ttl : ℕ)
    → (tokens : List TokenRow) × ((create_one_time_token db now id owner purpose token_hash ttl).1
        ≡ record db { one_time_tokens = tokens })
unfolding create_one_time_token
created_tokens db now id owner purpose token_hash ttl =
    let P = λ (x : Result (Unit {0}) × Db).
      (tokens : List TokenRow) × (x.1 ≡ record db { one_time_tokens = tokens }) in
    if_both P
      (exists_where (λ (t : TokenRow). str_eq t.token_hash token_hash || t.id == id)
        db.one_time_tokens)
      (err unique_violation, db) _ (db.one_time_tokens, refl)
      (if_both P (exists_where (λ (u : User). u.id == owner) db.users) _
        (err foreign_key_violation, db) (_, refl) (db.one_time_tokens, refl))

module _ {X : Type 0} (f : Db → X) where
  Keeps-wrapped : {A : Type 0} (stage : String) (r : Result A) → Keeps f (wrapped stage r)
  Keeps-wrapped {A} stage (ok a) = Keeps-pure f A a
  Keeps-wrapped {A} stage (err e) = Keeps-raise f A (wrap stage e)

  Keeps-staged : (stage : String) (s : SmtpStep) → Keeps f (staged stage s)
  unfolding staged smtp_step
  Keeps-staged stage s = record { same = λ env w. refl }

  Keeps-limit_step :
      (transport : SmtpTransport) (deadline : ℕ) (stage : String)
      → Keeps f (limit_step transport deadline stage)
  unfolding limit_step
  Keeps-limit_step transport deadline stage =
      Keeps-bind f (Keeps-read_clock f)
        λ now. Keeps-bind f (Keeps-attempt f (Keeps-smtp_step f _)) (Keeps-wrapped stage)

  Keeps-when : (test : Bool) (m : Program (Unit {0})) → Keeps f m → Keeps f (when test m)
  Keeps-when test m h = if_both (Keeps f) test m (pure tt) h (Keeps-pure f Unit tt)

  Keeps-close_on_error : (r : Result (Unit {0})) → Keeps f (close_on_error r)
  Keeps-close_on_error (ok a) = Keeps-pure f Unit tt
  Keeps-close_on_error (err e) =
      Keeps-bind f (Keeps-attempt f (Keeps-smtp_step f end_data)) λ _. Keeps-raise f Unit e

  Keeps-or_close : (m : Program (Unit {0})) → Keeps f m → Keeps f (or_close m)
  unfolding or_close
  Keeps-or_close m h = Keeps-bind f (Keeps-attempt f h) Keeps-close_on_error

  -- A step after its deadline.
  Keeps-limited :
      (transport : SmtpTransport) (deadline : ℕ) (limit stage : String) (s : SmtpStep)
      → Keeps f (limit_step transport deadline limit >>= λ limited. staged stage s)
  Keeps-limited transport deadline limit stage s =
      Keeps-bind f (Keeps-limit_step transport deadline limit) λ _. Keeps-staged stage s

  Keeps-open_smtp :
      (deadline : ℕ) (transport : SmtpTransport) (setting : SmtpSetting) (password : String)
      → Keeps f (open_smtp deadline transport setting password)
  unfolding open_smtp
  Keeps-open_smtp deadline transport setting password =
      Keeps-bind f (Keeps-bind f (Keeps-attempt f (Keeps-smtp_step f _)) (Keeps-wrapped _)) λ _.
        Keeps-bind f (Keeps-when _ _ (Keeps-limited transport deadline _ _ _)) λ _.
          Keeps-bind f (Keeps-limit_step transport deadline _) λ _.
            Keeps-bind f (Keeps-staged _ _) λ _.
              Keeps-bind f (Keeps-when _ _ (Keeps-limited transport deadline _ _ _))
                λ _. Keeps-when _ _ (Keeps-limited transport deadline _ _ _)

  Keeps-hand_over :
      (deadline : ℕ) (transport : SmtpTransport) (setting : SmtpSetting) (to message : String)
      → Keeps f (hand_over deadline transport setting to message)
  unfolding hand_over
  Keeps-hand_over deadline transport setting to message =
      let limit = λ (stage : String). Keeps-limit_step transport deadline stage in
      Keeps-bind f (limit _) λ _. Keeps-bind f (Keeps-staged _ _) λ _. Keeps-bind f (limit _) λ _.
        Keeps-bind f (Keeps-staged _ _) λ _. Keeps-bind f (limit _) λ _.
          Keeps-bind f (Keeps-staged _ _) λ _. Keeps-bind f (Keeps-or_close _ (limit _)) λ _.
            Keeps-bind f (Keeps-staged _ _)
              λ _. Keeps-bind f (Keeps-or_close _ (limit _)) λ _. Keeps-staged _ _

  Keeps-smtp_password : (ciphertext iv : Option String) → Keeps f (smtp_password ciphertext iv)
  Keeps-smtp_password none iv = Keeps-pure f String ""
  Keeps-smtp_password (some ciphertext) iv =
      Keeps-bind f (Keeps-attempt f (Keeps-decrypt f _ _ _)) (Keeps-wrapped _)

  Keeps-send_with :
      (s : Setting) (setting : SmtpSetting) (to subject body : String)
      → Keeps f (send_with s setting to subject body)
  unfolding send_with deliver_smtp
  Keeps-send_with s setting to subject body =
      if_both (Keeps f) (str_eq setting.host "" || str_eq setting.from "") _ _
        (Keeps-raise f Unit _)
        (Keeps-bind f (Keeps-smtp_password _ _) λ password.
          Keeps-bind f (Keeps-read_clock f)
            λ start. Keeps-bind f (Keeps-open_smtp _ _ _ _) λ _. Keeps-hand_over _ _ _ _ _)

  Keeps-send_found :
      (to subject body : String) (r : Result Setting) → Keeps f (send_found to subject body r)
  Keeps-send_found to subject body (err e) = Keeps-raise f Unit _
  Keeps-send_found to subject body (ok s) = decoded (smtp_setting s.value)
    where
      decoded : (o : Option SmtpSetting) → Keeps f (send_decoded s to subject body o)
      decoded none = Keeps-raise f Unit _
      decoded (some setting) = Keeps-send_with s setting to subject body

  pub Keeps-send_email : (to subject body : String) → Keeps f (send_email to subject body)
  unfolding send_email
  Keeps-send_email to subject body = Keeps-with_env f λ env.
      if_both (Keeps f) (not (valid_email env.parse_address to)) _ _ (Keeps-raise f Unit _)
        (Keeps-bind f (Keeps-attempt f (Keeps-query f _)) (Keeps-send_found to subject body))

  created :
      (db : Db) (now id owner : ℕ) (purpose : Purpose) (token_hash : String) (ttl : ℕ)
      → ((db : Db) (tokens : List TokenRow) → f (record db { one_time_tokens = tokens }) ≡ f db)
      → f (create_one_time_token db now id owner purpose token_hash ttl).1 ≡ f db
  created db now id owner purpose token_hash ttl h =
      let (tokens, e) = created_tokens db now id owner purpose token_hash ttl in
      ap f e ∙ h db tokens

  rolled_back :
      (db : Db) (x : Result (Unit {0}) × Db) → f x.1 ≡ f db → f (or_rollback db x).1 ≡ f db
  rolled_back db (ok a, after) h = h
  rolled_back db (err e, after) h = refl

  replaced :
      (db : Db) (now id owner : ℕ) (purpose : Purpose) (token_hash : String) (ttl : ℕ)
      → ((db : Db) (tokens : List TokenRow) → f (record db { one_time_tokens = tokens }) ≡ f db)
      → f (replace_one_time_token db now id owner purpose token_hash ttl).1 ≡ f db
  unfolding replace_one_time_token
  replaced db now id owner purpose token_hash ttl h =
      rolled_back db _ (created _ now id owner purpose token_hash ttl h ∙ h db _)

  pub Keeps-issue_token :
      (hash_token : String → String) (owner : ℕ) (purpose : Purpose) (ttl : ℕ)
      → ((db : Db) (tokens : List TokenRow) → f (record db { one_time_tokens = tokens }) ≡ f db)
      → Keeps f (issue_token hash_token owner purpose ttl)
  unfolding issue_token random_token
  Keeps-issue_token hash_token owner purpose ttl h =
      Keeps-bind f (Keeps-bind f (Keeps-random_bytes f 32) λ bytes. Keeps-pure f String _) λ token.
        Keeps-bind f
          (Keeps-statement f _
            (λ now ids db. replaced db now (ids 0) owner purpose (hash_token token) ttl h))
          λ _. Keeps-pure f String token
