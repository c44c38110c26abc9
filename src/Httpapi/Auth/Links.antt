-- ===== src/Httpapi/Auth/Links.antt =====
-- What `verifyEmail` and `resetPassword` do with the token of a letter.
use batch_managementof_cloud.Prelude.{
  ◌≡◌, All, All-In, All-of_In, All-update_where_to, Bool, In, In-update_where_miss, List, Option,
  String, ap, arith, coalesce, false, if◌then◌else◌, inr, refl, some, subst, sym, true,
  update_where, ℕ, ◌+◌, ◌==◌, ◌∙◌, ◌≢◌,
}
use batch_managementof_cloud.Model.Failure.{Result, err, not_found, ok}
use batch_managementof_cloud.Model.Records.{Session, Status, User, is_active}
use batch_managementof_cloud.Security.Passwords.{Keeps-hash_password, hash_password-tick}
use batch_managementof_cloud.Store.{Db, reset_password, verify_email}
use batch_managementof_cloud.Store.Sessions.{session_user, update_password}
use batch_managementof_cloud.Store.Sessions.Ends.{update_password-session_user}
use batch_managementof_cloud.Store.Tokens.{consume_one_time_token}
use batch_managementof_cloud.Store.Tokens.Once.{
  IsSpent, IsSpent-tokens, consume-users, consumed-IsSpent,
}
use batch_managementof_cloud.Store.Users.{activate_user}
use batch_managementof_cloud.Effects.{Env, World}
use batch_managementof_cloud.Httpapi.Auth.{Reset, reset, verify_address}
use batch_managementof_cloud.Httpapi.Handler.After.{
  after_call, after_decode, after_statement, with_it,
}
use batch_managementof_cloud.Httpapi.Handler.Logic.{Ends-statement, answered}

-- What `verifyEmail` has done when it answers.
pub record Verified (env : Env) (before : World) (body : Option String) (after : World)
    : Type 0 where
  pub token : String
  pub decoded : body ≡ some token
  pub owner : ℕ
  pub accepted :
      (consume_one_time_token before.db
        (env.clock before.tick)
        (env.hash_token token)
        verify_email).0
      ≡ ok owner
  pub others : (u : User) → In u before.db.users → (u.id == owner) ≡ false → In u after.db.users
  pub works : (u : User) → In u after.db.users → (u.id == owner) ≡ true → is_active u.status ≡ true
  pub spent : IsSpent after.db (env.clock before.tick) (env.hash_token token) verify_email

went :
    (test : Bool) (db there after : Db)
    → ◌≡◌ {A = Result (Unit {0}) × Db}
        (if test then (ok tt, there) else (err not_found, db))
        (ok tt, after)
    → there ≡ after
went test db there after h = ground arith

abbrev activate : ℕ → User → User
activate now u = record u {
  status = Status.active;
  email_verified_at = some (coalesce u.email_verified_at now);
  updated_at = now;
}

-- The rows that `ActivateUser` leaves, and the tokens that it does not touch.
activated :
    (db after : Db) (now id : ℕ)
    → activate_user db now id ≡ (ok tt, after)
    → record db { users = update_where (λ u. u.id == id) (activate now) db.users } ≡ after
unfolding activate_user
activated db after now id h = went _ db _ after h

-- What `resetPassword` has done when it answers.
pub record WasReset (env : Env) (before : World) (body : Option Reset) (after : World)
    : Type 0 where
  pub input : Reset
  pub decoded : body ≡ some input
  pub owner : ℕ
  -- The token is tested after the password is hashed, the request's first effect.
  pub accepted :
      (consume_one_time_token before.db
        (env.clock (before.tick + 1))
        (env.hash_token input.token)
        reset_password).0
      ≡ ok owner
  pub ended :
      (later : ℕ) (token_hash : String) (s : Session) (u : User)
      → session_user after.db later token_hash ≡ ok (s, u)
      → s.user_id ≢ owner
  pub spent :
      IsSpent after.db (env.clock (before.tick + 1)) (env.hash_token input.token) reset_password

All-active :
    (hit : User → Bool) (change : User → User) (us : List User)
    → ((u : User) → is_active (change u).status ≡ true)
    → All (λ (u : User). hit u ≡ true → is_active u.status ≡ true) (update_where hit change us)
All-active hit change us works =
    All-update_where_to (λ (u : User). Unit {0})
      (λ (u : User). hit u ≡ true → is_active u.status ≡ true) hit change us (λ u e t h. works u)
      (λ u e t h. absurd (differ e h)) (All-of_In (λ (u : User). Unit {0}) us (λ u i. tt))
  where
    differ : {b : Bool} → b ≡ false → b ≡ true → ⊥
    differ e h = cc

-- A verification link works once and for its owner only: when `verifyEmail` answers, the body held
-- a token that was usable, the token's owner is active, every other user is as before, and the
-- token is refused from then on.
pub verify_address-Verified :
    (body : Option String) (env : Env) (w : World) (a : Unit {0})
    → (verify_address body env w).0 ≡ inr a
    → Verified env w body (verify_address body env w).1
unfolding verify_address
verify_address-Verified body env w a h =
    answered (λ a v. Verified env w body v) (λ r v. Unit {0}) _ env w a
      (with_it _ (
        after_decode _
          (λ token decoded.
            after_statement _ _
              (λ owner db e.
                Ends-statement _ _ _ _ env _
                  (λ done after k. verified token owner db after decoded e k) (λ c db e. tt)
                  (λ c. tt))
              (λ c db e. tt) (λ c. tt))
          (λ r. tt)))
      h
  where
    verified :
        (token : String) (owner : ℕ) (db after : Db)
        → body ≡ some token
        → consume_one_time_token w.db (env.clock w.tick) (env.hash_token token) verify_email
          ≡ (ok owner, db)
        → activate_user db (env.clock (w.tick + 1)) owner ≡ (ok tt, after)
        → Verified env w body (record w { db = after; tick = w.tick + 1 + 1 })
    verified token owner db after decoded e k =
        let users : db.users ≡ w.db.users =
          sym (ap (λ (x : Result ℕ × Db). x.1.users) e)
          ∙ consume-users w.db (env.clock w.tick) (env.hash_token token) verify_email in
        let rows = activated db after (env.clock (w.tick + 1)) owner k in
        let hit = λ (u : User). u.id == owner in
        let change = activate (env.clock (w.tick + 1)) in
        record {
          token = token;
          decoded = decoded;
          owner = owner;
          accepted = ap (λ (x : Result ℕ × Db). x.0) e;
          others = λ u i other.
              subst (λ (d : Db). In u d.users) rows
                (In-update_where_miss hit change db.users u (subst (λ us. In u us) (sym users) i)
                  other);
          works = λ u i mine.
              All-In (λ (v : User). hit v ≡ true → is_active v.status ≡ true)
                (update_where hit change db.users) (All-active hit change db.users (λ v. refl)) u
                (subst (λ (d : Db). In u d.users) (sym rows) i) mine;
          spent =
              IsSpent-tokens db after (env.clock w.tick) (env.hash_token token) verify_email
                (ap (λ (d : Db). d.one_time_tokens) rows)
                (consumed-IsSpent w.db db (env.clock w.tick) owner (env.hash_token token)
                  verify_email e);
        }

tokens_kept :
    (db after : Db) (now owner : ℕ) (hash : String)
    → update_password db now owner hash ≡ after
    → db.one_time_tokens ≡ after.one_time_tokens
unfolding update_password
tokens_kept db after now owner hash k = ap (λ (d : Db). d.one_time_tokens) k

-- A reset link works once and ends every session of its owner: when `resetPassword` answers, the
-- body held a token that was usable at the time of the request, no session of the token's owner is
-- open any more, at any time, and the token is refused from then on.
pub reset-WasReset :
    (body : Option Reset) (env : Env) (w : World) (a : Unit {0})
    → (reset body env w).0 ≡ inr a
    → WasReset env w body (reset body env w).1
unfolding reset
reset-WasReset body env w a h =
    answered (λ a v. WasReset env w body v) (λ r v. Unit {0}) _ env w a
      (with_it _ (
        after_decode _
          (λ input decoded.
            after_call _ _
              (λ hash made.
                after_statement _ _
                  (λ owner db e.
                    Ends-statement _ _ _ _ env _
                      (λ outcome after k.
                        changed input hash owner db after _ _ _ decoded
                          (hash_password-tick input.password hash env w made)
                          ((Keeps-hash_password (λ d. d) input.password).same env w) e
                          (ap (λ (x : Result (Unit {0}) × Db). x.1) k))
                      (λ c db e. tt) (λ c. tt))
                  (λ c db e. tt) (λ c. tt))
              (λ c e. tt))
          (λ r. tt)))
      h
  where
    changed :
        (input : Reset) (hash : String) (owner : ℕ) (db after : Db) (v : World) (now tick : ℕ)
        → body ≡ some input
        → v.tick ≡ w.tick + 1
        → v.db ≡ w.db
        → consume_one_time_token v.db (env.clock v.tick) (env.hash_token input.token) reset_password
          ≡ (ok owner, db)
        → update_password db now owner hash ≡ after
        → WasReset env w body (record v { db = after; tick = tick })
    changed input hash owner db after v now tick decoded next_tick same e k = record {
      input = input;
      decoded = decoded;
      owner = owner;
      accepted =
          subst
            (λ (n : ℕ).
              (consume_one_time_token w.db (env.clock n) (env.hash_token input.token)
                reset_password).0
              ≡ ok owner)
            next_tick
            (subst
              (λ (d : Db).
                (consume_one_time_token d (env.clock v.tick) (env.hash_token input.token)
                  reset_password).0
                ≡ ok owner)
              same (ap (λ (x : Result ℕ × Db). x.0) e));
      ended = λ later token_hash s u opens.
          update_password-session_user db now later owner hash token_hash s u
            (subst (λ (d : Db). session_user d later token_hash ≡ ok (s, u)) (sym k) opens);
      spent =
          subst (λ (n : ℕ). IsSpent after (env.clock n) (env.hash_token input.token) reset_password)
            next_tick
            (IsSpent-tokens db after (env.clock v.tick) (env.hash_token input.token) reset_password
              (tokens_kept db after now owner hash k)
              (consumed-IsSpent v.db db (env.clock v.tick) owner (env.hash_token input.token)
                reset_password e));
    }
