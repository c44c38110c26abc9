-- ===== src/Httpapi/Auth/SignIn.antt =====
-- Who can log in, and what the session that `login` opens is worth.
use batch_managementof_cloud.Prelude.{
  ℕ, Bool, Option, String, ap, arith, if◌then◌else◌, ◌+◌, ◌≡◌, Distinct, false, inr, ltb, map, none,
  not, refl, some, true, In, List, find_where-In, str_eq, subst, unique_row, ◌∙◌,
}
use batch_managementof_cloud.Model.Failure.{
  Result, err, foreign_key_violation, ok, unique_violation, not_found,
}
use batch_managementof_cloud.Model.Records.{Session, Status, User, is_active}
use batch_managementof_cloud.Security.Passwords.{random_token, random_token-db, verify_password}
use batch_managementof_cloud.Config.{Config}
use batch_managementof_cloud.Store.{Db, AuditRow}
use batch_managementof_cloud.Store.Sessions.{create_session, delete_session, session_user}
use batch_managementof_cloud.Store.Sessions.Ends.{create_session-session_user}
use batch_managementof_cloud.Store.Users.{get_user_by_email, normal_email, found_ok}
use batch_managementof_cloud.Effects.{Env, World, statement, after_tick}
use batch_managementof_cloud.Httpapi.Auth.{csrf_or_undo, Credentials, Login, login, status_refusal}
use batch_managementof_cloud.Httpapi.Guards.{refusal}
use batch_managementof_cloud.Httpapi.Handler.{Handler, answer, done, refuse, try, ◌>>=◌, Sender}
use batch_managementof_cloud.Httpapi.Handler.After.{
  after_try, at_end, after_audit, after_call, after_decode, after_part, after_pass, after_query,
  after_refuse_if, after_statement, after_try-query, with_it,
}
use batch_managementof_cloud.Httpapi.Handler.Logic.{Ends, Ends-refuse, answered}

created :
    {A : Type 0} (s t : A) (db db' after : Db) (taken there : Bool)
    → ◌≡◌ {A = Result A × Db}
        (if taken
          then (err unique_violation, db)
          else if there
          then (ok s, db')
          else (err foreign_key_violation, db))
        (ok t, after)
    → (s ≡ t)
created s t db db' after taken there h = ground arith

-- A new session ends when its time is over.
create_session-expires :
    (db after : Db) (now id owner : ℕ) (token_hash : String) (ip : Option String)
    (user_agent : String) (ttl : ℕ) (s : Session)
    → create_session db now id owner token_hash ip user_agent ttl ≡ (ok s, after)
    → now + ttl ≡ s.expires_at
unfolding create_session
create_session-expires db after now id owner token_hash ip user_agent ttl s h =
    ap (λ (x : Session). x.expires_at) (created _ s db _ after _ _ h)

-- Without a second token nothing is answered, and with one the tables are as they were.
Ends-csrf_or_undo :
    (Q : String → World → Type 0) (token_hash : String) (env : Env) (w : World)
    → ((t : String) (v : World) → v.db ≡ w.db → Q t v)
    → Ends Q (λ r v. Unit {0}) (csrf_or_undo token_hash) env w
unfolding csrf_or_undo
Ends-csrf_or_undo Q token_hash env w h =
    after_try _ _
      (by_result ((random_token 24 env w).0) (random_token 24 env w).1 (random_token-db 24 env w))
  where
    by_result :
        (r : Result String) (v : World)
        → v.db ≡ w.db
        → Ends Q
            (λ r v. Unit {0})
            (elim r as (λ r. Handler String) [
              | ok csrf_token ↦ answer csrf_token
              | err e ↦
                  try (statement λ now ids db. done (delete_session db token_hash)) >>= λ undone.
                  refuse (refusal 500 "session_failed")
            ])
            env
            v
    by_result (ok t) v e = at_end t (h t v e)
    by_result (err c) v e = after_try _ _ (Ends-refuse _ _ _ env _ tt)

-- The session of a user that was found by his address, after an entry in the audit log.
opens_session :
    (d : Db) (ids : Distinct (map (λ (u : User). u.id) d.users)) (email : String) (user : User)
    → get_user_by_email d email ≡ ok user
    → (before after logged : Db) (now id later ttl : ℕ) (token_hash : String) (ip : Option String)
      (user_agent : String) (session : Session) (logs : List AuditRow)
    → before ≡ d
    → create_session before now id user.id token_hash ip user_agent ttl ≡ (ok session, after)
    → logged ≡ after
    → session_user (record logged { audit_logs = logs }) later token_hash
      ≡ (if ltb later session.expires_at then ok (session, user) else err not_found)
unfolding get_user_by_email session_user
opens_session d ids email user known before after logged now id later ttl token_hash ip user_agent
      session logs same e kept =
    let (u, there, owner, works) =
      create_session-session_user before after now id user.id later token_hash ip user_agent ttl
        session e in
    let is_user : u ≡ user =
      unique_row (λ (x : User). x.id) d.users u user ids
        (subst (λ (x : Db). In u x.users) same there)
        (find_where-In (λ (x : User). str_eq x.email (normal_email email)) d.users
          (found_ok _ user known))
        owner in
    ap (λ (x : Db). session_user (record x { audit_logs = logs }) later token_hash) kept
    ∙ works
    ∙ ap (λ (t : ℕ). if ltb later t then ok (session, u) else err not_found)
        (create_session-expires before after now id user.id token_hash ip user_agent ttl session e)
    ∙ ap (λ (x : User). if ltb later session.expires_at then ok (session, x) else err not_found)
        is_user

-- What `login` promises of its answer, in the world that it leaves.
pub record SignedIn (env : Env) (before : Db) (body : Option Credentials) (l : Login)
    (after : World) : Type 0 where
  pub input : Credentials
  pub decoded : body ≡ some input
  pub known : get_user_by_email before input.email ≡ ok l.user
  pub proved : verify_password env.argon2 l.user.password_hash input.password ≡ true
  pub active : is_active l.user.status ≡ true
  pub session : Session
  pub opens :
      (later : ℕ)
      → session_user after.db later (env.hash_token l.token)
        ≡ (if ltb later l.expires_at then ok (session, l.user) else err not_found)

active_of : (s : Status) → status_refusal s ≡ none → is_active s ≡ true
unfolding status_refusal
active_of Status.pending h = cc
active_of Status.active h = refl
active_of Status.disabled h = cc

passes : (b : Bool) → not b ≡ false → b ≡ true
passes b h = ground arith

-- Whoever logs in is a user that is found under the address of the request, is active and has the
-- password of the request; the token that he gets opens a session as that user until the time of
-- its cookie and not after it. (No two users have the same id.)
pub login-SignedIn :
    (cfg : Config) (sender : Sender) (body : Option Credentials) (env : Env) (w : World) (l : Login)
    → Distinct (map (λ (u : User). u.id) w.db.users)
    → (login cfg sender body env w).0 ≡ inr l
    → SignedIn env w.db body l (login cfg sender body env w).1
unfolding login
login-SignedIn cfg sender body env w l ids h =
    answered (SignedIn env w.db body) (λ r v. Unit {0}) _ env w l
      (with_it _ (
        after_decode _
          (λ input decoded.
            after_query _ _
              (λ user known.
                after_refuse_if _ _ _
                  (λ proved.
                    after_pass _ _
                      (λ live.
                        after_call _ _
                          (λ token drawn. after_try-query _ (λ setting read.
                            after_statement _ _
                              (λ session db e. after_part (
                                Ends-csrf_or_undo _ (env.hash_token token) env _ (λ csrf v same.
                                  after_audit _ _ _ _ _ _ (λ r logs. at_end _ (record {
                                    input = input;
                                    decoded = decoded;
                                    known = known;
                                    proved = passes _ proved;
                                    active = active_of user.status live;
                                    session = session;
                                    opens = λ later.
                                        opens_session w.db ids input.email user known _ db v.db _ _
                                          later _ (env.hash_token token) _ _ session logs
                                          (random_token-db 32 env (after_tick w)) e same;
                                  })))))
                              (λ c db e. tt) (λ c. tt)))
                          (λ c e. tt))
                      (λ r e. tt))
                  (λ stop. tt))
              (λ c. tt))
          (λ r. tt)))
      h
