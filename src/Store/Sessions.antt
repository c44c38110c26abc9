-- ===== src/Store/Sessions.antt =====
-- The `sessions` table and the passwords: `CreateSession`, `SessionUser`, `DeleteSession`,
-- `MarkRecentAuth` and `UpdatePassword` of internal/store/store.go.
pub mod Ends
use Prim.Native.String.{len, slice}
use batch_managementof_cloud.Prelude.{
  Option, String, [], delete_where, exists_where, find_where, if◌then◌else◌, leb, ltb, none, some,
  str_eq, update_where, ℕ, ◌&&◌, ◌++◌, ◌+◌, ◌==◌, ◌||◌, ◌∷◌,
}
use batch_managementof_cloud.Model.Failure.{
  Result, err, foreign_key_violation, not_found, ok, unique_violation,
}
use batch_managementof_cloud.Model.Records.{Session, User}
use batch_managementof_cloud.Store.{Db, SessionRow}

-- `truncate(value, max)`: the first `max` bytes. A character that the cut splits is dropped, where
-- Go keeps its first bytes.
unfoldable pub truncate : String → ℕ → String
truncate value most = if leb (len value) most then value else slice value 0 most

-- `CreateSession`. The id is the one that `gen_random_uuid()` gives.
unfoldable pub create_session :
    Db → ℕ → ℕ → ℕ → String → Option String → String → ℕ → Result Session × Db
create_session db now id owner token_hash ip user_agent ttl =
    let row : SessionRow = record {
      id = id;
      user_id = owner;
      token_hash = token_hash;
      ip_address = ip;
      user_agent = truncate user_agent 512;
      recent_auth_at = now;
      expires_at = now + ttl;
      created_at = now;
    } in
    if exists_where (λ (s : SessionRow). str_eq s.token_hash token_hash || s.id == id) db.sessions
    then (err unique_violation, db)
    else if exists_where (λ (u : User). u.id == owner) db.users
    then (
      ok (record { id = id; user_id = owner; recent_auth_at = now; expires_at = now + ttl }),
      record db { sessions = db.sessions ++ row ∷ [] },
    )
    else (err foreign_key_violation, db)

abbrev pub session_of : SessionRow → Session
session_of s = record {
  id = s.id;
  user_id = s.user_id;
  recent_auth_at = s.recent_auth_at;
  expires_at = s.expires_at;
}

-- `SessionUser`: the session of the token that has not expired, joined with its user.
unfoldable pub session_user : Db → ℕ → String → Result (Session × User)
session_user db now token_hash =
    elim (find_where (λ s. str_eq s.token_hash token_hash && ltb now s.expires_at) db.sessions) [
      | none ↦ err not_found
      | some s ↦ elim (find_where (λ u. u.id == s.user_id) db.users) [
        | none ↦ err not_found
        | some u ↦ ok (session_of s, u)
      ]
    ]

-- `DeleteSession`
unfoldable pub delete_session : Db → String → Db
delete_session db token_hash = record db {
  sessions = delete_where (λ s. str_eq s.token_hash token_hash) db.sessions;
}

-- `MarkRecentAuth`
unfoldable pub mark_recent_auth : Db → ℕ → ℕ → Db
mark_recent_auth db now id = record db {
  sessions = update_where (λ s. s.id == id) (λ s. record s { recent_auth_at = now }) db.sessions;
}

-- `UpdatePassword`: one transaction that sets the hash and ends every session of the user.
unfoldable pub update_password : Db → ℕ → ℕ → String → Db
update_password db now id password_hash = record db {
  users =
      update_where (λ u. u.id == id)
        (λ u. record u { password_hash = password_hash; updated_at = now }) db.users;
  sessions = delete_where (λ s. s.user_id == id) db.sessions;
}
