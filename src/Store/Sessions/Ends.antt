-- ===== src/Store/Sessions/Ends.antt =====
-- How a login session begins and ends: internal/store/store.go, `CreateSession`, `SessionUser`,
-- `DeleteSession` and `UpdatePassword`.
use batch_managementof_cloud.Prelude.{
  ℕ, Bool-cases, List, Option, String, [], arith, delete_where, find_where, if◌then◌else◌, inl, inr,
  ltb, none, some, str_eq, ◌&&◌, ◌==◌, ◌∷◌, ◌≡◌, ap, false, find_where-delete_hit,
  find_where-delete_miss, str_eq_iff, true, In, Option-cases, str_eq_sym, ◌+◌, ◌≢◌, refl, subst,
  sym, ◌∙◌, exists_where, find_where-holds, find_where-update, update_where, ◌++◌, ◌||◌, ==_iff,
  Bool, find_where-In, find_where_present, str_eq_refl,
}
use batch_managementof_cloud.Model.Failure.{
  err, not_found, ok, Result, Error, foreign_key_violation, unique_violation,
}
use batch_managementof_cloud.Model.Records.{Session, User}
use batch_managementof_cloud.Store.{Db, SessionRow}
use batch_managementof_cloud.Store.Sessions.{
  delete_session, session_user, create_session, update_password, session_of, truncate,
}

same_token : (s a b : String) → str_eq a b ≡ true → str_eq s a ≡ str_eq s b
same_token s a b e = ap (str_eq s) ((str_eq_iff a b).0 e)

other_token : (s a b : String) → str_eq a b ≡ false → str_eq s b ≡ true → str_eq s a ≡ false
other_token s a b e h = rw ((str_eq_iff s b).0 h) (rw (str_eq_sym b a) e)

-- The session of the token that has not expired.
abbrev open_session : ℕ → String → List SessionRow → Option SessionRow
open_session now token_hash =
    find_where (λ s. str_eq s.token_hash token_hash && ltb now s.expires_at)

delete-hit :
    (now : ℕ) (gone token_hash : String) (ss : List SessionRow)
    → open_session now token_hash (delete_where (λ s. str_eq s.token_hash gone) ss)
      ≡ (if str_eq gone token_hash then none else open_session now token_hash ss)
delete-hit now gone token_hash ss = elim (Bool-cases (str_eq gone token_hash)) [
  | inl e ↦ rw e (
      find_where-delete_hit (λ s. str_eq s.token_hash token_hash && ltb now s.expires_at)
        (λ s. str_eq s.token_hash gone) ss
        (λ s h. hit s (same_token s.token_hash gone token_hash e) h))
  | inr e ↦ rw e (
      find_where-delete_miss (λ s. str_eq s.token_hash token_hash && ltb now s.expires_at)
        (λ s. str_eq s.token_hash gone) ss
        (λ s h. miss s (other_token s.token_hash gone token_hash e) h))
]
  where
    hit :
        (s : SessionRow)
        → str_eq s.token_hash gone ≡ str_eq s.token_hash token_hash
        → (str_eq s.token_hash token_hash && ltb now s.expires_at) ≡ true
        → str_eq s.token_hash gone ≡ true
    hit s e h = ground arith

    miss :
        (s : SessionRow)
        → (str_eq s.token_hash token_hash ≡ true → str_eq s.token_hash gone ≡ false)
        → (str_eq s.token_hash token_hash && ltb now s.expires_at) ≡ true
        → str_eq s.token_hash gone ≡ false
    miss s e h = ground arith

-- Deleting the session of a token ends exactly that session: afterwards its token is refused with
-- `not_found`, and every other token is answered as before.
pub delete_session-session_user :
    (db : Db) (now : ℕ) (gone token_hash : String)
    → session_user (delete_session db gone) now token_hash
      ≡ (if str_eq gone token_hash then err not_found else session_user db now token_hash)
unfolding session_user delete_session
delete_session-session_user db now gone token_hash = elim (Bool-cases (str_eq gone token_hash)) [
  | inl e ↦ rw (session_user, delete_session, delete-hit now gone token_hash db.sessions) (rw e)
  | inr e ↦ rw (session_user, delete_session, delete-hit now gone token_hash db.sessions) (rw e)
]

-- A session of another user survives a deletion of the user's sessions.
survives :
    (now id : ℕ) (token_hash : String) (ss : List SessionRow) (s : SessionRow)
    → open_session now token_hash ss ≡ some s
    → ¬ (s.user_id ≡ id)
    → open_session now token_hash (delete_where (λ s. s.user_id == id) ss) ≡ some s
survives now id token_hash [] s h apart = cc
survives now id token_hash (r ∷ ss) s h apart = ground (arith, survives now id token_hash ss s)

not_of :
    (now id : ℕ) (token_hash : String) (ss : List SessionRow) (s : SessionRow)
    → open_session now token_hash (delete_where (λ s. s.user_id == id) ss) ≡ some s
    → ¬ (s.user_id ≡ id)
not_of now id token_hash [] s h = cc
not_of now id token_hash (r ∷ ss) s h = ground (arith, not_of now id token_hash ss s)

-- The answer of the join, from the session that the token opens.
abbrev joined : Option SessionRow → List User → Result (Session × User)
joined none us = err not_found
joined (some r) us = elim (find_where (λ u. u.id == r.user_id) us) [
  | none ↦ err not_found
  | some u ↦ ok (session_of r, u)
]

session_user-joined :
    (db : Db) (now : ℕ) (token_hash : String)
    → session_user db now token_hash ≡ joined (open_session now token_hash db.sessions) db.users
unfolding session_user
session_user-joined db now token_hash =
    elim (Option-cases (open_session now token_hash db.sessions)) [
      | inl e ↦ rw (session_user, e) refl
      | inr (r, e) ↦ rw (session_user, joined, e) refl
    ]

ok_joined :
    (r : SessionRow) (us : List User) (u : User)
    → find_where (λ u. u.id == r.user_id) us ≡ some u
    → joined (some r) us ≡ ok (session_of r, u)
ok_joined r us u e = rw (joined, e) refl

ok_inj : {A : Type 0} {a b : A} → ◌≡◌ {A = Result A} (ok a) (ok b) → a ≡ b
ok_inj e = cc

not_ok : {A : Type 0} {e : Error} {a : A} → ◌≡◌ {A = Result A} (err e) (ok a) → ⊥
not_ok e = cc

joined_ok :
    (o : Option SessionRow) (us : List User) (s : Session) (u : User)
    → joined o us ≡ ok (s, u)
    → (r : SessionRow) × (o ≡ some r)
      × (session_of r ≡ s)
      × (find_where (λ u. u.id == r.user_id) us ≡ some u)
joined_ok none us s u h = cc
joined_ok (some r) us s u h = elim (Option-cases (find_where (λ u. u.id == r.user_id) us)) [
  | inl e ↦ absurd (refused e)
  | inr (v, e) ↦ (
    r,
    refl,
    ap (λ p. p.0) (ok_inj (sym (ok_joined r us v e) ∙ h)),
    e ∙ ap (λ p. some p.1) (ok_inj (sym (ok_joined r us v e) ∙ h)),
  )
]
  where
    refused : find_where (λ u. u.id == r.user_id) us ≡ none → ⊥
    refused e = not_ok (sym (no_user e) ∙ h)
      where
        no_user : find_where (λ u. u.id == r.user_id) us ≡ none → joined (some r) us ≡ err not_found
        no_user e = rw (joined, e) refl

-- `UpdatePassword` ends every session of its user: whatever token is presented afterwards, a session
-- that is accepted belongs to somebody else.
pub update_password-session_user :
    (db : Db) (now later id : ℕ) (password_hash token_hash : String) (s : Session) (u : User)
    → session_user (update_password db now id password_hash) later token_hash ≡ ok (s, u)
    → s.user_id ≢ id
unfolding update_password
update_password-session_user db now later id password_hash token_hash s u h =
    let (r, e, k, f) =
      joined_ok (open_session later token_hash (delete_where (λ s. s.user_id == id) db.sessions))
        (update_password db now id password_hash).users s u
        (sym (session_user-joined (update_password db now id password_hash) later token_hash)
          ∙ h) in
    subst (λ (t : Session). t.user_id ≢ id) k (not_of later id token_hash db.sessions r e)

user_kept :
    (us : List User) (u : User) (now owner id : ℕ) (password_hash : String)
    → find_where (λ u. u.id == owner) us ≡ some u
    → owner ≢ id
    → find_where
        (λ u. u.id == owner)
        (update_where
          (λ u. u.id == id)
          (λ u. record u { password_hash = password_hash; updated_at = now })
          us)
      ≡ some u
user_kept us u now owner id password_hash e apart =
    find_where-update (λ u. u.id == owner) (λ u. u.id == id)
      (λ u. record u { password_hash = password_hash; updated_at = now }) us (λ x. refl)
    ∙ rw e (rw (other_id (find_where-holds (λ u. u.id == owner) us e)) refl)
  where
    other_id : (u.id == owner) ≡ true → (u.id == id) ≡ false
    other_id h = ground arith

-- `UpdatePassword` leaves the sessions of everybody else alone: a session of another user that was
-- accepted before is accepted afterwards, with the same user.
pub update_password-others :
    (db : Db) (now later id : ℕ) (password_hash token_hash : String) (s : Session) (u : User)
    → session_user db later token_hash ≡ ok (s, u)
    → s.user_id ≢ id
    → session_user (update_password db now id password_hash) later token_hash ≡ ok (s, u)
unfolding update_password
update_password-others db now later id password_hash token_hash s u h apart =
    let (r, e, k, f) =
      joined_ok (open_session later token_hash db.sessions) db.users s u
        (sym (session_user-joined db later token_hash) ∙ h) in
    session_user-joined (update_password db now id password_hash) later token_hash
    ∙ rw
        (survives later id token_hash db.sessions r e
          (subst (λ (t : Session). t.user_id ≢ id) (sym k) apart))
        (ok_joined r (update_password db now id password_hash).users u (
            user_kept db.users u now r.user_id id password_hash f
              (subst (λ (t : Session). t.user_id ≢ id) (sym k) apart))
          ∙ ap (λ t. ok (t, u)) k)

-- A token that no session has opens the session that is added for it.
fresh_open :
    (later id : ℕ) (token_hash : String) (ss : List SessionRow) (row : SessionRow)
    → exists_where (λ (s : SessionRow). str_eq s.token_hash token_hash || s.id == id) ss ≡ false
    → open_session later token_hash (ss ++ row ∷ [])
      ≡ (if str_eq row.token_hash token_hash && ltb later row.expires_at then some row else none)
fresh_open later id token_hash [] row h = ground arith
fresh_open later id token_hash (s ∷ ss) row h =
    ground (arith, fresh_open later id token_hash ss row)

-- What two guards let pass.
two_guards :
    {A B : Type 0} (refused missing : Bool) (e f : Error) (a b : A) (x y z : B)
    → ◌≡◌ {A = Result A × B}
        (if refused then (err e, x) else if missing then (ok a, y) else (err f, x))
        (ok b, z)
    → (refused ≡ false) × (missing ≡ true) × (a ≡ b) × (y ≡ z)
two_guards true missing e f a b x y z h = absurd (not_ok (ap (λ p. p.0) h))
two_guards false true e f a b x y z h = (refl, refl, ok_inj (ap (λ p. p.0) h), ap (λ p. p.1) h)
two_guards false false e f a b x y z h = absurd (not_ok (ap (λ p. p.0) h))

-- A new session is the one that its token opens: until it expires, `SessionUser` answers the session
-- that `CreateSession` returned with the user of that id, and from then on `not_found`.
pub create_session-session_user :
    (db db' : Db) (now id owner later : ℕ) (token_hash : String) (ip : Option String)
    (user_agent : String) (ttl : ℕ) (s : Session)
    → create_session db now id owner token_hash ip user_agent ttl ≡ (ok s, db')
    → (u : User) × (In u db.users)
      × (u.id ≡ owner)
      × (session_user db' later token_hash
          ≡ (if ltb later (now + ttl) then ok (s, u) else err not_found))
unfolding create_session
create_session-session_user db db' now id owner later token_hash ip user_agent ttl s h =
    let row : SessionRow = record {
      id = id;
      user_id = owner;
      token_hash = token_hash;
      ip_address = ip;
      user_agent = truncate user_agent 512;
      recent_auth_at = now;
      expires_at = now + ttl;
      created_at = now;
    } in
    let (free, there, same, after) =
      two_guards
        (exists_where (λ (s : SessionRow). str_eq s.token_hash token_hash || s.id == id)
          db.sessions)
        (exists_where (λ (u : User). u.id == owner) db.users) unique_violation foreign_key_violation
        (session_of row) s db (record db { sessions = db.sessions ++ row ∷ [] }) db' h in
    let (u, e) = find_where_present (λ (u : User). u.id == owner) db.users there in
    (
      u,
      find_where-In (λ u. u.id == owner) db.users e,
      (==_iff u.id owner).0 (find_where-holds (λ u. u.id == owner) db.users e),
      ap (λ d. session_user d later token_hash) (sym after)
          ∙ session_user-joined (record db { sessions = db.sessions ++ row ∷ [] }) later token_hash
          ∙ ap (λ o. joined o db.users) (fresh_open later id token_hash db.sessions row free)
          ∙ answer row u e same,
    )
  where
    answer :
        (row : SessionRow) (u : User)
        → find_where (λ u. u.id == row.user_id) db.users ≡ some u
        → session_of row ≡ s
        → joined
            (if str_eq row.token_hash row.token_hash && ltb later row.expires_at
              then some row
              else none)
            db.users
          ≡ (if ltb later row.expires_at then ok (s, u) else err not_found)
    answer row u e same =
        rw (str_eq_refl row.token_hash) (elim (Bool-cases (ltb later row.expires_at)) [
          | inl k ↦ rw k (ok_joined row db.users u e ∙ ap (λ t. ok (t, u)) same)
          | inr k ↦ rw k refl
        ])
