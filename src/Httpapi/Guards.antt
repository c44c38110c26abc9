-- ===== src/Httpapi/Guards.antt =====
-- What a request must pass before its handler runs: `authMiddleware`, `csrfMiddleware`,
-- `requireAdmin` and `requireRecentAuth` of internal/httpapi/server.go.
use batch_managementof_cloud.Prelude.{
  ℕ, Bool, Option, String, [], false, if◌then◌else◌, inl, inr, is_blank, ltb, none, not, some,
  str_eq, true, ◌*◌, ◌+◌, ◌||◌, ◌↔◌, ◌∷◌, ◌≡◌, ◌⊎◌, Bool-cases, ap, arith, refl, str_eq_iff, subst,
  sym, ◌∙◌,
}
use batch_managementof_cloud.Model.Failure.{Result, err, ok, Error}
use batch_managementof_cloud.Model.Records.{Session, User, is_active, is_admin, minute}
use batch_managementof_cloud.Store.{Setting, SettingValue, of_maintenance}
use batch_managementof_cloud.Store.Sessions.{session_user}
use batch_managementof_cloud.Store.Settings.{get_setting}
use batch_managementof_cloud.Effects.{Env, Program, World, attempt, pure, query, ◌>>=◌}
use batch_managementof_cloud.Effects.Runs.{bind-attempt, query_inverse}
use batch_managementof_cloud.Worker.Selection.{one_of}
use batch_managementof_cloud.Httpapi.Selection.{Refusal}

-- `principal`
pub record Principal : Type 0 where
  pub user : User
  pub session : Session
  pub token : String

abbrev pub refusal : ℕ → String → Refusal
refusal status code = record { status = status; code = code }

-- `maintenance.Enabled`, of a setting that decodes.
abbrev pub is_maintenance : SettingValue → Bool
is_maintenance (of_maintenance enabled message) = enabled
is_maintenance _ = false

-- The test on the maintenance mode, which only an administrator is spared.
abbrev pub in_maintenance : Result Setting → Bool
in_maintenance (err e) = false
in_maintenance (ok s) = is_maintenance s.value

abbrev pub admit : String → Result (Session × User) → Program (Refusal ⊎ Principal)
admit token (err e) = pure (inl (refusal 401 "session_invalid"))
admit token (ok (s, u)) =
    let p : Principal = record { user = u; session = s; token = token } in
    if not (is_active u.status)
    then pure (inl (refusal 401 "session_invalid"))
    else if is_admin u.role
    then pure (inr p)
    else attempt (query (λ now db. get_setting db "maintenance")) >>= λ r.
        pure (if in_maintenance r then inl (refusal 503 "maintenance") else inr p)

-- `authMiddleware`; `hash_token` is `security.HashToken`, a SHA-256.
unfoldable pub authenticate : (String → String) → Option String → Program (Refusal ⊎ Principal)
authenticate hash_token none = pure (inl (refusal 401 "authentication_required"))
authenticate hash_token (some token) =
    if is_blank token
    then pure (inl (refusal 401 "authentication_required"))
    else attempt (query (λ now db. session_user db now (hash_token token))) >>= admit token

abbrev pub is_safe : String → Bool
is_safe method = one_of method ("GET" ∷ "HEAD" ∷ "OPTIONS" ∷ [])

-- `csrfMiddleware`, from the method, the cookie and the header.
unfoldable pub csrf : String → Option String → String → Option Refusal
csrf method cookie header = if is_safe method then none else elim cookie [
  | none ↦ some (refusal 403 "csrf_invalid")
  | some value ↦
      if is_blank value || is_blank header || not (str_eq value header)
      then some (refusal 403 "csrf_invalid")
      else none
]

-- `requireAdmin`
unfoldable pub require_admin : Principal → Option Refusal
require_admin p = if is_admin p.user.role then none else some (refusal 403 "admin_required")

-- `requireRecentAuth`
unfoldable pub require_recent_auth : ℕ → Principal → Option Refusal
require_recent_auth now p =
    if ltb (p.session.recent_auth_at + 5 * minute) now
    then some (refusal 403 "recent_auth_required")
    else none

-- A request passes the CSRF check exactly when its method is safe, or its cookie and its header
-- carry the same text, which is not empty.
pub csrf_iff :
    (method : String) (cookie : Option String) (header : String)
    → (csrf method cookie header ≡ none)
      ↔ ((is_safe method ≡ true) ⊎ ((cookie ≡ some header) × (is_blank header ≡ false)))
unfolding csrf
csrf_iff method none header = ground arith
csrf_iff method (some value) header = let same = str_eq_iff value header in ground (arith, same)

not_admitted :
    {x : Refusal} {p : Principal}
    → ◌≡◌ {A = Result (Refusal ⊎ Principal)} (ok (inl x)) (ok (inr p))
    → ⊥
not_admitted h = cc

not_ok : {A : Type 0} {e : Error} {a : A} → ◌≡◌ {A = Result A} (err e) (ok a) → ⊥
not_ok e = cc

admitted :
    {p q : Principal} → ◌≡◌ {A = Result (Refusal ⊎ Principal)} (ok (inr p)) (ok (inr q)) → p ≡ q
admitted h = cc

-- What is known of a principal that is admitted.
abbrev Known : String → Result (Session × User) → Principal → Type 0
Known token r p =
    (r ≡ ok (p.session, p.user)) × (p.token ≡ token) × (is_active p.user.status ≡ true)

known :
    (token : String) (s : Session) (u : User) (p : Principal)
    → is_active u.status ≡ true
    → ◌≡◌ {A = Result (Refusal ⊎ Principal)}
        (ok (inr (record { user = u; session = s; token = token })))
        (ok (inr p))
    → Known token (ok (s, u)) p
known token s u p on h = subst (Known token (ok (s, u))) (admitted h) (refl, refl, on)

admit-ok :
    (token : String) (r : Result (Session × User)) (env : Env) (w : World) (p : Principal)
    → (admit token r env w).0 ≡ ok (inr p)
    → Known token r p
unfolding pure
admit-ok token (err e) env w p h = absurd (not_admitted h)
admit-ok token (ok (s, u)) env w p h = elim (Bool-cases (is_active u.status)) [
  | inr off ↦ absurd (not_admitted (rw off at h))
  | inl on ↦ elim (Bool-cases (is_admin u.role)) [
    | inl boss ↦ known token s u p on (rw boss at (rw on at h))
    | inr plain ↦
        let setting = query (λ now db. get_setting db "maintenance") in
        let q : Principal = record { user = u; session = s; token = token } in
        let answer = λ (r : Result Setting).
          pure (if in_maintenance r then inl (refusal 503 "maintenance") else inr q) in
        let k =
          ap (λ r. r.0) (sym (bind-attempt setting answer env w)) ∙ (rw plain at (rw on at h)) in
        elim (Bool-cases (in_maintenance (setting env w).0)) [
          | inl shut ↦ absurd (not_admitted (rw shut at k))
          | inr served ↦ known token s u p on (rw served at k)
        ]
  ]
]

-- Whom the API serves: if a request is let through, its cookie holds a token, the token's hash
-- opens a session that has not expired, the principal is that session with its user, and the user
-- is active.
pub authenticate-active :
    (hash_token : String → String) (cookie : Option String) (env : Env) (w : World) (p : Principal)
    → (authenticate hash_token cookie env w).0 ≡ ok (inr p)
    → (cookie ≡ some p.token)
      × (is_active p.user.status ≡ true)
      × (session_user w.db (env.clock w.tick) (hash_token p.token) ≡ ok (p.session, p.user))
unfolding authenticate pure
authenticate-active hash_token none env w p h = absurd (not_admitted h)
authenticate-active hash_token (some token) env w p h = elim (Bool-cases (is_blank token)) [
  | inl e ↦ absurd (not_admitted (rw e at h))
  | inr e ↦
      let read = query (λ now db. session_user db now (hash_token token)) in
      let (opened, same, is_on) =
        admit-ok token (read env w).0 env (read env w).1 p
          (ap (λ r. r.0) (sym (bind-attempt read (admit token) env w)) ∙ (rw e at h)) in
      let there =
        query_inverse (λ now db. session_user db now (hash_token token)) env w (p.session, p.user)
          opened in
      (
        ap some (sym same),
        is_on,
        subst (λ t. session_user w.db (env.clock w.tick) (hash_token t) ≡ ok (p.session, p.user))
            (sym same) there,
      )
]
