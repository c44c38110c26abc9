-- ===== src/Httpapi/Handler.antt =====
-- Handlers of internal/httpapi: programs that may answer early. `writeError` and a `return` is a
-- refusal; what the handler writes at its end is its value.
pub mod Logic
pub mod Steps
pub mod After
use batch_managementof_cloud.Prelude.{
  ℕ, Bool, Option, String, false, if◌then◌else◌, inl, inr, none, some, true, ◌==◌, ◌⊎◌,
}
use batch_managementof_cloud.Model.Failure.{Error, Result, err, ok, unique_violation}
use batch_managementof_cloud.Model.Records.{user}
use batch_managementof_cloud.Store.{Db}
use batch_managementof_cloud.Store.Settings.{AuditEntry, write_audit}
use batch_managementof_cloud.Effects.{Env, Program, World, read_clock, statement}
use batch_managementof_cloud.Httpapi.Guards.{Principal, refusal, require_recent_auth}
use batch_managementof_cloud.Httpapi.Selection.{Refusal}

abbrev pub Handler : Type 0 → Type 0
Handler A = Env → World → (Refusal ⊎ A) × World

module _ {A : Type 0} where
  unfoldable pub answer : A → Handler A
  answer a env w = (inr a, w)

  unfoldable pub refuse : Refusal → Handler A
  refuse r env w = (inl r, w)

  -- A call whose error ends the handler with a refusal that may depend on it.
  unfoldable pub call : (Error → Refusal) → Program A → Handler A
  call f m env w = (elim (m env w).0 [ ok a ↦ inr a | err e ↦ inl (f e) ], (m env w).1)

  -- A call whose result the handler looks at itself.
  unfoldable pub try : Program A → Handler (Result A)
  try m env w = (inr (m env w).0, (m env w).1)

  -- `decodeJSON` of a body that may not decode.
  unfoldable pub decode_json : Option A → Handler A
  decode_json none env w = (inl (refusal 400 "invalid_json"), w)
  decode_json (some input) env w = (inr input, w)

-- A test that ends the handler.
unfoldable pub refuse_if : Bool → Refusal → Handler (Unit {0})
refuse_if true r env w = (inl r, w)
refuse_if false r env w = (inr tt, w)

-- A guard that has its refusal.
unfoldable pub pass : Option Refusal → Handler (Unit {0})
pass none env w = (inr tt, w)
pass (some r) env w = (inl r, w)

infixl 5 ◌>>=◌ ◌>>◌
unfoldable pub ◌>>=◌ : {A B : Type 0} → Handler A → (A → Handler B) → Handler B
m >>= f = λ env w. elim (m env w).0 [ inr a ↦ f a env (m env w).1 | inl r ↦ (inl r, (m env w).1) ]

abbrev pub ◌>>◌ : {A B : Type 0} → Handler A → Handler B → Handler B
m >> k = m >>= λ _. k

unfoldable pub with_env : {A : Type 0} → (Env → Handler A) → Handler A
with_env f env w = f env env w

-- A refusal whatever the error is.
abbrev pub always : ℕ → String → Error → Refusal
always status code e = refusal status code

-- `strings.Contains(strings.ToLower(err.Error()), "unique")`: PostgreSQL says so of a unique index
-- that refuses a statement, and of no other failure.
abbrev pub is_unique : Error → Bool
is_unique unique_violation = true
is_unique _ = false

abbrev pub if_unique : Refusal → Refusal → Error → Refusal
if_unique r s e = if is_unique e then r else s

-- What a request says of its sender: `clientIP` and `UserAgent`.
pub record Sender : Type 0 where
  pub ip : Option String
  pub user_agent : String

-- The entry that `audit` writes. A principal is absent on the routes that anybody may call.
abbrev pub audit_entry :
    Option Principal → Sender → String → String → String → Option ℕ → AuditEntry
audit_entry p sender action resource_type resource_id target = record {
  actor_user_id = elim p [ none ↦ none | some q ↦ if q.user.id == 0 then none else some q.user.id ];
  target_user_id = target;
  action = action;
  resource_type = resource_type;
  resource_id = resource_id;
  ip = sender.ip;
  user_agent = sender.user_agent;
}

-- `audit`, whose error is only logged.
unfoldable pub audit :
    Option Principal → Sender → String → String → String → Option ℕ → Handler (Result (Unit {0}))
audit p sender action resource_type resource_id target = try (
    statement λ now ids db.
      write_audit db now (audit_entry p sender action resource_type resource_id target))

-- `requireRecentAuth`, at the time of the clock.
unfoldable pub recently : Principal → Handler (Unit {0})
recently p = try read_clock >>= λ r. elim r [
  | ok now ↦ pass (require_recent_auth now p)
  | err e ↦ refuse (refusal 403 "recent_auth_required")
]

-- A statement that returns nothing.
abbrev pub done : Db → Result (Unit {0}) × Db
done db = (ok tt, db)

-- A value that may be a refusal.
unfoldable pub of_refusal : {A : Type 0} → Refusal ⊎ A → Handler A
of_refusal (inl r) env w = (inl r, w)
of_refusal (inr a) env w = (inr a, w)

-- A value that may be missing.
unfoldable pub to_refuse : {A : Type 0} → Option A → Refusal → Handler A
to_refuse none r env w = (inl r, w)
to_refuse (some a) r env w = (inr a, w)
