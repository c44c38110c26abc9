-- ===== src/Httpapi/Handler/After.antt =====
-- The rules of Logic and Steps for a step and what comes after it, which read a handler from its
-- top to its end.
use batch_managementof_cloud.Prelude.{
  ℕ, Bool, List, Option, String, ap, false, inl, inr, none, refl, some, subst, true, ◌+◌, ◌≡◌, ◌⊎◌,
  sym,
}
use batch_managementof_cloud.Model.Failure.{Error, Result, err, ok}
use batch_managementof_cloud.Store.{AuditRow, Db}
use batch_managementof_cloud.Effects.{Env, Program, World, after_tick, query, statement}
use batch_managementof_cloud.Effects.Runs.{statement-ran}
use batch_managementof_cloud.Httpapi.Guards.{Principal, require_recent_auth}
use batch_managementof_cloud.Httpapi.Handler.{
  Handler, Sender, answer, audit, call, decode_json, of_refusal, pass, recently, refuse_if,
  to_refuse, try, with_env, ◌>>=◌,
}
use batch_managementof_cloud.Httpapi.Handler.Logic.{
  Ends, Ends-answer, Ends-bind, Ends-call, Ends-decode_json, Ends-pass, Ends-query, Ends-refuse_if,
  Ends-statement, Ends-try, Ends-try-statement, Ends-with_env,
}
use batch_managementof_cloud.Httpapi.Handler.Steps.{
  Ends-audit, Ends-of_refusal, Ends-recently, Ends-to_refuse,
}
use batch_managementof_cloud.Httpapi.Selection.{Refusal}

module _ {B : Type 0} {Q : B → World → Type 0} {R : Refusal → World → Type 0} {env : Env}
    {w : World} where
  pub after_query :
      {A : Type 0} (f : Error → Refusal) (s : ℕ → Db → Result A) {g : A → Handler B}
      → ((a : A) → s (env.clock w.tick) w.db ≡ ok a → Ends Q R (g a) env (after_tick w))
      → ((e : Error) → R (f e) (after_tick w))
      → Ends Q R (call f (query s) >>= g) env w
  after_query f s {g} h k = Ends-bind Q R _ g env w (Ends-query _ R f s env w h k)

  pub after_statement :
      {A : Type 0} (f : Error → Refusal) (s : ℕ → (ℕ → ℕ) → Db → Result A × Db) {g : A → Handler B}
      → ((a : A) (db : Db)
          → s (env.clock w.tick) (env.uuid w.tick) w.db ≡ (ok a, db)
          → Ends Q R (g a) env (record w { db = db; tick = w.tick + 1 }))
      → ((e : Error) (db : Db)
          → s (env.clock w.tick) (env.uuid w.tick) w.db ≡ (err e, db)
          → R (f e) (record w { db = db; tick = w.tick + 1 }))
      → ((e : Error) → R (f e) (after_tick w))
      → Ends Q R (call f (statement s) >>= g) env w
  after_statement f s {g} h k l = Ends-bind Q R _ g env w (Ends-statement _ R f s env w h k l)

  pub after_call :
      {A : Type 0} (f : Error → Refusal) (m : Program A) {g : A → Handler B}
      → ((a : A) → (m env w).0 ≡ ok a → Ends Q R (g a) env (m env w).1)
      → ((e : Error) → (m env w).0 ≡ err e → R (f e) (m env w).1)
      → Ends Q R (call f m >>= g) env w
  after_call f m {g} h k = Ends-bind Q R _ g env w (Ends-call _ R f m env w h k)

  pub after_try :
      {A : Type 0} (m : Program A) (g : Result A → Handler B)
      → Ends Q R (g (m env w).0) env (m env w).1
      → Ends Q R (try m >>= g) env w
  after_try m g h = Ends-bind Q R _ g env w (Ends-try _ R m env w h)

  pub after_try-statement :
      {A : Type 0} (s : ℕ → (ℕ → ℕ) → Db → Result A × Db) {g : Result A → Handler B}
      → ((r : Result A) (db : Db)
          → s (env.clock w.tick) (env.uuid w.tick) w.db ≡ (r, db)
          → Ends Q R (g r) env (record w { db = db; tick = w.tick + 1 }))
      → ((e : Error) → Ends Q R (g (err e)) env (after_tick w))
      → Ends Q R (try (statement s) >>= g) env w
  after_try-statement s {g} h k = Ends-bind Q R _ g env w (Ends-try-statement _ R s env w h k)

  -- A query whose result the handler looks at: it has read the database, or it has failed.
  pub after_try-query :
      {A : Type 0} (s : ℕ → Db → Result A) {g : Result A → Handler B}
      → ((r : Result A)
          → (s (env.clock w.tick) w.db ≡ r) ⊎ ((e : Error) × (r ≡ err e))
          → Ends Q R (g r) env (after_tick w))
      → Ends Q R (try (query s) >>= g) env w
  after_try-query {A} s {g} h =
      after_try-statement (λ now ids db. (s now db, db))
        (λ r db e.
          subst (λ v. Ends Q R (g r) env (record w { db = v; tick = w.tick + 1 }))
            (ap (λ (x : Result A × Db). x.1) e) (h r (inl (ap (λ (x : Result A × Db). x.0) e))))
        (λ e. h (err e) (inr (e, refl)))

  pub after_refuse_if :
      (test : Bool) (r : Refusal) (g : Unit {0} → Handler B)
      → (test ≡ false → Ends Q R (g tt) env w)
      → (test ≡ true → R r w)
      → Ends Q R (refuse_if test r >>= g) env w
  after_refuse_if test r g h k = Ends-bind Q R _ g env w (Ends-refuse_if _ R test r env w h k)

  pub after_pass :
      (o : Option Refusal) (g : Unit {0} → Handler B)
      → (o ≡ none → Ends Q R (g tt) env w)
      → ((r : Refusal) → o ≡ some r → R r w)
      → Ends Q R (pass o >>= g) env w
  after_pass o g h k = Ends-bind Q R _ g env w (Ends-pass _ R o env w h k)

  pub after_decode :
      {A : Type 0} (body : Option A) {g : A → Handler B}
      → ((a : A) → body ≡ some a → Ends Q R (g a) env w)
      → ((r : Refusal) → R r w)
      → Ends Q R (decode_json body >>= g) env w
  after_decode body {g} h k = Ends-bind Q R _ g env w (Ends-decode_json _ R body env w h k)

  pub after_to_refuse :
      {A : Type 0} (o : Option A) (r : Refusal) {g : A → Handler B}
      → ((a : A) → o ≡ some a → Ends Q R (g a) env w)
      → R r w
      → Ends Q R (to_refuse o r >>= g) env w
  after_to_refuse o r {g} h k = Ends-bind Q R _ g env w (Ends-to_refuse _ R o r env w h k)

  pub after_of_refusal :
      {A : Type 0} (x : Refusal ⊎ A) {g : A → Handler B}
      → ((a : A) → x ≡ inr a → Ends Q R (g a) env w)
      → ((r : Refusal) → R r w)
      → Ends Q R (of_refusal x >>= g) env w
  after_of_refusal x {g} h k = Ends-bind Q R _ g env w (Ends-of_refusal _ R x env w h k)

  pub after_recently :
      (p : Principal) (g : Unit {0} → Handler B)
      → (require_recent_auth (env.clock w.tick) p ≡ none → Ends Q R (g tt) env (after_tick w))
      → ((r : Refusal) → R r (after_tick w))
      → Ends Q R (recently p >>= g) env w
  after_recently p g h k = Ends-bind Q R _ g env w (Ends-recently _ R p env w h k)

  pub after_audit :
      (p : Option Principal) (sender : Sender) (action resource_type resource_id : String)
      (target : Option ℕ) {g : Result (Unit {0}) → Handler B}
      → ((r : Result (Unit {0})) (logs : List AuditRow)
          → Ends Q R
              (g r)
              env
              (record w { db = record w.db { audit_logs = logs }; tick = w.tick + 1 }))
      → Ends Q R (audit p sender action resource_type resource_id target >>= g) env w
  after_audit p sender action resource_type resource_id target {g} h =
      Ends-bind Q R _ g env w
        (Ends-audit _ R p sender action resource_type resource_id target env w h)

  pub at_end : (b : B) → Q b w → Ends Q R (answer b) env w
  at_end b h = Ends-answer Q R b env w h

  pub with_it : (f : Env → Handler B) → Ends Q R (f env) env w → Ends Q R (with_env f) env w
  with_it f h = Ends-with_env Q R f env w h

  -- A handler whose first part has its own lemma.
  pub after_part :
      {A : Type 0} {m : Handler A} {g : A → Handler B}
      → Ends (λ a v. Ends Q R (g a) env v) R m env w
      → Ends Q R (m >>= g) env w
  after_part {A} {m} {g} h = Ends-bind Q R m g env w h

  -- A body that decodes.
  pub after_decoded :
      {A : Type 0} (a : A) (g : A → Handler B)
      → Ends Q R (g a) env w
      → Ends Q R (decode_json (some a) >>= g) env w
  unfolding decode_json
  after_decoded a g h = Ends-bind Q R _ g env w (record { outcome = h })

  -- A statement that the connection does not fail, and whose result the handler looks at.
  pub after_try_ran :
      {A : Type 0} (s : ℕ → (ℕ → ℕ) → Db → Result A × Db) {g : Result A → Handler B}
      → env.fault w.tick ≡ none
      → ((r : Result A) (db : Db)
          → s (env.clock w.tick) (env.uuid w.tick) w.db ≡ (r, db)
          → Ends Q R (g r) env (record w { db = db; tick = w.tick + 1 }))
      → Ends Q R (try (statement s) >>= g) env w
  after_try_ran {A} s {g} calm h = Ends-bind Q R _ g env w (
      Ends-try _ R (statement s) env w (
        subst (λ (x : Result A × World). Ends Q R (g x.0) env x.1)
          (sym (statement-ran s env w calm)) (h _ _ refl)))
