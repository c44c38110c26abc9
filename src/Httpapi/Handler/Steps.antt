-- ===== src/Httpapi/Handler/Steps.antt =====
-- The rules of Logic for the steps that handlers share: the audit entry, the test on a recent
-- authentication, and values that may be refusals.
use batch_managementof_cloud.Prelude.{
  ℕ, List, Option, String, inl, inr, none, refl, some, ◌+◌, ◌≡◌, ◌⊎◌, ap, if_both, subst, ◌&&◌,
}
use batch_managementof_cloud.Model.Failure.{Result, err}
use batch_managementof_cloud.Store.{AuditRow, Db}
use batch_managementof_cloud.Store.Settings.{AuditEntry, write_audit, refers}
use batch_managementof_cloud.Effects.{Env, World, after_tick, read_clock}
use batch_managementof_cloud.Httpapi.Guards.{Principal, require_recent_auth}
use batch_managementof_cloud.Httpapi.Handler.{
  Sender, audit, audit_entry, of_refusal, pass, recently, to_refuse, try, ◌>>=◌,
}
use batch_managementof_cloud.Httpapi.Handler.Logic.{Ends, Ends-pass, Ends-try-statement}
use batch_managementof_cloud.Httpapi.Selection.{Refusal}

write_audit-logs :
    (before : Db) (now : ℕ) (entry : AuditEntry) (P : Db → Type 0)
    → ((logs : List AuditRow) → P (record before { audit_logs = logs }))
    → P (write_audit before now entry).1
unfolding write_audit
write_audit-logs before now entry P k =
    if_both (λ (x : Result (Unit {0}) × Db). P x.1)
      (refers before entry.actor_user_id && refers before entry.target_user_id) _ _ (k _)
      (k before.audit_logs)

-- An audit entry changes the audit log at most, and its failure ends nothing.
pub Ends-audit :
    (Q : Result (Unit {0}) → World → Type 0) (R : Refusal → World → Type 0) (p : Option Principal)
    (sender : Sender) (action resource_type resource_id : String) (target : Option ℕ) (env : Env)
    (w : World)
    → ((r : Result (Unit {0})) (logs : List AuditRow)
        → Q r (record w { db = record w.db { audit_logs = logs }; tick = w.tick + 1 }))
    → Ends Q R (audit p sender action resource_type resource_id target) env w
unfolding audit
Ends-audit Q R p sender action resource_type resource_id target env w h =
    let entry = audit_entry p sender action resource_type resource_id target in
    Ends-try-statement Q R (λ now ids db. write_audit db now entry) env w
      (λ r db e.
        subst (λ v. Q r (record w { db = v; tick = w.tick + 1 }))
          (ap (λ (x : Result (Unit {0}) × Db). x.1) e)
          (write_audit-logs w.db (env.clock w.tick) entry
            (λ v. Q r (record w { db = v; tick = w.tick + 1 })) (h r)))
      (λ e. h (err e) w.db.audit_logs)

pub Ends-recently :
    (Q : Unit {0} → World → Type 0) (R : Refusal → World → Type 0) (p : Principal) (env : Env)
    (w : World)
    → (require_recent_auth (env.clock w.tick) p ≡ none → Q tt (after_tick w))
    → ((r : Refusal) → R r (after_tick w))
    → Ends Q R (recently p) env w
unfolding recently try ◌>>=◌ read_clock pass
Ends-recently Q R p env w h k = record {
  outcome =
      (Ends-pass Q R (require_recent_auth (env.clock w.tick) p) env (after_tick w) h
        (λ r e. k r)).outcome;
}

module _ {A : Type 0} (Q : A → World → Type 0) (R : Refusal → World → Type 0) where
  pub Ends-to_refuse :
      (o : Option A) (r : Refusal) (env : Env) (w : World)
      → ((a : A) → o ≡ some a → Q a w)
      → R r w
      → Ends Q R (to_refuse o r) env w
  unfolding to_refuse
  Ends-to_refuse none r env w h k = record { outcome = k }
  Ends-to_refuse (some a) r env w h k = record { outcome = h a refl }

  pub Ends-of_refusal :
      (x : Refusal ⊎ A) (env : Env) (w : World)
      → ((a : A) → x ≡ inr a → Q a w)
      → ((r : Refusal) → R r w)
      → Ends Q R (of_refusal x) env w
  unfolding of_refusal
  Ends-of_refusal (inl r) env w h k = record { outcome = k r }
  Ends-of_refusal (inr a) env w h k = record { outcome = h a refl }
