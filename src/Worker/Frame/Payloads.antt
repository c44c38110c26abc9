-- ===== src/Worker/Frame/Payloads.antt =====
-- What a handler knows of the payload that it goes on with (internal/worker/worker.go).
use batch_managementof_cloud.Prelude.{
  Bool-cases, List, Option, ap, if_both, inl, inr, length, ltb, none, refl, some, subst, ℕ, ℤ, ◌==◌,
  ◌||◌, ◌≡◌,
}
use batch_managementof_cloud.Model.Failure.{Error, Result, err, ok}
use batch_managementof_cloud.Model.Records.{
  ActionPayload, CreatePayload, Job, Payload, of_action, of_create, of_delete, of_sync,
}
use batch_managementof_cloud.Provider.{Call}
use batch_managementof_cloud.Effects.{Env, Program, World, pure, raise, ◌>>=◌, ◌>>◌}
use batch_managementof_cloud.Effects.Frame.{Framed, Framed-bind, Framed-pure, Framed-raise}
use batch_managementof_cloud.Worker.Create.{account_of, creation_of}
use batch_managementof_cloud.Worker.Droplets.{action_of, deletion_of, refuse}
use batch_managementof_cloud.Worker.Selection.{action_refusal, delete_refusal}

pub Framed-account_of : (Q : Call → Type 0) (job : Job) → Framed Q (account_of job)
Framed-account_of Q job =
    elim job.account_id
      as (λ o. Framed Q (elim o as (λ o. Program ℕ) [
        | none ↦ raise (Error.text "missing account ID")
        | some id ↦ pure id
      ])) [ none ↦ Framed-raise Q _ _ | some id ↦ Framed-pure Q _ id ]

Framed-refuse : (Q : Call → Type 0) (o : Option Error) → Framed Q (refuse o)
Framed-refuse Q none = Framed-pure Q _ tt
Framed-refuse Q (some e) = Framed-raise Q _ e

pub Framed-deletion : (Q : Call → Type 0) (p : Payload) → Framed Q (deletion_of p)
Framed-deletion Q (of_sync id) = Framed-raise Q _ _
Framed-deletion Q (of_create p) = Framed-raise Q _ _
Framed-deletion Q (of_action p) = Framed-raise Q _ _
Framed-deletion Q (of_delete ids) = Framed-bind Q (Framed-refuse Q _) λ done. Framed-pure Q _ ids
Framed-deletion Q Payload.undecodable = Framed-raise Q _ _

not_ok : {A : Type 0} {e : Error} {a : A} → ◌≡◌ {A = Result A} (err e) (ok a) → ⊥
not_ok e = cc

ok_inj : {A : Type 0} {a b : A} → ◌≡◌ {A = Result A} (ok a) (ok b) → a ≡ b
ok_inj e = cc

refuse-ok :
    {A : Type 0} (o : Option Error) (a b : A) (env : Env) (w : World)
    → ((refuse o >> pure a) env w).0 ≡ ok b
    → (a ≡ b) × (o ≡ none)
unfolding pure raise ◌>>=◌
refuse-ok none a b env w h = (ok_inj h, refl)
refuse-ok (some e) a b env w h = absurd (not_ok h)

-- A deletion that goes on has passed the guard.
pub deletion-ok :
    (p : Payload) (ids : List ℤ) (env : Env) (w : World)
    → (deletion_of p env w).0 ≡ ok ids
    → (p ≡ of_delete ids) × (delete_refusal ids ≡ none)
unfolding pure raise ◌>>=◌
deletion-ok (of_sync id) ids env w h = absurd (not_ok h)
deletion-ok (of_create p) ids env w h = absurd (not_ok h)
deletion-ok (of_action p) ids env w h = absurd (not_ok h)
deletion-ok (of_delete given) ids env w h =
    let (same, passed) = refuse-ok (delete_refusal given) given ids env w h in
    (ap of_delete same, subst (λ xs. delete_refusal xs ≡ none) same passed)
deletion-ok Payload.undecodable ids env w h = absurd (not_ok h)

pub Framed-action : (Q : Call → Type 0) (p : Payload) → Framed Q (action_of p)
Framed-action Q (of_sync id) = Framed-raise Q _ _
Framed-action Q (of_create p) = Framed-raise Q _ _
Framed-action Q (of_action p) = Framed-bind Q (Framed-refuse Q _) λ done. Framed-pure Q _ p
Framed-action Q (of_delete ids) = Framed-raise Q _ _
Framed-action Q Payload.undecodable = Framed-raise Q _ _

-- So has an action.
pub action-ok :
    (p : Payload) (a : ActionPayload) (env : Env) (w : World)
    → (action_of p env w).0 ≡ ok a
    → (p ≡ of_action a) × (action_refusal a ≡ none)
unfolding pure raise ◌>>=◌
action-ok (of_sync id) a env w h = absurd (not_ok h)
action-ok (of_create p) a env w h = absurd (not_ok h)
action-ok (of_action given) a env w h =
    let (same, passed) = refuse-ok (action_refusal given) given a env w h in
    (ap of_action same, subst (λ p. action_refusal p ≡ none) same passed)
action-ok (of_delete ids) a env w h = absurd (not_ok h)
action-ok Payload.undecodable a env w h = absurd (not_ok h)

pub Framed-creation : (Q : Call → Type 0) (p : Payload) → Framed Q (creation_of p)
Framed-creation Q (of_sync id) = Framed-raise Q _ _
Framed-creation Q (of_create p) = if_both (Framed Q) _ _ _ (Framed-raise Q _ _) (Framed-pure Q _ p)
Framed-creation Q (of_action p) = Framed-raise Q _ _
Framed-creation Q (of_delete ids) = Framed-raise Q _ _
Framed-creation Q Payload.undecodable = Framed-raise Q _ _

pub creation-ok :
    (p : Payload) (c : CreatePayload) (env : Env) (w : World)
    → (creation_of p env w).0 ≡ ok c
    → p ≡ of_create c
unfolding pure raise ◌>>=◌
creation-ok (of_sync id) c env w h = absurd (not_ok h)
creation-ok (of_create given) c env w h =
    elim (Bool-cases (length given.names == 0 || ltb 10 (length given.names))) [
      | inl e ↦ absurd (not_ok (rw e at h))
      | inr e ↦ ap of_create (ok_inj (rw e at h))
    ]
creation-ok (of_action p) c env w h = absurd (not_ok h)
creation-ok (of_delete ids) c env w h = absurd (not_ok h)
creation-ok Payload.undecodable c env w h = absurd (not_ok h)
