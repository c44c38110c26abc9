-- ===== src/Httpapi/Handler/Logic.antt =====
-- What a handler leaves behind, however it ends: rules that follow its text.
use batch_managementof_cloud.Prelude.{
  ℕ, Bool, Option, false, inl, inr, none, refl, some, subst, true, ◌+◌, ◌≡◌, ◌⊎◌,
}
use batch_managementof_cloud.Model.Failure.{Error, Result, err, ok}
use batch_managementof_cloud.Store.{Db}
use batch_managementof_cloud.Effects.{Env, Program, World, after_tick, query, statement}
use batch_managementof_cloud.Httpapi.Guards.{refusal}
use batch_managementof_cloud.Httpapi.Handler.{
  Handler, answer, call, decode_json, pass, refuse_if, try, refuse, with_env, ◌>>=◌,
}
use batch_managementof_cloud.Httpapi.Selection.{Refusal}

module _ {A : Type 0} (Q : A → World → Type 0) (R : Refusal → World → Type 0) where
  abbrev pub Outcome : (Refusal ⊎ A) × World → Type 0
  Outcome (inr a, w) = Q a w
  Outcome (inl r, w) = R r w

  -- `Q` holds of the value and the world when the handler goes on to its end, `R` of the refusal
  -- and the world when it does not.
  pub record Ends (m : Handler A) (env : Env) (w : World) : Type 0 where
    pub outcome : Outcome (m env w)

  pub Ends-answer : (a : A) (env : Env) (w : World) → Q a w → Ends (answer a) env w
  unfolding answer
  Ends-answer a env w h = record { outcome = h }

  pub Ends-refuse : (r : Refusal) (env : Env) (w : World) → R r w → Ends (refuse r) env w
  unfolding refuse
  Ends-refuse r env w h = record { outcome = h }

  pub Ends-decode_json :
      (input : Option A) (env : Env) (w : World)
      → ((a : A) → input ≡ some a → Q a w)
      → ((r : Refusal) → R r w)
      → Ends (decode_json input) env w
  unfolding decode_json
  Ends-decode_json none env w h k = record { outcome = k (refusal 400 "invalid_json") }
  Ends-decode_json (some a) env w h k = record { outcome = h a refl }

  -- A call of a program whose result is known.
  pub Ends-call :
      (f : Error → Refusal) (m : Program A) (env : Env) (w : World)
      → ((a : A) → (m env w).0 ≡ ok a → Q a (m env w).1)
      → ((e : Error) → (m env w).0 ≡ err e → R (f e) (m env w).1)
      → Ends (call f m) env w
  unfolding call
  Ends-call f m env w h k = record { outcome = go (m env w) (λ a e. h a e) (λ c e. k c e) }
    where
      go :
          (x : Result A × World)
          → ((a : A) → x.0 ≡ ok a → Q a x.1)
          → ((e : Error) → x.0 ≡ err e → R (f e) x.1)
          → Outcome (elim x.0 as (λ r. Refusal ⊎ A) [ ok a ↦ inr a | err e ↦ inl (f e) ], x.1)
      go (ok a, v) h k = h a refl
      go (err e, v) h k = k e refl

  -- A statement, which may fail or run.
  pub Ends-statement :
      (f : Error → Refusal) (s : ℕ → (ℕ → ℕ) → Db → Result A × Db) (env : Env) (w : World)
      → ((a : A) (db : Db)
          → s (env.clock w.tick) (env.uuid w.tick) w.db ≡ (ok a, db)
          → Q a (record w { db = db; tick = w.tick + 1 }))
      → ((e : Error) (db : Db)
          → s (env.clock w.tick) (env.uuid w.tick) w.db ≡ (err e, db)
          → R (f e) (record w { db = db; tick = w.tick + 1 }))
      → ((e : Error) → R (f e) (after_tick w))
      → Ends (call f (statement s)) env w
  unfolding call statement
  Ends-statement f s env w h k l = record {
    outcome = go (env.fault w.tick) (s (env.clock w.tick) (env.uuid w.tick) w.db) h k;
  }
    where
      go :
          (o : Option Error) (x : Result A × Db)
          → ((a : A) (db : Db) → x ≡ (ok a, db) → Q a (record w { db = db; tick = w.tick + 1 }))
          → ((e : Error) (db : Db)
              → x ≡ (err e, db)
              → R (f e) (record w { db = db; tick = w.tick + 1 }))
          → let y = elim o as (λ o. Result A × World) [
            | some e ↦ (err e, after_tick w)
            | none ↦ (x.0, record w { db = x.1; tick = w.tick + 1 })
          ] in
            Outcome (elim y.0 as (λ r. Refusal ⊎ A) [ ok a ↦ inr a | err e ↦ inl (f e) ], y.1)
      go (some e) x h k = l e
      go none (ok a, db) h k = h a db refl
      go none (err e, db) h k = k e db refl

  -- A query.
  pub Ends-query :
      (f : Error → Refusal) (s : ℕ → Db → Result A) (env : Env) (w : World)
      → ((a : A) → s (env.clock w.tick) w.db ≡ ok a → Q a (after_tick w))
      → ((e : Error) → R (f e) (after_tick w))
      → Ends (call f (query s)) env w
  unfolding call statement
  Ends-query f s env w h k = record {
    outcome = go (env.fault w.tick) (s (env.clock w.tick) w.db) h;
  }
    where
      go :
          (o : Option Error) (x : Result A)
          → ((a : A) → x ≡ ok a → Q a (after_tick w))
          → let y = elim o as (λ o. Result A × World) [
            | some e ↦ (err e, after_tick w)
            | none ↦ (x, record w { db = w.db; tick = w.tick + 1 })
          ] in
            Outcome (elim y.0 as (λ r. Refusal ⊎ A) [ ok a ↦ inr a | err e ↦ inl (f e) ], y.1)
      go (some e) x h = k e
      go none (ok a) h = h a refl
      go none (err e) h = k e

module _ {A : Type 0} (Q : Result A → World → Type 0) (R : Refusal → World → Type 0) where
  pub Ends-try :
      (m : Program A) (env : Env) (w : World) → Q (m env w).0 (m env w).1 → Ends Q R (try m) env w
  unfolding try
  Ends-try m env w h = record { outcome = h }

  -- A statement whose result the handler looks at, or ignores.
  pub Ends-try-statement :
      (s : ℕ → (ℕ → ℕ) → Db → Result A × Db) (env : Env) (w : World)
      → ((r : Result A) (db : Db)
          → s (env.clock w.tick) (env.uuid w.tick) w.db ≡ (r, db)
          → Q r (record w { db = db; tick = w.tick + 1 }))
      → ((e : Error) → Q (err e) (after_tick w))
      → Ends Q R (try (statement s)) env w
  unfolding try statement
  Ends-try-statement s env w h k = record { outcome = go (env.fault w.tick) }
    where
      go :
          (o : Option Error)
          → let y = elim o as (λ o. Result A × World) [
            | some e ↦ (err e, after_tick w)
            | none ↦
                let r = s (env.clock w.tick) (env.uuid w.tick) w.db in
                (r.0, record w { db = r.1; tick = w.tick + 1 })
          ] in
            Q y.0 y.1
      go (some e) = k e
      go none = let r = s (env.clock w.tick) (env.uuid w.tick) w.db in h r.0 r.1 refl

module _ (Q : Unit {0} → World → Type 0) (R : Refusal → World → Type 0) where
  pub Ends-refuse_if :
      (test : Bool) (r : Refusal) (env : Env) (w : World)
      → (test ≡ false → Q tt w)
      → (test ≡ true → R r w)
      → Ends Q R (refuse_if test r) env w
  unfolding refuse_if
  Ends-refuse_if true r env w h k = record { outcome = k refl }
  Ends-refuse_if false r env w h k = record { outcome = h refl }

  pub Ends-pass :
      (o : Option Refusal) (env : Env) (w : World)
      → (o ≡ none → Q tt w)
      → ((r : Refusal) → o ≡ some r → R r w)
      → Ends Q R (pass o) env w
  unfolding pass
  Ends-pass none env w h k = record { outcome = h refl }
  Ends-pass (some r) env w h k = record { outcome = k r refl }

module _ {A B : Type 0} (Q : B → World → Type 0) (R : Refusal → World → Type 0) where
  -- The first part ends where the rest can begin.
  pub Ends-bind :
      (m : Handler A) (f : A → Handler B) (env : Env) (w : World)
      → Ends (λ a v. Ends Q R (f a) env v) R m env w
      → Ends Q R (m >>= f) env w
  unfolding ◌>>=◌
  Ends-bind m f env w h = record { outcome = go (m env w) h.outcome }
    where
      go :
          (x : (Refusal ⊎ A) × World)
          → Outcome (λ a v. Ends Q R (f a) env v) R x
          → Outcome Q R (elim x.0 as (λ o. (Refusal ⊎ B) × World) [
            | inr a ↦ f a env x.1
            | inl r ↦ (inl r, x.1)
          ])
      go (inr a, v) k = k.outcome
      go (inl r, v) k = k

pub Ends-with_env :
    {B : Type 0} (Q : B → World → Type 0) (R : Refusal → World → Type 0) (f : Env → Handler B)
    (env : Env) (w : World)
    → Ends Q R (f env) env w
    → Ends Q R (with_env f) env w
unfolding with_env
Ends-with_env Q R f env w h = record { outcome = h.outcome }

-- What a handler that has answered shows.
pub answered :
    {A : Type 0} (Q : A → World → Type 0) (R : Refusal → World → Type 0) (m : Handler A) (env : Env)
    (w : World) (a : A)
    → Ends Q R m env w
    → (m env w).0 ≡ inr a
    → Q a (m env w).1
answered {A} Q R m env w a h e = go (m env w) h.outcome e
  where
    same : {b : A} → ◌≡◌ {A = Refusal ⊎ A} (inr b) (inr a) → b ≡ a
    same e = cc

    differ : {r : Refusal} → ◌≡◌ {A = Refusal ⊎ A} (inl r) (inr a) → ⊥
    differ e = cc

    go : (x : (Refusal ⊎ A) × World) → Outcome Q R x → x.0 ≡ inr a → Q a x.1
    go (inr b, v) h e = subst (λ c. Q c v) (same e) h
    go (inl r, v) h e = absurd (differ e)

-- What holds however a handler ends.
pub settled :
    {A : Type 0} (P : World → Type 0) (m : Handler A) (env : Env) (w : World)
    → Ends (λ a. P) (λ r. P) m env w
    → P (m env w).1
settled {A} P m env w h = go (m env w) h.outcome
  where
    go : (x : (Refusal ⊎ A) × World) → Outcome (λ a. P) (λ r. P) x → P x.1
    go (inr a, v) k = k
    go (inl r, v) k = k

-- A handler that cannot end early answers.
pub answers :
    {A : Type 0} (P : A → Type 0) (m : Handler A) (env : Env) (w : World)
    → Ends (λ a v. P a) (λ r v. ⊥) m env w
    → (a : A) × ((m env w).0 ≡ inr a) × P a
answers {A} P m env w h = go (m env w) h.outcome
  where
    go :
        (x : (Refusal ⊎ A) × World)
        → Outcome (λ a v. P a) (λ r v. ⊥) x
        → (a : A) × (x.0 ≡ inr a) × P a
    go (inr a, v) k = (a, refl, k)
    go (inl r, v) k = absurd k

-- What a handler that has refused shows.
pub refused :
    {A : Type 0} (Q : A → World → Type 0) (R : Refusal → World → Type 0) (m : Handler A) (env : Env)
    (w : World) (r : Refusal)
    → Ends Q R m env w
    → (m env w).0 ≡ inl r
    → R r (m env w).1
refused {A} Q R m env w r h e = go (m env w) h.outcome e
  where
    same : {s : Refusal} → ◌≡◌ {A = Refusal ⊎ A} (inl s) (inl r) → s ≡ r
    same e = cc

    differ : {a : A} → ◌≡◌ {A = Refusal ⊎ A} (inr a) (inl r) → ⊥
    differ e = cc

    go : (x : (Refusal ⊎ A) × World) → Outcome Q R x → x.0 ≡ inl r → R r x.1
    go (inl s, v) h e = subst (λ c. R c v) (same e) h
    go (inr a, v) h e = absurd (differ e)
