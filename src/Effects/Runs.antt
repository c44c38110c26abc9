-- ===== src/Effects/Runs.antt =====
-- How a program runs: one equation for each combinator.
use batch_managementof_cloud.Prelude.{ℕ, Option, ap, none, refl, some, ◌+◌, ◌≡◌}
use batch_managementof_cloud.Model.Failure.{Error, Result, err, ok}
use batch_managementof_cloud.Store.{Db}
use batch_managementof_cloud.Effects.{
  Env, Program, World, after_tick, attempt, statement, ◌>>=◌, query,
}

module _ {A B : Type 0} where
  pub bind-ok :
      (m : Program A) (f : A → Program B) (env : Env) (w w' : World) (a : A)
      → m env w ≡ (ok a, w')
      → (m >>= f) env w ≡ f a env w'
  unfolding ◌>>=◌
  bind-ok m f env w w' a e =
      ap
        (λ (r : Result A × World). elim (r.0) as (λ o. Result B × World) [
          | ok a ↦ f a env r.1
          | err e ↦ (err e, r.1)
        ])
        e

  pub bind-attempt :
      (m : Program A) (f : Result A → Program B) (env : Env) (w : World)
      → (attempt m >>= f) env w ≡ f (m env w).0 env (m env w).1
  unfolding ◌>>=◌ attempt
  bind-attempt m f env w = refl

module _ {A : Type 0} where
  pub statement-ran :
      (f : ℕ → (ℕ → ℕ) → Db → Result A × Db) (env : Env) (w : World)
      → env.fault w.tick ≡ none
      → statement f env w ≡ (
        (f (env.clock w.tick) (env.uuid w.tick) w.db).0,
        record w { db = (f (env.clock w.tick) (env.uuid w.tick) w.db).1; tick = w.tick + 1 },
      )
  unfolding statement
  statement-ran f env w e =
      ap
        (λ (o : Option Error). elim o as (λ o. Result A × World) [
          | some e ↦ (err e, after_tick w)
          | none ↦
              let r = f (env.clock w.tick) (env.uuid w.tick) w.db in
              (r.0, record w { db = r.1; tick = w.tick + 1 })
        ])
        e

  pub statement-failed :
      (f : ℕ → (ℕ → ℕ) → Db → Result A × Db) (env : Env) (w : World) (cause : Error)
      → env.fault w.tick ≡ some cause
      → statement f env w ≡ (err cause, after_tick w)
  unfolding statement
  statement-failed f env w cause e =
      ap
        (λ (o : Option Error). elim o as (λ o. Result A × World) [
          | some e ↦ (err e, after_tick w)
          | none ↦
              let r = f (env.clock w.tick) (env.uuid w.tick) w.db in
              (r.0, record w { db = r.1; tick = w.tick + 1 })
        ])
        e

not_ok : {A : Type 0} {e : Error} {a : A} → ◌≡◌ {A = Result A} (err e) (ok a) → ⊥
not_ok e = cc

module _ {A B : Type 0} where
  -- A chain that returns has returned from its first part.
  pub bind_inverse :
      (m : Program A) (f : A → Program B) (env : Env) (w : World) (b : B)
      → ((m >>= f) env w).0 ≡ ok b
      → (a : A) × ((m env w).0 ≡ ok a) × ((f a env (m env w).1).0 ≡ ok b)
  unfolding ◌>>=◌
  bind_inverse m f env w b =
      (elim ((m env w).0)
          as (λ r.
            (m env w).0 ≡ r
            → (elim r as (λ o. Result B × World) [
              | ok a ↦ f a env (m env w).1
              | err e ↦ (err e, (m env w).1)
            ]).0
              ≡ ok b
            → (a : A) × ((m env w).0 ≡ ok a) × ((f a env (m env w).1).0 ≡ ok b)) [
              | ok a ↦ λ e h. (a, e, h)
              | err c ↦ λ e h. absurd (not_ok h)
            ])
        refl

module _ {A : Type 0} where
  -- A query that returns has read the database as it was.
  pub query_inverse :
      (f : ℕ → Db → Result A) (env : Env) (w : World) (a : A)
      → (query f env w).0 ≡ ok a
      → f (env.clock w.tick) w.db ≡ ok a
  unfolding statement
  query_inverse f env w a =
      elim (env.fault w.tick)
        as (λ o.
          (elim o as (λ o. Result A × World) [
            | some e ↦ (err e, after_tick w)
            | none ↦ (f (env.clock w.tick) w.db, record w { db = w.db; tick = w.tick + 1 })
          ]).0
            ≡ ok a
          → f (env.clock w.tick) w.db ≡ ok a) [ some c ↦ λ h. absurd (not_ok h) | none ↦ λ h. h ]

  pub query-db : (f : ℕ → Db → Result A) (env : Env) (w : World) → (query f env w).1.db ≡ w.db
  unfolding statement
  query-db f env w =
      elim (env.fault w.tick)
        as (λ o.
          (elim o as (λ o. Result A × World) [
            | some e ↦ (err e, after_tick w)
            | none ↦ (f (env.clock w.tick) w.db, record w { db = w.db; tick = w.tick + 1 })
          ]).1.db
          ≡ w.db) [ some c ↦ refl | none ↦ refl ]
