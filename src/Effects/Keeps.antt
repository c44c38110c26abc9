-- ===== src/Effects/Keeps.antt =====
-- Programs that leave a part of the database as it was, however they end.
use batch_managementof_cloud.Mail.{SmtpStep}
use batch_managementof_cloud.Prelude.{ℕ, String, none, refl, some, ◌+◌, ◌∙◌, ◌≡◌}
use batch_managementof_cloud.Model.Failure.{Error, Result, err, ok}
use batch_managementof_cloud.Store.{Db}
use batch_managementof_cloud.Provider.{Call}
use batch_managementof_cloud.Effects.{
  Env, Program, World, after_tick, attempt, decrypt, encrypt, pure, query, raise, random_bytes,
  read_clock, send, smtp_step, statement, with_env, ◌>>=◌,
}

module _ {X : Type 0} (f : Db → X) where
  pub record Keeps {A : Type 0} (m : Program A) : Type 0 where
    pub same : (env : Env) (w : World) → f (m env w).1.db ≡ f w.db

  pub Keeps-pure : (A : Type 0) (a : A) → Keeps (pure a)
  unfolding pure
  Keeps-pure A a = record { same = λ env w. refl }

  pub Keeps-raise : (A : Type 0) (e : Error) → Keeps (raise {A = A} e)
  unfolding raise
  Keeps-raise A e = record { same = λ env w. refl }

  pub Keeps-attempt : {A : Type 0} {m : Program A} → Keeps m → Keeps (attempt m)
  unfolding attempt
  Keeps-attempt h = record { same = h.same }

  pub Keeps-with_env :
      {A : Type 0} {g : Env → Program A} → ((env : Env) → Keeps (g env)) → Keeps (with_env g)
  unfolding with_env
  Keeps-with_env h = record { same = λ env w. (h env).same env w }

  pub Keeps-statement :
      {A : Type 0} (s : ℕ → (ℕ → ℕ) → Db → Result A × Db)
      → ((now : ℕ) (ids : ℕ → ℕ) (db : Db) → f (s now ids db).1 ≡ f db)
      → Keeps (statement s)
  unfolding statement
  Keeps-statement {A} s h = record {
    same = λ env w.
        elim (env.fault w.tick)
          as (λ o.
            f
              (elim o as (λ o. Result A × World) [
                | some e ↦ (err e, after_tick w)
                | none ↦
                    let r = s (env.clock w.tick) (env.uuid w.tick) w.db in
                    (r.0, record w { db = r.1; tick = w.tick + 1 })
              ]).1.db
            ≡ f w.db) [ some e ↦ refl | none ↦ h (env.clock w.tick) (env.uuid w.tick) w.db ];
  }

  pub Keeps-query : {A : Type 0} (s : ℕ → Db → Result A) → Keeps (query s)
  Keeps-query s = Keeps-statement (λ now ids db. (s now db, db)) (λ now ids db. refl)

  pub Keeps-read_clock : Keeps read_clock
  unfolding read_clock
  Keeps-read_clock = record { same = λ env w. refl }

  pub Keeps-random_bytes : (count : ℕ) → Keeps (random_bytes count)
  unfolding random_bytes
  Keeps-random_bytes count = record { same = λ env w. refl }

  pub Keeps-decrypt : (ciphertext iv context : String) → Keeps (decrypt ciphertext iv context)
  unfolding decrypt
  Keeps-decrypt ciphertext iv context = record { same = λ env w. refl }

  pub Keeps-encrypt : (plaintext context : String) → Keeps (encrypt plaintext context)
  unfolding encrypt
  Keeps-encrypt plaintext context = record { same = λ env w. refl }

  pub Keeps-smtp_step : (s : SmtpStep) → Keeps (smtp_step s)
  unfolding smtp_step
  Keeps-smtp_step s = record { same = λ env w. refl }

  pub Keeps-send : (c : Call) → Keeps (send c)
  unfolding send
  Keeps-send c = record { same = λ env w. refl }

  pub Keeps-bind :
      {A B : Type 0} {m : Program A} {g : A → Program B}
      → Keeps m
      → ((a : A) → Keeps (g a))
      → Keeps (m >>= g)
  unfolding ◌>>=◌
  Keeps-bind {A} {B} {m} {g} hm hg = record {
    same = λ env w.
        elim ((m env w).0)
          as (λ r.
            f
              (elim r as (λ r. Result B × World) [
                | ok a ↦ g a env (m env w).1
                | err e ↦ (err e, (m env w).1)
              ]).1.db
            ≡ f w.db) [
              | ok a ↦ (hg a).same env (m env w).1 ∙ hm.same env w
              | err e ↦ hm.same env w
            ];
  }
