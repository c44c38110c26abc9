-- ===== src/Effects/Frame.antt =====
-- What a program does to the world at most: it appends calls of a kind to the log and leaves tables
-- alone. The rules follow the combinators, so that a program's frame is read off its text.
use batch_managementof_cloud.Prelude.{
  ℕ, All, All-append, List, [], ap, none, refl, some, subst, sym, ◌++◌, ◌+◌, ◌∙◌, ◌∷◌, ◌≡◌, String,
}
use batch_managementof_cloud.Model.Failure.{Error, Result, err, ok}
use batch_managementof_cloud.Store.{Db}
use batch_managementof_cloud.Provider.{Call}
use batch_managementof_cloud.Effects.{
  Env, Program, World, after_tick, attempt, of_result, pure, query, raise, read_clock, send,
  statement, with_env, ◌>>=◌, decrypt, encrypt, random_bytes, sleep,
}

-- The tables that a worker's handlers have no business with.
pub record Untouched (db db' : Db) : Type 0 where
  pub jobs : db'.jobs ≡ db.jobs
  pub users : db'.users ≡ db.users
  pub sessions : db'.sessions ≡ db.sessions
  pub one_time_tokens : db'.one_time_tokens ≡ db.one_time_tokens

pub untouched : (db : Db) → Untouched db db
untouched db = record { jobs = refl; users = refl; sessions = refl; one_time_tokens = refl }

append_nil : {A : Type 0} (xs : List A) → xs ≡ xs ++ []
append_nil [] = refl
append_nil (x ∷ xs) = ap (◌∷◌ x) (append_nil xs)

append_assoc : {A : Type 0} (xs ys zs : List A) → (xs ++ ys) ++ zs ≡ xs ++ (ys ++ zs)
append_assoc [] ys zs = refl
append_assoc (x ∷ xs) ys zs = ap (◌∷◌ x) (append_assoc xs ys zs)

module _ (Q : Call → Type 0) where
  pub record Frame (w w' : World) : Type 0 where
    pub added : List Call
    pub calls : w'.calls ≡ w.calls ++ added
    pub each : All Q added
    pub tables : Untouched w.db w'.db

  pub Frame-same : (w w' : World) → w'.calls ≡ w.calls → w'.db ≡ w.db → Frame w w'
  Frame-same w w' calls db = record {
    added = [];
    calls = calls ∙ append_nil w.calls;
    each = tt;
    tables = subst (Untouched w.db) (sym db) (untouched w.db);
  }

  pub Frame-chain : (u v w : World) → Frame u v → Frame v w → Frame u w
  Frame-chain u v w f g = record {
    added = f.added ++ g.added;
    calls = g.calls ∙ ap (λ cs. cs ++ g.added) f.calls ∙ append_assoc u.calls f.added g.added;
    each = All-append Q f.added g.added f.each g.each;
    tables = record {
      jobs = g.tables.jobs ∙ f.tables.jobs;
      users = g.tables.users ∙ f.tables.users;
      sessions = g.tables.sessions ∙ f.tables.sessions;
      one_time_tokens = g.tables.one_time_tokens ∙ f.tables.one_time_tokens;
    };
  }

  -- Every run of the program stays in its frame.
  pub record Framed {A : Type 0} (m : Program A) : Type 0 where
    pub runs : (env : Env) (w : World) → Frame w (m env w).1

  pub Framed-pure : (A : Type 0) (a : A) → Framed (pure a)
  unfolding pure
  Framed-pure A a = record { runs = λ env w. Frame-same w w refl refl }

  pub Framed-raise : (A : Type 0) (e : Error) → Framed (raise {A = A} e)
  unfolding raise
  Framed-raise A e = record { runs = λ env w. Frame-same w w refl refl }

  pub Framed-of_result : (A : Type 0) (r : Result A) → Framed (of_result r)
  unfolding of_result
  Framed-of_result A r = record { runs = λ env w. Frame-same w w refl refl }

  pub Framed-attempt : {A : Type 0} {m : Program A} → Framed m → Framed (attempt m)
  unfolding attempt
  Framed-attempt h = record { runs = λ env w. h.runs env w }

  pub Framed-with_env :
      {A : Type 0} {f : Env → Program A} → ((env : Env) → Framed (f env)) → Framed (with_env f)
  unfolding with_env
  Framed-with_env h = record { runs = λ env w. (h env).runs env w }

  pub Framed-statement :
      {A : Type 0} (f : ℕ → (ℕ → ℕ) → Db → Result A × Db)
      → ((time : ℕ) (ids : ℕ → ℕ) (db : Db) → Untouched db (f time ids db).1)
      → Framed (statement f)
  unfolding statement
  Framed-statement {A} f h = record {
    runs = λ env w.
        elim (env.fault w.tick)
          as (λ o.
            Frame w
              (elim o as (λ o. Result A × World) [
                | some e ↦ (err e, after_tick w)
                | none ↦
                    let r = f (env.clock w.tick) (env.uuid w.tick) w.db in
                    (r.0, record w { db = r.1; tick = w.tick + 1 })
              ]).1) [
                | some e ↦ Frame-same w (after_tick w) refl refl
                | none ↦ record {
                  added = [];
                  calls = append_nil w.calls;
                  each = tt;
                  tables = h (env.clock w.tick) (env.uuid w.tick) w.db;
                }
              ];
  }

  pub Framed-query : {A : Type 0} (f : ℕ → Db → Result A) → Framed (query f)
  Framed-query f = Framed-statement (λ time ids db. (f time db, db)) (λ time ids db. untouched db)

  pub Framed-read_clock : Framed read_clock
  unfolding read_clock
  Framed-read_clock = record { runs = λ env w. Frame-same w (after_tick w) refl refl }

  pub Framed-random_bytes : (count : ℕ) → Framed (random_bytes count)
  unfolding random_bytes
  Framed-random_bytes count = record { runs = λ env w. Frame-same w (after_tick w) refl refl }

  pub Framed-decrypt :
      (ciphertext nonce context : String) → Framed (decrypt ciphertext nonce context)
  unfolding decrypt
  Framed-decrypt ciphertext nonce context = record { runs = λ env w. Frame-same w w refl refl }

  pub Framed-encrypt : (plaintext context : String) → Framed (encrypt plaintext context)
  unfolding encrypt
  Framed-encrypt plaintext context = record {
    runs = λ env w. Frame-same w (after_tick w) refl refl;
  }

  pub Framed-sleep : Framed sleep
  unfolding sleep
  Framed-sleep = record { runs = λ env w. Frame-same w (after_tick w) refl refl }

  pub Framed-send : (c : Call) → Q c → Framed (send c)
  unfolding send
  Framed-send c q = record {
    runs =
        λ env w. record { added = c ∷ []; calls = refl; each = (q, tt); tables = untouched w.db };
  }

  pub Framed-bind :
      {A B : Type 0} {m : Program A} {f : A → Program B}
      → Framed m
      → ((a : A) → Framed (f a))
      → Framed (m >>= f)
  unfolding ◌>>=◌
  Framed-bind {A} {B} {m} {f} hm hf = record {
    runs = λ env w.
        elim ((m env w).0)
          as (λ r.
            Frame w
              (elim r as (λ r. Result B × World) [
                | ok a ↦ f a env (m env w).1
                | err e ↦ (err e, (m env w).1)
              ]).1) [
                | ok a ↦
                    Frame-chain w (m env w).1 (f a env (m env w).1).1 (hm.runs env w)
                      ((hf a).runs env (m env w).1)
                | err e ↦ hm.runs env w
              ];
  }

  -- The rest of a program may use what the first part has returned.
  pub Framed-bind_known :
      {A B : Type 0} {m : Program A} {f : A → Program B}
      → Framed m
      → ((a : A) (env : Env) (w : World) → (m env w).0 ≡ ok a → Framed (f a))
      → Framed (m >>= f)
  unfolding ◌>>=◌
  Framed-bind_known {A} {B} {m} {f} hm hf = record {
    runs = λ env w.
        (elim ((m env w).0)
            as (λ r.
              (m env w).0 ≡ r
              → Frame w
                  (elim r as (λ r. Result B × World) [
                    | ok a ↦ f a env (m env w).1
                    | err e ↦ (err e, (m env w).1)
                  ]).1) [
                    | ok a ↦ λ e.
                        Frame-chain w (m env w).1 (f a env (m env w).1).1 (hm.runs env w)
                          ((hf a env w e).runs env (m env w).1)
                    | err e ↦ λ k. hm.runs env w
                  ])
          refl;
  }
