-- ===== src/Effects.antt =====
-- Programs over the database and the provider. A program runs in an environment that decides what
-- it cannot: which statements fail, what the clock says, which ids `gen_random_uuid()` gives, what
-- the provider replies, and what the cipher and the random source give. Each of them is a function
-- of the number of the effect, so that no two effects need agree.
pub mod Frame
pub mod Yields
pub mod Runs
pub mod Keeps
use batch_managementof_cloud.Mail.{SmtpStep}
use batch_managementof_cloud.Prelude.{
  ℕ, Bool, List, Option, String, [], none, some, ℤ, ◌++◌, ◌+◌, ◌∷◌, if◌then◌else◌,
}
use batch_managementof_cloud.Model.Failure.{Error, Result, err, ok, canceled}
use batch_managementof_cloud.Store.{Db}
use batch_managementof_cloud.Provider.{Call, Reply}

pub record Env : Type 0 where
  -- A statement that fails with this error changes nothing.
  pub fault : ℕ → Option Error
  pub clock : ℕ → ℕ
  pub uuid : ℕ → ℕ → ℕ
  pub http : ℕ → Call → Result Reply
  -- `ctx.Done()`
  pub is_canceled : ℕ → Bool
  -- AES-GCM: ciphertext, nonce and additional data, or plaintext and additional data.
  pub open_secret : String → String → String → Result String
  pub seal_secret : ℕ → String → String → Result (String × String)
  -- `rand.Read` of a number of bytes.
  pub random : ℕ → ℕ → Result (List ℕ)
  -- `strconv.ParseFloat`, in millionths.
  pub parse_float : String → Option ℤ
  -- `url.Parse` and `RequestURI`, when the link parses.
  pub request_uri : String → Option String
  -- The texts that `fmt` makes: `BuildRootPasswordCloudInit`, the additional data of a password,
  -- and the name of a snapshot.
  pub cloud_init : String → String
  pub secret_name : ℕ → String
  pub snapshot_name : ℤ → ℕ → String
  -- The text of a uuid.
  pub id_text : ℕ → String
  -- `argon2.IDKey`: password, salt, iterations, memory, parallelism and length of the key.
  pub argon2 : String → List ℕ → ℕ → ℕ → ℕ → ℕ → List ℕ
  -- `HashToken`, a SHA-256, and `Fingerprint`, an HMAC.
  pub hash_token : String → String
  pub fingerprint : String → String
  -- `mail.ParseAddress`, when the text parses: its `Address`.
  pub parse_address : String → Option String
  -- `time.LoadLocation` finds the zone.
  pub has_location : String → Bool
  -- What a step of a mail's delivery gives.
  pub smtp : ℕ → SmtpStep → Result (Unit {0})

pub record World : Type 0 where
  pub db : Db
  -- How many effects there have been.
  pub tick : ℕ
  -- The calls to the provider, in order.
  pub calls : List Call
  -- The steps with the mail server, in order.
  pub mails : List SmtpStep

abbrev pub Program : Type 0 → Type 0
Program A = Env → World → Result A × World

abbrev pub after_tick : World → World
after_tick w = record w { tick = w.tick + 1 }

module _ {A : Type 0} where
  unfoldable pub pure : A → Program A
  pure a env w = (ok a, w)

  unfoldable pub raise : Error → Program A
  raise e env w = (err e, w)

  unfoldable pub of_result : Result A → Program A
  of_result r env w = (r, w)

  -- The result of a program whose caller looks at the error itself.
  unfoldable pub attempt : Program A → Program (Result A)
  attempt m env w = (ok (m env w).0, (m env w).1)

  -- One statement or transaction, given the time and the new ids.
  unfoldable pub statement : (ℕ → (ℕ → ℕ) → Db → Result A × Db) → Program A
  statement f env w = elim (env.fault w.tick) [
    | some e ↦ (err e, after_tick w)
    | none ↦
        let r = f (env.clock w.tick) (env.uuid w.tick) w.db in
        (r.0, record w { db = r.1; tick = w.tick + 1 })
  ]

  -- A statement that only reads.
  abbrev pub query : (ℕ → Db → Result A) → Program A
  query f = statement (λ now ids db. (f now db, db))

-- `time.Now()`
unfoldable pub read_clock : Program ℕ
read_clock env w = (ok (env.clock w.tick), after_tick w)

-- `httpClient.Do`
unfoldable pub send : Call → Program Reply
send c env w = (env.http w.tick c, record w { tick = w.tick + 1; calls = w.calls ++ c ∷ [] })

infixl 5 ◌>>=◌ ◌>>◌
unfoldable pub ◌>>=◌ : {A B : Type 0} → Program A → (A → Program B) → Program B
m >>= f = λ env w. elim (m env w).0 [ ok a ↦ f a env (m env w).1 | err e ↦ (err e, (m env w).1) ]

abbrev pub ◌>>◌ : {A B : Type 0} → Program A → Program B → Program B
m >> k = m >>= λ _. k

unfoldable pub with_env : {A : Type 0} → (Env → Program A) → Program A
with_env f env w = f env env w

-- `rand.Read`
unfoldable pub random_bytes : ℕ → Program (List ℕ)
random_bytes count env w = (env.random w.tick count, after_tick w)

-- `Manager.Decrypt`
unfoldable pub decrypt : String → String → String → Program String
decrypt ciphertext nonce context env w = (env.open_secret ciphertext nonce context, w)

-- `Manager.Encrypt`
unfoldable pub encrypt : String → String → Program (String × String)
encrypt plaintext context env w = (env.seal_secret w.tick plaintext context, after_tick w)

-- The `select` on `ctx.Done()` and a timer.
unfoldable pub sleep : Program (Unit {0})
sleep env w = (if env.is_canceled w.tick then err canceled else ok tt, after_tick w)

-- One step with the mail server.
unfoldable pub smtp_step : SmtpStep → Program (Unit {0})
smtp_step s env w = (env.smtp w.tick s, record w { tick = w.tick + 1; mails = w.mails ++ s ∷ [] })
