-- ===== src/Store/Tokens.antt =====
-- One-time tokens: `CreateOneTimeToken`, `ReplaceOneTimeToken` and `ConsumeOneTimeToken` of
-- internal/store/store.go.
pub mod Once
use batch_managementof_cloud.Prelude.{
  Bool, Option, String, [], delete_where, exists_where, false, find_where, if◌then◌else◌, ltb, none,
  some, str_eq, true, update_where, ℕ, ◌&&◌, ◌++◌, ◌+◌, ◌==◌, ◌||◌, ◌∷◌,
}
use batch_managementof_cloud.Model.Failure.{
  Result, err, foreign_key_violation, not_found, ok, unique_violation,
}
use batch_managementof_cloud.Model.Records.{User}
use batch_managementof_cloud.Store.{Db, Purpose, TokenRow, reset_password, verify_email}

abbrev pub same_purpose : Purpose → Purpose → Bool
same_purpose verify_email verify_email = true
same_purpose reset_password reset_password = true
same_purpose _ _ = false

-- `CreateOneTimeToken`. The id is the one that `gen_random_uuid()` gives.
unfoldable pub create_one_time_token :
    Db → ℕ → ℕ → ℕ → Purpose → String → ℕ → Result (Unit {0}) × Db
create_one_time_token db now id owner purpose token_hash ttl =
    let row : TokenRow = record {
      id = id;
      user_id = owner;
      purpose = purpose;
      token_hash = token_hash;
      expires_at = now + ttl;
      consumed_at = none;
      created_at = now;
    } in
    if exists_where (λ (t : TokenRow). str_eq t.token_hash token_hash || t.id == id)
      db.one_time_tokens
    then (err unique_violation, db)
    else if exists_where (λ (u : User). u.id == owner) db.users
    then (ok tt, record db { one_time_tokens = db.one_time_tokens ++ row ∷ [] })
    else (err foreign_key_violation, db)

-- A transaction keeps what it did only if its last step succeeds.
abbrev pub or_rollback : {A : Type 0} → Db → Result A × Db → Result A × Db
or_rollback before (ok a, after) = (ok a, after)
or_rollback before (err e, after) = (err e, before)

-- `ReplaceOneTimeToken`: one transaction, under an advisory lock on the user and the purpose.
unfoldable pub replace_one_time_token :
    Db → ℕ → ℕ → ℕ → Purpose → String → ℕ → Result (Unit {0}) × Db
replace_one_time_token db now id owner purpose token_hash ttl = or_rollback db (
    create_one_time_token
      (record db {
        one_time_tokens =
            delete_where (λ t. t.user_id == owner && same_purpose t.purpose purpose)
              db.one_time_tokens;
      })
      now id owner purpose token_hash ttl)

abbrev pub is_unused : Option ℕ → Bool
is_unused none = true
is_unused (some _) = false

-- `token_hash=$1 AND purpose=$2 AND consumed_at IS NULL AND expires_at>now()`
abbrev pub is_usable : ℕ → String → Purpose → TokenRow → Bool
is_usable now token_hash purpose t =
    str_eq t.token_hash token_hash
    && same_purpose t.purpose purpose
    && is_unused t.consumed_at
    && ltb now t.expires_at

-- `ConsumeOneTimeToken`
unfoldable pub consume_one_time_token : Db → ℕ → String → Purpose → Result ℕ × Db
consume_one_time_token db now token_hash purpose =
    elim (find_where (is_usable now token_hash purpose) db.one_time_tokens) [
      | none ↦ (err not_found, db)
      | some t ↦ (
        ok t.user_id,
        record db {
          one_time_tokens =
              update_where (is_usable now token_hash purpose)
                (λ u. record u { consumed_at = some now }) db.one_time_tokens;
        },
      )
    ]
