-- ===== src/Store/Tokens/Once.antt =====
-- What a one-time token is worth: internal/store/store.go, `ConsumeOneTimeToken` and
-- `ReplaceOneTimeToken`.
use batch_managementof_cloud.Prelude.{
  ℕ, List, Option-cases, String, [], arith, find_where, inl, inr, none, refl, some, update_where,
  ◌∷◌, ◌≡◌, ◌≤◌, delete_where, ◌&&◌, ◌==◌, Option, ap, subst, sym, ◌∙◌,
}
use batch_managementof_cloud.Model.Failure.{err, not_found, ok, Result}
use batch_managementof_cloud.Store.{Db, Purpose, TokenRow}
use batch_managementof_cloud.Store.Tokens.{consume_one_time_token, is_usable, same_purpose}

-- A search that meets nothing now meets nothing after the rows that it could meet are marked.
nothing_left :
    (now later : ℕ) (token_hash : String) (purpose : Purpose) (ts : List TokenRow)
    → now ≤ later
    → find_where (is_usable later token_hash purpose) (
        update_where
          (is_usable now token_hash purpose)
          (λ u. record u { consumed_at = some now })
          ts)
      ≡ none
nothing_left now later token_hash purpose [] h = refl
nothing_left now later token_hash purpose (t ∷ ts) h =
    ground (arith, nothing_left now later token_hash purpose ts h)

none_later :
    (now later : ℕ) (token_hash : String) (purpose : Purpose) (ts : List TokenRow)
    → now ≤ later
    → find_where (is_usable now token_hash purpose) ts ≡ none
    → find_where (is_usable later token_hash purpose) ts ≡ none
none_later now later token_hash purpose [] h e = refl
none_later now later token_hash purpose (t ∷ ts) h e =
    ground (arith, none_later now later token_hash purpose ts h)

consume_none :
    (db : Db) (now : ℕ) (token_hash : String) (purpose : Purpose)
    → find_where (is_usable now token_hash purpose) db.one_time_tokens ≡ none
    → consume_one_time_token db now token_hash purpose ≡ (err not_found, db)
unfolding consume_one_time_token
consume_none db now token_hash purpose e = rw (consume_one_time_token, e) refl

-- The database after a token is consumed.
abbrev consumed : Db → ℕ → String → Purpose → Db
consumed db now token_hash purpose = record db {
  one_time_tokens =
      update_where (is_usable now token_hash purpose) (λ u. record u { consumed_at = some now })
        db.one_time_tokens;
}

consume_some :
    (db : Db) (now : ℕ) (token_hash : String) (purpose : Purpose) (t : TokenRow)
    → find_where (is_usable now token_hash purpose) db.one_time_tokens ≡ some t
    → consume_one_time_token db now token_hash purpose
      ≡ (ok t.user_id, consumed db now token_hash purpose)
unfolding consume_one_time_token
consume_some db now token_hash purpose t e = rw (consume_one_time_token, e) refl

-- A token is worth one use: after an attempt to consume it, whether it succeeds or not, each later
-- attempt with the same hash and purpose is refused with `not_found` and changes nothing.
pub consume_one_time_token-once :
    (db : Db) (now later : ℕ) (token_hash : String) (purpose : Purpose)
    → now ≤ later
    → consume_one_time_token
        (consume_one_time_token db now token_hash purpose).1
        later
        token_hash
        purpose
      ≡ (err not_found, (consume_one_time_token db now token_hash purpose).1)
consume_one_time_token-once db now later token_hash purpose h =
    elim (Option-cases (find_where (is_usable now token_hash purpose) db.one_time_tokens)) [
      | inl e ↦ rw (consume_none db now token_hash purpose e) (
          consume_none db later token_hash purpose
            (none_later now later token_hash purpose db.one_time_tokens h e))
      | inr (t, e) ↦ rw (consume_some db now token_hash purpose t e) (
          consume_none (consumed db now token_hash purpose) later token_hash purpose
            (nothing_left now later token_hash purpose db.one_time_tokens h))
    ]

-- The rows that `ReplaceOneTimeToken` leaves are those of other users and other purposes.
others : ℕ → Purpose → List TokenRow → List TokenRow
others owner purpose = delete_where (λ t. t.user_id == owner && same_purpose t.purpose purpose)

not_mine :
    (now owner : ℕ) (token_hash : String) (purpose : Purpose) (ts : List TokenRow) (t : TokenRow)
    → find_where
        (is_usable now token_hash purpose)
        (delete_where (λ t. t.user_id == owner && same_purpose t.purpose purpose) ts)
      ≡ some t
    → ¬ (t.user_id ≡ owner)
not_mine now owner token_hash purpose [] t h = cc
not_mine now owner token_hash purpose (r ∷ ts) t h =
    ground (arith, not_mine now owner token_hash purpose ts t)

-- A token that was consumed is not accepted again.
abbrev pub IsSpent : Db → ℕ → String → Purpose → Type 0
IsSpent db now token_hash purpose =
    (later : ℕ)
    → now ≤ later
    → (consume_one_time_token db later token_hash purpose).0 ≡ err not_found

pub consumed-IsSpent :
    (db after : Db) (now owner : ℕ) (token_hash : String) (purpose : Purpose)
    → consume_one_time_token db now token_hash purpose ≡ (ok owner, after)
    → IsSpent after now token_hash purpose
consumed-IsSpent db after now owner token_hash purpose e later h =
    subst (λ (d : Db). (consume_one_time_token d later token_hash purpose).0 ≡ err not_found)
      (ap (λ (x : Result ℕ × Db). x.1) e)
      (ap (λ (x : Result ℕ × Db). x.0)
        (consume_one_time_token-once db now later token_hash purpose h))

abbrev pub owner_of : Option TokenRow → Result ℕ
owner_of none = err not_found
owner_of (some t) = ok t.user_id

pub consume-owner_of :
    (db : Db) (now : ℕ) (token_hash : String) (purpose : Purpose)
    → (consume_one_time_token db now token_hash purpose).0
      ≡ owner_of (find_where (is_usable now token_hash purpose) db.one_time_tokens)
unfolding consume_one_time_token
consume-owner_of db now token_hash purpose =
    elim (Option-cases (find_where (is_usable now token_hash purpose) db.one_time_tokens)) [
      | inl e ↦ rw (consume_one_time_token, e) refl
      | inr (t, e) ↦ rw (consume_one_time_token, e) refl
    ]

pub consume-users :
    (db : Db) (now : ℕ) (token_hash : String) (purpose : Purpose)
    → (consume_one_time_token db now token_hash purpose).1.users ≡ db.users
unfolding consume_one_time_token
consume-users db now token_hash purpose =
    elim (Option-cases (find_where (is_usable now token_hash purpose) db.one_time_tokens)) [
      | inl e ↦ rw (consume_one_time_token, e) refl
      | inr (t, e) ↦ rw (consume_one_time_token, e) refl
    ]

-- A token that is spent stays so when other tables change.
pub IsSpent-tokens :
    (db db' : Db) (now : ℕ) (token_hash : String) (purpose : Purpose)
    → db.one_time_tokens ≡ db'.one_time_tokens
    → IsSpent db now token_hash purpose
    → IsSpent db' now token_hash purpose
IsSpent-tokens db db' now token_hash purpose same spent later h =
    consume-owner_of db' later token_hash purpose
    ∙ ap (λ ts. owner_of (find_where (is_usable later token_hash purpose) ts)) (sym same)
    ∙ sym (consume-owner_of db later token_hash purpose)
    ∙ spent later h
