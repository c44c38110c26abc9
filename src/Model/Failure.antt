-- ===== src/Model/Failure.antt =====
-- Go errors as values. An error that only carries a text is `text`, one that `fmt.Errorf` makes
-- with `%w` is `wrap`, and one whose text has arguments has a constructor for them.
use batch_managementof_cloud.Prelude.{ℕ, String, Bool, true, false, ℤ}

-- `digitalocean.APIError`
pub record ApiError : Type 0 where
  pub status_code : ℕ
  pub id : String
  pub message : String
  pub request_id : String

pub data Error : Type 0 where
  -- `store.ErrNotFound`
  not_found : Error
  -- A statement that the database could not run.
  db_failure : Error
  -- A statement that a unique index, a foreign key or a CHECK constraint refuses.
  unique_violation foreign_key_violation check_violation : Error
  canceled : Error
  -- A response that does not decode.
  decode_failure : Error
  api : ApiError → Error
  text : String → Error
  with_value : String → String → Error
  with_numbers : String → ℤ → ℤ → ℤ → Error
  wrap : String → Error → Error
  join : Error → Error → Error

pub data Result (A : Type 0) : Type 0 where
  ok : A → Result A
  err : Error → Result A

abbrev pub is_ok : {A : Type 0} → Result A → Bool
is_ok (ok _) = true
is_ok (err _) = false

-- A successful result keeps its value through a function on it.
abbrev pub map_ok : {A B : Type 0} → (A → B) → Result A → Result B
map_ok f (ok a) = ok (f a)
map_ok f (err e) = err e
