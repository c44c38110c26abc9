-- ===== src/Security/Passwords.antt =====
-- `RandomToken`, `HashPassword` and `VerifyPassword` of internal/security/security.go. Argon2 is a
-- parameter.
pub mod Roundtrip
use Prim.Native.Char.{code}
use Prim.Native.String.{len}
use batch_managementof_cloud.Prelude.{
  ℕ, Bool, List, Option, String, [], false, if◌then◌else◌, leb, length, ltb, none, some, str_eq,
  true, ◌%◌, ◌&&◌, ◌*◌, ◌+◌, ◌-◌, ◌==◌, ◌||◌, ◌∷◌, ◌≡◌, if_both, append_text, Bool-cases, inl, inr,
  refl,
}
use batch_managementof_cloud.Model.Failure.{Error, Result, ok, err}
use batch_managementof_cloud.Security.Base64.{decode64, encode64, std_alphabet, url_alphabet}
use batch_managementof_cloud.Store.{Db}
use batch_managementof_cloud.Effects.{
  Env, Program, World, pure, raise, random_bytes, with_env, ◌>>=◌, after_tick,
}
use batch_managementof_cloud.Effects.Keeps.{
  Keeps, Keeps-bind, Keeps-pure, Keeps-raise, Keeps-random_bytes, Keeps-with_env,
}

-- `RandomToken`
unfoldable pub random_token : ℕ → Program String
random_token count = do bytes ← random_bytes count; pure (encode64 url_alphabet bytes)

abbrev pub Argon2 : Type 0
Argon2 = String → List ℕ → ℕ → ℕ → ℕ → ℕ → List ℕ

-- The text that `HashPassword` makes of a salt and a hash.
unfoldable pub encode_hash : List ℕ → List ℕ → String
encode_hash salt hash =
    append_text "$argon2id$v=19$m=65536,t=3,p=2$"
      (append_text (encode64 std_alphabet salt) (String.◌∷◌ "$" (encode64 std_alphabet hash)))

abbrev pub bad_length : String → Bool
bad_length password = ltb (len password) 12 || ltb 128 (len password)

-- `HashPassword`
unfoldable pub hash_password : String → Program String
hash_password password =
    if bad_length password
    then raise (Error.text "password must be between 12 and 128 characters")
    else do
      salt ← random_bytes 16
      with_env λ env. pure (encode_hash salt (env.argon2 password salt 3 65536 2 32))

abbrev pub longer : String → List String → List String
longer s [] = s ∷ []
longer s (part ∷ parts) = append_text s part ∷ parts

-- `strings.Split(s, "$")`
unfoldable pub split_dollar : String → List String
split_dollar String.[] = String.[] ∷ []
split_dollar (String.◌∷◌ c s) =
    let parts = split_dollar s in
    if code c == 36 then String.[] ∷ parts else longer (String.◌∷◌ c String.[]) parts

abbrev is_digit : ℕ → Bool
is_digit c = leb 48 c && leb c 57

-- The number that a text begins with, after the digits that were read, and what is left.
abbrev pub scan_digits : ℕ → String → ℕ × String
scan_digits n String.[] = (n, String.[])
scan_digits n (String.◌∷◌ c s) =
    let more = scan_digits (10 * n + (code c - 48)) s in
    if is_digit (code c) then more else (n, String.◌∷◌ c s)

abbrev pub skip_blanks : String → String
skip_blanks String.[] = String.[]
skip_blanks (String.◌∷◌ c s) =
    let rest = skip_blanks s in if code c == 32 then rest else String.◌∷◌ c s

-- `%d` into an unsigned type whose values are below a bound.
abbrev pub scan_number : ℕ → String → Option (ℕ × String)
scan_number bound String.[] = none
scan_number bound (String.◌∷◌ c s) =
    let more = scan_digits 0 (String.◌∷◌ c s) in
    if is_digit (code c) && ltb more.0 bound then some more else none

-- A literal of the format.
abbrev pub scan_literal : String → String → Option String
scan_literal String.[] s = some s
scan_literal (String.◌∷◌ d literal) String.[] = none
scan_literal (String.◌∷◌ d literal) (String.◌∷◌ c s) =
    let rest = scan_literal literal s in if code c == code d then rest else none

abbrev pub scan_field : String → ℕ → String → Option (ℕ × String)
scan_field literal bound s = elim (scan_literal literal s) [
  | none ↦ none
  | some rest ↦ scan_number bound (skip_blanks rest)
]

-- `fmt.Sscanf(s, "m=%d,t=%d,p=%d", …)` into two `uint32` and a `uint8`.
unfoldable pub scan_costs : String → Option (ℕ × ℕ × ℕ)
scan_costs s = elim (scan_field "m=" 4294967296 s) [
  | none ↦ none
  | some (memory, after) ↦ elim (scan_field ",t=" 4294967296 after) [
    | none ↦ none
    | some (iterations, later) ↦ elim (scan_field ",p=" 256 later) [
      | none ↦ none
      | some (parallelism, rest) ↦ some (memory, iterations, parallelism)
    ]
  ]
]

-- `subtle.ConstantTimeCompare(a, b) == 1`
abbrev pub same_bytes : List ℕ → List ℕ → Bool
same_bytes [] [] = true
same_bytes [] (b ∷ bs) = false
same_bytes (a ∷ rest) [] = false
same_bytes (a ∷ rest) (b ∷ bs) = a == b && same_bytes rest bs

abbrev pub matches : Argon2 → String → Option (ℕ × ℕ × ℕ) → Option (List ℕ) → Option (List ℕ) → Bool
matches argon2 password (some (memory, iterations, parallelism)) (some salt) (some expected) =
    same_bytes (argon2 password salt iterations memory parallelism (length expected % 4294967296))
      expected
matches argon2 password _ _ _ = false

-- The parts between the signs, when there are six.
abbrev pub verify_parts : Argon2 → String → List String → Bool
verify_parts argon2 password (blank ∷ algorithm ∷ version ∷ costs ∷ salt ∷ hash ∷ []) =
    str_eq algorithm "argon2id"
    && matches argon2 password (scan_costs costs) (decode64 std_alphabet salt)
        (decode64 std_alphabet hash)
verify_parts argon2 password _ = false

-- `VerifyPassword`
unfoldable pub verify_password : Argon2 → String → String → Bool
verify_password argon2 encoded password = verify_parts argon2 password (split_dollar encoded)

pub random_token-db : (count : ℕ) (env : Env) (w : World) → (random_token count env w).1.db ≡ w.db
unfolding random_token
random_token-db count =
    (Keeps-bind (λ db. db) (Keeps-random_bytes (λ db. db) count)
      (λ bytes. Keeps-pure (λ db. db) String _)).same

pub Keeps-hash_password :
    {X : Type 0} (f : Db → X) (password : String) → Keeps f (hash_password password)
unfolding hash_password
Keeps-hash_password f password =
    if_both (Keeps f) (bad_length password) _ _ (Keeps-raise f String _)
      (Keeps-bind f (Keeps-random_bytes f 16) λ salt. Keeps-with_env f λ env. Keeps-pure f String _)

-- A password that is hashed costs one effect, the draw of its salt.
pub hash_password-tick :
    (password hash : String) (env : Env) (w : World)
    → (hash_password password env w).0 ≡ ok hash
    → (hash_password password env w).1.tick ≡ w.tick + 1
unfolding hash_password random_bytes with_env pure raise ◌>>=◌
hash_password-tick password hash env w h = elim (Bool-cases (bad_length password)) [
  | inl bad ↦ absurd (not_hashed (rw bad at h))
  | inr good ↦
      rw good
        (elim (env.random w.tick 16)
          as (λ (r : Result (List ℕ)).
            (elim r as (λ r. Result String × World) [
              | ok salt ↦
                  (ok (encode_hash salt (env.argon2 password salt 3 65536 2 32)), after_tick w)
              | err e ↦ (err e, after_tick w)
            ]).1.tick
            ≡ w.tick + 1) [ ok salt ↦ refl | err e ↦ refl ])
]
  where
    not_hashed : {e : Error} → ◌≡◌ {A = Result String} (err e) (ok hash) → ⊥
    not_hashed e = cc
