-- ===== src/Security/Passwords/Roundtrip.antt =====
-- A password and its hash: `HashPassword` and `VerifyPassword` of internal/security/security.go.
use batch_managementof_cloud.Prelude.{
  ◌≡◌, All, Bool-cases, List, String, [], append_text, arith, inl, inr, length, refl, true, ℕ, ◌<◌,
  ◌∷◌,
}
use batch_managementof_cloud.Model.Failure.{Error, Result, err, ok}
use batch_managementof_cloud.Security.Base64.{
  IsByte, decode64-encode64, digit_char, digits_of, digits_of-small, encode64, spell_digits,
  std_alphabet,
}
use batch_managementof_cloud.Security.Passwords.{
  Argon2, bad_length, encode_hash, hash_password, same_bytes, scan_costs, split_dollar,
  verify_password,
}
use batch_managementof_cloud.Effects.{Env, World, pure, raise, random_bytes, with_env}
use batch_managementof_cloud.Effects.Runs.{bind_inverse}

same_bytes_refl : (bs : List ℕ) → same_bytes bs bs ≡ true
same_bytes_refl [] = refl
same_bytes_refl (b ∷ bs) = ground (arith, same_bytes_refl bs)

-- The digits of base64 hold no `$`.
split_dollar-spell_digits :
    (ds : List ℕ)
    → All (λ d. d < 64) ds
    → split_dollar (spell_digits std_alphabet ds) ≡ spell_digits std_alphabet ds ∷ []
unfolding split_dollar spell_digits append_text
split_dollar-spell_digits [] h = refl
split_dollar-spell_digits (d ∷ ds) h =
    let (index, no_break, no_dollar) = digit_char d h.0 in
    rw (no_dollar, split_dollar-spell_digits ds h.1) refl

split_dollar-append_text :
    (ds : List ℕ) (t : String)
    → All (λ d. d < 64) ds
    → split_dollar (append_text (spell_digits std_alphabet ds) (String.◌∷◌ "$" t))
      ≡ spell_digits std_alphabet ds ∷ split_dollar t
unfolding split_dollar spell_digits append_text
split_dollar-append_text [] t h = refl
split_dollar-append_text (d ∷ ds) t h =
    let (index, no_break, no_dollar) = digit_char d h.0 in
    rw (no_dollar, split_dollar-append_text ds t h.1) refl

-- The parts of what `HashPassword` returns.
split_dollar-encode_hash :
    (salt hash : List ℕ)
    → All IsByte salt
    → All IsByte hash
    → split_dollar (encode_hash salt hash)
      ≡ ""
        ∷ "argon2id"
        ∷ "v=19"
        ∷ "m=65536,t=3,p=2"
        ∷ encode64 std_alphabet salt
        ∷ encode64 std_alphabet hash
        ∷ []
unfolding encode_hash encode64 split_dollar append_text
split_dollar-encode_hash salt hash hs hh =
    rw
      (
        split_dollar-append_text (digits_of salt) (spell_digits std_alphabet (digits_of hash))
            (digits_of-small salt hs),
        split_dollar-spell_digits (digits_of hash) (digits_of-small hash hh),
      )
      refl

accepts :
    (argon2 : Argon2) (password : String) (salt hash : List ℕ)
    → hash ≡ argon2 password salt 3 65536 2 32
    → length hash ≡ 32
    → All IsByte salt
    → All IsByte hash
    → verify_password argon2 (encode_hash salt hash) password ≡ true
unfolding verify_password scan_costs
accepts argon2 password salt hash same size hs hh =
    rw
      (
        split_dollar-encode_hash salt hash hs hh,
        decode64-encode64 salt hs,
        decode64-encode64 hash hh,
        size,
        ← same,
      )
      (same_bytes_refl hash)

same_ok : {A : Type 0} {a b : A} → ◌≡◌ {A = Result A} (ok a) (ok b) → a ≡ b
same_ok h = cc

not_ok : {A : Type 0} {e : Error} {a : A} → ◌≡◌ {A = Result A} (err e) (ok a) → ⊥
not_ok e = cc

-- A password that was hashed verifies against its hash, whatever the salt, if Argon2 returns as many
-- bytes as it is asked for.
pub verify_password-hash_password :
    (password encoded : String) (env : Env) (w : World)
    → ((salt : List ℕ)
        → (length (env.argon2 password salt 3 65536 2 32) ≡ 32)
          × All IsByte (env.argon2 password salt 3 65536 2 32))
    → ((t count : ℕ) (salt : List ℕ) → env.random t count ≡ ok salt → All IsByte salt)
    → (hash_password password env w).0 ≡ ok encoded
    → verify_password env.argon2 encoded password ≡ true
unfolding hash_password with_env pure raise random_bytes
verify_password-hash_password password encoded env w keys bytes h =
    elim (Bool-cases (bad_length password)) [
      | inl bad ↦ absurd (not_ok (rw bad at h))
      | inr good ↦
          let hashed = λ (salt : List ℕ).
            with_env
              λ (env : Env). pure (encode_hash salt (env.argon2 password salt 3 65536 2 32)) in
          let (salt, drawn, made) =
            bind_inverse (random_bytes 16) hashed env w encoded (rw good at h) in
          let (size, each) = keys salt in
          rw (← same_ok made) (
            accepts env.argon2 password salt (env.argon2 password salt 3 65536 2 32) refl size
              (bytes w.tick 16 salt drawn) each)
    ]

-- A random token and a hash leave the tables alone.
