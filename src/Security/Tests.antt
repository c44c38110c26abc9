-- ===== src/Security/Tests.antt =====
-- Password hashes of internal/security/security.go at a concrete Argon2.
use batch_managementof_cloud.Prelude.{
  ◌∷◌, List, [], arith, false, none, refl, some, true, ℕ, ◌≡◌, All, subst, suc, zero, append_text,
}
use batch_managementof_cloud.Model.Failure.{Error, err, ok, Result}
use batch_managementof_cloud.Security.Base64.{IsByte, digits_of, encode64, spell_digits}
use batch_managementof_cloud.Security.Passwords.{encode_hash, hash_password, verify_password}
use batch_managementof_cloud.Security.Passwords.Roundtrip.{verify_password-hash_password}
use batch_managementof_cloud.Store.{empty_db}
use batch_managementof_cloud.Effects.{Env, World, pure, raise, random_bytes, with_env, ◌>>=◌}

abbrev copies : ℕ → ℕ → List ℕ
copies b zero = []
copies b (suc n) = b ∷ copies b n

copies-IsByte : (b n : ℕ) → IsByte b → All IsByte (copies b n)
copies-IsByte b zero h = tt
copies-IsByte b (suc n) h = (h, copies-IsByte b n h)

same_salt : {a b : List ℕ} → ◌≡◌ {A = Result (List ℕ)} (ok a) (ok b) → a ≡ b
same_salt e = cc

abbrev keyed : Env
keyed = record {
  fault = λ t. none;
  clock = λ t. t;
  uuid = λ t n. n;
  http = λ t c. err (Error.text "no network");
  is_canceled = λ t. false;
  open_secret = λ c n a. ok c;
  seal_secret = λ t p a. ok (p, "n");
  random = λ t n. ok (9 ∷ []);
  parse_float = λ s. none;
  request_uri = λ s. none;
  cloud_init = λ p. p;
  secret_name = λ n. "root_password";
  snapshot_name = λ d t. "snap";
  id_text = λ n. "id";
  argon2 = λ p s i m t k. copies 7 32;
  hash_token = λ t. t;
  fingerprint = λ t. t;
  parse_address = λ s. some s;
  has_location = λ s. true;
  smtp = λ t s. ok tt;
}

abbrev empty_world : World
empty_world = record { db = empty_db; tick = 0; calls = []; mails = [] }

verify_password-hash_password_example :
    verify_password keyed.argon2
      "$argon2id$v=19$m=65536,t=3,p=2$CQ$BwcHBwcHBwcHBwcHBwcHBwcHBwcHBwcHBwcHBwcHBwc"
      "a long password"
    ≡ true
unfolding hash_password with_env pure raise random_bytes encode_hash append_text encode64 digits_of
    spell_digits ◌>>=◌
verify_password-hash_password_example =
    verify_password-hash_password "a long password"
      "$argon2id$v=19$m=65536,t=3,p=2$CQ$BwcHBwcHBwcHBwcHBwcHBwcHBwcHBwcHBwcHBwcHBwc" keyed
      empty_world (λ salt. (refl, copies-IsByte 7 32 (omega arith)))
      (λ t count salt e. subst (All IsByte) (same_salt e) (copies-IsByte 9 1 (omega arith))) refl
