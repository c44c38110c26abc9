-- ===== src/Security.antt =====
-- The passwords of internal/security/security.go. The cipher, the hashes and the random source are
-- the libraries'.
pub mod Base64
pub mod Passwords
mod Tests
use Prim.Native.Char.{Char}
use Prim.Native.String.{len}
use batch_managementof_cloud.Prelude.{ℕ, List, String, [], if◌then◌else◌, ltb, suc, zero, ◌%◌, ◌∷◌}
use batch_managementof_cloud.Effects.{Program, pure, ◌>>=◌, random_bytes}

abbrev pub alphabet : String
alphabet = "ABCDEFGHJKLMNPQRSTUVWXYZabcdefghijkmnopqrstuvwxyz23456789!@#%+=_-"

-- `s[n]`, for a text of at least one character.
abbrev pub char_at : Char → ℕ → String → Char
char_at last n String.[] = last
char_at last zero (String.◌∷◌ c s) = c
char_at last (suc n) (String.◌∷◌ c s) = char_at c n s

abbrev pub spell : List ℕ → String
spell [] = String.[]
spell (b ∷ bytes) = String.◌∷◌ (char_at "A" (b % len alphabet) alphabet) (spell bytes)

abbrev pub password_length : ℕ → ℕ
password_length most = if ltb most 20 then 20 else most

-- `GenerateRootPassword`
unfoldable pub generate_root_password : ℕ → Program String
generate_root_password most = do bytes ← random_bytes (password_length most); pure (spell bytes)
