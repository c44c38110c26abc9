-- ===== src/Security/Base64.antt =====
-- Base64 without padding, as `RawStdEncoding` and `RawURLEncoding` of Go's encoding/base64 have it,
-- which internal/security/security.go uses. A byte is a number below 256.
use Prim.Native.Char.{Char, code}
use batch_managementof_cloud.Prelude.{
  ℕ, All, Bool, Bool-cases, List, Option, String, [], arith, digits, false, if◌then◌else◌, inl, inr,
  none, not, refl, some, suc, true, zero, ◌%◌, ◌&&◌, ◌*◌, ◌+◌, ◌/◌, ◌<◌, ◌==◌, ◌||◌, ◌∷◌, ◌≡◌,
}
use batch_managementof_cloud.Security.{char_at}

abbrev pub std_alphabet : String
std_alphabet = "ABCDEFGHIJKLMNOPQRSTUVWXYZabcdefghijklmnopqrstuvwxyz0123456789+/"

abbrev pub url_alphabet : String
url_alphabet = "ABCDEFGHIJKLMNOPQRSTUVWXYZabcdefghijklmnopqrstuvwxyz0123456789-_"

-- Three bytes are four digits; what is left at the end is one or two bytes.
unfoldable pub digits_of : List ℕ → List ℕ
digits_of [] = []
digits_of (a ∷ []) = (a / 4) ∷ (a % 4 * 16) ∷ []
digits_of (a ∷ b ∷ []) = (a / 4) ∷ (a % 4 * 16 + b / 16) ∷ (b % 16 * 4) ∷ []
digits_of (a ∷ b ∷ c ∷ bytes) =
    (a / 4) ∷ (a % 4 * 16 + b / 16) ∷ (b % 16 * 4 + c / 64) ∷ (c % 64) ∷ digits_of bytes

unfoldable pub spell_digits : String → List ℕ → String
spell_digits digits [] = String.[]
spell_digits digits (d ∷ ds) = String.◌∷◌ (char_at "A" d digits) (spell_digits digits ds)

-- `EncodeToString`
unfoldable pub encode64 : String → List ℕ → String
encode64 digits bytes = spell_digits digits (digits_of bytes)

-- Where a character stands in the alphabet.
unfoldable pub index_from : ℕ → String → Char → Option ℕ
index_from n String.[] c = none
index_from n (String.◌∷◌ d s) c =
    let rest = index_from (n + 1) s c in if code c == code d then some n else rest

abbrev pub prepend : {A : Type 0} → A → Option (List A) → Option (List A)
prepend a none = none
prepend a (some rest) = some (a ∷ rest)

-- The digits of a text, which may have line breaks.
unfoldable pub read_digits : String → String → Option (List ℕ)
read_digits digits String.[] = some []
read_digits digits (String.◌∷◌ c s) =
    let rest = read_digits digits s in
    if code c == 10 || code c == 13
    then rest
    else elim (index_from 0 digits c) [ none ↦ none | some d ↦ prepend d rest ]

unfoldable pub bytes_of : List ℕ → Option (List ℕ)
bytes_of [] = some []
bytes_of (d ∷ []) = none
bytes_of (d ∷ e ∷ []) = some ((d * 4 + e / 16) ∷ [])
bytes_of (d ∷ e ∷ f ∷ []) = some ((d * 4 + e / 16) ∷ (e % 16 * 16 + f / 4) ∷ [])
bytes_of (d ∷ e ∷ f ∷ g ∷ ds) =
    let rest = bytes_of ds in
    prepend (d * 4 + e / 16) (prepend (e % 16 * 16 + f / 4) (prepend (f % 4 * 64 + g) rest))

abbrev pub and_then : Option (List ℕ) → Option (List ℕ)
and_then none = none
and_then (some ds) = bytes_of ds

-- `DecodeString`
unfoldable pub decode64 : String → String → Option (List ℕ)
decode64 digits s = and_then (read_digits digits s)

abbrev pub IsByte : ℕ → Type 0
IsByte b = b < 256

abbrev pub all_below : ℕ → (ℕ → Bool) → Bool
all_below zero p = true
all_below (suc n) p = p n && all_below n p

below : (k : ℕ) (p : ℕ → Bool) → all_below k p ≡ true → (n : ℕ) → n < k → p n ≡ true
below zero p h n l = absurd (omega arith)
below (suc k) p h n l = elim (Bool-cases (n == k)) [
  | inl e ↦ let same : n ≡ k = ground arith in rw same (ground arith)
  | inr e ↦ below k p (ground arith) n (ground arith)
]

abbrev is_some_of : ℕ → Option ℕ → Bool
is_some_of n none = false
is_some_of n (some m) = m == n

some_of : (n : ℕ) (o : Option ℕ) → is_some_of n o ≡ true → o ≡ some n
some_of n o h = ground arith

-- A digit's character is read as the digit, is no line break and no `$`.
abbrev is_good : ℕ → Bool
is_good n =
    let c = char_at "A" n std_alphabet in
    is_some_of n (index_from 0 std_alphabet c)
    && not (code c == 10 || code c == 13)
    && not (code c == 36)

good : all_below 64 is_good ≡ true
unfolding index_from
good = refl

pub digit_char :
    (n : ℕ)
    → n < 64
    → let c = char_at "A" n std_alphabet in
      (index_from 0 std_alphabet c ≡ some n)
      × ((code c == 10 || code c == 13) ≡ false)
      × ((code c == 36) ≡ false)
digit_char n l =
    let h = below 64 is_good good n l in
    let c = char_at "A" n std_alphabet in
    split (is_some_of n (index_from 0 std_alphabet c)) (code c == 10 || code c == 13) (code c == 36)
      h (some_of n (index_from 0 std_alphabet c))
  where
    split :
        {P : Type 0} (a b c : Bool)
        → (a && not b && not c) ≡ true
        → (a ≡ true → P)
        → P × (b ≡ false) × (c ≡ false)
    split true false false h f = (f refl, refl, refl)
    split true true c h f = absurd (ground arith)
    split true false true h f = absurd (ground arith)
    split false b c h f = absurd (ground arith)

pub read_digits-spell_digits :
    (ds : List ℕ)
    → All (λ d. d < 64) ds
    → read_digits std_alphabet (spell_digits std_alphabet ds) ≡ some ds
unfolding read_digits spell_digits
read_digits-spell_digits [] h = refl
read_digits-spell_digits (d ∷ ds) h =
    let (index, no_break, no_dollar) = digit_char d h.0 in
    rw (no_break, index, read_digits-spell_digits ds h.1)

pub digits_of-small : (bytes : List ℕ) → All IsByte bytes → All (λ d. d < 64) (digits_of bytes)
unfolding digits_of
digits_of-small [] h = tt
digits_of-small (a ∷ []) h = (omega arith, (omega arith, tt))
digits_of-small (a ∷ b ∷ []) h = (omega arith, (omega arith, (omega arith, tt)))
digits_of-small (a ∷ b ∷ c ∷ bytes) h =
    (omega arith, (omega arith, (omega arith, (omega arith, digits_of-small bytes h.1.1.1))))

pub bytes_of-digits_of :
    (bytes : List ℕ) → All IsByte bytes → bytes_of (digits_of bytes) ≡ some bytes
unfolding digits_of bytes_of
bytes_of-digits_of [] h = refl
bytes_of-digits_of (a ∷ []) h = let e : a / 4 * 4 + a % 4 * 16 / 16 ≡ a = omega arith in rw e
bytes_of-digits_of (a ∷ b ∷ []) h =
    let e : a / 4 * 4 + (a % 4 * 16 + b / 16) / 16 ≡ a = omega arith in
    let f : (a % 4 * 16 + b / 16) % 16 * 16 + b % 16 * 4 / 4 ≡ b = omega arith in rw (e, f)
bytes_of-digits_of (a ∷ b ∷ c ∷ bytes) h =
    let e : a / 4 * 4 + (a % 4 * 16 + b / 16) / 16 ≡ a = omega arith in
    let f : (a % 4 * 16 + b / 16) % 16 * 16 + (b % 16 * 4 + c / 64) / 4 ≡ b = omega arith in
    let g : (b % 16 * 4 + c / 64) % 4 * 64 + c % 64 ≡ c = omega arith in
    rw (e, f, g, bytes_of-digits_of bytes h.1.1.1)

-- What is encoded decodes to itself.
pub decode64-encode64 :
    (bytes : List ℕ)
    → All IsByte bytes
    → decode64 std_alphabet (encode64 std_alphabet bytes) ≡ some bytes
unfolding decode64 encode64
decode64-encode64 bytes h =
    rw (read_digits-spell_digits (digits_of bytes) (digits_of-small bytes h))
      (bytes_of-digits_of bytes h)
