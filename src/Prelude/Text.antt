-- ===== src/Prelude/Text.antt =====
-- What the program uses of Go's `strings`: `TrimSpace`, `ToLower` and the order of `sort.Strings`.
use Prim.Native.Nat.{ℕ, zero, suc, ◌-◌}
use Prim.Native.Char.{Char, code}
use Prim.Native.String.{String}
use mathlib.Core.Path.{◌≡◌, refl}
use mathlib.Core.Logic.{◌⊎◌, inl, inr}
use mathlib.Core.Option.{Option, none, some}
use mathlib.Core.Bool.{Bool, true, false, ◌&&◌, ◌||◌}
use native.Mathlib.Omega.{arith}
use batch_managementof_cloud.Prelude.Tests.{ltb, leb, ◌==◌, if◌then◌else◌}

-- `unicode.IsSpace`
abbrev pub is_space : ℕ → Bool
is_space c =
    (leb 9 c && leb c 13)
    || c == 32
    || c == 0x85
    || c == 0xa0
    || c == 0x1680
    || (leb 0x2000 c && leb c 0x200a)
    || c == 0x2028
    || c == 0x2029
    || c == 0x202f
    || c == 0x205f
    || c == 0x3000

abbrev pub is_blank : String → Bool
is_blank String.[] = true
is_blank (String.◌∷◌ c s) = false

abbrev pub trim_left : String → String
trim_left String.[] = String.[]
trim_left (String.◌∷◌ c s) =
    let rest = trim_left s in if is_space (code c) then rest else String.◌∷◌ c s

abbrev pub trim_right : String → String
trim_right String.[] = String.[]
trim_right (String.◌∷◌ c s) =
    let rest = trim_right s in
    if is_space (code c) && is_blank rest then String.[] else String.◌∷◌ c rest

-- `strings.TrimSpace`
unfoldable pub trim_space : String → String
trim_space s = trim_right (trim_left s)

-- The order of `sort.Strings`: code point by code point, which is byte by byte in UTF-8.
unfoldable pub text_leb : String → String → Bool
text_leb String.[] t = true
text_leb (String.◌∷◌ c s) String.[] = false
text_leb (String.◌∷◌ c s) (String.◌∷◌ d t) =
    let rest = text_leb s t in
    if ltb (code c) (code d) then true else if code c == code d then rest else false

pub text_leb_total : (s t : String) → (text_leb s t ≡ true) ⊎ (text_leb t s ≡ true)
unfolding text_leb
text_leb_total String.[] t = inl refl
text_leb_total (String.◌∷◌ c s) String.[] = inr refl
text_leb_total (String.◌∷◌ c s) (String.◌∷◌ d t) = ground (arith, text_leb_total s t)

-- A text begins with another, as in `strings.HasPrefix`.
unfoldable pub has_prefix : String → String → Bool
has_prefix s String.[] = true
has_prefix String.[] (String.◌∷◌ d t) = false
has_prefix (String.◌∷◌ c s) (String.◌∷◌ d t) = code c == code d && has_prefix s t

pub text_leb_trans :
    (s t u : String) → text_leb s t ≡ true → text_leb t u ≡ true → text_leb s u ≡ true
unfolding text_leb
text_leb_trans String.[] t u h k = refl
text_leb_trans (String.◌∷◌ c s) String.[] u h k = cc
text_leb_trans (String.◌∷◌ c s) (String.◌∷◌ d t) String.[] h k = cc
text_leb_trans (String.◌∷◌ c s) (String.◌∷◌ d t) (String.◌∷◌ e u) h k =
    ground (arith, text_leb_trans s t u)

abbrev char_or : ℕ → String → Char → Char
char_or i String.[] d = d
char_or zero (String.◌∷◌ c s) d = c
char_or (suc i) (String.◌∷◌ c s) d = char_or i s d

abbrev pub lower_char : Char → Char
lower_char c =
    if leb b'A' (code c) && leb (code c) b'Z'
    then char_or (code c - b'A') "abcdefghijklmnopqrstuvwxyz" c
    else c

-- `strings.ToLower` on ASCII; a letter outside ASCII is kept.
unfoldable pub to_lower : String → String
to_lower String.[] = String.[]
to_lower (String.◌∷◌ c s) = String.◌∷◌ (lower_char c) (to_lower s)

-- `s + t`
unfoldable pub append_text : String → String → String
append_text String.[] t = t
append_text (String.◌∷◌ c s) t = String.◌∷◌ c (append_text s t)

-- `strings.Contains(s, string(c))`
abbrev pub has_char : ℕ → String → Bool
has_char wanted String.[] = false
has_char wanted (String.◌∷◌ c s) = let rest = has_char wanted s in code c == wanted || rest

-- `strings.Cut(s, string(c))`
abbrev pub cut_at : ℕ → String → Option (String × String)
cut_at wanted String.[] = none
cut_at wanted (String.◌∷◌ c s) =
    let rest = cut_at wanted s in
    if code c == wanted
    then some (String.[], s)
    else elim rest [ none ↦ none | some (before, after) ↦ some (String.◌∷◌ c before, after) ]

-- `strings.TrimPrefix(s, prefix)`
abbrev pub without : String → String → String
without String.[] s = s
without (String.◌∷◌ d prefix) String.[] = String.[]
without (String.◌∷◌ d prefix) (String.◌∷◌ c s) = without prefix s

abbrev pub trim_prefix : String → String → String
trim_prefix prefix s = if has_prefix s prefix then without prefix s else s

-- `strings.TrimRight` and `strings.Trim`, by a test on the characters of the set.
abbrev pub trim_right_of : (ℕ → Bool) → String → String
trim_right_of cut String.[] = String.[]
trim_right_of cut (String.◌∷◌ c s) =
    let rest = trim_right_of cut s in
    if cut (code c) && is_blank rest then String.[] else String.◌∷◌ c rest

abbrev pub trim_left_of : (ℕ → Bool) → String → String
trim_left_of cut String.[] = String.[]
trim_left_of cut (String.◌∷◌ c s) =
    let rest = trim_left_of cut s in if cut (code c) then rest else String.◌∷◌ c s

abbrev pub trim_of : (ℕ → Bool) → String → String
trim_of cut s = trim_right_of cut (trim_left_of cut s)
