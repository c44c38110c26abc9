-- ===== src/Prelude/Parse.antt =====
-- What the program uses of Go's `strconv`: `Atoi` and `ParseInt(…, 10, 64)`.
use Prim.Native.Nat.{ℕ, zero, suc, ◌+◌, ◌-◌, ◌*◌, ◌/◌, ◌%◌}
use Prim.Native.Char.{Char, code}
use Prim.Native.String.{String}
use mathlib.Core.Bool.{true, false, ◌&&◌}
use mathlib.Core.Option.{Option, none, some}
use batch_managementof_cloud.Prelude.Tests.{leb, ltb, ◌==◌, if◌then◌else◌}
use batch_managementof_cloud.Prelude.Text.{is_blank}
use batch_managementof_cloud.Prelude.Int.{ℤ, pos, negsuc, sub_ℕ, leb_ℤ}

-- The number that the digits spell after those that were read, if all are digits.
abbrev pub digits : ℕ → String → Option ℕ
digits n String.[] = some n
digits n (String.◌∷◌ c s) =
    let rest = digits (10 * n + (code c - 48)) s in
    if leb 48 (code c) && leb (code c) 57 then rest else none

abbrev pub number : String → Option ℕ
number s = if is_blank s then none else digits 0 s

-- A sign and digits, of any length.
abbrev pub scan_int : String → Option ℤ
scan_int String.[] = none
scan_int (String.◌∷◌ c s) =
    if code c == 45
    then elim (number s) [ none ↦ none | some n ↦ some (sub_ℕ 0 n) ]
    else if code c == 43
    then elim (number s) [ none ↦ none | some n ↦ some (pos n) ]
    else elim (digits 0 (String.◌∷◌ c s)) [ none ↦ none | some n ↦ some (pos n) ]

abbrev pub max_int : ℤ
max_int = pos 9223372036854775807

abbrev pub min_int : ℤ
min_int = negsuc 9223372036854775807

-- `strconv.Atoi`, with `none` for an error.
unfoldable pub atoi : String → Option ℤ
atoi s = elim (scan_int s) [
  | none ↦ none
  | some n ↦ if leb_ℤ min_int n && leb_ℤ n max_int then some n else none
]

-- The value of `strconv.Atoi` when its error is dropped: 0 for a text that is no number, and the
-- nearest `int64` for one that is out of range.
unfoldable pub atoi_value : String → ℤ
atoi_value s = elim (scan_int s) [
  | none ↦ pos 0
  | some n ↦ if leb_ℤ n max_int then if leb_ℤ min_int n then n else min_int else max_int
]

-- The decimal digits of a number in front of a text, at most `room` of them.
unfoldable pub decimal : ℕ → ℕ → String → String
decimal zero n s = s
decimal (suc room) n s =
    let t = String.◌∷◌ (digit (n % 10)) s in
    elim (ltb n 10) [ true ↦ t | false ↦ decimal room (n / 10) t ]
  where
    pick : ℕ → String → Char
    pick n String.[] = "0"
    pick zero (String.◌∷◌ c s) = c
    pick (suc n) (String.◌∷◌ c s) = pick n s

    digit : ℕ → Char
    digit n = pick n "0123456789"

-- `strconv.FormatInt(…, 10)` and `strconv.Itoa`; a 64-bit number has at most 19 digits.
unfoldable pub format_int : ℤ → String
format_int (pos n) = decimal 20 n String.[]
format_int (negsuc n) = String.◌∷◌ "-" (decimal 20 (n + 1) String.[])
