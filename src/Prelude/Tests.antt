-- ===== src/Prelude/Tests.antt =====
-- Boolean tests on numbers, texts and options, and the conditional.
use Prim.Native.Nat.{ℕ, ◌<◌, compare, Ordering}
use Prim.Native.String.{String}
use text.Mathlib.Text.{◌==◌ as text_beq}
use text.Mathlib.TextEquality.{eq_iff}
use mathlib.Core.Path.{◌≡◌, refl, sym}
use mathlib.Core.Logic.{◌↔◌, ◌⊎◌, inl, inr}
use mathlib.Core.Bool.{Bool, true, false}
use mathlib.Core.Option.{Option, none, some}
use native.Mathlib.Omega.{arith}

abbrev pub ltb : ℕ → ℕ → Bool
ltb a b = elim (compare a b) [ Ordering.lt ↦ true | _ ↦ false ]

abbrev pub leb : ℕ → ℕ → Bool
leb a b = elim (compare a b) [ Ordering.gt ↦ false | _ ↦ true ]

infix 50 ◌==◌
abbrev pub ◌==◌ : ℕ → ℕ → Bool
a == b = elim (compare a b) [ Ordering.eq ↦ true | _ ↦ false ]

abbrev pub str_eq : String → String → Bool
str_eq = text_beq

infix 1 if◌then◌else◌
abbrev pub if◌then◌else◌ {ℓ} : {A : Type ℓ} → Bool → A → A → A
if true then x else y = x
if false then x else y = y

pub ltb→lt : (a b : ℕ) → ltb a b ≡ true → a < b
ltb→lt a b h = ground arith

pub ==_iff : (a b : ℕ) → ((a == b) ≡ true) ↔ (a ≡ b)
==_iff a b = ground arith

pub ==_refl : (a : ℕ) → (a == a) ≡ true
==_refl a = ground arith

pub str_eq_iff : (s t : String) → (str_eq s t ≡ true) ↔ (s ≡ t)
str_eq_iff = eq_iff

pub str_eq_refl : (s : String) → str_eq s s ≡ true
str_eq_refl s = (str_eq_iff s s).1 refl

pub str_eq_sym : (s t : String) → str_eq s t ≡ str_eq t s
str_eq_sym s t =
    let (there, here) = str_eq_iff s t in
    let (back, again) = str_eq_iff t s in
    go (str_eq s t) (str_eq t s) (λ h. again (sym (there h))) (λ h. here (sym (back h)))
  where
    go : (a b : Bool) → (a ≡ true → b ≡ true) → (b ≡ true → a ≡ true) → a ≡ b
    go true b f g = sym (f refl)
    go false true f g = g refl
    go false false f g = refl

-- To split on a computed value and keep the equation.
pub Bool-cases : (b : Bool) → (b ≡ true) ⊎ (b ≡ false)
Bool-cases true = inl refl
Bool-cases false = inr refl

pub Option-cases {ℓ} : {A : Type ℓ} (o : Option A) → (o ≡ none) ⊎ ((a : A) × (o ≡ some a))
Option-cases none = inl refl
Option-cases (some a) = inr (a, refl)

abbrev pub is_some {ℓ} : {A : Type ℓ} → Option A → Bool
is_some none = false
is_some (some _) = true

-- An optional number equals a given one, as in `WHERE column = $1` on a nullable column.
abbrev pub is_just : Option ℕ → ℕ → Bool
is_just none n = false
is_just (some m) n = m == n

-- SQL `COALESCE(a, b)`.
abbrev pub coalesce {ℓ} : {A : Type ℓ} → Option A → A → A
coalesce none d = d
coalesce (some a) d = a

-- A property of both branches is a property of the conditional.
pub if_both {ℓ κ} :
    {A : Type ℓ} (P : A → Type κ) (t : Bool) (x y : A) → P x → P y → P (if t then x else y)
if_both P true x y hx hy = hx
if_both P false x y hx hy = hy
