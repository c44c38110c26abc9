-- ===== src/Prelude/Lists.antt =====
-- Lists measured by native numbers, with predicates by recursion and tables under Boolean tests.
use Prim.Native.Nat.{ℕ, suc, ◌+◌}
use mathlib.Core.Path.{◌≡◌, refl}
use mathlib.Core.Logic.{◌⊎◌, inl, inr}
use mathlib.Core.Bool.{Bool, true, false, ◌||◌}
use mathlib.Core.List.{List, [], ◌∷◌, ◌++◌}
use mathlib.Core.Option.{Option, none, some}
use native.Mathlib.Omega.{arith}
use batch_managementof_cloud.Prelude.Tests.{if◌then◌else◌}

module _ {ℓ} {A : Type ℓ} where
  abbrev pub length : List A → ℕ
  length [] = 0
  length (x ∷ xs) = suc (length xs)

  pub length-append : (xs ys : List A) → length (xs ++ ys) ≡ length xs + length ys
  length-append [] ys = omega arith
  length-append (x ∷ xs) ys = omega (arith, length-append xs ys)

module _ {A : Type 0} where
  -- `x` stands in the list.
  abbrev pub In : A → List A → Type 0
  In x [] = ⊥
  In x (y ∷ ys) = (x ≡ y) ⊎ In x ys

  pub In-append_left : (x : A) (xs ys : List A) → In x xs → In x (xs ++ ys)
  In-append_left x [] ys h = absurd h
  In-append_left x (y ∷ xs) ys (inl e) = inl e
  In-append_left x (y ∷ xs) ys (inr h) = inr (In-append_left x xs ys h)

  pub In-append_right : (x : A) (xs ys : List A) → In x ys → In x (xs ++ ys)
  In-append_right x [] ys h = h
  In-append_right x (y ∷ xs) ys h = inr (In-append_right x xs ys h)

  pub In-append : (x : A) (xs ys : List A) → In x (xs ++ ys) → In x xs ⊎ In x ys
  In-append x [] ys h = inr h
  In-append x (y ∷ xs) ys (inl e) = inl (inl e)
  In-append x (y ∷ xs) ys (inr h) = elim (In-append x xs ys h) [
    | inl l ↦ inl (inr l)
    | inr r ↦ inr r
  ]

module _ {ℓ κ} {A : Type ℓ} (P : A → Type κ) where
  abbrev pub All : List A → Type κ
  All [] = Unit
  All (x ∷ xs) = P x × All xs

  pub All-append : (xs ys : List A) → All xs → All ys → All (xs ++ ys)
  All-append [] ys hx hy = hy
  All-append (x ∷ xs) ys hx hy = (hx.0, All-append xs ys hx.1 hy)

-- A table of the database is the list of its rows, and a condition is a test.
module _ {A : Type 0} where
  -- `SELECT … WHERE`
  abbrev pub select : (A → Bool) → List A → List A
  select p [] = []
  select p (x ∷ xs) = if p x then x ∷ select p xs else select p xs

  -- `UPDATE … SET … WHERE`
  abbrev pub update_where : (A → Bool) → (A → A) → List A → List A
  update_where p f [] = []
  update_where p f (x ∷ xs) = (if p x then f x else x) ∷ update_where p f xs

  -- `DELETE … WHERE`
  abbrev pub delete_where : (A → Bool) → List A → List A
  delete_where p [] = []
  delete_where p (x ∷ xs) = if p x then delete_where p xs else x ∷ delete_where p xs

  -- The first row that meets the condition.
  abbrev pub find_where : (A → Bool) → List A → Option A
  find_where p [] = none
  find_where p (x ∷ xs) = if p x then some x else find_where p xs

  abbrev pub exists_where : (A → Bool) → List A → Bool
  exists_where p [] = false
  exists_where p (x ∷ xs) = p x || exists_where p xs

  -- `SELECT count(*) … WHERE`
  abbrev pub count_where : (A → Bool) → List A → ℕ
  count_where p [] = 0
  count_where p (x ∷ xs) = (if p x then 1 else 0) + count_where p xs

  pub find_where-holds :
      (p : A → Bool) (xs : List A) {x : A} → find_where p xs ≡ some x → p x ≡ true
  find_where-holds p [] {x} h = cc
  find_where-holds p (y ∷ xs) {x} h = ground (arith, find_where-holds p xs {x = x})

  pub find_where-In : (p : A → Bool) (xs : List A) {x : A} → find_where p xs ≡ some x → In x xs
  find_where-In p [] {x} h = cc
  find_where-In p (y ∷ xs) {x} h = ground (arith, find_where-In p xs {x = x})

  pub find_where-none :
      (p : A → Bool) (xs : List A) → find_where p xs ≡ none → (x : A) → In x xs → p x ≡ false
  find_where-none p [] h x i = absurd i
  find_where-none p (y ∷ xs) h x (inl e) = rw e (ground arith)
  find_where-none p (y ∷ xs) h x (inr i) = find_where-none p xs (ground arith) x i

  pub In-select : (p : A → Bool) (xs : List A) (x : A) → In x xs → p x ≡ true → In x (select p xs)
  In-select p [] x i h = absurd i
  In-select p (y ∷ xs) x (inl e) h = rw (← e, h) (inl refl)
  In-select p (y ∷ xs) x (inr i) h =
      elim (p y) as (λ b. In x (if b then y ∷ select p xs else select p xs)) [
        | true ↦ inr (In-select p xs x i h)
        | false ↦ In-select p xs x i h
      ]

  pub select-In : (p : A → Bool) (xs : List A) (x : A) → In x (select p xs) → In x xs × (p x ≡ true)
  select-In p [] x i = absurd i
  select-In p (y ∷ xs) x i = ground (arith, select-In p xs x)

module _ {κ} {A : Type 0} (P : A → Type κ) where
  pub All-In : (xs : List A) → All P xs → (x : A) → In x xs → P x
  All-In [] h x i = absurd i
  All-In (y ∷ xs) h x (inl e) = rw e h.0
  All-In (y ∷ xs) h x (inr i) = All-In xs h.1 x i

  pub All-of_In : (xs : List A) → ((x : A) → In x xs → P x) → All P xs
  All-of_In [] h = tt
  All-of_In (y ∷ xs) h = (h y (inl refl), All-of_In xs (λ x i. h x (inr i)))

  pub All-update_where :
      (p : A → Bool) (f : A → A) (xs : List A)
      → ((x : A) → p x ≡ true → P x → P (f x))
      → All P xs
      → All P (update_where p f xs)
  All-update_where p f [] keep h = tt
  All-update_where p f (x ∷ xs) keep h = (
    elim (p x) as (λ b. (p x ≡ b) → P (if b then f x else x)) [
      | true ↦ λ e. keep x e h.0
      | false ↦ λ e. h.0
    ]
        refl,
    All-update_where p f xs keep h.1,
  )

  pub All-delete_where : (p : A → Bool) (xs : List A) → All P xs → All P (delete_where p xs)
  All-delete_where p [] h = tt
  All-delete_where p (x ∷ xs) h =
      elim (p x) as (λ b. All P (if b then delete_where p xs else x ∷ delete_where p xs)) [
        | true ↦ All-delete_where p xs h.1
        | false ↦ (h.0, All-delete_where p xs h.1)
      ]
