-- ===== src/Prelude/Rows.antt =====
-- More on tables: distinct keys, and what a search finds after an update, a deletion or an insertion.
use mathlib.Core.Path.{◌≡◌, refl, sym, ap, ◌∙◌, subst}
use mathlib.Core.Logic.{inl, inr}
use mathlib.Core.Bool.{Bool, true, false}
use mathlib.Core.List.{List, [], ◌∷◌, ◌++◌, map}
use mathlib.Core.Option.{Option, none, some}
use native.Mathlib.Omega.{arith}
use batch_managementof_cloud.Prelude.Tests.{if◌then◌else◌, Bool-cases}
use batch_managementof_cloud.Prelude.Lists.{
  In, In-append, All, update_where, delete_where, find_where, exists_where,
}

-- An update keeps or turns one predicate into another, row by row.
pub All-update_where_to {κ} :
    {A : Type 0} (P Q : A → Type κ) (p : A → Bool) (f : A → A) (xs : List A)
    → ((x : A) → p x ≡ true → P x → Q (f x))
    → ((x : A) → p x ≡ false → P x → Q x)
    → All P xs
    → All Q (update_where p f xs)
All-update_where_to P Q p f [] hit miss h = tt
All-update_where_to P Q p f (x ∷ xs) hit miss h = (
  elim (p x) as (λ b. (p x ≡ b) → Q (if b then f x else x)) [
    | true ↦ λ e. hit x e h.0
    | false ↦ λ e. miss x e h.0
  ]
      refl,
  All-update_where_to P Q p f xs hit miss h.1,
)

pub All-map {κ} :
    {A : Type 0} (P Q : A → Type κ) (xs : List A) → ((x : A) → P x → Q x) → All P xs → All Q xs
All-map P Q [] f h = tt
All-map P Q (x ∷ xs) f h = (f x h.0, All-map P Q xs f h.1)

module _ {A : Type 0} where
  -- No value stands twice in the list.
  abbrev pub Distinct : List A → Type 0
  Distinct [] = Unit
  Distinct (x ∷ xs) = (¬ In x xs) × Distinct xs

  pub In-delete_where :
      (p : A → Bool) (xs : List A) (x : A) → In x (delete_where p xs) → In x xs × (p x ≡ false)
  In-delete_where p [] x i = absurd i
  In-delete_where p (y ∷ xs) x i = ground (arith, In-delete_where p xs x)

  pub delete_where-In :
      (p : A → Bool) (xs : List A) (x : A) → In x xs → p x ≡ false → In x (delete_where p xs)
  delete_where-In p [] x i h = absurd i
  delete_where-In p (y ∷ xs) x i h = ground (arith, delete_where-In p xs x)

  pub Distinct-delete_where :
      (p : A → Bool) (xs : List A) → Distinct xs → Distinct (delete_where p xs)
  Distinct-delete_where p [] d = tt
  Distinct-delete_where p (x ∷ xs) d =
      elim (p x) as (λ b. Distinct (if b then delete_where p xs else x ∷ delete_where p xs)) [
        | true ↦ Distinct-delete_where p xs d.1
        | false ↦ (λ i. d.0 (In-delete_where p xs x i).0, Distinct-delete_where p xs d.1)
      ]

  pub Distinct-append :
      (xs ys : List A)
      → Distinct xs
      → Distinct ys
      → ((x : A) → In x xs → ¬ In x ys)
      → Distinct (xs ++ ys)
  Distinct-append [] ys dx dy apart = dy
  Distinct-append (x ∷ xs) ys dx dy apart = (
    λ i. elim (In-append x xs ys i) [ inl l ↦ dx.0 l | inr r ↦ apart x (inl refl) r ],
    Distinct-append xs ys dx.1 dy (λ y i. apart y (inr i)),
  )

module _ {A : Type 0} {B : Type 0} (f : A → B) where
  pub In-map : (xs : List A) (x : A) → In x xs → In (f x) (map f xs)
  In-map [] x i = absurd i
  In-map (y ∷ xs) x (inl e) = inl (ap f e)
  In-map (y ∷ xs) x (inr i) = inr (In-map xs x i)

  pub map-append : (xs ys : List A) → map f (xs ++ ys) ≡ map f xs ++ map f ys
  map-append [] ys = refl
  map-append (x ∷ xs) ys = ap (◌∷◌ (f x)) (map-append xs ys)

  pub In-map_delete :
      (p : A → Bool) (xs : List A) (b : B) → In b (map f (delete_where p xs)) → In b (map f xs)
  In-map_delete p [] b i = absurd i
  In-map_delete p (x ∷ xs) b i = ground (arith, In-map_delete p xs b)

  pub Distinct-map_delete :
      (p : A → Bool) (xs : List A) → Distinct (map f xs) → Distinct (map f (delete_where p xs))
  Distinct-map_delete p [] d = tt
  Distinct-map_delete p (x ∷ xs) d =
      elim (p x)
        as (λ b. Distinct (map f (if b then delete_where p xs else x ∷ delete_where p xs))) [
          | true ↦ Distinct-map_delete p xs d.1
          | false ↦ (λ i. d.0 (In-map_delete p xs (f x) i), Distinct-map_delete p xs d.1)
        ]

  -- An update that keeps a column.
  pub map-update_where :
      (p : A → Bool) (g : A → A) (xs : List A)
      → ((x : A) → f (g x) ≡ f x)
      → map f (update_where p g xs) ≡ map f xs
  map-update_where p g [] same = refl
  map-update_where p g (x ∷ xs) same =
      elim (p x)
        as (λ b.
          ◌≡◌ {A = List B} (f (if b then g x else x) ∷ map f (update_where p g xs))
            (f x ∷ map f xs)) [
              | true ↦ rw (same x, map-update_where p g xs same)
              | false ↦ rw (map-update_where p g xs same)
            ]

  -- Rows whose keys differ are told apart by them.
  pub unique_row :
      (xs : List A) (x y : A) → Distinct (map f xs) → In x xs → In y xs → f x ≡ f y → x ≡ y
  unique_row [] x y d i j e = absurd i
  unique_row (z ∷ xs) x y d (inl p) (inl q) e = p ∙ sym q
  unique_row (z ∷ xs) x y d (inl p) (inr j) e =
      absurd (d.0 (subst (λ (b : B). In b (map f xs)) (sym e ∙ ap f p) (In-map xs y j)))
  unique_row (z ∷ xs) x y d (inr i) (inl q) e =
      absurd (d.0 (subst (λ (b : B). In b (map f xs)) (e ∙ ap f q) (In-map xs x i)))
  unique_row (z ∷ xs) x y d (inr i) (inr j) e = unique_row xs x y d.1 i j e

pub delete_none : {A : Type 0} (xs : List A) → delete_where (λ x. false) xs ≡ xs
delete_none [] = refl
delete_none (x ∷ xs) = ap (◌∷◌ x) (delete_none xs)

-- A row that an update does not meet is still there.
pub In-update_where_miss :
    {A : Type 0} (p : A → Bool) (f : A → A) (xs : List A) (x : A)
    → In x xs
    → p x ≡ false
    → In x (update_where p f xs)
In-update_where_miss p f [] x i h = absurd i
In-update_where_miss p f (y ∷ xs) x (inl e) h = inl (rw (← e, h))
In-update_where_miss p f (y ∷ xs) x (inr i) h = inr (In-update_where_miss p f xs x i h)

pub exists_where_of_In :
    {A : Type 0} (p : A → Bool) (xs : List A) (x : A)
    → In x xs
    → p x ≡ true
    → exists_where p xs ≡ true
exists_where_of_In p [] x i h = absurd i
exists_where_of_In p (y ∷ xs) x (inl e) h = rw (← e, h)
exists_where_of_In p (y ∷ xs) x (inr i) h = ground (arith, exists_where_of_In p xs x i h)

abbrev pub map_some : {A B : Type 0} → (A → B) → Option A → Option B
map_some f none = none
map_some f (some a) = some (f a)

module _ {A : Type 0} where
  -- A search after an update that does not change what is searched for.
  pub find_where-update :
      (q p : A → Bool) (f : A → A) (xs : List A)
      → ((x : A) → q (f x) ≡ q x)
      → find_where q (update_where p f xs)
        ≡ map_some (λ x. if p x then f x else x) (find_where q xs)
  find_where-update q p f [] same = refl
  find_where-update q p f (x ∷ xs) same = elim (Bool-cases (p x)) [
    | inl e ↦ elim (Bool-cases (q x)) [
      | inl h ↦ rw (e, same x, h) (rw e)
      | inr h ↦ rw (e, same x, h) (find_where-update q p f xs same)
    ]
    | inr e ↦ elim (Bool-cases (q x)) [
      | inl h ↦ rw (e, h) (rw e)
      | inr h ↦ rw (e, h) (find_where-update q p f xs same)
    ]
  ]

  -- A search after a deletion.
  pub find_where-delete_hit :
      (q p : A → Bool) (xs : List A)
      → ((x : A) → q x ≡ true → p x ≡ true)
      → find_where q (delete_where p xs) ≡ none
  find_where-delete_hit q p [] inside = refl
  find_where-delete_hit q p (x ∷ xs) inside =
      ground (arith, inside x, find_where-delete_hit q p xs inside)

  pub find_where-delete_miss :
      (q p : A → Bool) (xs : List A)
      → ((x : A) → q x ≡ true → p x ≡ false)
      → find_where q (delete_where p xs) ≡ find_where q xs
  find_where-delete_miss q p [] outside = refl
  find_where-delete_miss q p (x ∷ xs) outside =
      ground (arith, outside x, find_where-delete_miss q p xs outside)

  pub find_where-append :
      (q : A → Bool) (xs : List A) (x : A)
      → find_where q (xs ++ x ∷ [])
        ≡ (if exists_where q xs then find_where q xs else if q x then some x else none)
  find_where-append q [] x = ground arith
  find_where-append q (y ∷ xs) x = ground (arith, find_where-append q xs x)

  pub find_where_absent :
      (q : A → Bool) (xs : List A) → exists_where q xs ≡ false → find_where q xs ≡ none
  find_where_absent q [] h = refl
  find_where_absent q (x ∷ xs) h = ground (arith, find_where_absent q xs)

  pub find_where_present :
      (q : A → Bool) (xs : List A) → exists_where q xs ≡ true → (x : A) × (find_where q xs ≡ some x)
  find_where_present q [] h = cc
  find_where_present q (x ∷ xs) h = elim (Bool-cases (q x)) [
    | inl e ↦ (x, rw e)
    | inr e ↦ rw e (find_where_present q xs (ground arith))
  ]

  pub exists_where_same :
      (p q : A → Bool) (xs : List A) → ((x : A) → p x ≡ q x) → exists_where p xs ≡ exists_where q xs
  exists_where_same p q [] same = refl
  exists_where_same p q (x ∷ xs) same = ground (arith, same x, exists_where_same p q xs same)
