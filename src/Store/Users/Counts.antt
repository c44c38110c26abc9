-- ===== src/Store/Users/Counts.antt =====
-- How an update of one user changes the number of active administrators.
use batch_managementof_cloud.Prelude.{
  ℕ, Bool, Bool-cases, Distinct, In, In-map, List, [], arith, count_where, false, find_where,
  find_where-In, find_where-holds, inl, inr, map, refl, some, subst, sym, true, unique_row,
  update_where, ◌+◌, ◌==◌, ◌∷◌, ◌≡◌, ◌≤◌,
}
use batch_managementof_cloud.Model.Records.{User}

-- An update that turns no counted row into another kind lowers no count.
pub count_where-update_keep :
    {A : Type 0} (g p : A → Bool) (f : A → A) (xs : List A)
    → ((x : A) → In x xs → p x ≡ true → g x ≡ true → g (f x) ≡ true)
    → count_where g xs ≤ count_where g (update_where p f xs)
count_where-update_keep g p f [] keep = omega arith
count_where-update_keep g p f (x ∷ xs) keep =
    let rest = count_where-update_keep g p f xs (λ y i. keep y (inr i)) in
    ground (arith, rest, keep x (inl refl))

update_where_none :
    {A : Type 0} (p : A → Bool) (f : A → A) (xs : List A)
    → ((x : A) → In x xs → p x ≡ false)
    → update_where p f xs ≡ xs
update_where_none p f [] h = refl
update_where_none p f (x ∷ xs) h =
    rw (h x (inl refl), update_where_none p f xs (λ y i. h y (inr i))) refl

-- An update of the row under a key lowers a count by one at most.
pub count_where-update_one :
    {A : Type 0} (key : A → ℕ) (g : A → Bool) (f : A → A) (k : ℕ) (xs : List A)
    → Distinct (map key xs)
    → count_where g xs ≤ count_where g (update_where (λ x. key x == k) f xs) + 1
count_where-update_one key g f k [] d = omega arith
count_where-update_one {A = A} key g f k (x ∷ xs) d = elim (Bool-cases (key x == k)) [
  | inl e ↦
      let same : key x ≡ k = ground arith in
      rw
        (
          e,
          update_where_none (λ y. key y == k) f xs
              (λ y i.
                apart y
                  (λ (j : key x ≡ key y).
                    d.0 (subst (λ (n : ℕ). In n (map key xs)) (sym j) (In-map key xs y i)))
                  same),
        )
        (ground arith)
  | inr e ↦ rw e (ground (arith, count_where-update_one key g f k xs d.1))
]
  where
    apart : (y : A) → (¬ (key x ≡ key y)) → key x ≡ k → (key y == k) ≡ false
    apart y ne same = ground arith

-- The user that is found under an id is the only one that has it.
pub only_user :
    (users : List User) (id : ℕ) (u v : User)
    → Distinct (map (λ (x : User). x.id) users)
    → find_where (λ (x : User). x.id == id) users ≡ some u
    → In v users
    → (v.id == id) ≡ true
    → v ≡ u
only_user users id u v d found i e =
    unique_row (λ (x : User). x.id) users v u d i
      (find_where-In (λ (x : User). x.id == id) users found)
      (same (find_where-holds (λ (x : User). x.id == id) users found))
  where
    same : (u.id == id) ≡ true → v.id ≡ u.id
    same h = ground arith
