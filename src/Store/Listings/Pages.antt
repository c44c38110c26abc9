-- ===== src/Store/Listings/Pages.antt =====
-- What stands on a page of a listing.
use batch_managementof_cloud.Prelude.{
  ◌≡◌, All, List, [], arith, false, if◌then◌else◌, leb, length, negsuc, pos, refl, suc, true, zero,
  ℕ, ℤ, ◌∷◌, ◌≤ℤ◌, ◌≤◌, subst, sym,
}
use batch_managementof_cloud.Model.Failure.{ok, Result, db_failure, err}
use batch_managementof_cloud.Store.Listings.{insert_desc, sort_desc, drop, take, listing}

module _ {A : Type 0} where
  -- No row is newer than one before it.
  abbrev pub Descending : (A → ℕ) → List A → Type 0
  Descending at [] = Unit
  Descending at (x ∷ xs) = All (λ y. at y ≤ at x) xs × Descending at xs

  module _ (P : A → Type 0) where
    All-insert_desc :
        (at : A → ℕ) (x : A) (xs : List A) → P x → All P xs → All P (insert_desc at x xs)
    All-insert_desc at x [] h k = (h, tt)
    All-insert_desc at x (y ∷ ys) h k =
        elim (leb (at y) (at x))
          as (λ b. All P (if b then x ∷ y ∷ ys else y ∷ insert_desc at x ys)) [
            | true ↦ (h, k)
            | false ↦ (k.0, All-insert_desc at x ys h k.1)
          ]

    All-sort_desc : (at : A → ℕ) (xs : List A) → All P xs → All P (sort_desc at xs)
    All-sort_desc at [] h = tt
    All-sort_desc at (x ∷ xs) h =
        All-insert_desc at x (sort_desc at xs) h.0 (All-sort_desc at xs h.1)

    All-drop : (n : ℕ) (xs : List A) → All P xs → All P (drop n xs)
    All-drop zero xs h = h
    All-drop (suc n) [] h = tt
    All-drop (suc n) (x ∷ xs) h = All-drop n xs h.1

    All-take : (n : ℕ) (xs : List A) → All P xs → All P (take n xs)
    All-take zero xs h = tt
    All-take (suc n) [] h = tt
    All-take (suc n) (x ∷ xs) h = (h.0, All-take n xs h.1)

  All-le :
      (at : A → ℕ) (m n : ℕ) (xs : List A) → m ≤ n → All (λ y. at y ≤ m) xs → All (λ y. at y ≤ n) xs
  All-le at m n [] h k = tt
  All-le at m n (x ∷ xs) h k = (omega arith, All-le at m n xs h k.1)

  Descending-insert_desc :
      (at : A → ℕ) (x : A) (xs : List A) → Descending at xs → Descending at (insert_desc at x xs)
  Descending-insert_desc at x [] h = (tt, tt)
  Descending-insert_desc at x (y ∷ ys) h =
      elim (leb (at y) (at x))
          as (λ b.
            leb (at y) (at x) ≡ b
            → Descending at (if b then x ∷ y ∷ ys else y ∷ insert_desc at x ys)) [
              | true ↦ λ e.
                  let le : at y ≤ at x = ground arith in
                  ((le, All-le at (at y) (at x) ys le h.0), h)
              | false ↦ λ e. (
                All-insert_desc (λ z. at z ≤ at y) at x ys (ground arith) h.0,
                Descending-insert_desc at x ys h.1,
              )
            ]
        refl

  Descending-sort_desc : (at : A → ℕ) (xs : List A) → Descending at (sort_desc at xs)
  Descending-sort_desc at [] = tt
  Descending-sort_desc at (x ∷ xs) =
      Descending-insert_desc at x (sort_desc at xs) (Descending-sort_desc at xs)

  Descending-drop :
      (at : A → ℕ) (n : ℕ) (xs : List A) → Descending at xs → Descending at (drop n xs)
  Descending-drop at zero xs h = h
  Descending-drop at (suc n) [] h = tt
  Descending-drop at (suc n) (x ∷ xs) h = Descending-drop at n xs h.1

  Descending-take :
      (at : A → ℕ) (n : ℕ) (xs : List A) → Descending at xs → Descending at (take n xs)
  Descending-take at zero xs h = tt
  Descending-take at (suc n) [] h = tt
  Descending-take at (suc n) (x ∷ xs) h =
      (All-take (λ y. at y ≤ at x) n xs h.0, Descending-take at n xs h.1)

  length-take : (n : ℕ) (xs : List A) → length (take n xs) ≤ n
  length-take zero xs = omega arith
  length-take (suc n) [] = omega arith
  length-take (suc n) (x ∷ xs) = let rest = length-take n xs in omega arith

  page_ok :
      (rows page : List A) (all total : ℕ)
      → ◌≡◌ {A = Result (List A × ℕ)} (ok (rows, all)) (ok (page, total))
      → (rows ≡ page) × (all ≡ total)
  page_ok rows page all total h = ground arith

  refused : {p : List A × ℕ} → ◌≡◌ {A = Result (List A × ℕ)} (err db_failure) (ok p) → ⊥
  refused h = cc

  -- A page of `at`-descending rows, out of `xs`, of at most `limit` rows.
  pub record IsPage (at : A → ℕ) (limit : ℤ) (xs page : List A) (total : ℕ) : Type 1 where
    pub rows : (P : A → Type 0) → All P xs → All P page
    pub newest_first : Descending at page
    pub short : pos (length page) ≤ℤ limit
    pub counted : total ≡ length xs

  pub listing-IsPage :
      (at : A → ℕ) (limit offset : ℤ) (xs page : List A) (total : ℕ)
      → listing at limit offset xs ≡ ok (page, total)
      → IsPage at limit xs page total
  unfolding listing
  listing-IsPage at (pos limit) (pos offset) xs page total h =
      let (rows, all) = page_ok _ page _ total h in
      subst (λ (l : List A). IsPage at (pos limit) xs l total) rows
        (record {
          rows = λ P k.
              All-take P limit (drop offset (sort_desc at xs))
                (All-drop P offset (sort_desc at xs) (All-sort_desc P at xs k));
          newest_first =
              Descending-take at limit (drop offset (sort_desc at xs))
                (Descending-drop at offset (sort_desc at xs) (Descending-sort_desc at xs));
          short = let few = length-take limit (drop offset (sort_desc at xs)) in omega arith;
          counted = sym all;
        })
  listing-IsPage at (negsuc limit) (pos offset) xs page total h = absurd (refused h)
  listing-IsPage at (pos limit) (negsuc offset) xs page total h = absurd (refused h)
  listing-IsPage at (negsuc limit) (negsuc offset) xs page total h = absurd (refused h)
