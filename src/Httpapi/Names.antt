-- ===== src/Httpapi/Names.antt =====
-- The names of new droplets: `normalizeNames`, `dropletNamePattern`, `cloudInitCompatibleImage` and
-- the guards of `createDroplets` (internal/httpapi/droplets.go).
use Prim.Native.Char.{code}
use batch_managementof_cloud.Prelude.{
  All, Bool, List, String, [], exists_where, false, if◌then◌else◌, is_blank, leb, not, str_eq, suc,
  text_leb, trim_space, true, zero, ℕ, ◌&&◌, ◌==◌, ◌||◌, ◌∷◌, ◌≡◌, All-In, All-map, All-of_In,
  Bool-cases, Distinct, In, arith, inl, inr, map, refl, str_eq_iff, sym, text_leb_total,
  text_leb_trans, ◌↔◌,
}

abbrev pub mem_text : String → List String → Bool
mem_text s = exists_where (λ (t : String). str_eq t s)

-- The loop of `normalizeNames`; `seen` is its map.
abbrev pub collect : List String → List String → List String
collect seen [] = []
collect seen (raw ∷ names) =
    let name = trim_space raw in
    let kept = not (is_blank name) && not (mem_text name seen) in
    let rest = collect (if kept then name ∷ seen else seen) names in
    if kept then name ∷ rest else rest

-- `sort.Strings`
abbrev pub insert_sorted : String → List String → List String
insert_sorted s [] = s ∷ []
insert_sorted s (t ∷ ts) =
    let rest = insert_sorted s ts in if text_leb s t then s ∷ t ∷ ts else t ∷ rest

abbrev pub sort_strings : List String → List String
sort_strings [] = []
sort_strings (s ∷ ss) = insert_sorted s (sort_strings ss)

-- `normalizeNames`
unfoldable pub normalize_names : List String → List String
normalize_names names = sort_strings (collect [] names)

abbrev is_alphanumeric : ℕ → Bool
is_alphanumeric c =
    (leb b'a' c && leb c b'z') || (leb b'A' c && leb c b'Z') || (leb b'0' c && leb c b'9')

abbrev name_rest : ℕ → String → Bool
name_rest room String.[] = true
name_rest zero (String.◌∷◌ c s) = false
name_rest (suc room) (String.◌∷◌ c s) =
    (is_alphanumeric (code c) || code c == b'.' || code c == b'-') && name_rest room s

-- `dropletNamePattern`, `^[a-zA-Z0-9][a-zA-Z0-9.-]{0,62}$`
unfoldable pub matches_name : String → Bool
matches_name String.[] = false
matches_name (String.◌∷◌ c s) = is_alphanumeric (code c) && name_rest 62 s

-- The list is in the order of `sort.Strings`.
abbrev pub IsSorted : List String → Type 0
IsSorted [] = Unit
IsSorted (s ∷ ss) = All (λ (t : String). text_leb s t ≡ true) ss × IsSorted ss

In-insert_sorted :
    (s : String) (ts : List String) (x : String) → In x (insert_sorted s ts) ↔ In x (s ∷ ts)
In-insert_sorted s [] x = (λ i. i, λ i. i)
In-insert_sorted s (t ∷ ts) x = elim (Bool-cases (text_leb s t)) [
  | inl e ↦ rw e (λ i. i, λ i. i)
  | inr e ↦ rw e (swap_in (In-insert_sorted s ts x))
]
  where
    swap_in :
        In x (insert_sorted s ts) ↔ In x (s ∷ ts)
        → In x (t ∷ insert_sorted s ts) ↔ In x (s ∷ t ∷ ts)
    swap_in h = (ground arith, ground arith)

In-sort_strings : (ss : List String) (x : String) → In x (sort_strings ss) ↔ In x ss
In-sort_strings [] x = (λ i. i, λ i. i)
In-sort_strings (s ∷ ss) x = (
  λ i. elim ((In-insert_sorted s (sort_strings ss) x).0 i) [
    | inl e ↦ inl e
    | inr j ↦ inr ((In-sort_strings ss x).0 j)
  ],
  elim [
    | inl e ↦ (In-insert_sorted s (sort_strings ss) x).1 (inl e)
    | inr j ↦ (In-insert_sorted s (sort_strings ss) x).1 (inr ((In-sort_strings ss x).1 j))
  ],
)

insert_sorted-Distinct :
    (s : String) (ts : List String) → ¬ In s ts → Distinct ts → Distinct (insert_sorted s ts)
insert_sorted-Distinct s [] n d = (n, tt)
insert_sorted-Distinct s (t ∷ ts) n d = elim (Bool-cases (text_leb s t)) [
  | inl e ↦ rw e (n, d)
  | inr e ↦ rw e (
    λ i. elim ((In-insert_sorted s ts t).0 i) [ inl p ↦ n (inl (sym p)) | inr j ↦ d.0 j ],
    insert_sorted-Distinct s ts (λ i. n (inr i)) d.1,
  )
]

sort_strings-Distinct : (ss : List String) → Distinct ss → Distinct (sort_strings ss)
sort_strings-Distinct [] d = tt
sort_strings-Distinct (s ∷ ss) d =
    insert_sorted-Distinct s (sort_strings ss) (λ i. d.0 ((In-sort_strings ss s).0 i))
      (sort_strings-Distinct ss d.1)

insert_sorted-IsSorted :
    (s : String) (ts : List String) → IsSorted ts → IsSorted (insert_sorted s ts)
insert_sorted-IsSorted s [] h = (tt, tt)
insert_sorted-IsSorted s (t ∷ ts) h = elim (Bool-cases (text_leb s t)) [
  | inl e ↦ rw e (
    (e, All-map (λ (u : String). text_leb t u ≡ true) _ ts (λ u k. text_leb_trans s t u e k) h.0),
    h,
  )
  | inr e ↦ rw e (
    All-of_In (λ (u : String). text_leb t u ≡ true) (insert_sorted s ts)
        (λ u i. elim ((In-insert_sorted s ts u).0 i) [
          | inl p ↦ rw p (other_way e)
          | inr j ↦ All-In (λ (u : String). text_leb t u ≡ true) ts h.0 u j
        ]),
    insert_sorted-IsSorted s ts h.1,
  )
]
  where
    other_way : text_leb s t ≡ false → text_leb t s ≡ true
    other_way e = ground (arith, text_leb_total s t)

sort_strings-IsSorted : (ss : List String) → IsSorted (sort_strings ss)
sort_strings-IsSorted [] = tt
sort_strings-IsSorted (s ∷ ss) =
    insert_sorted-IsSorted s (sort_strings ss) (sort_strings-IsSorted ss)

-- What the loop collects: trimmed texts that are not blank and were not seen before, once each.
abbrev Collected : List String → List String → List String → Type 0
Collected seen names kept =
    Distinct kept
    × ((x : String)
        → In x kept
        → (mem_text x seen ≡ false) × (is_blank x ≡ false) × In x (map trim_space names))

Collected-take :
    (seen : List String) (raw : String) (names kept : List String)
    → (not (is_blank (trim_space raw)) && not (mem_text (trim_space raw) seen)) ≡ true
    → Collected (trim_space raw ∷ seen) names kept
    → Collected seen (raw ∷ names) (trim_space raw ∷ kept)
Collected-take seen raw names kept e (distinct, each) = (
  (λ i. absurd_seen (each (trim_space raw) i).0, distinct),
  λ x. elim [
    | inl p ↦ rw p (ground arith, ground arith, inl refl)
    | inr i ↦ (unseen x (each x i).0, (each x i).1, inr (each x i).2)
  ],
)
  where
    absurd_seen : mem_text (trim_space raw) (trim_space raw ∷ seen) ≡ false → ⊥
    absurd_seen f = ground (arith, str_eq_iff (trim_space raw) (trim_space raw))

    unseen : (x : String) → mem_text x (trim_space raw ∷ seen) ≡ false → mem_text x seen ≡ false
    unseen x f = ground arith

collect-Collected : (seen names : List String) → Collected seen names (collect seen names)
collect-Collected seen [] = (tt, λ x i. absurd i)
collect-Collected seen (raw ∷ names) =
    elim (Bool-cases (not (is_blank (trim_space raw)) && not (mem_text (trim_space raw) seen))) [
      | inl e ↦ rw e (
          Collected-take seen raw names (collect (trim_space raw ∷ seen) names) e
            (collect-Collected (trim_space raw ∷ seen) names))
      | inr e ↦
          let (distinct, each) = collect-Collected seen names in
          rw e (distinct, λ x i. ((each x i).0, (each x i).1, inr (each x i).2))
    ]

collect-all :
    (seen names : List String) (x : String)
    → In x (map trim_space names)
    → is_blank x ≡ false
    → mem_text x seen ≡ false
    → In x (collect seen names)
collect-all seen [] x i b m = absurd i
collect-all seen (raw ∷ names) x (inl p) b m =
    let kept : (not (is_blank (trim_space raw)) && not (mem_text (trim_space raw) seen)) ≡ true =
      rw (← p, b, m) refl in
    rw kept (inl p)
collect-all seen (raw ∷ names) x (inr i) b m =
    elim (Bool-cases (not (is_blank (trim_space raw)) && not (mem_text (trim_space raw) seen))) [
      | inl e ↦ rw e (elim (Bool-cases (str_eq (trim_space raw) x)) [
        | inl same ↦ inl (sym ((str_eq_iff (trim_space raw) x).0 same))
        | inr apart ↦ inr (collect-all (trim_space raw ∷ seen) names x i b (rw (apart, m)))
      ])
      | inr e ↦ rw e (collect-all seen names x i b m)
    ]

-- The names that the API enqueues are in the order of `sort.Strings`, no two are alike, and they
-- are exactly the trimmed names of the request that are not blank.
pub normalize_names_lem :
    (names : List String)
    → IsSorted (normalize_names names)
      × Distinct (normalize_names names)
      × ((x : String)
          → In x (normalize_names names) ↔ (In x (map trim_space names) × (is_blank x ≡ false)))
unfolding normalize_names
normalize_names_lem names =
    let (distinct, each) = collect-Collected [] names in
    (
      sort_strings-IsSorted (collect [] names),
      sort_strings-Distinct (collect [] names) distinct,
      λ x. (
        λ i. let k = each x ((In-sort_strings (collect [] names) x).0 i) in (k.2, k.1),
        λ h. (In-sort_strings (collect [] names) x).1 (collect-all [] names x h.0 h.1 refl),
      ),
    )
