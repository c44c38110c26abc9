-- ===== src/Httpapi/Selection.antt =====
-- What the API accepts as the droplets and the action of a request (internal/httpapi/droplets.go),
-- and that the worker never refuses what it has let through.
use batch_managementof_cloud.Prelude.{
  ==ℤ_iff, Bool, Bool-cases, Distinct, In, List, String, [], arith, false, if◌then◌else◌, inl, inr,
  length, ltb, ltb_ℤ, none, not, pos, refl, sym, true, ℕ, ℤ, ◌&&◌, ◌==ℤ◌, ◌==◌, ◌||◌, ◌↔◌, ◌∷◌, ◌≡◌,
  ◌≤ℤ◌, ◌⊎◌, ap, str_eq, ◌∙◌, trim_space,
}
use batch_managementof_cloud.Model.Json.{Object}
use batch_managementof_cloud.Model.Records.{second}
use batch_managementof_cloud.Worker.Selection.{
  action_refusal, mem_ℤ, one_of, valid_droplet_ids, valid_droplet_ids_iff, delete_refusal,
}

-- The loop of `uniqueInt64`; `seen` is its map.
abbrev pub unique_from : List ℤ → List ℤ → List ℤ
unique_from seen [] = []
unique_from seen (value ∷ values) =
    let kept = ltb_ℤ (pos 0) value && not (mem_ℤ value seen) in
    let rest = unique_from (if kept then value ∷ seen else seen) values in
    if kept then value ∷ rest else rest

-- `uniqueInt64`
unfoldable pub unique_int64 : List ℤ → List ℤ
unique_int64 values = unique_from [] values

-- `supportedDropletAction`
abbrev pub supported_droplet_action : String → Bool
supported_droplet_action action = one_of action (
    "power_on" ∷ "power_off" ∷ "power_cycle" ∷ "shutdown" ∷ "reboot" ∷ "password_reset" ∷ "resize"
    ∷ "rebuild" ∷ "rename" ∷ "snapshot" ∷ "enable_backups" ∷ "disable_backups" ∷ "restore" ∷ [])

-- `singleDropletAction`
abbrev pub single_droplet_action : String → Bool
single_droplet_action action = one_of action ("rename" ∷ "resize" ∷ "rebuild" ∷ "restore" ∷ [])

-- An error answer: its status and its code.
pub record Refusal : Type 0 where
  pub status : ℕ
  pub code : String

-- The guards of `enqueueDropletAction` on its input, which give the ids and the action that go on.
unfoldable pub action_request : List ℤ → String → Refusal ⊎ (List ℤ × String)
action_request droplet_ids raw =
    let ids = unique_int64 droplet_ids in
    let action = trim_space raw in
    if length ids == 0 || ltb 100 (length ids)
    then inl (record { status = 400; code = "invalid_selection" })
    else if not (supported_droplet_action action)
    then inl (record { status = 400; code = "unsupported_action" })
    else if single_droplet_action action && not (length ids == 1)
    then inl (record { status = 400; code = "single_droplet_required" })
    else inr (ids, action)

-- The guards of `enqueueDropletDelete` on its selection.
unfoldable pub delete_request : List ℤ → Refusal ⊎ List ℤ
delete_request droplet_ids =
    let ids = unique_int64 droplet_ids in
    if length ids == 0 || ltb 100 (length ids)
    then inl (record { status = 400; code = "invalid_selection" })
    else inr ids

-- What the loop keeps: positive values that were not seen before, once each.
abbrev Kept : List ℤ → List ℤ → List ℤ → Type 0
Kept seen values kept =
    Distinct kept × ((v : ℤ) → In v kept → (pos 1 ≤ℤ v) × (mem_ℤ v seen ≡ false) × In v values)

Kept-take :
    (seen : List ℤ) (x : ℤ) (xs kept : List ℤ)
    → (ltb_ℤ (pos 0) x && not (mem_ℤ x seen)) ≡ true
    → Kept (x ∷ seen) xs kept
    → Kept seen (x ∷ xs) (x ∷ kept)
Kept-take seen x xs kept e (distinct, each) = (
  (λ i. let f : mem_ℤ x (x ∷ seen) ≡ false = (each x i).1 in ground (arith, ==ℤ_iff x x), distinct),
  λ v. elim [
    | inl p ↦ rw p (ground arith, ground arith, inl refl)
    | inr i ↦
        let f : mem_ℤ v (x ∷ seen) ≡ false = (each v i).1 in
        ((each v i).0, ground arith, inr (each v i).2)
  ],
)

unique_from-Kept : (seen values : List ℤ) → Kept seen values (unique_from seen values)
unique_from-Kept seen [] = (tt, λ v i. absurd i)
unique_from-Kept seen (x ∷ xs) = elim (Bool-cases (ltb_ℤ (pos 0) x && not (mem_ℤ x seen))) [
  | inl e ↦
      rw e (Kept-take seen x xs (unique_from (x ∷ seen) xs) e (unique_from-Kept (x ∷ seen) xs))
  | inr e ↦
      let (distinct, each) = unique_from-Kept seen xs in
      rw e (distinct, λ v i. ((each v i).0, (each v i).1, inr (each v i).2))
]

-- Nothing positive is lost.
unique_from-all :
    (seen values : List ℤ) (v : ℤ)
    → In v values
    → pos 1 ≤ℤ v
    → mem_ℤ v seen ≡ false
    → In v (unique_from seen values)
unique_from-all seen [] v i p m = absurd i
unique_from-all seen (x ∷ xs) v (inl e) p m =
    let kept : (ltb_ℤ (pos 0) x && not (mem_ℤ x seen)) ≡ true = rw (← e) (ground arith) in
    rw kept (inl e)
unique_from-all seen (x ∷ xs) v (inr i) p m =
    elim (Bool-cases (ltb_ℤ (pos 0) x && not (mem_ℤ x seen))) [
      | inl e ↦ rw e (elim (Bool-cases (x ==ℤ v)) [
        | inl same ↦ inl (sym ((==ℤ_iff x v).0 same))
        | inr apart ↦ inr (unique_from-all (x ∷ seen) xs v i p (rw (apart, m)))
      ])
      | inr e ↦ rw e (unique_from-all seen xs v i p m)
    ]

-- The API keeps exactly the positive ids of a request, each of them once.
pub unique_int64_lem :
    (values : List ℤ)
    → Distinct (unique_int64 values)
      × ((v : ℤ) → In v (unique_int64 values) ↔ (In v values × (pos 1 ≤ℤ v)))
unfolding unique_int64
unique_int64_lem values =
    let (distinct, each) = unique_from-Kept [] values in
    (
      distinct,
      λ v. (λ i. ((each v i).2, (each v i).0), λ h. unique_from-all [] values v h.0 h.1 refl),
    )

valid_of_unique :
    (values : List ℤ)
    → (length (unique_int64 values) == 0 || ltb 100 (length (unique_int64 values))) ≡ false
    → valid_droplet_ids (unique_int64 values) 100 ≡ true
valid_of_unique values h =
    let (distinct, each) = unique_int64_lem values in
    (valid_droplet_ids_iff (unique_int64 values) 100).1
      (ground arith, ground arith, distinct, λ v i. ((each v).0 i).1)

-- Three guards that are all passed.
passed :
    {A : Type 0} (first second third : Bool) (r s t : Refusal) (x y : A)
    → ◌≡◌ {A = Refusal ⊎ A}
        (if first then inl r else if second then inl s else if third then inl t else inr x)
        (inr y)
    → (first ≡ false) × (second ≡ false) × (third ≡ false) × (x ≡ y)
passed first second third r s t x y h = ground arith

passed_one :
    {A : Type 0} (test : Bool) (r : Refusal) (x y : A)
    → ◌≡◌ {A = Refusal ⊎ A} (if test then inl r else inr x) (inr y)
    → (test ≡ false) × (x ≡ y)
passed_one test r x y h = ground arith

-- The same test, grouped as the worker and as the API write it.
regroup : (a b c d e : Bool) → ((a || b || c || d) && e) ≡ ((a || (b || (c || (d || false)))) && e)
regroup a b c d e = ground arith

accepted :
    (xs : List ℤ) (a : String) (parameters : Object)
    → valid_droplet_ids xs 100 ≡ true
    → not (supported_droplet_action a) ≡ false
    → (single_droplet_action a && not (length xs == 1)) ≡ false
    → action_refusal (record { droplet_ids = xs; action = a; parameters = parameters }) ≡ none
unfolding action_refusal
accepted xs a parameters runnable supported single =
    let grouped =
      regroup (str_eq a "rename") (str_eq a "resize") (str_eq a "rebuild") (str_eq a "restore")
        (not (length xs == 1))
      ∙ single in
    rw (supported, grouped) (rw runnable)

-- The worker's guards refuse no action that the API's guards have let through, whatever the text
-- of the action, the ids and the parameters.
pub action_request-runnable :
    (droplet_ids ids : List ℤ) (raw action : String) (parameters : Object)
    → action_request droplet_ids raw ≡ inr (ids, action)
    → action_refusal (record { droplet_ids = ids; action = action; parameters = parameters }) ≡ none
unfolding action_request action_refusal
action_request-runnable droplet_ids ids raw action parameters h =
    let xs = unique_int64 droplet_ids in
    let a = trim_space raw in
    let (sized, supported, single, same) =
      passed (length xs == 0 || ltb 100 (length xs)) (not (supported_droplet_action a))
        (single_droplet_action a && not (length xs == 1))
        (record { status = 400; code = "invalid_selection" })
        (record { status = 400; code = "unsupported_action" })
        (record { status = 400; code = "single_droplet_required" }) (xs, a) (ids, action) h in
    rw (← ap (λ (p : List ℤ × String). p.0) same, ← ap (λ (p : List ℤ × String). p.1) same)
      (accepted xs a parameters (valid_of_unique droplet_ids sized) supported single)

-- The worker's guard refuses no deletion whose selection the API has let through.
pub delete_request-runnable :
    (droplet_ids ids : List ℤ) → delete_request droplet_ids ≡ inr ids → delete_refusal ids ≡ none
unfolding delete_request delete_refusal
delete_request-runnable droplet_ids ids h =
    let xs = unique_int64 droplet_ids in
    let (sized, same) =
      passed_one (length xs == 0 || ltb 100 (length xs))
        (record { status = 400; code = "invalid_selection" }) xs ids h in
    rw (← same, valid_of_unique droplet_ids sized)
