-- ===== src/Worker/Selection.antt =====
-- What the worker accepts as the droplets and the action of a job: `validDropletIDs` and the guards
-- of `dropletAction` and `deleteDroplets`.
use batch_managementof_cloud.Prelude.{
  ==ℤ_iff, Bool, Distinct, In, List, Option, String, [], arith, exists_where, false, if◌then◌else◌,
  inl, inr, leb_ℤ, length, ltb, none, not, pos, some, str_eq, true, ℕ, ℤ, ◌&&◌, ◌==ℤ◌, ◌==◌, ◌||◌,
  ◌∷◌, ◌≡◌, ◌≤ℤ◌, refl, ◌↔◌, ◌≤◌,
}
use batch_managementof_cloud.Model.Failure.{Error, with_value}
use batch_managementof_cloud.Model.Records.{ActionPayload}

abbrev pub mem_ℤ : ℤ → List ℤ → Bool
mem_ℤ v = exists_where (λ (w : ℤ). w ==ℤ v)

-- The loop of `validDropletIDs`; `seen` is its map.
abbrev pub valid_from : List ℤ → List ℤ → Bool
valid_from seen [] = true
valid_from seen (id ∷ ids) =
    let rest = valid_from (id ∷ seen) ids in
    if leb_ℤ id (pos 0) then false else if mem_ℤ id seen then false else rest

-- `validDropletIDs`
unfoldable pub valid_droplet_ids : List ℤ → ℕ → Bool
valid_droplet_ids ids maximum =
    if length ids == 0 || ltb maximum (length ids) then false else valid_from [] ids

-- A membership test on texts, as in a `switch` over literals or a map of Booleans.
abbrev pub one_of : String → List String → Bool
one_of s = exists_where (λ (t : String). str_eq s t)

-- The map `allowed` of `dropletAction`.
abbrev pub allowed_actions : List String
allowed_actions =
    "power_on" ∷ "power_off" ∷ "power_cycle" ∷ "shutdown" ∷ "reboot" ∷ "password_reset" ∷ "resize"
    ∷ "rebuild" ∷ "rename" ∷ "snapshot" ∷ "enable_backups" ∷ "disable_backups" ∷ "restore" ∷ []

-- The guards of `dropletAction` on its payload; `none` means that it goes on.
unfoldable pub action_refusal : ActionPayload → Option Error
action_refusal p =
    if not (one_of p.action allowed_actions) || not (valid_droplet_ids p.droplet_ids 100)
    then some (Error.text "unsupported or empty droplet action")
    else if (str_eq p.action "rename"
          || str_eq p.action "resize"
          || str_eq p.action "rebuild"
          || str_eq p.action "restore")
        && not (length p.droplet_ids == 1)
    then some (with_value "only supports one droplet per request" p.action)
    else none

-- The guard of `deleteDroplets`.
unfoldable pub delete_refusal : List ℤ → Option Error
delete_refusal ids =
    if not (valid_droplet_ids ids 100)
    then some (Error.text "one to one hundred droplet IDs are required")
    else none

-- What the loop accepts: positive ids, no two alike and none seen before.
valid_from_sound :
    (seen ids : List ℤ)
    → valid_from seen ids ≡ true
    → Distinct ids × ((v : ℤ) → In v ids → (pos 1 ≤ℤ v) × (mem_ℤ v seen ≡ false))
valid_from_sound seen [] h = (tt, λ v i. absurd i)
valid_from_sound seen (id ∷ ids) h =
    let (distinct, each) = valid_from_sound (id ∷ seen) ids (ground arith) in
    (
      (
        λ i. let e : mem_ℤ id (id ∷ seen) ≡ false = (each id i).1 in ground (arith, ==ℤ_iff id id),
        distinct,
      ),
      λ v. elim [
        | inl e ↦ rw e (ground arith, ground arith)
        | inr i ↦ let e : mem_ℤ v (id ∷ seen) ≡ false = (each v i).1 in ((each v i).0, ground arith)
      ],
    )

valid_from_complete :
    (seen ids : List ℤ)
    → Distinct ids
    → ((v : ℤ) → In v ids → (pos 1 ≤ℤ v) × (mem_ℤ v seen ≡ false))
    → valid_from seen ids ≡ true
valid_from_complete seen [] d each = refl
valid_from_complete seen (id ∷ ids) d each =
    let rest : valid_from (id ∷ seen) ids ≡ true = valid_from_complete (id ∷ seen) ids d.1 λ v i.
      let apart : (id ==ℤ v) ≡ false = ne_test id v (λ e. d.0 (rw e i)) in
      ((each v (inr i)).0, rw apart (each v (inr i)).1) in
    let first = each id (inl refl) in ground (arith, first.0, first.1)
  where
    ne_test : (a b : ℤ) → ¬ (a ≡ b) → (a ==ℤ b) ≡ false
    ne_test a b n = ground (arith, ==ℤ_iff a b)

-- The worker accepts a selection exactly when it has between one and `maximum` ids, all of them
-- positive and no two alike.
pub valid_droplet_ids_iff :
    (ids : List ℤ) (maximum : ℕ)
    → (valid_droplet_ids ids maximum ≡ true) ↔ (
        (1 ≤ length ids)
        × (length ids ≤ maximum)
        × Distinct ids
        × ((v : ℤ) → In v ids → pos 1 ≤ℤ v))
unfolding valid_droplet_ids
valid_droplet_ids_iff ids maximum = (
  λ h.
      let (distinct, each) = valid_from_sound [] ids (ground arith) in
      (ground arith, ground arith, distinct, λ v i. (each v i).0),
  λ h.
      let few = h.0 in
      let most = h.1 in ground (arith, valid_from_complete [] ids h.2 (λ v i. (h.3 v i, refl))),
)
