-- ===== src/Model/Json.antt =====
-- Values of type `any` and `map[string]any`, which the program stores and passes on. A number is
-- an integer: the program reads none of these numbers.
use batch_managementof_cloud.Prelude.{
  String, ◌≡◌, refl, Bool, Option, none, some, List, [], ◌∷◌, arith, str_eq, str_eq_iff,
  if◌then◌else◌, ℤ,
}

mutual
  pub data Json : Type 0 where
    null : Json
    bool : Bool → Json
    num : ℤ → Json
    text : String → Json
    arr : Items → Json
    obj : Fields → Json

  pub data Items : Type 0 where
    nil : Items
    cons : Json → Items → Items

  pub data Fields : Type 0 where
    end : Fields
    field : String → Json → Fields → Fields

-- `map[string]any`; a nil map reads as an empty one.
abbrev pub Object : Type 0
Object = List (String × Json)

module _ {Entry : Type 0} where
  -- `m[key]`, with the `ok` of a comma-ok read.
  abbrev pub lookup : String → List (String × Entry) → Option Entry
  lookup wanted [] = none
  lookup wanted ((key, value) ∷ entries) =
      let later = lookup wanted entries in if str_eq key wanted then some value else later

  -- `m[key] = value`
  abbrev pub insert : String → Entry → List (String × Entry) → List (String × Entry)
  insert new value [] = (new, value) ∷ []
  insert new value ((key, before) ∷ entries) =
      if str_eq key new then (new, value) ∷ entries else (key, before) ∷ insert new value entries

  -- What a read of any key gives after a write.
  pub lookup-insert :
      (new wanted : String) (value : Entry) (entries : List (String × Entry))
      → lookup wanted (insert new value entries)
        ≡ (if str_eq new wanted then some value else lookup wanted entries)
  lookup-insert new wanted value [] = refl
  lookup-insert new wanted value ((key, before) ∷ entries) =
      let rest = lookup-insert new wanted value entries in
      ground (arith, rest, str_eq_iff new wanted, str_eq_iff key new, str_eq_iff key wanted)
