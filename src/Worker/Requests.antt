-- ===== src/Worker/Requests.antt =====
-- The request of an action: `buildDropletActionRequest` of internal/worker/worker.go.
use batch_managementof_cloud.Prelude.{
  ℕ, String, [], arith, false, if◌then◌else◌, is_some, not, refl, some, str_eq, str_eq_iff, ℤ, ◌&&◌,
  ◌∷◌, ◌≡◌, ◌∙◌,
}
use batch_managementof_cloud.Model.Json.{Json, Object, insert, lookup, lookup-insert}

-- The entries of the parameters whose key is not `type`.
abbrev pub parameters_of : Object → Object
parameters_of [] = []
parameters_of ((key, value) ∷ parameters) =
    let rest = parameters_of parameters in if str_eq key "type" then rest else (key, value) ∷ rest

-- `buildDropletActionRequest`; `snapshot_name` is the text of the format on the id and the time.
unfoldable pub build_droplet_action_request : (ℤ → ℕ → String) → String → Object → ℤ → ℕ → Object
build_droplet_action_request snapshot_name action parameters droplet now =
    let request = insert "type" (Json.text action) (parameters_of parameters) in
    if str_eq action "snapshot" && not (is_some (lookup "name" request))
    then insert "name" (Json.text (snapshot_name droplet now)) request
    else request

lookup-parameters_of :
    (wanted : String) (parameters : Object)
    → str_eq "type" wanted ≡ false
    → lookup wanted (parameters_of parameters) ≡ lookup wanted parameters
lookup-parameters_of wanted [] h = refl
lookup-parameters_of wanted ((key, value) ∷ parameters) h =
    let rest = lookup-parameters_of wanted parameters h in
    ground (arith, rest, str_eq_iff key "type", str_eq_iff key wanted)

-- What is sent for an action: its `type` is always the action, whatever the parameters say; every
-- other parameter keeps its value, with one exception: a snapshot without a `name` gets the
-- generated one.
pub build_droplet_action_request_lem :
    (snapshot_name : ℤ → ℕ → String) (action : String) (parameters : Object) (droplet : ℤ) (now : ℕ)
    (wanted : String)
    → lookup wanted (build_droplet_action_request snapshot_name action parameters droplet now) ≡ (
        if str_eq "type" wanted
        then some (Json.text action)
        else if str_eq action "snapshot"
            && str_eq "name" wanted
            && not (is_some (lookup "name" parameters))
        then some (Json.text (snapshot_name droplet now))
        else lookup wanted parameters)
unfolding build_droplet_action_request
build_droplet_action_request_lem snapshot_name action parameters droplet now wanted =
    let base = insert "type" (Json.text action) (parameters_of parameters) in
    let plain = lookup-insert "type" wanted (Json.text action) (parameters_of parameters) in
    let name_kept : lookup "name" base ≡ lookup "name" parameters =
      lookup-insert "type" "name" (Json.text action) (parameters_of parameters)
      ∙ lookup-parameters_of "name" parameters refl in
    let named = lookup-insert "name" wanted (Json.text (snapshot_name droplet now)) base in
    ground (
      arith,
      plain,
      name_kept,
      named,
      lookup-parameters_of wanted parameters,
      str_eq_iff "type" wanted,
      str_eq_iff "name" wanted,
    )
