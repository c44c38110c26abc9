-- ===== src/Httpapi/Remote.antt =====
-- What the API passes through to the provider: `accountCatalog`, the SSH keys,
-- `digitalOceanClient`, `writeDigitalOceanError` and `boundedQuery` of internal/httpapi/accounts.go,
-- and `dropletRemoteResource` and `authorizedDroplet` of internal/httpapi/droplets.go.
use batch_managementof_cloud.Digitalocean.Client
use batch_managementof_cloud.Prelude.{
  ℕ, Bool, List, Option, String, [], atoi, format_int, has_prefix, if◌then◌else◌, is_some, ltb,
  ltb_ℤ, none, not, pos, some, str_eq, trim_space, ℤ, ◌&&◌, ◌||◌, ◌∷◌, append_text,
}
use batch_managementof_cloud.Model.Failure.{ApiError, Error, api, join, wrap}
use batch_managementof_cloud.Model.Json.{lookup}
use batch_managementof_cloud.Model.Records.{CloudAccount, Droplet}
use batch_managementof_cloud.Store.Accounts.{get_cloud_account}
use batch_managementof_cloud.Store.Droplets.{get_droplet}
use batch_managementof_cloud.Provider.{Body, of_droplet, of_key, plain}
use batch_managementof_cloud.Effects.{decrypt, query}
use batch_managementof_cloud.Digitalocean.Client.{account, delete_raw, get_raw, post_raw, put_raw}
use batch_managementof_cloud.Httpapi.Accounts.{authorized_account, is_foreign}
use batch_managementof_cloud.Httpapi.Guards.{Principal, refusal}
use batch_managementof_cloud.Httpapi.Handler.{
  Handler, Sender, always, answer, audit, call, decode_json, recently, refuse_if, to_refuse,
  with_env, ◌>>=◌,
}
use batch_managementof_cloud.Httpapi.Selection.{Refusal}

-- The number that `boundedQuery` asks for.
unfoldable pub bounded_value : Bool → ℤ → String → ℤ
bounded_value is_per_page fallback value = elim (atoi value) [
  | none ↦ fallback
  | some n ↦
      if ltb_ℤ n (pos 1) then fallback else if is_per_page && ltb_ℤ (pos 200) n then pos 200 else n
]

-- `boundedQuery`
unfoldable pub bounded_query : String → ℤ → String → String
bounded_query key fallback value = format_int (bounded_value (str_eq key "per_page") fallback value)

-- `errors.As(err, &apiErr)`
abbrev pub api_error_in : Error → Option ApiError
api_error_in (api e) = some e
api_error_in (wrap prefix e) = api_error_in e
api_error_in (join e f) =
    let second = api_error_in f in
    let first = api_error_in e in if is_some first then first else second
api_error_in _ = none

-- `defaultString`
abbrev pub default_string : String → String → String
default_string value fallback = if str_eq (trim_space value) "" then fallback else value

-- `writeDigitalOceanError`
unfoldable pub digital_ocean_refusal : Error → Refusal
digital_ocean_refusal e = elim (api_error_in e) [
  | none ↦ refusal 502 "digitalocean_unavailable"
  | some a ↦ record {
    status = if ltb a.status_code 400 || ltb 599 a.status_code then 502 else a.status_code;
    code = append_text "digitalocean_" (default_string a.id "error");
  }
]

-- `digitalOceanClient`, whose error ends the handler.
unfoldable pub digital_ocean_client : CloudAccount → Handler String
digital_ocean_client account =
    call (always 500 "credential_error")
      (decrypt account.token_ciphertext account.token_nonce "digitalocean_token")

-- The map `paths` of `accountCatalog`.
abbrev pub catalog_paths : List (String × String)
catalog_paths =
    ("regions", "/regions")
    ∷ ("sizes", "/sizes")
    ∷ ("images", "/images")
    ∷ ("vpcs", "/vpcs")
    ∷ ("projects", "/projects")
    ∷ ("ssh-keys", "/account/keys")
    ∷ ("snapshots", "/snapshots")
    ∷ []

-- The query of a request: `per_page`, `page` and `type`.
pub record CatalogQuery : Type 0 where
  pub per_page : String
  pub page : String
  pub kind : String

-- The query that goes to the provider, ordered by its keys.
unfoldable pub catalog_query : String → CatalogQuery → List (String × String)
catalog_query resource q =
    ("page", bounded_query "page" (pos 1) q.page)
    ∷ ("per_page", bounded_query "per_page" (pos 200) q.per_page)
    ∷ (if str_eq resource "images"
        then ("type", default_string q.kind "distribution") ∷ []
        else if str_eq resource "snapshots"
        then ("resource_type", "droplet") ∷ []
        else [])

-- `accountCatalog`
unfoldable pub account_catalog : Principal → Option ℕ → String → CatalogQuery → Handler Body
account_catalog p account_id resource q = do
  account ← authorized_account p account_id
  path ← to_refuse (lookup resource catalog_paths) (refusal 404 "catalog_not_found")
  client ← digital_ocean_client account
  call digital_ocean_refusal (Client.get_raw (plain path) (catalog_query resource q))

pub record NewKey : Type 0 where
  pub name : String
  pub public_key : String

-- `createSSHKey`
unfoldable pub create_ssh_key : Principal → Sender → Option ℕ → Option NewKey → Handler Body
create_ssh_key p sender account_id body = with_env λ env. do
  account ← authorized_account p account_id
  input ← decode_json body
  _ ←
      refuse_if
        (str_eq (trim_space input.name) "" || not (has_prefix (trim_space input.public_key) "ssh-"))
        (refusal 400 "invalid_ssh_key")
  client ← digital_ocean_client account
  raw ← call digital_ocean_refusal (
      Client.post_raw (plain "/account/keys")
        (("name", input.name) ∷ ("public_key", input.public_key) ∷ []))
  _ ←
      audit (some p) sender "ssh_key.create" "cloud_account" (env.id_text account.id)
        (some account.user_id)
  answer raw

-- `updateSSHKey`
unfoldable pub update_ssh_key :
    Principal → Sender → Option ℕ → String → Option String → Handler Body
update_ssh_key p sender account_id key_id body = do
  account ← authorized_account p account_id
  name ← decode_json body
  _ ← refuse_if (str_eq (trim_space name) "") (refusal 400 "invalid_ssh_key")
  client ← digital_ocean_client account
  raw ← call digital_ocean_refusal (Client.put_raw (of_key key_id) (("name", name) ∷ []))
  _ ← audit (some p) sender "ssh_key.update" "ssh_key" key_id (some account.user_id)
  answer raw

-- `deleteSSHKey`
unfoldable pub delete_ssh_key : Principal → Sender → Option ℕ → String → Handler (Unit {0})
delete_ssh_key p sender account_id key_id = do
  account ← authorized_account p account_id
  _ ← recently p
  client ← digital_ocean_client account
  _ ← call digital_ocean_refusal (Client.delete_raw (of_key key_id))
  _ ← audit (some p) sender "ssh_key.delete" "ssh_key" key_id (some account.user_id)
  answer tt

-- `authorizedDroplet`
unfoldable pub authorized_droplet : Principal → Option ℕ → Handler Droplet
authorized_droplet p droplet_id = do
  id ← to_refuse droplet_id (refusal 400 "invalid_droplet_id")
  droplet ← call (always 404 "droplet_not_found") (query λ now db. get_droplet db id)
  _ ← refuse_if (is_foreign p droplet.user_id) (refusal 403 "droplet_forbidden")
  answer droplet

-- The map `paths` of `dropletRemoteResource`.
abbrev pub droplet_paths : List (String × String)
droplet_paths =
    ("backups", "backups")
    ∷ ("snapshots", "snapshots")
    ∷ ("actions", "actions")
    ∷ ("backup-policy", "backups/policy")
    ∷ []

-- `dropletRemoteResource`
unfoldable pub droplet_remote_resource : Principal → Option ℕ → String → CatalogQuery → Handler Body
droplet_remote_resource p droplet_id resource q = do
  droplet ← authorized_droplet p droplet_id
  account ←
      call (always 404 "account_not_found")
        (query λ now db. get_cloud_account db droplet.account_id)
  path ← to_refuse (lookup resource droplet_paths) (refusal 404 "resource_not_found")
  client ← digital_ocean_client account
  call digital_ocean_refusal (
      Client.get_raw (of_droplet droplet.provider_id path) (
        if str_eq resource "backup-policy"
        then []
        else ("page", bounded_query "page" (pos 1) q.page)
          ∷ ("per_page", bounded_query "per_page" (pos 50) q.per_page)
          ∷ []))
