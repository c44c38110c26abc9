-- ===== src/Digitalocean/Client.antt =====
-- The methods of `Client` in internal/digitalocean/client.go.
use Prim.Native.String.{len, slice}
use batch_managementof_cloud.Prelude.{
  ℕ, List, Option, String, [], coalesce, if◌then◌else◌, leb, length, ltb, map_some, none, pos, some,
  str_eq, suc, zero, ℤ, ◌++◌, ◌+◌, ◌==◌, ◌||◌, ◌∷◌,
}
use batch_managementof_cloud.Model.Failure.{decode_failure, with_numbers, wrap, Error}
use batch_managementof_cloud.Model.Json.{Object}
use batch_managementof_cloud.Store.Jobs.{start}
use batch_managementof_cloud.Store.Users.{found}
use batch_managementof_cloud.Provider.{
  Account, Action, Balance, Body, Call, CreateRequest, Instance, account_body, action_body,
  balance_body, created_body, delete_droplet_call, get_account, get_action, get_balance, get_page,
  malformed, page_body, post_action, post_droplets, post_resources, ApiPath, delete_raw_call,
  get_droplet_call, get_raw_call, post_raw_call, put_raw_call,
}
use batch_managementof_cloud.Effects.{
  Env, Program, pure, raise, send, with_env, ◌>>=◌, read_clock, sleep, ◌>>◌,
}
use batch_managementof_cloud.Digitalocean.{RateInfo, api_error, parse_rate}

-- `request`, less the encoding of the payload, which is part of the call.
unfoldable pub request : Call → Program (Body × RateInfo)
request c = do
  reply ← send c
  if ltb reply.status_code 200 || leb 300 reply.status_code
      then raise (api_error reply)
      else pure (reply.body, parse_rate reply)

-- `json.Unmarshal` into a target: an empty body leaves it at its zero value, and so does JSON
-- without the fields that it reads.
unfoldable pub decode :
    {A : Type 0} → A → (Body → Option A) → Body × RateInfo → Program (A × RateInfo)
decode zero_value read (malformed, rate) =
    raise (wrap "decode DigitalOcean response" decode_failure)
decode zero_value read (body, rate) = pure (coalesce (read body) zero_value, rate)

abbrev pub read_account : Body → Option Account
read_account (account_body a) = some a
read_account _ = none

abbrev pub read_balance : Body → Option Balance
read_balance (balance_body b) = some b
read_balance _ = none

abbrev pub read_page : Body → Option (List (Option Instance) × String)
read_page (page_body droplets link) = some (droplets, link)
read_page _ = none

abbrev pub read_action : Body → Option Action
read_action (action_body a) = some a
read_action _ = none

-- `droplet`, when it is there and decodes.
abbrev pub read_droplet : Body → Option (Option Instance)
read_droplet (created_body one many actions) = some one
read_droplet _ = none

abbrev pub zero_account : Account
zero_account = record {
  droplet_limit = pos 0;
  floating_ip_limit = pos 0;
  email = "";
  uuid = "";
  status = "";
  status_message = "";
  team = none;
}

abbrev pub zero_balance : Balance
zero_balance = record { month_to_date_usage = ""; account_balance = ""; month_to_date_balance = "" }

abbrev pub zero_action : Action
zero_action = record { id = pos 0; status = ""; resource_id = pos 0 }

-- `Account`
unfoldable pub account : Program (Account × RateInfo)
account = request get_account >>= decode zero_account read_account

-- `Balance`
unfoldable pub balance : Program (Balance × RateInfo)
balance = request get_balance >>= decode zero_balance read_balance

-- `normalizeNext`, on a link whose request URI has the prefix `/v2`.
unfoldable pub normalize_next : Env → String → String
normalize_next env link =
    if str_eq link ""
    then ""
    else elim (env.request_uri link) [ none ↦ "" | some uri ↦ slice uri 3 (len uri) ]

-- The entries of one page, if all of them decode.
abbrev pub decode_page : List (Option Instance) → Option (List Instance)
decode_page [] = some []
decode_page (none ∷ entries) = none
decode_page (some d ∷ entries) = map_some (λ ds. d ∷ ds) (decode_page entries)

-- The loop of `ListDroplets`, on at most `fuel` pages.
unfoldable pub list_pages : ℕ → String → List Instance → Program (List Instance)
list_pages zero path items = raise (Error.text "out of fuel")
list_pages (suc fuel) path items =
    let more = list_pages fuel in
    if str_eq path "" then pure items else do
      (body, rate) ← request (get_page path)
      ((droplets, link), _) ← decode ([], "") read_page (body, rate)
      found ← elim (decode_page droplets) [ none ↦ raise decode_failure | some ds ↦ pure ds ]
      with_env λ env. more (normalize_next env link) (items ++ found)

-- `ListDroplets`
unfoldable pub list_droplets : ℕ → Program (List Instance)
list_droplets fuel = list_pages fuel "/droplets?per_page=200&page=1" []

abbrev pub created : Body → List Instance × List Action
created (created_body one many actions) =
    (many ++ elim one [ none ↦ [] | some d ↦ d ∷ [] ], actions)
created _ = ([], [])

-- `CreateDroplets`
unfoldable pub create_droplets : CreateRequest → Program (List Instance × List Action)
create_droplets input =
    if length input.names == 0 || ltb 10 (length input.names)
    then raise (Error.text "one to ten droplet names are required")
    else do
      (droplets, rate) ←
          request (post_droplets input) >>= decode ([], []) (λ body. some (created body))
      pure droplets

-- `GetDroplet`
unfoldable pub get_droplet : ℤ → Program Instance
get_droplet id = do
  (one, rate) ← request (get_droplet_call id) >>= decode none read_droplet
  elim one [ none ↦ raise decode_failure | some d ↦ pure d ]

-- `GetRaw`
unfoldable pub get_raw : ApiPath → List (String × String) → Program Body
get_raw path values = do (raw, rate) ← request (get_raw_call path values); pure raw

-- `PostRaw`
unfoldable pub post_raw : ApiPath → List (String × String) → Program Body
post_raw path payload = do (raw, rate) ← request (post_raw_call path payload); pure raw

-- `PutRaw`
unfoldable pub put_raw : ApiPath → List (String × String) → Program Body
put_raw path payload = do (raw, rate) ← request (put_raw_call path payload); pure raw

-- `DeleteRaw`, which has no target.
unfoldable pub delete_raw : ApiPath → Program (Unit {0})
delete_raw path = do done ← request (delete_raw_call path); pure tt

-- `DeleteDroplet`, which has no target.
unfoldable pub delete_droplet : ℤ → Program (Unit {0})
delete_droplet id = do done ← request (delete_droplet_call id); pure tt

-- `DropletAction`
unfoldable pub droplet_action : ℤ → Object → Program Action
droplet_action droplet payload = do
  (action, rate) ← request (post_action droplet payload) >>= decode zero_action read_action
  pure action

-- `GetDropletAction`
unfoldable pub get_droplet_action : ℤ → ℤ → Program Action
get_droplet_action droplet action = do
  (found, rate) ← request (get_action droplet action) >>= decode zero_action read_action
  pure found

-- `AssignProject`
unfoldable pub assign_project : String → List ℤ → Program (Unit {0})
assign_project project droplets = do done ← request (post_resources project droplets); pure tt

-- The loop of `WaitDropletAction`, on at most `fuel` polls; each ends with a sleep of 3 seconds.
unfoldable pub wait_until : ℕ → ℕ → ℤ → ℤ → Program Action
wait_until zero deadline droplet action = raise (Error.text "out of fuel")
wait_until (suc fuel) deadline droplet action =
    let again = wait_until fuel deadline droplet action in
    do
      found ← get_droplet_action droplet action
      if str_eq found.status "completed"
          then pure found
          else if str_eq found.status "errored"
          then raise (with_numbers "digitalocean action errored" found.id (pos 0) (pos 0))
          else do
            time ← read_clock
            if ltb deadline time
                then raise (with_numbers "digitalocean action timed out" found.id (pos 0) (pos 0))
                else sleep >> again

-- `WaitDropletAction`
unfoldable pub wait_droplet_action : ℕ → ℤ → ℤ → ℕ → Program Action
wait_droplet_action fuel droplet action timeout = do
  start ← read_clock
  wait_until fuel (start + timeout) droplet action
