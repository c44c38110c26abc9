-- ===== src/Provider.antt =====
-- What goes over the wire to DigitalOcean: the types of internal/digitalocean/client.go, the calls
-- of its methods and the provider's replies. A decoded JSON body is the data that it holds.
use batch_managementof_cloud.Prelude.{ℕ, Bool, List, Option, String, false, true, ℤ}
use batch_managementof_cloud.Model.Json.{Json, Object}

-- `Account`; its `Team` is the team's name and uuid.
pub record Account : Type 0 where
  pub droplet_limit : ℤ
  pub floating_ip_limit : ℤ
  pub email : String
  pub uuid : String
  pub status : String
  pub status_message : String
  pub team : Option (String × String)

-- `Balance`
pub record Balance : Type 0 where
  pub month_to_date_usage : String
  pub account_balance : String
  pub month_to_date_balance : String

-- `Size`
pub record Size : Type 0 where
  pub slug : String
  pub memory : ℤ
  pub vcpus : ℤ
  pub price_monthly : ℤ
  pub price_hourly : ℤ

-- An entry of `Networks.V4` or `Networks.V6`.
pub record Network : Type 0 where
  pub ip_address : String
  pub kind : String

-- `Droplet`
pub record Instance : Type 0 where
  pub id : ℤ
  pub name : String
  pub memory : ℤ
  pub vcpus : ℤ
  pub disk : ℤ
  pub locked : Bool
  pub status : String
  pub features : Json
  pub image : Json
  pub size : Size
  pub size_slug : String
  pub v4 : List Network
  pub v6 : List Network
  pub region : String
  pub tags : List String
  pub vpc_uuid : String
  pub raw : Json

-- `Action`
pub record Action : Type 0 where
  pub id : ℤ
  pub status : String
  pub resource_id : ℤ

-- `CreateDropletRequest`; no caller sets `WithDropletAgent`.
pub record CreateRequest : Type 0 where
  pub names : List String
  pub region : String
  pub size : String
  pub image : Json
  pub ssh_keys : List Json
  pub backups : Bool
  pub backup_policy : Object
  pub ipv6 : Bool
  pub monitoring : Bool
  pub tags : List String
  pub user_data : String
  pub vpc_uuid : String
  pub public_networking : Option Bool

-- The path of a request that is passed through: `/droplets/%d/…`, or a key by its escaped id.
pub data ApiPath : Type 0 where
  plain : String → ApiPath
  of_droplet : ℤ → String → ApiPath
  of_key : String → ApiPath

-- A request to the provider, by its method and path.
pub data Call : Type 0 where
  get_account get_balance get_sizes : Call
  get_page : String → Call
  post_droplets : CreateRequest → Call
  delete_droplet_call : ℤ → Call
  post_action : ℤ → Object → Call
  get_action : ℤ → ℤ → Call
  post_resources : String → List ℤ → Call
  get_droplet_call : ℤ → Call
  -- The calls of `GetRaw`, `PostRaw`, `PutRaw` and `DeleteRaw`, with a query or a payload.
  get_raw_call post_raw_call put_raw_call : ApiPath → List (String × String) → Call
  delete_raw_call : ApiPath → Call

-- The JSON of a response's body, by what it holds.
pub data Body : Type 0 where
  empty malformed other_body : Body
  -- The `id` and `message` of an error; its `request_id` is taken to repeat the header's.
  error_body : String → String → Body
  account_body : Account → Body
  balance_body : Balance → Body
  sizes_body : List Size → Body
  -- The entries that decode as a droplet, `none` for one that does not, and the link to the next
  -- page.
  page_body : List (Option Instance) → String → Body
  -- `droplet`, `droplets` and `links.actions`.
  created_body : Option Instance → List Instance → List Action → Body
  action_body : Action → Body

-- `http.Response`, with the headers that the client reads.
pub record Reply : Type 0 where
  pub status_code : ℕ
  pub request_id : String
  pub limit_header : String
  pub remaining_header : String
  pub reset_header : String
  pub body : Body
  -- The bytes of the body.
  pub content : String

-- A call that only reads.
abbrev pub is_read : Call → Bool
is_read get_account = true
is_read get_balance = true
is_read get_sizes = true
is_read (get_page _) = true
is_read (get_action _ _) = true
is_read (get_droplet_call _) = true
is_read (get_raw_call _ _) = true
is_read _ = false
