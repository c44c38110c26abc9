-- ===== src/Digitalocean.antt =====
-- The client of internal/digitalocean/client.go, over the provider's replies.
pub mod Client
pub mod Frame
pub mod Wait
pub mod Still
use batch_managementof_cloud.Prelude.{
  ℕ, Bool, Option, String, atoi, false, if◌then◌else◌, leb_ℤ, none, pos, pos_part, some, str_eq,
  trim_space, ℤ, ◌*◌, ◌==◌, ◌||◌,
}
use batch_managementof_cloud.Model.Failure.{Error, api, join, wrap}
use batch_managementof_cloud.Model.Records.{second}
use batch_managementof_cloud.Provider.{Body, Reply, error_body}

-- `RateInfo`
pub record RateInfo : Type 0 where
  pub limit : Option ℤ
  pub remaining : Option ℤ
  pub reset_at : Option ℕ

abbrev pub no_rate : RateInfo
no_rate = record { limit = none; remaining = none; reset_at = none }

abbrev pub at_least : ℤ → Option ℤ → Option ℤ
at_least low none = none
at_least low (some n) = if leb_ℤ low n then some n else none

-- `time.Unix(value, 0)`
abbrev pub unix_time : Option ℤ → Option ℕ
unix_time none = none
unix_time (some n) = some (pos_part n * second)

-- `parseRate`
unfoldable pub parse_rate : Reply → RateInfo
parse_rate reply = record {
  limit = at_least (pos 1) (atoi reply.limit_header);
  remaining = at_least (pos 0) (atoi reply.remaining_header);
  reset_at = unix_time (at_least (pos 1) (atoi reply.reset_header));
}

-- The error of a reply whose status is not 2xx.
unfoldable pub api_error : Reply → Error
api_error reply =
    let (id, message) = error_of reply.body in
    api (record {
      status_code = reply.status_code;
      id = id;
      message = if str_eq message "" then trim_space reply.content else message;
      request_id = reply.request_id;
    })
  where
    error_of : Body → String × String
    error_of (error_body id message) = (id, message)
    error_of _ = ("", "")

-- `IsStatus`, through the errors that wrap it.
unfoldable pub is_status : Error → ℕ → Bool
is_status (api e) status = e.status_code == status
is_status (wrap prefix e) status = is_status e status
is_status (join e f) status = let second = is_status f status in is_status e status || second
is_status _ status = false
