-- ===== src/Worker/Quota.antt =====
-- The quota of a user: `checkQuota` of internal/worker/worker.go.
pub mod Within
use batch_managementof_cloud.Prelude.{
  ℕ, Bool, List, Option, String, [], coalesce, false, find_where, if◌then◌else◌, int64, is_some,
  ltb_ℤ, none, not, pos, some, str_eq, ℤ, ◌&&◌, ◌*ℤ◌, ◌+ℤ◌,
}
use batch_managementof_cloud.Model.Failure.{
  Error, Result, decode_failure, err, ok, with_numbers, with_value, wrap,
}
use batch_managementof_cloud.Model.Records.{User}
use batch_managementof_cloud.Store.Droplets.{user_usage}
use batch_managementof_cloud.Store.Users.{found, get_user_by_id}
use batch_managementof_cloud.Provider.{Body, Size, empty, get_sizes, malformed, sizes_body}
use batch_managementof_cloud.Effects.{Program, attempt, of_result, pure, query, raise, ◌>>=◌}
use batch_managementof_cloud.Digitalocean.Client.{request}

-- `limit != nil && current+added > *limit`, on 64-bit integers.
abbrev pub exceeds : Option ℤ → ℤ → ℤ → Bool
exceeds none current added = false
exceeds (some limit) current added = ltb_ℤ limit (int64 (current +ℤ added))

-- The first size of the slug.
abbrev pub size_of : String → List Size → Option Size
size_of slug = find_where (λ (s : Size). str_eq s.slug slug)

abbrev pub sizes_of : Body → Result (List Size)
sizes_of malformed = err decode_failure
sizes_of empty = err decode_failure
sizes_of (sizes_body sizes) = ok sizes
sizes_of _ = ok []

-- The tests on the size, which are made only for a user with a quota on cpus or memory.
abbrev pub check_size : User → ℤ → ℤ → ℤ → String → Body → Result (Unit {0})
check_size owner vcpus memory count slug body = elim (sizes_of body) [
  | err e ↦ err e
  | ok sizes ↦ elim (size_of slug sizes) [
    | none ↦ err (with_value "unknown size" slug)
    | some size ↦
        if exceeds owner.quota_vcpus vcpus (int64 (size.vcpus *ℤ count))
        then err (Error.text "vCPU quota exceeded")
        else if exceeds owner.quota_memory_mb memory (int64 (size.memory *ℤ count))
        then err (Error.text "memory quota exceeded")
        else ok tt
  ]
]

abbrev pub check_used : String → ℤ → User → ℕ × ℤ × ℤ → Program (Unit {0})
check_used slug count owner (droplets, vcpus, memory) =
    if exceeds owner.quota_droplets (pos droplets) count
    then raise (
        with_numbers "droplet quota exceeded" (pos droplets) count
          (coalesce owner.quota_droplets (pos 0)))
    else if not (is_some owner.quota_vcpus) && not (is_some owner.quota_memory_mb)
    then pure tt
    else do
      reply ← attempt (request get_sizes)
      elim reply [
        | err e ↦ raise (wrap "load sizes for quota check" e)
        | ok found ↦ of_result (check_size owner vcpus memory count slug found.0)
      ]

-- `checkQuota`
unfoldable pub check_quota : ℕ → String → ℤ → Program (Unit {0})
check_quota id slug count = do
  owner ← query (λ now db. get_user_by_id db id)
  used ← query (λ now db. ok (user_usage db id))
  check_used slug count owner used
