-- ===== src/Httpapi/Tests/Links.antt =====
-- The handlers of internal/httpapi/accounts.go at concrete requests.
use batch_managementof_cloud.Prelude.{
  ◌⊎◌, In, Option, arith, inl, refl, some, true, ◌≡◌, atoi, trim_space,
}
use batch_managementof_cloud.Store.Accounts.{
  create_cloud_account, delete_cloud_account, update_account_validation,
}
use batch_managementof_cloud.Effects.{◌>>=◌ as ◌>>≡◌, encrypt, pure, raise, send, statement}
use batch_managementof_cloud.Digitalocean.{api_error, is_status, parse_rate}
use batch_managementof_cloud.Digitalocean.Client.{account, decode, request}
use batch_managementof_cloud.Httpapi.Accounts.{
  NewAccount, link_account, unlink_account, validate_or_undo,
}
use batch_managementof_cloud.Httpapi.Accounts.Access.{MayUnlink, unlink_account-MayUnlink}
use batch_managementof_cloud.Httpapi.Accounts.Rollback.{link_account-rollback}
use batch_managementof_cloud.Httpapi.Guards.{refusal}
use batch_managementof_cloud.Httpapi.Handler.{
  answer, call, decode_json, refuse, refuse_if, try, with_env, ◌>>=◌,
}
use batch_managementof_cloud.Httpapi.Samples.{ada, as_user, bob, linked, sender, start, sunny}

unlink_account-MayUnlink_example :
    In linked
      (unlink_account (as_user bob) sender (some 7) (some "main") sunny start).1.db.cloud_accounts
    ⊎ MayUnlink 101 (as_user bob) (some 7) (some "main") linked
unlink_account-MayUnlink_example =
    unlink_account-MayUnlink (as_user bob) sender (some 7) (some "main") sunny start linked
      (ground arith, tt) (inl refl)

-- A second account with the token of a provider's account that is already linked.
abbrev second_link : Option NewAccount
second_link = some (record { name = "copy"; token = "another"; full_access_confirmed = true })

link_account-rollback_example :
    (refusal 409 "provider_account_exists" ≡ refusal 500 "sync_enqueue_failed")
    ⊎ ((link_account (as_user ada) sender second_link sunny start).1.db.cloud_accounts
        ≡ start.db.cloud_accounts)
unfolding link_account with_env ◌>>=◌ decode_json refuse_if trim_space call account ◌>>≡◌ request
    send pure decode encrypt statement create_cloud_account validate_or_undo try refuse
    update_account_validation delete_cloud_account api_error is_status parse_rate atoi answer raise
link_account-rollback_example =
    link_account-rollback (as_user ada) sender second_link sunny start
      (refusal 409 "provider_account_exists") (λ t. refl) refl
