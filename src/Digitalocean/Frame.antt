-- ===== src/Digitalocean/Frame.antt =====
-- The frames of the client's methods: each makes calls of one kind and has no other effect.
use batch_managementof_cloud.Digitalocean.Client
use batch_managementof_cloud.Prelude.{
  List, Option, String, [], if_both, leb, ltb, none, some, str_eq, suc, zero, ℕ, ℤ, ◌||◌,
}
use batch_managementof_cloud.Model.Failure.{decode_failure}
use batch_managementof_cloud.Model.Json.{Object}
use batch_managementof_cloud.Provider.{
  Body, Call, CreateRequest, Instance, account_body, action_body, balance_body, created_body,
  delete_droplet_call, empty, error_body, get_account, get_action, get_balance, get_page, get_sizes,
  malformed, other_body, page_body, post_action, post_droplets, post_resources, sizes_body,
}
use batch_managementof_cloud.Effects.{Program, pure, raise, ◌>>=◌}
use batch_managementof_cloud.Effects.Frame.{
  Framed, Framed-bind, Framed-pure, Framed-raise, Framed-read_clock, Framed-send, Framed-sleep,
  Framed-with_env,
}
use batch_managementof_cloud.Digitalocean.{RateInfo}

module _ (Q : Call → Type 0) where
  Framed-request : (c : Call) → Q c → Framed Q (Client.request c)
  unfolding Client.request
  Framed-request c q = Framed-bind Q (Framed-send Q c q) λ reply.
      if_both (Framed Q) (ltb reply.status_code 200 || leb 300 reply.status_code) _ _
        (Framed-raise Q _ _) (Framed-pure Q _ _)

  Framed-decode :
      {A : Type 0} (zero_value : A) (read : Body → Option A) (got : Body × RateInfo)
      → Framed Q (Client.decode zero_value read got)
  unfolding Client.decode
  Framed-decode zero_value read (empty, rate) = Framed-pure Q _ _
  Framed-decode zero_value read (malformed, rate) = Framed-raise Q _ _
  Framed-decode zero_value read (other_body, rate) = Framed-pure Q _ _
  Framed-decode zero_value read (error_body id message, rate) = Framed-pure Q _ _
  Framed-decode zero_value read (account_body a, rate) = Framed-pure Q _ _
  Framed-decode zero_value read (balance_body b, rate) = Framed-pure Q _ _
  Framed-decode zero_value read (sizes_body sizes, rate) = Framed-pure Q _ _
  Framed-decode zero_value read (page_body droplets link, rate) = Framed-pure Q _ _
  Framed-decode zero_value read (created_body one many actions, rate) = Framed-pure Q _ _
  Framed-decode zero_value read (action_body a, rate) = Framed-pure Q _ _

  pub Framed-account : Q get_account → Framed Q Client.account
  unfolding Client.account
  Framed-account q = Framed-bind Q (Framed-request get_account q) (Framed-decode _ _)

  pub Framed-balance : Q get_balance → Framed Q Client.balance
  unfolding Client.balance
  Framed-balance q = Framed-bind Q (Framed-request get_balance q) (Framed-decode _ _)

  Framed-found :
      (o : Option (List Instance))
      → Framed Q (elim o as (λ o. Program (List Instance)) [
        | none ↦ raise decode_failure
        | some ds ↦ pure ds
      ])
  Framed-found none = Framed-raise Q _ _
  Framed-found (some ds) = Framed-pure Q _ _

  Framed-list_pages :
      (fuel : ℕ) (path : String) (items : List Instance)
      → ((p : String) → Q (get_page p))
      → Framed Q (Client.list_pages fuel path items)
  unfolding Client.list_pages
  Framed-list_pages zero path items q = Framed-raise Q _ _
  Framed-list_pages (suc fuel) path items q =
      if_both (Framed Q) (str_eq path "") _ _ (Framed-pure Q _ _) (
        Framed-bind Q (Framed-request (get_page path) (q path)) λ got.
          Framed-bind Q (Framed-decode ([], "") Client.read_page got) λ page.
            Framed-bind Q (Framed-found (Client.decode_page page.0.0))
              λ ds. Framed-with_env Q λ env. Framed-list_pages fuel _ _ q)

  pub Framed-list_droplets :
      (fuel : ℕ) → ((p : String) → Q (get_page p)) → Framed Q (Client.list_droplets fuel)
  unfolding Client.list_droplets
  Framed-list_droplets fuel q = Framed-list_pages fuel _ _ q

  pub Framed-get_sizes : Q get_sizes → Framed Q (Client.request get_sizes)
  Framed-get_sizes q = Framed-request get_sizes q

  pub Framed-create_droplets :
      (input : CreateRequest) → Q (post_droplets input) → Framed Q (Client.create_droplets input)
  unfolding Client.create_droplets
  Framed-create_droplets input q = if_both (Framed Q) _ _ _ (Framed-raise Q _ _) (
      Framed-bind Q (Framed-bind Q (Framed-request (post_droplets input) q) (Framed-decode _ _))
        λ got. Framed-pure Q _ _)

  pub Framed-delete_droplet :
      (id : ℤ) → Q (delete_droplet_call id) → Framed Q (Client.delete_droplet id)
  unfolding Client.delete_droplet
  Framed-delete_droplet id q =
      Framed-bind Q (Framed-request (delete_droplet_call id) q) λ done. Framed-pure Q _ tt

  Framed-read_action :
      (c : Call)
      → Q c
      → Framed Q (Client.request c >>= Client.decode Client.zero_action Client.read_action)
  Framed-read_action c q = Framed-bind Q (Framed-request c q) (Framed-decode _ _)

  pub Framed-droplet_action :
      (droplet : ℤ) (payload : Object)
      → Q (post_action droplet payload)
      → Framed Q (Client.droplet_action droplet payload)
  unfolding Client.droplet_action
  Framed-droplet_action droplet payload q =
      Framed-bind Q (Framed-read_action (post_action droplet payload) q) λ got. Framed-pure Q _ _

  Framed-get_droplet_action :
      (droplet action : ℤ)
      → Q (get_action droplet action)
      → Framed Q (Client.get_droplet_action droplet action)
  unfolding Client.get_droplet_action
  Framed-get_droplet_action droplet action q =
      Framed-bind Q (Framed-read_action (get_action droplet action) q) λ got. Framed-pure Q _ _

  pub Framed-assign_project :
      (project : String) (droplets : List ℤ)
      → Q (post_resources project droplets)
      → Framed Q (Client.assign_project project droplets)
  unfolding Client.assign_project
  Framed-assign_project project droplets q =
      Framed-bind Q (Framed-request (post_resources project droplets) q) λ done. Framed-pure Q _ tt

  Framed-wait_until :
      (fuel deadline : ℕ) (droplet action : ℤ)
      → Q (get_action droplet action)
      → Framed Q (Client.wait_until fuel deadline droplet action)
  unfolding Client.wait_until
  Framed-wait_until zero deadline droplet action q = Framed-raise Q _ _
  Framed-wait_until (suc fuel) deadline droplet action q =
      Framed-bind Q (Framed-get_droplet_action droplet action q) λ found.
        if_both (Framed Q) (str_eq found.status "completed") _ _ (Framed-pure Q _ _) (
          if_both (Framed Q) (str_eq found.status "errored") _ _ (Framed-raise Q _ _) (
            Framed-bind Q (Framed-read_clock Q) λ time.
              if_both (Framed Q) (ltb deadline time) _ _ (Framed-raise Q _ _) (
                Framed-bind Q (Framed-sleep Q)
                  λ slept. Framed-wait_until fuel deadline droplet action q)))

  pub Framed-wait_droplet_action :
      (fuel : ℕ) (droplet action : ℤ) (timeout : ℕ)
      → Q (get_action droplet action)
      → Framed Q (Client.wait_droplet_action fuel droplet action timeout)
  unfolding Client.wait_droplet_action
  Framed-wait_droplet_action fuel droplet action timeout q =
      Framed-bind Q (Framed-read_clock Q) λ start. Framed-wait_until fuel _ droplet action q
