-- ===== src/Digitalocean/Still.antt =====
-- A call to the provider leaves the database as it was.
use batch_managementof_cloud.Digitalocean.Client
use batch_managementof_cloud.Prelude.{Option, if_both, leb, ltb, ◌||◌}
use batch_managementof_cloud.Store.{Db}
use batch_managementof_cloud.Provider.{
  Body, Call, account_body, action_body, balance_body, created_body, empty, error_body, get_account,
  malformed, other_body, page_body, sizes_body,
}
use batch_managementof_cloud.Effects.Keeps.{Keeps, Keeps-bind, Keeps-pure, Keeps-raise, Keeps-send}
use batch_managementof_cloud.Digitalocean.{RateInfo}
use batch_managementof_cloud.Digitalocean.Client.{account, decode, request}

module _ {X : Type 0} (f : Db → X) where
  pub Keeps-request : (c : Call) → Keeps f (Client.request c)
  unfolding Client.request
  Keeps-request c = Keeps-bind f (Keeps-send f c) λ reply.
      if_both (Keeps f) (ltb reply.status_code 200 || leb 300 reply.status_code) _ _
        (Keeps-raise f _ _) (Keeps-pure f _ _)

  pub Keeps-decode :
      {A : Type 0} (zero_value : A) (read : Body → Option A) (got : Body × RateInfo)
      → Keeps f (Client.decode zero_value read got)
  unfolding Client.decode
  Keeps-decode zero_value read (empty, rate) = Keeps-pure f _ _
  Keeps-decode zero_value read (malformed, rate) = Keeps-raise f _ _
  Keeps-decode zero_value read (other_body, rate) = Keeps-pure f _ _
  Keeps-decode zero_value read (error_body id message, rate) = Keeps-pure f _ _
  Keeps-decode zero_value read (account_body a, rate) = Keeps-pure f _ _
  Keeps-decode zero_value read (balance_body b, rate) = Keeps-pure f _ _
  Keeps-decode zero_value read (sizes_body sizes, rate) = Keeps-pure f _ _
  Keeps-decode zero_value read (page_body droplets link, rate) = Keeps-pure f _ _
  Keeps-decode zero_value read (created_body one many actions, rate) = Keeps-pure f _ _
  Keeps-decode zero_value read (action_body a, rate) = Keeps-pure f _ _

  pub Keeps-account : Keeps f Client.account
  unfolding Client.account
  Keeps-account = Keeps-bind f (Keeps-request get_account) (Keeps-decode _ _)
