-- ===== src/Httpapi/Accounts/Access.antt =====
-- Who reaches an account: the rules for `authorizedAccount` and `accountByIDForUser`, and what
-- `deleteCloudAccount` removes.
use batch_managementof_cloud.Prelude.{
  ℕ, Bool-cases, Option, arith, false, inl, inr, refl, some, true, ◌≡◌, ◌⊎◌, Distinct, In, List,
  String, ap, delete_where, delete_where-In, exists_where, find_where-In, find_where-holds, if_both,
  map, none, not, str_eq, str_eq_iff, subst, sym, unique_row, ◌+◌, ◌==◌, ◌∙◌,
}
use batch_managementof_cloud.Model.Failure.{ok, Result, err, not_found}
use batch_managementof_cloud.Model.Records.{CloudAccount, is_admin}
use batch_managementof_cloud.Store.{Db}
use batch_managementof_cloud.Store.Accounts.{get_cloud_account, delete_cloud_account}
use batch_managementof_cloud.Store.Users.{found_ok}
use batch_managementof_cloud.Effects.{Env, World, after_tick}
use batch_managementof_cloud.Httpapi.Accounts.{
  account_by_id_for_user, authorized_account, is_foreign, unlink_account,
}
use batch_managementof_cloud.Httpapi.Guards.{Principal, require_recent_auth}
use batch_managementof_cloud.Httpapi.Handler.{Handler, ◌>>=◌, Sender, pass}
use batch_managementof_cloud.Httpapi.Handler.After.{
  after_part, after_query, after_refuse_if, after_to_refuse, at_end, after_audit, after_decode,
  after_recently, after_statement, with_it,
}
use batch_managementof_cloud.Httpapi.Handler.Logic.{Ends, settled}
use batch_managementof_cloud.Httpapi.Selection.{Refusal}

-- A principal may use what belongs to the owner: it is his own, or he is an administrator.
abbrev pub May : Principal → ℕ → Type 0
May p owner = (is_admin p.user.role ≡ true) ⊎ (owner ≡ p.user.id)

pub may_of : (p : Principal) (owner : ℕ) → is_foreign p owner ≡ false → May p owner
may_of p owner h = elim (Bool-cases (is_admin p.user.role)) [
  | inl e ↦ inl e
  | inr e ↦ inr (ground arith)
]

Ends-account_by_id :
    (Q : CloudAccount → World → Type 0) (R : Refusal → World → Type 0) (p : Principal) (id : ℕ)
    (env : Env) (w : World)
    → ((a : CloudAccount) → get_cloud_account w.db id ≡ ok a → May p a.user_id → Q a (after_tick w))
    → ((r : Refusal) → R r (after_tick w))
    → Ends Q R (account_by_id_for_user p id) env w
unfolding account_by_id_for_user
Ends-account_by_id Q R p id env w h k =
    after_query _ _
      (λ a there.
        after_refuse_if _ _ _ (λ own. at_end a (h a there (may_of p a.user_id own)))
          (λ foreign. k _))
      (λ e. k _)

module _ {B : Type 0} {Q : B → World → Type 0} {R : Refusal → World → Type 0} {env : Env}
    {w : World} where
  pub after_account_by_id :
      (p : Principal) (id : ℕ) {g : CloudAccount → Handler B}
      → ((a : CloudAccount)
          → get_cloud_account w.db id ≡ ok a
          → May p a.user_id
          → Ends Q R (g a) env (after_tick w))
      → ((r : Refusal) → R r (after_tick w))
      → Ends Q R (account_by_id_for_user p id >>= g) env w
  after_account_by_id p id {g} h k = after_part (Ends-account_by_id _ R p id env w h k)

  pub after_account :
      (p : Principal) (account_id : Option ℕ) {g : CloudAccount → Handler B}
      → ((id : ℕ) (a : CloudAccount)
          → account_id ≡ some id
          → get_cloud_account w.db id ≡ ok a
          → May p a.user_id
          → Ends Q R (g a) env (after_tick w))
      → ((r : Refusal) (v : World) → v.db ≡ w.db → R r v)
      → Ends Q R (authorized_account p account_id >>= g) env w
  unfolding authorized_account
  after_account p account_id {g} h k = after_part (
      after_to_refuse _ _
        (λ id e.
          Ends-account_by_id _ R p id env w (λ a there own. h id a e there own)
            (λ r. k r (after_tick w) refl))
        (k _ w refl))

-- An account that `deleteCloudAccount` may remove.
pub record MayUnlink (now : ℕ) (p : Principal) (account_id : Option ℕ) (body : Option String)
    (a : CloudAccount) : Type 0 where
  pub named : account_id ≡ some a.id
  pub confirmed : body ≡ some a.name
  pub allowed : May p a.user_id
  pub recent : require_recent_auth now p ≡ none

abbrev Spared : List CloudAccount → (CloudAccount → Type 0) → List CloudAccount → Type 0
Spared before P after = (a : CloudAccount) → In a before → In a after ⊎ P a

-- The account that is found under an id has the id.
pub get_cloud_account-holds :
    (db : Db) (id : ℕ) (a : CloudAccount)
    → get_cloud_account db id ≡ ok a
    → (In a db.cloud_accounts) × (a.id ≡ id)
unfolding get_cloud_account
get_cloud_account-holds db id a h =
    let there = found_ok _ a h in
    (
      find_where-In (λ (b : CloudAccount). b.id == id) db.cloud_accounts there,
      same (find_where-holds (λ (b : CloudAccount). b.id == id) db.cloud_accounts there),
    )
  where
    same : (a.id == id) ≡ true → a.id ≡ id
    same h = ground arith

delete_cloud_account-Spared :
    (db : Db) (a : CloudAccount) (P : CloudAccount → Type 0)
    → Distinct (map (λ (b : CloudAccount). b.id) db.cloud_accounts)
    → In a db.cloud_accounts
    → P a
    → Spared db.cloud_accounts P (delete_cloud_account db a.id).1.cloud_accounts
unfolding delete_cloud_account
delete_cloud_account-Spared db a P ids there h =
    if_both (λ (x : Result (Unit {0}) × Db). Spared db.cloud_accounts P x.1.cloud_accounts)
      (exists_where (λ (b : CloudAccount). b.id == a.id) db.cloud_accounts) _ (err not_found, db)
      gone (λ b i. inl i)
  where
    gone :
        Spared db.cloud_accounts P
          (delete_where (λ (b : CloudAccount). b.id == a.id) db.cloud_accounts)
    gone b i = elim (Bool-cases (b.id == a.id)) [
      | inl e ↦
          let same : b ≡ a =
            unique_row (λ (c : CloudAccount). c.id) db.cloud_accounts b a ids i there
              (ground arith) in
          inr (rw same h)
      | inr e ↦ inl (delete_where-In (λ (c : CloudAccount). c.id == a.id) db.cloud_accounts b i e)
    ]

-- An account disappears by `deleteCloudAccount` only when the request names it by its id and its
-- name, comes from its owner or an administrator, and follows a recent authentication; no other
-- account is touched, however the request ends. (No two accounts have the same id.)
pub unlink_account-MayUnlink :
    (p : Principal) (sender : Sender) (account_id : Option ℕ) (body : Option String) (env : Env)
    (w : World) (a : CloudAccount)
    → Distinct (map (λ (b : CloudAccount). b.id) w.db.cloud_accounts)
    → In a w.db.cloud_accounts
    → In a (unlink_account p sender account_id body env w).1.db.cloud_accounts
      ⊎ MayUnlink (env.clock (w.tick + 1)) p account_id body a
unfolding unlink_account
unlink_account-MayUnlink p sender account_id body env w a ids i =
    settled
      (λ v.
        Spared w.db.cloud_accounts (MayUnlink (env.clock (w.tick + 1)) p account_id body)
          v.db.cloud_accounts)
      _ env w
      (with_it _ (
        after_account p account_id
          (λ id b named there own.
            after_recently _ _
              (λ recent.
                after_decode _
                  (λ name confirmed.
                    after_refuse_if _ _ _
                      (λ pass.
                        after_statement _ _
                          (λ outcome db e. after_audit _ _ _ _ _ _ λ r logs. at_end _ (
                            gone id b name db (ok outcome) named there own recent confirmed pass e))
                          (λ c db e.
                            gone id b name db (err c) named there own recent confirmed pass e)
                          (λ c. safe))
                      (λ stop. safe))
                  (λ r. safe))
              (λ r. safe))
          (λ r v same.
            subst
              (λ (d : Db).
                Spared w.db.cloud_accounts (MayUnlink (env.clock (w.tick + 1)) p account_id body)
                  d.cloud_accounts)
              (sym same) safe)))
      a i
  where
    safe :
        Spared w.db.cloud_accounts
          (MayUnlink (env.clock (w.tick + 1)) p account_id body)
          w.db.cloud_accounts
    safe b i = inl i

    gone :
        (id : ℕ) (b : CloudAccount) (name : String) (db : Db) (r : Result (Unit {0}))
        → account_id ≡ some id
        → get_cloud_account w.db id ≡ ok b
        → May p b.user_id
        → require_recent_auth (env.clock (w.tick + 1)) p ≡ none
        → body ≡ some name
        → not (str_eq name b.name) ≡ false
        → delete_cloud_account w.db b.id ≡ (r, db)
        → Spared w.db.cloud_accounts
            (MayUnlink (env.clock (w.tick + 1)) p account_id body)
            db.cloud_accounts
    gone id b name db r named there own recent confirmed pass e =
        let (inside, same) = get_cloud_account-holds w.db id b there in
        subst
          (λ (d : Db).
            Spared w.db.cloud_accounts (MayUnlink (env.clock (w.tick + 1)) p account_id body)
              d.cloud_accounts)
          (ap (λ (x : Result (Unit {0}) × Db). x.1) e)
          (delete_cloud_account-Spared w.db b (MayUnlink (env.clock (w.tick + 1)) p account_id body)
            ids inside
            (record {
              named = named ∙ ap some (sym same);
              confirmed = confirmed ∙ ap some ((str_eq_iff name b.name).0 (ground arith));
              allowed = own;
              recent = recent;
            }))
