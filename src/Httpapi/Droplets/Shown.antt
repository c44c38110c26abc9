-- ===== src/Httpapi/Droplets/Shown.antt =====
-- What `listDroplets` and `listJobs` show to whom.
use batch_managementof_cloud.Prelude.{
  ◌≡◌, All, select, All-of_In, Bool, In, List, Option, String, inr, length, pos, true, ℕ, ◌≤ℤ◌,
  arith, select-In, ℤ, ◌&&◌, ◌==◌, ◌||◌, ◌⊎◌,
}
use batch_managementof_cloud.Model.Failure.{ok}
use batch_managementof_cloud.Model.Records.{Droplet, is_admin}
use batch_managementof_cloud.Store.{Db}
use batch_managementof_cloud.Store.Listings.{droplet_matches, list_droplets_page}
use batch_managementof_cloud.Store.Listings.Pages.{Descending, listing-IsPage}
use batch_managementof_cloud.Effects.{Env, World}
use batch_managementof_cloud.Digitalocean.Client.{account}
use batch_managementof_cloud.Httpapi.Admin.{Page, PageQuery, list_page}
use batch_managementof_cloud.Httpapi.Droplets.{list_droplets, IdQuery, read_id}
use batch_managementof_cloud.Httpapi.Guards.{Principal}
use batch_managementof_cloud.Httpapi.Handler.After.{after_of_refusal, after_query, at_end}
use batch_managementof_cloud.Httpapi.Handler.Logic.{answered}
use batch_managementof_cloud.Httpapi.Limits.{pagination, pagination-bounds}

All-select_both :
    {A : Type 0} (test : A → Bool) (xs : List A)
    → All (λ x. In x xs × (test x ≡ true)) (select test xs)
All-select_both test xs =
    All-of_In (λ x. In x xs × (test x ≡ true)) (select test xs) (select-In test xs)

-- Whose droplets the query finds.
whose :
    (owner : ℕ) (everyone : Bool) (account : Option ℕ) (wanted : String) (d : Droplet)
    → droplet_matches owner everyone account wanted d ≡ true
    → (everyone ≡ true) ⊎ (d.user_id ≡ owner)
unfolding droplet_matches
whose owner everyone account wanted d h = two _ _ h
  where
    two :
        (a b : Bool)
        → ((everyone || d.user_id == owner) && a && b) ≡ true
        → (everyone ≡ true) ⊎ (d.user_id ≡ owner)
    two a b h = ground arith

-- What `listDroplets` answers with.
pub record Shown (p : Principal) (account : Option ℕ) (wanted : String) (before : Db)
    (answer : Page Droplet) : Type 0 where
  pub own :
      All
        (λ (d : Droplet).
          In d before.droplets
          × (droplet_matches p.user.id (is_admin p.user.role) account wanted d ≡ true))
        answer.items
  pub visible :
      All (λ (d : Droplet). (is_admin p.user.role ≡ true) ⊎ (d.user_id ≡ p.user.id)) answer.items
  pub newest_first : Descending (λ (d : Droplet). d.created_at) answer.items
  pub short : pos (length answer.items) ≤ℤ pos 100
  pub counted :
      answer.total
      ≡ length
          (select (droplet_matches p.user.id (is_admin p.user.role) account wanted) before.droplets)

-- The droplets that `listDroplets` answers with are rows of the table, belong to the principal
-- unless he is an administrator, and match the account and the text that he asks for, at most
-- a hundred, newest first, with the number of all such rows.
pub list_droplets-Shown :
    (p : Principal) (account_id : IdQuery) (wanted : String) (q : PageQuery) (env : Env) (w : World)
    (page : Page Droplet)
    → (list_droplets p account_id wanted q env w).0 ≡ inr page
    → (account : Option ℕ) × (read_id account_id ≡ inr account) × Shown p account wanted w.db page
unfolding list_droplets list_page list_droplets_page
list_droplets-Shown p account_id wanted q env w page h =
    answered
      (λ a v.
        (account : Option ℕ) × (read_id account_id ≡ inr account) × Shown p account wanted w.db a)
      (λ r v. Unit {0}) _ env w page
      (after_of_refusal _
        (λ id e. after_query _ _ (λ found there. at_end _ (id, e, shown id found there)) (λ c. tt))
        (λ r. tt))
      h
  where
    limit : ℤ
    limit = (pagination q.page q.per_page).0

    offset : ℤ
    offset = (pagination q.page q.per_page).1

    shown :
        (target : Option ℕ) (rows : List Droplet × ℕ)
        → list_droplets_page w.db p.user.id (is_admin p.user.role) target wanted limit offset
          ≡ ok rows
        → Shown p target wanted w.db (record {
          items = rows.0;
          total = rows.1;
          page = (pagination q.page q.per_page).2;
          per_page = limit;
        })
    shown target rows there =
        let test = droplet_matches p.user.id (is_admin p.user.role) target wanted in
        let one =
          listing-IsPage (λ (d : Droplet). d.created_at) limit offset (select test w.db.droplets)
            rows.0 rows.1 there in
        record {
          own =
              one.rows (λ d. In d w.db.droplets × (test d ≡ true))
                (All-select_both test w.db.droplets);
          visible =
              one.rows (λ d. (is_admin p.user.role ≡ true) ⊎ (d.user_id ≡ p.user.id))
                (All-of_In (λ d. (is_admin p.user.role ≡ true) ⊎ (d.user_id ≡ p.user.id))
                  (select test w.db.droplets)
                  (λ d i.
                    whose p.user.id (is_admin p.user.role) target wanted d
                      (select-In test w.db.droplets d i).1));
          newest_first = one.newest_first;
          short =
              let few = one.short in
              let most = (pagination-bounds q.page q.per_page).1 in omega arith;
          counted = one.counted;
        }
