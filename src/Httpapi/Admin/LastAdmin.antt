-- ===== src/Httpapi/Admin/LastAdmin.antt =====
-- `adminUpdateUser` keeps an active administrator.
use batch_managementof_cloud.Prelude.{
  ℕ, Distinct, false, map, true, ◌≡◌, ◌≤◌, ◌⊎◌, List, Option, arith, coalesce, count_where,
  find_where, if_both, inl, inr, none, some, update_where, ◌&&◌, ◌==◌, ◌||◌, ◌∙◌, refl, Bool, ap,
  leb, sym, subst,
}
use batch_managementof_cloud.Model.Failure.{ok, Result, err}
use batch_managementof_cloud.Model.Records.{User, Role, Status, is_active, is_admin}
use batch_managementof_cloud.Store.{Db}
use batch_managementof_cloud.Store.Users.{
  UserAdminUpdate, active_admin_count, apply_update, get_user_by_id, is_active_admin,
  update_user_admin, fits_quotas, update_found,
}
use batch_managementof_cloud.Store.Users.Counts.{
  count_where-update_keep, count_where-update_one, only_user,
}
use batch_managementof_cloud.Effects.{Env, World}
use batch_managementof_cloud.Httpapi.Admin.{
  removing_active_admin, gives_up_role, gives_up_status, keep_admin, UserChange, change_user,
  admin_update_user,
}
use batch_managementof_cloud.Httpapi.Guards.{Principal}
use batch_managementof_cloud.Httpapi.Handler.{Sender}
use batch_managementof_cloud.Httpapi.Handler.After.{
  after_audit, after_part, after_refuse_if, after_statement, at_end, with_it, after_decode,
  after_query, after_recently, after_to_refuse,
}
use batch_managementof_cloud.Httpapi.Handler.Logic.{
  Ends, Ends-answer, Ends-bind, Ends-refuse_if, Ends-try-statement, settled,
}
use batch_managementof_cloud.Httpapi.Selection.{Refusal}

abbrev pub HasAdmin : Db → Type 0
HasAdmin db = 1 ≤ active_admin_count db

kept :
    (r : Role) (s : Status) (role : Option Role) (status : Option Status)
    → (is_admin r && is_active s && (gives_up_role role || gives_up_status status)) ≡ false
    → (is_admin r && is_active s) ≡ true
    → (is_admin (coalesce role r) && is_active (coalesce status s)) ≡ true
kept r s none none h a = a
kept r s none (some t) h a = ground arith
kept r s (some q) none h a = ground arith
kept r s (some q) (some t) h a = ground arith

-- An update with the guard, on a table of users with distinct ids.
update_user_admin-HasAdmin :
    (db : Db) (now id : ℕ) (change : UserAdminUpdate) (current : User)
    → Distinct (map (λ (u : User). u.id) db.users)
    → get_user_by_id db id ≡ ok current
    → HasAdmin db
    → (removing_active_admin current change.role change.status ≡ false)
      ⊎ (2 ≤ active_admin_count db)
    → HasAdmin (update_user_admin db now id change).1
unfolding update_user_admin active_admin_count get_user_by_id
update_user_admin-HasAdmin db now id change current d there some_admin guard =
    by_row (find_where (λ (u : User). u.id == id) db.users) refl
  where
    rows : List User
    rows = update_where (λ (v : User). v.id == id) (apply_update now change) db.users

    same_ok : {u : User} → ◌≡◌ {A = Result User} (ok u) (ok current) → u ≡ current
    same_ok h = cc

    changed :
        (u : User)
        → find_where (λ (v : User). v.id == id) db.users ≡ some u
        → (removing_active_admin current change.role change.status ≡ false)
          ⊎ (2 ≤ count_where is_active_admin db.users)
        → 1 ≤ count_where is_active_admin rows
    changed u e (inl h) =
        let keep =
          count_where-update_keep is_active_admin (λ (v : User). v.id == id)
            (apply_update now change) db.users
            λ v i hit on.
              let is_current : v ≡ current =
                only_user db.users id u v d e i hit ∙ same_ok (rw e at there) in
              kept v.role v.status change.role change.status (rw is_current h) on in
        omega arith
    changed u e (inr h) =
        let drop =
          count_where-update_one (λ (v : User). v.id) is_active_admin (apply_update now change) id
            db.users d in
        omega arith

    by_row :
        (o : Option User)
        → find_where (λ (v : User). v.id == id) db.users ≡ o
        → HasAdmin (update_found db now id change o).1
    by_row none e = some_admin
    by_row (some u) e =
        if_both (λ (x : Result User × Db). HasAdmin x.1)
          (fits_quotas (apply_update now change u).quota_droplets
            (apply_update now change u).quota_vcpus (apply_update now change u).quota_memory_mb)
          _ _ (changed u e guard) some_admin

never : true ≡ false → ⊥
never h = cc

-- The guard lets through a change that takes no active administrator, or one of two.
Ends-keep_admin :
    (Q : Unit {0} → World → Type 0) (R : Refusal → World → Type 0) (test : Bool) (env : Env)
    (w : World)
    → ((v : World) → v.db ≡ w.db → (test ≡ false) ⊎ (2 ≤ active_admin_count w.db) → Q tt v)
    → ((r : Refusal) (v : World) → v.db ≡ w.db → R r v)
    → Ends Q R (keep_admin test) env w
unfolding keep_admin
Ends-keep_admin Q R false env w h k = Ends-answer Q R tt env w (h w refl (inl refl))
Ends-keep_admin Q R true env w h k = Ends-bind Q R _ _ env w (
    Ends-try-statement _ R (λ now ids db. (ok (active_admin_count db), db)) env w
      (λ r db e.
        Ends-refuse_if Q R _ _ env _
          (λ pass.
            h _ (sym (ap (λ (x : Result ℕ × Db). x.1) e))
              (inr (two r (ap (λ (x : Result ℕ × Db). x.0) e) pass)))
          (λ stop. k _ _ (sym (ap (λ (x : Result ℕ × Db). x.1) e))))
      (λ e. Ends-refuse_if Q R _ _ env _ (λ pass. absurd (never pass)) (λ stop. k _ _ refl)))
  where
    two :
        (r : Result ℕ)
        → ◌≡◌ {A = Result ℕ} (ok (active_admin_count w.db)) r
        → elim r as (λ r. Bool) [ ok n ↦ leb n 1 | err e ↦ true ] ≡ false
        → 2 ≤ active_admin_count w.db
    two (ok n) e h = ground (arith, same e)
      where
        same :
            ◌≡◌ {A = Result ℕ} (ok (active_admin_count w.db)) (ok n) → active_admin_count w.db ≡ n
        same e = cc
    two (err c) e h = absurd (never h)

module _ (d : Db) (ids : Distinct (map (λ (u : User). u.id) d.users))
    (some_admin : HasAdmin d) where
  abbrev Safe : {A : Type 0} → A → World → Type 0
  Safe a v = HasAdmin v.db

  written :
      (now id : ℕ) (change : UserAdminUpdate) (current : User) (db after : Db) (r : Result User)
      → db ≡ d
      → get_user_by_id d id ≡ ok current
      → (removing_active_admin current change.role change.status ≡ false)
        ⊎ (2 ≤ active_admin_count d)
      → update_user_admin db now id change ≡ (r, after)
      → HasAdmin after
  written now id change current db after r same there guard e =
      subst HasAdmin (ap (λ (x : Result User × Db). x.1) e) (
        subst (λ v. HasAdmin (update_user_admin v now id change).1) (sym same)
          (update_user_admin-HasAdmin d now id change current ids there some_admin guard))

  Ends-change_user :
      (p : Principal) (sender : Sender) (id : ℕ) (current : User) (input : UserChange)
      (role : Option Role) (status : Option Status) (env : Env) (w : World)
      → w.db ≡ d
      → get_user_by_id d id ≡ ok current
      → Ends Safe Safe (change_user p sender id current input role status) env w
  unfolding change_user active_admin_count
  Ends-change_user p sender id current input role status env w same there =
      let unharmed : HasAdmin w.db = rw same some_admin in
      with_it _ (
        after_refuse_if _ _ _
          (λ pass. after_part (
            Ends-keep_admin _ Safe _ env w
              (λ v e guard.
                after_statement _ _
                  (λ u db k. after_audit _ _ _ _ _ _ λ r logs. at_end _ (
                    written _ id _ current v.db db (ok u) (e ∙ same) there
                      (subst
                        (λ b.
                          (removing_active_admin current role status ≡ false)
                          ⊎ (2 ≤ active_admin_count b))
                        same guard)
                      k))
                  (λ c db k.
                    written _ id _ current v.db db (err c) (e ∙ same) there
                      (subst
                        (λ b.
                          (removing_active_admin current role status ≡ false)
                          ⊎ (2 ≤ active_admin_count b))
                        same guard)
                      k)
                  (λ c. rw e unharmed))
              (λ r v e. rw e unharmed)))
          (λ stop. unharmed))

-- A request to change a user, run without another between its statements, leaves an active
-- administrator if there was one and no two users have the same id, whatever it asks for, however
-- it ends and whichever of its statements fail.
pub admin_update_user-HasAdmin :
    (p : Principal) (sender : Sender) (user_id : Option ℕ) (body : Option UserChange) (env : Env)
    (w : World)
    → Distinct (map (λ (u : User). u.id) w.db.users)
    → HasAdmin w.db
    → HasAdmin (admin_update_user p sender user_id body env w).1.db
unfolding admin_update_user
admin_update_user-HasAdmin p sender user_id body env w d h =
    settled (λ v. HasAdmin v.db) _ env w
      (after_recently _ _
        (λ recent.
          after_to_refuse _ _
            (λ id e.
              after_query _ _
                (λ current there.
                  after_decode _
                    (λ input e.
                      after_to_refuse _ _
                        (λ role e.
                          after_to_refuse _ _
                            (λ status e.
                              Ends-change_user w.db d h p sender id current input role status env _
                                refl there)
                            h)
                        h)
                    (λ r. h))
                (λ e. h))
            h)
        (λ r. h))
