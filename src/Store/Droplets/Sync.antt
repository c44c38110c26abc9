-- ===== src/Store/Droplets/Sync.antt =====
-- `UpsertDroplets` against what a sync promises: the account's rows become the provider's list.
use batch_managementof_cloud.Prelude.{
  Bool, Bool-cases, List, Option, [], arith, exists_where, false, if◌then◌else◌, inl, inr, none,
  some, true, update_where, ℕ, ℤ, ◌&&◌, ◌++◌, ◌==ℤ◌, ◌==◌, ◌∷◌, ◌≡◌, delete_where, not, refl,
  Option-cases, exists_where_same, find_where, find_where-append, find_where-holds,
  find_where-update, find_where_absent, find_where_present, sym, ◌∙◌, find_where-delete_hit,
  find_where-delete_miss, ==ℤ_iff, ap, map, String,
}
use batch_managementof_cloud.Model.Failure.{ok, Error, Result, err}
use batch_managementof_cloud.Model.Records.{CloudAccount, Droplet}
use batch_managementof_cloud.Store.{Db}
use batch_managementof_cloud.Store.Droplets.{
  fresh_row, is_row, refresh, row_of, upsert_one, is_gone, mem_id, upsert_all, upsert_droplets,
}

-- A row of the table, column by column: what the provider says of a droplet, with the columns that
-- are not the provider's.
abbrev pub columns : ℕ → ℕ → ℕ → ℕ → ℤ → Option String → ℕ → Droplet → Droplet
columns now id owner account provider_id project_id created_at d = record {
  id = id;
  user_id = owner;
  account_id = account;
  provider_id = provider_id;
  name = d.name;
  status = d.status;
  locked = d.locked;
  region_slug = d.region_slug;
  size_slug = d.size_slug;
  vcpus = d.vcpus;
  memory_mb = d.memory_mb;
  disk_gb = d.disk_gb;
  price_hourly = d.price_hourly;
  price_monthly = d.price_monthly;
  ipv4 = d.ipv4;
  ipv6 = d.ipv6;
  image = d.image;
  features = d.features;
  tags = d.tags;
  vpc_uuid = d.vpc_uuid;
  project_id = project_id;
  raw = d.raw;
  synced_at = now;
  created_at = created_at;
  updated_at = now;
}

-- The row that stands for a droplet of the provider after a sync, given the row that was there: the
-- owner is the account's, and the id, the project and the creation time are the old row's.
abbrev pub written : ℕ → (ℤ → ℕ) → CloudAccount → Droplet → Option Droplet → Droplet
written now ids account d none =
    columns now (ids d.provider_id) account.user_id account.id d.provider_id none now d
written now ids account d (some row) =
    columns now row.id account.user_id row.account_id row.provider_id row.project_id row.created_at
      d

-- The two forms of the DELETE have one condition.
is_gone_lem :
    (account : ℕ) (listed : List ℤ) (d : Droplet)
    → is_gone account listed d ≡ (d.account_id == account && not (mem_id d.provider_id listed))
is_gone_lem account [] d = ground arith
is_gone_lem account (p ∷ listed) d = ground arith

-- The database after a statement that was accepted.
accepted_db :
    (bad test : Bool) (x db db' : Db) (c e : Error)
    → ◌≡◌ {A = Result (Unit {0}) × Db}
        (if bad then (err c, db) else if test then (ok tt, x) else (err e, db))
        (ok tt, db')
    → x ≡ db'
accepted_db true test x db db' c e h = cc
accepted_db false true x db db' c e h = ap (λ (r : Result (Unit {0}) × Db). r.1) h
accepted_db false false x db db' c e h = cc

module _ (now : ℕ) (ids : ℤ → ℕ) (account : CloudAccount) where
  abbrev is_same : ℕ → ℤ → Droplet → Bool
  is_same a p d = account.id == a && d.provider_id ==ℤ p

  -- The row that is read is one that the conflict clause meets exactly when the read is of the
  -- written droplet.
  same_test :
      (d r : Droplet) (a : ℕ) (p : ℤ)
      → is_row a p r ≡ true
      → is_row account.id d.provider_id r ≡ is_same a p d
  same_test d r a p h = ground arith

  same_row :
      (d r : Droplet) (a : ℕ) (p : ℤ)
      → is_same a p d ≡ true
      → is_row a p r ≡ is_row account.id d.provider_id r
  same_row d r a p h = ground arith

  row_of-update :
      (d : Droplet) (rows : List Droplet) (a : ℕ) (p : ℤ)
      → exists_where (is_row account.id d.provider_id) rows ≡ true
      → row_of a p (update_where (is_row account.id d.provider_id) (refresh now account d) rows) ≡ (
          if is_same a p d
          then some (written now ids account d (row_of a p rows))
          else row_of a p rows)
  unfolding row_of
  row_of-update d rows a p h =
      rw
        (find_where-update (is_row a p) (is_row account.id d.provider_id) (refresh now account d)
          rows (λ x. refl))
        (elim (Option-cases (find_where (is_row a p) rows)) [
          | inl e ↦ elim (Bool-cases (is_same a p d)) [
            | inl same ↦ absurd (not_absent e same)
            | inr apart ↦ rw (e, apart)
          ]
          | inr (r, e) ↦ rw e (
              rw (same_test d r a p (find_where-holds (is_row a p) rows e))
                (elim (Bool-cases (is_same a p d)) [ inl same ↦ rw same | inr apart ↦ rw apart ]))
        ])
    where
      not_absent : find_where (is_row a p) rows ≡ none → is_same a p d ≡ true → ⊥
      not_absent e same =
          let (r, k) = find_where_present (is_row a p) rows (
            exists_where_same (is_row a p) (is_row account.id d.provider_id) rows
              (λ r. same_row d r a p same)
            ∙ h) in
          let t = sym e ∙ k in cc

  row_of-append :
      (d : Droplet) (rows : List Droplet) (a : ℕ) (p : ℤ)
      → exists_where (is_row account.id d.provider_id) rows ≡ false
      → row_of a p (rows ++ fresh_row now ids account d ∷ []) ≡ (
          if is_same a p d
          then some (written now ids account d (row_of a p rows))
          else row_of a p rows)
  unfolding row_of
  row_of-append d rows a p h =
      rw (find_where-append (is_row a p) rows (fresh_row now ids account d))
        (elim (Bool-cases (is_same a p d)) [
          | inl same ↦
              let gone =
                exists_where_same (is_row a p) (is_row account.id d.provider_id) rows
                  (λ r. same_row d r a p same)
                ∙ h in
              rw (gone, find_where_absent (is_row a p) rows gone, same)
          | inr apart ↦ rw apart (elim (Bool-cases (exists_where (is_row a p) rows)) [
            | inl e ↦ rw e
            | inr e ↦ rw (e, find_where_absent (is_row a p) rows e)
          ])
        ])

  -- A read of any row after the write of one droplet.
  row_of-upsert_one :
      (d : Droplet) (rows : List Droplet) (a : ℕ) (p : ℤ)
      → row_of a p (upsert_one now ids account d rows) ≡ (
          if is_same a p d
          then some (written now ids account d (row_of a p rows))
          else row_of a p rows)
  unfolding upsert_one
  row_of-upsert_one d rows a p =
      elim (Bool-cases (exists_where (is_row account.id d.provider_id) rows)) [
        | inl e ↦ rw e (row_of-update d rows a p e)
        | inr e ↦ rw e (row_of-append d rows a p e)
      ]

  -- The row that a provider's list leaves in place of an old one, the last entry winning.
  abbrev pub synced_row : ℤ → List Droplet → Option Droplet → Option Droplet
  synced_row p [] old = old
  synced_row p (d ∷ ds) old =
      synced_row p ds (if d.provider_id ==ℤ p then some (written now ids account d old) else old)

  row_of-upsert_all :
      (ds rows : List Droplet) (a : ℕ) (p : ℤ)
      → row_of a p (upsert_all now ids account ds rows)
        ≡ (if account.id == a then synced_row p ds (row_of a p rows) else row_of a p rows)
  unfolding upsert_all
  row_of-upsert_all [] rows a p = ground arith
  row_of-upsert_all (d ∷ ds) rows a p =
      rw
        (row_of-upsert_all ds (upsert_one now ids account d rows) a p, row_of-upsert_one d rows a p)
        (elim (Bool-cases (account.id == a)) [ inl e ↦ rw e | inr e ↦ rw e ])

  row_of-delete :
      (rows : List Droplet) (listed : List ℤ) (a : ℕ) (p : ℤ)
      → row_of a p (delete_where (is_gone account.id listed) rows)
        ≡ (if account.id == a && not (mem_id p listed) then none else row_of a p rows)
  unfolding row_of
  row_of-delete rows listed a p = elim (Bool-cases (account.id == a && not (mem_id p listed))) [
    | inl e ↦ rw e (
        find_where-delete_hit (is_row a p) (is_gone account.id listed) rows
          λ d h. gone_test d h ∙ e)
    | inr e ↦ rw e (
        find_where-delete_miss (is_row a p) (is_gone account.id listed) rows
          λ d h. gone_test d h ∙ e)
  ]
    where
      id_of : (d : Droplet) → is_row a p d ≡ true → d.provider_id ≡ p
      id_of d h = (==ℤ_iff d.provider_id p).0 (ground arith)

      gone_test :
          (d : Droplet)
          → is_row a p d ≡ true
          → is_gone account.id listed d ≡ (account.id == a && not (mem_id p listed))
      gone_test d h =
          let same : mem_id d.provider_id listed ≡ mem_id p listed =
            ap (λ (q : ℤ). mem_id q listed) (id_of d h) in
          rw (is_gone_lem account.id listed d, same) (ground arith)

  kept_rows :
      (db db' : Db) (droplets : List Droplet)
      → upsert_droplets db now ids account droplets ≡ (ok tt, db')
      → delete_where
          (is_gone account.id (map (λ (d : Droplet). d.provider_id) droplets))
          (upsert_all now ids account droplets db.droplets)
        ≡ db'.droplets
  unfolding upsert_droplets
  kept_rows db db' droplets h = ap (λ (d : Db). d.droplets) (accepted_db _ _ _ _ _ _ _ h)

  -- A sync that the database accepts turns the account's rows into the provider's list and touches
  -- no other account: for every account and provider id, the row that is read afterwards is the old
  -- one in another account; in this account it is none when the provider does not list the id, and
  -- else what the last entry of that id writes, over the old row's id, project and creation time
  -- when there was one.
  pub upsert_droplets-synced :
      (db db' : Db) (droplets : List Droplet) (a : ℕ) (p : ℤ)
      → upsert_droplets db now ids account droplets ≡ (ok tt, db')
      → row_of a p db'.droplets ≡ (
          if account.id == a
          then if mem_id p (map (λ (d : Droplet). d.provider_id) droplets)
            then synced_row p droplets (row_of a p db.droplets)
            else none
          else row_of a p db.droplets)
  unfolding upsert_droplets
  upsert_droplets-synced db db' droplets a p h =
      let listed = map (λ (d : Droplet). d.provider_id) droplets in
      let rows = upsert_all now ids account droplets db.droplets in
      rw (← kept_rows db db' droplets h) (
        rw (row_of-delete rows listed a p, row_of-upsert_all droplets db.droplets a p)
          (elim (Bool-cases (account.id == a)) [
            | inl e ↦ rw e (elim (Bool-cases (mem_id p listed)) [ inl m ↦ rw m | inr m ↦ rw m ])
            | inr e ↦ rw e
          ]))
