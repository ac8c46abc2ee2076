-- ===== src/Requests/Complete.antt =====
-- Which objects are enqueued, against the resolution of references by `GetAdminConnection`.
use mysql_dba_operator.Base.{
  true, false, ◌≡◌, ◌≢◌, ◌↔◌, refl, inl, none, some, List, [], ◌∷◌, ==_iff, ==_refl, All, Any,
  arith,
}
use mysql_dba_operator.Api.{
  NamespacedName, AdminConnectionRef, AdminConnection, Database, DatabasePermission, DatabaseUser,
}
use mysql_dba_operator.World.{Env, World, Result, ok, err}
use mysql_dba_operator.World.Exec.{done, call}
use mysql_dba_operator.Namespace.Permitted.{allowed_namespace_iff}
use mysql_dba_operator.Connection.{get_admin_connection, checked}
use mysql_dba_operator.User.Grants.{members}
use mysql_dba_operator.Requests.{
  object_key, refers, database_requests, find_databases, user_requests, find_users, names_database,
  granted_requests, find_granted,
}

-- The reference spells out the name and the namespace of the connection.
pub record Names (ref : AdminConnectionRef) (admin : AdminConnection) : Type 0 where
  pub same_name : ref.name ≡ admin.meta.name
  pub same_namespace : ref.namespace ≡ admin.meta.namespace

refers-Names :
    (ref : AdminConnectionRef) (admin : AdminConnection)
    → (refers ref admin ≡ true) ↔ Names ref admin
unfolding refers
refers-Names ref admin = (
  λ h. ground (arith, ==_iff ref.name admin.meta.name, ==_iff ref.namespace admin.meta.namespace),
  λ n. ground (
    arith,
    n.same_name,
    n.same_namespace,
    ==_iff ref.name admin.meta.name,
    ==_iff ref.namespace admin.meta.namespace,
  ),
)

module _ (admin : AdminConnection) (key : NamespacedName) where
  -- A database is enqueued for a connection exactly when it is listed and its reference spells out
  -- the name and the namespace of the connection.
  find_databases_iff :
      (items : List Database)
      → Any (λ r. r ≡ key) (find_databases admin (ok items))
        ↔ Any
            (λ (d : Database). (object_key d.meta ≡ key) × Names d.spec.admin_connection admin)
            items
  unfolding find_databases database_requests
  find_databases_iff [] = (λ h. h, λ h. h)
  find_databases_iff (d ∷ items) =
      ground (arith, find_databases_iff items, refers-Names d.spec.admin_connection admin)

  -- A user is enqueued for a connection exactly when it is listed and its reference spells out the
  -- name and the namespace of the connection.
  find_users_iff :
      (items : List DatabaseUser)
      → Any (λ r. r ≡ key) (find_users admin (ok items))
        ↔ Any
            (λ (u : DatabaseUser). (object_key u.meta ≡ key) × Names u.spec.admin_connection admin)
            items
  unfolding find_users user_requests
  find_users_iff [] = (λ h. h, λ h. h)
  find_users_iff (u ∷ items) =
      ground (arith, find_users_iff items, refers-Names u.spec.admin_connection admin)

names_database-Any :
    (database : Database) (permissions : List DatabasePermission)
    → (names_database database permissions ≡ true)
      ↔ Any (λ (p : DatabasePermission). p.name ≡ database.meta.name) permissions
unfolding names_database
names_database-Any database [] = ground arith
names_database-Any database (p ∷ permissions) =
    ground (arith, names_database-Any database permissions, ==_iff p.name database.meta.name)

-- A user is enqueued for a database exactly when it is listed and one of its permissions names the
-- database.
find_granted_iff :
    (database : Database) (key : NamespacedName) (items : List DatabaseUser)
    → Any (λ r. r ≡ key) (find_granted database (ok items))
      ↔ Any
          (λ (u : DatabaseUser).
            (object_key u.meta ≡ key)
            × Any
                (λ (p : DatabasePermission). p.name ≡ database.meta.name)
                (members u.spec.database_list))
          items
unfolding find_granted granted_requests
find_granted_iff database key [] = (λ h. h, λ h. h)
find_granted_iff database key (u ∷ items) = ground (
  arith,
  find_granted_iff database key items,
  names_database-Any database (members u.spec.database_list),
)

-- A list that fails counts as empty.
abbrev pub listed {ℓ} : {A : Type ℓ} → Result (List A) → List A
listed (ok items) = items
listed (err e) = []

module _ (key : NamespacedName) where
  pub requested_databases :
      (a : AdminConnection) (r : Result (List Database))
      → Any (λ k. k ≡ key) (find_databases a r)
        ↔ Any
            (λ (d : Database). (object_key d.meta ≡ key) × Names d.spec.admin_connection a)
            (listed r)
  unfolding find_databases
  requested_databases a (ok items) = find_databases_iff a key items
  requested_databases a (err e) = (λ h. h, λ h. h)

  pub requested_users :
      (a : AdminConnection) (r : Result (List DatabaseUser))
      → Any (λ k. k ≡ key) (find_users a r)
        ↔ Any
            (λ (u : DatabaseUser). (object_key u.meta ≡ key) × Names u.spec.admin_connection a)
            (listed r)
  unfolding find_users
  requested_users a (ok items) = find_users_iff a key items
  requested_users a (err e) = (λ h. h, λ h. h)

  pub requested_grants :
      (d : Database) (r : Result (List DatabaseUser))
      → Any (λ k. k ≡ key) (find_granted d r)
        ↔ Any
            (λ (u : DatabaseUser).
              (object_key u.meta ≡ key)
              × Any
                  (λ (p : DatabasePermission). p.name ≡ d.meta.name)
                  (members u.spec.database_list))
            (listed r)
  unfolding find_granted
  requested_grants d (ok items) = find_granted_iff d key items
  requested_grants d (err e) = (λ h. h, λ h. h)

-- The database is in the namespace of the connection, and its reference gives the connection's name and
-- leaves the namespace out.
pub record Defaults (admin : AdminConnection) (database : Database) : Type 0 where
  pub beside : database.meta.namespace ≡ admin.meta.namespace
  pub short : database.spec.admin_connection ≡ record { namespace = []; name = admin.meta.name }

module _ (env : Env) (admin : AdminConnection) (w : World)
    (stored : env.get_admin w.log
        (record { namespace = admin.meta.namespace; name = admin.meta.name })
      ≡ ok admin) where
  Defaults-resolves :
      (database : Database)
      → Defaults admin database
      → (get_admin_connection env database.meta.namespace database.spec.admin_connection w).0
        ≡ done (some admin, none)
  unfolding get_admin_connection checked call
  Defaults-resolves database d =
      let own = (allowed_namespace_iff admin admin.meta.namespace).1 (inl refl) in
      rw (d.short, d.beside, ==_refl [], stored, own) refl

  Defaults-ignored :
      (database : Database)
      → admin.meta.namespace ≢ []
      → Defaults admin database
      → refers database.spec.admin_connection admin ≡ false
  unfolding refers
  Defaults-ignored database set d = rw (d.short) (ground (arith, ==_iff [] admin.meta.namespace))

  Defaults-unlisted :
      (databases : List Database)
      → admin.meta.namespace ≢ []
      → All (Defaults admin) databases
      → find_databases admin (ok databases) ≡ []
  unfolding find_databases database_requests
  Defaults-unlisted [] set h = refl
  Defaults-unlisted (d ∷ databases) set (h, hs) =
      rw (Defaults-ignored d set h) (Defaults-unlisted databases set hs)

  -- For databases in the namespace of a connection, which is not empty, whose references give the
  -- connection's name and leave the namespace out: if the API server has the connection under its name
  -- and namespace, `GetAdminConnection` hands it out for each of them, but none of them is enqueued when
  -- the connection changes.
  pub find_databases-defaulted :
      (databases : List Database)
      → admin.meta.namespace ≢ []
      → All (Defaults admin) databases
      → All
          (λ (d : Database).
            (get_admin_connection env d.meta.namespace d.spec.admin_connection w).0
            ≡ done (some admin, none))
          databases
        × (find_databases admin (ok databases) ≡ [])
  find_databases-defaulted databases set h = (each databases h, Defaults-unlisted databases set h)
    where
      each :
          (ds : List Database)
          → All (Defaults admin) ds
          → All
              (λ (d : Database).
                (get_admin_connection env d.meta.namespace d.spec.admin_connection w).0
                ≡ done (some admin, none))
              ds
      each [] h = tt
      each (d ∷ ds) (h, hs) = (Defaults-resolves d h, each ds hs)
