-- ===== src/Watches/Dispatched.antt =====
-- Which requests reach which controller when an object changes.
use mysql_dba_operator.Base.{true, ◌≡◌, ◌↔◌, ◌⊎◌, Option, none, some, List, Any, arith}
use mysql_dba_operator.Api.{NamespacedName, DatabasePermission, Database, DatabaseUser}
use mysql_dba_operator.User.Grants.{members}
use mysql_dba_operator.Requests.{object_key}
use mysql_dba_operator.Requests.Complete.{
  Names, listed, requested_databases, requested_users, requested_grants,
}
use mysql_dba_operator.Watches.{
  Kind, same_kind, Object, kind_of, object_meta, Lister, Watch, Registration, databases_of_admin,
  users_of_database, users_of_admin, database_registration, user_registration, admin_registration,
}

-- The controller runtime: what it enqueues for a controller, and which objects of a kind the owner
-- references of another object name.
pub record Runtime : Type 0 where
  pub dispatch : Registration → Object → List NamespacedName
  pub owners : Kind → Object → List NamespacedName

abbrev pub Holds : Option (List NamespacedName) → NamespacedName → Type 0
Holds none key = ⊥
Holds (some keys) key = Any (λ k. k ≡ key) keys

-- It is documented to enqueue an object of the kind of the controller; the owners, of that kind, of an
-- object of an owned kind; and what the function of a watch gives for an object of the watched kind.
pub record Documented (runtime : Runtime) : Type 0 where
  pub law :
      (r : Registration) (object : Object) (key : NamespacedName)
      → Any (λ k. k ≡ key) (runtime.dispatch r object) ↔ (
          ((same_kind r.for_kind (kind_of object) ≡ true) × (object_key (object_meta object) ≡ key))
          ⊎ ((Any (λ k. same_kind k (kind_of object) ≡ true) r.owned_kinds
                × Any (λ k. k ≡ key) (runtime.owners r.for_kind object))
              ⊎ Any
                  (λ (w : Watch).
                    (same_kind w.kind (kind_of object) ≡ true) × Holds (w.requests object) key)
                  r.watches))

module _ (lister : Lister) (runtime : Runtime) (key : NamespacedName) where
  -- The objects to reconcile for a changed object, by controller.
  pub ForDatabases : Object → Type 0
  ForDatabases (Object.a_database d) = object_key d.meta ≡ key
  ForDatabases (Object.an_admin a) =
      Any (λ (d : Database). (object_key d.meta ≡ key) × Names d.spec.admin_connection a)
        (listed lister.databases)
  ForDatabases object = ⊥

  pub ForUsers : Object → Type 0
  ForUsers (Object.a_user u) = object_key u.meta ≡ key
  ForUsers (Object.a_secret s) = Any (λ k. k ≡ key) (runtime.owners Kind.users (Object.a_secret s))
  ForUsers (Object.a_database d) =
      Any
        (λ (u : DatabaseUser).
          (object_key u.meta ≡ key)
          × Any (λ (p : DatabasePermission). p.name ≡ d.meta.name) (members u.spec.database_list))
        (listed (lister.users (some d.meta.namespace)))
  ForUsers (Object.an_admin a) =
      Any (λ (u : DatabaseUser). (object_key u.meta ≡ key) × Names u.spec.admin_connection a)
        (listed (lister.users none))

  pub ForAdmins : Object → Type 0
  ForAdmins (Object.an_admin a) = object_key a.meta ≡ key
  ForAdmins object = ⊥

  module _ (documented : Documented runtime) where
    database_dispatch :
        (object : Object)
        → Any (λ k. k ≡ key) (runtime.dispatch (database_registration lister) object)
          ↔ ForDatabases object
    unfolding ForDatabases database_registration databases_of_admin
    database_dispatch (Object.an_admin a) = ground (
      arith,
      documented.law (database_registration lister) (Object.an_admin a) key,
      requested_databases key a lister.databases,
    )
    database_dispatch (Object.a_database d) =
        ground (arith, documented.law (database_registration lister) (Object.a_database d) key)
    database_dispatch (Object.a_user u) =
        ground (arith, documented.law (database_registration lister) (Object.a_user u) key)
    database_dispatch (Object.a_secret s) =
        ground (arith, documented.law (database_registration lister) (Object.a_secret s) key)

    user_dispatch :
        (object : Object)
        → Any (λ k. k ≡ key) (runtime.dispatch (user_registration lister) object) ↔ ForUsers object
    unfolding ForUsers user_registration users_of_database users_of_admin
    user_dispatch (Object.a_user u) =
        ground (arith, documented.law (user_registration lister) (Object.a_user u) key)
    user_dispatch (Object.a_secret s) =
        ground (arith, documented.law (user_registration lister) (Object.a_secret s) key)
    user_dispatch (Object.a_database d) = ground (
      arith,
      documented.law (user_registration lister) (Object.a_database d) key,
      requested_grants key d (lister.users (some d.meta.namespace)),
    )
    user_dispatch (Object.an_admin a) = ground (
      arith,
      documented.law (user_registration lister) (Object.an_admin a) key,
      requested_users key a (lister.users none),
    )

    admin_dispatch :
        (object : Object)
        → Any (λ k. k ≡ key) (runtime.dispatch admin_registration object) ↔ ForAdmins object
    unfolding ForAdmins admin_registration
    admin_dispatch (Object.an_admin a) =
        ground (arith, documented.law admin_registration (Object.an_admin a) key)
    admin_dispatch (Object.a_database d) =
        ground (arith, documented.law admin_registration (Object.a_database d) key)
    admin_dispatch (Object.a_user u) =
        ground (arith, documented.law admin_registration (Object.a_user u) key)
    admin_dispatch (Object.a_secret s) =
        ground (arith, documented.law admin_registration (Object.a_secret s) key)

    -- When an object changes, and the controller runtime enqueues what it is documented to, these are
    -- the requests. The database controller gets a database that changed, and for an `AdminConnection`
    -- those of the listed databases whose reference spells out its name and namespace. Databases and, for
    -- an `AdminConnection`, users are listed in all namespaces. The user controller gets a
    -- user that changed, the users that own a secret, for a database the listed users of its namespace
    -- with a permission that names it, and for an `AdminConnection` the listed users whose reference
    -- spells it out. The connection controller gets an `AdminConnection` that changed. Nothing else is
    -- enqueued, and nothing by a list that failed.
    pub dispatched_iff :
        (object : Object)
        → (Any (λ k. k ≡ key) (runtime.dispatch (database_registration lister) object)
            ↔ ForDatabases object)
          × ((Any (λ k. k ≡ key) (runtime.dispatch (user_registration lister) object)
                ↔ ForUsers object)
              × (Any (λ k. k ≡ key) (runtime.dispatch admin_registration object)
                  ↔ ForAdmins object))
    dispatched_iff object =
        (database_dispatch object, (user_dispatch object, admin_dispatch object))
