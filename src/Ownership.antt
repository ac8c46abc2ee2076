-- ===== src/Ownership.antt =====
-- `DatabaseExists` and `UserExists` of orm/model.go, and the tests of ownership that rest on them,
-- `DatabaseMine` and `UserMine` of api/v1alpha1/adminconnection_types.go.
--
-- A query that finds nothing or fails leaves the Go struct as it was: its reply is `none`.
pub mod Evidence
pub mod Rename
pub mod Decided
pub mod Queries
pub mod Steps
pub mod Returns
use mysql_dba_operator.Base.{
  Bytes, Bool, true, false, not, ◌&&◌, ◌||◌, Option, none, some, List, [], ◌∷◌, ◌==◌, if◌then◌else◌,
}
use mysql_dba_operator.Api.{Database, DatabaseUser}
use mysql_dba_operator.Orm.{Handle, ManagedDatabase, ManagedUser, DatabaseSchema, MySqlUser}
use mysql_dba_operator.World.{
  Env, first_schema, first_user, find_managed_database, find_managed_user,
}
use mysql_dba_operator.World.Exec.{Exec, pure, ◌>>=◌, call}

-- The schema that was read, unless its name is still empty.
unfoldable pub named_schema : Option DatabaseSchema → Option DatabaseSchema
named_schema none = none
named_schema (some schema) = if schema.schema_name == [] then none else some schema

unfoldable pub named_user : Option MySqlUser → Option MySqlUser
named_user none = none
named_user (some user) = if user.user == [] then none else some user

abbrev pub no_database : ManagedDatabase
no_database = record { uuid = []; namespace = []; name = []; database_name = [] }

abbrev pub no_user : ManagedUser
no_user = record { uuid = []; namespace = []; name = []; username = [] }

-- The struct after `Find`, from the struct before it.
abbrev pub found_or {ℓ} : {A : Type ℓ} → A → Option A → A
found_or before none = before
found_or before (some row) = row

unfoldable pub database_matches : ManagedDatabase → Database → Bool
database_matches managed database =
    managed.database_name == database.spec.name
    && (managed.name == database.meta.name && managed.namespace == database.meta.namespace)

unfoldable pub user_differs : ManagedUser → Bytes → DatabaseUser → Bool
user_differs managed name user =
    not (managed.username == name)
    || (not (managed.name == user.meta.name) || not (managed.namespace == user.meta.namespace))

-- The names that `UserMine` looks up.
unfoldable pub claimed_names : DatabaseUser → List Bytes
claimed_names user =
    if not (user.spec.username == user.status.username) && not (user.status.username == [])
    then user.spec.username ∷ user.status.username ∷ []
    else user.spec.username ∷ []

module _ (env : Env) where
  unfoldable pub database_exists : Handle → Bytes → Exec (Option DatabaseSchema)
  database_exists db name = do
    found ← call (λ log. env.first_schema log db name) (first_schema db name)
    pure (named_schema found)

  unfoldable pub user_exists : Handle → Bytes → Exec (Option MySqlUser)
  user_exists db name = do
    found ← call (λ log. env.first_user log db name) (first_user db name)
    pure (named_user found)

  unfoldable pub database_mine : Handle → Database → Exec Bool
  unfolding database_exists
  database_mine db database = do
    schema ← database_exists db database.spec.name
    elim schema [
      | none ↦ pure true
      | some _ ↦ do
        row ←
            call (λ log. env.find_managed_database log db database.meta.uid)
              (find_managed_database db database.meta.uid)
        pure (database_matches (found_or no_database row) database)
    ]

  -- The loop over the names, with the struct `managedUser` that is kept from round to round.
  unfoldable pub names_mine : Handle → DatabaseUser → ManagedUser → List Bytes → Exec Bool
  names_mine db user managed [] = pure true
  names_mine db user managed (name ∷ names) = do
    found ← user_exists db name
    elim found [
      | none ↦ names_mine db user managed names
      | some _ ↦ do
        row ←
            call (λ log. env.find_managed_user log db user.meta.uid)
              (find_managed_user db user.meta.uid)
        let rest = names_mine db user (found_or managed row) names
        if user_differs (found_or managed row) name user then pure false else rest
    ]

  unfoldable pub user_mine : Handle → DatabaseUser → Exec Bool
  unfolding names_mine user_exists
  user_mine db user = names_mine db user no_user (claimed_names user)
