-- ===== src/Watches.antt =====
-- What the three controllers ask to be told of: `SetupWithManager` of controllers/database_controller.go,
-- controllers/databaseuser_controller.go and controllers/adminconnection_controller.go. The builder
-- that it calls is that of the controller runtime.
pub mod Dispatched
pub mod Examples
use mysql_dba_operator.Base.{Bytes, Bool, true, false, Option, none, some, List, [], ◌∷◌}
use mysql_dba_operator.Api.{
  ObjectMeta, NamespacedName, Secret, AdminConnection, Database, DatabaseUser,
}
use mysql_dba_operator.World.{Result}
use mysql_dba_operator.Requests.{find_databases, find_users, find_granted}

pub data Kind : Type 0 where
  databases : Kind
  users : Kind
  admins : Kind
  secrets : Kind

abbrev pub same_kind : Kind → Kind → Bool
same_kind Kind.databases Kind.databases = true
same_kind Kind.users Kind.users = true
same_kind Kind.admins Kind.admins = true
same_kind Kind.secrets Kind.secrets = true
same_kind a b = false

-- `client.Object`
pub data Object : Type 0 where
  a_database : Database → Object
  a_user : DatabaseUser → Object
  an_admin : AdminConnection → Object
  a_secret : Secret → Object

abbrev pub kind_of : Object → Kind
kind_of (Object.a_database database) = Kind.databases
kind_of (Object.a_user user) = Kind.users
kind_of (Object.an_admin admin) = Kind.admins
kind_of (Object.a_secret secret) = Kind.secrets

abbrev pub object_meta : Object → ObjectMeta
object_meta (Object.a_database database) = database.meta
object_meta (Object.a_user user) = user.meta
object_meta (Object.an_admin admin) = admin.meta
object_meta (Object.a_secret secret) = secret.meta

-- What `Client.List` returns; users of one namespace, or of all.
pub record Lister : Type 0 where
  pub databases : Result (List Database)
  pub users : Option Bytes → Result (List DatabaseUser)

-- A kind that is watched, and the requests that a change of an object of it makes; `none` is the panic
-- of a type assertion.
pub record Watch : Type 0 where
  pub kind : Kind
  pub requests : Object → Option (List NamespacedName)

-- What the builder is told: `For`, `Owns` and `Watches`.
pub record Registration : Type 0 where
  pub for_kind : Kind
  pub owned_kinds : List Kind
  pub watches : List Watch

module _ (lister : Lister) where
  -- The functions given to `EnqueueRequestsFromMapFunc`.
  databases_of_admin : Object → Option (List NamespacedName)
  databases_of_admin (Object.an_admin admin) = some (find_databases admin lister.databases)
  databases_of_admin object = none

  users_of_database : Object → Option (List NamespacedName)
  users_of_database (Object.a_database database) =
      some (find_granted database (lister.users (some database.meta.namespace)))
  users_of_database object = none

  users_of_admin : Object → Option (List NamespacedName)
  users_of_admin (Object.an_admin admin) = some (find_users admin (lister.users none))
  users_of_admin object = none

  pub database_registration : Registration
  database_registration = record {
    for_kind = Kind.databases;
    owned_kinds = [];
    watches = record { kind = Kind.admins; requests = databases_of_admin } ∷ [];
  }

  pub user_registration : Registration
  user_registration = record {
    for_kind = Kind.users;
    owned_kinds = Kind.secrets ∷ [];
    watches =
        record { kind = Kind.databases; requests = users_of_database }
        ∷ record { kind = Kind.admins; requests = users_of_admin }
        ∷ [];
  }

pub admin_registration : Registration
admin_registration = record { for_kind = Kind.admins; owned_kinds = []; watches = [] }
