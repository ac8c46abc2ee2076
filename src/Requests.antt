-- ===== src/Requests.antt =====
-- The lists of objects to reconcile when another object changes: `findObjectsForAdminConnection` of
-- controllers/database_controller.go, and the function of that name and `findObjectsForDatabase` of
-- controllers/databaseuser_controller.go. What `Client.List` returned is an argument; an error and
-- an empty list of requests are both `nil`.
pub mod Complete
pub mod Examples
use mysql_dba_operator.Base.{Bytes, Bool, true, false, ◌&&◌, List, [], ◌∷◌, ◌==◌, if◌then◌else◌}
use mysql_dba_operator.Api.{
  ObjectMeta, NamespacedName, AdminConnectionRef, AdminConnection, Database, DatabasePermission,
  DatabaseUser,
}
use mysql_dba_operator.World.{Result, ok, err}
use mysql_dba_operator.User.Grants.{members}

-- `client.ObjectKeyFromObject`
abbrev pub object_key : ObjectMeta → NamespacedName
object_key meta = record { namespace = meta.namespace; name = meta.name }

pub refers : AdminConnectionRef → AdminConnection → Bool
refers ref admin = ref.name == admin.meta.name && ref.namespace == admin.meta.namespace

-- The loop over the databases.
database_requests : AdminConnection → List Database → List NamespacedName
database_requests admin [] = []
database_requests admin (db ∷ items) =
    let rest = database_requests admin items in
    if refers db.spec.admin_connection admin then object_key db.meta ∷ rest else rest

pub find_databases : AdminConnection → Result (List Database) → List NamespacedName
find_databases admin (err e) = []
find_databases admin (ok items) = database_requests admin items

-- The loop over the users.
user_requests : AdminConnection → List DatabaseUser → List NamespacedName
user_requests admin [] = []
user_requests admin (user ∷ items) =
    let rest = user_requests admin items in
    if refers user.spec.admin_connection admin then object_key user.meta ∷ rest else rest

pub find_users : AdminConnection → Result (List DatabaseUser) → List NamespacedName
find_users admin (err e) = []
find_users admin (ok items) = user_requests admin items

-- The inner loop of `findObjectsForDatabase`, which ends at the first permission for the database.
pub names_database : Database → List DatabasePermission → Bool
names_database database [] = false
names_database database (permission ∷ rest) =
    let later = names_database database rest in
    if permission.name == database.meta.name then true else later

-- The outer loop, over the users in the namespace of the database.
granted_requests : Database → List DatabaseUser → List NamespacedName
granted_requests database [] = []
granted_requests database (user ∷ items) =
    let rest = granted_requests database items in
    if names_database database (members user.spec.database_list)
    then object_key user.meta ∷ rest
    else rest

pub find_granted : Database → Result (List DatabaseUser) → List NamespacedName
find_granted database (err e) = []
find_granted database (ok items) = granted_requests database items
