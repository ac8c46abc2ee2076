-- ===== src/Sample.antt =====
-- Test data: an operator in a namespace `ops` with one `AdminConnection`, a database and a user in the
-- namespace `shop`, and an API server and a MySQL server that reply the same to every call.
use mysql_dba_operator.Base.{Bytes, true, false, none, some, [], ◌∷◌, codes}
use mysql_dba_operator.Api.{
  ObjectMeta, NamespacedName, AdminConnectionRef, AdminConnection, Database, Identification,
  DatabaseUser,
}
use mysql_dba_operator.Orm.{ManagedDatabase, ManagedUser, DatabaseSchema, MySqlUser}
use mysql_dba_operator.World.{Env, Error, not_found, failure, ok, err, World}
use mysql_dba_operator.Acquire.{Connected}

abbrev pub meta_of : Bytes → Bytes → ObjectMeta
meta_of namespace name = record {
  name = name;
  namespace = namespace;
  uid = name;
  resource_version = codes "1";
  deletion_timestamp = none;
  finalizers = [];
  owner_references = [];
}

abbrev pub main_admin : AdminConnection
main_admin = record {
  meta = meta_of (codes "ops") (codes "main");
  spec = record {
    host = codes "db";
    port = 3306;
    admin_user = none;
    admin_password = none;
    allowed_namespaces = codes "sh*" ∷ [];
  };
  status = record {
    sync_time = 0;
    message = [];
    control_database = [];
    character_set = codes "utf8";
    collation = codes "utf8_bin";
    available_charsets = [];
  };
}

abbrev pub main_ref : AdminConnectionRef
main_ref = record { namespace = codes "ops"; name = codes "main" }

abbrev pub orders : Database
orders = record {
  meta = meta_of (codes "shop") (codes "orders");
  spec = record {
    admin_connection = main_ref;
    name = codes "orders";
    character_set = codes "utf8";
    collate = [];
  };
  status = record {
    creation_time = 0;
    sync_time = 0;
    character_set = [];
    collate = [];
    message = [];
    name = [];
    host = [];
    port = 0;
  };
}

abbrev pub orders_key : NamespacedName
orders_key = record { namespace = codes "shop"; name = codes "orders" }

abbrev pub orders_schema : DatabaseSchema
orders_schema = record {
  schema_name = codes "orders";
  default_character_set = codes "utf8";
  default_collation = codes "utf8_bin";
}

abbrev pub orders_row : ManagedDatabase
orders_row = record {
  uuid = codes "orders";
  namespace = codes "shop";
  name = codes "orders";
  database_name = codes "orders";
}

abbrev pub passwordless : Identification
passwordless = record { auth_plugin = []; auth_string = none; clear_text = false }

-- A user who is `clerk` on the server and shall be `agent`.
abbrev pub clerk : DatabaseUser
clerk = record {
  meta = meta_of (codes "shop") (codes "staff");
  spec = record {
    admin_connection = main_ref;
    username = codes "agent";
    identification = some passwordless;
    database_list = none;
    tls_options = record { required = false };
  };
  status = record {
    creation_time = 0;
    sync_time = 0;
    message = [];
    username = codes "clerk";
    database_list = none;
    grants = [];
    identification = none;
    identification_resource_version = [];
    tls_options = record { required = false };
  };
}

abbrev pub server_user : MySqlUser
server_user = record { host = codes "%"; user = codes "clerk"; plugin = [] }

abbrev pub clerk_row : ManagedUser
clerk_row = record {
  uuid = codes "staff";
  namespace = codes "shop";
  name = codes "staff";
  username = codes "clerk";
}

abbrev pub refused : Error
refused = failure (codes "refused")

-- Every object has its finalizer, every schema is that of `orders`, and every user exists.
abbrev pub sample : Env
sample = record {
  get_database = λ log name. ok orders;
  get_user = λ log name. ok clerk;
  get_admin = λ log name. ok main_admin;
  get_secret = λ log name. err not_found;
  create_secret = λ log secret. ok secret;
  update_secret = λ log secret. none;
  update_database = λ log database. none;
  update_database_status = λ log database. none;
  update_user = λ log user. none;
  update_user_status = λ log user. none;
  exec = λ log db text. some refused;
  query = λ log db text. ok [];
  first_schema = λ log db name. some orders_schema;
  first_user = λ log db name. some server_user;
  find_managed_database = λ log db uid. some orders_row;
  find_managed_user = λ log db uid. some clerk_row;
  create_managed_database = λ log db row. none;
  save_managed_user = λ log db row. none;
  sql_open = λ log config. ok 7;
  ping = λ log pool. none;
  close = λ log pool. none;
  gorm_open = λ log pool. ok 9;
  pool_of = λ log db. ok 7;
  auto_migrate = λ log db. none;
  now = λ log. 5;
  draw = λ log at bound. 0;
  contains_finalizer = λ meta name. true;
  add_finalizer = λ meta name. meta;
  remove_finalizer = λ meta name. record meta { finalizers = [] };
  set_controller_reference = λ user secret. ok secret;
  to_upper = λ s. s;
  itoa = λ n. codes "3306";
}

-- The same, but without the `AdminConnection`.
abbrev pub adrift : Env
adrift = record sample { get_admin = λ log name. err not_found }

-- The same, but no connection pool can be made.
abbrev pub offline : Env
offline = record sample { sql_open = λ log config. err refused }

abbrev pub start : World
start = record { log = []; cache = λ uid. none }

abbrev pub line : Connected
line = record { admin = main_admin; db = 9 }
