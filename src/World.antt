-- ===== src/World.antt =====
-- What the operator talks to: the Kubernetes API, the MySQL server, the clock, the random source and
-- the helpers of the controller runtime. None of it is code of the repository, so it is a parameter,
-- `Env`: the reply to a call is any function of the calls and replies before it (`Log`). A reply may
-- so depend on all that was done, and on what others do in between.
--
-- The state of a reconciler is the log and the connection cache, the one shared map of main.go. A Go
-- function returns a value or panics; an `error` is a value.
pub mod Exec
pub mod Traces
pub mod Total
pub mod Ensures
pub mod Steps
use mysql_dba_operator.Base.{ℕ, Bytes, Bool, Option, List, not}
use mysql_dba_operator.Api.{
  NamespacedName, ObjectMeta, Secret, AdminConnection, Database, DatabaseUser,
}
use mysql_dba_operator.Orm.{
  Handle, Pool, ManagedDatabase, ManagedUser, DatabaseSchema, MySqlUser, DbConfig,
  ConnectionDefinition,
}

-- An `error`. `not_found` are those that `errors.IsNotFound` accepts.
pub data Error : Type 0 where
  not_found : Error
  failure : Bytes → Error

-- A pair `(value, error)` of which one half is set.
pub data Result {ℓ} (A : Type ℓ) : Type ℓ where
  ok : A → Result A
  err : Error → Result A

-- A value of `map[string]interface{}`: `nil`, a string, or another value, by its `%v` text.
pub data Value : Type 0 where
  null : Value
  text : Bytes → Value
  opaque : Bytes → Value

-- A row, its columns in the order in which `range` visits the map.
abbrev pub Row : Type 0
Row = List (Bytes × Value)

-- A call with its reply. A call whose reply the code ignores has none here.
pub data Event : Type 0 where
  get_database : NamespacedName → Result Database → Event
  get_user : NamespacedName → Result DatabaseUser → Event
  get_admin : NamespacedName → Result AdminConnection → Event
  get_secret : NamespacedName → Result Secret → Event
  create_secret : Secret → Result Secret → Event
  update_secret : Secret → Option Error → Event
  update_database : Database → Option Error → Event
  update_database_status : Database → Option Error → Event
  update_user : DatabaseUser → Option Error → Event
  update_user_status : DatabaseUser → Option Error → Event
  update_admin_status : AdminConnection → Event
  exec : Handle → Bytes → Option Error → Event
  query : Handle → Bytes → Result (List Row) → Event
  first_schema : Handle → Bytes → Option DatabaseSchema → Event
  first_user : Handle → Bytes → Option MySqlUser → Event
  find_managed_database : Handle → Bytes → Option ManagedDatabase → Event
  find_managed_user : Handle → Bytes → Option ManagedUser → Event
  create_managed_database : Handle → ManagedDatabase → Option Error → Event
  save_managed_user : Handle → ManagedUser → Option Error → Event
  delete_managed_database : Handle → Bytes → Event
  delete_managed_user : Handle → Bytes → Event
  commit : Handle → Event
  sql_open : DbConfig → Result Pool → Event
  ping : Pool → Option Error → Event
  close : Pool → Option Error → Event
  gorm_open : Pool → Result Handle → Event
  pool_of : Handle → Result Pool → Event
  auto_migrate : Handle → Option Error → Event

abbrev pub Log : Type 0
Log = List Event

pub record Env : Type 0 where
  -- client.Client
  pub get_database : Log → NamespacedName → Result Database
  pub get_user : Log → NamespacedName → Result DatabaseUser
  pub get_admin : Log → NamespacedName → Result AdminConnection
  pub get_secret : Log → NamespacedName → Result Secret
  pub create_secret : Log → Secret → Result Secret
  pub update_secret : Log → Secret → Option Error
  pub update_database : Log → Database → Option Error
  pub update_database_status : Log → Database → Option Error
  pub update_user : Log → DatabaseUser → Option Error
  pub update_user_status : Log → DatabaseUser → Option Error
  -- gorm and database/sql
  pub exec : Log → Handle → Bytes → Option Error
  pub query : Log → Handle → Bytes → Result (List Row)
  pub first_schema : Log → Handle → Bytes → Option DatabaseSchema
  pub first_user : Log → Handle → Bytes → Option MySqlUser
  pub find_managed_database : Log → Handle → Bytes → Option ManagedDatabase
  pub find_managed_user : Log → Handle → Bytes → Option ManagedUser
  pub create_managed_database : Log → Handle → ManagedDatabase → Option Error
  pub save_managed_user : Log → Handle → ManagedUser → Option Error
  pub sql_open : Log → DbConfig → Result Pool
  pub ping : Log → Pool → Option Error
  pub close : Log → Pool → Option Error
  pub gorm_open : Log → Pool → Result Handle
  pub pool_of : Log → Handle → Result Pool
  pub auto_migrate : Log → Handle → Option Error
  -- time.Now
  pub now : Log → ℕ
  -- rand.Int: the draw of that index, below the bound
  pub draw : Log → ℕ → ℕ → ℕ
  -- controllerutil
  pub contains_finalizer : ObjectMeta → Bytes → Bool
  pub add_finalizer : ObjectMeta → Bytes → ObjectMeta
  pub remove_finalizer : ObjectMeta → Bytes → ObjectMeta
  pub set_controller_reference : DatabaseUser → Secret → Result Secret
  -- strings.ToUpper and strconv.Itoa
  pub to_upper : Bytes → Bytes
  pub itoa : ℕ → Bytes

abbrev pub Cache : Type 0
Cache = Bytes → Option ConnectionDefinition

pub record World : Type 0 where
  pub log : Log
  pub cache : Cache
