-- ===== src/Connection.antt =====
-- `GetSecret`, `GetSecretRefValue` (api/v1alpha1/common.go), `GetAdminConnection`, `getDbConfig`,
-- `GetDatabaseConnection` and `createFreshConnection` (api/v1alpha1/adminconnection_types.go): from
-- a reference to an `AdminConnection` to a database handle, through the shared cache.
pub mod Examples
pub mod Access
pub mod Cached
pub mod Steps
pub mod Returns
pub mod Sound
pub mod Refinement
pub mod Interleaved
pub mod Statements
use mysql_dba_operator.Base.{
  ℕ, Bytes, Bool, true, false, ◌&&◌, ◌||◌, not, Option, none, some, List, [], ◌∷◌, ◌++◌, codes,
  ◌==◌, if◌then◌else◌,
}
use mysql_dba_operator.Api.{
  NamespacedName, SecretKeySelector, SecretKeySource, Secret, AdminConnectionRef, AdminConnection,
}
use mysql_dba_operator.Namespace.{allowed_namespace}
use mysql_dba_operator.Orm.{Handle, Pool, DbConfig, ConnectionDefinition, database_name}
use mysql_dba_operator.World.{
  Env, Error, not_found, failure, Result, ok, err, get_admin, get_secret, exec, sql_open, ping,
  close, gorm_open, pool_of, auto_migrate,
}
use mysql_dba_operator.World.Exec.{Exec, pure, ◌>>=◌, ◌>>◌, call, get_cache, set_cache}

-- `secret.Data[key]`
unfoldable pub entry_of : List (Bytes × Bytes) → Bytes → Option Bytes
entry_of [] key = none
entry_of ((k, value) ∷ rest) key = if k == key then some value else entry_of rest key

bool_eq : Bool → Bool → Bool
bool_eq true b = b
bool_eq false b = not b

-- `reflect.DeepEqual` on the configurations.
unfoldable pub same_config : DbConfig → DbConfig → Bool
unfolding bool_eq
same_config a b =
    a.net == b.net
    && (a.db_name == b.db_name
        && (bool_eq a.parse_time b.parse_time
            && (bool_eq a.allow_native_passwords b.allow_native_passwords
                && (a.tls_config == b.tls_config
                    && (a.addr == b.addr && (a.user == b.user && a.passwd == b.passwd))))))

entry_or_error : SecretKeySelector → Option Bytes → Result Bytes
entry_or_error selector (some value) = ok value
entry_or_error selector none =
    err
      (failure (codes "key " ++ (selector.key ++ (codes " not found in secret " ++ selector.name))))

-- The value of the selected key, or the error of the read.
keyed : SecretKeySelector → Result Secret → Result Bytes
unfolding entry_of entry_or_error
keyed selector (err e) = err e
keyed selector (ok secret) = entry_or_error selector (entry_of secret.entries selector.key)

module _ (env : Env) where
  unfoldable pub get_secret_at : Bytes → SecretKeySelector → Exec (Result Secret)
  get_secret_at namespace selector =
      let key : NamespacedName = record { namespace = namespace; name = selector.name } in
      call (λ log. env.get_secret log key) (get_secret key)

  pub get_secret_ref_value : Bytes → SecretKeySelector → Exec (Result Bytes)
  get_secret_ref_value namespace selector = do
    secret ← get_secret_at namespace selector
    pure (keyed selector secret)

  -- A value of a secret, or the default where no secret is named.
  pub secret_or : Bytes → Option SecretKeySource → Bytes → Exec (Result Bytes)
  secret_or namespace none default = pure (ok default)
  secret_or namespace (some source) default = get_secret_ref_value namespace source.secret_key_ref

  -- `AllowedNamespace` on what was fetched.
  unfoldable pub checked : Bytes → Result AdminConnection → Option AdminConnection × Option Error
  checked namespace (err not_found) = (none, none)
  checked namespace (err (failure e)) = (none, some (failure e))
  checked namespace (ok admin) = if allowed_namespace admin namespace then (some admin, none) else (
    none,
    some (failure (codes "namespace not permitted by AdminConnection for this DatabaseUser")),
  )

  unfoldable pub get_admin_connection :
      Bytes → AdminConnectionRef → Exec (Option AdminConnection × Option Error)
  get_admin_connection namespace ref = do
    let key : NamespacedName = record {
      namespace = if ref.namespace == [] then namespace else ref.namespace;
      name = ref.name;
    }
    admin ← call (λ log. env.get_admin log key) (get_admin key)
    pure (checked namespace admin)

  pub get_db_config : AdminConnection → Exec (Result DbConfig)
  get_db_config admin = do
    user ← secret_or admin.meta.namespace admin.spec.admin_user (codes "root")
    elim user [
      | err e ↦ pure (err e)
      | ok u ↦ do
        passwd ← secret_or admin.meta.namespace admin.spec.admin_password []
        elim passwd [
          | err e ↦ pure (err e)
          | ok p ↦ pure (
              ok (record {
                net = codes "tcp";
                db_name = codes "mysql";
                parse_time = true;
                allow_native_passwords = true;
                tls_config = codes "preferred";
                addr = admin.spec.host ++ (codes ":" ++ env.itoa admin.spec.port);
                user = u;
                passwd = p;
              }))
        ]
    ]

  unfoldable pub run : Handle → Bytes → Exec (Option Error)
  run db query = call (λ log. env.exec log db query) (exec db query)

  -- The results of the two statements are ignored.
  pub switch_database : Handle → Exec (Unit {0})
  switch_database db = do
    _ ← run db (codes "CREATE DATABASE IF NOT EXISTS " ++ database_name)
    _ ← run db (codes "USE " ++ database_name)
    pure tt

  close_pool : Pool → Exec (Option Error)
  close_pool pool = call (λ log. env.close log pool) (close pool)

  pool_of_handle : Handle → Exec (Result Pool)
  pool_of_handle db = call (λ log. env.pool_of log db) (pool_of db)

  ping_pool : Pool → Exec (Option Error)
  ping_pool pool = call (λ log. env.ping log pool) (ping pool)

  -- The control database is created and migrated; a pool that cannot be set up is closed.
  pub migrated : Pool → Handle → Exec (Result Handle)
  migrated pool db = do
    switch_database db
    failed ← call (λ log. env.auto_migrate log db) (auto_migrate db)
    elim failed [ none ↦ pure (ok db) | some e ↦ do _ ← close_pool pool; pure (err e) ]

  opened : Pool → Exec (Result Handle)
  opened pool = do
    db ← call (λ log. env.gorm_open log pool) (gorm_open pool)
    elim db [ ok d ↦ migrated pool d | err e ↦ do _ ← close_pool pool; pure (err e) ]

  pub create_fresh_connection : DbConfig → Exec (Result Handle)
  create_fresh_connection config = do
    pool ← call (λ log. env.sql_open log config) (sql_open config)
    elim pool [
      | err e ↦ pure (err e)
      | ok p ↦ do failed ← ping_pool p; elim failed [ none ↦ opened p | some e ↦ pure (err e) ]
    ]

  -- A cached pool of the same configuration serves if it answers a ping.
  pinged : ConnectionDefinition → Exec (Option Handle)
  pinged conn = do
    pool ← pool_of_handle conn.db
    elim pool [
      | err e ↦ pure none
      | ok p ↦ do
        failed ← ping_pool p
        elim failed [ none ↦ pure (some conn.db) | some e ↦ pure none ]
    ]

  -- One of another configuration is closed.
  closed : ConnectionDefinition → Exec (Option Handle)
  closed conn = do
    pool ← pool_of_handle conn.db
    elim pool [ err e ↦ pure none | ok p ↦ do _ ← close_pool p; pure none ]

  -- The handle to reuse; `none` is `newConnection`.
  pub reusable : Option ConnectionDefinition → DbConfig → Exec (Option Handle)
  reusable none config = pure none
  reusable (some conn) config = if same_config conn.config config then pinged conn else closed conn

  -- The branch for a new connection.
  pub renewed : AdminConnection → DbConfig → Exec (Result Handle)
  renewed admin config = do
    set_cache admin.meta.uid none
    fresh ← create_fresh_connection config
    elim fresh [
      | err e ↦ pure (err e)
      | ok db ↦ do
        set_cache admin.meta.uid (some (record { config = config; db = db }))
        pure (ok db)
    ]

  connected : AdminConnection → DbConfig → Exec (Result Handle)
  connected admin config = do
    conn ← get_cache admin.meta.uid
    reuse ← reusable conn config
    elim reuse [ some db ↦ pure (ok db) | none ↦ renewed admin config ]

  pub get_database_connection : AdminConnection → Exec (Result Handle)
  get_database_connection admin = do
    config ← get_db_config admin
    elim config [ err e ↦ pure (err e) | ok c ↦ connected admin c ]
