-- ===== src/Connection/Interleaved.antt =====
-- `GetDatabaseConnection` (api/v1alpha1/adminconnection_types.go) at the grain at which goroutines of
-- the three controllers interleave: one call, or one access of the shared cache, is one step. What is
-- live between two steps stands in the program counter.
pub mod Alone
pub mod Threads
pub mod Traced
pub mod Schedules
mod Examples
use mysql_dba_operator.Base.{
  ℕ, zero, suc, Bytes, Bool, true, false, Option, none, some, [], ◌++◌, codes, if◌then◌else◌,
}
use mysql_dba_operator.Api.{AdminConnection}
use mysql_dba_operator.Orm.{Handle, Pool, DbConfig, ConnectionDefinition, database_name}
use mysql_dba_operator.World.{Env, Error, Result, ok, err, auto_migrate, gorm_open, sql_open}
use mysql_dba_operator.World.Exec.{Exec, pure, ◌>>=◌, ◌>>◌, call, get_cache, set_cache}
use mysql_dba_operator.Connection.{
  secret_or, same_config, run, close_pool, pool_of_handle, ping_pool,
}

-- What the function does next, with the variables that it still uses.
pub data Pc : Type 0 where
  -- getDbConfig
  reading_user : Pc
  reading_password : Bytes → Pc
  -- cache[in.UID]
  looking_up : DbConfig → Pc
  -- conn.DB.DB()
  pooling : DbConfig → ConnectionDefinition → Pc
  -- rawDatabase.Ping(), rawDatabase.Close()
  pinging : DbConfig → Handle → Pool → Pc
  closing : DbConfig → Pool → Pc
  -- delete(cache, in.UID)
  erasing : DbConfig → Pc
  -- createFreshConnection
  opening_pool : DbConfig → Pc
  testing : DbConfig → Pool → Pc
  wrapping : DbConfig → Pool → Pc
  creating : DbConfig → Pool → Handle → Pc
  using : DbConfig → Pool → Handle → Pc
  migrating : DbConfig → Pool → Handle → Pc
  discarding : Pool → Error → Pc
  -- cache[in.UID] = newEntry
  entering : DbConfig → Handle → Pc
  returned : Result Handle → Pc

module _ (env : Env) (admin : AdminConnection) where
  with_user : Result Bytes → Pc
  with_user (ok user) = Pc.reading_password user
  with_user (err e) = Pc.returned (err e)

  with_password : Bytes → Result Bytes → Pc
  with_password user (err e) = Pc.returned (err e)
  with_password user (ok passwd) = Pc.looking_up (record {
    net = codes "tcp";
    db_name = codes "mysql";
    parse_time = true;
    allow_native_passwords = true;
    tls_config = codes "preferred";
    addr = admin.spec.host ++ (codes ":" ++ env.itoa admin.spec.port);
    user = user;
    passwd = passwd;
  })

  with_entry : DbConfig → Option ConnectionDefinition → Pc
  with_entry config none = Pc.erasing config
  with_entry config (some conn) = Pc.pooling config conn

  -- The pool of an entry is pinged if the configuration is the same, else closed.
  with_old_pool : DbConfig → ConnectionDefinition → Result Pool → Pc
  with_old_pool config conn (err e) = Pc.erasing config
  with_old_pool config conn (ok pool) =
      if same_config conn.config config
      then Pc.pinging config conn.db pool
      else Pc.closing config pool

  with_answer : DbConfig → Handle → Option Error → Pc
  with_answer config db none = Pc.returned (ok db)
  with_answer config db (some e) = Pc.erasing config

  with_pool : DbConfig → Result Pool → Pc
  with_pool config (ok pool) = Pc.testing config pool
  with_pool config (err e) = Pc.returned (err e)

  with_test : DbConfig → Pool → Option Error → Pc
  with_test config pool none = Pc.wrapping config pool
  with_test config pool (some e) = Pc.returned (err e)

  with_handle : DbConfig → Pool → Result Handle → Pc
  with_handle config pool (ok db) = Pc.creating config pool db
  with_handle config pool (err e) = Pc.discarding pool e

  with_migration : DbConfig → Pool → Handle → Option Error → Pc
  with_migration config pool db none = Pc.entering config db
  with_migration config pool db (some e) = Pc.discarding pool e

  -- One step.
  pub step : Pc → Exec Pc
  unfolding with_user with_password with_entry with_old_pool with_answer with_pool with_test
      with_handle with_migration
  step Pc.reading_user = do
    user ← secret_or env admin.meta.namespace admin.spec.admin_user (codes "root")
    pure (with_user user)
  step (Pc.reading_password user) = do
    passwd ← secret_or env admin.meta.namespace admin.spec.admin_password []
    pure (with_password user passwd)
  step (Pc.looking_up config) = do conn ← get_cache admin.meta.uid; pure (with_entry config conn)
  step (Pc.pooling config conn) = do
    pool ← pool_of_handle env conn.db
    pure (with_old_pool config conn pool)
  step (Pc.pinging config db pool) = do
    failed ← ping_pool env pool
    pure (with_answer config db failed)
  step (Pc.closing config pool) = do _ ← close_pool env pool; pure (Pc.erasing config)
  step (Pc.erasing config) = do set_cache admin.meta.uid none; pure (Pc.opening_pool config)
  step (Pc.opening_pool config) = do
    pool ← call (λ log. env.sql_open log config) (sql_open config)
    pure (with_pool config pool)
  step (Pc.testing config pool) = do
    failed ← ping_pool env pool
    pure (with_test config pool failed)
  step (Pc.wrapping config pool) = do
    db ← call (λ log. env.gorm_open log pool) (gorm_open pool)
    pure (with_handle config pool db)
  step (Pc.creating config pool db) = do
    _ ← run env db (codes "CREATE DATABASE IF NOT EXISTS " ++ database_name)
    pure (Pc.using config pool db)
  step (Pc.using config pool db) = do
    _ ← run env db (codes "USE " ++ database_name)
    pure (Pc.migrating config pool db)
  step (Pc.migrating config pool db) = do
    failed ← call (λ log. env.auto_migrate log db) (auto_migrate db)
    pure (with_migration config pool db failed)
  step (Pc.discarding pool e) = do _ ← close_pool env pool; pure (Pc.returned (err e))
  step (Pc.entering config db) = do
    set_cache admin.meta.uid (some (record { config = config; db = db }))
    pure (Pc.returned (ok db))
  step (Pc.returned db) = pure (Pc.returned db)
