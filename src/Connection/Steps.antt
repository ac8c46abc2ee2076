-- ===== src/Connection/Steps.antt =====
-- What `GetDatabaseConnection` does besides its writes to the cache is nothing but calls.
use mysql_dba_operator.Base.{Bytes, Option, none, some}
use mysql_dba_operator.Api.{SecretKeySelector, SecretKeySource, AdminConnectionRef, AdminConnection}
use mysql_dba_operator.Orm.{Handle, Pool, DbConfig, ConnectionDefinition}
use mysql_dba_operator.World.{Env, World, ok, err}
use mysql_dba_operator.World.Traces.{Moves}
use mysql_dba_operator.World.Steps.{AdmitsCalls, Steps-bind, Steps-call, steps}
use mysql_dba_operator.Connection.{
  get_secret_at, get_secret_ref_value, secret_or, get_admin_connection, get_db_config, run,
  switch_database, migrated, opened, create_fresh_connection, pinged, closed, reusable, close_pool,
  pool_of_handle, ping_pool,
}

module _ {R : World → World → Type 0} (c : AdmitsCalls R) (env : Env) where
  pub get_secret_at-Steps :
      (namespace : Bytes) (selector : SecretKeySelector)
      → Moves R (get_secret_at env namespace selector)
  unfolding get_secret_at
  get_secret_at-Steps namespace selector = search (steps, c)

  pub get_secret_ref_value-Steps :
      (namespace : Bytes) (selector : SecretKeySelector)
      → Moves R (get_secret_ref_value env namespace selector)
  unfolding get_secret_ref_value
  get_secret_ref_value-Steps namespace selector = search (steps, c, get_secret_at-Steps)

  secret_or-Steps :
      (namespace : Bytes) (source : Option SecretKeySource) (default : Bytes)
      → Moves R (secret_or env namespace source default)
  unfolding secret_or
  secret_or-Steps namespace none default = search (steps, c)
  secret_or-Steps namespace (some source) default = get_secret_ref_value-Steps namespace _

  pub get_admin_connection-Steps :
      (namespace : Bytes) (ref : AdminConnectionRef)
      → Moves R (get_admin_connection env namespace ref)
  unfolding get_admin_connection
  get_admin_connection-Steps namespace ref = search (steps, c)

  pub get_db_config-Steps : (admin : AdminConnection) → Moves R (get_db_config env admin)
  unfolding get_db_config
  get_db_config-Steps admin = Steps-bind c _ _ (secret_or-Steps _ _ _) (elim [
    | err e ↦ search (steps, c)
    | ok u ↦
        Steps-bind c _ _ (secret_or-Steps _ _ _)
          (elim [ err e ↦ search (steps, c) | ok p ↦ search (steps, c) ])
  ])

  pub run-Steps : (db : Handle) (query : Bytes) → Moves R (run env db query)
  unfolding run
  run-Steps db query = search (steps, c)

  switch_database-Steps : (db : Handle) → Moves R (switch_database env db)
  unfolding switch_database
  switch_database-Steps db = search (steps, c, run-Steps)

  ping_pool-Steps : (pool : Pool) → Moves R (ping_pool env pool)
  unfolding ping_pool
  ping_pool-Steps pool = search (steps, c)

  close_pool-Steps : (pool : Pool) → Moves R (close_pool env pool)
  unfolding close_pool
  close_pool-Steps pool = search (steps, c)

  pool_of_handle-Steps : (db : Handle) → Moves R (pool_of_handle env db)
  unfolding pool_of_handle
  pool_of_handle-Steps db = search (steps, c)

  migrated-Steps : (pool : Pool) (db : Handle) → Moves R (migrated env pool db)
  unfolding migrated
  migrated-Steps pool db = Steps-bind c _ _ (switch_database-Steps db) (λ _.
      Steps-bind c _ _ (Steps-call c _ _)
        (elim [ none ↦ search (steps, c) | some e ↦ search (steps, c, close_pool-Steps) ]))

  opened-Steps : (pool : Pool) → Moves R (opened env pool)
  unfolding opened
  opened-Steps pool =
      Steps-bind c _ _ (Steps-call c _ _)
        (elim [ ok d ↦ migrated-Steps pool d | err e ↦ search (steps, c, close_pool-Steps) ])

  pub create_fresh_connection-Steps :
      (config : DbConfig) → Moves R (create_fresh_connection env config)
  unfolding create_fresh_connection
  create_fresh_connection-Steps config = Steps-bind c _ _ (Steps-call c _ _) (elim [
    | err e ↦ search (steps, c)
    | ok p ↦
        Steps-bind c _ _ (ping_pool-Steps p)
          (elim [ none ↦ opened-Steps p | some e ↦ search (steps, c) ])
  ])

  pinged-Steps : (conn : ConnectionDefinition) → Moves R (pinged env conn)
  unfolding pinged
  pinged-Steps conn = Steps-bind c _ _ (pool_of_handle-Steps conn.db) (elim [
    | err e ↦ search (steps, c)
    | ok p ↦
        Steps-bind c _ _ (ping_pool-Steps p)
          (elim [ none ↦ search (steps, c) | some e ↦ search (steps, c) ])
  ])

  closed-Steps : (conn : ConnectionDefinition) → Moves R (closed env conn)
  unfolding closed
  closed-Steps conn =
      Steps-bind c _ _ (pool_of_handle-Steps conn.db)
        (elim [ err e ↦ search (steps, c) | ok p ↦ search (steps, c, close_pool-Steps) ])

  pub reusable-Steps :
      (conn : Option ConnectionDefinition) (config : DbConfig) → Moves R (reusable env conn config)
  unfolding reusable
  reusable-Steps none config = search (steps, c)
  reusable-Steps (some conn) config = search (steps, c, pinged-Steps, closed-Steps)
