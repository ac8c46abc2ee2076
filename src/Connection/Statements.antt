-- ===== src/Connection/Statements.antt =====
-- What acquiring a connection adds to the log: no statement but the two that set up the control
-- database. `T` is any property of logs that admits the other events and these two statements.
use mysql_dba_operator.Base.{
  Bytes, ◌≡◌, ◌⊎◌, inl, inr, refl, Option, none, some, [], ◌∷◌, ◌++◌, codes,
}
use mysql_dba_operator.Api.{SecretKeySelector, SecretKeySource, AdminConnectionRef, AdminConnection}
use mysql_dba_operator.Orm.{Handle, Pool, DbConfig, ConnectionDefinition, database_name}
use mysql_dba_operator.World.{Env, Error, ok, err, exec, Log}
use mysql_dba_operator.World.Traces.{
  AdmitsQuiet, Emits, Emits-call, Emits-quiet, Emits-set_cache, Emits-get_cache, Emits-pure,
  Emits-bind, Emits-if,
}
use mysql_dba_operator.Connection.{
  get_secret_at, get_secret_ref_value, secret_or, get_admin_connection, get_db_config, run,
  switch_database, migrated, opened, create_fresh_connection, pinged, closed, reusable, renewed,
  connected, get_database_connection, close_pool, pool_of_handle, ping_pool, same_config,
}

-- The two statements of `switchDatabase`.
abbrev pub IsControl : Bytes → Type 0
IsControl query =
    (query ≡ codes "CREATE DATABASE IF NOT EXISTS " ++ database_name)
    ⊎ (query ≡ codes "USE " ++ database_name)

pub record AdmitsSetup (T : Log → Type 0) : Type 0 where
  pub others : AdmitsQuiet T
  pub control :
      (db : Handle) (query : Bytes) (reply : Option Error)
      → IsControl query
      → T (exec db query reply ∷ [])

module _ {T : Log → Type 0} (q : AdmitsQuiet T) (env : Env) where
  pub get_secret_at-Emits :
      (namespace : Bytes) (selector : SecretKeySelector)
      → Emits T (get_secret_at env namespace selector)
  unfolding get_secret_at
  get_secret_at-Emits namespace selector = Emits-quiet q _ _ (λ _. tt)

  pub get_secret_ref_value-Emits :
      (namespace : Bytes) (selector : SecretKeySelector)
      → Emits T (get_secret_ref_value env namespace selector)
  unfolding get_secret_ref_value
  get_secret_ref_value-Emits namespace selector =
      Emits-bind q _ _ (get_secret_at-Emits namespace selector) (λ _. Emits-pure q _)

module _ {T : Log → Type 0} (t : AdmitsSetup T) (env : Env) where
  abbrev q : AdmitsQuiet T
  q = t.others

  secret_or-Emits :
      (namespace : Bytes) (source : Option SecretKeySource) (default : Bytes)
      → Emits T (secret_or env namespace source default)
  unfolding secret_or
  secret_or-Emits namespace none default = Emits-pure q _
  secret_or-Emits namespace (some s) default =
      get_secret_ref_value-Emits q env namespace s.secret_key_ref

  get_db_config-Emits : (admin : AdminConnection) → Emits T (get_db_config env admin)
  unfolding get_db_config
  get_db_config-Emits admin = Emits-bind q _ _ (secret_or-Emits _ admin.spec.admin_user _) (elim [
    | err e ↦ Emits-pure q _
    | ok u ↦
        Emits-bind q _ _ (secret_or-Emits _ admin.spec.admin_password _)
          (elim [ err e ↦ Emits-pure q _ | ok p ↦ Emits-pure q _ ])
  ])

  pub get_admin_connection-Emits :
      (namespace : Bytes) (ref : AdminConnectionRef)
      → Emits T (get_admin_connection env namespace ref)
  unfolding get_admin_connection
  get_admin_connection-Emits namespace ref =
      Emits-bind q _ _ (Emits-quiet q _ _ (λ _. tt)) (λ _. Emits-pure q _)

  run_control-Emits : (db : Handle) (query : Bytes) → IsControl query → Emits T (run env db query)
  unfolding run
  run_control-Emits db query h = Emits-call _ _ (λ reply. t.control db query reply h)

  switch_database-Emits : (db : Handle) → Emits T (switch_database env db)
  unfolding switch_database
  switch_database-Emits db =
      Emits-bind q _ _ (run_control-Emits db _ (inl refl))
        (λ _. Emits-bind q _ _ (run_control-Emits db _ (inr refl)) (λ _. Emits-pure q _))

  close_pool-Emits : (pool : Pool) → Emits T (close_pool env pool)
  unfolding close_pool
  close_pool-Emits pool = Emits-quiet q _ _ (λ _. tt)

  ping_pool-Emits : (pool : Pool) → Emits T (ping_pool env pool)
  unfolding ping_pool
  ping_pool-Emits pool = Emits-quiet q _ _ (λ _. tt)

  pool_of_handle-Emits : (db : Handle) → Emits T (pool_of_handle env db)
  unfolding pool_of_handle
  pool_of_handle-Emits db = Emits-quiet q _ _ (λ _. tt)

  migrated-Emits : (pool : Pool) (db : Handle) → Emits T (migrated env pool db)
  unfolding migrated
  migrated-Emits pool db = Emits-bind q _ _ (switch_database-Emits db) (λ _.
      Emits-bind q _ _ (Emits-quiet q _ _ (λ _. tt)) (elim [
        | none ↦ Emits-pure q _
        | some e ↦ Emits-bind q _ _ (close_pool-Emits pool) (λ _. Emits-pure q _)
      ]))

  opened-Emits : (pool : Pool) → Emits T (opened env pool)
  unfolding opened
  opened-Emits pool = Emits-bind q _ _ (Emits-quiet q _ _ (λ _. tt)) (elim [
    | ok d ↦ migrated-Emits pool d
    | err e ↦ Emits-bind q _ _ (close_pool-Emits pool) (λ _. Emits-pure q _)
  ])

  create_fresh_connection-Emits : (config : DbConfig) → Emits T (create_fresh_connection env config)
  unfolding create_fresh_connection
  create_fresh_connection-Emits config = Emits-bind q _ _ (Emits-quiet q _ _ (λ _. tt)) (elim [
    | err e ↦ Emits-pure q _
    | ok p ↦
        Emits-bind q _ _ (ping_pool-Emits p)
          (elim [ none ↦ opened-Emits p | some e ↦ Emits-pure q _ ])
  ])

  pinged-Emits : (conn : ConnectionDefinition) → Emits T (pinged env conn)
  unfolding pinged
  pinged-Emits conn = Emits-bind q _ _ (pool_of_handle-Emits conn.db) (elim [
    | err e ↦ Emits-pure q _
    | ok p ↦
        Emits-bind q _ _ (ping_pool-Emits p)
          (elim [ none ↦ Emits-pure q _ | some e ↦ Emits-pure q _ ])
  ])

  closed-Emits : (conn : ConnectionDefinition) → Emits T (closed env conn)
  unfolding closed
  closed-Emits conn = Emits-bind q _ _ (pool_of_handle-Emits conn.db) (elim [
    | err e ↦ Emits-pure q _
    | ok p ↦ Emits-bind q _ _ (close_pool-Emits p) (λ _. Emits-pure q _)
  ])

  reusable-Emits :
      (conn : Option ConnectionDefinition) (config : DbConfig) → Emits T (reusable env conn config)
  unfolding reusable
  reusable-Emits none config = Emits-pure q _
  reusable-Emits (some conn) config =
      Emits-if q (same_config conn.config config) _ _ (pinged-Emits conn) (closed-Emits conn)

  renewed-Emits : (admin : AdminConnection) (config : DbConfig) → Emits T (renewed env admin config)
  unfolding renewed
  renewed-Emits admin config = Emits-bind q _ _ (Emits-set_cache q _ _) (λ _.
      Emits-bind q _ _ (create_fresh_connection-Emits config) (elim [
        | err e ↦ Emits-pure q _
        | ok db ↦ Emits-bind q _ _ (Emits-set_cache q _ _) (λ _. Emits-pure q _)
      ]))

  connected-Emits :
      (admin : AdminConnection) (config : DbConfig) → Emits T (connected env admin config)
  unfolding connected
  connected-Emits admin config = Emits-bind q _ _ (Emits-get_cache q _) (λ conn.
      Emits-bind q _ _ (reusable-Emits conn config)
        (elim [ some db ↦ Emits-pure q _ | none ↦ renewed-Emits admin config ]))

  pub get_database_connection-Emits :
      (admin : AdminConnection) → Emits T (get_database_connection env admin)
  unfolding get_database_connection
  get_database_connection-Emits admin =
      Emits-bind q _ _ (get_db_config-Emits admin)
        (elim [ err e ↦ Emits-pure q _ | ok c ↦ connected-Emits admin c ])
