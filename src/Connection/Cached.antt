-- ===== src/Connection/Cached.antt =====
-- The connection cache after `GetDatabaseConnection`.
use mysql_dba_operator.Base.{
  Bytes, Bool, true, ◌≡◌, ◌≢◌, refl, ◌∙◌, ap, Option, none, some, arith, ==_iff, ==_refl,
}
use mysql_dba_operator.Api.{AdminConnection}
use mysql_dba_operator.Orm.{Handle, DbConfig, ConnectionDefinition}
use mysql_dba_operator.World.{Env, World, Cache, Error, ok, err}
use mysql_dba_operator.World.Exec.{done, Exec, pure, ◌>>=◌, call, get_cache, set_cache, update}
use mysql_dba_operator.World.Traces.{
  IsPreorder, Moves, Moves-pure, Moves-bind, Moves-if, SameCache, SameCache-IsPreorder,
}
use mysql_dba_operator.Connection.{
  get_secret_at, get_secret_ref_value, keyed, secret_or, get_db_config, run, switch_database,
  migrated, opened, create_fresh_connection, pinged, closed, reusable, renewed, connected,
  get_database_connection, close_pool, pool_of_handle, ping_pool, same_config, bool_eq,
}

abbrev pub Keeps : {A : Type 0} → Exec A → Type 0
Keeps = Moves SameCache

Keeps-pure : {A : Type 0} (a : A) → Keeps (pure a)
Keeps-pure = Moves-pure SameCache-IsPreorder

Keeps-bind :
    {A B : Type 0} (m : Exec A) (f : A → Exec B)
    → Keeps m
    → ((a : A) → Keeps (f a))
    → Keeps (m >>= f)
Keeps-bind = Moves-bind SameCache-IsPreorder

bool_eq-eq : (a b : Bool) → bool_eq a b ≡ true → a ≡ b
unfolding bool_eq
bool_eq-eq a b h = ground arith

-- The comparison of configurations is equality.
pub same_config-eq : (a b : DbConfig) → same_config a b ≡ true → a ≡ b
unfolding same_config
same_config-eq a b h = ground (
  arith,
  ==_iff a.net b.net,
  ==_iff a.db_name b.db_name,
  ==_iff a.tls_config b.tls_config,
  ==_iff a.addr b.addr,
  ==_iff a.user b.user,
  ==_iff a.passwd b.passwd,
  bool_eq-eq a.parse_time b.parse_time,
  bool_eq-eq a.allow_native_passwords b.allow_native_passwords,
)

abbrev SameEntry : Bytes → World → World → Type 0
SameEntry uid w v = v.cache uid ≡ w.cache uid

SameEntry-IsPreorder : (uid : Bytes) → IsPreorder (SameEntry uid)
SameEntry-IsPreorder uid = record { here = λ w. refl; chain = λ p q. q ∙ p }

module _ (env : Env) where
  pub get_db_config-Keeps : (admin : AdminConnection) → Keeps (get_db_config env admin)
  unfolding get_db_config secret_or get_secret_ref_value get_secret_at keyed call
  get_db_config-Keeps admin = record { at = λ w. ground arith }

  create_fresh_connection-Keeps : (config : DbConfig) → Keeps (create_fresh_connection env config)
  unfolding create_fresh_connection opened migrated switch_database run close_pool ping_pool call
  create_fresh_connection-Keeps config = record { at = λ w. ground arith }

  pinged-Keeps : (conn : ConnectionDefinition) → Keeps (pinged env conn)
  unfolding pinged pool_of_handle ping_pool call
  pinged-Keeps conn = record { at = λ w. ground arith }

  closed-Keeps : (conn : ConnectionDefinition) → Keeps (closed env conn)
  unfolding closed close_pool pool_of_handle call
  closed-Keeps conn = record { at = λ w. ground arith }

  pub reusable-Keeps :
      (conn : Option ConnectionDefinition) (config : DbConfig) → Keeps (reusable env conn config)
  unfolding reusable
  reusable-Keeps none config = record { at = λ w. refl }
  reusable-Keeps (some conn) config =
      Moves-if SameCache-IsPreorder (same_config conn.config config) _ _ (pinged-Keeps conn)
        (closed-Keeps conn)

  -- Only a cached handle of the wanted configuration is reused.
  pub reusable-eq :
      (conn : Option ConnectionDefinition) (config : DbConfig) (w : World) (db : Handle)
      → (reusable env conn config w).0 ≡ done (some db)
      → conn ≡ some (record { config = config; db = db })
  unfolding reusable pinged closed close_pool pool_of_handle ping_pool call
  reusable-eq none config w db h = cc
  reusable-eq (some conn) config w db h = ground (arith, same_config-eq conn.config config)

  module _ (admin : AdminConnection) where
    abbrev pub uid : Bytes
    uid = admin.meta.uid

    -- The entries of other connections stay as they are.
    pub renewed_other :
        (config : DbConfig) (w : World) (other : Bytes)
        → uid ≢ other
        → (renewed env admin config w).1.cache other ≡ w.cache other
    unfolding renewed set_cache update
    renewed_other config w other h = ground (
      arith,
      ==_iff uid other,
      (create_fresh_connection-Keeps config).at (record w { cache = update w.cache uid none }),
    )

    pub renewed_ok :
        (config : DbConfig) (w : World) (db : Handle)
        → (renewed env admin config w).0 ≡ done (ok db)
        → (renewed env admin config w).1.cache uid ≡ some (record { config = config; db = db })
    unfolding renewed set_cache update
    renewed_ok config w db h = ground (arith, ==_refl uid)

    pub renewed_err :
        (config : DbConfig) (w : World) (e : Error)
        → (renewed env admin config w).0 ≡ done (err e)
        → (renewed env admin config w).1.cache uid ≡ none
    unfolding renewed set_cache update
    renewed_err config w e h = ground (
      arith,
      ==_refl uid,
      (create_fresh_connection-Keeps config).at (record w { cache = update w.cache uid none }),
    )

    connected_other :
        (config : DbConfig) (w : World) (other : Bytes)
        → uid ≢ other
        → (connected env admin config w).1.cache other ≡ w.cache other
    unfolding connected get_cache
    connected_other config w other h =
        let reuse = reusable env (w.cache uid) config w in
        ground (
          arith,
          ap (λ (c : Cache). c other) ((reusable-Keeps (w.cache uid) config).at w),
          renewed_other config reuse.1 other h,
        )

    connected_ok :
        (config : DbConfig) (w : World) (db : Handle)
        → (connected env admin config w).0 ≡ done (ok db)
        → (connected env admin config w).1.cache uid ≡ some (record { config = config; db = db })
    unfolding connected get_cache
    connected_ok config w db h =
        let reuse = reusable env (w.cache uid) config w in
        ground (
          arith,
          ap (λ (c : Cache). c uid) ((reusable-Keeps (w.cache uid) config).at w),
          reusable-eq (w.cache uid) config w db,
          renewed_ok config reuse.1 db,
        )

    connected_err :
        (config : DbConfig) (w : World) (e : Error)
        → (connected env admin config w).0 ≡ done (err e)
        → (connected env admin config w).1.cache uid ≡ none
    unfolding connected get_cache
    connected_err config w e h =
        ground (arith, renewed_err config (reusable env (w.cache uid) config w).1 e)

    -- The connections of other resources stay as they are in the cache.
    get_database_connection-cache_other :
        (w : World) (other : Bytes)
        → uid ≢ other
        → (get_database_connection env admin w).1.cache other ≡ w.cache other
    unfolding get_database_connection
    get_database_connection-cache_other w other h =
        (Moves-bind (SameEntry-IsPreorder other) (get_db_config env admin) _
            (record { at = λ v. ap (λ (c : Cache). c other) ((get_db_config-Keeps admin).at v) })
            (elim [
              | err e ↦ Moves-pure (SameEntry-IsPreorder other) (err e)
              | ok c ↦ record { at = λ v. connected_other c v other h }
            ])).at
          w

    -- If the configuration could be read, a connection that is handed out is the one that the cache
    -- then holds for the UID, with that configuration.
    get_database_connection-cache_ok :
        (w : World) (config : DbConfig) (db : Handle)
        → (get_db_config env admin w).0 ≡ done (ok config)
        → (get_database_connection env admin w).0 ≡ done (ok db)
        → (get_database_connection env admin w).1.cache uid
          ≡ some (record { config = config; db = db })
    unfolding get_database_connection
    get_database_connection-cache_ok w config db read got =
        rw (read, get_database_connection)
          (connected_ok config _ db (rw (read, get_database_connection) at got))

    -- If the configuration could be read and no connection was handed out, the cache then holds
    -- nothing for the UID.
    get_database_connection-cache_err :
        (w : World) (config : DbConfig) (e : Error)
        → (get_db_config env admin w).0 ≡ done (ok config)
        → (get_database_connection env admin w).0 ≡ done (err e)
        → (get_database_connection env admin w).1.cache uid ≡ none
    unfolding get_database_connection
    get_database_connection-cache_err w config e read failed =
        rw (read, get_database_connection)
          (connected_err config _ e (rw (read, get_database_connection) at failed))
