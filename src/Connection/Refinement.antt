-- ===== src/Connection/Refinement.antt =====
-- `GetDatabaseConnection` as an operation on a map from UIDs to connections.
use mysql_dba_operator.Base.{Bytes, ◌≡◌, ◌≢◌, refl, subst, Option, none, some, arith}
use mysql_dba_operator.Api.{AdminConnection}
use mysql_dba_operator.Orm.{Handle, DbConfig, ConnectionDefinition}
use mysql_dba_operator.World.{Env, World, Cache, Error, Result, ok, err}
use mysql_dba_operator.World.Exec.{Outcome, done, call, get_cache}
use mysql_dba_operator.World.Total.{
  Total, Returns-bind, Returns-pure, Total-set_cache, Total-of_ne_panic,
}
use mysql_dba_operator.Connection.{
  get_secret_at, get_secret_ref_value, secret_or, get_db_config, run, switch_database, migrated,
  opened, create_fresh_connection, pinged, closed, reusable, renewed, connected,
  get_database_connection, close_pool, pool_of_handle, ping_pool,
}
use mysql_dba_operator.Connection.Cached.{
  get_db_config-Keeps, reusable-Keeps, reusable-eq, renewed_other, renewed_ok, renewed_err,
}

-- The map after a write of one entry.
pub record Puts (uid : Bytes) (entry : Option ConnectionDefinition) (before after : Cache)
    : Type 0 where
  pub entered : after uid ≡ entry
  pub others : (other : Bytes) → uid ≢ other → after other ≡ before other

-- The operation, by the configuration that was read and the result: without a configuration nothing
-- changes; an entry of this configuration may be handed out as it is; else the entry is replaced by the
-- new connection that is handed out, or taken away with an error.
pub data Obtains (uid : Bytes) (before after : Cache)
    : Result DbConfig → Result Handle → Type 0 where
  unread : (e : Error) → after ≡ before → Obtains uid before after (err e) (err e)
  reused :
      (config : DbConfig) (db : Handle)
      → before uid ≡ some (record { config = config; db = db })
      → after ≡ before
      → Obtains uid before after (ok config) (ok db)
  replaced :
      (config : DbConfig) (db : Handle)
      → Puts uid (some (record { config = config; db = db })) before after
      → Obtains uid before after (ok config) (ok db)
  dropped :
      (config : DbConfig) (e : Error)
      → Puts uid none before after
      → Obtains uid before after (ok config) (err e)

-- A run that began with the cache `before` returned, and did one of these.
abbrev pub Obtained : Bytes → Result DbConfig → Cache → Outcome (Result Handle) × World → Type 0
Obtained uid config before (o, w) =
    (db : Result Handle) × (o ≡ done db) × Obtains uid before w.cache config db

module _ (env : Env) where
  pub get_db_config-Total : (admin : AdminConnection) → Total (get_db_config env admin)
  unfolding get_db_config secret_or get_secret_ref_value get_secret_at call
  get_db_config-Total admin = Total-of_ne_panic _ (λ w. ground arith)

  create_fresh_connection-Total : (config : DbConfig) → Total (create_fresh_connection env config)
  unfolding create_fresh_connection opened migrated switch_database run close_pool ping_pool call
  create_fresh_connection-Total config = Total-of_ne_panic _ (λ w. ground arith)

  reusable-Total :
      (conn : Option ConnectionDefinition) (config : DbConfig) → Total (reusable env conn config)
  unfolding reusable pinged closed close_pool pool_of_handle ping_pool call
  reusable-Total none config = Returns-pure none tt
  reusable-Total (some conn) config = Total-of_ne_panic _ (λ w. ground arith)

  module _ (admin : AdminConnection) where
    renewed-Total : (config : DbConfig) → Total (renewed env admin config)
    unfolding renewed
    renewed-Total config = Returns-bind _ _ (Total-set_cache _ _) (λ _ _.
        Returns-bind _ _ (create_fresh_connection-Total config) (elim [
          | err e ↦ λ _. Returns-pure (err e) tt
          | ok db ↦ λ _. Returns-bind _ _ (Total-set_cache _ _) (λ _ _. Returns-pure (ok db) tt)
        ]))

    renewed-Obtained :
        (config : DbConfig) (w : World)
        → Obtained admin.meta.uid (ok config) w.cache (renewed env admin config w)
    renewed-Obtained config w = go ((renewed-Total config).at w)
      where
        go :
            (db : Result Handle) × ((renewed env admin config w).0 ≡ done db) × Unit {0}
            → Obtained admin.meta.uid (ok config) w.cache (renewed env admin config w)
        go (ok db, e, _) = (
          ok db,
          e,
          replaced config db (record {
            entered = renewed_ok env admin config w db e;
            others = renewed_other env admin config w;
          }),
        )
        go (err f, e, _) = (
          err f,
          e,
          dropped config f (record {
            entered = renewed_err env admin config w f e;
            others = renewed_other env admin config w;
          }),
        )

    connected-Obtained :
        (config : DbConfig) (w : World)
        → Obtained admin.meta.uid (ok config) w.cache (connected env admin config w)
    unfolding connected get_cache
    connected-Obtained config w = go ((reusable-Total (w.cache admin.meta.uid) config).at w)
      where
        conn : Option ConnectionDefinition
        conn = w.cache admin.meta.uid

        same : (reusable env conn config w).1.cache ≡ w.cache
        same = (reusable-Keeps env conn config).at w

        go :
            (reuse : Option Handle) × ((reusable env conn config w).0 ≡ done reuse) × Unit {0}
            → Obtained admin.meta.uid (ok config) w.cache (connected env admin config w)
        go (some db, e, _) =
            rw (e) (ok db, refl, reused config db (reusable-eq env conn config w db e) same)
        go (none, e, _) = rw (e) (
            subst
              (λ (c : Cache).
                Obtained admin.meta.uid (ok config) c
                  (renewed env admin config (reusable env conn config w).1))
              same (renewed-Obtained config (reusable env conn config w).1))

    -- `GetDatabaseConnection` returns without a panic, whatever the environment replies, and is one
    -- operation on the map from UIDs to connections (`Obtains`): if the configuration could not be
    -- read, the map is unchanged and the error is returned; else it returns the entry's handle, where
    -- the entry has that configuration, and leaves the map; or a handle that it enters for the UID with
    -- that configuration; or an error, and the UID has no entry. Other entries are never changed.
    pub get_database_connection-Obtained :
        (w : World)
        → (config : Result DbConfig) × ((get_db_config env admin w).0 ≡ done config)
          × Obtained admin.meta.uid config w.cache (get_database_connection env admin w)
    unfolding get_database_connection
    get_database_connection-Obtained w = go ((get_db_config-Total admin).at w)
      where
        same : (get_db_config env admin w).1.cache ≡ w.cache
        same = (get_db_config-Keeps env admin).at w

        go :
            (config : Result DbConfig) × ((get_db_config env admin w).0 ≡ done config) × Unit {0}
            → (config : Result DbConfig) × ((get_db_config env admin w).0 ≡ done config)
              × Obtained admin.meta.uid config w.cache (get_database_connection env admin w)
        go (err f, e, _) = (err f, e, rw (e) (err f, refl, unread f same))
        go (ok config, e, _) = (
          ok config,
          e,
          rw (e) (
              subst
                (λ (c : Cache).
                  Obtained admin.meta.uid (ok config) c
                    (connected env admin config (get_db_config env admin w).1))
                same (connected-Obtained config (get_db_config env admin w).1)),
        )

    pub get_database_connection-Total : Total (get_database_connection env admin)
    get_database_connection-Total = record {
      at = λ w. let (_, _, (db, e, _)) = get_database_connection-Obtained w in (db, e, tt);
    }
