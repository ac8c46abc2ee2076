-- ===== src/Connection/Interleaved/Traced/Places.antt =====
-- What is known at each place of `GetDatabaseConnection`, whatever other goroutines do.
use mysql_dba_operator.Base.{Bytes, ◌≡◌, Option, none, some, [], ◌∷◌, ◌++◌, codes}
use mysql_dba_operator.Api.{AdminConnection}
use mysql_dba_operator.Orm.{Handle, Pool, DbConfig, ConnectionDefinition, database_name}
use mysql_dba_operator.World.{
  Env, World, Log, Event, Error, ok, err, sql_open, ping, gorm_open, exec,
}
use mysql_dba_operator.Connection.Sound.{opening}
use mysql_dba_operator.Connection.Interleaved.{Pc}
use mysql_dba_operator.Connection.Interleaved.Traced.Order.{InOrder, InOrder-later}

-- The calls that open a connection with this configuration stand in the log, in this order.
pub record Opens (config : DbConfig) (db : Handle) (log : Log) : Type 0 where
  pub pool : Pool
  pub created : Option Error
  pub used : Option Error
  pub calls : InOrder (opening config pool db created used) log

pub Opens-later :
    {config : DbConfig} {db : Handle} {log : Log} (event : Event)
    → Opens config db log
    → Opens config db (log ++ event ∷ [])
Opens-later event o = record {
  pool = o.pool;
  created = o.created;
  used = o.used;
  calls = InOrder-later event o.calls;
}

-- Every entry of the cache was opened.
abbrev pub Filled : World → Type 0
Filled w =
    (uid : Bytes) (conn : ConnectionDefinition)
    → w.cache uid ≡ some conn
    → Opens conn.config conn.db w.log

-- The configuration is for the host and the port of the connection resource.
pub record IsFor (env : Env) (admin : AdminConnection) (config : DbConfig) : Type 0 where
  pub addressed : config.addr ≡ admin.spec.host ++ (codes ":" ++ env.itoa admin.spec.port)

-- The calls so far, at the places where a connection is opened.
abbrev pub tested : DbConfig → Pool → Log
tested config pool = sql_open config (ok pool) ∷ ping pool none ∷ []

abbrev pub wrapped : DbConfig → Pool → Handle → Log
wrapped config pool db = tested config pool ++ gorm_open pool (ok db) ∷ []

abbrev pub created_in : DbConfig → Pool → Handle → Option Error → Log
created_in config pool db created =
    wrapped config pool db
    ++ exec db (codes "CREATE DATABASE IF NOT EXISTS " ++ database_name) created ∷ []

abbrev pub used_in : DbConfig → Pool → Handle → Option Error → Option Error → Log
used_in config pool db created used =
    created_in config pool db created ++ exec db (codes "USE " ++ database_name) used ∷ []

module _ (env : Env) (admin : AdminConnection) where
  -- What is known at each place of the program.
  unfoldable pub Known : Log → Pc → Type 0
  Known log Pc.reading_user = Unit {0}
  Known log (Pc.reading_password user) = Unit {0}
  Known log (Pc.looking_up config) = IsFor env admin config
  Known log (Pc.pooling config conn) = IsFor env admin config × Opens conn.config conn.db log
  Known log (Pc.pinging config db pool) = IsFor env admin config × Opens config db log
  Known log (Pc.closing config pool) = IsFor env admin config
  Known log (Pc.erasing config) = IsFor env admin config
  Known log (Pc.opening_pool config) = IsFor env admin config
  Known log (Pc.testing config pool) =
      IsFor env admin config × InOrder (sql_open config (ok pool) ∷ []) log
  Known log (Pc.wrapping config pool) = IsFor env admin config × InOrder (tested config pool) log
  Known log (Pc.creating config pool db) =
      IsFor env admin config × InOrder (wrapped config pool db) log
  Known log (Pc.using config pool db) =
      IsFor env admin config
      × ((created : Option Error) × InOrder (created_in config pool db created) log)
  Known log (Pc.migrating config pool db) =
      IsFor env admin config
      × ((created : Option Error) × (used : Option Error) × InOrder
            (used_in config pool db created used) log)
  Known log (Pc.discarding pool e) = Unit {0}
  Known log (Pc.entering config db) = IsFor env admin config × Opens config db log
  Known log (Pc.returned (ok db)) =
      (config : DbConfig) × (IsFor env admin config × Opens config db log)
  Known log (Pc.returned (err e)) = Unit {0}

  pub Known-later :
      (pc : Pc) (log : Log) (event : Event) → Known log pc → Known (log ++ event ∷ []) pc
  unfolding Known
  Known-later Pc.reading_user log event k = tt
  Known-later (Pc.reading_password user) log event k = tt
  Known-later (Pc.looking_up config) log event k = k
  Known-later (Pc.pooling config conn) log event (f, o) = (f, Opens-later event o)
  Known-later (Pc.pinging config db pool) log event (f, o) = (f, Opens-later event o)
  Known-later (Pc.closing config pool) log event k = k
  Known-later (Pc.erasing config) log event k = k
  Known-later (Pc.opening_pool config) log event k = k
  Known-later (Pc.testing config pool) log event (f, o) = (f, InOrder-later event o)
  Known-later (Pc.wrapping config pool) log event (f, o) = (f, InOrder-later event o)
  Known-later (Pc.creating config pool db) log event (f, o) = (f, InOrder-later event o)
  Known-later (Pc.using config pool db) log event (f, (c, o)) = (f, (c, InOrder-later event o))
  Known-later (Pc.migrating config pool db) log event (f, (c, u, o)) =
      (f, (c, u, InOrder-later event o))
  Known-later (Pc.discarding pool e) log event k = tt
  Known-later (Pc.entering config db) log event (f, o) = (f, Opens-later event o)
  Known-later (Pc.returned (ok db)) log event (c, (f, o)) = (c, (f, Opens-later event o))
  Known-later (Pc.returned (err e)) log event k = tt
