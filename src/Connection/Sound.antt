-- ===== src/Connection/Sound.antt =====
-- Of the connection cache: every entry was opened with the configuration that it is kept under.
use mysql_dba_operator.Base.{
  Bytes, ◌≡◌, ◌≢◌, ◌⊎◌, refl, sym, ◌∙◌, ap, subst, Option, none, some, [], ◌∷◌, ◌++◌, append_assoc,
  codes, ◌==◌, Option-cases, Bool-cases, inl, inr,
}
use mysql_dba_operator.Api.{AdminConnection}
use mysql_dba_operator.Orm.{Handle, Pool, DbConfig, ConnectionDefinition, database_name}
use mysql_dba_operator.World.{
  Env, World, Log, Event, Error, Result, ok, err, sql_open, ping, gorm_open, exec, auto_migrate,
}
use mysql_dba_operator.World.Exec.{done, pure, ◌>>◌, call, get_cache, set_cache, update}
use mysql_dba_operator.World.Traces.{Moves, Moves-bind, Moves-bind_at}
use mysql_dba_operator.World.Steps.{AdmitsCalls, steps}
use mysql_dba_operator.Connection.{
  run, switch_database, migrated, opened, create_fresh_connection, ping_pool, close_pool, renewed,
  connected, get_database_connection,
}
use mysql_dba_operator.Connection.Steps.{
  get_db_config-Steps, create_fresh_connection-Steps, reusable-Steps,
}

-- The calls that open a connection: the pool answers a ping, and the control database is made and
-- migrated.
abbrev pub opening : DbConfig → Pool → Handle → Option Error → Option Error → Log
opening config pool db created used =
    sql_open config (ok pool)
    ∷ ping pool none
    ∷ gorm_open pool (ok db)
    ∷ exec db (codes "CREATE DATABASE IF NOT EXISTS " ++ database_name) created
    ∷ exec db (codes "USE " ++ database_name) used
    ∷ auto_migrate db none
    ∷ []

-- They stand in the log, one after the other.
pub record Opened (config : DbConfig) (db : Handle) (log : Log) : Type 0 where
  pub before : Log
  pub pool : Pool
  pub created : Option Error
  pub used : Option Error
  pub after : Log
  pub split : log ≡ before ++ (opening config pool db created used ++ after)

-- Every entry of the cache was opened with its configuration.
abbrev pub Sound : World → Type 0
Sound w =
    (uid : Bytes) (conn : ConnectionDefinition)
    → w.cache uid ≡ some conn
    → Opened conn.config conn.db w.log

abbrev pub KeepsSound : World → World → Type 0
KeepsSound w v = Sound w → Sound v

Opened-later :
    {config : DbConfig} {db : Handle} {log : Log} (event : Event)
    → Opened config db log
    → Opened config db (log ++ event ∷ [])
Opened-later event o = record {
  before = o.before;
  pool = o.pool;
  created = o.created;
  used = o.used;
  after = o.after ++ event ∷ [];
  split =
      ap (λ (l : Log). l ++ event ∷ []) o.split
      ∙ append_assoc o.before _ _
      ∙ ap (λ (l : Log). o.before ++ l)
          (append_assoc (opening _ o.pool _ o.created o.used) o.after _);
}

pub KeepsSound-AdmitsCalls : AdmitsCalls KeepsSound
KeepsSound-AdmitsCalls = record {
  order = record { here = λ w s. s; chain = λ f g s. g (f s) };
  logs = λ event w s uid conn e. Opened-later event (s uid conn e);
}

ok_injective : {a b : Handle} → done (ok a) ≡ done (ok b) → a ≡ b
ok_injective h = cc

err-ne_ok : {e : Error} {a : Handle} → done (err e) ≢ done (ok a)
err-ne_ok h = cc

pub Result-cases :
    {A : Type 0} (r : Result A) → ((a : A) × (r ≡ ok a)) ⊎ ((e : Error) × (r ≡ err e))
Result-cases (ok a) = inl (a, refl)
Result-cases (err e) = inr (e, refl)

module _ (env : Env) where
  migrated-Opened :
      (config : DbConfig) (pool : Pool) (d db : Handle) (w : World) (before : Log)
      → w.log ≡ before ++ (sql_open config (ok pool) ∷ ping pool none ∷ gorm_open pool (ok d) ∷ [])
      → (migrated env pool d w).0 ≡ done (ok db)
      → Opened config db (migrated env pool d w).1.log
  unfolding migrated switch_database run close_pool call
  migrated-Opened config pool d db w before e h = elim (Option-cases (env.auto_migrate log2 d)) [
    | inl passed ↦
        let same : d ≡ db = ok_injective (rw (passed) at h) in
        rw (passed) (record {
          before = before;
          pool = pool;
          created = env.exec w.log d create;
          used = env.exec log1 d use_it;
          after = [];
          split = rw (sym same, e) (simp append_assoc);
        })
    | inr (x, failed) ↦ absurd (err-ne_ok (rw (failed) at h))
  ]
    where
      create : Bytes
      create = codes "CREATE DATABASE IF NOT EXISTS " ++ database_name

      use_it : Bytes
      use_it = codes "USE " ++ database_name

      log1 : Log
      log1 = w.log ++ exec d create (env.exec w.log d create) ∷ []

      log2 : Log
      log2 = log1 ++ exec d use_it (env.exec log1 d use_it) ∷ []

  opened-Opened :
      (config : DbConfig) (pool : Pool) (db : Handle) (w : World) (before : Log)
      → w.log ≡ before ++ (sql_open config (ok pool) ∷ ping pool none ∷ [])
      → (opened env pool w).0 ≡ done (ok db)
      → Opened config db (opened env pool w).1.log
  unfolding opened close_pool call
  opened-Opened config pool db w before e h = elim (Result-cases (env.gorm_open w.log pool)) [
    | inl (d, got) ↦ rw (got) (
        migrated-Opened config pool d db _ before
          (ap (λ (l : Log). l ++ gorm_open pool (ok d) ∷ []) e ∙ append_assoc before _ _)
          (rw (got) at h))
    | inr (x, failed) ↦ absurd (err-ne_ok (rw (failed) at h))
  ]

  create_fresh_connection-Opened :
      (config : DbConfig) (w : World) (db : Handle)
      → (create_fresh_connection env config w).0 ≡ done (ok db)
      → Opened config db (create_fresh_connection env config w).1.log
  unfolding create_fresh_connection ping_pool call
  create_fresh_connection-Opened config w db h = elim (Result-cases (env.sql_open w.log config)) [
    | inl (p, got) ↦
        let log1 : Log = w.log ++ sql_open config (ok p) ∷ [] in
        elim (Option-cases (env.ping log1 p)) [
          | inl passed ↦
              rw (got, passed)
                (opened-Opened config p db _ w.log (append_assoc w.log _ _) (rw (got, passed) at h))
          | inr (x, failed) ↦ absurd (err-ne_ok (rw (got, failed) at h))
        ]
    | inr (x, failed) ↦ absurd (err-ne_ok (rw (failed) at h))
  ]

  -- A write of no entry.
  erased-KeepsSound : (uid : Bytes) → Moves KeepsSound (set_cache uid none)
  unfolding set_cache update
  erased-KeepsSound uid = record {
    at = λ w s other conn e. elim (Bool-cases (uid == other)) [
      | inl here ↦ absurd (none-ne_some (rw (here) at e))
      | inr there ↦ s other conn (rw (there) at e)
    ];
  }
    where
      none-ne_some : {x : ConnectionDefinition} → none ≢ some x
      none-ne_some h = cc

  -- A write of an entry that was opened.
  entered-KeepsSound :
      (uid : Bytes) (conn : ConnectionDefinition) (w : World)
      → Opened conn.config conn.db w.log
      → KeepsSound w (set_cache uid (some conn) w).1
  unfolding set_cache update
  entered-KeepsSound uid conn w o s other conn' e = elim (Bool-cases (uid == other)) [
    | inl here ↦
        subst (λ (x : ConnectionDefinition). Opened x.config x.db w.log)
          (some_injective (rw (here) at e)) o
    | inr there ↦ s other conn' (rw (there) at e)
  ]
    where
      some_injective : {x y : ConnectionDefinition} → some x ≡ some y → x ≡ y
      some_injective h = cc

  looked_up-KeepsSound : (uid : Bytes) → Moves KeepsSound (get_cache uid)
  unfolding get_cache
  looked_up-KeepsSound uid = record { at = λ w s. s }

  -- What a renewed connection does last.
  saved-KeepsSound :
      (uid : Bytes) (config : DbConfig) (db : Handle) (w : World)
      → Opened config db w.log
      → KeepsSound w
          ((set_cache uid (some (record { config = config; db = db }))
              >> pure {A = Result Handle} (ok db))
            w).1
  unfolding set_cache
  saved-KeepsSound uid config db w o =
      entered-KeepsSound uid (record { config = config; db = db }) w o

  module _ (admin : AdminConnection) where
    renewed-KeepsSound : (config : DbConfig) → Moves KeepsSound (renewed env admin config)
    unfolding renewed
    renewed-KeepsSound config =
        Moves-bind KeepsSound-AdmitsCalls.order _ _ (erased-KeepsSound admin.meta.uid) (λ _.
          Moves-bind_at KeepsSound-AdmitsCalls.order _ _
            (create_fresh_connection-Steps KeepsSound-AdmitsCalls env config)
            (λ w. elim [
              | err x ↦ λ _ s. s
              | ok db ↦ λ made.
                  saved-KeepsSound admin.meta.uid config db _
                    (create_fresh_connection-Opened config w db made)
            ]))

    connected-KeepsSound : (config : DbConfig) → Moves KeepsSound (connected env admin config)
    unfolding connected
    connected-KeepsSound config =
        Moves-bind KeepsSound-AdmitsCalls.order _ _ (looked_up-KeepsSound admin.meta.uid) (λ conn.
          Moves-bind KeepsSound-AdmitsCalls.order _ _
            (reusable-Steps KeepsSound-AdmitsCalls env conn config)
            (elim [
              | some db ↦ search (steps, KeepsSound-AdmitsCalls)
              | none ↦ renewed-KeepsSound config
            ]))

    pub get_database_connection-KeepsSound : Moves KeepsSound (get_database_connection env admin)
    unfolding get_database_connection
    get_database_connection-KeepsSound =
        Moves-bind KeepsSound-AdmitsCalls.order _ _
          (get_db_config-Steps KeepsSound-AdmitsCalls env admin)
          (elim [
            | err x ↦ search (steps, KeepsSound-AdmitsCalls)
            | ok config ↦ connected-KeepsSound config
          ])
